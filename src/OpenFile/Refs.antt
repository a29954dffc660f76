-- ===== src/OpenFile/Refs.antt =====
-- The reference count of every file is the number of handles on it.
use exp.Base.{
  ℕ, zero, suc, ◌+◌, ◌-◌, ◌≤◌, ◌<◌, ◌%◌, ◌^◌, ◌==◌, ◌≡◌, ◌≢◌, refl, ap, sym, ◌∙◌, false, Option,
  none, some, List, [], ◌∷◌, length, get_elem?, set, arith, if◌then◌else◌, done, Bool-cases, inl,
  inr, ℕ_discrete, subst,
}
use exp.OpenFile.{
  File, filealloc, filedup, fileclose, add_index, unreferenced, Closers, close_last, fd_none,
  fd_pipe, fd_inode,
}

-- How many of the handles are on file `i`.
unfoldable pub handles_on : ℕ → List ℕ → ℕ
handles_on i [] = 0
handles_on i (h ∷ hs) = if h == i then suc (handles_on i hs) else handles_on i hs

-- The reference count of file `i`, and 0 outside the table.
unfoldable pub ref_of : ℕ → List File → ℕ
ref_of i [] = 0
ref_of zero (f ∷ fs) = f.ref
ref_of (suc i) (f ∷ fs) = ref_of i fs

abbrev pub Counted : List ℕ → List File → Type 0
Counted hs fs = (i : ℕ) → ref_of i fs ≡ handles_on i hs

handles_on-le : (i : ℕ) (hs : List ℕ) → handles_on i hs ≤ length hs
unfolding handles_on
handles_on-le i [] = omega arith
handles_on-le i (h ∷ hs) = ground (arith, handles_on-le i hs)

ref_of-set_self :
    (fs : List File) (i : ℕ) (f g : File) → get_elem? fs i ≡ some f → ref_of i (set fs i g) ≡ g.ref
unfolding ref_of
ref_of-set_self [] i f g e = absurd cc
ref_of-set_self (f' ∷ fs) zero f g e = refl
ref_of-set_self (f' ∷ fs) (suc i) f g e = ref_of-set_self fs i f g e

ref_of-set_ne : (fs : List File) (i j : ℕ) (g : File) → i ≢ j → ref_of j (set fs i g) ≡ ref_of j fs
unfolding ref_of
ref_of-set_ne [] i j g ne = refl
ref_of-set_ne (f ∷ fs) zero zero g ne = absurd (ne refl)
ref_of-set_ne (f ∷ fs) zero (suc j) g ne = refl
ref_of-set_ne (f ∷ fs) (suc i) zero g ne = refl
ref_of-set_ne (f ∷ fs) (suc i) (suc j) g ne = ref_of-set_ne fs i j g (λ e. ne (ap suc e))

get_elem?-set_self :
    (fs : List File) (i : ℕ) (f g : File)
    → get_elem? fs i ≡ some f
    → get_elem? (set fs i g) i ≡ some g
get_elem?-set_self [] i f g e = cc
get_elem?-set_self (f' ∷ fs) zero f g e = refl
get_elem?-set_self (f' ∷ fs) (suc i) f g e = get_elem?-set_self fs i f g e

get_elem?-set_ne :
    (fs : List File) (i j : ℕ) (g : File) → i ≢ j → get_elem? (set fs i g) j ≡ get_elem? fs j
get_elem?-set_ne [] i j g ne = refl
get_elem?-set_ne (f ∷ fs) zero zero g ne = absurd (ne refl)
get_elem?-set_ne (f ∷ fs) zero (suc j) g ne = refl
get_elem?-set_ne (f ∷ fs) (suc i) zero g ne = refl
get_elem?-set_ne (f ∷ fs) (suc i) (suc j) g ne = get_elem?-set_ne fs i j g (λ e. ne (ap suc e))

close_last_lem :
    {E : Type 0} (k : Closers E) (f : File) (e : E)
    → (f.type ≡ fd_none → close_last k f e ≡ e)
      × (f.type ≡ fd_pipe → close_last k f e ≡ k.pipeclose f.pipe f.writable e)
      × (f.type ≡ fd_inode → close_last k f e ≡ k.end_op (k.iput f.ip (k.begin_op e)))
close_last_lem k f e = (λ h. rw h refl, λ h. rw h refl, λ h. rw h refl)

-- A count above 0 is that of a file of the table.
ref_of-some :
    (fs : List File) (i : ℕ)
    → 0 < ref_of i fs
    → (f : File) × (get_elem? fs i ≡ some f) × (f.ref ≡ ref_of i fs)
unfolding ref_of
ref_of-some [] i h = absurd (omega arith)
ref_of-some (f ∷ fs) zero h = (f, refl, refl)
ref_of-some (f ∷ fs) (suc i) h = ref_of-some fs i h

handles_on-cons :
    (h : ℕ) (hs : List ℕ)
    → (handles_on h (h ∷ hs) ≡ suc (handles_on h hs))
      × ((i : ℕ) → h ≢ i → handles_on i (h ∷ hs) ≡ handles_on i hs)
unfolding handles_on
handles_on-cons h hs = (ground arith, λ i ne. ground arith)

-- What a run of `filealloc` finds.
Found : List File → Option (ℕ × List File) → Type 0
Found fs none = (i : ℕ) → i < length fs → ref_of i fs ≢ 0
Found fs (some (i, fs')) =
    (ref_of i fs ≡ 0)
    × (i < length fs)
    × (ref_of i fs' ≡ 1)
    × ((j : ℕ) → i ≢ j → ref_of j fs' ≡ ref_of j fs)

filealloc-next :
    (f : File) (fs : List File) (r : Option (ℕ × List File))
    → f.ref ≢ 0
    → Found fs r
    → Found (f ∷ fs) (add_index r f)
unfolding Found ref_of
filealloc-next f fs none used h = all_used
  where
    all_used : (i : ℕ) → i < suc (length fs) → ref_of i (f ∷ fs) ≢ 0
    all_used zero lt = used
    all_used (suc i) lt = h i (omega arith)
filealloc-next f fs (some (i, fs')) used (free, inside, taken, others) =
    (free, omega arith, taken, λ j ne. at j ne)
  where
    at : (j : ℕ) → suc i ≢ j → ref_of j (f ∷ fs') ≡ ref_of j (f ∷ fs)
    at zero ne = refl
    at (suc j) ne = others j (λ e. ne (ap suc e))

first-others :
    (f : File) (fs : List File) (j : ℕ)
    → 0 ≢ j
    → ref_of j (record f { ref = 1 } ∷ fs) ≡ ref_of j (f ∷ fs)
unfolding ref_of
first-others f fs zero ne = absurd (ne refl)
first-others f fs (suc j) ne = refl

filealloc-Found : (fs : List File) → Found fs (filealloc fs)
unfolding filealloc Found ref_of
filealloc-Found [] = λ i lt. absurd (omega arith)
filealloc-Found (f ∷ fs) = elim (Bool-cases (f.ref == 0)) [
  | inl free ↦ rw free (ground arith, omega arith, refl, first-others f fs)
  | inr used ↦ rw used (filealloc-next f fs (filealloc fs) (ground arith) (filealloc-Found fs))
]

abbrev pub Allocated : List ℕ → List File → Option (ℕ × List File) → Type 0
Allocated hs fs none = (i : ℕ) → i < length fs → 0 < handles_on i hs
Allocated hs fs (some (i, fs')) = (handles_on i hs ≡ 0) × (i < length fs) × Counted (i ∷ hs) fs'

-- `filealloc` gives a file of the table that nobody has a handle on, and fails only if every file
-- has one; the new handle is counted.
pub filealloc-Counted :
    (hs : List ℕ) (fs : List File) → Counted hs fs → Allocated hs fs (filealloc fs)
unfolding Found
filealloc-Counted hs fs c = counted (filealloc fs) (filealloc-Found fs)
  where
    counted : (r : Option (ℕ × List File)) → Found fs r → Allocated hs fs r
    counted none h = λ i lt. omega (arith, h i lt, c i)
    counted (some (i, fs')) (free, inside, taken, others) = (
      omega (arith, c i),
      inside,
      λ j. elim (ℕ_discrete i j) [
        | yes same ↦
            subst (λ j. ref_of j fs' ≡ handles_on j (i ∷ hs)) same
              (omega (arith, c i, (handles_on-cons i hs).0))
        | no ne ↦ others j ne ∙ c j ∙ sym ((handles_on-cons i hs).1 j ne)
      ],
    )

-- A handle more or less on file `i`, whose count becomes `n`.
Counted-set :
    (hs hs' : List ℕ) (fs : List File) (i : ℕ) (f g : File)
    → get_elem? fs i ≡ some f
    → g.ref ≡ handles_on i hs'
    → ((j : ℕ) → i ≢ j → handles_on j hs' ≡ handles_on j hs)
    → Counted hs fs
    → Counted hs' (set fs i g)
Counted-set hs hs' fs i f g at e others c j = elim (ℕ_discrete i j) [
  | yes same ↦
      subst (λ j. ref_of j (set fs i g) ≡ handles_on j hs') same (ref_of-set_self fs i f g at ∙ e)
  | no ne ↦ ref_of-set_ne fs i j g ne ∙ c j ∙ sym (others j ne)
]

ref_small : (f : File) → 0 < f.ref → f.ref < 2 ^ 31 → unreferenced f ≡ false
ref_small f more few = ground arith

filedup-done :
    (i : ℕ) (fs : List File) (f : File)
    → get_elem? fs i ≡ some f
    → unreferenced f ≡ false
    → filedup i fs ≡ done (set fs i (record f { ref = (f.ref + 1) % 2 ^ 32 }))
unfolding filedup
filedup-done i fs f at live = rw (at, filedup) (rw live refl)

fileclose-done :
    {E : Type 0} (k : Closers E) (i : ℕ) (fs : List File) (f : File) (e : E)
    → get_elem? fs i ≡ some f
    → unreferenced f ≡ false
    → (0 < f.ref - 1 → fileclose k i fs e ≡ done (set fs i (record f { ref = f.ref - 1 }), e))
      × (f.ref ≤ 1
          → fileclose k i fs e
            ≡ done (set fs i (record f { ref = 0; type = fd_none }), close_last k f e))
unfolding fileclose
fileclose-done k i fs f e at live = (
  λ shared. rw (at, fileclose) (rw live (ground arith)),
  λ last. rw (at, fileclose) (rw live (ground arith)),
)

-- `filedup` through a handle succeeds, and the copy of the handle is counted.
pub filedup-Counted :
    (i : ℕ) (hs : List ℕ) (fs : List File)
    → 0 < handles_on i hs
    → suc (length hs) < 2 ^ 31
    → Counted hs fs
    → (fs' : List File) × (filedup i fs ≡ done fs') × Counted (i ∷ hs) fs'
filedup-Counted i hs fs some_handle small c =
    let (f, at, e) = ref_of-some fs i (omega (arith, c i)) in
    let n : f.ref ≡ handles_on i hs = e ∙ c i in
    let (here, others) = handles_on-cons i hs in
    (
      set fs i (record f { ref = (f.ref + 1) % 2 ^ 32 }),
      filedup-done i fs f at
          (ref_small f (omega (arith, n)) (omega (arith, n, handles_on-le i hs))),
      Counted-set hs (i ∷ hs) fs i f (record f { ref = (f.ref + 1) % 2 ^ 32 }) at
          (omega (arith, n, here, handles_on-le i hs)) others c,
    )

-- With fewer than 2^31 handles, `fileclose` of a handle succeeds and the handle is counted no more.
-- While other handles are left it closes nothing, and only the count of the file changes; with the
-- last one the file becomes free, of type FD_NONE, and a pipe is closed, an inode given back in a
-- transaction of its own. The other files stay as they are.
pub fileclose-Counted :
    {E : Type 0} (k : Closers E) (i : ℕ) (hs : List ℕ) (fs : List File) (e : E)
    → suc (length hs) < 2 ^ 31
    → Counted (i ∷ hs) fs
    → (f : File) × (f' : File) × (fs' : List File) × (e' : E) × (get_elem? fs i ≡ some f)
      × (fileclose k i fs e ≡ done (fs', e'))
      × Counted hs fs'
      × (get_elem? fs' i ≡ some f')
      × ((j : ℕ) → i ≢ j → get_elem? fs' j ≡ get_elem? fs j)
      × (0 < handles_on i hs → (f' ≡ record f { ref = handles_on i hs }) × (e' ≡ e))
      × (handles_on i hs ≡ 0
          → (f' ≡ record f { ref = 0; type = fd_none })
            × (f.type ≡ fd_none → e' ≡ e)
            × (f.type ≡ fd_pipe → e' ≡ k.pipeclose f.pipe f.writable e)
            × (f.type ≡ fd_inode → e' ≡ k.end_op (k.iput f.ip (k.begin_op e))))
fileclose-Counted k i hs fs e small c =
    let (here, others) = handles_on-cons i hs in
    let (f, at, r) = ref_of-some fs i (omega (arith, c i, here)) in
    let n : f.ref ≡ suc (handles_on i hs) = r ∙ c i ∙ here in
    let live : unreferenced f ≡ false =
      ref_small f (omega (arith, n)) (omega (arith, n, handles_on-le i hs)) in
    let one_less : File = record f { ref = f.ref - 1 } in
    let freed : File = record f { ref = 0; type = fd_none } in
    elim (Bool-cases (handles_on i hs == 0)) [
      | inr shared ↦ (
        f,
        one_less,
        set fs i one_less,
        e,
        at,
        (fileclose-done k i fs f e at live).0 (ground (arith, n)),
        Counted-set (i ∷ hs) hs fs i f one_less at (omega (arith, n)) (λ j ne. sym (others j ne)) c,
        get_elem?-set_self fs i f one_less at,
        λ j ne. get_elem?-set_ne fs i j one_less ne,
        λ more. (ap (λ m. record f { ref = m }) (omega (arith, n)), refl),
        λ last. absurd (ground arith),
      )
      | inl last ↦ (
        f,
        freed,
        set fs i freed,
        close_last k f e,
        at,
        (fileclose-done k i fs f e at live).1 (ground (arith, n)),
        Counted-set (i ∷ hs) hs fs i f freed at (ground arith) (λ j ne. sym (others j ne)) c,
        get_elem?-set_self fs i f freed at,
        λ j ne. get_elem?-set_ne fs i j freed ne,
        λ more. absurd (ground arith),
        λ z. let (nothing, pipe, inode) = close_last_lem k f e in (refl, nothing, pipe, inode),
      )
    ]
