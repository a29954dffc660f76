-- ===== src/Inode/Direct.antt =====
-- The first step of `bmap`: an entry of `addrs` is found or allocated.
use exp.Base.{
  ℕ, suc, ◌-◌, ◌*◌, ◌==◌, ◌≤◌, ◌<◌, ◌≡◌, ◌≢◌, ◌⊎◌, inl, inr, refl, ap, sym, ◌∙◌, subst, Bool, true,
  ◌||◌, List, length, get_or, set, if◌then◌else◌, arith, dec_lt, ℕ_discrete, length-set,
  get_or-set_self, get_or-set_ne, Outcome, done, panic,
}
use exp.Fs.{Disk, balloc}
use exp.Fs.Bitmap.{used}
use exp.Fs.Alloc.{Allocated, balloc_lem}
use exp.Inode.{Inode, load_le, ndirect, max_file, addrs_entry}
use exp.Inode.Words.{load_zero}
use exp.Inode.Owned.{place, Owns, Owns-extend}
use exp.Inode.Step.{place-direct, place-table, place-entry, Step, Step-kept}

-- The block that `balloc` took is none of the inode's, and these stay as they are.
module _ (ip : Inode) (d : Disk) (a : ℕ) (d' : Disk) (o : Owns (place ip.addrs d) d)
    (new : Allocated d a d') where
  pub blocks_stay :
      (r : ℕ)
      → r ≤ max_file
      → place ip.addrs d r ≢ 0
      → d'.blocks (place ip.addrs d r) ≡ d.blocks (place ip.addrs d r)
  blocks_stay r le h =
      new.others (place ip.addrs d r) (λ e. cc (new.free, (o.in_use r le h).1, ap (used d) e))
        (λ e. o.apart r le h a new.inside (sym e))

  pub new_nonzero : a ≢ 0
  new_nonzero e = cc (new.free, o.boot.1, ap (used d) e)

  pub new_still : (c : ℕ) → c < d.sb.size → used d c ≡ true → used d' c ≡ true
  new_still c lt u = new.now_used c lt ∙ ap (λ t. (a == c) || t) u ∙ or_true (a == c)
    where
      or_true : (t : Bool) → (t || true) ≡ true
      or_true t = ground arith

  pub new_spent : (c : ℕ) → c < d.sb.size → c ≢ a → used d' c ≡ true → used d c ≡ true
  new_spent c lt ne u = unused a c (used d c) ne (sym (new.now_used c lt) ∙ u)
    where
      unused : (a c : ℕ) (t : Bool) → c ≢ a → ((a == c) || t) ≡ true → t ≡ true
      unused a c t ne h = ground arith

  pub table_stays :
      get_or ip.addrs ndirect 0 ≢ 0
      → d'.blocks (get_or ip.addrs ndirect 0) ≡ d.blocks (get_or ip.addrs ndirect 0)
  table_stays nz =
      subst (λ b. d'.blocks b ≡ d.blocks b) (place-table ip.addrs d)
        (blocks_stay max_file (omega arith) (λ z. nz (sym (place-table ip.addrs d) ∙ z)))

  entry_stays :
      (l : List ℕ) (r : ℕ)
      → ndirect ≤ r
      → r < max_file
      → get_or l ndirect 0 ≡ get_or ip.addrs ndirect 0
      → place l d' r ≡ place ip.addrs d r
  entry_stays l r lo hi e = elim (ℕ_discrete (get_or ip.addrs ndirect 0) 0) [
    | yes z ↦ (place-entry l d' r lo hi).0 (e ∙ z) ∙ sym ((place-entry ip.addrs d r lo hi).0 z)
    | no nz ↦
        (place-entry l d' r lo hi).1 (λ z. nz (sym e ∙ z))
        ∙ ap (λ b. load_le 4 (d'.blocks b) (4 * (r - ndirect))) e
        ∙ ap (λ m. load_le 4 m (4 * (r - ndirect))) (table_stays nz)
        ∙ sym ((place-entry ip.addrs d r lo hi).1 nz)
  ]

  -- The table with an entry set to the new block.
  set_direct :
      (k r : ℕ)
      → k < ndirect
      → length ip.addrs ≡ suc ndirect
      → r ≤ max_file
      → k ≢ r
      → place (set ip.addrs k a) d' r ≡ place ip.addrs d r
  set_direct k r small len le ne = elim (dec_lt r ndirect) [
    | yes direct ↦
        place-direct (set ip.addrs k a) d' r direct
        ∙ get_or-set_ne ip.addrs k r a 0 ne
        ∙ sym (place-direct ip.addrs d r direct)
    | no indirect ↦ elim (ℕ_discrete r max_file) [
      | yes table ↦
          ap (place (set ip.addrs k a) d') table
          ∙ place-table (set ip.addrs k a) d'
          ∙ get_or-set_ne ip.addrs k ndirect a 0 (omega arith)
          ∙ sym (ap (place ip.addrs d) table ∙ place-table ip.addrs d)
      | no entry ↦
          entry_stays (set ip.addrs k a) r (omega arith) (omega arith)
            (get_or-set_ne ip.addrs k ndirect a 0 (omega arith))
    ]
  ]

  set_table :
      (r : ℕ)
      → length ip.addrs ≡ suc ndirect
      → get_or ip.addrs ndirect 0 ≡ 0
      → r < max_file
      → place (set ip.addrs ndirect a) d' r ≡ place ip.addrs d r
  set_table r len none_there le = elim (dec_lt r ndirect) [
    | yes direct ↦
        place-direct (set ip.addrs ndirect a) d' r direct
        ∙ get_or-set_ne ip.addrs ndirect r a 0 (omega arith)
        ∙ sym (place-direct ip.addrs d r direct)
    | no entry ↦
        let here : get_or (set ip.addrs ndirect a) ndirect 0 ≡ a =
          get_or-set_self ip.addrs ndirect a 0 (omega arith) in
        (place-entry (set ip.addrs ndirect a) d' r (omega arith) le).1
          (λ z. new_nonzero (sym here ∙ z))
        ∙ ap (λ b. load_le 4 (d'.blocks b) (4 * (r - ndirect))) here
        ∙ load_zero 4 (d'.blocks a) (4 * (r - ndirect)) new.zeroed
        ∙ sym ((place-entry ip.addrs d r (omega arith) le).0 none_there)
  ]

  -- What an allocation for place `q` leaves, the places being those of `l`.
  Step-new :
      (q : ℕ) (l : List ℕ)
      → q ≤ max_file
      → place ip.addrs d q ≡ 0
      → length l ≡ suc ndirect
      → place l d' q ≡ a
      → ((r : ℕ) → r ≤ max_file → q ≢ r → place l d' r ≡ place ip.addrs d r)
      → Step q ip d a (record ip { addrs = l }) d'
  Step-new q l le none_there len there others = record {
    some_block = new_nonzero;
    there = there;
    kept = λ h. absurd (h none_there);
    others = others;
    same_data = λ r lt h. blocks_stay r (omega arith) h;
    fresh = λ z i. new.zeroed i;
    owns = Owns-extend (place ip.addrs d) (place l d') d d' a q o new le none_there there others;
    only_addrs = refl;
    entries = len;
    same_sb = new.same_sb;
    was_free = λ z. new.free;
    still = new_still;
    spent = new_spent;
  }

Step-set :
    (ip : Inode) (d : Disk) (a : ℕ) (d' : Disk)
    → Owns (place ip.addrs d) d
    → Allocated d a d'
    → (k q : ℕ) → length ip.addrs ≡ suc ndirect
    → get_or ip.addrs k 0 ≡ 0
    → ((k < ndirect) × (q ≡ k)) ⊎ ((k ≡ ndirect) × (q ≡ max_file))
    → Step q ip d a (record ip { addrs = set ip.addrs k a }) d'
Step-set ip d a d' o new k q len z (inl (lt, e)) =
    subst (λ q. Step q ip d a (record ip { addrs = set ip.addrs k a }) d') (sym e)
      (Step-new ip d a d' o new k (set ip.addrs k a) (omega arith)
        (place-direct ip.addrs d k lt ∙ z) (length-set ip.addrs k a ∙ len)
        (place-direct (set ip.addrs k a) d' k lt
          ∙ get_or-set_self ip.addrs k a 0 (omega (arith, len)))
        (λ r le ne. set_direct ip d a d' o new k r lt len le ne))
Step-set ip d a d' o new k q len z (inr (en, e)) =
    subst (λ q. Step q ip d a (record ip { addrs = set ip.addrs k a }) d') (sym e)
      (subst (λ k. Step max_file ip d a (record ip { addrs = set ip.addrs k a }) d') (sym en)
        (Step-new ip d a d' o new max_file (set ip.addrs ndirect a) (omega arith)
          (place-table ip.addrs d ∙ none_there) (length-set ip.addrs ndirect a ∙ len)
          (place-table (set ip.addrs ndirect a) d'
            ∙ get_or-set_self ip.addrs ndirect a 0 (omega (arith, len)))
          (λ r le ne. set_table ip d a d' o new r len none_there (omega arith))))
  where
    none_there : get_or ip.addrs ndirect 0 ≡ 0
    none_there = ap (λ j. get_or ip.addrs j 0) (sym en) ∙ z

abbrev pub IsFull : Disk → Type 0
IsFull d = (c : ℕ) → c < d.sb.size → used d c ≡ true

-- The place that entry `k` of `addrs` is.
abbrev role : ℕ → ℕ
role k = if k == ndirect then max_file else k

addrs_entry-done :
    (ip : Inode) (k a : ℕ) (d d' : Disk)
    → get_or ip.addrs k 0 ≡ 0
    → balloc d ≡ done (a, d')
    → addrs_entry ip k d ≡ done (a, record ip { addrs = set ip.addrs k a }, d')
unfolding addrs_entry
addrs_entry-done ip k a d d' z e = rw (z, e) refl

addrs_entry-panic :
    (ip : Inode) (k : ℕ) (d : Disk)
    → get_or ip.addrs k 0 ≡ 0
    → balloc d ≡ panic
    → addrs_entry ip k d ≡ panic
unfolding addrs_entry
addrs_entry-panic ip k d z e = rw (z, e) refl

addrs_entry-kept :
    (ip : Inode) (k : ℕ) (d : Disk)
    → get_or ip.addrs k 0 ≢ 0
    → addrs_entry ip k d ≡ done (get_or ip.addrs k 0, ip, d)
unfolding addrs_entry
addrs_entry-kept ip k d nz = ground arith

abbrev pub Outcomes : ℕ → Inode → Disk → Outcome (ℕ × Inode × Disk) → Type 0
Outcomes q ip d r =
    ((r ≡ panic) × (place ip.addrs d q ≡ 0) × IsFull d)
    ⊎ ((a : ℕ) × (ip' : Inode) × (d' : Disk) × (r ≡ done (a, ip', d')) × Step q ip d a ip' d')

pub addrs_entry-Outcomes :
    (ip : Inode) (k q : ℕ) (d : Disk)
    → Owns (place ip.addrs d) d
    → length ip.addrs ≡ suc ndirect
    → ((k < ndirect) × (q ≡ k)) ⊎ ((k ≡ ndirect) × (q ≡ max_file))
    → Outcomes q ip d (addrs_entry ip k d)
addrs_entry-Outcomes ip k q d o len which = elim (ℕ_discrete (get_or ip.addrs k 0) 0) [
  | no nz ↦ inr (
    get_or ip.addrs k 0,
    ip,
    d,
    addrs_entry-kept ip k d nz,
    Step-kept q (get_or ip.addrs k 0) ip d o len (entry_place ip.addrs d which) nz,
  )
  | yes z ↦ elim (balloc_lem d o.formatted) [
    | inl (e, full) ↦ inl (addrs_entry-panic ip k d z e, entry_place ip.addrs d which ∙ z, full)
    | inr (a, d', e, new) ↦ inr (
      a,
      record ip { addrs = set ip.addrs k a },
      d',
      addrs_entry-done ip k a d d' z e,
      Step-set ip d a d' o new k q len z which,
    )
  ]
]
  where
    entry_place :
        (l : List ℕ) (d : Disk)
        → ((k < ndirect) × (q ≡ k)) ⊎ ((k ≡ ndirect) × (q ≡ max_file))
        → place l d q ≡ get_or l k 0
    entry_place l d (inl (lt, e)) = ap (place l d) e ∙ place-direct l d k lt
    entry_place l d (inr (en, e)) =
        ap (place l d) e ∙ place-table l d ∙ ap (λ j. get_or l j 0) (sym en)
