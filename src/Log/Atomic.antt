-- ===== src/Log/Atomic.antt =====
-- Crashes during `commit` and during recovery. The disk that a crash leaves is always in one of
-- three phases, and recovery takes each of them to the old contents or to the new ones.
use exp.Base.{
  ℕ, suc, ◌+◌, ◌-◌, ◌≤◌, ◌<◌, ◌≡◌, ◌≢◌, refl, sym, ap, ◌∙◌, ◌⊎◌, inl, inr, some, List, [], ◌∷◌,
  length, take, get_elem?, arith, ℕ_discrete, ==_self, subst,
}
use exp.Log.{Block, Store, bwrite, write_log, install_trans, head_of, overwrite, with_head}

take-overwrite : (l ws : List ℕ) → length l ≤ length ws → take (length l) (overwrite l ws) ≡ l
unfolding overwrite
take-overwrite [] ws h = refl
take-overwrite (b ∷ bs) [] h = absurd (omega arith)
take-overwrite (b ∷ bs) (w ∷ ws) h = ap (λ r. b ∷ r) (take-overwrite bs ws (omega arith))

-- `read_head` reads back what `write_head` wrote, if the header fits in the block.
pub head_of-with_head :
    (l : List ℕ) (ws : Block) → suc (length l) ≤ length ws → head_of (with_head l ws) ≡ l
unfolding head_of with_head overwrite
head_of-with_head l [] h = absurd (omega arith)
head_of-with_head l (w ∷ ws) h = take-overwrite l ws (omega arith)

pub head_of-empty : (ws : Block) → head_of (with_head [] ws) ≡ []
unfolding head_of with_head overwrite
head_of-empty [] = refl
head_of-empty (w ∷ ws) = refl

module _ (a : ℕ) (v : Block) (m : Store) where
  pub bwrite_cache : (bwrite a v m).cache a ≡ v
  unfolding bwrite
  bwrite_cache = ground (arith, ==_self a)

  pub bwrite_cache_ne : (x : ℕ) → a ≢ x → (bwrite a v m).cache x ≡ m.cache x
  unfolding bwrite
  bwrite_cache_ne x h = ground arith

  pub bwrite_disk : 0 < m.power → (bwrite a v m).disk a ≡ v
  unfolding bwrite
  bwrite_disk h = ground (arith, ==_self a)

  pub bwrite_disk_ne : (x : ℕ) → a ≢ x → (bwrite a v m).disk x ≡ m.disk x
  unfolding bwrite
  bwrite_disk_ne x h = ground arith

  pub bwrite_dead : m.power ≡ 0 → (bwrite a v m).disk ≡ m.disk
  unfolding bwrite
  bwrite_dead h = ground arith

  pub power-bwrite : (bwrite a v m).power ≡ m.power - 1
  unfolding bwrite
  power-bwrite = refl

-- The transaction: the blocks `lh`, what the disk holds of the file system (`old`) and what the
-- cache holds of it (`new`). The log stands in the blocks `start … start + length lh`.
module _ (start : ℕ) (lh : List ℕ) (old new : ℕ → Block) where
  abbrev pub IsHome : ℕ → Type 0
  IsHome x = (x < start) ⊎ (start + length lh < x)

  -- No block of the log itself is logged, and a block that is not logged was not changed.
  pub record IsTransaction : Type 0 where
    pub home : (i b : ℕ) → get_elem? lh i ≡ some b → IsHome b
    pub clean : (x : ℕ) → IsHome x → ((i : ℕ) → get_elem? lh i ≢ some x) → old x ≡ new x

  abbrev pub Logged : ℕ → (ℕ → Block) → Type 0
  Logged j d = (i b : ℕ) → i < j → get_elem? lh i ≡ some b → d (start + i + 1) ≡ new b

  abbrev pub Installed : ℕ → (ℕ → Block) → Type 0
  Installed tail d =
      (x : ℕ) → IsHome x → ((i : ℕ) → tail ≤ i → get_elem? lh i ≢ some x) → d x ≡ new x

  pub record Before (d : ℕ → Block) : Type 0 where
    pub head : head_of (d start) ≡ []
    pub same : (x : ℕ) → IsHome x → d x ≡ old x

  pub record Committed (d : ℕ → Block) : Type 0 where
    pub head : head_of (d start) ≡ lh
    pub logged : Logged (length lh) d
    pub rest : Installed 0 d

  pub record After (d : ℕ → Block) : Type 0 where
    pub head : head_of (d start) ≡ []
    pub same : (x : ℕ) → IsHome x → d x ≡ new x

  -- `bs` is what is left of `lh` from index `tail` on.
  pub record IsRest (tail : ℕ) (bs : List ℕ) : Type 0 where
    pub at : (i : ℕ) → get_elem? bs i ≡ get_elem? lh (tail + i)
    pub size : tail + length bs ≡ length lh

  pub IsRest-all : IsRest 0 lh
  IsRest-all = record { at = λ i. ap (get_elem? lh) (omega arith); size = omega arith }

  IsRest-tail : (tail b : ℕ) (bs : List ℕ) → IsRest tail (b ∷ bs) → IsRest (tail + 1) bs
  IsRest-tail tail b bs r = record {
    at = λ i. r.at (suc i) ∙ ap (get_elem? lh) (omega arith);
    size = omega (arith, r.size);
  }

  IsRest-head : (tail b : ℕ) (bs : List ℕ) → IsRest tail (b ∷ bs) → get_elem? lh tail ≡ some b
  IsRest-head tail b bs r = ap (get_elem? lh) (omega arith) ∙ sym (r.at 0)

  -- The loop of `write_log` at index `tail`.
  pub record Writing (tail : ℕ) (m : Store) : Type 0 where
    pub before : Before m.disk
    pub fresh : (x : ℕ) → IsHome x → m.cache x ≡ new x
    pub cached : Logged tail m.cache
    pub written : 0 < m.power → Logged tail m.disk
    pub room : suc (length lh) ≤ length (m.cache start)

  Logged-step :
      (tail b : ℕ) (d d' : ℕ → Block)
      → get_elem? lh tail ≡ some b
      → d' (start + tail + 1) ≡ new b
      → ((x : ℕ) → start + tail + 1 ≢ x → d' x ≡ d x)
      → Logged tail d
      → Logged (tail + 1) d'
  Logged-step tail b d d' at here there v i c lt e = elim (ℕ_discrete i tail) [
    | yes same ↦
        ap d' (omega (arith, same))
        ∙ here
        ∙ ap new (some_eq (sym at ∙ ap (get_elem? lh) (sym same) ∙ e))
    | no other ↦ there (start + i + 1) (omega arith) ∙ v i c (omega arith) e
  ]
    where
      some_eq : {x y : ℕ} → some x ≡ some y → x ≡ y
      some_eq h = cc

  pub write_log-Writing :
      (t : IsTransaction) (tail : ℕ) (bs : List ℕ) (m : Store)
      → IsRest tail bs
      → Writing tail m
      → Writing (length lh) (write_log start tail bs m)
  unfolding write_log
  write_log-Writing t tail [] m r w = subst (λ k. Writing k m) (omega (arith, r.size)) w
  write_log-Writing t tail (b ∷ bs) m r w =
      write_log-Writing t (tail + 1) bs (bwrite (start + tail + 1) (m.cache b) m)
        (IsRest-tail tail b bs r)
        (record {
          before = record {
            head = ap head_of (bwrite_disk_ne a v m start (omega arith)) ∙ w.before.head;
            same = λ x h. bwrite_disk_ne a v m x (off x h) ∙ w.before.same x h;
          };
          fresh = λ x h. bwrite_cache_ne a v m x (off x h) ∙ w.fresh x h;
          cached =
              Logged-step tail b m.cache (bwrite a v m).cache here (bwrite_cache a v m ∙ value)
                (bwrite_cache_ne a v m) w.cached;
          written = λ p.
              Logged-step tail b m.disk (bwrite a v m).disk here
                (bwrite_disk a v m (alive p) ∙ value) (bwrite_disk_ne a v m) (w.written (alive p));
          room = rw (bwrite_cache_ne a v m start (omega arith)) w.room;
        })
    where
      a : ℕ
      a = start + tail + 1

      v : Block
      v = m.cache b

      here : get_elem? lh tail ≡ some b
      here = IsRest-head tail b bs r

      value : m.cache b ≡ new b
      value = w.fresh b (t.home tail b here)

      off : (x : ℕ) → IsHome x → a ≢ x
      off x (inl h) = omega arith
      off x (inr h) = omega (arith, r.size)

      alive : 0 < (bwrite a v m).power → 0 < m.power
      alive p = omega (arith, power-bwrite a v m)

  -- The loop of `install_trans` at index `tail`.
  pub record Installing (tail : ℕ) (m : Store) : Type 0 where
    pub committed : Committed m.disk
    pub cached : Logged (length lh) m.cache
    pub installed : 0 < m.power → Installed tail m.disk

  pub install_trans-Installing :
      (t : IsTransaction) (tail : ℕ) (bs : List ℕ) (m : Store)
      → IsRest tail bs
      → Installing tail m
      → Installing (length lh) (install_trans start tail bs m)
  unfolding install_trans
  install_trans-Installing t tail [] m r w = subst (λ k. Installing k m) (omega (arith, r.size)) w
  install_trans-Installing t tail (b ∷ bs) m r w =
      install_trans-Installing t (tail + 1) bs (bwrite b v m) (IsRest-tail tail b bs r) (record {
        committed = record {
          head =
              ap head_of (bwrite_disk_ne b v m start (off start (omega arith))) ∙ w.committed.head;
          logged = λ i c lt e.
              bwrite_disk_ne b v m (start + i + 1) (off (start + i + 1) (omega arith))
              ∙ w.committed.logged i c lt e;
          rest = λ x h fresh.
              bwrite_disk_ne b v m x (λ z. fresh tail (omega arith) (here ∙ ap some z))
              ∙ w.committed.rest x h fresh;
        };
        cached = λ i c lt e.
            bwrite_cache_ne b v m (start + i + 1) (off (start + i + 1) (omega arith))
            ∙ w.cached i c lt e;
        installed = λ p x h fresh. elim (ℕ_discrete b x) [
          | yes same ↦
              ap (bwrite b v m).disk (sym same) ∙ bwrite_disk b v m (alive p) ∙ value ∙ ap new same
          | no other ↦
              bwrite_disk_ne b v m x other
              ∙ w.installed (alive p) x h (λ i le e. later x fresh other i le e)
        ];
      })
    where
      v : Block
      v = m.cache (start + tail + 1)

      here : get_elem? lh tail ≡ some b
      here = IsRest-head tail b bs r

      value : v ≡ new b
      value = w.cached tail b (omega (arith, r.size)) here

      off : (x : ℕ) → (start ≤ x) × (x ≤ start + length lh) → b ≢ x
      off x h = elim (t.home tail b here) [ inl lo ↦ omega arith | inr hi ↦ omega arith ]

      alive : 0 < (bwrite b v m).power → 0 < m.power
      alive p = omega (arith, power-bwrite b v m)

      later :
          (x : ℕ)
          → ((i : ℕ) → tail + 1 ≤ i → get_elem? lh i ≢ some x)
          → b ≢ x
          → (i : ℕ) → tail ≤ i
          → get_elem? lh i ≢ some x
      later x fresh other i le e = elim (ℕ_discrete i tail) [
        | yes same ↦ other (some_eq (sym here ∙ ap (get_elem? lh) (sym same) ∙ e))
        | no ne ↦ fresh i (omega arith) e
      ]
        where
          some_eq : {y z : ℕ} → some y ≡ some z → y ≡ z
          some_eq h = cc
