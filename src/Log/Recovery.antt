-- ===== src/Log/Recovery.antt =====
-- Whatever crash happens during `commit` or during recovery, the next recovery that completes
-- leaves the old contents of the file system or the new ones.
use exp.Base.{
  ℕ, suc, ◌+◌, ◌-◌, ◌≤◌, ◌<◌, ◌≡◌, ◌≢◌, refl, sym, ap, ◌∙◌, ◌⊎◌, inl, inr, List, [], ◌∷◌, length,
  get_elem?-lt, arith, subst, dec_lt,
}
use exp.Log.{Block, Store, bwrite, write_log, install_trans, head_of, with_head, write_head, commit}
use exp.Log.Atomic.{
  bwrite_cache_ne, bwrite_disk, bwrite_disk_ne, bwrite_dead, power-bwrite, head_of-with_head,
  head_of-empty, IsHome, IsTransaction, Before, Committed, After, IsRest-all, Writing, Installing,
  write_log-Writing, install_trans-Installing,
}

-- Without power the disk stays.
pub install_trans_dead :
    (start tail : ℕ) (bs : List ℕ) (m : Store)
    → m.power ≡ 0
    → ((install_trans start tail bs m).disk ≡ m.disk) × ((install_trans start tail bs m).power ≡ 0)
unfolding install_trans
install_trans_dead start tail [] m dead = (refl, dead)
install_trans_dead start tail (b ∷ bs) m dead =
    let m' : Store = bwrite b (m.cache (start + tail + 1)) m in
    let (same, off) =
      install_trans_dead start (tail + 1) bs m'
        (omega (arith, power-bwrite b (m.cache (start + tail + 1)) m)) in
    (same ∙ bwrite_dead b (m.cache (start + tail + 1)) m dead, off)

pub power-install_trans :
    (start tail : ℕ) (bs : List ℕ) (m : Store)
    → (install_trans start tail bs m).power ≡ m.power - length bs
unfolding install_trans
power-install_trans start tail [] m = omega arith
power-install_trans start tail (b ∷ bs) m = omega (
  arith,
  power-install_trans start (tail + 1) bs (bwrite b (m.cache (start + tail + 1)) m),
  power-bwrite b (m.cache (start + tail + 1)) m,
)

pub power-write_log :
    (start tail : ℕ) (bs : List ℕ) (m : Store)
    → (write_log start tail bs m).power ≡ m.power - length bs
unfolding write_log
power-write_log start tail [] m = omega arith
power-write_log start tail (b ∷ bs) m = omega (
  arith,
  power-write_log start (tail + 1) bs (bwrite (start + tail + 1) (m.cache b) m),
  power-bwrite (start + tail + 1) (m.cache b) m,
)

unfoldable pub commit_stages : ℕ → List ℕ → Store → Store
commit_stages start lh m =
    write_head start [] (install_trans start 0 lh (write_head start lh (write_log start 0 lh m)))

pub commit-cases :
    (start : ℕ) (lh : List ℕ) (m : Store)
    → ((lh ≡ []) × (commit start lh m ≡ m)) ⊎ (commit start lh m ≡ commit_stages start lh m)
unfolding commit commit_stages
commit-cases start [] m = inl (refl, refl)
commit-cases start (b ∷ bs) m = inr refl

module _ (start : ℕ) (lh : List ℕ) (old new : ℕ → Block) where
  -- What a crash can leave on the disk.
  pub data Phase (d : ℕ → Block) : Type 0 where
    before : Before start lh old new d → Phase d
    committed : Committed start lh old new d → Phase d
    after : After start lh old new d → Phase d

  pub off_home : (x : ℕ) → IsHome start lh old new x → start ≢ x
  off_home x (inl h) = omega arith
  off_home x (inr h) = omega arith

  -- Clearing the header once every block is installed.
  pub clear_head :
      (m : Store)
      → Installing start lh old new (length lh) m
      → (m.power ≡ 0 → Committed start lh old new (write_head start [] m).disk)
        × (0 < m.power → After start lh old new (write_head start [] m).disk)
  unfolding write_head
  clear_head m w = (
    λ dead. subst (Committed start lh old new) (sym (bwrite_dead start v m dead)) w.committed,
    λ alive. record {
      head = ap head_of (bwrite_disk start v m alive) ∙ head_of-empty (m.cache start);
      same = λ x h.
          bwrite_disk_ne start v m x (off_home x h)
          ∙ w.installed alive x h (λ i le e. absurd (omega (arith, get_elem?-lt lh i e)));
    },
  )
    where
      v : Block
      v = with_head [] (m.cache start)

  pub clear_head-Phase :
      (m : Store) → Installing start lh old new (length lh) m → Phase (write_head start [] m).disk
  clear_head-Phase m w = elim (dec_lt 0 m.power) [
    | yes alive ↦ after ((clear_head m w).1 alive)
    | no dead ↦ committed ((clear_head m w).0 (omega arith))
  ]

  -- The write of the header is the point of commitment.
  pub commit_point :
      (m : Store)
      → IsTransaction start lh old new
      → Writing start lh old new (length lh) m
      → (m.power ≡ 0 → Before start lh old new (write_head start lh m).disk)
        × (0 < m.power → Installing start lh old new 0 (write_head start lh m))
  unfolding write_head
  commit_point m t w = (
    λ dead. subst (Before start lh old new) (sym (bwrite_dead start v m dead)) w.before,
    λ alive. record {
      committed = record {
        head =
            ap head_of (bwrite_disk start v m alive) ∙ head_of-with_head lh (m.cache start) w.room;
        logged = λ i c lt e.
            bwrite_disk_ne start v m (start + i + 1) (omega arith) ∙ w.written alive i c lt e;
        rest = λ x h fresh.
            bwrite_disk_ne start v m x (off_home x h)
            ∙ w.before.same x h
            ∙ t.clean x h (λ i. fresh i (omega arith));
      };
      cached =
          λ i c lt e. bwrite_cache_ne start v m (start + i + 1) (omega arith) ∙ w.cached i c lt e;
      installed = λ p x h fresh.
          bwrite_disk_ne start v m x (off_home x h)
          ∙ w.before.same x h
          ∙ t.clean x h (λ i. fresh i (omega arith));
    },
  )
    where
      v : Block
      v = with_head lh (m.cache start)

  pub power-write_head : (l : List ℕ) (m : Store) → (write_head start l m).power ≡ m.power - 1
  unfolding write_head
  power-write_head l m = power-bwrite start (with_head l (m.cache start)) m

  pub write_head_dead :
      (l : List ℕ) (m : Store) → m.power ≡ 0 → (write_head start l m).disk ≡ m.disk
  unfolding write_head
  write_head_dead l m dead = bwrite_dead start (with_head l (m.cache start)) m dead

  -- The state in which `commit` is called: the header on the disk is empty, the disk holds the old
  -- contents and the cache the new ones, and a header fits in a block.
  pub record Ready (m : Store) : Type 0 where
    pub transaction : IsTransaction start lh old new
    pub clear : Before start lh old new m.disk
    pub cached : (x : ℕ) → IsHome start lh old new x → m.cache x ≡ new x
    pub room : suc (length lh) ≤ length (m.cache start)

  pub Ready-Writing :
      (m : Store) → Ready m → Writing start lh old new (length lh) (write_log start 0 lh m)
  Ready-Writing m v =
      write_log-Writing start lh old new v.transaction 0 lh m (IsRest-all start lh old new)
        (record {
          before = v.clear;
          fresh = v.cached;
          cached = λ i b lt e. absurd (omega arith);
          written = λ p i b lt e. absurd (omega arith);
          room = v.room;
        })

  pub after_commit_point :
      (m : Store)
      → IsTransaction start lh old new
      → Installing start lh old new 0 m
      → Installing start lh old new (length lh) (install_trans start 0 lh m)
  after_commit_point m t w =
      install_trans-Installing start lh old new t 0 lh m (IsRest-all start lh old new) w

  commit_stages-Phase : (m : Store) → Ready m → Phase (commit_stages start lh m).disk
  unfolding commit_stages
  commit_stages-Phase m v = elim (dec_lt 0 logged.power) [
    | yes alive ↦
        clear_head-Phase (install_trans start 0 lh headed)
          (after_commit_point headed v.transaction ((commit_point logged v.transaction w).1 alive))
    | no dead ↦
        let off : headed.power ≡ 0 = omega (arith, power-write_head lh logged) in
        let (same, off') = install_trans_dead start 0 lh headed off in
        before (
          subst (Before start lh old new)
            (sym (write_head_dead [] (install_trans start 0 lh headed) off' ∙ same))
            ((commit_point logged v.transaction w).0 (omega arith)))
  ]
    where
      logged : Store
      logged = write_log start 0 lh m

      headed : Store
      headed = write_head start lh logged

      w : Writing start lh old new (length lh) logged
      w = Ready-Writing m v

  -- Whenever the power fails during `commit`, the disk is left in one of the three phases.
  pub commit-Phase : (m : Store) → Ready m → Phase (commit start lh m).disk
  commit-Phase m v = elim (commit-cases start lh m) [
    | inl (none_logged, same) ↦ rw same (before v.clear)
    | inr stages ↦ rw stages (commit_stages-Phase m v)
  ]
