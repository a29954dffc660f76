-- ===== src/Bcache/Release.antt =====
-- `brelse` gives a buffer back.
use exp.Base.{
  ℕ, zero, suc, ◌+◌, ◌-◌, ◌==◌, ◌<◌, ◌≡◌, ◌≢◌, refl, ap, sym, ◌∙◌, ltb, true, false, none, some,
  List, [], ◌∷◌, get_elem?, if◌then◌else◌, arith, done, panic,
}
use exp.Icache.{holdingsleep}
use exp.Bcache.{Buf, change, caches, remove, brelse}
use exp.Bcache.Find.{some_eq, get_elem?-change_other}
use exp.Bcache.Unique.{IsBcache, IsBcache-change}

-- Where an index of the list without entry `i` was before.
abbrev pub before : ℕ → ℕ → ℕ
before i k = if ltb k i then k else k + 1

get_elem?-remove : (l : List Buf) (i k : ℕ) → get_elem? (remove l i) k ≡ get_elem? l (before i k)
get_elem?-remove [] i k = refl
get_elem?-remove (x ∷ l) zero k = ap (get_elem? (x ∷ l)) {x = suc k} {y = before zero k} (shifted k)
  where
    shifted : (k : ℕ) → suc k ≡ before zero k
    shifted k = ground arith
get_elem?-remove (x ∷ l) (suc i) zero =
    ap (get_elem? (x ∷ l)) {x = 0} {y = before (suc i) 0} (front i)
  where
    front : (i : ℕ) → 0 ≡ before (suc i) 0
    front i = ground arith
get_elem?-remove (x ∷ l) (suc i) (suc k) =
    get_elem?-remove l i k
    ∙ ap (get_elem? (x ∷ l)) {x = suc (before i k)} {y = before (suc i) (suc k)} (shifted i k)
  where
    shifted : (i k : ℕ) → suc (before i k) ≡ before (suc i) (suc k)
    shifted i k = ground arith

before-ne : (i k : ℕ) → before i k ≢ i
before-ne i k e = ground arith

before-injective : (i j k : ℕ) → before i j ≡ before i k → j ≡ k
before-injective i j k e = ground arith

abbrev pub given_back : Buf → Buf
given_back b = record b { lock = none; refcnt = b.refcnt - 1 }

-- The list with entry `i` changed and moved to the front.
IsBcache-front :
    (l : List Buf) (i : ℕ) (b : Buf)
    → IsBcache l
    → get_elem? l i ≡ some b
    → IsBcache (given_back b ∷ remove l i)
IsBcache-front l i b u at zero zero c e ec ee nz h = refl
IsBcache-front l i b u at zero (suc k) c e ec ee nz h =
    let same = some_eq (given_back b) c ec in
    absurd (
      before-ne i k (
        sym (
          u i (before i k) b e at (sym (get_elem?-remove l i k) ∙ ee)
            (λ z. nz (sym (ap (λ (x : Buf). x.dev) same) ∙ z))
            (ap (caches e.dev e.blockno) same ∙ h))))
IsBcache-front l i b u at (suc k) zero c e ec ee nz h =
    let same = some_eq (given_back b) e ee in
    absurd (
      before-ne i k (
        u (before i k) i c b (sym (get_elem?-remove l i k) ∙ ec) at nz
          (ap (λ (x : Buf). caches x.dev x.blockno c) same ∙ h)))
IsBcache-front l i b u at (suc j) (suc k) c e ec ee nz h = ap suc (
    before-injective i j k (
      u (before i j) (before i k) c e (sym (get_elem?-remove l i j) ∙ ec)
        (sym (get_elem?-remove l i k) ∙ ee) nz h))

-- `brelse` by the process that holds the buffer's lock gives up the lock and one reference. If that
-- was the last one the buffer goes to the front of the list, and else it stays; the other buffers
-- stay as they are and in their order, and no block gets a second buffer. A process that does not
-- hold the lock panics.
pub brelse_lem :
    (pid i : ℕ) (l : List Buf) (b : Buf)
    → IsBcache l
    → get_elem? l i ≡ some b
    → (holdingsleep pid b.lock ≡ false → brelse pid i l ≡ panic)
      × (holdingsleep pid b.lock ≡ true
          → b.refcnt ≡ 1
          → (brelse pid i l ≡ done (given_back b ∷ remove l i))
            × IsBcache (given_back b ∷ remove l i)
            × ((k : ℕ) → get_elem? (given_back b ∷ remove l i) (suc k) ≡ get_elem? l (before i k)))
      × (holdingsleep pid b.lock ≡ true
          → 1 < b.refcnt
          → (brelse pid i l ≡ done (change l i (λ c. given_back b)))
            × IsBcache (change l i (λ c. given_back b))
            × ((j : ℕ) → i ≢ j → get_elem? (change l i (λ c. given_back b)) j ≡ get_elem? l j))
unfolding brelse
brelse_lem pid i l b u at = (
  λ no_lock. rw (at, brelse, no_lock) refl,
  λ held last. (
    rw (at, brelse, held, no_more b.refcnt last) refl,
    IsBcache-front l i b u at,
    λ k. get_elem?-remove l i k,
  ),
  λ held many. (
    rw (at, brelse, held, some_more b.refcnt many) refl,
    IsBcache-change l i (λ c. given_back b) b u at
        (λ j c e ne nz h. ne (u i j b c at e (λ z. nz (sym (same_dev b c h) ∙ z)) h)),
    λ j ne. get_elem?-change_other l i j (λ c. given_back b) ne,
  ),
)
  where
    no_more : (r : ℕ) → r ≡ 1 → (r - 1 == 0) ≡ true
    no_more r e = ground arith

    some_more : (r : ℕ) → 1 < r → (r - 1 == 0) ≡ false
    some_more r lt = ground arith

    same_dev : (b c : Buf) → caches c.dev c.blockno b ≡ true → b.dev ≡ c.dev
    same_dev b c h = ground arith
