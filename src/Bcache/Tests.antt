-- ===== src/Bcache/Tests.antt =====
-- Three buffers: one of block 7, one that is not written yet, and one that is free.
use exp.Base.{
  ◌≡◌, ◌≢◌, ◌<◌, ◌⊎◌, ℕ, zero, suc, Bool, true, false, refl, sym, ap, ◌∙◌, ◌+◌, none, some, List,
  [], ◌∷◌, get_elem?, arith, done, panic,
}
use exp.Bcache.{Buf, bget_find, find_cached, find_unused, caches, unused, change, brelse}
use exp.Bcache.Release.{given_back, before, brelse_lem}
use exp.Icache.{holdingsleep}
use exp.Bcache.Find.{some_eq}
use exp.Bcache.Unique.{IsBcache, Taken, bget_find_lem}

abbrev buffer : ℕ → Bool → Buf
buffer blockno dirty = record {
  valid = true;
  dirty = dirty;
  dev = 1;
  blockno = blockno;
  lock = none;
  refcnt = 0;
  bytes = λ i. 0;
}

abbrev buffers : List Buf
buffers = buffer 7 false ∷ buffer 8 true ∷ buffer 9 false ∷ buffer 10 true ∷ []

same_block : (a b : Buf) (n : ℕ) → a.blockno ≡ n → some a ≡ some b → b.blockno ≡ n
same_block a b n h e = sym (ap (λ (x : Buf). x.blockno) (some_eq a b e)) ∙ h

block_of : (i : ℕ) (b : Buf) → get_elem? buffers i ≡ some b → b.blockno ≡ 7 + i
block_of zero b e = same_block (buffer 7 false) b 7 refl e
block_of (suc zero) b e = same_block (buffer 8 true) b 8 refl e
block_of (suc (suc zero)) b e = same_block (buffer 9 false) b 9 refl e
block_of (suc (suc (suc zero))) b e = same_block (buffer 10 true) b 10 refl e
block_of (suc (suc (suc (suc i)))) b e = cc

buffers-IsBcache : IsBcache buffers
buffers-IsBcache i j b c ei ej nz h = same_index (block_of i b ei) (block_of j c ej) h
  where
    same_index : b.blockno ≡ 7 + i → c.blockno ≡ 7 + j → caches c.dev c.blockno b ≡ true → i ≡ j
    same_index p q h = ground arith

-- Block 9 is cached, and for block 5 its buffer is the last one that can be recycled.
searches :
    (find_cached 1 9 buffers 0 ≡ some 2)
    × (find_cached 1 5 buffers 0 ≡ none)
    × (find_unused buffers 0 ≡ some 2)
unfolding find_cached find_unused
searches = (refl, refl, refl)

bget_find_lem_example :
    ((bget_find 1 5 buffers ≡ panic)
      × ((j : ℕ) (b : Buf)
          → get_elem? buffers j ≡ some b
          → (caches 1 5 b ≡ false) × (unused b ≡ false)))
    ⊎ ((i : ℕ) × (l' : List Buf) × (bget_find 1 5 buffers ≡ done (i, l')) × Taken 1 5 buffers i l')
bget_find_lem_example = bget_find_lem 1 5 buffers buffers-IsBcache

abbrev locked : Buf
locked = record (buffer 7 false) { lock = some 5; refcnt = 1 }

locked_block :
    (i : ℕ) (b : Buf) → get_elem? (buffer 8 true ∷ locked ∷ []) i ≡ some b → b.blockno + i ≡ 8
locked_block zero b e = omega (arith, same_block (buffer 8 true) b 8 refl e)
locked_block (suc zero) b e = omega (arith, same_block locked b 7 refl e)
locked_block (suc (suc i)) b e = cc

locked-IsBcache : IsBcache (buffer 8 true ∷ locked ∷ [])
locked-IsBcache i j b c ei ej nz h = same_index (locked_block i b ei) (locked_block j c ej) h
  where
    same_index : b.blockno + i ≡ 8 → c.blockno + j ≡ 8 → caches c.dev c.blockno b ≡ true → i ≡ j
    same_index p q h = ground arith

brelse_lem_example :
    (holdingsleep 5 (some 5) ≡ false → brelse 5 1 (buffer 8 true ∷ locked ∷ []) ≡ panic)
    × (holdingsleep 5 (some 5) ≡ true
        → locked.refcnt ≡ 1
        → (brelse 5 1 (buffer 8 true ∷ locked ∷ []) ≡ done (given_back locked ∷ buffer 8 true ∷ []))
          × IsBcache (given_back locked ∷ buffer 8 true ∷ [])
          × ((k : ℕ)
              → get_elem? (given_back locked ∷ buffer 8 true ∷ []) (suc k)
                ≡ get_elem? (buffer 8 true ∷ locked ∷ []) (before 1 k)))
    × (holdingsleep 5 (some 5) ≡ true
        → 1 < locked.refcnt
        → (brelse 5 1 (buffer 8 true ∷ locked ∷ [])
            ≡ done (change (buffer 8 true ∷ locked ∷ []) 1 (λ c. given_back locked)))
          × IsBcache (change (buffer 8 true ∷ locked ∷ []) 1 (λ c. given_back locked))
          × ((j : ℕ)
              → 1 ≢ j
              → get_elem? (change (buffer 8 true ∷ locked ∷ []) 1 (λ c. given_back locked)) j
                ≡ get_elem? (buffer 8 true ∷ locked ∷ []) j))
brelse_lem_example = brelse_lem 5 1 (buffer 8 true ∷ locked ∷ []) locked locked-IsBcache refl
