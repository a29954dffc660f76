-- ===== src/Icache/Create.antt =====
-- `ialloc` takes the first free inode of the disk.
use exp.Base.{
  ℕ, zero, suc, ◌+◌, ◌-◌, ◌*◌, ◌/◌, ◌%◌, ◌≤◌, ◌<◌, ◌≡◌, ◌≢◌, ◌⊎◌, inl, inr, refl, ap, ap₂, sym, ◌∙◌,
  subst, true, false, Option, none, some, List, ◌∷◌, replicate, get_elem?, arith, dec_lt,
  ℕ_discrete, Bool-cases, Option-cases, done, panic,
}
use exp.Fs.{Bytes, Disk, put}
use exp.Inode.{
  Inode, ndirect, load_le, store_le, load_words, load_dinode, inode_block, inode_offset,
  dinode_size, on_disk,
}
use exp.Inode.Words.{capacity, store_le-other, load_le-store_le}
use exp.Inode.Dinode.{load_dinode-cong, put_eq, put_ne}
use exp.Icache.{is_free, ialloc_scan, new_dinode, claim_inode, ialloc}
use exp.Icache.Cache.{IsCache, Got, iget_lem}

-- A store of 0 clears its bytes.
clears : (n : ℕ) (bytes : Bytes) (a j : ℕ) → a ≤ j → j < a + n → store_le n 0 bytes a j ≡ 0
unfolding store_le
clears zero bytes a j lo hi = absurd (omega arith)
clears (suc n) bytes a j lo hi = elim (ℕ_discrete a j) [
  | yes e ↦
      store_le-other n (0 / 256) (put bytes a (0 % 256)) (a + 1) j (inl (omega (arith, e)))
      ∙ subst (λ k. put bytes a (0 % 256) k ≡ 0) e (self bytes a)
  | no ne ↦ clears n (put bytes a (0 % 256)) (a + 1) j (omega arith) (omega arith)
]
  where
    self : (f : Bytes) (a : ℕ) → put f a 0 a ≡ 0
    self f a = ground arith

-- An inode of the type with all else 0.
abbrev pub fresh : ℕ → Inode → Inode
fresh type to = record to {
  type = type;
  major = 0;
  minor = 0;
  nlink = 0;
  size = 0;
  addrs = replicate (ndirect + 1) 0;
}

load_le-zeros :
    (n : ℕ) (f : Bytes) (a : ℕ) → ((j : ℕ) → a ≤ j → j < a + n → f j ≡ 0) → load_le n f a ≡ 0
unfolding load_le
load_le-zeros zero f a h = refl
load_le-zeros (suc n) f a h = omega (
  arith,
  h a (omega arith) (omega arith),
  load_le-zeros n f (a + 1) (λ j lo hi. h j (omega arith) (omega arith)),
)

load_words-zeros :
    (n : ℕ) (f : Bytes) (a : ℕ)
    → ((j : ℕ) → a ≤ j → j < a + 4 * n → f j ≡ 0)
    → load_words n f a ≡ replicate n 0
unfolding load_words
load_words-zeros zero f a h = refl
load_words-zeros (suc n) f a h =
    ap₂ ◌∷◌ (load_le-zeros 4 f a (λ j lo hi. h j lo (omega arith)))
      (load_words-zeros n f (a + 4) (λ j lo hi. h j (omega arith) (omega arith)))

load-new_dinode :
    (type : ℕ) (to : Inode) (bytes : Bytes) (a : ℕ)
    → type < capacity 2
    → load_dinode to (new_dinode type bytes a) a ≡ fresh type to
unfolding load_dinode
load-new_dinode type to bytes a short =
    rw
      (
        load_le-store_le 2 type (store_le dinode_size 0 bytes a) a short,
        load_le-zeros 2 (new_dinode type bytes a) (a + 2)
            (λ j lo hi. rest j (omega arith) (omega arith)),
        load_le-zeros 2 (new_dinode type bytes a) (a + 4)
            (λ j lo hi. rest j (omega arith) (omega arith)),
        load_le-zeros 2 (new_dinode type bytes a) (a + 6)
            (λ j lo hi. rest j (omega arith) (omega arith)),
        load_le-zeros 4 (new_dinode type bytes a) (a + 8)
            (λ j lo hi. rest j (omega arith) (omega arith)),
        load_words-zeros (suc ndirect) (new_dinode type bytes a) (a + 12)
            (λ j lo hi. rest j (omega arith) (omega arith)),
      )
      refl
  where
    rest : (j : ℕ) → a + 2 ≤ j → j < a + 64 → new_dinode type bytes a j ≡ 0
    rest j lo hi =
        store_le-other 2 type (store_le dinode_size 0 bytes a) a j (inr lo)
        ∙ clears dinode_size bytes a j (omega arith) hi

new_dinode-other :
    (type : ℕ) (bytes : Bytes) (a j : ℕ)
    → (j < a) ⊎ (a + dinode_size ≤ j)
    → new_dinode type bytes a j ≡ bytes j
new_dinode-other type bytes a j h =
    store_le-other 2 type (store_le dinode_size 0 bytes a) a j
      (elim h [ inl l ↦ inl l | inr r ↦ inr (omega arith) ])
    ∙ store_le-other dinode_size 0 bytes a j h

-- What `ialloc` leaves on the disk.
pub record Claimed (type i : ℕ) (d d' : Disk) : Type 0 where
  pub inside : (0 < i) × (i < d.sb.ninodes)
  pub was_free : is_free d i ≡ true
  pub first : (k : ℕ) → 0 < k → k < i → is_free d k ≡ false
  pub now : (to : Inode) → on_disk to i d' ≡ fresh type to
  pub others : (to : Inode) (k : ℕ) → i ≢ k → on_disk to k d' ≡ on_disk to k d

claim_inode-now :
    (type i : ℕ) (to : Inode) (d : Disk)
    → type < capacity 2
    → on_disk to i (claim_inode type i d) ≡ fresh type to
claim_inode-now type i to d short =
    ap (λ f. load_dinode to f (inode_offset i))
      (put_eq d.blocks (inode_block i d.sb)
        (new_dinode type (d.blocks (inode_block i d.sb)) (inode_offset i)))
    ∙ load-new_dinode type to (d.blocks (inode_block i d.sb)) (inode_offset i) short

claim_inode-others :
    (type i k : ℕ) (to : Inode) (d : Disk)
    → i ≢ k
    → on_disk to k (claim_inode type i d) ≡ on_disk to k d
claim_inode-others type i k to d ne = elim (ℕ_discrete (inode_block i d.sb) (inode_block k d.sb)) [
  | yes e ↦ load_dinode-cong to _ (d.blocks (inode_block k d.sb)) (inode_offset k) (λ j lo hi.
      ap (λ b. put d.blocks (inode_block i d.sb) entry b j) (sym e)
      ∙ ap (λ (f : Bytes). f j) (put_eq d.blocks (inode_block i d.sb) entry)
      ∙ new_dinode-other type (d.blocks (inode_block i d.sb)) (inode_offset i) j (apart j e lo hi)
      ∙ ap (λ b. d.blocks b j) e)
  | no ne' ↦
      ap (λ f. load_dinode to f (inode_offset k))
        (put_ne d.blocks (inode_block i d.sb) entry (inode_block k d.sb) ne')
]
  where
    entry : Bytes
    entry = new_dinode type (d.blocks (inode_block i d.sb)) (inode_offset i)

    apart :
        (j : ℕ)
        → inode_block i d.sb ≡ inode_block k d.sb
        → inode_offset k ≤ j
        → j < inode_offset k + dinode_size
        → (j < inode_offset i) ⊎ (inode_offset i + dinode_size ≤ j)
    apart j e lo hi = elim (dec_lt j (inode_offset i)) [
      | yes l ↦ inl l
      | no g ↦ inr (omega (arith, ne, e, lo, hi, g))
    ]

unfoldable ScannedFree : ℕ → Disk → ℕ → Option ℕ → Type 0
ScannedFree n d i none = (k : ℕ) → i ≤ k → k < i + n → is_free d k ≡ false
ScannedFree n d i (some j) =
    (i ≤ j) × (j < i + n) × (is_free d j ≡ true) × ((k : ℕ) → i ≤ k → k < j → is_free d k ≡ false)

first_or :
    (d : Disk) (i k : ℕ)
    → is_free d i ≡ false
    → i ≤ k
    → (i + 1 ≤ k → is_free d k ≡ false)
    → is_free d k ≡ false
first_or d i k taken le later = elim (ℕ_discrete i k) [
  | yes e ↦ subst (λ k. is_free d k ≡ false) e taken
  | no ne ↦ later (omega arith)
]

scanned_later :
    (n : ℕ) (d : Disk) (i : ℕ) (r : Option ℕ)
    → is_free d i ≡ false
    → ScannedFree n d (i + 1) r
    → ScannedFree (suc n) d i r
unfolding ScannedFree
scanned_later n d i none taken h = λ k lo hi. first_or d i k taken lo (λ lo'. h k lo' (omega arith))
scanned_later n d i (some j) taken (lower, upper, free, h) =
    (omega arith, omega arith, free, λ k lo hi. first_or d i k taken lo (λ lo'. h k lo' hi))

ialloc_scan-ScannedFree : (n : ℕ) (d : Disk) (i : ℕ) → ScannedFree n d i (ialloc_scan n d i)
unfolding ialloc_scan ScannedFree
ialloc_scan-ScannedFree zero d i = λ k lo hi. absurd (omega arith)
ialloc_scan-ScannedFree (suc n) d i = elim (Bool-cases (is_free d i)) [
  | inl e ↦ rw e (omega arith, omega arith, e, λ k lo hi. absurd (omega arith))
  | inr taken ↦
      rw taken
        (scanned_later n d i (ialloc_scan n d (i + 1)) taken (ialloc_scan-ScannedFree n d (i + 1)))
]

-- `ialloc` takes the lowest free number, makes a bare inode of the type there and of no other number,
-- and gives its entry of the cache. It panics only if no number is free, or all entries are
-- referenced.
pub ialloc_lem :
    (dev type : ℕ) (l : List Inode) (d : Disk)
    → IsCache l
    → type < capacity 2
    → ((ialloc dev type l d ≡ panic)
        × (((k : ℕ) → 0 < k → k < d.sb.ninodes → is_free d k ≡ false)
            ⊎ ((j : ℕ) (jp : Inode) → get_elem? l j ≡ some jp → jp.ref ≢ 0)))
      ⊎ ((i k : ℕ) × (l' : List Inode) × (d' : Disk) × (ialloc dev type l d ≡ done (k, l', d'))
          × Claimed type i d d'
          × Got dev i l k l')
unfolding ialloc ScannedFree
ialloc_lem dev type l d c short = elim (Option-cases (ialloc_scan (d.sb.ninodes - 1) d 1)) [
  | inl e ↦
      let full : (k : ℕ) → 1 ≤ k → k < 1 + (d.sb.ninodes - 1) → is_free d k ≡ false =
        subst (ScannedFree (d.sb.ninodes - 1) d 1) e
          (ialloc_scan-ScannedFree (d.sb.ninodes - 1) d 1) in
      inl (rw (e, ialloc) refl, inl (λ k lo hi. full k (omega arith) (omega arith)))
  | inr (i, e) ↦
      let (lower, upper, free, first) =
        subst (ScannedFree (d.sb.ninodes - 1) d 1) e
          (ialloc_scan-ScannedFree (d.sb.ninodes - 1) d 1) in
      elim (iget_lem dev i l c) [
        | inl (e', busy) ↦ inl (rw (e, ialloc, e') refl, inr (λ j jp at. (busy j jp at).1))
        | inr (k, l', e', got) ↦ inr (
          i,
          k,
          l',
          claim_inode type i d,
          rw (e, ialloc, e') refl,
          record {
            inside = (omega arith, omega arith);
            was_free = free;
            first = λ k lo hi. first k (omega arith) hi;
            now = λ to. claim_inode-now type i to d short;
            others = λ to k ne. claim_inode-others type i k to d ne;
          },
          got,
        )
      ]
]
