-- ===== src/Inode/Dinode.antt =====
-- The inode on the disk: what `iupdate` stores is what a later load gives, and no other inode of the
-- block changes.
use exp.Base.{
  ℕ, zero, suc, ◌+◌, ◌*◌, ◌≤◌, ◌<◌, ◌≡◌, ◌≢◌, ◌⊎◌, inl, inr, refl, ap, ap₂, sym, ◌∙◌, subst, List,
  [], ◌∷◌, length, All, arith, dec_lt, ℕ_discrete,
}
use exp.Fs.{Bytes, Disk, put}
use exp.Inode.{
  Inode, load_le, store_le, load_words, store_words, store_dinode, load_dinode, ndirect,
  inode_block, inode_offset, dinode_size, iupdate, on_disk,
}
use exp.Inode.Words.{
  store_le-other, load_le-cong, load_le-other, load_le-store_le, store_le-byte, capacity,
}

store_words-other :
    (ws : List ℕ) (bytes : Bytes) (a j : ℕ)
    → (j < a) ⊎ (a + 4 * length ws ≤ j)
    → store_words ws bytes a j ≡ bytes j
unfolding store_words
store_words-other [] bytes a j h = refl
store_words-other (w ∷ ws) bytes a j h =
    store_words-other ws (store_le 4 w bytes a) (a + 4) j
      (elim h [ inl l ↦ inl (omega arith) | inr r ↦ inr (omega arith) ])
    ∙ store_le-other 4 w bytes a j (elim h [ inl l ↦ inl l | inr r ↦ inr (omega arith) ])

load_words-cong :
    (n : ℕ) (f g : Bytes) (a : ℕ)
    → ((j : ℕ) → a ≤ j → j < a + 4 * n → f j ≡ g j)
    → load_words n f a ≡ load_words n g a
unfolding load_words
load_words-cong zero f g a h = refl
load_words-cong (suc n) f g a h =
    ap₂ ◌∷◌ (load_le-cong 4 f g a (λ j lo hi. h j lo (omega arith)))
      (load_words-cong n f g (a + 4) (λ j lo hi. h j (omega arith) (omega arith)))

load_words-store_words :
    (ws : List ℕ) (bytes : Bytes) (a : ℕ)
    → All (λ w. w < capacity 4) ws
    → load_words (length ws) (store_words ws bytes a) a ≡ ws
unfolding load_words store_words
load_words-store_words [] bytes a h = refl
load_words-store_words (w ∷ ws) bytes a (lt, h) =
    ap₂ ◌∷◌
      (load_le-cong 4 (store_words ws (store_le 4 w bytes a) (a + 4)) (store_le 4 w bytes a) a
          (λ j lo hi. store_words-other ws (store_le 4 w bytes a) (a + 4) j (inl (omega arith)))
        ∙ load_le-store_le 4 w bytes a lt)
      (load_words-store_words ws (store_le 4 w bytes a) (a + 4) h)

-- The fields of an inode are a short, an uint, and `NDIRECT + 1` uints.
pub record Fits (ip : Inode) : Type 0 where
  pub type_short : ip.type < capacity 2
  pub major_short : ip.major < capacity 2
  pub minor_short : ip.minor < capacity 2
  pub nlink_short : ip.nlink < capacity 2
  pub size_uint : ip.size < capacity 4
  pub addrs_uint : All (λ w. w < capacity 4) ip.addrs
  pub entries : length ip.addrs ≡ suc ndirect

-- `ip` with the fields of `from` that are on the disk.
abbrev pub copied : Inode → Inode → Inode
copied ip from = record ip {
  type = from.type;
  major = from.major;
  minor = from.minor;
  nlink = from.nlink;
  size = from.size;
  addrs = from.addrs;
}

module _ (ip : Inode) (bytes : Bytes) (a : ℕ) where
  abbrev after_type : Bytes
  after_type = store_le 2 ip.type bytes a

  abbrev after_major : Bytes
  after_major = store_le 2 ip.major after_type (a + 2)

  abbrev after_minor : Bytes
  after_minor = store_le 2 ip.minor after_major (a + 4)

  abbrev after_nlink : Bytes
  after_nlink = store_le 2 ip.nlink after_minor (a + 6)

  abbrev after_size : Bytes
  after_size = store_le 4 ip.size after_nlink (a + 8)

  abbrev after_addrs : Bytes
  after_addrs = store_words ip.addrs after_size (a + 12)

  before_addrs : (n k : ℕ) → k + n ≤ a + 12 → load_le n after_addrs k ≡ load_le n after_size k
  before_addrs n k le =
      load_le-cong n after_addrs after_size k
        (λ j lo hi. store_words-other ip.addrs after_size (a + 12) j (inl (omega arith)))

  before_size : (n k : ℕ) → k + n ≤ a + 8 → load_le n after_addrs k ≡ load_le n after_nlink k
  before_size n k le =
      before_addrs n k (omega arith) ∙ load_le-other n 4 ip.size after_nlink (a + 8) k (inl le)

  before_nlink : (n k : ℕ) → k + n ≤ a + 6 → load_le n after_addrs k ≡ load_le n after_minor k
  before_nlink n k le =
      before_size n k (omega arith) ∙ load_le-other n 2 ip.nlink after_minor (a + 6) k (inl le)

  before_minor : (n k : ℕ) → k + n ≤ a + 4 → load_le n after_addrs k ≡ load_le n after_major k
  before_minor n k le =
      before_nlink n k (omega arith) ∙ load_le-other n 2 ip.minor after_major (a + 4) k (inl le)

  before_major : (n k : ℕ) → k + n ≤ a + 2 → load_le n after_addrs k ≡ load_le n after_type k
  before_major n k le =
      before_minor n k (omega arith) ∙ load_le-other n 2 ip.major after_type (a + 2) k (inl le)

  -- A load of the fields that a store wrote.
  pub load_dinode-store_dinode :
      (to : Inode) → Fits ip → load_dinode to (store_dinode ip bytes a) a ≡ copied to ip
  unfolding load_dinode store_dinode
  load_dinode-store_dinode to fits =
      rw
        (
          before_major 2 a (omega arith) ∙ load_le-store_le 2 ip.type bytes a fits.type_short,
          before_minor 2 (a + 2) (omega arith)
              ∙ load_le-store_le 2 ip.major after_type (a + 2) fits.major_short,
          before_nlink 2 (a + 4) (omega arith)
              ∙ load_le-store_le 2 ip.minor after_major (a + 4) fits.minor_short,
          before_size 2 (a + 6) (omega arith)
              ∙ load_le-store_le 2 ip.nlink after_minor (a + 6) fits.nlink_short,
          before_addrs 4 (a + 8) (omega arith)
              ∙ load_le-store_le 4 ip.size after_nlink (a + 8) fits.size_uint,
          subst (λ n. load_words n after_addrs (a + 12) ≡ ip.addrs) fits.entries
              (load_words-store_words ip.addrs after_size (a + 12) fits.addrs_uint),
        )
        refl

  -- Bytes outside of the 64 of the inode.
  pub store_dinode-other :
      (j : ℕ)
      → length ip.addrs ≡ suc ndirect
      → (j < a) ⊎ (a + dinode_size ≤ j)
      → store_dinode ip bytes a j ≡ bytes j
  unfolding store_dinode
  store_dinode-other j len h =
      store_words-other ip.addrs after_size (a + 12) j
        (elim h [ inl l ↦ inl (omega arith) | inr r ↦ inr (omega (arith, len, r)) ])
      ∙ store_le-other 4 ip.size after_nlink (a + 8) j
          (elim h [ inl l ↦ inl (omega arith) | inr r ↦ inr (omega arith) ])
      ∙ store_le-other 2 ip.nlink after_minor (a + 6) j
          (elim h [ inl l ↦ inl (omega arith) | inr r ↦ inr (omega arith) ])
      ∙ store_le-other 2 ip.minor after_major (a + 4) j
          (elim h [ inl l ↦ inl (omega arith) | inr r ↦ inr (omega arith) ])
      ∙ store_le-other 2 ip.major after_type (a + 2) j
          (elim h [ inl l ↦ inl (omega arith) | inr r ↦ inr (omega arith) ])
      ∙ store_le-other 2 ip.type bytes a j
          (elim h [ inl l ↦ inl (omega arith) | inr r ↦ inr (omega arith) ])

pub load_dinode-cong :
    (to : Inode) (f g : Bytes) (a : ℕ)
    → ((j : ℕ) → a ≤ j → j < a + dinode_size → f j ≡ g j)
    → load_dinode to f a ≡ load_dinode to g a
unfolding load_dinode
load_dinode-cong to f g a h =
    rw
      (
        load_le-cong 2 f g a (λ j lo hi. h j (omega arith) (omega arith)),
        load_le-cong 2 f g (a + 2) (λ j lo hi. h j (omega arith) (omega arith)),
        load_le-cong 2 f g (a + 4) (λ j lo hi. h j (omega arith) (omega arith)),
        load_le-cong 2 f g (a + 6) (λ j lo hi. h j (omega arith) (omega arith)),
        load_le-cong 4 f g (a + 8) (λ j lo hi. h j (omega arith) (omega arith)),
        load_words-cong (suc ndirect) f g (a + 12) (λ j lo hi. h j (omega arith) (omega arith)),
      )
      refl

pub put_eq : (f : ℕ → Bytes) (i : ℕ) (v : Bytes) → put f i v i ≡ v
put_eq f i v = ground arith

pub put_ne : (f : ℕ → Bytes) (i : ℕ) (v : Bytes) (j : ℕ) → i ≢ j → put f i v j ≡ f j
put_ne f i v j h = ground arith

-- After `iupdate` the disk has the inode's fields under its number, and the inodes of all other
-- numbers as before.
pub iupdate_lem :
    (ip to : Inode) (d : Disk)
    → Fits ip
    → (on_disk to ip.inum (iupdate ip d) ≡ copied to ip)
      × ((i : ℕ) → ip.inum ≢ i → on_disk to i (iupdate ip d) ≡ on_disk to i d)
unfolding iupdate
iupdate_lem ip to d fits = (
  rw
      (put_eq d.blocks (inode_block ip.inum d.sb)
        (store_dinode ip (d.blocks (inode_block ip.inum d.sb)) (inode_offset ip.inum)))
      (load_dinode-store_dinode ip (d.blocks (inode_block ip.inum d.sb)) (inode_offset ip.inum) to
        fits),
  λ i ne. elim (ℕ_discrete (inode_block ip.inum d.sb) (inode_block i d.sb)) [
    | yes e ↦ load_dinode-cong to _ (d.blocks (inode_block i d.sb)) (inode_offset i) (λ j lo hi.
        ap (λ b. put d.blocks (inode_block ip.inum d.sb) entry b j) (sym e)
        ∙ ap (λ (f : Bytes). f j) (put_eq d.blocks (inode_block ip.inum d.sb) entry)
        ∙ store_dinode-other ip (d.blocks (inode_block ip.inum d.sb)) (inode_offset ip.inum) j
            fits.entries (apart i j ne e lo hi)
        ∙ ap (λ b. d.blocks b j) e)
    | no ne' ↦
        ap (λ f. load_dinode to f (inode_offset i))
          (put_ne d.blocks (inode_block ip.inum d.sb) entry (inode_block i d.sb) ne')
  ],
)
  where
    entry : Bytes
    entry = store_dinode ip (d.blocks (inode_block ip.inum d.sb)) (inode_offset ip.inum)

    apart :
        (i j : ℕ)
        → ip.inum ≢ i
        → inode_block ip.inum d.sb ≡ inode_block i d.sb
        → inode_offset i ≤ j
        → j < inode_offset i + dinode_size
        → (j < inode_offset ip.inum) ⊎ (inode_offset ip.inum + dinode_size ≤ j)
    apart i j ne e lo hi = elim (dec_lt j (inode_offset ip.inum)) [
      | yes l ↦ inl l
      | no g ↦ inr (omega (arith, ne, e, lo, hi, g))
    ]

store_words-byte :
    (ws : List ℕ) (bytes : Bytes) (a : ℕ)
    → ((j : ℕ) → bytes j < 256)
    → (j : ℕ) → store_words ws bytes a j < 256
unfolding store_words
store_words-byte [] bytes a h = h
store_words-byte (w ∷ ws) bytes a h =
    store_words-byte ws (store_le 4 w bytes a) (a + 4) (store_le-byte 4 w bytes a h)

pub store_dinode-byte :
    (ip : Inode) (bytes : Bytes) (a : ℕ)
    → ((j : ℕ) → bytes j < 256)
    → (j : ℕ) → store_dinode ip bytes a j < 256
unfolding store_dinode
store_dinode-byte ip bytes a h =
    let h1 = store_le-byte 2 ip.type bytes a h in
    let h2 = store_le-byte 2 ip.major _ (a + 2) h1 in
    let h3 = store_le-byte 2 ip.minor _ (a + 4) h2 in
    let h4 = store_le-byte 2 ip.nlink _ (a + 6) h3 in
    store_words-byte ip.addrs _ (a + 12) (store_le-byte 4 ip.size _ (a + 8) h4)
