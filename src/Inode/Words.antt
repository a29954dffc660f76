-- ===== src/Inode/Words.antt =====
-- Integers in memory are read back as they were written.
use exp.Base.{ℕ, zero, suc, ◌+◌, ◌*◌, ◌/◌, ◌%◌, ◌≤◌, ◌<◌, ◌≡◌, ◌≢◌, ◌⊎◌, inl, inr, refl, ◌∙◌, arith}
use exp.Fs.{Bytes, put}
use exp.Inode.{load_le, store_le}

put_other : (f : Bytes) (i v j : ℕ) → i ≢ j → put f i v j ≡ f j
put_other f i v j h = ground arith

put_self : (f : Bytes) (i v : ℕ) → put f i v i ≡ v
put_self f i v = ground arith

-- Outside its bytes a store changes nothing.
pub store_le-other :
    (n v : ℕ) (bytes : Bytes) (a j : ℕ) → (j < a) ⊎ (a + n ≤ j) → store_le n v bytes a j ≡ bytes j
unfolding store_le
store_le-other zero v bytes a j h = refl
store_le-other (suc n) v bytes a j h =
    store_le-other n (v / 256) (put bytes a (v % 256)) (a + 1) j
      (elim h [ inl l ↦ inl (omega arith) | inr r ↦ inr (omega arith) ])
    ∙ put_other bytes a (v % 256) j (elim h [ inl l ↦ omega arith | inr r ↦ omega arith ])

pub load_le-cong :
    (n : ℕ) (f g : Bytes) (a : ℕ)
    → ((j : ℕ) → a ≤ j → j < a + n → f j ≡ g j)
    → load_le n f a ≡ load_le n g a
unfolding load_le
load_le-cong zero f g a h = refl
load_le-cong (suc n) f g a h = omega (
  arith,
  h a (omega arith) (omega arith),
  load_le-cong n f g (a + 1) (λ j lo hi. h j (omega arith) (omega arith)),
)

-- A load from other bytes than a store's.
pub load_le-other :
    (m n v : ℕ) (bytes : Bytes) (a b : ℕ)
    → (b + m ≤ a) ⊎ (a + n ≤ b)
    → load_le m (store_le n v bytes a) b ≡ load_le m bytes b
load_le-other m n v bytes a b h = load_le-cong m (store_le n v bytes a) bytes b (λ j lo hi.
    store_le-other n v bytes a j (elim h [ inl l ↦ inl (omega arith) | inr r ↦ inr (omega arith) ]))

abbrev pub capacity : ℕ → ℕ
capacity zero = 1
capacity (suc n) = 256 * capacity n

pub load_le-store_le :
    (n v : ℕ) (bytes : Bytes) (a : ℕ) → v < capacity n → load_le n (store_le n v bytes a) a ≡ v
unfolding load_le store_le
load_le-store_le zero v bytes a h = omega arith
load_le-store_le (suc n) v bytes a h = omega (
  arith,
  store_le-other n (v / 256) (put bytes a (v % 256)) (a + 1) a (inl (omega arith)),
  put_self bytes a (v % 256),
  load_le-store_le n (v / 256) (put bytes a (v % 256)) (a + 1) (omega arith),
)

pub store_le-byte :
    (n v : ℕ) (bytes : Bytes) (a : ℕ)
    → ((j : ℕ) → bytes j < 256)
    → (j : ℕ) → store_le n v bytes a j < 256
unfolding store_le
store_le-byte zero v bytes a h j = h j
store_le-byte (suc n) v bytes a h j =
    store_le-byte n (v / 256) (put bytes a (v % 256)) (a + 1) (λ k. ground (arith, h k)) j

pub load_zero : (n : ℕ) (bytes : Bytes) (a : ℕ) → ((j : ℕ) → bytes j ≡ 0) → load_le n bytes a ≡ 0
unfolding load_le
load_zero zero bytes a h = refl
load_zero (suc n) bytes a h = omega (arith, h a, load_zero n bytes (a + 1) h)
