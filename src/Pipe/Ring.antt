-- ===== src/Pipe/Ring.antt =====
-- The bytes in a pipe, oldest first, and one write or read of a byte.
use exp.Base.{
  ℕ, zero, suc, ◌+◌, ◌-◌, ◌%◌, ◌^◌, ◌≤◌, ◌<◌, ◌≡◌, ◌≢◌, refl, ap, ap₂, ◌∙◌, true, false, List, [],
  ◌∷◌, ◌++◌, length, arith,
}
use exp.Pipe.{Pipe, pipe_size, uint, is_full, is_empty, store, put, front, advance}

-- The `n` bytes from counter `r` on.
unfoldable pub window : (ℕ → ℕ) → ℕ → ℕ → List ℕ
window f r zero = []
window f r (suc n) = f (r % pipe_size) ∷ window f (uint (r + 1)) n

-- How many bytes are in the pipe, as the counters tell it.
abbrev pub count : Pipe → ℕ
count p = uint (p.nwrite + 2 ^ 32 - p.nread)

unfoldable pub contents : Pipe → List ℕ
contents p = window p.bytes p.nread (count p)

pub record IsValid (p : Pipe) : Type 0 where
  pub read_range : p.nread < 2 ^ 32
  pub write_range : p.nwrite < 2 ^ 32
  pub fits : count p ≤ pipe_size

length-window : (f : ℕ → ℕ) (r n : ℕ) → length (window f r n) ≡ n
unfolding window
length-window f r zero = refl
length-window f r (suc n) = ap suc (length-window f (uint (r + 1)) n)

pub length-contents : (p : Pipe) → length (contents p) ≡ count p
unfolding contents
length-contents p = length-window p.bytes p.nread (count p)

store_self : (f : ℕ → ℕ) (i v j : ℕ) → i ≡ j → store f i v j ≡ v
store_self f i v j e = ground arith

store_ne : (f : ℕ → ℕ) (i v j : ℕ) → i ≢ j → store f i v j ≡ f j
store_ne f i v j e = ground arith

window-store :
    (f : ℕ → ℕ) (c n r w : ℕ)
    → n < pipe_size
    → w ≡ uint (r + n)
    → window (store f (w % pipe_size) c) r (suc n) ≡ window f r n ++ (c ∷ [])
unfolding window
window-store f c zero r w small e =
    ap (λ x. x ∷ []) (store_self f (w % pipe_size) c (r % pipe_size) (omega arith))
window-store f c (suc n) r w small e =
    ap₂ ◌∷◌ (store_ne f (w % pipe_size) c (r % pipe_size) (omega arith))
      (window-store f c n (uint (r + 1)) w (omega arith) (omega arith))

pub count_full : (p : Pipe) → IsValid p → is_full p ≡ true → count p ≡ pipe_size
count_full p v h = ground arith

pub count_room : (p : Pipe) → IsValid p → is_full p ≡ false → count p < pipe_size
count_room p v h = ground arith

pub count_empty : (p : Pipe) → IsValid p → is_empty p ≡ true → count p ≡ 0
count_empty p v h = ground arith

pub count_some : (p : Pipe) → IsValid p → is_empty p ≡ false → 0 < count p
count_some p v h = ground arith

pub contents_none : (p : Pipe) → count p ≡ 0 → contents p ≡ []
unfolding contents window
contents_none p e = ap (window p.bytes p.nread) e

-- A byte stored in a pipe with room goes behind the others.
pub put_lem :
    (c : ℕ) (p : Pipe)
    → IsValid p
    → count p < pipe_size
    → IsValid (put c p) × (contents (put c p) ≡ contents p ++ (c ∷ []))
unfolding put contents
put_lem c p v room = (
  omega arith,
  ap (window (store p.bytes (p.nwrite % pipe_size) c) p.nread) (omega arith)
      ∙ window-store p.bytes c (count p) p.nread p.nwrite room (omega arith),
)

-- A byte taken from a pipe that holds one is the oldest.
pub advance_lem :
    (p : Pipe)
    → IsValid p
    → 0 < count p
    → IsValid (advance p) × (contents p ≡ front p ∷ contents (advance p))
unfolding advance contents window
advance_lem p v some_byte =
    (omega arith, ap (window p.bytes p.nread) less ∙ window_suc (count (advance p)))
  where
    less : count p ≡ suc (count (advance p))
    less = omega arith

    window_suc :
        (n : ℕ) → window p.bytes p.nread (suc n) ≡ front p ∷ window p.bytes (uint (p.nread + 1)) n
    window_suc n = refl
