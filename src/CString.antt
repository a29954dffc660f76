-- ===== src/CString.antt =====
-- xv6-add_FAIRNESS/string.c. A C string is the list of its bytes: a read past the end of the list
-- reads the terminating NUL, and bytes behind an inner NUL are never read. A destination is the
-- list of the bytes of its buffer; a write past its end changes nothing. Bytes are below 256.
pub mod Memmove
pub mod Compare
pub mod Copy
mod Tests
use exp.Base.{
  ℕ, zero, suc, ◌+◌, ◌-◌, ◌%◌, ◌==◌, ltb, Bool, true, false, ◌&&◌, List, [], ◌∷◌, length, get_or,
  set, if◌then◌else◌,
}
use exp.Base.Int.{ℤ, pos, negsuc}

-- `memset`: `n` bytes become the low byte of `c`. The word-wise `stosl` of the aligned case stores
-- the same bytes as `stosb`.
pub memset : List ℕ → ℕ → ℕ → List ℕ
memset dst c zero = dst
memset [] c (suc n) = []
memset (b ∷ dst) c (suc n) = (c % 256) ∷ memset dst c n

-- The difference of two bytes as an `int`.
abbrev pub byte_diff : ℕ → ℕ → ℤ
byte_diff a b = if ltb a b then negsuc (b - a - 1) else pos (a - b)

abbrev pub head_byte : List ℕ → ℕ
head_byte [] = 0
head_byte (c ∷ cs) = c

abbrev pub tail_bytes : List ℕ → List ℕ
tail_bytes [] = []
tail_bytes (c ∷ cs) = cs

-- `memcmp` of two areas of at least `n` bytes.
pub memcmp : List ℕ → List ℕ → ℕ → ℤ
memcmp s1 s2 zero = pos 0
memcmp s1 s2 (suc n) =
    let rest = memcmp (tail_bytes s1) (tail_bytes s2) n in
    if head_byte s1 == head_byte s2 then rest else byte_diff (head_byte s1) (head_byte s2)

-- The two loops of `memmove`, on one memory with the indices `d` of `dst` and `s` of `src`.
pub copy_up : List ℕ → ℕ → ℕ → ℕ → List ℕ
copy_up m d s zero = m
copy_up m d s (suc n) = copy_up (set m d (get_or m s 0)) (d + 1) (s + 1) n

pub copy_down : List ℕ → ℕ → ℕ → ℕ → List ℕ
copy_down m d s zero = m
copy_down m d s (suc n) = copy_down (set m (d + n) (get_or m (s + n) 0)) d s n

unfoldable pub memmove : List ℕ → ℕ → ℕ → ℕ → List ℕ
memmove m d s n = if ltb s d && ltb d (s + n) then copy_down m d s n else copy_up m d s n

-- `strncmp`
pub strncmp : List ℕ → List ℕ → ℕ → ℤ
strncmp p q zero = pos 0
strncmp [] q (suc n) = byte_diff 0 (head_byte q)
strncmp (c ∷ p) q (suc n) =
    let rest = strncmp p (tail_bytes q) n in
    if (if c == 0 then false else c == head_byte q) then rest else byte_diff c (head_byte q)

-- `strncpy`: the second loop pads with NUL.
pub pad_zero : List ℕ → ℕ → List ℕ
pad_zero s zero = s
pad_zero [] (suc n) = []
pad_zero (b ∷ s) (suc n) = 0 ∷ pad_zero s n

pub strncpy : List ℕ → List ℕ → ℕ → List ℕ
unfolding pad_zero
strncpy s t zero = s
strncpy [] t (suc n) = []
strncpy (b ∷ s) t (suc n) =
    let rest = strncpy s (tail_bytes t) n in
    if head_byte t == 0 then 0 ∷ pad_zero s n else head_byte t ∷ rest

-- `*s = 0`
abbrev pub end_here : List ℕ → List ℕ
end_here [] = []
end_here (b ∷ s) = 0 ∷ s

-- `safestrcpy`. Where the copied byte is the NUL, `s` stands behind it and one more NUL is stored.
unfoldable pub safestrcpy : List ℕ → List ℕ → ℕ → List ℕ
safestrcpy s t zero = s
safestrcpy s t (suc zero) = end_here s
safestrcpy [] t (suc (suc n)) = []
safestrcpy (b ∷ s) t (suc (suc n)) =
    let rest = safestrcpy s (tail_bytes t) (suc n) in
    if head_byte t == 0 then 0 ∷ end_here s else head_byte t ∷ rest

-- `strlen`
pub strlen : List ℕ → ℕ
strlen [] = 0
strlen (c ∷ s) = let rest = strlen s in if c == 0 then 0 else rest + 1
