-- ===== src/Content/Overlay.antt =====
-- Stretches of bytes laid over a function from offsets to bytes.
use exp.Base.{
  ℕ, zero, suc, ◌+◌, ◌-◌, ◌≤◌, ◌<◌, ◌≡◌, ◌≢◌, ◌⊎◌, inl, inr, refl, ap, ap₂, sym, ◌∙◌, subst, ltb,
  leb, ◌&&◌, List, [], ◌∷◌, ◌++◌, length, get_or, All, take, drop, if◌then◌else◌, arith, dec_lt,
  ℕ_discrete,
}
use exp.Fs.{Bytes, put}
use exp.Content.{slice, fill}

-- `f` with the bytes `src` from `off` on.
abbrev pub overlay : Bytes → ℕ → List ℕ → Bytes
overlay f off src o = if leb off o && ltb o (off + length src) then get_or src (o - off) 0 else f o

pub overlay-inside :
    (f : Bytes) (off : ℕ) (src : List ℕ) (o : ℕ)
    → off ≤ o
    → o < off + length src
    → overlay f off src o ≡ get_or src (o - off) 0
overlay-inside f off src o lo hi = ground arith

pub overlay-outside :
    (f : Bytes) (off : ℕ) (src : List ℕ) (o : ℕ)
    → (o < off) ⊎ (off + length src ≤ o)
    → overlay f off src o ≡ f o
overlay-outside f off src o h = ground arith

put_other : (f : Bytes) (i v j : ℕ) → i ≢ j → put f i v j ≡ f j
put_other f i v j h = ground arith

put_self : (f : Bytes) (i v : ℕ) → put f i v i ≡ v
put_self f i v = ground arith

get_or-cong : (l : List ℕ) (i k : ℕ) → i ≡ k → get_or l i 0 ≡ get_or l k 0
get_or-cong l i k e = ap (λ k. get_or l k 0) e

slice-at : (n : ℕ) (f : Bytes) (a b : ℕ) → a ≡ b → slice n f a ≡ slice n f b
slice-at n f a b e = ap (slice n f) e

get_or-later :
    (c : ℕ) (cs : List ℕ) (a j : ℕ) → a < j → get_or (c ∷ cs) (j - a) 0 ≡ get_or cs (j - (a + 1)) 0
get_or-later c cs a j lt = get_or-cong (c ∷ cs) (j - a) (suc (j - (a + 1))) (omega arith)

pub fill-overlay : (src : List ℕ) (f : Bytes) (a j : ℕ) → fill src f a j ≡ overlay f a src j
unfolding fill
fill-overlay [] f a j =
    sym (overlay-outside f a [] j (elim (dec_lt j a) [ yes l ↦ inl l | no g ↦ inr (omega arith) ]))
fill-overlay (c ∷ cs) f a j =
    fill-overlay cs (put f a c) (a + 1) j ∙ elim (dec_lt j (a + 1 + length cs)) [
      | no g ↦
          overlay-outside (put f a c) (a + 1) cs j (inr (omega arith))
          ∙ put_other f a c j (omega arith)
          ∙ sym (overlay-outside f a (c ∷ cs) j (inr (omega arith)))
      | yes l ↦ elim (dec_lt a j) [
        | yes later ↦
            overlay-inside (put f a c) (a + 1) cs j (omega arith) l
            ∙ sym (get_or-later c cs a j later)
            ∙ sym (overlay-inside f a (c ∷ cs) j (omega arith) (omega arith))
        | no early ↦
            overlay-outside (put f a c) (a + 1) cs j (inl (omega arith)) ∙ elim (ℕ_discrete a j) [
              | yes e ↦
                  subst (λ k. put f a c k ≡ overlay f a (c ∷ cs) k) e
                    (put_self f a c
                      ∙ get_or-cong (c ∷ cs) 0 (a - a) (omega arith)
                      ∙ sym (overlay-inside f a (c ∷ cs) a (omega arith) (omega arith)))
              | no ne ↦
                  put_other f a c j ne ∙ sym (overlay-outside f a (c ∷ cs) j (inl (omega arith)))
            ]
      ]
    ]

pub length-take : (m : ℕ) (l : List ℕ) → m ≤ length l → length (take m l) ≡ m
length-take zero l h = refl
length-take (suc m) [] h = absurd (omega arith)
length-take (suc m) (x ∷ l) h = ap suc (length-take m l (omega arith))

pub length-drop : (m : ℕ) (l : List ℕ) → length (drop m l) ≡ length l - m
length-drop zero l = omega arith
length-drop (suc m) [] = omega arith
length-drop (suc m) (x ∷ l) = omega (arith, length-drop m l)

get_or-take : (m : ℕ) (l : List ℕ) (i : ℕ) → i < m → get_or (take m l) i 0 ≡ get_or l i 0
get_or-take zero l i h = absurd (omega arith)
get_or-take (suc m) [] i h = refl
get_or-take (suc m) (x ∷ l) zero h = refl
get_or-take (suc m) (x ∷ l) (suc i) h = get_or-take m l i (omega arith)

get_or-drop : (m : ℕ) (l : List ℕ) (i : ℕ) → get_or (drop m l) i 0 ≡ get_or l (m + i) 0
get_or-drop zero l i = get_or-cong l i (0 + i) (omega arith)
get_or-drop (suc m) [] i = refl
get_or-drop (suc m) (x ∷ l) i =
    get_or-drop m l i ∙ get_or-cong (x ∷ l) (suc (m + i)) (suc m + i) (omega arith)

-- A stretch laid over in two pieces.
pub overlay-split :
    (f : Bytes) (off m : ℕ) (src : List ℕ) (o : ℕ)
    → m ≤ length src
    → overlay (overlay f off (take m src)) (off + m) (drop m src) o ≡ overlay f off src o
overlay-split f off m src o le = elim (dec_lt o off) [
  | yes l ↦
      overlay-outside (overlay f off (take m src)) (off + m) (drop m src) o (inl (omega arith))
      ∙ overlay-outside f off (take m src) o (inl l)
      ∙ sym (overlay-outside f off src o (inl l))
  | no g ↦ elim (dec_lt o (off + m)) [
    | yes l ↦
        overlay-outside (overlay f off (take m src)) (off + m) (drop m src) o (inl l)
        ∙ overlay-inside f off (take m src) o (omega arith) (omega (arith, l, length-take m src le))
        ∙ get_or-take m src (o - off) (omega arith)
        ∙ sym (overlay-inside f off src o (omega arith) (omega arith))
    | no g' ↦ elim (dec_lt o (off + length src)) [
      | yes l ↦
          overlay-inside (overlay f off (take m src)) (off + m) (drop m src) o (omega arith)
            (omega (arith, l, le, length-drop m src))
          ∙ get_or-drop m src (o - (off + m))
          ∙ get_or-cong src (m + (o - (off + m))) (o - off) (omega arith)
          ∙ sym (overlay-inside f off src o (omega arith) l)
      | no g'' ↦
          overlay-outside (overlay f off (take m src)) (off + m) (drop m src) o
            (inr (omega (arith, le, length-drop m src)))
          ∙ overlay-outside f off (take m src) o (inr (omega (arith, length-take m src le)))
          ∙ sym (overlay-outside f off src o (inr (omega arith)))
    ]
  ]
]

-- Stretches of one block: offsets within the block or in the whole.
pub overlay-shift :
    (f g : Bytes) (s : ℕ) (off : ℕ) (src : List ℕ) (o : ℕ)
    → f o ≡ g (s + o)
    → overlay f off src o ≡ overlay g (s + off) src (s + o)
overlay-shift f g s off src o e = elim (dec_lt o off) [
  | yes l ↦
      overlay-outside f off src o (inl l)
      ∙ e
      ∙ sym (overlay-outside g (s + off) src (s + o) (inl (omega arith)))
  | no g1 ↦ elim (dec_lt o (off + length src)) [
    | yes l ↦
        overlay-inside f off src o (omega arith) l
        ∙ get_or-cong src (o - off) (s + o - (s + off)) (omega arith)
        ∙ sym (overlay-inside g (s + off) src (s + o) (omega arith) (omega arith))
    | no g2 ↦
        overlay-outside f off src o (inr (omega arith))
        ∙ e
        ∙ sym (overlay-outside g (s + off) src (s + o) (inr (omega arith)))
  ]
]

pub overlay-cong :
    (f g : Bytes) (off : ℕ) (src : List ℕ) (o : ℕ)
    → f o ≡ g o
    → overlay f off src o ≡ overlay g off src o
overlay-cong f g off src o e =
    ap (λ x. if leb off o && ltb o (off + length src) then get_or src (o - off) 0 else x) e

All-take : (P : ℕ → Type 0) (m : ℕ) (l : List ℕ) → All P l → All P (take m l)
All-take P zero l h = _
All-take P (suc m) [] h = _
All-take P (suc m) (x ∷ l) (p, h) = (p, All-take P m l h)

All-drop : (P : ℕ → Type 0) (m : ℕ) (l : List ℕ) → All P l → All P (drop m l)
All-drop P zero l h = h
All-drop P (suc m) [] h = _
All-drop P (suc m) (x ∷ l) (p, h) = All-drop P m l h

pub small_pieces :
    (m : ℕ) (l : List ℕ)
    → All (λ c. c < 256) l
    → All (λ c. c < 256) (take m l) × All (λ c. c < 256) (drop m l)
small_pieces m l h = (All-take _ m l h, All-drop _ m l h)

pub fill-byte :
    (src : List ℕ) (f : Bytes) (a : ℕ)
    → All (λ c. c < 256) src
    → ((i : ℕ) → f i < 256)
    → (i : ℕ) → fill src f a i < 256
unfolding fill
fill-byte [] f a h k = k
fill-byte (c ∷ cs) f a (p, h) k = fill-byte cs (put f a c) (a + 1) h (λ i. ground (arith, k i))

pub overlay-at :
    (f : Bytes) (off off' : ℕ) (src : List ℕ) (o o' : ℕ)
    → off ≡ off'
    → o ≡ o'
    → overlay f off src o ≡ overlay f off' src o'
overlay-at f off off' src o o' e e' = ap₂ (λ k l. overlay f k src l) e e'

-- The bytes that a stretch reads.
pub slice-cong :
    (n : ℕ) (f g : Bytes) (a : ℕ)
    → ((j : ℕ) → a ≤ j → j < a + n → f j ≡ g j)
    → slice n f a ≡ slice n g a
unfolding slice
slice-cong zero f g a h = refl
slice-cong (suc n) f g a h =
    ap₂ ◌∷◌ (h a (omega arith) (omega arith))
      (slice-cong n f g (a + 1) (λ j lo hi. h j (omega arith) (omega arith)))

pub slice-shift :
    (n : ℕ) (f g : Bytes) (s a : ℕ)
    → ((j : ℕ) → a ≤ j → j < a + n → f j ≡ g (s + j))
    → slice n f a ≡ slice n g (s + a)
unfolding slice
slice-shift zero f g s a h = refl
slice-shift (suc n) f g s a h = ap₂ ◌∷◌ (h a (omega arith) (omega arith)) (
    slice-shift n f g s (a + 1) (λ j lo hi. h j (omega arith) (omega arith))
    ∙ slice-at n g (s + (a + 1)) (s + a + 1) (omega arith))

pub slice-append :
    (m n : ℕ) (f : Bytes) (a : ℕ) → (slice m f a ++ slice n f (a + m)) ≡ slice (m + n) f a
unfolding slice
slice-append zero n f a = slice-at n f (a + 0) a (omega arith) ∙ ap (λ k. slice k f a) (omega arith)
slice-append (suc m) n f a =
    ap (λ l. f a ∷ (slice m f (a + 1) ++ l)) (slice-at n f (a + suc m) (a + 1 + m) (omega arith))
    ∙ ap (λ l. f a ∷ l) (slice-append m n f (a + 1))
    ∙ longer (m + n) (suc m + n) (omega arith)
  where
    longer : (k l : ℕ) → suc k ≡ l → (f a ∷ slice k f (a + 1)) ≡ slice l f a
    longer k l e = subst (λ l. (f a ∷ slice k f (a + 1)) ≡ slice l f a) e refl

-- What is laid over is read back.
pub slice-overlay :
    (src : List ℕ) (f : Bytes) (a : ℕ) → slice (length src) (overlay f a src) a ≡ src
unfolding slice
slice-overlay [] f a = refl
slice-overlay (c ∷ cs) f a =
    ap₂ ◌∷◌
      (overlay-inside f a (c ∷ cs) a (omega arith) (omega arith)
        ∙ get_or-cong (c ∷ cs) (a - a) 0 (omega arith))
      (slice-cong (length cs) (overlay f a (c ∷ cs)) (overlay f (a + 1) cs) (a + 1) (λ j lo hi.
          overlay-inside f a (c ∷ cs) j (omega arith) (omega arith)
          ∙ get_or-later c cs a j (omega arith)
          ∙ sym (overlay-inside f (a + 1) cs j lo hi))
        ∙ slice-overlay cs f (a + 1))
