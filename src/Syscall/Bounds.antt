-- ===== src/Syscall/Bounds.antt =====
-- The pointers that the kernel takes from user memory stay inside the process.
use exp.Base.{
  ℕ, zero, suc, ◌+◌, ◌-◌, ◌^◌, ◌==◌, ◌≤◌, ◌<◌, ◌≡◌, ◌≢◌, ◌↔◌, refl, ap, ◌∙◌, Option, none, some,
  arith, Bool-cases, inl, inr, ==_iff,
}
use exp.Syscall.{User, load_int, map_suc, fetchint, find_nul, fetchstr, argint, argptr, argstr}

-- The bytes from `addr` on are in the memory of the process.
abbrev pub Inside : User → ℕ → ℕ → Type 0
Inside u addr n = (addr < u.sz) × (addr + n ≤ u.sz)

fetchint_lem :
    (u : User) (addr : ℕ)
    → u.sz ≤ 2 ^ 31
    → (Inside u addr 4 → fetchint u addr ≡ some (load_int u.mem addr))
      × ((v : ℕ) → fetchint u addr ≡ some v → Inside u addr 4)
unfolding fetchint
fetchint_lem u addr small = (λ i. ground arith, λ v h. ground arith)

-- `argptr` gives the pointer that is the argument exactly if the block of `size` bytes behind it
-- is in the memory of the process; `size` and the pointer cannot wrap around the address space.
pub argptr-Inside :
    (u : User) (n size i : ℕ)
    → u.sz ≤ 2 ^ 31
    → (argptr u n size ≡ some i) ↔ ((argint u n ≡ some i) × (size < 2 ^ 31) × Inside u i size)
unfolding argptr
argptr-Inside u n size i small = (
  λ h. (ground arith, ground arith, (ground arith, ground arith)),
  λ (h, positive, (inside, fits)). ground arith,
)

-- A string of `n` bytes and its NUL lie at `addr`.
abbrev pub StringAt : (ℕ → ℕ) → ℕ → ℕ → Type 0
StringAt mem addr n = (mem (addr + n) ≡ 0) × ((j : ℕ) → j < n → mem (addr + j) ≢ 0)

-- The string behind a byte that is not NUL.
StringAt-shift :
    (mem : ℕ → ℕ) (s l : ℕ) → mem s ≢ 0 → StringAt mem (s + 1) l ↔ StringAt mem s (suc l)
StringAt-shift mem s l first = (
  λ (end, before). (ap mem (omega arith) ∙ end, λ j. shifted before j),
  λ (end, before). (
    ap mem (omega arith) ∙ end,
    λ j lt z. before (suc j) (omega arith) (ap mem (omega arith) ∙ z),
  ),
)
  where
    shifted : ((j : ℕ) → j < l → mem (s + 1 + j) ≢ 0) → (j : ℕ) → j < suc l → mem (s + j) ≢ 0
    shifted before zero lt z = first (ap mem (omega arith) ∙ z)
    shifted before (suc j) lt z = before j (omega arith) (ap mem (omega arith) ∙ z)

map_suc-eq : (o : Option ℕ) (l : ℕ) → (map_suc o ≡ some (suc l)) ↔ (o ≡ some l)
map_suc-eq none l = (λ h. cc, λ h. cc)
map_suc-eq (some k) l = (λ h. ap some (ground arith), λ h. cc)

map_suc-ne : (o : Option ℕ) → map_suc o ≢ some 0
map_suc-ne none h = cc
map_suc-ne (some k) h = ground arith

-- The loop of `fetchstr` finds the first NUL of its bytes, and fails exactly if there is none.
find_nul-StringAt :
    (n : ℕ) (mem : ℕ → ℕ) (s l : ℕ) → (find_nul n mem s ≡ some l) ↔ ((l < n) × StringAt mem s l)
unfolding find_nul
find_nul-StringAt zero mem s l = (λ h. cc, λ (lt, string). absurd (omega arith))
find_nul-StringAt (suc n) mem s zero = elim (Bool-cases (mem s == 0)) [
  | inl end ↦ rw end (
    λ h. (omega arith, (ap mem (omega arith) ∙ (==_iff (mem s) 0).0 end, λ j lt z. omega arith)),
    λ h. refl,
  )
  | inr more ↦ rw more (
    λ h. absurd (map_suc-ne (find_nul n mem (s + 1)) h),
    λ (lt, (end, before)). let z : mem s ≡ 0 = ap mem (omega arith) ∙ end in absurd (ground arith),
  )
]
find_nul-StringAt (suc n) mem s (suc l) = elim (Bool-cases (mem s == 0)) [
  | inl end ↦ rw end (
    λ h. cc,
    λ (lt, (z, before)).
        absurd (before 0 (omega arith) (ap mem (omega arith) ∙ (==_iff (mem s) 0).0 end)),
  )
  | inr more ↦
      let first : mem s ≢ 0 = λ z. ground arith in
      let (to, from) = find_nul-StringAt n mem (s + 1) l in
      let (ahead, back) = StringAt-shift mem s l first in
      rw more (
        λ h.
            let (lt, string) = to ((map_suc-eq (find_nul n mem (s + 1)) l).0 h) in
            (omega arith, ahead string),
        λ (lt, string). (map_suc-eq (find_nul n mem (s + 1)) l).1 (from (omega arith, back string)),
      )
]

-- `argstr` gives an address and a length exactly if the address is the argument and a string of
-- that length with its NUL lies there, all in the memory of the process.
pub argstr-StringAt :
    (u : User) (n addr l : ℕ)
    → (argstr u n ≡ some (addr, l))
      ↔ ((argint u n ≡ some addr) × (addr + l < u.sz) × StringAt u.mem addr l)
unfolding argstr fetchstr
argstr-StringAt u n addr l = (
  λ h.
      let arg : argint u n ≡ some addr = ground arith in
      let inside : addr < u.sz = ground arith in
      let found : find_nul (u.sz - addr) u.mem addr ≡ some l = ground arith in
      let (lt, string) = (find_nul-StringAt (u.sz - addr) u.mem addr l).0 found in
      (arg, omega arith, string),
  λ (arg, inside, string).
      let found : find_nul (u.sz - addr) u.mem addr ≡ some l =
        (find_nul-StringAt (u.sz - addr) u.mem addr l).1 (omega arith, string) in
      ground arith,
)
