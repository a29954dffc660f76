-- ===== src/Syscall.antt =====
-- xv6-add_FAIRNESS/syscall.c: how the kernel fetches the arguments of a system call from user
-- memory, and the dispatch. The memory of the process is the byte at each address; `sz` is its
-- size. An int is its bit pattern, and `none` stands for the result -1.
pub mod Bounds
mod Tests
use exp.Base.{
  ℕ, zero, suc, ◌+◌, ◌-◌, ◌*◌, ◌%◌, ◌^◌, ◌==◌, ltb, leb, Bool, true, false, not, ◌&&◌, ◌||◌, Option,
  none, some, map, List, [], ◌∷◌, length, get_elem?, if◌then◌else◌,
}

abbrev pub uint : ℕ → ℕ
uint n = n % 2 ^ 32

-- What a system call sees of its process.
pub record User : Type 0 where
  pub mem : ℕ → ℕ
  pub sz : ℕ
  pub esp : ℕ

-- `*(int*)(addr)`: the least significant byte comes first.
abbrev pub load_int : (ℕ → ℕ) → ℕ → ℕ
load_int mem addr =
    mem addr + mem (addr + 1) * 2 ^ 8 + mem (addr + 2) * 2 ^ 16 + mem (addr + 3) * 2 ^ 24

-- `fetchint`
unfoldable pub fetchint : User → ℕ → Option ℕ
fetchint u addr =
    if leb u.sz addr || ltb u.sz (uint (addr + 4)) then none else some (load_int u.mem addr)

-- The loop of `fetchstr` over the `n` bytes from `s` on: the number of bytes before the NUL.
abbrev pub map_suc : Option ℕ → Option ℕ
map_suc none = none
map_suc (some n) = some (suc n)

unfoldable pub find_nul : ℕ → (ℕ → ℕ) → ℕ → Option ℕ
find_nul zero mem s = none
find_nul (suc n) mem s =
    let later = map_suc (find_nul n mem (s + 1)) in if mem s == 0 then some 0 else later

-- `fetchstr`: the length of the string, which starts at `addr`.
unfoldable pub fetchstr : User → ℕ → Option ℕ
fetchstr u addr = if leb u.sz addr then none else find_nul (u.sz - addr) u.mem addr

-- `argint`
unfoldable pub argint : User → ℕ → Option ℕ
argint u n = fetchint u (uint (u.esp + 4 + 4 * n))

abbrev pub negative : ℕ → Bool
negative i = leb (2 ^ 31) i

-- `argptr`, with `size` an int.
unfoldable pub argptr : User → ℕ → ℕ → Option ℕ
argptr u n size = elim (argint u n) [
  | none ↦ none
  | some i ↦ if negative size || (leb u.sz i || ltb u.sz (uint (i + size))) then none else some i
]

-- `argstr`: the string's address and its length.
unfoldable pub argstr : User → ℕ → Option (ℕ × ℕ)
argstr u n = elim (argint u n) [
  | none ↦ none
  | some addr ↦ elim (fetchstr u addr) [ none ↦ none | some length ↦ some (addr, length) ]
]

-- The table `syscalls`, from its entry 1 on.
pub data Call : Type 0 where
  fork exit wait pipe read kill exec fstat chdir dup getpid sbrk sleep uptime open_file write mknod
        unlink link mkdir close :
      Call

abbrev pub syscalls : List Call
syscalls =
    fork ∷ exit ∷ wait ∷ pipe ∷ read ∷ kill ∷ exec ∷ fstat ∷ chdir ∷ dup ∷ getpid ∷ sbrk ∷ sleep
    ∷ uptime ∷ open_file ∷ write ∷ mknod ∷ unlink ∷ link ∷ mkdir ∷ close ∷ []

-- `syscall`: what goes to `eax`. The routine of each call is a parameter.
unfoldable pub syscall {ℓ} : {E : Type ℓ} → (Call → E → ℕ × E) → ℕ → E → ℕ × E
syscall routine num e =
    if not (negative num) && (ltb 0 num && ltb num (suc (length syscalls)))
    then (elim (get_elem? syscalls (num - 1)) [ none ↦ (2 ^ 32 - 1, e) | some c ↦ routine c e ])
    else (2 ^ 32 - 1, e)
