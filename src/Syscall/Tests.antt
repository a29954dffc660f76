-- ===== src/Syscall/Tests.antt =====
-- A process of 100 bytes whose stack pointer is 40: its first argument is the word at 44.
use exp.Base.{ℕ, ◌+◌, ◌-◌, ◌^◌, ◌<◌, ◌==◌, ◌≡◌, ◌↔◌, refl, some, none, arith, if◌then◌else◌}
use exp.Syscall.{User, argint, argptr, argstr, fetchint, fetchstr, find_nul, syscall}
use exp.Syscall.Bounds.{Inside, StringAt, argptr-Inside, argstr-StringAt}

abbrev user : User
user = record { mem = λ a. if a == 44 then 50 else if a == 50 then 7 else 0; sz = 100; esp = 40 }

argptr-user : argptr user 0 51 ≡ none
unfolding argptr argint fetchint
argptr-user = refl

argstr-user : argstr user 0 ≡ some (50, 1)
unfolding argstr argint fetchint fetchstr find_nul
argstr-user = refl

syscall-getpid : syscall {E = ℕ} (λ c e. (5, e)) 11 3 ≡ (5, 3)
unfolding syscall
syscall-getpid = refl

syscall-unknown : syscall {E = ℕ} (λ c e. (5, e)) 22 3 ≡ (2 ^ 32 - 1, 3)
unfolding syscall
syscall-unknown = refl

argptr-Inside_example :
    (argptr user 0 50 ≡ some 50) ↔ ((argint user 0 ≡ some 50) × (50 < 2 ^ 31) × Inside user 50 50)
argptr-Inside_example = argptr-Inside user 0 50 50 (omega arith)

argstr-StringAt_example :
    (argstr user 0 ≡ some (50, 1))
    ↔ ((argint user 0 ≡ some 50) × (50 + 1 < user.sz) × StringAt user.mem 50 1)
argstr-StringAt_example = argstr-StringAt user 0 50 1
