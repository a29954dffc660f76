-- ===== src/Spinlock/Tests.antt =====
-- Instances of the theorems on spin locks.
use exp.Base.{true, false, arith}
use exp.Spinlock.{Cpu}
use exp.Spinlock.Nesting.{IsNested}

abbrev outside : Cpu
outside = record { interrupts = true; ncli = 0; intena = false }

outside-IsNested : IsNested outside
outside-IsNested = record { off = λ h. absurd (omega arith) }
