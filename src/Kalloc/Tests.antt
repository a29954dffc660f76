-- ===== src/Kalloc/Tests.antt =====
-- A small range of pages.
use exp.Base.{ℕ, ◌+◌, ◌*◌, refl, [], ◌∷◌, arith}
use exp.Kalloc.{Kmem, page_size, kern_base, freerange, page_round_up}
use exp.Kalloc.Chain.{Holds}
use exp.Kalloc.Range.{Freed, freerange_lem}

abbrev empty : Kmem
empty = record { freelist = 0; next = λ a. 0 }

empty-Holds : Holds empty []
empty-Holds = record { chain = refl; distinct = tt }

abbrev page : ℕ → ℕ
page n = kern_base + 0x100000 + n * page_size

abbrev one_page : Kmem
one_page = record { freelist = page 1; next = λ a. 0 }

one_page-Holds : Holds one_page (page 1 ∷ [])
one_page-Holds = record { chain = (refl, omega arith, refl); distinct = (tt, tt) }

freerange_lem_example :
    Freed kern_base
      (page_round_up (page 1 + 5))
      (page 4 + 7)
      []
      (freerange kern_base (page 1 + 5) (page 4 + 7) empty)
freerange_lem_example =
    freerange_lem kern_base (page 1 + 5) (page 4 + 7) empty [] (omega arith) (omega arith)
      (omega arith) tt empty-Holds
