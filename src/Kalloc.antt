-- ===== src/Kalloc.antt =====
-- xv6-add_FAIRNESS/kalloc.c: the free list of 4096-byte pages. A page's first word is the pointer to
-- the next free page; what else a page holds is not kept, though `kfree` fills it with 1s. The
-- lock, which only guards the list, is left out. `kernel_end` is the linker's `end`.
pub mod Chain
pub mod Range
mod Tests
use exp.Base.{
  ℕ, zero, suc, ◌+◌, ◌-◌, ◌*◌, ◌/◌, ◌%◌, ◌^◌, ◌==◌, ltb, leb, Bool, true, false, not, ◌||◌,
  if◌then◌else◌, Outcome, done, blocked, panic, ◌>>=◌,
}

abbrev pub page_size : ℕ
page_size = 4096

abbrev pub kern_base : ℕ
kern_base = 0x80000000

abbrev pub phys_top : ℕ
phys_top = 0xE000000

-- `kmem.freelist`, null being 0, and the first word of every page.
pub record Kmem : Type 0 where
  pub freelist : ℕ
  pub next : ℕ → ℕ

abbrev pub link : (ℕ → ℕ) → ℕ → ℕ → ℕ → ℕ
link f a v b = if a == b then v else f b

-- `V2P(v)` wraps below `kern_base`.
abbrev pub bad_page : ℕ → ℕ → Bool
bad_page kernel_end v =
    not (v % page_size == 0)
    || (ltb v kernel_end || leb phys_top ((v + 2 ^ 32 - kern_base) % 2 ^ 32))

unfoldable pub kfree : ℕ → ℕ → Kmem → Outcome Kmem
kfree kernel_end v m =
    if bad_page kernel_end v
    then panic
    else done (record { freelist = v; next = link m.next v m.freelist })

-- The result is 0 where no page is left.
unfoldable pub kalloc : Kmem → ℕ × Kmem
kalloc m =
    if m.freelist == 0 then (0, m) else (m.freelist, record m { freelist = m.next m.freelist })

abbrev pub page_round_up : ℕ → ℕ
page_round_up a = (a + (page_size - 1)) / page_size * page_size

-- The loop of `freerange` from page `p`, with fuel; without fuel it is `blocked`. Kernel addresses
-- end 16 MB below 2 ^ 32, so `p + PGSIZE` does not wrap.
unfoldable pub free_pages : ℕ → ℕ → ℕ → ℕ → Kmem → Outcome Kmem
free_pages zero kernel_end p vend m = blocked
free_pages (suc fuel) kernel_end p vend m =
    let rest = (do m' ← kfree kernel_end p m; free_pages fuel kernel_end (p + page_size) vend m') in
    if leb (p + page_size) vend then rest else done m

unfoldable pub freerange : ℕ → ℕ → ℕ → Kmem → Outcome Kmem
freerange kernel_end vstart vend m =
    free_pages (vend / page_size + 1) kernel_end (page_round_up vstart) vend m
