-- ===== src/Pipe.antt =====
-- xv6-add_FAIRNESS/pipe.c: a pipe of 512 bytes with counters that wrap at 2 ^ 32. What runs under
-- the pipe's lock between two sleeps is one function; where the code sleeps it hands back what is
-- left to do, and the caller comes back with it when it has been woken.
pub mod Ring
pub mod Fifo
pub mod Wakeups
mod Tests
use exp.Base.{
  ℕ, zero, suc, ◌+◌, ◌%◌, ◌^◌, ◌==◌, Bool, true, false, not, ◌&&◌, ◌||◌, Option, none, some, List,
  [], ◌∷◌, if◌then◌else◌,
}

abbrev pub pipe_size : ℕ
pipe_size = 512

abbrev pub uint : ℕ → ℕ
uint n = n % 2 ^ 32

-- `struct pipe`; `bytes` is the array `data`, by index.
pub record Pipe : Type 0 where
  pub bytes : ℕ → ℕ
  pub nread : ℕ
  pub nwrite : ℕ
  pub readopen : Bool
  pub writeopen : Bool

-- What `pipealloc` stores in the new page.
unfoldable pub new_pipe : (ℕ → ℕ) → Pipe
new_pipe junk = record { bytes = junk; nread = 0; nwrite = 0; readopen = true; writeopen = true }

abbrev pub is_full : Pipe → Bool
is_full p = p.nwrite == uint (p.nread + pipe_size)

abbrev pub is_empty : Pipe → Bool
is_empty p = p.nread == p.nwrite

abbrev pub store : (ℕ → ℕ) → ℕ → ℕ → ℕ → ℕ
store f i v j = if i == j then v else f j

-- `p->data[p->nwrite++ % PIPESIZE] = c`
unfoldable pub put : ℕ → Pipe → Pipe
put c p = record p { bytes = store p.bytes (p.nwrite % pipe_size) c; nwrite = uint (p.nwrite + 1) }

-- `p->data[p->nread++ % PIPESIZE]`
abbrev pub front : Pipe → ℕ
front p = p.bytes (p.nread % pipe_size)

unfoldable pub advance : Pipe → Pipe
advance p = record p { nread = uint (p.nread + 1) }

-- A stretch of `pipewrite`, up to its return or its sleep: all bytes are in, which wakes the readers
-- (`wrote`), -1, which wakes nobody (`refused`), or the readers are woken and the writer is asleep
-- with the bytes that are left (`write_sleeps`).
pub data WriteResult : Type 0 where
  wrote : Pipe → WriteResult
  refused : Pipe → WriteResult
  write_sleeps : List ℕ → Pipe → WriteResult

unfoldable pub pipewrite : Bool → List ℕ → Pipe → WriteResult
pipewrite killed [] p = wrote p
pipewrite killed (c ∷ cs) p =
    let rest = pipewrite killed cs (put c p) in
    if is_full p
    then (if not p.readopen || killed then refused p else write_sleeps (c ∷ cs) p)
    else rest

-- The copying loop of `piperead`: at most `n` bytes.
unfoldable pub read_bytes : ℕ → Pipe → List ℕ × Pipe
read_bytes zero p = ([], p)
read_bytes (suc n) p =
    let rest = read_bytes n (advance p) in
    if is_empty p then ([], p) else (front p ∷ rest.0, rest.1)

-- A stretch of `piperead`: the bytes, which wakes the writers (`got`), or -1 or asleep, both of
-- which wake nobody.
pub data ReadResult : Type 0 where
  got : List ℕ → Pipe → ReadResult
  read_refused : ReadResult
  read_sleeps : ReadResult

unfoldable pub piperead : Bool → ℕ → Pipe → ReadResult
piperead killed n p =
    if is_empty p && p.writeopen
    then (if killed then read_refused else read_sleeps)
    else (let (cs, q) = read_bytes n p in got cs q)

-- `pipeclose`: the pipe, and whether its page is freed. It wakes the processes that sleep at the
-- other end.
unfoldable pub pipeclose : Bool → Pipe → Pipe × Bool
pipeclose true p = let q = record p { writeopen = false } in (q, not q.readopen && not q.writeopen)
pipeclose false p = let q = record p { readopen = false } in (q, not q.readopen && not q.writeopen)
