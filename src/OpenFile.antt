-- ===== src/OpenFile.antt =====
-- xv6-add_FAIRNESS/file.c and file.h: the table of open files with its reference counts, and writes
-- through a file. A `struct file *` is an index of the table; all calls get valid ones, and an index
-- outside the table panics here. What runs under ftable.lock is one function. `ref` is the bit
-- pattern of an int.
pub mod Refs
pub mod Writes
mod Tests
use exp.Base.Int.{ℤ, pos, negsuc}
use exp.Base.{
  ℕ, zero, suc, ◌+◌, ◌-◌, ◌*◌, ◌/◌, ◌%◌, ◌^◌, ◌==◌, ltb, leb, Bool, true, false, not, ◌&&◌, ◌||◌,
  Option, none, some, map, List, [], ◌∷◌, length, get_elem?, set, take, drop, if◌then◌else◌,
  Outcome, done, blocked, panic, ◌>>=◌,
}

pub data FileType : Type 0 where
  fd_none : FileType
  fd_pipe : FileType
  fd_inode : FileType

-- `struct file`; the pipe and the inode are addresses.
pub record File : Type 0 where
  pub type : FileType
  pub ref : ℕ
  pub readable : Bool
  pub writable : Bool
  pub pipe : ℕ
  pub ip : ℕ
  pub off : ℕ

-- `f->ref < 1` for an int.
abbrev pub unreferenced : File → Bool
unreferenced f = f.ref == 0 || leb (2 ^ 31) f.ref

abbrev pub add_index : Option (ℕ × List File) → File → Option (ℕ × List File)
add_index none f = none
add_index (some (i, fs)) f = some (suc i, f ∷ fs)

-- `filealloc`: the index of the file, and the table.
unfoldable pub filealloc : List File → Option (ℕ × List File)
filealloc [] = none
filealloc (f ∷ fs) =
    let later = add_index (filealloc fs) f in
    if f.ref == 0 then some (0, record f { ref = 1 } ∷ fs) else later

-- `filedup`
unfoldable pub filedup : ℕ → List File → Outcome (List File)
filedup i fs = elim (get_elem? fs i) [
  | none ↦ panic
  | some f ↦
      if unreferenced f then panic else done (set fs i (record f { ref = (f.ref + 1) % 2 ^ 32 }))
]

-- The calls that leave file.c to close a file.
pub record Closers (E : Type 0) : Type 0 where
  pub pipeclose : ℕ → Bool → E → E
  pub begin_op : E → E
  pub iput : ℕ → E → E
  pub end_op : E → E

module _ {E : Type 0} (k : Closers E) where
  -- What `fileclose` does with `ff`, the copy of the last reference, after the lock.
  abbrev pub close_last : File → E → E
  close_last ff e = elim ff.type [
    | fd_none ↦ e
    | fd_pipe ↦ k.pipeclose ff.pipe ff.writable e
    | fd_inode ↦ k.end_op (k.iput ff.ip (k.begin_op e))
  ]

  -- `fileclose`
  unfoldable pub fileclose : ℕ → List File → E → Outcome (List File × E)
  fileclose i fs e = elim (get_elem? fs i) [
    | none ↦ panic
    | some f ↦
        if unreferenced f
        then panic
        else (if ltb 0 (f.ref - 1)
            then done (set fs i (record f { ref = f.ref - 1 }), e)
            else done (set fs i (record f { ref = 0; type = fd_none }), close_last f e))
  ]

-- The calls of fs.c, log.c and pipe.c that `fileread` and `filewrite` make. The writing ones take the
-- bytes of their `addr`; all four return an int.
pub record Inodes (E : Type 0) : Type 0 where
  pub begin_op : E → E
  pub end_op : E → E
  pub ilock : ℕ → E → E
  pub iunlock : ℕ → E → E
  pub readi : ℕ → ℕ → ℕ → E → ℤ × List ℕ × E
  pub writei : ℕ → List ℕ → ℕ → ℕ → E → ℤ × E
  pub piperead : ℕ → ℕ → E → ℤ × List ℕ × E
  pub pipewrite : ℕ → List ℕ → E → ℤ × E

abbrev pub max_op_blocks : ℕ
max_op_blocks = 10

-- `max`, in bytes.
abbrev pub max_chunk : ℕ
max_chunk = (max_op_blocks - 1 - 1 - 2) / 2 * 512

abbrev pub min : ℕ → ℕ → ℕ
min a b = if ltb b a then b else a

-- `if(r > 0) f->off += r`
abbrev pub move_on : ℤ → File → File
move_on (pos r) f = record f { off = (f.off + r) % 2 ^ 32 }
move_on (negsuc r) f = f

module _ {E : Type 0} (k : Inodes E) where
  -- One transaction of `filewrite`, for the bytes `bs`.
  unfoldable pub write_chunk : File → List ℕ → E → ℤ × File × E
  write_chunk f bs e =
      let (r, e') = k.writei f.ip bs f.off (length bs) (k.ilock f.ip (k.begin_op e)) in
      (r, move_on r f, k.end_op (k.iunlock f.ip e'))

  -- What the loop of `filewrite` does after a chunk of `n1` bytes with the result `r`; `rest` is the
  -- remaining loop.
  abbrev pub next_chunk :
      ℕ → ℤ × File × E → (File → E → Outcome (Bool × File × E)) → Outcome (Bool × File × E)
  next_chunk n1 (negsuc r, f, e) rest = done (false, f, e)
  next_chunk n1 (pos r, f, e) rest = let later = rest f e in if r == n1 then later else panic

  -- The loop of `filewrite` over the bytes that are left, with fuel: whether all were written.
  unfoldable pub write_chunks : ℕ → File → List ℕ → E → Outcome (Bool × File × E)
  write_chunks fuel f [] e = done (true, f, e)
  write_chunks zero f (b ∷ bs) e = blocked
  write_chunks (suc fuel) f (b ∷ bs) e =
      let n1 = min (suc (length bs)) max_chunk in
      next_chunk n1 (write_chunk f (take n1 (b ∷ bs)) e)
        (λ f' e'. write_chunks fuel f' (drop n1 (b ∷ bs)) e')

  -- What `filewrite` does with a writable file.
  abbrev pub write_by_type : File → List ℕ → E → Outcome (ℤ × File × E)
  write_by_type f bs e = elim f.type [
    | fd_none ↦ panic
    | fd_pipe ↦ let (r, e') = k.pipewrite f.pipe bs e in done (r, f, e')
    | fd_inode ↦ do
      (all, f', e') ← write_chunks (length bs) f bs e
      done ((if all then pos (length bs) else negsuc 0), f', e')
  ]

  -- `filewrite`
  unfoldable pub filewrite : File → List ℕ → E → Outcome (ℤ × File × E)
  filewrite f bs e = if f.writable then write_by_type f bs e else done (negsuc 0, f, e)

  -- What `fileread` does with a readable file: the result, the bytes, the file.
  abbrev pub read_by_type : File → ℕ → E → Outcome (ℤ × List ℕ × File × E)
  read_by_type f n e = elim f.type [
    | fd_none ↦ panic
    | fd_pipe ↦ let (r, bs, e') = k.piperead f.pipe n e in done (r, bs, f, e')
    | fd_inode ↦
        let (r, bs, e') = k.readi f.ip f.off n (k.ilock f.ip e) in
        done (r, bs, move_on r f, k.iunlock f.ip e')
  ]

  -- `fileread`
  unfoldable pub fileread : File → ℕ → E → Outcome (ℤ × List ℕ × File × E)
  fileread f n e = if f.readable then read_by_type f n e else done (negsuc 0, [], f, e)
