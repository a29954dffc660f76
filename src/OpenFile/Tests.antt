-- ===== src/OpenFile/Tests.antt =====
-- A table of two files, and a disk that notes the length of every write.
use exp.Base.{
  ℕ, zero, suc, some, ◌<◌, ◌≡◌, refl, true, false, List, [], ◌∷◌, length, get_elem?, replicate, ◌≢◌,
  ◌⊎◌, inl, inr, ltb, ◌++◌, Bool-cases, arith, done, if◌then◌else◌,
}
use exp.Base.Int.{pos, negsuc}
use exp.OpenFile.{
  File, fd_none, fd_pipe, fd_inode, fileclose, Closers, Inodes, write_chunk, write_chunks,
  filewrite,
}
use exp.OpenFile.Refs.{handles_on, ref_of, Counted, fileclose-Counted}
use exp.OpenFile.Writes.{join, IsChunk, WritesOrFails, Written, answer, ran, filewrite-Written}

abbrev closed_file : File
closed_file = record {
  type = fd_none;
  ref = 0;
  readable = false;
  writable = false;
  pipe = 0;
  ip = 0;
  off = 0;
}

abbrev inode_file : File
inode_file = record {
  type = fd_inode;
  ref = 2;
  readable = true;
  writable = true;
  pipe = 0;
  ip = 9;
  off = 100;
}

abbrev table : List File
table = inode_file ∷ closed_file ∷ []

table-Counted : Counted (0 ∷ 0 ∷ []) table
unfolding ref_of handles_on
table-Counted zero = refl
table-Counted (suc zero) = refl
table-Counted (suc (suc i)) = ground arith

-- The calls as numbers, the last first.
abbrev calls : Closers (List ℕ)
calls = record {
  pipeclose = λ p writable e. 1 ∷ e;
  begin_op = λ e. 2 ∷ e;
  iput = λ ip e. 3 ∷ e;
  end_op = λ e. 4 ∷ e;
}

abbrev disk : Inodes (List ℕ)
disk = record {
  begin_op = λ e. e;
  end_op = λ e. e;
  ilock = λ ip e. e;
  iunlock = λ ip e. e;
  readi = λ ip off n e. (pos 0, [], e);
  writei = λ ip bs off n e. (pos n, n ∷ e);
  piperead = λ p n e. (pos 0, [], e);
  pipewrite = λ p bs e. (pos 0, e);
}

one_handle : 0 < handles_on 0 (0 ∷ 0 ∷ [])
unfolding handles_on
one_handle = omega arith

fileclose-Counted_example :
    (f : File) × (f' : File) × (fs : List File) × (e' : List ℕ) × (get_elem? table 0 ≡ some f)
    × (fileclose calls 0 table [] ≡ done (fs, e'))
    × Counted (0 ∷ []) fs
    × (get_elem? fs 0 ≡ some f')
    × ((j : ℕ) → 0 ≢ j → get_elem? fs j ≡ get_elem? table j)
    × (0 < handles_on 0 (0 ∷ []) → (f' ≡ record f { ref = handles_on 0 (0 ∷ []) }) × (e' ≡ []))
    × (handles_on 0 (0 ∷ []) ≡ 0
        → (f' ≡ record f { ref = 0; type = fd_none })
          × (f.type ≡ fd_none → e' ≡ [])
          × (f.type ≡ fd_pipe → e' ≡ calls.pipeclose f.pipe f.writable [])
          × (f.type ≡ fd_inode → e' ≡ calls.end_op (calls.iput f.ip (calls.begin_op []))))
fileclose-Counted_example = fileclose-Counted calls 0 (0 ∷ []) table [] (omega arith) table-Counted

abbrev sevens : List ℕ
sevens = replicate 2000 7

-- The disk takes writes at offsets below 1000 and refuses the others.
abbrev small_disk : Inodes (List ℕ)
small_disk = record disk {
  writei = λ ip bs off n e. ((if ltb off 1000 then pos n else negsuc 0), n ∷ e);
}

small_disk-WritesOrFails : WritesOrFails small_disk
small_disk-WritesOrFails ip off n bs e = elim (Bool-cases (ltb off 1000)) [
  | inl near ↦ inl (rw near refl)
  | inr far ↦ inr (0, rw far refl)
]

-- The second chunk starts at 1636.
filewrite-refused :
    filewrite small_disk inode_file sevens []
    ≡ done (negsuc 0, record inode_file { off = 1636 }, 464 ∷ 1536 ∷ [])
unfolding filewrite write_chunks write_chunk
filewrite-refused = refl

filewrite-Written_example :
    (cs : List (List ℕ)) × (f' : File) × (e' : List ℕ) × Written small_disk inode_file cs [] f' e'
    × (((join cs ≡ sevens)
          × (filewrite small_disk inode_file sevens [] ≡ done (pos (length sevens), f', e')))
        ⊎ ((c : List ℕ) × (rest : List ℕ) × (m : ℕ) × IsChunk c
            × (join cs ++ (c ++ rest) ≡ sevens)
            × (answer small_disk f' c e' ≡ negsuc m)
            × (filewrite small_disk inode_file sevens []
                ≡ done (negsuc 0, f', ran small_disk f' c e'))))
filewrite-Written_example =
    filewrite-Written small_disk inode_file sevens [] refl refl small_disk-WritesOrFails
