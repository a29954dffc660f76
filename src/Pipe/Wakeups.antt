-- ===== src/Pipe/Wakeups.antt =====
-- A reader and a writer that sleep on a pipe and wake each other.
use exp.Base.{
  ℕ, zero, suc, ◌<◌, ◌≡◌, refl, ap, ◌∙◌, Bool, true, false, not, ◌&&◌, ◌||◌, List, [], ◌∷◌, length,
  arith, Bool-cases, inl, inr, length-append,
}
use exp.Pipe.{
  Pipe, pipe_size, is_full, is_empty, put, advance, new_pipe, WriteResult, wrote, refused,
  write_sleeps, pipewrite, read_bytes, ReadResult, got, read_refused, read_sleeps, piperead,
  pipeclose,
}
use exp.Pipe.Ring.{IsValid, count, contents, length-contents, count_empty}
use exp.Pipe.Fifo.{Wrote, pipewrite-Wrote, read_bytes_lem}

-- The pipe, and who sleeps on it.
pub record Sleepers : Type 0 where
  pub pipe : Pipe
  pub reader_sleeps : Bool
  pub writer_sleeps : Bool

abbrev pub after_write : Sleepers → WriteResult → Sleepers
after_write s (wrote q) = record s { pipe = q; reader_sleeps = false }
after_write s (refused q) = record s { pipe = q }
after_write s (write_sleeps rest q) = record {
  pipe = q;
  reader_sleeps = false;
  writer_sleeps = true;
}

abbrev pub after_read : Sleepers → ReadResult → Sleepers
after_read s (got cs q) = record s { pipe = q; writer_sleeps = false }
after_read s read_refused = s
after_read s read_sleeps = record s { reader_sleeps = true }

-- What the two processes and a kill do. The end that a process uses is open, and it does nothing
-- while it sleeps; a kill makes it run. The mark says that the step is a `pipewrite` by a process
-- that was killed.
pub data Step : Bool → Sleepers → Sleepers → Type 0 where
  writes :
      (s : Sleepers) (killed : Bool) (cs : List ℕ)
      → s.writer_sleeps ≡ false
      → s.pipe.writeopen ≡ true
      → Step killed s (after_write s (pipewrite killed cs s.pipe))
  reads :
      (s : Sleepers) (killed : Bool) (n : ℕ)
      → s.reader_sleeps ≡ false
      → s.pipe.readopen ≡ true
      → Step false s (after_read s (piperead killed n s.pipe))
  writer_closes :
      (s : Sleepers)
      → s.writer_sleeps ≡ false
      → Step false s (record s { pipe = (pipeclose true s.pipe).0; reader_sleeps = false })
  reader_closes :
      (s : Sleepers)
      → s.reader_sleeps ≡ false
      → Step false s (record s { pipe = (pipeclose false s.pipe).0; writer_sleeps = false })
  reader_killed : (s : Sleepers) → Step false s (record s { reader_sleeps = false })
  writer_killed : (s : Sleepers) → Step false s (record s { writer_sleeps = false })

-- From a pipe that `pipealloc` made, with nobody asleep. The mark says that a killed process has
-- written to the pipe since the reader fell asleep, and the reader sleeps still.
pub data Reachable : Bool → Sleepers → Type 0 where
  opened :
      (junk : ℕ → ℕ)
      → Reachable false
          (record { pipe = new_pipe junk; reader_sleeps = false; writer_sleeps = false })
  steps :
      (marked killed : Bool) (s t : Sleepers)
      → Reachable marked s
      → Step killed s t
      → Reachable ((marked || killed) && t.reader_sleeps) t

-- The reader sleeps only with both ends open, and, but for a killed writer, only on an empty pipe;
-- the writer sleeps only on a full one with the reading end open.
pub record NoLostWakeup (marked : Bool) (s : Sleepers) : Type 0 where
  pub valid : IsValid s.pipe
  pub reader :
      s.reader_sleeps ≡ true
      → (s.pipe.readopen ≡ true) × (s.pipe.writeopen ≡ true) × (marked ≡ false → count s.pipe ≡ 0)
  pub writer : s.writer_sleeps ≡ true → (count s.pipe ≡ pipe_size) × (s.pipe.readopen ≡ true)

-- The ends stay as they are while bytes go in and out.
abbrev pub SameEnds : Pipe → Pipe → Type 0
SameEnds p q = (q.readopen ≡ p.readopen) × (q.writeopen ≡ p.writeopen)

abbrev WroteSameEnds : Pipe → WriteResult → Type 0
WroteSameEnds p (wrote q) = SameEnds p q
WroteSameEnds p (refused q) = SameEnds p q
WroteSameEnds p (write_sleeps rest q) = SameEnds p q

put-WroteSameEnds :
    (c : ℕ) (p : Pipe) (r : WriteResult) → WroteSameEnds (put c p) r → WroteSameEnds p r
unfolding put
put-WroteSameEnds c p (wrote q) e = e
put-WroteSameEnds c p (refused q) e = e
put-WroteSameEnds c p (write_sleeps rest q) e = e

pipewrite-SameEnds :
    (killed : Bool) (cs : List ℕ) (p : Pipe) → WroteSameEnds p (pipewrite killed cs p)
unfolding pipewrite
pipewrite-SameEnds killed [] p = (refl, refl)
pipewrite-SameEnds killed (c ∷ cs) p = elim (Bool-cases (is_full p)) [
  | inr room ↦ rw room (
      put-WroteSameEnds c p (pipewrite killed cs (put c p))
        (pipewrite-SameEnds killed cs (put c p)))
  | inl full ↦ elim (Bool-cases (not p.readopen || killed)) [
    | inl stop ↦ rw (full, stop) (refl, refl)
    | inr wait ↦ rw (full, wait) (refl, refl)
  ]
]

read_bytes-SameEnds : (n : ℕ) (p : Pipe) → SameEnds p (read_bytes n p).1
unfolding read_bytes advance
read_bytes-SameEnds zero p = (refl, refl)
read_bytes-SameEnds (suc n) p = elim (Bool-cases (is_empty p)) [
  | inl none_left ↦ rw none_left (refl, refl)
  | inr more ↦ rw more (read_bytes-SameEnds n (advance p))
]

unmarked : (m k b : Bool) → b ≡ true → ((m || k) && b) ≡ false → (m ≡ false) × (k ≡ false)
unmarked m k b h e = (ground arith, ground arith)

after_write-NoLostWakeup :
    (m k : Bool) (s : Sleepers) (cs : List ℕ) (r : WriteResult)
    → s.writer_sleeps ≡ false
    → NoLostWakeup m s
    → Wrote k cs s.pipe r
    → WroteSameEnds s.pipe r
    → NoLostWakeup ((m || k) && (after_write s r).reader_sleeps) (after_write s r)
after_write-NoLostWakeup m k s cs (wrote q) awake h w e = record {
  valid = w.valid;
  reader = λ z. absurd cc;
  writer = λ z. absurd cc;
}
after_write-NoLostWakeup m k s cs (refused q) awake h (rest, w, full, why) (same_r, same_w) =
    record {
      valid = w.valid;
      reader = λ z.
          let (r, o, none_in) = h.reader z in
          (same_r ∙ r, same_w ∙ o, λ u. absurd (live (unmarked m k s.reader_sleeps z u).1 r));
      writer = λ z. absurd cc;
    }
  where
    live : k ≡ false → s.pipe.readopen ≡ true → ⊥
    live alive r = ground arith
after_write-NoLostWakeup m k s cs (write_sleeps rest q) awake h (w, some_left, full, open_end, live)
      e =
    record { valid = w.valid; reader = λ z. absurd cc; writer = λ z. (full, open_end) }

data ReadCases (killed : Bool) (n : ℕ) (p : Pipe) : Type 0 where
  slept :
      is_empty p ≡ true
      → p.writeopen ≡ true
      → piperead killed n p ≡ read_sleeps
      → ReadCases killed n p
  failed : piperead killed n p ≡ read_refused → ReadCases killed n p
  read :
      (cs : List ℕ) (q : Pipe)
      → piperead killed n p ≡ got cs q
      → IsValid q
      → SameEnds p q
      → ReadCases killed n p

piperead-cases : (killed : Bool) (n : ℕ) (p : Pipe) → IsValid p → ReadCases killed n p
unfolding piperead
piperead-cases killed n p v = elim (Bool-cases (is_empty p && p.writeopen)) [
  | inr ready ↦
      read (read_bytes n p).0 (read_bytes n p).1 (rw ready refl) (read_bytes_lem n p v).2
        (read_bytes-SameEnds n p)
  | inl wait ↦ elim (Bool-cases killed) [
    | inl k ↦ failed (rw (wait, k) refl)
    | inr k ↦ slept (ground arith) (ground arith) (rw (wait, k) refl)
  ]
]

after_read-NoLostWakeup :
    (m : Bool) (s : Sleepers) (killed : Bool) (n : ℕ)
    → s.reader_sleeps ≡ false
    → s.pipe.readopen ≡ true
    → NoLostWakeup m s
    → (b : Bool) → NoLostWakeup b (after_read s (piperead killed n s.pipe))
after_read-NoLostWakeup m s killed n awake open_end h b =
    elim (piperead-cases killed n s.pipe h.valid) [
      | slept empty writer_open e ↦ rw e (record {
        valid = h.valid;
        reader = λ z. (open_end, writer_open, λ u. count_empty s.pipe h.valid empty);
        writer = h.writer;
      })
      | failed e ↦ rw e (record { valid = h.valid; reader = λ z. absurd cc; writer = h.writer })
      | read cs q e v same ↦
          rw e (record { valid = v; reader = λ z. absurd cc; writer = λ z. absurd cc })
    ]

closed : {p : Pipe} {r w : Bool} → IsValid p → IsValid (record p { readopen = r; writeopen = w })
closed v = record { read_range = v.read_range; write_range = v.write_range; fits = v.fits }

Step-NoLostWakeup :
    (m k : Bool) (s t : Sleepers)
    → Step k s t
    → NoLostWakeup m s
    → NoLostWakeup ((m || k) && t.reader_sleeps) t
unfolding pipeclose
Step-NoLostWakeup m k s t (writes s' killed cs awake open_end) h =
    after_write-NoLostWakeup m killed s' cs (pipewrite killed cs s'.pipe) awake h
      (pipewrite-Wrote killed cs s'.pipe h.valid) (pipewrite-SameEnds killed cs s'.pipe)
Step-NoLostWakeup m k s t (reads s' killed n awake open_end) h =
    after_read-NoLostWakeup m s' killed n awake open_end h _
Step-NoLostWakeup m k s t (writer_closes s' awake) h = record {
  valid = closed h.valid;
  reader = λ z. absurd cc;
  writer = λ z. absurd cc;
}
Step-NoLostWakeup m k s t (reader_closes s' awake) h = record {
  valid = closed h.valid;
  reader = λ z. absurd cc;
  writer = λ z. absurd cc;
}
Step-NoLostWakeup m k s t (reader_killed s') h = record {
  valid = h.valid;
  reader = λ z. absurd cc;
  writer = h.writer;
}
Step-NoLostWakeup m k s t (writer_killed s') h = record {
  valid = h.valid;
  reader = λ z.
      let (r, o, none_in) = h.reader z in
      (r, o, λ u. none_in (unmarked m false s'.reader_sleeps z u).0);
  writer = λ z. absurd cc;
}

new_pipe-IsValid : (junk : ℕ → ℕ) → IsValid (new_pipe junk)
unfolding new_pipe
new_pipe-IsValid junk = omega arith

-- In every state that the reader, the writer and kills reach from a new pipe: the writer sleeps
-- only on a full pipe with the reading end open; the reader sleeps only with both ends open; and
-- unless a killed process has written since the reader fell asleep, it sleeps only on an empty
-- pipe, so never both sleep.
pub Reachable-NoLostWakeup :
    (marked : Bool) (s : Sleepers)
    → Reachable marked s
    → NoLostWakeup marked s × (marked ≡ false → s.reader_sleeps ≡ true → s.writer_sleeps ≡ false)
Reachable-NoLostWakeup m s r = (holds m s r, λ u reading. not_both m s (holds m s r) u reading)
  where
    holds : (m : Bool) (s : Sleepers) → Reachable m s → NoLostWakeup m s
    holds m s (opened junk) = record {
      valid = new_pipe-IsValid junk;
      reader = λ z. absurd cc;
      writer = λ z. absurd cc;
    }
    holds m t (steps marked killed s t' r step) =
        Step-NoLostWakeup marked killed s t' step (holds marked s r)

    not_both :
        (m : Bool) (s : Sleepers)
        → NoLostWakeup m s
        → m ≡ false
        → s.reader_sleeps ≡ true
        → s.writer_sleeps ≡ false
    not_both m s h u reading = elim (Bool-cases s.writer_sleeps) [
      | inl writing ↦ absurd (omega (arith, (h.reader reading).2 u, (h.writer writing).0))
      | inr idle ↦ idle
    ]

-- A killed process that writes more bytes than fit into an empty pipe fills it and fails, which
-- wakes nobody: a reader that sleeps on the pipe goes on sleeping although the pipe is full.
pub pipewrite-killed_silent :
    (cs : List ℕ) (s : Sleepers)
    → IsValid s.pipe
    → count s.pipe ≡ 0
    → pipe_size < length cs
    → (q : Pipe) × (after_write s (pipewrite true cs s.pipe) ≡ record s { pipe = q })
      × (count q ≡ pipe_size)
pipewrite-killed_silent cs s v none_in long =
    filled (pipewrite true cs s.pipe) (pipewrite-Wrote true cs s.pipe v)
  where
    filled :
        (r : WriteResult)
        → Wrote true cs s.pipe r
        → (q : Pipe) × (after_write s r ≡ record s { pipe = q }) × (count q ≡ pipe_size)
    filled (wrote q) w = absurd (
        omega (
          arith,
          length-contents q,
          ap length w.appended,
          length-append (contents s.pipe) w.sent,
          ap length w.split,
          length-append w.sent [],
          w.valid.fits,
        ))
    filled (refused q) (rest, w, full, why) = (q, refl, full)
    filled (write_sleeps rest q) (w, some_left, full, open_end, live) = absurd cc
