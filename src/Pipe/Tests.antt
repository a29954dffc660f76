-- ===== src/Pipe/Tests.antt =====
-- A pipe whose counters are about to wrap.
use exp.Base.{
  ℕ, replicate, length-replicate, ◌^◌, ◌-◌, ◌≡◌, refl, Bool, true, false, [], ◌∷◌, take, drop,
  arith, inl,
}
use exp.Pipe.{pipe_size, new_pipe, Pipe, put, pipewrite, piperead, wrote, got, pipeclose}
use exp.Pipe.Ring.{count, IsValid, contents, window}
use exp.Pipe.Wakeups.{
  Sleepers, after_write, after_read, reads, opened, steps, NoLostWakeup, Reachable-NoLostWakeup,
  pipewrite-killed_silent,
}
use exp.Pipe.Fifo.{Wrote, pipewrite-Wrote, piperead_lem}

abbrev near_wrap : Pipe
near_wrap = record {
  bytes = λ i. i;
  nread = 2 ^ 32 - 2;
  nwrite = 2 ^ 32 - 1;
  readopen = true;
  writeopen = true;
}

near_wrap-IsValid : IsValid near_wrap
near_wrap-IsValid = omega arith

contents-near_wrap : contents near_wrap ≡ 510 ∷ []
unfolding contents window
contents-near_wrap = refl

pipewrite-near_wrap : pipewrite false (7 ∷ 8 ∷ []) near_wrap ≡ wrote (put 8 (put 7 near_wrap))
unfolding pipewrite put
pipewrite-near_wrap = refl

pipewrite-Wrote_example :
    Wrote false (7 ∷ 8 ∷ []) near_wrap (pipewrite false (7 ∷ 8 ∷ []) near_wrap)
pipewrite-Wrote_example = pipewrite-Wrote false (7 ∷ 8 ∷ []) near_wrap near_wrap-IsValid

piperead_lem_example :
    (q : Pipe) × (piperead false 5 near_wrap ≡ got (take 5 (contents near_wrap)) q)
    × (contents q ≡ drop 5 (contents near_wrap))
    × IsValid q
unfolding contents window
piperead_lem_example = (piperead_lem false 5 near_wrap near_wrap-IsValid).1 (inl (λ e. cc))

closing : (pipeclose true (pipeclose false near_wrap).0).1 ≡ true
unfolding pipeclose
closing = refl

abbrev fresh_ends : Sleepers
fresh_ends = record { pipe = new_pipe (λ i. 0); reader_sleeps = false; writer_sleeps = false }

-- A read of the new pipe puts the reader to sleep.
abbrev reader_waits : Sleepers
reader_waits = after_read fresh_ends (piperead false 5 (new_pipe (λ i. 0)))

reader_waits-asleep : reader_waits.reader_sleeps ≡ true
unfolding piperead new_pipe
reader_waits-asleep = refl

reader_open : fresh_ends.pipe.readopen ≡ true
unfolding new_pipe
reader_open = refl

Reachable-NoLostWakeup_example :
    NoLostWakeup false reader_waits
    × (◌≡◌ {A = Bool} false false
        → reader_waits.reader_sleeps ≡ true
        → reader_waits.writer_sleeps ≡ false)
Reachable-NoLostWakeup_example = Reachable-NoLostWakeup false reader_waits (
    steps false false fresh_ends reader_waits (opened (λ i. 0))
      (reads fresh_ends false 5 refl reader_open))

fresh_ends-IsValid : IsValid fresh_ends.pipe
unfolding new_pipe
fresh_ends-IsValid = omega arith

fresh_ends-empty : count fresh_ends.pipe ≡ 0
unfolding new_pipe
fresh_ends-empty = omega arith

pipewrite-killed_silent_example :
    (q : Pipe) × (after_write fresh_ends (pipewrite true (replicate 600 7) fresh_ends.pipe)
      ≡ record fresh_ends { pipe = q })
    × (count q ≡ pipe_size)
pipewrite-killed_silent_example =
    pipewrite-killed_silent (replicate 600 7) fresh_ends fresh_ends-IsValid fresh_ends-empty
      (omega (arith, length-replicate {A = ℕ} 600 7))
