-- ===== src/Pipe/Fifo.antt =====
-- `pipewrite` and `piperead` are a bounded FIFO of bytes.
use exp.Base.{
  ℕ, zero, suc, ◌≡◌, ◌≢◌, refl, ap, sym, ◌∙◌, ◌⊎◌, inl, inr, Bool, true, false, not, ◌&&◌, ◌||◌,
  List, [], ◌∷◌, ◌++◌, length, take, drop, arith, if◌then◌else◌, append-nil, append_assoc,
  Bool-cases,
}
use exp.Pipe.{
  Pipe, pipe_size, is_full, is_empty, put, front, advance, WriteResult, wrote, refused,
  write_sleeps, pipewrite, read_bytes, got, read_refused, read_sleeps, piperead,
}
use exp.Pipe.Ring.{
  contents, length-contents, count, IsValid, count_full, count_room, count_empty, count_some,
  contents_none, put_lem, advance_lem,
}

-- A stretch of `pipewrite` has appended `sent`; what is left is `rest`.
pub record Sent (p q : Pipe) (cs rest : List ℕ) : Type 0 where
  pub sent : List ℕ
  pub split : cs ≡ sent ++ rest
  pub appended : contents q ≡ contents p ++ sent
  pub valid : IsValid q

abbrev pub Wrote : Bool → List ℕ → Pipe → WriteResult → Type 0
Wrote killed cs p (wrote q) = Sent p q cs []
Wrote killed cs p (refused q) =
    (rest : List ℕ) × Sent p q cs rest × (count q ≡ pipe_size) × ((not q.readopen || killed) ≡ true)
Wrote killed cs p (write_sleeps rest q) =
    Sent p q cs rest × (rest ≢ []) × (count q ≡ pipe_size) × (q.readopen ≡ true) × (killed ≡ false)

Sent-none : (p : Pipe) (cs : List ℕ) → IsValid p → Sent p p cs cs
Sent-none p cs v = record {
  sent = [];
  split = refl;
  appended = sym (append-nil (contents p));
  valid = v;
}

Sent-cons :
    (c : ℕ) (p q : Pipe) (cs rest : List ℕ)
    → contents (put c p) ≡ contents p ++ (c ∷ [])
    → Sent (put c p) q cs rest
    → Sent p q (c ∷ cs) rest
Sent-cons c p q cs rest e w = record {
  sent = c ∷ w.sent;
  split = ap (λ r. c ∷ r) w.split;
  appended = w.appended ∙ ap (λ r. r ++ w.sent) e ∙ append_assoc (contents p) (c ∷ []) w.sent;
  valid = w.valid;
}

Wrote-cons :
    (killed : Bool) (c : ℕ) (p : Pipe) (cs : List ℕ) (r : WriteResult)
    → contents (put c p) ≡ contents p ++ (c ∷ [])
    → Wrote killed cs (put c p) r
    → Wrote killed (c ∷ cs) p r
Wrote-cons killed c p cs (wrote q) e w = Sent-cons c p q cs [] e w
Wrote-cons killed c p cs (refused q) e (rest, w, full, why) =
    (rest, Sent-cons c p q cs rest e w, full, why)
Wrote-cons killed c p cs (write_sleeps rest q) e (w, some_left, full, open_end, live) =
    (Sent-cons c p q cs rest e w, some_left, full, open_end, live)

-- `pipewrite` appends its bytes in order. It returns when all are in; it fails or sleeps only with
-- the pipe full, having appended those before the rest: it fails if the reading end is closed or
-- the process was killed, and else sleeps.
pub pipewrite-Wrote :
    (killed : Bool) (cs : List ℕ) (p : Pipe) → IsValid p → Wrote killed cs p (pipewrite killed cs p)
unfolding pipewrite
pipewrite-Wrote killed [] p v = Sent-none p [] v
pipewrite-Wrote killed (c ∷ cs) p v = elim (Bool-cases (is_full p)) [
  | inr room ↦
      let (v', e) = put_lem c p v (count_room p v room) in
      rw room (
        Wrote-cons killed c p cs (pipewrite killed cs (put c p)) e
          (pipewrite-Wrote killed cs (put c p) v'))
  | inl full ↦ elim (Bool-cases (not p.readopen || killed)) [
    | inl stop ↦ rw (full, stop) (c ∷ cs, Sent-none p (c ∷ cs) v, count_full p v full, stop)
    | inr wait ↦
        rw (full, wait)
          (Sent-none p (c ∷ cs) v, λ z. cc, count_full p v full, ground arith, ground arith)
  ]
]

pub read_bytes_lem :
    (n : ℕ) (p : Pipe)
    → IsValid p
    → ((read_bytes n p).0 ≡ take n (contents p))
      × (contents (read_bytes n p).1 ≡ drop n (contents p))
      × IsValid (read_bytes n p).1
unfolding read_bytes
read_bytes_lem zero p v = (refl, refl, v)
read_bytes_lem (suc n) p v = elim (Bool-cases (is_empty p)) [
  | inl none_left ↦
      let e : contents p ≡ [] = contents_none p (count_empty p v none_left) in
      rw (none_left, e) (refl, refl, v)
  | inr more ↦
      let (v', e) = advance_lem p v (count_some p v more) in
      let (cs, rest, valid) = read_bytes_lem n (advance p) v' in
      rw (more, e) (ap (λ r. front p ∷ r) cs, rest, valid)
]

-- A stretch of `piperead` on an empty pipe whose writing end is open fails if the process was
-- killed and else sleeps; on any other it returns the oldest bytes, `n` at most, and takes just
-- these out. With the writing end closed an empty pipe so gives no bytes, the end of the file.
pub piperead_lem :
    (killed : Bool) (n : ℕ) (p : Pipe)
    → IsValid p
    → (contents p ≡ []
        → p.writeopen ≡ true
        → piperead killed n p ≡ (if killed then read_refused else read_sleeps))
      × ((contents p ≢ []) ⊎ (p.writeopen ≡ false)
          → (q : Pipe) × (piperead killed n p ≡ got (take n (contents p)) q)
            × (contents q ≡ drop n (contents p))
            × IsValid q)
unfolding piperead
piperead_lem killed n p v = (
  λ none_left open_end. ground (arith, emptied none_left),
  λ some_way.
      let (cs, rest, valid) = read_bytes_lem n p v in
      ((read_bytes n p).1, ground (arith, cs, goes_on some_way), rest, valid),
)
  where
    emptied : contents p ≡ [] → is_empty p ≡ true
    emptied e = elim (Bool-cases (is_empty p)) [
      | inl h ↦ h
      | inr h ↦ absurd (omega (arith, count_some p v h, length-contents p, ap length e))
    ]

    goes_on : (contents p ≢ []) ⊎ (p.writeopen ≡ false) → (is_empty p && p.writeopen) ≡ false
    goes_on (inr h) = ground arith
    goes_on (inl h) = elim (Bool-cases (is_empty p)) [
      | inl e ↦ absurd (h (contents_none p (count_empty p v e)))
      | inr e ↦ rw e refl
    ]
