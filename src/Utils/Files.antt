-- ===== src/Utils/Files.antt =====
-- The statistics files: what the measuring programs write, user/run_experiment.c reads back.
use exp.Base.{ℕ, ◌^◌, ◌<◌, ◌≡◌, refl, ap, ap₂, ◌∙◌, List, [], ◌∷◌, ◌++◌, arith}
use exp.Utils.{
  int_to_str, custom_atoi, skip_field, skip_space, next_field, read_mem_stats, Times, read_stats,
  mem_stats_line, times_line,
}
use exp.Utils.Decimal.{AllDigits, int_to_str-AllDigits, custom_atoi-int_to_str}

skip_field-AllDigits : (xs s : List ℕ) → AllDigits xs → skip_field (xs ++ (b' ' ∷ s)) ≡ b' ' ∷ s
unfolding skip_field
skip_field-AllDigits [] s h = refl
skip_field-AllDigits (x ∷ xs) s (h, hs) = ground (arith, skip_field-AllDigits xs s hs)

next_field-int_to_str : (n : ℕ) (s : List ℕ) → next_field (int_to_str n ++ (b' ' ∷ s)) ≡ s
unfolding skip_space
next_field-int_to_str n s =
    ap skip_space (skip_field-AllDigits (int_to_str n) s (int_to_str-AllDigits n))

read_mem_stats-some :
    (xs ys : List ℕ) (c : ℕ) (old : ℕ × ℕ)
    → read_mem_stats (xs ++ (c ∷ ys)) old
      ≡ (custom_atoi (xs ++ (c ∷ ys)), custom_atoi (next_field (xs ++ (c ∷ ys))))
unfolding read_mem_stats
read_mem_stats-some [] ys c old = refl
read_mem_stats-some (x ∷ xs) ys c old = refl

-- `read_mem_stats` reads from the line that cpu_bound.c wrote the two times that it was written
-- with, if each is at most INT_MAX.
pub read_mem_stats-mem_stats_line :
    (alloc free : ℕ) (old : ℕ × ℕ)
    → alloc < 2 ^ 31
    → free < 2 ^ 31
    → read_mem_stats (mem_stats_line alloc free) old ≡ (alloc, free)
unfolding mem_stats_line
read_mem_stats-mem_stats_line alloc free old a f =
    read_mem_stats-some (int_to_str alloc) (int_to_str free ++ (b'\n' ∷ [])) (b' ') old
    ∙ ap₂ (λ m n. (m, n))
        (custom_atoi-int_to_str alloc (b' ' ∷ (int_to_str free ++ (b'\n' ∷ []))) a refl)
        (ap custom_atoi (next_field-int_to_str alloc (int_to_str free ++ (b'\n' ∷ [])))
          ∙ custom_atoi-int_to_str free (b'\n' ∷ []) f refl)

abbrev pub SmallTimes : Times → Type 0
SmallTimes t =
    (t.write_time < 2 ^ 31)
    × (t.read_time < 2 ^ 31)
    × (t.delete_time < 2 ^ 31)
    × (t.alloc_time < 2 ^ 31)
    × (t.free_time < 2 ^ 31)

-- The fields of `s`, one behind the other.
abbrev fields : List ℕ → Times
fields s =
    let f1 = next_field s in
    let f2 = next_field f1 in
    let f3 = next_field f2 in
    let f4 = next_field f3 in
    record {
      write_time = custom_atoi s;
      read_time = custom_atoi f1;
      delete_time = custom_atoi f2;
      alloc_time = custom_atoi f3;
      free_time = custom_atoi f4;
    }

fields-eq :
    (s s1 s2 s3 s4 : List ℕ) (t : Times)
    → next_field s ≡ s1
    → next_field s1 ≡ s2
    → next_field s2 ≡ s3
    → next_field s3 ≡ s4
    → custom_atoi s ≡ t.write_time
    → custom_atoi s1 ≡ t.read_time
    → custom_atoi s2 ≡ t.delete_time
    → custom_atoi s3 ≡ t.alloc_time
    → custom_atoi s4 ≡ t.free_time
    → fields s ≡ t
fields-eq s s1 s2 s3 s4 t n1 n2 n3 n4 w r d a f = cc

read_stats-some :
    (xs ys : List ℕ) (c : ℕ) (old : Times)
    → read_stats (xs ++ (c ∷ ys)) old ≡ fields (xs ++ (c ∷ ys))
unfolding read_stats
read_stats-some [] ys c old = refl
read_stats-some (x ∷ xs) ys c old = refl

-- `read_stats` reads from the line that io_bound.c wrote the five times that it was written with,
-- if each is at most INT_MAX.
pub read_stats-times_line : (t old : Times) → SmallTimes t → read_stats (times_line t) old ≡ t
unfolding times_line
read_stats-times_line t old (w, r, d, a, f) =
    read_stats-some (int_to_str t.write_time) s1 (b' ') old
    ∙ fields-eq (int_to_str t.write_time ++ (b' ' ∷ s1)) s1 s2 s3 s4 t
        (next_field-int_to_str t.write_time s1) (next_field-int_to_str t.read_time s2)
        (next_field-int_to_str t.delete_time s3) (next_field-int_to_str t.alloc_time s4)
        (custom_atoi-int_to_str t.write_time (b' ' ∷ s1) w refl)
        (custom_atoi-int_to_str t.read_time (b' ' ∷ s2) r refl)
        (custom_atoi-int_to_str t.delete_time (b' ' ∷ s3) d refl)
        (custom_atoi-int_to_str t.alloc_time (b' ' ∷ s4) a refl)
        (custom_atoi-int_to_str t.free_time (b'\n' ∷ []) f refl)
  where
    s4 : List ℕ
    s4 = int_to_str t.free_time ++ (b'\n' ∷ [])

    s3 : List ℕ
    s3 = int_to_str t.alloc_time ++ (b' ' ∷ s4)

    s2 : List ℕ
    s2 = int_to_str t.delete_time ++ (b' ' ∷ s3)

    s1 : List ℕ
    s1 = int_to_str t.read_time ++ (b' ' ∷ s2)
