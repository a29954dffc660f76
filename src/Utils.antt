-- ===== src/Utils.antt =====
-- xv6-add_FAIRNESS/user/utils.c, and the writers of the statistics files in user/cpu_bound.c and
-- user/io_bound.c. A string is the list of its bytes without the NUL, and a read past its end
-- reads the NUL. `unsigned int` arithmetic is modulo 2 ^ 32.
pub mod Reverse
pub mod Decimal
pub mod Files
pub mod Ratio
mod Tests
use exp.Base.{
  ℕ, zero, suc, ◌+◌, ◌-◌, ◌*◌, ◌/◌, ◌%◌, ◌^◌, ◌==◌, ltb, leb, Bool, true, false, ◌&&◌, ◌||◌, Option,
  none, some, List, [], ◌∷◌, ◌++◌, length, get_or, set, replicate, if◌then◌else◌,
}

abbrev pub uint : ℕ → ℕ
uint n = n % 2 ^ 32

-- The loop of `reverse_string` from the indices `i` and `j`, with fuel. The index `j` is only used
-- above `i`, so it does not fall below 0 there.
unfoldable pub swap_ends : ℕ → ℕ → ℕ → List ℕ → List ℕ
swap_ends zero i j str = str
swap_ends (suc fuel) i j str =
    let rest =
      swap_ends fuel (i + 1) (j - 1) (set (set str i (get_or str j 0)) j (get_or str i 0)) in
    if ltb i j then rest else str

unfoldable pub reverse_string : List ℕ → ℕ → List ℕ
reverse_string str length = swap_ends length 0 (length - 1) str

-- The digits that the loop of `int_to_str` stores, lowest first, with fuel for ten digits.
unfoldable pub digits : ℕ → ℕ → List ℕ
digits zero num = []
digits (suc fuel) num =
    let rest = digits fuel (num / 10) in if num == 0 then [] else (b'0' + num % 10) ∷ rest

-- `int_to_str`: the text that it leaves in `str`; its result is the length of that.
unfoldable pub int_to_str : ℕ → List ℕ
int_to_str num =
    if num == 0 then b'0' ∷ [] else reverse_string (digits 10 num) (length (digits 10 num))

-- `build_filename`
unfoldable pub build_filename : ℕ → List ℕ → List ℕ
build_filename pid prefix = prefix ++ (int_to_str pid ++ (b'.' ∷ b't' ∷ b'x' ∷ b't' ∷ []))

-- `custom_rand`: the number, and the new `seed`.
unfoldable pub custom_rand : ℕ → ℕ × ℕ
custom_rand seed = let seed' = uint (seed * 1103515245 + 12345) in (seed' / 65536 % 32768, seed')

abbrev pub is_digit : ℕ → Bool
is_digit c = leb b'0' c && leb c b'9'

-- `custom_atoi`, with `n` so far; an `int` is its bit pattern.
unfoldable pub atoi_from : ℕ → List ℕ → ℕ
atoi_from n [] = n
atoi_from n (c ∷ s) =
    let rest = atoi_from (uint (n * 10 + (c - b'0'))) s in if is_digit c then rest else n

abbrev pub custom_atoi : List ℕ → ℕ
custom_atoi s = atoi_from 0 s

-- `print_with_leading_zeros`: the text that goes to `printf`.
unfoldable pub last_digits : ℕ → ℕ → List ℕ → List ℕ
last_digits zero number text = text
last_digits (suc i) number text = last_digits i (number / 10) ((b'0' + number % 10) ∷ text)

unfoldable pub print_with_leading_zeros : ℕ → List ℕ
print_with_leading_zeros number = last_digits 6 number []

-- `while (buffer[i] != ' ' && buffer[i] != '\0') i++;`
unfoldable pub skip_field : List ℕ → List ℕ
skip_field [] = []
skip_field (c ∷ s) = let rest = skip_field s in if c == b' ' || c == 0 then c ∷ s else rest

-- `if (buffer[i] == ' ') i++;`
unfoldable pub skip_space : List ℕ → List ℕ
skip_space [] = []
skip_space (c ∷ s) = if c == b' ' then s else c ∷ s

abbrev pub next_field : List ℕ → List ℕ
next_field s = skip_space (skip_field s)

-- `read_mem_stats` of what `read` returned, at most 99 bytes; the two times stay as they were when
-- nothing was read.
unfoldable pub read_mem_stats : List ℕ → ℕ × ℕ → ℕ × ℕ
read_mem_stats [] old = old
read_mem_stats (c ∷ s) old =
    let buffer = c ∷ s in (custom_atoi buffer, custom_atoi (next_field buffer))

-- `read_stats`, at most 149 bytes: the write, read, delete, alloc and free times.
pub record Times : Type 0 where
  pub write_time : ℕ
  pub read_time : ℕ
  pub delete_time : ℕ
  pub alloc_time : ℕ
  pub free_time : ℕ

unfoldable pub read_stats : List ℕ → Times → Times
read_stats [] old = old
read_stats (c ∷ s) old =
    let f0 = c ∷ s in
    let f1 = next_field f0 in
    let f2 = next_field f1 in
    let f3 = next_field f2 in
    let f4 = next_field f3 in
    record {
      write_time = custom_atoi f0;
      read_time = custom_atoi f1;
      delete_time = custom_atoi f2;
      alloc_time = custom_atoi f3;
      free_time = custom_atoi f4;
    }

-- What `main` of cpu_bound.c writes to its statistics file.
unfoldable pub mem_stats_line : ℕ → ℕ → List ℕ
mem_stats_line alloc free = int_to_str alloc ++ (b' ' ∷ (int_to_str free ++ (b'\n' ∷ [])))

-- `write_times_to_file` of io_bound.c.
unfoldable pub times_line : Times → List ℕ
times_line t =
    int_to_str t.write_time
    ++ (b' '
        ∷ (int_to_str t.read_time
            ++ (b' '
                ∷ (int_to_str t.delete_time
                    ++ (b' '
                        ∷ (int_to_str t.alloc_time
                            ++ (b' ' ∷ (int_to_str t.free_time ++ (b'\n' ∷ [])))))))))

-- `calculate_scaled_ratio`
unfoldable pub calculate_scaled_ratio : ℕ → ℕ → ℕ → ℕ → ℕ
calculate_scaled_ratio a b c scale =
    if c == 0 || b == 0
    then 0
    else (let a_scaled = a / b in
        let remainder_a = a % b in
        let temp = uint (a_scaled * a_scaled * scale) / c in
        let adjustment = uint (
          uint (2 * a_scaled * remainder_a * scale) / c
          + uint (remainder_a * remainder_a * scale) / uint (b * b * c)) in
        uint (temp + adjustment))
