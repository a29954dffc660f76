-- ===== src/Utils/Tests.antt =====
-- Runs of the helpers of user/utils.c, and the witnesses of its theorems.
use exp.Base.{ℕ, ◌≡◌, refl, List, [], ◌∷◌, arith}
use exp.Utils.{
  reverse_string, int_to_str, custom_rand, print_with_leading_zeros, Times, read_stats, times_line,
  build_filename, digits, swap_ends, last_digits,
}
use exp.Utils.Files.{read_stats-times_line}

abbrev abc : List ℕ
abc = b'a' ∷ b'b' ∷ b'c' ∷ []

abbrev five_times : Times
five_times = record {
  write_time = 12;
  read_time = 340;
  delete_time = 0;
  alloc_time = 7;
  free_time = 90;
}

abbrev no_times : Times
no_times = record { write_time = 0; read_time = 0; delete_time = 0; alloc_time = 0; free_time = 0 }

int_to_str_run : int_to_str 407 ≡ b'4' ∷ b'0' ∷ b'7' ∷ []
unfolding int_to_str reverse_string swap_ends digits
int_to_str_run = refl

build_filename_run :
    build_filename 12 abc ≡ b'a' ∷ b'b' ∷ b'c' ∷ b'1' ∷ b'2' ∷ b'.' ∷ b't' ∷ b'x' ∷ b't' ∷ []
unfolding build_filename int_to_str reverse_string swap_ends digits
build_filename_run = refl

custom_rand_run : custom_rand 12345 ≡ (21468, 3554416254)
unfolding custom_rand
custom_rand_run = refl

print_with_leading_zeros_run :
    print_with_leading_zeros 42 ≡ b'0' ∷ b'0' ∷ b'0' ∷ b'0' ∷ b'4' ∷ b'2' ∷ []
unfolding print_with_leading_zeros last_digits
print_with_leading_zeros_run = refl

read_stats-times_line_example : read_stats (times_line five_times) no_times ≡ five_times
read_stats-times_line_example =
    read_stats-times_line five_times no_times
      (omega arith, omega arith, omega arith, omega arith, omega arith)
