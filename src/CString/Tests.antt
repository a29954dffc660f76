-- ===== src/CString/Tests.antt =====
-- Runs of the string functions, and instances of their theorems.
use exp.Base.{ℕ, ◌≡◌, refl, List, [], ◌∷◌, get_or, arith}
use exp.Base.Int.{negsuc}
use exp.CString.{memmove, copy_up, copy_down, strncmp, safestrcpy, memcmp, memset, strlen}
use exp.CString.Memmove.{memmove-Copied}
use exp.CString.Compare.{text, strncmp-eq-zero_iff}

abbrev bytes : List ℕ
bytes = 1 ∷ 2 ∷ 3 ∷ 4 ∷ 5 ∷ []

memmove_down : memmove bytes 1 0 3 ≡ 1 ∷ 1 ∷ 2 ∷ 3 ∷ 5 ∷ []
unfolding memmove copy_down copy_up
memmove_down = refl

memmove-Copied_example : get_or (memmove bytes 1 0 3) 3 0 ≡ 3
memmove-Copied_example = (memmove-Copied bytes 1 0 3 (omega arith) 3).0 (omega arith) (omega arith)

strncmp_prefix : strncmp (97 ∷ 98 ∷ []) (97 ∷ 99 ∷ []) 14 ≡ negsuc 0
unfolding strncmp
strncmp_prefix = refl

strncmp-eq-zero_iff_example : text 1 (97 ∷ 98 ∷ []) ≡ text 1 (97 ∷ 99 ∷ [])
unfolding strncmp
strncmp-eq-zero_iff_example = (strncmp-eq-zero_iff (97 ∷ 98 ∷ []) (97 ∷ 99 ∷ []) 1).0 refl

safestrcpy_cut : safestrcpy (9 ∷ 9 ∷ 9 ∷ []) (97 ∷ 98 ∷ 99 ∷ []) 3 ≡ 97 ∷ 98 ∷ 0 ∷ []
unfolding safestrcpy
safestrcpy_cut = refl

more_functions :
    (memcmp (1 ∷ 2 ∷ []) (1 ∷ 4 ∷ []) 2 ≡ negsuc 1)
    × (memset (1 ∷ 2 ∷ 3 ∷ []) 257 2 ≡ 1 ∷ 1 ∷ 3 ∷ [])
    × (strlen (97 ∷ 98 ∷ 0 ∷ 99 ∷ []) ≡ 2)
unfolding memcmp memset strlen
more_functions = (refl, refl, refl)
