-- ===== src/Text/Tests.antt =====
-- The string routines at concrete memories.
use ronin_os.Base.{ℕ, ◌≡◌, refl, ◌↔◌, some, List, [], ◌∷◌, arith, inr, take}
use ronin_os.Text.{Memory, pos, negsuc, write, strlen, strcmp, strncmp, memcpy, memmove}
use ronin_os.Text.Strings.{StringAt}
use ronin_os.Text.Compare.{diff, strlen-length, strcmp_lem, strncmp-zero}
use ronin_os.Text.Move.{moved, memcpy-moved, memmove-moved}

-- "ab" at 10 and "abc" at 20
abbrev memory : Memory
memory = write (write (write (write (write (λ _. 0) 10 97) 11 98) 20 97) 21 98) 22 99

abbrev ab : List ℕ
ab = 97 ∷ 98 ∷ []

abbrev abc : List ℕ
abc = 97 ∷ 98 ∷ 99 ∷ []

ab-StringAt : StringAt memory 10 ab
ab-StringAt = omega arith

abc-StringAt : StringAt memory 20 abc
abc-StringAt = omega arith

compares : strcmp 9 memory 10 20 ≡ some (negsuc 98)
unfolding strcmp
compares = refl

overlap : memmove memory 11 10 2 12 ≡ 98
unfolding memmove
overlap = refl

strlen_ab : strlen 3 memory 10 ≡ some 2
strlen_ab = strlen-length 3 memory 10 ab ab-StringAt (omega arith)

strcmp_lem_example :
    (strcmp 4 memory 10 20 ≡ some (diff ab abc)) × ((diff ab abc ≡ pos 0) ↔ (ab ≡ abc))
strcmp_lem_example = strcmp_lem 4 memory 10 20 ab abc ab-StringAt abc-StringAt (omega arith)

strncmp_prefix : (strncmp memory 10 20 2 ≡ pos 0) ↔ (take 2 ab ≡ take 2 abc)
strncmp_prefix = strncmp-zero memory 10 20 ab abc 2 ab-StringAt abc-StringAt

memmove-moved_example : memmove memory 11 10 2 12 ≡ moved memory 11 10 2 12
memmove-moved_example = memmove-moved memory 11 10 2 12

memcpy_forward : memcpy memory 30 20 3 31 ≡ moved memory 30 20 3 31
memcpy_forward = memcpy-moved memory 30 20 3 31 (inr (omega arith))
