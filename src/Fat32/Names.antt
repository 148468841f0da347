-- ===== src/Fat32/Names.antt =====
-- make_name83 of kernel/fs/fat32.c.
use ronin_os.Base.{
  ℕ, ◌+◌, ◌-◌, Bool, not, ◌&&◌, ◌||◌, Option, none, some, List, [], ◌∷◌, ◌==◌, leb, ltb,
  if◌then◌else◌,
}

abbrev pub to_upper : ℕ → ℕ
to_upper c = if leb 97 c && leb c 122 then c - 32 else c

abbrev pub is_name_char : ℕ → Bool
is_name_char c = (leb 65 c && leb c 90) || ((leb 48 c && leb c 57) || c == 95)

abbrev pub set_at : (ℕ → ℕ) → ℕ → ℕ → ℕ → ℕ
set_at f i v = λ j. if j == i then v else f j

-- The loop; `ext_pos` is never changed from 8. `none` is the return of -1.
unfoldable pub name83_loop : List ℕ → (ℕ → ℕ) → ℕ → Option (ℕ → ℕ)
name83_loop [] out pos = some out
name83_loop (c ∷ cs) out pos =
    let after_dot = name83_loop cs out 8 in
    let after_char = name83_loop cs (set_at out pos (to_upper c)) (pos + 1) in
    if c == 46
    then (if pos == 0 || ltb 8 pos then none else after_dot)
    else if not (is_name_char (to_upper c))
    then none
    else if ltb pos 11
    then after_char
    else none

unfoldable pub make_name83 : Option (List ℕ) → Option (ℕ → ℕ)
make_name83 none = none
make_name83 (some []) = none
make_name83 (some (c ∷ cs)) = name83_loop (c ∷ cs) (λ i. 32) 0
