-- ===== src/Fat32/Bytes.antt =====
-- The little-endian words and the entries in a sector buffer of kernel/fs/fat32.c. The parts of a word
-- do not overlap, so that `|` adds them.
use ronin_os.Base.{
  ℕ, ◌+◌, ◌-◌, ◌*◌, ◌/◌, ◌%◌, ◌^◌, List, ◌==◌, leb, ltb, ◌&&◌, if◌then◌else◌, get_or, length,
}
use ronin_os.Fat32.{Sector}

unfoldable pub rd16 : Sector → ℕ → ℕ
rd16 p i = p i + 256 * p (i + 1)

unfoldable pub rd32 : Sector → ℕ → ℕ
rd32 p i = p i + 256 * p (i + 1) + 256 ^ 2 * p (i + 2) + 256 ^ 3 * p (i + 3)

abbrev pub put8 : Sector → ℕ → ℕ → Sector
put8 p i v = λ j. if j == i then v % 256 else p j

unfoldable pub wr16 : Sector → ℕ → ℕ → Sector
wr16 p i v = λ j. if j == i then v % 256 else if j == i + 1 then v / 256 % 256 else p j

unfoldable pub wr32 : Sector → ℕ → ℕ → Sector
wr32 p i v = λ j.
    if j == i
    then v % 256
    else if j == i + 1
    then v / 256 % 256
    else if j == i + 2
    then v / 256 ^ 2 % 256
    else if j == i + 3
    then v / 256 ^ 3 % 256
    else p j

-- `memcpy(p + i, src, n)` and `memset(p + i, 0, n)`
unfoldable pub put_bytes : Sector → ℕ → Sector → ℕ → Sector
put_bytes p i src n = λ j. if leb i j && ltb j (i + n) then src (j - i) else p j

unfoldable pub zero_bytes : Sector → ℕ → ℕ → Sector
zero_bytes p i n = λ j. if leb i j && ltb j (i + n) then 0 else p j

abbrev pub zeros : Sector
zeros = λ j. 0

-- `memcpy(p + i, "…", n)`
abbrev pub put_text : Sector → ℕ → List ℕ → Sector
put_text p i t = put_bytes p i (λ j. get_or t j 0) (length t)
