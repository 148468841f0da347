-- ===== src/Text.antt =====
-- kernel/lib/string.c: the freestanding string and memory routines, over a byte-addressed memory.
-- A pointer is an address and a `while` loop runs on fuel; a counted `for` loop recurs on the
-- rounds that are left. Bytes are below 256, so the casts to `unsigned char` change nothing but the
-- value that `memset` is given. `Text.Strings` says what a C string in memory stands for, and gives
-- the equality of two such texts that the other components use for `strcmp(a, b) == 0`.
pub mod Strings
pub mod Compare
pub mod Move
mod Tests
use ronin_os.Base.{
  ℕ, zero, suc, ◌+◌, ◌-◌, ◌%◌, ◌^◌, Bool, not, ◌&&◌, ◌||◌, Option, none, some, ◌==◌, ltb, leb,
  if◌then◌else◌,
}

abbrev pub Memory : Type 0
Memory = ℕ → ℕ

abbrev pub write : Memory → ℕ → ℕ → Memory
write m p v q = if q == p then v else m q

-- An `int`: `negsuc n` is -(n + 1).
pub data ℤ : Type 0 where
  pos : ℕ → ℤ
  negsuc : ℕ → ℤ

-- `(int)` of a 32-bit number.
abbrev pub int_of : ℕ → ℤ
int_of n = if ltb n (2 ^ 31) then pos n else negsuc (2 ^ 32 - 1 - n)

-- a - b, of two bytes.
abbrev pub sub_ℕ : ℕ → ℕ → ℤ
sub_ℕ a b = if leb b a then pos (a - b) else negsuc (b - a - 1)

strlen_loop : ℕ → Memory → ℕ → ℕ → Option ℕ
strlen_loop zero m s n = none
strlen_loop (suc fuel) m s n =
    let rest = strlen_loop fuel m s (n + 1) in if m (s + n) == 0 then some n else rest

pub strlen : ℕ → Memory → ℕ → Option ℕ
unfolding strlen_loop
strlen fuel m s = strlen_loop fuel m s 0

pub strcmp : ℕ → Memory → ℕ → ℕ → Option ℤ
strcmp zero m a b = none
strcmp (suc fuel) m a b =
    let rest = strcmp fuel m (a + 1) (b + 1) in
    if not (m a == 0) && (not (m b == 0) && m a == m b) then rest else some (sub_ℕ (m a) (m b))

-- `rounds` is `n - i`.
strncmp_loop : ℕ → Memory → ℕ → ℕ → ℕ → ℤ
strncmp_loop zero m a b i = pos 0
strncmp_loop (suc rounds) m a b i =
    let rest = strncmp_loop rounds m a b (i + 1) in
    if not (m (a + i) == m (b + i))
    then sub_ℕ (m (a + i)) (m (b + i))
    else if m (a + i) == 0
    then pos 0
    else rest

pub strncmp : Memory → ℕ → ℕ → ℕ → ℤ
unfolding strncmp_loop
strncmp m a b n = strncmp_loop n m a b 0

-- `for (i = ...; i < n; i++) d[i] = s[i];`, with `rounds` = `n - i`
copy_up : ℕ → Memory → ℕ → ℕ → ℕ → Memory
copy_up zero m d s i = m
copy_up (suc rounds) m d s i = copy_up rounds (write m (d + i) (m (s + i))) d s (i + 1)

-- `for (i = n; i > 0; i--) d[i - 1] = s[i - 1];`
copy_down : ℕ → Memory → ℕ → ℕ → Memory
copy_down zero m d s = m
copy_down (suc i) m d s = copy_down i (write m (d + i) (m (s + i))) d s

pub memcpy : Memory → ℕ → ℕ → ℕ → Memory
unfolding copy_up
memcpy m dst src n = copy_up n m dst src 0

pub memmove : Memory → ℕ → ℕ → ℕ → Memory
unfolding copy_up copy_down
memmove m dst src n =
    if dst == src || n == 0
    then m
    else if ltb dst src
    then copy_up n m dst src 0
    else copy_down n m dst src

fill_up : ℕ → Memory → ℕ → ℕ → ℕ → Memory
fill_up zero m d v i = m
fill_up (suc rounds) m d v i = fill_up rounds (write m (d + i) (v % 256)) d v (i + 1)

pub memset : Memory → ℕ → ℕ → ℕ → Memory
unfolding fill_up
memset m dst value n = fill_up n m dst value 0
