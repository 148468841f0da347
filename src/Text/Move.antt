-- ===== src/Text/Move.antt =====
-- What `memcpy`, `memmove` and `memset` leave in memory.
use ronin_os.Base.{ℕ, zero, suc, ◌+◌, ◌-◌, ◌%◌, ◌≤◌, ◌≡◌, ◌⊎◌, ◌&&◌, arith, ltb, leb, if◌then◌else◌}
use ronin_os.Text.{Memory, write, copy_up, copy_down, memcpy, memmove, fill_up, memset}

-- The bytes at `[d, d + n)` are those that were at `[s, s + n)`; the others are as they were.
abbrev pub moved : Memory → ℕ → ℕ → ℕ → Memory
moved m d s n q = if leb d q && ltb q (d + n) then m (s + (q - d)) else m q

copy_up-moved :
    (rounds : ℕ) (m : Memory) (d s i q : ℕ)
    → (d ≤ s) ⊎ (s + (i + rounds) ≤ d)
    → copy_up rounds m d s i q
      ≡ (if leb (d + i) q && ltb q (d + (i + rounds)) then m (s + (q - d)) else m q)
unfolding copy_up
copy_up-moved zero m d s i q h = ground arith
copy_up-moved (suc rounds) m d s i q h =
    ground (arith, copy_up-moved rounds (write m (d + i) (m (s + i))) d s (i + 1) q)

copy_down-moved : (i : ℕ) (m : Memory) (d s q : ℕ) → s ≤ d → copy_down i m d s q ≡ moved m d s i q
unfolding copy_down
copy_down-moved zero m d s q h = ground arith
copy_down-moved (suc i) m d s q h =
    ground (arith, copy_down-moved i (write m (d + i) (m (s + i))) d s q)

-- `memcpy` moves the bytes if the target does not begin inside the source.
pub memcpy-moved :
    (m : Memory) (dst src n q : ℕ)
    → (dst ≤ src) ⊎ (src + n ≤ dst)
    → memcpy m dst src n q ≡ moved m dst src n q
unfolding memcpy
memcpy-moved m dst src n q h = ground (arith, copy_up-moved n m dst src 0 q)

-- `memmove` moves the bytes however source and target overlap.
pub memmove-moved : (m : Memory) (dst src n q : ℕ) → memmove m dst src n q ≡ moved m dst src n q
unfolding memmove
memmove-moved m dst src n q =
    ground (arith, copy_up-moved n m dst src 0 q, copy_down-moved n m dst src q)

fill_up-filled :
    (rounds : ℕ) (m : Memory) (d v i q : ℕ)
    → fill_up rounds m d v i q
      ≡ (if leb (d + i) q && ltb q (d + (i + rounds)) then v % 256 else m q)
unfolding fill_up
fill_up-filled zero m d v i q = ground arith
fill_up-filled (suc rounds) m d v i q =
    ground (arith, fill_up-filled rounds (write m (d + i) (v % 256)) d v (i + 1) q)

-- `memset` sets exactly the `n` bytes from `dst` on to the low byte of the value.
pub memset-filled :
    (m : Memory) (dst value n q : ℕ)
    → memset m dst value n q ≡ (if leb dst q && ltb q (dst + n) then value % 256 else m q)
unfolding memset
memset-filled m dst value n q = ground (arith, fill_up-filled n m dst value 0 q)
