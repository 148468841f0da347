-- ===== src/Base/Bits.antt =====
-- The bits of a machine word, and what C's `&`, `|` and `~` do to each of them.
use Prim.Native.Nat.{bit_and, bit_or, digits, bit_and-bitwise, bit_or-bitwise}
use Prim.Native.Nat.{ℕ, zero, suc, ◌+◌, ◌-◌, ◌*◌, ◌/◌, ◌%◌, ◌^◌, ◌≤◌, ◌<◌, min, max}
use mathlib.Core.Path.{◌≡◌, refl, ap, sym, subst, ◌∙◌}
use mathlib.Core.Bool.{Bool, true, ◌&&◌}
use native.Mathlib.Decide.{ℕ_discrete}
use native.Mathlib.Nat.{pow-suc}
use native.Mathlib.Omega.{arith}

-- Bit `i` of `w`, as 0 or 1.
pub bit : ℕ → ℕ → ℕ
bit zero w = w % 2
bit (suc i) w = bit i (w / 2)

-- The native operations stand for a recursion on binary digits, whose fuel is any number that is
-- not below the first operand.
module _ (rest : ℕ → ℕ) (digit : ℕ → ℕ → ℕ) where
  enough_fuel : (n m a b : ℕ) → a ≤ n → a ≤ m → digits rest digit n a b ≡ digits rest digit m a b
  enough_fuel n m zero b p q = both n m
    where
      both : (n m : ℕ) → digits rest digit n 0 b ≡ digits rest digit m 0 b
      both zero zero = refl
      both zero (suc m) = refl
      both (suc n) zero = refl
      both (suc n) (suc m) = refl
  enough_fuel (suc n) (suc m) (suc a) b p q =
      ap (λ h. h * 2 + digit (suc a % 2) (b % 2))
        (enough_fuel n m (suc a / 2) (b / 2) (omega arith) (omega arith))
  enough_fuel zero m (suc a) b p q = absurd (omega arith)
  enough_fuel (suc n) zero (suc a) b p q = absurd (omega arith)

  digits_step :
      (a b : ℕ)
      → digits rest digit (suc a) (suc a) b
        ≡ digits rest digit (suc a / 2) (suc a / 2) (b / 2) * 2 + digit (suc a % 2) (b % 2)
  digits_step a b =
      ap (λ h. h * 2 + digit (suc a % 2) (b % 2))
        (enough_fuel a (suc a / 2) (suc a / 2) (b / 2) (omega arith) (omega arith))

pub bit_and_step : (a b : ℕ) → bit_and a b ≡ bit_and (a / 2) (b / 2) * 2 + min (a % 2) (b % 2)
bit_and_step zero b = rw (bit_and-bitwise 0 b, bit_and-bitwise 0 (b / 2)) (omega arith)
bit_and_step (suc a) b =
    bit_and-bitwise (suc a) b
    ∙ digits_step (λ b. zero) min a b
    ∙ ap (λ h. h * 2 + min (suc a % 2) (b % 2)) (sym (bit_and-bitwise (suc a / 2) (b / 2)))

pub bit_or_step : (a b : ℕ) → bit_or a b ≡ bit_or (a / 2) (b / 2) * 2 + max (a % 2) (b % 2)
bit_or_step zero b = rw (bit_or-bitwise 0 b, bit_or-bitwise 0 (b / 2)) (omega arith)
bit_or_step (suc a) b =
    bit_or-bitwise (suc a) b
    ∙ digits_step (λ b. b) max a b
    ∙ ap (λ h. h * 2 + max (suc a % 2) (b % 2)) (sym (bit_or-bitwise (suc a / 2) (b / 2)))

pub bit-bit_and : (i a b : ℕ) → bit i (bit_and a b) ≡ min (bit i a) (bit i b)
unfolding bit
bit-bit_and zero a b = omega (arith, bit_and_step a b)
bit-bit_and (suc i) a b =
    ap (bit i) (omega (arith, bit_and_step a b)) ∙ bit-bit_and i (a / 2) (b / 2)

pub bit-bit_or : (i a b : ℕ) → bit i (bit_or a b) ≡ max (bit i a) (bit i b)
unfolding bit
bit-bit_or zero a b = omega (arith, bit_or_step a b)
bit-bit_or (suc i) a b = ap (bit i) (omega (arith, bit_or_step a b)) ∙ bit-bit_or i (a / 2) (b / 2)

pub bit_le : (i a : ℕ) → bit i a ≤ 1
unfolding bit
bit_le zero a = omega arith
bit_le (suc i) a = bit_le i (a / 2)

pub bit-zero : (i : ℕ) → bit i 0 ≡ 0
unfolding bit
bit-zero zero = refl
bit-zero (suc i) = bit-zero i

-- `1 << j` has bit `j` and no other.
pub bit-pow_self : (j : ℕ) → bit j (2 ^ j) ≡ 1
unfolding bit
bit-pow_self zero = refl
bit-pow_self (suc j) = ap (bit j) (omega (arith, pow-suc 2 j)) ∙ bit-pow_self j

pub bit-pow_ne : (i j : ℕ) → ¬ (i ≡ j) → bit i (2 ^ j) ≡ 0
unfolding bit
bit-pow_ne zero zero h = absurd (h refl)
bit-pow_ne zero (suc j) h = omega (arith, pow-suc 2 j)
bit-pow_ne (suc i) zero h = bit-zero i
bit-pow_ne (suc i) (suc j) h =
    ap (bit i) (omega (arith, pow-suc 2 j)) ∙ bit-pow_ne i j (λ e. h (ap suc e))

-- `~a` at width `w` is `2 ^ w - 1 - a`.
pub bit-complement : (w i a : ℕ) → i < w → a < 2 ^ w → bit i (2 ^ w - 1 - a) ≡ 1 - bit i a
unfolding bit
bit-complement zero i a h l = absurd (omega arith)
bit-complement (suc w) zero a h l = omega (arith, pow-suc 2 w)
bit-complement (suc w) (suc i) a h l =
    ap (bit i) (omega (arith, pow-suc 2 w))
    ∙ bit-complement w i (a / 2) (omega arith) (omega (arith, pow-suc 2 w))

-- A word below `2 ^ w` whose `w` low bits are all 1 is `2 ^ w - 1`.
pub eq_ones : (w a : ℕ) → a < 2 ^ w → ((i : ℕ) → i < w → bit i a ≡ 1) → a ≡ 2 ^ w - 1
unfolding bit
eq_ones zero a l h = omega arith
eq_ones (suc w) a l h =
    let rest = eq_ones w (a / 2) (omega (arith, pow-suc 2 w)) (λ i p. h (suc i) (omega arith)) in
    omega (arith, rest, h 0 (omega arith), pow-suc 2 w)

-- A table: the test passes at `start`, `start + 1` and so on, `rows` times.
unfoldable pub passes : (ℕ → Bool) → (start rows : ℕ) → Bool
passes test start zero = true
passes test start (suc rows) = passes test (start + 1) rows && test start

-- What a table shows of each of its entries.
pub passes-at :
    (test : ℕ → Bool) (rows start x : ℕ)
    → passes test start rows ≡ true
    → start ≤ x
    → x < start + rows
    → test x ≡ true
unfolding passes
passes-at test zero start x all lo hi = absurd (omega arith)
passes-at test (suc rows) start x all lo hi = elim (ℕ_discrete start x) [
  | yes same ↦ subst (λ y. test y ≡ true) same (ground arith)
  | no other ↦ passes-at test rows (start + 1) x (ground arith) (omega arith) (omega arith)
]

pub pow_pos : (k : ℕ) → 1 ≤ 2 ^ k
pow_pos zero = omega arith
pow_pos (suc k) = omega (arith, pow_pos k, pow-suc 2 k)

-- `a & (2 ^ k - 1)` is `a`, of a word of `k` bits.
pub bit_and-ones : (k a : ℕ) → a < 2 ^ k → bit_and a (2 ^ k - 1) ≡ a
bit_and-ones zero zero h = refl
bit_and-ones zero (suc a) h = absurd (omega arith)
bit_and-ones (suc k) a h =
    let below : a / 2 < 2 ^ k = omega (arith, pow-suc 2 k) in
    let halved : (2 ^ suc k - 1) / 2 ≡ 2 ^ k - 1 = omega (arith, pow-suc 2 k, pow_pos k) in
    let odd : (2 ^ suc k - 1) % 2 ≡ 1 = omega (arith, pow-suc 2 k, pow_pos k) in
    bit_and_step a (2 ^ suc k - 1)
    ∙ ap (λ m. bit_and (a / 2) m * 2 + min (a % 2) ((2 ^ suc k - 1) % 2)) halved
    ∙ omega (arith, bit_and-ones k (a / 2) below)

-- A mask with its lowest bit clear.
bit_and_even : (a m : ℕ) → bit_and a (m * 2) ≡ bit_and (a / 2) m * 2
bit_and_even a m =
    let halved : m * 2 / 2 ≡ m = omega arith in
    let even : m * 2 % 2 ≡ 0 = omega arith in
    bit_and_step a (m * 2)
    ∙ ap (λ k. bit_and (a / 2) k * 2 + min (a % 2) (m * 2 % 2)) halved
    ∙ omega arith

bit_and_even4 : (a m : ℕ) → bit_and a (m * 16) ≡ bit_and (a / 16) m * 16
bit_and_even4 a m =
    let e : m * 16 ≡ m * 2 * 2 * 2 * 2 = omega arith in
    let f : a / 2 / 2 / 2 / 2 ≡ a / 16 = omega arith in
    ap (bit_and a) e
    ∙ omega (
      arith,
      bit_and_even a (m * 2 * 2 * 2),
      bit_and_even (a / 2) (m * 2 * 2),
      bit_and_even (a / 2 / 2) (m * 2),
      bit_and_even (a / 2 / 2 / 2) m,
      ap (λ k. bit_and k m) f,
    )

-- `a & ~15` and `a & ~4095`, of a 32-bit word.
pub bit_and_sixteens : (a : ℕ) → a < 2 ^ 32 → bit_and a 0xffff_fff0 ≡ a - a % 16
bit_and_sixteens a h =
    omega (arith, bit_and_even4 a 0x0fff_ffff, bit_and-ones 28 (a / 16) (omega arith))

pub bit_and_pages : (a : ℕ) → a < 2 ^ 32 → bit_and a 0xffff_f000 ≡ a - a % 4096
bit_and_pages a h = omega (
  arith,
  bit_and_even4 a 0x0fff_ff00,
  bit_and_even4 (a / 16) 0x00ff_fff0,
  bit_and_even4 (a / 16 / 16) 0x000f_ffff,
  bit_and-ones 20 (a / 16 / 16 / 16) (omega arith),
)

bit_and-zero : (a : ℕ) → bit_and a 0 ≡ 0
bit_and-zero a = below a a (omega arith)
  where
    below : (n a : ℕ) → a ≤ n → bit_and a 0 ≡ 0
    below zero zero l = refl
    below zero (suc a) l = absurd (omega arith)
    below (suc n) a l = omega (arith, bit_and_step a 0, below n (a / 2) (omega arith))

-- `a & (1 << k)` is bit `k` of `a` in its place.
pub bit_and-pow : (k a : ℕ) → bit_and a (2 ^ k) ≡ bit k a * 2 ^ k
unfolding bit
bit_and-pow zero a = omega (arith, bit_and_step a 1, bit_and-zero (a / 2))
bit_and-pow (suc k) a =
    let e : 2 ^ suc k ≡ 2 ^ k * 2 = omega (arith, pow-suc 2 k) in
    ap (bit_and a) e
    ∙ bit_and_even a (2 ^ k)
    ∙ ap (λ x. x * 2) (bit_and-pow k (a / 2))
    ∙ sym (times (bit k (a / 2)) (2 ^ k) (2 ^ suc k) e)
  where
    times : (b p q : ℕ) → q ≡ p * 2 → b * q ≡ b * p * 2
    times b p q e = rw e (grind arith)

pub bit_and_le : (a b : ℕ) → bit_and a b ≤ a
bit_and_le a b = below a a b (omega arith)
  where
    below : (n a b : ℕ) → a ≤ n → bit_and a b ≤ a
    below zero zero b l = omega (arith, bit_and-bitwise 0 b)
    below zero (suc a) b l = absurd (omega arith)
    below (suc n) a b l = omega (arith, bit_and_step a b, below n (a / 2) (b / 2) (omega arith))

-- A disjunction of words of `w` bits has no more.
pub bit_or-lt : (w a b : ℕ) → a < 2 ^ w → b < 2 ^ w → bit_or a b < 2 ^ w
bit_or-lt zero a b p q =
    let e : a ≡ 0 = omega arith in let f : b ≡ 0 = omega arith in rw (e, f) (omega arith)
bit_or-lt (suc w) a b p q = omega (
  arith,
  bit_or_step a b,
  pow-suc 2 w,
  bit_or-lt w (a / 2) (b / 2) (omega (arith, pow-suc 2 w)) (omega (arith, pow-suc 2 w)),
)

pub bit_or-zero : (a : ℕ) → bit_or a 0 ≡ a
bit_or-zero a = below a a (omega arith)
  where
    below : (n a : ℕ) → a ≤ n → bit_or a 0 ≡ a
    below zero zero l = refl
    below zero (suc a) l = absurd (omega arith)
    below (suc n) a l = omega (arith, bit_or_step a 0, below n (a / 2) (omega arith))

-- A disjunction of a multiple of `2 ^ w` and a word of `w` bits is their sum.
pub bit_or-add : (w a b : ℕ) → b < 2 ^ w → bit_or (a * 2 ^ w) b ≡ a * 2 ^ w + b
bit_or-add zero a b l =
    let e : b ≡ 0 = omega arith in
    let f : a * 2 ^ 0 ≡ a = omega arith in
    ap (bit_or (a * 2 ^ 0)) e ∙ bit_or-zero (a * 2 ^ 0) ∙ omega arith
bit_or-add (suc w) a b l =
    let e : a * 2 ^ suc w ≡ a * 2 ^ w * 2 =
      times a (2 ^ w) (2 ^ suc w) (omega (arith, pow-suc 2 w)) in
    let half : a * 2 ^ w * 2 / 2 ≡ a * 2 ^ w = omega arith in
    let even : a * 2 ^ w * 2 % 2 ≡ 0 = omega arith in
    let ih = bit_or-add w a (b / 2) (omega (arith, pow-suc 2 w)) in
    ap (λ x. bit_or x b) e
    ∙ bit_or_step (a * 2 ^ w * 2) b
    ∙ ap (λ x. bit_or x (b / 2) * 2 + max (a * 2 ^ w * 2 % 2) (b % 2)) half
    ∙ omega (arith, ih)
  where
    times : (b p q : ℕ) → q ≡ p * 2 → b * q ≡ b * p * 2
    times b p q e = rw e (grind arith)

pub pow_lt : (k w : ℕ) → k < w → 2 ^ k < 2 ^ w
pow_lt k zero l = absurd (omega arith)
pow_lt k (suc w) l = elim (ℕ_discrete k w) [
  | yes same ↦ subst (λ x. 2 ^ x < 2 ^ suc w) (sym same) (omega (arith, pow-suc 2 w, pow_pos w))
  | no other ↦ omega (arith, pow-suc 2 w, pow_lt k w (omega arith))
]

-- `a | (1 << m)` and, of a word of `w` bits, `a & ~(1 << m)`, bit by bit.
pub bit-set_self : (a m : ℕ) → bit m (bit_or a (2 ^ m)) ≡ 1
bit-set_self a m = omega (arith, bit-bit_or m a (2 ^ m), bit-pow_self m, bit_le m a)

pub bit-set_ne : (a m k : ℕ) → ¬ (k ≡ m) → bit k (bit_or a (2 ^ m)) ≡ bit k a
bit-set_ne a m k n = omega (arith, bit-bit_or k a (2 ^ m), bit-pow_ne k m n)

pub bit-clear_self : (w a m : ℕ) → m < w → bit m (bit_and a (2 ^ w - 1 - 2 ^ m)) ≡ 0
bit-clear_self w a m p = omega (
  arith,
  bit-bit_and m a (2 ^ w - 1 - 2 ^ m),
  bit-complement w m (2 ^ m) p (pow_lt m w p),
  bit-pow_self m,
)

pub bit-clear_ne :
    (w a m k : ℕ) → m < w → k < w → ¬ (k ≡ m) → bit k (bit_and a (2 ^ w - 1 - 2 ^ m)) ≡ bit k a
bit-clear_ne w a m k p q n = omega (
  arith,
  bit-bit_and k a (2 ^ w - 1 - 2 ^ m),
  bit-complement w k (2 ^ m) q (pow_lt m w p),
  bit-pow_ne k m n,
  bit_le k a,
)

low : ℕ → ℕ → ℕ
low zero a = 0
low (suc k) a = low k (a / 2) * 2 + a % 2

bit_and-low : (k a : ℕ) → bit_and a (2 ^ k - 1) ≡ low k a
unfolding low
bit_and-low zero a = bit_and-zero a
bit_and-low (suc k) a =
    let halved : (2 ^ suc k - 1) / 2 ≡ 2 ^ k - 1 = omega (arith, pow-suc 2 k, pow_pos k) in
    let odd : (2 ^ suc k - 1) % 2 ≡ 1 = omega (arith, pow-suc 2 k, pow_pos k) in
    bit_and_step a (2 ^ suc k - 1)
    ∙ ap (λ m. bit_and (a / 2) m * 2 + min (a % 2) ((2 ^ suc k - 1) % 2)) halved
    ∙ omega (arith, bit_and-low k (a / 2))

-- `a & 0xfff`, `a & 0x3ff` and `a & 1`.
pub bit_and_low12 : (a : ℕ) → bit_and a 0xfff ≡ a % 4096
unfolding low
bit_and_low12 a = bit_and-low 12 a ∙ omega arith

pub bit_and_low10 : (a : ℕ) → bit_and a 0x3ff ≡ a % 1024
unfolding low
bit_and_low10 a = bit_and-low 10 a ∙ omega arith

pub bit_and_low1 : (a : ℕ) → bit_and a 1 ≡ a % 2
unfolding low
bit_and_low1 a = bit_and-low 1 a ∙ omega arith

-- `a & ~7`, of a 32-bit word.
pub bit_and_eights : (a : ℕ) → a < 2 ^ 32 → bit_and a 0xffff_fff8 ≡ a - a % 8
bit_and_eights a h = omega (
  arith,
  bit_and_even a 0x7fff_fffc,
  bit_and_even (a / 2) 0x3fff_fffe,
  bit_and_even (a / 2 / 2) 0x1fff_ffff,
  bit_and-ones 29 (a / 2 / 2 / 2) (omega arith),
)
