-- ===== src/Pmm/Bitmap.antt =====
-- The bitmap of kernel/mem/pmm.c as a set of frames, and how many of them are free.
use Prim.Native.Nat.{bit_and, bit_or}
use ronin_os.Base.{
  ℕ, zero, suc, ◌+◌, ◌-◌, ◌*◌, ◌/◌, ◌%◌, ◌^◌, ◌≤◌, ◌<◌, ◌≡◌, refl, ◌∙◌, ap, sym, Bool, true, false,
  not, arith, ◌==◌, if◌then◌else◌, Bool-cases, if_both, inl, inr,
}
use ronin_os.Base.Bits.{
  bit, bit_and-pow, bit_le, bit_or-lt, bit_and_le, pow_pos, pow_lt, bit-set_self, bit-set_ne,
  bit-clear_self, bit-clear_ne,
}
use ronin_os.Pmm.{with_word, set_frame, clear_frame, is_set}

-- Every entry is a 32-bit word.
abbrev pub Words : (ℕ → ℕ) → Type 0
Words b = (i : ℕ) → b i < 2 ^ 32

pub is_set-bit : (b : ℕ → ℕ) (i : ℕ) → is_set b i ≡ (bit (i % 32) (b (i / 32)) == 1)
unfolding is_set
is_set-bit b i =
    let m = bit_and-pow (i % 32) (b (i / 32)) in
    let l = bit_le (i % 32) (b (i / 32)) in
    zero_or_one (bit_and (b (i / 32)) (2 ^ (i % 32))) (bit (i % 32) (b (i / 32))) (2 ^ (i % 32)) m l
      (pow_pos (i % 32))
  where
    zero_or_one : (a d p : ℕ) → a ≡ d * p → d ≤ 1 → 1 ≤ p → not (a == 0) ≡ (d == 1)
    zero_or_one a zero p e l k = ground arith
    zero_or_one a (suc zero) p e l k = ground arith
    zero_or_one a (suc (suc d)) p e l k = absurd (omega arith)

-- An operation on one bit of a word, which makes it `v`, on the bit of frame `i`.
module _ (op : ℕ → ℕ → ℕ) (v : ℕ) (self : (w m : ℕ) → m < 32 → bit m (op w m) ≡ v)
    (other : (w m k : ℕ) → m < 32 → k < 32 → ¬ (k ≡ m) → bit k (op w m) ≡ bit k w) where
  flipped :
      (b : ℕ → ℕ) (i j : ℕ)
      → bit (j % 32) (with_word b (i / 32) (op (b (i / 32)) (i % 32)) (j / 32))
        ≡ (if i == j then v else bit (j % 32) (b (j / 32)))
  flipped b i j = elim (Bool-cases (j / 32 == i / 32)) [
    | inr n ↦ (let apart : (i == j) ≡ false = ground arith in rw n (rw apart refl))
    | inl e ↦
        let word : i / 32 ≡ j / 32 = ground arith in
        elim (Bool-cases (j % 32 == i % 32)) [
          | inl f ↦
              let same : (i == j) ≡ true = ground arith in
              let place : j % 32 ≡ i % 32 = ground arith in
              rw e (
                rw same (
                  ap (λ k. bit k (op (b (i / 32)) (i % 32))) place
                  ∙ self (b (i / 32)) (i % 32) (omega arith)))
          | inr f ↦
              let apart : (i == j) ≡ false = ground arith in
              let place : ¬ (j % 32 ≡ i % 32) = λ q. ground arith in
              rw e (
                rw apart (
                  other (b (i / 32)) (i % 32) (j % 32) (omega arith) (omega arith) place
                  ∙ ap (λ k. bit (j % 32) (b k)) word))
        ]
  ]

as_bool :
    (c r : Bool) (v x y : ℕ)
    → y ≡ (if c then v else x)
    → r ≡ (v == 1)
    → (y == 1) ≡ (if c then r else x == 1)
as_bool true r v x y e f = ap (λ k. k == 1) e ∙ sym f
as_bool false r v x y e f = ap (λ k. k == 1) e

pub set_frame-at :
    (b : ℕ → ℕ) (i j : ℕ) → is_set (set_frame b i) j ≡ (if i == j then true else is_set b j)
unfolding set_frame
set_frame-at b i j =
    is_set-bit (set_frame b i) j
    ∙ as_bool (i == j) true 1 (bit (j % 32) (b (j / 32))) _
        (flipped (λ w m. bit_or w (2 ^ m)) 1 (λ w m l. bit-set_self w m)
          (λ w m k l q n. bit-set_ne w m k n) b i j)
        refl
    ∙ ap (λ r. if i == j then true else r) (sym (is_set-bit b j))

pub clear_frame-at :
    (b : ℕ → ℕ) (i j : ℕ) → is_set (clear_frame b i) j ≡ (if i == j then false else is_set b j)
unfolding clear_frame
clear_frame-at b i j =
    is_set-bit (clear_frame b i) j
    ∙ as_bool (i == j) false 0 (bit (j % 32) (b (j / 32))) _
        (flipped (λ w m. bit_and w (0xffff_ffff - 2 ^ m)) 0 (λ w m l. bit-clear_self 32 w m l)
          (λ w m k l q n. bit-clear_ne 32 w m k l q n) b i j)
        refl
    ∙ ap (λ r. if i == j then false else r) (sym (is_set-bit b j))

pub set_frame-Words : (b : ℕ → ℕ) (i : ℕ) → Words b → Words (set_frame b i)
unfolding set_frame
set_frame-Words b i w j =
    if_both (λ x. x < 2 ^ 32) (j == i / 32)
      (bit_or-lt 32 (b (i / 32)) (2 ^ (i % 32)) (w (i / 32)) (pow_lt (i % 32) 32 (omega arith)))
      (w j)

pub clear_frame-Words : (b : ℕ → ℕ) (i : ℕ) → Words b → Words (clear_frame b i)
unfolding clear_frame
clear_frame-Words b i w j =
    if_both (λ x. x < 2 ^ 32) (j == i / 32)
      (omega (arith, bit_and_le (b (i / 32)) (0xffff_ffff - 2 ^ (i % 32)), w (i / 32))) (w j)

-- How many of the first `n` frames are free.
abbrev pub count_free : (ℕ → ℕ) → ℕ → ℕ
count_free b zero = 0
count_free b (suc n) = (if is_set b n then 0 else 1) + count_free b n

pub count_free_le : (b : ℕ → ℕ) (n : ℕ) → count_free b n ≤ n
count_free_le b zero = omega arith
count_free_le b (suc n) = ground (arith, count_free_le b n)

-- The bitmaps differ at most at `i`.
module _ (b b' : ℕ → ℕ) (i : ℕ) (r : Bool)
    (at : (j : ℕ) → is_set b' j ≡ (if i == j then r else is_set b j)) where
  pub count_free-above : (n : ℕ) → n ≤ i → count_free b' n ≡ count_free b n
  count_free-above zero l = refl
  count_free-above (suc n) l = ground (arith, at n, count_free-above n (omega arith))

  pub count_free-at :
      (n : ℕ)
      → i < n
      → count_free b' n + (if is_set b i then 0 else 1) ≡ count_free b n + (if r then 0 else 1)
  count_free-at zero l = absurd (omega arith)
  count_free-at (suc n) l = elim (Bool-cases (i == n)) [
    | inl e ↦
        let p : i ≡ n = ground arith in
        let q = ap (is_set b) p in ground (arith, at n, count_free-above n (omega arith))
    | inr e ↦ ground (arith, at n, count_free-at n (ground arith))
  ]
