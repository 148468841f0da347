-- ===== src/Text/Compare.antt =====
-- What `strlen`, `strcmp` and `strncmp` compute on C strings.
use ronin_os.Base.{
  ℕ, zero, suc, ◌+◌, ◌<◌, ◌≡◌, refl, ◌↔◌, true, false, some, List, [], ◌∷◌, arith, ◌==◌, length,
  take, ◌∙◌, ap, subst,
}
use ronin_os.Text.{Memory, ℤ, pos, sub_ℕ, strlen_loop, strlen, strcmp, strncmp_loop, strncmp}
use ronin_os.Text.Strings.{StringAt}

strlen_loop-length :
    (fuel : ℕ) (m : Memory) (s n : ℕ) (xs : List ℕ)
    → StringAt m (s + n) xs
    → length xs < fuel
    → strlen_loop fuel m s n ≡ some (n + length xs)
unfolding strlen_loop
strlen_loop-length zero m s n xs h f = absurd (omega arith)
strlen_loop-length (suc fuel) m s n [] h f = ground arith
strlen_loop-length (suc fuel) m s n (x ∷ xs) h f =
    let e : s + n + 1 ≡ s + (n + 1) = omega arith in
    ground (
      arith,
      strlen_loop-length fuel m s (n + 1) xs (subst (λ p. StringAt m p xs) e h.2) (omega arith),
    )

at_zero : (m : Memory) (p : ℕ) (xs : List ℕ) → StringAt m p xs → StringAt m (p + 0) xs
at_zero m p xs h = let e : p ≡ p + 0 = omega arith in subst (λ q. StringAt m q xs) e h

-- `strlen` returns the length of the C string that it is given.
pub strlen-length :
    (fuel : ℕ) (m : Memory) (s : ℕ) (xs : List ℕ)
    → StringAt m s xs
    → length xs < fuel
    → strlen fuel m s ≡ some (length xs)
unfolding strlen
strlen-length fuel m s xs h f =
    strlen_loop-length fuel m s 0 xs (at_zero m s xs h) f ∙ ap some (omega arith)

-- The difference of the first bytes in which two texts differ, the terminating NUL counted.
unfoldable pub diff : List ℕ → List ℕ → ℤ
diff [] [] = pos 0
diff [] (y ∷ ys) = sub_ℕ 0 y
diff (x ∷ xs) [] = sub_ℕ x 0
diff (x ∷ xs) (y ∷ ys) = let rest = diff xs ys in elim (x == y) [ true ↦ rest | false ↦ sub_ℕ x y ]

strcmp-diff :
    (fuel : ℕ) (m : Memory) (a b : ℕ) (xs ys : List ℕ)
    → StringAt m a xs
    → StringAt m b ys
    → length xs < fuel
    → strcmp fuel m a b ≡ some (diff xs ys)
unfolding strcmp diff
strcmp-diff zero m a b xs ys h k f = absurd (omega arith)
strcmp-diff (suc fuel) m a b [] [] h k f = ground arith
strcmp-diff (suc fuel) m a b [] (y ∷ ys) h k f = ground arith
strcmp-diff (suc fuel) m a b (x ∷ xs) [] h k f = ground arith
strcmp-diff (suc fuel) m a b (x ∷ xs) (y ∷ ys) h k f =
    ground (arith, strcmp-diff fuel m (a + 1) (b + 1) xs ys h.2 k.2)

diff-zero :
    (m : Memory) (a b : ℕ) (xs ys : List ℕ)
    → StringAt m a xs
    → StringAt m b ys
    → (diff xs ys ≡ pos 0) ↔ (xs ≡ ys)
unfolding diff
diff-zero m a b [] [] h k = (λ _. refl, λ _. refl)
diff-zero m a b [] (y ∷ ys) h k = (λ e. ground arith, λ e. cc)
diff-zero m a b (x ∷ xs) [] h k = (λ e. ground arith, λ e. cc)
diff-zero m a b (x ∷ xs) (y ∷ ys) h k = (
  λ e. ground (arith, (diff-zero m (a + 1) (b + 1) xs ys h.2 k.2).0),
  λ e. ground (arith, (diff-zero m (a + 1) (b + 1) xs ys h.2 k.2).1),
)

-- `strcmp` of two C strings returns, given one round more than the first has bytes, the difference
-- of the first bytes in which they differ, and that is 0 exactly when the texts are equal.
pub strcmp_lem :
    (fuel : ℕ) (m : Memory) (a b : ℕ) (xs ys : List ℕ)
    → StringAt m a xs
    → StringAt m b ys
    → length xs < fuel
    → (strcmp fuel m a b ≡ some (diff xs ys)) × ((diff xs ys ≡ pos 0) ↔ (xs ≡ ys))
strcmp_lem fuel m a b xs ys h k f = (strcmp-diff fuel m a b xs ys h k f, diff-zero m a b xs ys h k)

next :
    (m : Memory) (p i : ℕ) (xs : List ℕ) → StringAt m (p + i + 1) xs → StringAt m (p + (i + 1)) xs
next m p i xs h = let e : p + i + 1 ≡ p + (i + 1) = omega arith in subst (λ q. StringAt m q xs) e h

strncmp_loop-zero :
    (rounds : ℕ) (m : Memory) (a b i : ℕ) (xs ys : List ℕ)
    → StringAt m (a + i) xs
    → StringAt m (b + i) ys
    → (strncmp_loop rounds m a b i ≡ pos 0) ↔ (take rounds xs ≡ take rounds ys)
unfolding strncmp_loop
strncmp_loop-zero zero m a b i xs ys h k = (λ _. refl, λ _. refl)
strncmp_loop-zero (suc r) m a b i [] [] h k = (λ e. refl, λ e. ground arith)
strncmp_loop-zero (suc r) m a b i [] (y ∷ ys) h k = (λ e. ground arith, λ e. cc)
strncmp_loop-zero (suc r) m a b i (x ∷ xs) [] h k = (λ e. ground arith, λ e. cc)
strncmp_loop-zero (suc r) m a b i (x ∷ xs) (y ∷ ys) h k =
    let ih = strncmp_loop-zero r m a b (i + 1) xs ys (next m a i xs h.2) (next m b i ys k.2) in
    (λ e. ground (arith, ih.0), λ e. ground (arith, ih.1))

-- `strncmp` of two C strings is 0 exactly when they agree in their first `n` bytes.
pub strncmp-zero :
    (m : Memory) (a b : ℕ) (xs ys : List ℕ) (n : ℕ)
    → StringAt m a xs
    → StringAt m b ys
    → (strncmp m a b n ≡ pos 0) ↔ (take n xs ≡ take n ys)
unfolding strncmp
strncmp-zero m a b xs ys n h k =
    strncmp_loop-zero n m a b 0 xs ys (at_zero m a xs h) (at_zero m b ys k)
