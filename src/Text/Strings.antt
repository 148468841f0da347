-- ===== src/Text/Strings.antt =====
-- C strings in memory, and the equality of texts that `strcmp(a, b) == 0` decides.
use ronin_os.Base.{ℕ, ◌+◌, ◌≡◌, refl, ◌≢◌, ◌↔◌, Bool, true, false, ◌&&◌, List, [], ◌∷◌, arith, ◌==◌}
use ronin_os.Text.{Memory}

-- At `p` the memory holds the non-zero bytes of the text and a terminating NUL.
abbrev pub StringAt : Memory → ℕ → List ℕ → Type 0
StringAt m p [] = m p ≡ 0
StringAt m p (x ∷ xs) = (m p ≡ x) × (x ≢ 0) × StringAt m (p + 1) xs

unfoldable pub text_eq : List ℕ → List ℕ → Bool
text_eq [] [] = true
text_eq (x ∷ xs) (y ∷ ys) = x == y && text_eq xs ys
text_eq _ _ = false

pub text_eq_iff : (xs ys : List ℕ) → (text_eq xs ys ≡ true) ↔ (xs ≡ ys)
unfolding text_eq
text_eq_iff [] [] = (λ _. refl, λ _. refl)
text_eq_iff [] (y ∷ ys) = (λ h. cc, λ h. cc)
text_eq_iff (x ∷ xs) [] = (λ h. cc, λ h. cc)
text_eq_iff (x ∷ xs) (y ∷ ys) =
    (λ h. ground (arith, (text_eq_iff xs ys).0), λ h. ground (arith, (text_eq_iff xs ys).1))

pub text_eq_self : (xs : List ℕ) → text_eq xs xs ≡ true
text_eq_self xs = (text_eq_iff xs xs).1 refl
