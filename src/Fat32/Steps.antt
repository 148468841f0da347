-- ===== src/Fat32/Steps.antt =====
-- How the actions of kernel/fs/fat32.c go on, by how their first call ends.
use ronin_os.Base.{◌≡◌, refl, ap, Bool, true, false, Option, none, some}
use ronin_os.Fat32.{
  Store, Result, ok, failed, Action, ◌>>=◌, on_error, Message, fail_if, fault_if, or_fail,
}
use ronin_os.Fat32.Files.{attempt}

module _ {D A : Type 0} (m : Action D A) {s t : Store D} where
  pub bind-ok : {B : Type 0} (f : A → Action D B) {a : A} → m s ≡ (ok a, t) → (m >>= f) s ≡ f a t
  bind-ok {B} f e = ap (λ (r : Result A × Store D). ◌>>=◌ {B = B} (λ u. r) f s) e

  pub then-ok : {B : Type 0} (k : Action D B) {a : A} → m s ≡ (ok a, t) → (m >>= λ x. k) s ≡ k t
  then-ok {B} k e = bind-ok (λ x. k) e

  pub bind-failed :
      {B : Type 0} (f : A → Action D B) → m s ≡ (failed, t) → (m >>= f) s ≡ (failed, t)
  bind-failed {B} f e = ap (λ (r : Result A × Store D). ◌>>=◌ {B = B} (λ u. r) f s) e

  pub on_error-ok : (e : Message) {a : A} → m s ≡ (ok a, t) → on_error m e s ≡ (ok a, t)
  on_error-ok e p = ap (λ (r : Result A × Store D). on_error (λ u. r) e s) p

  pub on_error-failed :
      (e : Message) → m s ≡ (failed, t) → on_error m e s ≡ (failed, record t { last_error = e })
  on_error-failed e p = ap (λ (r : Result A × Store D). on_error (λ u. r) e s) p

  pub attempt-ok : {a : A} → m s ≡ (ok a, t) → attempt m s ≡ (ok (some a), t)
  attempt-ok p = ap (λ (r : Result A × Store D). attempt (λ u. r) s) p

  pub attempt-failed : m s ≡ (failed, t) → attempt m s ≡ (ok none, t)
  attempt-failed p = ap (λ (r : Result A × Store D). attempt (λ u. r) s) p

module _ {D : Type 0} (s : Store D) where
  pub fail_if-ok : (c : Bool) (e : Message) → c ≡ false → fail_if c e s ≡ (ok tt, s)
  fail_if-ok true e h = cc
  fail_if-ok false e h = refl

  pub fault_if-ok : (c : Bool) → c ≡ false → fault_if c s ≡ (ok tt, s)
  fault_if-ok true h = cc
  fault_if-ok false h = refl

  pub or_fail-some :
      {A : Type 0} (o : Option A) (e : Message) {a : A} → o ≡ some a → or_fail o e s ≡ (ok a, s)
  or_fail-some o e h = ap (λ o. or_fail o e s) h
