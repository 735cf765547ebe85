-- ===== src/Prelude/Outcome.antt =====
-- Go's `(value, error)` results: a value or an error, and the early return as a bind.
use mathlib.Core.Path.{◌≡◌, refl}
use mathlib.Core.Bool.{Bool, true, false}
use mathlib.Core.Option.{Option, none, some}
use mathlib.Core.Logic.{◌⊎◌, inl, inr, ◌↔◌}
use mathlib.Core.List.{List, [], ◌∷◌}
use vgpu_scheduler.Prelude.Lists.{All}

pub data Result {ℓ κ} (E : Type κ) (A : Type ℓ) : Type (ℓ ⊔ κ) where
  ok : A → Result E A
  err : E → Result E A

infixl 5 ◌>>=◌ ◌>>◌
abbrev pub ◌>>=◌ {ℓ κ μ} :
    {E : Type μ} {A : Type ℓ} {B : Type κ} → Result E A → (A → Result E B) → Result E B
ok a >>= f = f a
err e >>= f = err e

abbrev pub ◌>>◌ {ℓ μ} : {E : Type μ} {B : Type ℓ} → Result E (Unit {0}) → Result E B → Result E B
m >> k = m >>= λ _. k

-- `if !test { return error }`.
abbrev pub guard {μ} : {E : Type μ} → Bool → E → Result E (Unit {0})
guard true e = ok tt
guard false e = err e

-- A map read whose missing key is an error.
abbrev pub or_fail {ℓ μ} : {E : Type μ} {A : Type ℓ} → Option A → E → Result E A
or_fail none e = err e
or_fail (some a) e = ok a

pub Result-cases {ℓ κ} :
    {E : Type κ} {A : Type ℓ} (r : Result E A) → ((a : A) × (r ≡ ok a)) ⊎ ((e : E) × (r ≡ err e))
Result-cases (ok a) = inl (a, refl)
Result-cases (err e) = inr (e, refl)

-- `for _, x := range xs { if err := check(x); err != nil { return err } }`.
unfoldable pub check_all {ℓ μ} :
    {E : Type μ} {A : Type ℓ} → (A → Result E (Unit {0})) → List A → Result E (Unit {0})
check_all f [] = ok tt
check_all f (x ∷ xs) = f x >> check_all f xs

pub then_iff {μ} :
    {E : Type μ} (r s : Result E (Unit {0})) → ((r >> s) ≡ ok tt) ↔ (r ≡ ok tt) × (s ≡ ok tt)
then_iff (ok tt) s = (λ e. (refl, e), λ p. p.1)
then_iff (err x) s = (λ e. absurd (cc), λ p. absurd (cc))

-- The loop passes exactly when every element passes.
pub check_all_iff {ℓ μ} :
    {E : Type μ} {A : Type ℓ} (f : A → Result E (Unit {0})) (xs : List A)
    → (check_all f xs ≡ ok tt) ↔ All (λ x. f x ≡ ok tt) xs
unfolding check_all
check_all_iff f [] = (λ e. tt, λ a. refl)
check_all_iff f (x ∷ xs) =
    let head = then_iff (f x) (check_all f xs) in
    let rest = check_all_iff f xs in
    (λ e. ((head.0 e).0, rest.0 (head.0 e).1), λ a. head.1 (a.0, rest.1 a.1))
