-- ===== src/Prelude/Lists.antt =====
-- Lists measured by native numbers, and predicates over all of their elements.
use Prim.Native.Nat.{ℕ, suc, ◌+◌, ◌≤◌}
use mathlib.Core.Path.{◌≡◌, refl}
use mathlib.Core.Bool.{Bool, true}
use mathlib.Core.List.{List, [], ◌∷◌, ◌++◌}
use mathlib.Core.Logic.{◌⊎◌, inl, inr}
use native.Mathlib.Omega.{arith}
use vgpu_scheduler.Prelude.Tests.{if◌then◌else◌}

module _ {ℓ} {A : Type ℓ} where
  abbrev pub length : List A → ℕ
  length [] = 0
  length (x ∷ xs) = suc (length xs)

  abbrev pub All {κ} : (A → Type κ) → List A → Type κ
  All P [] = Unit
  All P (x ∷ xs) = P x × All P xs

  -- The elements that pass a test, in their order.
  unfoldable pub keep : (A → Bool) → List A → List A
  keep p [] = []
  keep p (x ∷ xs) = if p x then x ∷ keep p xs else keep p xs

  -- The sum of a weight over a list.
  pub sum_by : (A → ℕ) → List A → ℕ
  sum_by f [] = 0
  sum_by f (x ∷ xs) = f x + sum_by f xs

  pub length-keep_nil : (p : A → Bool) → length (keep p []) ≡ 0
  unfolding keep
  length-keep_nil p = refl

  pub length-keep_cons :
      (p : A → Bool) (x : A) (xs : List A)
      → length (keep p (x ∷ xs)) ≡ (if p x then 1 else 0) + length (keep p xs)
  unfolding keep
  length-keep_cons p x xs = ground arith

  pub length-keep-le : (p : A → Bool) (xs : List A) → length (keep p xs) ≤ length xs
  unfolding keep
  length-keep-le p [] = omega arith
  length-keep-le p (x ∷ xs) = ground (arith, length-keep-le p xs)

  pub length-keep_append :
      (p : A → Bool) (xs ys : List A)
      → length (keep p (xs ++ ys)) ≡ length (keep p xs) + length (keep p ys)
  unfolding keep
  length-keep_append p [] ys = omega arith
  length-keep_append p (x ∷ xs) ys = ground (arith, length-keep_append p xs ys)

  -- A weaker test keeps no fewer.
  pub length-keep_mono :
      (p q : A → Bool) (xs : List A)
      → ((x : A) → p x ≡ true → q x ≡ true)
      → length (keep p xs) ≤ length (keep q xs)
  unfolding keep
  length-keep_mono p q [] h = omega arith
  length-keep_mono p q (x ∷ xs) h = ground (arith, length-keep_mono p q xs h, h x)

  -- What a stronger test keeps is not lost by a weaker test before it.
  pub length-keep-keep :
      (p q : A → Bool) (xs : List A)
      → ((x : A) → p x ≡ true → q x ≡ true)
      → length (keep p xs) ≤ length (keep p (keep q xs))
  unfolding keep
  length-keep-keep p q [] h = omega arith
  length-keep-keep p q (x ∷ xs) h = ground (arith, length-keep-keep p q xs h, h x)

  -- A test that every element passes keeps as many as there are, and only such a test does.
  pub keep_every :
      (p : A → Bool) (xs : List A) → length xs ≤ length (keep p xs) → All (λ x. p x ≡ true) xs
  unfolding keep
  keep_every p [] h = tt
  keep_every p (x ∷ xs) h = ground (arith, keep_every p xs, length-keep-le p xs)

  pub sum_by_nil : (f : A → ℕ) → sum_by f [] ≡ 0
  unfolding sum_by
  sum_by_nil f = refl

  pub sum_by_cons : (f : A → ℕ) (x : A) (xs : List A) → sum_by f (x ∷ xs) ≡ f x + sum_by f xs
  unfolding sum_by
  sum_by_cons f x xs = refl

  pub keep-All : (p : A → Bool) (xs : List A) → All (λ x. p x ≡ true) (keep p xs)
  unfolding keep
  keep-All p [] = tt
  keep-All p (x ∷ xs) = ground (arith, keep-All p xs)

-- Membership, as an alternative for each element.
abbrev pub Has : {A : Type 0} → A → List A → Type 0
Has x [] = ⊥
Has x (y ∷ ys) = (y ≡ x) ⊎ Has x ys

pub Has-append_left : {A : Type 0} (x : A) (xs ys : List A) → Has x xs → Has x (xs ++ ys)
Has-append_left x [] ys h = elim h [ ]
Has-append_left x (y ∷ xs) ys (inl e) = inl e
Has-append_left x (y ∷ xs) ys (inr h) = inr (Has-append_left x xs ys h)

pub Has-append_right : {A : Type 0} (x : A) (xs ys : List A) → Has x ys → Has x (xs ++ ys)
Has-append_right x [] ys h = h
Has-append_right x (y ∷ xs) ys h = inr (Has-append_right x xs ys h)

pub Has-append : {A : Type 0} (x : A) (xs ys : List A) → Has x (xs ++ ys) → Has x xs ⊎ Has x ys
Has-append x [] ys h = inr h
Has-append x (y ∷ xs) ys (inl e) = inl (inl e)
Has-append x (y ∷ xs) ys (inr h) = elim (Has-append x xs ys h) [
  | inl l ↦ inl (inr l)
  | inr r ↦ inr r
]

module _ {ℓ κ μ} {A : Type ℓ} {P : A → Type κ} {Q : A → Type μ} where
  pub All-map : (xs : List A) → ((x : A) → P x → Q x) → All P xs → All Q xs
  All-map [] f a = tt
  All-map (x ∷ xs) f a = (f x a.0, All-map xs f a.1)

pub List-cases {ℓ} :
    {A : Type ℓ} (xs : List A) → (xs ≡ []) ⊎ ((x : A) × (rest : List A) × (xs ≡ x ∷ rest))
List-cases [] = inl refl
List-cases (x ∷ rest) = inr (x, rest, refl)
