-- ===== src/Prelude/Sort.antt =====
-- Sorting by a Boolean order, as the code's calls of Go's sort package use it: a stable insertion
-- sort, so that elements of which neither is less keep their order.
use mathlib.Core.Path.{◌≡◌}
use mathlib.Core.Bool.{Bool, true, false}
use mathlib.Core.List.{List, [], ◌∷◌, Perm}
use mathlib.Core.List.Perm
use mathlib.Core.Logic.{inl, inr}
use vgpu_scheduler.Prelude.Tests.{if◌then◌else◌, Bool-cases}
use vgpu_scheduler.Prelude.Lists.{All}

module _ {ℓ} {A : Type ℓ} (less : A → A → Bool) where
  -- Before the first element that is less than no earlier one.
  unfoldable pub insert_sorted : A → List A → List A
  insert_sorted x [] = x ∷ []
  insert_sorted x (y ∷ ys) = if less y x then y ∷ insert_sorted x ys else x ∷ y ∷ ys

  unfoldable pub sort : List A → List A
  unfolding insert_sorted
  sort [] = []
  sort (x ∷ xs) = insert_sorted x (sort xs)

  -- No element is less than one before it.
  abbrev pub Sorted : List A → Type ℓ
  Sorted [] = Unit
  Sorted (x ∷ xs) = All (λ y. less y x ≡ false) xs × Sorted xs

  insert-perm : (x : A) (ys : List A) → Perm (insert_sorted x ys) (x ∷ ys)
  unfolding insert_sorted
  insert-perm x [] = Perm.refl (x ∷ [])
  insert-perm x (y ∷ ys) = elim (Bool-cases (less y x)) [
    | inl e ↦ rw e (Perm.trans (Perm.cons y (insert-perm x ys)) (Perm.swap x y ys))
    | inr e ↦ rw e (Perm.refl (x ∷ y ∷ ys))
  ]

  pub sort-perm : (xs : List A) → Perm (sort xs) xs
  unfolding sort
  sort-perm [] = Perm.refl []
  sort-perm (x ∷ xs) = Perm.trans (insert-perm x (sort xs)) (Perm.cons x (sort-perm xs))

  insert-All {κ} :
      (P : A → Type κ) (x : A) (ys : List A) → P x → All P ys → All P (insert_sorted x ys)
  unfolding insert_sorted
  insert-All P x [] p a = (p, tt)
  insert-All P x (y ∷ ys) p a = elim (Bool-cases (less y x)) [
    | inl e ↦ rw e (a.0, insert-All P x ys p a.1)
    | inr e ↦ rw e (p, a)
  ]

  pub sort-All {κ} : (P : A → Type κ) (xs : List A) → All P xs → All P (sort xs)
  unfolding sort
  sort-All P [] a = tt
  sort-All P (x ∷ xs) a = insert-All P x (sort xs) a.0 (sort-All P xs a.1)

  unsort_insert {κ} :
      (P : A → Type κ) (x : A) (ys : List A) → All P (insert_sorted x ys) → P x × All P ys
  unfolding insert_sorted
  unsort_insert P x [] a = a
  unsort_insert P x (y ∷ ys) a = elim (Bool-cases (less y x)) [
    | inl e ↦
        let b : All P (y ∷ insert_sorted x ys) = rw (insert_sorted, e) at a in
        let (p, rest) = unsort_insert P x ys b.1 in (p, (b.0, rest))
    | inr e ↦ let b : All P (x ∷ y ∷ ys) = rw (insert_sorted, e) at a in b
  ]

  pub unsort-All {κ} : (P : A → Type κ) (xs : List A) → All P (sort xs) → All P xs
  unfolding sort
  unsort-All P [] a = tt
  unsort-All P (x ∷ xs) a =
      let (p, rest) = unsort_insert P x (sort xs) a in (p, unsort-All P xs rest)

  module _ (asym : (x y : A) → less x y ≡ true → less y x ≡ false)
      (chain : (x y z : A) → less y x ≡ false → less z y ≡ false → less z x ≡ false) where
    chain-All :
        (x y : A) (zs : List A)
        → less y x ≡ false
        → All (λ z. less z y ≡ false) zs
        → All (λ z. less z x ≡ false) zs
    chain-All x y [] e a = tt
    chain-All x y (z ∷ zs) e a = (chain x y z e a.0, chain-All x y zs e a.1)

    insert-Sorted : (x : A) (ys : List A) → Sorted ys → Sorted (insert_sorted x ys)
    unfolding insert_sorted
    insert-Sorted x [] s = (tt, tt)
    insert-Sorted x (y ∷ ys) s = elim (Bool-cases (less y x)) [
      | inl e ↦
          rw e (insert-All (λ z. less z y ≡ false) x ys (asym y x e) s.0, insert-Sorted x ys s.1)
      | inr e ↦ rw e ((e, chain-All x y ys e s.0), s)
    ]

    pub sort-Sorted : (xs : List A) → Sorted (sort xs)
    unfolding sort
    sort-Sorted [] = tt
    sort-Sorted (x ∷ xs) = insert-Sorted x (sort xs) (sort-Sorted xs)
