-- ===== src/Prelude/Dict.antt =====
-- A Go map from texts, as an association list with one entry for each key.
use Prim.Native.Nat.{ℕ, ◌+◌}
use Prim.Native.String.{String}
use mathlib.Core.Path.{◌≡◌, refl, ◌∙◌, subst}
use mathlib.Core.Bool.{Bool, true, false}
use mathlib.Core.Option.{Option, none, some}
use mathlib.Core.List.{List, [], ◌∷◌}
use mathlib.Core.Logic.{inl, inr}
use native.Mathlib.Omega.{arith}
use vgpu_scheduler.Prelude.Tests.{str_eq, str_eq_iff, str_eq_refl, if◌then◌else◌, Bool-cases}

abbrev pub Dict {ℓ} : Type ℓ → Type ℓ
Dict V = List (String × V)

module _ {ℓ} {V : Type ℓ} where
  unfoldable pub lookup : String → Dict V → Option V
  lookup k [] = none
  lookup k ((j, v) ∷ m) = if str_eq j k then some v else lookup k m

  unfoldable pub insert : String → V → Dict V → Dict V
  insert k v [] = (k, v) ∷ []
  insert k v ((j, w) ∷ m) = if str_eq j k then (k, v) ∷ m else (j, w) ∷ insert k v m

  unfoldable pub delete : String → Dict V → Dict V
  delete k [] = []
  delete k ((j, w) ∷ m) = if str_eq j k then delete k m else (j, w) ∷ delete k m

  -- The sum of a weight over the entries of a map.
  unfoldable pub total : (V → ℕ) → Dict V → ℕ
  total f [] = 0
  total f ((j, w) ∷ m) = f w + total f m

  abbrev pub weight : (V → ℕ) → Option V → ℕ
  weight f none = 0
  weight f (some v) = f v

  -- Each key stands once.
  abbrev pub Unique : Dict V → Type ℓ
  Unique [] = Unit
  Unique ((k, v) ∷ m) = (lookup k m ≡ none) × Unique m

  pub lookup-insert :
      (k j : String) (v : V) (m : Dict V)
      → lookup j (insert k v m) ≡ (if str_eq k j then some v else lookup j m)
  unfolding lookup insert
  lookup-insert k j v [] = refl
  lookup-insert k j v ((i, w) ∷ m) =
      ground (arith, str_eq_iff k j, str_eq_iff i k, str_eq_iff i j, lookup-insert k j v m)

  pub lookup-insert_self : (k : String) (v : V) (m : Dict V) → lookup k (insert k v m) ≡ some v
  lookup-insert_self k v m = lookup-insert k k v m ∙ rw (str_eq_refl k)

  pub lookup-delete :
      (k j : String) (m : Dict V)
      → lookup j (delete k m) ≡ (if str_eq k j then none else lookup j m)
  unfolding lookup delete
  lookup-delete k j [] = ground arith
  lookup-delete k j ((i, w) ∷ m) =
      ground (arith, str_eq_iff k j, str_eq_iff i k, str_eq_iff i j, lookup-delete k j m)

  pub lookup-delete_self : (k : String) (m : Dict V) → lookup k (delete k m) ≡ none
  lookup-delete_self k m = lookup-delete k k m ∙ rw (str_eq_refl k)

  pub delete_missing : (k : String) (m : Dict V) → lookup k m ≡ none → delete k m ≡ m
  unfolding lookup delete
  delete_missing k [] h = refl
  delete_missing k ((j, w) ∷ m) h = ground (arith, delete_missing k m)

  pub delete-Unique : (k : String) (m : Dict V) → Unique m → Unique (delete k m)
  unfolding delete
  delete-Unique k [] u = tt
  delete-Unique k ((j, w) ∷ m) u = ground (arith, delete-Unique k m u.1, lookup-delete k j m)

  pub insert-Unique : (k : String) (v : V) (m : Dict V) → Unique m → Unique (insert k v m)
  unfolding insert
  insert-Unique k v [] u = (unfold lookup in refl, tt)
  insert-Unique k v ((j, w) ∷ m) u =
      ground (arith, insert-Unique k v m u.1, lookup-insert k j v m, str_eq_iff j k, str_eq_iff k j)

  -- What a deletion takes out of a sum, and what an insertion puts in.
  pub total-delete :
      (f : V → ℕ) (k : String) (m : Dict V)
      → Unique m
      → total f (delete k m) + weight f (lookup k m) ≡ total f m
  unfolding lookup delete total
  total-delete f k [] u = omega arith
  total-delete f k ((j, w) ∷ m) u =
      ground (arith, total-delete f k m u.1, delete_missing k m, str_eq_iff j k)

  pub total-insert :
      (f : V → ℕ) (k : String) (v : V) (m : Dict V)
      → total f (insert k v m) + weight f (lookup k m) ≡ total f m + f v
  unfolding lookup insert total
  total-insert f k v [] = omega arith
  total-insert f k v ((j, w) ∷ m) = ground (arith, total-insert f k v m)

  abbrev pub has : String → Dict V → Bool
  has k m = elim (lookup k m) [ none ↦ false | some _ ↦ true ]

  -- The entries whose value passes a test: Go's delete in a loop over the map.
  unfoldable pub retain : (V → Bool) → Dict V → Dict V
  retain p [] = []
  retain p ((j, w) ∷ m) = if p w then (j, w) ∷ retain p m else retain p m

  -- The keys whose value passes a test.
  unfoldable pub keys_where : (V → Bool) → Dict V → List String
  keys_where p [] = []
  keys_where p ((j, w) ∷ m) = if p w then j ∷ keys_where p m else keys_where p m

  unfoldable pub delete_all : List String → Dict V → Dict V
  delete_all [] m = m
  delete_all (k ∷ ks) m = delete_all ks (delete k m)

  pub lookup-retain_missing :
      (p : V → Bool) (k : String) (m : Dict V) → lookup k m ≡ none → lookup k (retain p m) ≡ none
  unfolding lookup retain
  lookup-retain_missing p k [] h = refl
  lookup-retain_missing p k ((j, w) ∷ m) h = ground (arith, lookup-retain_missing p k m)

  pub retain-Unique : (p : V → Bool) (m : Dict V) → Unique m → Unique (retain p m)
  unfolding retain
  retain-Unique p [] u = tt
  retain-Unique p ((j, w) ∷ m) u =
      ground (arith, retain-Unique p m u.1, lookup-retain_missing p j m u.0)

  pub lookup-retain :
      (p : V → Bool) (k : String) (m : Dict V)
      → Unique m
      → lookup k (retain p m)
        ≡ elim (lookup k m) [ none ↦ none | some v ↦ if p v then some v else none ]
  unfolding lookup retain
  lookup-retain p k [] u = refl
  lookup-retain p k ((j, w) ∷ m) u =
      ground (arith, lookup-retain p k m u.1, lookup-retain_missing p k m, str_eq_iff j k)

  -- A deletion keeps the sum of a weight that is 0 wherever the entries are deleted.
  pub total-retain :
      (f : V → ℕ) (p : V → Bool) (m : Dict V)
      → ((v : V) → p v ≡ false → f v ≡ 0)
      → total f (retain p m) ≡ total f m
  unfolding total retain
  total-retain f p [] h = refl
  total-retain f p ((j, w) ∷ m) h = ground (arith, total-retain f p m h, h w)

  pub total-zero : (f : V → ℕ) (m : Dict V) → ((v : V) → f v ≡ 0) → total f m ≡ 0
  unfolding total
  total-zero f [] h = refl
  total-zero f ((j, w) ∷ m) h = omega (arith, total-zero f m h, h w)

  pub total-retain_zero :
      (f : V → ℕ) (p : V → Bool) (m : Dict V)
      → ((v : V) → p v ≡ true → f v ≡ 0)
      → total f (retain p m) ≡ 0
  unfolding total retain
  total-retain_zero f p [] h = refl
  total-retain_zero f p ((j, w) ∷ m) h = ground (arith, total-retain_zero f p m h, h w)

  -- A property of every value of a map.
  abbrev pub AllVals {κ} : (V → Type κ) → Dict V → Type κ
  AllVals P [] = Unit
  AllVals P ((j, w) ∷ m) = P w × AllVals P m

  pub lookup-AllVals {κ} :
      (P : V → Type κ) (k : String) (m : Dict V) {v : V} → AllVals P m → lookup k m ≡ some v → P v
  unfolding lookup
  lookup-AllVals P k [] a h = absurd (cc)
  lookup-AllVals P k ((j, w) ∷ m) {v} a h = elim (Bool-cases (str_eq j k)) [
    | inl e ↦ let w≡v : w ≡ v = cc (rw e at h) in subst P w≡v a.0
    | inr e ↦ lookup-AllVals P k m a.1 (rw e at h)
  ]

  pub insert-AllVals {κ} :
      (P : V → Type κ) (k : String) (v : V) (m : Dict V)
      → P v
      → AllVals P m
      → AllVals P (insert k v m)
  unfolding insert
  insert-AllVals P k v [] h a = (h, tt)
  insert-AllVals P k v ((j, w) ∷ m) h a = elim (Bool-cases (str_eq j k)) [
    | inl e ↦ rw e (h, a.1)
    | inr e ↦ rw e (a.0, insert-AllVals P k v m h a.1)
  ]

  pub delete-AllVals {κ} :
      (P : V → Type κ) (k : String) (m : Dict V) → AllVals P m → AllVals P (delete k m)
  unfolding delete
  delete-AllVals P k [] a = tt
  delete-AllVals P k ((j, w) ∷ m) a = elim (Bool-cases (str_eq j k)) [
    | inl e ↦ rw e (delete-AllVals P k m a.1)
    | inr e ↦ rw e (a.0, delete-AllVals P k m a.1)
  ]
