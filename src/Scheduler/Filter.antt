-- ===== src/Scheduler/Filter.antt =====
-- internal/scheduler/filter.go: the verdict on one candidate node, with its reason.
use vgpu_scheduler.Prelude.{
  ℕ, ◌≡◌, String, Bool, true, false, none, List, [], ◌∷◌, if◌then◌else◌, Result, ok, err, arith,
  inl, inr, Bool-cases, All,
}
use vgpu_scheduler.Prelude.Dict.{lookup}
use vgpu_scheduler.Cache.{VramCache, FitError, can_fit, assume_slice}
use vgpu_scheduler.Cache.Admission.{can_fit-assume}

pub data FilterReason : Type 0 where
  passed_reason : FilterReason
  rejected : FitError → FilterReason

pub record FilterResult : Type 0 where
  pub node_name : String
  pub passed : Bool
  pub reason : FilterReason

abbrev verdict : String → Result FitError (Unit {0}) → FilterResult
verdict name (ok _) = record { node_name = name; passed = true; reason = passed_reason }
verdict name (err e) = record { node_name = name; passed = false; reason = rejected e }

unfoldable pub filter_node : VramCache → String → ℕ → FilterResult
filter_node c name requested = verdict name (can_fit c name requested)

-- The names of the nodes that pass, in the order of the candidates.
unfoldable pub valid_nodes : VramCache → List String → ℕ → List String
unfolding filter_node
valid_nodes c [] requested = []
valid_nodes c (n ∷ ns) requested =
    if (filter_node c n requested).passed
    then n ∷ valid_nodes c ns requested
    else valid_nodes c ns requested

fits :
    (c : VramCache) (n : String) (requested : ℕ)
    → (filter_node c n requested).passed ≡ true
    → can_fit c n requested ≡ ok tt
unfolding filter_node
fits c n requested e = ground arith

-- Any node that the filter lets through can be reserved for a slice that has no hold yet, while
-- the cache stays as the filter saw it.
pub valid_nodes_reservable :
    (c : VramCache) (candidates : List String) (uid ns : String) (requested now ttl : ℕ)
    → lookup uid c.assumed ≡ none
    → lookup uid c.confirmed ≡ none
    → All
        (λ n. (d : VramCache) × (assume_slice c uid ns n requested now ttl ≡ ok d))
        (valid_nodes c candidates requested)
unfolding valid_nodes
valid_nodes_reservable c [] uid ns requested now ttl a f = tt
valid_nodes_reservable c (n ∷ rest) uid ns requested now ttl a f =
    elim (Bool-cases (filter_node c n requested).passed) [
      | inl e ↦ rw e (
        can_fit-assume c uid ns n requested now ttl a f (fits c n requested e),
        valid_nodes_reservable c rest uid ns requested now ttl a f,
      )
      | inr e ↦ rw e (valid_nodes_reservable c rest uid ns requested now ttl a f)
    ]
