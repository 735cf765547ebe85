-- ===== src/Nodeagent/Examples.antt =====
-- internal/nodeagent: the results at a node with two cards.
use vgpu_scheduler.Nodeagent.Allocator.{
  AllocDevice, AllocationResult, Allocator, allocate, allocate_locked, available, commit,
  committed_bytes, pick_best_fit, pick_from, release_by_slice,
}
use vgpu_scheduler.Nodeagent.Allocator.Ledger.{IsBalanced, allocates, move, move-IsBalanced}
use vgpu_scheduler.Nodeagent.Allocator.Placement.{In}
use vgpu_scheduler.Nodeagent.Allocator.Repeats.{allocate_no_overcommit, release-allocate}
use vgpu_scheduler.Prelude.{
  List, String, [], arith, false, none, ok, refl, some, str_eq, str_eq_iff, true, ◌+◌, ◌∷◌, ◌≡◌,
  ◌≢◌, ◌≤◌,
}
use vgpu_scheduler.Prelude.Dict.{insert, lookup, total}

abbrev cards : List AllocDevice
cards =
    record { uuid = "GPU-0"; total = 100; reserved = 10 }
    ∷ record { uuid = "GPU-1"; total = 50; reserved = 10 }
    ∷ []

abbrev empty : Allocator
empty = record { initialized = true; committed = []; by_alloc = []; by_slice = [] }

abbrev one_slice : Allocator
one_slice = record {
  initialized = true;
  committed = ("GPU-1", 30) ∷ [];
  by_alloc = ("alloc-1", record { slice_uid = "s1"; device_uuid = "GPU-1"; bytes = 30 }) ∷ [];
  by_slice = ("s1", "alloc-1") ∷ [];
}

abbrev granted : AllocationResult
granted = record { allocation_id = "alloc-1"; device_uuid = "GPU-1"; allocated_bytes = 30 }

empty-IsBalanced : IsBalanced empty
unfolding committed_bytes lookup total
empty-IsBalanced = record { unique = tt; exact = λ u. refl }

has_name : (a : String) → str_eq a "" ≡ false → a ≢ ""
has_name a e h = absurd (ground (arith, str_eq_iff a ""))

move-IsBalanced_example : IsBalanced (move empty (allocates (some cards) "alloc-1" "s1" 30))
unfolding lookup
move-IsBalanced_example =
    move-IsBalanced empty (allocates (some cards) "alloc-1" "s1" 30) refl empty-IsBalanced

allocate_no_overcommit_example :
    (d : AllocDevice) × In d cards
    × (d.uuid ≡ granted.device_uuid)
    × (committed_bytes one_slice d.uuid ≡ committed_bytes empty d.uuid + 30)
    × (d.reserved + committed_bytes one_slice d.uuid ≤ d.total)
unfolding allocate allocate_locked pick_best_fit pick_from available committed_bytes commit lookup
    insert str_eq
allocate_no_overcommit_example =
    allocate_no_overcommit empty one_slice cards "alloc-1" "s1" 30 granted refl refl

release-allocate_example :
    (c : Allocator) × (release_by_slice one_slice "s1" ≡ ok ("alloc-1", c))
    × ((uuid : String) → committed_bytes c uuid ≡ committed_bytes empty uuid)
    × (lookup "s1" c.by_slice ≡ none)
unfolding allocate allocate_locked pick_best_fit pick_from available committed_bytes commit lookup
    insert str_eq
release-allocate_example =
    release-allocate empty one_slice cards "alloc-1" "s1" 30 granted refl refl
