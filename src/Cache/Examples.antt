-- ===== src/Cache/Examples.antt =====
-- internal/scheduler/cache.go: the results at a cache with one node.
use vgpu_scheduler.Cache.{
  AssumedAllocation, NodeState, SyncedPhase, VramCache, assume_slice, charge_reserved,
  new_vram_cache, promote_slice_to_allocated_once, recalculate_free_vram, release_slice_once,
  set_capacity, update_node,
}
use vgpu_scheduler.Cache.Admission.{assume_no_overcommit}
use vgpu_scheduler.Cache.Calls.{assumes, confirms, step, updates_node}
use vgpu_scheduler.Cache.Histories.{Reach, next, reserved_exact, start, step-IsLedger}
use vgpu_scheduler.Cache.Holds.{held_on}
use vgpu_scheduler.Cache.Ledger.{IsLedger, assume-IsLedger}
use vgpu_scheduler.Cache.Once.{promote_missing_node_lost, release-promote}
use vgpu_scheduler.Prelude.{
  [], arith, inl, none, ok, refl, some, str_eq, true, ℕ, ◌+◌, ◌-◌, ◌∷◌, ◌≡◌, ◌≤◌,
}
use vgpu_scheduler.Prelude.Dict.{Dict, insert, lookup, total}

abbrev node_with : ℕ → ℕ → ℕ → NodeState
node_with allocated reserved free = record {
  node_name = "n1";
  total_vram = 100;
  allocated = allocated;
  reserved = reserved;
  free = free;
  healthy = true;
  zone = "a";
}

abbrev cache_with :
    NodeState → Dict AssumedAllocation → Dict AssumedAllocation → Dict SyncedPhase → VramCache
cache_with node assumed confirmed synced = record {
  nodes = ("n1", node) ∷ [];
  assumed = assumed;
  confirmed = confirmed;
  synced = synced;
  allocated_bytes = [];
  allocated_node = [];
  seeded = true;
}

abbrev hold : AssumedAllocation
hold = record { slice_uid = "s1"; namespace = "team"; node = "n1"; bytes = 10; expires_at = 35 }

abbrev one_node : VramCache
one_node = cache_with (node_with 0 0 100) [] [] []

abbrev one_hold : VramCache
one_hold = cache_with (node_with 0 10 90) (("s1", hold) ∷ []) [] []

abbrev one_confirmed : VramCache
one_confirmed = cache_with (node_with 0 10 90) [] (("s1", hold) ∷ []) []

one_hold-eq : assume_slice one_node "s1" "team" "n1" 10 5 30 ≡ ok one_hold
unfolding assume_slice charge_reserved recalculate_free_vram lookup insert str_eq
one_hold-eq = refl

one_node-IsLedger : IsLedger one_node
unfolding lookup total
one_node-IsLedger = record {
  unique_assumed = tt;
  unique_confirmed = tt;
  apart = λ u. inl refl;
  reserves = record { exact = λ n s e. ground (arith, e) };
}

one_hold-IsLedger : IsLedger one_hold
one_hold-IsLedger =
    assume-IsLedger one_node one_hold "s1" "team" "n1" 10 5 30 one_node-IsLedger one_hold-eq

-- The node registers with 100 bytes, and a slice is assumed on it.
abbrev history : VramCache
history = step (step new_vram_cache (updates_node "n1" 100 0)) (assumes "s1" "team" "n1" 10 5 30)

history-Reach : Reach history
unfolding new_vram_cache total
history-Reach = next _ (next _ start (λ e. refl)) tt

reserved_exact_example : 10 ≡ held_on history "n1"
unfolding step assume_slice charge_reserved recalculate_free_vram lookup insert str_eq update_node
    set_capacity new_vram_cache
reserved_exact_example =
    reserved_exact history "n1" (record (node_with 0 10 90) { zone = "" }) history-Reach refl

assume_no_overcommit_example :
    (s t : NodeState) × (lookup "n1" one_node.nodes ≡ some s)
    × (lookup "n1" one_hold.nodes ≡ some t)
    × (s.healthy ≡ true)
    × (t.reserved ≡ s.reserved + 10)
    × (t.allocated ≡ s.allocated)
    × (t.total_vram ≡ s.total_vram)
    × (t.allocated + t.reserved ≤ t.total_vram)
assume_no_overcommit_example =
    assume_no_overcommit one_node one_hold "s1" "team" "n1" 10 5 30 (refl, tt) (omega arith)
      one_hold-eq

step-IsLedger_example : IsLedger (step one_hold (confirms "s1" "team" "n1" 10 6 30))
unfolding lookup
step-IsLedger_example =
    step-IsLedger one_hold (confirms "s1" "team" "n1" 10 6 30) refl one_hold-IsLedger

release-promote_example :
    let d =
      release_slice_once (promote_slice_to_allocated_once one_confirmed "s1" "n1" 12).0 "s1" "n1" in
    (t : NodeState) × (lookup "n1" d.nodes ≡ some t)
    × (t.allocated ≡ (node_with 0 10 90).allocated)
    × (t.reserved ≡ (node_with 0 10 90).reserved - hold.bytes)
    × (lookup "s1" d.allocated_bytes ≡ none)
    × (lookup "s1" d.confirmed ≡ none)
unfolding lookup str_eq
release-promote_example =
    release-promote one_confirmed "s1" "n1" 12 (node_with 0 10 90) hold refl refl refl

promote_missing_node_lost_example :
    let assigned = (promote_slice_to_allocated_once one_node "s1" "n2" 12).0 in
    let registered = update_node assigned "n2" 50 0 in
    let again = (promote_slice_to_allocated_once registered "s1" "n2" 12).0 in
    (s : NodeState) × (lookup "n2" again.nodes ≡ some s)
    × (s.allocated ≡ 0)
    × (s.free ≡ 50)
    × (lookup "s1" again.allocated_bytes ≡ some 12)
unfolding lookup str_eq
promote_missing_node_lost_example = promote_missing_node_lost one_node "s1" "n2" 12 50 refl refl
