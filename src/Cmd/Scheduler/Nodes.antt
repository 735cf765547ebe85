-- ===== src/Cmd/Scheduler/Nodes.antt =====
-- cmd/scheduler/main.go: the node reconciler, the seeding of the cache and the janitor. What the API
-- server returns is an argument, and so are the calls that other goroutines make on the cache
-- during a read.
use vgpu_scheduler.Prelude.{
  ℕ, ◌-◌, String, Bool, true, false, ◌&&◌, not, Option, none, some, List, [], ◌∷◌, ltb, str_eq,
  if◌then◌else◌, Result, ok, err,
}
use vgpu_scheduler.Prelude.Dict.{Dict}
use vgpu_scheduler.Api.{
  SlicePhase, scheduled, allocating, ready, phase_eq, Condition, VgpuSlice, Read, found, not_found,
  unreadable,
}
use vgpu_scheduler.Cache.{
  VramCache, promote_slice_to_allocated_once, forget_slice, update_node, remove_node,
  set_node_health, set_node_zone, has_node, mark_seeded, tracked_slice_uids,
}
use vgpu_scheduler.Cache.Calls.{Call, run}

-- A Node: its name, the VRAM resource in its capacity and in its allocatable resources (a resource
-- that is not listed reads as 0), its conditions and its zone label.
pub record Node : Type 0 where
  pub name : String
  pub capacity : Option ℕ
  pub allocatable : Option ℕ
  pub conditions : List Condition
  pub zone : String

abbrev ready_status : List Condition → Bool
ready_status [] = false
ready_status (c ∷ cs) = if str_eq c.kind "Ready" then str_eq c.status "True" else ready_status cs

unfoldable pub node_is_ready : Node → Bool
node_is_ready node = ready_status node.conditions

abbrev quantity : Option ℕ → ℕ
quantity none = 0
quantity (some q) = q

unfoldable pub consumed_vram_on_node : Node → ℕ
consumed_vram_on_node node = quantity node.capacity - quantity node.allocatable

-- Whether the slice is Ready on the node and has bytes to charge.
abbrev pub needs_charge : String → VgpuSlice → Bool
needs_charge name s = str_eq s.node_name name && phase_eq s.phase ready && ltb 0 s.allocated_bytes

-- The walk over the slices after a node came back.
unfoldable pub recharge : String → List VgpuSlice → VramCache → VramCache
recharge name [] c = c
recharge name (s ∷ ss) c = recharge name ss (
    if needs_charge name s
    then (promote_slice_to_allocated_once c s.uid name s.allocated_bytes).0
    else c)

-- `if zone := node.Labels[…]; zone != "" { … }`.
abbrev pub record_zone : Node → VramCache → VramCache
record_zone node c = if str_eq node.zone "" then c else set_node_zone c node.name node.zone

-- What the reconciler is told: the node, the list of all slices, and the calls during that list.
pub record NodeReads : Type 0 where
  pub node : Read Node
  pub slices : Option (List VgpuSlice)
  pub during_list : List Call

-- The end of the reconcile.
abbrev pub set_readiness : Node → VramCache → VramCache
set_readiness node c = record_zone node (set_node_health c node.name (node_is_ready node))

unfoldable pub register_node :
    NodeReads → Node → ℕ → VramCache → VramCache × Result (Unit {0}) (Unit {0})
unfolding recharge consumed_vram_on_node node_is_ready
register_node r node total c =
    let known = has_node c node.name in
    let d = update_node c node.name total (consumed_vram_on_node node) in
    if known then (set_readiness node d, ok tt) else elim (r.slices) [
      | none ↦ (run d r.during_list, err tt)
      | some slices ↦ (set_readiness node (recharge node.name slices (run d r.during_list)), ok tt)
    ]

-- A node without the resource is left alone.
unfoldable pub register_sized :
    NodeReads → Node → Option ℕ → VramCache → VramCache × Result (Unit {0}) (Unit {0})
unfolding register_node
register_sized r node none c = (c, ok tt)
register_sized r node (some total) c = register_node r node total c

-- One reconcile of the node of that name.
unfoldable pub reconcile_node :
    String → NodeReads → VramCache → VramCache × Result (Unit {0}) (Unit {0})
unfolding register_sized
reconcile_node name r c = elim (r.node) [
  | not_found ↦ (remove_node c name, ok tt)
  | unreadable ↦ (c, err tt)
  | found node ↦ register_sized r node node.capacity c
]

-- The first loop of the seeding.
unfoldable pub seed_node : Node → VramCache → VramCache
unfolding consumed_vram_on_node
seed_node node c = elim (node.capacity) [
  | none ↦ c
  | some total ↦ record_zone node (update_node c node.name total (consumed_vram_on_node node))
]

unfoldable pub seed_nodes : List Node → VramCache → VramCache
unfolding seed_node
seed_nodes [] c = c
seed_nodes (n ∷ ns) c = seed_nodes ns (seed_node n c)

-- The phases of a slice that consumes VRAM.
abbrev pub consumes : SlicePhase → Bool
consumes scheduled = true
consumes allocating = true
consumes ready = true
consumes _ = false

-- What a slice is charged: its allocation, or its request as long as it has none.
abbrev pub charge_of : VgpuSlice → ℕ
charge_of s = if ltb 0 s.allocated_bytes then s.allocated_bytes else s.requested_vram

abbrev pub is_bound : VgpuSlice → Bool
is_bound s = not (str_eq s.node_name "") && consumes s.phase

unfoldable pub seed_slices : List VgpuSlice → VramCache → VramCache
seed_slices [] c = c
seed_slices (s ∷ ss) c = seed_slices ss (
    if is_bound s then (promote_slice_to_allocated_once c s.uid s.node_name (charge_of s)).0 else c)

-- `seedCacheFromNodes`: without the nodes nothing is seeded; without the slices the capacity is.
unfoldable pub seed_cache_from_nodes :
    Option (List Node)
    → Option (List VgpuSlice)
    → List Call
    → VramCache
    → VramCache × Result (Unit {0}) (Unit {0})
unfolding seed_nodes seed_slices
seed_cache_from_nodes none slices during_list c = (c, err tt)
seed_cache_from_nodes (some nodes) none during_list c =
    (mark_seeded (run (seed_nodes nodes c) during_list), ok tt)
seed_cache_from_nodes (some nodes) (some slices) during_list c =
    (mark_seeded (seed_slices slices (run (seed_nodes nodes c) during_list)), ok tt)

abbrev pub lives : String → List VgpuSlice → Bool
lives uid [] = false
lives uid (s ∷ ss) = if str_eq s.uid uid then true else lives uid ss

-- The loop of the janitor over the entries that it noted before the list.
unfoldable pub forget_dead : List VgpuSlice → Dict String → VramCache → VramCache
forget_dead slices [] c = c
forget_dead slices ((uid, node) ∷ rest) c =
    forget_dead slices rest (if lives uid slices then c else forget_slice c uid node)

-- One tick of the janitor.
unfoldable pub janitor_sweep : Option (List VgpuSlice) → List Call → VramCache → VramCache
unfolding forget_dead
janitor_sweep slices during_list c =
    let tracked = tracked_slice_uids c in
    elim tracked [
      | [] ↦ c
      | entry ∷ more ↦ elim slices [
        | none ↦ run c during_list
        | some live ↦ forget_dead live (entry ∷ more) (run c during_list)
      ]
    ]
