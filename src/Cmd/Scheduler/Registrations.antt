-- ===== src/Cmd/Scheduler/Registrations.antt =====
-- cmd/scheduler/main.go: the steps of the node reconciler on a node that registers.
use vgpu_scheduler.Prelude.{
  ℕ, ◌-◌, ◌≡◌, refl, ap, String, true, false, Option, none, some, List, [], str_eq, ok, err, inl,
  inr, arith, Bool-cases,
}
use vgpu_scheduler.Prelude.Dict.{lookup, lookup-insert_self}
use vgpu_scheduler.Api.{VgpuSlice, found}
use vgpu_scheduler.Cache.{
  NodeState, VramCache, update_node, set_capacity, node_or_new, set_node_health, has_node,
  update_at, set_node_zone,
}
use vgpu_scheduler.Cache.Calls.{Call, run}
use vgpu_scheduler.Cmd.Scheduler.Nodes.{
  Node, recharge, consumed_vram_on_node, node_is_ready, register_node, register_sized,
  reconcile_node, set_readiness,
}

update_at_node :
    (name : String) (f : NodeState → NodeState) (c : VramCache) (s : NodeState)
    → lookup name c.nodes ≡ some s
    → lookup name (update_at name f c).nodes ≡ some (f s)
unfolding update_at
update_at_node name f c s e = rw (update_at, e) (lookup-insert_self name (f s) c.nodes)

-- The end of the reconcile sets the health and the zone only.
pub set_readiness-keeps :
    (node : Node) (c : VramCache) (s : NodeState)
    → lookup node.name c.nodes ≡ some s
    → (t : NodeState) × (lookup node.name (set_readiness node c).nodes ≡ some t)
      × (t.total_vram ≡ s.total_vram)
      × (t.allocated ≡ s.allocated)
      × (t.reserved ≡ s.reserved)
      × (t.free ≡ s.free)
      × (t.healthy ≡ node_is_ready node)
unfolding set_node_health set_node_zone
set_readiness-keeps node c s e =
    let f : NodeState → NodeState = λ s. record s { healthy = node_is_ready node } in
    let kept = update_at_node node.name f c s e in
    elim (Bool-cases (str_eq node.zone "")) [
      | inl none_set ↦ (f s, rw none_set kept, refl, refl, refl, refl, refl)
      | inr zoned ↦ (
        record (f s) { zone = node.zone },
        rw (zoned, kept)
            (lookup-insert_self node.name (record (f s) { zone = node.zone })
              (update_at node.name f c).nodes),
        refl,
        refl,
        refl,
        refl,
        refl,
      )
    ]

pub update_new_node :
    (c : VramCache) (name : String) (total consumed : ℕ)
    → lookup name c.nodes ≡ none
    → (s : NodeState) × (lookup name (update_node c name total consumed).nodes ≡ some s)
      × (s.total_vram ≡ total)
      × (s.allocated ≡ consumed)
      × (s.reserved ≡ 0)
      × (s.free ≡ s.total_vram - s.allocated - s.reserved)
unfolding update_node set_capacity
update_new_node c name total consumed e = (
  set_capacity total consumed (node_or_new name none),
  ground (
    arith,
    e,
    lookup-insert_self name (set_capacity total consumed (node_or_new name none)) c.nodes,
  ),
  refl,
  ground arith,
  refl,
  refl,
)

pub update_known_node :
    (c : VramCache) (name : String) (total consumed : ℕ) (s : NodeState)
    → lookup name c.nodes ≡ some s
    → lookup name (update_node c name total consumed).nodes ≡ some (set_capacity total consumed s)
unfolding update_node
update_known_node c name total consumed s e =
    ground (arith, e, lookup-insert_self name (set_capacity total consumed s) c.nodes)

pub set_capacity_again :
    (total consumed : ℕ) (s : NodeState)
    → s.allocated ≡ consumed
    → s.reserved ≡ 0
    → let t = set_capacity total consumed s in
      (t.allocated ≡ consumed) × (t.free ≡ total - consumed)
unfolding set_capacity
set_capacity_again total consumed s e f = ground arith

pub unknown : (c : VramCache) (name : String) → lookup name c.nodes ≡ none → has_node c name ≡ false
unfolding has_node
unknown c name e = ground (arith, e)

pub known :
    (c : VramCache) (name : String) (s : NodeState)
    → lookup name c.nodes ≡ some s
    → has_node c name ≡ true
unfolding has_node
known c name s e = ground (arith, e)

-- The reconcile of a node with the resource.
pub reconcile-eq-register :
    (c : VramCache) (node : Node) (total : ℕ) (slices : Option (List VgpuSlice)) (calls : List Call)
    → node.capacity ≡ some total
    → reconcile_node node.name
        (record { node = found node; slices = slices; during_list = calls })
        c
      ≡ register_node
          (record { node = found node; slices = slices; during_list = calls })
          node
          total
          c
unfolding reconcile_node register_sized
reconcile-eq-register c node total slices calls sized =
    ap
      (λ o.
        register_sized (record { node = found node; slices = slices; during_list = calls }) node o
          c)
      sized

pub register_new :
    (c : VramCache) (node : Node) (total : ℕ) (slices : List VgpuSlice)
    → has_node c node.name ≡ false
    → register_node
        (record { node = found node; slices = some slices; during_list = [] })
        node
        total
        c
      ≡ (
        set_readiness node (
            recharge node.name slices (update_node c node.name total (consumed_vram_on_node node))),
        ok tt,
      )
unfolding register_node run
register_new c node total slices e = rw (register_node, e) refl

pub register_unlisted :
    (c : VramCache) (node : Node) (total : ℕ)
    → has_node c node.name ≡ false
    → register_node (record { node = found node; slices = none; during_list = [] }) node total c
      ≡ (update_node c node.name total (consumed_vram_on_node node), err tt)
unfolding register_node run
register_unlisted c node total e = rw (register_node, e) refl

pub register_known :
    (c : VramCache) (node : Node) (total : ℕ) (slices : List VgpuSlice)
    → has_node c node.name ≡ true
    → register_node
        (record { node = found node; slices = some slices; during_list = [] })
        node
        total
        c
      ≡ (set_readiness node (update_node c node.name total (consumed_vram_on_node node)), ok tt)
unfolding register_node run
register_known c node total slices e = rw (register_node, e) refl
