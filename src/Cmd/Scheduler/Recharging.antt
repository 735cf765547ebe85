-- ===== src/Cmd/Scheduler/Recharging.antt =====
-- cmd/scheduler/main.go: what the walk over the Ready slices charges when a node comes back.
use vgpu_scheduler.Prelude.{ℕ, ◌+◌, ◌-◌, ◌≡◌, ap, ◌∙◌, none, some, List, [], All, sum_by, arith}
use vgpu_scheduler.Prelude.Dict.{lookup}
use vgpu_scheduler.Api.{VgpuSlice, found}
use vgpu_scheduler.Cache.{NodeState, VramCache, update_node}
use vgpu_scheduler.Cmd.Scheduler.Nodes.{
  Node, recharge, consumed_vram_on_node, node_is_ready, reconcile_node,
}
use vgpu_scheduler.Cmd.Scheduler.Charges.{IsFresh, Distinct, charge_on, recharge_exact}
use vgpu_scheduler.Cmd.Scheduler.Registrations.{
  set_readiness-keeps, update_new_node, unknown, reconcile-eq-register, register_new,
}

-- A node that registers while no other goroutine calls the cache is charged exactly what it reports as
-- consumed and the bytes of every Ready slice on it, for slices with different UIDs of which the
-- cache has no record, and what is left of its capacity is free.
pub registration_charges :
    (c : VramCache) (node : Node) (total : ℕ) (slices : List VgpuSlice)
    → lookup node.name c.nodes ≡ none
    → node.capacity ≡ some total
    → All (IsFresh c) slices
    → Distinct slices
    → let charged = consumed_vram_on_node node + sum_by (charge_on node.name) slices in
      let (d, _) =
        reconcile_node node.name
          (record { node = found node; slices = some slices; during_list = [] })
          c in
      (t : NodeState) × (lookup node.name d.nodes ≡ some t)
      × (t.allocated ≡ charged)
      × (t.free ≡ total - charged)
      × (t.healthy ≡ node_is_ready node)
registration_charges c node total slices fresh_node sized fresh apart =
    let consumed = consumed_vram_on_node node in
    let d = update_node c node.name total consumed in
    let (s, there, of_total, of_consumed, unreserved, balanced) =
      update_new_node c node.name total consumed fresh_node in
    let (u, walked, charged) =
      recharge_exact node.name slices d s there balanced (unfold update_node in fresh) apart in
    let (t, found_t, same_total, same, same_reserved, same_free, health) =
      set_readiness-keeps node (recharge node.name slices d) u walked in
    let done =
      reconcile-eq-register c node total (some slices) [] sized
      ∙ register_new c node total slices (unknown c node.name fresh_node) in
    (
      t,
      ap (λ p. lookup node.name p.0.nodes) done ∙ found_t,
      omega (arith, charged.allocated),
      omega (arith, charged.allocated, charged.total_vram, charged.reserved, charged.free),
      health,
    )
