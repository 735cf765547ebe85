-- ===== src/Cache/Nodes.antt =====
-- cache.go: the reservation ledger while nodes come, change and go.
use vgpu_scheduler.Prelude.{
  ℕ, ◌≡◌, ◌≢◌, refl, String, Bool, true, false, not, inl, inr, arith, str_eq, str_eq_iff,
  Option-cases,
}
use vgpu_scheduler.Prelude.Dict.{
  Dict, lookup, insert, retain, lookup-delete, retain-Unique, lookup-retain, total-retain,
  total-retain_zero,
}
use vgpu_scheduler.Cache.Holds.{weigh, held, held_on, Reserves-insert, Reserves-update_at}
use vgpu_scheduler.Cache.Ledger.{IsLedger, IsLedger-same, update_at_frame}
use vgpu_scheduler.Cache.Accounts.{NewIsEmpty}
use vgpu_scheduler.Cache.{
  NodeState, AssumedAllocation, VramCache, node_or_new, set_capacity, update_node, remove_node,
  set_node_health, set_node_zone, has_node,
}

node_or_new-reserved :
    (c : VramCache) (name : String)
    → IsLedger c
    → NewIsEmpty c name
    → (node_or_new name (lookup name c.nodes)).reserved ≡ held_on c name
node_or_new-reserved c name l empty = elim (Option-cases (lookup name c.nodes)) [
  | inl e ↦ ground (arith, e, empty e)
  | inr (s, e) ↦ ground (arith, e, l.reserves.exact name s e)
]

-- An entry written for a node that keeps what the node had reserved.
entry-IsLedger :
    (c : VramCache) (name : String) (s : NodeState)
    → IsLedger c
    → NewIsEmpty c name
    → s.reserved ≡ (node_or_new name (lookup name c.nodes)).reserved
    → IsLedger (record c { nodes = insert name s c.nodes })
entry-IsLedger c name s l empty same = IsLedger-same c _ l refl refl (
    Reserves-insert c.nodes (held_on c) (held_on c) name s l.reserves
      (ground (arith, same, node_or_new-reserved c name l empty)) (λ n _. refl))

pub update_node-IsLedger :
    (c : VramCache) (name : String) (total reported : ℕ)
    → IsLedger c
    → NewIsEmpty c name
    → IsLedger (update_node c name total reported)
unfolding update_node set_capacity
update_node-IsLedger c name total reported l empty =
    entry-IsLedger c name (set_capacity total reported (node_or_new name (lookup name c.nodes))) l
      empty refl

pub set_zone-IsLedger :
    (c : VramCache) (name zone : String)
    → IsLedger c
    → NewIsEmpty c name
    → IsLedger (set_node_zone c name zone)
unfolding set_node_zone
set_zone-IsLedger c name zone l empty =
    entry-IsLedger c name (record (node_or_new name (lookup name c.nodes)) { zone = zone }) l empty
      refl

pub set_health-IsLedger :
    (c : VramCache) (name : String) (healthy : Bool)
    → IsLedger c
    → IsLedger (set_node_health c name healthy)
unfolding set_node_health
set_health-IsLedger c name healthy l =
    let f : NodeState → NodeState = λ s. record s { healthy = healthy } in
    let (a, g) = update_at_frame name f c in
    IsLedger-same c _ l a g (Reserves-update_at c (held_on c) name f l.reserves (λ s. refl))

-- The deletion of the holds on one node keeps what the holds take of another.
held-retain :
    (n name : String) (m : Dict AssumedAllocation)
    → str_eq name n ≡ false
    → held n (retain (λ a. not (str_eq a.node name)) m) ≡ held n m
held-retain n name m other = total-retain (weigh n) _ m (λ a gone.
    ground (arith, gone, other, str_eq_iff a.node name, str_eq_iff a.node n, str_eq_iff name n))

-- It leaves no hold on the node itself.
held-retain_self :
    (name : String) (m : Dict AssumedAllocation)
    → held name (retain (λ a. not (str_eq a.node name)) m) ≡ 0
held-retain_self name m = total-retain_zero (weigh name) _ m (λ a kept. ground (arith, kept))

pub remove_node-IsLedger :
    (c : VramCache) (name : String) → IsLedger c → IsLedger (remove_node c name)
unfolding remove_node
remove_node-IsLedger c name l = elim (Option-cases (lookup name c.nodes)) [
  | inl e ↦ rw (e, remove_node) l
  | inr (s, e) ↦
      rw (e, remove_node)
        (record {
          unique_assumed = retain-Unique _ c.assumed l.unique_assumed;
          unique_confirmed = retain-Unique _ c.confirmed l.unique_confirmed;
          apart = λ u. ground (
            arith,
            l.apart u,
            lookup-retain (off name) u c.assumed l.unique_assumed,
            lookup-retain (off name) u c.confirmed l.unique_confirmed,
          );
          reserves = record {
            exact = λ n t k. ground (
              arith,
              k,
              lookup-delete name n c.nodes,
              str_eq_iff name n,
              l.reserves.exact n t,
              held-retain n name c.assumed,
              held-retain n name c.confirmed,
            );
          };
        })
]
  where
    off : String → AssumedAllocation → Bool
    off name a = not (str_eq a.node name)

-- A removed node is no candidate any more and no hold is left on it, so that a node that registers
-- again under its name starts with nothing reserved; the entries of the other nodes stay.
pub remove_node_clears :
    (c : VramCache) (name : String)
    → has_node c name ≡ true
    → (has_node (remove_node c name) name ≡ false)
      × (held_on (remove_node c name) name ≡ 0)
      × ((n : String) → n ≢ name → lookup n (remove_node c name).nodes ≡ lookup n c.nodes)
unfolding remove_node has_node
remove_node_clears c name known = elim (Option-cases (lookup name c.nodes)) [
  | inl e ↦ absurd (ground arith)
  | inr (s, e) ↦
      rw (e, remove_node)
        (
          ground (arith, lookup-delete name name c.nodes, str_eq_iff name name),
          ground (arith, held-retain_self name c.assumed, held-retain_self name c.confirmed),
          λ n ne. ground (arith, lookup-delete name n c.nodes, str_eq_iff name n),
        )
]
