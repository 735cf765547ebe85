-- ===== src/Cache/Admission.antt =====
-- cache.go: `CanFit`, `AssumeSlice` and the rollback of a hold.
use vgpu_scheduler.Prelude.{
  ℕ, ◌+◌, ◌≤◌, ◌<◌, ◌≡◌, ◌≢◌, ◌↔◌, refl, String, true, false, none, some, inl, inr, ok, err, arith,
  str_eq_iff, Option-cases,
}
use vgpu_scheduler.Prelude.Dict.{
  lookup, insert, lookup-insert, lookup-insert_self, lookup-delete, lookup-AllVals,
}
use vgpu_scheduler.Cache.Balances.{IsBalanced, IsConsistent}
use vgpu_scheduler.Cache.{
  NodeState, AssumedAllocation, VramCache, node_not_found, node_unhealthy, insufficient_vram,
  can_fit, assume_slice, charge_reserved, credit_reserved, update_at, rollback_assumed_slice,
}

-- `CanFit` rejects a node as missing exactly when the cache has no entry for it, as unhealthy
-- exactly when it has one that is marked offline, as short exactly when it has a healthy one with
-- less free VRAM than the request, and accepts it exactly when none of these holds.
pub can_fit-verdict :
    (c : VramCache) (name : String) (bytes : ℕ)
    → ((can_fit c name bytes ≡ err node_not_found) ↔ (lookup name c.nodes ≡ none))
      × ((can_fit c name bytes ≡ err node_unhealthy)
          ↔ ((s : NodeState) × (lookup name c.nodes ≡ some s) × (s.healthy ≡ false)))
      × ((can_fit c name bytes ≡ err insufficient_vram) ↔ (
          (s : NodeState) × (lookup name c.nodes ≡ some s) × (s.healthy ≡ true) × (s.free < bytes)))
      × ((can_fit c name bytes ≡ ok tt) ↔ (
          (s : NodeState) × (lookup name c.nodes ≡ some s) × (s.healthy ≡ true) × (bytes ≤ s.free)))
unfolding can_fit
can_fit-verdict c name bytes = elim (Option-cases (lookup name c.nodes)) [
  | inl e ↦ ground arith
  | inr (s, e) ↦ ground arith
]

abbrev pub hold_of : String → String → String → ℕ → ℕ → ℕ → AssumedAllocation
hold_of uid ns name bytes now ttl = record {
  slice_uid = uid;
  namespace = ns;
  node = name;
  bytes = bytes;
  expires_at = now + ttl;
}

-- What a successful `assume_slice` found and made.
pub assume-eq-ok :
    (c d : VramCache) (uid ns name : String) (bytes now ttl : ℕ)
    → assume_slice c uid ns name bytes now ttl ≡ ok d
    → (s : NodeState) × (lookup name c.nodes ≡ some s)
      × (s.healthy ≡ true)
      × (bytes ≤ s.free)
      × (lookup uid c.assumed ≡ none)
      × (lookup uid c.confirmed ≡ none)
      × (d ≡ record c {
        assumed = insert uid (hold_of uid ns name bytes now ttl) c.assumed;
        nodes = insert name (charge_reserved bytes s) c.nodes;
      })
unfolding assume_slice
assume-eq-ok c d uid ns name bytes now ttl e = elim (Option-cases (lookup name c.nodes)) [
  | inl m ↦ absurd (ground arith)
  | inr (s, m) ↦ (s, m, ground arith, ground arith, ground arith, ground arith, ground arith)
]

-- A successful `AssumeSlice` of a positive request on a consistent cache finds a healthy node,
-- adds the request to what the node has reserved, changes nothing else of its capacity, and leaves
-- allocated and reserved bytes together within the node's total.
pub assume_no_overcommit :
    (c d : VramCache) (uid ns name : String) (bytes now ttl : ℕ)
    → IsConsistent c
    → 0 < bytes
    → assume_slice c uid ns name bytes now ttl ≡ ok d
    → (s t : NodeState) × (lookup name c.nodes ≡ some s)
      × (lookup name d.nodes ≡ some t)
      × (s.healthy ≡ true)
      × (t.reserved ≡ s.reserved + bytes)
      × (t.allocated ≡ s.allocated)
      × (t.total_vram ≡ s.total_vram)
      × (t.allocated + t.reserved ≤ t.total_vram)
unfolding assume_slice charge_reserved
assume_no_overcommit c d uid ns name bytes now ttl h pos e =
    elim (Option-cases (lookup name c.nodes)) [
      | inl m ↦ absurd (ground arith)
      | inr (s, m) ↦
          let b : IsBalanced s = lookup-AllVals IsBalanced name c.nodes h m in
          let w = lookup-insert_self name (charge_reserved bytes s) c.nodes in
          (
            s,
            charge_reserved bytes s,
            m,
            ground (arith, w),
            ground arith,
            refl,
            refl,
            refl,
            ground arith,
          )
    ]

-- It leaves every other node, every other slice's hold, and every confirmed or allocated slice as
-- it was, and records the slice's own hold with its namespace, node, bytes and expiry.
pub assume_frame :
    (c d : VramCache) (uid ns name : String) (bytes now ttl : ℕ)
    → assume_slice c uid ns name bytes now ttl ≡ ok d
    → ((n : String) → n ≢ name → lookup n d.nodes ≡ lookup n c.nodes)
      × ((u : String) → u ≢ uid → lookup u d.assumed ≡ lookup u c.assumed)
      × (lookup uid d.assumed
          ≡ some (record {
            slice_uid = uid;
            namespace = ns;
            node = name;
            bytes = bytes;
            expires_at = now + ttl;
          }))
      × (d.confirmed ≡ c.confirmed)
      × (d.synced ≡ c.synced)
      × (d.allocated_bytes ≡ c.allocated_bytes)
      × (d.allocated_node ≡ c.allocated_node)
unfolding assume_slice
assume_frame c d uid ns name bytes now ttl e = elim (Option-cases (lookup name c.nodes)) [
  | inl m ↦ absurd (ground arith)
  | inr (s, m) ↦ (
    λ n ne.
        ground (arith, lookup-insert name n (charge_reserved bytes s) c.nodes, str_eq_iff name n),
    λ u ne. ground (arith, lookup-insert uid u hold c.assumed, str_eq_iff uid u),
    ground (arith, lookup-insert_self uid hold c.assumed),
    ground arith,
    ground arith,
    ground arith,
    ground arith,
  )
]
  where
    hold : AssumedAllocation
    hold = record {
      slice_uid = uid;
      namespace = ns;
      node = name;
      bytes = bytes;
      expires_at = now + ttl;
    }

-- A node that `CanFit` accepts is one on which `AssumeSlice` succeeds, when nothing intervenes and
-- the slice has no hold yet.
pub can_fit-assume :
    (c : VramCache) (uid ns name : String) (bytes now ttl : ℕ)
    → lookup uid c.assumed ≡ none
    → lookup uid c.confirmed ≡ none
    → can_fit c name bytes ≡ ok tt
    → (d : VramCache) × (assume_slice c uid ns name bytes now ttl ≡ ok d)
unfolding can_fit assume_slice
can_fit-assume c uid ns name bytes now ttl a f e = elim (Option-cases (lookup name c.nodes)) [
  | inl m ↦ absurd (ground arith)
  | inr (s, m) ↦ (
    record c {
      assumed =
          insert uid
            (record {
              slice_uid = uid;
              namespace = ns;
              node = name;
              bytes = bytes;
              expires_at = now + ttl;
            })
            c.assumed;
      nodes = insert name (charge_reserved bytes s) c.nodes;
    },
    ground arith,
  )
]

rollback_of_hold :
    (c : VramCache) (s : NodeState) (uid ns name : String) (bytes now ttl : ℕ)
    → IsBalanced s
    → lookup name c.nodes ≡ some s
    → lookup uid c.assumed ≡ none
    → let d : VramCache = record c {
      assumed = insert uid (hold_of uid ns name bytes now ttl) c.assumed;
      nodes = insert name (charge_reserved bytes s) c.nodes;
    } in
      ((n : String) → lookup n (rollback_assumed_slice d uid).nodes ≡ lookup n c.nodes)
      × ((u : String) → lookup u (rollback_assumed_slice d uid).assumed ≡ lookup u c.assumed)
unfolding rollback_assumed_slice update_at charge_reserved credit_reserved
rollback_of_hold c s uid ns name bytes now ttl b m a = (
  λ n. ground (
    arith,
    lookup-insert_self uid hold c.assumed,
    lookup-insert_self name charged c.nodes,
    lookup-insert name n (credit_reserved bytes charged) (insert name charged c.nodes),
    lookup-insert name n charged c.nodes,
    str_eq_iff name n,
  ),
  λ u. ground (
    arith,
    lookup-insert_self uid hold c.assumed,
    lookup-insert_self name charged c.nodes,
    lookup-delete uid u (insert uid hold c.assumed),
    lookup-insert uid u hold c.assumed,
    str_eq_iff uid u,
  ),
)
  where
    hold : AssumedAllocation
    hold = hold_of uid ns name bytes now ttl

    charged : NodeState
    charged = charge_reserved bytes s

-- Rolling a fresh hold back restores every node's account and every slice's hold of a consistent
-- cache, and leaves the slice with none.
pub rollback-assume :
    (c d : VramCache) (uid ns name : String) (bytes now ttl : ℕ)
    → IsConsistent c
    → assume_slice c uid ns name bytes now ttl ≡ ok d
    → ((n : String) → lookup n (rollback_assumed_slice d uid).nodes ≡ lookup n c.nodes)
      × ((u : String) → lookup u (rollback_assumed_slice d uid).assumed ≡ lookup u c.assumed)
rollback-assume c d uid ns name bytes now ttl h e =
    let (s, m, _, _, a, _, made) = assume-eq-ok c d uid ns name bytes now ttl e in
    let b : IsBalanced s = lookup-AllVals IsBalanced name c.nodes h m in
    rw made (rollback_of_hold c s uid ns name bytes now ttl b m a)
