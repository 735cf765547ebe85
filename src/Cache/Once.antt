-- ===== src/Cache/Once.antt =====
-- cache.go: the calls that observe a slice's phase take effect once, however often it is observed.
use vgpu_scheduler.Prelude.{ℕ, ◌-◌, ◌≡◌, ap, ◌⊎◌, String, none, some, inl, inr, arith, Option-cases}
use vgpu_scheduler.Prelude.Dict.{Dict, lookup, insert, lookup-insert_self, lookup-delete_self}
use vgpu_scheduler.Cache.{
  NodeState, AssumedAllocation, VramCache, ready, released, failed, update_at, promote_hold,
  promote_confirmed_to_allocated_locked, promote_slice_to_allocated_once, mark_allocated,
  credit_allocated, release_allocated, drop_allocated, bytes_or_zero, release_slice_once,
  credit_reserved, rollback_assumed_slice, release_confirmed_slice, fail_slice_once, forget_slice,
  set_capacity, update_node, new_node,
}

-- A slice whose readiness was recorded is not promoted again, whatever node and bytes the later
-- observation reports.
pub promote_twice :
    (c : VramCache) (uid name name' : String) (actual actual' : ℕ)
    → let d = (promote_slice_to_allocated_once c uid name actual).0 in
      promote_slice_to_allocated_once d uid name' actual' ≡ (d, none)
unfolding promote_slice_to_allocated_once mark_allocated
promote_twice c uid name name' actual actual' =
    ground (arith, lookup-insert_self uid ready promoted.synced)
  where
    promoted : VramCache
    promoted = (promote_confirmed_to_allocated_locked c uid name actual).0

-- A promotion followed by the release of the slice on the same node gives the node back its
-- allocated bytes and leaves it without the reservation that the promotion consumed.
pub release-promote :
    (c : VramCache) (uid name : String) (actual : ℕ) (s : NodeState) (a : AssumedAllocation)
    → lookup uid c.synced ≡ none
    → lookup name c.nodes ≡ some s
    → lookup uid c.confirmed ≡ some a
    → let d = release_slice_once (promote_slice_to_allocated_once c uid name actual).0 uid name in
      (t : NodeState) × (lookup name d.nodes ≡ some t)
      × (t.allocated ≡ s.allocated)
      × (t.reserved ≡ s.reserved - a.bytes)
      × (lookup uid d.allocated_bytes ≡ none)
      × (lookup uid d.confirmed ≡ none)
unfolding promote_slice_to_allocated_once promote_confirmed_to_allocated_locked mark_allocated
    release_slice_once drop_allocated release_allocated update_at promote_hold credit_allocated
release-promote c uid name actual s a fresh m e = (
  credit_allocated actual promoted,
  ground (arith, facts, lookup-insert_self name (credit_allocated actual promoted) nodes),
  ground arith,
  ground arith,
  ground (arith, facts, lookup-delete_self uid (insert uid actual c.allocated_bytes)),
  ground (arith, facts, lookup-delete_self uid c.confirmed),
)
  where
    promoted : NodeState
    promoted = promote_hold a.bytes actual s

    nodes : Dict NodeState
    nodes = insert name promoted c.nodes

    facts :
        (lookup uid (insert uid ready c.synced) ≡ some ready)
        × (lookup uid (insert uid actual c.allocated_bytes) ≡ some actual)
        × (lookup name nodes ≡ some promoted)
    facts = (
      lookup-insert_self uid ready c.synced,
      lookup-insert_self uid actual c.allocated_bytes,
      lookup-insert_self name promoted c.nodes,
    )

update_at_synced :
    (name : String) (f : NodeState → NodeState) (c : VramCache)
    → ((update_at name f c).synced ≡ c.synced)
      × ((update_at name f c).allocated_bytes ≡ c.allocated_bytes)
      × ((update_at name f c).allocated_node ≡ c.allocated_node)
      × ((update_at name f c).assumed ≡ c.assumed)
      × ((update_at name f c).confirmed ≡ c.confirmed)
unfolding update_at
update_at_synced name f c = ground arith

-- A repeated release changes nothing, whatever node the later observation reports.
pub release_twice :
    (c : VramCache) (uid name name' : String)
    → release_slice_once (release_slice_once c uid name) uid name' ≡ release_slice_once c uid name
unfolding release_slice_once drop_allocated release_allocated
release_twice c uid name name' = ground (
  arith,
  lookup-insert_self uid released c.synced,
  update_at_synced name (credit_allocated (bytes_or_zero (lookup uid c.allocated_bytes))) dropped,
)
  where
    dropped : VramCache
    dropped = drop_allocated uid released c

release_confirmed_frame :
    (c : VramCache) (uid : String)
    → ((release_confirmed_slice c uid).synced ≡ c.synced)
      × ((release_confirmed_slice c uid).allocated_bytes ≡ c.allocated_bytes)
      × ((release_confirmed_slice c uid).allocated_node ≡ c.allocated_node)
      × ((release_confirmed_slice c uid).assumed ≡ c.assumed)
      × (lookup uid (release_confirmed_slice c uid).confirmed ≡ none)
unfolding release_confirmed_slice
release_confirmed_frame c uid = elim (Option-cases (lookup uid c.confirmed)) [
  | inl e ↦ ground arith
  | inr (a, e) ↦ ground (
    arith,
    update_at_synced a.node (credit_reserved a.bytes) c,
    lookup-delete_self uid c.confirmed,
  )
]

rollback_frame :
    (c : VramCache) (uid : String)
    → ((rollback_assumed_slice c uid).synced ≡ c.synced)
      × ((rollback_assumed_slice c uid).allocated_bytes ≡ c.allocated_bytes)
      × ((rollback_assumed_slice c uid).allocated_node ≡ c.allocated_node)
      × ((rollback_assumed_slice c uid).confirmed ≡ c.confirmed)
      × (lookup uid (rollback_assumed_slice c uid).assumed ≡ none)
unfolding rollback_assumed_slice
rollback_frame c uid = elim (Option-cases (lookup uid c.assumed)) [
  | inl e ↦ ground arith
  | inr (a, e) ↦
      ground (
        arith,
        update_at_synced a.node (credit_reserved a.bytes) c,
        lookup-delete_self uid c.assumed,
      )
]

-- A failure leaves an untracked or finished slice alone, and drops all that any other slice holds.
fail_cases :
    (c : VramCache) (uid name : String)
    → (fail_slice_once c uid name ≡ c)
      ⊎ ((lookup uid (fail_slice_once c uid name).synced ≡ some failed)
          × (lookup uid (fail_slice_once c uid name).confirmed ≡ none)
          × (lookup uid (fail_slice_once c uid name).allocated_bytes ≡ none)
          × (lookup uid (fail_slice_once c uid name).allocated_node ≡ none))
unfolding fail_slice_once drop_allocated release_allocated
fail_cases c uid name = ground (
  arith,
  lookup-insert_self uid failed c.synced,
  lookup-delete_self uid c.allocated_bytes,
  lookup-delete_self uid c.allocated_node,
  update_at_synced name (credit_allocated bytes) dropped,
  release_confirmed_frame dropped uid,
  release_confirmed_frame (update_at name (credit_allocated bytes) dropped) uid,
)
  where
    bytes : ℕ
    bytes = bytes_or_zero (lookup uid c.allocated_bytes)

    dropped : VramCache
    dropped = drop_allocated uid failed c

fail_finished :
    (c : VramCache) (uid name : String)
    → lookup uid c.synced ≡ some failed
    → fail_slice_once c uid name ≡ c
unfolding fail_slice_once
fail_finished c uid name e = ground arith

-- A repeated failure changes nothing.
pub fail_twice :
    (c : VramCache) (uid name : String)
    → fail_slice_once (fail_slice_once c uid name) uid name ≡ fail_slice_once c uid name
fail_twice c uid name = elim (fail_cases c uid name) [
  | inl e ↦ ap (λ d. fail_slice_once d uid name) e
  | inr (f, _, _, _) ↦ fail_finished (fail_slice_once c uid name) uid name f
]

pub release_once_frame :
    (c : VramCache) (uid name : String)
    → ((release_slice_once c uid name).assumed ≡ c.assumed)
      × ((release_slice_once c uid name).confirmed ≡ c.confirmed)
unfolding release_slice_once drop_allocated release_allocated
release_once_frame c uid name = ground (
  arith,
  update_at_synced name (credit_allocated (bytes_or_zero (lookup uid c.allocated_bytes)))
      (drop_allocated uid released c),
)

-- Forgetting a deleted slice leaves no assumed hold, no confirmed hold and no phase of it behind.
pub forget_clears :
    (c : VramCache) (uid name : String)
    → (lookup uid (forget_slice c uid name).assumed ≡ none)
      × (lookup uid (forget_slice c uid name).confirmed ≡ none)
      × (lookup uid (forget_slice c uid name).synced ≡ none)
unfolding forget_slice
forget_clears c uid name = ground (
  arith,
  rollback_frame c uid,
  release_confirmed_frame (rollback_assumed_slice c uid) uid,
  release_once_frame dropped uid name,
  lookup-delete_self uid dropped.synced,
  lookup-delete_self uid (release_slice_once dropped uid name).synced,
)
  where
    dropped : VramCache
    dropped = release_confirmed_slice (rollback_assumed_slice c uid) uid

-- A slice that is observed ready while its node is missing from the cache is never charged: when
-- the node registers, with nothing reported as consumed, and the slice is observed again, the cache
-- tracks the slice's bytes and the node still shows its whole capacity as free.
pub promote_missing_node_lost :
    (c : VramCache) (uid name : String) (actual capacity : ℕ)
    → lookup name c.nodes ≡ none
    → lookup uid c.synced ≡ none
    → let assigned = (promote_slice_to_allocated_once c uid name actual).0 in
      let registered = update_node assigned name capacity 0 in
      let again = (promote_slice_to_allocated_once registered uid name actual).0 in
      (s : NodeState) × (lookup name again.nodes ≡ some s)
      × (s.allocated ≡ 0)
      × (s.free ≡ capacity)
      × (lookup uid again.allocated_bytes ≡ some actual)
unfolding promote_slice_to_allocated_once promote_confirmed_to_allocated_locked mark_allocated
    update_node set_capacity
promote_missing_node_lost c uid name actual capacity m fresh = (
  registered,
  ground (arith, lookup-insert_self uid ready c.synced, lookup-insert_self name registered c.nodes),
  ground arith,
  ground arith,
  ground (
    arith,
    lookup-insert_self uid ready c.synced,
    lookup-insert_self uid actual c.allocated_bytes,
  ),
)
  where
    registered : NodeState
    registered = set_capacity capacity 0 (new_node name)
