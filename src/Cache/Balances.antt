-- ===== src/Cache/Balances.antt =====
-- internal/scheduler/cache.go: the methods on holds keep the free bytes of each node what is left.
use vgpu_scheduler.Prelude.{ℕ, ◌-◌, ◌≡◌, refl, String, [], ◌∷◌, inl, inr, arith, Option-cases}
use vgpu_scheduler.Prelude.Dict.{Dict, lookup, insert, AllVals, lookup-AllVals, insert-AllVals}
use vgpu_scheduler.Cache.Calls.{after}
use vgpu_scheduler.Cache.{
  NodeState, AssumedAllocation, VramCache, update_at, charge_reserved, credit_reserved,
  credit_allocated, assume_slice, confirm_slice_or_rearm, charge_allocated, promote_hold,
  promote_confirmed_to_allocated_locked, promote_slice_to_allocated_once, mark_allocated,
  release_allocated, drop_allocated, release_slice_once, rollback_assumed_slice,
  release_confirmed_slice, fail_slice_once, forget_slice, reap_one, reap_loop, released, failed,
  bytes_or_zero,
}

abbrev pub IsBalanced : NodeState → Type 0
IsBalanced s = s.free ≡ s.total_vram - s.allocated - s.reserved

abbrev pub IsConsistent : VramCache → Type 0
IsConsistent c = AllVals IsBalanced c.nodes

pub insert_node :
    (c : VramCache) (name : String) (s : NodeState)
    → IsBalanced s
    → IsConsistent c
    → AllVals IsBalanced (insert name s c.nodes)
insert_node c name s b h = insert-AllVals IsBalanced name s c.nodes b h

pub update_at-IsConsistent :
    (name : String) (f : NodeState → NodeState) (c : VramCache)
    → ((s : NodeState) → IsBalanced s → IsBalanced (f s))
    → IsConsistent c
    → IsConsistent (update_at name f c)
unfolding update_at
update_at-IsConsistent name f c keeps h = elim (Option-cases (lookup name c.nodes)) [
  | inl e ↦ rw (e, update_at) h
  | inr (s, e) ↦
      rw (e, update_at)
        (insert_node c name (f s) (keeps s (lookup-AllVals IsBalanced name c.nodes h e)) h)
]

credit-IsConsistent :
    (name : String) (bytes : ℕ) (c : VramCache)
    → IsConsistent c
    → IsConsistent (update_at name (credit_reserved bytes) c)
credit-IsConsistent name bytes c h =
    update_at-IsConsistent name (credit_reserved bytes) c (λ s _. unfold credit_reserved in refl) h

pub assume-IsConsistent :
    (c : VramCache) (uid ns name : String) (bytes now ttl : ℕ)
    → IsConsistent c
    → IsConsistent (after c (assume_slice c uid ns name bytes now ttl))
unfolding assume_slice
assume-IsConsistent c uid ns name bytes now ttl h = elim (Option-cases (lookup name c.nodes)) [
  | inl e ↦ ground (arith, h)
  | inr (s, e) ↦ ground (arith, h, insert_node c name (charge_reserved bytes s) refl h)
]

pub confirm-IsConsistent :
    (c : VramCache) (uid ns name : String) (bytes now : ℕ)
    → IsConsistent c
    → IsConsistent (confirm_slice_or_rearm c uid ns name bytes now).0
unfolding confirm_slice_or_rearm
confirm-IsConsistent c uid ns name bytes now h = elim (Option-cases (lookup uid c.assumed)) [
  | inl e ↦
      rw (e, confirm_slice_or_rearm)
        (update_at-IsConsistent name (charge_reserved bytes) _
          (λ s _. unfold charge_reserved in refl) h)
  | inr (a, e) ↦ rw (e, confirm_slice_or_rearm) h
]

pub promote_locked-IsConsistent :
    (c : VramCache) (uid name : String) (actual : ℕ)
    → IsConsistent c
    → IsConsistent (promote_confirmed_to_allocated_locked c uid name actual).0
unfolding promote_confirmed_to_allocated_locked
promote_locked-IsConsistent c uid name actual h = elim (Option-cases (lookup name c.nodes)) [
  | inl e ↦ ground (arith, h)
  | inr (s, e) ↦ elim (Option-cases (lookup uid c.confirmed)) [
    | inl e' ↦ ground (arith, h, insert_node c name (charge_allocated actual s) refl h)
    | inr (a, e') ↦ ground (arith, h, insert_node c name (promote_hold a.bytes actual s) refl h)
  ]
]

pub promote-IsConsistent :
    (c : VramCache) (uid name : String) (actual : ℕ)
    → IsConsistent c
    → IsConsistent (promote_slice_to_allocated_once c uid name actual).0
unfolding promote_slice_to_allocated_once mark_allocated
promote-IsConsistent c uid name actual h =
    ground (arith, h, promote_locked-IsConsistent c uid name actual h)

pub release_allocated-IsConsistent :
    (c : VramCache) (name : String) (bytes : ℕ)
    → IsConsistent c
    → IsConsistent (release_allocated c name bytes)
unfolding release_allocated
release_allocated-IsConsistent c name bytes h =
    update_at-IsConsistent name (credit_allocated bytes) c (λ s _. unfold credit_allocated in refl)
      h

pub release_once-IsConsistent :
    (c : VramCache) (uid name : String)
    → IsConsistent c
    → IsConsistent (release_slice_once c uid name)
unfolding release_slice_once
release_once-IsConsistent c uid name h = ground (
  arith,
  h,
  release_allocated-IsConsistent (drop_allocated uid released c) name
      (bytes_or_zero (lookup uid c.allocated_bytes)) h,
)

pub rollback-IsConsistent :
    (c : VramCache) (uid : String) → IsConsistent c → IsConsistent (rollback_assumed_slice c uid)
unfolding rollback_assumed_slice
rollback-IsConsistent c uid h = elim (Option-cases (lookup uid c.assumed)) [
  | inl e ↦ rw (e, rollback_assumed_slice) h
  | inr (a, e) ↦ rw (e, rollback_assumed_slice) (credit-IsConsistent a.node a.bytes c h)
]

pub release_confirmed-IsConsistent :
    (c : VramCache) (uid : String) → IsConsistent c → IsConsistent (release_confirmed_slice c uid)
unfolding release_confirmed_slice
release_confirmed-IsConsistent c uid h = elim (Option-cases (lookup uid c.confirmed)) [
  | inl e ↦ rw (e, release_confirmed_slice) h
  | inr (a, e) ↦ rw (e, release_confirmed_slice) (credit-IsConsistent a.node a.bytes c h)
]

pub fail-IsConsistent :
    (c : VramCache) (uid name : String) → IsConsistent c → IsConsistent (fail_slice_once c uid name)
unfolding fail_slice_once drop_allocated
fail-IsConsistent c uid name h = ground (
  arith,
  h,
  release_confirmed-IsConsistent dropped uid h,
  release_confirmed-IsConsistent (release_allocated dropped name bytes) uid
      (release_allocated-IsConsistent dropped name bytes h),
)
  where
    dropped : VramCache
    dropped = drop_allocated uid failed c

    bytes : ℕ
    bytes = bytes_or_zero (lookup uid c.allocated_bytes)

pub forget-IsConsistent :
    (c : VramCache) (uid name : String) → IsConsistent c → IsConsistent (forget_slice c uid name)
unfolding forget_slice
forget-IsConsistent c uid name h =
    ground (arith, held, release_once-IsConsistent dropped uid name held)
  where
    dropped : VramCache
    dropped = release_confirmed_slice (rollback_assumed_slice c uid) uid

    held : IsConsistent dropped
    held = release_confirmed-IsConsistent _ uid (rollback-IsConsistent c uid h)

reap_one-IsConsistent :
    (now : ℕ) (uid : String) (a : AssumedAllocation) (c : VramCache)
    → IsConsistent c
    → IsConsistent (reap_one now uid a c)
unfolding reap_one
reap_one-IsConsistent now uid a c h = ground (arith, h, credit-IsConsistent a.node a.bytes c h)

pub reap_loop-IsConsistent :
    (now : ℕ) (entries : Dict AssumedAllocation) (c : VramCache)
    → IsConsistent c
    → IsConsistent (reap_loop now entries c)
unfolding reap_loop
reap_loop-IsConsistent now [] c h = h
reap_loop-IsConsistent now ((uid, a) ∷ rest) c h =
    reap_loop-IsConsistent now rest _ (reap_one-IsConsistent now uid a c h)
