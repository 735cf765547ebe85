-- ===== src/Cache/Calls.antt =====
-- cache.go: the methods as calls, each of which is one or more critical sections of the cache's lock,
-- and a history of them in the order in which they take the lock.
use vgpu_scheduler.Prelude.{ℕ, String, Bool, List, [], ◌∷◌, Result, ok, err}
use vgpu_scheduler.Cache.{
  VramCache, AssumeError, assume_slice, confirm_slice_or_rearm, promote_slice_to_allocated_once,
  release_slice_once, fail_slice_once, forget_slice, rollback_assumed_slice,
  release_confirmed_slice, release_allocated, reap_expired_assumptions, update_node,
  update_node_capacity, remove_node, set_node_health, set_node_zone, pin_assumption, mark_seeded,
  promote_confirmed_to_allocated_locked,
}

pub data Call : Type 0 where
  assumes confirms : (uid ns name : String) (bytes now ttl : ℕ) → Call
  promotes promotes_unguarded : (uid name : String) (actual : ℕ) → Call
  releases fails forgets : (uid name : String) → Call
  rolls_back releases_confirmed : (uid : String) → Call
  frees : (name : String) (bytes : ℕ) → Call
  reaps : (now : ℕ) → Call
  updates_node : (name : String) (total reported : ℕ) → Call
  updates_capacity : (name : String) (gib : ℕ) → Call
  removes_node : (name : String) → Call
  sets_health : (name : String) (healthy : Bool) → Call
  sets_zone : (name zone : String) → Call
  pins : (uid : String) (now ttl : ℕ) → Call
  seeds : Call

-- A call that fails leaves the cache as it was.
abbrev pub after : VramCache → Result AssumeError VramCache → VramCache
after c (ok d) = d
after c (err e) = c

unfoldable pub step : VramCache → Call → VramCache
step c (assumes uid ns name bytes now ttl) = after c (assume_slice c uid ns name bytes now ttl)
step c (confirms uid ns name bytes now ttl) = (confirm_slice_or_rearm c uid ns name bytes now).0
step c (promotes uid name actual) = (promote_slice_to_allocated_once c uid name actual).0
step c (promotes_unguarded uid name actual) =
    (promote_confirmed_to_allocated_locked c uid name actual).0
step c (releases uid name) = release_slice_once c uid name
step c (fails uid name) = fail_slice_once c uid name
step c (forgets uid name) = forget_slice c uid name
step c (rolls_back uid) = rollback_assumed_slice c uid
step c (releases_confirmed uid) = release_confirmed_slice c uid
step c (frees name bytes) = release_allocated c name bytes
step c (reaps now) = reap_expired_assumptions now c
step c (updates_node name total reported) = update_node c name total reported
step c (updates_capacity name gib) = update_node_capacity c name gib
step c (removes_node name) = remove_node c name
step c (sets_health name healthy) = set_node_health c name healthy
step c (sets_zone name zone) = set_node_zone c name zone
step c (pins uid now ttl) = (pin_assumption c uid now ttl).0
step c seeds = mark_seeded c

unfoldable pub run : VramCache → List Call → VramCache
unfolding step
run c [] = c
run c (call ∷ rest) = run (step c call) rest
