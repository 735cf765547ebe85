-- ===== src/Cache/Consistency.antt =====
-- cache.go: `FreeVRAMBytes` is what the other three counters leave, whatever is called in whatever order.
use vgpu_scheduler.Prelude.{ℕ, ◌*◌, refl, String, List, [], ◌∷◌, inl, inr, arith, Option-cases}
use vgpu_scheduler.Prelude.Dict.{lookup, lookup-AllVals, delete-AllVals}
use vgpu_scheduler.Cache.Calls.{
  Call, assumes, confirms, promotes, promotes_unguarded, releases, fails, forgets, rolls_back,
  releases_confirmed, frees, reaps, updates_node, updates_capacity, removes_node, sets_health,
  sets_zone, pins, seeds, step, run,
}
use vgpu_scheduler.Cache.{
  VramCache, new_vram_cache, mark_seeded, reap_expired_assumptions, node_or_new, update_node,
  update_node_capacity, remove_node, set_node_health, set_node_zone, pin_assumption,
}
use vgpu_scheduler.Cache.Balances.{
  IsBalanced, IsConsistent, insert_node, update_at-IsConsistent, assume-IsConsistent,
  confirm-IsConsistent, promote_locked-IsConsistent, promote-IsConsistent,
  release_allocated-IsConsistent, release_once-IsConsistent, rollback-IsConsistent,
  release_confirmed-IsConsistent, fail-IsConsistent, forget-IsConsistent, reap_loop-IsConsistent,
}

node_or_new-IsBalanced :
    (c : VramCache) (name : String)
    → IsConsistent c
    → IsBalanced (node_or_new name (lookup name c.nodes))
node_or_new-IsBalanced c name h = elim (Option-cases (lookup name c.nodes)) [
  | inl e ↦ rw e (omega arith)
  | inr (s, e) ↦ rw e (lookup-AllVals IsBalanced name c.nodes h e)
]

remove-IsConsistent :
    (c : VramCache) (name : String) → IsConsistent c → IsConsistent (remove_node c name)
unfolding remove_node
remove-IsConsistent c name h = elim (Option-cases (lookup name c.nodes)) [
  | inl e ↦ rw (e, remove_node) h
  | inr (s, e) ↦ rw (e, remove_node) (delete-AllVals IsBalanced name c.nodes h)
]

pin-IsConsistent :
    (c : VramCache) (uid : String) (now ttl : ℕ)
    → IsConsistent c
    → IsConsistent (pin_assumption c uid now ttl).0
unfolding pin_assumption
pin-IsConsistent c uid now ttl h = ground (arith, h)

update_node-IsConsistent :
    (c : VramCache) (name : String) (total reported : ℕ)
    → IsConsistent c
    → IsConsistent (update_node c name total reported)
unfolding update_node
update_node-IsConsistent c name total reported h = insert_node c name _ refl h

-- Every call keeps the free count of every node equal to its total less what is allocated and
-- reserved, floored at 0.
pub step-IsConsistent : (c : VramCache) (call : Call) → IsConsistent c → IsConsistent (step c call)
unfolding step
step-IsConsistent c (assumes uid ns name bytes now ttl) h =
    assume-IsConsistent c uid ns name bytes now ttl h
step-IsConsistent c (confirms uid ns name bytes now ttl) h =
    confirm-IsConsistent c uid ns name bytes now h
step-IsConsistent c (promotes uid name actual) h = promote-IsConsistent c uid name actual h
step-IsConsistent c (promotes_unguarded uid name actual) h =
    promote_locked-IsConsistent c uid name actual h
step-IsConsistent c (releases uid name) h = release_once-IsConsistent c uid name h
step-IsConsistent c (fails uid name) h = fail-IsConsistent c uid name h
step-IsConsistent c (forgets uid name) h = forget-IsConsistent c uid name h
step-IsConsistent c (rolls_back uid) h = rollback-IsConsistent c uid h
step-IsConsistent c (releases_confirmed uid) h = release_confirmed-IsConsistent c uid h
step-IsConsistent c (frees name bytes) h = release_allocated-IsConsistent c name bytes h
step-IsConsistent c (reaps now) h =
    unfold reap_expired_assumptions in reap_loop-IsConsistent now c.assumed c h
step-IsConsistent c (updates_node name total reported) h =
    update_node-IsConsistent c name total reported h
step-IsConsistent c (updates_capacity name gib) h =
    unfold update_node_capacity in update_node-IsConsistent c name (gib * 1024 * 1024 * 1024) 0 h
step-IsConsistent c (removes_node name) h = remove-IsConsistent c name h
step-IsConsistent c (sets_health name healthy) h =
    unfold set_node_health in
    update_at-IsConsistent name (λ s. record s { healthy = healthy }) c (λ s b. b) h
step-IsConsistent c (sets_zone name zone) h =
    unfold set_node_zone in
    insert_node c name (record (node_or_new name (lookup name c.nodes)) { zone = zone })
      (node_or_new-IsBalanced c name h) h
step-IsConsistent c (pins uid now ttl) h = pin-IsConsistent c uid now ttl h
step-IsConsistent c seeds h = unfold mark_seeded in h

pub run-IsConsistent :
    (c : VramCache) (calls : List Call) → IsConsistent c → IsConsistent (run c calls)
unfolding run
run-IsConsistent c [] h = h
run-IsConsistent c (call ∷ rest) h =
    run-IsConsistent (step c call) rest (step-IsConsistent c call h)

-- After any history of calls on a new cache, in any order, the free count of every node is its
-- total less what is allocated and reserved, floored at 0.
pub run_new-IsConsistent : (calls : List Call) → IsConsistent (run new_vram_cache calls)
unfolding new_vram_cache
run_new-IsConsistent calls = run-IsConsistent _ calls tt
