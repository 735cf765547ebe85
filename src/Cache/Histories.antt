-- ===== src/Cache/Histories.antt =====
-- cache.go: histories of calls whose callers keep to what the code relies on.
use vgpu_scheduler.Prelude.{◌*◌, ◌≡◌, refl, String, none, some, inl, Result, ok, err}
use vgpu_scheduler.Prelude.Dict.{lookup}
use vgpu_scheduler.Cache.Calls.{
  Call, assumes, confirms, promotes, promotes_unguarded, releases, fails, forgets, rolls_back,
  releases_confirmed, frees, reaps, updates_node, updates_capacity, removes_node, sets_health,
  sets_zone, pins, seeds, after, step,
}
use vgpu_scheduler.Cache.Holds.{held_on}
use vgpu_scheduler.Cache.Ledger.{
  IsLedger, IsLedger-same, assume-IsLedger, rollback-IsLedger, release_confirmed-IsLedger,
  release_allocated-IsLedger, confirm-IsLedger,
}
use vgpu_scheduler.Cache.Accounts.{
  HoldOn, NewIsEmpty, promote_locked-IsLedger, promote-IsLedger, release_once-IsLedger,
  fail-IsLedger, forget-IsLedger, pin-IsLedger,
}
use vgpu_scheduler.Cache.Nodes.{
  update_node-IsLedger, set_zone-IsLedger, set_health-IsLedger, remove_node-IsLedger,
}
use vgpu_scheduler.Cache.Reaper.{reap-IsLedger}
use vgpu_scheduler.Cache.{
  NodeState, VramCache, new_vram_cache, mark_seeded, assume_slice, update_node_capacity,
}

-- What the code relies on of a caller: a slice is confirmed once, a promotion names the node of the
-- slice's hold, and a node that is new to the cache has no holds.
abbrev pub Admissible : VramCache → Call → Type 0
Admissible c (confirms uid ns name bytes now ttl) = lookup uid c.confirmed ≡ none
Admissible c (promotes uid name actual) = HoldOn c uid name
Admissible c (promotes_unguarded uid name actual) = HoldOn c uid name
Admissible c (updates_node name total reported) = NewIsEmpty c name
Admissible c (updates_capacity name gib) = NewIsEmpty c name
Admissible c (sets_zone name zone) = NewIsEmpty c name
Admissible c _ = Unit

after_assume :
    (c : VramCache) (r : Result _ VramCache)
    → IsLedger c
    → ((d : VramCache) → r ≡ ok d → IsLedger d)
    → IsLedger (after c r)
after_assume c (ok d) l h = h d refl
after_assume c (err e) l h = l

-- Every call that its caller may make keeps the ledger: one entry for each held slice, no slice
-- both assumed and confirmed, and on every node exactly the bytes of the holds on it reserved.
pub step-IsLedger :
    (c : VramCache) (call : Call) → Admissible c call → IsLedger c → IsLedger (step c call)
unfolding step
step-IsLedger c (assumes uid ns name bytes now ttl) a l =
    after_assume c (assume_slice c uid ns name bytes now ttl) l
      (λ d e. assume-IsLedger c d uid ns name bytes now ttl l e)
step-IsLedger c (confirms uid ns name bytes now ttl) a l =
    confirm-IsLedger c uid ns name bytes now l a
step-IsLedger c (promotes uid name actual) a l = promote-IsLedger c uid name actual l a
step-IsLedger c (promotes_unguarded uid name actual) a l =
    promote_locked-IsLedger c uid name actual l a
step-IsLedger c (releases uid name) a l = release_once-IsLedger c uid name l
step-IsLedger c (fails uid name) a l = fail-IsLedger c uid name l
step-IsLedger c (forgets uid name) a l = forget-IsLedger c uid name l
step-IsLedger c (rolls_back uid) a l = rollback-IsLedger c uid l
step-IsLedger c (releases_confirmed uid) a l = release_confirmed-IsLedger c uid l
step-IsLedger c (frees name bytes) a l = release_allocated-IsLedger c name bytes l
step-IsLedger c (reaps now) a l = reap-IsLedger now c l
step-IsLedger c (updates_node name total reported) a l =
    update_node-IsLedger c name total reported l a
step-IsLedger c (updates_capacity name gib) a l =
    unfold update_node_capacity in update_node-IsLedger c name (gib * 1024 * 1024 * 1024) 0 l a
step-IsLedger c (removes_node name) a l = remove_node-IsLedger c name l
step-IsLedger c (sets_health name healthy) a l = set_health-IsLedger c name healthy l
step-IsLedger c (sets_zone name zone) a l = set_zone-IsLedger c name zone l a
step-IsLedger c (pins uid now ttl) a l = pin-IsLedger c uid now ttl l
step-IsLedger c seeds a l =
    IsLedger-same c _ l (unfold mark_seeded in refl) (unfold mark_seeded in refl)
      (unfold mark_seeded in l.reserves)

-- A history of admissible calls, in the order in which they take the lock.
pub data Reach : VramCache → Type 0 where
  start : Reach new_vram_cache
  next : {c : VramCache} (call : Call) → Reach c → Admissible c call → Reach (step c call)

new-IsLedger : IsLedger new_vram_cache
unfolding new_vram_cache
new-IsLedger = record {
  unique_assumed = tt;
  unique_confirmed = tt;
  apart = λ u. inl (unfold lookup in refl);
  reserves = record { exact = λ n s e. absurd (unfold lookup in cc) };
}

Reach-IsLedger : {c : VramCache} → Reach c → IsLedger c
Reach-IsLedger start = new-IsLedger
Reach-IsLedger (next {c = c} call r a) = step-IsLedger c call a (Reach-IsLedger r)

-- After any admissible history every node of the cache has reserved exactly the bytes of the
-- assumed and confirmed holds on it.
pub reserved_exact :
    (c : VramCache) (name : String) (s : NodeState)
    → Reach c
    → lookup name c.nodes ≡ some s
    → s.reserved ≡ held_on c name
reserved_exact c name s r e = (Reach-IsLedger r).reserves.exact name s e
