-- ===== src/Scheduler/Plugin/Cycles.antt =====
-- internal/scheduler/plugin.go: what a cycle leaves behind.
use vgpu_scheduler.Prelude.{
  ℕ, ◌≡◌, ◌≢◌, refl, String, Bool, true, false, not, Option, none, some, if◌then◌else◌, arith, inl,
  inr, Option-cases, Result-cases,
}
use vgpu_scheduler.Prelude.Dict.{lookup}
use vgpu_scheduler.Cache.{VramCache, pin_assumption}
use vgpu_scheduler.Cache.Calls.{run}
use vgpu_scheduler.Scheduler.Reserve.{new_tx}
use vgpu_scheduler.Scheduler.Quota.{Verdict, allowed, quota_exceeded, check}
use vgpu_scheduler.Scheduler.Plugin.{
  Answers, Outcome, bound, cache_not_ready, quota_unresolved, QuotaReads, gang_quota_context,
  warm_cycle, schedule, rejection, quota_stop, gang_hold_ttl,
}
use vgpu_scheduler.Scheduler.Plugin.Attempts.{
  gives_up, IsConfirmed, Leaves, Leaves-other, gated-Leaves, fresh_attempt-Leaves,
}

rejection-outcome :
    (v : Verdict) (o : Outcome)
    → rejection v ≡ some o
    → (gives_up o ≡ false) × ((n : String) → o ≢ bound n)
rejection-outcome allowed o e = absurd (cc)
rejection-outcome (quota_exceeded a b c d) o e = ground (arith, e)

quota_stop-outcome :
    (q : Option QuotaReads) (c : VramCache) (ns : String) (requested : ℕ) (o : Outcome)
    → quota_stop q c ns requested ≡ some o
    → (gives_up o ≡ false) × ((n : String) → o ≢ bound n)
unfolding quota_stop
quota_stop-outcome none c ns requested o e = absurd (cc)
quota_stop-outcome (some q) c ns requested o e =
    elim (Result-cases (gang_quota_context q.slice q.gang_size requested)) [
      | inl ((gang, gang_total), r) ↦
          rejection-outcome (check q.quotas q.slices (some c) ns requested gang gang_total) o
            (rw (quota_stop, r) at e)
      | inr (x, r) ↦
          let stop : some quota_unresolved ≡ some o = rw (quota_stop, r) at e in
          ground (arith, stop)
    ]

warm_cycle-Leaves :
    (w : Answers) (c : VramCache) (uid ns : String) (requested : ℕ) (best_effort : Bool)
    → let (outcome, d) = warm_cycle w c uid ns requested best_effort in Leaves outcome uid d
unfolding new_tx warm_cycle
warm_cycle-Leaves w c uid ns requested best_effort =
    let d = run c w.during_quota in
    elim (Option-cases (quota_stop w.quota d ns requested)) [
      | inr (o, stopped) ↦
          let (g, b) = quota_stop-outcome w.quota d ns requested o stopped in
          rw (warm_cycle, stopped) (Leaves-other o uid d g b)
      | inl passed ↦ elim (Option-cases (pin_assumption d uid w.now gang_hold_ttl).1) [
        | inl unheld ↦
            rw (warm_cycle, passed, unheld) (fresh_attempt-Leaves w d uid ns requested best_effort)
        | inr ((node, bytes), held) ↦
            rw (warm_cycle, passed, held) (gated-Leaves w node (new_tx uid ns node bytes) _ refl)
      ]
    ]

either-Leaves :
    (b : Bool) (p q : Outcome × VramCache) (uid : String)
    → Leaves p.0 uid p.1
    → Leaves q.0 uid q.1
    → let (outcome, d) = if b then p else q in Leaves outcome uid d
either-Leaves true p q uid l m = l
either-Leaves false p q uid l m = m

schedule-Leaves :
    (w : Answers) (c : VramCache) (uid ns : String) (requested : ℕ) (best_effort : Bool)
    → let (outcome, d) = schedule w c uid ns requested best_effort in Leaves outcome uid d
unfolding schedule
schedule-Leaves w c uid ns requested best_effort =
    either-Leaves (not c.seeded) (cache_not_ready, c) (warm_cycle w c uid ns requested best_effort)
      uid (Leaves-other cache_not_ready uid c refl (λ n e. absurd (cc)))
      (warm_cycle-Leaves w c uid ns requested best_effort)

-- A cycle that reserved capacity and then gives up - the slice cannot be read, the gang's state is
-- unknown, the gang must wait or is terminal, the hold was reaped, the bind failed - leaves no
-- assumed hold for the slice, whatever other goroutines did to the cache while it waited.
pub schedule-gives_up :
    (w : Answers) (c : VramCache) (uid ns : String) (requested : ℕ) (best_effort : Bool)
    → let (outcome, d) = schedule w c uid ns requested best_effort in
      gives_up outcome ≡ true → lookup uid d.assumed ≡ none
schedule-gives_up w c uid ns requested best_effort =
    (schedule-Leaves w c uid ns requested best_effort).freed

-- A cycle that binds the slice leaves its hold confirmed and no longer assumed, whatever other
-- goroutines did to the cache while it waited.
pub schedule_bound-IsConfirmed :
    (w : Answers) (c : VramCache) (uid ns node : String) (requested : ℕ) (best_effort : Bool)
    → let (outcome, d) = schedule w c uid ns requested best_effort in
      outcome ≡ bound node → IsConfirmed d uid
schedule_bound-IsConfirmed w c uid ns node requested best_effort =
    (schedule-Leaves w c uid ns requested best_effort).kept node
