-- ===== src/Cmd/Scheduler/Slices.antt =====
-- cmd/scheduler/main.go: the reconciler of the slices, with the record that it keeps of the slices
-- that it has seen. Delays are in milliseconds, and times too.
use vgpu_scheduler.Prelude.{
  ℕ, ◌-◌, String, Bool, true, false, ◌&&◌, ◌||◌, not, Option, none, some, ltb, str_eq,
  if◌then◌else◌, Result, ok, err,
}
use vgpu_scheduler.Prelude.Dict.{Dict, lookup, insert, delete}
use vgpu_scheduler.Api.{
  SlicePhase, initial, pending, ready, released, failed, phase_eq, VgpuSlice, VgpuClaim, Read,
  found, not_found, unreadable,
}
use vgpu_scheduler.Cache.{VramCache, forget_slice}
use vgpu_scheduler.Cache as Cache
use vgpu_scheduler.Scheduler.Plugin.{
  Answers, Outcome, bound, cache_not_ready, quota_unresolved, quota_rejected,
  preemption_in_progress, insufficient_capacity, no_scores, reserve_failed, gate_read_failed,
  gate_retry, gang_terminal, hold_lost, bind_failed, gang_deferred, schedule, sync_cache_from_slice,
}
use vgpu_scheduler.Controller.GangReservation.Phases.{ReservationPhase}
use vgpu_scheduler.Controller.GangReservation.Phases as Phases

pub record TrackedSlice : Type 0 where
  pub uid : String
  pub node : String
  pub phase : SlicePhase

-- The reconciler: its record, by namespace and name, and the scheduler's cache.
pub record SliceScheduling : Type 0 where
  pub tracked : Dict TrackedSlice
  pub cache : VramCache

-- A slice of the same name with another UID takes the place of the old one, which is forgotten.
abbrev forget_previous : Option TrackedSlice → String → VramCache → VramCache
forget_previous none uid c = c
forget_previous (some prev) uid c =
    if not (str_eq prev.uid "") && not (str_eq prev.uid uid)
    then forget_slice c prev.uid prev.node
    else c

unfoldable pub record_slice :
    String → String → String → SlicePhase → SliceScheduling → SliceScheduling
record_slice key uid node phase r = record {
  tracked = insert key (record { uid = uid; node = node; phase = phase }) r.tracked;
  cache = forget_previous (lookup key r.tracked) uid r.cache;
}

abbrev forget_tracked : Option TrackedSlice → VramCache → VramCache
forget_tracked none c = c
forget_tracked (some t) c = if str_eq t.uid "" then c else forget_slice c t.uid t.node

unfoldable pub release_on_delete : String → SliceScheduling → SliceScheduling
release_on_delete key r = record {
  tracked = delete key r.tracked;
  cache = forget_tracked (lookup key r.tracked) r.cache;
}

abbrev synced_phase : SlicePhase → Option Cache.SyncedPhase
synced_phase ready = some Cache.ready
synced_phase released = some Cache.released
synced_phase failed = some Cache.failed
synced_phase _ = none

-- The bridge of the node agent's events into the cache, for a slice on a node.
abbrev sync : VgpuSlice → Option Cache.SyncedPhase → VramCache → VramCache
sync s none c = c
sync s (some p) c =
    if str_eq s.node_name ""
    then c
    else sync_cache_from_slice c s.uid s.node_name p s.allocated_bytes

-- What the reconciler is told: the slice, the phase of its gang's reservation, its claim, whether the
-- status write succeeds, the time, and the answers to the scheduling cycle.
pub record SliceReads : Type 0 where
  pub slice : Read VgpuSlice
  pub reservation : Read ReservationPhase
  pub claim : Read VgpuClaim
  pub write_succeeds : Bool
  pub now : ℕ
  pub cycle : Answers

-- A reconcile: whether the slice was marked as failed, the outcome of the cycle if one was made, and
-- the delay of the next reconcile (0 for none) or an error.
pub record Reconciled : Type 0 where
  pub state : SliceScheduling
  pub marked_failed : Bool
  pub outcome : Option Outcome
  pub result : Result (Unit {0}) ℕ

abbrev quit : SliceScheduling → Result (Unit {0}) ℕ → Reconciled
quit r result = record { state = r; marked_failed = false; outcome = none; result = result }

-- The delay after a cycle, by its error.
unfoldable pub requeue_delay : Outcome → ℕ
requeue_delay (bound node) = 0
requeue_delay (gang_deferred v) = 500
requeue_delay cache_not_ready = 1000
requeue_delay quota_unresolved = 30000
requeue_delay (quota_rejected v) = 30000
requeue_delay preemption_in_progress = 30000
requeue_delay insufficient_capacity = 30000
requeue_delay no_scores = 30000
requeue_delay (reserve_failed e) = 30000
requeue_delay gate_read_failed = 30000
requeue_delay gate_retry = 30000
requeue_delay gang_terminal = 30000
requeue_delay hold_lost = 30000
requeue_delay bind_failed = 30000

abbrev is_dead : Read ReservationPhase → Bool
is_dead (found Phases.failed) = true
is_dead (found Phases.released) = true
is_dead _ = false

-- Whether the slice belongs to a gang whose reservation is over.
unfoldable pub is_orphaned : VgpuSlice → Read ReservationPhase → Bool
is_orphaned s rsv = not (str_eq s.reservation_ref "") && is_dead rsv

abbrev tier_is : String → Read VgpuClaim → Bool
tier_is tier (found c) = str_eq c.service_tier tier
tier_is tier not_found = false
tier_is tier unreadable = false

unfoldable pub is_best_effort : VgpuSlice → Read VgpuClaim → Bool
is_best_effort s claim = not (str_eq s.claim_ref "") && tier_is "BestEffort" claim

abbrev pub holdback : ℕ
holdback = 2000

-- The end of the reconcile: the holdback, then the cycle.
unfoldable pub attempt : SliceReads → VgpuSlice → SliceScheduling → Reconciled
unfolding is_best_effort requeue_delay
attempt w s r =
    let best_effort = is_best_effort s w.claim in
    let age = w.now - s.created_at in
    if best_effort && ltb age holdback
    then quit r (ok (holdback - age))
    else let (outcome, c) =
        schedule w.cycle r.cache s.uid s.namespace s.requested_vram best_effort in
      record {
        state = record r { cache = c };
        marked_failed = false;
        outcome = some outcome;
        result = ok (requeue_delay outcome);
      }

-- Whether the slice still has to be placed.
abbrev pub is_unplaced : VgpuSlice → Bool
is_unplaced s = (phase_eq s.phase initial || phase_eq s.phase pending) && str_eq s.node_name ""

unfoldable pub reconcile_seen : SliceReads → VgpuSlice → SliceScheduling → Reconciled
unfolding is_orphaned attempt
reconcile_seen w s r =
    if not (is_unplaced s)
    then quit r (ok 0)
    else if is_orphaned s w.reservation
    then record {
      state = r;
      marked_failed = w.write_succeeds;
      outcome = none;
      result = ok (if w.write_succeeds then 0 else 5000);
    }
    else attempt w s r

-- The record of the slice and the cache, after what is done for every slice that is there.
unfoldable pub note_slice : String → VgpuSlice → SliceScheduling → SliceScheduling
unfolding record_slice
note_slice key s r =
    let seen = record_slice key s.uid s.node_name s.phase r in
    record seen { cache = sync s (synced_phase s.phase) seen.cache }

unfoldable pub reconcile_slice : String → SliceReads → SliceScheduling → Reconciled
unfolding note_slice release_on_delete reconcile_seen
reconcile_slice key w r = elim (w.slice) [
  | not_found ↦ quit (release_on_delete key r) (ok 0)
  | unreadable ↦ quit r (err tt)
  | found s ↦ reconcile_seen w s (note_slice key s r)
]
