-- ===== src/Controller/GangReservation/Phases.antt =====
-- internal/controller/vgpugangreservation_reconciler.go: `decideNextPhase`, and the direct reads that
-- confirm a loss. Times and delays are in milliseconds.
use vgpu_scheduler.Prelude.{
  ℕ, ◌+◌, ◌-◌, ◌*◌, String, Bool, true, false, ◌&&◌, not, Option, none, some, List, [], ◌∷◌, ltb,
  leb, if◌then◌else◌, Result, ok, err,
}
use vgpu_scheduler.Api.{SlicePhase, Read, found, not_found, unreadable}
use vgpu_scheduler.Controller.GangReservation.Children.{
  ChildSlice, Cluster, SliceTally, claim_slice,
}

-- The phases of a reservation; `fresh` is the empty one of a new object.
pub data ReservationPhase : Type 0 where
  fresh pending reserving reserved committed failed released : ReservationPhase

-- The texts of `reason`, with what they print.
pub data Reason : Type 0 where
  slot_failure : (slots : ℕ) → Reason
  all_committed all_reserved in_progress : Reason
  deadline_exceeded : (deadline reserved_slots gang_size : ℕ) → Reason
  still_reserving : (reserved_slots gang_size : ℕ) → Reason
  slice_regression : Reason
  child_lost : (lost gang_size missing regenerated deleting : ℕ) → Reason
  degraded : (committed_slots gang_size : ℕ) → Reason
  no_transition teardown_complete : Reason

-- VGPUGangReservation: the fields that the reconciler reads and writes.
pub record GangReservation : Type 0 where
  pub deleting : Bool
  pub gang_size : ℕ
  pub child_claims : List String
  pub deadline_seconds : Option ℕ
  pub phase : ReservationPhase
  pub first_reserving_time : Option ℕ
  pub reserved_slots : ℕ
  pub committed_slots : ℕ
  pub failed_slots : ℕ
  pub per_slice : List (String × String)
  pub message : Option Reason
  pub failure_reason : Option Reason

pub record Decision : Type 0 where
  pub phase : ReservationPhase
  pub reason : Reason
  pub requeue : ℕ

abbrev deadline_of : Option ℕ → ℕ
deadline_of none = 60
deadline_of (some d) = d

abbrev is_overdue : GangReservation → ℕ → Option ℕ → Bool
is_overdue rsv now none = false
is_overdue rsv now (some start) = ltb (deadline_of rsv.deadline_seconds * 1000) (now - start)

-- The `switch` on the current phase, when the counts alone do not decide.
unfoldable pub decide_by_phase : ReservationPhase → GangReservation → SliceTally → ℕ → Decision
decide_by_phase fresh rsv t now = record { phase = reserving; reason = in_progress; requeue = 3000 }
decide_by_phase pending rsv t now = record {
  phase = reserving;
  reason = in_progress;
  requeue = 3000;
}
decide_by_phase reserving rsv t now =
    if is_overdue rsv now rsv.first_reserving_time
    then record {
      phase = failed;
      reason = deadline_exceeded (deadline_of rsv.deadline_seconds) t.reserved_slots rsv.gang_size;
      requeue = 0;
    }
    else record {
      phase = reserving;
      reason = still_reserving t.reserved_slots rsv.gang_size;
      requeue = 3000;
    }
decide_by_phase reserved rsv t now = record {
  phase = failed;
  reason = slice_regression;
  requeue = 0;
}
decide_by_phase committed rsv t now =
    let lost = t.missing_slots + t.pending_slots + t.tearing_down_slots in
    if ltb 0 lost
    then record {
      phase = failed;
      reason = child_lost lost rsv.gang_size t.missing_slots t.pending_slots t.tearing_down_slots;
      requeue = 0;
    }
    else record {
      phase = committed;
      reason = degraded t.committed_slots rsv.gang_size;
      requeue = 5000;
    }
decide_by_phase failed rsv t now = record { phase = failed; reason = no_transition; requeue = 5000 }
decide_by_phase released rsv t now = record {
  phase = released;
  reason = no_transition;
  requeue = 5000;
}

abbrev pub is_committed : ReservationPhase → Bool
is_committed committed = true
is_committed _ = false

unfoldable pub decide_next_phase : GangReservation → SliceTally → ℕ → Decision
unfolding decide_by_phase
decide_next_phase rsv t now =
    if ltb 0 t.scheduling_failed_slots
    then record { phase = failed; reason = slot_failure t.scheduling_failed_slots; requeue = 0 }
    else if leb rsv.gang_size t.committed_slots
    then record { phase = committed; reason = all_committed; requeue = 30000 }
    else if leb rsv.gang_size t.reserved_slots && not (is_committed rsv.phase)
    then record { phase = reserved; reason = all_reserved; requeue = 5000 }
    else decide_by_phase rsv.phase rsv t now

-- Whether a phase holds an allocation, or is on its way to one.
abbrev pub holds : SlicePhase → Bool
holds SlicePhase.scheduled = true
holds SlicePhase.allocating = true
holds SlicePhase.ready = true
holds _ = false

unfoldable pub slice_lost : Read ChildSlice → Result (Unit {0}) Bool
slice_lost not_found = ok true
slice_lost unreadable = err tt
slice_lost (found s) = ok (if s.deleting then true else not (holds s.phase))

unfoldable pub child_lost_direct : Read Bool → Read ChildSlice → Result (Unit {0}) Bool
unfolding slice_lost
child_lost_direct not_found s = ok true
child_lost_direct unreadable s = err tt
child_lost_direct (found true) s = ok true
child_lost_direct (found false) s = slice_lost s

-- The first child that is lost, or cannot be read, ends the loop.
unfoldable pub any_lost : Cluster → List String → Result (Unit {0}) Bool
unfolding child_lost_direct
any_lost api [] = ok false
any_lost api (n ∷ ns) =
    let rest = any_lost api ns in
    elim (child_lost_direct (api.claim n) (api.slice (claim_slice n))) [
      | err e ↦ err e
      | ok true ↦ ok true
      | ok false ↦ rest
    ]

-- With no direct reader the tally is trusted.
unfoldable pub child_loss_confirmed_direct : Option Cluster → List String → Result (Unit {0}) Bool
unfolding any_lost
child_loss_confirmed_direct none child_claims = ok true
child_loss_confirmed_direct (some api) child_claims = any_lost api child_claims
