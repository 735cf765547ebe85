-- ===== src/Controller/GangReservation/Reconcile.antt =====
-- internal/controller/vgpugangreservation_reconciler.go: one reconcile. What the API server answers to
-- each read and write is an argument; what the reconcile writes and deletes is its result.
use vgpu_scheduler.Prelude.{
  ℕ, Bool, true, false, ◌&&◌, ◌||◌, not, Option, none, some, List, [], ◌∷◌, if◌then◌else◌, Result,
  ok, err,
}
use vgpu_scheduler.Api.{Read, found, not_found, unreadable}
use vgpu_scheduler.Controller.GangReservation.Children.{Cluster, SliceTally, tally_child_slices}
use vgpu_scheduler.Controller.GangReservation.Phases.{
  ReservationPhase, reserving, failed, released, Reason, child_lost, teardown_complete,
  GangReservation, Decision, decide_next_phase, is_committed, child_loss_confirmed_direct,
}
use vgpu_scheduler.Controller.GangReservation.Teardown.{Deletion, tear_down_children, all_gone}

pub data WriteAnswer : Type 0 where
  accepted conflict gone refused : WriteAnswer

-- One round of `RetryOnConflict`: the reservation as it is read again, and the answer to the update.
pub record Attempt : Type 0 where
  pub read : Read GangReservation
  pub write : WriteAnswer

pub data WriteResult : Type 0 where
  written nothing_left vanished write_failed : WriteResult

-- The readers at the points of the reconcile where they are asked, in order. `attempts` are the rounds
-- that the client library grants.
pub record Answers : Type 0 where
  pub reservation : Read GangReservation
  pub children : Cluster
  pub direct : Option Cluster
  pub at_check : Cluster
  pub at_teardown : Cluster
  pub refuses : Deletion → Bool
  pub after_teardown : Cluster
  pub attempts : List Attempt
  pub now : ℕ

-- The deletes that are asked for, the status that the API stores, and the delay of the next
-- reconcile (0 for none) or an error.
pub record Outcome : Type 0 where
  pub deletions : List Deletion
  pub stored : Option GangReservation
  pub result : Result (Unit {0}) ℕ

abbrev pub is_failed : ReservationPhase → Bool
is_failed failed = true
is_failed _ = false

abbrev pub is_released : ReservationPhase → Bool
is_released released = true
is_released _ = false

-- `FirstReservingTime` is stamped on the first write of Reserving.
abbrev stamped : ReservationPhase → Option ℕ → ℕ → Option ℕ
stamped reserving none now = some now
stamped reserving (some t) now = some t
stamped _ start now = start

-- `FailureReason` keeps the first reason of a failure.
abbrev first_reason : ReservationPhase → Option Reason → Option Reason → Option Reason
first_reason failed none reason = reason
first_reason failed (some r) reason = some r
first_reason _ old reason = old

-- The fields that one write of `applyPhase` sets.
unfoldable pub apply_status :
    ReservationPhase → Option Reason → SliceTally → ℕ → GangReservation → GangReservation
apply_status next reason t now r = record r {
  first_reserving_time = stamped next r.first_reserving_time now;
  phase = next;
  reserved_slots = t.reserved_slots;
  committed_slots = t.committed_slots;
  failed_slots = t.failed_slots;
  per_slice = t.per_slice;
  message = reason;
  failure_reason = first_reason next r.failure_reason reason;
}

-- A conflict tries again with the next round.
unfoldable pub apply_phase :
    ReservationPhase
    → Option Reason
    → SliceTally
    → ℕ
    → List Attempt
    → Option GangReservation × WriteResult
unfolding apply_status
apply_phase next reason t now [] = (none, write_failed)
apply_phase next reason t now (a ∷ more) =
    let rest = apply_phase next reason t now more in
    elim (a.read) [
      | not_found ↦ (none, nothing_left)
      | unreadable ↦ (none, write_failed)
      | found r ↦ elim (a.write) [
        | accepted ↦ (some (apply_status next reason t now r), written)
        | conflict ↦ rest
        | gone ↦ (none, vanished)
        | refused ↦ (none, write_failed)
      ]
    ]

abbrev pub idle : Outcome
idle = record { deletions = []; stored = none; result = ok 0 }

abbrev pub failing : Outcome
failing = record { deletions = []; stored = none; result = err tt }

abbrev pub hold : Outcome
hold = record { deletions = []; stored = none; result = ok 3000 }

abbrev is_error : WriteResult → Bool
is_error written = false
is_error nothing_left = false
is_error _ = true

-- The retry of the teardown of a failed reservation, until every child is seen to be gone.
unfoldable pub continue_teardown : Answers → GangReservation → SliceTally → Outcome
unfolding tear_down_children all_gone apply_phase
continue_teardown a rsv t =
    if all_gone a.at_check rsv.child_claims
    then (let (stored, e) = apply_phase released (some teardown_complete) t a.now a.attempts in
        record { deletions = []; stored = stored; result = ok (if is_error e then 5000 else 0) })
    else (let (deletions, _) = tear_down_children a.at_teardown a.refuses rsv.child_claims in
        let (stored, _) = apply_phase failed rsv.failure_reason t a.now a.attempts in
        record { deletions = deletions; stored = stored; result = ok 3000 })

abbrev is_child_lost : Reason → Bool
is_child_lost (child_lost a b c d e) = true
is_child_lost _ = false

-- Whether the decision has to be confirmed by a direct read first.
abbrev pub is_loss : GangReservation → Decision → Bool
is_loss rsv d = is_failed d.phase && is_committed rsv.phase && is_child_lost d.reason

unfoldable pub loss_confirmed : Answers → GangReservation → Decision → Result (Unit {0}) Bool
unfolding child_loss_confirmed_direct
loss_confirmed a rsv d =
    if is_loss rsv d then child_loss_confirmed_direct a.direct rsv.child_claims else ok true

-- The error of the status write; a reservation that is gone is none.
abbrev requeue_after : WriteResult → ℕ → Result (Unit {0}) ℕ
requeue_after written requeue = ok requeue
requeue_after nothing_left requeue = ok requeue
requeue_after vanished requeue = ok 0
requeue_after write_failed requeue = err tt

abbrev pub store : Answers → List Deletion → Decision → SliceTally → Outcome
store a deletions d t =
    let (stored, e) = apply_phase d.phase (some d.reason) t a.now a.attempts in
    record { deletions = deletions; stored = stored; result = requeue_after e d.requeue }

-- A tally after the teardown that fails leaves the first one.
abbrev pub retally : SliceTally → Result (Unit {0}) SliceTally → SliceTally
retally t (ok t') = t'
retally t (err _) = t

-- The transition: into Failed the children are torn down and counted again before the write.
unfoldable pub transition : Answers → GangReservation → SliceTally → Decision → Outcome
unfolding tear_down_children tally_child_slices apply_phase
transition a rsv t d =
    if is_failed d.phase && not (is_failed rsv.phase)
    then (let (deletions, _) = tear_down_children a.at_teardown a.refuses rsv.child_claims in
        store a deletions d (retally t (tally_child_slices a.after_teardown rsv.child_claims)))
    else store a [] d t

unfoldable pub decide : Answers → GangReservation → SliceTally → Outcome
unfolding decide_next_phase loss_confirmed transition
decide a rsv t =
    let d = decide_next_phase rsv t a.now in
    elim (loss_confirmed a rsv d) [
      | err _ ↦ hold
      | ok false ↦ hold
      | ok true ↦ transition a rsv t d
    ]

unfoldable pub reconcile_found : Answers → GangReservation → Outcome
unfolding tally_child_slices decide continue_teardown
reconcile_found a rsv =
    if rsv.deleting || is_released rsv.phase
    then idle
    else elim (tally_child_slices a.children rsv.child_claims) [
      | err _ ↦ failing
      | ok t ↦ if is_failed rsv.phase then continue_teardown a rsv t else decide a rsv t
    ]

unfoldable pub reconcile : Answers → Outcome
unfolding reconcile_found
reconcile a = elim (a.reservation) [
  | not_found ↦ idle
  | unreadable ↦ failing
  | found rsv ↦ reconcile_found a rsv
]
