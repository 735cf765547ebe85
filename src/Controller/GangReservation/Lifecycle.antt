-- ===== src/Controller/GangReservation/Lifecycle.antt =====
-- internal/controller/vgpugangreservation_reconciler.go: the phases that reconciles write, one after
-- the other.
use vgpu_scheduler.Prelude.{ℕ, ◌≡◌, true, some}
use vgpu_scheduler.Api.{found}
use vgpu_scheduler.Controller.GangReservation.Phases.{
  ReservationPhase, fresh, pending, reserving, reserved, committed, failed, released,
  GangReservation,
}
use vgpu_scheduler.Controller.GangReservation.Reconcile.{Answers, reconcile}
use vgpu_scheduler.Controller.GangReservation.Moves.{may_move}

-- The reconciles that write, each on the reservation as the one before it left it.
pub data Run (r : GangReservation) : GangReservation → Type 0 where
  here : Run r r
  next :
      {s u : GangReservation}
      → Run r s
      → (a : Answers) → a.reservation ≡ found s
      → (reconcile a).stored ≡ some u
      → Run r u

-- The paths of the lifecycle.
pub data Leads (p : ReservationPhase) : ReservationPhase → Type 0 where
  stay : Leads p p
  move : {q u : ReservationPhase} → Leads p q → may_move q u ≡ true → Leads p u

-- How far a phase is on its way.
abbrev pub stage : ReservationPhase → ℕ
stage fresh = 0
stage pending = 0
stage reserving = 1
stage reserved = 2
stage committed = 3
stage failed = 4
stage released = 5
