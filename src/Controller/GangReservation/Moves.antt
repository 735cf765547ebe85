-- ===== src/Controller/GangReservation/Moves.antt =====
-- internal/controller/vgpugangreservation_reconciler.go: the moves between the phases.
use vgpu_scheduler.Prelude.{ℕ, ◌≡◌, Bool, true, false, arith}
use vgpu_scheduler.Controller.GangReservation.Children.{SliceTally}
use vgpu_scheduler.Controller.GangReservation.Phases.{
  ReservationPhase, fresh, pending, reserving, reserved, committed, failed, released,
  GangReservation, decide_next_phase,
}

-- The lifecycle that the reservation's documentation draws: forward from Pending to Committed, into
-- Failed from every phase that is not over, and from Failed to Released only.
unfoldable pub may_move : ReservationPhase → ReservationPhase → Bool
may_move fresh reserving = true
may_move fresh reserved = true
may_move fresh committed = true
may_move fresh failed = true
may_move pending reserving = true
may_move pending reserved = true
may_move pending committed = true
may_move pending failed = true
may_move reserving reserving = true
may_move reserving reserved = true
may_move reserving committed = true
may_move reserving failed = true
may_move reserved reserved = true
may_move reserved committed = true
may_move reserved failed = true
may_move committed committed = true
may_move committed failed = true
may_move failed failed = true
may_move failed released = true
may_move _ _ = false

abbrev pub is_over : ReservationPhase → Bool
is_over failed = true
is_over released = true
is_over _ = false

pub decide-may_move :
    (p : ReservationPhase) (rsv : GangReservation) (t : SliceTally) (now : ℕ)
    → rsv.phase ≡ p
    → is_over p ≡ false
    → may_move p (decide_next_phase rsv t now).phase ≡ true
unfolding may_move decide_next_phase
decide-may_move fresh rsv t now e live = ground (arith, e)
decide-may_move pending rsv t now e live = ground (arith, e)
decide-may_move reserving rsv t now e live = ground (arith, e)
decide-may_move reserved rsv t now e live = ground (arith, e)
decide-may_move committed rsv t now e live = ground (arith, e)
decide-may_move failed rsv t now e live = absurd (cc)
decide-may_move released rsv t now e live = absurd (cc)
