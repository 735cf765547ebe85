-- ===== src/Controller/GangReservation/Stores.antt =====
-- internal/controller/vgpugangreservation_reconciler.go: what a reconcile that writes decides and stores.
use vgpu_scheduler.Prelude.{
  ℕ, ◌≡◌, refl, sym, ap, ◌∙◌, true, false, ◌||◌, Option, some, List, [], ◌∷◌, if◌then◌else◌, ok,
  ◌⊎◌, inl, inr, arith, Bool-cases, Result-cases,
}
use vgpu_scheduler.Api.{found}
use vgpu_scheduler.Controller.GangReservation.Children.{SliceTally, tally_child_slices}
use vgpu_scheduler.Controller.GangReservation.Phases.{
  ReservationPhase, fresh, pending, reserving, reserved, committed, failed, released, Reason,
  teardown_complete, GangReservation, Decision, decide_next_phase,
}
use vgpu_scheduler.Controller.GangReservation.Teardown.{all_gone}
use vgpu_scheduler.Controller.GangReservation.Reconcile.{
  Attempt, Answers, idle, failing, hold, retally, is_failed, is_released, apply_phase,
  continue_teardown, loss_confirmed, transition, decide, reconcile_found, reconcile,
}
use vgpu_scheduler.Controller.GangReservation.Moves.{is_over}

pub apply_phase-phase :
    (next : ReservationPhase) (reason : Option Reason) (t : SliceTally) (now : ℕ)
    (attempts : List Attempt) (r : GangReservation)
    → (apply_phase next reason t now attempts).0 ≡ some r
    → r.phase ≡ next
unfolding apply_phase
apply_phase-phase next reason t now [] r e = absurd (cc)
apply_phase-phase next reason t now (a ∷ more) r e =
    ground (arith, apply_phase-phase next reason t now more r)

transition-phase :
    (a : Answers) (rsv : GangReservation) (t : SliceTally) (d : Decision) (r : GangReservation)
    → (transition a rsv t d).stored ≡ some r
    → r.phase ≡ d.phase
unfolding transition
transition-phase a rsv t d r = ground (
  arith,
  apply_phase-phase d.phase (some d.reason) t a.now a.attempts r,
  apply_phase-phase d.phase (some d.reason)
      (retally t (tally_child_slices a.after_teardown rsv.child_claims)) a.now a.attempts r,
)

-- A reconcile that decides either holds, or makes the transition that is confirmed.
pub decide-cases :
    (a : Answers) (rsv : GangReservation) (t : SliceTally)
    → (decide a rsv t ≡ hold)
      ⊎ ((loss_confirmed a rsv (decide_next_phase rsv t a.now) ≡ ok true)
          × (decide a rsv t ≡ transition a rsv t (decide_next_phase rsv t a.now)))
unfolding decide
decide-cases a rsv t = elim (Result-cases (loss_confirmed a rsv (decide_next_phase rsv t a.now))) [
  | inr (x, e) ↦ inl (rw (decide, e) refl)
  | inl (b, e) ↦ elim (Bool-cases b) [
    | inl y ↦ let sure = e ∙ ap ok y in inr (sure, rw (decide, sure) refl)
    | inr y ↦ let unsure = e ∙ ap ok y in inl (rw (decide, unsure) refl)
  ]
]

continue_teardown-phase :
    (a : Answers) (rsv : GangReservation) (t : SliceTally) (r : GangReservation)
    → (continue_teardown a rsv t).stored ≡ some r
    → r.phase ≡ (if all_gone a.at_check rsv.child_claims then released else failed)
unfolding continue_teardown
continue_teardown-phase a rsv t r = ground (
  arith,
  apply_phase-phase released (some teardown_complete) t a.now a.attempts r,
  apply_phase-phase failed rsv.failure_reason t a.now a.attempts r,
)

-- A reconcile that finds its reservation stops, fails on an unreadable child, or goes on.
pub reconcile-split :
    (a : Answers) (rsv : GangReservation)
    → a.reservation ≡ found rsv
    → (reconcile a ≡ idle)
      ⊎ (reconcile a ≡ failing)
      ⊎ ((t : SliceTally) × (tally_child_slices a.children rsv.child_claims ≡ ok t)
          × (is_released rsv.phase ≡ false)
          × (reconcile a
              ≡ (if is_failed rsv.phase then continue_teardown a rsv t else decide a rsv t)))
unfolding reconcile reconcile_found
reconcile-split a rsv e =
    let here : reconcile a ≡ reconcile_found a rsv = rw (reconcile, e) refl in
    elim (Bool-cases (rsv.deleting || is_released rsv.phase)) [
      | inl stop ↦ inl (here ∙ rw (reconcile_found, stop) refl)
      | inr goes ↦ elim (Result-cases (tally_child_slices a.children rsv.child_claims)) [
        | inr (x, k) ↦ inr (inl (here ∙ rw (reconcile_found, goes, k) refl))
        | inl (t, k) ↦
            inr (inr (t, k, ground (arith, goes), here ∙ rw (reconcile_found, goes, k) refl))
      ]
    ]

-- A reconcile that stores a status goes on.
pub reconcile-cases :
    (a : Answers) (rsv r : GangReservation)
    → a.reservation ≡ found rsv
    → (reconcile a).stored ≡ some r
    → (t : SliceTally) × (tally_child_slices a.children rsv.child_claims ≡ ok t)
      × (is_released rsv.phase ≡ false)
      × (reconcile a ≡ (if is_failed rsv.phase then continue_teardown a rsv t else decide a rsv t))
reconcile-cases a rsv r e s = elim (reconcile-split a rsv e) [
  | inl same ↦ absurd (let q : idle.stored ≡ some r = ap (λ o. o.stored) (sym same) ∙ s in cc)
  | inr (inl same) ↦
      absurd (let q : failing.stored ≡ some r = ap (λ o. o.stored) (sym same) ∙ s in cc)
  | inr (inr more) ↦ more
]

pub is_failed-eq : (p : ReservationPhase) → is_failed p ≡ true → p ≡ failed
is_failed-eq failed e = refl
is_failed-eq fresh e = absurd (cc)
is_failed-eq pending e = absurd (cc)
is_failed-eq reserving e = absurd (cc)
is_failed-eq reserved e = absurd (cc)
is_failed-eq committed e = absurd (cc)
is_failed-eq released e = absurd (cc)

pub is_over-eq-or :
    (p : ReservationPhase) → is_failed p ≡ false → is_released p ≡ false → is_over p ≡ false
is_over-eq-or failed e f = absurd (cc)
is_over-eq-or released e f = absurd (cc)
is_over-eq-or fresh e f = refl
is_over-eq-or pending e f = refl
is_over-eq-or reserving e f = refl
is_over-eq-or reserved e f = refl
is_over-eq-or committed e f = refl

-- What a reconcile of a reservation that is not over decides and stores.
pub reconcile-decides :
    (a : Answers) (rsv r : GangReservation) (t : SliceTally)
    → reconcile a ≡ (if is_failed rsv.phase then continue_teardown a rsv t else decide a rsv t)
    → (reconcile a).stored ≡ some r
    → is_failed rsv.phase ≡ false
    → (loss_confirmed a rsv (decide_next_phase rsv t a.now) ≡ ok true)
      × (r.phase ≡ (decide_next_phase rsv t a.now).phase)
      × (reconcile a ≡ transition a rsv t (decide_next_phase rsv t a.now))
reconcile-decides a rsv r t same s live =
    let runs : reconcile a ≡ decide a rsv t = (rw live at same) in
    elim (decide-cases a rsv t) [
      | inl held ↦
          absurd (let q : hold.stored ≡ some r = ap (λ o. o.stored) (sym (runs ∙ held)) ∙ s in cc)
      | inr (sure, moved) ↦
          let all = runs ∙ moved in
          (sure, transition-phase a rsv t _ r (ap (λ o. o.stored) (sym all) ∙ s), all)
    ]

-- What a reconcile of a failed reservation stores.
pub reconcile_failed-phase :
    (a : Answers) (rsv r : GangReservation) (t : SliceTally)
    → reconcile a ≡ (if is_failed rsv.phase then continue_teardown a rsv t else decide a rsv t)
    → (reconcile a).stored ≡ some r
    → is_failed rsv.phase ≡ true
    → r.phase ≡ (if all_gone a.at_check rsv.child_claims then released else failed)
reconcile_failed-phase a rsv r t same s over =
    let runs : reconcile a ≡ continue_teardown a rsv t = (rw over at same) in
    continue_teardown-phase a rsv t r (ap (λ o. o.stored) (sym runs) ∙ s)
