-- ===== src/Controller/GangReservation/Losses.antt =====
-- internal/controller/vgpugangreservation_reconciler.go: when a reservation commits, when a committed
-- one is torn down, and when a failed one is released.
use vgpu_scheduler.Prelude.{
  ℕ, ◌≤◌, ◌≡◌, ◌≢◌, refl, sym, ◌∙◌, String, Bool, true, false, some, List, [], ◌∷◌, length, keep,
  All, if◌then◌else◌, ◌↔◌, inl, inr, arith, Bool-cases,
}
use vgpu_scheduler.Api.{Read, found, not_found, unreadable}
use vgpu_scheduler.Controller.GangReservation.Children.{Cluster, SliceTally, claim_slice}
use vgpu_scheduler.Controller.GangReservation.Counts.{is_in, is_ready, tally_exact}
use vgpu_scheduler.Controller.GangReservation.Counts as Counts
use vgpu_scheduler.Controller.GangReservation.Phases.{
  ReservationPhase, fresh, pending, reserving, reserved, committed, failed, released,
  GangReservation, decide_next_phase, decide_by_phase,
}
use vgpu_scheduler.Controller.GangReservation.Teardown.{all_gone, is_gone}
use vgpu_scheduler.Controller.GangReservation.Reconcile.{Answers, is_failed, reconcile}
use vgpu_scheduler.Controller.GangReservation.Stores.{
  reconcile-cases, reconcile-decides, reconcile_failed-phase, is_failed-eq,
}

by_phase-committed :
    (p : ReservationPhase) (rsv : GangReservation) (t : SliceTally) (now : ℕ)
    → (decide_by_phase p rsv t now).phase ≡ committed
    → p ≡ committed
unfolding decide_by_phase
by_phase-committed fresh rsv t now e = absurd (cc)
by_phase-committed pending rsv t now e = absurd (cc)
by_phase-committed reserving rsv t now e = ground arith
by_phase-committed reserved rsv t now e = absurd (cc)
by_phase-committed committed rsv t now e = refl
by_phase-committed failed rsv t now e = absurd (cc)
by_phase-committed released rsv t now e = absurd (cc)

by_phase-released :
    (p : ReservationPhase) (rsv : GangReservation) (t : SliceTally) (now : ℕ)
    → (decide_by_phase p rsv t now).phase ≡ released
    → p ≡ released
unfolding decide_by_phase
by_phase-released fresh rsv t now e = absurd (cc)
by_phase-released pending rsv t now e = absurd (cc)
by_phase-released reserving rsv t now e = ground arith
by_phase-released reserved rsv t now e = absurd (cc)
by_phase-released committed rsv t now e = ground arith
by_phase-released failed rsv t now e = absurd (cc)
by_phase-released released rsv t now e = refl

decide-committed :
    (rsv : GangReservation) (t : SliceTally) (now : ℕ)
    → (decide_next_phase rsv t now).phase ≡ committed
    → rsv.phase ≢ committed
    → rsv.gang_size ≤ t.committed_slots
unfolding decide_next_phase
decide-committed rsv t now e other = ground (arith, by_phase-committed rsv.phase rsv t now)

never_failed : (b : Bool) → (if b then released else failed) ≡ committed → ⊥
never_failed true e = cc
never_failed false e = cc

-- A reservation that becomes committed has at least as many bound children - the claim there, the
-- slice Ready, neither being deleted - as the gang has members.
pub commits_bound :
    (a : Answers) (rsv r : GangReservation)
    → a.reservation ≡ found rsv
    → rsv.phase ≢ committed
    → (reconcile a).stored ≡ some r
    → r.phase ≡ committed
    → rsv.gang_size ≤ length (keep (is_in is_ready a.children) rsv.child_claims)
commits_bound a rsv r e other s now_committed =
    let (t, k, live, same) = reconcile-cases a rsv r e s in
    let counts = tally_exact a.children rsv.child_claims t k in
    elim (Bool-cases (is_failed rsv.phase)) [
      | inl over ↦ absurd (
          never_failed (all_gone a.at_check rsv.child_claims)
            (sym (reconcile_failed-phase a rsv r t same s over) ∙ now_committed))
      | inr goes ↦
          let decided = sym (reconcile-decides a rsv r t same s goes).1 ∙ now_committed in
          omega (arith, decide-committed rsv t a.now decided other, counts.1)
    ]

-- Neither the claim nor the slice of a child exists.
abbrev pub IsGone : Cluster → String → Type 0
IsGone api n = (api.claim n ≡ not_found) × (api.slice (claim_slice n) ≡ not_found)

is_gone_iff : {A : Type 0} (r : Read A) → (is_gone r ≡ true) ↔ (r ≡ not_found)
is_gone_iff not_found = (λ e. refl, λ e. refl)
is_gone_iff unreadable = (λ e. absurd (cc), λ e. absurd (cc))
is_gone_iff (found x) = (λ e. absurd (cc), λ e. absurd (cc))

pub all_gone_iff :
    (api : Cluster) (ns : List String) → (all_gone api ns ≡ true) ↔ All (IsGone api) ns
unfolding all_gone
all_gone_iff api [] = (λ e. tt, λ a. refl)
all_gone_iff api (n ∷ ns) =
    let claim = is_gone_iff (api.claim n) in
    let slice = is_gone_iff (api.slice (claim_slice n)) in
    let rest = all_gone_iff api ns in
    (
      λ e. ((claim.0 (ground arith), slice.0 (ground arith)), rest.0 (ground arith)),
      λ a. rw (claim.1 a.0.0, slice.1 a.0.1, rest.1 a.1) refl,
    )

released_if : (b : Bool) → (if b then released else failed) ≡ released → b ≡ true
released_if true e = refl
released_if false e = absurd (cc)

decide-ne-released :
    (rsv : GangReservation) (t : SliceTally) (now : ℕ)
    → rsv.phase ≢ released
    → (decide_next_phase rsv t now).phase ≢ released
unfolding decide_next_phase
decide-ne-released rsv t now live e = ground (arith, by_phase-released rsv.phase rsv t now)

-- A reconcile that stores the phase Released found the reservation Failed and saw, for every child,
-- that neither its claim nor its slice exists; a failed read is not taken for an absence.
pub released-IsGone :
    (a : Answers) (rsv r : GangReservation)
    → a.reservation ≡ found rsv
    → (reconcile a).stored ≡ some r
    → r.phase ≡ released
    → (rsv.phase ≡ failed) × All (IsGone a.at_check) rsv.child_claims
released-IsGone a rsv r e s over =
    let (t, k, live, same) = reconcile-cases a rsv r e s in
    elim (Bool-cases (is_failed rsv.phase)) [
      | inl torn ↦ (
        is_failed-eq rsv.phase torn,
        (all_gone_iff a.at_check rsv.child_claims).0 (
            released_if (all_gone a.at_check rsv.child_claims)
              (sym (reconcile_failed-phase a rsv r t same s torn) ∙ over)),
      )
      | inr goes ↦ absurd (
          decide-ne-released rsv t a.now (ground (arith, live))
            (sym (reconcile-decides a rsv r t same s goes).1 ∙ over))
    ]
