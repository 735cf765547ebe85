-- ===== src/State/Runs.antt =====
-- internal/state/transitions.go: what a sequence of attempted transitions can do to a slice.
use vgpu_scheduler.Prelude.{
  ◌≡◌, ◌≢◌, refl, sym, ap, ◌∙◌, String, Bool, true, false, ◌||◌, List, [], ◌∷◌, ◌⊎◌, inl, inr,
  Result, ok, err, arith, Bool-cases,
}
use vgpu_scheduler.Api.{
  VgpuSlice, SlicePhase, initial, pending, scheduled, allocating, ready, releasing, released,
  failed, preempting, phase_eq,
}
use vgpu_scheduler.State.{
  StateViolation, illegal_transition, legal_slice_transition, transition_slice_phase,
  set_unless_empty,
}
use mathlib.Core.Bool.{false≢true}

pub phase_eq_sound : (p q : SlicePhase) → phase_eq p q ≡ true → p ≡ q
phase_eq_sound initial q e = ground arith
phase_eq_sound p q e = ground arith

phase_eq_refl : (p : SlicePhase) → phase_eq p p ≡ true
phase_eq_refl initial = refl
phase_eq_refl _ = refl

phase_ne : (p q : SlicePhase) → phase_eq p q ≡ false → p ≢ q
phase_ne p q h e = false≢true (sym h ∙ ap (phase_eq p) (sym e) ∙ phase_eq_refl p)

-- A transition succeeds exactly when it asks for the current phase or the table allows it. Then the
-- slice has the phase asked for, and its node, allocation, device and bytes are as before.
pub transition_exact :
    (s : VgpuSlice) (next : SlicePhase) (reason message : String)
    → ((t : VgpuSlice) × (transition_slice_phase s next reason message ≡ ok t)
        × ((s.phase ≡ next) ⊎ (legal_slice_transition s.phase next ≡ true))
        × (t.phase ≡ next)
        × (t.node_name ≡ s.node_name)
        × (t.allocation_id ≡ s.allocation_id)
        × (t.device_uuid ≡ s.device_uuid)
        × (t.allocated_bytes ≡ s.allocated_bytes))
      ⊎ ((transition_slice_phase s next reason message ≡ err (illegal_transition s.phase next))
          × (s.phase ≢ next)
          × (legal_slice_transition s.phase next ≡ false))
unfolding transition_slice_phase
transition_exact s next reason message = elim (Bool-cases (phase_eq s.phase next)) [
  | inl same ↦
      let e = phase_eq_sound s.phase next same in
      inl (s, ground arith, inl e, e, refl, refl, refl, refl)
  | inr other ↦ elim (Bool-cases (legal_slice_transition s.phase next)) [
    | inl legal ↦ inl (
      record s {
        phase = next;
        failure_reason = set_unless_empty reason s.failure_reason;
        last_error = set_unless_empty message s.last_error;
      },
      rw (other, legal),
      inr legal,
      refl,
      refl,
      refl,
      refl,
      refl,
    )
    | inr illegal ↦ inr (rw (other, illegal), λ e. phase_ne s.phase next other e, illegal)
  ]
]

-- A transition that is refused leaves the slice as it was.
abbrev after : VgpuSlice → Result StateViolation VgpuSlice → VgpuSlice
after s (ok t) = t
after s (err e) = s

-- Attempted transitions, one after another.
unfoldable pub attempts : VgpuSlice → List (SlicePhase × String × String) → VgpuSlice
unfolding transition_slice_phase
attempts s [] = s
attempts s ((next, reason, message) ∷ rest) =
    attempts (after s (transition_slice_phase s next reason message)) rest

abbrev pub is_down : SlicePhase → Bool
is_down releasing = true
is_down failed = true
is_down released = true
is_down _ = false

attempt_down :
    (s : VgpuSlice) (next : SlicePhase) (reason message : String)
    → is_down s.phase ≡ true
    → is_down (after s (transition_slice_phase s next reason message)).phase ≡ true
unfolding transition_slice_phase
attempt_down s next reason message h = ground arith

-- A slice that is being released, has failed or was released never becomes schedulable or ready
-- again, whatever transitions are attempted.
pub down_stays :
    (s : VgpuSlice) (tries : List (SlicePhase × String × String))
    → is_down s.phase ≡ true
    → is_down (attempts s tries).phase ≡ true
unfolding attempts
down_stays s [] h = h
down_stays s ((next, reason, message) ∷ rest) h =
    down_stays (after s (transition_slice_phase s next reason message)) rest
      (attempt_down s next reason message h)

abbrev pub tries_allocating : List (SlicePhase × String × String) → Bool
tries_allocating [] = false
tries_allocating ((allocating, _, _) ∷ rest) = true
tries_allocating ((_, _, _) ∷ rest) = tries_allocating rest

abbrev pub is_early : SlicePhase → Bool
is_early initial = true
is_early pending = true
is_early scheduled = true
is_early _ = false

attempt_early :
    (s : VgpuSlice) (next : SlicePhase) (reason message : String)
    → (is_early s.phase || is_down s.phase) ≡ true
    → (phase_eq next allocating ≡ true)
      ⊎ ((is_early (after s (transition_slice_phase s next reason message)).phase
            || is_down (after s (transition_slice_phase s next reason message)).phase)
          ≡ true)
unfolding transition_slice_phase
attempt_early s next reason message h = ground arith

tries_allocating_head :
    (next : SlicePhase) (r m : String) (rest : List (SlicePhase × String × String))
    → phase_eq next allocating ≡ true
    → tries_allocating ((next, r, m) ∷ rest) ≡ true
tries_allocating_head initial r m rest e = cc
tries_allocating_head allocating r m rest e = refl
tries_allocating_head _ r m rest e = cc

tries_allocating_tail :
    (next : SlicePhase) (r m : String) (rest : List (SlicePhase × String × String))
    → tries_allocating rest ≡ true
    → tries_allocating ((next, r, m) ∷ rest) ≡ true
tries_allocating_tail initial r m rest e = e
tries_allocating_tail allocating r m rest e = refl
tries_allocating_tail _ r m rest e = e

early_needs_allocating :
    (s : VgpuSlice) (tries : List (SlicePhase × String × String))
    → (is_early s.phase || is_down s.phase) ≡ true
    → (attempts s tries).phase ≡ ready
    → tries_allocating tries ≡ true
unfolding attempts
early_needs_allocating s [] h e = absurd (ground arith)
early_needs_allocating s ((next, r, m) ∷ rest) h e = elim (attempt_early s next r m h) [
  | inl hit ↦ tries_allocating_head next r m rest hit
  | inr still ↦
      tries_allocating_tail next r m rest
        (early_needs_allocating (after s (transition_slice_phase s next r m)) rest still e)
]

-- A slice that was not yet allocating becomes ready only by a sequence that passes through
-- Allocating.
pub ready_needs_allocating :
    (s : VgpuSlice) (tries : List (SlicePhase × String × String))
    → is_early s.phase ≡ true
    → (attempts s tries).phase ≡ ready
    → tries_allocating tries ≡ true
ready_needs_allocating s tries h e = early_needs_allocating s tries (ground arith) e

-- From every phase but Preempting, a release followed by its completion ends in Released.
pub teardown_reaches_released :
    (s : VgpuSlice)
    → s.phase ≢ preempting
    → (attempts s ((releasing, "", "") ∷ (released, "", "") ∷ [])).phase ≡ released
unfolding attempts transition_slice_phase
teardown_reaches_released s h = ground arith

attempt_preempting :
    (s : VgpuSlice) (next : SlicePhase) (r m : String)
    → s.phase ≡ preempting
    → (after s (transition_slice_phase s next r m)).phase ≡ preempting
unfolding transition_slice_phase
attempt_preempting s next r m h = ground arith

-- No transition leads out of Preempting: every attempted sequence leaves such a slice preempting.
pub preempting_stuck :
    (s : VgpuSlice) (tries : List (SlicePhase × String × String))
    → s.phase ≡ preempting
    → (attempts s tries).phase ≡ preempting
unfolding attempts
preempting_stuck s [] h = h
preempting_stuck s ((next, r, m) ∷ rest) h =
    preempting_stuck (after s (transition_slice_phase s next r m)) rest
      (attempt_preempting s next r m h)
