-- ===== src/State.antt =====
-- internal/state: the phases of a slice, the transitions between them, and what each phase requires.
pub mod Runs
pub mod Requirements
use vgpu_scheduler.Prelude.{
  ℕ, ◌≡◌, String, Bool, true, false, ◌&&◌, ◌||◌, not, List, [], ◌∷◌, map, ltb, ◌==◌, str_eq,
  if◌then◌else◌, Result, ok, err, guard, ◌>>=◌, ◌>>◌,
}
use vgpu_scheduler.Api.{
  VgpuSlice, SlicePhase, initial, pending, scheduled, allocating, ready, releasing, released,
  failed, preempting, phase_eq,
}

-- `legalSliceTransitions`; `preempting` is no key of the table.
unfoldable pub legal_slice_transition : SlicePhase → SlicePhase → Bool
legal_slice_transition initial pending = true
legal_slice_transition initial releasing = true
legal_slice_transition pending scheduled = true
legal_slice_transition pending failed = true
legal_slice_transition pending releasing = true
legal_slice_transition scheduled allocating = true
legal_slice_transition scheduled failed = true
legal_slice_transition scheduled releasing = true
legal_slice_transition allocating ready = true
legal_slice_transition allocating failed = true
legal_slice_transition allocating releasing = true
legal_slice_transition ready releasing = true
legal_slice_transition ready failed = true
legal_slice_transition releasing released = true
legal_slice_transition releasing failed = true
legal_slice_transition failed releasing = true
legal_slice_transition _ _ = false

pub data StateViolation : Type 0 where
  illegal_transition : SlicePhase → SlicePhase → StateViolation
  missing_allocation_id : StateViolation

abbrev set_unless_empty : String → String → String
set_unless_empty new old = if str_eq new "" then old else new

unfoldable pub transition_slice_phase :
    VgpuSlice → SlicePhase → String → String → Result StateViolation VgpuSlice
unfolding legal_slice_transition
transition_slice_phase s next reason message =
    if phase_eq s.phase next
    then ok s
    else if not (legal_slice_transition s.phase next)
    then err (illegal_transition s.phase next)
    else ok (record s {
      phase = next;
      failure_reason = set_unless_empty reason s.failure_reason;
      last_error = set_unless_empty message s.last_error;
    })

unfoldable pub mark_slice_ready : VgpuSlice → String → String → ℕ → Result StateViolation VgpuSlice
unfolding transition_slice_phase
mark_slice_ready s alloc_id dev_uuid bytes = do
  guard (not (str_eq alloc_id "")) missing_allocation_id
  t ← transition_slice_phase s ready "" ""
  ok (record t { allocation_id = alloc_id; device_uuid = dev_uuid; allocated_bytes = bytes })

-- A rune that could forge a log line becomes `_`.
unfoldable pub sanitize_rune : ℕ → ℕ
sanitize_rune r = if ltb r 0x20 || r == 0x7f then b'_' else r

unfoldable pub sanitize_for_log : List ℕ → List ℕ
unfolding sanitize_rune
sanitize_for_log runes = map sanitize_rune runes

pub data InvariantViolation : Type 0 where
  no_node_name no_allocation_id no_device_uuid no_allocated_bytes : InvariantViolation
  release_without_id no_failure_reason not_cleared : InvariantViolation

-- The cases of the `switch` on the phase.
unfoldable pub check_phase : SlicePhase → VgpuSlice → Result InvariantViolation (Unit {0})
check_phase scheduled s = guard (not (str_eq s.node_name "")) no_node_name
check_phase allocating s = guard (not (str_eq s.node_name "")) no_node_name
check_phase ready s = do
  guard (not (str_eq s.node_name "")) no_node_name
  guard (not (str_eq s.allocation_id "")) no_allocation_id
  guard (not (str_eq s.device_uuid "")) no_device_uuid
  guard (ltb 0 s.allocated_bytes) no_allocated_bytes
check_phase releasing s =
    guard (not (ltb 0 s.allocated_bytes && str_eq s.allocation_id "")) release_without_id
check_phase failed s = guard (not (str_eq s.failure_reason "")) no_failure_reason
check_phase released s =
    guard
      (not (
        not (str_eq s.device_uuid "")
        || not (str_eq s.allocation_id "")
        || not (s.allocated_bytes == 0)))
      not_cleared
check_phase _ s = ok tt

unfoldable pub validate_slice_invariant : VgpuSlice → Result InvariantViolation (Unit {0})
unfolding check_phase
validate_slice_invariant s = check_phase s.phase s
