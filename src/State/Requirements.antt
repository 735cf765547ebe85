-- ===== src/State/Requirements.antt =====
-- internal/state/invariants.go and transitions.go: what each phase requires of a slice, and that the
-- transitions which set the fields meet it.
use vgpu_scheduler.Prelude.{
  ℕ, ◌≤◌, ◌<◌, ◌≡◌, ◌≢◌, ◌↔◌, refl, String, List, [], ◌∷◌, ok, err, arith, str_eq_iff, length, All,
}
use vgpu_scheduler.Api.{
  VgpuSlice, SlicePhase, scheduled, allocating, ready, releasing, released, failed,
}
use vgpu_scheduler.State.Runs.{phase_eq_sound}
use vgpu_scheduler.State.{
  check_phase, validate_slice_invariant, transition_slice_phase, mark_slice_ready, sanitize_rune,
  sanitize_for_log, missing_allocation_id,
}

-- What the phases require, said without the order of the checks.
abbrev pub Requires : SlicePhase → VgpuSlice → Type 0
Requires scheduled s = s.node_name ≢ ""
Requires allocating s = s.node_name ≢ ""
Requires ready s =
    (s.node_name ≢ "") × (s.allocation_id ≢ "") × (s.device_uuid ≢ "") × (0 < s.allocated_bytes)
Requires releasing s = 0 < s.allocated_bytes → s.allocation_id ≢ ""
Requires failed s = s.failure_reason ≢ ""
Requires released s = (s.device_uuid ≡ "") × (s.allocation_id ≡ "") × (s.allocated_bytes ≡ 0)
Requires _ s = Unit

check_iff : (p : SlicePhase) (s : VgpuSlice) → (check_phase p s ≡ ok tt) ↔ Requires p s
unfolding check_phase
check_iff scheduled s = ground (arith, str_eq_iff s.node_name "")
check_iff allocating s = ground (arith, str_eq_iff s.node_name "")
check_iff ready s =
    ground
      (arith, str_eq_iff s.node_name "", str_eq_iff s.allocation_id "", str_eq_iff s.device_uuid "")
check_iff releasing s = ground (arith, str_eq_iff s.allocation_id "")
check_iff failed s = ground (arith, str_eq_iff s.failure_reason "")
check_iff released s = ground (arith, str_eq_iff s.device_uuid "", str_eq_iff s.allocation_id "")
check_iff _ s = (λ _. tt, λ _. refl)

-- A slice passes the check exactly when it has what its phase requires.
pub validate_iff : (s : VgpuSlice) → (validate_slice_invariant s ≡ ok tt) ↔ Requires s.phase s
unfolding validate_slice_invariant
validate_iff s = check_iff s.phase s

-- A slice on a node that is marked ready with a device and a positive byte count passes the check,
-- and an empty allocation ID is always refused.
pub mark_ready-valid :
    (s : VgpuSlice) (alloc_id dev_uuid : String) (bytes : ℕ)
    → s.node_name ≢ ""
    → dev_uuid ≢ ""
    → 0 < bytes
    → ((t : VgpuSlice)
        → mark_slice_ready s alloc_id dev_uuid bytes ≡ ok t
        → validate_slice_invariant t ≡ ok tt)
      × (mark_slice_ready s "" dev_uuid bytes ≡ err missing_allocation_id)
unfolding mark_slice_ready validate_slice_invariant
mark_ready-valid s alloc_id dev_uuid bytes node dev pos = (
  λ t e. ground (
    arith,
    str_eq_iff alloc_id "",
    str_eq_iff s.node_name "",
    str_eq_iff dev_uuid "",
    phase_eq_sound s.phase ready,
  ),
  ground (arith, str_eq_iff "" ""),
)

-- A slice that a transition with a reason takes to Failed passes the check.
pub fail-valid :
    (s t : VgpuSlice) (reason message : String)
    → s.phase ≢ failed
    → reason ≢ ""
    → transition_slice_phase s failed reason message ≡ ok t
    → validate_slice_invariant t ≡ ok tt
unfolding transition_slice_phase validate_slice_invariant
fail-valid s t reason message live given e = ground (arith, str_eq_iff reason "")

-- A sanitised text has no control characters, as many runes as before, and is not changed by a
-- second pass.
pub sanitize_safe :
    (runes : List ℕ)
    → All (λ r. (0x20 ≤ r) × (r ≢ 0x7f)) (sanitize_for_log runes)
      × (length (sanitize_for_log runes) ≡ length runes)
      × (sanitize_for_log (sanitize_for_log runes) ≡ sanitize_for_log runes)
unfolding sanitize_for_log sanitize_rune
sanitize_safe [] = (tt, refl, refl)
sanitize_safe (r ∷ runes) = ground (arith, sanitize_safe runes)
