-- ===== src/Nodeagent/Drift.antt =====
-- internal/nodeagent/drift/detector.go: the check of the checkpoint against the hardware and the API at
-- the agent's start.
pub mod Pruning
use vgpu_scheduler.Prelude.{
  String, Bool, true, false, ◌&&◌, not, Option, none, some, List, [], ◌∷◌, ◌++◌, if◌then◌else◌,
  Result, ok, err,
}
use vgpu_scheduler.Prelude.Dict.{Dict, lookup, delete}
use vgpu_scheduler.Api.{VgpuSlice, ready, failed, phase_eq, Read, found, not_found, unreadable}
use vgpu_scheduler.State.{transition_slice_phase}
use vgpu_scheduler.Nodeagent.Allocator.{Allocator, release}
use vgpu_scheduler.Nodeagent.Checkpoint.{
  CheckpointRecord, CheckpointFile, FileAnswers, load_all, delete_record,
}

-- `InspectAllHardware`: the hardware cannot list its allocations.
unfoldable pub inspect_all_hardware : Allocator → Dict Bool × Bool
inspect_all_hardware al = ([], false)

-- The slices as the API has them, if there is a client; whether the status of a slice can be written;
-- and the file system, at each deletion.
pub record DriftAnswers : Type 0 where
  pub client : Option (String → String → Read VgpuSlice)
  pub status_written : VgpuSlice → Bool
  pub loading : FileAnswers
  pub deleting : String → FileAnswers

pub data DriftError : Type 0 where
  prune_failed slice_unreadable write_failed release_failed : String → DriftError
  load_failed : DriftError

-- The state of the check: what is left of the hardware's list, the slices that were failed, the errors.
pub record Healing : Type 0 where
  pub store : CheckpointFile
  pub allocator : Allocator
  pub hardware : Dict Bool
  pub failed_slices : List VgpuSlice
  pub errors : List DriftError

abbrev with_error : DriftError → Healing → Healing
with_error e h = record h { errors = h.errors ++ e ∷ [] }

unfoldable pub prune : DriftAnswers → String → Healing → Healing
prune a id h =
    let (deleted, file) = delete_record (a.deleting id) id h.store in
    let kept = record h { store = file } in
    elim deleted [ err _ ↦ with_error (prune_failed id) kept | ok _ ↦ kept ]

-- Without an inventory of the hardware only the API decides.
unfoldable pub check_api : DriftAnswers → String → Read VgpuSlice → Healing → Healing
unfolding prune
check_api a id (found s) h = h
check_api a id not_found h = prune a id h
check_api a id unreadable h = with_error (slice_unreadable id) h

-- A Ready slice whose allocation the hardware lost.
unfoldable pub fail_slice : DriftAnswers → String → VgpuSlice → Healing → Healing
fail_slice a id s h =
    elim (transition_slice_phase s failed "DriftDetected"
      "Device missing from PCIe bus on node boot") [
        | err _ ↦ with_error (write_failed id) h
        | ok t ↦
            if a.status_written t
            then record h { failed_slices = t ∷ h.failed_slices }
            else with_error (write_failed id) h
      ]

-- Any failed read prunes the checkpoint of an allocation that the hardware lost.
unfoldable pub check_lost : DriftAnswers → String → Read VgpuSlice → Healing → Healing
unfolding prune fail_slice
check_lost a id (found s) h = if phase_eq s.phase ready then prune a id (fail_slice a id s h) else h
check_lost a id not_found h = prune a id h
check_lost a id unreadable h = prune a id h

abbrev listed : Option Bool → Bool
listed none = false
listed (some b) = b

abbrev check_uninspected : DriftAnswers → String → CheckpointRecord → Healing → Healing
check_uninspected a id r h = elim (a.client) [
  | none ↦ h
  | some get ↦ check_api a id (get r.namespace r.slice_name) h
]

abbrev check_missing : DriftAnswers → String → CheckpointRecord → Healing → Healing
check_missing a id r h = elim (a.client) [
  | none ↦ prune a id h
  | some get ↦ check_lost a id (get r.namespace r.slice_name) h
]

unfoldable pub heal_record : DriftAnswers → Bool → String → CheckpointRecord → Healing → Healing
unfolding check_api check_lost prune
heal_record a inspectable id r h =
    if inspectable && listed (lookup id h.hardware)
    then record h { hardware = delete id h.hardware }
    else if not inspectable
    then check_uninspected a id r h
    else check_missing a id r h

unfoldable pub heal_records :
    DriftAnswers → Bool → List (String × CheckpointRecord) → Healing → Healing
unfolding heal_record
heal_records a inspectable [] h = h
heal_records a inspectable ((id, r) ∷ rest) h =
    heal_records a inspectable rest (heal_record a inspectable id r h)

-- What the hardware has and the checkpoint does not.
unfoldable pub release_orphans : List (String × Bool) → Healing → Healing
release_orphans [] h = h
release_orphans ((id, b) ∷ rest) h = release_orphans rest (elim (release h.allocator id) [
  | err _ ↦ with_error (release_failed id) h
  | ok al ↦ record h { allocator = al }
])

abbrev joined : List DriftError → Result (List DriftError) (Unit {0})
joined [] = ok tt
joined errors = err errors

abbrev heal_from : DriftAnswers → Bool → List (String × CheckpointRecord) → Healing → Healing
heal_from a inspectable rs h =
    let healed = heal_records a inspectable rs h in release_orphans healed.hardware healed

-- `DetectAndHeal`.
unfoldable pub detect_and_heal :
    DriftAnswers → Allocator → CheckpointFile → Result (List DriftError) (Unit {0}) × Healing
unfolding inspect_all_hardware heal_records release_orphans
detect_and_heal a al file =
    let (hardware, inspectable) = inspect_all_hardware al in
    let h : Healing = record {
      store = file;
      allocator = al;
      hardware = hardware;
      failed_slices = [];
      errors = [];
    } in
    elim (load_all a.loading file) [
      | err _ ↦ (err (load_failed ∷ []), h)
      | ok m ↦ let healed = heal_from a inspectable m h in (joined healed.errors, healed)
    ]
