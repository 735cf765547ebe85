-- ===== src/Nodeagent/Manager.antt =====
-- internal/nodeagent/manager.go and reporter.go: what the agent of a node does about a slice. The CDI
-- specs are a map from the allocation to its card; what the API, the file system and the hardware
-- answer is an argument.
pub mod Outcomes
pub mod Phases
pub mod Releases
pub mod Reports
pub mod Restart
use vgpu_scheduler.Prelude.{
  ℕ, String, Bool, true, false, ◌&&◌, ◌||◌, not, Option, none, some, List, [], ◌∷◌, str_eq,
  if◌then◌else◌, Result, ok, err,
}
use vgpu_scheduler.Prelude.Dict.{Dict, insert, delete}
use vgpu_scheduler.Api.{VgpuSlice, scheduled, allocating, releasing, released, failed, phase_eq}
use vgpu_scheduler.State.{transition_slice_phase, mark_slice_ready}
use vgpu_scheduler.Nodeagent.Allocator.{
  AllocDevice, Allocator, AllocationResult, AllocateError, fragmentation, new_allocator, allocate,
  release, release_by_slice, restore_allocation,
}
use vgpu_scheduler.Nodeagent.Checkpoint.{
  CheckpointRecord, CheckpointFile, FileAnswers, load_all, save, delete_record,
}

-- The manager with its ledger, the checkpoint file and the CDI specs of the node.
pub record Agent : Type 0 where
  pub node_name : String
  pub allocator : Allocator
  pub store : CheckpointFile
  pub specs : Dict String

-- Whether the first and the last status write are accepted, the cards, the new ID of an allocation, and
-- whether the spec and the checkpoint can be written and removed.
pub record AgentAnswers : Type 0 where
  pub announced : Bool
  pub reported : Bool
  pub devices : Option (List AllocDevice)
  pub alloc_id : String
  pub spec_written : Bool
  pub spec_removed : Bool
  pub file : FileAnswers
  pub now : ℕ

-- The agent afterwards, the last status that the API accepted, and the error.
pub record AgentOutcome : Type 0 where
  pub agent : Agent
  pub stored : Option VgpuSlice
  pub result : Result (Unit {0}) (Unit {0})

unfoldable pub restore_all : List (String × CheckpointRecord) → Allocator → Allocator
restore_all [] al = al
restore_all ((id, r) ∷ rest) al =
    restore_all rest (restore_allocation id r.slice_uid r.device_uuid r.allocated_bytes al)

-- `NewManager`: the ledger is seeded from the checkpoint, if it can be read.
unfoldable pub new_manager : String → FileAnswers → CheckpointFile → Dict String → Agent
unfolding restore_all load_all
new_manager node fs file specs = record {
  node_name = node;
  allocator = elim (load_all fs file) [
    | err _ ↦ new_allocator
    | ok m ↦ restore_all m new_allocator
  ];
  store = file;
  specs = specs;
}

abbrev pub fails : Agent → Option VgpuSlice → AgentOutcome
fails ag stored = record { agent = ag; stored = stored; result = err tt }

-- The end of a path: the status write, over the last one that was accepted.
abbrev pub report : AgentAnswers → Agent → Option VgpuSlice → VgpuSlice → AgentOutcome
report a ag before s =
    if a.reported then record { agent = ag; stored = some s; result = ok tt } else fails ag before

-- `ReportAllocationReady`, after the transition to Allocating was stored.
unfoldable pub report_ready : AgentAnswers → Agent → VgpuSlice → AllocationResult → AgentOutcome
report_ready a ag s r = elim (mark_slice_ready s r.allocation_id r.device_uuid r.allocated_bytes) [
  | err _ ↦ fails ag (some s)
  | ok t ↦ report a ag (some s) t
]

-- `ReportAllocationFailed`.
unfoldable pub report_failed : AgentAnswers → Agent → VgpuSlice → String → AgentOutcome
report_failed a ag s reason = elim (transition_slice_phase s failed "AllocationImpossible" reason) [
  | err _ ↦ fails ag (some s)
  | ok t ↦ report a ag (some s) t
]

abbrev pub cleared : VgpuSlice → VgpuSlice
cleared s = record s { device_uuid = ""; allocation_id = ""; allocated_bytes = 0 }

abbrev step_to_releasing : VgpuSlice → Result (Unit {0}) VgpuSlice
step_to_releasing s =
    if phase_eq s.phase releasing
    then ok s
    else elim (transition_slice_phase s releasing "CleanupStarted" "Hardware release in progress") [
      | err _ ↦ err tt
      | ok t ↦ ok t
    ]

-- `ReportReleaseComplete`: through Releasing to Released, with one write.
unfoldable pub report_release : AgentAnswers → Agent → VgpuSlice → AgentOutcome
report_release a ag s =
    if phase_eq s.phase released
    then record { agent = ag; stored = none; result = ok tt }
    else elim (step_to_releasing s) [
      | err _ ↦ fails ag none
      | ok t ↦ elim (transition_slice_phase t released "CleanupComplete" "Hardware freed") [
        | err _ ↦ fails ag none
        | ok u ↦ report a ag none (cleared u)
      ]
    ]

abbrev pub record_of : Agent → VgpuSlice → AllocationResult → ℕ → CheckpointRecord
record_of ag s r now = record {
  allocation_id = r.allocation_id;
  slice_uid = s.uid;
  slice_name = s.name;
  namespace = s.namespace;
  claim_name = s.claim_ref;
  device_uuid = r.device_uuid;
  allocated_bytes = r.allocated_bytes;
  node_name = ag.node_name;
  created_at = now;
}

-- The CDI spec, the checkpoint and the report of an allocation that the ledger has.
unfoldable pub publish : AgentAnswers → Agent → VgpuSlice → AllocationResult → AgentOutcome
unfolding report_ready
publish a ag s r =
    if not a.spec_written
    then fails ag (some s)
    else let opened = record ag { specs = insert r.allocation_id r.device_uuid ag.specs } in
      let (saved, file) = save a.file (record_of ag s r a.now) ag.store in
      let kept = record opened { store = file } in
      elim saved [ err _ ↦ fails kept (some s) | ok _ ↦ report_ready a kept s r ]

-- An impossible allocation fails the slice; any other error is retried.
unfoldable pub allocation_failed : AgentAnswers → Agent → VgpuSlice → AllocateError → AgentOutcome
unfolding report_failed
allocation_failed a ag s (fragmentation requested free) = report_failed a ag s "fragmentation"
allocation_failed a ag s _ = fails ag (some s)

unfoldable pub allocate_announced : AgentAnswers → Agent → VgpuSlice → AgentOutcome
unfolding publish allocation_failed
allocate_announced a ag s =
    elim (allocate ag.allocator a.devices a.alloc_id s.uid s.requested_vram) [
      | err e ↦ allocation_failed a ag s e
      | ok (r, al) ↦ publish a (record ag { allocator = al }) s r
    ]

unfoldable pub allocate_slice : AgentAnswers → Agent → VgpuSlice → AgentOutcome
unfolding allocate_announced
allocate_slice a ag s =
    elim (transition_slice_phase s allocating "" "NodeAgent beginning hardware allocation") [
      | err _ ↦ fails ag none
      | ok t ↦ if a.announced then allocate_announced a ag t else fails ag none
    ]

-- The spec and the checkpoint of an allocation that the ledger no longer has.
unfoldable pub forget_checkpoint : AgentAnswers → String → Agent → VgpuSlice → AgentOutcome
unfolding report_release
forget_checkpoint a id ag s =
    let (deleted, file) = delete_record a.file id ag.store in
    let kept = record ag { store = file } in
    elim deleted [ err _ ↦ fails kept none | ok _ ↦ report_release a kept s ]

abbrev pub close : String → Agent → Agent
close id ag = record ag { specs = delete id ag.specs }

-- A slice that records its allocation: its spec, the ledger, then the checkpoint.
unfoldable pub release_recorded : AgentAnswers → Agent → VgpuSlice → AgentOutcome
unfolding forget_checkpoint
release_recorded a ag s =
    if not a.spec_removed then fails ag none else elim (release ag.allocator s.allocation_id) [
      | err _ ↦ fails (close s.allocation_id ag) none
      | ok al ↦
          forget_checkpoint a s.allocation_id (record (close s.allocation_id ag) { allocator = al })
            s
    ]

abbrev pub recover : AgentAnswers → Agent → VgpuSlice → String → AgentOutcome
recover a ag s id = if a.spec_removed then forget_checkpoint a id (close id ag) s else fails ag none

-- The wedge recovery: the ledger finds the allocation by the slice's UID.
unfoldable pub release_unrecorded : AgentAnswers → Agent → VgpuSlice → AgentOutcome
unfolding forget_checkpoint report_release
release_unrecorded a ag s = elim (release_by_slice ag.allocator s.uid) [
  | err _ ↦ fails ag none
  | ok (id, al) ↦
      if str_eq id ""
      then report_release a (record ag { allocator = al }) s
      else recover a (record ag { allocator = al }) s id
]

-- `ReconcileSlice`.
unfoldable pub manage : AgentAnswers → Bool → Agent → VgpuSlice → AgentOutcome
unfolding allocate_slice release_recorded release_unrecorded
manage a deleting ag s =
    if not deleting && (phase_eq s.phase scheduled || phase_eq s.phase allocating)
    then allocate_slice a ag s
    else if phase_eq s.phase releasing || deleting
    then (if str_eq s.allocation_id "" then release_unrecorded a ag s else release_recorded a ag s)
    else record { agent = ag; stored = none; result = ok tt }
