-- ===== src/Api.antt =====
-- api/v1alpha1: the objects that the scheduler, the controllers and the node agent share.
-- Byte counts, priorities and grace periods are non-negative by the schema of the custom resources.
use vgpu_scheduler.Prelude.{ℕ, String, Bool, true, false, Option, List}

-- The slice phases that the code writes: those of internal/state/phases.go, the empty initial one,
-- and the scheduler's "Preempting".
pub data SlicePhase : Type 0 where
  initial pending scheduled allocating ready releasing released failed preempting : SlicePhase

abbrev pub phase_eq : SlicePhase → SlicePhase → Bool
phase_eq initial initial = true
phase_eq pending pending = true
phase_eq scheduled scheduled = true
phase_eq allocating allocating = true
phase_eq ready ready = true
phase_eq releasing releasing = true
phase_eq released released = true
phase_eq failed failed = true
phase_eq preempting preempting = true
phase_eq _ _ = false

-- A status condition: its type, status, reason and message, and when it last changed.
pub record Condition : Type 0 where
  pub kind : String
  pub status : String
  pub reason : String
  pub message : String
  pub changed_at : ℕ

-- VGPUSlice: the metadata that the code reads, `spec` and `status`. An annotation that is not set
-- reads as "", as in Go.
pub record VgpuSlice : Type 0 where
  pub name : String
  pub namespace : String
  pub uid : String
  pub created_at : ℕ
  pub gang_ref : String
  pub reservation_ref : String
  pub preferred_zone : String
  pub claim_ref : String
  pub node_name : String
  pub requested_vram : ℕ
  pub phase : SlicePhase
  pub device_uuid : String
  pub allocation_id : String
  pub allocated_bytes : ℕ
  pub failure_reason : String
  pub last_error : String
  pub conditions : List Condition

-- VGPUClaim: the fields that the scheduler reads.
pub record VgpuClaim : Type 0 where
  pub name : String
  pub namespace : String
  pub job_ref : String
  pub requested_vram : ℕ
  pub service_tier : String

-- VGPUJob: the fields that the scheduler reads.
pub record VgpuJob : Type 0 where
  pub name : String
  pub namespace : String
  pub priority : ℕ
  pub preemptible : Bool
  pub grace_seconds : Option ℕ

-- A `Get` from the API server.
pub data Read (A : Type 0) : Type 0 where
  found : A → Read A
  not_found unreadable : Read A
