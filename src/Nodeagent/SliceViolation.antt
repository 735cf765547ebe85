-- ===== src/Nodeagent/SliceViolation.antt =====
-- internal/nodeagent/slice_violation.go: the detector of over-use by slice: its state, the processes
-- that it charges to the slices, its hysteresis and the condition that it writes. Times are in seconds.
pub mod Charges
use Prim.Native.String.{◌++◌ as append}
use vgpu_scheduler.Prelude.{
  ℕ, ◌+◌, ◌-◌, String, Bool, true, false, ◌&&◌, not, Option, none, some, List, [], ◌∷◌, ◌++◌, ltb,
  leb, ◌==◌, str_eq, if◌then◌else◌, Result, ok, err,
}
use vgpu_scheduler.Prelude.Dict.{Dict, lookup, insert}
use vgpu_scheduler.Api.{VgpuSlice, Condition}
use vgpu_scheduler.Nodeagent.Violation.{holds_capacity, count_or_zero, flag_or_false}

abbrev pub slice_overuse_tolerance_bytes : ℕ
slice_overuse_tolerance_bytes = 268435456

abbrev pub slice_overuse_streak_threshold : ℕ
slice_overuse_streak_threshold = 3

-- `types.NamespacedName` of a pod.
pub record PodName : Type 0 where
  pub namespace : String
  pub name : String

abbrev pub slice_key : String → String → String
slice_key ns name = append ns (append "/" name)

abbrev pub pod_key : PodName → String
pod_key p = slice_key p.namespace p.name

pub record SliceUsage : Type 0 where
  pub namespace : String
  pub name : String
  pub grant : ℕ
  pub used : ℕ
  pub pods : List PodName

abbrev same_pod : PodName → PodName → Bool
same_pod p q = str_eq p.namespace q.namespace && str_eq p.name q.name

abbrev has_pod : PodName → List PodName → Bool
has_pod p [] = false
has_pod p (q ∷ qs) = if same_pod q p then true else has_pod p qs

unfoldable pub add_pod : PodName → SliceUsage → SliceUsage
add_pod p u = if has_pod p u.pods then u else record u { pods = u.pods ++ p ∷ [] }

-- `off`, `softwarn` and `evict`.
pub data EnforcementMode : Type 0 where
  off soft_warn evict : EnforcementMode

-- The state of the detector. A key of `enforced` is a slice under soft enforcement; a key of
-- `evict_handled` is a pod that was evicted or is gone.
pub record SliceViolationDetector : Type 0 where
  pub node_name : String
  pub enforce_mode : EnforcementMode
  pub streak : Dict ℕ
  pub active : Dict Bool
  pub violation_start : Dict ℕ
  pub enforced : Dict Bool
  pub stamped_pods : Dict (List PodName)
  pub evict_handled : Dict String
  pub blocked_notified : Dict String
  pub eviction_times : List ℕ

-- `NewSliceViolationDetector`.
unfoldable pub new_detector : String → EnforcementMode → SliceViolationDetector
new_detector node mode = record {
  node_name = node;
  enforce_mode = mode;
  streak = [];
  active = [];
  violation_start = [];
  enforced = [];
  stamped_pods = [];
  evict_handled = [];
  blocked_notified = [];
  eviction_times = [];
}

pub record SliceVerdict : Type 0 where
  pub onset : Bool
  pub cleared : Bool
  pub excess : ℕ
  pub violating : Bool

unfoldable pub evaluate :
    String → ℕ → ℕ → SliceViolationDetector → SliceVerdict × SliceViolationDetector
evaluate key used grant d =
    let streak =
      if ltb (grant + slice_overuse_tolerance_bytes) used
      then count_or_zero (lookup key d.streak) + 1
      else 0 in
    let violating = leb slice_overuse_streak_threshold streak in
    let was = flag_or_false (lookup key d.active) in
    (
      record {
        onset = violating && not was;
        cleared = not violating && was;
        excess = used - grant;
        violating = violating;
      },
      record d { streak = insert key streak d.streak; active = insert key violating d.active },
    )

-- A process of the provider's snapshot.
pub record GpuProcess : Type 0 where
  pub pid : ℕ
  pub device_uuid : String
  pub used_memory : ℕ

-- A pod on the node, with its claim-ref annotation ("" if it has none).
pub record NodePod : Type 0 where
  pub uid : String
  pub namespace : String
  pub name : String
  pub claim : String

-- What the cycle reads: the slices, the pods of the node, the pod that the cgroup of a process names,
-- and the two snapshots of the processes.
pub record AttributionReads : Type 0 where
  pub slices : Option (List VgpuSlice)
  pub pods : Option (List NodePod)
  pub owner : ℕ → Option String
  pub procs : List GpuProcess
  pub procs_again : Option (List GpuProcess)

abbrev pub is_active : String → VgpuSlice → Bool
is_active node s = str_eq s.node_name node && holds_capacity s.phase

abbrev unused : VgpuSlice → SliceUsage
unused s = record {
  namespace = s.namespace;
  name = s.name;
  grant = s.requested_vram;
  used = 0;
  pods = [];
}

-- `byKey`: the usage of each active slice.
unfoldable pub index_slices : String → List VgpuSlice → Dict SliceUsage → Dict SliceUsage
index_slices node [] by_key = by_key
index_slices node (s ∷ ss) by_key =
    index_slices node ss
      (if is_active node s then insert (slice_key s.namespace s.name) (unused s) by_key else by_key)

-- `byClaim`: it points to the same usages, so that here it has their keys.
unfoldable pub index_claims : String → List VgpuSlice → Dict String → Dict String
index_claims node [] by_claim = by_claim
index_claims node (s ∷ ss) by_claim = index_claims node ss (
    if is_active node s && not (str_eq s.claim_ref "")
    then insert (slice_key s.namespace s.claim_ref) (slice_key s.namespace s.name) by_claim
    else by_claim)

-- `byPodUID`: the pods with a claim.
unfoldable pub index_pods : List NodePod → Dict NodePod → Dict NodePod
index_pods [] by_uid = by_uid
index_pods (p ∷ ps) by_uid =
    index_pods ps (if str_eq p.claim "" then by_uid else insert p.uid p by_uid)

-- Whether the first snapshot has the process on the device.
unfoldable pub is_in_snapshot : ℕ → String → List GpuProcess → Bool
is_in_snapshot pid dev [] = false
is_in_snapshot pid dev (p ∷ ps) =
    if p.pid == pid && str_eq p.device_uuid dev then true else is_in_snapshot pid dev ps

-- The pod's UID that `resolved` has for the process.
unfoldable pub resolve : (ℕ → Option String) → List GpuProcess → GpuProcess → Option String
unfolding is_in_snapshot
resolve owner procs p = if is_in_snapshot p.pid p.device_uuid procs then owner p.pid else none

-- The indices that the charging loop reads.
pub record Indices : Type 0 where
  pub by_claim : Dict String
  pub by_pod : Dict NodePod
  pub owner : ℕ → Option String
  pub procs : List GpuProcess

-- The pod and the key of the slice that a process of the second snapshot is charged to.
unfoldable pub target_of : Indices → GpuProcess → Option (PodName × String)
unfolding resolve
target_of ix p = elim (resolve ix.owner ix.procs p) [
  | none ↦ none
  | some uid ↦ elim (lookup uid ix.by_pod) [
    | none ↦ none
    | some q ↦ elim (lookup (slice_key q.namespace q.claim) ix.by_claim) [
      | none ↦ none
      | some key ↦ some (record { namespace = q.namespace; name = q.name }, key)
    ]
  ]
]

abbrev charge_usage : ℕ → PodName → String → Option SliceUsage → Dict SliceUsage → Dict SliceUsage
charge_usage bytes q key none usage = usage
charge_usage bytes q key (some u) usage =
    insert key (add_pod q (record u { used = u.used + bytes })) usage

abbrev pub charge_to : ℕ → Option (PodName × String) → Dict SliceUsage → Dict SliceUsage
charge_to bytes none usage = usage
charge_to bytes (some (q, key)) usage = charge_usage bytes q key (lookup key usage) usage

unfoldable pub charge_all : Indices → List GpuProcess → Dict SliceUsage → Dict SliceUsage
unfolding target_of add_pod
charge_all ix [] usage = usage
charge_all ix (p ∷ ps) usage = charge_all ix ps (charge_to p.used_memory (target_of ix p) usage)

-- `attribute`: a failed list or a failed second snapshot fails it.
unfoldable pub attribute : String → AttributionReads → Result (Unit {0}) (Dict SliceUsage)
unfolding index_slices index_claims index_pods charge_all
attribute node r = elim (r.slices) [
  | none ↦ err tt
  | some slices ↦ elim (r.pods) [
    | none ↦ err tt
    | some pods ↦ elim (r.procs_again) [
      | none ↦ err tt
      | some again ↦ ok (
          charge_all
            (record {
              by_claim = index_claims node slices [];
              by_pod = index_pods pods [];
              owner = r.owner;
              procs = r.procs;
            })
            again (index_slices node slices []))
    ]
  ]
]

-- A condition of the same kind is replaced, and keeps its time if its status stays.
unfoldable pub upsert_node_condition : List Condition → Condition → List Condition
upsert_node_condition [] c = c ∷ []
upsert_node_condition (x ∷ xs) c =
    if str_eq x.kind c.kind
    then (if str_eq x.status c.status then record c { changed_at = x.changed_at } else c) ∷ xs
    else x ∷ upsert_node_condition xs c
