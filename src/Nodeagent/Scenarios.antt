-- ===== src/Nodeagent/Scenarios.antt =====
-- internal/nodeagent: the results at a card and a slice that use more than their grants, and at a
-- slice that the agent allocates and releases.
use vgpu_scheduler.Api.{
  Read, SlicePhase, VgpuSlice, found, ready, released, releasing, scheduled, unreadable,
}
use vgpu_scheduler.Nodeagent.Allocator.{
  Allocator, allocate, allocate_locked, available, commit, committed_bytes, debit, pick_best_fit,
  pick_from, release, release_by_slice, release_locked,
}
use vgpu_scheduler.Nodeagent.Checkpoint.{
  CheckpointRecord, FileAnswers, absent, delete_record, load_all, records, save,
}
use vgpu_scheduler.Nodeagent.Drift.{DriftAnswers, detect_and_heal}
use vgpu_scheduler.Nodeagent.Drift.Pruning.{detect_exact, survivor}
use vgpu_scheduler.Nodeagent.Enforcement.{
  EvictionApi, after_evict, detect_once, done, enforce, enforce_since, engage_soft_warn, evict_pod,
  is_exempt, maybe_evict, prune_evictions,
}
use vgpu_scheduler.Nodeagent.Enforcement.Justified.{enforce_evicts}
use vgpu_scheduler.Nodeagent.Enforcement.Limits.{actions_of}
use vgpu_scheduler.Nodeagent.Enforcement.RateLimit.{Run, cycle, evictions_limited, start}
use vgpu_scheduler.Nodeagent.Enforcement.Window.{in_window, log}
use vgpu_scheduler.Nodeagent.Manager.{
  Agent, AgentAnswers, allocate_announced, allocate_slice, allocation_failed, forget_checkpoint,
  manage, new_manager, publish, release_recorded, release_unrecorded, report_ready, report_release,
}
use vgpu_scheduler.Nodeagent.Manager.Outcomes.{IsPublished}
use vgpu_scheduler.Nodeagent.Manager.Releases.{IsCleared, IsForgotten}
use vgpu_scheduler.Nodeagent.Manager.Reports.{ready-IsPublished, released-IsForgotten}
use vgpu_scheduler.Nodeagent.Manager.Restart.{recorded_on, restart_exact}
use vgpu_scheduler.Nodeagent.SliceViolation.{
  AttributionReads, GpuProcess, Indices, NodePod, PodName, SliceUsage, SliceViolationDetector,
  add_pod, attribute, charge_all, evict, index_claims, index_pods, index_slices, is_in_snapshot,
  new_detector, resolve, target_of,
}
use vgpu_scheduler.Nodeagent.SliceViolation.Charges.{attribute_exact, bytes_to}
use vgpu_scheduler.Nodeagent.Violation.{ViolationDetector, evaluate as card_evaluate}
use vgpu_scheduler.Nodeagent.Violation.Streaks.{evaluate_exact, observe, sustained}
use vgpu_scheduler.Prelude.{
  Has, List, Option, String, [], arith, false, inl, inr, keep, length, not, refl, some, str_eq,
  str_eq_iff, suc, sum_by, true, zero, ℕ, ◌&&◌, ◌*◌, ◌+◌, ◌∷◌, ◌≡◌, ◌≢◌, ◌≤◌,
}
use vgpu_scheduler.Prelude.Dict.{Dict, delete, insert, lookup, total}
use vgpu_scheduler.State.{mark_slice_ready, transition_slice_phase}

abbrev fresh_cards : ViolationDetector
fresh_cards = record { node_name = "n1"; interval = 30; streak = []; active = [] }

abbrev in_phase : SlicePhase → String → String → ℕ → VgpuSlice
in_phase phase device allocation bytes = record {
  name = "worker";
  namespace = "team";
  uid = "s1";
  created_at = 0;
  gang_ref = "";
  reservation_ref = "";
  preferred_zone = "";
  claim_ref = "worker-claim";
  node_name = "n1";
  requested_vram = 10;
  phase = phase;
  device_uuid = device;
  allocation_id = allocation;
  allocated_bytes = bytes;
  failure_reason = "";
  last_error = "";
  conditions = [];
}

abbrev worker : VgpuSlice
worker = in_phase ready "GPU-0" "alloc-1" 10

abbrev worker_pod : PodName
worker_pod = record { namespace = "team"; name = "worker-pod" }

abbrev usage_of : ℕ → List PodName → SliceUsage
usage_of used pods = record {
  namespace = "team";
  name = "worker";
  grant = 10;
  used = used;
  pods = pods;
}

abbrev process : GpuProcess
process = record { pid = 7; device_uuid = "GPU-0"; used_memory = 400000000 }

abbrev node_pod : NodePod
node_pod = record { uid = "p1"; namespace = "team"; name = "worker-pod"; claim = "worker-claim" }

abbrev owner_of : ℕ → Option String
owner_of pid = some "p1"

abbrev api : EvictionApi
api = record { exempt = λ n. found false; evict = λ p. done }

abbrev overdue : SliceViolationDetector
overdue = record (new_detector "n1" evict) { violation_start = ("team/worker", 0) ∷ [] }

abbrev engaged : SliceViolationDetector
engaged = record overdue {
  enforced = ("team/worker", true) ∷ [];
  stamped_pods = ("team/worker", worker_pod ∷ []) ∷ [];
}

abbrev seen_processes : AttributionReads
seen_processes = record {
  slices = some (worker ∷ []);
  pods = some (node_pod ∷ []);
  owner = owner_of;
  procs = process ∷ [];
  procs_again = some (process ∷ []);
}

abbrev indices : Indices
indices = record {
  by_claim = index_claims "n1" (worker ∷ []) [];
  by_pod = index_pods (node_pod ∷ []) [];
  owner = owner_of;
  procs = process ∷ [];
}

abbrev agent : ℕ → SliceViolationDetector
agent zero = new_detector "n1" evict
agent (suc n) = (detect_once api (90 * n) true seen_processes (agent n)).1

abbrev evictions : ℕ → List ℕ
evictions zero = []
evictions (suc n) =
    log (90 * n) (actions_of (detect_once api (90 * n) true seen_processes (agent n)).0)
      (evictions n)

-- Five cycles, of which the third sees the violation and the fifth evicts.
cycles : Run "n1" evict (agent 5) 360 (evictions 5)
cycles =
    cycle
      (cycle
        (cycle
          (cycle (cycle (start 0) api 0 true seen_processes (omega arith)) api 90 true
            seen_processes (omega arith))
          api 180 true seen_processes (omega arith))
        api 270 true seen_processes (omega arith))
      api 360 true seen_processes (omega arith)

named : (a : String) → str_eq a "" ≡ false → a ≢ ""
named a e h = absurd (ground (arith, str_eq_iff a ""))

abbrev all_well : FileAnswers
all_well = record { dir_made = true; readable = true; written = true }

abbrev node_answers : AgentAnswers
node_answers = record {
  announced = true;
  reported = true;
  devices = some ((record { uuid = "GPU-0"; total = 100; reserved = 10 }) ∷ []);
  alloc_id = "alloc-1";
  spec_written = true;
  spec_removed = true;
  file = all_well;
  now = 5;
}

abbrev empty_ledger : Allocator
empty_ledger = record { initialized = true; committed = []; by_alloc = []; by_slice = [] }

abbrev blank_agent : Agent
blank_agent = record { node_name = "n1"; allocator = empty_ledger; store = absent; specs = [] }

abbrev saved_record : CheckpointRecord
saved_record = record {
  allocation_id = "alloc-1";
  slice_uid = "s1";
  slice_name = "worker";
  namespace = "team";
  claim_name = "worker-claim";
  device_uuid = "GPU-0";
  allocated_bytes = 10;
  node_name = "n1";
  created_at = 5;
}

abbrev saved : Dict CheckpointRecord
saved = ("alloc-1", saved_record) ∷ []

abbrev holding_agent : Agent
holding_agent = record {
  node_name = "n1";
  allocator = record {
    initialized = true;
    committed = ("GPU-0", 10) ∷ [];
    by_alloc = ("alloc-1", record { slice_uid = "s1"; device_uuid = "GPU-0"; bytes = 10 }) ∷ [];
    by_slice = ("s1", "alloc-1") ∷ [];
  };
  store = records saved;
  specs = ("alloc-1", "GPU-0") ∷ [];
}

abbrev ready_worker : VgpuSlice
ready_worker = record worker { last_error = "NodeAgent beginning hardware allocation" }

abbrev released_worker : VgpuSlice
released_worker = record (in_phase released "" "" 0) {
  failure_reason = "CleanupComplete";
  last_error = "Hardware freed";
}

abbrev unreachable : String → String → Read VgpuSlice
unreachable namespace name = unreadable

abbrev at_restart : DriftAnswers
at_restart = record {
  client = some unreachable;
  status_written = λ s. true;
  loading = all_well;
  deleting = λ id. all_well;
}

evaluate_exact_example :
    let v =
      (card_evaluate "GPU-0" 400000000 10
        (observe "GPU-0" ((400000000, 10) ∷ (400000000, 10) ∷ []) fresh_cards)).0 in
    (v.violating ≡ sustained ((400000000, 10) ∷ (400000000, 10) ∷ (400000000, 10) ∷ []))
    × (v.onset
        ≡ sustained ((400000000, 10) ∷ (400000000, 10) ∷ (400000000, 10) ∷ [])
          && not (sustained ((400000000, 10) ∷ (400000000, 10) ∷ [])))
unfolding lookup
evaluate_exact_example =
    evaluate_exact "GPU-0" 400000000 10 ((400000000, 10) ∷ (400000000, 10) ∷ []) fresh_cards refl
      refl

attribute_exact_example :
    (v : SliceUsage) × (lookup "team/worker"
        (("team/worker", usage_of 400000000 (worker_pod ∷ [])) ∷ [])
      ≡ some v)
    × (v.used ≡ sum_by (bytes_to indices "team/worker") (process ∷ []))
    × (v.grant ≡ 10)
unfolding attribute charge_all target_of resolve is_in_snapshot index_slices index_claims index_pods
    add_pod lookup insert str_eq
attribute_exact_example =
    attribute_exact "n1" "team/worker" (worker ∷ []) (node_pod ∷ []) owner_of (process ∷ [])
      (process ∷ []) (usage_of 0 []) (("team/worker", usage_of 400000000 (worker_pod ∷ [])) ∷ [])
      refl refl

evictions_limited_example : length (keep (in_window 0) (evictions 5)) ≤ 3
evictions_limited_example = evictions_limited 0 cycles

enforce_evicts_example :
    (true ≡ true)
    × (overdue.enforce_mode ≡ evict)
    × ((start : ℕ) × (lookup "team/worker" overdue.violation_start ≡ some start)
        × (start + 180 ≤ 200))
    × Has worker_pod (worker_pod ∷ [])
    × (is_exempt (api.exempt "team") ≡ false)
    × (api.evict worker_pod ≡ done)
unfolding enforce enforce_since engage_soft_warn maybe_evict evict_pod after_evict is_exempt
    prune_evictions new_detector keep lookup insert str_eq
enforce_evicts_example =
    enforce_evicts api 200 (usage_of 400000000 (worker_pod ∷ [])) true overdue worker_pod
      (inr (inl refl))

ready-IsPublished_example :
    IsPublished
      (manage node_answers false blank_agent (in_phase scheduled "" "" 0)).agent
      "s1"
      ready_worker
unfolding manage allocate_slice transition_slice_phase allocate_announced publish allocation_failed
    report_ready report_release mark_slice_ready release_recorded release_unrecorded
    forget_checkpoint allocate allocate_locked pick_best_fit pick_from available committed_bytes
    commit release release_by_slice release_locked debit save load_all delete_record lookup insert
    delete str_eq
ready-IsPublished_example =
    ready-IsPublished node_answers false blank_agent (in_phase scheduled "" "" 0) ready_worker refl
      refl

released-IsForgotten_example :
    IsForgotten
      (manage node_answers true holding_agent (in_phase releasing "" "" 0)).agent
      "alloc-1"
    × IsCleared released_worker
unfolding manage allocate_slice transition_slice_phase allocate_announced publish allocation_failed
    report_ready report_release mark_slice_ready release_recorded release_unrecorded
    forget_checkpoint allocate allocate_locked pick_best_fit pick_from available committed_bytes
    commit release release_by_slice release_locked debit save load_all delete_record lookup insert
    delete str_eq
released-IsForgotten_example =
    released-IsForgotten node_answers true holding_agent (in_phase releasing "" "" 0)
      released_worker "alloc-1" (named "s1" refl) (named "alloc-1" refl) (inr (refl, refl)) refl
      refl

restart_exact_example :
    committed_bytes (new_manager "n1" all_well (records saved) []).allocator "GPU-0"
    ≡ total (recorded_on "GPU-0") saved
unfolding lookup str_eq
restart_exact_example =
    restart_exact "n1" "GPU-0" all_well saved [] refl (refl, tt)
      ((named "alloc-1" refl, named "GPU-0" refl), tt)

detect_exact_example :
    let healed = (detect_and_heal at_restart empty_ledger (records saved)).1 in
    (m : Dict CheckpointRecord) × (healed.store ≡ records m)
    × ((id : String) → lookup id m ≡ survivor unreachable (lookup id saved))
    × (healed.failed_slices ≡ [])
    × (healed.allocator ≡ empty_ledger)
unfolding lookup
detect_exact_example =
    detect_exact at_restart unreachable empty_ledger saved refl refl (λ k. (refl, refl)) (refl, tt)
