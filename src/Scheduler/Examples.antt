-- ===== src/Scheduler/Examples.antt =====
-- internal/scheduler: the results at concrete caches, slices and quotas.
use vgpu_scheduler.Api.{VgpuJob, VgpuSlice, ready}
use vgpu_scheduler.Cache.{
  NodeState, VramCache, assume_slice, can_fit, charge_reserved, confirm_slice_or_rearm,
  pin_assumption, recalculate_free_vram, rollback_assumed_slice,
}
use vgpu_scheduler.Cache.Calls.{run}
use vgpu_scheduler.Prelude.{
  All, Bool, List, String, [], arith, false, none, refl, some, str_eq, str_eq_iff, true, ℕ, ◌<◌,
  ◌∷◌, ◌≡◌, ◌≢◌, ◌≤◌, ◌⊎◌,
}
use vgpu_scheduler.Prelude.Dict.{delete, insert, keys_where, lookup}
use vgpu_scheduler.Prelude.Sort.{insert_sorted, sort}
use vgpu_scheduler.Scheduler.Filter.{filter_node, valid_nodes}
use vgpu_scheduler.Scheduler.Plugin.{
  Answers, GateAnswer, fresh_attempt, gate_and_bind, gated, no_gate, past_gate, pin_and_bind,
  quota_stop, schedule, warm_cycle,
}
use vgpu_scheduler.Scheduler.Plugin.Attempts.{IsConfirmed}
use vgpu_scheduler.Scheduler.Plugin.Cycles.{schedule-gives_up, schedule_bound-IsConfirmed}
use vgpu_scheduler.Scheduler.Plugin.Undisturbed.{IsQuiet, schedule-Restores}
use vgpu_scheduler.Scheduler.Preemptor.{
  Evidence, VictimSelection, accumulate, candidate_of, candidates_of, cheaper, cooldown_key,
  cooling_down, job_may_yield, plan_of, select_victims, single_victim, slice_may_yield,
}
use vgpu_scheduler.Scheduler.Preemptor.Plans.{IsEligible, freed_by, plan-IsEligible, plan_covers}
use vgpu_scheduler.Scheduler.Quota.{VgpuQuota}
use vgpu_scheduler.Scheduler.Reserve.{
  ReservationTx, confirm, new_tx, reserve, rollback_if_not_confirmed,
}
use vgpu_scheduler.Scheduler.Score.{score_all, score_node, score_with_topology}

abbrev running : VgpuSlice
running = record {
  name = "worker";
  namespace = "team";
  uid = "s1";
  created_at = 0;
  gang_ref = "";
  reservation_ref = "";
  preferred_zone = "";
  claim_ref = "worker-claim";
  node_name = "n1";
  requested_vram = 10;
  phase = ready;
  device_uuid = "";
  allocation_id = "";
  allocated_bytes = 10;
  failure_reason = "";
  last_error = "";
  conditions = [];
}

abbrev node_in : String → ℕ → NodeState
node_in zone free = record {
  node_name = "n1";
  total_vram = free;
  allocated = 0;
  reserved = 0;
  free = free;
  healthy = true;
  zone = zone;
}

abbrev one_node : VramCache
one_node = record {
  nodes = ("n1", node_in "a" 100) ∷ [];
  assumed = [];
  confirmed = [];
  synced = [];
  allocated_bytes = [];
  allocated_node = [];
  seeded = true;
}

abbrev answers : GateAnswer → Bool → Answers
answers gate bind_succeeds = record {
  quota = none;
  member_read = none;
  planned = false;
  zone_read = none;
  gate = gate;
  bind_succeeds = bind_succeeds;
  now = 5;
  bind_now = 6;
  confirm_now = 7;
  during_quota = [];
  during_score = [];
  during_gate = [];
  during_bind = [];
}

abbrev batch : VgpuJob
batch = record {
  name = "batch";
  namespace = "team";
  priority = 10;
  preemptible = true;
  grace_seconds = some 120;
}

abbrev evidence : Evidence
evidence = record {
  claim_named = λ n. some (record {
    name = n;
    namespace = "team";
    job_ref = "batch";
    requested_vram = 10;
    service_tier = "";
  });
  job_named = λ n. some batch;
  cooldown = [];
  now = 0;
}

abbrev victim : VictimSelection
victim = record {
  slice = running;
  job = batch;
  priority = 10;
  grace_seconds = 120;
  allocated_bytes = 10;
}

abbrev reserved_tx : ReservationTx
reserved_tx = record {
  slice_uid = "s1";
  namespace = "team";
  node_name = "n1";
  bytes = 10;
  is_confirmed = false;
  is_held = false;
}

abbrev reserved_cache : VramCache
reserved_cache = record one_node {
  nodes = ("n1", record (node_in "a" 100) { reserved = 10; free = 90 }) ∷ [];
  assumed =
      (
        "s1",
        record { slice_uid = "s1"; namespace = "team"; node = "n1"; bytes = 10; expires_at = 35 },
      )
      ∷ [];
}

abbrev quota : VgpuQuota
quota = record { target_namespace = "team"; max_vram_bytes = 15 }

not_same : (a b : String) → str_eq a b ≡ false → a ≢ b
not_same a b e h = absurd (ground (arith, str_eq_iff a b))

quiet : (gate : GateAnswer) (bind_succeeds : Bool) → IsQuiet (answers gate bind_succeeds)
quiet gate bind_succeeds = record { quota = refl; score = refl; gate = refl; bind = refl }

schedule-gives_up_example :
    lookup "s1" (schedule (answers no_gate false) one_node "s1" "team" 10 false).1.assumed ≡ none
unfolding schedule warm_cycle quota_stop fresh_attempt gated gate_and_bind past_gate pin_and_bind
    pin_assumption run valid_nodes filter_node can_fit lookup insert delete keys_where str_eq
    score_with_topology score_all score_node reserve assume_slice confirm confirm_slice_or_rearm
    rollback_if_not_confirmed rollback_assumed_slice charge_reserved recalculate_free_vram new_tx
    sort insert_sorted
schedule-gives_up_example =
    schedule-gives_up (answers no_gate false) one_node "s1" "team" 10 false refl

schedule_bound-IsConfirmed_example :
    IsConfirmed (schedule (answers no_gate true) one_node "s1" "team" 10 false).1 "s1"
unfolding schedule warm_cycle quota_stop fresh_attempt gated gate_and_bind past_gate pin_and_bind
    pin_assumption run valid_nodes filter_node can_fit lookup insert delete keys_where str_eq
    score_with_topology score_all score_node reserve assume_slice confirm confirm_slice_or_rearm
    rollback_if_not_confirmed rollback_assumed_slice charge_reserved recalculate_free_vram new_tx
    sort insert_sorted
schedule_bound-IsConfirmed_example =
    schedule_bound-IsConfirmed (answers no_gate true) one_node "s1" "team" "n1" 10 false refl

schedule-Restores_example :
    lookup "n1" (schedule (answers no_gate false) one_node "s1" "team" 10 false).1.nodes
    ≡ lookup "n1" one_node.nodes
unfolding schedule warm_cycle quota_stop fresh_attempt gated gate_and_bind past_gate pin_and_bind
    pin_assumption run valid_nodes filter_node can_fit lookup insert delete keys_where str_eq
    score_with_topology score_all score_node reserve assume_slice confirm confirm_slice_or_rearm
    rollback_if_not_confirmed rollback_assumed_slice charge_reserved recalculate_free_vram new_tx
    sort insert_sorted
schedule-Restores_example =
    schedule-Restores (answers no_gate false) one_node "s1" "team" 10 false (quiet no_gate false)
      (refl, tt) refl refl "n1"

plan_covers_example :
    ((victims : List VictimSelection) (freed : ℕ)
      → plan_of 10 (victim ∷ []) ≡ some (victims, freed)
      → (10 ≤ freed) × (freed ≡ freed_by victims))
    × (plan_of 10 (victim ∷ []) ≡ none → ((victim ∷ []) ≡ []) ⊎ (freed_by (victim ∷ []) < 10))
plan_covers_example = plan_covers 10 (victim ∷ [])

plan-IsEligible_example : All (IsEligible evidence "train" 200) (victim ∷ [])
unfolding plan_of select_victims candidates_of candidate_of slice_may_yield job_may_yield
    cooling_down cooldown_key single_victim accumulate cheaper sort insert_sorted lookup str_eq
plan-IsEligible_example =
    plan-IsEligible evidence "train" 200 10 (running ∷ []) (victim ∷ []) 10 refl
