-- ===== src/Cmd/Examples.antt =====
-- cmd/scheduler: the results at a node and two slices.
use vgpu_scheduler.Api.{
  Read, SlicePhase, VgpuClaim, VgpuJob, VgpuSlice, found, not_found, pending, ready,
}
use vgpu_scheduler.Cache.{NodeState, VramCache}
use vgpu_scheduler.Cmd.Scheduler.Charges.{charge_on}
use vgpu_scheduler.Cmd.Scheduler.Nodes.{
  Node, consumed_vram_on_node, janitor_sweep, lives, node_is_ready, reconcile_node,
}
use vgpu_scheduler.Cmd.Scheduler.Priorities.{PriorityReads, overriding_job_starves, priority_of}
use vgpu_scheduler.Cmd.Scheduler.Recharging.{registration_charges}
use vgpu_scheduler.Cmd.Scheduler.Slices.{SliceReads, SliceScheduling}
use vgpu_scheduler.Cmd.Scheduler.Sweeping.{IsUnheld, SameHold, janitor_exact}
use vgpu_scheduler.Prelude.{
  String, [], arith, false, none, refl, some, str_eq, str_eq_iff, sum_by, true, ℕ, ◌+◌, ◌-◌, ◌<◌,
  ◌∷◌, ◌≡◌, ◌≢◌,
}
use vgpu_scheduler.Prelude.Dict.{lookup}
use vgpu_scheduler.Scheduler.Plugin.{Answers, no_gate}

abbrev slice_in : SlicePhase → String → VgpuSlice
slice_in phase node = record {
  name = "worker";
  namespace = "team";
  uid = "s1";
  created_at = 0;
  gang_ref = "";
  reservation_ref = "";
  preferred_zone = "";
  claim_ref = "worker-claim";
  node_name = node;
  requested_vram = 10;
  phase = phase;
  device_uuid = "";
  allocation_id = "";
  allocated_bytes = 10;
  failure_reason = "";
  last_error = "";
  conditions = [];
}

abbrev no_cache : VramCache
no_cache = record {
  nodes = [];
  assumed = [];
  confirmed = [];
  synced = [];
  allocated_bytes = [];
  allocated_node = [];
  seeded = true;
}

abbrev gpu_node : Node
gpu_node = record {
  name = "n1";
  capacity = some 100;
  allocatable = some 100;
  conditions = [];
  zone = "";
}

abbrev one_node : VramCache
one_node = record no_cache {
  nodes =
      (
        "n1",
        record {
          node_name = "n1";
          total_vram = 100;
          allocated = 0;
          reserved = 0;
          free = 100;
          healthy = true;
          zone = "";
        },
      )
      ∷ [];
}

abbrev binds : Answers
binds = record {
  quota = none;
  member_read = none;
  planned = false;
  zone_read = none;
  gate = no_gate;
  bind_succeeds = true;
  now = 5;
  bind_now = 6;
  confirm_now = 7;
  during_quota = [];
  during_score = [];
  during_gate = [];
  during_bind = [];
}

abbrev reads : Read VgpuSlice → SliceReads
reads slice = record {
  slice = slice;
  reservation = not_found;
  claim = not_found;
  write_succeeds = true;
  now = 5000;
  cycle = binds;
}

abbrev seen_worker : SliceScheduling
seen_worker = record {
  tracked = ("team/worker", record { uid = "s1"; node = "n1"; phase = ready }) ∷ [];
  cache = one_node;
}

abbrev unseen : SliceScheduling
unseen = record { tracked = []; cache = one_node }

abbrev claim_of : String → String → VgpuClaim
claim_of tier job = record {
  name = "worker-claim";
  namespace = "team";
  job_ref = job;
  requested_vram = 10;
  service_tier = tier;
}

abbrev job_of : ℕ → VgpuJob
job_of priority = record {
  name = "worker";
  namespace = "team";
  priority = priority;
  preemptible = true;
  grace_seconds = none;
}

abbrev asks : VgpuClaim → Read VgpuJob → PriorityReads
asks claim job = record {
  slice = found (slice_in pending "");
  claim = found claim;
  job = job;
  now = 2000;
}

abbrev worker : VgpuSlice
worker = slice_in pending ""

abbrev plain : VgpuClaim
plain = claim_of "BestEffort" "worker"

named : (a : String) → str_eq a "" ≡ false → a ≢ ""
named a e h = absurd (ground (arith, str_eq_iff a ""))

best_effort : plain.service_tier ≢ "Guaranteed"
unfolding str_eq
best_effort h = absurd (ground (arith, (str_eq_iff "BestEffort" "Guaranteed").1 h))

registration_charges_example :
    let charged =
      consumed_vram_on_node gpu_node + sum_by (charge_on "n1") (slice_in ready "n1" ∷ []) in
    let (d, _) =
      reconcile_node "n1"
        (record {
          node = found gpu_node;
          slices = some (slice_in ready "n1" ∷ []);
          during_list = [];
        })
        no_cache in
    (t : NodeState) × (lookup "n1" d.nodes ≡ some t)
    × (t.allocated ≡ charged)
    × (t.free ≡ 100 - charged)
    × (t.healthy ≡ node_is_ready gpu_node)
unfolding lookup
registration_charges_example =
    registration_charges no_cache gpu_node 100 (slice_in ready "n1" ∷ []) refl refl
      ((refl, refl), tt) (tt, tt)

overriding_job_starves_example :
    (priority_of (asks plain (found (job_of 20))) ≡ 20)
    × (priority_of (asks plain (found (job_of 20))) < priority_of (asks plain (found (job_of 5))))
unfolding str_eq
overriding_job_starves_example =
    overriding_job_starves (asks plain (found (job_of 5))) (asks plain (found (job_of 20))) worker
      worker plain plain (job_of 5) (job_of 20) (refl, named "worker-claim" refl, refl)
      (refl, named "worker-claim" refl, refl) best_effort best_effort (named "worker" refl, refl)
      (named "worker" refl, refl) (omega arith) (omega arith, omega arith) (omega arith)

janitor_exact_example :
    (lives "s1" [] ≡ true → SameHold "s1" one_node (janitor_sweep (some []) [] one_node))
    × (lives "s1" [] ≡ false → IsUnheld "s1" (janitor_sweep (some []) [] one_node))
janitor_exact_example = janitor_exact [] one_node "s1"
