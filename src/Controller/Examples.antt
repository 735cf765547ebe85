-- ===== src/Controller/Examples.antt =====
-- internal/controller: the results at a gang of two and at a slice.
use vgpu_scheduler.Api.{
  Condition, SlicePhase, VgpuClaim, VgpuJob, VgpuSlice, allocating, found, not_found, preempting,
  ready, releasing,
}
use vgpu_scheduler.Controller.GangReservation.Children.{
  ChildSlice, Cluster, SliceTally, count_child, count_from, count_phase, count_slice,
  tally_child_slices,
}
use vgpu_scheduler.Controller.GangReservation.Counts.{is_in, is_ready}
use vgpu_scheduler.Controller.GangReservation.Losses.{IsGone, commits_bound, released-IsGone}
use vgpu_scheduler.Controller.GangReservation.Phases.{
  GangReservation, ReservationPhase, all_committed, any_lost, child_loss_confirmed_direct,
  child_lost_direct, committed, decide_by_phase, decide_next_phase, failed, released, reserved,
  slice_lost, teardown_complete,
}
use vgpu_scheduler.Controller.GangReservation.Reconcile.{
  Answers, accepted, apply_phase, apply_status, continue_teardown, decide, loss_confirmed,
  reconcile, reconcile_found, transition,
}
use vgpu_scheduler.Controller.GangReservation.Teardown.{
  all_gone, claim_job, tear_down_child, tear_down_children,
}
use vgpu_scheduler.Controller.SliceLifecycle.{
  SliceAnswers, SliceObject, drop_finalizer, evict_preempted_workload, grace_of, handle_delete,
  never_bound, preempt_owned, preempting_since, reconcile_preempting, reconcile_slice,
  release_preempted, remove_finalizer, resolve_owner_job, set_phase,
}
use vgpu_scheduler.Controller.SliceLifecycle.Endings.{
  ending, finalizer_removed, preempted_release, unrecorded_never_waits,
}
use vgpu_scheduler.Prelude.{
  All, List, Option, String, [], false, inl, inr, keep, length, none, ok, refl, some, str_eq, true,
  ◌-◌, ◌<◌, ◌∷◌, ◌≡◌, ◌≢◌, ◌≤◌, ◌⊎◌,
}
use vgpu_scheduler.Prelude.Dict.{insert}

abbrev bound_slice : ChildSlice
bound_slice = record { deleting = false; phase = ready }

abbrev bound_children : Cluster
bound_children = record {
  claim = λ n. found false;
  slice = λ n. found bound_slice;
  job = λ n. found false;
}

abbrev no_children : Cluster
no_children = record { claim = λ n. not_found; slice = λ n. not_found; job = λ n. not_found }

abbrev names : List String
names = "a-claim" ∷ "b-claim" ∷ []

abbrev gang_in : ReservationPhase → GangReservation
gang_in phase = record {
  deleting = false;
  gang_size = 2;
  child_claims = names;
  deadline_seconds = none;
  phase = phase;
  first_reserving_time = none;
  reserved_slots = 0;
  committed_slots = 0;
  failed_slots = 0;
  per_slice = [];
  message = none;
  failure_reason = none;
}

abbrev answers : GangReservation → Cluster → Cluster → Answers
answers rsv seen left = record {
  reservation = found rsv;
  children = seen;
  direct = some seen;
  at_check = left;
  at_teardown = left;
  refuses = λ d. false;
  after_teardown = left;
  attempts = (record { read = found rsv; write = accepted }) ∷ [];
  now = 50;
}

abbrev two_bound : SliceTally
two_bound = record {
  reserved_slots = 2;
  committed_slots = 2;
  failed_slots = 0;
  scheduling_failed_slots = 0;
  tearing_down_slots = 0;
  pending_slots = 0;
  missing_slots = 0;
  per_slice = insert "b-claim" "Bound" (insert "a-claim" "Bound" []);
}

abbrev two_missing : SliceTally
two_missing = record {
  reserved_slots = 0;
  committed_slots = 0;
  failed_slots = 0;
  scheduling_failed_slots = 0;
  tearing_down_slots = 0;
  pending_slots = 0;
  missing_slots = 2;
  per_slice = insert "b-claim" "ClaimMissing" (insert "a-claim" "ClaimMissing" []);
}

abbrev committed_gang : GangReservation
committed_gang = apply_status committed (some all_committed) two_bound 50 (gang_in reserved)

abbrev released_gang : GangReservation
released_gang = apply_status released (some teardown_complete) two_missing 50 (gang_in failed)

abbrev slice_in : SlicePhase → List Condition → VgpuSlice
slice_in phase conditions = record {
  name = "worker";
  namespace = "team";
  uid = "s1";
  created_at = 0;
  gang_ref = "";
  reservation_ref = "";
  preferred_zone = "";
  claim_ref = "worker-claim";
  node_name = "n1";
  requested_vram = 10;
  phase = phase;
  device_uuid = "";
  allocation_id = "";
  allocated_bytes = 0;
  failure_reason = "";
  last_error = "";
  conditions = conditions;
}

abbrev since_ten : Condition
since_ten = record {
  kind = "Preempting";
  status = "True";
  reason = "";
  message = "";
  changed_at = 10;
}

abbrev worker_job : VgpuJob
worker_job = record {
  name = "worker";
  namespace = "team";
  priority = 1;
  preemptible = true;
  grace_seconds = some 5;
}

abbrev worker_claim : VgpuClaim
worker_claim = record {
  name = "worker-claim";
  namespace = "team";
  job_ref = "worker";
  requested_vram = 10;
  service_tier = "";
}

abbrev api : SliceAnswers
api = record {
  claim = found worker_claim;
  job = found worker_job;
  now = 20;
  status_written = true;
  job_there = true;
  stamp_written = true;
  pod_deleted = true;
  finalizer_there = true;
  finalizer_written = true;
}

abbrev deleted_slice : SlicePhase → List Condition → SliceObject
deleted_slice phase conditions = record {
  slice = slice_in phase conditions;
  deleting = true;
  has_finalizer = true;
}

commits :
    (reconcile (answers (gang_in reserved) bound_children bound_children)).stored
    ≡ some committed_gang
unfolding reconcile reconcile_found tally_child_slices count_from count_child count_slice
    count_phase decide transition loss_confirmed decide_next_phase decide_by_phase apply_phase
    apply_status child_loss_confirmed_direct any_lost child_lost_direct slice_lost
    tear_down_children tear_down_child continue_teardown claim_job insert str_eq all_gone
commits = refl

releases :
    (reconcile (answers (gang_in failed) no_children no_children)).stored ≡ some released_gang
unfolding reconcile reconcile_found tally_child_slices count_from count_child count_slice
    count_phase decide transition loss_confirmed decide_next_phase decide_by_phase apply_phase
    apply_status child_loss_confirmed_direct any_lost child_lost_direct slice_lost
    tear_down_children tear_down_child continue_teardown claim_job insert str_eq all_gone
releases = refl

not_committed : (gang_in reserved).phase ≢ committed
not_committed e = cc

commits_bound_example : 2 ≤ length (keep (is_in is_ready bound_children) names)
unfolding apply_status
commits_bound_example =
    commits_bound (answers (gang_in reserved) bound_children bound_children) (gang_in reserved)
      committed_gang refl not_committed commits refl

released-IsGone_example : ((gang_in failed).phase ≡ failed) × All (IsGone no_children) names
unfolding apply_status
released-IsGone_example =
    released-IsGone (answers (gang_in failed) no_children no_children) (gang_in failed)
      released_gang refl releases refl

preempted_release_example :
    (job : Option VgpuJob) × (resolve_owner_job api (slice_in preempting (since_ten ∷ [])) ≡ ok job)
    × (0 < preempting_since (since_ten ∷ []))
    × (grace_of job ≤ 20 - preempting_since (since_ten ∷ []))
    × ((reconcile_slice api (deleted_slice preempting (since_ten ∷ []))).writes ≡ ending api job)
unfolding reconcile_slice reconcile_preempting resolve_owner_job preempt_owned preempting_since
    evict_preempted_workload release_preempted str_eq
preempted_release_example =
    preempted_release api (deleted_slice preempting (since_ten ∷ [])) refl (inr (inr (inl refl)))

finalizer_removed_example :
    ((deleted_slice releasing []).deleting ≡ true)
    × ((releasing ≡ vgpu_scheduler.Api.released) ⊎ (never_bound (slice_in releasing []) ≡ true))
unfolding reconcile_slice handle_delete never_bound drop_finalizer str_eq
finalizer_removed_example = finalizer_removed api (deleted_slice releasing []) (inl refl)

unrecorded_never_waits_example :
    ((reconcile_slice api (deleted_slice allocating [])).writes ≡ set_phase releasing ∷ [])
    × ((reconcile_slice api (deleted_slice releasing [])).writes ≡ remove_finalizer ∷ [])
unrecorded_never_waits_example =
    unrecorded_never_waits api api (deleted_slice allocating []) refl refl refl refl (refl, refl)
