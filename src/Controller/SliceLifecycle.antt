-- ===== src/Controller/SliceLifecycle.antt =====
-- internal/controller/vgpuslice_reconciler.go: the end of a slice, by preemption or by deletion. What
-- the API answers is an argument; the writes are the result. Times are in seconds.
pub mod Endings
use vgpu_scheduler.Prelude.{
  ℕ, ◌-◌, String, Bool, true, false, ◌&&◌, ◌||◌, not, Option, none, some, List, [], ◌∷◌, ◌++◌, ltb,
  ◌==◌, str_eq, if◌then◌else◌, Result, ok, err,
}
use vgpu_scheduler.Api.{
  SlicePhase, initial, pending, scheduled, releasing, released, preempting, phase_eq, Condition,
  VgpuSlice, VgpuClaim, VgpuJob, Read, found, not_found, unreadable,
}
use vgpu_scheduler.State.{transition_slice_phase}

-- A slice with what the reconciler reads of its metadata.
pub record SliceObject : Type 0 where
  pub slice : VgpuSlice
  pub deleting : Bool
  pub has_finalizer : Bool

pub data Write : Type 0 where
  anchor_grace add_finalizer remove_finalizer : Write
  stamp_preempted delete_pod : VgpuJob → Write
  set_phase : SlicePhase → Write

-- When the slice is reconciled again: not by the reconciler, at once, or after some seconds.
pub data Next : Type 0 where
  finished at_once : Next
  after : ℕ → Next

pub record SliceOutcome : Type 0 where
  pub writes : List Write
  pub result : Result (Unit {0}) Next

-- What the API answers: the claim and the job of the owner, whether each write is accepted, and
-- whether the job and the finalizer are there when they are read again.
pub record SliceAnswers : Type 0 where
  pub claim : Read VgpuClaim
  pub job : Read VgpuJob
  pub now : ℕ
  pub status_written : Bool
  pub job_there : Bool
  pub stamp_written : Bool
  pub pod_deleted : Bool
  pub finalizer_there : Bool
  pub finalizer_written : Bool

abbrev pub refuse : List Write → SliceOutcome
refuse ws = record { writes = ws; result = err tt }

abbrev owner_job : Read VgpuJob → Result (Unit {0}) (Option VgpuJob)
owner_job (found j) = ok (some j)
owner_job not_found = ok none
owner_job unreadable = err tt

abbrev owner_of : VgpuClaim → Read VgpuJob → Result (Unit {0}) (Option VgpuJob)
owner_of c job = if str_eq c.job_ref "" then ok none else owner_job job

abbrev claim_owner : Read VgpuClaim → Read VgpuJob → Result (Unit {0}) (Option VgpuJob)
claim_owner (found c) job = owner_of c job
claim_owner not_found job = ok none
claim_owner unreadable job = err tt

-- No owner is not the same as an owner that cannot be read.
unfoldable pub resolve_owner_job : SliceAnswers → VgpuSlice → Result (Unit {0}) (Option VgpuJob)
resolve_owner_job a s = if str_eq s.claim_ref "" then ok none else claim_owner a.claim a.job

abbrev pub positive_or : ℕ → Option ℕ → ℕ
positive_or default none = default
positive_or default (some g) = if ltb 0 g then g else default

abbrev pub grace_of : Option VgpuJob → ℕ
grace_of none = 30
grace_of (some j) = positive_or 30 j.grace_seconds

-- When the condition "Preempting" was set; 0 is Go's zero time.
unfoldable pub preempting_since : List Condition → ℕ
preempting_since [] = 0
preempting_since (c ∷ cs) = if str_eq c.kind "Preempting" then c.changed_at else preempting_since cs

-- `evictPreemptedWorkload`: the job is marked before its pod is deleted; one that is gone by then is
-- not marked.
abbrev pub stamps : SliceAnswers → VgpuJob → List Write
stamps a j = if a.job_there then stamp_preempted j ∷ [] else []

unfoldable pub evict_preempted_workload : SliceAnswers → VgpuJob → List Write × Bool
evict_preempted_workload a j =
    if a.job_there && not a.stamp_written
    then ([], false)
    else if a.pod_deleted
    then (stamps a j ++ delete_pod j ∷ [], true)
    else (stamps a j, false)

-- The release of a slice whose grace period is over, after the eviction `evicted`.
unfoldable pub release_preempted : SliceAnswers → List Write × Bool → SliceOutcome
release_preempted a (ws, evicted) =
    if not evicted
    then refuse ws
    else if a.status_written
    then record { writes = ws ++ set_phase releasing ∷ []; result = ok at_once }
    else refuse ws

abbrev eviction_of : SliceAnswers → Option VgpuJob → List Write × Bool
eviction_of a none = ([], true)
eviction_of a (some j) = evict_preempted_workload a j

unfoldable pub preempt_owned : SliceAnswers → VgpuSlice → Option VgpuJob → SliceOutcome
unfolding evict_preempted_workload release_preempted
preempt_owned a s job =
    let since = preempting_since s.conditions in
    let elapsed = a.now - since in
    if since == 0
    then (if a.status_written
        then record { writes = anchor_grace ∷ []; result = ok at_once }
        else refuse [])
    else if ltb elapsed (grace_of job)
    then record { writes = []; result = ok (after (grace_of job - elapsed)) }
    else release_preempted a (eviction_of a job)

unfoldable pub reconcile_preempting : SliceAnswers → VgpuSlice → SliceOutcome
unfolding resolve_owner_job preempt_owned
reconcile_preempting a s = elim (resolve_owner_job a s) [
  | err _ ↦ refuse []
  | ok job ↦ preempt_owned a s job
]

abbrev pub is_unstarted : SlicePhase → Bool
is_unstarted initial = true
is_unstarted pending = true
is_unstarted scheduled = true
is_unstarted releasing = true
is_unstarted _ = false

unfoldable pub never_bound : VgpuSlice → Bool
never_bound s = str_eq s.allocation_id "" && is_unstarted s.phase

unfoldable pub drop_finalizer : SliceAnswers → Result (Unit {0}) (List Write)
drop_finalizer a =
    if not a.finalizer_there
    then ok []
    else if a.finalizer_written
    then ok (remove_finalizer ∷ [])
    else err tt

-- The patch with the transition to Releasing; an illegal transition is skipped.
unfoldable pub ask_release : SliceAnswers → VgpuSlice → Result (Unit {0}) (List Write)
ask_release a s = elim (transition_slice_phase s releasing "" "Deletion requested") [
  | err _ ↦ if a.status_written then ok [] else err tt
  | ok t ↦ if a.status_written then ok (set_phase t.phase ∷ []) else err tt
]

unfoldable pub handle_delete : SliceAnswers → VgpuSlice → Result (Unit {0}) (List Write)
unfolding never_bound drop_finalizer ask_release
handle_delete a s =
    if never_bound s
    then drop_finalizer a
    else if not (phase_eq s.phase releasing) && not (phase_eq s.phase released)
    then ask_release a s
    else if phase_eq s.phase released
    then drop_finalizer a
    else ok []

unfoldable pub keep_finalizer : SliceAnswers → Bool → Result (Unit {0}) (List Write)
keep_finalizer a there =
    if there
    then ok []
    else if a.finalizer_there
    then ok []
    else if a.finalizer_written
    then ok (add_finalizer ∷ [])
    else err tt

abbrev next_of : SliceObject → Next
next_of o = if o.deleting && not (phase_eq o.slice.phase released) then after 5 else finished

abbrev pub settle : SliceObject → Result (Unit {0}) (List Write) → SliceOutcome
settle o (err _) = refuse []
settle o (ok ws) = record { writes = ws; result = ok (next_of o) }

unfoldable pub reconcile_slice : SliceAnswers → SliceObject → SliceOutcome
unfolding reconcile_preempting handle_delete keep_finalizer
reconcile_slice a o =
    if phase_eq o.slice.phase preempting
    then reconcile_preempting a o.slice
    else if o.deleting
    then settle o (handle_delete a o.slice)
    else settle o (keep_finalizer a o.has_finalizer)
