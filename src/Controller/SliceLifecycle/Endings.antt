-- ===== src/Controller/SliceLifecycle/Endings.antt =====
-- internal/controller/vgpuslice_reconciler.go: what precedes the release of a preempted slice and the
-- removal of a finalizer.
use vgpu_scheduler.Prelude.{
  ◌-◌, ◌≤◌, ◌<◌, ◌≡◌, refl, ap, ◌∙◌, Bool, true, Option, none, some, List, [], ◌∷◌, ◌++◌, Has, ok,
  ◌⊎◌, inl, inr, arith, Bool-cases, Result-cases, str_eq_iff,
}
use vgpu_scheduler.Api.{allocating, releasing, released, preempting, phase_eq, VgpuSlice, VgpuJob}
use vgpu_scheduler.State.{transition_slice_phase}
use vgpu_scheduler.State.Runs.{phase_eq_sound}
use vgpu_scheduler.Controller.SliceLifecycle.{
  SliceObject, Write, remove_finalizer, delete_pod, set_phase, SliceAnswers, resolve_owner_job,
  grace_of, preempting_since, evict_preempted_workload, release_preempted, preempt_owned,
  reconcile_preempting, never_bound, drop_finalizer, ask_release, handle_delete, keep_finalizer,
  reconcile_slice, refuse, settle, stamps,
}

-- The writes that end a preemption whose slice has this owner.
abbrev pub ending : SliceAnswers → Option VgpuJob → List Write
ending a none = set_phase releasing ∷ []
ending a (some j) = stamps a j ++ (delete_pod j ∷ set_phase releasing ∷ [])

preempt_owned-ending :
    (a : SliceAnswers) (s : VgpuSlice) (job : Option VgpuJob)
    → Has (set_phase releasing) (preempt_owned a s job).writes
    → (0 < preempting_since s.conditions)
      × (grace_of job ≤ a.now - preempting_since s.conditions)
      × ((preempt_owned a s job).writes ≡ ending a job)
unfolding preempt_owned release_preempted evict_preempted_workload
preempt_owned-ending a s none h = ground (arith, h)
preempt_owned-ending a s (some j) h = ground (arith, h)

-- A preempted slice is released only when its owner could be read and the grace period of the owner
-- has passed since the preemption was recorded; if it has an owner, the job, unless it is gone, was
-- marked as preempted and its pod deleted before.
pub preempted_release :
    (a : SliceAnswers) (o : SliceObject)
    → o.slice.phase ≡ preempting
    → Has (set_phase releasing) (reconcile_slice a o).writes
    → (job : Option VgpuJob) × (resolve_owner_job a o.slice ≡ ok job)
      × (0 < preempting_since o.slice.conditions)
      × (grace_of job ≤ a.now - preempting_since o.slice.conditions)
      × ((reconcile_slice a o).writes ≡ ending a job)
unfolding reconcile_slice reconcile_preempting
preempted_release a o p h =
    let is_preempting = ap (λ q. phase_eq q preempting) p in
    let same : reconcile_slice a o ≡ reconcile_preempting a o.slice = rw is_preempting refl in
    elim (Result-cases (resolve_owner_job a o.slice)) [
      | inr (x, e) ↦
          let stops : reconcile_slice a o ≡ refuse [] = same ∙ rw (reconcile_preempting, e) refl in
          absurd (rw stops at h)
      | inl (job, e) ↦
          let goes : reconcile_slice a o ≡ preempt_owned a o.slice job =
            same ∙ rw (reconcile_preempting, e) refl in
          let (since, grace, ws) = preempt_owned-ending a o.slice job (rw goes at h) in
          (job, e, since, grace, ap (λ r. r.writes) goes ∙ ws)
    ]

preempt_owned-keeps :
    (a : SliceAnswers) (s : VgpuSlice) (job : Option VgpuJob)
    → ¬ Has remove_finalizer (preempt_owned a s job).writes
unfolding preempt_owned release_preempted evict_preempted_workload
preempt_owned-keeps a s none h = ground (arith, h)
preempt_owned-keeps a s (some j) h = ground (arith, h)

reconcile_preempting-keeps :
    (a : SliceAnswers) (s : VgpuSlice) → ¬ Has remove_finalizer (reconcile_preempting a s).writes
unfolding reconcile_preempting
reconcile_preempting-keeps a s h = elim (Result-cases (resolve_owner_job a s)) [
  | inr (x, e) ↦
      let stops : reconcile_preempting a s ≡ refuse [] = rw (reconcile_preempting, e) refl in
      rw stops at h
  | inl (job, e) ↦
      let goes : reconcile_preempting a s ≡ preempt_owned a s job =
        rw (reconcile_preempting, e) refl in
      preempt_owned-keeps a s job (rw goes at h)
]

ask_release-keeps :
    (a : SliceAnswers) (o : SliceObject)
    → ¬ Has remove_finalizer (settle o (ask_release a o.slice)).writes
unfolding ask_release
ask_release-keeps a o h = ground (arith, h)

keep_finalizer-keeps :
    (a : SliceAnswers) (o : SliceObject) (b : Bool)
    → ¬ Has remove_finalizer (settle o (keep_finalizer a b)).writes
unfolding keep_finalizer
keep_finalizer-keeps a o b h = ground (arith, h)

handle_delete-removes :
    (a : SliceAnswers) (o : SliceObject)
    → Has remove_finalizer (settle o (handle_delete a o.slice)).writes
    → (o.slice.phase ≡ released) ⊎ (never_bound o.slice ≡ true)
unfolding handle_delete
handle_delete-removes a o h = elim (Bool-cases (never_bound o.slice)) [
  | inl e ↦ inr e
  | inr e ↦ elim (Bool-cases (phase_eq o.slice.phase released)) [
    | inl f ↦ inl (phase_eq_sound o.slice.phase released f)
    | inr f ↦ elim (Bool-cases (phase_eq o.slice.phase releasing)) [
      | inl g ↦
          let keeps : handle_delete a o.slice ≡ ok [] = rw (e, f, g) refl in absurd (rw keeps at h)
      | inr g ↦
          let asks : handle_delete a o.slice ≡ ask_release a o.slice = rw (e, f, g) refl in
          absurd (ask_release-keeps a o (rw asks at h))
    ]
  ]
]

-- A finalizer is removed only from a slice that is being deleted, and that is released or looks as if
-- it was never bound.
pub finalizer_removed :
    (a : SliceAnswers) (o : SliceObject)
    → Has remove_finalizer (reconcile_slice a o).writes
    → (o.deleting ≡ true) × ((o.slice.phase ≡ released) ⊎ (never_bound o.slice ≡ true))
unfolding reconcile_slice
finalizer_removed a o h = elim (Bool-cases (phase_eq o.slice.phase preempting)) [
  | inl e ↦
      let same : reconcile_slice a o ≡ reconcile_preempting a o.slice = rw e refl in
      absurd (reconcile_preempting-keeps a o.slice (rw same at h))
  | inr e ↦ elim (Bool-cases o.deleting) [
    | inl f ↦
        let same : reconcile_slice a o ≡ settle o (handle_delete a o.slice) = rw (e, f) refl in
        (f, handle_delete-removes a o (rw same at h))
    | inr f ↦
        let same : reconcile_slice a o ≡ settle o (keep_finalizer a o.has_finalizer) =
          rw (e, f) refl in
        absurd (keep_finalizer-keeps a o o.has_finalizer (rw same at h))
  ]
]

-- A slice that is Allocating with no allocation recorded, when it is deleted, is set to Releasing by one
-- reconcile and loses its finalizer in the next, which no longer waits for the phase Released.
pub unrecorded_never_waits :
    (a b : SliceAnswers) (o : SliceObject)
    → o.deleting ≡ true
    → o.slice.phase ≡ allocating
    → o.slice.allocation_id ≡ ""
    → a.status_written ≡ true
    → (b.finalizer_there ≡ true) × (b.finalizer_written ≡ true)
    → ((reconcile_slice a o).writes ≡ set_phase releasing ∷ [])
      × ((reconcile_slice b (record o { slice = record o.slice { phase = releasing } })).writes
          ≡ remove_finalizer ∷ [])
unfolding reconcile_slice handle_delete never_bound ask_release drop_finalizer
    transition_slice_phase
unrecorded_never_waits a b o d p e w f =
    ground (arith, d, p, (str_eq_iff o.slice.allocation_id "").1 e, w, f)
