-- ===== src/Nodeagent/Manager/Phases.antt =====
-- internal/nodeagent/manager.go: which phases each path of the agent can report.
use vgpu_scheduler.Prelude.{
  ◌≡◌, ◌≢◌, refl, sym, ap, ◌∙◌, String, Bool, true, false, ◌&&◌, ◌||◌, not, none, some, str_eq,
  Result-cases, Bool-cases, arith, ◌⊎◌, inl, inr,
}
use vgpu_scheduler.Api.{VgpuSlice, scheduled, allocating, releasing, released, phase_eq}
use vgpu_scheduler.State.{transition_slice_phase, mark_slice_ready}
use vgpu_scheduler.Nodeagent.Allocator.{
  AllocationResult, AllocateError, fragmentation, allocate, release, release_by_slice,
}
use vgpu_scheduler.Nodeagent.Checkpoint.{delete_record}
use vgpu_scheduler.Nodeagent.Manager.{
  Agent, AgentAnswers, report_ready, report_failed, report_release, publish, allocation_failed,
  allocate_announced, allocate_slice, forget_checkpoint, release_recorded, release_unrecorded,
  manage, close,
}
use vgpu_scheduler.Nodeagent.Manager.Outcomes.{publish-cases, published, allocating-phase}

report_release-phase :
    (a : AgentAnswers) (ag : Agent) (s t : VgpuSlice)
    → (report_release a ag s).stored ≡ some t
    → t.phase ≡ released
unfolding report_release transition_slice_phase
report_release-phase a ag s t e = ground (arith, e)

forget_checkpoint-phase :
    (a : AgentAnswers) (id : String) (ag : Agent) (s t : VgpuSlice)
    → (forget_checkpoint a id ag s).stored ≡ some t
    → t.phase ≡ released
unfolding forget_checkpoint
forget_checkpoint-phase a id ag s t e = elim (Result-cases (delete_record a.file id ag.store).0) [
  | inr (x, f) ↦ absurd (ground (arith, f, e))
  | inl (u, f) ↦
      report_release-phase a (record ag { store = (delete_record a.file id ag.store).1 }) s t
        (ground (arith, f, e))
]

pub release_recorded-phase :
    (a : AgentAnswers) (ag : Agent) (s t : VgpuSlice)
    → (release_recorded a ag s).stored ≡ some t
    → t.phase ≡ released
unfolding release_recorded
release_recorded-phase a ag s t e = elim (Result-cases (release ag.allocator s.allocation_id)) [
  | inr (x, f) ↦ absurd (ground (arith, f, e))
  | inl (al, f) ↦
      forget_checkpoint-phase a s.allocation_id
        (record (close s.allocation_id ag) { allocator = al }) s t (ground (arith, f, e))
]

pub release_unrecorded-phase :
    (a : AgentAnswers) (ag : Agent) (s t : VgpuSlice)
    → (release_unrecorded a ag s).stored ≡ some t
    → t.phase ≡ released
unfolding release_unrecorded
release_unrecorded-phase a ag s t e = elim (Result-cases (release_by_slice ag.allocator s.uid)) [
  | inr (x, f) ↦ absurd (ground (arith, f, e))
  | inl ((id, al), f) ↦ elim (Bool-cases (str_eq id "")) [
    | inl w ↦ report_release-phase a (record ag { allocator = al }) s t (ground (arith, f, w, e))
    | inr w ↦
        forget_checkpoint-phase a id (close id (record ag { allocator = al })) s t
          (ground (arith, f, w, e))
  ]
]

report_ready-live :
    (a : AgentAnswers) (ag : Agent) (s t : VgpuSlice) (r : AllocationResult)
    → s.phase ≡ allocating
    → (report_ready a ag s r).stored ≡ some t
    → t.phase ≢ released
unfolding report_ready mark_slice_ready transition_slice_phase
report_ready-live a ag s t r p e q = ground (arith, p, e, q)

report_failed-live :
    (a : AgentAnswers) (ag : Agent) (s t : VgpuSlice) (reason : String)
    → s.phase ≡ allocating
    → (report_failed a ag s reason).stored ≡ some t
    → t.phase ≢ released
unfolding report_failed transition_slice_phase
report_failed-live a ag s t reason p e q = ground (arith, p, e, q)

still_allocating : (s t : VgpuSlice) → s.phase ≡ allocating → some s ≡ some t → t.phase ≢ released
still_allocating s t p e q = ground (arith, p, e, q)

publish-live :
    (a : AgentAnswers) (ag : Agent) (s t : VgpuSlice) (r : AllocationResult)
    → s.phase ≡ allocating
    → (publish a ag s r).stored ≡ some t
    → t.phase ≢ released
publish-live a ag s t r p e = elim (publish-cases a ag s r) [
  | inl same ↦ still_allocating s t p (sym same ∙ e)
  | inr (u, f, goes) ↦
      report_ready-live a (published a ag s r) s t r p (sym (ap (λ o. o.stored) goes) ∙ e)
]

allocation_failed-live :
    (a : AgentAnswers) (ag : Agent) (s t : VgpuSlice) (x : AllocateError)
    → s.phase ≡ allocating
    → (allocation_failed a ag s x).stored ≡ some t
    → t.phase ≢ released
unfolding allocation_failed
allocation_failed-live a ag s t (fragmentation n m) p e =
    report_failed-live a ag s t "fragmentation" p e
allocation_failed-live a ag s t x p e = still_allocating s t p e

allocate_announced-live :
    (a : AgentAnswers) (ag : Agent) (s t : VgpuSlice)
    → s.phase ≡ allocating
    → (allocate_announced a ag s).stored ≡ some t
    → t.phase ≢ released
unfolding allocate_announced
allocate_announced-live a ag s t p e =
    elim (Result-cases (allocate ag.allocator a.devices a.alloc_id s.uid s.requested_vram)) [
      | inr (x, f) ↦ allocation_failed-live a ag s t x p (ground (arith, f, e))
      | inl ((r, al), f) ↦
          publish-live a (record ag { allocator = al }) s t r p (ground (arith, f, e))
    ]

pub allocate_slice-live :
    (a : AgentAnswers) (ag : Agent) (s t : VgpuSlice)
    → (allocate_slice a ag s).stored ≡ some t
    → t.phase ≢ released
unfolding allocate_slice
allocate_slice-live a ag s t e =
    elim (Result-cases
      (transition_slice_phase s allocating "" "NodeAgent beginning hardware allocation")) [
        | inr (x, f) ↦ absurd (ground (arith, f, e))
        | inl (u, f) ↦
            allocate_announced-live a ag u t (allocating-phase s u _ f).0 (ground (arith, f, e))
      ]

-- The three paths of a reconcile, and the one that does nothing.
pub manage-cases :
    (a : AgentAnswers) (deleting : Bool) (ag : Agent) (s : VgpuSlice)
    → (manage a deleting ag s ≡ allocate_slice a ag s)
      ⊎ ((str_eq s.allocation_id "" ≡ true) × (manage a deleting ag s ≡ release_unrecorded a ag s))
      ⊎ ((str_eq s.allocation_id "" ≡ false) × (manage a deleting ag s ≡ release_recorded a ag s))
      ⊎ ((manage a deleting ag s).stored ≡ none)
unfolding manage
manage-cases a deleting ag s =
    elim (Bool-cases
      (not deleting && (phase_eq s.phase scheduled || phase_eq s.phase allocating))) [
        | inl w ↦ inl (rw w refl)
        | inr w ↦ elim (Bool-cases (phase_eq s.phase releasing || deleting)) [
          | inr v ↦ inr (inr (inr (rw (w, v) refl)))
          | inl v ↦ elim (Bool-cases (str_eq s.allocation_id "")) [
            | inl y ↦ inr (inl (y, rw (w, v, y) refl))
            | inr y ↦ inr (inr (inl (y, rw (w, v, y) refl)))
          ]
        ]
      ]
