-- ===== src/Nodeagent/Manager/Releases.antt =====
-- internal/nodeagent/manager.go: what the agent has undone when a slice is Released.
use vgpu_scheduler.Prelude.{
  ◌≡◌, ◌≢◌, sym, ap, ◌∙◌, subst, String, none, some, str_eq_iff, ok, Result-cases, Bool-cases,
  Option-cases, arith, ◌⊎◌, inl, inr,
}
use vgpu_scheduler.Prelude.Dict.{Dict, lookup, lookup-delete_self}
use vgpu_scheduler.Api.{VgpuSlice, released}
use vgpu_scheduler.State.{transition_slice_phase}
use vgpu_scheduler.Nodeagent.Allocator.{Allocator, release, release_by_slice, release_locked}
use vgpu_scheduler.Nodeagent.Checkpoint.{
  CheckpointRecord, CheckpointFile, absent, corrupt, records, FileAnswers, load_all, delete_record,
}
use vgpu_scheduler.Nodeagent.Manager.{
  Agent, AgentAnswers, report_release, forget_checkpoint, release_recorded, release_unrecorded,
  close,
}

-- Nothing on the node is left of an allocation.
pub record IsForgotten (ag : Agent) (id : String) : Type 0 where
  pub spec : lookup id ag.specs ≡ none
  pub checkpoint : (m : Dict CheckpointRecord) → ag.store ≡ records m → lookup id m ≡ none
  pub ledger : lookup id ag.allocator.by_alloc ≡ none

-- A status that names no allocation.
pub record IsCleared (t : VgpuSlice) : Type 0 where
  pub phase : t.phase ≡ released
  pub allocation_id : t.allocation_id ≡ ""
  pub device_uuid : t.device_uuid ≡ ""
  pub allocated_bytes : t.allocated_bytes ≡ 0

report_release-IsCleared :
    (a : AgentAnswers) (ag : Agent) (s t : VgpuSlice)
    → (report_release a ag s).stored ≡ some t
    → IsCleared t
unfolding report_release transition_slice_phase
report_release-IsCleared a ag s t e = record {
  phase = ground (arith, e);
  allocation_id = ground (arith, e);
  device_uuid = ground (arith, e);
  allocated_bytes = ground (arith, e);
}

report_release-agent :
    (a : AgentAnswers) (ag : Agent) (s : VgpuSlice) → (report_release a ag s).agent ≡ ag
unfolding report_release
report_release-agent a ag s = ground arith

delete_record-forgets :
    (fs : FileAnswers) (id : String) (file : CheckpointFile) (u : Unit {0})
    (m : Dict CheckpointRecord)
    → (delete_record fs id file).0 ≡ ok u
    → (delete_record fs id file).1 ≡ records m
    → lookup id m ≡ none
unfolding delete_record load_all
delete_record-forgets fs id absent u m e f = absurd (ground (arith, e, f))
delete_record-forgets fs id corrupt u m e f = absurd (ground (arith, e, f))
delete_record-forgets fs id (records before) u m e f =
    ground (arith, e, f, lookup-delete_self id before)

release_locked-gone :
    (id : String) (al : Allocator) → lookup id (release_locked id al).by_alloc ≡ none
unfolding release_locked
release_locked-gone id al = elim (Option-cases (lookup id al.by_alloc)) [
  | inl e ↦ ground (arith, e)
  | inr (x, e) ↦ ground (arith, e, lookup-delete_self id al.by_alloc)
]

abbrev forgotten : AgentAnswers → String → Agent → Agent
forgotten a id ag = record ag { store = (delete_record a.file id ag.store).1 }

forget_checkpoint-cases :
    (a : AgentAnswers) (id : String) (ag : Agent) (s : VgpuSlice)
    → ((forget_checkpoint a id ag s).stored ≡ none)
      ⊎ ((u : Unit {0}) × ((delete_record a.file id ag.store).0 ≡ ok u)
          × (forget_checkpoint a id ag s ≡ report_release a (forgotten a id ag) s))
unfolding forget_checkpoint
forget_checkpoint-cases a id ag s = elim (Result-cases (delete_record a.file id ag.store).0) [
  | inr (x, f) ↦ inl (ground (arith, f))
  | inl (u, f) ↦ inr (u, f, ground (arith, f))
]

forget_checkpoint-IsForgotten :
    (a : AgentAnswers) (id : String) (ag : Agent) (s t : VgpuSlice)
    → lookup id ag.specs ≡ none
    → lookup id ag.allocator.by_alloc ≡ none
    → (forget_checkpoint a id ag s).stored ≡ some t
    → IsForgotten (forget_checkpoint a id ag s).agent id × IsCleared t
forget_checkpoint-IsForgotten a id ag s t spec ledger e = elim (forget_checkpoint-cases a id ag s) [
  | inl nothing ↦ absurd (let q : none ≡ some t = sym nothing ∙ e in cc)
  | inr (u, f, goes) ↦
      let same : (forget_checkpoint a id ag s).agent ≡ forgotten a id ag =
        ap (λ o. o.agent) goes ∙ report_release-agent a (forgotten a id ag) s in
      (
        subst (λ x. IsForgotten x id) (sym same)
            (record {
              spec = spec;
              checkpoint = λ m. delete_record-forgets a.file id ag.store u m f;
              ledger = ledger;
            }),
        report_release-IsCleared a (forgotten a id ag) s t (sym (ap (λ o. o.stored) goes) ∙ e),
      )
]

release-gone :
    (al al' : Allocator) (id : String)
    → id ≢ ""
    → release al id ≡ ok al'
    → lookup id al'.by_alloc ≡ none
unfolding release
release-gone al al' id named e =
    ground (arith, named, e, str_eq_iff id "", release_locked-gone id al)

pub release_recorded-IsForgotten :
    (a : AgentAnswers) (ag : Agent) (s t : VgpuSlice)
    → s.allocation_id ≢ ""
    → (release_recorded a ag s).stored ≡ some t
    → IsForgotten (release_recorded a ag s).agent s.allocation_id × IsCleared t
unfolding release_recorded
release_recorded-IsForgotten a ag s t named e = elim (Bool-cases a.spec_removed) [
  | inr w ↦ absurd (ground (arith, w, e))
  | inl w ↦ elim (Result-cases (release ag.allocator s.allocation_id)) [
    | inr (x, f) ↦ absurd (ground (arith, w, f, e))
    | inl (al, f) ↦
        let with : Agent = record (close s.allocation_id ag) { allocator = al } in
        let goes : release_recorded a ag s ≡ forget_checkpoint a s.allocation_id with s =
          ground (arith, w, f) in
        subst (λ o. IsForgotten o.agent s.allocation_id × IsCleared t) (sym goes)
          (forget_checkpoint-IsForgotten a s.allocation_id with s t
            (lookup-delete_self s.allocation_id ag.specs)
            (release-gone ag.allocator al s.allocation_id named f)
            (sym (ap (λ o. o.stored) goes) ∙ e))
  ]
]

release_by_slice-gone :
    (al al' : Allocator) (uid id found_id : String)
    → uid ≢ ""
    → lookup uid al.by_slice ≡ some id
    → release_by_slice al uid ≡ ok (found_id, al')
    → (found_id ≡ id) × (lookup id al'.by_alloc ≡ none)
unfolding release_by_slice
release_by_slice-gone al al' uid id found_id named there e =
    ground (arith, named, there, e, str_eq_iff uid "", release_locked-gone id al)

pub release_unrecorded-IsForgotten :
    (a : AgentAnswers) (ag : Agent) (s t : VgpuSlice) (id : String)
    → s.uid ≢ ""
    → id ≢ ""
    → lookup s.uid ag.allocator.by_slice ≡ some id
    → (release_unrecorded a ag s).stored ≡ some t
    → IsForgotten (release_unrecorded a ag s).agent id × IsCleared t
unfolding release_unrecorded
release_unrecorded-IsForgotten a ag s t id named named' there e =
    elim (Result-cases (release_by_slice ag.allocator s.uid)) [
      | inr (x, f) ↦ absurd (ground (arith, f, e))
      | inl ((found_id, al), f) ↦
          let (same, gone) =
            release_by_slice-gone ag.allocator al s.uid id found_id named there f in
          elim (Bool-cases a.spec_removed) [
            | inr w ↦ absurd (ground (arith, f, w, e, same, named', str_eq_iff id ""))
            | inl w ↦
                let with : Agent = close id (record ag { allocator = al }) in
                let goes : release_unrecorded a ag s ≡ forget_checkpoint a id with s =
                  ground (arith, f, w, same, named', str_eq_iff id "") in
                subst (λ o. IsForgotten o.agent id × IsCleared t) (sym goes)
                  (forget_checkpoint-IsForgotten a id with s t (lookup-delete_self id ag.specs) gone
                    (sym (ap (λ o. o.stored) goes) ∙ e))
          ]
    ]
