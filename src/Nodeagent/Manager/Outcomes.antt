-- ===== src/Nodeagent/Manager/Outcomes.antt =====
-- internal/nodeagent/manager.go: what the agent has done when a slice is Ready or Released.
use vgpu_scheduler.Prelude.{
  ℕ, ◌≡◌, ◌≢◌, refl, sym, ap, ◌∙◌, subst, String, Option, some, List, str_eq_iff, ok, Result-cases,
  Bool-cases, arith, ◌⊎◌, inl, inr,
}
use vgpu_scheduler.Prelude.Dict.{Dict, lookup, insert, lookup-insert_self}
use vgpu_scheduler.Api.{VgpuSlice, allocating, ready}
use vgpu_scheduler.State.{transition_slice_phase, mark_slice_ready}
use vgpu_scheduler.Nodeagent.Allocator.{
  AllocDevice, Allocator, AllocationResult, AllocateError, fragmentation, allocate, recall, commit,
}
use vgpu_scheduler.Nodeagent.Allocator.Ledger.{allocate-eq-ok}
use vgpu_scheduler.Nodeagent.Checkpoint.{
  CheckpointRecord, CheckpointFile, records, FileAnswers, load_all, save,
}
use vgpu_scheduler.Nodeagent.Manager.{
  Agent, AgentAnswers, report_ready, report_failed, publish, allocation_failed, allocate_announced,
  allocate_slice, record_of,
}

-- What the node has for an allocation that a slice's status names.
pub record IsPublished (ag : Agent) (uid : String) (t : VgpuSlice) : Type 0 where
  pub spec : lookup t.allocation_id ag.specs ≡ some t.device_uuid
  pub checkpoint :
      (m : Dict CheckpointRecord) × (r : CheckpointRecord) × (ag.store ≡ records m)
      × (lookup t.allocation_id m ≡ some r)
      × (r.slice_uid ≡ uid)
      × (r.device_uuid ≡ t.device_uuid)
      × (r.allocated_bytes ≡ t.allocated_bytes)
  pub ledger : lookup uid ag.allocator.by_slice ≡ some t.allocation_id

report_ready-stored :
    (a : AgentAnswers) (ag : Agent) (s t : VgpuSlice) (r : AllocationResult)
    → s.phase ≡ allocating
    → (report_ready a ag s r).stored ≡ some t
    → t.phase ≡ ready
    → (t.allocation_id ≡ r.allocation_id)
      × (t.device_uuid ≡ r.device_uuid)
      × (t.allocated_bytes ≡ r.allocated_bytes)
      × ((report_ready a ag s r).agent ≡ ag)
unfolding report_ready mark_slice_ready transition_slice_phase
report_ready-stored a ag s t r p e q = ground (arith, p, e, q)

report_failed-stored :
    (a : AgentAnswers) (ag : Agent) (s t : VgpuSlice) (reason : String)
    → s.phase ≡ allocating
    → (report_failed a ag s reason).stored ≡ some t
    → t.phase ≢ ready
unfolding report_failed transition_slice_phase
report_failed-stored a ag s t reason p e q = ground (arith, p, e, q)

save-eq-records :
    (fs : FileAnswers) (r : CheckpointRecord) (file : CheckpointFile) (u : Unit {0})
    → (save fs r file).0 ≡ ok u
    → (m : Dict CheckpointRecord) × ((save fs r file).1 ≡ records (insert r.allocation_id r m))
unfolding save
save-eq-records fs r file u e = elim (Result-cases (load_all fs file)) [
  | inl (m, l) ↦ (m, ground (arith, l, e))
  | inr (x, l) ↦ absurd (ground (arith, l, e))
]

abbrev pub published : AgentAnswers → Agent → VgpuSlice → AllocationResult → Agent
published a ag s r = record ag {
  specs = insert r.allocation_id r.device_uuid ag.specs;
  store = (save a.file (record_of ag s r a.now) ag.store).1;
}

pub publish-cases :
    (a : AgentAnswers) (ag : Agent) (s : VgpuSlice) (r : AllocationResult)
    → ((publish a ag s r).stored ≡ some s)
      ⊎ ((u : Unit {0}) × ((save a.file (record_of ag s r a.now) ag.store).0 ≡ ok u)
          × (publish a ag s r ≡ report_ready a (published a ag s r) s r))
unfolding publish
publish-cases a ag s r = elim (Result-cases (save a.file (record_of ag s r a.now) ag.store).0) [
  | inr (x, f) ↦ inl (ground (arith, f))
  | inl (u, f) ↦ elim (Bool-cases a.spec_written) [
    | inr w ↦ inl (ground (arith, w))
    | inl w ↦ inr (u, f, ground (arith, w, f))
  ]
]

not_ready : (s t : VgpuSlice) → s.phase ≡ allocating → some s ≡ some t → t.phase ≢ ready
not_ready s t p e q = ground (arith, p, e, q)

publish-IsPublished :
    (a : AgentAnswers) (ag : Agent) (s t : VgpuSlice) (r : AllocationResult)
    → s.phase ≡ allocating
    → lookup s.uid ag.allocator.by_slice ≡ some r.allocation_id
    → (publish a ag s r).stored ≡ some t
    → t.phase ≡ ready
    → IsPublished (publish a ag s r).agent s.uid t
publish-IsPublished a ag s t r p known e q = elim (publish-cases a ag s r) [
  | inl same ↦ absurd (not_ready s t p (sym same ∙ e) q)
  | inr (u, f, goes) ↦
      let (id, dev, bytes, same) =
        report_ready-stored a (published a ag s r) s t r p (sym (ap (λ o. o.stored) goes) ∙ e) q in
      let (m, file) = save-eq-records a.file (record_of ag s r a.now) ag.store u f in
      let all : (publish a ag s r).agent ≡ published a ag s r = ap (λ o. o.agent) goes ∙ same in
      subst (λ x. IsPublished x s.uid t) (sym all)
        (record {
          spec = rw (id, dev) (lookup-insert_self r.allocation_id r.device_uuid ag.specs);
          checkpoint = (
            insert r.allocation_id (record_of ag s r a.now) m,
            record_of ag s r a.now,
            file,
            rw id (lookup-insert_self r.allocation_id (record_of ag s r a.now) m),
            refl,
            sym dev,
            sym bytes,
          );
          ledger = known ∙ ap some (sym id);
        })
]

commit-known :
    (al : Allocator) (alloc_id uid dev : String) (bytes : ℕ)
    → uid ≢ ""
    → lookup uid (commit alloc_id uid dev bytes al).by_slice ≡ some alloc_id
unfolding commit
commit-known al alloc_id uid dev bytes named =
    ground (arith, named, str_eq_iff uid "", lookup-insert_self uid alloc_id al.by_slice)

allocate-known :
    (al al' : Allocator) (devices : Option (List AllocDevice)) (alloc_id uid : String) (bytes : ℕ)
    (r : AllocationResult)
    → allocate al devices alloc_id uid bytes ≡ ok (r, al')
    → lookup uid al'.by_slice ≡ some r.allocation_id
unfolding recall
allocate-known al al' devices alloc_id uid bytes r e =
    let (init, named, pos, (ds, there, how)) =
      allocate-eq-ok al al' devices alloc_id uid bytes r e in
    elim how [
      | inl (prior, k, same, kept) ↦
          ap (λ x. lookup uid x.by_slice) kept ∙ k ∙ ap (λ x. some x.allocation_id) (sym same)
      | inr (fresh, picked, same, kept) ↦
          ap (λ x. lookup uid x.by_slice) kept
          ∙ commit-known al alloc_id uid r.device_uuid bytes named
          ∙ ap (λ x. some x.allocation_id) (sym same)
    ]

allocation_failed-stored :
    (a : AgentAnswers) (ag : Agent) (s t : VgpuSlice) (x : AllocateError)
    → s.phase ≡ allocating
    → (allocation_failed a ag s x).stored ≡ some t
    → t.phase ≢ ready
unfolding allocation_failed
allocation_failed-stored a ag s t (fragmentation n m) p e q =
    report_failed-stored a ag s t "fragmentation" p e q
allocation_failed-stored a ag s t x p e q = not_ready s t p e q

allocate_announced-IsPublished :
    (a : AgentAnswers) (ag : Agent) (s t : VgpuSlice)
    → s.phase ≡ allocating
    → (allocate_announced a ag s).stored ≡ some t
    → t.phase ≡ ready
    → IsPublished (allocate_announced a ag s).agent s.uid t
unfolding allocate_announced publish
allocate_announced-IsPublished a ag s t p e q =
    elim (Result-cases (allocate ag.allocator a.devices a.alloc_id s.uid s.requested_vram)) [
      | inr (x, f) ↦
          let stops : allocate_announced a ag s ≡ allocation_failed a ag s x =
            rw (allocate_announced, f) refl in
          absurd (allocation_failed-stored a ag s t x p (sym (ap (λ o. o.stored) stops) ∙ e) q)
      | inl ((r, al), f) ↦
          let with : Agent = record ag { allocator = al } in
          let goes : allocate_announced a ag s ≡ publish a with s r =
            rw (allocate_announced, f) refl in
          let known =
            allocate-known ag.allocator al a.devices a.alloc_id s.uid s.requested_vram r f in
          subst (λ o. IsPublished o.agent s.uid t) (sym goes)
            (publish-IsPublished a with s t r p known (sym (ap (λ o. o.stored) goes) ∙ e) q)
    ]

pub allocating-phase :
    (s t : VgpuSlice) (message : String)
    → transition_slice_phase s allocating "" message ≡ ok t
    → (t.phase ≡ allocating) × (t.uid ≡ s.uid)
unfolding transition_slice_phase
allocating-phase s t message e = ground (arith, e)

pub allocate_slice-IsPublished :
    (a : AgentAnswers) (ag : Agent) (s t : VgpuSlice)
    → (allocate_slice a ag s).stored ≡ some t
    → t.phase ≡ ready
    → IsPublished (allocate_slice a ag s).agent s.uid t
unfolding allocate_slice
allocate_slice-IsPublished a ag s t e q =
    elim (Result-cases
      (transition_slice_phase s allocating "" "NodeAgent beginning hardware allocation")) [
        | inr (x, f) ↦ absurd (ground (arith, f, e))
        | inl (u, f) ↦ elim (Bool-cases a.announced) [
          | inr w ↦ absurd (ground (arith, f, w, e))
          | inl w ↦
              let (p, same) = allocating-phase s u _ f in
              let goes : allocate_slice a ag s ≡ allocate_announced a ag u =
                rw (allocate_slice, f) (ground (arith, w)) in
              subst (λ x. IsPublished (allocate_slice a ag s).agent x t) same
                (subst (λ o. IsPublished o.agent u.uid t) (sym goes)
                  (allocate_announced-IsPublished a ag u t p (sym (ap (λ o. o.stored) goes) ∙ e) q))
        ]
      ]
