-- ===== src/Nodeagent/Manager/Reports.antt =====
-- internal/nodeagent/manager.go: what the agent has done by the time that it reports a slice.
use vgpu_scheduler.Prelude.{
  ◌≡◌, ◌≢◌, sym, ap, ◌∙◌, subst, String, Bool, none, some, str_eq_iff, arith, ◌⊎◌, inl, inr,
}
use vgpu_scheduler.Prelude.Dict.{lookup}
use vgpu_scheduler.Api.{VgpuSlice, ready, released}
use vgpu_scheduler.Nodeagent.Manager.{Agent, AgentAnswers, release_recorded, manage}
use vgpu_scheduler.Nodeagent.Manager.Outcomes.{IsPublished, allocate_slice-IsPublished}
use vgpu_scheduler.Nodeagent.Manager.Releases.{
  IsForgotten, IsCleared, release_recorded-IsForgotten, release_unrecorded-IsForgotten,
}
use vgpu_scheduler.Nodeagent.Manager.Phases.{
  release_recorded-phase, release_unrecorded-phase, allocate_slice-live, manage-cases,
}

ready_ne_released : (t : VgpuSlice) → t.phase ≡ ready → t.phase ≢ released
ready_ne_released t q p = ground (arith, p, q)

-- When the agent reports a slice as Ready, its ledger has the reported allocation for the slice's UID,
-- the checkpoint has it with the reported card and bytes, and its CDI spec names that card.
pub ready-IsPublished :
    (a : AgentAnswers) (deleting : Bool) (ag : Agent) (s t : VgpuSlice)
    → (manage a deleting ag s).stored ≡ some t
    → t.phase ≡ ready
    → IsPublished (manage a deleting ag s).agent s.uid t
ready-IsPublished a deleting ag s t e q = elim (manage-cases a deleting ag s) [
  | inl goes ↦
      subst (λ o. IsPublished o.agent s.uid t) (sym goes)
        (allocate_slice-IsPublished a ag s t (sym (ap (λ o. o.stored) goes) ∙ e) q)
  | inr (inl (x, goes)) ↦ absurd (
      ready_ne_released t q (release_unrecorded-phase a ag s t (sym (ap (λ o. o.stored) goes) ∙ e)))
  | inr (inr (inl (x, goes))) ↦
      absurd (
        ready_ne_released t q (release_recorded-phase a ag s t (sym (ap (λ o. o.stored) goes) ∙ e)))
  | inr (inr (inr nothing)) ↦ absurd (let x : none ≡ some t = sym nothing ∙ e in cc)
]

-- When the agent reports a slice as Released, neither its ledger nor the checkpoint nor the CDI specs
-- have anything of the allocation that its status named or, where the status named none, of the
-- one that the ledger has for its UID; and the status names no allocation any more.
pub released-IsForgotten :
    (a : AgentAnswers) (deleting : Bool) (ag : Agent) (s t : VgpuSlice) (id : String)
    → s.uid ≢ ""
    → id ≢ ""
    → (s.allocation_id ≡ id)
      ⊎ ((s.allocation_id ≡ "") × (lookup s.uid ag.allocator.by_slice ≡ some id))
    → (manage a deleting ag s).stored ≡ some t
    → t.phase ≡ released
    → IsForgotten (manage a deleting ag s).agent id × IsCleared t
released-IsForgotten a deleting ag s t id named named' holds_it e q =
    elim (manage-cases a deleting ag s) [
      | inl goes ↦ absurd (allocate_slice-live a ag s t (sym (ap (λ o. o.stored) goes) ∙ e) q)
      | inr (inl (x, goes)) ↦ elim holds_it [
        | inl same ↦ absurd (named' (sym same ∙ (str_eq_iff s.allocation_id "").0 x))
        | inr (empty, there) ↦
            subst (λ o. IsForgotten o.agent id × IsCleared t) (sym goes)
              (release_unrecorded-IsForgotten a ag s t id named named' there
                (sym (ap (λ o. o.stored) goes) ∙ e))
      ]
      | inr (inr (inl (x, goes))) ↦ elim holds_it [
        | inl same ↦
            subst (λ o. IsForgotten o.agent id × IsCleared t) (sym goes)
              (subst (λ i. IsForgotten (release_recorded a ag s).agent i × IsCleared t) same
                (release_recorded-IsForgotten a ag s t (λ n. named' (sym same ∙ n))
                  (sym (ap (λ o. o.stored) goes) ∙ e)))
        | inr (empty, there) ↦ absurd (ground (arith, x, (str_eq_iff s.allocation_id "").1 empty))
      ]
      | inr (inr (inr nothing)) ↦ absurd (let x : none ≡ some t = sym nothing ∙ e in cc)
    ]
