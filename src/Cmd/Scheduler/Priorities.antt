-- ===== src/Cmd/Scheduler/Priorities.antt =====
-- cmd/scheduler/main.go: `makePriorityFunc`, the priority of a request in the scheduler's queue. Times
-- are in seconds.
use vgpu_scheduler.Prelude.{
  ℕ, ◌+◌, ◌-◌, ◌/◌, ◌≤◌, ◌<◌, ◌≡◌, ◌≢◌, ltb, str_eq, if◌then◌else◌, str_eq_iff, arith,
}
use vgpu_scheduler.Api.{VgpuSlice, VgpuClaim, VgpuJob, Read, found, not_found, unreadable}

abbrev pub priority_best_effort : ℕ
priority_best_effort = 10

abbrev pub priority_guaranteed : ℕ
priority_guaranteed = 100

-- The slice of the request, its claim and the claim's job, as they are read.
pub record PriorityReads : Type 0 where
  pub slice : Read VgpuSlice
  pub claim : Read VgpuClaim
  pub job : Read VgpuJob
  pub now : ℕ

unfoldable pub base_priority : VgpuClaim → ℕ
base_priority c =
    if str_eq c.service_tier "Guaranteed" then priority_guaranteed else priority_best_effort

-- One more for every thirty seconds of waiting, fifty at most.
unfoldable pub aging_bonus : ℕ → ℕ
aging_bonus age = if ltb 50 (age / 30) then 50 else age / 30

-- The job's priority if it is higher than the tier's, and the tier's with the bonus otherwise.
unfoldable pub with_job : ℕ → ℕ → Read VgpuJob → ℕ
unfolding aging_bonus
with_job base age (found j) = if ltb base j.priority then j.priority else base + aging_bonus age
with_job base age not_found = base + aging_bonus age
with_job base age unreadable = base + aging_bonus age

unfoldable pub with_claim : PriorityReads → VgpuSlice → Read VgpuClaim → ℕ
unfolding base_priority with_job
with_claim w s not_found = priority_best_effort
with_claim w s unreadable = priority_best_effort
with_claim w s (found c) =
    let age = w.now - s.created_at in
    if str_eq c.job_ref ""
    then base_priority c + aging_bonus age
    else with_job (base_priority c) age w.job

unfoldable pub priority_of : PriorityReads → ℕ
unfolding with_claim
priority_of w = elim (w.slice) [
  | not_found ↦ priority_best_effort
  | unreadable ↦ priority_best_effort
  | found s ↦ if str_eq s.claim_ref "" then priority_best_effort else with_claim w s w.claim
]

-- Whose queue priority comes from this claim.
abbrev IsOf : PriorityReads → VgpuSlice → VgpuClaim → Type 0
IsOf w s c = (w.slice ≡ found s) × (s.claim_ref ≢ "") × (w.claim ≡ found c)

priority-eq-claim :
    (w : PriorityReads) (s : VgpuSlice) (c : VgpuClaim)
    → IsOf w s c
    → priority_of w ≡ with_claim w s (found c)
unfolding priority_of
priority-eq-claim w s c of = ground (arith, of, str_eq_iff s.claim_ref "")

-- However long the one has waited and the other not, a request of a Guaranteed claim has a higher
-- priority than one of a claim of another tier, if neither claim has a job.
pub guaranteed_first :
    (w w' : PriorityReads) (s s' : VgpuSlice) (c c' : VgpuClaim)
    → (w.slice ≡ found s) × (s.claim_ref ≢ "") × (w.claim ≡ found c)
    → (w'.slice ≡ found s') × (s'.claim_ref ≢ "") × (w'.claim ≡ found c')
    → c.service_tier ≡ "Guaranteed"
    → c'.service_tier ≢ "Guaranteed"
    → c.job_ref ≡ ""
    → c'.job_ref ≡ ""
    → priority_of w' < priority_of w
unfolding with_claim base_priority aging_bonus
guaranteed_first w w' s s' c c' of of' sure other none none' = ground (
  arith,
  priority-eq-claim w s c of,
  priority-eq-claim w' s' c' of',
  str_eq_iff c.service_tier "Guaranteed",
  str_eq_iff c'.service_tier "Guaranteed",
  str_eq_iff c.job_ref "",
  str_eq_iff c'.job_ref "",
)

-- A job whose priority is above its tier's does not age: once it has waited for 25 minutes, a request
-- whose job has a priority of at most 10 goes before one whose job has a priority between 11 and 59,
-- however long that one has waited, neither claim being Guaranteed.
pub overriding_job_starves :
    (w w' : PriorityReads) (s s' : VgpuSlice) (c c' : VgpuClaim) (j j' : VgpuJob)
    → (w.slice ≡ found s) × (s.claim_ref ≢ "") × (w.claim ≡ found c)
    → (w'.slice ≡ found s') × (s'.claim_ref ≢ "") × (w'.claim ≡ found c')
    → c.service_tier ≢ "Guaranteed"
    → c'.service_tier ≢ "Guaranteed"
    → (c.job_ref ≢ "") × (w.job ≡ found j)
    → (c'.job_ref ≢ "") × (w'.job ≡ found j')
    → j.priority ≤ 10
    → (10 < j'.priority) × (j'.priority < 60)
    → 1500 ≤ w.now - s.created_at
    → (priority_of w' ≡ j'.priority) × (priority_of w' < priority_of w)
unfolding with_claim base_priority with_job aging_bonus
overriding_job_starves w w' s s' c c' j j' of of' tier tier' has_job has_job' low high waited =
    ground (
      arith,
      priority-eq-claim w s c of,
      priority-eq-claim w' s' c' of',
      str_eq_iff c.service_tier "Guaranteed",
      str_eq_iff c'.service_tier "Guaranteed",
      str_eq_iff c.job_ref "",
      str_eq_iff c'.job_ref "",
    )
