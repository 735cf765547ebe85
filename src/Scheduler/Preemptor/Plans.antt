-- ===== src/Scheduler/Preemptor/Plans.antt =====
-- internal/scheduler/preemptor.go: what a plan guarantees.
use vgpu_scheduler.Prelude.{
  ℕ, ◌+◌, ◌≤◌, ◌<◌, ◌≡◌, ◌≢◌, ◌⊎◌, refl, subst, String, Bool, true, false, none, some, List, [],
  ◌∷◌, leb, str_eq_iff, arith, inl, inr, All, All-map, Option-cases, Bool-cases,
}
use vgpu_scheduler.Prelude.Sort.{sort, insert_sorted, sort-All, unsort-All, Sorted, sort-Sorted}
use vgpu_scheduler.Api.{VgpuSlice, VgpuClaim, VgpuJob, ready}
use vgpu_scheduler.Scheduler.Preemptor.{
  VictimSelection, Evidence, cooling_down, slice_may_yield, job_may_yield, candidate_of,
  candidates_of, cheaper, smaller, single_victim, accumulate, select_victims, plan_of, selection_of,
}

-- The bytes that a list of victims frees.
abbrev pub freed_by : List VictimSelection → ℕ
freed_by [] = 0
freed_by (v ∷ vs) = v.allocated_bytes + freed_by vs

insert-freed :
    (less : VictimSelection → VictimSelection → Bool) (v : VictimSelection)
    (vs : List VictimSelection)
    → freed_by (insert_sorted less v vs) ≡ v.allocated_bytes + freed_by vs
unfolding insert_sorted
insert-freed less v [] = refl
insert-freed less v (w ∷ ws) = ground (arith, insert-freed less v ws)

sort-freed :
    (less : VictimSelection → VictimSelection → Bool) (vs : List VictimSelection)
    → freed_by (sort less vs) ≡ freed_by vs
unfolding sort
sort-freed less [] = refl
sort-freed less (v ∷ vs) = omega (arith, insert-freed less v (sort less vs), sort-freed less vs)

single-All {ℓ} :
    (P : VictimSelection → Type ℓ) (needed : ℕ) (vs : List VictimSelection) (v : VictimSelection)
    → All P vs
    → single_victim needed vs ≡ some v
    → P v × (needed ≤ v.allocated_bytes)
unfolding single_victim
single-All P needed [] v a e = absurd (cc)
single-All P needed (w ∷ ws) v a e = elim (Bool-cases (leb needed w.allocated_bytes)) [
  | inl y ↦
      let same : w ≡ v = cc (rw (single_victim, y) at e) in
      subst (λ x. P x × (needed ≤ x.allocated_bytes)) same (a.0, ground arith)
  | inr n ↦ single-All P needed ws v a.1 (rw (single_victim, n) at e)
]

single-none :
    (needed : ℕ) (vs : List VictimSelection)
    → single_victim needed vs ≡ none
    → All (λ v. v.allocated_bytes < needed) vs
unfolding single_victim
single-none needed [] e = tt
single-none needed (v ∷ vs) e = ground (arith, single-none needed vs)

accumulate-All {ℓ} :
    (P : VictimSelection → Type ℓ) (needed freed : ℕ) (vs : List VictimSelection)
    → All P vs
    → All P (accumulate needed freed vs).0
unfolding accumulate
accumulate-All P needed freed [] a = tt
accumulate-All P needed freed (v ∷ vs) a =
    elim (Bool-cases (leb needed (freed + v.allocated_bytes))) [
      | inl y ↦ rw y (a.0, tt)
      | inr n ↦ rw n (a.0, accumulate-All P needed (freed + v.allocated_bytes) vs a.1)
    ]

-- The count of freed bytes is exact, and short of the need only when all victims together are.
accumulate-freed :
    (needed freed : ℕ) (vs : List VictimSelection)
    → let (victims, all) = accumulate needed freed vs in
      (all ≡ freed + freed_by victims) × (all < needed → all ≡ freed + freed_by vs)
unfolding accumulate
accumulate-freed needed freed [] = ground arith
accumulate-freed needed freed (v ∷ vs) =
    ground (arith, accumulate-freed needed (freed + v.allocated_bytes) vs)

All-any : (vs : List VictimSelection) → All (λ v. Unit {0}) vs
All-any [] = tt
All-any (v ∷ vs) = (tt, All-any vs)

select-freed :
    (needed : ℕ) (candidates : List VictimSelection)
    → let (victims, freed) = select_victims needed candidates in
      (freed ≡ freed_by victims) × (freed < needed → freed ≡ freed_by candidates)
unfolding select_victims
select-freed needed candidates =
    let sorted = sort cheaper candidates in
    elim (Option-cases (single_victim needed (sort smaller sorted))) [
      | inl e ↦
          rw (select_victims, e)
            (ground (arith, accumulate-freed needed 0 sorted, sort-freed cheaper candidates))
      | inr (v, e) ↦
          let covers =
            (single-All (λ v. Unit {0}) needed (sort smaller sorted) v
              (All-any (sort smaller sorted)) e).1 in
          rw (select_victims, e) (ground (arith, covers))
    ]

select-All {ℓ} :
    (P : VictimSelection → Type ℓ) (needed : ℕ) (candidates : List VictimSelection)
    → All P candidates
    → All P (select_victims needed candidates).0
unfolding select_victims
select-All P needed candidates a =
    let sorted = sort cheaper candidates in
    let cheap = sort-All cheaper P candidates a in
    elim (Option-cases (single_victim needed (sort smaller sorted))) [
      | inl e ↦ rw (select_victims, e) (accumulate-All P needed 0 sorted cheap)
      | inr (v, e) ↦
          rw (select_victims, e)
            (
              (single-All P needed (sort smaller sorted) v (sort-All smaller P sorted cheap) e).0,
              tt,
            )
    ]

-- A plan frees at least what is needed, and counts exactly the bytes of its victims; there is no plan
-- only where all candidates together free less than what is needed, or where there are none.
pub plan_covers :
    (needed : ℕ) (candidates : List VictimSelection)
    → ((victims : List VictimSelection) (freed : ℕ)
        → plan_of needed candidates ≡ some (victims, freed)
        → (needed ≤ freed) × (freed ≡ freed_by victims))
      × (plan_of needed candidates ≡ none → (candidates ≡ []) ⊎ (freed_by candidates < needed))
unfolding plan_of
plan_covers needed [] = (λ vs f e. absurd (cc), λ e. inl refl)
plan_covers needed (c ∷ cs) = ground (arith, select-freed needed (c ∷ cs))

-- What makes a victim eligible.
pub record IsEligible (ev : Evidence) (requester : String) (requester_priority : ℕ)
    (v : VictimSelection) : Type 0 where
  pub other : v.slice.name ≢ requester
  pub running : (v.slice.phase ≡ ready) × (0 < v.allocated_bytes)
  pub solo : (v.slice.gang_ref ≡ "") × (v.slice.reservation_ref ≡ "")
  pub preemptible : v.job.preemptible ≡ true
  pub outranked : v.job.priority + 100 ≤ requester_priority
  pub owned :
      (claim : VgpuClaim) × (ev.claim_named v.slice.claim_ref ≡ some claim)
      × (ev.job_named claim.job_ref ≡ some v.job)
      × (cooling_down ev v.slice.namespace claim.name ≡ false)

-- What a candidate was made of.
candidate-parts :
    (ev : Evidence) (requester : String) (requester_priority : ℕ) (s : VgpuSlice)
    (v : VictimSelection)
    → candidate_of ev requester requester_priority s ≡ some v
    → (slice_may_yield requester s ≡ true)
      × ((claim : VgpuClaim) × (job : VgpuJob) × (ev.claim_named s.claim_ref ≡ some claim)
          × (ev.job_named claim.job_ref ≡ some job)
          × (job_may_yield ev requester_priority s claim job ≡ true)
          × (selection_of s job ≡ v))
unfolding candidate_of
candidate-parts ev requester requester_priority s v e =
    elim (Bool-cases (slice_may_yield requester s)) [
      | inr n ↦ absurd (ground (arith, n, e))
      | inl y ↦ elim (Option-cases (ev.claim_named s.claim_ref)) [
        | inl n ↦ absurd (ground (arith, y, n, e))
        | inr (claim, c) ↦ elim (Option-cases (ev.job_named claim.job_ref)) [
          | inl n ↦ absurd (ground (arith, y, c, n, e))
          | inr (job, j) ↦ elim (Bool-cases (job_may_yield ev requester_priority s claim job)) [
            | inr n ↦ absurd (ground (arith, y, c, j, n, e))
            | inl m ↦ (y, (claim, job, c, j, m, ground (arith, y, c, j, m, e)))
          ]
        ]
      ]
    ]

candidate-IsEligible :
    (ev : Evidence) (requester : String) (requester_priority : ℕ) (s : VgpuSlice)
    (v : VictimSelection)
    → candidate_of ev requester requester_priority s ≡ some v
    → IsEligible ev requester requester_priority v
unfolding slice_may_yield job_may_yield
candidate-IsEligible ev requester requester_priority s v e =
    let (y, (claim, job, c, j, m, same)) = candidate-parts ev requester requester_priority s v e in
    subst (IsEligible ev requester requester_priority) same (record {
      other = ground (arith, y, str_eq_iff s.name requester);
      running = ground (arith, y);
      solo = ground (arith, m, str_eq_iff s.gang_ref "", str_eq_iff s.reservation_ref "");
      preemptible = ground (arith, m);
      outranked = ground (arith, m);
      owned = (claim, c, j, ground (arith, m));
    })

candidates-IsEligible :
    (ev : Evidence) (requester : String) (requester_priority : ℕ) (slices : List VgpuSlice)
    → All
        (IsEligible ev requester requester_priority)
        (candidates_of ev requester requester_priority slices)
unfolding candidates_of
candidates-IsEligible ev requester requester_priority [] = tt
candidates-IsEligible ev requester requester_priority (s ∷ ss) =
    let rest = candidates-IsEligible ev requester requester_priority ss in
    elim (Option-cases (candidate_of ev requester requester_priority s)) [
      | inl e ↦ rw e rest
      | inr (v, e) ↦ rw e (candidate-IsEligible ev requester requester_priority s v e, rest)
    ]

plan-All {ℓ} :
    (P : VictimSelection → Type ℓ) (needed : ℕ) (candidates victims : List VictimSelection)
    (freed : ℕ)
    → All P candidates
    → plan_of needed candidates ≡ some (victims, freed)
    → All P victims
unfolding plan_of
plan-All P needed [] victims freed a e = absurd (cc)
plan-All P needed (c ∷ cs) victims freed a e =
    let same : (select_victims needed (c ∷ cs)).0 ≡ victims = ground (arith, e) in
    subst (All P) same (select-All P needed (c ∷ cs) a)

-- A plan evicts only slices that run with bytes of their own, are not the requester's, belong to no
-- gang, and are of a preemptible job at least 100 below the requester's priority whose claim is not
-- cooling down.
pub plan-IsEligible :
    (ev : Evidence) (requester : String) (requester_priority needed : ℕ) (slices : List VgpuSlice)
    (victims : List VictimSelection) (freed : ℕ)
    → plan_of needed (candidates_of ev requester requester_priority slices) ≡ some (victims, freed)
    → All (IsEligible ev requester requester_priority) victims
plan-IsEligible ev requester requester_priority needed slices victims freed e =
    plan-All _ needed (candidates_of ev requester requester_priority slices) victims freed
      (candidates-IsEligible ev requester requester_priority slices) e

single-smallest :
    (needed : ℕ) (vs : List VictimSelection) (v : VictimSelection)
    → Sorted smaller vs
    → single_victim needed vs ≡ some v
    → All (λ w. needed ≤ w.allocated_bytes → v.allocated_bytes ≤ w.allocated_bytes) vs
unfolding single_victim
single-smallest needed [] v s e = absurd (cc)
single-smallest needed (w ∷ ws) v s e = elim (Bool-cases (leb needed w.allocated_bytes)) [
  | inl y ↦
      let same : w ≡ v = cc (rw (single_victim, y) at e) in
      subst
        (λ x.
          All (λ u. needed ≤ u.allocated_bytes → x.allocated_bytes ≤ u.allocated_bytes) (w ∷ ws))
        same (λ h. ground arith, All-map ws (λ u h c. ground (arith, h)) s.0)
  | inr n ↦ (λ h. ground (arith, n), single-smallest needed ws v s.1 (rw (single_victim, n) at e))
]

-- Where one candidate covers the need by itself, the plan evicts a single one, and no candidate that
-- covers the need is smaller.
pub plan_single :
    (needed : ℕ) (candidates victims : List VictimSelection) (freed : ℕ)
    → plan_of needed candidates ≡ some (victims, freed)
    → (All (λ v. v.allocated_bytes < needed) candidates)
      ⊎ ((v : VictimSelection) × (victims ≡ v ∷ [])
          × All
              (λ w. needed ≤ w.allocated_bytes → v.allocated_bytes ≤ w.allocated_bytes)
              candidates)
unfolding plan_of select_victims
plan_single needed [] victims freed e = absurd (cc)
plan_single needed (c ∷ cs) victims freed e =
    let sorted = sort cheaper (c ∷ cs) in
    let ordered = sort-Sorted smaller (λ x y h. ground arith) (λ x y z h k. ground arith) sorted in
    elim (Option-cases (single_victim needed (sort smaller sorted))) [
      | inl n ↦ inl (
          unsort-All cheaper _ (c ∷ cs)
            (unsort-All smaller _ sorted (single-none needed (sort smaller sorted) n)))
      | inr (v, y) ↦ inr (
        v,
        ground (arith, y, e),
        unsort-All cheaper _ (c ∷ cs) (
            unsort-All smaller _ sorted (single-smallest needed (sort smaller sorted) v ordered y)),
      )
    ]
