-- ===== src/Scheduler/Preemptor.antt =====
-- internal/scheduler/preemptor.go: which slices a preemption evicts. The slices, claims and jobs are
-- what the API server answers; times are in seconds.
pub mod Plans
pub mod Windows
use Prim.Native.String.{◌++◌}
use vgpu_scheduler.Prelude.{
  ℕ, ◌+◌, ◌≡◌, String, Bool, true, false, ◌&&◌, ◌||◌, not, Option, none, some, List, [], ◌∷◌, ltb,
  leb, ◌==◌, str_eq, if◌then◌else◌,
}
use vgpu_scheduler.Prelude.Dict.{Dict, lookup, insert, retain}
use vgpu_scheduler.Prelude.Sort.{sort}
use vgpu_scheduler.Api.{VgpuSlice, VgpuClaim, VgpuJob, SlicePhase, ready, phase_eq}

abbrev pub preemption_cooldown : ℕ
preemption_cooldown = 60

abbrev pub preemption_priority_gap : ℕ
preemption_priority_gap = 100

abbrev pub default_grace_seconds : ℕ
default_grace_seconds = 30

abbrev pub max_grace_seconds : ℕ
max_grace_seconds = 3600

abbrev pub preemption_in_flight_window : ℕ
preemption_in_flight_window = 60

pub record VictimSelection : Type 0 where
  pub slice : VgpuSlice
  pub job : VgpuJob
  pub priority : ℕ
  pub grace_seconds : ℕ
  pub allocated_bytes : ℕ

-- What the candidate loop reads: the claims and jobs of the namespace and the cooldowns.
pub record Evidence : Type 0 where
  pub claim_named : String → Option VgpuClaim
  pub job_named : String → Option VgpuJob
  pub cooldown : Dict ℕ
  pub now : ℕ

unfoldable pub cooldown_key : String → String → String
cooldown_key namespace claim = namespace ++ "/" ++ claim

abbrev pub before_deadline : ℕ → Option ℕ → Bool
before_deadline now none = false
before_deadline now (some until) = ltb now until

unfoldable pub cooling_down : Evidence → String → String → Bool
unfolding cooldown_key
cooling_down ev namespace claim =
    before_deadline ev.now (lookup (cooldown_key namespace claim) ev.cooldown)

abbrev pub grace_of : VgpuJob → ℕ
grace_of j = elim j.grace_seconds [ none ↦ default_grace_seconds | some g ↦ g ]

-- The tests on the slice itself: not the requester, ready, with bytes and a claim.
unfoldable pub slice_may_yield : String → VgpuSlice → Bool
slice_may_yield requester s =
    not (str_eq s.name requester)
    && phase_eq s.phase ready
    && ltb 0 s.allocated_bytes
    && not (str_eq s.claim_ref "")

-- The tests on its job and its claim.
unfoldable pub job_may_yield : Evidence → ℕ → VgpuSlice → VgpuClaim → VgpuJob → Bool
unfolding cooling_down
job_may_yield ev requester_priority s claim job =
    job.preemptible
    && str_eq s.reservation_ref ""
    && str_eq s.gang_ref ""
    && leb (job.priority + preemption_priority_gap) requester_priority
    && not (cooling_down ev s.namespace claim.name)

abbrev selection_of : VgpuSlice → VgpuJob → VictimSelection
selection_of s job = record {
  slice = s;
  job = job;
  priority = job.priority;
  grace_seconds = grace_of job;
  allocated_bytes = s.allocated_bytes;
}

-- The victim that a slice makes, if it is eligible.
unfoldable pub candidate_of : Evidence → String → ℕ → VgpuSlice → Option VictimSelection
unfolding slice_may_yield job_may_yield
candidate_of ev requester requester_priority s = elim (slice_may_yield requester s) [
  | false ↦ none
  | true ↦ elim (ev.claim_named s.claim_ref) [
    | none ↦ none
    | some claim ↦ if str_eq claim.job_ref "" then none else elim (ev.job_named claim.job_ref) [
      | none ↦ none
      | some job ↦
          if job_may_yield ev requester_priority s claim job
          then some (selection_of s job)
          else none
    ]
  ]
]

abbrev add_candidate : Option VictimSelection → List VictimSelection → List VictimSelection
add_candidate none vs = vs
add_candidate (some v) vs = v ∷ vs

unfoldable pub candidates_of : Evidence → String → ℕ → List VgpuSlice → List VictimSelection
unfolding candidate_of
candidates_of ev requester requester_priority [] = []
candidates_of ev requester requester_priority (s ∷ ss) =
    add_candidate (candidate_of ev requester requester_priority s)
      (candidates_of ev requester requester_priority ss)

-- Lowest priority, then fewest bytes, then oldest.
unfoldable pub cheaper : VictimSelection → VictimSelection → Bool
cheaper v w =
    if v.priority == w.priority
    then (if v.allocated_bytes == w.allocated_bytes
        then ltb v.slice.created_at w.slice.created_at
        else ltb v.allocated_bytes w.allocated_bytes)
    else ltb v.priority w.priority

abbrev pub smaller : VictimSelection → VictimSelection → Bool
smaller v w = ltb v.allocated_bytes w.allocated_bytes

-- The first victim that covers the need by itself.
unfoldable pub single_victim : ℕ → List VictimSelection → Option VictimSelection
single_victim needed [] = none
single_victim needed (v ∷ vs) =
    if leb needed v.allocated_bytes then some v else single_victim needed vs

-- The victims in their order until they cover the need, with the bytes that they free.
unfoldable pub accumulate : ℕ → ℕ → List VictimSelection → List VictimSelection × ℕ
accumulate needed freed [] = ([], freed)
accumulate needed freed (v ∷ vs) =
    let (more, all) = accumulate needed (freed + v.allocated_bytes) vs in
    if leb needed (freed + v.allocated_bytes)
    then (v ∷ [], freed + v.allocated_bytes)
    else (v ∷ more, all)

unfoldable pub select_victims : ℕ → List VictimSelection → List VictimSelection × ℕ
unfolding single_victim accumulate cheaper
select_victims needed candidates =
    let sorted = sort cheaper candidates in
    elim (single_victim needed (sort smaller sorted)) [
      | some v ↦ (v ∷ [], v.allocated_bytes)
      | none ↦ accumulate needed 0 sorted
    ]

-- The plan, before any victim is marked.
unfoldable pub plan_of : ℕ → List VictimSelection → Option (List VictimSelection × ℕ)
unfolding select_victims
plan_of needed [] = none
plan_of needed (c ∷ cs) =
    let (victims, freed) = select_victims needed (c ∷ cs) in
    if ltb freed needed then none else some (victims, freed)

-- The cooldowns after a plan.
unfoldable pub cool_down : ℕ → List VictimSelection → Dict ℕ → Dict ℕ
unfolding cooldown_key
cool_down now [] cooldown = cooldown
cool_down now (v ∷ vs) cooldown =
    cool_down now vs (
      insert (cooldown_key v.slice.namespace v.slice.claim_ref) (now + preemption_cooldown)
        cooldown)

unfoldable pub cleanup_cooldown : ℕ → Dict ℕ → Dict ℕ
cleanup_cooldown now cooldown = retain (λ until. not (ltb until now)) cooldown

-- The longest grace of the preemptible jobs, each capped, and not below the default.
unfoldable pub max_grace : List VgpuJob → ℕ → ℕ
max_grace [] longest = longest
max_grace (j ∷ js) longest =
    let grace = (if ltb max_grace_seconds (grace_of j) then max_grace_seconds else grace_of j) in
    let next = (if j.preemptible && ltb longest grace then grace else longest) in max_grace js next

unfoldable pub effective_in_flight_window : Option (List VgpuJob) → ℕ
unfolding max_grace
effective_in_flight_window none = preemption_in_flight_window
effective_in_flight_window (some jobs) =
    let dynamic = max_grace jobs default_grace_seconds + 30 in
    if ltb preemption_in_flight_window dynamic then dynamic else preemption_in_flight_window
