-- ===== src/Webhook/Jobs.antt =====
-- internal/webhook/validating_vgpujob.go: the job's template is frozen, and an undersized creation is
-- rejected where the mode asks for it. The profile lookup is the API client's and is an argument.
use vgpu_scheduler.Prelude.{
  ℕ, ◌≡◌, ◌≢◌, ◌↔◌, ◌⊎◌, String, Bool, true, false, not, ◌&&◌, Option, none, some, Result, guard,
  leb, ◌==◌, arith, str_eq, str_eq_iff, if◌then◌else◌,
}
use vgpu_scheduler.Prelude.Dict.{Dict, lookup}
use vgpu_scheduler.Recommendation.{
  Mode, Confidence, is_require_override, blocks, confident_enough, undersized,
}
use vgpu_scheduler.Webhook.{
  create, update, other, Request, Response, bad_request, denied, allowed, deny_or,
}

-- VGPUClaimTemplate: the claim's spec.
pub record ClaimTemplate : Type 0 where
  pub requested_vram : ℕ
  pub service_tier : String
  pub job_ref : String

-- An annotation; numbers are kept as numbers, not as their decimal text.
pub data Annotation : Type 0 where
  text : String → Annotation
  number : ℕ → Annotation

pub record SubmittedJob : Type 0 where
  pub name : String
  pub namespace : String
  pub template : ClaimTemplate
  pub annotations : Dict Annotation

-- The client's answer: the profile's recommendation and confidence, not found, or another error.
pub data ProfileLookup : Type 0 where
  found : ℕ → Confidence → ProfileLookup
  not_found unavailable : ProfileLookup

pub data JobError : Type 0 where
  template_immutable : JobError
  under_provisioned : ℕ → ℕ → JobError

abbrev pub template_eq : ClaimTemplate → ClaimTemplate → Bool
template_eq s t =
    s.requested_vram == t.requested_vram
    && str_eq s.service_tier t.service_tier
    && str_eq s.job_ref t.job_ref

unfoldable pub validate_job_update : SubmittedJob → SubmittedJob → Result JobError (Unit {0})
validate_job_update old new = guard (template_eq old.template new.template) template_immutable

abbrev pub override_annotation : String
override_annotation = "infrastructure.pranav2910.com/override-recommendation"

abbrev is_true : Option Annotation → Bool
is_true (some (text t)) = str_eq t "true"
is_true _ = false

unfoldable pub has_override : SubmittedJob → Bool
has_override job = is_true (lookup override_annotation job.annotations)

-- The decision on a creation once the profile was looked up.
unfoldable pub judge_creation : Mode → SubmittedJob → ProfileLookup → Response JobError
judge_creation mode job not_found = allowed ""
judge_creation mode job unavailable =
    allowed "recommendation profile unavailable; admitted (fail-open)"
judge_creation mode job (found recommended conf) =
    let requested = job.template.requested_vram in
    if blocks mode requested recommended conf (has_override job)
    then denied (under_provisioned requested recommended)
    else if has_override job && confident_enough conf && undersized requested recommended
    then allowed "under-provisioned request admitted by override annotation"
    else allowed ""

unfoldable pub handle_job_creation :
    Mode → (String → String → ProfileLookup) → Option SubmittedJob → Response JobError
unfolding judge_creation
handle_job_creation mode get none = bad_request
handle_job_creation mode get (some job) =
    if leb job.template.requested_vram 0
    then allowed ""
    else judge_creation mode job (get job.namespace job.name)

unfoldable pub handle_job :
    Mode → (String → String → ProfileLookup) → Request SubmittedJob → Response JobError
unfolding handle_job_creation validate_job_update
handle_job mode get req = elim req.operation [
  | update ↦ elim req.object [
    | none ↦ bad_request
    | some new ↦ elim req.old_object [
      | none ↦ bad_request
      | some old ↦ deny_or (validate_job_update old new) (allowed "")
    ]
  ]
  | create ↦
      if not (is_require_override mode) then allowed "" else handle_job_creation mode get req.object
  | other _ ↦ allowed ""
]

abbrev pub creation : SubmittedJob → Request SubmittedJob
creation job = record { operation = create; object = some job; old_object = none }

template_eq_iff : (s t : ClaimTemplate) → (template_eq s t ≡ true) ↔ (s ≡ t)
template_eq_iff s t =
    ground (arith, str_eq_iff s.service_tier t.service_tier, str_eq_iff s.job_ref t.job_ref)

-- In every mode, an update is admitted exactly when the claim template is the old one.
pub handle_update_iff :
    (mode : Mode) (get : String → String → ProfileLookup) (old new : SubmittedJob)
    → (handle_job mode get (record { operation = update; object = some new; old_object = some old })
        ≡ allowed "")
      ↔ (old.template ≡ new.template)
unfolding handle_job
handle_update_iff mode get old new = ground (arith, template_eq_iff old.template new.template)

-- Whatever the mode, a creation whose profile is missing or cannot be read is not refused.
pub handle_creation_fail_open :
    (mode : Mode) (get : String → String → ProfileLookup) (job : SubmittedJob) (e : JobError)
    → (get job.namespace job.name ≡ not_found) ⊎ (get job.namespace job.name ≡ unavailable)
    → handle_job mode get (creation job) ≢ denied e
unfolding handle_job
handle_creation_fail_open mode get job e h = ground arith
