-- ===== src/Webhook/Resizer.antt =====
-- internal/webhook/mutating_vgpujob.go: the autoResize webhook, which raises an undersized request
-- at its creation and stamps what it did. Serialising the changed object does not fail.
use vgpu_scheduler.Prelude.{
  ℕ, ◌≤◌, ◌<◌, ◌≡◌, inl, inr, refl, String, Bool, true, false, not, Option, none, some, leb, arith,
  str_eq, if◌then◌else◌, Bool-cases,
}
use vgpu_scheduler.Prelude.Dict.{lookup, insert, lookup-insert}
use vgpu_scheduler.Recommendation.{
  Mode, Confidence, auto_resize, is_auto_resize, resize_target, fleet_max_bytes,
}
use vgpu_scheduler.Recommendation.Decisions.{resize_raises}
use vgpu_scheduler.Webhook.{create, Request}
use vgpu_scheduler.Webhook.Jobs.{
  text, number, SubmittedJob, ProfileLookup, found, not_found, unavailable, has_override, creation,
}

-- The response: an error, an admission of the object as it is, or a patch to a changed object.
pub data Mutation : Type 0 where
  rejected kept : Mutation
  patched : SubmittedJob → Mutation

abbrev pub original_vram : String
original_vram = "infrastructure.pranav2910.com/original-vram-bytes"

abbrev pub autoresized_vram : String
autoresized_vram = "infrastructure.pranav2910.com/autoresized-vram-bytes"

abbrev pub autoresized : String
autoresized = "infrastructure.pranav2910.com/autoresized"

abbrev pub autoresize_capped : String
autoresize_capped = "infrastructure.pranav2910.com/autoresize-capped"

unfoldable pub stamp : SubmittedJob → ℕ → ℕ → Bool → SubmittedJob
stamp job new_req recommended capped =
    let marked = insert autoresized (text "true") (
      insert autoresized_vram (number new_req)
        (insert original_vram (number job.template.requested_vram) job.annotations)) in
    record job {
      template = record (job.template) { requested_vram = new_req };
      annotations = if capped then insert autoresize_capped (number recommended) marked else marked;
    }

unfoldable pub resize_job : SubmittedJob → ProfileLookup → Mutation
unfolding stamp
resize_job job not_found = kept
resize_job job unavailable = kept
resize_job job (found recommended conf) =
    let r =
      resize_target job.template.requested_vram recommended fleet_max_bytes conf
        (has_override job) in
    if r.resized then patched (stamp job r.new_req recommended r.capped) else kept

unfoldable pub resize_creation : (String → String → ProfileLookup) → Option SubmittedJob → Mutation
unfolding resize_job
resize_creation get none = rejected
resize_creation get (some job) =
    if leb job.template.requested_vram 0 then kept else resize_job job (get job.namespace job.name)

unfoldable pub handle_resize :
    Mode → (String → String → ProfileLookup) → Request SubmittedJob → Mutation
unfolding resize_creation
handle_resize mode get req =
    if not (is_auto_resize mode)
    then kept
    else elim req.operation [ create ↦ resize_creation get req.object | _ ↦ kept ]

stamp_frame :
    (job : SubmittedJob) (new_req recommended : ℕ) (capped : Bool)
    → ((stamp job new_req recommended capped).name ≡ job.name)
      × ((stamp job new_req recommended capped).template
          ≡ record (job.template) { requested_vram = new_req })
unfolding stamp
stamp_frame job new_req recommended capped = (refl, refl)

stamp_annotations :
    (job : SubmittedJob) (new_req recommended : ℕ) (capped : Bool)
    → (lookup original_vram (stamp job new_req recommended capped).annotations
        ≡ some (number job.template.requested_vram))
      × (lookup autoresized_vram (stamp job new_req recommended capped).annotations
          ≡ some (number new_req))
      × (lookup autoresized (stamp job new_req recommended capped).annotations ≡ some (text "true"))
      × (capped ≡ true
          → lookup autoresize_capped (stamp job new_req recommended capped).annotations
            ≡ some (number recommended))
unfolding stamp str_eq
stamp_annotations job new_req recommended true = simp lookup-insert (refl, refl, refl, λ _. refl)
stamp_annotations job new_req recommended false =
    simp lookup-insert (refl, refl, refl, λ e. absurd (cc))

-- What a patch was made from.
resize_job-patched :
    (job new : SubmittedJob) (p : ProfileLookup)
    → resize_job job p ≡ patched new
    → (recommended : ℕ) × (conf : Confidence) × (p ≡ found recommended conf)
      × ((resize_target job.template.requested_vram recommended fleet_max_bytes conf
            (has_override job)).resized
          ≡ true)
      × (new
          ≡ stamp job
              (resize_target job.template.requested_vram recommended fleet_max_bytes conf
                (has_override job)).new_req
              recommended
              (resize_target job.template.requested_vram recommended fleet_max_bytes conf
                (has_override job)).capped)
unfolding resize_job
resize_job-patched job new not_found e = absurd (cc)
resize_job-patched job new unavailable e = absurd (cc)
resize_job-patched job new (found recommended conf) e =
    let r =
      resize_target job.template.requested_vram recommended fleet_max_bytes conf
        (has_override job) in
    elim (Bool-cases r.resized) [
      | inl raised ↦ (recommended, conf, refl, raised, ground (arith, raised, e))
      | inr same ↦ absurd (ground (arith, same, e))
    ]

-- A patched job asks for more than it did and for at most 80 GiB; it keeps its name, tier and job
-- reference, and its annotations record both numbers.
pub handle_resize_patched :
    (mode : Mode) (get : String → String → ProfileLookup) (job new : SubmittedJob)
    → handle_resize mode get (creation job) ≡ patched new
    → (mode ≡ auto_resize)
      × (job.template.requested_vram < new.template.requested_vram)
      × (new.template.requested_vram ≤ fleet_max_bytes)
      × (new.name ≡ job.name)
      × (new.template.service_tier ≡ job.template.service_tier)
      × (new.template.job_ref ≡ job.template.job_ref)
      × (lookup original_vram new.annotations ≡ some (number job.template.requested_vram))
      × (lookup autoresized_vram new.annotations ≡ some (number new.template.requested_vram))
unfolding handle_resize
handle_resize_patched mode get job new e =
    let (recommended, conf, _, raised, made) =
      resize_job-patched job new (get job.namespace job.name) (ground arith) in
    ground (
      arith,
      made,
      raised,
      resize_raises job.template.requested_vram recommended fleet_max_bytes conf (has_override job),
      stamp_frame job
          (resize_target job.template.requested_vram recommended fleet_max_bytes conf
            (has_override job)).new_req
          recommended
          (resize_target job.template.requested_vram recommended fleet_max_bytes conf
            (has_override job)).capped,
      stamp_annotations job
          (resize_target job.template.requested_vram recommended fleet_max_bytes conf
            (has_override job)).new_req
          recommended
          (resize_target job.template.requested_vram recommended fleet_max_bytes conf
            (has_override job)).capped,
    )
