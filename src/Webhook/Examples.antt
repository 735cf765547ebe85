-- ===== src/Webhook/Examples.antt =====
-- internal/webhook: the results at concrete requests.
use vgpu_scheduler.Api.{VgpuClaim}
use vgpu_scheduler.Prelude.{String, [], some, ℕ, ◌∷◌}
use vgpu_scheduler.Prelude.Dict.{Dict}
use vgpu_scheduler.Recommendation.{high}
use vgpu_scheduler.Webhook.Gangs.{GangJob}
use vgpu_scheduler.Webhook.Jobs.{Annotation, ProfileLookup, SubmittedJob, found, number, text}
use vgpu_scheduler.Webhook.Resizer.{autoresized, autoresized_vram, original_vram}

abbrev claim_of : ℕ → VgpuClaim
claim_of vram = record {
  name = "worker-claim";
  namespace = "team";
  job_ref = "train";
  requested_vram = vram;
  service_tier = "";
}

abbrev gang_of : ℕ → GangJob
gang_of size = record {
  gang_size = size;
  min_available = size;
  reservation_timeout = some 60;
  requested_vram = 10;
  service_tier = "Guaranteed";
}

abbrev job_asking : ℕ → Dict Annotation → SubmittedJob
job_asking vram annotations = record {
  name = "train";
  namespace = "team";
  template = record { requested_vram = vram; service_tier = ""; job_ref = "" };
  annotations = annotations;
}

abbrev profile : String → String → ProfileLookup
profile namespace name = found 100 high

abbrev resized : SubmittedJob
resized =
    job_asking 100 (
      (original_vram, number 50) ∷ (autoresized_vram, number 100) ∷ (autoresized, text "true") ∷ [])
