-- ===== src/Webhook/Claims.antt =====
-- internal/webhook/validating_vgpuclaim.go and the claim handler of webhook_handlers.go.
use vgpu_scheduler.Prelude.{
  ℕ, ◌≤◌, ◌<◌, ◌≡◌, ◌↔◌, ◌⊎◌, not, none, some, Result, ok, guard, ◌>>◌, ltb, leb, ◌==◌, arith,
  str_eq_iff,
}
use vgpu_scheduler.Api.{VgpuClaim}
use vgpu_scheduler.Webhook.{
  create, update, other, Request, Response, bad_request, allowed, deny_or, is_known_tier,
}

pub data ClaimError : Type 0 where
  vram_not_positive vram_above_max unsupported_tier vram_immutable : ClaimError

abbrev pub max_vram_bytes : ℕ
max_vram_bytes = 85_899_345_920

unfoldable pub validate_vgpu_claim : VgpuClaim → Result ClaimError (Unit {0})
unfolding is_known_tier
validate_vgpu_claim claim = do
  guard (not (leb claim.requested_vram 0)) vram_not_positive
  guard (not (ltb max_vram_bytes claim.requested_vram)) vram_above_max
  guard (is_known_tier claim.service_tier) unsupported_tier

unfoldable pub validate_claim_update : VgpuClaim → VgpuClaim → Result ClaimError (Unit {0})
validate_claim_update old new = guard (old.requested_vram == new.requested_vram) vram_immutable

unfoldable pub handle_claim : Request VgpuClaim → Response ClaimError
unfolding validate_vgpu_claim validate_claim_update
handle_claim req = elim req.object [
  | none ↦ bad_request
  | some claim ↦ elim req.operation [
    | create ↦ deny_or (validate_vgpu_claim claim) (allowed "")
    | update ↦ elim req.old_object [
      | none ↦ bad_request
      | some old ↦
          deny_or (validate_vgpu_claim claim)
            (deny_or (validate_claim_update old claim) (allowed ""))
    ]
    | other _ ↦ bad_request
  ]
]

abbrev pub IsSound : VgpuClaim → Type 0
IsSound claim =
    (0 < claim.requested_vram)
    × (claim.requested_vram ≤ max_vram_bytes)
    × ((claim.service_tier ≡ "")
        ⊎ (claim.service_tier ≡ "Guaranteed")
        ⊎ (claim.service_tier ≡ "BestEffort"))

-- A claim passes the validation exactly when it asks for at least one byte and at most 80 GiB, and
-- names no tier or one of the two that exist.
pub validate_claim_iff : (claim : VgpuClaim) → (validate_vgpu_claim claim ≡ ok tt) ↔ IsSound claim
unfolding validate_vgpu_claim
validate_claim_iff claim = ground (
  arith,
  str_eq_iff claim.service_tier "",
  str_eq_iff claim.service_tier "Guaranteed",
  str_eq_iff claim.service_tier "BestEffort",
)

-- The handler admits a creation exactly for a sound claim, and an update exactly for a sound claim
-- that asks for as many bytes as before.
pub handle_claim_iff :
    (old claim : VgpuClaim)
    → ((handle_claim (record { operation = create; object = some claim; old_object = none })
          ≡ allowed "")
        ↔ IsSound claim)
      × ((handle_claim (record { operation = update; object = some claim; old_object = some old })
            ≡ allowed "")
          ↔ IsSound claim × (old.requested_vram ≡ claim.requested_vram))
unfolding handle_claim validate_vgpu_claim validate_claim_update
handle_claim_iff old claim = ground (
  arith,
  str_eq_iff claim.service_tier "",
  str_eq_iff claim.service_tier "Guaranteed",
  str_eq_iff claim.service_tier "BestEffort",
)
