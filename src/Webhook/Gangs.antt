-- ===== src/Webhook/Gangs.antt =====
-- internal/webhook/validating_gangjob.go and gangjob_validator_handler.go.
use vgpu_scheduler.Prelude.{
  ℕ, ◌≤◌, ◌<◌, ◌≡◌, ◌↔◌, ◌⊎◌, refl, String, not, ◌||◌, Option, none, some, Result, ok, guard, ◌>>◌,
  ltb, leb, ◌==◌, arith, str_eq_iff,
}
use vgpu_scheduler.Webhook.{
  create, update, other, Request, Response, bad_request, allowed, deny_or, is_known_tier,
}
use vgpu_scheduler.Webhook.Claims.{max_vram_bytes}

-- The fields of a VGPUGangJob's spec that the validator reads; sizes and timeouts are non-negative.
pub record GangJob : Type 0 where
  pub gang_size : ℕ
  pub min_available : ℕ
  pub reservation_timeout : Option ℕ
  pub requested_vram : ℕ
  pub service_tier : String

pub data GangError : Type 0 where
  gang_size_out_of_range not_strict timeout_out_of_range gang_vram_not_positive : GangError
  gang_vram_above_max gang_tier_unsupported : GangError
  gang_size_immutable min_available_immutable gang_vram_immutable : GangError

-- A timeout that is set must lie in [10, 600].
abbrev check_timeout : Option ℕ → Result GangError (Unit {0})
check_timeout none = ok tt
check_timeout (some t) = guard (not (ltb t 10 || ltb 600 t)) timeout_out_of_range

unfoldable pub validate_vgpu_gang_job : GangJob → Result GangError (Unit {0})
unfolding is_known_tier
validate_vgpu_gang_job g = do
  guard (not (ltb g.gang_size 2 || ltb 256 g.gang_size)) gang_size_out_of_range
  guard (g.min_available == g.gang_size) not_strict
  check_timeout g.reservation_timeout
  guard (not (leb g.requested_vram 0)) gang_vram_not_positive
  guard (not (ltb max_vram_bytes g.requested_vram)) gang_vram_above_max
  guard (is_known_tier g.service_tier) gang_tier_unsupported

unfoldable pub validate_gang_job_update : GangJob → GangJob → Result GangError (Unit {0})
validate_gang_job_update old new = do
  guard (old.gang_size == new.gang_size) gang_size_immutable
  guard (old.min_available == new.min_available) min_available_immutable
  guard (old.requested_vram == new.requested_vram) gang_vram_immutable

unfoldable pub handle_gang_job : Request GangJob → Response GangError
unfolding validate_vgpu_gang_job validate_gang_job_update
handle_gang_job req = elim req.object [
  | none ↦ bad_request
  | some gang ↦ elim req.operation [
    | create ↦ deny_or (validate_vgpu_gang_job gang) (allowed "")
    | update ↦ elim req.old_object [
      | none ↦ bad_request
      | some old ↦
          deny_or (validate_vgpu_gang_job gang)
            (deny_or (validate_gang_job_update old gang) (allowed ""))
    ]
    | other _ ↦ bad_request
  ]
]

pub record IsStrict (g : GangJob) : Type 0 where
  pub size : (2 ≤ g.gang_size) × (g.gang_size ≤ 256)
  pub strict : g.min_available ≡ g.gang_size
  pub timeout : (t : ℕ) → g.reservation_timeout ≡ some t → (10 ≤ t) × (t ≤ 600)
  pub vram : (0 < g.requested_vram) × (g.requested_vram ≤ max_vram_bytes)
  pub tier :
      (g.service_tier ≡ "") ⊎ (g.service_tier ≡ "Guaranteed") ⊎ (g.service_tier ≡ "BestEffort")

timeout_iff :
    (o : Option ℕ) → (check_timeout o ≡ ok tt) ↔ ((t : ℕ) → o ≡ some t → (10 ≤ t) × (t ≤ 600))
timeout_iff none = (λ _ t e. absurd (cc), λ _. refl)
timeout_iff (some s) =
    (λ h t e. let s≡t : s ≡ t = cc in ground arith, λ h. let bounds = h s refl in ground arith)

-- A gang job passes the validation exactly when it has 2 to 256 members, needs all of them, waits
-- 10 to 600 seconds if it sets a timeout, and each member asks for a positive number of bytes up to
-- 80 GiB in a tier that exists or in none.
pub validate_gang_iff : (g : GangJob) → (validate_vgpu_gang_job g ≡ ok tt) ↔ IsStrict g
unfolding validate_vgpu_gang_job
validate_gang_iff g = (
  λ e. record {
    size = ground arith;
    strict = ground arith;
    timeout = (timeout_iff g.reservation_timeout).0 (ground arith);
    vram = ground arith;
    tier = ground (
      arith,
      str_eq_iff g.service_tier "",
      str_eq_iff g.service_tier "Guaranteed",
      str_eq_iff g.service_tier "BestEffort",
    );
  },
  λ s. ground (
    arith,
    (timeout_iff g.reservation_timeout).1 s.timeout,
    str_eq_iff g.service_tier "",
    str_eq_iff g.service_tier "Guaranteed",
    str_eq_iff g.service_tier "BestEffort",
  ),
)

-- An update is admitted exactly when the new gang job passes and its size, its quorum and its
-- members' request are the old ones; so the total demand of an admitted gang never changes.
handle_gang_update_iff :
    (old g : GangJob)
    → (handle_gang_job (record { operation = update; object = some g; old_object = some old })
        ≡ allowed "")
      ↔ (validate_vgpu_gang_job g ≡ ok tt)
        × (old.gang_size ≡ g.gang_size)
        × (old.min_available ≡ g.min_available)
        × (old.requested_vram ≡ g.requested_vram)
unfolding handle_gang_job validate_gang_job_update
handle_gang_update_iff old g = ground arith
