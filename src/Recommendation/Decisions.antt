-- ===== src/Recommendation/Decisions.antt =====
-- internal/recommendation/policy.go: what the decisions promise.
use vgpu_scheduler.Prelude.{ℕ, ◌+◌, ◌*◌, ◌≤◌, ◌<◌, ◌≡◌, ◌↔◌, Bool, true, false, ◌⊎◌, arith}
use vgpu_scheduler.Recommendation.{
  Mode, Confidence, low, unset, medium, high, require_override, confident_enough, undersized,
  blocks, resize_target, recommended_vram_bytes, grade,
}

-- A request is undersized exactly when it is positive and less than nine tenths of the
-- recommendation; the rounded division does not matter.
pub undersized_iff :
    (requested recommended : ℕ)
    → (undersized requested recommended ≡ true)
      ↔ (0 < requested) × (10 * requested < 9 * recommended)
unfolding undersized
undersized_iff requested recommended = ground arith

-- A resize never lowers a request. When it changes the request it raises it, to the
-- recommendation or to the fleet's maximum if that is lower, only for a confident profile and an
-- undersized request with no override, and it reports a cap exactly when the maximum was lower.
pub resize_raises :
    (requested recommended fleet_max : ℕ) (conf : Confidence) (has_override : Bool)
    → let r = resize_target requested recommended fleet_max conf has_override in
      (requested ≤ r.new_req)
      × ((r.resized ≡ false) → (r.new_req ≡ requested) × (r.capped ≡ false))
      × ((r.resized ≡ true)
          → (requested < r.new_req)
            × (r.new_req ≤ recommended)
            × (0 < fleet_max → r.new_req ≤ fleet_max)
            × (r.capped ≡ true → (r.new_req ≡ fleet_max) × (fleet_max < recommended))
            × (r.capped ≡ false → r.new_req ≡ recommended)
            × (undersized requested recommended ≡ true)
            × (confident_enough conf ≡ true)
            × (has_override ≡ false))
unfolding resize_target
resize_raises requested recommended fleet_max conf has_override = ground arith

-- A resized request is not resized again, and is no longer undersized unless it was capped.
pub resize_settles :
    (requested recommended fleet_max : ℕ) (conf : Confidence) (has_override : Bool)
    → let r = resize_target requested recommended fleet_max conf has_override in
      (r.resized ≡ true)
      → ((resize_target r.new_req recommended fleet_max conf has_override).resized ≡ false)
        × (r.capped ≡ false → undersized r.new_req recommended ≡ false)
unfolding resize_target undersized
resize_settles requested recommended fleet_max conf has_override h = ground arith

-- A request is blocked exactly in requireOverride mode, for a profile of medium or high confidence,
-- an undersized request and no override; so a profile that is not confident never blocks.
pub blocks_iff :
    (mode : Mode) (requested recommended : ℕ) (conf : Confidence) (has_override : Bool)
    → (blocks mode requested recommended conf has_override ≡ true)
      ↔ (mode ≡ require_override)
        × ((conf ≡ medium) ⊎ (conf ≡ high))
        × (undersized requested recommended ≡ true)
        × (has_override ≡ false)
unfolding blocks
blocks_iff mode requested recommended conf has_override = ground arith

-- The recommendation for an observed peak covers the peak with 15% of headroom, to within a byte,
-- and a job that is granted it is not undersized against it.
pub recommended_covers_peak :
    (peak : ℕ)
    → (peak ≤ recommended_vram_bytes peak)
      × (115 * peak < 100 * recommended_vram_bytes peak + 100)
      × (100 * recommended_vram_bytes peak ≤ 115 * peak)
      × (undersized (recommended_vram_bytes peak) (recommended_vram_bytes peak) ≡ false)
unfolding recommended_vram_bytes undersized
recommended_covers_peak peak = ground arith

abbrev pub rank : Confidence → ℕ
rank unset = 0
rank low = 1
rank medium = 2
rank high = 3

-- More observations never lower a grade; a grade that may block needs at least 20 of them, and High
-- needs 100 and a stable peak.
pub grade_monotone :
    (few many : ℕ) (stable : Bool)
    → few ≤ many
    → (rank (grade few stable) ≤ rank (grade many stable))
      × ((confident_enough (grade few stable) ≡ true) ↔ (20 ≤ few))
      × ((grade few stable ≡ high) ↔ (100 ≤ few) × (stable ≡ true))
unfolding grade confident_enough
grade_monotone few many stable h = ground arith
