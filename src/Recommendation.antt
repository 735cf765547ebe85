-- ===== src/Recommendation.antt =====
-- internal/recommendation/policy.go, with the two formulas of
-- api/v1alpha1/vgpuworkloadprofile_types.go: when a learned recommendation advises, blocks or resizes a
-- request. Byte counts are non-negative, and the product with the tolerance stays below 2^63.
pub mod Decisions
use vgpu_scheduler.Prelude.{
  ℕ, ◌+◌, ◌-◌, ◌*◌, ◌/◌, String, Bool, true, false, ◌&&◌, ◌||◌, not, Option, none, some, ltb, leb,
  str_eq, if◌then◌else◌,
}

pub data Mode : Type 0 where
  recommend_only warn require_override auto_resize : Mode

-- `ProfileConfidence`; `unset` is the empty value of a profile that was never computed.
pub data Confidence : Type 0 where
  unset low medium high : Confidence

abbrev pub tolerance_percent : ℕ
tolerance_percent = 10

abbrev pub fleet_max_bytes : ℕ
fleet_max_bytes = 85_899_345_920

-- An unknown value falls back to the least intrusive mode.
unfoldable pub parse_mode : String → Mode
parse_mode s =
    if str_eq s "recommendOnly"
    then recommend_only
    else if str_eq s "warn"
    then warn
    else if str_eq s "requireOverride"
    then require_override
    else if str_eq s "autoResize"
    then auto_resize
    else recommend_only

unfoldable pub confident_enough : Confidence → Bool
confident_enough medium = true
confident_enough high = true
confident_enough _ = false

unfoldable pub undersized : ℕ → ℕ → Bool
undersized requested recommended =
    if leb requested 0 || leb recommended 0
    then false
    else ltb requested (recommended - recommended * tolerance_percent / 100)

abbrev pub is_warn : Mode → Bool
is_warn warn = true
is_warn _ = false

abbrev pub is_require_override : Mode → Bool
is_require_override require_override = true
is_require_override _ = false

abbrev pub is_auto_resize : Mode → Bool
is_auto_resize auto_resize = true
is_auto_resize _ = false

unfoldable pub emits_event : Mode → Bool
emits_event m = is_warn m || is_require_override m

unfoldable pub blocks : Mode → ℕ → ℕ → Confidence → Bool → Bool
unfolding confident_enough undersized
blocks mode requested recommended conf has_override =
    is_require_override mode
    && confident_enough conf
    && undersized requested recommended
    && not has_override

pub record Resize : Type 0 where
  pub new_req : ℕ
  pub resized : Bool
  pub capped : Bool

abbrev unchanged : ℕ → Resize
unchanged requested = record { new_req = requested; resized = false; capped = false }

unfoldable pub resize_target : ℕ → ℕ → ℕ → Confidence → Bool → Resize
unfolding confident_enough undersized
resize_target requested recommended fleet_max conf has_override =
    if has_override || not (confident_enough conf) || not (undersized requested recommended)
    then unchanged requested
    else let capped = ltb 0 fleet_max && ltb fleet_max recommended in
      let target = if capped then fleet_max else recommended in
      if leb target requested
      then unchanged requested
      else record { new_req = target; resized = true; capped = capped }

-- `RecommendedVRAMBytes`: the peak with 15% of headroom.
unfoldable pub recommended_vram_bytes : ℕ → ℕ
recommended_vram_bytes peak = if leb peak 0 then 0 else peak + peak * 15 / 100

-- `Confidence`: a grade from the number of observations and the stability of the peak.
unfoldable pub grade : ℕ → Bool → Confidence
grade observations peak_stable =
    if ltb observations 20
    then low
    else if ltb observations 100
    then medium
    else if not peak_stable
    then medium
    else high
