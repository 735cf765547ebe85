-- ===== src/Scheduler/Score.antt =====
-- internal/scheduler/score.go: the ranking of the nodes that fit. Scores may be negative; with byte
-- counts below 2^62 no int64 sum here wraps.
pub mod Ranking
use vgpu_scheduler.Prelude.{
  ℕ, ◌/◌, ◌≡◌, String, Bool, true, false, ◌&&◌, not, Option, none, some, List, [], ◌∷◌, ltb, str_eq,
  if◌then◌else◌,
}
use vgpu_scheduler.Prelude.Dict.{lookup}
use vgpu_scheduler.Prelude.Int.{ℤ, pos, negsuc, ◌+ℤ◌, ◌-ℤ◌, sub_ℕ, ltb_ℤ}
use vgpu_scheduler.Prelude.Sort.{sort}
use vgpu_scheduler.Cache.{VramCache, NodeState}

abbrev pub score_weight_vram_bytes : ℕ
score_weight_vram_bytes = 80_000_000_000

abbrev pub fragment_threshold_bytes : ℕ
fragment_threshold_bytes = 4_000_000_000

abbrev pub fragment_penalty_bytes : ℕ
fragment_penalty_bytes = 5_000_000_000

abbrev pub topology_zone_match_bonus : ℕ
topology_zone_match_bonus = 1_000_000_000_000

abbrev pub best_effort_penalty : ℕ
best_effort_penalty = 1_000_000_000

pub record ScoreBreakdown : Type 0 where
  pub bin_pack : ℤ
  pub fragmentation : ℤ
  pub zone_score : ℤ
  pub sum : ℤ

pub record NodeScore : Type 0 where
  pub node_name : String
  pub score : ScoreBreakdown

-- A leftover that is positive and below the threshold is an unusable sliver.
unfoldable pub fragmentation_of : ℤ → ℤ
unfolding ◌-ℤ◌
fragmentation_of leftover =
    if ltb_ℤ (pos 0) leftover && ltb_ℤ leftover (pos fragment_threshold_bytes)
    then pos 0 -ℤ pos fragment_penalty_bytes
    else pos 0

-- The bonus of a node in the zone that the workload prefers, if it prefers one.
unfoldable pub zone_bonus_of : String → String → ℤ
zone_bonus_of preferred_zone node_zone =
    if not (str_eq preferred_zone "") && str_eq node_zone preferred_zone
    then pos topology_zone_match_bonus
    else pos 0

unfoldable pub total_of : ℤ → ℤ → ℤ → Bool → ℤ
total_of bin_pack frag zone best_effort =
    let plain = bin_pack +ℤ frag +ℤ zone in
    if best_effort then plain -ℤ pos best_effort_penalty else plain

-- The body of the loop: the score of one node against a request.
unfoldable pub score_node : NodeState → ℕ → Bool → String → ScoreBreakdown
unfolding fragmentation_of zone_bonus_of
score_node s requested best_effort preferred_zone =
    let leftover = sub_ℕ s.free requested in
    let bin_pack = pos score_weight_vram_bytes -ℤ leftover in
    let frag = fragmentation_of leftover in
    let zone = zone_bonus_of preferred_zone s.zone in
    record {
      bin_pack = bin_pack;
      fragmentation = frag;
      zone_score = zone;
      sum = total_of bin_pack frag zone best_effort;
    }

-- The loop over the candidates; a name that the cache does not know is skipped.
unfoldable pub score_all : VramCache → List String → ℕ → Bool → String → List NodeScore
unfolding score_node
score_all c [] requested best_effort zone = []
score_all c (n ∷ ns) requested best_effort zone =
    let rest = score_all c ns requested best_effort zone in
    elim (lookup n c.nodes) [
      | none ↦ rest
      | some s ↦ record { node_name = n; score = score_node s requested best_effort zone } ∷ rest
    ]

-- `sort.Slice` by falling total.
abbrev pub ranks_before : NodeScore → NodeScore → Bool
ranks_before a b = ltb_ℤ b.score.sum a.score.sum

unfoldable pub score_with_topology : VramCache → List String → ℕ → Bool → String → List NodeScore
unfolding score_all
score_with_topology c names requested best_effort zone =
    sort ranks_before (score_all c names requested best_effort zone)

unfoldable pub score_with_tier : VramCache → List String → ℕ → Bool → List NodeScore
unfolding score_with_topology
score_with_tier c names requested best_effort = score_with_topology c names requested best_effort ""

unfoldable pub score : VramCache → List String → ℕ → List NodeScore
unfolding score_with_tier
score c names requested = score_with_tier c names requested false

-- A job's priority, clamped to [0, 1000] and scaled to [0, 100].
unfoldable pub priority_bonus : ℤ → ℤ
priority_bonus (negsuc _) = pos 0
priority_bonus (pos p) = pos ((if ltb 1000 p then 1000 else p) / 10)

unfoldable pub workload_affinity_bonus : String → ℤ
unfolding ◌-ℤ◌
workload_affinity_bonus class =
    if str_eq class "Training"
    then pos 10
    else if str_eq class "Inference"
    then pos 5
    else if str_eq class "Batch"
    then pos 0 -ℤ pos 5
    else pos 0
