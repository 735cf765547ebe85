-- ===== src/Scheduler/Score/Ranking.antt =====
-- internal/scheduler/score.go: what the ranking prefers.
use vgpu_scheduler.Prelude.{
  ℕ, ◌+◌, ◌≤◌, ◌<◌, ◌≡◌, ◌≢◌, ◌⊎◌, String, Bool, true, false, List, arith, str_eq_iff,
}
use vgpu_scheduler.Prelude.Int.{ℤ, pos, pos_part, neg_part, sub_ℕ, ◌<ℤ◌, ◌-ℤ◌, int_laws}
use vgpu_scheduler.Prelude.Sort.{Sorted, sort-Sorted, sort-perm}
use mathlib.Core.List.{Perm}
use vgpu_scheduler.Cache.{VramCache, NodeState}
use vgpu_scheduler.Scheduler.Score.{
  NodeScore, fragmentation_of, zone_bonus_of, total_of, score_node, score_all, ranks_before,
  score_with_topology,
}

-- The result ranks each scored candidate once, and none above one with a higher total.
pub score_with_topology-Sorted :
    (c : VramCache) (names : List String) (requested : ℕ) (best_effort : Bool) (zone : String)
    → Sorted ranks_before (score_with_topology c names requested best_effort zone)
      × Perm
          (score_with_topology c names requested best_effort zone)
          (score_all c names requested best_effort zone)
unfolding score_with_topology
score_with_topology-Sorted c names requested best_effort zone = (
  sort-Sorted ranks_before (λ x y h. ground arith) (λ x y z h k. ground arith) scored,
  sort-perm ranks_before scored,
)
  where
    scored : List NodeScore
    scored = score_all c names requested best_effort zone

frag_parts :
    (leftover : ℤ)
    → (pos_part (fragmentation_of leftover) ≡ 0)
      × (neg_part (fragmentation_of leftover) ≤ 5_000_000_000)
unfolding fragmentation_of
frag_parts leftover = ground arith

frag_none :
    (free requested : ℕ)
    → (free ≡ requested) ⊎ (requested + 4_000_000_000 ≤ free)
    → fragmentation_of (sub_ℕ free requested) ≡ pos 0
unfolding fragmentation_of
frag_none free requested h = ground arith

zone_parts :
    (preferred zone : String)
    → (preferred ≢ "" → zone ≡ preferred → zone_bonus_of preferred zone ≡ pos 1_000_000_000_000)
      × (zone ≢ preferred → zone_bonus_of preferred zone ≡ pos 0)
unfolding zone_bonus_of
zone_parts preferred zone = ground (arith, str_eq_iff preferred "", str_eq_iff zone preferred)

-- One total is below another if its parts add up to less.
total_lt :
    (a b x y u v : ℤ) (best_effort : Bool)
    → pos_part a + pos_part x + pos_part u + (neg_part b + neg_part y + neg_part v)
      < pos_part b + pos_part y + pos_part v + (neg_part a + neg_part x + neg_part u)
    → total_of a x u best_effort <ℤ total_of b y v best_effort
unfolding total_of
total_lt a b x y u v true h = omega int_laws
total_lt a b x y u v false h = omega int_laws

bin_parts :
    (free requested : ℕ)
    → pos_part (pos 80_000_000_000 -ℤ sub_ℕ free requested) + free
      ≡ neg_part (pos 80_000_000_000 -ℤ sub_ℕ free requested) + requested + 80_000_000_000
bin_parts free requested = omega int_laws

-- A node in the preferred zone outranks a node outside it if its free bytes stay below 995 GB; once
-- they exceed those of the other node by more than 1005 GB, it loses to it.
pub zone_preference :
    (s t : NodeState) (requested : ℕ) (best_effort : Bool) (zone : String)
    → zone ≢ ""
    → s.zone ≡ zone
    → t.zone ≢ zone
    → (s.free < 995_000_000_000
        → (score_node t requested best_effort zone).sum
          <ℤ (score_node s requested best_effort zone).sum)
      × (t.free + 1_005_000_000_000 < s.free
          → (score_node s requested best_effort zone).sum
            <ℤ (score_node t requested best_effort zone).sum)
unfolding score_node
zone_preference s t requested best_effort zone named inside outside =
    let in_bonus = (zone_parts zone s.zone).0 named inside in
    let out_bonus = (zone_parts zone t.zone).1 outside in
    let s_frag = frag_parts (sub_ℕ s.free requested) in
    let t_frag = frag_parts (sub_ℕ t.free requested) in
    rw (in_bonus, out_bonus)
      (
        λ h.
            total_lt _ _ _ _ _ _ best_effort
              (omega (arith, bin_parts s.free requested, bin_parts t.free requested)),
        λ h.
            total_lt _ _ _ _ _ _ best_effort
              (omega (arith, bin_parts s.free requested, bin_parts t.free requested)),
      )

-- Of two nodes in the same zone, the one with less free VRAM ranks higher if the request fills it
-- exactly or leaves 4 GB or more on it.
pub bin_packing :
    (s t : NodeState) (requested : ℕ) (best_effort : Bool) (zone : String)
    → s.zone ≡ t.zone
    → s.free < t.free
    → (s.free ≡ requested) ⊎ (requested + 4_000_000_000 ≤ s.free)
    → (score_node t requested best_effort zone).sum <ℤ (score_node s requested best_effort zone).sum
unfolding score_node
bin_packing s t requested best_effort zone same less h =
    let t_frag = frag_parts (sub_ℕ t.free requested) in
    rw (same, frag_none s.free requested h)
      (total_lt _ _ _ _ _ _ best_effort
        (omega (arith, bin_parts s.free requested, bin_parts t.free requested)))
