-- ===== src/Scheduler/Quota/Verdicts.antt =====
-- internal/scheduler/quota.go: what the check guarantees.
use vgpu_scheduler.Prelude.{
  ℕ, ◌<◌, ◌≡◌, ◌≢◌, refl, String, Option, none, some, List, ◌∷◌, str_eq_iff, arith,
}
use vgpu_scheduler.Prelude.Dict.{Dict, insert, lookup-insert_self}
use vgpu_scheduler.Api.{VgpuSlice}
use vgpu_scheduler.Cache.{VramCache, AssumedAllocation, pending_sum}
use vgpu_scheduler.Scheduler.Quota.{VgpuQuota, demand_of, check}

demand_of-gang :
    (r : ℕ) (gang : String) (gang_total : ℕ)
    → gang ≢ ""
    → 0 < gang_total
    → demand_of r gang gang_total ≡ gang_total
unfolding demand_of
demand_of-gang r gang gang_total named pos = ground (arith, str_eq_iff gang "")

-- A gang member is judged by its gang: two members with the same gang and total get the same
-- verdict, whatever each of them requests.
pub check_gang_atomic :
    (quotas : Option (List VgpuQuota)) (slices : Option (List VgpuSlice)) (cache : Option VramCache)
    (ns gang : String) (gang_total requested requested' : ℕ)
    → gang ≢ ""
    → 0 < gang_total
    → check quotas slices cache ns requested gang gang_total
      ≡ check quotas slices cache ns requested' gang gang_total
unfolding check
check_gang_atomic none slices cache ns gang gang_total requested requested' named pos = refl
check_gang_atomic (some quotas) slices cache ns gang gang_total requested requested' named pos =
    ground (
      arith,
      demand_of-gang requested gang gang_total named pos,
      demand_of-gang requested' gang gang_total named pos,
    )

-- The bytes of a hold whose slice was counted from the API are not counted again as in flight.
pub pending_counted :
    (ns uid : String) (counted : Dict (Unit {0})) (a : AssumedAllocation)
    (rest : Dict AssumedAllocation)
    → pending_sum ns (insert uid tt counted) ((uid, a) ∷ rest)
      ≡ pending_sum ns (insert uid tt counted) rest
unfolding pending_sum
pending_counted ns uid counted a rest = ground (arith, lookup-insert_self uid tt counted)
