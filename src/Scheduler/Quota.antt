-- ===== src/Scheduler/Quota.antt =====
-- internal/scheduler/quota.go: the admission check against a namespace's quota. The API client's lists
-- are arguments, `none` for an error; a nil cache is `none`. Sums of bytes stay below 2^63.
pub mod Verdicts
use vgpu_scheduler.Prelude.{
  ℕ, ◌+◌, ◌≡◌, String, Bool, true, false, ◌&&◌, not, Option, none, some, List, [], ◌∷◌, ltb, str_eq,
  if◌then◌else◌,
}
use vgpu_scheduler.Prelude.Dict.{Dict, insert}
use vgpu_scheduler.Api.{VgpuSlice, SlicePhase, released, failed, phase_eq}
use vgpu_scheduler.Cache.{VramCache, pending_namespace_bytes}

pub record VgpuQuota : Type 0 where
  pub target_namespace : String
  pub max_vram_bytes : ℕ

pub data Verdict : Type 0 where
  allowed : Verdict
  quota_exceeded : (used pending demand max : ℕ) → Verdict

-- The first quota that targets the namespace.
unfoldable pub find_quota : String → List VgpuQuota → Option VgpuQuota
find_quota ns [] = none
find_quota ns (q ∷ qs) = if str_eq q.target_namespace ns then some q else find_quota ns qs

-- The real allocation once there is one, else the request.
unfoldable pub slice_held_bytes : VgpuSlice → ℕ
slice_held_bytes s = if ltb 0 s.allocated_bytes then s.allocated_bytes else s.requested_vram

pub record Usage : Type 0 where
  pub total : ℕ
  pub counted : Dict (Unit {0})

abbrev is_terminal : SlicePhase → Bool
is_terminal p = elim (phase_eq p released) [ true ↦ true | false ↦ phase_eq p failed ]

abbrev count_uid : String → Usage → Usage
count_uid uid u = record u { counted = insert uid tt u.counted }

-- One round of the loop over the namespace's slices.
unfoldable pub count_slice : String → VgpuSlice → Usage → Usage
unfolding slice_held_bytes
count_slice exclude_gang s u =
    if not (str_eq exclude_gang "") && str_eq s.gang_ref exclude_gang
    then count_uid s.uid u
    else if str_eq s.node_name ""
    then u
    else if is_terminal s.phase
    then count_uid s.uid u
    else record (count_uid s.uid u) { total = u.total + slice_held_bytes s }

-- The loop, over the slices that `client.InNamespace` selects.
unfoldable pub namespace_usage_from : String → String → List VgpuSlice → Usage → Usage
unfolding count_slice
namespace_usage_from ns exclude_gang [] u = u
namespace_usage_from ns exclude_gang (s ∷ ss) u =
    namespace_usage_from ns exclude_gang ss
      (if str_eq s.namespace ns then count_slice exclude_gang s u else u)

unfoldable pub namespace_usage : String → String → List VgpuSlice → Usage
unfolding namespace_usage_from
namespace_usage ns exclude_gang slices =
    namespace_usage_from ns exclude_gang slices (record { total = 0; counted = [] })

-- What is weighed against the quota, and the gang whose slices are left out of the usage.
abbrev is_gang_demand : String → ℕ → Bool
is_gang_demand gang_ref gang_total = not (str_eq gang_ref "") && ltb 0 gang_total

unfoldable pub demand_of : ℕ → String → ℕ → ℕ
demand_of requested gang_ref gang_total =
    if is_gang_demand gang_ref gang_total then gang_total else requested

unfoldable pub excluded_gang : String → ℕ → String
excluded_gang gang_ref gang_total = if is_gang_demand gang_ref gang_total then gang_ref else ""

abbrev pub pending_of : Option VramCache → String → Dict (Unit {0}) → ℕ
pending_of none ns counted = 0
pending_of (some c) ns counted = pending_namespace_bytes c ns counted

unfoldable pub weigh_quota : Option VramCache → String → ℕ → Usage → ℕ → Verdict
weigh_quota cache ns demand usage max =
    let pending = pending_of cache ns usage.counted in
    if ltb max (usage.total + pending + demand)
    then quota_exceeded usage.total pending demand max
    else allowed

unfoldable pub check :
    Option (List VgpuQuota)
    → Option (List VgpuSlice)
    → Option VramCache
    → String
    → ℕ
    → String
    → ℕ
    → Verdict
check none slices cache ns requested gang_ref gang_total = allowed
check (some quotas) slices cache ns requested gang_ref gang_total = elim (find_quota ns quotas) [
  | none ↦ allowed
  | some match ↦ elim slices [
    | none ↦ allowed
    | some ss ↦
        weigh_quota cache ns (demand_of requested gang_ref gang_total)
          (namespace_usage ns (excluded_gang gang_ref gang_total) ss) match.max_vram_bytes
  ]
]
