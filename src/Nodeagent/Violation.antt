-- ===== src/Nodeagent/Violation.antt =====
-- internal/nodeagent/violation.go: the detector of over-use of a whole GPU.
pub mod Streaks
use vgpu_scheduler.Prelude.{
  ℕ, ◌+◌, ◌-◌, ◌*◌, String, Bool, true, false, ◌&&◌, ◌||◌, not, Option, none, some, List, [], ◌∷◌,
  ltb, leb, str_eq, if◌then◌else◌, Result, ok, err,
}
use vgpu_scheduler.Prelude.Dict.{Dict, lookup, insert}
use vgpu_scheduler.Api.{
  VgpuSlice, SlicePhase, initial, pending, scheduled, allocating, ready, releasing, released,
  failed, preempting,
}

-- 256 MiB.
abbrev pub overuse_tolerance_bytes : ℕ
overuse_tolerance_bytes = 268435456

abbrev pub overuse_streak_threshold : ℕ
overuse_streak_threshold = 3

-- A map read of a missing count and of a missing flag.
abbrev pub count_or_zero : Option ℕ → ℕ
count_or_zero none = 0
count_or_zero (some n) = n

abbrev pub flag_or_false : Option Bool → Bool
flag_or_false none = false
flag_or_false (some b) = b

-- The hysteresis state, by the GPU's UUID.
pub record ViolationDetector : Type 0 where
  pub node_name : String
  pub interval : ℕ
  pub streak : Dict ℕ
  pub active : Dict Bool

pub record Verdict : Type 0 where
  pub onset : Bool
  pub overuse : ℕ
  pub violating : Bool

-- More than the tolerance above the grant.
abbrev pub is_over : ℕ → ℕ → Bool
is_over used granted = ltb (granted + overuse_tolerance_bytes) used

unfoldable pub evaluate : String → ℕ → ℕ → ViolationDetector → Verdict × ViolationDetector
evaluate uuid used granted d =
    let streak = if is_over used granted then count_or_zero (lookup uuid d.streak) + 1 else 0 in
    let violating = leb overuse_streak_threshold streak in
    let was = flag_or_false (lookup uuid d.active) in
    (
      record { onset = violating && not was; overuse = used - granted; violating = violating },
      record d { streak = insert uuid streak d.streak; active = insert uuid violating d.active },
    )

-- The phases that hold no capacity are passed over.
abbrev pub holds_capacity : SlicePhase → Bool
holds_capacity initial = false
holds_capacity pending = false
holds_capacity released = false
holds_capacity failed = false
holds_capacity _ = true

abbrev pub holds_card : String → VgpuSlice → Bool
holds_card node s =
    str_eq s.node_name node && holds_capacity s.phase && not (str_eq s.device_uuid "")

unfoldable pub grant_from : String → List VgpuSlice → Dict ℕ → Dict ℕ
grant_from node [] by_card = by_card
grant_from node (s ∷ ss) by_card = grant_from node ss (
    if holds_card node s
    then insert s.device_uuid (count_or_zero (lookup s.device_uuid by_card) + s.requested_vram)
        by_card
    else by_card)

unfoldable pub granted_bytes_by_card : String → List VgpuSlice → Dict ℕ
unfolding grant_from
granted_bytes_by_card node slices = grant_from node slices []

pub record Device : Type 0 where
  pub uuid : String
  pub used_memory : ℕ
  pub healthy : Bool

-- One cycle over the healthy devices, in order; the events are the GPUs with an onset.
unfoldable pub watch_devices :
    List Device → Dict ℕ → ViolationDetector → List String × ViolationDetector
unfolding evaluate
watch_devices [] granted d = ([], d)
watch_devices (g ∷ gs) granted d =
    let (v, d') = evaluate g.uuid g.used_memory (count_or_zero (lookup g.uuid granted)) d in
    let (events, e) = watch_devices gs granted (if g.healthy then d' else d) in
    (if g.healthy && v.onset then g.uuid ∷ events else events, e)

-- A snapshot: its devices, its age in seconds, and whether it has an error.
pub record Snapshot : Type 0 where
  pub devices : List Device
  pub age : ℕ
  pub is_error : Bool

abbrev is_empty : List Device → Bool
is_empty [] = true
is_empty _ = false

unfoldable pub is_stale : Snapshot → ℕ → Bool
is_stale s interval = s.is_error || is_empty s.devices || ltb (3 * interval) s.age

-- A stale snapshot and a failed list leave the detector as it is.
unfoldable pub detect_once :
    Snapshot
    → Option (List VgpuSlice)
    → ViolationDetector
    → Result (Unit {0}) (List String) × ViolationDetector
unfolding is_stale granted_bytes_by_card watch_devices
detect_once snapshot none d = if is_stale snapshot d.interval then (ok [], d) else (err tt, d)
detect_once snapshot (some slices) d =
    if is_stale snapshot d.interval
    then (ok [], d)
    else (let (events, e) =
          watch_devices snapshot.devices (granted_bytes_by_card d.node_name slices) d in
        (ok events, e))
