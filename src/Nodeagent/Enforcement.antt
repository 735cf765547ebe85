-- ===== src/Nodeagent/Enforcement.antt =====
-- internal/nodeagent/enforcement.go: the enforcement of the grants, from the warning to the eviction,
-- and the detection cycle of slice_violation.go that drives it. The writes to the API are the actions
-- of the result. Times are in seconds.
pub mod Justified
pub mod Window
pub mod Limits
pub mod RateLimit
use vgpu_scheduler.Prelude.{
  ℕ, ◌+◌, ◌-◌, String, Bool, true, false, ◌&&◌, ◌||◌, not, Option, none, some, List, [], ◌∷◌, ◌++◌,
  length, keep, ltb, leb, str_eq, if◌then◌else◌, Result, ok, err,
}
use vgpu_scheduler.Prelude.Dict.{Dict, lookup, insert, delete, has}
use vgpu_scheduler.Api.{Read, found, not_found, unreadable}
use vgpu_scheduler.Nodeagent.Violation.{flag_or_false}
use vgpu_scheduler.Nodeagent.SliceViolation.{
  PodName, slice_key, pod_key, SliceUsage, EnforcementMode, off, soft_warn, evict,
  SliceViolationDetector, SliceVerdict, evaluate, AttributionReads, attribute,
}

abbrev pub enforcement_grace_period : ℕ
enforcement_grace_period = 60

abbrev pub eviction_grace_period : ℕ
eviction_grace_period = 120

abbrev pub max_evictions_per_window : ℕ
max_evictions_per_window = 3

abbrev pub eviction_window : ℕ
eviction_window = 300

-- The answer to an eviction: it was made, the pod is gone, a disruption budget forbids it, or another
-- error.
pub data EvictAnswer : Type 0 where
  done gone forbidden failed : EvictAnswer

-- The API: whether a namespace carries the label of exemption, and the answer to each eviction.
pub record EvictionApi : Type 0 where
  pub exempt : String → Read Bool
  pub evict : PodName → EvictAnswer

-- What the detector does to the cluster: the condition of a slice, the stamps on the pods of a slice,
-- their removal, an eviction, and the notice that one is blocked.
pub data Action : Type 0 where
  marked : (key : String) (violating : Bool) → Action
  stamped cleared : (key : String) (pods : List PodName) → Action
  evicted : PodName → Action
  blocked : PodName → (reason : String) → Action

-- A namespace that cannot be read counts as exempt.
unfoldable pub is_exempt : Read Bool → Bool
is_exempt (found b) = b
is_exempt not_found = false
is_exempt unreadable = true

abbrev pub is_recent : ℕ → ℕ → Bool
is_recent now t = ltb now (t + eviction_window)

-- `evictionAllowed`: it prunes the times first.
unfoldable pub prune_evictions : ℕ → SliceViolationDetector → SliceViolationDetector
prune_evictions now d = record d { eviction_times = keep (is_recent now) d.eviction_times }

abbrev pub has_headroom : SliceViolationDetector → Bool
has_headroom d = ltb (length d.eviction_times) max_evictions_per_window

abbrev is_noted : Option String → String → Bool
is_noted none reason = false
is_noted (some r) reason = str_eq r reason

-- One notice for each reason in a row.
unfoldable pub notify_blocked :
    PodName → String → SliceViolationDetector → SliceViolationDetector × List Action
notify_blocked p reason d =
    if is_noted (lookup (pod_key p) d.blocked_notified) reason then (d, []) else (
      record d { blocked_notified = insert (pod_key p) reason d.blocked_notified },
      blocked p reason ∷ [],
    )

-- What follows the answer to an eviction.
unfoldable pub after_evict :
    EvictAnswer → ℕ → PodName → SliceViolationDetector → SliceViolationDetector × List Action
unfolding notify_blocked
after_evict done now p d = (
  record d {
    evict_handled = insert (pod_key p) "evicted" d.evict_handled;
    blocked_notified = delete (pod_key p) d.blocked_notified;
    eviction_times = d.eviction_times ++ now ∷ [];
  },
  evicted p ∷ [],
)
after_evict gone now p d =
    (record d { evict_handled = insert (pod_key p) "evicted" d.evict_handled }, [])
after_evict forbidden now p d = notify_blocked p "pdb" d
after_evict failed now p d = (d, [])

-- One round of `maybeEvict`.
unfoldable pub evict_pod :
    EvictionApi → ℕ → PodName → SliceViolationDetector → SliceViolationDetector × List Action
unfolding is_exempt prune_evictions notify_blocked after_evict
evict_pod api now p d =
    if has (pod_key p) d.evict_handled
    then (d, [])
    else if is_exempt (api.exempt p.namespace)
    then notify_blocked p "exempt" d
    else if has_headroom (prune_evictions now d)
    then after_evict (api.evict p) now p (prune_evictions now d)
    else notify_blocked p "ratelimited" (prune_evictions now d)

unfoldable pub maybe_evict :
    EvictionApi → ℕ → List PodName → SliceViolationDetector → SliceViolationDetector × List Action
unfolding evict_pod
maybe_evict api now [] d = (d, [])
maybe_evict api now (p ∷ ps) d =
    let (d', first) = evict_pod api now p d in
    let (e, rest) = maybe_evict api now ps d' in (e, first ++ rest)

abbrev pub pods_or_none : Option (List PodName) → List PodName
pods_or_none none = []
pods_or_none (some ps) = ps

-- A slice within its grant: its stamps are removed and its timer is dropped.
unfoldable pub clear_enforcement :
    String → SliceViolationDetector → SliceViolationDetector × List Action
clear_enforcement key d =
    if flag_or_false (lookup key d.enforced)
    then (
      record d {
        enforced = delete key d.enforced;
        stamped_pods = delete key d.stamped_pods;
        violation_start = delete key d.violation_start;
      },
      cleared key (pods_or_none (lookup key d.stamped_pods)) ∷ [],
    )
    else (record d { violation_start = delete key d.violation_start }, [])

-- The soft enforcement, engaged once.
unfoldable pub engage_soft_warn :
    String → List PodName → SliceViolationDetector → SliceViolationDetector × List Action
engage_soft_warn key pods d = if flag_or_false (lookup key d.enforced) then (d, []) else (
  record d { enforced = insert key true d.enforced; stamped_pods = insert key pods d.stamped_pods },
  stamped key pods ∷ [],
)

abbrev pub start_or : ℕ → Option ℕ → ℕ
start_or now none = now
start_or now (some t) = t

abbrev pub is_evict : EnforcementMode → Bool
is_evict evict = true
is_evict _ = false

abbrev pub is_off : EnforcementMode → Bool
is_off off = true
is_off _ = false

-- A slice over its grant since `start`.
unfoldable pub enforce_since :
    EvictionApi → ℕ → ℕ → SliceUsage → SliceViolationDetector → SliceViolationDetector × List Action
unfolding engage_soft_warn maybe_evict
enforce_since api now start u d =
    if ltb now (start + enforcement_grace_period)
    then (d, [])
    else let (d', first) = engage_soft_warn (slice_key u.namespace u.name) u.pods d in
      if is_evict d.enforce_mode
        && leb (start + enforcement_grace_period + eviction_grace_period) now
      then (let (e, rest) = maybe_evict api now u.pods d' in (e, first ++ rest))
      else (d', first)

unfoldable pub enforce :
    EvictionApi
    → ℕ
    → SliceUsage
    → Bool
    → SliceViolationDetector
    → SliceViolationDetector × List Action
unfolding clear_enforcement enforce_since
enforce api now u violating d =
    let key = slice_key u.namespace u.name in
    let start = start_or now (lookup key d.violation_start) in
    if is_off d.enforce_mode
    then (d, [])
    else if not violating
    then clear_enforcement key d
    else enforce_since api now start u
        (record d { violation_start = insert key start d.violation_start })

-- The condition changes on an onset and when the violation ends.
abbrev pub mark : String → SliceVerdict → List Action
mark key v =
    if v.onset then marked key true ∷ [] else if v.cleared then marked key false ∷ [] else []

-- The loop over the usages.
unfoldable pub watch_slices :
    EvictionApi
    → ℕ
    → Dict SliceUsage
    → SliceViolationDetector
    → SliceViolationDetector × List Action
unfolding evaluate enforce
watch_slices api now [] d = (d, [])
watch_slices api now ((key, u) ∷ rest) d =
    let (v, d1) = evaluate key u.used u.grant d in
    let (d2, acts) = enforce api now u v.violating d1 in
    let (e, later) = watch_slices api now rest d2 in (e, mark key v ++ (acts ++ later))

-- The entries whose key passes a test: Go's delete in a loop over the map.
unfoldable pub keep_keys : {V : Type 0} → (String → Bool) → Dict V → Dict V
keep_keys p [] = []
keep_keys p ((k, v) ∷ m) = if p k then (k, v) ∷ keep_keys p m else keep_keys p m

-- `cleanupEnforcement` of the slices that vanished.
unfoldable pub clean_up : (String → Bool) → Dict Bool → Dict (List PodName) → List Action
clean_up seen [] stamps = []
clean_up seen ((k, engaged) ∷ m) stamps =
    let rest = clean_up seen m stamps in
    if not (seen k) && engaged then cleared k (pods_or_none (lookup k stamps)) ∷ rest else rest

abbrev any_pod : String → List PodName → Bool
any_pod k [] = false
any_pod k (p ∷ ps) = if str_eq (pod_key p) k then true else any_pod k ps

unfoldable pub seen_pod : String → Dict SliceUsage → Bool
seen_pod k [] = false
seen_pod k ((key, u) ∷ rest) = any_pod k u.pods || seen_pod k rest

-- A slice is dropped when it was under enforcement and vanished.
abbrev drops : (String → Bool) → Dict Bool → String → Bool
drops seen enforced k = not (seen k) && has k enforced

-- The end of the cycle: what is kept of slices and pods that are no longer there.
unfoldable pub prune_vanished :
    Dict SliceUsage → SliceViolationDetector → SliceViolationDetector × List Action
unfolding keep_keys clean_up seen_pod
prune_vanished usage d =
    let seen : String → Bool = λ k. has k usage in
    (
      record d {
        streak = keep_keys (λ k. not (not (seen k) && has k d.active)) d.streak;
        active = keep_keys seen d.active;
        enforced = keep_keys seen d.enforced;
        stamped_pods = keep_keys (λ k. not (drops seen d.enforced k)) d.stamped_pods;
        violation_start = keep_keys seen d.violation_start;
        evict_handled = keep_keys (λ k. seen_pod k usage) d.evict_handled;
        blocked_notified = keep_keys (λ k. seen_pod k usage) d.blocked_notified;
      },
      clean_up seen d.enforced d.stamped_pods,
    )

-- One cycle; `listed` says whether the first snapshot of the processes could be taken.
unfoldable pub detect_once :
    EvictionApi
    → ℕ
    → Bool
    → AttributionReads
    → SliceViolationDetector
    → Result (Unit {0}) (List Action) × SliceViolationDetector
unfolding attribute watch_slices prune_vanished
detect_once api now listed reads d =
    if not listed then (ok [], d) else elim (attribute d.node_name reads) [
      | err _ ↦ (err tt, d)
      | ok usage ↦
          let (d', acts) = watch_slices api now usage d in
          let (e, cleanup) = prune_vanished usage d' in (ok (acts ++ cleanup), e)
    ]
