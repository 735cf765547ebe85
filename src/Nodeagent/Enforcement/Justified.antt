-- ===== src/Nodeagent/Enforcement/Justified.antt =====
-- internal/nodeagent/enforcement.go: what precedes an eviction, and what a recovery takes back.
use vgpu_scheduler.Prelude.{
  ℕ, ◌+◌, ◌≤◌, ◌≡◌, refl, subst, String, Bool, true, false, ◌&&◌, Option, none, some, List, [], ◌∷◌,
  Has, Has-append, ltb, leb, inl, inr, arith, Bool-cases,
}
use vgpu_scheduler.Prelude.Dict.{lookup, insert, lookup-delete_self, has}
use vgpu_scheduler.Nodeagent.Violation.{flag_or_false}
use vgpu_scheduler.Nodeagent.SliceViolation.{
  PodName, slice_key, pod_key, SliceUsage, EnforcementMode, off, soft_warn, evict,
  SliceViolationDetector,
}
use vgpu_scheduler.Nodeagent.Enforcement.{
  EvictAnswer, done, gone, forbidden, failed, EvictionApi, cleared, evicted, is_exempt,
  prune_evictions, notify_blocked, after_evict, evict_pod, maybe_evict, clear_enforcement,
  engage_soft_warn, enforce_since, enforce, start_or, is_evict, is_off, pods_or_none, has_headroom,
  enforcement_grace_period, eviction_grace_period,
}

-- What the eviction of a pod needs of the API.
abbrev IsAllowed : EvictionApi → PodName → Type 0
IsAllowed api p = (is_exempt (api.exempt p.namespace) ≡ false) × (api.evict p ≡ done)

never_notified :
    (p q : PodName) (reason : String) (d : SliceViolationDetector)
    → ¬ Has (evicted q) (notify_blocked p reason d).1
unfolding notify_blocked
never_notified p q reason d h = ground (arith, h)

after_evict-Has :
    (answer : EvictAnswer) (now : ℕ) (p q : PodName) (d : SliceViolationDetector)
    → Has (evicted q) (after_evict answer now p d).1
    → (p ≡ q) × (answer ≡ done)
unfolding after_evict
after_evict-Has done now p q d (inl e) = (cc, refl)
after_evict-Has done now p q d (inr x) = elim x [ ]
after_evict-Has gone now p q d h = elim h [ ]
after_evict-Has forbidden now p q d h = absurd (never_notified p q "pdb" d h)
after_evict-Has failed now p q d h = elim h [ ]

evict_pod-Has :
    (api : EvictionApi) (now : ℕ) (p q : PodName) (d : SliceViolationDetector)
    → Has (evicted q) (evict_pod api now p d).1
    → (p ≡ q) × IsAllowed api p
unfolding evict_pod
evict_pod-Has api now p q d h = elim (Bool-cases (has (pod_key p) d.evict_handled)) [
  | inl handled ↦ absurd (let z : ⊥ = (rw handled at h) in z)
  | inr open_case ↦ elim (Bool-cases (is_exempt (api.exempt p.namespace))) [
    | inl exempt ↦ absurd (never_notified p q "exempt" d (rw (open_case, exempt) at h))
    | inr subject ↦ elim (Bool-cases (has_headroom (prune_evictions now d))) [
      | inl room ↦
          let (same, answered) =
            after_evict-Has (api.evict p) now p q (prune_evictions now d)
              (rw (open_case, subject, room) at h) in
          (same, (subject, answered))
      | inr full ↦ absurd (
          never_notified p q "ratelimited" (prune_evictions now d)
            (rw (open_case, subject, full) at h))
    ]
  ]
]

maybe_evict-Has :
    (api : EvictionApi) (now : ℕ) (pods : List PodName) (q : PodName) (d : SliceViolationDetector)
    → Has (evicted q) (maybe_evict api now pods d).1
    → Has q pods × IsAllowed api q
unfolding maybe_evict
maybe_evict-Has api now [] q d h = elim h [ ]
maybe_evict-Has api now (p ∷ ps) q d h =
    let (e, first) = evict_pod api now p d in
    let (f, rest) = maybe_evict api now ps e in
    elim (Has-append (evicted q) first rest h) [
      | inl here ↦
          let (same, allowed) = evict_pod-Has api now p q d here in
          (inl same, subst (IsAllowed api) same allowed)
      | inr later ↦
          let (there, allowed) = maybe_evict-Has api now ps q e later in (inr there, allowed)
    ]

engage-Has :
    (key : String) (pods : List PodName) (d : SliceViolationDetector) (q : PodName)
    → ¬ Has (evicted q) (engage_soft_warn key pods d).1
unfolding engage_soft_warn
engage-Has key pods d q h = ground (arith, h)

clear-Has :
    (key : String) (d : SliceViolationDetector) (q : PodName)
    → ¬ Has (evicted q) (clear_enforcement key d).1
unfolding clear_enforcement
clear-Has key d q h = ground (arith, h)

is_evict-eq : (m : EnforcementMode) → is_evict m ≡ true → m ≡ evict
is_evict-eq evict e = refl
is_evict-eq soft_warn e = absurd (cc)
is_evict-eq off e = absurd (cc)

-- A timer that has just started is not three minutes old.
known_start :
    (now : ℕ) (known : Option ℕ)
    → start_or now known + 180 ≤ now
    → (start : ℕ) × (known ≡ some start) × (start + 180 ≤ now)
known_start now none h = absurd (omega arith)
known_start now (some start) h = (start, refl, h)

enforce_since-Has :
    (api : EvictionApi) (now start : ℕ) (u : SliceUsage) (d : SliceViolationDetector) (q : PodName)
    → Has (evicted q) (enforce_since api now start u d).1
    → (d.enforce_mode ≡ evict) × (start + 180 ≤ now) × Has q u.pods × IsAllowed api q
unfolding enforce_since
enforce_since-Has api now start u d q h =
    let key = slice_key u.namespace u.name in
    let (e, first) = engage_soft_warn key u.pods d in
    let (f, rest) = maybe_evict api now u.pods e in
    elim (Bool-cases (ltb now (start + enforcement_grace_period))) [
      | inl early ↦ absurd (let z : ⊥ = (rw early at h) in z)
      | inr engaged ↦
          elim (Bool-cases (
            is_evict d.enforce_mode
            && leb (start + enforcement_grace_period + eviction_grace_period) now)) [
              | inr waits ↦ absurd (engage-Has key u.pods d q (rw (engaged, waits) at h))
              | inl due ↦ elim (Has-append (evicted q) first rest (rw (engaged, due) at h)) [
                | inl here ↦ absurd (engage-Has key u.pods d q here)
                | inr later ↦
                    let (there, allowed) = maybe_evict-Has api now u.pods q e later in
                    (
                      is_evict-eq d.enforce_mode (ground (arith, due)),
                      ground (arith, due),
                      there,
                      allowed,
                    )
              ]
            ]
    ]

-- An eviction is preceded by everything that the policy asks for: the slice violates its grant, the
-- agent is in the evict mode, the violation was first seen at least three minutes ago, the pod is one
-- that the slice's processes belong to, its namespace was read and is not exempt or is gone, and
-- the API made the eviction.
pub enforce_evicts :
    (api : EvictionApi) (now : ℕ) (u : SliceUsage) (violating : Bool) (d : SliceViolationDetector)
    (q : PodName)
    → Has (evicted q) (enforce api now u violating d).1
    → (violating ≡ true)
      × (d.enforce_mode ≡ evict)
      × ((start : ℕ) × (lookup (slice_key u.namespace u.name) d.violation_start ≡ some start)
          × (start + 180 ≤ now))
      × Has q u.pods
      × (is_exempt (api.exempt q.namespace) ≡ false)
      × (api.evict q ≡ done)
unfolding enforce
enforce_evicts api now u violating d q h =
    let key = slice_key u.namespace u.name in
    let start = start_or now (lookup key d.violation_start) in
    let d' = record d { violation_start = insert key start d.violation_start } in
    elim (Bool-cases (is_off d.enforce_mode)) [
      | inl idle ↦ absurd (let z : ⊥ = (rw idle at h) in z)
      | inr acts ↦ elim (Bool-cases violating) [
        | inr within ↦ absurd (clear-Has key d q (rw (acts, within) at h))
        | inl over ↦
            let (mode, since, there, allowed) =
              enforce_since-Has api now start u d' q (rw (acts, over) at h) in
            (
              over,
              mode,
              known_start now (lookup key d.violation_start) since,
              there,
              allowed.0,
              allowed.1,
            )
      ]
    ]

-- A slice that is back within its grant, unless enforcement is off, is no longer under enforcement, has
-- no timer, and the pods that were stamped for it are cleared.
pub enforce_recovers :
    (api : EvictionApi) (now : ℕ) (u : SliceUsage) (d : SliceViolationDetector)
    → is_off d.enforce_mode ≡ false
    → let key = slice_key u.namespace u.name in
      let (e, acts) = enforce api now u false d in
      (flag_or_false (lookup key e.enforced) ≡ false)
      × (lookup key e.violation_start ≡ none)
      × (flag_or_false (lookup key d.enforced) ≡ true
          → Has (cleared key (pods_or_none (lookup key d.stamped_pods))) acts
            × (lookup key e.stamped_pods ≡ none))
unfolding enforce clear_enforcement
enforce_recovers api now u d on =
    let key = slice_key u.namespace u.name in
    elim (Bool-cases (flag_or_false (lookup key d.enforced))) [
      | inr idle ↦ rw (on, idle) (idle, lookup-delete_self key d.violation_start, λ e. absurd (cc))
      | inl engaged ↦
          rw (on, engaged)
            (
              rw (lookup-delete_self key d.enforced) refl,
              lookup-delete_self key d.violation_start,
              λ e. (inl refl, lookup-delete_self key d.stamped_pods),
            )
    ]
