-- ===== src/Nodeagent/Enforcement/Limits.antt =====
-- internal/nodeagent/enforcement.go: every step of a cycle keeps the windows within their limit.
use vgpu_scheduler.Prelude.{
  ℕ, ◌≡◌, refl, sym, subst, String, Bool, true, false, List, [], ◌∷◌, ◌++◌, ltb→lt, Result, ok, err,
  Result-cases, arith, Bool-cases, inl, inr,
}
use vgpu_scheduler.Prelude.Dict.{Dict, lookup, insert, has}
use vgpu_scheduler.Nodeagent.Enforcement.{
  EvictAnswer, done, gone, forbidden, failed, EvictionApi, Action, marked, stamped, cleared,
  evicted, blocked, prune_evictions, has_headroom, notify_blocked, after_evict, evict_pod,
  maybe_evict, clear_enforcement, engage_soft_warn, enforce_since, enforce, start_or, mark,
  watch_slices, clean_up, prune_vanished, detect_once,
}
use vgpu_scheduler.Nodeagent.SliceViolation.{
  PodName, slice_key, SliceUsage, SliceViolationDetector, SliceVerdict, evaluate, AttributionReads,
  attribute,
}
use vgpu_scheduler.Nodeagent.Enforcement.Window.{log, IsLimited, IsLimited-prune, IsLimited-add}

-- A part of a cycle keeps the limit.
abbrev Limits : ℕ → SliceViolationDetector → SliceViolationDetector × List Action → Type 0
Limits now d (e, acts) =
    (history : List ℕ)
    → IsLimited d.eviction_times now history
    → IsLimited e.eviction_times now (log now acts history)

log-append :
    (now : ℕ) (xs ys : List Action) (history : List ℕ)
    → log now (xs ++ ys) history ≡ log now ys (log now xs history)
unfolding log
log-append now [] ys history = refl
log-append now (evicted p ∷ xs) ys history = log-append now xs ys (now ∷ history)
log-append now (marked k v ∷ xs) ys history = log-append now xs ys history
log-append now (stamped k ps ∷ xs) ys history = log-append now xs ys history
log-append now (cleared k ps ∷ xs) ys history = log-append now xs ys history
log-append now (blocked p r ∷ xs) ys history = log-append now xs ys history

Limits-then :
    (now : ℕ) (d e f : SliceViolationDetector) (first rest : List Action)
    → Limits now d (e, first)
    → Limits now e (f, rest)
    → Limits now d (f, first ++ rest)
Limits-then now d e f first rest a b history l =
    subst (IsLimited f.eviction_times now) (sym (log-append now first rest history))
      (b (log now first history) (a history l))

notify-Limits :
    (now : ℕ) (p : PodName) (reason : String) (d : SliceViolationDetector)
    → Limits now d (notify_blocked p reason d)
unfolding notify_blocked log
notify-Limits now p reason d history l = ground (arith, l)

after_evict-Limits :
    (answer : EvictAnswer) (now : ℕ) (p : PodName) (d : SliceViolationDetector)
    → has_headroom d ≡ true
    → Limits now d (after_evict answer now p d)
unfolding after_evict log
after_evict-Limits done now p d room history l =
    IsLimited-add d.eviction_times now history l (ltb→lt _ _ room)
after_evict-Limits gone now p d room history l = l
after_evict-Limits forbidden now p d room history l = notify-Limits now p "pdb" d history l
after_evict-Limits failed now p d room history l = l

evict_pod-Limits :
    (api : EvictionApi) (now : ℕ) (p : PodName) (d : SliceViolationDetector)
    → Limits now d (evict_pod api now p d)
unfolding evict_pod log
evict_pod-Limits api now p d history l =
    let pruned = prune_evictions now d in
    let kept : IsLimited pruned.eviction_times now history =
      unfold prune_evictions in IsLimited-prune d.eviction_times now history l in
    elim (Bool-cases (has_headroom pruned)) [
      | inl room ↦ ground (
        arith,
        l,
        room,
        notify-Limits now p "exempt" d history l,
        after_evict-Limits (api.evict p) now p pruned room history kept,
      )
      | inr full ↦ ground (
        arith,
        l,
        full,
        notify-Limits now p "exempt" d history l,
        notify-Limits now p "ratelimited" pruned history kept,
      )
    ]

maybe_evict-Limits :
    (api : EvictionApi) (now : ℕ) (pods : List PodName) (d : SliceViolationDetector)
    → Limits now d (maybe_evict api now pods d)
unfolding maybe_evict log
maybe_evict-Limits api now [] d = λ history l. l
maybe_evict-Limits api now (p ∷ ps) d =
    let (e, first) = evict_pod api now p d in
    let (f, rest) = maybe_evict api now ps e in
    Limits-then now d e f first rest (evict_pod-Limits api now p d)
      (maybe_evict-Limits api now ps e)

clear-Limits :
    (now : ℕ) (key : String) (d : SliceViolationDetector) → Limits now d (clear_enforcement key d)
unfolding clear_enforcement log
clear-Limits now key d history l = ground (arith, l)

engage-Limits :
    (now : ℕ) (key : String) (pods : List PodName) (d : SliceViolationDetector)
    → Limits now d (engage_soft_warn key pods d)
unfolding engage_soft_warn log
engage-Limits now key pods d history l = ground (arith, l)

enforce_since-Limits :
    (api : EvictionApi) (now start : ℕ) (u : SliceUsage) (d : SliceViolationDetector)
    → Limits now d (enforce_since api now start u d)
unfolding enforce_since log
enforce_since-Limits api now start u d history l =
    let (e, first) = engage_soft_warn (slice_key u.namespace u.name) u.pods d in
    let (f, rest) = maybe_evict api now u.pods e in
    let engaged = engage-Limits now (slice_key u.namespace u.name) u.pods d history l in
    ground (
      arith,
      l,
      engaged,
      Limits-then now d e f first rest (engage-Limits now (slice_key u.namespace u.name) u.pods d)
          (maybe_evict-Limits api now u.pods e) history l,
    )

enforce-Limits :
    (api : EvictionApi) (now : ℕ) (u : SliceUsage) (violating : Bool) (d : SliceViolationDetector)
    → Limits now d (enforce api now u violating d)
unfolding enforce log
enforce-Limits api now u violating d history l =
    let key = slice_key u.namespace u.name in
    let start = start_or now (lookup key d.violation_start) in
    ground (
      arith,
      l,
      clear-Limits now key d history l,
      enforce_since-Limits api now start u
          (record d { violation_start = insert key start d.violation_start }) history l,
    )

mark-Limits :
    (now : ℕ) (key : String) (v : SliceVerdict) (d : SliceViolationDetector)
    → Limits now d (d, mark key v)
unfolding log
mark-Limits now key v d history l = ground (arith, l)

evaluate-Limits :
    (now used grant : ℕ) (key : String) (d : SliceViolationDetector)
    → let (v, e) = evaluate key used grant d in Limits now d (e, mark key v)
unfolding evaluate log
evaluate-Limits now used grant key d = mark-Limits now key (evaluate key used grant d).0 d

watch-Limits :
    (api : EvictionApi) (now : ℕ) (usage : Dict SliceUsage) (d : SliceViolationDetector)
    → Limits now d (watch_slices api now usage d)
unfolding watch_slices log
watch-Limits api now [] d = λ history l. l
watch-Limits api now ((key, u) ∷ rest) d =
    let (v, d1) = evaluate key u.used u.grant d in
    let (d2, acts) = enforce api now u v.violating d1 in
    let (e, later) = watch_slices api now rest d2 in
    Limits-then now d d1 e (mark key v) (acts ++ later) (evaluate-Limits now u.used u.grant key d) (
      Limits-then now d1 d2 e acts later (enforce-Limits api now u v.violating d1)
        (watch-Limits api now rest d2))

clean_up-log :
    (now : ℕ) (seen : String → Bool) (enforced : Dict Bool) (stamps : Dict (List PodName))
    (history : List ℕ)
    → log now (clean_up seen enforced stamps) history ≡ history
unfolding clean_up log
clean_up-log now seen [] stamps history = refl
clean_up-log now seen ((k, engaged) ∷ m) stamps history =
    ground (arith, clean_up-log now seen m stamps history)

prune-Limits :
    (now : ℕ) (usage : Dict SliceUsage) (d : SliceViolationDetector)
    → Limits now d (prune_vanished usage d)
unfolding prune_vanished
prune-Limits now usage d history l =
    subst (IsLimited d.eviction_times now)
      (sym (clean_up-log now (λ k. has k usage) d.enforced d.stamped_pods history)) l

-- The actions of a cycle; one that fails has none.
abbrev pub actions_of : Result (Unit {0}) (List Action) → List Action
actions_of (ok acts) = acts
actions_of (err _) = []

pub detect-Limits :
    (api : EvictionApi) (now : ℕ) (listed : Bool) (reads : AttributionReads)
    (d : SliceViolationDetector)
    → let (result, e) = detect_once api now listed reads d in Limits now d (e, actions_of result)
unfolding detect_once log
detect-Limits api now false reads d history l = l
detect-Limits api now true reads d history l = elim (Result-cases (attribute d.node_name reads)) [
  | inr (x, e) ↦ rw e l
  | inl (usage, e) ↦
      let (d', acts) = watch_slices api now usage d in
      let (f, cleanup) = prune_vanished usage d' in
      rw e (
        Limits-then now d d' f acts cleanup (watch-Limits api now usage d)
          (prune-Limits now usage d') history l)
]
