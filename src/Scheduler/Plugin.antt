-- ===== src/Scheduler/Plugin.antt =====
-- internal/scheduler/plugin.go: one scheduling cycle. The answers of the API server, of the gang gate
-- and of the preemptor are arguments, and so is what other goroutines do to the cache while the
-- cycle waits for an answer. Times are in seconds.
pub mod Attempts
pub mod Cycles
pub mod Undisturbed
use vgpu_scheduler.Prelude.{
  ℕ, ◌*◌, ◌≡◌, String, Bool, true, false, ◌&&◌, ◌||◌, not, Option, none, some, List, [], ◌∷◌, ◌==◌,
  if◌then◌else◌, str_eq, Result, ok, err,
}
use vgpu_scheduler.Prelude.Dict.{keys_where}
use vgpu_scheduler.Api.{VgpuSlice, Read, found, not_found, unreadable}
use vgpu_scheduler.Cache.{
  VramCache, AssumeError, pin_assumption, promote_slice_to_allocated_once, release_slice_once,
  fail_slice_once, SyncedPhase, ready, released, failed,
}
use vgpu_scheduler.Cache.Calls.{Call, run}
use vgpu_scheduler.Scheduler.Gang.{
  GangCheckResult, not_applicable, bind_allowed, bind_deferred, bind_rejected, bind_wait,
  gang_retry,
}
use vgpu_scheduler.Scheduler.Filter.{valid_nodes}
use vgpu_scheduler.Scheduler.Score.{NodeScore, score_with_topology}
use vgpu_scheduler.Scheduler.Reserve.{
  ReservationTx, new_tx, reserve, confirm, mark_held, rollback_if_not_confirmed,
}
use vgpu_scheduler.Scheduler.Quota.{VgpuQuota, Verdict, allowed, quota_exceeded, check}

abbrev pub gang_hold_ttl : ℕ
gang_hold_ttl = 50

abbrev pub bind_pin_ttl : ℕ
bind_pin_ttl = 30

abbrev pub reserver_ttl : ℕ
reserver_ttl = 30

-- The gate of `gateAndBind`: no gate, a slice that cannot be read, a gate error or a verdict.
pub data GateAnswer : Type 0 where
  no_gate slice_unreadable undetermined : GateAnswer
  verdict : GangCheckResult → GateAnswer

-- What a quota check reads: the slice, the size of its reservation, the quotas and the slices.
pub record QuotaReads : Type 0 where
  pub slice : Read VgpuSlice
  pub gang_size : Read ℕ
  pub quotas : Option (List VgpuQuota)
  pub slices : Option (List VgpuSlice)

-- What the cycle is told from outside. `planned` says that a preemptor is set and returned a plan.
pub record Answers : Type 0 where
  pub quota : Option QuotaReads
  pub member_read : Option VgpuSlice
  pub planned : Bool
  pub zone_read : Option VgpuSlice
  pub gate : GateAnswer
  pub bind_succeeds : Bool
  pub now : ℕ
  pub bind_now : ℕ
  pub confirm_now : ℕ
  pub during_quota : List Call
  pub during_score : List Call
  pub during_gate : List Call
  pub during_bind : List Call

pub data Outcome : Type 0 where
  bound : (node : String) → Outcome
  cache_not_ready quota_unresolved : Outcome
  quota_rejected : Verdict → Outcome
  preemption_in_progress insufficient_capacity no_scores : Outcome
  reserve_failed : AssumeError → Outcome
  gate_read_failed gate_retry gang_terminal hold_lost bind_failed : Outcome
  gang_deferred : GangCheckResult → Outcome

abbrev pub slice_preferred_zone : Option VgpuSlice → String
slice_preferred_zone none = ""
slice_preferred_zone (some s) = s.preferred_zone

abbrev gang_of : VgpuSlice → Read ℕ → ℕ → Result (Unit {0}) (String × ℕ)
gang_of s (found size) requested =
    ok (if size == 0 then ("", 0) else (s.gang_ref, size * requested))
gang_of s not_found requested = ok ("", 0)
gang_of s unreadable requested = err tt

-- The gang and its whole demand; `("", 0)` for a slice that is on its own.
unfoldable pub gang_quota_context : Read VgpuSlice → Read ℕ → ℕ → Result (Unit {0}) (String × ℕ)
gang_quota_context (found s) gang_size requested =
    if str_eq s.gang_ref "" || str_eq s.reservation_ref ""
    then ok ("", 0)
    else gang_of s gang_size requested
gang_quota_context not_found gang_size requested = ok ("", 0)
gang_quota_context unreadable gang_size requested = err tt

abbrev rejection : Verdict → Option Outcome
rejection allowed = none
rejection v = some (quota_rejected v)

-- Why the quota stops the cycle, if it does.
unfoldable pub quota_stop : Option QuotaReads → VramCache → String → ℕ → Option Outcome
unfolding gang_quota_context
quota_stop none c ns requested = none
quota_stop (some q) c ns requested = elim (gang_quota_context q.slice q.gang_size requested) [
  | err _ ↦ some quota_unresolved
  | ok (gang, gang_total) ↦
      rejection (check q.quotas q.slices (some c) ns requested gang gang_total)
]

-- The end of `gateAndBind`: the hold is pinned, the slice is bound, the transaction is confirmed.
unfoldable pub pin_and_bind :
    Answers → String → ReservationTx → VramCache → Outcome × ReservationTx × VramCache
pin_and_bind w node tx c =
    let (pinned, hold) = pin_assumption c tx.slice_uid w.bind_now bind_pin_ttl in
    elim hold [
      | none ↦ (hold_lost, tx, c)
      | some _ ↦
          let d = run pinned w.during_bind in
          if w.bind_succeeds
          then (let (tx', e, _) = confirm tx d w.confirm_now in (bound node, tx', e))
          else (bind_failed, tx, d)
    ]

-- The cycle past the gate, by what the gate answers.
unfoldable pub past_gate :
    Answers → String → ReservationTx → VramCache → GateAnswer → Outcome × ReservationTx × VramCache
unfolding pin_and_bind
past_gate w node tx c no_gate = pin_and_bind w node tx c
past_gate w node tx c slice_unreadable = (gate_read_failed, tx, c)
past_gate w node tx c undetermined = (gate_retry, tx, c)
past_gate w node tx c (verdict gang_retry) = (gang_deferred gang_retry, tx, c)
past_gate w node tx c (verdict bind_deferred) = (gang_deferred bind_deferred, mark_held tx, c)
past_gate w node tx c (verdict bind_wait) = (gang_deferred bind_wait, tx, c)
past_gate w node tx c (verdict bind_rejected) = (gang_terminal, tx, c)
past_gate w node tx c (verdict bind_allowed) = pin_and_bind w node tx c
past_gate w node tx c (verdict not_applicable) = pin_and_bind w node tx c

unfoldable pub gate_and_bind :
    Answers → String → ReservationTx → VramCache → Outcome × ReservationTx × VramCache
unfolding past_gate
gate_and_bind w node tx c = past_gate w node tx (run c w.during_gate) w.gate

-- The deferred `RollbackIfNotConfirmed` of the caller.
unfoldable pub gated : Answers → String → ReservationTx → VramCache → Outcome × VramCache
unfolding gate_and_bind
gated w node tx c =
    let (outcome, tx', d) = gate_and_bind w node tx c in (outcome, rollback_if_not_confirmed tx' d)

abbrev is_gang_member : Option VgpuSlice → Bool
is_gang_member none = false
is_gang_member (some s) = not (str_eq s.reservation_ref "")

unfoldable pub no_room : Answers → Outcome
no_room w =
    if not (is_gang_member w.member_read) && w.planned
    then preemption_in_progress
    else insufficient_capacity

-- `ListNodes`, in the order of the map.
abbrev pub list_nodes : VramCache → List String
list_nodes c = keys_where (λ _. true) c.nodes

-- Filter, score and reserve, for a slice without a hold.
unfoldable pub fresh_attempt :
    Answers → VramCache → String → String → ℕ → Bool → Outcome × VramCache
unfolding gated no_room
fresh_attempt w c uid ns requested best_effort = elim (valid_nodes c (list_nodes c) requested) [
  | [] ↦ (no_room w, c)
  | n ∷ more ↦
      let d = run c w.during_score in
      let zone = slice_preferred_zone w.zone_read in
      elim (score_with_topology d (n ∷ more) requested best_effort zone) [
        | [] ↦ (no_scores, d)
        | top ∷ _ ↦ elim (reserve d uid ns top.node_name requested w.now reserver_ttl) [
          | err e ↦ (reserve_failed e, d)
          | ok (tx, e) ↦ gated w top.node_name tx e
        ]
      ]
]

-- `Schedule` behind its warm-up gate: the quota, then the hold of an earlier cycle or a new one.
unfoldable pub warm_cycle : Answers → VramCache → String → String → ℕ → Bool → Outcome × VramCache
unfolding quota_stop gated fresh_attempt
warm_cycle w c uid ns requested best_effort =
    let d = run c w.during_quota in
    elim (quota_stop w.quota d ns requested) [
      | some outcome ↦ (outcome, d)
      | none ↦
          let (pinned, hold) = pin_assumption d uid w.now gang_hold_ttl in
          elim hold [
            | some (node, bytes) ↦ gated w node (new_tx uid ns node bytes) pinned
            | none ↦ fresh_attempt w d uid ns requested best_effort
          ]
    ]

unfoldable pub schedule : Answers → VramCache → String → String → ℕ → Bool → Outcome × VramCache
unfolding warm_cycle
schedule w c uid ns requested best_effort =
    if not c.seeded then (cache_not_ready, c) else warm_cycle w c uid ns requested best_effort

unfoldable pub sync_cache_from_slice : VramCache → String → String → SyncedPhase → ℕ → VramCache
sync_cache_from_slice c uid node ready bytes = (promote_slice_to_allocated_once c uid node bytes).0
sync_cache_from_slice c uid node released bytes = release_slice_once c uid node
sync_cache_from_slice c uid node failed bytes = fail_slice_once c uid node
