-- ===== src/Cache.antt =====
-- internal/scheduler/cache.go: the scheduler's in-memory account of each node's VRAM.
-- A method that changes the cache under its lock returns the new cache; `now` is the clock it reads.
-- Byte counts are non-negative int64 values, so a floor at 0 after a subtraction is `-` on ℕ.
pub mod Calls
pub mod Balances
pub mod Consistency
pub mod Admission
pub mod Holds
pub mod Ledger
pub mod Accounts
pub mod Nodes
pub mod Histories
pub mod Once
pub mod Reaper
mod Examples
use vgpu_scheduler.Prelude.{
  ℕ, zero, suc, ◌+◌, ◌-◌, ◌*◌, ◌≡◌, refl, String, Bool, true, false, ◌&&◌, ◌||◌, not, Option, none,
  some, List, [], ◌∷◌, ltb, leb, ◌==◌, if◌then◌else◌, str_eq, Result, ok, err, guard, or_fail,
  ◌>>=◌, ◌>>◌,
}
use vgpu_scheduler.Prelude.Dict
use vgpu_scheduler.Prelude.Dict.{
  Dict, lookup, insert, delete, has, retain, keys_where, delete_all, total,
}

pub record NodeState : Type 0 where
  pub node_name : String
  pub total_vram : ℕ
  pub allocated : ℕ
  pub reserved : ℕ
  pub free : ℕ
  pub healthy : Bool
  pub zone : String

pub record AssumedAllocation : Type 0 where
  pub slice_uid : String
  pub namespace : String
  pub node : String
  pub bytes : ℕ
  pub expires_at : ℕ

-- The phases that `syncedPhaseBySlice` records; a missing key is Go's "".
pub data SyncedPhase : Type 0 where
  ready released failed : SyncedPhase

pub record VramCache : Type 0 where
  pub nodes : Dict NodeState
  pub assumed : Dict AssumedAllocation
  pub confirmed : Dict AssumedAllocation
  pub synced : Dict SyncedPhase
  pub allocated_bytes : Dict ℕ
  pub allocated_node : Dict String
  pub seeded : Bool

unfoldable pub new_vram_cache : VramCache
new_vram_cache = record {
  nodes = [];
  assumed = [];
  confirmed = [];
  synced = [];
  allocated_bytes = [];
  allocated_node = [];
  seeded = false;
}

unfoldable pub mark_seeded : VramCache → VramCache
mark_seeded c = record c { seeded = true }

unfoldable pub recalculate_free_vram : NodeState → NodeState
recalculate_free_vram s = record s { free = s.total_vram - s.allocated - s.reserved }

-- `if node, ok := c.nodes[name]; ok { … }`.
unfoldable pub update_at : String → (NodeState → NodeState) → VramCache → VramCache
update_at name f c = elim (lookup name c.nodes) [
  | none ↦ c
  | some s ↦ record c { nodes = insert name (f s) c.nodes }
]

unfoldable pub charge_reserved : ℕ → NodeState → NodeState
unfolding recalculate_free_vram
charge_reserved bytes s = recalculate_free_vram (record s { reserved = s.reserved + bytes })

unfoldable pub credit_reserved : ℕ → NodeState → NodeState
unfolding recalculate_free_vram
credit_reserved bytes s = recalculate_free_vram (record s { reserved = s.reserved - bytes })

unfoldable pub credit_allocated : ℕ → NodeState → NodeState
unfolding recalculate_free_vram
credit_allocated bytes s = recalculate_free_vram (record s { allocated = s.allocated - bytes })

pub data FitError : Type 0 where
  node_not_found node_unhealthy insufficient_vram : FitError

unfoldable pub can_fit : VramCache → String → ℕ → Result FitError (Unit {0})
can_fit c name bytes = do
  s ← or_fail (lookup name c.nodes) node_not_found
  guard s.healthy node_unhealthy
  guard (not (ltb s.free bytes)) insufficient_vram
  ok tt

pub data AssumeError : Type 0 where
  already_assumed already_confirmed : AssumeError
  lost_race : FitError → AssumeError

unfoldable pub assume_slice :
    VramCache → String → String → String → ℕ → ℕ → ℕ → Result AssumeError VramCache
unfolding charge_reserved
assume_slice c uid ns name bytes now ttl = do
  guard (not (has uid c.assumed)) already_assumed
  guard (not (has uid c.confirmed)) already_confirmed
  s ← or_fail (lookup name c.nodes) (lost_race node_not_found)
  guard s.healthy (lost_race node_unhealthy)
  guard (not (ltb s.free bytes)) (lost_race insufficient_vram)
  let hold : AssumedAllocation = record {
    slice_uid = uid;
    namespace = ns;
    node = name;
    bytes = bytes;
    expires_at = now + ttl;
  }
  ok (record c {
    assumed = insert uid hold c.assumed;
    nodes = insert name (charge_reserved bytes s) c.nodes;
  })

unfoldable pub confirm_slice_or_rearm :
    VramCache → String → String → String → ℕ → ℕ → VramCache × Bool
unfolding update_at charge_reserved
confirm_slice_or_rearm c uid ns name bytes now = elim (lookup uid c.assumed) [
  | some a ↦
      (record c { confirmed = insert uid a c.confirmed; assumed = delete uid c.assumed }, false)
  | none ↦ (
    update_at name (charge_reserved bytes) (record c {
      confirmed =
          insert uid
            (record {
              slice_uid = uid;
              namespace = ns;
              node = name;
              bytes = bytes;
              expires_at = now;
            })
            c.confirmed;
    }),
    true,
  )
]

pub data PromoteError : Type 0 where
  promotion_node_missing not_confirmed : PromoteError

unfoldable pub charge_allocated : ℕ → NodeState → NodeState
unfolding recalculate_free_vram
charge_allocated bytes s = recalculate_free_vram (record s { allocated = s.allocated + bytes })

-- The promotion of one hold: its reservation is dropped and the actual bytes are allocated.
unfoldable pub promote_hold : ℕ → ℕ → NodeState → NodeState
unfolding recalculate_free_vram
promote_hold requested actual s =
    recalculate_free_vram
      (record s { reserved = s.reserved - requested; allocated = s.allocated + actual })

unfoldable pub promote_confirmed_to_allocated_locked :
    VramCache → String → String → ℕ → VramCache × Option PromoteError
unfolding charge_allocated promote_hold
promote_confirmed_to_allocated_locked c uid name actual = elim (lookup name c.nodes) [
  | none ↦ (c, some promotion_node_missing)
  | some s ↦ elim (lookup uid c.confirmed) [
    | some a ↦ (
      record c {
        nodes = insert name (promote_hold a.bytes actual s) c.nodes;
        confirmed = delete uid c.confirmed;
      },
      none,
    )
    | none ↦
        (record c { nodes = insert name (charge_allocated actual s) c.nodes }, some not_confirmed)
  ]
]

abbrev pub is_synced : SyncedPhase → Option SyncedPhase → Bool
is_synced ready (some ready) = true
is_synced released (some released) = true
is_synced failed (some failed) = true
is_synced _ _ = false

-- What `PromoteSliceToAllocatedOnce` records of the slice after the promotion.
unfoldable pub mark_allocated : String → String → ℕ → VramCache → VramCache
mark_allocated uid name actual c = record c {
  synced = insert uid ready c.synced;
  allocated_bytes = insert uid actual c.allocated_bytes;
  allocated_node = insert uid name c.allocated_node;
}

unfoldable pub promote_slice_to_allocated_once :
    VramCache → String → String → ℕ → VramCache × Option PromoteError
unfolding promote_confirmed_to_allocated_locked mark_allocated
promote_slice_to_allocated_once c uid name actual =
    if is_synced ready (lookup uid c.synced)
    then (c, none)
    else let (c', e) = promote_confirmed_to_allocated_locked c uid name actual in
      (mark_allocated uid name actual c', e)

unfoldable pub release_allocated : VramCache → String → ℕ → VramCache
unfolding update_at credit_allocated
release_allocated c name freed = update_at name (credit_allocated freed) c

-- Go's read of a missing count is 0.
abbrev pub bytes_or_zero : Option ℕ → ℕ
bytes_or_zero none = 0
bytes_or_zero (some n) = n

unfoldable pub drop_allocated : String → SyncedPhase → VramCache → VramCache
drop_allocated uid p c = record c {
  synced = insert uid p c.synced;
  allocated_bytes = delete uid c.allocated_bytes;
  allocated_node = delete uid c.allocated_node;
}

unfoldable pub release_slice_once : VramCache → String → String → VramCache
unfolding drop_allocated release_allocated
release_slice_once c uid name =
    if is_synced released (lookup uid c.synced)
    then c
    else if not (has uid c.allocated_bytes) && not (has uid c.synced)
    then c
    else release_allocated (drop_allocated uid released c) name
        (bytes_or_zero (lookup uid c.allocated_bytes))

-- `RollbackAssumedSlice` on one map, `ReleaseConfirmedSlice` on the other.
unfoldable pub rollback_assumed_slice : VramCache → String → VramCache
unfolding update_at credit_reserved
rollback_assumed_slice c uid = elim (lookup uid c.assumed) [
  | none ↦ c
  | some a ↦
      let c' = update_at a.node (credit_reserved a.bytes) c in
      record c' { assumed = delete uid c'.assumed }
]

unfoldable pub release_confirmed_slice : VramCache → String → VramCache
unfolding update_at credit_reserved
release_confirmed_slice c uid = elim (lookup uid c.confirmed) [
  | none ↦ c
  | some a ↦
      let c' = update_at a.node (credit_reserved a.bytes) c in
      record c' { confirmed = delete uid c'.confirmed }
]

unfoldable pub fail_slice_once : VramCache → String → String → VramCache
unfolding drop_allocated release_allocated release_confirmed_slice
fail_slice_once c uid name =
    if is_synced failed (lookup uid c.synced) || is_synced released (lookup uid c.synced)
    then c
    else if not (has uid c.confirmed) && not (has uid c.allocated_bytes) && not (has uid c.synced)
    then c
    else let bytes = bytes_or_zero (lookup uid c.allocated_bytes) in
      let c' = drop_allocated uid failed c in
      release_confirmed_slice (if ltb 0 bytes then release_allocated c' name bytes else c') uid

unfoldable pub forget_slice : VramCache → String → String → VramCache
unfolding rollback_assumed_slice release_confirmed_slice release_slice_once
forget_slice c uid name =
    let c' = release_confirmed_slice (rollback_assumed_slice c uid) uid in
    let c'' = if str_eq name "" then c' else release_slice_once c' uid name in
    record c'' { synced = delete uid c''.synced }

-- One round of the reaper: an entry past its expiry gives its bytes back and is dropped.
unfoldable pub reap_one : ℕ → String → AssumedAllocation → VramCache → VramCache
unfolding update_at credit_reserved
reap_one now uid a c =
    if ltb a.expires_at now
    then (let c' = update_at a.node (credit_reserved a.bytes) c in
        record c' { assumed = delete uid c'.assumed })
    else c

-- The reaper's loop over the entries of `assumedBySlice`.
unfoldable pub reap_loop : ℕ → Dict AssumedAllocation → VramCache → VramCache
unfolding reap_one
reap_loop now [] c = c
reap_loop now ((uid, a) ∷ rest) c = reap_loop now rest (reap_one now uid a c)

unfoldable pub reap_expired_assumptions : ℕ → VramCache → VramCache
unfolding reap_loop
reap_expired_assumptions now c = reap_loop now c.assumed c

abbrev pub new_node : String → NodeState
new_node name = record {
  node_name = name;
  total_vram = 0;
  allocated = 0;
  reserved = 0;
  free = 0;
  healthy = true;
  zone = "";
}

abbrev pub node_or_new : String → Option NodeState → NodeState
node_or_new name none = new_node name
node_or_new name (some s) = s

-- A reported allocation counts only when it is higher than the cache's own.
unfoldable pub set_capacity : ℕ → ℕ → NodeState → NodeState
unfolding recalculate_free_vram
set_capacity total reported s = recalculate_free_vram (record s {
  total_vram = total;
  allocated = if ltb s.allocated reported then reported else s.allocated;
})

unfoldable pub update_node : VramCache → String → ℕ → ℕ → VramCache
unfolding set_capacity
update_node c name total reported = record c {
  nodes =
      insert name (set_capacity total reported (node_or_new name (lookup name c.nodes))) c.nodes;
}

unfoldable pub update_node_capacity : VramCache → String → ℕ → VramCache
unfolding update_node
update_node_capacity c name gib = update_node c name (gib * 1024 * 1024 * 1024) 0

unfoldable pub remove_node : VramCache → String → VramCache
remove_node c name = elim (lookup name c.nodes) [
  | none ↦ c
  | some _ ↦
      let gone = keys_where (λ n. str_eq n name) c.allocated_node in
      record c {
        assumed = retain (λ a. not (str_eq a.node name)) c.assumed;
        confirmed = retain (λ a. not (str_eq a.node name)) c.confirmed;
        allocated_node = delete_all gone c.allocated_node;
        allocated_bytes = delete_all gone c.allocated_bytes;
        synced = delete_all gone c.synced;
        nodes = delete name c.nodes;
      }
]

unfoldable pub set_node_health : VramCache → String → Bool → VramCache
unfolding update_at
set_node_health c name h = update_at name (λ s. record s { healthy = h }) c

unfoldable pub set_node_zone : VramCache → String → String → VramCache
set_node_zone c name z = record c {
  nodes = insert name (record (node_or_new name (lookup name c.nodes)) { zone = z }) c.nodes;
}

unfoldable pub node_zone : VramCache → String → String
node_zone c name = elim (lookup name c.nodes) [ none ↦ "" | some s ↦ s.zone ]

unfoldable pub has_node : VramCache → String → Bool
has_node c name = has name c.nodes

unfoldable pub is_assumed : VramCache → String → Option (String × ℕ)
is_assumed c uid = elim (lookup uid c.assumed) [ none ↦ none | some a ↦ some (a.node, a.bytes) ]

unfoldable pub pin_assumption : VramCache → String → ℕ → ℕ → VramCache × Option (String × ℕ)
pin_assumption c uid now ttl = elim (lookup uid c.assumed) [
  | none ↦ (c, none)
  | some a ↦ (
    record c { assumed = insert uid (record a { expires_at = now + ttl }) c.assumed },
    some (a.node, a.bytes),
  )
]

-- The bytes of the holds of a namespace whose slice is not counted already.
unfoldable pub pending_sum : String → Dict (Unit {0}) → Dict AssumedAllocation → ℕ
pending_sum ns counted [] = 0
pending_sum ns counted ((uid, a) ∷ rest) =
    (if str_eq a.namespace ns && not (has uid counted) then a.bytes else 0)
    + pending_sum ns counted rest

unfoldable pub pending_namespace_bytes : VramCache → String → Dict (Unit {0}) → ℕ
unfolding pending_sum
pending_namespace_bytes c ns counted =
    pending_sum ns counted c.assumed + pending_sum ns counted c.confirmed

-- The slices that the cache accounts for, with their nodes.
unfoldable pub track_holds : Dict AssumedAllocation → Dict String → Dict String
track_holds [] out = out
track_holds ((uid, a) ∷ rest) out = track_holds rest (insert uid a.node out)

unfoldable pub track_nodes : Dict String → Dict String → Dict String
track_nodes [] out = out
track_nodes ((uid, n) ∷ rest) out = track_nodes rest (insert uid n out)

unfoldable pub tracked_slice_uids : VramCache → Dict String
unfolding track_holds track_nodes
tracked_slice_uids c =
    track_nodes c.allocated_node (track_holds c.confirmed (track_holds c.assumed []))
