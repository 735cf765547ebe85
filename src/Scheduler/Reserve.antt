-- ===== src/Scheduler/Reserve.antt =====
-- internal/scheduler/reserve.go: a reservation as a transaction on the cache, with the deferred
-- rollback of its owner. The transaction's pointer to the cache is the cache passed along.
use vgpu_scheduler.Prelude.{
  ℕ, ◌≡◌, String, Bool, true, false, ◌||◌, none, some, Result, ok, ◌>>=◌, arith, if◌then◌else◌, inl,
  inr, Result-cases,
}
use vgpu_scheduler.Prelude.Dict.{lookup, lookup-insert_self, lookup-delete_self}
use vgpu_scheduler.Cache.Balances.{IsConsistent}
use vgpu_scheduler.Cache.Admission.{rollback-assume, assume_frame, hold_of}
use vgpu_scheduler.Cache.{
  VramCache, AssumeError, assume_slice, confirm_slice_or_rearm, rollback_assumed_slice,
}

pub record ReservationTx : Type 0 where
  pub slice_uid : String
  pub namespace : String
  pub node_name : String
  pub bytes : ℕ
  pub is_confirmed : Bool
  pub is_held : Bool

-- `NewReservationTxForHeld`, and the transaction that `Reserve` returns.
unfoldable pub new_tx : String → String → String → ℕ → ReservationTx
new_tx uid ns node bytes = record {
  slice_uid = uid;
  namespace = ns;
  node_name = node;
  bytes = bytes;
  is_confirmed = false;
  is_held = false;
}

unfoldable pub reserve :
    VramCache
    → String
    → String
    → String
    → ℕ
    → ℕ
    → ℕ
    → Result AssumeError (ReservationTx × VramCache)
unfolding new_tx
reserve c uid ns node bytes now ttl = do
  d ← assume_slice c uid ns node bytes now ttl
  ok (new_tx uid ns node bytes, d)

-- `Confirm`: true where the hold had to be re-armed.
unfoldable pub confirm : ReservationTx → VramCache → ℕ → ReservationTx × VramCache × Bool
confirm tx c now =
    let (d, rearmed) =
      confirm_slice_or_rearm c tx.slice_uid tx.namespace tx.node_name tx.bytes now in
    (record tx { is_confirmed = true }, d, rearmed)

unfoldable pub mark_held : ReservationTx → ReservationTx
mark_held tx = record tx { is_held = true }

unfoldable pub rollback_if_not_confirmed : ReservationTx → VramCache → VramCache
rollback_if_not_confirmed tx c =
    if tx.is_confirmed || tx.is_held then c else rollback_assumed_slice c tx.slice_uid

pub reserve-eq-ok :
    (c d : VramCache) (tx : ReservationTx) (uid ns node : String) (bytes now ttl : ℕ)
    → reserve c uid ns node bytes now ttl ≡ ok (tx, d)
    → (tx ≡ new_tx uid ns node bytes) × (assume_slice c uid ns node bytes now ttl ≡ ok d)
unfolding reserve
reserve-eq-ok c d tx uid ns node bytes now ttl e =
    elim (Result-cases (assume_slice c uid ns node bytes now ttl)) [
      | inl (d', a) ↦ ground (arith, a, e)
      | inr (x, a) ↦ absurd (ground (arith, a, e))
    ]

-- A transaction that is neither confirmed nor held restores, by its deferred rollback, the account
-- of every node and the assumed hold of every slice of a consistent cache.
pub rollback-reserve :
    (c d : VramCache) (tx : ReservationTx) (uid ns node : String) (bytes now ttl : ℕ)
    → IsConsistent c
    → reserve c uid ns node bytes now ttl ≡ ok (tx, d)
    → ((n : String) → lookup n (rollback_if_not_confirmed tx d).nodes ≡ lookup n c.nodes)
      × ((u : String) → lookup u (rollback_if_not_confirmed tx d).assumed ≡ lookup u c.assumed)
unfolding rollback_if_not_confirmed
rollback-reserve c d tx uid ns node bytes now ttl h e =
    let (is_new, assumed) = reserve-eq-ok c d tx uid ns node bytes now ttl e in
    let undone = rollback-assume c d uid ns node bytes now ttl h assumed in
    rw is_new (unfold new_tx in undone)

-- A transaction that is confirmed or held keeps its hold past the deferred rollback: on the
-- reserved node and for the reserved bytes, in `confirmed` or in `assumed`.
pub confirm-reserve :
    (c d : VramCache) (tx : ReservationTx) (uid ns node : String) (bytes now ttl later : ℕ)
    → reserve c uid ns node bytes now ttl ≡ ok (tx, d)
    → let (confirmed_tx, e, rearmed) = confirm tx d later in
      let hold = some (hold_of uid ns node bytes now ttl) in
      (rearmed ≡ false)
      × (lookup uid (rollback_if_not_confirmed confirmed_tx e).confirmed ≡ hold)
      × (lookup uid (rollback_if_not_confirmed confirmed_tx e).assumed ≡ none)
      × (e.nodes ≡ d.nodes)
      × (lookup uid (rollback_if_not_confirmed (mark_held tx) d).assumed ≡ hold)
unfolding reserve confirm mark_held rollback_if_not_confirmed confirm_slice_or_rearm
confirm-reserve c d tx uid ns node bytes now ttl later e =
    let (is_new, assumed) = reserve-eq-ok c d tx uid ns node bytes now ttl e in
    let kept = (assume_frame c d uid ns node bytes now ttl assumed).2 in
    ground (
      arith,
      is_new,
      kept,
      lookup-insert_self uid (hold_of uid ns node bytes now ttl) d.confirmed,
      lookup-delete_self uid d.assumed,
    )
