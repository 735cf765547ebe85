-- ===== src/Cache/Accounts.antt =====
-- cache.go: the reservation ledger under promotion, release, and changes of the node set.
use vgpu_scheduler.Prelude.{
  ℕ, ◌+◌, ◌≡◌, refl, String, if◌then◌else◌, none, some, inl, inr, arith, str_eq, str_eq_iff,
  Option-cases,
}
use vgpu_scheduler.Prelude.Dict.{
  lookup, lookup-insert, lookup-delete, total-insert, total-delete, insert-Unique, delete-Unique,
}
use vgpu_scheduler.Cache.Holds.{weigh, held_on, Reserves-insert, Reserves-ext}
use vgpu_scheduler.Cache.Ledger.{
  IsLedger, IsLedger-same, rollback-IsLedger, release_confirmed-IsLedger,
  release_allocated-IsLedger,
}
use vgpu_scheduler.Cache.{
  AssumedAllocation, VramCache, charge_allocated, promote_hold,
  promote_confirmed_to_allocated_locked, promote_slice_to_allocated_once, mark_allocated,
  release_allocated, drop_allocated, bytes_or_zero, released, failed, release_slice_once,
  rollback_assumed_slice, release_confirmed_slice, fail_slice_once, forget_slice, pin_assumption,
  SyncedPhase,
}

-- The hold that a promotion consumes, if there is one, lies on the node that it charges.
abbrev pub HoldOn : VramCache → String → String → Type 0
HoldOn c uid name = (a : AssumedAllocation) → lookup uid c.confirmed ≡ some a → a.node ≡ name

-- A node that is new to the cache has no hold yet.
abbrev pub NewIsEmpty : VramCache → String → Type 0
NewIsEmpty c name = lookup name c.nodes ≡ none → held_on c name ≡ 0

pub promote_locked-IsLedger :
    (c : VramCache) (uid name : String) (actual : ℕ)
    → IsLedger c
    → HoldOn c uid name
    → IsLedger (promote_confirmed_to_allocated_locked c uid name actual).0
unfolding promote_confirmed_to_allocated_locked charge_allocated promote_hold
promote_locked-IsLedger c uid name actual l on = elim (Option-cases (lookup name c.nodes)) [
  | inl e ↦ rw (e, promote_confirmed_to_allocated_locked) l
  | inr (s, e) ↦ elim (Option-cases (lookup uid c.confirmed)) [
    | inl e' ↦
        rw (e, e', promote_confirmed_to_allocated_locked)
          (IsLedger-same c _ l refl refl (
            Reserves-insert c.nodes (held_on c) (held_on c) name (charge_allocated actual s)
              l.reserves (l.reserves.exact name s e) (λ n _. refl)))
    | inr (a, e') ↦
        rw (e, e', promote_confirmed_to_allocated_locked)
          (record {
            unique_assumed = l.unique_assumed;
            unique_confirmed = delete-Unique uid c.confirmed l.unique_confirmed;
            apart = λ u. ground (arith, l.apart u, lookup-delete uid u c.confirmed);
            reserves =
                Reserves-insert c.nodes (held_on c) _ name (promote_hold a.bytes actual s)
                  l.reserves
                  (ground (
                    arith,
                    e',
                    l.reserves.exact name s e,
                    on a e',
                    str_eq_iff a.node name,
                    total-delete (weigh name) uid c.confirmed l.unique_confirmed,
                  ))
                  (λ n other. ground (
                    arith,
                    e',
                    on a e',
                    total-delete (weigh n) uid c.confirmed l.unique_confirmed,
                  ));
          })
  ]
]

pub promote-IsLedger :
    (c : VramCache) (uid name : String) (actual : ℕ)
    → IsLedger c
    → HoldOn c uid name
    → IsLedger (promote_slice_to_allocated_once c uid name actual).0
unfolding promote_slice_to_allocated_once mark_allocated
promote-IsLedger c uid name actual l on = ground (arith, l, marked)
  where
    promoted : VramCache
    promoted = (promote_confirmed_to_allocated_locked c uid name actual).0

    marked : IsLedger (mark_allocated uid name actual promoted)
    marked =
        let k = promote_locked-IsLedger c uid name actual l on in
        IsLedger-same promoted _ k refl refl k.reserves

drop-IsLedger :
    (c : VramCache) (uid : String) (p : SyncedPhase)
    → IsLedger c
    → IsLedger (drop_allocated uid p c)
unfolding drop_allocated
drop-IsLedger c uid p l = IsLedger-same c _ l refl refl l.reserves

pub release_once-IsLedger :
    (c : VramCache) (uid name : String) → IsLedger c → IsLedger (release_slice_once c uid name)
unfolding release_slice_once
release_once-IsLedger c uid name l =
    ground
      (arith, l, release_allocated-IsLedger dropped name bytes (drop-IsLedger c uid released l))
  where
    dropped : VramCache
    dropped = drop_allocated uid released c

    bytes : ℕ
    bytes = bytes_or_zero (lookup uid c.allocated_bytes)

pub fail-IsLedger :
    (c : VramCache) (uid name : String) → IsLedger c → IsLedger (fail_slice_once c uid name)
unfolding fail_slice_once
fail-IsLedger c uid name l = ground (
  arith,
  l,
  release_confirmed-IsLedger dropped uid kept,
  release_confirmed-IsLedger (release_allocated dropped name bytes) uid
      (release_allocated-IsLedger dropped name bytes kept),
)
  where
    dropped : VramCache
    dropped = drop_allocated uid failed c

    bytes : ℕ
    bytes = bytes_or_zero (lookup uid c.allocated_bytes)

    kept : IsLedger dropped
    kept = drop-IsLedger c uid failed l

pub forget-IsLedger :
    (c : VramCache) (uid name : String) → IsLedger c → IsLedger (forget_slice c uid name)
unfolding forget_slice
forget-IsLedger c uid name l = let k = last in IsLedger-same final _ k refl refl k.reserves
  where
    dropped : VramCache
    dropped = release_confirmed_slice (rollback_assumed_slice c uid) uid

    held_back : IsLedger dropped
    held_back = release_confirmed-IsLedger _ uid (rollback-IsLedger c uid l)

    final : VramCache
    final = if str_eq name "" then dropped else release_slice_once dropped uid name

    last : IsLedger final
    last = ground (arith, held_back, release_once-IsLedger dropped uid name held_back)

pub pin-IsLedger :
    (c : VramCache) (uid : String) (now ttl : ℕ)
    → IsLedger c
    → IsLedger (pin_assumption c uid now ttl).0
unfolding pin_assumption
pin-IsLedger c uid now ttl l = elim (Option-cases (lookup uid c.assumed)) [
  | inl e ↦ rw (e, pin_assumption) l
  | inr (a, e) ↦
      rw (e, pin_assumption)
        (record {
          unique_assumed = insert-Unique uid _ c.assumed l.unique_assumed;
          unique_confirmed = l.unique_confirmed;
          apart = λ u. ground (
            arith,
            e,
            l.apart u,
            l.apart uid,
            lookup-insert uid u (record a { expires_at = now + ttl }) c.assumed,
            str_eq_iff uid u,
          );
          reserves = Reserves-ext c.nodes (held_on c) _ l.reserves (λ n. ground (
            arith,
            e,
            total-insert (weigh n) uid (record a { expires_at = now + ttl }) c.assumed,
          ));
        })
]
