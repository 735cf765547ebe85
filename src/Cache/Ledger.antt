-- ===== src/Cache/Ledger.antt =====
-- cache.go: the reserved bytes of every node are exactly the assumed and confirmed holds on it, as
-- long as the callers keep to what their code relies on.
use vgpu_scheduler.Prelude.{
  ℕ, ◌+◌, ◌≡◌, refl, String, none, ◌⊎◌, inl, inr, ok, arith, str_eq_iff, Option-cases,
}
use vgpu_scheduler.Prelude.Dict.{
  lookup, insert, Unique, lookup-insert, lookup-delete, total-insert, total-delete, insert-Unique,
  delete-Unique,
}
use vgpu_scheduler.Cache.Admission.{hold_of, assume-eq-ok}
use vgpu_scheduler.Cache.Holds.{
  weigh, held, held_on, Reserves, Reserves-charge, Reserves-credit, Reserves-update_at,
  Reserves-ext,
}
use vgpu_scheduler.Cache.{
  NodeState, AssumedAllocation, VramCache, update_at, charge_reserved, credit_reserved,
  assume_slice, confirm_slice_or_rearm, credit_allocated, release_allocated, drop_allocated,
  released, rollback_assumed_slice, release_confirmed_slice,
}

pub record IsLedger (c : VramCache) : Type 0 where
  pub unique_assumed : Unique c.assumed
  pub unique_confirmed : Unique c.confirmed
  pub apart : (u : String) → (lookup u c.assumed ≡ none) ⊎ (lookup u c.confirmed ≡ none)
  pub reserves : Reserves c.nodes (held_on c)

-- A cache with the same holds.
pub IsLedger-same :
    (c d : VramCache)
    → IsLedger c
    → d.assumed ≡ c.assumed
    → d.confirmed ≡ c.confirmed
    → Reserves d.nodes (held_on c)
    → IsLedger d
IsLedger-same c d l a f r = record {
  unique_assumed = rw a l.unique_assumed;
  unique_confirmed = rw f l.unique_confirmed;
  apart = rw (a, f) l.apart;
  reserves = Reserves-ext d.nodes (held_on c) (held_on d) r (λ n. rw (a, f));
}

pub update_at_frame :
    (name : String) (f : NodeState → NodeState) (c : VramCache)
    → ((update_at name f c).assumed ≡ c.assumed) × ((update_at name f c).confirmed ≡ c.confirmed)
unfolding update_at
update_at_frame name f c = ground arith

pub assume-IsLedger :
    (c d : VramCache) (uid ns name : String) (bytes now ttl : ℕ)
    → IsLedger c
    → assume_slice c uid ns name bytes now ttl ≡ ok d
    → IsLedger d
assume-IsLedger c d uid ns name bytes now ttl l e =
    let (s, m, _, _, a, f, made) = assume-eq-ok c d uid ns name bytes now ttl e in
    rw made (record {
      unique_assumed = insert-Unique uid _ c.assumed l.unique_assumed;
      unique_confirmed = l.unique_confirmed;
      apart =
          λ u. ground (arith, l.apart u, f, lookup-insert uid u hold c.assumed, str_eq_iff uid u);
      reserves =
          Reserves-charge c.nodes (held_on c) _ s hold l.reserves m
            (λ n. ground (arith, a, total-insert (weigh n) uid hold c.assumed));
    })
  where
    hold : AssumedAllocation
    hold = hold_of uid ns name bytes now ttl

pub rollback-IsLedger :
    (c : VramCache) (uid : String) → IsLedger c → IsLedger (rollback_assumed_slice c uid)
unfolding rollback_assumed_slice
rollback-IsLedger c uid l = elim (Option-cases (lookup uid c.assumed)) [
  | inl e ↦ rw (e, rollback_assumed_slice) l
  | inr (a, e) ↦
      let (same_a, same_f) = update_at_frame a.node (credit_reserved a.bytes) c in
      rw (e, rollback_assumed_slice)
        (record {
          unique_assumed = rw same_a (delete-Unique uid c.assumed l.unique_assumed);
          unique_confirmed = rw same_f l.unique_confirmed;
          apart =
              λ u. rw (same_a, same_f) (ground (arith, l.apart u, lookup-delete uid u c.assumed));
          reserves = Reserves-credit c (held_on c) _ a l.reserves (λ n.
              rw (same_a, same_f)
                (ground (arith, e, total-delete (weigh n) uid c.assumed l.unique_assumed)));
        })
]

pub release_confirmed-IsLedger :
    (c : VramCache) (uid : String) → IsLedger c → IsLedger (release_confirmed_slice c uid)
unfolding release_confirmed_slice
release_confirmed-IsLedger c uid l = elim (Option-cases (lookup uid c.confirmed)) [
  | inl e ↦ rw (e, release_confirmed_slice) l
  | inr (a, e) ↦
      let (same_a, same_f) = update_at_frame a.node (credit_reserved a.bytes) c in
      rw (e, release_confirmed_slice)
        (record {
          unique_assumed = rw same_a l.unique_assumed;
          unique_confirmed = rw same_f (delete-Unique uid c.confirmed l.unique_confirmed);
          apart =
              λ u. rw (same_a, same_f) (ground (arith, l.apart u, lookup-delete uid u c.confirmed));
          reserves = Reserves-credit c (held_on c) _ a l.reserves (λ n.
              rw (same_a, same_f)
                (ground (arith, e, total-delete (weigh n) uid c.confirmed l.unique_confirmed)));
        })
]

pub release_allocated-IsLedger :
    (c : VramCache) (name : String) (bytes : ℕ)
    → IsLedger c
    → IsLedger (release_allocated c name bytes)
unfolding release_allocated
release_allocated-IsLedger c name bytes l =
    let (a, f) = update_at_frame name (credit_allocated bytes) c in
    IsLedger-same c _ l a f (
      Reserves-update_at c (held_on c) name (credit_allocated bytes) l.reserves
        (λ s. unfold credit_allocated in refl))

pub drop_allocated-IsLedger :
    (c : VramCache) (uid : String) → IsLedger c → IsLedger (drop_allocated uid released c)
unfolding drop_allocated
drop_allocated-IsLedger c uid l = IsLedger-same c _ l refl refl l.reserves

-- A new confirmed hold, its bytes charged to its node where the cache has the node.
rearm-IsLedger :
    (c : VramCache) (uid : String) (a : AssumedAllocation)
    → IsLedger c
    → lookup uid c.assumed ≡ none
    → lookup uid c.confirmed ≡ none
    → IsLedger (
        update_at a.node
          (charge_reserved a.bytes)
          (record c { confirmed = insert uid a c.confirmed }))
unfolding update_at
rearm-IsLedger c uid a l e f = elim (Option-cases (lookup a.node c.nodes)) [
  | inl m ↦
      rw (m, update_at)
        (record {
          unique_assumed = l.unique_assumed;
          unique_confirmed = insert-Unique uid a c.confirmed l.unique_confirmed;
          apart = apart;
          reserves = record {
            exact = λ n s k. ground (arith, l.reserves.exact n s k, more n, str_eq_iff a.node n);
          };
        })
  | inr (s, m) ↦
      rw (m, update_at)
        (record {
          unique_assumed = l.unique_assumed;
          unique_confirmed = insert-Unique uid a c.confirmed l.unique_confirmed;
          apart = apart;
          reserves = Reserves-charge c.nodes (held_on c) _ s a l.reserves m more;
        })
]
  where
    more :
        (n : String)
        → held n c.assumed + held n (insert uid a c.confirmed) ≡ held_on c n + weigh n a
    more n = ground (arith, f, total-insert (weigh n) uid a c.confirmed)

    apart :
        (u : String) → (lookup u c.assumed ≡ none) ⊎ (lookup u (insert uid a c.confirmed) ≡ none)
    apart u = ground (arith, l.apart u, e, lookup-insert uid u a c.confirmed, str_eq_iff uid u)

-- A confirmation of an assumed hold moves it; a re-arm charges a new one.
pub confirm-IsLedger :
    (c : VramCache) (uid ns name : String) (bytes now : ℕ)
    → IsLedger c
    → lookup uid c.confirmed ≡ none
    → IsLedger (confirm_slice_or_rearm c uid ns name bytes now).0
unfolding confirm_slice_or_rearm
confirm-IsLedger c uid ns name bytes now l f = elim (Option-cases (lookup uid c.assumed)) [
  | inr (a, e) ↦
      rw (e, confirm_slice_or_rearm)
        (record {
          unique_assumed = delete-Unique uid c.assumed l.unique_assumed;
          unique_confirmed = insert-Unique uid a c.confirmed l.unique_confirmed;
          apart = λ u. ground (
            arith,
            l.apart u,
            lookup-insert uid u a c.confirmed,
            lookup-delete uid u c.assumed,
            str_eq_iff uid u,
          );
          reserves = Reserves-ext c.nodes (held_on c) _ l.reserves (λ n. ground (
            arith,
            e,
            f,
            total-insert (weigh n) uid a c.confirmed,
            total-delete (weigh n) uid c.assumed l.unique_assumed,
          ));
        })
  | inl e ↦
      rw (e, confirm_slice_or_rearm)
        (rearm-IsLedger c uid
          (record { slice_uid = uid; namespace = ns; node = name; bytes = bytes; expires_at = now })
          l e f)
]
