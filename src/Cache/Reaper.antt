-- ===== src/Cache/Reaper.antt =====
-- cache.go: the TTL reaper, which runs over the assumed holds while it deletes from them.
use vgpu_scheduler.Prelude.{
  ℕ, ◌≡◌, refl, String, ltb, if◌then◌else◌, none, some, [], ◌∷◌, arith, str_eq_iff,
}
use vgpu_scheduler.Prelude.Dict.{Dict, lookup, delete, Unique, lookup-delete}
use vgpu_scheduler.Cache.Ledger.{IsLedger, update_at_frame, rollback-IsLedger}
use vgpu_scheduler.Cache.{
  AssumedAllocation, VramCache, credit_reserved, rollback_assumed_slice, reap_one, reap_loop,
  reap_expired_assumptions,
}

-- Every entry of a list is the current one of its key.
abbrev Present : Dict AssumedAllocation → Dict AssumedAllocation → Type 0
Present [] m = Unit
Present ((u, a) ∷ r) m = (lookup u m ≡ some a) × Present r m

Present-cons :
    (r m : Dict AssumedAllocation) (j : String) (w : AssumedAllocation)
    → lookup j r ≡ none
    → Present r m
    → Present r ((j, w) ∷ m)
unfolding lookup
Present-cons [] m j w h p = tt
Present-cons ((u, a) ∷ r) m j w h p =
    ground (arith, Present-cons r m j w, str_eq_iff u j, str_eq_iff j u)

Present-delete :
    (r m : Dict AssumedAllocation) (j : String)
    → lookup j r ≡ none
    → Present r m
    → Present r (delete j m)
unfolding lookup
Present-delete [] m j h p = tt
Present-delete ((u, a) ∷ r) m j h p =
    ground (arith, Present-delete r m j, lookup-delete j u m, str_eq_iff u j, str_eq_iff j u)

Present-self : (m : Dict AssumedAllocation) → Unique m → Present m m
unfolding lookup
Present-self [] u = tt
Present-self ((j, w) ∷ m) u =
    ground (arith, str_eq_iff j j, Present-cons m m j w u.0 (Present-self m u.1))

-- A round on a current entry is a rollback of an expired hold, and otherwise nothing.
reap_one_lem :
    (now : ℕ) (uid : String) (a : AssumedAllocation) (c : VramCache)
    → lookup uid c.assumed ≡ some a
    → reap_one now uid a c ≡ (if ltb a.expires_at now then rollback_assumed_slice c uid else c)
unfolding reap_one rollback_assumed_slice
reap_one_lem now uid a c e = ground arith

reap_one_assumed :
    (now : ℕ) (uid : String) (a : AssumedAllocation) (c : VramCache)
    → (reap_one now uid a c).assumed
      ≡ (if ltb a.expires_at now then delete uid c.assumed else c.assumed)
unfolding reap_one
reap_one_assumed now uid a c = ground (arith, update_at_frame a.node (credit_reserved a.bytes) c)

reap_one-Present :
    (now : ℕ) (uid : String) (a : AssumedAllocation) (c : VramCache) (r : Dict AssumedAllocation)
    → lookup uid r ≡ none
    → Present r c.assumed
    → Present r (reap_one now uid a c).assumed
reap_one-Present now uid a c r h p =
    rw (reap_one_assumed now uid a c) (ground (arith, p, Present-delete r c.assumed uid h p))

reap_one-IsLedger :
    (now : ℕ) (uid : String) (a : AssumedAllocation) (c : VramCache)
    → lookup uid c.assumed ≡ some a
    → IsLedger c
    → IsLedger (reap_one now uid a c)
reap_one-IsLedger now uid a c e l =
    rw (reap_one_lem now uid a c e) (ground (arith, l, rollback-IsLedger c uid l))

reap_loop-IsLedger :
    (now : ℕ) (r : Dict AssumedAllocation) (c : VramCache)
    → Unique r
    → Present r c.assumed
    → IsLedger c
    → IsLedger (reap_loop now r c)
unfolding reap_loop
reap_loop-IsLedger now [] c u p l = l
reap_loop-IsLedger now ((uid, a) ∷ r) c u p l =
    reap_loop-IsLedger now r (reap_one now uid a c) u.1 (reap_one-Present now uid a c r u.0 p.1)
      (reap_one-IsLedger now uid a c p.0 l)

pub reap-IsLedger :
    (now : ℕ) (c : VramCache) → IsLedger c → IsLedger (reap_expired_assumptions now c)
unfolding reap_expired_assumptions
reap-IsLedger now c l =
    reap_loop-IsLedger now c.assumed c l.unique_assumed (Present-self c.assumed l.unique_assumed) l

reap_loop_assumed :
    (now : ℕ) (r : Dict AssumedAllocation) (c : VramCache) (k : String)
    → Unique r
    → lookup k (reap_loop now r c).assumed ≡ elim (lookup k r) [
      | none ↦ lookup k c.assumed
      | some a ↦ if ltb a.expires_at now then none else lookup k c.assumed
    ]
unfolding reap_loop lookup
reap_loop_assumed now [] c k u = refl
reap_loop_assumed now ((uid, a) ∷ r) c k u = ground (
  arith,
  reap_loop_assumed now r (reap_one now uid a c) k u.1,
  reap_one_assumed now uid a c,
  lookup-delete uid k c.assumed,
  str_eq_iff uid k,
)

reap_loop_confirmed :
    (now : ℕ) (r : Dict AssumedAllocation) (c : VramCache)
    → (reap_loop now r c).confirmed ≡ c.confirmed
unfolding reap_loop reap_one
reap_loop_confirmed now [] c = refl
reap_loop_confirmed now ((uid, a) ∷ r) c = ground (
  arith,
  reap_loop_confirmed now r (reap_one now uid a c),
  update_at_frame a.node (credit_reserved a.bytes) c,
)

-- A pass of the reaper drops exactly the assumed holds whose expiry lies before `now`; it keeps the
-- others as they are, and leaves every confirmed hold alone.
pub reap_exact :
    (now : ℕ) (c : VramCache)
    → IsLedger c
    → ((k : String)
        → lookup k (reap_expired_assumptions now c).assumed ≡ elim (lookup k c.assumed) [
          | none ↦ none
          | some a ↦ if ltb a.expires_at now then none else some a
        ])
      × ((reap_expired_assumptions now c).confirmed ≡ c.confirmed)
unfolding reap_expired_assumptions
reap_exact now c l = (
  λ k. ground (arith, reap_loop_assumed now c.assumed c k l.unique_assumed),
  reap_loop_confirmed now c.assumed c,
)
