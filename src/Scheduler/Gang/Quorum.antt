-- ===== src/Scheduler/Gang/Quorum.antt =====
-- internal/scheduler/gang.go: a released cohort has its quorum.
use vgpu_scheduler.Prelude.{
  ℕ, ◌-◌, ◌≡◌, ◌≤◌, refl, String, true, false, not, ◌&&◌, Option, none, some, [], ◌∷◌, ltb, ◌==◌,
  str_eq, str_eq_iff, if◌then◌else◌, if_elim, length, arith, inl, inr, Option-cases,
}
use vgpu_scheduler.Prelude.Dict.{
  Dict, lookup, delete, AllVals, lookup-AllVals, insert-AllVals, delete-AllVals, lookup-insert,
  lookup-insert_self, lookup-delete, lookup-delete_self,
}
use vgpu_scheduler.Scheduler.Gang.{
  GangCohort, GangBindingGate, claim_slot, free_stalled, after_stall, enter_cohort, refreshed,
  is_other, new_cohort, forget_cohort, reap_from, is_stale,
}

-- A cohort that was released had all its members.
abbrev pub HasQuorum : GangCohort → Type 0
HasQuorum co = co.released ≡ true → co.gang_size ≤ length co.members

abbrev pub IsQuorate : GangBindingGate → Type 0
IsQuorate g = AllVals HasQuorum g.cohorts

pub forget-IsQuorate :
    (key : String) (g : GangBindingGate) → IsQuorate g → IsQuorate (forget_cohort key g)
unfolding forget_cohort
forget-IsQuorate key g h = delete-AllVals HasQuorum key g.cohorts h

pub reap_from-IsQuorate :
    (now : ℕ) (m : Dict GangCohort) (g : GangBindingGate)
    → IsQuorate g
    → IsQuorate (reap_from now m g)
unfolding reap_from
reap_from-IsQuorate now [] g h = h
reap_from-IsQuorate now ((key, co) ∷ rest) g h = reap_from-IsQuorate now rest _ (
    if_elim IsQuorate (is_stale now co) (forget_cohort key g) g (λ _. forget-IsQuorate key g h)
      (λ _. h))

refreshed-HasQuorum :
    (key : String) (size priority now : ℕ) (uid : String) (g : GangBindingGate)
    → IsQuorate g
    → HasQuorum (refreshed (lookup key g.cohorts) size priority now uid)
unfolding new_cohort
refreshed-HasQuorum key size priority now uid g h = elim (Option-cases (lookup key g.cohorts)) [
  | inl e ↦ rw e (λ r. absurd (cc))
  | inr (co, e) ↦ rw e (lookup-AllVals HasQuorum key g.cohorts h e)
]

pub enter-IsQuorate :
    (key : String) (size priority now : ℕ) (uid : String) (g : GangBindingGate)
    → IsQuorate g
    → IsQuorate (enter_cohort key size priority now uid g)
unfolding enter_cohort
enter-IsQuorate key size priority now uid g h =
    let k = (if is_other (lookup key g.cohorts) uid then forget_cohort key g else g) in
    let q : IsQuorate k =
      if_elim IsQuorate (is_other (lookup key g.cohorts) uid) (forget_cohort key g) g
        (λ _. forget-IsQuorate key g h) (λ _. h) in
    insert-AllVals HasQuorum key _ k.cohorts (refreshed-HasQuorum key size priority now uid k q) q

-- What a step of the admission may change of the cohorts: nothing of a released one.
stall-IsQuorate :
    (o : Option GangCohort) (now : ℕ) (g : GangBindingGate)
    → lookup g.admitting g.cohorts ≡ o
    → IsQuorate g
    → IsQuorate (after_stall o now g)
stall-IsQuorate none now g e h = h
stall-IsQuorate (some co) now g e h =
    if_elim IsQuorate (length co.members == 0) _ _
      (λ _. delete-AllVals HasQuorum g.admitting g.cohorts h)
      (λ _.
        insert-AllVals HasQuorum g.admitting _ g.cohorts
          (λ r. ground (arith, r, lookup-AllVals HasQuorum g.admitting g.cohorts h e)) h)

pub free_stalled-IsQuorate :
    (now : ℕ) (g : GangBindingGate) → IsQuorate g → IsQuorate (free_stalled now g)
unfolding free_stalled
free_stalled-IsQuorate now g h =
    if_elim IsQuorate (not (str_eq g.admitting "") && ltb 20 (now - g.admitting_since)) _ g
      (λ _. stall-IsQuorate (lookup g.admitting g.cohorts) now g refl h) (λ _. h)

pub claim_slot-cohorts :
    (now : ℕ) (key : String) (g : GangBindingGate) → (claim_slot now key g).cohorts ≡ g.cohorts
unfolding claim_slot
claim_slot-cohorts now key g =
    if_elim (λ k. k.cohorts ≡ g.cohorts) (str_eq g.admitting "") _ g (λ _. refl) (λ _. refl)

-- The cohort of a key, if there is one, is of the given size; and it is not released.
abbrev pub IsSized : String → ℕ → GangBindingGate → Type 0
IsSized key size g = (co : GangCohort) → lookup key g.cohorts ≡ some co → co.gang_size ≡ size

abbrev pub IsOpen : String → GangBindingGate → Type 0
IsOpen key g = (co : GangCohort) → lookup key g.cohorts ≡ some co → co.released ≡ false

-- The reservation of a UID keeps its size.
abbrev pub KeepsSize : String → ℕ → String → GangBindingGate → Type 0
KeepsSize key size uid g =
    (co : GangCohort) → lookup key g.cohorts ≡ some co → co.rsv_uid ≡ uid → co.gang_size ≡ size

forget-lookup :
    (key other : String) (g : GangBindingGate) (co : GangCohort)
    → lookup other (forget_cohort key g).cohorts ≡ some co
    → lookup other g.cohorts ≡ some co
unfolding forget_cohort
forget-lookup key other g co e = ground (arith, e, lookup-delete key other g.cohorts)

pub reap_from-lookup :
    (now : ℕ) (m : Dict GangCohort) (other : String) (g : GangBindingGate) (co : GangCohort)
    → lookup other (reap_from now m g).cohorts ≡ some co
    → lookup other g.cohorts ≡ some co
unfolding reap_from
reap_from-lookup now [] other g co e = e
reap_from-lookup now ((key, c) ∷ rest) other g co e =
    if_elim (λ k. lookup other k.cohorts ≡ some co → lookup other g.cohorts ≡ some co)
      (is_stale now c) (forget_cohort key g) g (λ _ f. forget-lookup key other g co f) (λ _ f. f)
      (reap_from-lookup now rest other _ co e)

pub enter-IsSized :
    (key : String) (size priority now : ℕ) (uid : String) (g : GangBindingGate)
    → KeepsSize key size uid g
    → IsSized key size (enter_cohort key size priority now uid g)
unfolding enter_cohort new_cohort forget_cohort
enter-IsSized key size priority now uid g keeps co e = elim (Option-cases (lookup key g.cohorts)) [
  | inl n ↦
      ground (arith, e, n, lookup-insert_self key (new_cohort size priority now uid) g.cohorts)
  | inr (old, s) ↦ ground (
    arith,
    e,
    s,
    keeps old s,
    str_eq_iff old.rsv_uid uid,
    lookup-delete_self key g.cohorts,
    lookup-insert_self key (new_cohort size priority now uid) (delete key g.cohorts),
    lookup-insert_self key (record old { priority = priority }) g.cohorts,
  )
]

pub stall-kept :
    (o : Option GangCohort) (key : String) (size now : ℕ) (g : GangBindingGate)
    → lookup g.admitting g.cohorts ≡ o
    → IsSized key size g
    → IsOpen key g
    → IsSized key size (after_stall o now g) × IsOpen key (after_stall o now g)
stall-kept none key size now g e sized opened = (sized, opened)
stall-kept (some co) key size now g e sized opened =
    let moved : GangCohort = record co {
      created_at = now;
      members = if co.released then co.members else [];
    } in
    if_elim (λ k. IsSized key size k × IsOpen key k) (length co.members == 0) _ _
      (λ _. (
        λ c f. sized c (ground (arith, f, lookup-delete g.admitting key g.cohorts)),
        λ c f. opened c (ground (arith, f, lookup-delete g.admitting key g.cohorts)),
      ))
      (λ _. (
        λ c f. ground (
          arith,
          f,
          e,
          sized c,
          sized co,
          str_eq_iff g.admitting key,
          lookup-insert g.admitting key moved g.cohorts,
        ),
        λ c f. ground (
          arith,
          f,
          e,
          opened c,
          opened co,
          str_eq_iff g.admitting key,
          lookup-insert g.admitting key moved g.cohorts,
        ),
      ))
