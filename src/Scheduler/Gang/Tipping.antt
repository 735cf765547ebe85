-- ===== src/Scheduler/Gang/Tipping.antt =====
-- internal/scheduler/gang.go: a check releases a cohort only at its quorum.
use vgpu_scheduler.Prelude.{
  ℕ, ◌-◌, ◌≡◌, refl, sym, subst, String, true, false, not, ◌&&◌, some, ltb, leb, str_eq, if_elim,
  length, arith, inl, inr, Option-cases,
}
use vgpu_scheduler.Prelude.Dict.{
  lookup, insert, delete, AllVals, insert-AllVals, lookup-insert_self,
}
use vgpu_scheduler.Scheduler.Gang.{
  GangMember, GangCohort, GangBindingGate, GangCheckResult, bind_allowed, bind_deferred, bind_wait,
  members_of, is_released, drop_member, join_member, release_cohort, hold_slot, admit, check_locked,
  claim_slot, free_stalled, enter_cohort, reap_stale_cohorts,
}
use vgpu_scheduler.Scheduler.Gang.Quorum.{
  HasQuorum, IsQuorate, IsSized, IsOpen, KeepsSize, reap_from-IsQuorate, reap_from-lookup,
  enter-IsQuorate, enter-IsSized, free_stalled-IsQuorate, claim_slot-cohorts, stall-kept,
}

abbrev LeavesQuorate : GangCheckResult × GangBindingGate → Type 0
LeavesQuorate p = IsQuorate p.1

drop_member-IsQuorate :
    (key uid : String) (g : GangBindingGate)
    → IsOpen key g
    → IsQuorate g
    → IsQuorate (drop_member key uid g)
unfolding drop_member
drop_member-IsQuorate key uid g opened h = elim (Option-cases (lookup key g.cohorts)) [
  | inl e ↦ rw e h
  | inr (co, e) ↦ rw e (
      insert-AllVals HasQuorum key (record co { members = delete uid co.members }) g.cohorts
        (λ r. absurd (ground (arith, r, opened co e))) h)
]

join-IsQuorate :
    (key : String) (size : ℕ) (who : GangMember) (g : GangBindingGate)
    → IsOpen key g
    → IsSized key size g
    → IsQuorate g
    → IsQuorate (join_member key who g) × IsSized key size (join_member key who g)
unfolding join_member
join-IsQuorate key size who g opened sized h = elim (Option-cases (lookup key g.cohorts)) [
  | inl e ↦ rw e (h, sized)
  | inr (co, e) ↦
      let joined : GangCohort = record co { members = insert who.slice_uid who co.members } in
      rw e (
        insert-AllVals HasQuorum key joined g.cohorts (λ r. absurd (ground (arith, r, opened co e)))
            h,
        λ c f. ground (arith, f, sized co e, lookup-insert_self key joined g.cohorts),
      )
]

release-IsQuorate :
    (key : String) (size : ℕ) (g : GangBindingGate)
    → IsSized key size g
    → leb size (length (members_of (lookup key g.cohorts))) ≡ true
    → IsQuorate g
    → IsQuorate (release_cohort key g)
unfolding release_cohort
release-IsQuorate key size g sized full h = elim (Option-cases (lookup key g.cohorts)) [
  | inl e ↦ rw e h
  | inr (co, e) ↦ rw e (
      insert-AllVals HasQuorum key (record co { released = true }) g.cohorts
        (λ r. ground (arith, full, e, sized co e)) h)
]

hold_slot-IsQuorate :
    (key : String) (size : ℕ) (who : GangMember) (g : GangBindingGate)
    → IsOpen key g
    → IsSized key size g
    → IsQuorate g
    → IsQuorate (hold_slot key size who g).1
unfolding hold_slot
hold_slot-IsQuorate key size who g opened sized h =
    let k = join_member key who g in
    let (quorate, still) = join-IsQuorate key size who g opened sized h in
    if_elim LeavesQuorate (leb size (length (members_of (lookup key k.cohorts))))
      (bind_allowed, release_cohort key k) (bind_deferred, k)
      (λ full. release-IsQuorate key size k still full quorate) (λ _. quorate)

free_stalled-kept :
    (key : String) (size now : ℕ) (g : GangBindingGate)
    → IsSized key size g
    → IsOpen key g
    → IsSized key size (free_stalled now g) × IsOpen key (free_stalled now g)
unfolding free_stalled
free_stalled-kept key size now g sized opened =
    if_elim (λ k. IsSized key size k × IsOpen key k)
      (not (str_eq g.admitting "") && ltb 20 (now - g.admitting_since)) _ g
      (λ _. stall-kept (lookup g.admitting g.cohorts) key size now g refl sized opened)
      (λ _. (sized, opened))

admit-IsQuorate :
    (key : String) (size : ℕ) (who : GangMember) (now : ℕ) (g : GangBindingGate)
    → IsOpen key g
    → IsSized key size g
    → IsQuorate g
    → IsQuorate (admit key size who now g).1
unfolding admit
admit-IsQuorate key size who now g opened sized h =
    let freed = free_stalled now g in
    let k = claim_slot now key freed in
    let same = sym (claim_slot-cohorts now key freed) in
    let (sized', opened') = free_stalled-kept key size now g sized opened in
    let quorate : IsQuorate k = subst (AllVals HasQuorum) same (free_stalled-IsQuorate now g h) in
    let sized_k : IsSized key size k =
      subst (λ m. (co : GangCohort) → lookup key m ≡ some co → co.gang_size ≡ size) same sized' in
    let open_k : IsOpen key k =
      subst (λ m. (co : GangCohort) → lookup key m ≡ some co → co.released ≡ false) same opened' in
    if_elim LeavesQuorate (str_eq k.admitting key) (hold_slot key size who k)
      (bind_wait, drop_member key who.slice_uid k)
      (λ _. hold_slot-IsQuorate key size who k open_k sized_k quorate)
      (λ _. drop_member-IsQuorate key who.slice_uid k open_k quorate)

-- If the reservation of the slice keeps its size, a check keeps every released cohort at its quorum:
-- it has as many members as its gang has slices.
pub check_locked-IsQuorate :
    (key : String) (size priority : ℕ) (rsv_uid : String) (who : GangMember) (now : ℕ)
    (g : GangBindingGate)
    → KeepsSize key size rsv_uid g
    → IsQuorate g
    → IsQuorate (check_locked key size priority rsv_uid who now g).1
unfolding check_locked reap_stale_cohorts
check_locked-IsQuorate key size priority rsv_uid who now g keeps h =
    let r = reap_stale_cohorts now g in
    let k = enter_cohort key size priority now rsv_uid r in
    let quorate =
      enter-IsQuorate key size priority now rsv_uid r (reap_from-IsQuorate now g.cohorts g h) in
    let sized =
      enter-IsSized key size priority now rsv_uid r
        (λ co e u. keeps co (reap_from-lookup now g.cohorts key g co e) u) in
    if_elim LeavesQuorate (is_released (lookup key k.cohorts)) (bind_allowed, k)
      (admit key size who now k) (λ _. quorate)
      (λ closed.
        admit-IsQuorate key size who now k (λ co e. ground (arith, closed, e)) sized quorate)
