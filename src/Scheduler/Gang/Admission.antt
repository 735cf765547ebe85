-- ===== src/Scheduler/Gang/Admission.antt =====
-- internal/scheduler/gang.go: what a verdict of the gate says of the gate.
use vgpu_scheduler.Prelude.{
  ℕ, ◌≡◌, ◌≢◌, ◌<◌, ◌∙◌, refl, String, true, none, leb, str_eq, str_eq_iff, if_elim, length, arith,
  inl, inr, Option-cases,
}
use vgpu_scheduler.Prelude.Dict.{lookup, delete, lookup-insert_self, lookup-delete_self}
use vgpu_scheduler.Scheduler.Gang.{
  GangMember, GangBindingGate, GangCheckResult, bind_allowed, bind_deferred, bind_wait, members_of,
  is_released, drop_member, join_member, release_cohort, hold_slot, admit, check_locked, claim_slot,
  free_stalled, enter_cohort, reap_stale_cohorts,
}

-- What a verdict on a slice says of the gate that it leaves.
pub record Settles (key uid : String) (size : ℕ) (p : GangCheckResult × GangBindingGate)
    : Type 0 where
  pub binds : p.0 ≡ bind_allowed → is_released (lookup key p.1.cohorts) ≡ true
  pub holds :
      p.0 ≡ bind_deferred
      → (p.1.admitting ≡ key) × (length (members_of (lookup key p.1.cohorts)) < size)
  pub lets_go :
      p.0 ≡ bind_wait
      → (p.1.admitting ≢ key) × (lookup uid (members_of (lookup key p.1.cohorts)) ≡ none)

join_frame :
    (key : String) (who : GangMember) (g : GangBindingGate)
    → (join_member key who g).admitting ≡ g.admitting
unfolding join_member
join_frame key who g = elim (Option-cases (lookup key g.cohorts)) [
  | inl e ↦ rw e refl
  | inr (co, e) ↦ rw e refl
]

release-is_released :
    (key : String) (size : ℕ) (g : GangBindingGate)
    → 0 < size
    → leb size (length (members_of (lookup key g.cohorts))) ≡ true
    → is_released (lookup key (release_cohort key g).cohorts) ≡ true
unfolding release_cohort
release-is_released key size g pos full = elim (Option-cases (lookup key g.cohorts)) [
  | inl e ↦ absurd (ground (arith, full, e, pos))
  | inr (co, e) ↦
      rw (release_cohort, e)
        (ground (arith, lookup-insert_self key (record co { released = true }) g.cohorts))
]

hold_slot-Settles :
    (key : String) (size : ℕ) (who : GangMember) (g : GangBindingGate)
    → 0 < size
    → g.admitting ≡ key
    → Settles key who.slice_uid size (hold_slot key size who g)
unfolding hold_slot
hold_slot-Settles key size who g pos mine =
    let h = join_member key who g in
    if_elim (Settles key who.slice_uid size) (leb size (length (members_of (lookup key h.cohorts))))
      (bind_allowed, release_cohort key h) (bind_deferred, h)
      (λ full. record {
        binds = λ v. release-is_released key size h pos full;
        holds = λ v. absurd (cc);
        lets_go = λ v. absurd (cc);
      })
      (λ short. record {
        binds = λ v. absurd (cc);
        holds = λ v. (join_frame key who g ∙ mine, ground (arith, short));
        lets_go = λ v. absurd (cc);
      })

drop_member-gone :
    (key uid : String) (g : GangBindingGate)
    → ((drop_member key uid g).admitting ≡ g.admitting)
      × (lookup uid (members_of (lookup key (drop_member key uid g).cohorts)) ≡ none)
unfolding drop_member
drop_member-gone key uid g = elim (Option-cases (lookup key g.cohorts)) [
  | inl e ↦ rw (drop_member, e) (refl, rw e (unfold lookup in refl))
  | inr (co, e) ↦
      rw (drop_member, e)
        (
          refl,
          ground (
            arith,
            lookup-delete_self uid co.members,
            lookup-insert_self key (record co { members = delete uid co.members }) g.cohorts,
          ),
        )
]

admit-Settles :
    (key : String) (size : ℕ) (who : GangMember) (now : ℕ) (g : GangBindingGate)
    → 0 < size
    → Settles key who.slice_uid size (admit key size who now g)
unfolding admit
admit-Settles key size who now g pos =
    let h = claim_slot now key (free_stalled now g) in
    if_elim (Settles key who.slice_uid size) (str_eq h.admitting key) (hold_slot key size who h)
      (bind_wait, drop_member key who.slice_uid h)
      (λ mine. hold_slot-Settles key size who h pos ((str_eq_iff h.admitting key).0 mine))
      (λ other.
        let (kept, gone) = drop_member-gone key who.slice_uid h in
        record {
          binds = λ v. absurd (cc);
          holds = λ v. absurd (cc);
          lets_go = λ v. (
            λ same. absurd (ground (arith, kept, same, other, str_eq_iff h.admitting key)),
            gone,
          );
        })

-- Whatever the gate's state, a slice of a live gang is told to bind only when the gate has the gang's
-- cohort as released; it keeps its reservation only while its gang has the one admission slot and is
-- short of its size; and a slice that is told to wait is no member of its cohort and its gang has not
-- the slot.
pub check_locked-Settles :
    (key : String) (size priority : ℕ) (rsv_uid : String) (who : GangMember) (now : ℕ)
    (g : GangBindingGate)
    → 0 < size
    → Settles key who.slice_uid size (check_locked key size priority rsv_uid who now g)
unfolding check_locked
check_locked-Settles key size priority rsv_uid who now g pos =
    let h = enter_cohort key size priority now rsv_uid (reap_stale_cohorts now g) in
    if_elim (Settles key who.slice_uid size) (is_released (lookup key h.cohorts)) (bind_allowed, h)
      (admit key size who now h)
      (λ tipped. record {
        binds = λ v. tipped;
        holds = λ v. absurd (cc);
        lets_go = λ v. absurd (cc);
      })
      (λ open_cohort. admit-Settles key size who now h pos)
