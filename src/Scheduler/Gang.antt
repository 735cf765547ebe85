-- ===== src/Scheduler/Gang.antt =====
-- internal/scheduler/gang.go: the gate that binds the slices of a gang all or not at all. The reservation
-- is what the API server answers; `now` is the clock, in seconds. A cohort is read again from the gate
-- where the code keeps a pointer to it.
pub mod Admission
pub mod Quorum
pub mod Tipping
mod Examples
use Prim.Native.Nat.{Ordering}
use Prim.Native.String.{compare as compare_text}
use vgpu_scheduler.Prelude.{
  ℕ, ◌+◌, ◌-◌, ◌≡◌, String, Bool, true, false, ◌&&◌, ◌||◌, not, Option, none, some, List, [], ◌∷◌,
  ltb, leb, ◌==◌, str_eq, if◌then◌else◌, length,
}
use vgpu_scheduler.Prelude.Dict.{Dict, lookup, insert, delete, has}

pub record GangMember : Type 0 where
  pub slice_uid : String
  pub node_name : String
  pub bytes : ℕ
  pub held_at : ℕ

pub record GangCohort : Type 0 where
  pub gang_size : ℕ
  pub priority : ℕ
  pub members : Dict GangMember
  pub released : Bool
  pub created_at : ℕ
  pub rsv_uid : String

-- `admitting` is the key of the cohort that has the admission slot, "" where it is free.
pub record GangBindingGate : Type 0 where
  pub cohorts : Dict GangCohort
  pub admitting : String
  pub admitting_since : ℕ
  pub backoff : Dict ℕ

pub data GangCheckResult : Type 0 where
  not_applicable bind_allowed bind_deferred bind_rejected bind_wait gang_retry : GangCheckResult

abbrev pub gate_max_hold_age : ℕ
gate_max_hold_age = 90

abbrev pub gang_admission_timeout : ℕ
gang_admission_timeout = 20

abbrev pub gang_admission_backoff : ℕ
gang_admission_backoff = 15

unfoldable pub new_gate : GangBindingGate
new_gate = record { cohorts = []; admitting = ""; admitting_since = 0; backoff = [] }

-- The cohort leaves the gate, and the slot if it has it.
unfoldable pub forget_cohort : String → GangBindingGate → GangBindingGate
forget_cohort key g = record g {
  cohorts = delete key g.cohorts;
  backoff = delete key g.backoff;
  admitting = if str_eq g.admitting key then "" else g.admitting;
}

unfoldable pub is_stale : ℕ → GangCohort → Bool
is_stale now co = not co.released && ltb gate_max_hold_age (now - co.created_at)

-- The loop of `reapStaleCohortsLocked`, over the cohorts that it finds.
unfoldable pub reap_from : ℕ → Dict GangCohort → GangBindingGate → GangBindingGate
unfolding is_stale forget_cohort
reap_from now [] g = g
reap_from now ((key, co) ∷ rest) g =
    reap_from now rest (if is_stale now co then forget_cohort key g else g)

unfoldable pub reap_stale_cohorts : ℕ → GangBindingGate → GangBindingGate
unfolding reap_from
reap_stale_cohorts now g = reap_from now g.cohorts g

unfoldable pub new_cohort : ℕ → ℕ → ℕ → String → GangCohort
new_cohort gang_size priority now rsv_uid = record {
  gang_size = gang_size;
  priority = priority;
  members = [];
  released = false;
  created_at = now;
  rsv_uid = rsv_uid;
}

abbrev is_other : Option GangCohort → String → Bool
is_other none uid = false
is_other (some co) uid = not (str_eq co.rsv_uid uid)

abbrev refreshed : Option GangCohort → ℕ → ℕ → ℕ → String → GangCohort
refreshed none gang_size priority now uid = new_cohort gang_size priority now uid
refreshed (some co) gang_size priority now uid = record co { priority = priority }

-- The cohort of an earlier reservation of the name is forgotten; then the cohort is made or refreshed.
unfoldable pub enter_cohort : String → ℕ → ℕ → ℕ → String → GangBindingGate → GangBindingGate
unfolding forget_cohort new_cohort
enter_cohort key gang_size priority now uid g =
    let h = (if is_other (lookup key g.cohorts) uid then forget_cohort key g else g) in
    record h {
      cohorts = insert key (refreshed (lookup key h.cohorts) gang_size priority now uid) h.cohorts;
    }

-- A holder of the slot that stalled without members is forgotten; another one is backed off, loses its
-- seniority and its members.
abbrev after_stall : Option GangCohort → ℕ → GangBindingGate → GangBindingGate
after_stall none now g = record g {
  backoff = insert g.admitting (now + gang_admission_backoff) g.backoff;
}
after_stall (some co) now g =
    if length co.members == 0
    then record g { cohorts = delete g.admitting g.cohorts; backoff = delete g.admitting g.backoff }
    else record g {
      backoff = insert g.admitting (now + gang_admission_backoff) g.backoff;
      cohorts =
          insert g.admitting
            (record co { created_at = now; members = if co.released then co.members else [] })
            g.cohorts;
    }

unfoldable pub free_stalled : ℕ → GangBindingGate → GangBindingGate
free_stalled now g =
    if not (str_eq g.admitting "") && ltb gang_admission_timeout (now - g.admitting_since)
    then record (after_stall (lookup g.admitting g.cohorts) now g) { admitting = "" }
    else g

abbrev text_ltb : String → String → Bool
text_ltb a b = elim (compare_text a b) [ Ordering.lt ↦ true | _ ↦ false ]

-- Higher priority, then older, then the smaller key.
unfoldable pub admission_less : GangCohort → String → GangCohort → String → Bool
admission_less a a_key b b_key =
    if a.priority == b.priority
    then (if a.created_at == b.created_at
        then text_ltb a_key b_key
        else ltb a.created_at b.created_at)
    else ltb b.priority a.priority

abbrev in_backoff : ℕ → Option ℕ → Bool
in_backoff now none = false
in_backoff now (some until) = ltb now until

-- Whether a cohort may claim the slot in a check of the caller's slice.
unfoldable pub may_claim : ℕ → String → Dict ℕ → String → GangCohort → Bool
may_claim now caller backoff key co =
    not co.released
    && not (not (str_eq key caller) && length co.members == 0)
    && not (in_backoff now (lookup key backoff))

abbrev beats : String → GangCohort → Option (String × GangCohort) → Bool
beats key co none = true
beats key co (some (best, best_co)) = admission_less co key best_co best

abbrev key_of : Option (String × GangCohort) → String
key_of none = ""
key_of (some (key, co)) = key

-- The loop of `pickAdmissionHeadLocked`; an elapsed backoff is dropped on the way.
unfoldable pub pick_head_from :
    ℕ → String → Option (String × GangCohort) → Dict ℕ → Dict GangCohort → String × Dict ℕ
unfolding may_claim admission_less
pick_head_from now caller best backoff [] = (key_of best, backoff)
pick_head_from now caller best backoff ((key, co) ∷ rest) =
    let claims = may_claim now caller backoff key co in
    let next = (if claims && beats key co best then some (key, co) else best) in
    pick_head_from now caller next (if claims then delete key backoff else backoff) rest

unfoldable pub pick_admission_head : ℕ → String → GangBindingGate → String × Dict ℕ
unfolding pick_head_from
pick_admission_head now caller g = pick_head_from now caller none g.backoff g.cohorts

-- A free slot goes to the head of the contenders, if there is one.
unfoldable pub claim_slot : ℕ → String → GangBindingGate → GangBindingGate
unfolding pick_admission_head
claim_slot now caller g =
    if str_eq g.admitting ""
    then (let (head, backoff) = pick_admission_head now caller g in
        record g {
          admitting = head;
          admitting_since = if str_eq head "" then g.admitting_since else now;
          backoff = backoff;
        })
    else g

abbrev with_cohort :
    Option GangCohort → (GangCohort → GangCohort) → String → GangBindingGate → GangBindingGate
with_cohort none f key g = g
with_cohort (some co) f key g = record g { cohorts = insert key (f co) g.cohorts }

abbrev members_of : Option GangCohort → Dict GangMember
members_of none = []
members_of (some co) = co.members

unfoldable pub drop_member : String → String → GangBindingGate → GangBindingGate
drop_member key uid g =
    with_cohort (lookup key g.cohorts) (λ co. record co { members = delete uid co.members }) key g

unfoldable pub join_member : String → GangMember → GangBindingGate → GangBindingGate
join_member key who g =
    with_cohort (lookup key g.cohorts)
      (λ co. record co { members = insert who.slice_uid who co.members }) key g

-- Quorum: the cohort is released for good and the slot is free.
unfoldable pub release_cohort : String → GangBindingGate → GangBindingGate
release_cohort key g =
    let h = with_cohort (lookup key g.cohorts) (λ co. record co { released = true }) key g in
    record h { admitting = ""; backoff = delete key h.backoff }

-- The slice of the gang that has the slot is registered; enough members release the cohort.
unfoldable pub hold_slot :
    String → ℕ → GangMember → GangBindingGate → GangCheckResult × GangBindingGate
unfolding join_member release_cohort
hold_slot key gang_size who g =
    let h = join_member key who g in
    if leb gang_size (length (members_of (lookup key h.cohorts)))
    then (bind_allowed, release_cohort key h)
    else (bind_deferred, h)

-- The serialized admission, for a cohort that is not released.
unfoldable pub admit :
    String → ℕ → GangMember → ℕ → GangBindingGate → GangCheckResult × GangBindingGate
unfolding free_stalled claim_slot drop_member hold_slot
admit key gang_size who now g =
    let h = claim_slot now key (free_stalled now g) in
    if str_eq h.admitting key
    then hold_slot key gang_size who h
    else (bind_wait, drop_member key who.slice_uid h)

abbrev is_released : Option GangCohort → Bool
is_released none = false
is_released (some co) = co.released

-- The critical section of the check.
unfoldable pub check_locked :
    String → ℕ → ℕ → String → GangMember → ℕ → GangBindingGate → GangCheckResult × GangBindingGate
unfolding reap_stale_cohorts enter_cohort admit
check_locked key gang_size priority uid who now g =
    let h = enter_cohort key gang_size priority now uid (reap_stale_cohorts now g) in
    if is_released (lookup key h.cohorts) then (bind_allowed, h) else admit key gang_size who now h

-- The reservation, as far as the gate reads it.
pub record Reservation : Type 0 where
  pub uid : String
  pub is_terminal : Bool
  pub gang_size : ℕ

pub data ReservationRead : Type 0 where
  found : Reservation → ReservationRead
  not_found unreadable : ReservationRead

-- `CheckSliceWithCohort` for a slice with the reservation's name in its annotations, "" for none.
-- The error of an unreadable reservation comes with `gang_retry`.
unfoldable pub check_slice_with_cohort :
    String
    → String
    → ReservationRead
    → ℕ
    → GangMember
    → ℕ
    → GangBindingGate
    → GangCheckResult × GangBindingGate
unfolding check_locked
check_slice_with_cohort rsv_name key not_found priority who now g =
    (if str_eq rsv_name "" then not_applicable else gang_retry, g)
check_slice_with_cohort rsv_name key unreadable priority who now g =
    (if str_eq rsv_name "" then not_applicable else gang_retry, g)
check_slice_with_cohort rsv_name key (found rsv) priority who now g =
    if str_eq rsv_name ""
    then (not_applicable, g)
    else if rsv.is_terminal
    then (bind_rejected, forget_cohort key g)
    else if rsv.gang_size == 0
    then (not_applicable, g)
    else check_locked key rsv.gang_size priority rsv.uid who now g
