-- ===== src/Controller/GangReservation/Counts.antt =====
-- internal/controller/vgpugangreservation_reconciler.go: what the counters of the tally count.
use vgpu_scheduler.Prelude.{
  ℕ, ◌+◌, ◌≤◌, ◌≡◌, String, Bool, true, false, List, [], ◌∷◌, length, keep, length-keep_nil,
  length-keep_cons, if◌then◌else◌, ok, err, inl, inr, arith, Result-cases,
}
use vgpu_scheduler.Api.{
  SlicePhase, initial, pending, scheduled, allocating, ready, releasing, released, failed,
  preempting, Read, found, not_found, unreadable,
}
use vgpu_scheduler.Controller.GangReservation.Children.{
  ChildSlice, Cluster, SliceTally, claim_slice, no_slots, count_phase, count_slice, count_child,
  count_from, tally_child_slices,
}

-- A child in a phase: its claim and its slice are there, neither is being deleted, and the test
-- accepts the slice's phase.
abbrev pub child_in : (SlicePhase → Bool) → Read Bool → Read ChildSlice → Bool
child_in p (found false) (found s) = if s.deleting then false else p s.phase
child_in p _ _ = false

abbrev pub is_in : (SlicePhase → Bool) → Cluster → String → Bool
is_in p api n = child_in p (api.claim n) (api.slice (claim_slice n))

abbrev pub is_ready : SlicePhase → Bool
is_ready ready = true
is_ready _ = false

abbrev pub is_failed : SlicePhase → Bool
is_failed failed = true
is_failed _ = false

abbrev one : Bool → ℕ
one b = if b then 1 else 0

-- What one round adds to the counters.
record Counted (bound broken : Bool) (t u : SliceTally) : Type 0 where
  every :
      u.reserved_slots + u.scheduling_failed_slots + u.tearing_down_slots + u.pending_slots
        + u.missing_slots
      ≡ t.reserved_slots + t.scheduling_failed_slots + t.tearing_down_slots + t.pending_slots
        + t.missing_slots + 1
  committed : u.committed_slots ≡ t.committed_slots + one bound
  broken_slots : u.scheduling_failed_slots ≡ t.scheduling_failed_slots + one broken
  within : u.committed_slots + t.reserved_slots ≤ u.reserved_slots + t.committed_slots

count_phase-Counted :
    (p : SlicePhase) (n : String) (t : SliceTally)
    → Counted (is_ready p) (is_failed p) t (count_phase p n t)
unfolding count_phase
count_phase-Counted initial n t = ground arith
count_phase-Counted pending n t = ground arith
count_phase-Counted scheduled n t = ground arith
count_phase-Counted allocating n t = ground arith
count_phase-Counted ready n t = ground arith
count_phase-Counted releasing n t = ground arith
count_phase-Counted released n t = ground arith
count_phase-Counted failed n t = ground arith
count_phase-Counted preempting n t = ground arith

count_slice-Counted :
    (s : ChildSlice) (n : String) (t : SliceTally) (u : SliceTally)
    → count_slice (found s) n t ≡ ok u
    → Counted
        (child_in is_ready (found false) (found s))
        (child_in is_failed (found false) (found s))
        t
        u
unfolding count_slice
count_slice-Counted s n t u e = ground (arith, count_phase-Counted s.phase n t)

count_child-Counted :
    (c : Read Bool) (s : Read ChildSlice) (n : String) (t u : SliceTally)
    → count_child c s n t ≡ ok u
    → Counted (child_in is_ready c s) (child_in is_failed c s) t u
unfolding count_child count_slice
count_child-Counted not_found s n t u e = ground arith
count_child-Counted unreadable s n t u e = absurd (cc)
count_child-Counted (found true) s n t u e = ground arith
count_child-Counted (found false) not_found n t u e = ground arith
count_child-Counted (found false) unreadable n t u e = absurd (cc)
count_child-Counted (found false) (found s) n t u e = count_slice-Counted s n t u e

abbrev slots : SliceTally → ℕ
slots t =
    t.reserved_slots + t.scheduling_failed_slots + t.tearing_down_slots + t.pending_slots
    + t.missing_slots

-- What the loop adds to the counters.
record Tallied (api : Cluster) (ns : List String) (t u : SliceTally) : Type 0 where
  every : slots u ≡ slots t + length ns
  committed : u.committed_slots ≡ t.committed_slots + length (keep (is_in is_ready api) ns)
  broken :
      u.scheduling_failed_slots ≡ t.scheduling_failed_slots + length (keep (is_in is_failed api) ns)
  within : u.committed_slots + t.reserved_slots ≤ u.reserved_slots + t.committed_slots

count_from-Tallied :
    (api : Cluster) (ns : List String) (t u : SliceTally)
    → count_from api ns t ≡ ok u
    → Tallied api ns t u
unfolding count_from
count_from-Tallied api [] t u e =
    ground (arith, length-keep_nil (is_in is_ready api), length-keep_nil (is_in is_failed api))
count_from-Tallied api (n ∷ ns) t u e =
    elim (Result-cases (count_child (api.claim n) (api.slice (claim_slice n)) n t)) [
      | inr (x, r) ↦ absurd (let stop : err tt ≡ ok u = (rw r at e) in cc)
      | inl (t', r) ↦
          let here = count_child-Counted (api.claim n) (api.slice (claim_slice n)) n t t' r in
          let rest = count_from-Tallied api ns t' u (rw r at e) in
          record {
            every = omega (arith, here.every, rest.every);
            committed =
                omega (
                  arith,
                  here.committed,
                  rest.committed,
                  length-keep_cons (is_in is_ready api) n ns,
                );
            broken = omega (
              arith,
              here.broken_slots,
              rest.broken,
              length-keep_cons (is_in is_failed api) n ns,
            );
            within = omega (arith, here.within, rest.within);
          }
    ]

-- The tally of readable children: every child is in exactly one of the five counts, the committed
-- slots are the children that are bound, the failed slots are those whose slice has failed, and no
-- more slots are committed than reserved.
pub tally_exact :
    (api : Cluster) (child_claims : List String) (t : SliceTally)
    → tally_child_slices api child_claims ≡ ok t
    → (t.reserved_slots + t.scheduling_failed_slots + t.tearing_down_slots + t.pending_slots
          + t.missing_slots
        ≡ length child_claims)
      × (t.committed_slots ≡ length (keep (is_in is_ready api) child_claims))
      × (t.failed_slots ≡ length (keep (is_in is_failed api) child_claims))
      × (t.failed_slots ≡ t.scheduling_failed_slots)
      × (t.committed_slots ≤ t.reserved_slots)
unfolding tally_child_slices
tally_exact api ns t e = elim (Result-cases (count_from api ns no_slots)) [
  | inr (x, r) ↦ absurd (let stop : err x ≡ ok t = (rw r at e) in cc)
  | inl (u, r) ↦
      let done = count_from-Tallied api ns no_slots u r in
      let same : ok (record u { failed_slots = u.scheduling_failed_slots }) ≡ ok t = (rw r at e) in
      ground (arith, same, done.every, done.committed, done.broken, done.within)
]
