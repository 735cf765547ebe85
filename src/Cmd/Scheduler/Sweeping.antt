-- ===== src/Cmd/Scheduler/Sweeping.antt =====
-- cmd/scheduler/main.go: what the janitor forgets, and what it leaves.
use vgpu_scheduler.Prelude.{
  ◌≡◌, refl, sym, ap, subst, if_elim, ◌∙◌, String, true, false, none, some, List, [], ◌∷◌,
  if◌then◌else◌, str_eq, str_eq_iff, inl, inr, arith, Bool-cases, Option-cases, List-cases,
}
use vgpu_scheduler.Prelude.Dict.{Dict, lookup, insert, lookup-insert, lookup-delete}
use vgpu_scheduler.Api.{VgpuSlice}
use vgpu_scheduler.Cache.{
  AssumedAllocation, VramCache, credit_reserved, rollback_assumed_slice, release_confirmed_slice,
  forget_slice, track_holds, track_nodes, tracked_slice_uids,
}
use vgpu_scheduler.Cache.Once.{forget_clears, release_once_frame}
use vgpu_scheduler.Cache.Ledger.{update_at_frame}
use vgpu_scheduler.Cache.Calls.{run}
use vgpu_scheduler.Cmd.Scheduler.Nodes.{lives, forget_dead, janitor_sweep}

-- The two caches hold the same for a slice.
abbrev pub SameHold : String → VramCache → VramCache → Type 0
SameHold u c d =
    (lookup u d.assumed ≡ lookup u c.assumed) × (lookup u d.confirmed ≡ lookup u c.confirmed)

rollback-SameHold :
    (c : VramCache) (uid u : String)
    → str_eq uid u ≡ false
    → SameHold u c (rollback_assumed_slice c uid)
unfolding rollback_assumed_slice
rollback-SameHold c uid u other = elim (Option-cases (lookup uid c.assumed)) [
  | inl e ↦ ground arith
  | inr (a, e) ↦
      ground
        (arith, update_at_frame a.node (credit_reserved a.bytes) c, lookup-delete uid u c.assumed)
]

release_confirmed-SameHold :
    (c : VramCache) (uid u : String)
    → str_eq uid u ≡ false
    → SameHold u c (release_confirmed_slice c uid)
unfolding release_confirmed_slice
release_confirmed-SameHold c uid u other = elim (Option-cases (lookup uid c.confirmed)) [
  | inl e ↦ ground arith
  | inr (a, e) ↦
      ground
        (arith, update_at_frame a.node (credit_reserved a.bytes) c, lookup-delete uid u c.confirmed)
]

forget-SameHold :
    (c : VramCache) (uid name u : String)
    → str_eq uid u ≡ false
    → SameHold u c (forget_slice c uid name)
unfolding forget_slice
forget-SameHold c uid name u other =
    let rolled = rollback_assumed_slice c uid in
    ground (
      arith,
      rollback-SameHold c uid u other,
      release_confirmed-SameHold rolled uid u other,
      release_once_frame (release_confirmed_slice rolled uid) uid name,
    )

-- A slice without an assumed and without a confirmed hold.
abbrev pub IsUnheld : String → VramCache → Type 0
IsUnheld u c = (lookup u c.assumed ≡ none) × (lookup u c.confirmed ≡ none)

-- Forgetting any slice holds nothing new.
forget-IsUnheld :
    (c : VramCache) (uid name u : String) → IsUnheld u c → IsUnheld u (forget_slice c uid name)
forget-IsUnheld c uid name u h = elim (Bool-cases (str_eq uid u)) [
  | inr other ↦ ground (arith, forget-SameHold c uid name u other)
  | inl same ↦
      let e = (str_eq_iff uid u).0 same in
      let gone = forget_clears c uid name in
      (
        ap (λ k. lookup k (forget_slice c uid name).assumed) (sym e) ∙ gone.0,
        ap (λ k. lookup k (forget_slice c uid name).confirmed) (sym e) ∙ gone.1,
      )
]

forget_dead-IsUnheld :
    (slices : List VgpuSlice) (tracked : Dict String) (c : VramCache) (u : String)
    → IsUnheld u c
    → IsUnheld u (forget_dead slices tracked c)
unfolding forget_dead
forget_dead-IsUnheld slices [] c u h = h
forget_dead-IsUnheld slices ((uid, node) ∷ rest) c u h =
    forget_dead-IsUnheld slices rest (if lives uid slices then c else forget_slice c uid node) u (
      if_elim (IsUnheld u) (lives uid slices) c (forget_slice c uid node) (λ _. h)
        (λ _. forget-IsUnheld c uid node u h))

-- A tracked slice without an object is forgotten.
forget_dead-dead :
    (slices : List VgpuSlice) (tracked : Dict String) (c : VramCache) (u node : String)
    → lives u slices ≡ false
    → lookup u tracked ≡ some node
    → IsUnheld u (forget_dead slices tracked c)
unfolding forget_dead lookup
forget_dead-dead slices [] c u node dead e = absurd (cc)
forget_dead-dead slices ((uid, n) ∷ rest) c u node dead e = elim (Bool-cases (str_eq uid u)) [
  | inl same ↦
      let k = (str_eq_iff uid u).0 same in
      let gone = forget_clears c uid n in
      forget_dead-IsUnheld slices rest (if lives uid slices then c else forget_slice c uid n) u (
        subst (λ w. IsUnheld w (if lives uid slices then c else forget_slice c uid n)) k
          (rw (ap (λ w. lives w slices) k ∙ dead) (gone.0, gone.1)))
  | inr other ↦
      forget_dead-dead slices rest (if lives uid slices then c else forget_slice c uid n) u node
        dead (rw other at e)
]

distinct :
    (a b : String) (slices : List VgpuSlice)
    → lives a slices ≡ false
    → lives b slices ≡ true
    → str_eq a b ≡ false
distinct a b slices dead alive = elim (Bool-cases (str_eq a b)) [
  | inr other ↦ other
  | inl same ↦
      let clash : false ≡ true =
        sym dead ∙ ap (λ w. lives w slices) ((str_eq_iff a b).0 same) ∙ alive in
      absurd (cc)
]

-- A slice with an object keeps its holds.
forget_dead-live :
    (slices : List VgpuSlice) (tracked : Dict String) (c : VramCache) (u : String)
    → lives u slices ≡ true
    → SameHold u c (forget_dead slices tracked c)
unfolding forget_dead
forget_dead-live slices [] c u alive = (refl, refl)
forget_dead-live slices ((uid, n) ∷ rest) c u alive =
    let d = if lives uid slices then c else forget_slice c uid n in
    let now : SameHold u c d =
      if_elim (SameHold u c) (lives uid slices) c (forget_slice c uid n) (λ _. (refl, refl))
        (λ dead. forget-SameHold c uid n u (distinct uid u slices dead alive)) in
    let later = forget_dead-live slices rest d u alive in (later.0 ∙ now.0, later.1 ∙ now.1)

track_holds-none :
    (u : String) (holds : Dict AssumedAllocation) (out : Dict String)
    → lookup u (track_holds holds out) ≡ none
    → (lookup u holds ≡ none) × (lookup u out ≡ none)
unfolding track_holds lookup
track_holds-none u [] out e = (refl, e)
track_holds-none u ((uid, a) ∷ rest) out e =
    ground (arith, track_holds-none u rest (insert uid a.node out), lookup-insert uid u a.node out)

track_nodes-none :
    (u : String) (nodes : Dict String) (out : Dict String)
    → lookup u (track_nodes nodes out) ≡ none
    → lookup u out ≡ none
unfolding track_nodes
track_nodes-none u [] out e = e
track_nodes-none u ((uid, n) ∷ rest) out e =
    ground (arith, track_nodes-none u rest (insert uid n out), lookup-insert uid u n out)

untracked : (u : String) (c : VramCache) → lookup u (tracked_slice_uids c) ≡ none → IsUnheld u c
unfolding tracked_slice_uids
untracked u c e =
    let held = track_nodes-none u c.allocated_node _ e in
    let confirmed = track_holds-none u c.confirmed (track_holds c.assumed []) held in
    let assumed = track_holds-none u c.assumed [] confirmed.1 in (assumed.0, confirmed.0)

sweep-eq-forget :
    (slices : List VgpuSlice) (c : VramCache)
    → janitor_sweep (some slices) [] c ≡ forget_dead slices (tracked_slice_uids c) c
unfolding janitor_sweep forget_dead run
sweep-eq-forget slices c = elim (List-cases (tracked_slice_uids c)) [
  | inl e ↦ rw (janitor_sweep, e) refl
  | inr (entry, more, e) ↦ rw (janitor_sweep, e) refl
]

-- A tick of the janitor that lists the slices, while no other goroutine calls the cache, leaves a
-- slice that exists with its assumed and confirmed holds as they were, and any other without a hold.
pub janitor_exact :
    (slices : List VgpuSlice) (c : VramCache) (uid : String)
    → (lives uid slices ≡ true → SameHold uid c (janitor_sweep (some slices) [] c))
      × (lives uid slices ≡ false → IsUnheld uid (janitor_sweep (some slices) [] c))
janitor_exact slices c uid =
    let same = sym (sweep-eq-forget slices c) in
    let tracked = tracked_slice_uids c in
    (
      λ alive. subst (SameHold uid c) same (forget_dead-live slices tracked c uid alive),
      λ dead. subst (IsUnheld uid) same (elim (Option-cases (lookup uid tracked)) [
        | inl e ↦ forget_dead-IsUnheld slices tracked c uid (untracked uid c e)
        | inr (node, e) ↦ forget_dead-dead slices tracked c uid node dead e
      ]),
    )
