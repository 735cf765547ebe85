-- ===== src/Cmd/Scheduler/Following.antt =====
-- cmd/scheduler/main.go: what the slice reconciler does about a slice that is gone, and when it makes a
-- scheduling cycle.
use vgpu_scheduler.Prelude.{◌-◌, ◌≤◌, ◌≡◌, ◌≢◌, String, true, false, none, some, str_eq_iff, arith}
use vgpu_scheduler.Prelude.Dict.{lookup, lookup-delete_self}
use vgpu_scheduler.Api.{VgpuSlice, not_found}
use vgpu_scheduler.Cache.Once.{forget_clears}
use vgpu_scheduler.Cmd.Scheduler.Sweeping.{IsUnheld}
use vgpu_scheduler.Cmd.Scheduler.Slices.{
  TrackedSlice, SliceScheduling, SliceReads, release_on_delete, is_best_effort, is_orphaned,
  is_unplaced, holdback, reconcile_slice,
}

-- The reconcile after the deletion of a slice that was seen drops its record and every hold of its UID,
-- whether assumed or confirmed.
pub deleted-IsUnheld :
    (key : String) (w : SliceReads) (r : SliceScheduling) (t : TrackedSlice)
    → w.slice ≡ not_found
    → lookup key r.tracked ≡ some t
    → t.uid ≢ ""
    → let state = (reconcile_slice key w r).state in
      IsUnheld t.uid state.cache × (lookup key state.tracked ≡ none)
unfolding reconcile_slice release_on_delete
deleted-IsUnheld key w r t gone seen named = ground (
  arith,
  gone,
  seen,
  named,
  str_eq_iff t.uid "",
  forget_clears r.cache t.uid t.node,
  lookup-delete_self key r.tracked,
)

-- When the reconcile of a slice that is there goes on to a cycle.
abbrev pub IsDue : SliceReads → VgpuSlice → Type 0
IsDue w s =
    (is_unplaced s ≡ true)
    × (is_orphaned s w.reservation ≡ false)
    × ((is_best_effort s w.claim ≡ true) → holdback ≤ w.now - s.created_at)
