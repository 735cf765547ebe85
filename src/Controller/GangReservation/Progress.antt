-- ===== src/Controller/GangReservation/Progress.antt =====
-- internal/controller/vgpugangreservation_reconciler.go: the teardown of a failed reservation goes on
-- until its children are gone, and then ends.
use vgpu_scheduler.Prelude.{
  ◌≡◌, refl, String, Bool, false, List, [], ◌∷◌, All, ok, inl, arith, All-map, Has, Has-append_left,
  Has-append_right,
}
use vgpu_scheduler.Api.{found}
use vgpu_scheduler.Controller.GangReservation.Children.{Cluster, SliceTally, tally_child_slices}
use vgpu_scheduler.Controller.GangReservation.Phases.{GangReservation, failed}
use vgpu_scheduler.Controller.GangReservation.Teardown.{
  Deletion, delete_job, claim_job, tear_down_child, tear_down_children, all_gone,
}
use vgpu_scheduler.Controller.GangReservation.Reconcile.{
  Answers, continue_teardown, reconcile_found, reconcile,
}

-- The delete of a child's job, if the job is there and not being deleted yet.
abbrev pub IsAsked : Cluster → List Deletion → String → Type 0
IsAsked api deletions n =
    api.job (claim_job n) ≡ found false → Has (delete_job (claim_job n)) deletions

tear_down_covers :
    (api : Cluster) (refused : Deletion → Bool) (ns : List String)
    → All (IsAsked api (tear_down_children api refused ns).0) ns
unfolding tear_down_children
tear_down_covers api refused [] = tt
tear_down_covers api refused (n ∷ ns) =
    let (first, e) = tear_down_child api refused (api.job (claim_job n)) n in
    let (rest, e') = tear_down_children api refused ns in
    (
      λ e.
          Has-append_left (delete_job (claim_job n)) first rest
            (rw e (unfold tear_down_child in inl refl)),
      All-map ns (λ m h e. Has-append_right (delete_job (claim_job m)) first rest (h e))
          (tear_down_covers api refused ns),
    )

module _ (a : Answers) (rsv : GangReservation) (t : SliceTally) (there : a.reservation ≡ found rsv)
    (kept : rsv.deleting ≡ false) (over : rsv.phase ≡ failed)
    (counted : tally_child_slices a.children rsv.child_claims ≡ ok t) where
  runs : reconcile a ≡ continue_teardown a rsv t
  unfolding reconcile reconcile_found
  runs = rw (reconcile, there) (rw (reconcile_found, kept, counted) (ground (arith, over)))

  -- A reconcile of a Failed reservation with a child left asks for the delete of the job of every child
  -- whose job is there and not being deleted, whatever the other reads and deletes answer, and is
  -- repeated after three seconds, whatever the status write answers.
  pub teardown_goes_on :
      all_gone a.at_check rsv.child_claims ≡ false
      → All (IsAsked a.at_teardown (reconcile a).deletions) rsv.child_claims
        × ((reconcile a).result ≡ ok 3000)
  unfolding continue_teardown
  teardown_goes_on left =
      rw (runs, continue_teardown, left)
        (tear_down_covers a.at_teardown a.refuses rsv.child_claims, refl)
