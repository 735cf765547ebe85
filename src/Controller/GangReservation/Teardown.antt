-- ===== src/Controller/GangReservation/Teardown.antt =====
-- internal/controller/vgpugangreservation_reconciler.go: the rollback of a reservation, as the list of
-- the objects that it deletes. Every delete is in the foreground.
use Prim.Native.String.{String}
use vgpu_scheduler.Prelude.{
  Bool, true, false, ◌&&◌, ◌||◌, List, [], ◌∷◌, ◌++◌, str_eq, if◌then◌else◌,
}
use vgpu_scheduler.Api.{Read, found, not_found, unreadable}
use vgpu_scheduler.Controller.GangReservation.Children.{ChildSlice, Cluster, claim_slice}

pub data Deletion : Type 0 where
  delete_job delete_claim delete_slice : String → Deletion

-- The claim's name without its suffix "-claim"; a name that is no longer than the suffix stays.
unfoldable pub claim_job : String → String
claim_job String.[] = ""
claim_job (String.◌∷◌ c s) =
    if str_eq s "-claim" then String.◌∷◌ c "" else String.◌∷◌ c (claim_job s)

abbrev orphan_claim : Read Bool → String → List Deletion
orphan_claim (found false) name = delete_claim name ∷ []
orphan_claim (found true) name = []
orphan_claim not_found name = []
orphan_claim unreadable name = []

abbrev orphan_slice : Read ChildSlice → String → List Deletion
orphan_slice (found s) name = if s.deleting then [] else delete_slice name ∷ []
orphan_slice not_found name = []
orphan_slice unreadable name = []

-- The claim or slice that lingers although its job is gone.
unfoldable pub cleanup_orphans : Cluster → String → List Deletion
cleanup_orphans api claim_name =
    orphan_claim (api.claim claim_name) claim_name
    ++ orphan_slice (api.slice (claim_slice claim_name)) (claim_slice claim_name)

-- One round of the loop, by what the read of the job returns: the deletes, and whether it failed.
-- `refused` says which deletes the API refuses for another reason than a missing object.
unfoldable pub tear_down_child :
    Cluster → (Deletion → Bool) → Read Bool → String → List Deletion × Bool
unfolding cleanup_orphans claim_job
tear_down_child api refused not_found claim_name = (cleanup_orphans api claim_name, false)
tear_down_child api refused unreadable claim_name = ([], true)
tear_down_child api refused (found true) claim_name = ([], false)
tear_down_child api refused (found false) claim_name =
    let deletion = delete_job (claim_job claim_name) in (deletion ∷ [], refused deletion)

unfoldable pub tear_down_children : Cluster → (Deletion → Bool) → List String → List Deletion × Bool
unfolding tear_down_child
tear_down_children api refused [] = ([], false)
tear_down_children api refused (n ∷ ns) =
    let (here, failed) = tear_down_child api refused (api.job (claim_job n)) n in
    let (rest, failed') = tear_down_children api refused ns in (here ++ rest, failed || failed')

abbrev pub is_gone : {A : Type 0} → Read A → Bool
is_gone not_found = true
is_gone _ = false

-- Whether neither a claim nor a slice of any child is left; a failed read is no absence.
unfoldable pub all_gone : Cluster → List String → Bool
all_gone api [] = true
all_gone api (n ∷ ns) =
    is_gone (api.claim n) && is_gone (api.slice (claim_slice n)) && all_gone api ns
