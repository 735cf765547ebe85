-- ===== src/Controller/GangReservation/Children.antt =====
-- internal/controller/vgpugangreservation_reconciler.go: the children of a reservation as the API
-- shows them, and the tally of their slices.
use Prim.Native.String.{◌++◌ as append}
use vgpu_scheduler.Prelude.{
  ℕ, ◌+◌, String, Bool, true, false, List, [], ◌∷◌, if◌then◌else◌, Result, ok, err, ◌>>=◌,
}
use vgpu_scheduler.Prelude.Dict.{Dict, insert}
use vgpu_scheduler.Api.{
  SlicePhase, initial, pending, scheduled, allocating, ready, releasing, released, failed,
  preempting, Read, found, not_found, unreadable,
}

-- A slice: whether its deletion has begun, and its phase.
pub record ChildSlice : Type 0 where
  pub deleting : Bool
  pub phase : SlicePhase

-- What one reader returns for each name in the reservation's namespace. Of a claim and of a job only
-- the deletion timestamp is read.
pub record Cluster : Type 0 where
  pub claim : String → Read Bool
  pub slice : String → Read ChildSlice
  pub job : String → Read Bool

abbrev pub claim_slice : String → String
claim_slice claim_name = append claim_name "-slice"

-- `failed_slots` is set from the scheduling failures when the loop has ended.
pub record SliceTally : Type 0 where
  pub reserved_slots : ℕ
  pub committed_slots : ℕ
  pub failed_slots : ℕ
  pub scheduling_failed_slots : ℕ
  pub tearing_down_slots : ℕ
  pub pending_slots : ℕ
  pub missing_slots : ℕ
  pub per_slice : Dict String

abbrev pub no_slots : SliceTally
no_slots = record {
  reserved_slots = 0;
  committed_slots = 0;
  failed_slots = 0;
  scheduling_failed_slots = 0;
  tearing_down_slots = 0;
  pending_slots = 0;
  missing_slots = 0;
  per_slice = [];
}

-- `t.perSlice[claimName] = state`.
abbrev note : String → String → SliceTally → SliceTally
note claim_name state t = record t { per_slice = insert claim_name state t.per_slice }

-- The `switch` on the phase of a slice that is not being deleted.
unfoldable pub count_phase : SlicePhase → String → SliceTally → SliceTally
count_phase scheduled n t = note n "Reserved" (record t { reserved_slots = t.reserved_slots + 1 })
count_phase allocating n t =
    note n "Allocating" (record t { reserved_slots = t.reserved_slots + 1 })
count_phase ready n t =
    note n "Bound"
      (record t { reserved_slots = t.reserved_slots + 1; committed_slots = t.committed_slots + 1 })
count_phase failed n t =
    note n "Failed" (record t { scheduling_failed_slots = t.scheduling_failed_slots + 1 })
count_phase releasing n t =
    note n "Releasing" (record t { tearing_down_slots = t.tearing_down_slots + 1 })
count_phase released n t =
    note n "Releasing" (record t { tearing_down_slots = t.tearing_down_slots + 1 })
count_phase preempting n t =
    note n "Releasing" (record t { tearing_down_slots = t.tearing_down_slots + 1 })
count_phase pending n t = note n "Pending" (record t { pending_slots = t.pending_slots + 1 })
count_phase initial n t = note n "Pending" (record t { pending_slots = t.pending_slots + 1 })

unfoldable pub count_slice : Read ChildSlice → String → SliceTally → Result (Unit {0}) SliceTally
unfolding count_phase
count_slice not_found n t = ok (note n "Pending" (record t { pending_slots = t.pending_slots + 1 }))
count_slice unreadable n t = err tt
count_slice (found s) n t = ok (
    if s.deleting
    then note n "SliceDeleting" (record t { tearing_down_slots = t.tearing_down_slots + 1 })
    else count_phase s.phase n t)

-- One round of the loop: the claim, then its slice.
unfoldable pub count_child :
    Read Bool → Read ChildSlice → String → SliceTally → Result (Unit {0}) SliceTally
unfolding count_slice
count_child not_found s n t =
    ok (note n "ClaimMissing" (record t { missing_slots = t.missing_slots + 1 }))
count_child unreadable s n t = err tt
count_child (found true) s n t =
    ok (note n "ClaimDeleting" (record t { tearing_down_slots = t.tearing_down_slots + 1 }))
count_child (found false) s n t = count_slice s n t

unfoldable pub count_from : Cluster → List String → SliceTally → Result (Unit {0}) SliceTally
unfolding count_child
count_from api [] t = ok t
count_from api (n ∷ ns) t =
    count_child (api.claim n) (api.slice (claim_slice n)) n t >>= λ t'. count_from api ns t'

-- An object that cannot be read fails the whole tally.
unfoldable pub tally_child_slices : Cluster → List String → Result (Unit {0}) SliceTally
unfolding count_from
tally_child_slices api child_claims = do
  t ← count_from api child_claims no_slots
  ok (record t { failed_slots = t.scheduling_failed_slots })
