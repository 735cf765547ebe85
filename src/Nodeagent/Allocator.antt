-- ===== src/Nodeagent/Allocator.antt =====
-- internal/nodeagent/nvml/allocator.go: the placement of slices on the cards of a node. The devices are
-- what the enumeration answers, `none` for an error; the allocation ID, which the code makes from the
-- slice's UID and the clock, is an argument.
pub mod Ledger
pub mod Placement
pub mod Repeats
use vgpu_scheduler.Prelude.{
  ℕ, ◌+◌, ◌-◌, ◌≡◌, String, Bool, true, false, ◌&&◌, ◌||◌, not, Option, none, some, List, [], ◌∷◌,
  ltb, leb, ◌==◌, str_eq, if◌then◌else◌, Result, ok, err, guard, or_fail, ◌>>=◌, ◌>>◌,
}
use vgpu_scheduler.Prelude.Dict.{Dict, lookup, insert, delete, has}

pub record AllocDevice : Type 0 where
  pub uuid : String
  pub total : ℕ
  pub reserved : ℕ

pub record LedgerEntry : Type 0 where
  pub slice_uid : String
  pub device_uuid : String
  pub bytes : ℕ

pub record Allocator : Type 0 where
  pub initialized : Bool
  pub committed : Dict ℕ
  pub by_alloc : Dict LedgerEntry
  pub by_slice : Dict String

pub record AllocationResult : Type 0 where
  pub allocation_id : String
  pub device_uuid : String
  pub allocated_bytes : ℕ

pub data AllocateError : Type 0 where
  not_initialised missing_slice_uid vram_not_positive enumeration_failed : AllocateError
  fragmentation : (requested node_free : ℕ) → AllocateError

unfoldable pub new_allocator : Allocator
new_allocator = record { initialized = true; committed = []; by_alloc = []; by_slice = [] }

abbrev or_zero : Option ℕ → ℕ
or_zero none = 0
or_zero (some n) = n

unfoldable pub committed_bytes : Allocator → String → ℕ
committed_bytes a uuid = or_zero (lookup uuid a.committed)

-- What a card has left: its total without the driver's share and the promised bytes.
unfoldable pub available : Allocator → AllocDevice → ℕ
unfolding committed_bytes
available a d = d.total - d.reserved - committed_bytes a d.uuid

-- `bestAvail < 0 || avail < bestAvail`, with `none` for the initial -1.
abbrev pub improves : ℕ → Option ℕ → Bool
improves avail none = true
improves avail (some best) = ltb avail best

-- The loop of `pickBestFitLocked`, by the best card so far and the free bytes of the node.
unfoldable pub pick_from :
    Allocator → ℕ → String → Option ℕ → ℕ → List AllocDevice → Result AllocateError String
unfolding available
pick_from a requested best best_avail node_free [] =
    if str_eq best "" then err (fragmentation requested node_free) else ok best
pick_from a requested best best_avail node_free (d ∷ ds) =
    let avail = available a d in
    let found = leb requested avail && improves avail best_avail in
    pick_from a requested (if found then d.uuid else best)
      (if found then some avail else best_avail) (node_free + avail) ds

unfoldable pub pick_best_fit : Allocator → List AllocDevice → ℕ → Result AllocateError String
unfolding pick_from
pick_best_fit a devices requested = pick_from a requested "" none 0 devices

-- The promise of bytes on a card, in the ledger and in its two indexes.
unfoldable pub commit : String → String → String → ℕ → Allocator → Allocator
unfolding committed_bytes
commit alloc_id slice_uid device_uuid bytes a = record a {
  committed = insert device_uuid (committed_bytes a device_uuid + bytes) a.committed;
  by_alloc =
      insert alloc_id (record { slice_uid = slice_uid; device_uuid = device_uuid; bytes = bytes })
        a.by_alloc;
  by_slice = if str_eq slice_uid "" then a.by_slice else insert slice_uid alloc_id a.by_slice;
}

-- Go's read of a missing entry is the zero value.
abbrev entry_or_empty : Option LedgerEntry → LedgerEntry
entry_or_empty none = record { slice_uid = ""; device_uuid = ""; bytes = 0 }
entry_or_empty (some e) = e

unfoldable pub recall : Allocator → String → AllocationResult
recall a prior =
    let e = entry_or_empty (lookup prior a.by_alloc) in
    record { allocation_id = prior; device_uuid = e.device_uuid; allocated_bytes = e.bytes }

-- The critical section of `Allocate`.
unfoldable pub allocate_locked :
    Allocator
    → List AllocDevice
    → String
    → String
    → ℕ
    → Result AllocateError (AllocationResult × Allocator)
unfolding recall pick_best_fit commit
allocate_locked a devices alloc_id slice_uid requested = elim (lookup slice_uid a.by_slice) [
  | some prior ↦ ok (recall a prior, a)
  | none ↦ do
    uuid ← pick_best_fit a devices requested
    ok (
      record { allocation_id = alloc_id; device_uuid = uuid; allocated_bytes = requested },
      commit alloc_id slice_uid uuid requested a,
    )
]

unfoldable pub allocate :
    Allocator
    → Option (List AllocDevice)
    → String
    → String
    → ℕ
    → Result AllocateError (AllocationResult × Allocator)
unfolding allocate_locked
allocate a devices alloc_id slice_uid requested = do
  guard a.initialized not_initialised
  guard (not (str_eq slice_uid "")) missing_slice_uid
  guard (ltb 0 requested) vram_not_positive
  ds ← or_fail devices enumeration_failed
  allocate_locked a ds alloc_id slice_uid requested

-- `releaseLocked`: a card without promised bytes is dropped.
unfoldable pub debit : String → ℕ → Allocator → Dict ℕ
unfolding committed_bytes
debit uuid bytes a =
    let left = committed_bytes a uuid - bytes in
    if left == 0 then delete uuid a.committed else insert uuid left a.committed

unfoldable pub release_locked : String → Allocator → Allocator
unfolding debit
release_locked alloc_id a = elim (lookup alloc_id a.by_alloc) [
  | none ↦ a
  | some e ↦ record a {
    committed = debit e.device_uuid e.bytes a;
    by_alloc = delete alloc_id a.by_alloc;
    by_slice = if str_eq e.slice_uid "" then a.by_slice else delete e.slice_uid a.by_slice;
  }
]

unfoldable pub release : Allocator → String → Result AllocateError Allocator
unfolding release_locked
release a alloc_id = do
  guard a.initialized not_initialised
  ok (if str_eq alloc_id "" then a else release_locked alloc_id a)

abbrev release_found : Allocator → Option String → String × Allocator
release_found a none = ("", a)
release_found a (some alloc_id) = (alloc_id, release_locked alloc_id a)

unfoldable pub release_by_slice : Allocator → String → Result AllocateError (String × Allocator)
unfolding release_locked
release_by_slice a slice_uid = do
  guard a.initialized not_initialised
  ok (if str_eq slice_uid "" then ("", a) else release_found a (lookup slice_uid a.by_slice))

unfoldable pub restore_allocation : String → String → String → ℕ → Allocator → Allocator
unfolding commit
restore_allocation alloc_id slice_uid device_uuid bytes a =
    if str_eq alloc_id "" || str_eq device_uuid "" || bytes == 0
    then a
    else if has alloc_id a.by_alloc
    then a
    else commit alloc_id slice_uid device_uuid bytes a
