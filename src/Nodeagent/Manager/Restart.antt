-- ===== src/Nodeagent/Manager/Restart.antt =====
-- internal/nodeagent/manager.go: the ledger of an agent that starts again.
use vgpu_scheduler.Prelude.{
  ℕ, ◌+◌, ◌≡◌, ◌≢◌, refl, ap, ◌∙◌, String, true, false, none, List, [], ◌∷◌, All, str_eq,
  str_eq_iff, if◌then◌else◌, arith,
}
use vgpu_scheduler.Prelude.Dict.{Dict, lookup, total, Unique, lookup-insert}
use vgpu_scheduler.Nodeagent.Allocator.{
  Allocator, committed_bytes, commit, restore_allocation, new_allocator,
}
use vgpu_scheduler.Nodeagent.Checkpoint.{CheckpointRecord, FileAnswers, records, load_all}
use vgpu_scheduler.Nodeagent.Manager.{restore_all, new_manager}

-- The bytes of a record that are on a card.
abbrev pub recorded_on : String → CheckpointRecord → ℕ
recorded_on uuid r = if str_eq r.device_uuid uuid then r.allocated_bytes else 0

-- A record as Save writes it: under an allocation ID, for a card.
abbrev pub IsSaved : String × CheckpointRecord → Type 0
IsSaved (id, r) = (id ≢ "") × (r.device_uuid ≢ "")

abbrev IsUnheld : Allocator → String × CheckpointRecord → Type 0
IsUnheld al (id, r) = lookup id al.by_alloc ≡ none

restore-by_alloc :
    (al : Allocator) (id uid dev : String) (bytes : ℕ) (j : String)
    → str_eq id j ≡ false
    → lookup j al.by_alloc ≡ none
    → lookup j (restore_allocation id uid dev bytes al).by_alloc ≡ none
unfolding restore_allocation commit
restore-by_alloc al id uid dev bytes j other e = ground (
  arith,
  other,
  e,
  lookup-insert id j (record { slice_uid = uid; device_uuid = dev; bytes = bytes }) al.by_alloc,
)

restore-committed :
    (al : Allocator) (id : String) (r : CheckpointRecord) (uuid : String)
    → IsSaved (id, r)
    → lookup id al.by_alloc ≡ none
    → committed_bytes (restore_allocation id r.slice_uid r.device_uuid r.allocated_bytes al) uuid
      ≡ committed_bytes al uuid + recorded_on uuid r
unfolding restore_allocation commit committed_bytes
restore-committed al id r uuid saved e = ground (
  arith,
  saved,
  e,
  str_eq_iff id "",
  str_eq_iff r.device_uuid "",
  str_eq_iff r.device_uuid uuid,
  lookup-insert r.device_uuid uuid (committed_bytes al r.device_uuid + r.allocated_bytes)
      al.committed,
)

still-IsUnheld :
    (al : Allocator) (id : String) (r : CheckpointRecord) (rs : List (String × CheckpointRecord))
    → lookup id rs ≡ none
    → All (IsUnheld al) rs
    → All (IsUnheld (restore_allocation id r.slice_uid r.device_uuid r.allocated_bytes al)) rs
unfolding lookup
still-IsUnheld al id r [] e h = tt
still-IsUnheld al id r ((j, q) ∷ rs) e h = (
  restore-by_alloc al id r.slice_uid r.device_uuid r.allocated_bytes j
      (ground (arith, e, str_eq_iff id j, str_eq_iff j id)) h.0,
  still-IsUnheld al id r rs (ground (arith, e)) h.1,
)

restore_all-committed :
    (rs : List (String × CheckpointRecord)) (al : Allocator) (uuid : String)
    → Unique rs
    → All IsSaved rs
    → All (IsUnheld al) rs
    → committed_bytes (restore_all rs al) uuid
      ≡ committed_bytes al uuid + total (recorded_on uuid) rs
unfolding restore_all total
restore_all-committed [] al uuid u saved unheld = omega arith
restore_all-committed ((id, r) ∷ rs) al uuid u saved unheld = omega (
  arith,
  restore-committed al id r uuid saved.0 unheld.0,
  restore_all-committed rs (restore_allocation id r.slice_uid r.device_uuid r.allocated_bytes al)
      uuid u.1 saved.1 (still-IsUnheld al id r rs u.0 unheld.1),
)

none_held : (rs : List (String × CheckpointRecord)) → All (IsUnheld new_allocator) rs
unfolding new_allocator lookup
none_held [] = tt
none_held (r ∷ rs) = (refl, none_held rs)

blank : (uuid : String) → committed_bytes new_allocator uuid ≡ 0
unfolding committed_bytes new_allocator lookup
blank uuid = refl

-- An agent that starts with a checkpoint that it can read promises on each card exactly the bytes that
-- the checkpoint records for it, if each record stands once and has an ID and a card, as they are
-- saved.
pub restart_exact :
    (node uuid : String) (fs : FileAnswers) (m : Dict CheckpointRecord) (specs : Dict String)
    → fs.readable ≡ true
    → Unique m
    → All IsSaved m
    → committed_bytes (new_manager node fs (records m) specs).allocator uuid
      ≡ total (recorded_on uuid) m
unfolding new_manager load_all
restart_exact node uuid fs m specs readable u saved =
    let goes : (new_manager node fs (records m) specs).allocator ≡ restore_all m new_allocator =
      ground (arith, readable) in
    ap (λ al. committed_bytes al uuid) goes
    ∙ restore_all-committed m new_allocator uuid u saved (none_held m)
    ∙ ap (λ n. n + total (recorded_on uuid) m) (blank uuid)
    ∙ omega arith
