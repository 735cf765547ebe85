-- ===== src/Nodeagent/Allocator/Repeats.antt =====
-- allocator.go: what an allocation does to the ledger, and retries and releases after it.
use vgpu_scheduler.Prelude.{
  ℕ, ◌+◌, ◌-◌, ◌≡◌, ◌≢◌, ◌≤◌, ◌<◌, refl, sym, ap, ◌∙◌, subst, String, true, none, some, List,
  str_eq, str_eq_iff, str_eq_refl, if◌then◌else◌, ok, arith, inl, inr,
}
use vgpu_scheduler.Prelude.Dict.{lookup, lookup-insert, lookup-insert_self, lookup-delete}
use vgpu_scheduler.Nodeagent.Allocator.{
  AllocDevice, LedgerEntry, Allocator, AllocationResult, committed_bytes, available, pick_best_fit,
  commit, recall, allocate, allocate_locked, debit, release_locked, release_by_slice,
}
use vgpu_scheduler.Nodeagent.Allocator.Ledger.{allocate-eq-ok}
use vgpu_scheduler.Nodeagent.Allocator.Placement.{In, pick_none-ok}

committed-commit :
    (a : Allocator) (alloc_id slice_uid uuid other : String) (bytes : ℕ)
    → committed_bytes (commit alloc_id slice_uid uuid bytes a) other
      ≡ (if str_eq uuid other then committed_bytes a uuid + bytes else committed_bytes a other)
unfolding commit committed_bytes
committed-commit a alloc_id slice_uid uuid other bytes =
    ground (arith, lookup-insert uuid other (committed_bytes a uuid + bytes) a.committed)

-- What a fresh allocation found and did.
allocate-fresh :
    (a b : Allocator) (devices : List AllocDevice) (alloc_id slice_uid : String) (bytes : ℕ)
    (r : AllocationResult)
    → lookup slice_uid a.by_slice ≡ none
    → allocate a (some devices) alloc_id slice_uid bytes ≡ ok (r, b)
    → (a.initialized ≡ true)
      × (slice_uid ≢ "")
      × (pick_best_fit a devices bytes ≡ ok r.device_uuid)
      × (0 < bytes)
      × (r ≡ record {
        allocation_id = alloc_id;
        device_uuid = r.device_uuid;
        allocated_bytes = bytes;
      })
      × (b ≡ commit alloc_id slice_uid r.device_uuid bytes a)
allocate-fresh a b devices alloc_id slice_uid bytes r new e =
    let (init, named, pos, (ds, same_ds, alt)) =
      allocate-eq-ok a b (some devices) alloc_id slice_uid bytes r e in
    elim alt [
      | inl (prior, p, same, kept) ↦ absurd (ground (arith, p, new))
      | inr (p, u, same, is_new) ↦
          let ds≡devices : ds ≡ devices = ground (arith, same_ds) in
          (
            init,
            named,
            subst (λ l. pick_best_fit a l bytes ≡ ok r.device_uuid) ds≡devices u,
            pos,
            same,
            is_new,
          )
    ]

-- An allocation for a slice that has none yet leaves the promised bytes of its card, with what the
-- driver keeps, within the card's total.
pub allocate_no_overcommit :
    (a b : Allocator) (devices : List AllocDevice) (alloc_id slice_uid : String) (bytes : ℕ)
    (r : AllocationResult)
    → lookup slice_uid a.by_slice ≡ none
    → allocate a (some devices) alloc_id slice_uid bytes ≡ ok (r, b)
    → (d : AllocDevice) × In d devices
      × (d.uuid ≡ r.device_uuid)
      × (committed_bytes b d.uuid ≡ committed_bytes a d.uuid + bytes)
      × (d.reserved + committed_bytes b d.uuid ≤ d.total)
allocate_no_overcommit a b devices alloc_id slice_uid bytes r new e =
    let (init, named, u, pos, same, is_new) =
      allocate-fresh a b devices alloc_id slice_uid bytes r new e in
    let (fit, where_fit) =
      pick_none-ok a bytes 0 devices r.device_uuid (unfold pick_best_fit in u) in
    let grown = committed-commit a alloc_id slice_uid r.device_uuid fit.card.uuid bytes in
    let now : committed_bytes b fit.card.uuid ≡ committed_bytes a fit.card.uuid + bytes =
      ap (λ z. committed_bytes z fit.card.uuid) is_new
      ∙ (ground (arith, grown, fit.named, str_eq_iff r.device_uuid fit.card.uuid)) in
    let fits : bytes ≤ fit.card.total - fit.card.reserved - committed_bytes a fit.card.uuid =
      unfold available in fit.fits in
    (fit.card, where_fit, fit.named, now, omega (arith, now, fits, pos))

allocate-known :
    (a : Allocator) (devices : List AllocDevice) (alloc_id slice_uid prior : String) (bytes : ℕ)
    → a.initialized ≡ true
    → slice_uid ≢ ""
    → 0 < bytes
    → lookup slice_uid a.by_slice ≡ some prior
    → allocate a (some devices) alloc_id slice_uid bytes ≡ ok (recall a prior, a)
unfolding allocate allocate_locked
allocate-known a devices alloc_id slice_uid prior bytes init named pos p =
    ground (arith, init, pos, p, str_eq_iff slice_uid "")

-- What the indexes of the ledger say after a commitment.
commit-indexes :
    (a : Allocator) (alloc_id slice_uid uuid : String) (bytes : ℕ)
    → slice_uid ≢ ""
    → let b = commit alloc_id slice_uid uuid bytes a in
      (lookup slice_uid b.by_slice ≡ some alloc_id)
      × (lookup alloc_id b.by_alloc
          ≡ some (record { slice_uid = slice_uid; device_uuid = uuid; bytes = bytes }))
      × (recall b alloc_id
          ≡ record { allocation_id = alloc_id; device_uuid = uuid; allocated_bytes = bytes })
      × (b.initialized ≡ a.initialized)
unfolding commit recall
commit-indexes a alloc_id slice_uid uuid bytes named =
    let entry : LedgerEntry = record { slice_uid = slice_uid; device_uuid = uuid; bytes = bytes } in
    let found = lookup-insert_self alloc_id entry a.by_alloc in
    (
      ground (arith, str_eq_iff slice_uid "", lookup-insert_self slice_uid alloc_id a.by_slice),
      found,
      ground (arith, found),
      refl,
    )

-- A retry returns the allocation that the slice has already, whatever it asks for, and changes nothing.
pub allocate_twice :
    (a b : Allocator) (devices devices' : List AllocDevice) (alloc_id alloc_id' slice_uid : String)
    (bytes bytes' : ℕ) (r : AllocationResult)
    → 0 < bytes'
    → allocate a (some devices) alloc_id slice_uid bytes ≡ ok (r, b)
    → allocate b (some devices') alloc_id' slice_uid bytes' ≡ ok (r, b)
allocate_twice a b devices devices' alloc_id alloc_id' slice_uid bytes bytes' r pos e =
    let (init, named, _, (ds, same_ds, alt)) =
      allocate-eq-ok a b (some devices) alloc_id slice_uid bytes r e in
    elim alt [
      | inl (prior, p, same, kept) ↦
          subst (λ z. allocate z (some devices') alloc_id' slice_uid bytes' ≡ ok (r, z)) (sym kept)
            (allocate-known a devices' alloc_id' slice_uid prior bytes' init named pos p
              ∙ ap (λ q. ok (q, a)) (sym same))
      | inr (p, u, same, is_new) ↦
          let c = commit alloc_id slice_uid r.device_uuid bytes a in
          let (by_slice, by_alloc, recalled, kept) =
            commit-indexes a alloc_id slice_uid r.device_uuid bytes named in
          subst (λ z. allocate z (some devices') alloc_id' slice_uid bytes' ≡ ok (r, z))
            (sym is_new)
            (allocate-known c devices' alloc_id' slice_uid alloc_id bytes' (kept ∙ init) named pos
                by_slice
              ∙ ap (λ q. ok (q, c)) (recalled ∙ sym same))
    ]

-- Releasing what was just committed.
release-commit :
    (a : Allocator) (alloc_id slice_uid uuid other : String) (bytes : ℕ)
    → slice_uid ≢ ""
    → let b = release_locked alloc_id (commit alloc_id slice_uid uuid bytes a) in
      (committed_bytes b other ≡ committed_bytes a other) × (lookup slice_uid b.by_slice ≡ none)
unfolding release_locked debit committed_bytes
release-commit a alloc_id slice_uid uuid other bytes named =
    let b = commit alloc_id slice_uid uuid bytes a in
    let (by_slice, by_alloc, _, _) = commit-indexes a alloc_id slice_uid uuid bytes named in
    let left = committed_bytes b uuid - bytes in
    rw (release_locked, by_alloc)
      (
        ground (
          arith,
          committed-commit a alloc_id slice_uid uuid uuid bytes,
          committed-commit a alloc_id slice_uid uuid other bytes,
          str_eq_iff uuid other,
          str_eq_refl uuid,
          lookup-delete uuid other b.committed,
          lookup-insert uuid other left b.committed,
        ),
        ground (
          arith,
          str_eq_iff slice_uid "",
          str_eq_refl slice_uid,
          lookup-delete slice_uid slice_uid b.by_slice,
        ),
      )

release-known :
    (a : Allocator) (alloc_id slice_uid : String)
    → a.initialized ≡ true
    → slice_uid ≢ ""
    → lookup slice_uid a.by_slice ≡ some alloc_id
    → release_by_slice a slice_uid ≡ ok (alloc_id, release_locked alloc_id a)
unfolding release_by_slice
release-known a alloc_id slice_uid init named p = ground (arith, init, p, str_eq_iff slice_uid "")

-- Releasing the slice of a fresh allocation gives every card back what it had promised before, and the
-- slice has no allocation any more.
pub release-allocate :
    (a b : Allocator) (devices : List AllocDevice) (alloc_id slice_uid : String) (bytes : ℕ)
    (r : AllocationResult)
    → lookup slice_uid a.by_slice ≡ none
    → allocate a (some devices) alloc_id slice_uid bytes ≡ ok (r, b)
    → (c : Allocator) × (release_by_slice b slice_uid ≡ ok (alloc_id, c))
      × ((uuid : String) → committed_bytes c uuid ≡ committed_bytes a uuid)
      × (lookup slice_uid c.by_slice ≡ none)
release-allocate a b devices alloc_id slice_uid bytes r new e =
    let (init, named, u, pos, same, is_new) =
      allocate-fresh a b devices alloc_id slice_uid bytes r new e in
    let c = commit alloc_id slice_uid r.device_uuid bytes a in
    let (by_slice, by_alloc, _, kept) =
      commit-indexes a alloc_id slice_uid r.device_uuid bytes named in
    (
      release_locked alloc_id b,
      rw is_new (release-known c alloc_id slice_uid (kept ∙ init) named by_slice),
      λ uuid. rw is_new (release-commit a alloc_id slice_uid r.device_uuid uuid bytes named).0,
      rw is_new (release-commit a alloc_id slice_uid r.device_uuid "" bytes named).1,
    )
