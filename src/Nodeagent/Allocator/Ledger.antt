-- ===== src/Nodeagent/Allocator/Ledger.antt =====
-- allocator.go: the bytes promised on a card are those of the allocations on it.
use vgpu_scheduler.Prelude.{
  ℕ, ◌+◌, ◌-◌, ◌≡◌, ◌≢◌, ◌<◌, ◌⊎◌, refl, sym, subst, String, Bool, true, false, ◌||◌, Option, none,
  some, List, ◌==◌, str_eq, str_eq_iff, if◌then◌else◌, Result, ok, err, guard, ◌>>◌, arith, inl,
  inr, Option-cases, Bool-cases, Result-cases,
}
use vgpu_scheduler.Prelude.Dict.{
  lookup, has, total, Unique, lookup-insert, lookup-delete, insert-Unique, delete-Unique,
  total-insert, total-delete,
}
use vgpu_scheduler.Nodeagent.Allocator.{
  AllocDevice, LedgerEntry, Allocator, AllocationResult, AllocateError, not_initialised,
  committed_bytes, commit, allocate, allocate_locked, recall, pick_best_fit, debit, release_locked,
  release, release_by_slice, release_found, restore_allocation,
}

-- The bytes of an allocation that are on a card.
abbrev pub on_card : String → LedgerEntry → ℕ
on_card uuid e = if str_eq e.device_uuid uuid then e.bytes else 0

pub record IsBalanced (a : Allocator) : Type 0 where
  pub unique : Unique a.by_alloc
  pub exact : (uuid : String) → committed_bytes a uuid ≡ total (on_card uuid) a.by_alloc

commit-IsBalanced :
    (a : Allocator) (alloc_id slice_uid uuid : String) (bytes : ℕ)
    → lookup alloc_id a.by_alloc ≡ none
    → IsBalanced a
    → IsBalanced (commit alloc_id slice_uid uuid bytes a)
unfolding commit committed_bytes
commit-IsBalanced a alloc_id slice_uid uuid bytes fresh h = record {
  unique = insert-Unique alloc_id _ a.by_alloc h.unique;
  exact = λ u. ground (
    arith,
    fresh,
    h.exact u,
    str_eq_iff uuid u,
    lookup-insert uuid u (committed_bytes a uuid + bytes) a.committed,
    total-insert (on_card u) alloc_id
        (record { slice_uid = slice_uid; device_uuid = uuid; bytes = bytes }) a.by_alloc,
  );
}

release-IsBalanced :
    (a : Allocator) (alloc_id : String) → IsBalanced a → IsBalanced (release_locked alloc_id a)
unfolding release_locked debit committed_bytes
release-IsBalanced a alloc_id h = elim (Option-cases (lookup alloc_id a.by_alloc)) [
  | inl e ↦ rw (release_locked, e) h
  | inr (entry, e) ↦
      let left = committed_bytes a entry.device_uuid - entry.bytes in
      rw (release_locked, e)
        (record {
          unique = delete-Unique alloc_id a.by_alloc h.unique;
          exact = λ u. ground (
            arith,
            e,
            h.exact u,
            str_eq_iff entry.device_uuid u,
            lookup-delete entry.device_uuid u a.committed,
            lookup-insert entry.device_uuid u left a.committed,
            total-delete (on_card u) alloc_id a.by_alloc h.unique,
          );
        })
]

-- The allocator's operations.
pub data Move : Type 0 where
  allocates : Option (List AllocDevice) → (alloc_id slice_uid : String) → (bytes : ℕ) → Move
  releases : (alloc_id : String) → Move
  releases_slice : (slice_uid : String) → Move
  restores : (alloc_id slice_uid device_uuid : String) → (bytes : ℕ) → Move

-- A call that fails leaves the ledger as it was.
abbrev result_of {ℓ} :
    {A : Type ℓ} → (A → Allocator) → Allocator → Result AllocateError A → Allocator
result_of f a (ok r) = f r
result_of f a (err e) = a

unfoldable pub move : Allocator → Move → Allocator
move a (allocates devices alloc_id slice_uid bytes) =
    result_of (λ r. r.1) a (allocate a devices alloc_id slice_uid bytes)
move a (releases alloc_id) = result_of (λ r. r) a (release a alloc_id)
move a (releases_slice slice_uid) = result_of (λ r. r.1) a (release_by_slice a slice_uid)
move a (restores alloc_id slice_uid device_uuid bytes) =
    restore_allocation alloc_id slice_uid device_uuid bytes a

-- An allocation ID, which the code makes from the clock, is new.
abbrev pub IsNew : Allocator → Move → Type 0
IsNew a (allocates devices alloc_id slice_uid bytes) = lookup alloc_id a.by_alloc ≡ none
IsNew a _ = Unit

-- What a successful allocation found and did.
pub allocate-eq-ok :
    (a b : Allocator) (devices : Option (List AllocDevice)) (alloc_id slice_uid : String)
    (bytes : ℕ) (r : AllocationResult)
    → allocate a devices alloc_id slice_uid bytes ≡ ok (r, b)
    → (a.initialized ≡ true)
      × (slice_uid ≢ "")
      × (0 < bytes)
      × ((ds : List AllocDevice) × (devices ≡ some ds)
          × (((prior : String) × (lookup slice_uid a.by_slice ≡ some prior)
                × (r ≡ recall a prior)
                × (b ≡ a))
              ⊎ ((lookup slice_uid a.by_slice ≡ none)
                  × (pick_best_fit a ds bytes ≡ ok r.device_uuid)
                  × (r ≡ record {
                    allocation_id = alloc_id;
                    device_uuid = r.device_uuid;
                    allocated_bytes = bytes;
                  })
                  × (b ≡ commit alloc_id slice_uid r.device_uuid bytes a))))
unfolding allocate allocate_locked
allocate-eq-ok a b none alloc_id slice_uid bytes r e =
    absurd (ground (arith, e, str_eq_iff slice_uid ""))
allocate-eq-ok a b (some ds) alloc_id slice_uid bytes r e =
    elim (Option-cases (lookup slice_uid a.by_slice)) [
      | inr (prior, p) ↦ (
        ground (arith, e, p),
        ground (arith, e, p, str_eq_iff slice_uid ""),
        ground (arith, e, p),
        (ds, refl, inl (prior, p, ground (arith, e, p), ground (arith, e, p))),
      )
      | inl p ↦ elim (Result-cases (pick_best_fit a ds bytes)) [
        | inl (uuid, u) ↦ (
          ground (arith, e, p, u),
          ground (arith, e, p, u, str_eq_iff slice_uid ""),
          ground (arith, e, p, u),
          (
            ds,
            refl,
            inr (p, ground (arith, e, p, u), ground (arith, e, p, u), ground (arith, e, p, u)),
          ),
        )
        | inr (x, u) ↦ absurd (ground (arith, e, p, u, str_eq_iff slice_uid ""))
      ]
    ]

move-release :
    (a : Allocator) (alloc_id : String)
    → IsBalanced a
    → IsBalanced (if str_eq alloc_id "" then a else release_locked alloc_id a)
move-release a alloc_id h = elim (Bool-cases (str_eq alloc_id "")) [
  | inl e ↦ rw e h
  | inr e ↦ rw e (release-IsBalanced a alloc_id h)
]

release_found-IsBalanced :
    (a : Allocator) (o : Option String) → IsBalanced a → IsBalanced (release_found a o).1
release_found-IsBalanced a none h = h
release_found-IsBalanced a (some alloc_id) h = release-IsBalanced a alloc_id h

move-release_slice :
    (a : Allocator) (slice_uid : String)
    → IsBalanced a
    → IsBalanced
        (if str_eq slice_uid "" then ("", a) else release_found a (lookup slice_uid a.by_slice)).1
move-release_slice a slice_uid h = elim (Bool-cases (str_eq slice_uid "")) [
  | inl e ↦ rw e h
  | inr e ↦ rw e (release_found-IsBalanced a (lookup slice_uid a.by_slice) h)
]

guarded-IsBalanced {ℓ} :
    {A : Type ℓ} (b : Bool) (a : Allocator) (f : A → Allocator) (r : A)
    → IsBalanced a
    → IsBalanced (f r)
    → IsBalanced (result_of f a (guard b not_initialised >> ok r))
guarded-IsBalanced true a f r h k = k
guarded-IsBalanced false a f r h k = h

allocate-IsBalanced :
    (a b : Allocator) (devices : Option (List AllocDevice)) (alloc_id slice_uid : String)
    (bytes : ℕ) (r : AllocationResult)
    → lookup alloc_id a.by_alloc ≡ none
    → IsBalanced a
    → allocate a devices alloc_id slice_uid bytes ≡ ok (r, b)
    → IsBalanced b
allocate-IsBalanced a b devices alloc_id slice_uid bytes r fresh h e =
    elim ((allocate-eq-ok a b devices alloc_id slice_uid bytes r e).3).2 [
      | inl (prior, p, same, kept) ↦ subst IsBalanced (sym kept) h
      | inr (p, u, same, new) ↦
          subst IsBalanced (sym new)
            (commit-IsBalanced a alloc_id slice_uid r.device_uuid bytes fresh h)
    ]

restore-IsBalanced :
    (a : Allocator) (alloc_id slice_uid device_uuid : String) (bytes : ℕ)
    → IsBalanced a
    → IsBalanced (restore_allocation alloc_id slice_uid device_uuid bytes a)
unfolding restore_allocation
restore-IsBalanced a alloc_id slice_uid device_uuid bytes h =
    elim (Bool-cases (str_eq alloc_id "" || str_eq device_uuid "" || bytes == 0)) [
      | inl e ↦ rw (restore_allocation, e) h
      | inr e ↦ elim (Option-cases (lookup alloc_id a.by_alloc)) [
        | inl fresh ↦
            rw (restore_allocation, has, e, fresh)
              (commit-IsBalanced a alloc_id slice_uid device_uuid bytes fresh h)
        | inr (x, known) ↦ rw (restore_allocation, has, e, known) h
      ]
    ]

-- Whatever the operation, a repeated or a failed one included, the bytes that the ledger promises on
-- each card are the sum of the bytes of the allocations on it, with one entry for each allocation.
pub move-IsBalanced : (a : Allocator) (m : Move) → IsNew a m → IsBalanced a → IsBalanced (move a m)
unfolding move release release_by_slice
move-IsBalanced a (allocates devices alloc_id slice_uid bytes) fresh h =
    elim (Result-cases (allocate a devices alloc_id slice_uid bytes)) [
      | inl ((r, b), e) ↦
          rw (move, e) (allocate-IsBalanced a b devices alloc_id slice_uid bytes r fresh h e)
      | inr (x, e) ↦ rw (move, e) h
    ]
move-IsBalanced a (releases alloc_id) fresh h =
    guarded-IsBalanced a.initialized a (λ r. r) _ h (move-release a alloc_id h)
move-IsBalanced a (releases_slice slice_uid) fresh h =
    guarded-IsBalanced a.initialized a (λ r. r.1) _ h (move-release_slice a slice_uid h)
move-IsBalanced a (restores alloc_id slice_uid device_uuid bytes) fresh h =
    restore-IsBalanced a alloc_id slice_uid device_uuid bytes h
