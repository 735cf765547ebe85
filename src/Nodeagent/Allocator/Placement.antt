-- ===== src/Nodeagent/Allocator/Placement.antt =====
-- allocator.go: the card that an allocation gets, and the two indexes of the ledger.
use vgpu_scheduler.Prelude.{
  ℕ, ◌+◌, ◌≡◌, ◌≢◌, ◌≤◌, ◌<◌, ◌⊎◌, refl, sym, String, ◌&&◌, none, some, List, [], ◌∷◌, ltb, leb,
  str_eq_iff, str_eq_refl, ok, err, arith, inl, inr, All, Bool-cases,
}
use vgpu_scheduler.Nodeagent.Allocator.{
  AllocDevice, Allocator, AllocateError, fragmentation, available, pick_from, pick_best_fit,
}

abbrev pub In : AllocDevice → List AllocDevice → Type 0
In d [] = ⊥
In d (e ∷ es) = (e ≡ d) ⊎ In d es

-- The free bytes of the node, as the error reports them.
abbrev pub node_free_of : Allocator → List AllocDevice → ℕ
node_free_of a [] = 0
node_free_of a (d ∷ ds) = available a d + node_free_of a ds

-- A card of a list that hosts the request and leaves no tighter fit.
pub record IsBestFit (a : Allocator) (requested : ℕ) (u : String) (ds : List AllocDevice)
    : Type 0 where
  pub card : AllocDevice
  pub named : card.uuid ≡ u
  pub fits : requested ≤ available a card
  pub tightest : All (λ e. requested ≤ available a e → available a card ≤ available a e) ds

-- The loop once it has a card: it keeps it or takes a tighter one.
pick_some-ok :
    (a : Allocator) (requested node_free : ℕ) (d : AllocDevice) (ds : List AllocDevice) (u : String)
    → requested ≤ available a d
    → pick_from a requested d.uuid (some (available a d)) node_free ds ≡ ok u
    → (b : IsBestFit a requested u ds) × ((b.card ≡ d) ⊎ In b.card ds)
      × (available a b.card ≤ available a d)
unfolding pick_from
pick_some-ok a requested node_free d [] u h e = (
  record { card = d; named = ground (arith, e); fits = h; tightest = tt },
  inl refl,
  ground arith,
)
pick_some-ok a requested node_free d (x ∷ xs) u h e =
    elim (Bool-cases (leb requested (available a x) && ltb (available a x) (available a d))) [
      | inl y ↦
          let (b, where_b, less) =
            pick_some-ok a requested (node_free + available a x) x xs u (ground (arith, y))
              (rw (pick_from, y) at e) in
          (
            record {
              card = b.card;
              named = b.named;
              fits = b.fits;
              tightest = (λ r. less, b.tightest);
            },
            elim where_b [ inl s ↦ inr (inl (sym s)) | inr s ↦ inr (inr s) ],
            ground (arith, less, y),
          )
      | inr n ↦
          let (b, where_b, less) =
            pick_some-ok a requested (node_free + available a x) d xs u h
              (rw (pick_from, n) at e) in
          (
            record {
              card = b.card;
              named = b.named;
              fits = b.fits;
              tightest = (λ r. ground (arith, less, n), b.tightest);
            },
            elim where_b [ inl s ↦ inl s | inr s ↦ inr (inr s) ],
            less,
          )
    ]

pub pick_none-ok :
    (a : Allocator) (requested node_free : ℕ) (ds : List AllocDevice) (u : String)
    → pick_from a requested "" none node_free ds ≡ ok u
    → (b : IsBestFit a requested u ds) × In b.card ds
unfolding pick_from
pick_none-ok a requested node_free [] u e = absurd (ground (arith, e, str_eq_refl ""))
pick_none-ok a requested node_free (x ∷ xs) u e =
    elim (Bool-cases (leb requested (available a x))) [
      | inl y ↦
          let (b, where_b, less) =
            pick_some-ok a requested (node_free + available a x) x xs u (ground (arith, y))
              (rw (pick_from, y) at e) in
          (
            record {
              card = b.card;
              named = b.named;
              fits = b.fits;
              tightest = (λ r. less, b.tightest);
            },
            elim where_b [ inl s ↦ inl (sym s) | inr s ↦ inr s ],
          )
      | inr n ↦
          let (b, where_b) =
            pick_none-ok a requested (node_free + available a x) xs u (rw (pick_from, n) at e) in
          (
            record {
              card = b.card;
              named = b.named;
              fits = b.fits;
              tightest = (λ r. absurd (ground (arith, r, n)), b.tightest);
            },
            inr where_b,
          )
    ]

pick_some-never_err :
    (a : Allocator) (requested node_free avail : ℕ) (best : String) (ds : List AllocDevice)
    (x : AllocateError)
    → best ≢ ""
    → All (λ d. d.uuid ≢ "") ds
    → pick_from a requested best (some avail) node_free ds ≢ err x
unfolding pick_from
pick_some-never_err a requested node_free avail best [] x h named e =
    absurd (ground (arith, e, str_eq_iff best ""))
pick_some-never_err a requested node_free avail best (d ∷ ds) x h named e =
    elim (Bool-cases (leb requested (available a d) && ltb (available a d) avail)) [
      | inl y ↦
          pick_some-never_err a requested (node_free + available a d) (available a d) d.uuid ds x
            named.0 named.1 (rw (pick_from, y) at e)
      | inr n ↦
          pick_some-never_err a requested (node_free + available a d) avail best ds x h named.1
            (rw (pick_from, n) at e)
    ]

pick_none-err :
    (a : Allocator) (requested node_free : ℕ) (ds : List AllocDevice) (x : AllocateError)
    → All (λ d. d.uuid ≢ "") ds
    → pick_from a requested "" none node_free ds ≡ err x
    → (x ≡ fragmentation requested (node_free + node_free_of a ds))
      × All (λ d. available a d < requested) ds
unfolding pick_from
pick_none-err a requested node_free [] x named e = (ground (arith, e, str_eq_refl ""), tt)
pick_none-err a requested node_free (d ∷ ds) x named e =
    elim (Bool-cases (leb requested (available a d))) [
      | inl y ↦ absurd (
          pick_some-never_err a requested (node_free + available a d) (available a d) d.uuid ds x
            named.0 named.1 (rw (pick_from, y) at e))
      | inr n ↦
          let (same, none_fits) =
            pick_none-err a requested (node_free + available a d) ds x named.1
              (rw (pick_from, n) at e) in
          (ground (arith, same), (ground (arith, n), none_fits))
    ]

-- With cards that have names, the choice succeeds with a card of the node that hosts the request and
-- than which no card that hosts it has less left; it fails only when no single card hosts the request,
-- and then reports what all of them have left together.
pub pick_best_fit-IsBestFit :
    (a : Allocator) (devices : List AllocDevice) (requested : ℕ)
    → All (λ d. d.uuid ≢ "") devices
    → ((u : String)
        → pick_best_fit a devices requested ≡ ok u
        → (b : IsBestFit a requested u devices) × In b.card devices)
      × ((x : AllocateError)
          → pick_best_fit a devices requested ≡ err x
          → (x ≡ fragmentation requested (node_free_of a devices))
            × All (λ d. available a d < requested) devices)
unfolding pick_best_fit
pick_best_fit-IsBestFit a devices requested named = (
  λ u e. pick_none-ok a requested 0 devices u e,
  λ x e.
      let (same, none_fits) = pick_none-err a requested 0 devices x named e in
      (ground (arith, same), none_fits),
)
