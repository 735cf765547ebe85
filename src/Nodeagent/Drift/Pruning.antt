-- ===== src/Nodeagent/Drift/Pruning.antt =====
-- internal/nodeagent/drift/detector.go: which checkpoints the check removes.
use vgpu_scheduler.Prelude.{
  ◌≡◌, refl, sym, ap, ◌∙◌, subst, String, Bool, true, false, ◌&&◌, ◌||◌, Option, none, some, List,
  [], ◌∷◌, str_eq, str_eq_iff, if◌then◌else◌, arith, inl, inr, Bool-cases,
}
use vgpu_scheduler.Prelude.Dict.{Dict, lookup, delete, Unique, lookup-delete}
use vgpu_scheduler.Api.{VgpuSlice, Read, found, not_found, unreadable}
use vgpu_scheduler.Nodeagent.Allocator.{Allocator}
use vgpu_scheduler.Nodeagent.Checkpoint.{
  CheckpointRecord, CheckpointFile, records, FileAnswers, load_all, delete_record,
}
use vgpu_scheduler.Nodeagent.Drift.{
  DriftAnswers, Healing, prune, check_api, heal_record, heal_records, release_orphans,
  detect_and_heal, inspect_all_hardware,
}

abbrev pub is_confirmed_gone : Read VgpuSlice → Bool
is_confirmed_gone not_found = true
is_confirmed_gone (found s) = false
is_confirmed_gone unreadable = false

-- Whether the API confirms that the slice of a record is gone.
abbrev pub is_dead : (String → String → Read VgpuSlice) → CheckpointRecord → Bool
is_dead get r = is_confirmed_gone (get r.namespace r.slice_name)

abbrev dead_in :
    (String → String → Read VgpuSlice) → String → List (String × CheckpointRecord) → Bool
dead_in get id [] = false
dead_in get id ((k, r) ∷ rest) = (str_eq k id && is_dead get r) || dead_in get id rest

-- What is left of a record after the check.
abbrev pub survivor :
    (String → String → Read VgpuSlice) → Option CheckpointRecord → Option CheckpointRecord
survivor get none = none
survivor get (some r) = if is_dead get r then none else some r

abbrev pub Works : FileAnswers → Type 0
Works fs = (fs.readable ≡ true) × (fs.written ≡ true)

abbrev Same : Healing → Healing → Type 0
Same h g =
    (g.allocator ≡ h.allocator) × (g.hardware ≡ h.hardware) × (g.failed_slices ≡ h.failed_slices)

prune-records :
    (a : DriftAnswers) (id : String) (h : Healing) (m : Dict CheckpointRecord)
    → Works (a.deleting id)
    → h.store ≡ records m
    → ((prune a id h).store ≡ records (delete id m)) × Same h (prune a id h)
unfolding prune delete_record load_all
prune-records a id h m works e = ground (arith, works, e)

check_api-records :
    (a : DriftAnswers) (id k : String) (x : Read VgpuSlice) (h : Healing)
    (m : Dict CheckpointRecord)
    → Works (a.deleting k)
    → h.store ≡ records m
    → (m' : Dict CheckpointRecord) × ((check_api a k x h).store ≡ records m')
      × (lookup id m' ≡ (if str_eq k id && is_confirmed_gone x then none else lookup id m))
      × Same h (check_api a k x h)
unfolding check_api
check_api-records a id k (found s) h m works e = (m, e, ground arith, (refl, refl, refl))
check_api-records a id k unreadable h m works e = (m, e, ground arith, (refl, refl, refl))
check_api-records a id k not_found h m works e =
    let (kept, same) = prune-records a k h m works e in
    (delete k m, kept, ground (arith, lookup-delete k id m), same)

heal_records-records :
    (a : DriftAnswers) (get : String → String → Read VgpuSlice) (id : String)
    (rs : List (String × CheckpointRecord)) (h : Healing) (m : Dict CheckpointRecord)
    → a.client ≡ some get
    → ((k : String) → Works (a.deleting k))
    → h.store ≡ records m
    → (m' : Dict CheckpointRecord) × ((heal_records a false rs h).store ≡ records m')
      × (lookup id m' ≡ (if dead_in get id rs then none else lookup id m))
      × Same h (heal_records a false rs h)
unfolding heal_records heal_record
heal_records-records a get id [] h m there works e = (m, e, refl, (refl, refl, refl))
heal_records-records a get id ((k, r) ∷ rest) h m there works e =
    let x = get r.namespace r.slice_name in
    let goes : heal_record a false k r h ≡ check_api a k x h = rw (heal_record, there) refl in
    let (m1, e1, l1, s1) = check_api-records a id k x h m (works k) e in
    let (m2, e2, l2, s2) =
      heal_records-records a get id rest (heal_record a false k r h) m1 there works
        (ap (λ g. g.store) goes ∙ e1) in
    let first : Same h (heal_record a false k r h) = subst (Same h) (sym goes) s1 in
    (m2, e2, l2 ∙ ground (arith, l1), (s2.0 ∙ first.0, s2.1 ∙ first.1, s2.2 ∙ first.2))

dead_in-unlisted :
    (get : String → String → Read VgpuSlice) (id : String) (m : Dict CheckpointRecord)
    → lookup id m ≡ none
    → dead_in get id m ≡ false
unfolding lookup
dead_in-unlisted get id [] e = refl
dead_in-unlisted get id ((k, r) ∷ m) e = ground (arith, e, dead_in-unlisted get id m)

dead_in-survivor :
    (get : String → String → Read VgpuSlice) (id : String) (m : Dict CheckpointRecord)
    → Unique m
    → (if dead_in get id m then none else lookup id m) ≡ survivor get (lookup id m)
unfolding lookup
dead_in-survivor get id [] u = refl
dead_in-survivor get id ((k, r) ∷ m) u = elim (Bool-cases (str_eq k id)) [
  | inr e ↦ rw e (dead_in-survivor get id m u.1)
  | inl e ↦
      let unlisted : dead_in get id m ≡ false =
        dead_in-unlisted get id m (subst (λ x. lookup x m ≡ none) ((str_eq_iff k id).0 e) u.0) in
      ground (arith, e, unlisted)
]

records-injective : {m n : Dict CheckpointRecord} → records m ≡ records n → m ≡ n
records-injective e = cc

abbrev at_start : Allocator → CheckpointFile → Healing
at_start al file = record {
  store = file;
  allocator = al;
  hardware = [];
  failed_slices = [];
  errors = [];
}

no_orphans : (h : Healing) → h.hardware ≡ [] → release_orphans h.hardware h ≡ h
unfolding release_orphans
no_orphans h e = rw (e, release_orphans) refl

detect-eq-healed :
    (a : DriftAnswers) (al : Allocator) (m : Dict CheckpointRecord)
    → a.loading.readable ≡ true
    → (heal_records a false m (at_start al (records m))).hardware ≡ []
    → (detect_and_heal a al (records m)).1 ≡ heal_records a false m (at_start al (records m))
unfolding detect_and_heal inspect_all_hardware load_all
detect-eq-healed a al m readable none_left =
    ground
      (arith, readable, no_orphans (heal_records a false m (at_start al (records m))) none_left)

-- With an API and a file system that answer, the check at the start removes from the checkpoint exactly
-- the records whose slice the API confirms to be gone, so that a failed read removes nothing, and
-- it fails no slice and leaves the ledger as it is.
pub detect_exact :
    (a : DriftAnswers) (get : String → String → Read VgpuSlice) (al : Allocator)
    (m : Dict CheckpointRecord)
    → a.client ≡ some get
    → a.loading.readable ≡ true
    → ((k : String) → Works (a.deleting k))
    → Unique m
    → let healed = (detect_and_heal a al (records m)).1 in
      (m' : Dict CheckpointRecord) × (healed.store ≡ records m')
      × ((id : String) → lookup id m' ≡ survivor get (lookup id m))
      × (healed.failed_slices ≡ [])
      × (healed.allocator ≡ al)
detect_exact a get al m there readable works u =
    let start : Healing = at_start al (records m) in
    let (m', kept, l, same) = heal_records-records a get "" m start m there works refl in
    let goes : (detect_and_heal a al (records m)).1 ≡ heal_records a false m start =
      detect-eq-healed a al m readable same.1 in
    (
      m',
      ap (λ g. g.store) goes ∙ kept,
      λ id.
          (let (m'', kept', l', same') = heal_records-records a get id m start m there works refl in
            ap (lookup id) (records-injective (sym kept ∙ kept'))
            ∙ l'
            ∙ dead_in-survivor get id m u),
      ap (λ g. g.failed_slices) goes ∙ same.2,
      ap (λ g. g.allocator) goes ∙ same.0,
    )
