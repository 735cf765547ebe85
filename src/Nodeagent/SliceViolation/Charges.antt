-- ===== src/Nodeagent/SliceViolation/Charges.antt =====
-- internal/nodeagent/slice_violation.go: the bytes that the attribution charges to a slice.
use vgpu_scheduler.Prelude.{
  ℕ, ◌+◌, ◌≡◌, refl, sym, ap, ◌∙◌, String, Bool, false, ◌&&◌, Option, none, some, List, [], ◌∷◌,
  sum_by, sum_by_nil, sum_by_cons, if◌then◌else◌, if_elim, str_eq, str_eq_iff, Result, ok, arith,
  inl, inr, Bool-cases, Option-cases,
}
use vgpu_scheduler.Prelude.Dict.{
  Dict, lookup, AllVals, lookup-AllVals, insert-AllVals, lookup-insert,
}
use vgpu_scheduler.Api.{VgpuSlice}
use vgpu_scheduler.Nodeagent.SliceViolation.{
  PodName, slice_key, is_active, SliceUsage, add_pod, GpuProcess, NodePod, Indices, is_in_snapshot,
  resolve, target_of, charge_to, charge_all, index_slices, index_claims, index_pods, attribute,
}

-- Whether the process is owned by a pod whose claim is that of the slice with the key.
abbrev pub claim_is : Option String → String → Bool
claim_is none key = false
claim_is (some k) key = str_eq k key

abbrev pub pod_is : Indices → Option NodePod → String → Bool
pod_is ix none key = false
pod_is ix (some q) key = claim_is (lookup (slice_key q.namespace q.claim) ix.by_claim) key

abbrev pub owner_is : Indices → Option String → String → Bool
owner_is ix none key = false
owner_is ix (some uid) key = pod_is ix (lookup uid ix.by_pod) key

-- What a process of the second snapshot adds to a slice.
abbrev pub bytes_to : Indices → String → GpuProcess → ℕ
bytes_to ix key p =
    if is_in_snapshot p.pid p.device_uuid ix.procs && owner_is ix (ix.owner p.pid) key
    then p.used_memory
    else 0

abbrev aims : Option (PodName × String) → String → Bool
aims none key = false
aims (some (q, k)) key = str_eq k key

aims-target :
    (ix : Indices) (key : String) (p : GpuProcess)
    → aims (target_of ix p) key
      ≡ is_in_snapshot p.pid p.device_uuid ix.procs && owner_is ix (ix.owner p.pid) key
unfolding target_of resolve
aims-target ix key p = ground arith

add_pod_frame :
    (q : PodName) (u : SliceUsage) → ((add_pod q u).used ≡ u.used) × ((add_pod q u).grant ≡ u.grant)
unfolding add_pod
add_pod_frame q u = ground arith

-- One charge, as it shows at one slice.
charge_to_exact :
    (bytes : ℕ) (target : Option (PodName × String)) (usage : Dict SliceUsage) (key : String)
    (u : SliceUsage)
    → lookup key usage ≡ some u
    → (v : SliceUsage) × (lookup key (charge_to bytes target usage) ≡ some v)
      × (v.used ≡ u.used + (if aims target key then bytes else 0))
      × (v.grant ≡ u.grant)
charge_to_exact bytes none usage key u e = (u, e, omega arith, refl)
charge_to_exact bytes (some (q, k)) usage key u e = elim (Option-cases (lookup k usage)) [
  | inl missing ↦
      let apart : u.used ≡ u.used + (if str_eq k key then bytes else 0) =
        ground (arith, str_eq_iff k key, missing, e) in
      (u, rw missing e, apart, refl)
  | inr (w, there) ↦
      let charged = add_pod q (record w { used = w.used + bytes }) in
      let frame = add_pod_frame q (record w { used = w.used + bytes }) in
      elim (Bool-cases (str_eq k key)) [
        | inr other ↦ (
          u,
          rw (there, lookup-insert k key charged usage, other) e,
          rw other (omega arith),
          refl,
        )
        | inl same ↦
            let k_is = (str_eq_iff k key).0 same in
            let both : some w ≡ some u = sym there ∙ ap (λ j. lookup j usage) k_is ∙ e in
            let w_is : w ≡ u = cc in
            (
              charged,
              rw (there, lookup-insert k key charged usage, same) refl,
              rw (same, frame.0, w_is) (omega arith),
              frame.1 ∙ ap (λ x. x.grant) w_is,
            )
      ]
]

charge_all_exact :
    (ix : Indices) (key : String) (procs : List GpuProcess) (usage : Dict SliceUsage)
    (u : SliceUsage)
    → lookup key usage ≡ some u
    → (v : SliceUsage) × (lookup key (charge_all ix procs usage) ≡ some v)
      × (v.used ≡ u.used + sum_by (bytes_to ix key) procs)
      × (v.grant ≡ u.grant)
unfolding charge_all
charge_all_exact ix key [] usage u e = (u, e, omega (arith, sum_by_nil (bytes_to ix key)), refl)
charge_all_exact ix key (p ∷ ps) usage u e =
    let (m, there, first, grant) = charge_to_exact p.used_memory (target_of ix p) usage key u e in
    let (v, found_v, rest, grant') =
      charge_all_exact ix key ps (charge_to p.used_memory (target_of ix p) usage) m there in
    let same : (if aims (target_of ix p) key then p.used_memory else 0) ≡ bytes_to ix key p =
      ap (λ b. if b then p.used_memory else 0) (aims-target ix key p) in
    (
      v,
      found_v,
      omega (arith, rest, first, same, sum_by_cons (bytes_to ix key) p ps),
      grant' ∙ grant,
    )

ok-injective : {A E : Type 0} {x y : A} → ◌≡◌ {A = Result E A} (ok x) (ok y) → x ≡ y
ok-injective e = cc

index_slices-unused :
    (node : String) (slices : List VgpuSlice) (m : Dict SliceUsage)
    → AllVals (λ u. u.used ≡ 0) m
    → AllVals (λ u. u.used ≡ 0) (index_slices node slices m)
unfolding index_slices
index_slices-unused node [] m h = h
index_slices-unused node (s ∷ ss) m h = index_slices-unused node ss _ (
    if_elim (AllVals (λ u. u.used ≡ 0)) (is_active node s) _ m
      (λ _. insert-AllVals (λ u. u.used ≡ 0) (slice_key s.namespace s.name) _ m refl h) (λ _. h))

-- The use that the attribution charges to a slice that it indexes is exactly the memory, as the second
-- snapshot shows it, of the processes that the first snapshot has too, on the same device, and whose
-- cgroup names a pod of the node whose claim is the slice's; its grant is unchanged.
pub attribute_exact :
    (node key : String) (slices : List VgpuSlice) (pods : List NodePod) (owner : ℕ → Option String)
    (procs again : List GpuProcess) (u : SliceUsage) (usage : Dict SliceUsage)
    → lookup key (index_slices node slices []) ≡ some u
    → attribute node (record {
      slices = some slices;
      pods = some pods;
      owner = owner;
      procs = procs;
      procs_again = some again;
    })
      ≡ ok usage
    → let ix : Indices = record {
      by_claim = index_claims node slices [];
      by_pod = index_pods pods [];
      owner = owner;
      procs = procs;
    } in
      (v : SliceUsage) × (lookup key usage ≡ some v)
      × (v.used ≡ sum_by (bytes_to ix key) again)
      × (v.grant ≡ u.grant)
unfolding attribute
attribute_exact node key slices pods owner procs again u usage e done =
    let ix : Indices = record {
      by_claim = index_claims node slices [];
      by_pod = index_pods pods [];
      owner = owner;
      procs = procs;
    } in
    let charged = charge_all ix again (index_slices node slices []) in
    let same : charged ≡ usage = ok-injective done in
    let (v, there, used, grant) = charge_all_exact ix key again (index_slices node slices []) u e in
    let unused =
      lookup-AllVals (λ u. u.used ≡ 0) key (index_slices node slices [])
        (index_slices-unused node slices [] tt) e in
    (v, ap (λ m. lookup key m) (sym same) ∙ there, omega (arith, used, unused), grant)
