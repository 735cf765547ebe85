-- ===== src/Cmd/Scheduler/Charges.antt =====
-- cmd/scheduler/main.go: what the walk over the Ready slices charges.
use vgpu_scheduler.Prelude.{
  ℕ, ◌+◌, ◌-◌, ◌≡◌, refl, ◌∙◌, String, true, false, none, some, List, [], ◌∷◌, All, sum_by,
  sum_by_nil, sum_by_cons, if◌then◌else◌, str_eq, inl, inr, arith, Bool-cases,
}
use vgpu_scheduler.Prelude.Dict.{lookup, insert, lookup-insert, lookup-insert_self}
use vgpu_scheduler.Api.{VgpuSlice}
use vgpu_scheduler.Cache.{
  NodeState, VramCache, ready, charge_allocated, promote_confirmed_to_allocated_locked,
  mark_allocated, promote_slice_to_allocated_once,
}
use vgpu_scheduler.Cmd.Scheduler.Nodes.{needs_charge, recharge}

-- A slice of which the cache has no record.
abbrev pub IsFresh : VramCache → VgpuSlice → Type 0
IsFresh c s = (lookup s.uid c.synced ≡ none) × (lookup s.uid c.confirmed ≡ none)

abbrev pub Distinct : List VgpuSlice → Type 0
Distinct [] = Unit
Distinct (s ∷ ss) = All (λ r. str_eq s.uid r.uid ≡ false) ss × Distinct ss

-- What a slice on the node adds.
abbrev pub charge_on : String → VgpuSlice → ℕ
charge_on name s = if needs_charge name s then s.allocated_bytes else 0

promote_fresh :
    (c : VramCache) (uid name : String) (actual : ℕ) (s : NodeState)
    → lookup uid c.synced ≡ none
    → lookup uid c.confirmed ≡ none
    → lookup name c.nodes ≡ some s
    → let d = (promote_slice_to_allocated_once c uid name actual).0 in
      (lookup name d.nodes ≡ some (charge_allocated actual s))
      × (d.synced ≡ insert uid ready c.synced)
      × (d.confirmed ≡ c.confirmed)
unfolding promote_slice_to_allocated_once promote_confirmed_to_allocated_locked mark_allocated
promote_fresh c uid name actual s fresh unheld there =
    ground (arith, lookup-insert_self name (charge_allocated actual s) c.nodes)

-- A node entry that differs from another by what it has allocated in addition.
pub record IsCharged (extra : ℕ) (s t : NodeState) : Type 0 where
  pub allocated : t.allocated ≡ s.allocated + extra
  pub total_vram : t.total_vram ≡ s.total_vram
  pub reserved : t.reserved ≡ s.reserved
  pub free : t.free ≡ t.total_vram - t.allocated - t.reserved

-- Whether a slice is charged or passed over, the others stay fresh.
IsFresh-insert :
    (c d : VramCache) (uid : String) (ss : List VgpuSlice)
    → d.synced ≡ insert uid ready c.synced
    → d.confirmed ≡ c.confirmed
    → All (λ r. str_eq uid r.uid ≡ false) ss
    → All (IsFresh c) ss
    → All (IsFresh d) ss
IsFresh-insert c d uid [] e f apart fresh = tt
IsFresh-insert c d uid (s ∷ ss) e f apart fresh = (
  ground (arith, e, f, lookup-insert uid s.uid ready c.synced, apart.0, fresh.0),
  IsFresh-insert c d uid ss e f apart.1 fresh.1,
)

charge_passed : (name : String) (s : VgpuSlice) → needs_charge name s ≡ false → charge_on name s ≡ 0
charge_passed name s e = rw e refl

charge_due :
    (name : String) (s : VgpuSlice)
    → needs_charge name s ≡ true
    → charge_on name s ≡ s.allocated_bytes
charge_due name s e = rw e refl

charge_allocated-allocated :
    (bytes : ℕ) (s : NodeState) → (charge_allocated bytes s).allocated ≡ s.allocated + bytes
unfolding charge_allocated
charge_allocated-allocated bytes s = refl

pub recharge_exact :
    (name : String) (ss : List VgpuSlice) (c : VramCache) (s : NodeState)
    → lookup name c.nodes ≡ some s
    → s.free ≡ s.total_vram - s.allocated - s.reserved
    → All (IsFresh c) ss
    → Distinct ss
    → (t : NodeState) × (lookup name (recharge name ss c).nodes ≡ some t)
      × IsCharged (sum_by (charge_on name) ss) s t
unfolding recharge
recharge_exact name [] c s there balanced fresh apart = (
  s,
  there,
  (record {
    allocated = omega (arith, sum_by_nil (charge_on name));
    total_vram = refl;
    reserved = refl;
    free = balanced;
  }),
)
recharge_exact name (x ∷ ss) c s there balanced fresh apart =
    elim (Bool-cases (needs_charge name x)) [
      | inr passed ↦
          let (t, found_t, more) = recharge_exact name ss c s there balanced fresh.1 apart.1 in
          (
            t,
            rw (recharge, passed) found_t,
            (record {
              allocated = omega (
                arith,
                more.allocated,
                sum_by_cons (charge_on name) x ss,
                charge_passed name x passed,
              );
              total_vram = more.total_vram;
              reserved = more.reserved;
              free = more.free;
            }),
          )
      | inl due ↦
          let d = (promote_slice_to_allocated_once c x.uid name x.allocated_bytes).0 in
          let (now_there, synced, confirmed) =
            promote_fresh c x.uid name x.allocated_bytes s fresh.0.0 fresh.0.1 there in
          let (t, found_t, more) =
            recharge_exact name ss d (charge_allocated x.allocated_bytes s) now_there
              (unfold charge_allocated in refl)
              (IsFresh-insert c d x.uid ss synced confirmed apart.0 fresh.1) apart.1 in
          (
            t,
            rw (recharge, due) found_t,
            (record {
              allocated = omega (
                arith,
                more.allocated,
                sum_by_cons (charge_on name) x ss,
                charge_due name x due,
                charge_allocated-allocated x.allocated_bytes s,
              );
              total_vram = more.total_vram ∙ unfold charge_allocated in refl;
              reserved = more.reserved ∙ unfold charge_allocated in refl;
              free = more.free;
            }),
          )
    ]
