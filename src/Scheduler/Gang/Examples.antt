-- ===== src/Scheduler/Gang/Examples.antt =====
-- internal/scheduler/gang.go: the results at a gang of two.
use vgpu_scheduler.Prelude.{[], arith, false, str_eq_refl, ◌∷◌}
use vgpu_scheduler.Prelude.Dict.{lookup}
use vgpu_scheduler.Scheduler.Gang.{GangBindingGate, GangMember, check_locked}
use vgpu_scheduler.Scheduler.Gang.Admission.{Settles, check_locked-Settles}
use vgpu_scheduler.Scheduler.Gang.Quorum.{IsQuorate, KeepsSize}
use vgpu_scheduler.Scheduler.Gang.Tipping.{check_locked-IsQuorate}

abbrev first : GangMember
first = record { slice_uid = "s1"; node_name = "n1"; bytes = 10; held_at = 5 }

abbrev second : GangMember
second = record { slice_uid = "s2"; node_name = "n1"; bytes = 10; held_at = 6 }

-- The gate once the first slice of the gang holds its reservation.
abbrev half : GangBindingGate
half = record {
  cohorts =
      (
        "team/gang",
        record {
          gang_size = 2;
          priority = 0;
          members = ("s1", first) ∷ [];
          released = false;
          created_at = 5;
          rsv_uid = "r1";
        },
      )
      ∷ [];
  admitting = "team/gang";
  admitting_since = 5;
  backoff = [];
}

half-KeepsSize : KeepsSize "team/gang" 2 "r1" half
unfolding lookup
half-KeepsSize co e u = ground (arith, e, str_eq_refl "team/gang")

check_locked-Settles_example :
    Settles "team/gang" "s2" 2 (check_locked "team/gang" 2 0 "r1" second 6 half)
check_locked-Settles_example = check_locked-Settles "team/gang" 2 0 "r1" second 6 half (omega arith)

check_locked-IsQuorate_example : IsQuorate (check_locked "team/gang" 2 0 "r1" second 6 half).1
check_locked-IsQuorate_example =
    check_locked-IsQuorate "team/gang" 2 0 "r1" second 6 half half-KeepsSize
      ((λ r. absurd (cc)), tt)
