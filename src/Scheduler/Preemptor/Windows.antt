-- ===== src/Scheduler/Preemptor/Windows.antt =====
-- internal/scheduler/preemptor.go: how long one preemption keeps the next from starting.
use vgpu_scheduler.Prelude.{
  ℕ, ◌+◌, ◌≤◌, ◌≡◌, true, ◌&&◌, some, List, [], ◌∷◌, ltb, if◌then◌else◌, arith, All, All-map,
}
use vgpu_scheduler.Api.{VgpuJob}
use vgpu_scheduler.Scheduler.Preemptor.{grace_of, max_grace, effective_in_flight_window}

-- The grace that the window allows a job: its own, up to an hour.
abbrev pub allowed_grace : VgpuJob → ℕ
allowed_grace j = if ltb 3600 (grace_of j) then 3600 else grace_of j

max_grace-bounds :
    (jobs : List VgpuJob) (longest : ℕ)
    → longest ≤ 3600
    → (longest ≤ max_grace jobs longest)
      × (max_grace jobs longest ≤ 3600)
      × All (λ j. j.preemptible ≡ true → allowed_grace j ≤ max_grace jobs longest) jobs
unfolding max_grace
max_grace-bounds [] longest h = ground arith
max_grace-bounds (j ∷ js) longest h =
    let grace = allowed_grace j in
    let next = (if j.preemptible && ltb longest grace then grace else longest) in
    let (low, high, each) = max_grace-bounds js next (ground arith) in
    (ground (arith, low), high, (λ p. ground (arith, low), each))

-- The window is at least a minute and at most an hour and half a minute, and outlasts the grace of each
-- preemptible job of the namespace, capped at an hour, by half a minute.
pub window_outlasts :
    (jobs : List VgpuJob)
    → let window = effective_in_flight_window (some jobs) in
      (60 ≤ window)
      × (window ≤ 3630)
      × All (λ j. j.preemptible ≡ true → allowed_grace j + 30 ≤ window) jobs
unfolding effective_in_flight_window
window_outlasts jobs =
    let (low, high, each) = max_grace-bounds jobs 30 (ground arith) in
    (
      ground (arith, low, high),
      ground (arith, low, high),
      All-map jobs (λ j h p. ground (arith, h)) each,
    )
