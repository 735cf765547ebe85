-- ===== src/Nodeagent/Enforcement/RateLimit.antt =====
-- internal/nodeagent/enforcement.go: how many pods the agent evicts in any window of five minutes.
use vgpu_scheduler.Prelude.{ℕ, ◌≤◌, String, Bool, List, [], length, keep, length-keep_nil, arith}
use vgpu_scheduler.Nodeagent.Enforcement.{EvictionApi, detect_once}
use vgpu_scheduler.Nodeagent.SliceViolation.{
  EnforcementMode, SliceViolationDetector, new_detector, AttributionReads,
}
use vgpu_scheduler.Nodeagent.Enforcement.Window.{log, in_window, IsLimited, IsLimited-later}
use vgpu_scheduler.Nodeagent.Enforcement.Limits.{actions_of, detect-Limits}

-- The cycles of one agent from its start, at times that do not go back, with the times of all its
-- evictions so far.
pub data Run (node : String) (mode : EnforcementMode)
    : SliceViolationDetector → ℕ → List ℕ → Type 0 where
  start : (now : ℕ) → Run node mode (new_detector node mode) now []
  cycle :
      {d : SliceViolationDetector} {before : ℕ} {history : List ℕ}
      → Run node mode d before history
      → (api : EvictionApi) (now : ℕ) (listed : Bool) (reads : AttributionReads) → before ≤ now
      → Run node mode
          (detect_once api now listed reads d).1
          now
          (log now (actions_of (detect_once api now listed reads d).0) history)

Run-IsLimited :
    {node : String} {mode : EnforcementMode} {d : SliceViolationDetector} {now : ℕ}
    {history : List ℕ}
    → Run node mode d now history
    → IsLimited d.eviction_times now history
unfolding new_detector
Run-IsLimited (start now) = record {
  covers = λ t h. omega arith;
  limited = λ w. omega (arith, length-keep_nil (in_window w));
}
Run-IsLimited (cycle {d} {before} {history} run api now listed reads later) =
    detect-Limits api now listed reads d history
      (IsLimited-later d.eviction_times before now history later (Run-IsLimited run))

-- Over any cycles of an agent, whatever the processes use and the API answers, no window of five
-- minutes has more than three evictions.
pub evictions_limited :
    {node : String} {mode : EnforcementMode} {d : SliceViolationDetector} {now : ℕ}
    {history : List ℕ} (window : ℕ)
    → Run node mode d now history
    → length (keep (in_window window) history) ≤ 3
evictions_limited window run = (Run-IsLimited run).limited window
