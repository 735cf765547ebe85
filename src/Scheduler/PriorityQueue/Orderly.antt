-- ===== src/Scheduler/PriorityQueue/Orderly.antt =====
-- priorityqueue.go: that a request is in one place.
use vgpu_scheduler.Prelude.{ℕ, ◌≡◌, String, true, false}
use vgpu_scheduler.Prelude.Dict.{Dict, has, Unique}
use vgpu_scheduler.Scheduler.PriorityQueue.{
  Queue, add, Taken, waits, shut_down, taken, get, finish, start_shut_down,
}

-- Each request is in one place: it has one item in the heap, which `dirty` knows exactly, or it is
-- being processed, and only then may it wait for the end of the processing.
pub record IsOrderly (q : Queue) : Type 0 where
  pub unique : Unique q.heap
  pub known : (r : String) → has r q.dirty ≡ has r q.heap
  pub apart : (r : String) → has r q.processing ≡ true → has r q.heap ≡ false
  pub waiting : (r : String) → has r q.dirty_after_processing ≡ true → has r q.processing ≡ true

-- The calls of the queue.
pub data Request : Type 0 where
  adds : (req : String) (priority now : ℕ) → Request
  gets : Request
  finishes : (req : String) (now : ℕ) → Request
  shuts_down : Request

abbrev queue_after : Queue → Taken → Queue
queue_after q waits = q
queue_after q shut_down = q
queue_after q (taken r d) = d

unfoldable pub serve : Queue → Request → Queue
serve q (adds req priority now) = add q req priority now
serve q gets = queue_after q (get q)
serve q (finishes req now) = finish q req now
serve q shuts_down = start_shut_down q
