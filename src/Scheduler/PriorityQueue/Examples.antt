-- ===== src/Scheduler/PriorityQueue/Examples.antt =====
-- priorityqueue.go: the results at a queue with two requests.
use vgpu_scheduler.Prelude.{[], false, ◌∷◌}
use vgpu_scheduler.Scheduler.PriorityQueue.{Item, Queue}

abbrev best_effort : Item
best_effort = record { priority = 10; enqueued = 1 }

abbrev guaranteed : Item
guaranteed = record { priority = 100; enqueued = 2 }

abbrev two_queued : Queue
two_queued = record {
  heap = ("late", guaranteed) ∷ ("early", best_effort) ∷ [];
  dirty = ("early", tt) ∷ ("late", tt) ∷ [];
  processing = [];
  dirty_after_processing = [];
  shutting_down = false;
}

abbrev one_taken : Queue
one_taken = record {
  heap = ("early", best_effort) ∷ [];
  dirty = ("early", tt) ∷ [];
  processing = ("late", tt) ∷ [];
  dirty_after_processing = [];
  shutting_down = false;
}
