-- ===== src/Scheduler/PriorityQueue.antt =====
-- internal/scheduler/priorityqueue/priorityqueue.go: the work queue of the slice reconciler. Each
-- method is one critical section. The heap is the collection of its items, each under its request,
-- from which container/heap's Pop takes one that no other is less than; the item that `dirty` points
-- to is the heap's item of the request. The priority function, the clock and the rate limiter are
-- the caller's.
pub mod Orderly
mod Examples
pub mod Order
use vgpu_scheduler.Prelude.{
  ℕ, ◌≡◌, String, Bool, true, false, Option, none, some, List, [], ◌∷◌, ltb, ◌==◌, if◌then◌else◌,
}
use vgpu_scheduler.Prelude.Dict.{Dict, lookup, insert, delete, has}

pub record Item : Type 0 where
  pub priority : ℕ
  pub enqueued : ℕ

pub record Queue : Type 0 where
  pub heap : Dict Item
  pub dirty : Dict (Unit {0})
  pub processing : Dict (Unit {0})
  pub dirty_after_processing : Dict ℕ
  pub shutting_down : Bool

unfoldable pub new_queue : Queue
new_queue = record {
  heap = [];
  dirty = [];
  processing = [];
  dirty_after_processing = [];
  shutting_down = false;
}

-- `Less`: the higher priority first, then the earlier arrival.
unfoldable pub less : Item → Item → Bool
less x y = if x.priority == y.priority then ltb x.enqueued y.enqueued else ltb y.priority x.priority

-- The item that Pop takes from a heap with at least one.
unfoldable pub least : String → Item → Dict Item → String × Item
unfolding less
least req it [] = (req, it)
least req it ((r, x) ∷ rest) =
    let (s, y) = (if less x it then (r, x) else (req, it)) in least s y rest

-- A push with its entry in `dirty`.
unfoldable pub push : String → ℕ → ℕ → Queue → Queue
push req priority now q = record q {
  heap = (req, record { priority = priority; enqueued = now }) ∷ q.heap;
  dirty = insert req tt q.dirty;
}

-- The item of a request that is queued: a higher priority replaces its own, and its arrival stays.
unfoldable pub raise : String → ℕ → Queue → Queue
raise req priority q = elim (lookup req q.heap) [
  | none ↦ q
  | some x ↦
      if ltb x.priority priority
      then record q { heap = insert req (record x { priority = priority }) q.heap }
      else q
]

unfoldable pub add : Queue → String → ℕ → ℕ → Queue
unfolding push raise
add q req priority now =
    if q.shutting_down
    then q
    else if has req q.processing
    then record q { dirty_after_processing = insert req priority q.dirty_after_processing }
    else if has req q.dirty
    then raise req priority q
    else push req priority now q

-- What a call of `Get` comes to: it waits, it reports the shutdown, or it hands out a request.
pub data Taken : Type 0 where
  waits shut_down : Taken
  taken : String → Queue → Taken

unfoldable pub take_least : String × Item → Queue → Taken
take_least (req, it) q = taken req (record q {
  heap = delete req q.heap;
  dirty = delete req q.dirty;
  processing = insert req tt q.processing;
})

unfoldable pub get_from : Dict Item → Queue → Taken
unfolding least take_least
get_from [] q = if q.shutting_down then shut_down else waits
get_from ((r, x) ∷ rest) q = take_least (least r x rest) q

unfoldable pub get : Queue → Taken
unfolding get_from
get q = get_from q.heap q

unfoldable pub finish : Queue → String → ℕ → Queue
unfolding push
finish q req now =
    let p = record q { processing = delete req q.processing } in
    elim (lookup req q.dirty_after_processing) [
      | none ↦ p
      | some priority ↦
          push req priority now
            (record p { dirty_after_processing = delete req p.dirty_after_processing })
    ]

unfoldable pub start_shut_down : Queue → Queue
start_shut_down q = record q { shutting_down = true }
