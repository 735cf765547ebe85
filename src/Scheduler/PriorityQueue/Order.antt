-- ===== src/Scheduler/PriorityQueue/Order.antt =====
-- priorityqueue.go: which request is handed out, and that none is lost.
use vgpu_scheduler.Prelude.{
  ℕ, ◌≡◌, ◌≢◌, refl, sym, subst, String, Bool, true, false, some, [], ◌∷◌, ltb, str_eq_iff,
  str_eq_refl, if◌then◌else◌, arith, inl, inr, Option-cases,
}
use vgpu_scheduler.Prelude.Dict.{
  Dict, lookup, insert, delete, has, Unique, AllVals, lookup-AllVals, lookup-insert,
  lookup-insert_self, lookup-delete_self,
}
use vgpu_scheduler.Scheduler.PriorityQueue.{
  Item, Queue, less, least, push, raise, add, taken, take_least, get_from, get, finish,
}
use vgpu_scheduler.Scheduler.PriorityQueue.Orderly.{IsOrderly}

less-left : (x y z : Item) → less x y ≡ true → less x z ≡ false → less y z ≡ false
unfolding less
less-left x y z h k = ground arith

less-right : (x y z : Item) → less x y ≡ false → less y z ≡ false → less x z ≡ false
unfolding less
less-right x y z h k = ground arith

-- An item of a heap that no other comes before.
abbrev FirstOf : String → Item → Dict Item → String × Item → Type 0
FirstOf req it rest z =
    (lookup z.0 ((req, it) ∷ rest) ≡ some z.1)
    × (less it z.1 ≡ false)
    × AllVals (λ x. less x z.1 ≡ false) rest

least-choice {ℓ} :
    (P : String × Item → Type ℓ) (b : Bool) (r req : String) (x it : Item) (rest : Dict Item)
    → (b ≡ true → P (least r x rest))
    → (b ≡ false → P (least req it rest))
    → P (let c : String × Item = (if b then (r, x) else (req, it)) in least c.0 c.1 rest)
least-choice P true r req x it rest f g = f refl
least-choice P false r req x it rest f g = g refl

first-taken :
    (req r : String) (it x : Item) (rest : Dict Item) (z : String × Item)
    → Unique ((req, it) ∷ (r, x) ∷ rest)
    → less x it ≡ true
    → FirstOf r x rest z
    → FirstOf req it ((r, x) ∷ rest) z
unfolding lookup
first-taken req r it x rest (s, y) u e (found, mine, others) = (
  ground (arith, found, u.0, str_eq_iff req s, str_eq_iff r s, str_eq_iff r req),
  less-left x it y e mine,
  (mine, others),
)

first-kept :
    (req r : String) (it x : Item) (rest : Dict Item) (z : String × Item)
    → Unique ((req, it) ∷ (r, x) ∷ rest)
    → less x it ≡ false
    → FirstOf req it rest z
    → FirstOf req it ((r, x) ∷ rest) z
unfolding lookup
first-kept req r it x rest (s, y) u e (found, mine, others) = (
  ground (arith, found, u.1.0, str_eq_iff req s, str_eq_iff r s),
  mine,
  (less-right x it y e mine, others),
)

least-FirstOf :
    (req : String) (it : Item) (rest : Dict Item)
    → Unique ((req, it) ∷ rest)
    → FirstOf req it rest (least req it rest)
unfolding least
least-FirstOf req it [] u =
    unfold lookup less in (ground (arith, str_eq_refl req), ground arith, tt)
least-FirstOf req it ((r, x) ∷ rest) u =
    least-choice (FirstOf req it ((r, x) ∷ rest)) (less x it) r req x it rest
      (λ e. first-taken req r it x rest (least r x rest) u e (least-FirstOf r x rest u.1))
      (λ e.
        first-kept req r it x rest (least req it rest) u e
          (least-FirstOf req it rest (unfold lookup in ground (arith, u.0), u.1.1)))

get_from-first :
    (m : Dict Item) (q d : Queue) (r : String)
    → q.heap ≡ m
    → IsOrderly q
    → get_from m q ≡ taken r d
    → (x : Item) × (lookup r q.heap ≡ some x)
      × ((s : String) (y : Item) → lookup s q.heap ≡ some y → less y x ≡ false)
      × (has r d.processing ≡ true)
      × (has r d.heap ≡ false)
unfolding get_from take_least
get_from-first [] q d r m h e = absurd (ground (arith, e))
get_from-first ((t, w) ∷ rest) q d r m h e =
    let (s, y) = least t w rest in
    let (found, mine, others) = least-FirstOf t w rest (subst Unique m h.unique) in
    let here : s ≡ r = ground (arith, e) in
    let d_is : record q {
      heap = delete s q.heap;
      dirty = delete s q.dirty;
      processing = insert s tt q.processing;
    }
        ≡ d =
      ground (arith, e) in
    (
      y,
      subst (λ k. lookup k q.heap ≡ some y) here (subst (λ l. lookup s l ≡ some y) (sym m) found),
      λ k z f.
          lookup-AllVals (λ x. less x y ≡ false) k ((t, w) ∷ rest) (mine, others)
            (subst (λ l. lookup k l ≡ some z) m f),
      subst (λ v. has r v.processing ≡ true) d_is
          (ground (arith, here, lookup-insert_self s tt q.processing)),
      subst (λ v. has r v.heap ≡ false) d_is (ground (arith, here, lookup-delete_self s q.heap)),
    )

-- `Get` hands out a queued request that no queued request comes before, by priority and then by
-- arrival, and moves it from the heap to the requests in processing.
pub get_first :
    (q d : Queue) (r : String)
    → IsOrderly q
    → get q ≡ taken r d
    → (x : Item) × (lookup r q.heap ≡ some x)
      × ((s : String) (y : Item) → lookup s q.heap ≡ some y → less y x ≡ false)
      × (has r d.processing ≡ true)
      × (has r d.heap ≡ false)
unfolding get
get_first q d r h e = get_from-first q.heap q d r refl h e

-- A request that is added before the shutdown, queued, in processing or neither, is in the heap once
-- its processing has ended.
pub add_delivered :
    (q : Queue) (req : String) (priority now later : ℕ)
    → IsOrderly q
    → q.shutting_down ≡ false
    → has req (finish (add q req priority now) req later).heap ≡ true
unfolding add push raise finish lookup
add_delivered q req priority now later h open_q = elim (Option-cases (lookup req q.heap)) [
  | inl e ↦ ground (
    arith,
    open_q,
    e,
    str_eq_refl req,
    h.known req,
    h.waiting req,
    lookup-insert_self req priority q.dirty_after_processing,
  )
  | inr (x, e) ↦ ground (
    arith,
    open_q,
    e,
    str_eq_refl req,
    h.known req,
    h.apart req,
    h.waiting req,
    lookup-insert_self req (record x { priority = priority }) q.heap,
  )
]

-- Adding a request that is queued already keeps its arrival and the higher of the two priorities, and
-- changes no other item.
pub add_coalesces :
    (q : Queue) (req : String) (x : Item) (priority now : ℕ)
    → IsOrderly q
    → q.shutting_down ≡ false
    → lookup req q.heap ≡ some x
    → (lookup req (add q req priority now).heap
        ≡ some (record x { priority = if ltb x.priority priority then priority else x.priority }))
      × ((s : String) → s ≢ req → lookup s (add q req priority now).heap ≡ lookup s q.heap)
unfolding add raise
add_coalesces q req x priority now h open_q e = (
  ground (
    arith,
    open_q,
    e,
    h.known req,
    h.apart req,
    lookup-insert_self req (record x { priority = priority }) q.heap,
  ),
  λ s n. ground (
    arith,
    open_q,
    e,
    h.known req,
    h.apart req,
    n,
    str_eq_iff req s,
    lookup-insert req s (record x { priority = priority }) q.heap,
  ),
)
