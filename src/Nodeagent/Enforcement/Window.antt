-- ===== src/Nodeagent/Enforcement/Window.antt =====
-- internal/nodeagent/enforcement.go: the times of evictions and the windows that they fall in.
use vgpu_scheduler.Prelude.{
  ℕ, ◌+◌, ◌≤◌, ◌<◌, ◌≡◌, refl, Bool, true, ◌&&◌, List, [], ◌∷◌, ◌++◌, length, keep, length-keep_nil,
  length-keep_cons, length-keep-le, length-keep_append, length-keep_mono, length-keep-keep, ltb,
  leb, if◌then◌else◌, arith, Bool-cases, inl, inr,
}
use vgpu_scheduler.Nodeagent.Enforcement.{
  Action, marked, stamped, cleared, evicted, blocked, is_recent, eviction_window,
}

-- The times of the evictions, the latest one first: each one among the actions of a cycle adds its time.
unfoldable pub log : ℕ → List Action → List ℕ → List ℕ
log now [] history = history
log now (evicted p ∷ more) history = log now more (now ∷ history)
log now (marked k v ∷ more) history = log now more history
log now (stamped k ps ∷ more) history = log now more history
log now (cleared k ps ∷ more) history = log now more history
log now (blocked p r ∷ more) history = log now more history

abbrev pub in_window : ℕ → ℕ → Bool
in_window start h = ltb start h && leb h (start + eviction_window)

-- What the agent's own times have to do with all evictions so far: they cover the recent ones, and no
-- window has more than three.
pub record IsLimited (times : List ℕ) (now : ℕ) (history : List ℕ) : Type 0 where
  pub covers :
      (t : ℕ) → now ≤ t → length (keep (is_recent t) history) ≤ length (keep (is_recent t) times)
  pub limited : (start : ℕ) → length (keep (in_window start) history) ≤ 3

pub IsLimited-later :
    (times : List ℕ) (now later : ℕ) (history : List ℕ)
    → now ≤ later
    → IsLimited times now history
    → IsLimited times later history
IsLimited-later times now later history le l = record {
  covers = λ t h. l.covers t (omega arith);
  limited = l.limited;
}

recent_earlier : (now t h : ℕ) → now ≤ t → is_recent t h ≡ true → is_recent now h ≡ true
recent_earlier now t h le e = ground arith

pub IsLimited-prune :
    (times : List ℕ) (now : ℕ) (history : List ℕ)
    → IsLimited times now history
    → IsLimited (keep (is_recent now) times) now history
IsLimited-prune times now history l = record {
  covers = λ t h. omega (
    arith,
    l.covers t h,
    length-keep-keep (is_recent t) (is_recent now) times (λ x. recent_earlier now t x h),
  );
  limited = l.limited;
}

window_recent :
    (start now h : ℕ)
    → in_window start now ≡ true
    → in_window start h ≡ true
    → is_recent now h ≡ true
window_recent start now h e f = ground arith

add_limited :
    (times : List ℕ) (now : ℕ) (history : List ℕ) (start : ℕ)
    → IsLimited times now history
    → length times < 3
    → length (keep (in_window start) (now ∷ history)) ≤ 3
add_limited times now history start l room =
    let head = length-keep_cons (in_window start) now history in
    elim (Bool-cases (in_window start now)) [
      | inr out ↦
          let none_more : ◌≡◌ {A = ℕ} (if in_window start now then 1 else 0) 0 = rw out refl in
          omega (arith, head, none_more, l.limited start)
      | inl inside ↦
          let one_more : ◌≡◌ {A = ℕ} (if in_window start now then 1 else 0) 1 = rw inside refl in
          omega (
            arith,
            head,
            one_more,
            l.covers now (omega arith),
            length-keep-le (is_recent now) times,
            length-keep_mono (in_window start) (is_recent now) history
                (λ h. window_recent start now h inside),
          )
    ]

-- One more eviction, where the times have room for it.
pub IsLimited-add :
    (times : List ℕ) (now : ℕ) (history : List ℕ)
    → IsLimited times now history
    → length times < 3
    → IsLimited (times ++ now ∷ []) now (now ∷ history)
IsLimited-add times now history l room = record {
  covers = λ t h. omega (
    arith,
    l.covers t h,
    length-keep_cons (is_recent t) now history,
    length-keep_cons (is_recent t) now [],
    length-keep_nil (is_recent t),
    length-keep_append (is_recent t) times (now ∷ []),
  );
  limited = λ start. add_limited times now history start l room;
}
