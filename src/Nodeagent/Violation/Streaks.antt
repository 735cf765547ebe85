-- ===== src/Nodeagent/Violation/Streaks.antt =====
-- internal/nodeagent/violation.go: what the streaks remember of the observations.
use vgpu_scheduler.Prelude.{
  ℕ, ◌+◌, ◌≡◌, refl, ap, ◌∙◌, String, Bool, false, ◌&&◌, not, none, List, [], ◌∷◌, leb, sum_by,
  sum_by_nil, sum_by_cons, if◌then◌else◌, str_eq, str_eq_iff, arith, Bool-cases, inl, inr,
}
use vgpu_scheduler.Prelude.Dict.{Dict, lookup, insert, lookup-insert, lookup-insert_self}
use vgpu_scheduler.Api.{VgpuSlice}
use vgpu_scheduler.Nodeagent.Violation.{
  ViolationDetector, evaluate, is_over, count_or_zero, flag_or_false, holds_card, grant_from,
  granted_bytes_by_card,
}

-- What was used and what was granted in one cycle.
abbrev pub Sample : Type 0
Sample = ℕ × ℕ

-- The detector after the samples of one GPU, the latest one first.
unfoldable pub observe : String → List Sample → ViolationDetector → ViolationDetector
observe uuid [] d = d
observe uuid ((used, granted) ∷ older) d = (evaluate uuid used granted (observe uuid older d)).1

abbrev pub over : Sample → Bool
over (used, granted) = is_over used granted

-- The length of the run of samples over the grant with which the list begins.
abbrev run_of : List Sample → ℕ
run_of [] = 0
run_of (s ∷ older) = if over s then run_of older + 1 else 0

-- The last three samples are over the grant.
abbrev pub sustained : List Sample → Bool
sustained (a ∷ b ∷ c ∷ older) = over a && over b && over c
sustained _ = false

streak_run :
    (uuid : String) (samples : List Sample) (d : ViolationDetector)
    → lookup uuid d.streak ≡ none
    → count_or_zero (lookup uuid (observe uuid samples d).streak) ≡ run_of samples
unfolding observe evaluate
streak_run uuid [] d fresh = rw fresh refl
streak_run uuid ((used, granted) ∷ older) d fresh =
    let e = observe uuid older d in
    let streak = if is_over used granted then count_or_zero (lookup uuid e.streak) + 1 else 0 in
    ap count_or_zero (lookup-insert_self uuid streak e.streak)
    ∙ ap (λ n. if is_over used granted then n + 1 else 0) (streak_run uuid older d fresh)

run-sustained : (samples : List Sample) → leb 3 (run_of samples) ≡ sustained samples
run-sustained [] = refl
run-sustained (a ∷ []) = ground arith
run-sustained (a ∷ b ∷ []) = ground arith
run-sustained (a ∷ b ∷ c ∷ older) = ground arith

active_sustained :
    (uuid : String) (samples : List Sample) (d : ViolationDetector)
    → lookup uuid d.streak ≡ none
    → lookup uuid d.active ≡ none
    → flag_or_false (lookup uuid (observe uuid samples d).active) ≡ sustained samples
unfolding observe evaluate
active_sustained uuid [] d fresh unseen = rw unseen refl
active_sustained uuid ((used, granted) ∷ older) d fresh unseen =
    let e = observe uuid older d in
    let streak = if is_over used granted then count_or_zero (lookup uuid e.streak) + 1 else 0 in
    ap flag_or_false (lookup-insert_self uuid (leb 3 streak) e.active)
    ∙ ap (λ n. leb 3 (if is_over used granted then n + 1 else 0)) (streak_run uuid older d fresh)
    ∙ run-sustained ((used, granted) ∷ older)

-- After any samples of a GPU that the detector had not seen, it says violating exactly when the last
-- three samples are all over the grant by more than the tolerance, and reports an onset exactly when
-- this did not hold one sample before.
pub evaluate_exact :
    (uuid : String) (used granted : ℕ) (older : List Sample) (d : ViolationDetector)
    → lookup uuid d.streak ≡ none
    → lookup uuid d.active ≡ none
    → let v = (evaluate uuid used granted (observe uuid older d)).0 in
      (v.violating ≡ sustained ((used, granted) ∷ older))
      × (v.onset ≡ sustained ((used, granted) ∷ older) && not (sustained older))
unfolding evaluate
evaluate_exact uuid used granted older d fresh unseen =
    let e = observe uuid older d in
    let streak = if is_over used granted then count_or_zero (lookup uuid e.streak) + 1 else 0 in
    let now : leb 3 streak ≡ sustained ((used, granted) ∷ older) =
      ap (λ n. leb 3 (if is_over used granted then n + 1 else 0)) (streak_run uuid older d fresh)
      ∙ run-sustained ((used, granted) ∷ older) in
    (
      now,
      ap (λ b. b && not (flag_or_false (lookup uuid e.active))) now
          ∙ ap (λ b. sustained ((used, granted) ∷ older) && not b)
              (active_sustained uuid older d fresh unseen),
    )

-- What a slice adds to the grant of a card.
abbrev pub share : String → String → VgpuSlice → ℕ
share node uuid s = if holds_card node s && str_eq s.device_uuid uuid then s.requested_vram else 0

add_share : String → VgpuSlice → Dict ℕ → Dict ℕ
add_share node s by_card =
    if holds_card node s
    then insert s.device_uuid (count_or_zero (lookup s.device_uuid by_card) + s.requested_vram)
        by_card
    else by_card

add_share_exact :
    (node uuid : String) (s : VgpuSlice) (by_card : Dict ℕ)
    → count_or_zero (lookup uuid (add_share node s by_card))
      ≡ count_or_zero (lookup uuid by_card) + share node uuid s
unfolding add_share
add_share_exact node uuid s by_card = elim (Bool-cases (holds_card node s)) [
  | inr passed ↦ rw passed (omega arith)
  | inl held ↦
      let sum = count_or_zero (lookup s.device_uuid by_card) + s.requested_vram in
      elim (Bool-cases (str_eq s.device_uuid uuid)) [
        | inr other ↦ rw (held, lookup-insert s.device_uuid uuid sum by_card, other) (omega arith)
        | inl same ↦
            rw (held, lookup-insert s.device_uuid uuid sum by_card, same)
              (rw ((str_eq_iff s.device_uuid uuid).0 same) (omega arith))
      ]
]

grant_from_exact :
    (node uuid : String) (slices : List VgpuSlice) (by_card : Dict ℕ)
    → count_or_zero (lookup uuid (grant_from node slices by_card))
      ≡ count_or_zero (lookup uuid by_card) + sum_by (share node uuid) slices
unfolding grant_from add_share
grant_from_exact node uuid [] by_card = omega (arith, sum_by_nil (share node uuid))
grant_from_exact node uuid (s ∷ ss) by_card =
    let first = add_share_exact node uuid s by_card in
    grant_from_exact node uuid ss (add_share node s by_card)
    ∙ omega (arith, first, sum_by_cons (share node uuid) s ss)

-- The grant that a card's use is compared with is the sum of what the slices on that node and card
-- request, over the slices in a phase that holds capacity.
pub granted_exact :
    (node uuid : String) (slices : List VgpuSlice)
    → count_or_zero (lookup uuid (granted_bytes_by_card node slices))
      ≡ sum_by (share node uuid) slices
unfolding granted_bytes_by_card
granted_exact node uuid slices = grant_from_exact node uuid slices [] ∙ unfold lookup in omega arith
