-- ===== src/Scheduler/Plugin/Undisturbed.antt =====
-- internal/scheduler/plugin.go: a cycle that gives up leaves the nodes as it found them.
use vgpu_scheduler.Prelude.{
  ℕ, ◌+◌, ◌≡◌, ◌∙◌, refl, sym, ap, subst, String, Bool, true, false, ◌||◌, not, none, List, [], ◌∷◌,
  if_elim, ok, arith, inl, inr, Option-cases, Bool-cases, Result-cases, List-cases,
}
use vgpu_scheduler.Prelude.Dict.{lookup, lookup-insert_self}
use vgpu_scheduler.Cache.{VramCache, pin_assumption, rollback_assumed_slice, update_at}
use vgpu_scheduler.Cache.Calls.{Call, run}
use vgpu_scheduler.Cache.Balances.{IsConsistent}
use vgpu_scheduler.Scheduler.Gang.{
  gang_retry, bind_deferred, bind_wait, bind_rejected, bind_allowed, not_applicable,
}
use vgpu_scheduler.Scheduler.Filter.{valid_nodes}
use vgpu_scheduler.Scheduler.Score.{score_with_topology}
use vgpu_scheduler.Scheduler.Reserve.{
  ReservationTx, new_tx, reserve, rollback_if_not_confirmed, reserve-eq-ok, rollback-reserve,
}
use vgpu_scheduler.Scheduler.Plugin.Attempts.{gives_up}
use vgpu_scheduler.Scheduler.Plugin.{
  GateAnswer, no_gate, slice_unreadable, undetermined, verdict, Answers, Outcome, cache_not_ready,
  gate_read_failed, gate_retry, gang_terminal, gang_deferred, pin_and_bind, past_gate,
  gate_and_bind, gated, no_room, list_nodes, slice_preferred_zone, fresh_attempt, warm_cycle,
  schedule, quota_stop, bind_pin_ttl, reserver_ttl, gang_hold_ttl,
}

-- No other goroutine calls the cache during the cycle.
pub record IsQuiet (w : Answers) : Type 0 where
  pub quota : w.during_quota ≡ []
  pub score : w.during_score ≡ []
  pub gate : w.during_gate ≡ []
  pub bind : w.during_bind ≡ []

rollback-pin :
    (c : VramCache) (uid : String) (now ttl : ℕ)
    → (rollback_assumed_slice (pin_assumption c uid now ttl).0 uid).nodes
      ≡ (rollback_assumed_slice c uid).nodes
unfolding rollback_assumed_slice pin_assumption update_at
rollback-pin c uid now ttl = elim (Option-cases (lookup uid c.assumed)) [
  | inl e ↦ ground (arith, e)
  | inr (a, e) ↦
      ground (arith, e, lookup-insert_self uid (record a { expires_at = now + ttl }) c.assumed)
]

abbrev GivesBack : VramCache → String → Outcome × ReservationTx × VramCache → Type 0
GivesBack c uid p =
    gives_up p.0 ≡ true
    → (rollback_if_not_confirmed p.1 p.2).nodes ≡ (rollback_assumed_slice c uid).nodes

pin_and_bind-GivesBack :
    (w : Answers) (node : String) (tx : ReservationTx) (c : VramCache)
    → IsQuiet w
    → tx.is_confirmed || tx.is_held ≡ false
    → GivesBack c tx.slice_uid (pin_and_bind w node tx c)
unfolding pin_and_bind rollback_if_not_confirmed run
pin_and_bind-GivesBack w node tx c quiet fresh =
    elim (Option-cases (pin_assumption c tx.slice_uid w.bind_now bind_pin_ttl).1) [
      | inl e ↦ rw (pin_and_bind, e) (λ g. rw fresh refl)
      | inr (a, e) ↦ elim (Bool-cases w.bind_succeeds) [
        | inl y ↦ rw (pin_and_bind, e, y) (λ g. absurd (cc))
        | inr y ↦
            rw (pin_and_bind, e, y)
              (λ g. rw (fresh, quiet.bind) (rollback-pin c tx.slice_uid w.bind_now bind_pin_ttl))
      ]
    ]

leaves-GivesBack :
    (o : Outcome) (tx : ReservationTx) (c : VramCache)
    → tx.is_confirmed || tx.is_held ≡ false
    → GivesBack c tx.slice_uid (o, tx, c)
unfolding rollback_if_not_confirmed
leaves-GivesBack o tx c fresh g = rw fresh refl

past_gate-GivesBack :
    (w : Answers) (node : String) (tx : ReservationTx) (c : VramCache) (a : GateAnswer)
    → IsQuiet w
    → tx.is_confirmed || tx.is_held ≡ false
    → GivesBack c tx.slice_uid (past_gate w node tx c a)
unfolding past_gate
past_gate-GivesBack w node tx c no_gate q fresh = pin_and_bind-GivesBack w node tx c q fresh
past_gate-GivesBack w node tx c slice_unreadable q fresh =
    leaves-GivesBack gate_read_failed tx c fresh
past_gate-GivesBack w node tx c undetermined q fresh = leaves-GivesBack gate_retry tx c fresh
past_gate-GivesBack w node tx c (verdict gang_retry) q fresh =
    leaves-GivesBack (gang_deferred gang_retry) tx c fresh
past_gate-GivesBack w node tx c (verdict bind_deferred) q fresh = λ g. absurd (cc)
past_gate-GivesBack w node tx c (verdict bind_wait) q fresh =
    leaves-GivesBack (gang_deferred bind_wait) tx c fresh
past_gate-GivesBack w node tx c (verdict bind_rejected) q fresh =
    leaves-GivesBack gang_terminal tx c fresh
past_gate-GivesBack w node tx c (verdict bind_allowed) q fresh =
    pin_and_bind-GivesBack w node tx c q fresh
past_gate-GivesBack w node tx c (verdict not_applicable) q fresh =
    pin_and_bind-GivesBack w node tx c q fresh

abbrev Restores : VramCache → Outcome × VramCache → Type 0
Restores c p = gives_up p.0 ≡ true → (n : String) → lookup n p.1.nodes ≡ lookup n c.nodes

gated-GivesBack :
    (w : Answers) (node : String) (tx : ReservationTx) (c : VramCache)
    → IsQuiet w
    → tx.is_confirmed || tx.is_held ≡ false
    → gives_up (gated w node tx c).0 ≡ true
    → (gated w node tx c).1.nodes ≡ (rollback_assumed_slice c tx.slice_uid).nodes
unfolding gated gate_and_bind run
gated-GivesBack w node tx c q fresh =
    subst (λ calls. GivesBack c tx.slice_uid (past_gate w node tx (run c calls) w.gate))
      (sym q.gate) (past_gate-GivesBack w node tx c w.gate q fresh)

reserved-Restores :
    (w : Answers) (c d : VramCache) (uid ns node : String) (requested : ℕ) (tx : ReservationTx)
    → IsQuiet w
    → IsConsistent c
    → reserve c uid ns node requested w.now reserver_ttl ≡ ok (tx, d)
    → Restores c (gated w node tx d)
unfolding new_tx rollback_if_not_confirmed
reserved-Restores w c d uid ns node requested tx q h e g n =
    let is_new = (reserve-eq-ok c d tx uid ns node requested w.now reserver_ttl e).0 in
    let fresh : tx.is_confirmed || tx.is_held ≡ false = rw is_new refl in
    let undone = (rollback-reserve c d tx uid ns node requested w.now reserver_ttl h e).0 n in
    let rolled : lookup n (rollback_assumed_slice d tx.slice_uid).nodes ≡ lookup n c.nodes =
      rw (rollback_if_not_confirmed, fresh) at undone in
    ap (λ m. lookup n m) (gated-GivesBack w node tx d q fresh g) ∙ rolled

run-quiet : (c : VramCache) (calls : List Call) → calls ≡ [] → run c calls ≡ c
unfolding run
run-quiet c calls e = subst (λ z. run c z ≡ c) (sym e) refl

-- A reservation on a cache that is still the one of the start.
still-Restores :
    (w : Answers) (c d e : VramCache) (uid ns node : String) (requested : ℕ) (tx : ReservationTx)
    → IsQuiet w
    → IsConsistent c
    → d ≡ c
    → reserve d uid ns node requested w.now reserver_ttl ≡ ok (tx, e)
    → Restores c (gated w node tx e)
still-Restores w c d e uid ns node requested tx q h still won =
    subst (λ z. Restores z (gated w node tx e)) still
      (reserved-Restores w d e uid ns node requested tx q (subst IsConsistent (sym still) h) won)

fresh_attempt-Restores :
    (w : Answers) (c : VramCache) (uid ns : String) (requested : ℕ) (best_effort : Bool)
    → IsQuiet w
    → IsConsistent c
    → Restores c (fresh_attempt w c uid ns requested best_effort)
unfolding fresh_attempt no_room
fresh_attempt-Restores w c uid ns requested best_effort q h =
    let d = run c w.during_score in
    let still : run c w.during_score ≡ c = run-quiet c w.during_score q.score in
    elim (List-cases (valid_nodes c (list_nodes c) requested)) [
      | inl none_fits ↦ rw (fresh_attempt, none_fits) (λ g n. refl)
      | inr (n, more, fit) ↦
          let scores =
            score_with_topology d (n ∷ more) requested best_effort
              (slice_preferred_zone w.zone_read) in
          elim (List-cases scores) [
            | inl none_scored ↦ rw (fresh_attempt, fit, none_scored) (λ g. absurd (cc))
            | inr (top, rest, scored) ↦
                elim (Result-cases (reserve d uid ns top.node_name requested w.now reserver_ttl)) [
                  | inl ((tx, e), won) ↦
                      rw (fresh_attempt, fit, scored, won)
                        (still-Restores w c d e uid ns top.node_name requested tx q h still won)
                  | inr (x, lost) ↦ rw (fresh_attempt, fit, scored, lost) (λ g. absurd (cc))
                ]
          ]
    ]

pin-none :
    (c : VramCache) (uid : String) (now ttl : ℕ)
    → lookup uid c.assumed ≡ none
    → (pin_assumption c uid now ttl).1 ≡ none
unfolding pin_assumption
pin-none c uid now ttl e = ground (arith, e)

warm_cycle-Restores :
    (w : Answers) (c : VramCache) (uid ns : String) (requested : ℕ) (best_effort : Bool)
    → IsQuiet w
    → IsConsistent c
    → lookup uid c.assumed ≡ none
    → Restores c (warm_cycle w c uid ns requested best_effort)
unfolding warm_cycle
warm_cycle-Restores w c uid ns requested best_effort q h unheld =
    let d = run c w.during_quota in
    let still : run c w.during_quota ≡ c = run-quiet c w.during_quota q.quota in
    let h' : IsConsistent d = subst IsConsistent (sym still) h in
    let unpinned : (pin_assumption d uid w.now gang_hold_ttl).1 ≡ none =
      pin-none d uid w.now gang_hold_ttl (ap (λ z. lookup uid z.assumed) still ∙ unheld) in
    elim (Option-cases (quota_stop w.quota d ns requested)) [
      | inr (o, stopped) ↦ rw (warm_cycle, stopped) (λ g n. ap (λ z. lookup n z.nodes) still)
      | inl passed ↦
          rw (warm_cycle, passed, unpinned)
            (subst (λ z. Restores z (fresh_attempt w d uid ns requested best_effort)) still
              (fresh_attempt-Restores w d uid ns requested best_effort q h'))
    ]

-- A cycle for a slice without a hold, on a consistent cache, that reserves capacity and then gives up
-- leaves the account of every node as it was, when no other goroutine calls the cache meanwhile.
pub schedule-Restores :
    (w : Answers) (c : VramCache) (uid ns : String) (requested : ℕ) (best_effort : Bool)
    → IsQuiet w
    → IsConsistent c
    → lookup uid c.assumed ≡ none
    → gives_up (schedule w c uid ns requested best_effort).0 ≡ true
    → (n : String) → lookup n (schedule w c uid ns requested best_effort).1.nodes ≡ lookup n c.nodes
unfolding schedule
schedule-Restores w c uid ns requested best_effort q h unheld =
    if_elim (Restores c) (not c.seeded) (cache_not_ready, c)
      (warm_cycle w c uid ns requested best_effort) (λ _ g n. refl)
      (λ _. warm_cycle-Restores w c uid ns requested best_effort q h unheld)
