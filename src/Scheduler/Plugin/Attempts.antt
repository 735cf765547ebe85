-- ===== src/Scheduler/Plugin/Attempts.antt =====
-- internal/scheduler/plugin.go: what an attempt to place a slice leaves of its hold.
use vgpu_scheduler.Prelude.{
  ℕ, ◌≡◌, ◌≢◌, refl, String, Bool, true, false, ◌||◌, none, some, ◌∷◌, ok, arith, inl, inr,
  Option-cases, Bool-cases, Result-cases, List-cases,
}
use vgpu_scheduler.Prelude.Dict.{lookup, insert, lookup-insert_self, lookup-delete_self}
use vgpu_scheduler.Cache.{
  VramCache, AssumedAllocation, pin_assumption, confirm_slice_or_rearm, rollback_assumed_slice,
  update_at, credit_reserved, charge_reserved,
}
use vgpu_scheduler.Cache.Calls.{run}
use vgpu_scheduler.Cache.Ledger.{update_at_frame}
use vgpu_scheduler.Scheduler.Filter.{valid_nodes}
use vgpu_scheduler.Scheduler.Score.{score_with_topology}
use vgpu_scheduler.Scheduler.Reserve.{
  ReservationTx, new_tx, reserve, confirm, rollback_if_not_confirmed, reserve-eq-ok,
}
use vgpu_scheduler.Scheduler.Gang.{
  gang_retry, bind_deferred, bind_wait, bind_rejected, bind_allowed, not_applicable,
}
use vgpu_scheduler.Scheduler.Plugin.{
  GateAnswer, no_gate, slice_unreadable, undetermined, verdict, Answers, Outcome, bound, no_scores,
  reserve_failed, gate_read_failed, gate_retry, gang_terminal, hold_lost, bind_failed,
  gang_deferred, pin_and_bind, past_gate, gate_and_bind, gated, fresh_attempt, no_room, list_nodes,
  slice_preferred_zone, bind_pin_ttl, reserver_ttl,
}

-- An outcome after a reservation that neither binds the slice nor holds it for its gang.
abbrev pub gives_up : Outcome → Bool
gives_up gate_read_failed = true
gives_up gate_retry = true
gives_up gang_terminal = true
gives_up hold_lost = true
gives_up bind_failed = true
gives_up (gang_deferred gang_retry) = true
gives_up (gang_deferred bind_wait) = true
gives_up _ = false

rollback_clears :
    (c : VramCache) (uid : String) → lookup uid (rollback_assumed_slice c uid).assumed ≡ none
unfolding rollback_assumed_slice
rollback_clears c uid = elim (Option-cases (lookup uid c.assumed)) [
  | inl e ↦ ground (arith, e)
  | inr (a, e) ↦
      ground
        (arith, e, lookup-delete_self uid (update_at a.node (credit_reserved a.bytes) c).assumed)
]

-- A confirmed slice: a hold in `confirmed` and none in `assumed`.
abbrev pub IsConfirmed : VramCache → String → Type 0
IsConfirmed c uid =
    (lookup uid c.assumed ≡ none) × ((a : AssumedAllocation) × (lookup uid c.confirmed ≡ some a))

confirms_hold :
    (tx : ReservationTx) (c : VramCache) (now : ℕ) → IsConfirmed (confirm tx c now).1 tx.slice_uid
unfolding confirm confirm_slice_or_rearm
confirms_hold tx c now = elim (Option-cases (lookup tx.slice_uid c.assumed)) [
  | inl e ↦
      let rearmed : AssumedAllocation = record {
        slice_uid = tx.slice_uid;
        namespace = tx.namespace;
        node = tx.node_name;
        bytes = tx.bytes;
        expires_at = now;
      } in
      let (a, f) =
        update_at_frame tx.node_name (charge_reserved tx.bytes)
          (record c { confirmed = insert tx.slice_uid rearmed c.confirmed }) in
      rw (confirm_slice_or_rearm, e, a, f)
        (e, (rearmed, lookup-insert_self tx.slice_uid rearmed c.confirmed))
  | inr (a, e) ↦
      rw (confirm_slice_or_rearm, e)
        (
          lookup-delete_self tx.slice_uid c.assumed,
          (a, lookup-insert_self tx.slice_uid a c.confirmed),
        )
]

-- What the triple that `gate_and_bind` returns says of the transaction and of the cache.
record Ends (outcome : Outcome) (uid : String) (tx : ReservationTx) (d : VramCache) : Type 0 where
  given_up :
      gives_up outcome ≡ true → (tx.slice_uid ≡ uid) × (tx.is_confirmed || tx.is_held ≡ false)
  is_bound : (node : String) → outcome ≡ bound node → (tx.is_confirmed ≡ true) × IsConfirmed d uid

Ends-unbound :
    (outcome : Outcome) (tx : ReservationTx) (d : VramCache)
    → tx.is_confirmed || tx.is_held ≡ false
    → ((n : String) → outcome ≢ bound n)
    → Ends outcome tx.slice_uid tx d
Ends-unbound outcome tx d fresh n = record {
  given_up = λ g. (refl, fresh);
  is_bound = λ m e. absurd (n m e);
}

pin_and_bind-Ends :
    (w : Answers) (node : String) (tx : ReservationTx) (c : VramCache)
    → tx.is_confirmed || tx.is_held ≡ false
    → let (outcome, tx', d) = pin_and_bind w node tx c in Ends outcome tx.slice_uid tx' d
unfolding pin_and_bind
pin_and_bind-Ends w node tx c fresh =
    elim (Option-cases (pin_assumption c tx.slice_uid w.bind_now bind_pin_ttl).1) [
      | inl e ↦ rw (pin_and_bind, e) (Ends-unbound hold_lost tx c fresh (λ n e. absurd (cc)))
      | inr (a, e) ↦ elim (Bool-cases w.bind_succeeds) [
        | inl y ↦
            rw (pin_and_bind, e, y)
              (record {
                given_up = λ g. absurd (cc);
                is_bound = λ n b. (unfold confirm in refl, confirms_hold tx _ w.confirm_now);
              })
        | inr y ↦ rw (pin_and_bind, e, y) (Ends-unbound bind_failed tx _ fresh (λ n e. absurd (cc)))
      ]
    ]

past_gate-Ends :
    (w : Answers) (node : String) (tx : ReservationTx) (c : VramCache) (g : GateAnswer)
    → tx.is_confirmed || tx.is_held ≡ false
    → let (outcome, tx', d) = past_gate w node tx c g in Ends outcome tx.slice_uid tx' d
unfolding past_gate
past_gate-Ends w node tx c no_gate fresh = pin_and_bind-Ends w node tx c fresh
past_gate-Ends w node tx c slice_unreadable fresh =
    Ends-unbound gate_read_failed tx c fresh (λ n e. absurd (cc))
past_gate-Ends w node tx c undetermined fresh =
    Ends-unbound gate_retry tx c fresh (λ n e. absurd (cc))
past_gate-Ends w node tx c (verdict gang_retry) fresh =
    Ends-unbound (gang_deferred gang_retry) tx c fresh (λ n e. absurd (cc))
past_gate-Ends w node tx c (verdict bind_deferred) fresh = record {
  given_up = λ g. absurd (cc);
  is_bound = λ n b. absurd (cc);
}
past_gate-Ends w node tx c (verdict bind_wait) fresh =
    Ends-unbound (gang_deferred bind_wait) tx c fresh (λ n e. absurd (cc))
past_gate-Ends w node tx c (verdict bind_rejected) fresh =
    Ends-unbound gang_terminal tx c fresh (λ n e. absurd (cc))
past_gate-Ends w node tx c (verdict bind_allowed) fresh = pin_and_bind-Ends w node tx c fresh
past_gate-Ends w node tx c (verdict not_applicable) fresh = pin_and_bind-Ends w node tx c fresh

-- The two facts on a cycle's end, whatever path it took.
pub record Leaves (outcome : Outcome) (uid : String) (d : VramCache) : Type 0 where
  pub freed : gives_up outcome ≡ true → lookup uid d.assumed ≡ none
  pub kept : (node : String) → outcome ≡ bound node → IsConfirmed d uid

pub Leaves-other :
    (outcome : Outcome) (uid : String) (d : VramCache)
    → gives_up outcome ≡ false
    → ((n : String) → outcome ≢ bound n)
    → Leaves outcome uid d
Leaves-other outcome uid d g b = record { freed = λ e. absurd (cc); kept = λ n e. absurd (b n e) }

pub gated-Leaves :
    (w : Answers) (node : String) (tx : ReservationTx) (c : VramCache)
    → tx.is_confirmed || tx.is_held ≡ false
    → let (outcome, d) = gated w node tx c in Leaves outcome tx.slice_uid d
unfolding gated gate_and_bind rollback_if_not_confirmed
gated-Leaves w node tx c fresh =
    let ends = past_gate-Ends w node tx (run c w.during_gate) w.gate fresh in
    let (outcome, tx', d) = gate_and_bind w node tx c in
    record {
      freed = λ g.
          (let (same, undone) = ends.given_up g in
            rw (undone, same) (rollback_clears d tx.slice_uid));
      kept = λ n b. (let (done, held) = ends.is_bound n b in rw done held);
    }

no_room-Leaves : (w : Answers) (uid : String) (c : VramCache) → Leaves (no_room w) uid c
unfolding no_room
no_room-Leaves w uid c = Leaves-other (no_room w) uid c (ground arith) (λ n e. ground arith)

reserved-Leaves :
    (w : Answers) (c : VramCache) (uid ns node : String) (requested : ℕ) (tx : ReservationTx)
    (d : VramCache)
    → reserve c uid ns node requested w.now reserver_ttl ≡ ok (tx, d)
    → let (outcome, e) = gated w node tx d in Leaves outcome uid e
unfolding new_tx
reserved-Leaves w c uid ns node requested tx d e =
    let is_new = (reserve-eq-ok c d tx uid ns node requested w.now reserver_ttl e).0 in
    rw is_new (gated-Leaves w node (new_tx uid ns node requested) d refl)

pub fresh_attempt-Leaves :
    (w : Answers) (c : VramCache) (uid ns : String) (requested : ℕ) (best_effort : Bool)
    → let (outcome, d) = fresh_attempt w c uid ns requested best_effort in Leaves outcome uid d
unfolding fresh_attempt
fresh_attempt-Leaves w c uid ns requested best_effort =
    let d = run c w.during_score in
    elim (List-cases (valid_nodes c (list_nodes c) requested)) [
      | inl none_fits ↦ rw (fresh_attempt, none_fits) (no_room-Leaves w uid c)
      | inr (n, more, fit) ↦
          let scores =
            score_with_topology d (n ∷ more) requested best_effort
              (slice_preferred_zone w.zone_read) in
          elim (List-cases scores) [
            | inl none_scored ↦
                rw (fresh_attempt, fit, none_scored)
                  (Leaves-other no_scores uid d refl (λ m e. absurd (cc)))
            | inr (top, rest, scored) ↦
                elim (Result-cases (reserve d uid ns top.node_name requested w.now reserver_ttl)) [
                  | inl ((tx, e), won) ↦
                      rw (fresh_attempt, fit, scored, won)
                        (reserved-Leaves w d uid ns top.node_name requested tx e won)
                  | inr (x, lost) ↦
                      rw (fresh_attempt, fit, scored, lost)
                        (Leaves-other (reserve_failed x) uid d refl (λ m e. absurd (cc)))
                ]
          ]
    ]
