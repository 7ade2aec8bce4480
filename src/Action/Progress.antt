-- ===== src/Action/Progress.antt =====
-- How an action can end (taskguard/v3/action_machine.py).
use bricek4_ligong_skills.Base.{
  ℕ, zero, suc, ◌+◌, ◌≤◌, ◌≡◌, refl, ap, inl, inr, Bool, true, false, Bool-cases, some, [], ◌∷◌,
  ◌++◌, arith, ok, err, str, get, get_value, raise_if,
}
use bricek4_ligong_skills.Action.{
  declared, preflighted, planned, authorized, rollback_ready, apply_intent_written, applying,
  effect_unknown, reconciling, not_applied, applied, observing, healthy, health_failed,
  rollback_required, rollback_intent_written, rolling_back, rollback_unknown, rolled_back,
  recovery_observing, recovered, terminal, terminal_error, preflight, plan, authorize,
  prove_rollback_ready, write_apply_intent, start_apply, apply_unknown, start_reconcile,
  reconcile_not_applied, start_observe, health_fail, require_rollback, write_rollback_intent,
  start_rollback, rollback_lost, start_recovery_observe, recovery_healthy, finalize_success,
  finalize_error, ActionLifecycle, ActionEvent, ActionState, transitions, no_transition,
  reduce_action, replay,
}
use bricek4_ligong_skills.Action.Traces.{Payload, Steps, rank, rank-transitions}

abbrev pub is_final : ActionLifecycle → Bool
is_final terminal = true
is_final terminal_error = true
is_final _ = false

-- One way on from each lifecycle that is not final.
abbrev usual_event : ActionLifecycle → ActionEvent
usual_event declared = preflight
usual_event preflighted = plan
usual_event planned = authorize
usual_event authorized = prove_rollback_ready
usual_event rollback_ready = write_apply_intent
usual_event apply_intent_written = start_apply
usual_event applying = apply_unknown
usual_event effect_unknown = start_reconcile
usual_event reconciling = reconcile_not_applied
usual_event not_applied = finalize_error
usual_event applied = start_observe
usual_event observing = health_fail
usual_event healthy = finalize_success
usual_event health_failed = require_rollback
usual_event rollback_required = write_rollback_intent
usual_event rollback_intent_written = start_rollback
usual_event rolling_back = rollback_lost
usual_event rollback_unknown = start_recovery_observe
usual_event rolled_back = start_recovery_observe
usual_event recovery_observing = recovery_healthy
usual_event recovered = finalize_error
usual_event _ = finalize_error

abbrev reason : Payload
reason = ("failure_reason", str "operator stop") ∷ []

rank_final : (l : ActionLifecycle) → 18 ≤ rank l → is_final l ≡ true
rank_final l h = ground arith

usual_next :
    (l : ActionLifecycle)
    → is_final l ≡ false
    → (l' : ActionLifecycle) × (transitions l (usual_event l) ≡ some l')
unfolding transitions
usual_next terminal h = cc
usual_next terminal_error h = cc
usual_next _ h = (_, refl)

accepted :
    (s : ActionState) (e : ActionEvent) {l : ActionLifecycle}
    → transitions s.lifecycle e ≡ some l
    → (s' : ActionState) × (reduce_action s e reason ≡ ok s') × (s'.lifecycle ≡ l)
unfolding reduce_action get_value get raise_if
accepted s e {l} h = (
  record {
    lifecycle = l;
    revision = s.revision + 1;
    evidence = s.evidence ++ [];
    failure_reason = str "operator stop";
  },
  ground arith,
  refl,
)

final_refuses :
    (s : ActionState) (e : ActionEvent) (p : Payload)
    → is_final s.lifecycle ≡ true
    → reduce_action s e p ≡ err (no_transition s.lifecycle e)
unfolding reduce_action transitions
final_refuses s e p h = ground arith

-- A way to a final state, from a state whose rank is at least 18 - n.
finish_from :
    (n : ℕ) (s : ActionState)
    → 18 ≤ n + rank s.lifecycle
    → (es : Steps) × (t : ActionState) × (replay s es ≡ ok t) × (is_final t.lifecycle ≡ true)
unfolding replay
finish_from zero s h = ([], s, refl, rank_final s.lifecycle (omega arith))
finish_from (suc n) s h = elim (Bool-cases (is_final s.lifecycle)) [
  | inl final ↦ ([], s, refl, final)
  | inr going ↦
      let (l, moved) = usual_next s.lifecycle going in
      let e = usual_event s.lifecycle in
      let (s', step, at) = accepted s e moved in
      let (es, t, rest, final) =
        finish_from n s' (omega (arith, rank-transitions s.lifecycle e moved, ap rank at)) in
      ((e, reason) ∷ es, t, rw step rest, final)
]

-- From every state some sequence of events is accepted up to TERMINAL or TERMINAL_ERROR; and in these
-- two lifecycles every event, with any payload, is refused as an undefined transition.
pub always_finishes :
    (s : ActionState)
    → ((es : Steps) × (t : ActionState) × (replay s es ≡ ok t) × (is_final t.lifecycle ≡ true))
      × (is_final s.lifecycle ≡ true
          → (e : ActionEvent) (p : Payload)
          → reduce_action s e p ≡ err (no_transition s.lifecycle e))
always_finishes s = (finish_from 18 s (omega arith), λ final e p. final_refuses s e p final)
