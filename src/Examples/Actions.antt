-- ===== src/Examples/Actions.antt =====
-- Runs of the action machine (taskguard/v3/action_machine.py).
use bricek4_ligong_skills.Base.{
  ◌≡◌, ◌⊎◌, refl, ◌≤◌, true, List, [], ◌∷◌, ◌++◌, ok, err, null, str, false≢true, is_filled, length,
  raise_if, get_value,
}
use bricek4_ligong_skills.Action.{
  preflight, plan, authorize, prove_rollback_ready, write_apply_intent, start_apply, apply_unknown,
  apply_confirmed, start_observe, health_pass, finalize_success, ActionEvent, ActionState,
  transitions, reduce_action, replay, new_action, no_transition, terminal, applying, effect_unknown,
}
use bricek4_ligong_skills.Action.Traces.{Steps, Payload, replay_bounded}
use bricek4_ligong_skills.Action.Finish.{
  events_of, confirmed_success, reconciled_success, effect_needs_guards, success_is_clean,
  failure_has_reason,
}
use bricek4_ligong_skills.Action.Progress.{is_final, always_finishes}

abbrev with_evidence : Payload
with_evidence = ("evidence_ref", str "receipt-1") ∷ []

abbrev started : Steps
started =
    (preflight, with_evidence)
    ∷ (plan, [])
    ∷ (authorize, [])
    ∷ (prove_rollback_ready, with_evidence)
    ∷ (write_apply_intent, [])
    ∷ (start_apply, [])
    ∷ []

abbrev lost : Steps
lost = started ++ ((apply_unknown, ("failure_reason", str "TIMEOUT") ∷ []) ∷ [])

abbrev finished : Steps
finished =
    started
    ++ ((apply_confirmed, [])
        ∷ (start_observe, [])
        ∷ (health_pass, [])
        ∷ (finalize_success, [])
        ∷ [])

abbrev started_state : ActionState
started_state = record {
  lifecycle = applying;
  revision = 6;
  evidence = "receipt-1" ∷ "receipt-1" ∷ [];
  failure_reason = null;
}

abbrev lost_state : ActionState
lost_state = record {
  lifecycle = effect_unknown;
  revision = 7;
  evidence = "receipt-1" ∷ "receipt-1" ∷ [];
  failure_reason = str "TIMEOUT";
}

abbrev finished_state : ActionState
finished_state = record {
  lifecycle = terminal;
  revision = 10;
  evidence = "receipt-1" ∷ "receipt-1" ∷ [];
  failure_reason = null;
}

started_run : replay new_action started ≡ ok started_state
unfolding replay reduce_action transitions raise_if get_value
started_run = refl

lost_run : replay new_action lost ≡ ok lost_state
unfolding replay reduce_action transitions raise_if get_value
lost_run = refl

finished_run : replay new_action finished ≡ ok finished_state
unfolding replay reduce_action transitions raise_if get_value
finished_run = refl

effect_needs_guards_example :
    (rest : List ActionEvent) × (events_of started
      ≡ preflight ∷ plan ∷ authorize ∷ prove_rollback_ready ∷ write_apply_intent ∷ start_apply
        ∷ rest)
effect_needs_guards_example = effect_needs_guards started started_run refl

success_is_clean_example :
    (events_of finished ≡ confirmed_success) ⊎ (events_of finished ≡ reconciled_success)
success_is_clean_example = success_is_clean finished finished_run refl

failure_has_reason_example : is_filled lost_state.failure_reason ≡ true
failure_has_reason_example =
    failure_has_reason new_action lost lost_run (λ h. absurd (false≢true h)) refl

replay_bounded_example : length finished ≤ 18
replay_bounded_example = replay_bounded new_action finished finished_run

always_finishes_example :
    ((es : Steps) × (t : ActionState) × (replay lost_state es ≡ ok t)
      × (is_final t.lifecycle ≡ true))
    × (is_final lost_state.lifecycle ≡ true
        → (e : ActionEvent) (p : Payload)
        → reduce_action lost_state e p ≡ err (no_transition lost_state.lifecycle e))
always_finishes_example = always_finishes lost_state
