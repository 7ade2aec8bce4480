-- ===== src/Action.antt =====
-- taskguard/v3/action_machine.py: the lifecycle reducer of one external action.
pub mod Traces
pub mod Finish
pub mod Progress
use bricek4_ligong_skills.Base.{
  ℕ, ◌+◌, String, Bool, true, false, not, ◌&&◌, Option, none, some, List, [], ◌∷◌, ◌++◌, Outcome,
  ok, err, ◌>>=◌, ◌>>◌, raise_if, Mapping, Value, null, bool, int, str, list, dict, get_value,
  is_null, is_filled, if◌then◌else◌,
}

pub data ActionLifecycle : Type 0 where
  declared preflighted planned authorized rollback_ready : ActionLifecycle
  apply_intent_written applying effect_unknown reconciling not_applied applied : ActionLifecycle
  observing healthy health_failed rollback_required rollback_intent_written : ActionLifecycle
  rolling_back rollback_unknown rolled_back recovery_observing recovered : ActionLifecycle
  terminal terminal_error : ActionLifecycle

pub data ActionEvent : Type 0 where
  preflight plan authorize prove_rollback_ready write_apply_intent start_apply : ActionEvent
  apply_confirmed apply_unknown start_reconcile reconcile_applied : ActionEvent
  reconcile_not_applied start_observe health_pass health_fail require_rollback : ActionEvent
  write_rollback_intent start_rollback rollback_confirmed rollback_lost : ActionEvent
  start_recovery_observe recovery_healthy finalize_success finalize_error : ActionEvent

-- `TRANSITIONS`; a pair that is no key has `none`. The event ROLLBACK_UNKNOWN is `rollback_lost`.
unfoldable pub transitions : ActionLifecycle → ActionEvent → Option ActionLifecycle
transitions declared preflight = some preflighted
transitions preflighted plan = some planned
transitions planned authorize = some authorized
transitions authorized prove_rollback_ready = some rollback_ready
transitions rollback_ready write_apply_intent = some apply_intent_written
transitions apply_intent_written start_apply = some applying
transitions applying apply_confirmed = some applied
transitions applying apply_unknown = some effect_unknown
transitions effect_unknown start_reconcile = some reconciling
transitions reconciling reconcile_applied = some applied
transitions reconciling reconcile_not_applied = some not_applied
transitions applied start_observe = some observing
transitions observing health_pass = some healthy
transitions observing health_fail = some health_failed
transitions health_failed require_rollback = some rollback_required
transitions rollback_required write_rollback_intent = some rollback_intent_written
transitions rollback_intent_written start_rollback = some rolling_back
transitions rolling_back rollback_confirmed = some rolled_back
transitions rolling_back rollback_lost = some rollback_unknown
transitions rolled_back start_recovery_observe = some recovery_observing
transitions rollback_unknown start_recovery_observe = some recovery_observing
transitions recovery_observing recovery_healthy = some recovered
transitions healthy finalize_success = some terminal
transitions not_applied finalize_error = some terminal_error
transitions health_failed finalize_error = some terminal_error
transitions recovered finalize_error = some terminal_error
transitions _ _ = none

pub data InvalidTransition : Type 0 where
  no_transition : ActionLifecycle → ActionEvent → InvalidTransition
  bad_evidence_ref : InvalidTransition
  missing_failure_reason : ActionEvent → InvalidTransition

-- The annotation of `failure_reason` is not enforced, so it is a value; `None` is `null`.
pub record ActionState : Type 0 where
  pub lifecycle : ActionLifecycle
  pub revision : ℕ
  pub evidence : List String
  pub failure_reason : Value

abbrev pub needs_reason : ActionEvent → Bool
needs_reason apply_unknown = true
needs_reason health_fail = true
needs_reason rollback_lost = true
needs_reason finalize_error = true
needs_reason _ = false

-- `TRANSITIONS[key]`, with the `KeyError` turned into an `InvalidTransition`.
find_transition : ActionLifecycle → ActionEvent → Outcome InvalidTransition ActionLifecycle
find_transition l e = elim (transitions l e) [ none ↦ err (no_transition l e) | some l' ↦ ok l' ]

-- `(evidence_ref,) if evidence_ref else ()`
abbrev pub added_evidence : Value → List String
added_evidence (str s) = s ∷ []
added_evidence _ = []

unfoldable pub reduce_action :
    ActionState → ActionEvent → Mapping Value → Outcome InvalidTransition ActionState
unfolding find_transition
reduce_action state event payload =
    let evidence_ref = get_value payload "evidence_ref" in
    let failure = get_value payload "failure_reason" in
    do
      lifecycle ← find_transition state.lifecycle event
      raise_if (not (is_null evidence_ref) && not (is_filled evidence_ref)) bad_evidence_ref
      raise_if (needs_reason event && not (is_filled failure)) (missing_failure_reason event)
      ok (record {
        lifecycle = lifecycle;
        revision = state.revision + 1;
        evidence = state.evidence ++ added_evidence evidence_ref;
        failure_reason = if is_null failure then state.failure_reason else failure;
      })

-- The state in which the source's tests start an action.
abbrev pub new_action : ActionState
new_action = record { lifecycle = declared; revision = 0; evidence = []; failure_reason = null }

-- A sequence of events, stopped by the first that is refused.
unfoldable pub replay :
    ActionState → List (ActionEvent × Mapping Value) → Outcome InvalidTransition ActionState
replay s [] = ok s
replay s ((e, p) ∷ es) = do s' ← reduce_action s e p; replay s' es
