-- ===== src/Action/Finish.antt =====
-- How a run of the action machine begins and ends (taskguard/v3/action_machine.py).
use bricek4_ligong_skills.Base.{
  ◌≡◌, refl, ap, sym, subst, ◌∙◌, ◌⊎◌, inl, inr, Bool, true, false, some, List, [], ◌∷◌, arith, ok,
  is_filled,
}
use bricek4_ligong_skills.Action.{
  declared, preflighted, planned, authorized, rollback_ready, apply_intent_written, applying,
  effect_unknown, healthy, health_failed, rollback_unknown, terminal, terminal_error, preflight,
  plan, authorize, prove_rollback_ready, write_apply_intent, start_apply, health_pass,
  apply_confirmed, apply_unknown, start_reconcile, reconcile_applied, start_observe, observing,
  applied, reconciling, finalize_success, ActionLifecycle, ActionEvent, ActionState, needs_reason,
  transitions, replay, new_action,
}
use bricek4_ligong_skills.Action.Traces.{Steps, replay-cons, replay-nil}

abbrev pub events_of : Steps → List ActionEvent
events_of [] = []
events_of ((e, p) ∷ es) = e ∷ events_of es

-- The lifecycles in which the effect may exist: everything from APPLYING on.
abbrev pub may_have_effect : ActionLifecycle → Bool
may_have_effect declared = false
may_have_effect preflighted = false
may_have_effect planned = false
may_have_effect authorized = false
may_have_effect rollback_ready = false
may_have_effect apply_intent_written = false
may_have_effect _ = true

-- The one way on from a lifecycle without an effect.
abbrev only_event : ActionLifecycle → ActionEvent
only_event declared = preflight
only_event preflighted = plan
only_event planned = authorize
only_event authorized = prove_rollback_ready
only_event rollback_ready = write_apply_intent
only_event _ = start_apply

abbrev only_next : ActionLifecycle → ActionLifecycle
only_next declared = preflighted
only_next preflighted = planned
only_next planned = authorized
only_next authorized = rollback_ready
only_next rollback_ready = apply_intent_written
only_next _ = applying

forced :
    (l : ActionLifecycle) (e : ActionEvent) {l' : ActionLifecycle}
    → transitions l e ≡ some l'
    → may_have_effect l ≡ false
    → (e ≡ only_event l) × (l' ≡ only_next l)
unfolding transitions
forced l e h k = ground arith

-- `replay` after a state that has no effect yet, if it leads to one that may.
forced_step :
    (s : ActionState) (l : ActionLifecycle) (es : Steps) {t : ActionState}
    → s.lifecycle ≡ l
    → may_have_effect l ≡ false
    → replay s es ≡ ok t
    → may_have_effect t.lifecycle ≡ true
    → (rest : Steps) × (s' : ActionState) × (events_of es ≡ only_event l ∷ events_of rest)
      × (replay s' rest ≡ ok t)
      × (s'.lifecycle ≡ only_next l)
forced_step s l [] {t} at k h m = cc (replay-nil s h)
forced_step s l ((e, p) ∷ es) at k h m =
    let (s', step, rest) = replay-cons s e p es h in
    let (same_event, same_next) = forced l e {l' = s'.lifecycle} (rw (← at) step.moved) k in
    (es, s', ap (λ x. x ∷ events_of es) same_event, rest, same_next)

-- The run up to the start of the apply, and the run from there.
applying_after :
    (es : Steps) {t : ActionState}
    → replay new_action es ≡ ok t
    → may_have_effect t.lifecycle ≡ true
    → (rest : Steps) × (s : ActionState) × (events_of es
        ≡ preflight
          ∷ plan
          ∷ authorize
          ∷ prove_rollback_ready
          ∷ write_apply_intent
          ∷ start_apply
          ∷ events_of rest)
      × (replay s rest ≡ ok t)
      × (s.lifecycle ≡ applying)
applying_after es h m =
    let (r₁, s₁, e₁, h₁, l₁) = forced_step new_action declared es refl refl h m in
    let (r₂, s₂, e₂, h₂, l₂) = forced_step s₁ preflighted r₁ l₁ refl h₁ m in
    let (r₃, s₃, e₃, h₃, l₃) = forced_step s₂ planned r₂ l₂ refl h₂ m in
    let (r₄, s₄, e₄, h₄, l₄) = forced_step s₃ authorized r₃ l₃ refl h₃ m in
    let (r₅, s₅, e₅, h₅, l₅) = forced_step s₄ rollback_ready r₄ l₄ refl h₄ m in
    let (r₆, s₆, e₆, h₆, l₆) = forced_step s₅ apply_intent_written r₅ l₅ refl h₅ m in
    (r₆, s₆, cc, h₆, l₆)

-- An action whose effect may exist went through preflight, plan, authorisation, proof of rollback
-- readiness and a written intent, in this order and before anything else, and then started to apply.
pub effect_needs_guards :
    (es : Steps) {t : ActionState}
    → replay new_action es ≡ ok t
    → may_have_effect t.lifecycle ≡ true
    → (rest : List ActionEvent) × (events_of es
        ≡ preflight ∷ plan ∷ authorize ∷ prove_rollback_ready ∷ write_apply_intent ∷ start_apply
          ∷ rest)
effect_needs_guards es h m =
    let (rest, s, same, _, _) = applying_after es h m in (events_of rest, same)

-- Where the apply was confirmed, and where it was not known and then reconciled as applied.
abbrev pub confirmed_success : List ActionEvent
confirmed_success =
    preflight ∷ plan ∷ authorize ∷ prove_rollback_ready ∷ write_apply_intent ∷ start_apply
    ∷ apply_confirmed ∷ start_observe ∷ health_pass ∷ finalize_success ∷ []

abbrev pub reconciled_success : List ActionEvent
reconciled_success =
    preflight ∷ plan ∷ authorize ∷ prove_rollback_ready ∷ write_apply_intent ∷ start_apply
    ∷ apply_unknown ∷ start_reconcile ∷ reconcile_applied ∷ start_observe ∷ health_pass
    ∷ finalize_success ∷ []

-- The events that lead from a lifecycle to TERMINAL.
abbrev Succeeding : ActionLifecycle → List ActionEvent → Type 0
Succeeding terminal es = es ≡ []
Succeeding healthy es = es ≡ finalize_success ∷ []
Succeeding observing es = es ≡ health_pass ∷ finalize_success ∷ []
Succeeding applied es = es ≡ start_observe ∷ health_pass ∷ finalize_success ∷ []
Succeeding reconciling es =
    es ≡ reconcile_applied ∷ start_observe ∷ health_pass ∷ finalize_success ∷ []
Succeeding effect_unknown es =
    es ≡ start_reconcile ∷ reconcile_applied ∷ start_observe ∷ health_pass ∷ finalize_success ∷ []
Succeeding applying es =
    (es ≡ apply_confirmed ∷ start_observe ∷ health_pass ∷ finalize_success ∷ [])
    ⊎ (es
        ≡ apply_unknown ∷ start_reconcile ∷ reconcile_applied ∷ start_observe ∷ health_pass
          ∷ finalize_success ∷ [])
Succeeding _ es = ⊥

Succeeding-step :
    (l : ActionLifecycle) (e : ActionEvent) {l' : ActionLifecycle} (es : List ActionEvent)
    → transitions l e ≡ some l'
    → may_have_effect l ≡ true
    → Succeeding l' es
    → Succeeding l (e ∷ es)
unfolding transitions
Succeeding-step l e es h m k = ground arith

has_effect-next :
    (l : ActionLifecycle) (e : ActionEvent) {l' : ActionLifecycle}
    → transitions l e ≡ some l'
    → may_have_effect l ≡ true
    → may_have_effect l' ≡ true
unfolding transitions
has_effect-next l e h k = ground arith

replay-Succeeding :
    (s : ActionState) (es : Steps) {t : ActionState}
    → replay s es ≡ ok t
    → t.lifecycle ≡ terminal
    → may_have_effect s.lifecycle ≡ true
    → Succeeding s.lifecycle (events_of es)
replay-Succeeding s [] h k m =
    subst (λ l. Succeeding l []) (sym (ap (λ (x : ActionState). x.lifecycle) (replay-nil s h) ∙ k))
      refl
replay-Succeeding s ((e, p) ∷ es) h k m =
    let (s', step, rest) = replay-cons s e p es h in
    Succeeding-step s.lifecycle e (events_of es) step.moved m
      (replay-Succeeding s' es rest k (has_effect-next s.lifecycle e step.moved m))

-- The events of an action that ends in TERMINAL are one of two sequences, from the preflight to the final event:
-- the apply was confirmed, or it was not known and then reconciled as applied; then came the observation and a
-- passed health check.
pub success_is_clean :
    (es : Steps) {t : ActionState}
    → replay new_action es ≡ ok t
    → t.lifecycle ≡ terminal
    → (events_of es ≡ confirmed_success) ⊎ (events_of es ≡ reconciled_success)
success_is_clean es h k =
    let (rest, s, same, later, at) = applying_after es h (rw k) in
    elim (subst (λ l. Succeeding l (events_of rest)) at
      (replay-Succeeding s rest later k (rw at))) [
        | inl confirmed ↦ inl (cc (same, confirmed))
        | inr reconciled ↦ inr (cc (same, reconciled))
      ]

-- The lifecycles that report a failure.
abbrev pub reports_failure : ActionLifecycle → Bool
reports_failure effect_unknown = true
reports_failure health_failed = true
reports_failure rollback_unknown = true
reports_failure terminal_error = true
reports_failure _ = false

reports_failure-back :
    (l : ActionLifecycle) (e : ActionEvent) {l' : ActionLifecycle}
    → transitions l e ≡ some l'
    → reports_failure l' ≡ true
    → needs_reason e ≡ true
unfolding transitions
reports_failure-back l e h k = ground arith

-- A state in EFFECT_UNKNOWN, HEALTH_FAILED, ROLLBACK_UNKNOWN or TERMINAL_ERROR that some sequence of
-- events reaches from a state which reports no failure carries a non-empty failure reason.
pub failure_has_reason :
    (s : ActionState) (es : Steps) {t : ActionState}
    → replay s es ≡ ok t
    → (reports_failure s.lifecycle ≡ true → is_filled s.failure_reason ≡ true)
    → reports_failure t.lifecycle ≡ true
    → is_filled t.failure_reason ≡ true
failure_has_reason s [] h start k = rw (← replay-nil s h) (start (rw (replay-nil s h) k))
failure_has_reason s ((e, p) ∷ es) h start k =
    let (s', step, rest) = replay-cons s e p es h in
    failure_has_reason s' es rest
      (λ r. step.explained (reports_failure-back s.lifecycle e step.moved r)) k
