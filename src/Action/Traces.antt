-- ===== src/Action/Traces.antt =====
-- What a sequence of accepted events says about the action (taskguard/v3/action_machine.py).
use bricek4_ligong_skills.Base.{
  ℕ, ◌+◌, ◌≤◌, ◌<◌, String, ◌≡◌, sym, Bool, true, false, not, ◌&&◌, some, List, [], ◌∷◌, ◌++◌,
  append_assoc, append-nil, arith, ok, >>=-eq-ok, raise_if-passed, Mapping, Value, get_value,
  is_filled, is_null, length, if◌then◌else◌,
}
use bricek4_ligong_skills.Action.{
  declared, preflighted, planned, authorized, rollback_ready, apply_intent_written, applying,
  effect_unknown, reconciling, not_applied, applied, observing, healthy, health_failed,
  rollback_required, rollback_intent_written, rolling_back, rollback_unknown, rolled_back,
  recovery_observing, recovered, terminal, terminal_error, ActionLifecycle, ActionEvent,
  ActionState, needs_reason, transitions, added_evidence, reduce_action, replay, find_transition,
}

abbrev pub Payload : Type 0
Payload = Mapping Value

abbrev pub Steps : Type 0
Steps = List (ActionEvent × Payload)

-- What an accepted event says of the two states.
pub record IsStep (s : ActionState) (e : ActionEvent) (p : Payload) (t : ActionState) : Type 0 where
  pub moved : transitions s.lifecycle e ≡ some t.lifecycle
  pub counted : t.revision ≡ s.revision + 1
  pub recorded : t.evidence ≡ s.evidence ++ added_evidence (get_value p "evidence_ref")
  pub explained : needs_reason e ≡ true → is_filled t.failure_reason ≡ true

-- The part of the reducer that does not look at the table.
ok_of_find :
    (l : ActionLifecycle) (e : ActionEvent) {l' : ActionLifecycle}
    → find_transition l e ≡ ok l'
    → transitions l e ≡ some l'
unfolding find_transition
ok_of_find l e h = ground arith

explained_reason :
    (n : Bool) (v u : Value) {w : Value}
    → n ≡ true
    → (n && not (is_filled v)) ≡ false
    → (if is_null v then u else v) ≡ w
    → is_filled w ≡ true
explained_reason n v u h k e = ground arith

pub reduce_action-IsStep :
    (s : ActionState) (e : ActionEvent) (p : Payload) {t : ActionState}
    → reduce_action s e p ≡ ok t
    → IsStep s e p t
unfolding reduce_action
reduce_action-IsStep s e p {t} h =
    let (l, found, h₁) = >>=-eq-ok (find_transition s.lifecycle e) _ h in
    let (_, h₂) = raise_if-passed _ _ _ h₁ in
    let (reason, h₃) = raise_if-passed _ _ _ h₂ in
    record {
      moved = ok_of_find s.lifecycle e (ground arith);
      counted = ground arith;
      recorded = ground arith;
      explained = λ n.
          explained_reason (needs_reason e) (get_value p "failure_reason") s.failure_reason n reason
            (ground arith);
    }

-- The evidence references that a sequence of events carries, in order.
abbrev pub evidence_of : Steps → List String
evidence_of [] = []
evidence_of ((e, p) ∷ es) = added_evidence (get_value p "evidence_ref") ++ evidence_of es

-- Reading `replay` backwards, one event at a time.
pub replay-cons :
    (s : ActionState) (e : ActionEvent) (p : Payload) (es : Steps) {t : ActionState}
    → replay s ((e, p) ∷ es) ≡ ok t
    → (s' : ActionState) × IsStep s e p s' × (replay s' es ≡ ok t)
unfolding replay
replay-cons s e p es h =
    let (s', step, rest) = >>=-eq-ok (reduce_action s e p) _ h in
    (s', reduce_action-IsStep s e p step, rest)

pub replay-nil : (s : ActionState) {t : ActionState} → replay s [] ≡ ok t → s ≡ t
unfolding replay
replay-nil s h = cc

-- An accepted sequence of events adds one revision for each event and appends exactly the evidence
-- references that the payloads carry, in order; nothing recorded before is lost.
pub replay_accounts :
    (s : ActionState) (es : Steps) {t : ActionState}
    → replay s es ≡ ok t
    → (t.revision ≡ s.revision + length es) × (t.evidence ≡ s.evidence ++ evidence_of es)
replay_accounts s [] h = rw (← replay-nil s h) (omega arith, sym (append-nil s.evidence))
replay_accounts s ((e, p) ∷ es) {t} h =
    let (s', step, rest) = replay-cons s e p es h in
    let (counted, recorded) = replay_accounts s' es rest in
    (
      omega (arith, step.counted),
      rw (recorded, step.recorded) (append_assoc s.evidence _ (evidence_of es)),
    )

-- Every accepted event moves up in this order.
abbrev pub rank : ActionLifecycle → ℕ
rank declared = 0
rank preflighted = 1
rank planned = 2
rank authorized = 3
rank rollback_ready = 4
rank apply_intent_written = 5
rank applying = 6
rank effect_unknown = 7
rank reconciling = 8
rank not_applied = 9
rank applied = 9
rank observing = 10
rank healthy = 11
rank health_failed = 11
rank rollback_required = 12
rank rollback_intent_written = 13
rank rolling_back = 14
rank rollback_unknown = 15
rank rolled_back = 15
rank recovery_observing = 16
rank recovered = 17
rank terminal = 18
rank terminal_error = 18

pub rank-transitions :
    (l : ActionLifecycle) (e : ActionEvent) {l' : ActionLifecycle}
    → transitions l e ≡ some l'
    → rank l < rank l'
unfolding transitions
rank-transitions l e h = ground arith

rank-le : (l : ActionLifecycle) → rank l ≤ 18
rank-le l = ground arith

rank-replay :
    (s : ActionState) (es : Steps) {t : ActionState}
    → replay s es ≡ ok t
    → length es + rank s.lifecycle ≤ rank t.lifecycle
rank-replay s [] h = rw (← replay-nil s h) (omega arith)
rank-replay s ((e, p) ∷ es) h =
    let (s', step, rest) = replay-cons s e p es h in
    omega (arith, rank-transitions s.lifecycle e step.moved, rank-replay s' es rest)

-- From any state at most eighteen events are accepted in a row, so the reducer cannot cycle.
pub replay_bounded :
    (s : ActionState) (es : Steps) {t : ActionState} → replay s es ≡ ok t → length es ≤ 18
replay_bounded s es {t} h = omega (arith, rank-replay s es h, rank-le t.lifecycle)
