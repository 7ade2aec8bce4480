-- ===== src/ContractV3/Reparsed.antt =====
-- `_parse_action` on what `ActionSpec.to_manifest` of taskguard/contracts/v3.py writes.
use bricek4_ligong_skills.Base.{
  arith, ℕ, ◌≡◌, refl, ap, subst, String, Bool, true, false, not, ◌&&◌, List, [], ◌∷◌, ok, raise_if,
  >>=-elim, ok-injective, Value, Fields, int, str, list, dict, end, field, pos, sorted_set,
  contains, is_blank, is_empty, All,
}
use bricek4_ligong_skills.Receipts.Frozen.{is_plain, is_plain_fields}
use bricek4_ligong_skills.Contract.{Label, member, boolean, exact_fields}
use bricek4_ligong_skills.ContractV3.{
  ActionTarget, AuthorityPolicy, RollbackPolicy, HealthPolicy, ActionSpec, action_fields,
  supported_action_kinds, supported_environments, text, positive_int, json_object, exact,
  thaw_fields,
}
use bricek4_ligong_skills.ContractV3.Actions.{
  parse_target, parse_authority, parse_plan, parse_rollback, parse_health, signal_items, signals_of,
  known_text, build_action, parse_action, text_items, target_manifest, authority_manifest,
  rollback_manifest, health_manifest, action_manifest,
}
use bricek4_ligong_skills.ContractV3.Parsed.{IsText, IsPositive, IsTarget, IsHealth, IsAction}
use bricek4_ligong_skills.ContractV3.Inversion.{AreFrozen, parse_action-IsAction}
use bricek4_ligong_skills.ContractV3.Frozen.{lookup_field-is_plain, json_object-again}

text-again : (s : String) (label : Label) → IsText s → text (str s) label ≡ ok s
unfolding text
text-again s label h = rw h

positive_int-again :
    (n : ℕ) (label : Label) → IsPositive n → positive_int (int (pos n)) label ≡ ok n
unfolding positive_int
positive_int-again n label h = rw h

known_text-again :
    (s : String) (label : Label) (names : List String) (message : String)
    → IsText s
    → contains names s ≡ true
    → known_text (str s) label names message ≡ ok s
unfolding known_text raise_if
known_text-again s label names message h known = rw (text-again s label h, known)

parse_target-again :
    (t : ActionTarget) (label : Label)
    → IsTarget t
    → parse_target (dict (target_manifest t)) label ≡ ok t
unfolding parse_target target_manifest exact exact_fields sorted_set contains
parse_target-again t label h = rw (
  text-again t.provider (member label "provider") h.provider,
  text-again t.account_id (member label "account_id") h.account_id,
  text-again t.project_id (member label "project_id") h.project_id,
  text-again t.resource_id (member label "resource_id") h.resource_id,
)

parse_authority-again :
    (a : AuthorityPolicy) (label : Label)
    → IsText a.provider
    → IsPositive a.max_uses
    → parse_authority (dict (authority_manifest a)) label ≡ ok a
unfolding parse_authority authority_manifest exact exact_fields boolean sorted_set contains
parse_authority-again a label h uses = rw (
  text-again a.provider (member label "provider") h,
  positive_int-again a.max_uses (member label "max_uses") uses,
)

parse_plan-again :
    (n : ℕ) (label : Label)
    → IsPositive n
    → parse_plan (dict (field "max_age_seconds" (int (pos n)) end)) label ≡ ok n
unfolding parse_plan exact exact_fields sorted_set contains
parse_plan-again n label h = rw (positive_int-again n (member label "max_age_seconds") h)

and_not : (a b : Bool) → b ≡ true → a && not b ≡ false
and_not a b h = ground arith

parse_rollback-again :
    (r : RollbackPolicy) (label : Label) (kind : String)
    → r.required ≡ true
    → parse_rollback (dict (rollback_manifest r)) label kind ≡ ok r
unfolding parse_rollback rollback_manifest exact exact_fields sorted_set contains boolean raise_if
parse_rollback-again r label kind h = rw (
  and_not (contains supported_action_kinds kind) r.required h,
  and_not r.automatic_on_health_failure r.required h,
)

signal_items-again :
    (ss : List String) (label : Label)
    → All (λ s. is_blank s ≡ false) ss
    → signal_items (text_items ss) label ≡ ok ss
unfolding signal_items raise_if
signal_items-again [] label h = refl
signal_items-again (s ∷ ss) label (filled, h) = rw (filled, signal_items-again ss label h)

signals_of-again :
    (ss : List String) (label : Label)
    → is_empty ss ≡ false
    → All (λ s. is_blank s ≡ false) ss
    → signals_of (list (text_items ss)) label ≡ ok ss
unfolding signals_of
signals_of-again [] label filled h = cc
signals_of-again (s ∷ ss) label filled h = signal_items-again (s ∷ ss) label h

parse_health-again :
    (health : HealthPolicy) (label : Label)
    → IsHealth health
    → parse_health (dict (health_manifest health)) label ≡ ok health
unfolding parse_health health_manifest exact exact_fields sorted_set contains raise_if
parse_health-again health label h = rw (
  signals_of-again health.required_signals (member label "required_signals") h.has_signals
      h.signals,
  h.signals_once,
  positive_int-again health.window_seconds (member label "window_seconds") h.window,
  positive_int-again health.minimum_samples (member label "minimum_samples") h.samples,
)

-- The three objects can be read again.
AreKept : ActionSpec → Label → Type 0
AreKept a label =
    (json_object (dict (thaw_fields a.resource_scope)) (member label "resource_scope")
      ≡ ok a.resource_scope)
    × (json_object (dict (thaw_fields a.desired_state)) (member label "desired_state")
        ≡ ok a.desired_state)
    × (json_object (dict (thaw_fields a.preconditions)) (member label "preconditions")
        ≡ ok a.preconditions)

AreFrozen-AreKept :
    (raw : Fields) (label label' : Label) (a : ActionSpec)
    → is_plain_fields raw ≡ true
    → AreFrozen raw label a
    → AreKept a label'
unfolding AreKept
AreFrozen-AreKept raw label label' a plain (scope, state, conditions) = (
  json_object-again _ _ _ _ (lookup_field-is_plain raw "resource_scope" plain) scope,
  json_object-again _ _ _ _ (lookup_field-is_plain raw "desired_state" plain) state,
  json_object-again _ _ _ _ (lookup_field-is_plain raw "preconditions" plain) conditions,
)

parse_action-again :
    (a : ActionSpec) (label : Label)
    → IsAction a
    → AreKept a label
    → parse_action (dict (action_manifest a)) label ≡ ok a
unfolding parse_action build_action action_manifest exact exact_fields sorted_set contains AreKept
parse_action-again a label h (scope, state, conditions) = rw (
  known_text-again a.kind (member label "kind") supported_action_kinds "unsupported action kind"
      h.kind h.known_kind,
  known_text-again a.environment (member label "environment") supported_environments
      "unsupported environment" h.environment h.known_environment,
  parse_target-again a.target (member label "target") h.target,
  parse_authority-again a.authority_policy (member label "authority_policy") h.provider h.uses,
  parse_plan-again a.max_age_seconds (member label "plan_policy") h.age,
  parse_rollback-again a.rollback_policy (member label "rollback_policy") a.kind h.rolls_back,
  parse_health-again a.health_policy (member label "health_policy") h.health,
  text-again a.id (member label "id") h.id,
  text-again a.adapter (member label "adapter") h.adapter,
  scope,
  state,
  conditions,
)

exact-dict :
    (value : Value) (label : Label) (names : List String) (raw : Fields)
    → exact value label names ≡ ok raw
    → value ≡ dict raw
unfolding exact
exact-dict (dict fs) label names raw h =
    >>=-elim (exact_fields fs label names names) _ h λ _ _ h1. ap dict (ok-injective h1)
exact-dict value label names raw h = cc

-- An action that is read from a JSON value holding no tuple is read again, unchanged and under any label, from the
-- manifest that it writes.
pub parse_action-action_manifest :
    (value : Value) (label label' : Label) (a : ActionSpec)
    → is_plain value ≡ true
    → parse_action value label ≡ ok a
    → parse_action (dict (action_manifest a)) label' ≡ ok a
unfolding is_plain
parse_action-action_manifest value label label' a plain h =
    let (sound, (raw, is_raw, frozen)) = parse_action-IsAction value label a h in
    let plain_raw : is_plain_fields raw ≡ true =
      subst (λ v. is_plain v ≡ true) (exact-dict value label action_fields raw is_raw) plain in
    parse_action-again a label' sound (AreFrozen-AreKept raw label label' a plain_raw frozen)
