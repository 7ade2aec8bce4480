-- ===== src/ContractV3/Actions.antt =====
-- `_parse_action` and `ActionSpec.to_manifest` of taskguard/contracts/v3.py.
-- A check that the source makes for each name of a frozenset goes by the names as they are written there.
use bricek4_ligong_skills.Base.{
  ℕ, String, not, ◌&&◌, List, [], ◌∷◌, ok, err, ◌>>=◌, ◌>>◌, raise_if, Value, Items, Fields, bool,
  int, str, list, dict, nil, cons, end, field, pos, contains, is_blank,
}
use bricek4_ligong_skills.Contract.{Label, member, Checked, error, boolean, lookup_field}
use bricek4_ligong_skills.Contract.Validate.{repeats}
use bricek4_ligong_skills.ContractV3.{
  ActionTarget, AuthorityPolicy, RollbackPolicy, HealthPolicy, ActionSpec, action_fields,
  target_fields, authority_fields, plan_fields, rollback_fields, health_fields,
  supported_action_kinds, supported_environments, text, positive_int, json_object, exact,
  thaw_fields,
}

unfoldable pub parse_target : Value → Label → Checked ActionTarget
parse_target value label = do
  raw ← exact value label target_fields
  provider ← text (lookup_field raw "provider") (member label "provider")
  account_id ← text (lookup_field raw "account_id") (member label "account_id")
  project_id ← text (lookup_field raw "project_id") (member label "project_id")
  resource_id ← text (lookup_field raw "resource_id") (member label "resource_id")
  ok (record {
    provider = provider;
    account_id = account_id;
    project_id = project_id;
    resource_id = resource_id;
  })

unfoldable pub parse_authority : Value → Label → Checked AuthorityPolicy
parse_authority value label = do
  raw ← exact value label authority_fields
  provider ← text (lookup_field raw "provider") (member label "provider")
  bind_plan ← boolean (lookup_field raw "bind_plan") (member label "bind_plan")
  max_uses ← positive_int (lookup_field raw "max_uses") (member label "max_uses")
  ok (record { provider = provider; bind_plan = bind_plan; max_uses = max_uses })

unfoldable pub parse_plan : Value → Label → Checked ℕ
parse_plan value label = do
  raw ← exact value label plan_fields
  positive_int (lookup_field raw "max_age_seconds") (member label "max_age_seconds")

-- Every kind that is supported changes something, so a rollback is required.
unfoldable pub parse_rollback : Value → Label → String → Checked RollbackPolicy
parse_rollback value label kind = do
  raw ← exact value label rollback_fields
  required ← boolean (lookup_field raw "required") (member label "required")
  preauthorize ← boolean (lookup_field raw "preauthorize") (member label "preauthorize")
  automatic ←
      boolean (lookup_field raw "automatic_on_health_failure")
        (member label "automatic_on_health_failure")
  raise_if (contains supported_action_kinds kind && not required)
      (error (member label "required") "must be true for mutating actions")
  raise_if (automatic && not required) (error label "automatic rollback requires rollback")
  ok (record {
    required = required;
    preauthorize = preauthorize;
    automatic_on_health_failure = automatic;
  })

-- The texts of an array, if each is a text that is not empty.
unfoldable pub signal_items : Items → Label → Checked (List String)
signal_items nil label = ok []
signal_items (cons (str s) vs) label = do
  raise_if (is_blank s) (error label "must be a non-empty string array")
  rest ← signal_items vs label
  ok (s ∷ rest)
signal_items _ label = err (error label "must be a non-empty string array")

unfoldable pub signals_of : Value → Label → Checked (List String)
unfolding signal_items
signals_of (list (cons v vs)) label = signal_items (cons v vs) label
signals_of _ label = err (error label "must be a non-empty string array")

unfoldable pub parse_health : Value → Label → Checked HealthPolicy
parse_health value label = do
  raw ← exact value label health_fields
  signals ← signals_of (lookup_field raw "required_signals") (member label "required_signals")
  raise_if (repeats signals) (error (member label "required_signals") "contains duplicates")
  window ← positive_int (lookup_field raw "window_seconds") (member label "window_seconds")
  samples ← positive_int (lookup_field raw "minimum_samples") (member label "minimum_samples")
  ok (record { window_seconds = window; minimum_samples = samples; required_signals = signals })

-- A text that is one of the names.
unfoldable pub known_text : Value → Label → List String → String → Checked String
known_text value label names message = do
  s ← text value label
  raise_if (not (contains names s)) (error label message)
  ok s

-- The last part of `_parse_action`: the texts and the objects, in the order of the constructor's arguments.
unfoldable pub build_action :
    Fields
    → Label
    → String
    → String
    → ActionTarget
    → AuthorityPolicy
    → ℕ
    → RollbackPolicy
    → HealthPolicy
    → Checked ActionSpec
build_action raw label kind environment target authority plan rollback health = do
  id ← text (lookup_field raw "id") (member label "id")
  adapter ← text (lookup_field raw "adapter") (member label "adapter")
  resource_scope ← json_object (lookup_field raw "resource_scope") (member label "resource_scope")
  desired_state ← json_object (lookup_field raw "desired_state") (member label "desired_state")
  preconditions ← json_object (lookup_field raw "preconditions") (member label "preconditions")
  ok (record {
    id = id;
    kind = kind;
    adapter = adapter;
    target = target;
    environment = environment;
    resource_scope = resource_scope;
    desired_state = desired_state;
    preconditions = preconditions;
    authority_policy = authority;
    max_age_seconds = plan;
    rollback_policy = rollback;
    health_policy = health;
  })

-- `_parse_action`
unfoldable pub parse_action : Value → Label → Checked ActionSpec
parse_action value label = do
  raw ← exact value label action_fields
  kind ←
      known_text (lookup_field raw "kind") (member label "kind") supported_action_kinds
        "unsupported action kind"
  environment ←
      known_text (lookup_field raw "environment") (member label "environment")
        supported_environments "unsupported environment"
  target ← parse_target (lookup_field raw "target") (member label "target")
  authority ←
      parse_authority (lookup_field raw "authority_policy") (member label "authority_policy")
  plan ← parse_plan (lookup_field raw "plan_policy") (member label "plan_policy")
  rollback ←
      parse_rollback (lookup_field raw "rollback_policy") (member label "rollback_policy") kind
  health ← parse_health (lookup_field raw "health_policy") (member label "health_policy")
  build_action raw label kind environment target authority plan rollback health

unfoldable pub target_manifest : ActionTarget → Fields
target_manifest t = field "provider" (str t.provider) (
    field "account_id" (str t.account_id)
      (field "project_id" (str t.project_id) (field "resource_id" (str t.resource_id) end)))

abbrev pub text_items : List String → Items
text_items [] = nil
text_items (s ∷ ss) = cons (str s) (text_items ss)

unfoldable pub authority_manifest : AuthorityPolicy → Fields
authority_manifest a =
    field "provider" (str a.provider)
      (field "bind_plan" (bool a.bind_plan) (field "max_uses" (int (pos a.max_uses)) end))

unfoldable pub rollback_manifest : RollbackPolicy → Fields
rollback_manifest r = field "required" (bool r.required) (
    field "preauthorize" (bool r.preauthorize)
      (field "automatic_on_health_failure" (bool r.automatic_on_health_failure) end))

unfoldable pub health_manifest : HealthPolicy → Fields
health_manifest h = field "window_seconds" (int (pos h.window_seconds)) (
    field "minimum_samples" (int (pos h.minimum_samples))
      (field "required_signals" (list (text_items h.required_signals)) end))

-- `ActionSpec.to_manifest`
unfoldable pub action_manifest : ActionSpec → Fields
unfolding target_manifest authority_manifest rollback_manifest health_manifest
action_manifest a = field "id" (str a.id) (
    field "kind" (str a.kind) (
      field "adapter" (str a.adapter) (
        field "target" (dict (target_manifest a.target)) (
          field "environment" (str a.environment) (
            field "resource_scope" (dict (thaw_fields a.resource_scope)) (
              field "desired_state" (dict (thaw_fields a.desired_state)) (
                field "preconditions" (dict (thaw_fields a.preconditions)) (
                  field "authority_policy" (dict (authority_manifest a.authority_policy)) (
                    field "plan_policy"
                      (dict (field "max_age_seconds" (int (pos a.max_age_seconds)) end))
                      (field "rollback_policy" (dict (rollback_manifest a.rollback_policy)) (
                        field "health_policy" (dict (health_manifest a.health_policy))
                          end)))))))))))
