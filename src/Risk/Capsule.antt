-- ===== src/Risk/Capsule.antt =====
-- `validate_capsule` of taskguard/risk.py, from a raw JSON value to a task capsule.
use bricek4_ligong_skills.Base.{
  String, Bool, true, false, not, ◌&&◌, ◌||◌, none, some, List, [], ◌∷◌, ◌++◌, ◌==◌, Outcome, ok,
  err, ◌>>=◌, ◌>>◌, raise_if, Mapping, Value, Items, Fields, nil, cons, end, field, int, str, list,
  dict, pos, get_value, contains, all, any, select, is_empty, eqb, has_nul, if◌then◌else◌,
}
use bricek4_ligong_skills.Receipts.{are_unique}
use bricek4_ligong_skills.Risk.{
  Level, parse_level, hard_l2, hard_l3, soft, control, Action, Authority, TaskCapsule, same_action,
  CapsuleError, bad_fields, bad_version, bad_text, not_an_array, empty_array, repeated_entry,
  bad_task_id, bad_scope, unknown_risk, unknown_signal, bad_action, repeated_action, unbound_action,
  unbound_authority,
}
use bricek4_ligong_skills.Risk.Paths.{
  is_spaces, is_task_id, path_parts, is_absolute, join_slash, is_git_part,
}

abbrev Checked : Type 0 → Type 0
Checked A = Outcome CapsuleError A

abbrev capsule_fields : List String
capsule_fields =
    "version" ∷ "task_id" ∷ "outcome" ∷ "scope" ∷ "invariants" ∷ "evidence" ∷ "risk" ∷ "signals"
    ∷ "external_actions" ∷ "authority" ∷ []

abbrev action_fields : List String
action_fields = "action" ∷ "target" ∷ "environment" ∷ "scope" ∷ []

abbrev authority_fields : List String
authority_fields = "task_id" ∷ "user_evidence" ∷ action_fields

abbrev entries : Fields → Mapping Value
entries end = []
entries (field k v fs) = (k, v) ∷ entries fs

abbrev keys : Mapping Value → List String
keys [] = []
keys ((k, v) ∷ m) = k ∷ keys m

-- `type(value) is dict and set(value) == names`, with the entries.
unfoldable pub exact_dict : List String → Value → Checked (Mapping Value)
exact_dict names (dict fs) =
    if all (contains names) (keys (entries fs)) && all (contains (keys (entries fs))) names
    then ok (entries fs)
    else err bad_fields
exact_dict names _ = err bad_fields

-- `_text`
unfoldable pub checked_text : Value → Checked String
checked_text (str s) = if is_spaces s || has_nul s then err bad_text else ok s
checked_text _ = err bad_text

abbrev items_of : Items → List Value
items_of nil = []
items_of (cons v vs) = v ∷ items_of vs

-- `[f(item) for item in values]`
unfoldable pub each : {A B : Type 0} → (A → Checked B) → List A → Checked (List B)
each f [] = ok []
each f (v ∷ vs) = do a ← f v; rest ← each f vs; ok (a ∷ rest)

abbrev as_array : Value → Checked (List Value)
as_array (list vs) = ok (items_of vs)
as_array _ = err not_an_array

-- `_text_array`
unfoldable pub text_array : Value → Bool → Checked (List String)
unfolding each checked_text
text_array value nonempty = do
  values ← as_array value
  raise_if (nonempty && is_empty values) empty_array
  parsed ← each checked_text values
  raise_if (not (are_unique parsed)) repeated_entry
  ok parsed

-- `_scope_path`
unfoldable pub scope_path : String → Checked String
scope_path value = do
  raise_if (is_absolute value || any (λ part. part == "..") (path_parts value)) bad_scope
  raise_if (any is_git_part (path_parts value)) bad_scope
  ok (join_slash (path_parts value))

-- The four texts of an action.
abbrev action_texts : Mapping Value → Checked Action
action_texts m = do
  action ← checked_text (get_value m "action")
  target ← checked_text (get_value m "target")
  environment ← checked_text (get_value m "environment")
  scope ← checked_text (get_value m "scope")
  raise_if (not (contains hard_l3 action)) bad_action
  ok (record { action = action; target = target; environment = environment; scope = scope })

-- `_action(value, field, authority=False)`
unfoldable pub external_action : Value → Checked Action
unfolding exact_dict checked_text
external_action value = do m ← exact_dict action_fields value; action_texts m

-- `_action(value, field, authority=True)`
unfoldable pub authority_grant : Value → Checked Authority
unfolding exact_dict checked_text
authority_grant value = do
  m ← exact_dict authority_fields value
  task_id ← checked_text (get_value m "task_id")
  user_evidence ← checked_text (get_value m "user_evidence")
  grant ← action_texts m
  ok (record { grant = grant; task_id = task_id; user_evidence = user_evidence })

-- `len({_action_key(item) for item in actions}) == len(actions)`
unfoldable pub are_distinct : List Action → Bool
are_distinct [] = true
are_distinct (a ∷ rest) = not (any (same_action a) rest) && are_distinct rest

abbrev pub action_names : List Action → List String
action_names [] = []
action_names (a ∷ rest) = a.action ∷ action_names rest

abbrev pub grants : List Authority → List Action
grants [] = []
grants (a ∷ rest) = a.grant ∷ grants rest

abbrev version_is_one : Value → Bool
version_is_one (int (pos n)) = eqb n 1
version_is_one _ = false

abbrev pub known_signals : List String
known_signals = hard_l2 ++ (hard_l3 ++ (soft ++ control))

abbrev checked_level : Value → Checked Level
checked_level (str s) = elim (parse_level s) [ none ↦ err unknown_risk | some l ↦ ok l ]
checked_level _ = err unknown_risk

-- The checks between the parts of a capsule.
abbrev is_bound_authority : String → List String → Authority → Bool
is_bound_authority task_id signals a =
    a.task_id == task_id && (contains signals a.grant.action && contains hard_l3 a.grant.action)

unfoldable pub checked_bindings : TaskCapsule → Checked TaskCapsule
checked_bindings c = do
  raise_if (not (are_distinct c.external_actions)) repeated_action
  raise_if (not (are_distinct (grants c.authority))) repeated_action
  raise_if
      (not (
        all (contains (action_names c.external_actions)) (select (contains hard_l3) c.signals)
        && all (contains (select (contains hard_l3) c.signals)) (action_names c.external_actions)))
      unbound_action
  raise_if (not (all (is_bound_authority c.task_id c.signals) c.authority)) unbound_authority
  ok c

unfoldable pub validate_capsule : Value → Checked TaskCapsule
unfolding exact_dict checked_text each text_array scope_path external_action authority_grant
    checked_bindings
validate_capsule value = do
  m ← exact_dict capsule_fields value
  raise_if (not (version_is_one (get_value m "version"))) bad_version
  task_id ← checked_text (get_value m "task_id")
  raise_if (not (is_task_id task_id)) bad_task_id
  outcome ← checked_text (get_value m "outcome")
  scope_texts ← text_array (get_value m "scope") true
  scope ← each scope_path scope_texts
  invariants ← text_array (get_value m "invariants") false
  evidence ← text_array (get_value m "evidence") true
  risk ← checked_level (get_value m "risk")
  signals ← text_array (get_value m "signals") false
  raise_if (not (all (contains known_signals) signals)) unknown_signal
  action_values ← as_array (get_value m "external_actions")
  authority_values ← as_array (get_value m "authority")
  actions ← each external_action action_values
  authorities ← each authority_grant authority_values
  checked_bindings (record {
    task_id = task_id;
    outcome = outcome;
    scope = scope;
    invariants = invariants;
    evidence = evidence;
    risk = risk;
    signals = signals;
    external_actions = actions;
    authority = authorities;
  })
