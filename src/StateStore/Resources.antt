-- ===== src/StateStore/Resources.antt =====
-- `_validate_json_resources` of taskguard/state.py: the loop over a stack of values with their depth.
use bricek4_ligong_skills.Base.{
  ℕ, zero, suc, Option, none, some, List, [], ◌∷◌, ok, err, ltb, Value, Items, Fields, null, bool,
  int, str, list, tuple, dict, nil, cons, end, field, if◌then◌else◌,
}
use bricek4_ligong_skills.StateStore.{Checked, state_error, max_state_nodes, max_state_depth}

-- The stack, its last element first.
abbrev pub Pending : Type 0
Pending = List (Value × ℕ)

-- `stack.extend((child, depth) for child in …)`
unfoldable pub push_items : Items → ℕ → Pending → Pending
push_items nil depth stack = stack
push_items (cons v vs) depth stack = push_items vs depth ((v, depth) ∷ stack)

unfoldable pub push_fields : Fields → ℕ → Pending → Pending
push_fields end depth stack = stack
push_fields (field k v fs) depth stack = push_fields fs depth ((v, depth) ∷ stack)

-- The stack with the children of a value; `none` for a type that JSON has not.
unfoldable pub expand : Value → ℕ → Pending → Option Pending
unfolding push_items push_fields
expand null depth stack = some stack
expand (bool b) depth stack = some stack
expand (int n) depth stack = some stack
expand (str s) depth stack = some stack
expand (list vs) depth stack = some (push_items vs (suc depth) stack)
expand (tuple vs) depth stack = none
expand (dict fs) depth stack = some (push_fields fs (suc depth) stack)

-- The loop; `room` is the count of nodes that are still allowed.
unfoldable pub scan : ℕ → Pending → Checked (Unit {0})
unfolding expand
scan room [] = ok tt
scan zero (p ∷ stack) = err (state_error "state exceeds maximum JSON node count of 100000")
scan (suc room) ((v, depth) ∷ stack) =
    if ltb max_state_depth depth
    then err (state_error "state exceeds maximum JSON depth of 64")
    else elim (expand v depth stack) [
      | none ↦ err (state_error "state contains unsupported JSON value type")
      | some stack' ↦ scan room stack'
    ]

-- `_validate_json_resources`
unfoldable pub validate_json_resources : Value → Checked (Unit {0})
unfolding scan
validate_json_resources value = scan max_state_nodes ((value, 1) ∷ [])
