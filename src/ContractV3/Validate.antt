-- ===== src/ContractV3/Validate.antt =====
-- `_parse_repo` and `validate_contract_v3` of taskguard/contracts/v3.py.
use bricek4_ligong_skills.Base.{
  ℕ, ◌+◌, String, Bool, true, false, not, List, [], ◌∷◌, ok, err, ◌>>=◌, ◌>>◌, raise_if, Value,
  Items, Fields, null, bool, int, str, list, dict, nil, cons, end, field, pos, is_text, length, eqb,
  if◌then◌else◌, ◌+++◌,
}
use bricek4_ligong_skills.Contract.{top, at_index, member, Checked, error, lookup_field, Contract}
use bricek4_ligong_skills.Contract.Paths.{Host}
use bricek4_ligong_skills.Contract.Validate.{repeats, validate_contract}
use bricek4_ligong_skills.ContractV3.{
  ActionSpec, RepoContractV3, ContractV3, top_level_fields, repo_fields, text, exact,
}
use bricek4_ligong_skills.ContractV3.Actions.{parse_action}

-- The acceptance that stands in for an empty one, so that the v2 validation takes it.
unfoldable pub projected_acceptance : Value
projected_acceptance = dict (
    field "id" (str "__v3_structural_projection__") (
      field "argv" (list (cons (str "python3") (cons (str "-c") (cons (str "pass") nil)))) (
        field "cwd" (str ".") (
          field "requires_red" (bool false)
            (field "expected_red_pattern" null (field "idempotent" (bool true) end))))))

-- `acceptance_raw or [...]`
abbrev pub or_projected : Items → Items
or_projected nil = cons projected_acceptance nil
or_projected (cons v vs) = cons v vs

abbrev pub is_nil : Items → Bool
is_nil nil = true
is_nil (cons v vs) = false

unfoldable pub acceptance_array : Value → Checked Items
acceptance_array (list vs) = ok vs
acceptance_array _ = err (error (member (top "repo_contract") "acceptance") "must be an array")

-- The v2 contract that the repository contract is checked as.
abbrev pub v2_document : Fields → Items → Value
v2_document raw acceptance = dict (
    field "version" (int (pos 2)) (
      field "task_id" (str "v3-repo-projection") (
        field "goal" (str "validate v3 repository contract") (
          field "risk" (str "L2") (
            field "repo" (lookup_field raw "repo") (
              field "scope" (lookup_field raw "repo_scope") (
                field "acknowledge_dirty" (lookup_field raw "acknowledge_dirty") (
                  field "acceptance" (list acceptance) (
                    field "forbidden" (lookup_field raw "forbidden")
                      (field "surfaces" (lookup_field raw "surfaces") end))))))))))

-- `except ContractError`
unfoldable pub wrapped : {A : Type 0} → Checked A → Checked A
wrapped (ok a) = ok a
wrapped (err e) = err (error e.field_name ("repo_contract: " +++ e.message))

unfoldable pub of_v2 : Bool → Contract → RepoContractV3
of_v2 no_acceptance c = record {
  repo = c.repo;
  repo_scope = c.scope;
  acknowledge_dirty = c.acknowledge_dirty;
  acceptance = if no_acceptance then [] else c.acceptance;
  forbidden = c.forbidden;
  surfaces = c.surfaces;
}

-- `_parse_repo`
unfoldable pub parse_repo : Host → Value → Checked RepoContractV3
unfolding acceptance_array wrapped of_v2 projected_acceptance
parse_repo host value = do
  raw ← exact value (top "repo_contract") repo_fields
  acceptance ← acceptance_array (lookup_field raw "acceptance")
  parsed ← wrapped (validate_contract host (v2_document raw (or_projected acceptance)))
  ok (of_v2 (is_nil acceptance) parsed)

abbrev pub is_three : Value → Bool
is_three (int (pos n)) = eqb n 3
is_three _ = false

unfoldable pub action_items : ℕ → Items → Checked (List ActionSpec)
action_items index nil = ok []
action_items index (cons v vs) = do
  action ← parse_action v (at_index (top "actions") index)
  rest ← action_items (index + 1) vs
  ok (action ∷ rest)

abbrev pub ids_of : List ActionSpec → List String
ids_of [] = []
ids_of (a ∷ actions) = a.id ∷ ids_of actions

-- The array of actions; more than one is not enabled.
unfoldable pub parse_actions : Value → Checked (List ActionSpec)
unfolding action_items
parse_actions (list (cons v vs)) = do
  actions ← action_items 0 (cons v vs)
  raise_if (repeats (ids_of actions))
      (error (top "contract.actions") "contains duplicate action IDs")
  raise_if (not (eqb (length actions) 1))
      (error (top "contract.actions") "MULTI_ACTION_NOT_ENABLED")
  ok actions
parse_actions _ = err (error (top "contract.actions") "must be a non-empty array")

-- `validate_contract_v3`
unfoldable pub validate_contract_v3 : Host → Value → Checked ContractV3
validate_contract_v3 host value = do
  raw ← exact value (top "contract") top_level_fields
  raise_if (not (is_three (lookup_field raw "version")))
      (error (top "contract.version") "must be integer 3")
  raise_if (not (is_text (lookup_field raw "risk") "L3")) (error (top "contract.risk") "must be L3")
  actions ← parse_actions (lookup_field raw "actions")
  task_id ← text (lookup_field raw "task_id") (top "contract.task_id")
  goal ← text (lookup_field raw "goal") (top "contract.goal")
  repo_contract ← parse_repo host (lookup_field raw "repo_contract")
  ok (record {
    version = 3;
    task_id = task_id;
    goal = goal;
    risk = "L3";
    repo_contract = repo_contract;
    actions = actions;
  })
