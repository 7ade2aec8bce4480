-- ===== src/Examples/ContractsV3.antt =====
-- Results about taskguard/contracts/v3.py at a concrete contract, with no acceptance of its own.
use bricek4_ligong_skills.Base.{
  ◌≡◌, refl, true, [], ◌∷◌, ok, Value, bool, int, str, list, dict, nil, cons, end, field, pos,
  contains, has_nul, raise_if, sorted_set, starts_with,
}
use bricek4_ligong_skills.Risk.Paths.{is_spaces, path_parts, is_absolute, join_slash, is_git_part}
use bricek4_ligong_skills.Receipts.Frozen.{is_plain}
use bricek4_ligong_skills.Contract.{
  top, at_index, exact_fields, nonempty_string, boolean, lexical_relative,
}
use bricek4_ligong_skills.Contract.Selectors.{has_magic, posix_parts}
use bricek4_ligong_skills.Contract.Scan.{
  validate_symlink_boundary, is_inside_git_admin, relative_to, can_list, inspect_literal,
  walk_literal, visit_part, scan_entries, scan_named, reject_nested_marker,
}
use bricek4_ligong_skills.Contract.Paths.{
  canonical_repo, paths_of, canonical_path, git_admin_roots, inspect, canonical_cwd, path_array,
}
use bricek4_ligong_skills.Contract.Objects.{
  acceptance_items, object_loop, acceptance_item, object_of, argv_of, red_pattern, optional_text,
  forbidden_rules, surface_rules,
}
use bricek4_ligong_skills.Contract.Validate.{
  validate_contract, version_of, scope_of, repeats, acknowledged_of,
}
use bricek4_ligong_skills.ContractV3.{
  ActionSpec, ContractV3, text, positive_int, json_object, freeze, exact,
}
use bricek4_ligong_skills.ContractV3.Actions.{
  parse_action, parse_target, parse_authority, parse_plan, parse_rollback, parse_health,
  signal_items, signals_of, known_text, build_action, action_manifest,
}
use bricek4_ligong_skills.ContractV3.Validate.{
  validate_contract_v3, parse_repo, parse_actions, action_items, acceptance_array, wrapped, of_v2,
  projected_acceptance,
}
use bricek4_ligong_skills.ContractV3.Reparsed.{parse_action-action_manifest}
use bricek4_ligong_skills.ContractV3.Bound.{IsBound, validate_contract_v3-IsBound}
use bricek4_ligong_skills.Examples.Contracts.{host}

abbrev target_document : Value
target_document = dict (
    field "provider" (str "fly") (
      field "account_id" (str "acme")
        (field "project_id" (str "web") (field "resource_id" (str "app") end))))

abbrev authority_document : Value
authority_document = dict (
    field "provider" (str "human")
      (field "bind_plan" (bool true) (field "max_uses" (int (pos 1)) end)))

abbrev rollback_document : Value
rollback_document = dict (
    field "required" (bool true)
      (field "preauthorize" (bool true) (field "automatic_on_health_failure" (bool true) end)))

abbrev health_document : Value
health_document = dict (
    field "window_seconds" (int (pos 60)) (
      field "minimum_samples" (int (pos 3))
        (field "required_signals" (list (cons (str "errors") (cons (str "latency") nil))) end)))

abbrev deploy : Value
deploy = dict (
    field "id" (str "deploy-web") (
      field "kind" (str "deploy") (
        field "adapter" (str "fly") (
          field "target" target_document (
            field "environment" (str "staging") (
              field "resource_scope" (dict (field "regions" (list (cons (str "ams") nil)) end)) (
                field "desired_state" (dict end) (
                  field "preconditions" (dict end) (
                    field "authority_policy" authority_document (
                      field "plan_policy" (dict (field "max_age_seconds" (int (pos 300)) end)) (
                        field "rollback_policy" rollback_document
                          (field "health_policy" health_document end))))))))))))

abbrev deploy_action : ActionSpec
deploy_action = record {
  id = "deploy-web";
  kind = "deploy";
  adapter = "fly";
  target = record {
    provider = "fly";
    account_id = "acme";
    project_id = "web";
    resource_id = "app";
  };
  environment = "staging";
  resource_scope = field "regions" (Value.tuple (cons (str "ams") nil)) end;
  desired_state = end;
  preconditions = end;
  authority_policy = record { provider = "human"; bind_plan = true; max_uses = 1 };
  max_age_seconds = 300;
  rollback_policy = record {
    required = true;
    preauthorize = true;
    automatic_on_health_failure = true;
  };
  health_policy = record {
    window_seconds = 60;
    minimum_samples = 3;
    required_signals = "errors" ∷ "latency" ∷ [];
  };
}

deploy_is_read : parse_action deploy (at_index (top "actions") 0) ≡ ok deploy_action
unfolding parse_action exact exact_fields sorted_set contains known_text text is_spaces has_nul
    raise_if parse_target parse_authority parse_plan parse_rollback parse_health signals_of
    signal_items positive_int boolean repeats build_action json_object freeze
deploy_is_read = refl

plain_deploy : is_plain deploy ≡ true
unfolding is_plain
plain_deploy = refl

parse_action-action_manifest_example :
    parse_action (dict (action_manifest deploy_action)) (at_index (top "actions") 1)
    ≡ ok deploy_action
parse_action-action_manifest_example =
    parse_action-action_manifest deploy (at_index (top "actions") 0) (at_index (top "actions") 1)
      deploy_action plain_deploy deploy_is_read

abbrev repo_document : Value
repo_document = dict (
    field "repo" (str ".") (
      field "repo_scope" (list (cons (str "src") nil)) (
        field "acknowledge_dirty" (list nil) (
          field "acceptance" (list nil)
            (field "forbidden" (list nil) (field "surfaces" (list nil) end))))))

abbrev release_document : Value
release_document = dict (
    field "version" (int (pos 3)) (
      field "task_id" (str "t3") (
        field "goal" (str "release") (
          field "risk" (str "L3")
            (field "repo_contract" repo_document (field "actions" (list (cons deploy nil)) end))))))

abbrev release_contract : ContractV3
release_contract = record {
  version = 3;
  task_id = "t3";
  goal = "release";
  risk = "L3";
  repo_contract = record {
    repo = "r" ∷ [];
    repo_scope = "src" ∷ [];
    acknowledge_dirty = [];
    acceptance = [];
    forbidden = [];
    surfaces = [];
  };
  actions = deploy_action ∷ [];
}

release_is_accepted : validate_contract_v3 host release_document ≡ ok release_contract
unfolding validate_contract_v3 parse_repo parse_actions action_items acceptance_array wrapped of_v2
    projected_acceptance parse_action exact known_text text parse_target parse_authority parse_plan
    parse_rollback parse_health signals_of signal_items positive_int build_action json_object freeze
    validate_contract exact_fields sorted_set contains version_of nonempty_string is_spaces has_nul
    raise_if canonical_repo scope_of paths_of canonical_path lexical_relative is_absolute path_parts
    join_slash posix_parts is_git_part git_admin_roots inspect has_magic starts_with inspect_literal
    walk_literal visit_part can_list reject_nested_marker scan_entries scan_named repeats
    acceptance_items object_loop acceptance_item object_of argv_of canonical_cwd boolean red_pattern
    optional_text acknowledged_of path_array forbidden_rules surface_rules validate_symlink_boundary
    is_inside_git_admin relative_to
release_is_accepted = refl

validate_contract_v3-IsBound_example : IsBound host release_contract
validate_contract_v3-IsBound_example =
    validate_contract_v3-IsBound host release_document release_contract release_is_accepted
