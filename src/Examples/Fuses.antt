-- ===== src/Examples/Fuses.antt =====
-- Instances of the risk fuse (taskguard/risk.py).
use bricek4_ligong_skills.Base.{
  ◌≡◌, refl, ◌↔◌, String, true, none, some, List, [], ◌∷◌, ok, Value, Items, int, pos, str, list,
  dict, nil, cons, end, field, is_sha256, raise_if, contains, get_value, has_nul,
}
use bricek4_ligong_skills.Receipts.{are_unique}
use bricek4_ligong_skills.Risk.Paths.{is_spaces, is_task_id, is_absolute, path_parts, is_git_part}
use bricek4_ligong_skills.Risk.{parse_level, l1, Stage, initial, diff, parse_stage, TaskCapsule}
use bricek4_ligong_skills.Risk.Capsule.{validate_capsule, are_distinct}
use bricek4_ligong_skills.Risk.Fuse.{
  StageResult, RiskResult, stage_result, chain_of, signed, evaluate_capsule, evaluate_risk,
  validate_chain,
}
use bricek4_ligong_skills.Risk.Monotone.{IsAbove, fuse_one_way}
use bricek4_ligong_skills.Risk.Admission.{IsAdmissible, admitted_exactly}
use bricek4_ligong_skills.Risk.Stages.{admitted_chain_accepted}

abbrev texts : List String → Items
texts [] = nil
texts (t ∷ ts) = cons (str t) (texts ts)

abbrev capsule_value : Value
capsule_value = dict (
    field "version" (int (pos 1)) (
      field "task_id" (str "task-1") (
        field "outcome" (str "fix the parser") (
          field "scope" (list (texts ("src/parser.py" ∷ []))) (
            field "invariants" (list nil) (
              field "evidence" (list (texts ("tests pass" ∷ []))) (
                field "risk" (str "L1") (
                  field "signals" (list (texts ("material_ambiguity" ∷ [])))
                    (field "external_actions" (list nil) (field "authority" (list nil) end))))))))))

abbrev capsule : TaskCapsule
capsule = record {
  task_id = "task-1";
  outcome = "fix the parser";
  scope = "src/parser.py" ∷ [];
  invariants = [];
  evidence = "tests pass" ∷ [];
  risk = l1;
  signals = "material_ambiguity" ∷ [];
  external_actions = [];
  authority = [];
}

abbrev constant_digest : StageResult → List StageResult → String
constant_digest s nested = "00000000000000000000000000000000000000000000000000000000000000cc"

abbrev first_result : RiskResult
first_result = signed constant_digest (stage_result capsule initial none) (chain_of none)

abbrev second_result : RiskResult
second_result =
    signed constant_digest (stage_result capsule diff (some first_result))
      (chain_of (some first_result))

second_run :
    evaluate_risk constant_digest capsule_value "diff" (some first_result) ≡ ok second_result
unfolding evaluate_risk parse_stage validate_capsule stage_result contains raise_if get_value
    is_spaces has_nul is_task_id are_unique is_absolute path_parts is_git_part parse_level
    are_distinct validate_chain is_sha256
second_run = refl

second_capsule_run :
    evaluate_capsule constant_digest capsule diff (some first_result) ≡ ok second_result
unfolding evaluate_capsule stage_result validate_chain raise_if is_sha256
second_capsule_run = refl

digest_form : (x : StageResult) (xs : List StageResult) → is_sha256 (constant_digest x xs) ≡ true
unfolding is_sha256
digest_form x xs = refl

second_admitted : second_result.top.admitted ≡ true
unfolding stage_result contains
second_admitted = refl

fuse_one_way_example :
    (c : TaskCapsule) × (validate_capsule capsule_value ≡ ok c)
    × IsAbove c (some first_result) second_result.top
    × (second_result.nested ≡ chain_of (some first_result))
fuse_one_way_example =
    fuse_one_way constant_digest capsule_value "diff" (some first_result) second_run

admitted_exactly_example :
    (s : Stage) × (c : TaskCapsule) × (parse_stage "diff" ≡ some s)
    × (validate_capsule capsule_value ≡ ok c)
    × ((second_result.top.admitted ≡ true) ↔ IsAdmissible c s (some first_result) second_result.top)
admitted_exactly_example =
    admitted_exactly constant_digest capsule_value "diff" (some first_result) second_run

admitted_chain_example :
    validate_chain constant_digest "task-1" diff (second_result.top ∷ second_result.nested) ≡ ok tt
admitted_chain_example =
    admitted_chain_accepted constant_digest digest_form capsule diff (some first_result)
      second_capsule_run second_admitted
