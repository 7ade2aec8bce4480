-- ===== src/Risk.antt =====
-- taskguard/risk.py: the vocabulary of the risk fuse; the children hold its two functions.
pub mod Paths
pub mod Capsule
pub mod Fuse
pub mod Monotone
pub mod Blockers
pub mod Admission
pub mod Stages
use bricek4_ligong_skills.Base.{
  ℕ, String, Bool, true, false, Option, none, some, List, [], ◌∷◌, ◌++◌, ◌==◌, contains, ◌&&◌,
  if◌then◌else◌,
}

-- `_RISKS`, with the position of each.
pub data Level : Type 0 where
  l0 l1 l2 l3 : Level

abbrev pub index : Level → ℕ
index l0 = 0
index l1 = 1
index l2 = 2
index l3 = 3

unfoldable pub parse_level : String → Option Level
parse_level s =
    if s == "L0"
    then some l0
    else if s == "L1"
    then some l1
    else if s == "L2"
    then some l2
    else if s == "L3"
    then some l3
    else none

pub data Stage : Type 0 where
  initial diff final : Stage

unfoldable pub parse_stage : String → Option Stage
parse_stage s =
    if s == "initial"
    then some initial
    else if s == "diff"
    then some diff
    else if s == "final"
    then some final
    else none

-- `_STAGE_PREVIOUS`
abbrev pub stage_previous : Stage → Option Stage
stage_previous initial = none
stage_previous diff = some initial
stage_previous final = some diff

abbrev pub hard_l2 : List String
hard_l2 =
    "public_api" ∷ "persistence" ∷ "migration" ∷ "identity" ∷ "authorization" ∷ "tenant" ∷ "privacy"
    ∷ "security" ∷ "data_loss" ∷ "false_supported" ∷ "ai_output" ∷ []

abbrev pub hard_l3 : List String
hard_l3 =
    "deploy" ∷ "delete" ∷ "production_write" ∷ "third_party_write" ∷ "external_irreversible" ∷ []

abbrev pub soft : List String
soft =
    "material_ambiguity" ∷ "multiple_owners" ∷ "dirty_overlap" ∷ "no_trusted_verification"
    ∷ "repeated_hypothesis_failure" ∷ "diff_expansion" ∷ "evidence_conflict" ∷ "evidence_staleness"
    ∷ []

abbrev pub control : List String
control = "scope_expansion" ∷ []

-- `_BASE_GUARDS`
abbrev pub base_guards : Level → List String
base_guards l0 = "precise_check" ∷ []
base_guards l1 = "change_contract" ∷ "focused_red_green" ∷ "final_verification" ∷ []
base_guards l2 =
    "preflight" ∷ "taskguard" ∷ "boundary_matrix" ∷ "failure_paths" ∷ "ownership_check" ∷ []
base_guards l3 =
    "preflight" ∷ "taskguard" ∷ "boundary_matrix" ∷ "failure_paths" ∷ "ownership_check"
    ∷ "explicit_authority" ∷ "dry_run" ∷ "rollback" ∷ "health_check" ∷ []

pub record Action : Type 0 where
  pub action : String
  pub target : String
  pub environment : String
  pub scope : String

pub record Authority : Type 0 where
  pub grant : Action
  pub task_id : String
  pub user_evidence : String

-- What `validate_capsule` returns.
pub record TaskCapsule : Type 0 where
  pub task_id : String
  pub outcome : String
  pub scope : List String
  pub invariants : List String
  pub evidence : List String
  pub risk : Level
  pub signals : List String
  pub external_actions : List Action
  pub authority : List Authority

-- Equality of `_action_key`.
unfoldable pub same_action : Action → Action → Bool
same_action a b =
    a.action == b.action
    && (a.target == b.target && (a.environment == b.environment && a.scope == b.scope))

pub data CapsuleError : Type 0 where
  bad_fields bad_version bad_text not_an_array empty_array repeated_entry bad_task_id : CapsuleError
  bad_scope unknown_risk unknown_signal bad_action repeated_action unbound_action : CapsuleError
  unbound_authority bad_stage unexpected_previous bad_digest wrong_previous : CapsuleError
