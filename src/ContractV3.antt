-- ===== src/ContractV3.antt =====
-- taskguard/contracts/v3.py: the data of a v3 contract and the checks of single values. The errors are those of a v2
-- contract, of which `ContractV3Error` is a subclass.
pub mod Actions
pub mod Validate
pub mod Parsed
pub mod Inversion
pub mod Frozen
pub mod Reparsed
pub mod Bound
use bricek4_ligong_skills.Base.{
  ℕ, suc, String, Bool, true, false, not, ◌&&◌, ◌||◌, List, [], ◌∷◌, Outcome, ok, err, ◌>>=◌, ◌>>◌,
  raise_if, Value, Items, Fields, null, bool, int, str, list, tuple, dict, nil, cons, end, field,
  pos, has_nul, leb, if◌then◌else◌,
}
use bricek4_ligong_skills.Risk.Paths.{is_spaces}
use bricek4_ligong_skills.Contract.{
  Label, Checked, HostPath, error, exact_fields, Acceptance, ForbiddenRule, SurfaceRule,
}

abbrev pub top_level_fields : List String
top_level_fields = "version" ∷ "task_id" ∷ "goal" ∷ "risk" ∷ "repo_contract" ∷ "actions" ∷ []

abbrev pub repo_fields : List String
repo_fields =
    "repo" ∷ "repo_scope" ∷ "acknowledge_dirty" ∷ "acceptance" ∷ "forbidden" ∷ "surfaces" ∷ []

abbrev pub action_fields : List String
action_fields =
    "id" ∷ "kind" ∷ "adapter" ∷ "target" ∷ "environment" ∷ "resource_scope" ∷ "desired_state"
    ∷ "preconditions" ∷ "authority_policy" ∷ "plan_policy" ∷ "rollback_policy" ∷ "health_policy"
    ∷ []

abbrev pub target_fields : List String
target_fields = "provider" ∷ "account_id" ∷ "project_id" ∷ "resource_id" ∷ []

abbrev pub authority_fields : List String
authority_fields = "provider" ∷ "bind_plan" ∷ "max_uses" ∷ []

abbrev pub plan_fields : List String
plan_fields = "max_age_seconds" ∷ []

abbrev pub rollback_fields : List String
rollback_fields = "required" ∷ "preauthorize" ∷ "automatic_on_health_failure" ∷ []

abbrev pub health_fields : List String
health_fields = "window_seconds" ∷ "minimum_samples" ∷ "required_signals" ∷ []

abbrev pub supported_action_kinds : List String
supported_action_kinds = "deploy" ∷ "write" ∷ "update" ∷ "publish" ∷ []

abbrev pub supported_environments : List String
supported_environments = "sandbox" ∷ "staging" ∷ "production" ∷ []

pub record ActionTarget : Type 0 where
  pub provider : String
  pub account_id : String
  pub project_id : String
  pub resource_id : String

pub record AuthorityPolicy : Type 0 where
  pub provider : String
  pub bind_plan : Bool
  pub max_uses : ℕ

pub record RollbackPolicy : Type 0 where
  pub required : Bool
  pub preauthorize : Bool
  pub automatic_on_health_failure : Bool

pub record HealthPolicy : Type 0 where
  pub window_seconds : ℕ
  pub minimum_samples : ℕ
  pub required_signals : List String

-- The plan policy is its one field, `max_age_seconds`.
pub record ActionSpec : Type 0 where
  pub id : String
  pub kind : String
  pub adapter : String
  pub target : ActionTarget
  pub environment : String
  pub resource_scope : Fields
  pub desired_state : Fields
  pub preconditions : Fields
  pub authority_policy : AuthorityPolicy
  pub max_age_seconds : ℕ
  pub rollback_policy : RollbackPolicy
  pub health_policy : HealthPolicy

pub record RepoContractV3 : Type 0 where
  pub repo : HostPath
  pub repo_scope : List String
  pub acknowledge_dirty : List String
  pub acceptance : List Acceptance
  pub forbidden : List ForbiddenRule
  pub surfaces : List SurfaceRule

pub record ContractV3 : Type 0 where
  pub version : ℕ
  pub task_id : String
  pub goal : String
  pub risk : String
  pub repo_contract : RepoContractV3
  pub actions : List ActionSpec

-- `_text`
unfoldable pub text : Value → Label → Checked String
text (str s) label =
    if is_spaces s || has_nul s then err (error label "must be a non-empty string") else ok s
text _ label = err (error label "must be a non-empty string")

-- `_positive_int`
unfoldable pub positive_int : Value → Label → Checked ℕ
positive_int (int (pos n)) label =
    if leb 1 n then ok n else err (error label "must be a positive integer")
positive_int _ label = err (error label "must be a positive integer")

-- `_freeze_json`: arrays become tuples, and a tuple stays as it is.
unfoldable mutual
  pub freeze : Value → Value
  freeze null = null
  freeze (bool b) = bool b
  freeze (int n) = int n
  freeze (str s) = str s
  freeze (list vs) = tuple (freeze_items vs)
  freeze (tuple vs) = tuple vs
  freeze (dict fs) = dict (freeze_fields fs)

  pub freeze_items : Items → Items
  freeze_items nil = nil
  freeze_items (cons v vs) = cons (freeze v) (freeze_items vs)

  pub freeze_fields : Fields → Fields
  freeze_fields end = end
  freeze_fields (field k v fs) = field k (freeze v) (freeze_fields fs)

-- `_thaw_json`
unfoldable mutual
  pub thaw : Value → Value
  thaw null = null
  thaw (bool b) = bool b
  thaw (int n) = int n
  thaw (str s) = str s
  thaw (list vs) = list vs
  thaw (tuple vs) = list (thaw_items vs)
  thaw (dict fs) = dict (thaw_fields fs)

  pub thaw_items : Items → Items
  thaw_items nil = nil
  thaw_items (cons v vs) = cons (thaw v) (thaw_items vs)

  pub thaw_fields : Fields → Fields
  thaw_fields end = end
  thaw_fields (field k v fs) = field k (thaw v) (thaw_fields fs)

-- `_json_object`; every value of the model has a canonical text.
unfoldable pub json_object : Value → Label → Checked Fields
json_object (dict fs) label = ok (freeze_fields fs)
json_object _ label = err (error label "must be an object")

-- `_exact`, with the fields of the object.
unfoldable pub exact : Value → Label → List String → Checked Fields
exact (dict fs) label names = do exact_fields fs label names names; ok fs
exact _ label names = err (error label "must be an object")
