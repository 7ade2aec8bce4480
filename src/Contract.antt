-- ===== src/Contract.antt =====
-- The v2 contract of taskguard/contract.py: its data, its errors and the checks of single values.
pub mod Glob
pub mod Selectors
pub mod Scan
pub mod Paths
pub mod Objects
pub mod Validate
use bricek4_ligong_skills.Base.{
  ℕ, String, Bool, true, false, not, ◌&&◌, ◌||◌, Option, none, some, List, [], ◌∷◌, ◌==◌, Outcome,
  ok, err, ◌>>=◌, ◌>>◌, raise_if, Value, Items, Fields, nil, cons, end, field, null, bool, int, str,
  list, dict, pos, find_field, or_null, contains, any, reject, is_empty, is_blank, has_nul,
  sorted_set, if◌then◌else◌, ◌+++◌,
}
use bricek4_ligong_skills.Risk.Paths.{is_spaces, path_parts, is_absolute, join_slash, is_git_part}

-- The field that an error names: `scope`, `scope[3]`, `acceptance[0].id`.
pub data Label : Type 0 where
  top : String → Label
  at_index : Label → ℕ → Label
  member : Label → String → Label

-- `ContractError(f"{field_name}: {message}")`
pub record ContractError : Type 0 where
  pub field_name : Label
  pub message : String

abbrev pub Checked : Type 0 → Type 0
Checked A = Outcome ContractError A

-- `_error(field_name, message)`
abbrev pub error : Label → String → ContractError
error field_name message = record { field_name = field_name; message = message }

pub record Acceptance : Type 0 where
  pub id : String
  pub argv : List String
  pub cwd : String
  pub requires_red : Bool
  pub expected_red_pattern : Option String
  pub idempotent : Bool
  pub selector : Option String

pub record ForbiddenRule : Type 0 where
  pub id : String
  pub glob : String
  pub regex : String
  pub mode : String

pub record SurfaceRule : Type 0 where
  pub id : String
  pub argv : List String
  pub cwd : String
  pub read_only : Bool
  pub normalizer_version : String
  pub allowed_writes : List String

-- A path of the host as its components.
abbrev pub HostPath : Type 0
HostPath = List String

pub record Contract : Type 0 where
  pub version : ℕ
  pub task_id : String
  pub goal : String
  pub risk : String
  pub repo : HostPath
  pub scope : List String
  pub acceptance : List Acceptance
  pub acknowledge_dirty : List String
  pub forbidden : List ForbiddenRule
  pub surfaces : List SurfaceRule

abbrev pub risk_levels : List String
risk_levels = "L0" ∷ "L1" ∷ "L2" ∷ "L3" ∷ []

abbrev pub forbidden_modes : List String
forbidden_modes = "eliminate" ∷ "no_new" ∷ []

abbrev pub contract_fields : List String
contract_fields =
    "version" ∷ "task_id" ∷ "goal" ∷ "risk" ∷ "repo" ∷ "scope" ∷ "acknowledge_dirty" ∷ "acceptance"
    ∷ "forbidden" ∷ "surfaces" ∷ []

abbrev pub contract_required : List String
contract_required = "version" ∷ "task_id" ∷ "goal" ∷ "risk" ∷ "repo" ∷ "scope" ∷ "acceptance" ∷ []

abbrev pub acceptance_fields : List String
acceptance_fields =
    "id" ∷ "argv" ∷ "cwd" ∷ "selector" ∷ "requires_red" ∷ "expected_red_pattern" ∷ "idempotent" ∷ []

abbrev pub acceptance_required : List String
acceptance_required = "id" ∷ "argv" ∷ "cwd" ∷ "requires_red" ∷ "idempotent" ∷ []

abbrev pub forbidden_fields : List String
forbidden_fields = "id" ∷ "glob" ∷ "regex" ∷ "mode" ∷ []

abbrev pub surface_fields : List String
surface_fields = "id" ∷ "argv" ∷ "cwd" ∷ "read_only" ∷ "allowed_writes" ∷ "normalizer_version" ∷ []

abbrev pub names_of : Fields → List String
names_of end = []
names_of (field k v fs) = k ∷ names_of fs

-- `value.get(name)`
abbrev pub lookup_field : Fields → String → Value
lookup_field fs name = or_null (find_field fs name)

-- `value.get(name, default)`
abbrev pub field_or : Fields → String → Value → Value
field_or fs name default = elim (find_field fs name) [ none ↦ default | some v ↦ v ]

-- The first name of a sorted difference is the error, if there is one.
raise_first : List String → Label → String → Checked (Unit {0})
raise_first [] label message = ok tt
raise_first (name ∷ names) label message = err (error (member label name) message)

unfoldable pub exact_fields : Fields → Label → List String → List String → Checked (Unit {0})
unfolding raise_first
exact_fields value label allowed required = do
  raise_first (sorted_set (reject (contains allowed) (names_of value))) label "unknown field"
  raise_first (sorted_set (reject (contains (names_of value)) required)) label
      "required field missing"

-- `_nonempty_string`
unfoldable pub nonempty_string : Value → Label → Checked String
nonempty_string (str s) label =
    if is_spaces s
    then err (error label "must be a non-empty string")
    else if has_nul s
    then err (error label "must not contain NUL")
    else ok s
nonempty_string _ label = err (error label "must be a non-empty string")

-- `_boolean`
unfoldable pub boolean : Value → Label → Checked Bool
boolean (bool b) label = ok b
boolean _ label = err (error label "must be a boolean")

abbrev is_parent : String → Bool
is_parent part = part == ".."

-- `PurePosixPath(text)` after the check that it is not absolute.
lexical_checked : String → Label → Bool → Checked String
lexical_checked text label allow_dot = do
  raise_if (is_absolute text) (error label "must be repository-relative")
  raise_if (any is_parent (path_parts text)) (error label "must not contain parent traversal")
  raise_if (any is_blank (path_parts text)) (error label "contains an empty path component")
  raise_if (join_slash (path_parts text) == "." && not allow_dot)
      (error label "must select a path below the repository root")
  ok (join_slash (path_parts text))

unfoldable pub lexical_relative : Value → Label → Bool → Checked String
unfolding lexical_checked
lexical_relative value label allow_dot = do
  text ← nonempty_string value label
  lexical_checked text label allow_dot
