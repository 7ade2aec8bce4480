-- ===== src/Contract/Validate.antt =====
-- `validate_contract` of taskguard/contract.py.
mod Inversion
pub mod WellFormed
use bricek4_ligong_skills.Base.{
  ℕ, String, Bool, true, false, not, ◌&&◌, ◌||◌, Option, none, some, List, [], ◌∷◌, Outcome, ok,
  err, ◌>>=◌, ◌>>◌, raise_if, Value, Items, Fields, int, list, dict, pos, nil, cons, contains, eqb,
  if◌then◌else◌,
}
use bricek4_ligong_skills.Contract.{
  Label, top, Checked, HostPath, error, nonempty_string, exact_fields, lookup_field, field_or,
  Contract, Acceptance, ForbiddenRule, SurfaceRule, contract_fields, contract_required, risk_levels,
}
use bricek4_ligong_skills.Contract.Paths.{Host, canonical_repo, paths_of, path_array}
use bricek4_ligong_skills.Contract.Objects.{acceptance_items, forbidden_rules, surface_rules}

-- `len(set(paths)) != len(paths)` is the test for a path that comes twice.
unfoldable pub repeats : List String → Bool
repeats [] = false
repeats (p ∷ ps) = contains ps p || repeats ps

-- `version` has to be the integer 2, and no Boolean.
unfoldable pub version_of : Value → Checked ℕ
version_of (int (pos n)) = if eqb n 2 then ok n else err (error (top "version") "must be integer 2")
version_of _ = err (error (top "version") "must be integer 2")

-- `scope`
unfoldable pub scope_of : Host → HostPath → Value → Checked (List String)
scope_of host repo (list (cons v vs)) = do
  scope ← paths_of host repo (top "scope") true (cons v vs)
  raise_if (repeats scope) (error (top "scope") "must not contain duplicate paths")
  ok scope
scope_of host repo _ = err (error (top "scope") "must be a non-empty array")

-- `acknowledge_dirty`
unfoldable pub acknowledged_of : Host → HostPath → Value → Checked (List String)
acknowledged_of host repo value = do
  acknowledged ← path_array host repo value (top "acknowledge_dirty")
  raise_if (repeats acknowledged)
      (error (top "acknowledge_dirty") "must not contain duplicate paths")
  ok acknowledged

-- The second half of `validate_contract`: the arrays, in the repository.
validate_arrays : Host → Fields → ℕ → String → String → String → HostPath → Checked Contract
validate_arrays host fs version task_id goal risk repo = do
  scope ← scope_of host repo (lookup_field fs "scope")
  acceptance ← acceptance_items host repo (lookup_field fs "acceptance")
  acknowledged ← acknowledged_of host repo (field_or fs "acknowledge_dirty" (list nil))
  forbidden ← forbidden_rules host repo (field_or fs "forbidden" (list nil))
  surfaces ← surface_rules host repo (field_or fs "surfaces" (list nil))
  ok (record {
    version = version;
    task_id = task_id;
    goal = goal;
    risk = risk;
    repo = repo;
    scope = scope;
    acceptance = acceptance;
    acknowledge_dirty = acknowledged;
    forbidden = forbidden;
    surfaces = surfaces;
  })

validate_fields : Host → Fields → Checked Contract
unfolding validate_arrays
validate_fields host fs = do
  exact_fields fs (top "contract") contract_fields contract_required
  version ← version_of (lookup_field fs "version")
  task_id ← nonempty_string (lookup_field fs "task_id") (top "task_id")
  goal ← nonempty_string (lookup_field fs "goal") (top "goal")
  risk ← nonempty_string (lookup_field fs "risk") (top "risk")
  raise_if (not (contains risk_levels risk))
      (error (top "risk") "must be one of ['L0', 'L1', 'L2', 'L3']")
  repo ← canonical_repo host (lookup_field fs "repo")
  validate_arrays host fs version task_id goal risk repo

-- `validate_contract`
unfoldable pub validate_contract : Host → Value → Checked Contract
unfolding validate_fields
validate_contract host (dict fs) = validate_fields host fs
validate_contract host _ = err (error (top "contract") "contract must be a JSON object")
