-- ===== src/Contract/Validate/Inversion.antt =====
-- The parts of a contract that `validate_contract` of taskguard/contract.py returned.
use bricek4_ligong_skills.Base.{
  true_of_not, ℕ, String, true, not, ok, ◌≡◌, refl, >>=-eq-ok, raise_if-passed, ok-injective, Value,
  Fields, list, nil, dict, contains, subst,
}
use bricek4_ligong_skills.Contract.{
  top, HostPath, nonempty_string, exact_fields, lookup_field, field_or, Contract, contract_fields,
  contract_required, risk_levels,
}
use bricek4_ligong_skills.Contract.Paths.{Host, canonical_repo}
use bricek4_ligong_skills.Contract.Objects.{acceptance_items, forbidden_rules, surface_rules}
use bricek4_ligong_skills.Contract.Validate.{
  version_of, scope_of, acknowledged_of, validate_arrays, validate_fields, validate_contract,
}

-- The checks that a contract comes from, each with what it returned.
pub record IsParsed (host : Host) (fs : Fields) (c : Contract) : Type 0 where
  pub fields : exact_fields fs (top "contract") contract_fields contract_required ≡ ok tt
  pub version : version_of (lookup_field fs "version") ≡ ok c.version
  pub known_risk : contains risk_levels c.risk ≡ true
  pub repo : canonical_repo host (lookup_field fs "repo") ≡ ok c.repo
  pub scope : scope_of host c.repo (lookup_field fs "scope") ≡ ok c.scope
  pub acceptance : acceptance_items host c.repo (lookup_field fs "acceptance") ≡ ok c.acceptance
  pub acknowledged :
      acknowledged_of host c.repo (field_or fs "acknowledge_dirty" (list nil))
      ≡ ok c.acknowledge_dirty
  pub forbidden : forbidden_rules host c.repo (field_or fs "forbidden" (list nil)) ≡ ok c.forbidden
  pub surfaces : surface_rules host c.repo (field_or fs "surfaces" (list nil)) ≡ ok c.surfaces

module _ (host : Host) (fs : Fields) (version : ℕ) (task_id goal risk : String)
    (repo : HostPath) where
  validate_arrays-IsParsed :
      (c : Contract)
      → exact_fields fs (top "contract") contract_fields contract_required ≡ ok tt
      → version_of (lookup_field fs "version") ≡ ok version
      → contains risk_levels risk ≡ true
      → canonical_repo host (lookup_field fs "repo") ≡ ok repo
      → validate_arrays host fs version task_id goal risk repo ≡ ok c
      → IsParsed host fs c
  unfolding validate_arrays
  validate_arrays-IsParsed c fields is_version known is_repo h =
      let (scope, is_scope, h1) = >>=-eq-ok (scope_of host repo (lookup_field fs "scope")) _ h in
      let (acceptance, is_acceptance, h2) =
        >>=-eq-ok (acceptance_items host repo (lookup_field fs "acceptance")) _ h1 in
      let (acknowledged, is_acknowledged, h3) =
        >>=-eq-ok (acknowledged_of host repo (field_or fs "acknowledge_dirty" (list nil))) _ h2 in
      let (forbidden, is_forbidden, h4) =
        >>=-eq-ok (forbidden_rules host repo (field_or fs "forbidden" (list nil))) _ h3 in
      let (surfaces, is_surfaces, h5) =
        >>=-eq-ok (surface_rules host repo (field_or fs "surfaces" (list nil))) _ h4 in
      subst (λ k. IsParsed host fs k) (ok-injective h5)
        (record {
          fields = fields;
          version = is_version;
          known_risk = known;
          repo = is_repo;
          scope = is_scope;
          acceptance = is_acceptance;
          acknowledged = is_acknowledged;
          forbidden = is_forbidden;
          surfaces = is_surfaces;
        })

validate_fields-IsParsed :
    (host : Host) (fs : Fields) (c : Contract) → validate_fields host fs ≡ ok c → IsParsed host fs c
unfolding validate_fields
validate_fields-IsParsed host fs c h =
    let (_, fields, h1) =
      >>=-eq-ok (exact_fields fs (top "contract") contract_fields contract_required) _ h in
    let (version, is_version, h2) = >>=-eq-ok (version_of (lookup_field fs "version")) _ h1 in
    let (task_id, _, h3) =
      >>=-eq-ok (nonempty_string (lookup_field fs "task_id") (top "task_id")) _ h2 in
    let (goal, _, h4) = >>=-eq-ok (nonempty_string (lookup_field fs "goal") (top "goal")) _ h3 in
    let (risk, _, h5) = >>=-eq-ok (nonempty_string (lookup_field fs "risk") (top "risk")) _ h4 in
    let (known, h6) = raise_if-passed (not (contains risk_levels risk)) _ _ h5 in
    let (repo, is_repo, h7) = >>=-eq-ok (canonical_repo host (lookup_field fs "repo")) _ h6 in
    validate_arrays-IsParsed host fs version task_id goal risk repo c fields is_version
      (true_of_not _ known) is_repo h7

pub validate_contract-object :
    (host : Host) (document : Value) (c : Contract)
    → validate_contract host document ≡ ok c
    → (fs : Fields) × (document ≡ dict fs) × IsParsed host fs c
unfolding validate_contract
validate_contract-object host (dict fs) c h = (fs, refl, validate_fields-IsParsed host fs c h)
validate_contract-object host document c h = cc
