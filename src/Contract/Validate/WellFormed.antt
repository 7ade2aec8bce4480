-- ===== src/Contract/Validate/WellFormed.antt =====
-- What holds of a contract that `validate_contract` of taskguard/contract.py returned.
use bricek4_ligong_skills.Base.{
  ℕ, ◌≡◌, ◌≢◌, sym, subst, String, true, false, List, [], ◌∷◌, ◌==◌, inl, inr, ok, >>=-elim,
  raise_if-passed, ok-injective, Value, Fields, cons, list, int, pos, contains, is_empty, All,
  or-false, eq_iff, Bool-cases, eqb, arith,
}
use bricek4_ligong_skills.Contract.{HostPath, top, Contract, risk_levels}
use bricek4_ligong_skills.Contract.Paths.{Host, paths_of, path_array}
use bricek4_ligong_skills.Contract.Paths.Confined.{
  IsConfined, IsTopLevel, paths_of-All, paths_of-filled, path_array-All, canonical_repo-IsTopLevel,
}
use bricek4_ligong_skills.Contract.Objects.Distinct.{DistinctBy}
use bricek4_ligong_skills.Contract.Objects.Parsed.{
  IsAcceptance, IsForbiddenRule, IsSurfaceRule, acceptance_items-All, forbidden_rules-All,
  surface_rules-All,
}
use bricek4_ligong_skills.Contract.Validate.{
  repeats, version_of, scope_of, acknowledged_of, validate_contract,
}
use bricek4_ligong_skills.Contract.Validate.Inversion.{IsParsed, validate_contract-object}

abbrev pub itself : String → String
itself path = path

pub record IsWellFormed (host : Host) (c : Contract) : Type 0 where
  pub version : c.version ≡ 2
  pub known_risk : contains risk_levels c.risk ≡ true
  pub top_level : IsTopLevel host c.repo
  pub has_scope : is_empty c.scope ≡ false
  pub scope_once : DistinctBy itself c.scope
  pub scope_confined : All (IsConfined host c.repo) c.scope
  pub has_acceptance : is_empty c.acceptance ≡ false
  pub acceptance_once : DistinctBy (λ a. a.id) c.acceptance
  pub acceptance : All (IsAcceptance host c.repo) c.acceptance
  pub acknowledged_once : DistinctBy itself c.acknowledge_dirty
  pub acknowledged_confined : All (IsConfined host c.repo) c.acknowledge_dirty
  pub forbidden_once : DistinctBy (λ r. r.id) c.forbidden
  pub forbidden : All (IsForbiddenRule host c.repo) c.forbidden
  pub surfaces_once : DistinctBy (λ r. r.id) c.surfaces
  pub surfaces : All (IsSurfaceRule host c.repo) c.surfaces

contains-differs : (ps : List String) (p : String) → contains ps p ≡ false → All (λ q. p ≢ q) ps
unfolding contains
contains-differs [] p h = tt
contains-differs (q ∷ ps) p h =
    let (differs, later) = or-false (q == p) (contains ps p) h in
    (λ e. cc ((eq_iff q p).1 (sym e)), contains-differs ps p later)

repeats-DistinctBy : (ps : List String) → repeats ps ≡ false → DistinctBy itself ps
unfolding repeats
repeats-DistinctBy [] h = tt
repeats-DistinctBy (p ∷ ps) h =
    let (here, later) = or-false (contains ps p) (repeats ps) h in
    (contains-differs ps p here, repeats-DistinctBy ps later)

version_of-two : (value : Value) (n : ℕ) → version_of value ≡ ok n → n ≡ 2
unfolding version_of
version_of-two (int (pos m)) n h = elim (Bool-cases (eqb m 2)) [
  | inl two ↦ let same : m ≡ n = ok-injective (rw two at h) in ground arith
  | inr other ↦ absurd (cc (rw other at h))
]
version_of-two value n h = cc

module _ (host : Host) where
  scope_of-scope :
      (repo : HostPath) (value : Value) (scope : List String)
      → scope_of host repo value ≡ ok scope
      → (is_empty scope ≡ false) × DistinctBy itself scope × All (IsConfined host repo) scope
  unfolding scope_of
  scope_of-scope repo (list (cons v vs)) scope h =
      >>=-elim (paths_of host repo (top "scope") true (cons v vs)) _ h λ paths is_paths h1.
        let (once, h2) = raise_if-passed (repeats paths) _ _ h1 in
        subst (λ ps. (is_empty ps ≡ false) × DistinctBy itself ps × All (IsConfined host repo) ps)
          (ok-injective h2)
          (
            paths_of-filled host repo (top "scope") true v vs paths is_paths,
            repeats-DistinctBy paths once,
            paths_of-All host repo (top "scope") true (cons v vs) paths is_paths,
          )
  scope_of-scope repo value scope h = cc

  acknowledged_of-All :
      (repo : HostPath) (value : Value) (paths : List String)
      → acknowledged_of host repo value ≡ ok paths
      → DistinctBy itself paths × All (IsConfined host repo) paths
  unfolding acknowledged_of
  acknowledged_of-All repo value paths h =
      >>=-elim (path_array host repo value (top "acknowledge_dirty")) _ h λ ps is_paths h1.
        let (once, h2) = raise_if-passed (repeats ps) _ _ h1 in
        subst (λ qs. DistinctBy itself qs × All (IsConfined host repo) qs) (ok-injective h2)
          (repeats-DistinctBy ps once, path_array-All host repo value _ ps is_paths)

  IsParsed-IsWellFormed : (fs : Fields) (c : Contract) → IsParsed host fs c → IsWellFormed host c
  IsParsed-IsWellFormed fs c p =
      let (filled, once, confined) = scope_of-scope c.repo _ c.scope p.scope in
      let (runs, ids, accepted) = acceptance_items-All host c.repo _ c.acceptance p.acceptance in
      let (dirty_once, dirty) = acknowledged_of-All c.repo _ c.acknowledge_dirty p.acknowledged in
      let (rule_ids, rules) = forbidden_rules-All host c.repo _ c.forbidden p.forbidden in
      let (surface_ids, adapters) = surface_rules-All host c.repo _ c.surfaces p.surfaces in
      record {
        version = version_of-two _ c.version p.version;
        known_risk = p.known_risk;
        top_level = canonical_repo-IsTopLevel host _ c.repo p.repo;
        has_scope = filled;
        scope_once = once;
        scope_confined = confined;
        has_acceptance = runs;
        acceptance_once = ids;
        acceptance = accepted;
        acknowledged_once = dirty_once;
        acknowledged_confined = dirty;
        forbidden_once = rule_ids;
        forbidden = rules;
        surfaces_once = surface_ids;
        surfaces = adapters;
      }

-- A contract that the validation returns has version 2 and a known risk, in a repository that is its own top level;
-- its scope and its acceptance are not empty; the paths and the ids are distinct; every path is confined; a check
-- that requires a red run has a pattern for it; surfaces are read-only and patterns compile.
pub validate_contract-IsWellFormed :
    (host : Host) (document : Value) (c : Contract)
    → validate_contract host document ≡ ok c
    → IsWellFormed host c
validate_contract-IsWellFormed host document c h =
    let (fs, _, parsed) = validate_contract-object host document c h in
    IsParsed-IsWellFormed host fs c parsed
