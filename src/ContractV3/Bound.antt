-- ===== src/ContractV3/Bound.antt =====
-- What holds of a contract that `validate_contract_v3` of taskguard/contracts/v3.py returned.
use bricek4_ligong_skills.Base.{
  arith, ◌+◌, ℕ, ◌≡◌, refl, subst, Bool, true, false, not, List, [], ◌∷◌, Outcome, ok, err,
  >>=-elim, raise_if-passed, ok-injective, true_of_not, Value, Items, list, nil, cons, is_text,
  is_empty, All, eqb, length,
}
use bricek4_ligong_skills.Contract.{ContractError, Contract, lookup_field}
use bricek4_ligong_skills.Contract.Paths.{Host}
use bricek4_ligong_skills.Contract.Paths.Confined.{IsConfined, IsTopLevel}
use bricek4_ligong_skills.Contract.Objects.Distinct.{DistinctBy}
use bricek4_ligong_skills.Contract.Objects.Parsed.{IsAcceptance, IsForbiddenRule, IsSurfaceRule}
use bricek4_ligong_skills.Contract.Validate.{repeats, validate_contract}
use bricek4_ligong_skills.Contract.Validate.WellFormed.{
  IsWellFormed, itself, validate_contract-IsWellFormed,
}
use bricek4_ligong_skills.ContractV3.{
  ActionSpec, RepoContractV3, ContractV3, top_level_fields, repo_fields, exact, text,
}
use bricek4_ligong_skills.ContractV3.Actions.{parse_action}
use bricek4_ligong_skills.ContractV3.Validate.{
  v2_document, parse_repo, parse_actions, validate_contract_v3, wrapped, of_v2, acceptance_array,
  action_items, or_projected, is_nil, is_three, ids_of,
}
use bricek4_ligong_skills.ContractV3.Parsed.{IsText, IsAction, text-IsText}
use bricek4_ligong_skills.ContractV3.Inversion.{parse_action-IsAction}

-- The repository part is as confined as that of a v2 contract; its acceptance may be empty.
pub record IsBoundRepo (host : Host) (r : RepoContractV3) : Type 0 where
  pub top_level : IsTopLevel host r.repo
  pub has_scope : is_empty r.repo_scope ≡ false
  pub scope_once : DistinctBy itself r.repo_scope
  pub scope_confined : All (IsConfined host r.repo) r.repo_scope
  pub acceptance_once : DistinctBy (λ a. a.id) r.acceptance
  pub acceptance : All (IsAcceptance host r.repo) r.acceptance
  pub acknowledged_confined : All (IsConfined host r.repo) r.acknowledge_dirty
  pub forbidden : All (IsForbiddenRule host r.repo) r.forbidden
  pub surfaces : All (IsSurfaceRule host r.repo) r.surfaces

pub record IsBound (host : Host) (c : ContractV3) : Type 0 where
  pub version : c.version ≡ 3
  pub risk : c.risk ≡ "L3"
  pub task_id : IsText c.task_id
  pub goal : IsText c.goal
  pub one_action : (a : ActionSpec) × (c.actions ≡ a ∷ []) × IsAction a
  pub repo_contract : IsBoundRepo host c.repo_contract

action_items-All :
    (index : ℕ) (vs : Items) (actions : List ActionSpec)
    → action_items index vs ≡ ok actions
    → All IsAction actions
unfolding action_items
action_items-All index nil actions h = subst (λ q. All IsAction q) (ok-injective h) tt
action_items-All index (cons v vs) actions h = >>=-elim (parse_action v _) _ h λ a is_a h1.
    >>=-elim (action_items _ vs) _ h1 λ rest is_rest h2.
      subst (λ q. All IsAction q) (ok-injective h2)
        ((parse_action-IsAction v _ a is_a).0, action_items-All (index + 1) vs rest is_rest)

length_one :
    (actions : List ActionSpec)
    → eqb (length actions) 1 ≡ true
    → All IsAction actions
    → (a : ActionSpec) × (actions ≡ a ∷ []) × IsAction a
length_one [] one h = absurd (cc one)
length_one (a ∷ []) one (here, h) = (a, refl, here)
length_one (a ∷ (b ∷ actions)) one h = absurd (ground arith)

parse_actions-one :
    (value : Value) (actions : List ActionSpec)
    → parse_actions value ≡ ok actions
    → (a : ActionSpec) × (actions ≡ a ∷ []) × IsAction a
unfolding parse_actions
parse_actions-one (list (cons v vs)) actions h =
    >>=-elim (action_items 0 (cons v vs)) _ h λ bs are_bs h1.
      let (once, h2) = raise_if-passed (repeats (ids_of bs)) _ _ h1 in
      let (one, h3) = raise_if-passed (not (eqb (length bs) 1)) _ _ h2 in
      subst (λ q. (a : ActionSpec) × (q ≡ a ∷ []) × IsAction a) (ok-injective h3)
        (length_one bs (true_of_not _ one) (action_items-All 0 (cons v vs) bs are_bs))
parse_actions-one value actions h = cc

module _ (host : Host) where
  wrapped-ok : {A : Type 0} (m : Outcome ContractError A) (a : A) → wrapped m ≡ ok a → m ≡ ok a
  unfolding wrapped
  wrapped-ok (ok b) a h = h
  wrapped-ok (err e) a h = cc

  of_v2-IsBoundRepo :
      (no_acceptance : Bool) (c : Contract)
      → IsWellFormed host c
      → IsBoundRepo host (of_v2 no_acceptance c)
  unfolding of_v2
  of_v2-IsBoundRepo true c w = record {
    top_level = w.top_level;
    has_scope = w.has_scope;
    scope_once = w.scope_once;
    scope_confined = w.scope_confined;
    acceptance_once = tt;
    acceptance = tt;
    acknowledged_confined = w.acknowledged_confined;
    forbidden = w.forbidden;
    surfaces = w.surfaces;
  }
  of_v2-IsBoundRepo false c w = record {
    top_level = w.top_level;
    has_scope = w.has_scope;
    scope_once = w.scope_once;
    scope_confined = w.scope_confined;
    acceptance_once = w.acceptance_once;
    acceptance = w.acceptance;
    acknowledged_confined = w.acknowledged_confined;
    forbidden = w.forbidden;
    surfaces = w.surfaces;
  }

  parse_repo-IsBoundRepo :
      (value : Value) (r : RepoContractV3) → parse_repo host value ≡ ok r → IsBoundRepo host r
  unfolding parse_repo
  parse_repo-IsBoundRepo value r h = >>=-elim (exact value _ repo_fields) _ h λ raw is_raw h1.
      >>=-elim (acceptance_array (lookup_field raw "acceptance")) _ h1 λ runs are_runs h2.
        >>=-elim (wrapped (validate_contract host (v2_document raw (or_projected runs)))) _ h2
          λ c is_c h3.
            subst (λ q. IsBoundRepo host q) (ok-injective h3)
              (of_v2-IsBoundRepo (is_nil runs) c
                (validate_contract-IsWellFormed host _ c (wrapped-ok _ c is_c)))

  -- A v3 contract that the validation returns has version 3 and risk L3, a task id and a goal that are texts, and
  -- exactly one action, of a known kind and environment, that requires a rollback and whose bounds are positive; its
  -- repository contract is confined as that of a v2 contract is, with an acceptance that may be empty.
  pub validate_contract_v3-IsBound :
      (value : Value) (c : ContractV3) → validate_contract_v3 host value ≡ ok c → IsBound host c
  unfolding validate_contract_v3
  validate_contract_v3-IsBound value c h =
      >>=-elim (exact value _ top_level_fields) _ h λ raw is_raw h1.
        let (three, h2) = raise_if-passed (not (is_three (lookup_field raw "version"))) _ _ h1 in
        let (risky, h3) = raise_if-passed (not (is_text (lookup_field raw "risk") "L3")) _ _ h2 in
        >>=-elim (parse_actions (lookup_field raw "actions")) _ h3 λ actions are_actions h4.
          >>=-elim (text (lookup_field raw "task_id") _) _ h4 λ task is_task h5.
            >>=-elim (text (lookup_field raw "goal") _) _ h5 λ goal is_goal h6.
              >>=-elim (parse_repo host (lookup_field raw "repo_contract")) _ h6 λ repo is_repo h7.
                subst (λ q. IsBound host q) (ok-injective h7)
                  (record {
                    version = refl;
                    risk = refl;
                    task_id = text-IsText _ _ task is_task;
                    goal = text-IsText _ _ goal is_goal;
                    one_action = parse_actions-one _ actions are_actions;
                    repo_contract = parse_repo-IsBoundRepo _ repo is_repo;
                  })
