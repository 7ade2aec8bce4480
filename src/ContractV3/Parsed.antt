-- ===== src/ContractV3/Parsed.antt =====
-- What holds of an action that `_parse_action` of taskguard/contracts/v3.py returned.
use bricek4_ligong_skills.Base.{
  ℕ, ◌≡◌, refl, subst, String, Bool, true, false, not, ◌&&◌, ◌||◌, List, ok, inl, inr, >>=-elim,
  raise_if-passed, ok-injective, Value, Items, int, str, list, nil, cons, pos, contains, is_blank,
  is_empty, has_nul, leb, All, Bool-cases, true_of_not,
}
use bricek4_ligong_skills.Risk.Paths.{is_spaces}
use bricek4_ligong_skills.Contract.{Label, boolean, lookup_field}
use bricek4_ligong_skills.Contract.Validate.{repeats}
use bricek4_ligong_skills.ContractV3.{
  ActionTarget, AuthorityPolicy, RollbackPolicy, HealthPolicy, ActionSpec, target_fields,
  authority_fields, plan_fields, rollback_fields, health_fields, supported_action_kinds,
  supported_environments, text, positive_int, exact,
}
use bricek4_ligong_skills.ContractV3.Actions.{
  parse_target, parse_authority, parse_plan, parse_rollback, parse_health, signal_items, signals_of,
  known_text,
}

-- A text with more than white space in it and no NUL.
abbrev pub IsText : String → Type 0
IsText s = is_spaces s || has_nul s ≡ false

abbrev pub IsPositive : ℕ → Type 0
IsPositive n = leb 1 n ≡ true

pub record IsTarget (t : ActionTarget) : Type 0 where
  pub provider : IsText t.provider
  pub account_id : IsText t.account_id
  pub project_id : IsText t.project_id
  pub resource_id : IsText t.resource_id

pub record IsHealth (h : HealthPolicy) : Type 0 where
  pub window : IsPositive h.window_seconds
  pub samples : IsPositive h.minimum_samples
  pub has_signals : is_empty h.required_signals ≡ false
  pub signals : All (λ s. is_blank s ≡ false) h.required_signals
  pub signals_once : repeats h.required_signals ≡ false

pub record IsAction (a : ActionSpec) : Type 0 where
  pub id : IsText a.id
  pub kind : IsText a.kind
  pub known_kind : contains supported_action_kinds a.kind ≡ true
  pub adapter : IsText a.adapter
  pub target : IsTarget a.target
  pub environment : IsText a.environment
  pub known_environment : contains supported_environments a.environment ≡ true
  pub provider : IsText a.authority_policy.provider
  pub uses : IsPositive a.authority_policy.max_uses
  pub age : IsPositive a.max_age_seconds
  pub rolls_back : a.rollback_policy.required ≡ true
  pub health : IsHealth a.health_policy

pub text-IsText : (value : Value) (label : Label) (s : String) → text value label ≡ ok s → IsText s
unfolding text
text-IsText (str r) label s h = elim (Bool-cases (is_spaces r || has_nul r)) [
  | inl bad ↦ absurd (cc (rw bad at h))
  | inr good ↦ subst (λ q. IsText q) (ok-injective (rw good at h)) good
]
text-IsText value label s h = cc

positive_int-IsPositive :
    (value : Value) (label : Label) (n : ℕ) → positive_int value label ≡ ok n → IsPositive n
unfolding positive_int
positive_int-IsPositive (int (pos m)) label n h = elim (Bool-cases (leb 1 m)) [
  | inl good ↦ subst (λ q. IsPositive q) (ok-injective (rw good at h)) good
  | inr bad ↦ absurd (cc (rw bad at h))
]
positive_int-IsPositive value label n h = cc

pub known_text-contains :
    (value : Value) (label : Label) (names : List String) (message s : String)
    → known_text value label names message ≡ ok s
    → IsText s × (contains names s ≡ true)
unfolding known_text
known_text-contains value label names message s h = >>=-elim (text value label) _ h λ r is_text h1.
    let (known, h2) = raise_if-passed (not (contains names r)) _ _ h1 in
    subst (λ q. IsText q × (contains names q ≡ true)) (ok-injective h2)
      (text-IsText value label r is_text, true_of_not _ known)

pub parse_target-IsTarget :
    (value : Value) (label : Label) (t : ActionTarget)
    → parse_target value label ≡ ok t
    → IsTarget t
unfolding parse_target
parse_target-IsTarget value label t h =
    >>=-elim (exact value label target_fields) _ h λ raw is_raw h1.
      >>=-elim (text (lookup_field raw "provider") _) _ h1 λ p is_p h2.
        >>=-elim (text (lookup_field raw "account_id") _) _ h2 λ a is_a h3.
          >>=-elim (text (lookup_field raw "project_id") _) _ h3 λ j is_j h4.
            >>=-elim (text (lookup_field raw "resource_id") _) _ h4 λ r is_r h5.
              subst (λ q. IsTarget q) (ok-injective h5)
                (record {
                  provider = text-IsText _ _ p is_p;
                  account_id = text-IsText _ _ a is_a;
                  project_id = text-IsText _ _ j is_j;
                  resource_id = text-IsText _ _ r is_r;
                })

pub parse_authority-bounds :
    (value : Value) (label : Label) (a : AuthorityPolicy)
    → parse_authority value label ≡ ok a
    → IsText a.provider × IsPositive a.max_uses
unfolding parse_authority
parse_authority-bounds value label a h =
    >>=-elim (exact value label authority_fields) _ h λ raw is_raw h1.
      >>=-elim (text (lookup_field raw "provider") _) _ h1 λ p is_p h2.
        >>=-elim (boolean (lookup_field raw "bind_plan") _) _ h2 λ b is_b h3.
          >>=-elim (positive_int (lookup_field raw "max_uses") _) _ h3 λ n is_n h4.
            subst (λ q. IsText q.provider × IsPositive q.max_uses) (ok-injective h4)
              (text-IsText _ _ p is_p, positive_int-IsPositive _ _ n is_n)

pub parse_plan-IsPositive :
    (value : Value) (label : Label) (n : ℕ) → parse_plan value label ≡ ok n → IsPositive n
unfolding parse_plan
parse_plan-IsPositive value label n h =
    >>=-elim (exact value label plan_fields) _ h λ raw is_raw h1. positive_int-IsPositive _ _ n h1

required_of_known : (a b : Bool) → a ≡ true → a && not b ≡ false → b ≡ true
required_of_known a true known h = refl
required_of_known a false known h = absurd (cc (rw known at h))

pub parse_rollback-required :
    (value : Value) (label : Label) (kind : String) (r : RollbackPolicy)
    → contains supported_action_kinds kind ≡ true
    → parse_rollback value label kind ≡ ok r
    → r.required ≡ true
unfolding parse_rollback
parse_rollback-required value label kind r known h =
    >>=-elim (exact value label rollback_fields) _ h λ raw is_raw h1.
      >>=-elim (boolean (lookup_field raw "required") _) _ h1 λ q is_q h2.
        >>=-elim (boolean (lookup_field raw "preauthorize") _) _ h2 λ p is_p h3.
          >>=-elim (boolean (lookup_field raw "automatic_on_health_failure") _) _ h3 λ a is_a h4.
            let (mutating, h5) =
              raise_if-passed (contains supported_action_kinds kind && not q) _ _ h4 in
            let (automatic, h6) = raise_if-passed (a && not q) _ _ h5 in
            subst (λ o. o.required ≡ true) (ok-injective h6) (required_of_known _ q known mutating)

signal_items-All :
    (vs : Items) (label : Label) (ss : List String)
    → signal_items vs label ≡ ok ss
    → All (λ s. is_blank s ≡ false) ss
unfolding signal_items
signal_items-All nil label ss h = subst (λ q. All (λ s. is_blank s ≡ false) q) (ok-injective h) tt
signal_items-All (cons (str s) vs) label ss h =
    let (filled, h1) = raise_if-passed (is_blank s) _ _ h in
    >>=-elim (signal_items vs label) _ h1 λ rest is_rest h2.
      subst (λ q. All (λ r. is_blank r ≡ false) q) (ok-injective h2)
        (filled, signal_items-All vs label rest is_rest)
signal_items-All (cons v vs) label ss h = cc

signals_of-filled :
    (value : Value) (label : Label) (ss : List String)
    → signals_of value label ≡ ok ss
    → (is_empty ss ≡ false) × All (λ s. is_blank s ≡ false) ss
unfolding signals_of signal_items
signals_of-filled (list (cons (str s) vs)) label ss h =
    let (filled, h1) = raise_if-passed (is_blank s) _ _ h in
    >>=-elim (signal_items vs label) _ h1 λ rest is_rest h2.
      subst (λ q. (is_empty q ≡ false) × All (λ r. is_blank r ≡ false) q) (ok-injective h2)
        (refl, (filled, signal_items-All vs label rest is_rest))
signals_of-filled value label ss h = cc

pub parse_health-IsHealth :
    (value : Value) (label : Label) (health : HealthPolicy)
    → parse_health value label ≡ ok health
    → IsHealth health
unfolding parse_health
parse_health-IsHealth value label health h =
    >>=-elim (exact value label health_fields) _ h λ raw is_raw h1.
      >>=-elim (signals_of (lookup_field raw "required_signals") _) _ h1 λ ss is_ss h2.
        let (once, h3) = raise_if-passed (repeats ss) _ _ h2 in
        let (filled, all) = signals_of-filled _ _ ss is_ss in
        >>=-elim (positive_int (lookup_field raw "window_seconds") _) _ h3 λ w is_w h4.
          >>=-elim (positive_int (lookup_field raw "minimum_samples") _) _ h4 λ n is_n h5.
            subst (λ q. IsHealth q) (ok-injective h5)
              (record {
                window = positive_int-IsPositive _ _ w is_w;
                samples = positive_int-IsPositive _ _ n is_n;
                has_signals = filled;
                signals = all;
                signals_once = once;
              })
