-- ===== src/Gates/Sandbox/Supported.antt =====
-- When the decision of taskguard/v3/endpoint_policy.py on a target is SUPPORTED, with the fields written out.
use Prim.Native.Char.{code}
use Prim.Native.String.append
use bricek4_ligong_skills.Base.{
  starts_with, String, ◌≡◌, refl, sym, ◌∙◌, ap, ap₂, ◌↔◌, Bool, true, false, not, ◌&&◌, some, List,
  [], ◌∷◌, eq_iff, Mapping, is_wild, Option-cases, ◌==◌, ◌≢◌, eqb, ◌+++◌, subst, All, all_iff,
  HasExactly, has_exactly_iff, found_is_iff, or-false, get, contains, any, all, map, reject,
  is_empty, is_empty-append, is_empty-reject, has_wildcard, status_of_iff, and-true, and-intro,
  Bool-cases, inl, inr, arith,
}
use text.Mathlib.TextEquality.{Char-path}
use bricek4_ligong_skills.Gates.Sandbox.{
  SandboxPolicy, ExactField, exact_fields, required_fields, has_shape, meets, text_or_blank,
  in_resources, values_of, flag, target_reasons, decide_on, validate_sandbox_target,
}

-- No character of the text is a wildcard.
abbrev pub IsExact : String → Type 0
IsExact String.[] = Unit
IsExact (String.◌∷◌ c s) =
    (code c ≢ b'*') × (code c ≢ b'?') × (code c ≢ b'[') × (code c ≢ b']') × IsExact s

-- What the policy asks of a target.
pub record IsInSandbox (target : Mapping String) (p : SandboxPolicy) : Type 0 where
  pub shape : HasExactly target (
      "environment" ∷ "endpoint" ∷ "provider" ∷ "account_id" ∷ "project_id" ∷ "tenant_id" ∷ "region"
      ∷ "resource_id" ∷ [])
  pub environment : get target "environment" ≡ some "sandbox"
  pub endpoint : get target "endpoint" ≡ some p.endpoint
  pub provider : get target "provider" ≡ some p.provider
  pub account_id : get target "account_id" ≡ some p.account_id
  pub project_id : get target "project_id" ≡ some p.project_id
  pub tenant_id : get target "tenant_id" ≡ some p.tenant_id
  pub region : get target "region" ≡ some p.region
  pub resource :
      (prefix : String) × (rest : String) × (contains p.resource_prefixes prefix ≡ true)
      × (get target "resource_id" ≡ some (prefix +++ rest))
  pub no_wildcard : All IsExact (values_of target)

starts_with_iff :
    (text prefix : String)
    → (starts_with text prefix ≡ true) ↔ ((rest : String) × (text ≡ prefix +++ rest))
unfolding starts_with
starts_with_iff text String.[] = (λ h. (text, sym (append.nil text)), λ h. refl)
starts_with_iff String.[] (String.◌∷◌ d prefix) =
    (λ h. cc, λ (rest, same). absurd (cc (same ∙ append.cons d prefix rest)))
starts_with_iff (String.◌∷◌ c text) (String.◌∷◌ d prefix) = (
  λ h.
      let (first, later) = and-true (eqb (code c) (code d)) (starts_with text prefix) h in
      let (rest, same) = (starts_with_iff text prefix).0 later in
      (
        rest,
        ap₂ (λ x y. String.◌∷◌ x y) (Char-path c d (ground (arith, first))) same
            ∙ sym (append.cons d prefix rest),
      ),
  λ (rest, same).
      let split = same ∙ append.cons d prefix rest in
      let heads : c ≡ d = cc split in
      let tails : text ≡ prefix +++ rest = cc split in
      and-intro (rw heads (ground arith)) ((starts_with_iff text prefix).1 (rest, tails)),
)

has_wildcard_iff : (s : String) → (has_wildcard s ≡ false) ↔ IsExact s
unfolding has_wildcard
has_wildcard_iff String.[] = (λ h. tt, λ h. refl)
has_wildcard_iff (String.◌∷◌ c s) = (
  λ h.
      let (here, later) = or-false (is_wild (code c)) (has_wildcard s) h in
      (
        λ e. ground arith,
        λ e. ground arith,
        λ e. ground arith,
        λ e. ground arith,
        (has_wildcard_iff s).0 later,
      ),
  λ (star, question, open_, close, later). rw ((has_wildcard_iff s).1 later) (ground arith),
)

is_empty-flag : (b : Bool) (reason : String) → is_empty (flag b reason) ≡ b
is_empty-flag true reason = refl
is_empty-flag false reason = refl

is_empty-map : {A : Type 0} (f : A → String) (xs : List A) → is_empty (map f xs) ≡ is_empty xs
is_empty-map f [] = refl
is_empty-map f (x ∷ xs) = refl

is_empty-target_reasons :
    (target : Mapping String) (p : SandboxPolicy)
    → is_empty (target_reasons target p) ≡ (
        all (meets target) (exact_fields p)
        && (in_resources target p && not (any has_wildcard (values_of target))))
unfolding target_reasons
is_empty-target_reasons target p =
    is_empty-append (map (λ (f : ExactField). f.reason) (reject (meets target) (exact_fields p))) _
    ∙ ap₂ ◌&&◌
        (is_empty-map (λ (f : ExactField). f.reason) (reject (meets target) (exact_fields p))
          ∙ is_empty-reject (meets target) (exact_fields p))
        (is_empty-append (flag (in_resources target p) "SANDBOX_RESOURCE_MISMATCH") _
          ∙ ap₂ ◌&&◌ (is_empty-flag _ _)
              (is_empty-flag (not (any has_wildcard (values_of target))) _))

abbrev Holds : Mapping String → ExactField → Type 0
Holds target f = get target f.name ≡ some f.expected

prefix_iff :
    (text : String) (prefixes : List String)
    → (any (starts_with text) prefixes ≡ true) ↔ (
        (prefix : String) × (rest : String) × (contains prefixes prefix ≡ true)
        × (text ≡ prefix +++ rest))
unfolding contains
prefix_iff text [] = (λ h. cc, λ (prefix, rest, listed, same). cc)
prefix_iff text (q ∷ prefixes) = (
  λ h. elim (Bool-cases (starts_with text q)) [
    | inl here ↦
        let (rest, same) = (starts_with_iff text q).0 here in
        (q, rest, ground (arith, eq_iff q q), same)
    | inr other ↦
        let (prefix, rest, listed, same) = (prefix_iff text prefixes).0 (rw other at h) in
        (prefix, rest, ground (arith, listed), same)
  ],
  λ (prefix, rest, listed, same). elim (Bool-cases (q == prefix)) [
    | inl here ↦
        let one : q ≡ prefix = (eq_iff q prefix).0 here in
        rw ((starts_with_iff text q).1 (rest, same ∙ ap (λ x. x +++ rest) (sym one))) refl
    | inr other ↦
        let later = (prefix_iff text prefixes).1 (prefix, rest, rw other at listed, same) in
        ground (arith, later)
  ],
)

no_wildcard_iff : (values : List String) → (any has_wildcard values ≡ false) ↔ All IsExact values
no_wildcard_iff [] = (λ h. tt, λ h. refl)
no_wildcard_iff (value ∷ values) = (
  λ h.
      let (here, later) = or-false (has_wildcard value) (any has_wildcard values) h in
      ((has_wildcard_iff value).0 here, (no_wildcard_iff values).0 later),
  λ (here, later). rw ((has_wildcard_iff value).1 here, (no_wildcard_iff values).1 later) refl,
)

clear-IsInSandbox :
    (target : Mapping String) (p : SandboxPolicy)
    → has_shape target ≡ true
    → is_empty (target_reasons target p) ≡ true
    → IsInSandbox target p
unfolding contains
clear-IsInSandbox target p shaped h =
    let clear = sym (is_empty-target_reasons target p) ∙ h in
    let (exact, rest) = and-true _ _ clear in
    let (within, plain) = and-true _ _ rest in
    let shape = (has_exactly_iff target required_fields).0 shaped in
    let held : All (Holds target) (exact_fields p) =
      (all_iff (meets target) (Holds target) (λ f. found_is_iff (get target f.name) f.expected)
          (exact_fields p)).0
        exact in
    elim (Option-cases (get target "resource_id")) [
      | inl missing ↦ absurd ((shape "resource_id").1 refl missing)
      | inr (text, found) ↦
          let (prefix, rest, listed, same) = (prefix_iff text p.resource_prefixes).0 (
            subst (λ o. any (starts_with (text_or_blank o)) p.resource_prefixes ≡ true) found
              within) in
          record {
            shape = shape;
            environment = held.0;
            endpoint = held.1.0;
            provider = held.1.1.0;
            account_id = held.1.1.1.0;
            project_id = held.1.1.1.1.0;
            tenant_id = held.1.1.1.1.1.0;
            region = held.1.1.1.1.1.1.0;
            resource = (prefix, rest, listed, found ∙ ap some same);
            no_wildcard = (no_wildcard_iff (values_of target)).0 (ground arith);
          }
    ]

IsInSandbox-clear :
    (target : Mapping String) (p : SandboxPolicy)
    → IsInSandbox target p
    → is_empty (target_reasons target p) ≡ true
IsInSandbox-clear target p inside =
    let (prefix, rest, listed, found) = inside.resource in
    is_empty-target_reasons target p
    ∙ and-intro
        ((all_iff (meets target) (Holds target) (λ f. found_is_iff (get target f.name) f.expected)
            (exact_fields p)).1
          (
            inside.environment,
            (
              inside.endpoint,
              (
                inside.provider,
                (inside.account_id, (inside.project_id, (inside.tenant_id, (inside.region, tt)))),
              ),
            ),
          ))
        (and-intro
          (subst (λ o. any (starts_with (text_or_blank o)) p.resource_prefixes ≡ true) (sym found)
            ((prefix_iff (prefix +++ rest) p.resource_prefixes).1 (prefix, rest, listed, refl)))
          (ap not ((no_wildcard_iff (values_of target)).1 inside.no_wildcard)))

-- A target is SUPPORTED exactly when it has the eight fields and no other, is of the environment `sandbox`, holds
-- the policy's endpoint, provider, account, project, tenant and region, its resource is a prefix of the policy
-- followed by some text, and no character of a value is a wildcard.
pub sandbox_supported_iff :
    (target : Mapping String) (p : SandboxPolicy)
    → ((validate_sandbox_target target p).status ≡ "SUPPORTED") ↔ IsInSandbox target p
unfolding validate_sandbox_target decide_on
sandbox_supported_iff target p = (
  λ h. elim (Bool-cases (has_shape target)) [
    | inl shaped ↦
        clear-IsInSandbox target p shaped
          ((status_of_iff (is_empty (target_reasons target p))).0 (rw shaped at h))
    | inr shapeless ↦ cc ((eq_iff "UNSUPPORTED" "SUPPORTED").1 (rw shapeless at h))
  ],
  λ inside.
      rw ((has_exactly_iff target required_fields).1 inside.shape) (
        (status_of_iff (is_empty (target_reasons target p))).1 (IsInSandbox-clear target p inside)),
)
