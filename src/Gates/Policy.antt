-- ===== src/Gates/Policy.antt =====
-- taskguard/v3/release_policy.py: exact release allowlists.
pub mod Unique
use bricek4_ligong_skills.Base.{
  ℕ, zero, suc, ◌≤◌, String, ◌≡◌, refl, sym, subst, ap, ◌∙◌, ◌↔◌, ◌⊎◌, inl, inr, false≢true, Bool,
  true, false, not, ◌&&◌, ◌||◌, Option, none, some, List, [], ◌∷◌, ◌++◌, arith, ◌==◌, eq_iff,
  eq_refl, Outcome, ok, err, ◌>>=◌, ◌>>◌, raise_if, raise_if-passed, Mapping, get, get_value,
  contains, Value, Items, nil, cons, str, null, bool, int, list, tuple, dict, ℤ, pos, ltb_ℤ,
  is_text, is_texts, is_text_tuple, is_empty, all, any, select, length, and-true, and-intro,
  is_blank, has_wildcard, is_sha256, if◌then◌else◌, Bool-cases,
}

abbrev pub modes : List String
modes = "SHADOW" ∷ "SANDBOX" ∷ "CANARY" ∷ "PRODUCTION" ∷ []

pub record ReleaseRule : Type 0 where
  pub adapter_id : String
  pub adapter_version : String
  pub action_kind : String
  pub environment : String
  pub canonical_target_digest : String
  pub authority_provider_id : String
  pub authority_provider_version : String
  pub conformance_receipt_digest : String
  pub receipt_schema_versions : List String
  pub mode : String
  pub enabled : Bool

pub data ReleasePolicyError : Type 0 where
  not_exact bad_digests bad_mode unmanaged duplicate_rule : ReleasePolicyError

-- `not item or any(token in item for token in ("*", "?", "[", "]"))`
abbrev is_inexact : String → Bool
is_inexact item = is_blank item || has_wildcard item

-- `ReleaseRule.__post_init__`
pub new_rule : ReleaseRule → Outcome ReleasePolicyError ReleaseRule
new_rule r = do
  raise_if
      (any is_inexact (
        r.adapter_id ∷ r.adapter_version ∷ r.action_kind ∷ r.environment ∷ r.authority_provider_id
        ∷ r.authority_provider_version ∷ r.receipt_schema_versions))
      not_exact
  raise_if
      (not (is_sha256 r.canonical_target_digest) || not (is_sha256 r.conformance_receipt_digest))
      bad_digests
  raise_if (not (contains modes r.mode)) bad_mode
  ok r

-- The value of a field of a rule.
pub data Setting : Type 0 where
  text : String → Setting
  texts : List String → Setting

-- `getattr(rule, name)` for the fields beside `enabled` and `mode`.
abbrev pub settings_of : ReleaseRule → List (String × Setting)
settings_of r =
    ("adapter_id", text r.adapter_id)
    ∷ ("adapter_version", text r.adapter_version)
    ∷ ("action_kind", text r.action_kind)
    ∷ ("environment", text r.environment)
    ∷ ("canonical_target_digest", text r.canonical_target_digest)
    ∷ ("authority_provider_id", text r.authority_provider_id)
    ∷ ("authority_provider_version", text r.authority_provider_version)
    ∷ ("conformance_receipt_digest", text r.conformance_receipt_digest)
    ∷ ("receipt_schema_versions", texts r.receipt_schema_versions)
    ∷ []

abbrev texts_eq : List String → List String → Bool
texts_eq [] [] = true
texts_eq (s ∷ ss) (t ∷ ts) = s == t && texts_eq ss ts
texts_eq _ _ = false

abbrev setting_eq : Setting → Setting → Bool
setting_eq (text s) (text t) = s == t
setting_eq (texts ss) (texts ts) = texts_eq ss ts
setting_eq _ _ = false

settings_eq : List (String × Setting) → List (String × Setting) → Bool
settings_eq [] [] = true
settings_eq ((_, a) ∷ xs) ((_, b) ∷ ys) = setting_eq a b && settings_eq xs ys
settings_eq _ _ = false

-- Equality of the keys of two rules: all fields but `enabled`.
pub same_key : ReleaseRule → ReleaseRule → Bool
unfolding settings_eq
same_key r s = settings_eq (settings_of r) (settings_of s) && r.mode == s.mode

-- `len(keys) == len(set(keys))`
unfoldable pub are_distinct : List ReleaseRule → Bool
are_distinct [] = true
are_distinct (r ∷ rs) = not (any (same_key r) rs) && are_distinct rs

pub record ReleasePolicy : Type 0 where
  pub rules : List ReleaseRule
  pub revision : ℤ
  pub managed_owner : String
  pub trusted_source : Bool

-- `ReleasePolicy.__init__`
unfoldable pub new_policy : ReleasePolicy → Outcome ReleasePolicyError ReleasePolicy
new_policy p = do
  raise_if (ltb_ℤ p.revision (pos 1) || is_blank p.managed_owner) unmanaged
  raise_if (not (are_distinct p.rules)) duplicate_rule
  ok p

pub record ReleaseDecision : Type 0 where
  pub status : String
  pub reason : String

-- `binding.get(name) == getattr(rule, name)`
abbrev value_is : Value → Setting → Bool
value_is v (text s) = is_text v s
value_is v (texts ss) = is_text_tuple v ss

settings_match : Mapping Value → List (String × Setting) → Bool
settings_match binding [] = true
settings_match binding ((name, s) ∷ xs) =
    value_is (get_value binding name) s && settings_match binding xs

-- An enabled rule of the mode that the binding meets in every field.
pub matches : Mapping Value → String → ReleaseRule → Bool
unfolding settings_match
matches binding mode r = (r.enabled && r.mode == mode) && settings_match binding (settings_of r)

-- The loop over the rules.
first_match : Mapping Value → String → List ReleaseRule → ReleaseDecision
first_match binding mode [] = record { status = "UNSUPPORTED"; reason = "NO_EXACT_RELEASE_RULE" }
first_match binding mode (r ∷ rs) =
    if matches binding mode r
    then record { status = "SUPPORTED"; reason = "EXACT_RELEASE_RULE" }
    else first_match binding mode rs

unfoldable pub authorize_mode : ReleasePolicy → Mapping Value → String → ReleaseDecision
unfolding first_match
authorize_mode p binding mode =
    if not p.trusted_source
    then record { status = "UNSUPPORTED"; reason = "UNTRUSTED_RELEASE_POLICY_SOURCE" }
    else first_match binding mode p.rules
