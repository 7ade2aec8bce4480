-- ===== src/Gates/Sandbox.antt =====
-- taskguard/v3/endpoint_policy.py: the exact match of a target with the sandbox.
pub mod Supported
use bricek4_ligong_skills.Base.{
  starts_with, String, ◌≡◌, refl, sym, ◌∙◌, ap, ap₂, ◌↔◌, Bool, true, false, not, ◌&&◌, ◌||◌,
  Option, none, some, List, [], ◌∷◌, ◌++◌, eq_iff, Outcome, ok, ◌>>◌, raise_if, Mapping,
  has_exactly, get, contains, any, all, map, reject, is_empty, is_empty-append, is_empty-reject,
  sorted_set, found_is, has_wildcard, is_blank, status_of, status_of_iff, if◌then◌else◌, and-true,
  and-intro, Bool-cases, inl, inr, arith,
}

pub record SandboxPolicy : Type 0 where
  pub endpoint : String
  pub provider : String
  pub account_id : String
  pub project_id : String
  pub tenant_id : String
  pub region : String
  pub resource_prefixes : List String

pub data PolicyError : Type 0 where
  not_exact not_https : PolicyError

abbrev is_inexact : String → Bool
is_inexact item = is_blank item || has_wildcard item

-- `SandboxPolicy.__post_init__`
pub new_policy : SandboxPolicy → Outcome PolicyError SandboxPolicy
new_policy p = do
  raise_if
      (any is_inexact (
        p.endpoint ∷ p.provider ∷ p.account_id ∷ p.project_id ∷ p.tenant_id ∷ p.region
        ∷ p.resource_prefixes))
      not_exact
  raise_if (not (starts_with p.endpoint "https://") || is_empty p.resource_prefixes) not_https
  ok p

pub record SandboxDecision : Type 0 where
  pub status : String
  pub reasons : List String

abbrev pub required_fields : List String
required_fields =
    "environment" ∷ "endpoint" ∷ "provider" ∷ "account_id" ∷ "project_id" ∷ "tenant_id" ∷ "region"
    ∷ "resource_id" ∷ []

-- The texts that the fields must hold, each with its reason.
pub record ExactField : Type 0 where
  pub name : String
  pub expected : String
  pub reason : String

abbrev pub exact_fields : SandboxPolicy → List ExactField
exact_fields p =
    record { name = "environment"; expected = "sandbox"; reason = "SANDBOX_ENVIRONMENT_MISMATCH" }
    ∷ record { name = "endpoint"; expected = p.endpoint; reason = "SANDBOX_ENDPOINT_MISMATCH" }
    ∷ record { name = "provider"; expected = p.provider; reason = "SANDBOX_PROVIDER_MISMATCH" }
    ∷ record {
      name = "account_id";
      expected = p.account_id;
      reason = "SANDBOX_ACCOUNT_ID_MISMATCH";
    }
    ∷ record {
      name = "project_id";
      expected = p.project_id;
      reason = "SANDBOX_PROJECT_ID_MISMATCH";
    }
    ∷ record { name = "tenant_id"; expected = p.tenant_id; reason = "SANDBOX_TENANT_ID_MISMATCH" }
    ∷ record { name = "region"; expected = p.region; reason = "SANDBOX_REGION_MISMATCH" }
    ∷ []

abbrev pub values_of : Mapping String → List String
values_of [] = []
values_of ((k, v) ∷ m) = v ∷ values_of m

-- `set(target) == required`
abbrev pub has_shape : Mapping String → Bool
has_shape target = has_exactly target required_fields

abbrev pub meets : Mapping String → ExactField → Bool
meets target f = found_is (get target f.name) f.expected

abbrev pub text_or_blank : Option String → String
text_or_blank none = ""
text_or_blank (some s) = s

-- `any(resource.startswith(prefix) for prefix in policy.resource_prefixes)`
abbrev pub in_resources : Mapping String → SandboxPolicy → Bool
in_resources target p =
    any (starts_with (text_or_blank (get target "resource_id"))) p.resource_prefixes

abbrev pub flag : Bool → String → List String
flag holds reason = if holds then [] else reason ∷ []

unfoldable pub target_reasons : Mapping String → SandboxPolicy → List String
target_reasons target p =
    map (λ (f : ExactField). f.reason) (reject (meets target) (exact_fields p))
    ++ (flag (in_resources target p) "SANDBOX_RESOURCE_MISMATCH"
        ++ flag (not (any has_wildcard (values_of target))) "SANDBOX_WILDCARD_FORBIDDEN")

unfoldable pub decide_on : List String → SandboxDecision
decide_on reasons = record { status = status_of (is_empty reasons); reasons = sorted_set reasons }

unfoldable pub validate_sandbox_target : Mapping String → SandboxPolicy → SandboxDecision
unfolding target_reasons decide_on
validate_sandbox_target target p =
    if has_shape target
    then decide_on (target_reasons target p)
    else record { status = "UNSUPPORTED"; reasons = "SANDBOX_TARGET_SHAPE_MISMATCH" ∷ [] }
