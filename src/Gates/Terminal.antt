-- ===== src/Gates/Terminal.antt =====
-- taskguard/v3/aggregator.py: the only place where a task of protocol 3 becomes a success.
use bricek4_ligong_skills.Base.{
  String, ◌≡◌, refl, sym, ap, ap₂, ◌∙◌, and-true, and-intro, ◌↔◌, Bool, true, false, ◌&&◌, Option,
  none, some, List, [], ◌∷◌, ◌++◌, arith, ◌==◌, eq_iff, Mapping, get, contains, is_supported,
  is_empty, is_empty-append, supported_in, all_supported_iff, all, ◌+++◌, is_blank, if◌then◌else◌,
}

abbrev pub required_dimensions : List String
required_dimensions =
    "contract" ∷ "risk_chain" ∷ "adapter" ∷ "plan" ∷ "authority" ∷ "rollback_readiness" ∷ "effect"
    ∷ "health" ∷ "workspace" ∷ "receipts" ∷ "release_gate" ∷ []

-- `name.upper()` on the names above.
abbrev upper : String → String
upper name =
    if name == "contract"
    then "CONTRACT"
    else if name == "risk_chain"
    then "RISK_CHAIN"
    else if name == "adapter"
    then "ADAPTER"
    else if name == "plan"
    then "PLAN"
    else if name == "authority"
    then "AUTHORITY"
    else if name == "rollback_readiness"
    then "ROLLBACK_READINESS"
    else if name == "effect"
    then "EFFECT"
    else if name == "health"
    then "HEALTH"
    else if name == "workspace"
    then "WORKSPACE"
    else if name == "receipts"
    then "RECEIPTS"
    else "RELEASE_GATE"

pub record AggregateResult : Type 0 where
  pub verdict : String
  pub reasons : List String

-- `verdict or "MISSING"`
abbrev or_missing : Option String → String
or_missing none = "MISSING"
or_missing (some v) = if is_blank v then "MISSING" else v

abbrev verdict_of : Bool → String
verdict_of true = "SUPPORTED"
verdict_of false = "FAILED"

abbrev lifecycle_reasons : String → List String
lifecycle_reasons lifecycle =
    if lifecycle == "HEALTHY" then [] else ("LIFECYCLE/" +++ lifecycle) ∷ []

-- The loop over the dimensions.
dimension_reasons : Mapping String → List String → List String
dimension_reasons dimensions [] = []
dimension_reasons dimensions (name ∷ names) =
    let later = dimension_reasons dimensions names in
    if is_supported (get dimensions name)
    then later
    else (upper name +++ ("/" +++ or_missing (get dimensions name))) ∷ later

unfoldable pub aggregate_terminal : Mapping String → String → AggregateResult
unfolding dimension_reasons
aggregate_terminal dimensions lifecycle =
    let reasons = dimension_reasons dimensions required_dimensions ++ lifecycle_reasons lifecycle in
    record { verdict = verdict_of (is_empty reasons); reasons = reasons }

no_reasons_iff :
    (dimensions : Mapping String) (names : List String)
    → is_empty (dimension_reasons dimensions names) ≡ all (supported_in dimensions) names
unfolding dimension_reasons
no_reasons_iff d [] = refl
no_reasons_iff d (name ∷ names) = ground (arith, no_reasons_iff d names)

verdict_of_iff : (b : Bool) → (verdict_of b ≡ "SUPPORTED") ↔ (b ≡ true)
verdict_of_iff true = (λ h. refl, λ h. refl)
verdict_of_iff false = (λ h. cc ((eq_iff "FAILED" "SUPPORTED").1 h), λ h. cc)

is_empty-lifecycle_reasons : (l : String) → is_empty (lifecycle_reasons l) ≡ (l == "HEALTHY")
is_empty-lifecycle_reasons l = ground arith

-- What the loop and the last test leave, as one test.
is_clear : Mapping String → String → Bool
is_clear d l = all (supported_in d) required_dimensions && l == "HEALTHY"

verdict-is_clear :
    (d : Mapping String) (l : String) → (aggregate_terminal d l).verdict ≡ verdict_of (is_clear d l)
unfolding aggregate_terminal is_clear
verdict-is_clear d l = ap verdict_of (
    is_empty-append (dimension_reasons d required_dimensions) (lifecycle_reasons l)
    ∙ ap₂ ◌&&◌ (no_reasons_iff d required_dimensions) (is_empty-lifecycle_reasons l))

is_clear_iff :
    (d : Mapping String) (l : String)
    → (is_clear d l ≡ true) ↔ (
        ((name : String) → contains required_dimensions name ≡ true → get d name ≡ some "SUPPORTED")
        × (l ≡ "HEALTHY"))
unfolding is_clear
is_clear_iff d l = (
  λ h.
      let (every, healthy) = and-true _ _ h in
      ((all_supported_iff d required_dimensions).0 every, (eq_iff l "HEALTHY").0 healthy),
  λ h. and-intro ((all_supported_iff d required_dimensions).1 h.0) ((eq_iff l "HEALTHY").1 h.1),
)

-- A task is a success exactly when each of the eleven required dimensions holds the verdict SUPPORTED
-- (a missing one does not) and the lifecycle is HEALTHY; it is then given without a reason.
pub aggregate_terminal_success_iff :
    (dimensions : Mapping String) (lifecycle : String)
    → ((aggregate_terminal dimensions lifecycle).verdict ≡ "SUPPORTED" ↔ (
        ((name : String)
          → contains required_dimensions name ≡ true
          → get dimensions name ≡ some "SUPPORTED")
        × (lifecycle ≡ "HEALTHY")))
aggregate_terminal_success_iff d l = (
  λ h. (is_clear_iff d l).0 ((verdict_of_iff _).0 (sym (verdict-is_clear d l) ∙ h)),
  λ h. verdict-is_clear d l ∙ (verdict_of_iff _).1 ((is_clear_iff d l).1 h),
)
