-- ===== src/Gates/Release.antt =====
-- taskguard/v3/release_gates.py: the evidence gates of the four release modes.
pub mod Admissible
pub mod Order
use bricek4_ligong_skills.Base.{
  ℕ, String, ◌≡◌, refl, sym, subst, ap, ap₂, ◌∙◌, ◌↔◌, false≢true, Bool, true, false, not, ◌&&◌,
  ◌||◌, Option, none, some, List, [], ◌∷◌, ◌++◌, arith, ◌==◌, eq_iff, eq_refl, Outcome, ok, err,
  Mapping, get, get_value, contains, Value, bool, str, int, null, list, tuple, dict, ℤ, pos,
  is_text, is_true, is_one, is_hashable, is_empty, is_empty-append, reject, is_empty-reject, all,
  and-true, and-intro, ◌+++◌, is_blank, if◌then◌else◌, status_of, status_of_iff, map, Bool-cases,
  inl, inr,
}

abbrev shadow_requirements : List String
shadow_requirements = "trusted_evidence_root" ∷ "receipt_graph" ∷ "core" ∷ "shadow" ∷ []

abbrev sandbox_requirements : List String
sandbox_requirements =
    "trusted_evidence_root" ∷ "receipt_graph" ∷ "core" ∷ "shadow" ∷ "sandbox_conformance"
    ∷ "sandbox_target" ∷ []

abbrev canary_requirements : List String
canary_requirements =
    "trusted_evidence_root" ∷ "receipt_graph" ∷ "core" ∷ "shadow" ∷ "sandbox_conformance"
    ∷ "sandbox_target" ∷ "allowlist" ∷ "kill_switch" ∷ []

abbrev production_requirements : List String
production_requirements =
    "trusted_evidence_root" ∷ "receipt_graph" ∷ "core" ∷ "shadow" ∷ "sandbox_conformance"
    ∷ "sandbox_target" ∷ "allowlist" ∷ "kill_switch" ∷ "trusted_authority" ∷ "receipt_readers"
    ∷ "rollback" ∷ []

-- `MODE_REQUIREMENTS`; a text that is no key has `none`.
unfoldable pub mode_requirements : String → Option (List String)
mode_requirements mode =
    if mode == "SHADOW"
    then some shadow_requirements
    else if mode == "SANDBOX"
    then some sandbox_requirements
    else if mode == "CANARY"
    then some canary_requirements
    else if mode == "PRODUCTION"
    then some production_requirements
    else none

pub record ReleaseGateReport : Type 0 where
  pub mode : String
  pub status : String
  pub ready_for_production : Bool
  pub requested_action_count : ℤ
  pub action_kind : String
  pub rollback_required : Bool
  pub reasons : List String

pub record ReleaseEvidence : Type 0 where
  pub values : Mapping Value
  pub trusted_root_digest : String
  pub receipt_graph_verified : Bool
  pub trusted_source : Bool

-- `ReleaseEvidence | Mapping[str, Any]`, told apart by `isinstance`.
pub data EvidenceInput : Type 0 where
  evidence : ReleaseEvidence → EvidenceInput
  plain : Mapping Value → EvidenceInput

-- `ValueError` for an unknown mode, `TypeError` for an action kind that no set can be asked for.
pub data GateError : Type 0 where
  unknown_mode : GateError
  unhashable_kind : GateError

abbrev pub values_of : EvidenceInput → Mapping Value
values_of (evidence e) = e.values
values_of (plain m) = m

abbrev pub is_trusted : EvidenceInput → Bool
is_trusted (evidence e) =
    e.trusted_source && (e.receipt_graph_verified && not (is_blank e.trusted_root_digest))
is_trusted (plain m) = false

-- `values.get("action_kind", "")`
abbrev or_blank : Option Value → Value
or_blank none = str ""
or_blank (some v) = v

abbrev pub action_kind_of : Mapping Value → Value
action_kind_of values = or_blank (get values "action_kind")

abbrev pub reversible_kinds : List String
reversible_kinds = "deploy" ∷ "write" ∷ "update" ∷ "publish" ∷ []

-- `kind in {"deploy", ...}`
abbrev pub is_reversible : Value → Bool
is_reversible (str s) = contains reversible_kinds s
is_reversible _ = false

-- `action_count if type(action_count) is int else 0`
abbrev count_or_zero : Value → ℤ
count_or_zero (int n) = n
count_or_zero _ = pos 0

abbrev text_or_blank : Value → String
text_or_blank (str s) = s
text_or_blank _ = ""

abbrev pub holds_supported : Mapping Value → String → Bool
holds_supported values name = is_text (get_value values name) "SUPPORTED"

abbrev flag : Bool → String → List String
flag holds reason = if holds then [] else reason ∷ []

pub gate_reasons : EvidenceInput → List String → List String
gate_reasons input requirements =
    map (λ name. "MISSING_OR_FAILED/" +++ name)
      (reject (holds_supported (values_of input)) requirements)
    ++ (flag (is_trusted input) "UNTRUSTED_RELEASE_EVIDENCE"
        ++ (flag (is_one (get_value (values_of input) "requested_action_count"))
              "FIRST_SUBSET_REQUIRES_ONE_ACTION"
            ++ (flag (is_reversible (action_kind_of (values_of input)))
                  "IRREVERSIBLE_OR_UNSUPPORTED_ACTION"
                ++ flag (is_true (get_value (values_of input) "rollback_required"))
                    "ROLLBACK_REQUIRED")))

pub report_of : EvidenceInput → String → List String → ReleaseGateReport
report_of input mode reasons = record {
  mode = mode;
  status = status_of (is_empty reasons);
  ready_for_production = mode == "PRODUCTION" && is_empty reasons;
  requested_action_count = count_or_zero (get_value (values_of input) "requested_action_count");
  action_kind = text_or_blank (action_kind_of (values_of input));
  rollback_required = is_true (get_value (values_of input) "rollback_required");
  reasons = reasons;
}

evaluate_requirements :
    EvidenceInput → String → Option (List String) → Outcome GateError ReleaseGateReport
evaluate_requirements input mode none = err unknown_mode
evaluate_requirements input mode (some requirements) =
    if is_hashable (action_kind_of (values_of input))
    then ok (report_of input mode (gate_reasons input requirements))
    else err unhashable_kind

unfoldable pub evaluate_release_gates : EvidenceInput → String → Outcome GateError ReleaseGateReport
unfolding evaluate_requirements report_of gate_reasons
evaluate_release_gates input mode = evaluate_requirements input mode (mode_requirements mode)

-- The reasons beside those of the mode, as one test.
pub common_test : EvidenceInput → Bool
common_test input =
    is_trusted input
    && (is_one (get_value (values_of input) "requested_action_count")
        && (is_reversible (action_kind_of (values_of input))
            && is_true (get_value (values_of input) "rollback_required")))

is_empty-flag : (b : Bool) (reason : String) → is_empty (flag b reason) ≡ b
is_empty-flag true reason = refl
is_empty-flag false reason = refl

is_empty-map : (f : String → String) (xs : List String) → is_empty (map f xs) ≡ is_empty xs
is_empty-map f [] = refl
is_empty-map f (x ∷ xs) = refl

is_empty-gate_reasons :
    (input : EvidenceInput) (requirements : List String)
    → is_empty (gate_reasons input requirements)
      ≡ (all (holds_supported (values_of input)) requirements && common_test input)
unfolding gate_reasons common_test
is_empty-gate_reasons input requirements = rw is_empty-append (
    rw is_empty-append (
      rw is_empty-append
        (rw is_empty-append (simp (is_empty-flag, is_empty-map, is_empty-reject)))))
