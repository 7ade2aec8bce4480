-- ===== src/Adapters/Conformance.antt =====
-- taskguard/v3/conformance.py: the report on the conformance of an adapter.
pub mod Supported
use bricek4_ligong_skills.Base.{
  String, ◌≡◌, refl, sym, subst, ap, ap₂, ◌∙◌, ◌↔◌, Bool, true, false, ◌&&◌, Option, none, some,
  List, [], ◌∷◌, ◌++◌, ◌==◌, Mapping, get, has_exactly, contains, all, map, reject, is_empty,
  is_empty-append, is_empty-reject, sorted_set, is_empty-sorted_set, Value, status_of,
  status_of_iff, if◌then◌else◌, ◌+++◌, and-true, and-intro, false≢true,
}
use bricek4_ligong_skills.Adapters.Capabilities.{required_capabilities, holds_capability}

-- `REQUIRED_REVERSIBLE_ACTION_CASES`
abbrev pub required_cases : List String
required_cases =
    "identity" ∷ "canonical-target" ∷ "principal" ∷ "plan-purity-binding" ∷ "idempotency"
    ∷ "commit-before-disconnect-reconcile" ∷ "rollback-readiness" ∷ "rollback-execution"
    ∷ "revision-bound-health" ∷ "crash-recovery" ∷ "concurrency" ∷ "secret-canary"
    ∷ "receipt-audit-consistency" ∷ "irreversible-refusal" ∷ []

pub record ConformanceReport : Type 0 where
  pub status : String
  pub adapter_id : String
  pub adapter_version : String
  pub action_kind : String
  pub environment : String
  pub passed : List String
  pub failed : List String
  pub evidence_digest : String

pub record ConformanceEvidence : Type 0 where
  pub case_results : Mapping Bool
  pub trusted_harness : Bool

pub record Identity : Type 0 where
  pub adapter_id : String
  pub adapter_version : String

-- The adapter under test: its two attributes, and what `identity` and `capabilities` (for the action) return, or
-- `none` where they raise.
pub record Subject : Type 0 where
  pub adapter_id : String
  pub adapter_version : String
  pub identity : Option Identity
  pub capabilities : Option (Mapping Value)

-- What the `try` statement leaves: the identity to be reported, the capabilities and the failures so far.
pub record Probe : Type 0 where
  pub identity : Identity
  pub capabilities : Mapping Value
  pub failed : List String

abbrev own_identity : Subject → Identity
own_identity s = record { adapter_id = s.adapter_id; adapter_version = s.adapter_version }

abbrev pub is_own : Subject → Identity → Bool
is_own s i = i.adapter_id == s.adapter_id && i.adapter_version == s.adapter_version

abbrev pub flag : Bool → String → List String
flag holds reason = if holds then [] else reason ∷ []

unfoldable pub probe_with : Subject → Option Identity → Option (Mapping Value) → Probe
probe_with s none capabilities = record {
  identity = own_identity s;
  capabilities = [];
  failed = "identity" ∷ [];
}
probe_with s (some i) none = record {
  identity = own_identity s;
  capabilities = [];
  failed = flag (is_own s i) "identity" ++ ("identity" ∷ []);
}
probe_with s (some i) (some m) = record {
  identity = i;
  capabilities = m;
  failed = flag (is_own s i) "identity";
}

unfoldable pub probe : Subject → Probe
unfolding probe_with
probe s = probe_with s s.identity s.capabilities

abbrev pub is_passed : Option Bool → Bool
is_passed none = false
is_passed (some b) = b

-- `set(evidence.case_results) == set(REQUIRED_REVERSIBLE_ACTION_CASES)`
abbrev pub has_cases : Mapping Bool → Bool
has_cases m = has_exactly m required_cases

abbrev pub supports : Option ConformanceEvidence → String → Bool
supports none name = false
supports (some e) name =
    e.trusted_harness && (has_cases e.case_results && is_passed (get e.case_results name))

-- The loop over the cases passes over `identity`.
abbrev pub meets_case : Option ConformanceEvidence → String → Bool
meets_case e name = if name == "identity" then true else supports e name

unfoldable pub failed_of : Subject → Option ConformanceEvidence → List String
failed_of s e =
    (probe s).failed
    ++ (map (λ name. "capability/" +++ name)
          (reject (holds_capability (probe s).capabilities) required_capabilities)
        ++ reject (meets_case e) required_cases)

-- `digest` is SHA-256 of the canonical JSON of the report's other fields, from the identity on.
unfoldable pub run_conformance :
    (Identity → String → String → List String → List String → String)
    → Subject
    → String
    → Option ConformanceEvidence
    → String
    → ConformanceReport
unfolding failed_of probe
run_conformance digest s action_kind e environment =
    let failed = sorted_set (failed_of s e) in
    let passed = reject (contains failed) required_cases in
    record {
      status = status_of (is_empty failed);
      adapter_id = (probe s).identity.adapter_id;
      adapter_version = (probe s).identity.adapter_version;
      action_kind = action_kind;
      environment = environment;
      passed = passed;
      failed = failed;
      evidence_digest = digest (probe s).identity action_kind environment passed failed;
    }
