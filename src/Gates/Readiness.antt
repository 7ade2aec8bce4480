-- ===== src/Gates/Readiness.antt =====
-- taskguard/v3/release_report.py: the readiness report of the providers.
use bricek4_ligong_skills.Base.{
  String, false≢true, ◌≡◌, refl, sym, subst, ◌∙◌, ◌↔◌, Bool, true, false, not, ◌||◌, some, List, [],
  ◌∷◌, arith, Mapping, get, contains, supported_in, all_supported_iff, is_empty, all, if◌then◌else◌,
  status_of,
}

-- `READINESS_REQUIREMENTS`, in its order.
abbrev readiness_requirements : Mapping String
readiness_requirements =
    ("trusted_evidence_root", "NO_TRUSTED_RELEASE_EVIDENCE_ROOT")
    ∷ ("receipt_graph", "RELEASE_RECEIPT_GRAPH_UNVERIFIED")
    ∷ ("production_adapter", "NO_REGISTERED_PRODUCTION_ADAPTER")
    ∷ ("provider_conformance", "NO_PROVIDER_SANDBOX_CONFORMANCE")
    ∷ ("trusted_authority", "NO_TRUSTED_AUTHORITY_PROVIDER")
    ∷ ("exact_allowlist", "NO_EXACT_RELEASE_ALLOWLIST")
    ∷ ("kill_switch", "NO_MANAGED_KILL_SWITCH")
    ∷ ("receipt_readers", "RECEIPT_READER_COMPATIBILITY_UNPROVEN")
    ∷ ("shadow", "NO_SHADOW_EVIDENCE")
    ∷ []

pub record ProviderReadinessReport : Type 0 where
  pub status : String
  pub reason_codes : List String
  pub production_ready : Bool

pub record ProviderReadinessEvidence : Type 0 where
  pub values : Mapping String
  pub trusted_source : Bool
  pub receipt_graph_verified : Bool

pub data EvidenceInput : Type 0 where
  absent : EvidenceInput
  plain : Mapping String → EvidenceInput
  evidence : ProviderReadinessEvidence → EvidenceInput

missing_codes : Mapping String → Mapping String → List String
missing_codes [] values = []
missing_codes ((name, code) ∷ requirements) values =
    if supported_in values name
    then missing_codes requirements values
    else code ∷ missing_codes requirements values

report_from : List String → ProviderReadinessReport
report_from reasons = record {
  status = status_of (is_empty reasons);
  reason_codes = reasons;
  production_ready = is_empty reasons;
}

untrusted : ProviderReadinessReport
untrusted = record {
  status = "UNSUPPORTED";
  reason_codes = "UNTRUSTED_PROVIDER_READINESS_EVIDENCE" ∷ [];
  production_ready = false;
}

unfoldable pub build_provider_readiness_report : EvidenceInput → ProviderReadinessReport
unfolding missing_codes report_from untrusted
build_provider_readiness_report absent = report_from (missing_codes readiness_requirements [])
build_provider_readiness_report (plain values) = untrusted
build_provider_readiness_report (evidence e) =
    if not e.trusted_source || not e.receipt_graph_verified
    then untrusted
    else report_from (missing_codes readiness_requirements e.values)

abbrev names_of : Mapping String → List String
names_of [] = []
names_of ((name, code) ∷ m) = name ∷ names_of m

is_empty-missing_codes :
    (requirements values : Mapping String)
    → is_empty (missing_codes requirements values)
      ≡ all (supported_in values) (names_of requirements)
unfolding missing_codes
is_empty-missing_codes [] values = refl
is_empty-missing_codes ((name, code) ∷ requirements) values =
    ground (arith, is_empty-missing_codes requirements values)

abbrev pub readiness_names : List String
readiness_names = names_of readiness_requirements

no_codes_iff :
    (values : Mapping String)
    → (is_empty (missing_codes readiness_requirements values) ≡ true) ↔ (
        (name : String) → contains readiness_names name ≡ true → get values name ≡ some "SUPPORTED")
no_codes_iff values =
    let codes = is_empty-missing_codes readiness_requirements values in
    let supported = all_supported_iff values readiness_names in
    (λ h. supported.0 (sym codes ∙ h), λ h. codes ∙ supported.1 h)

never_ready : is_empty (missing_codes readiness_requirements []) ≡ false
unfolding missing_codes get
never_ready = refl

evidence-injective : {d e : ProviderReadinessEvidence} → evidence d ≡ evidence e → d ≡ e
evidence-injective p = cc

-- What a report from typed evidence needs.
abbrev pub IsReady : ProviderReadinessEvidence → Type 0
IsReady e =
    (e.trusted_source ≡ true)
    × (e.receipt_graph_verified ≡ true)
    × ((name : String)
        → contains readiness_names name ≡ true
        → get e.values name ≡ some "SUPPORTED")

evidence_ready :
    (e : ProviderReadinessEvidence)
    → ((build_provider_readiness_report (evidence e)).production_ready ≡ true) ↔ (
        (e.trusted_source ≡ true)
        × (e.receipt_graph_verified ≡ true)
        × (is_empty (missing_codes readiness_requirements e.values) ≡ true))
unfolding build_provider_readiness_report report_from untrusted
evidence_ready e = (λ h. ground arith, λ h. ground arith)

-- The report says production-ready, with status SUPPORTED and no reason, exactly when it is given typed
-- evidence of a trusted source with a verified receipt graph in which all nine requirements are
-- SUPPORTED; without evidence it is never ready.
pub production_ready_iff :
    (input : EvidenceInput)
    → ((build_provider_readiness_report input).production_ready ≡ true)
      ↔ ((e : ProviderReadinessEvidence) × (input ≡ evidence e) × IsReady e)
unfolding build_provider_readiness_report report_from untrusted
production_ready_iff absent = (λ h. absurd (false≢true (sym never_ready ∙ h)), λ (e, p, r). cc)
production_ready_iff (plain values) = (λ h. cc, λ (e, p, r). cc)
production_ready_iff (evidence e) = (
  λ h.
      let (trusted, verified, clear) = (evidence_ready e).0 h in
      (e, refl, (trusted, verified, (no_codes_iff e.values).0 clear)),
  λ (d, p, r).
      let (trusted, verified, every) = subst IsReady (sym (evidence-injective p)) r in
      (evidence_ready e).1 (trusted, verified, (no_codes_iff e.values).1 every),
)
