-- ===== src/Adapters/Conformance/Supported.antt =====
-- When the report of taskguard/v3/conformance.py on an adapter is SUPPORTED, with the names written out.
use bricek4_ligong_skills.Base.{
  String, arith, ◌≡◌, refl, sym, subst, ap, ap₂, ◌∙◌, ◌↔◌, Bool, true, false, ◌&&◌, Option, none,
  some, List, [], ◌∷◌, ◌++◌, ◌==◌, Mapping, get, get_value, bool, HasExactly, has_exactly_iff, All,
  all_iff, true_at, eq_iff, and-true, and-intro, all, map, reject, is_empty, is_empty-append,
  is_empty-reject, sorted_set, is_empty-sorted_set, Value, status_of_iff, ◌+++◌, and-true,
  and-intro, false≢true,
}
use bricek4_ligong_skills.Adapters.Capabilities.{required_capabilities, holds_capability}
use bricek4_ligong_skills.Adapters.Conformance.{
  required_cases, ConformanceEvidence, Identity, Subject, Probe, is_own, flag, probe_with, probe,
  is_passed, has_cases, supports, meets_case, failed_of, run_conformance,
}

-- The cases that have to pass, whatever the table of the module says.
abbrev pub cases_passed : List String
cases_passed =
    "canonical-target" ∷ "principal" ∷ "plan-purity-binding" ∷ "idempotency"
    ∷ "commit-before-disconnect-reconcile" ∷ "rollback-readiness" ∷ "rollback-execution"
    ∷ "revision-bound-health" ∷ "crash-recovery" ∷ "concurrency" ∷ "secret-canary"
    ∷ "receipt-audit-consistency" ∷ "irreversible-refusal" ∷ []

-- Trusted evidence over the fourteen cases and no others, in which the thirteen behind `identity` passed.
pub record IsEvidence (e : ConformanceEvidence) : Type 0 where
  pub trusted : e.trusted_harness ≡ true
  pub cases : HasExactly e.case_results ("identity" ∷ cases_passed)
  pub passed : All (λ name. get e.case_results name ≡ some true) cases_passed

-- The adapter answered with its own identity and with a manifest that holds `True` at each of the nine
-- capabilities, and the evidence is sound.
pub record IsConforming (s : Subject) (e : Option ConformanceEvidence) : Type 0 where
  pub identity : Identity
  pub manifest : Mapping Value
  pub evidence : ConformanceEvidence
  pub identified : s.identity ≡ some identity
  pub own_id : identity.adapter_id ≡ s.adapter_id
  pub own_version : identity.adapter_version ≡ s.adapter_version
  pub reported : s.capabilities ≡ some manifest
  pub capable :
      All
        (λ name. get manifest name ≡ some (bool true))
        ("canonical_target" ∷ "effect_observation" ∷ "effect_reconciliation" ∷ "idempotency_key"
          ∷ "principal_identity" ∷ "revision_bound_health" ∷ "rollback_execution"
          ∷ "rollback_preparation" ∷ "side_effect_free_plan" ∷ [])
  pub given : e ≡ some evidence
  pub sound : IsEvidence evidence

own_iff :
    (s : Subject) (i : Identity)
    → (is_own s i ≡ true)
      ↔ ((i.adapter_id ≡ s.adapter_id) × (i.adapter_version ≡ s.adapter_version))
own_iff s i = (
  λ h.
      let (id, version) = and-true (i.adapter_id == s.adapter_id) _ h in
      (
        (eq_iff i.adapter_id s.adapter_id).0 id,
        (eq_iff i.adapter_version s.adapter_version).0 version,
      ),
  λ (id, version).
      and-intro ((eq_iff i.adapter_id s.adapter_id).1 id)
        ((eq_iff i.adapter_version s.adapter_version).1 version),
)

holds_iff :
    (m : Mapping Value) (name : String)
    → (holds_capability m name ≡ true) ↔ (get m name ≡ some (bool true))
unfolding get_value
holds_iff m name = true_at (get m name)

passed_at : (o : Option Bool) → (is_passed o ≡ true) ↔ (o ≡ some true)
passed_at none = (λ h. cc, λ h. cc)
passed_at (some b) = (λ h. ap some h, λ h. ground arith)

supports_iff :
    (e : ConformanceEvidence) (name : String)
    → (supports (some e) name ≡ true) ↔ (
        (e.trusted_harness ≡ true)
        × (has_cases e.case_results ≡ true)
        × (get e.case_results name ≡ some true))
supports_iff e name = (
  λ h.
      let (trusted, rest) = and-true e.trusted_harness _ h in
      let (cases, passed) = and-true (has_cases e.case_results) _ rest in
      (trusted, cases, (passed_at (get e.case_results name)).0 passed),
  λ (trusted, cases, passed).
      and-intro trusted (and-intro cases ((passed_at (get e.case_results name)).1 passed)),
)

is_empty-map : (f : String → String) (xs : List String) → is_empty (map f xs) ≡ is_empty xs
is_empty-map f [] = refl
is_empty-map f (x ∷ xs) = refl

is_empty-failed_of :
    (s : Subject) (e : Option ConformanceEvidence)
    → is_empty (failed_of s e) ≡ (
        is_empty (probe s).failed
        && (all (holds_capability (probe s).capabilities) required_capabilities
            && all (meets_case e) required_cases))
unfolding failed_of
is_empty-failed_of s e =
    is_empty-append (probe s).failed _
    ∙ ap (λ b. is_empty (probe s).failed && b)
        (is_empty-append
            (map (λ name. "capability/" +++ name)
              (reject (holds_capability (probe s).capabilities) required_capabilities))
            _
          ∙ ap₂ ◌&&◌
              (is_empty-map (λ name. "capability/" +++ name)
                  (reject (holds_capability (probe s).capabilities) required_capabilities)
                ∙ is_empty-reject (holds_capability (probe s).capabilities) required_capabilities)
              (is_empty-reject (meets_case e) required_cases))

abbrev IsClear : Subject → Option Identity → Option (Mapping Value) → Type 0
IsClear s i c =
    (identity : Identity) × (manifest : Mapping Value) × (i ≡ some identity)
    × (is_own s identity ≡ true)
    × (c ≡ some manifest)
    × ((probe_with s i c).capabilities ≡ manifest)

is_empty-flag : (b : Bool) (x : String) → is_empty (flag b x) ≡ b
is_empty-flag true x = refl
is_empty-flag false x = refl

never_clear : (b : Bool) (x y : String) → is_empty (flag b x ++ (y ∷ [])) ≡ false
never_clear true x y = refl
never_clear false x y = refl

probed_clear :
    (s : Subject) (i : Option Identity) (c : Option (Mapping Value))
    → is_empty (probe_with s i c).failed ≡ true
    → IsClear s i c
unfolding probe_with
probed_clear s none c h = cc
probed_clear s (some i) none h =
    absurd (false≢true (sym (never_clear (is_own s i) "identity" "identity") ∙ h))
probed_clear s (some i) (some m) h =
    (i, m, refl, sym (is_empty-flag (is_own s i) "identity") ∙ h, refl, refl)

All-map :
    (P Q : String → Type 0)
    → ((name : String) → P name → Q name)
    → (names : List String) → All P names
    → All Q names
All-map P Q f [] h = tt
All-map P Q f (name ∷ names) (here, later) = (f name here, All-map P Q f names later)

IsEvidence-iff :
    (e : Option ConformanceEvidence)
    → (all (meets_case e) required_cases ≡ true)
      ↔ ((ev : ConformanceEvidence) × (e ≡ some ev) × IsEvidence ev)
IsEvidence-iff none = (λ h. cc, λ (ev, given, sound). cc)
IsEvidence-iff (some e) =
    let Supported : String → Type 0 = λ name.
      (e.trusted_harness ≡ true)
      × (has_cases e.case_results ≡ true)
      × (get e.case_results name ≡ some true) in
    let Passed : String → Type 0 = λ name. get e.case_results name ≡ some true in
    let each = all_iff (supports (some e)) Supported (supports_iff e) in
    (
      λ h.
          let every : All Supported cases_passed = (each cases_passed).0 h in
          (
            e,
            refl,
            record {
              trusted = every.0.0;
              cases = (has_exactly_iff e.case_results required_cases).0 every.0.1;
              passed = All-map Supported Passed (λ name k. k.2) cases_passed every;
            },
          ),
      λ (ev, given, sound).
          let same : ev ≡ e = cc in
          let here : IsEvidence e = subst IsEvidence same sound in
          (each cases_passed).1 (
            All-map Passed Supported
              (λ name k.
                (here.trusted, (has_exactly_iff e.case_results required_cases).1 here.cases, k))
              cases_passed here.passed),
    )

conforming_probe :
    (s : Subject) (e : Option ConformanceEvidence)
    → IsConforming s e
    → is_empty (failed_of s e) ≡ true
unfolding probe probe_with
conforming_probe s e c =
    let same : probe s ≡ probe_with s (some c.identity) (some c.manifest) =
      ap₂ (probe_with s) c.identified c.reported in
    let capable : all (holds_capability c.manifest) required_capabilities ≡ true =
      (all_iff (holds_capability c.manifest) _ (holds_iff c.manifest) required_capabilities).1
        c.capable in
    is_empty-failed_of s e
    ∙ and-intro
        (ap (λ (p : Probe). is_empty p.failed) same
          ∙ is_empty-flag (is_own s c.identity) "identity"
          ∙ (own_iff s c.identity).1 (c.own_id, c.own_version))
        (and-intro
          (ap (λ (p : Probe). all (holds_capability p.capabilities) required_capabilities) same
            ∙ capable)
          ((IsEvidence-iff e).1 (c.evidence, c.given, c.sound)))

-- An adapter is SUPPORTED exactly when it answers with its own identifier and version, reports `True` at each of
-- the nine capabilities, and there is evidence of a trusted harness with exactly the fourteen cases, in which
-- each of the thirteen but `identity` is `True`.
pub conformance_supported_iff :
    (digest : Identity → String → String → List String → List String → String) (s : Subject)
    (action_kind : String) (e : Option ConformanceEvidence) (environment : String)
    → ((run_conformance digest s action_kind e environment).status ≡ "SUPPORTED") ↔ IsConforming s e
unfolding run_conformance probe
conformance_supported_iff digest s action_kind e environment = (
  λ h.
      let clear =
        sym (is_empty-failed_of s e)
        ∙ sym (is_empty-sorted_set (failed_of s e))
        ∙ (status_of_iff (is_empty (sorted_set (failed_of s e)))).0 h in
      let (probed, rest) = and-true _ _ clear in
      let (capable, every) = and-true _ _ rest in
      let (i, m, identified, own, reported, kept) =
        probed_clear s s.identity s.capabilities probed in
      let (own_id, own_version) = (own_iff s i).0 own in
      let (evidence, given, sound) = (IsEvidence-iff e).0 every in
      record {
        identity = i;
        manifest = m;
        evidence = evidence;
        identified = identified;
        own_id = own_id;
        own_version = own_version;
        reported = reported;
        capable =
            (all_iff (holds_capability m) (λ name. get m name ≡ some (bool true)) (holds_iff m)
                required_capabilities).0
              (subst (λ x. all (holds_capability x) required_capabilities ≡ true) kept capable);
        given = given;
        sound = sound;
      },
  λ c.
      (status_of_iff (is_empty (sorted_set (failed_of s e)))).1
        (is_empty-sorted_set (failed_of s e) ∙ conforming_probe s e c),
)
