-- ===== src/Gates/Release/Admissible.antt =====
-- What a release gate demands (taskguard/v3/release_gates.py).
use bricek4_ligong_skills.Base.{
  ◌⊎◌, inl, inr, [], ◌∷◌, get, int, bool, pos, not, false, is_blank, true_at, String, ◌≡◌, refl,
  sym, subst, ap, ◌∙◌, ◌↔◌, true, ◌&&◌, Option, none, some, List, arith, eq_iff, ok, get_value,
  contains, Value, str, is_text, is_one, is_hashable, all, all-contains, all_of_contains, and-true,
  and-intro, status_of_iff,
}
use bricek4_ligong_skills.Gates.Release.{
  ReleaseEvidence, evidence, plain, or_blank, mode_requirements, ReleaseGateReport, EvidenceInput,
  values_of, is_trusted, action_kind_of, is_reversible, holds_supported, evaluate_requirements,
  evaluate_release_gates, report_of, gate_reasons, common_test, is_empty-gate_reasons,
}

is_text_iff : (v : Value) (t : String) → (is_text v t ≡ true) ↔ (v ≡ str t)
is_text_iff (str s) t = (λ h. ap str ((eq_iff s t).0 h), λ h. (eq_iff s t).1 (ground arith))
is_text_iff _ t = (λ h. cc, λ h. cc)

-- What a gate asks of the evidence, whatever the mode. The count may be `True`, which Python takes for 1.
pub record IsCommonlyAdmissible (input : EvidenceInput) : Type 0 where
  pub trusted :
      (e : ReleaseEvidence) × (input ≡ evidence e)
      × (e.trusted_source ≡ true)
      × (e.receipt_graph_verified ≡ true)
      × (is_blank e.trusted_root_digest ≡ false)
  pub one_action :
      (get_value (values_of input) "requested_action_count" ≡ int (pos 1))
      ⊎ (get_value (values_of input) "requested_action_count" ≡ bool true)
  pub reversible :
      (kind : String) × (get (values_of input) "action_kind" ≡ some (str kind))
      × (contains ("deploy" ∷ "write" ∷ "update" ∷ "publish" ∷ []) kind ≡ true)
  pub with_rollback : get (values_of input) "rollback_required" ≡ some (bool true)

trusted_iff :
    (input : EvidenceInput)
    → (is_trusted input ≡ true) ↔ (
        (e : ReleaseEvidence) × (input ≡ evidence e)
        × (e.trusted_source ≡ true)
        × (e.receipt_graph_verified ≡ true)
        × (is_blank e.trusted_root_digest ≡ false))
trusted_iff (plain m) = (λ h. cc, λ (e, same, source, graph, root). cc)
trusted_iff (evidence e) = (
  λ h.
      let (source, rest) = and-true e.trusted_source _ h in
      let (graph, root) = and-true e.receipt_graph_verified _ rest in
      (e, refl, source, graph, ground (arith, root)),
  λ (d, same, source, graph, root).
      let one : d ≡ e = cc in
      subst (λ (x : ReleaseEvidence). is_trusted (evidence x) ≡ true) one
        (and-intro source (and-intro graph (ap not root))),
)

one_iff : (v : Value) → (is_one v ≡ true) ↔ ((v ≡ int (pos 1)) ⊎ (v ≡ bool true))
one_iff (int (pos n)) = (
  λ h. let one : n ≡ 1 = ground (arith, h) in inl (ap (λ k. int (pos k)) one),
  λ h. elim h [ inl e ↦ let one : n ≡ 1 = cc e in ground (arith, one) | inr e ↦ cc e ],
)
one_iff (bool b) = (λ h. inr (ap bool h), λ h. elim h [ inl e ↦ cc | inr e ↦ ground arith ])
one_iff v = (λ h. cc, λ h. elim h [ inl e ↦ cc e | inr e ↦ cc e ])

kind_iff :
    (o : Option Value)
    → (is_reversible (or_blank o) ≡ true) ↔ (
        (kind : String) × (o ≡ some (str kind))
        × (contains ("deploy" ∷ "write" ∷ "update" ∷ "publish" ∷ []) kind ≡ true))
unfolding contains
kind_iff none = (λ h. cc, λ (kind, same, h). cc)
kind_iff (some (str s)) =
    (λ h. (s, refl, h), λ (kind, same, h). let one : kind ≡ s = cc in rw (← one) h)
kind_iff (some v) = (λ h. cc, λ (kind, same, h). cc)

common_test_iff : (input : EvidenceInput) → (common_test input ≡ true) ↔ IsCommonlyAdmissible input
unfolding common_test get_value
common_test_iff input = (
  λ h.
      let (trusted, h₁) = and-true _ _ h in
      let (one, h₂) = and-true _ _ h₁ in
      let (reversible, rollback) = and-true _ _ h₂ in
      record {
        trusted = (trusted_iff input).0 trusted;
        one_action = (one_iff (get_value (values_of input) "requested_action_count")).0 one;
        reversible = (kind_iff (get (values_of input) "action_kind")).0 reversible;
        with_rollback = (true_at (get (values_of input) "rollback_required")).0 rollback;
      },
  λ r. and-intro ((trusted_iff input).1 r.trusted) (
      and-intro ((one_iff (get_value (values_of input) "requested_action_count")).1 r.one_action) (
        and-intro ((kind_iff (get (values_of input) "action_kind")).1 r.reversible)
          ((true_at (get (values_of input) "rollback_required")).1 r.with_rollback))),
)

-- What a returned report says of the evidence and of the requirements of its mode.
pub returned :
    (input : EvidenceInput) (mode : String) {r : ReleaseGateReport}
    → evaluate_release_gates input mode ≡ ok r
    → (requirements : List String) × (mode_requirements mode ≡ some requirements)
      × (is_hashable (action_kind_of (values_of input)) ≡ true)
      × (report_of input mode (gate_reasons input requirements) ≡ r)
unfolding evaluate_release_gates evaluate_requirements
returned input mode {r} h = from (mode_requirements mode) refl h
  where
    from :
        (found : Option (List String))
        → mode_requirements mode ≡ found
        → evaluate_requirements input mode found ≡ ok r
        → (requirements : List String) × (mode_requirements mode ≡ some requirements)
          × (is_hashable (action_kind_of (values_of input)) ≡ true)
          × (report_of input mode (gate_reasons input requirements) ≡ r)
    from none e k = cc
    from (some requirements) e k = (requirements, e, ground arith, ground arith)

pub supported_test :
    (input : EvidenceInput) (mode : String) (requirements : List String)
    → ((report_of input mode (gate_reasons input requirements)).status ≡ "SUPPORTED")
      ↔ ((all (holds_supported (values_of input)) requirements && common_test input) ≡ true)
unfolding report_of
supported_test input mode requirements =
    let clear = is_empty-gate_reasons input requirements in
    (λ h. sym clear ∙ (status_of_iff _).0 h, λ h. (status_of_iff _).1 (clear ∙ h))

-- What a gate asks of the evidence for a mode whose requirements are given.
pub record IsAdmissible (input : EvidenceInput) (requirements : List String) : Type 0 where
  pub required :
      (name : String)
      → contains requirements name ≡ true
      → get_value (values_of input) name ≡ str "SUPPORTED"
  pub common : IsCommonlyAdmissible input

IsAdmissible-iff :
    (input : EvidenceInput) (requirements : List String)
    → ((all (holds_supported (values_of input)) requirements && common_test input) ≡ true)
      ↔ IsAdmissible input requirements
IsAdmissible-iff input requirements = (
  λ h.
      let (every, common) = and-true _ _ h in
      record {
        required = λ name m.
            (is_text_iff _ "SUPPORTED").0
              (all-contains (holds_supported (values_of input)) requirements name every m);
        common = (common_test_iff input).0 common;
      },
  λ r.
      and-intro
        (all_of_contains (holds_supported (values_of input)) requirements
          (λ name m. (is_text_iff _ "SUPPORTED").1 (r.required name m)))
        ((common_test_iff input).1 r.common),
)

ready_iff :
    (input : EvidenceInput) (mode : String) (requirements : List String)
    → let q = report_of input mode (gate_reasons input requirements) in
      (q.ready_for_production ≡ true) ↔ ((mode ≡ "PRODUCTION") × (q.status ≡ "SUPPORTED"))
unfolding report_of
ready_iff input mode requirements = (
  λ h.
      let (production, clear) = and-true _ _ h in
      ((eq_iff mode "PRODUCTION").0 production, (status_of_iff _).1 clear),
  λ h. and-intro ((eq_iff mode "PRODUCTION").1 h.0) ((status_of_iff _).0 h.1),
)

-- A report is SUPPORTED exactly when the evidence is typed, of a trusted source and over a verified
-- receipt graph with a root digest, holds SUPPORTED at every requirement of the mode, asks for one
-- action (or `True`, which Python takes for 1) of a reversible kind, and requires a rollback. It is ready
-- for production exactly when it is SUPPORTED and the mode is PRODUCTION.
pub release_gate_supported_iff :
    (input : EvidenceInput) (mode : String) {r : ReleaseGateReport}
    → evaluate_release_gates input mode ≡ ok r
    → (requirements : List String) × (mode_requirements mode ≡ some requirements)
      × ((r.status ≡ "SUPPORTED") ↔ IsAdmissible input requirements)
      × ((r.ready_for_production ≡ true) ↔ ((mode ≡ "PRODUCTION") × (r.status ≡ "SUPPORTED")))
release_gate_supported_iff input mode {r} h =
    let (requirements, found, hashable, report) = returned input mode h in
    let test = supported_test input mode requirements in
    let spec = IsAdmissible-iff input requirements in
    (
      requirements,
      found,
      subst (λ q. (q.status ≡ "SUPPORTED") ↔ IsAdmissible input requirements) report
          (λ k. spec.0 (test.0 k), λ k. test.1 (spec.1 k)),
      subst
          (λ q.
            (q.ready_for_production ≡ true) ↔ ((mode ≡ "PRODUCTION") × (q.status ≡ "SUPPORTED")))
          report (ready_iff input mode requirements),
    )
