-- ===== src/Gates/Release/Order.antt =====
-- What a release gate demands, and the order of the gates (taskguard/v3/release_gates.py).
use bricek4_ligong_skills.Base.{
  String, ◌≡◌, refl, sym, subst, ap, ◌∙◌, ◌⊎◌, inl, inr, false≢true, Bool, true, some, List, [],
  ◌∷◌, arith, ◌==◌, eq_iff, ok, contains, all, and-true, and-intro, if◌then◌else◌, Bool-cases,
}
use bricek4_ligong_skills.Gates.Release.{
  shadow_requirements, sandbox_requirements, canary_requirements, production_requirements,
  mode_requirements, ReleaseGateReport, EvidenceInput, values_of, holds_supported,
  evaluate_requirements, evaluate_release_gates, report_of, gate_reasons,
}
use bricek4_ligong_skills.Gates.Release.Admissible.{returned, supported_test}

-- The modes up to a mode, in the order of `MODE_REQUIREMENTS`.
abbrev pub modes_up_to : String → List String
modes_up_to mode =
    if mode == "SHADOW"
    then "SHADOW" ∷ []
    else if mode == "SANDBOX"
    then "SHADOW" ∷ "SANDBOX" ∷ []
    else if mode == "CANARY"
    then "SHADOW" ∷ "SANDBOX" ∷ "CANARY" ∷ []
    else if mode == "PRODUCTION"
    then "SHADOW" ∷ "SANDBOX" ∷ "CANARY" ∷ "PRODUCTION" ∷ []
    else []

-- Each mode's requirements are met where those of a later mode are.
module _ (p : String → Bool) where
  sandbox_to_shadow : all p sandbox_requirements ≡ true → all p shadow_requirements ≡ true
  sandbox_to_shadow h = ground arith

  canary_to_sandbox : all p canary_requirements ≡ true → all p sandbox_requirements ≡ true
  canary_to_sandbox h = ground arith

  production_to_canary : all p production_requirements ≡ true → all p canary_requirements ≡ true
  production_to_canary h = ground arith

  abbrev Meets : String → Type 0
  Meets mode = (fewer : List String) × (mode_requirements mode ≡ some fewer) × (all p fewer ≡ true)

  met_shadow : all p shadow_requirements ≡ true → Meets "SHADOW"
  unfolding mode_requirements
  met_shadow h = (shadow_requirements, refl, h)

  met_sandbox : all p sandbox_requirements ≡ true → Meets "SANDBOX"
  unfolding mode_requirements
  met_sandbox h = (sandbox_requirements, refl, h)

  met_canary : all p canary_requirements ≡ true → Meets "CANARY"
  unfolding mode_requirements
  met_canary h = (canary_requirements, refl, h)

  met_production : all p production_requirements ≡ true → Meets "PRODUCTION"
  unfolding mode_requirements
  met_production h = (production_requirements, refl, h)

-- A property of the members of a list that is written out.
of_member :
    (P : String → Type 0) (x a : String) (rest : List String)
    → contains (x ∷ rest) a ≡ true
    → P x
    → (contains rest a ≡ true → P a)
    → P a
unfolding contains
of_member P x a rest m here later = elim (Bool-cases (x == a)) [
  | inl e ↦ subst P ((eq_iff x a).0 e) here
  | inr e ↦ later (rw e at m)
]

no_member : (P : String → Type 0) (a : String) → contains [] a ≡ true → P a
unfolding contains
no_member P a m = absurd (false≢true m)

module _ (p : String → Bool) (a : String) where
  up_to_shadow :
      all p shadow_requirements ≡ true → contains (modes_up_to "SHADOW") a ≡ true → Meets p a
  up_to_shadow h m = of_member (Meets p) "SHADOW" a [] m (met_shadow p h) (no_member (Meets p) a)

  up_to_sandbox :
      all p sandbox_requirements ≡ true → contains (modes_up_to "SANDBOX") a ≡ true → Meets p a
  up_to_sandbox h m =
      of_member (Meets p) "SHADOW" a _ m (met_shadow p (sandbox_to_shadow p h))
        λ m₁. of_member (Meets p) "SANDBOX" a _ m₁ (met_sandbox p h) (no_member (Meets p) a)

  up_to_canary :
      all p canary_requirements ≡ true → contains (modes_up_to "CANARY") a ≡ true → Meets p a
  up_to_canary h m =
      let s = canary_to_sandbox p h in
      of_member (Meets p) "SHADOW" a _ m (met_shadow p (sandbox_to_shadow p s)) λ m₁.
        of_member (Meets p) "SANDBOX" a _ m₁ (met_sandbox p s)
          λ m₂. of_member (Meets p) "CANARY" a _ m₂ (met_canary p h) (no_member (Meets p) a)

  up_to_production :
      all p production_requirements ≡ true
      → contains (modes_up_to "PRODUCTION") a ≡ true
      → Meets p a
  up_to_production h m =
      let c = production_to_canary p h in
      let s = canary_to_sandbox p c in
      of_member (Meets p) "SHADOW" a _ m (met_shadow p (sandbox_to_shadow p s)) λ m₁.
        of_member (Meets p) "SANDBOX" a _ m₁ (met_sandbox p s) λ m₂.
          of_member (Meets p) "CANARY" a _ m₂ (met_canary p c) λ m₃.
            of_member (Meets p) "PRODUCTION" a _ m₃ (met_production p h) (no_member (Meets p) a)

-- The four modes with their requirements.
known_mode :
    (mode : String) {requirements : List String}
    → mode_requirements mode ≡ some requirements
    → ((mode ≡ "SHADOW") × (shadow_requirements ≡ requirements))
      ⊎ ((mode ≡ "SANDBOX") × (sandbox_requirements ≡ requirements))
      ⊎ ((mode ≡ "CANARY") × (canary_requirements ≡ requirements))
      ⊎ ((mode ≡ "PRODUCTION") × (production_requirements ≡ requirements))
unfolding mode_requirements
known_mode mode h = ground (
  arith,
  eq_iff mode "SHADOW",
  eq_iff mode "SANDBOX",
  eq_iff mode "CANARY",
  eq_iff mode "PRODUCTION",
)

nested :
    (p : String → Bool) (mode earlier : String) (requirements : List String)
    → mode_requirements mode ≡ some requirements
    → contains (modes_up_to mode) earlier ≡ true
    → all p requirements ≡ true
    → Meets p earlier
nested p mode earlier requirements found before h =
    let every = λ (q : List String) (e : q ≡ requirements). subst (λ r. all p r ≡ true) (sym e) h in
    let within = λ (m : String) (e : mode ≡ m).
      subst (λ n. contains (modes_up_to n) earlier ≡ true) e before in
    elim (known_mode mode found) [
      | inl (e, r) ↦ up_to_shadow p earlier (every _ r) (within _ e)
      | inr (inl (e, r)) ↦ up_to_sandbox p earlier (every _ r) (within _ e)
      | inr (inr (inl (e, r))) ↦ up_to_canary p earlier (every _ r) (within _ e)
      | inr (inr (inr (e, r))) ↦ up_to_production p earlier (every _ r) (within _ e)
    ]

-- The gates are ordered: evidence that is SUPPORTED for a mode is SUPPORTED for every mode before it.
pub release_gates_ordered :
    (input : EvidenceInput) (mode earlier : String) {r : ReleaseGateReport}
    → evaluate_release_gates input mode ≡ ok r
    → r.status ≡ "SUPPORTED"
    → contains (modes_up_to mode) earlier ≡ true
    → (r' : ReleaseGateReport) × (evaluate_release_gates input earlier ≡ ok r')
      × (r'.status ≡ "SUPPORTED")
unfolding evaluate_release_gates evaluate_requirements
release_gates_ordered input mode earlier h k before =
    let (requirements, found, hashable, report) = returned input mode h in
    let (every, common) = and-true _ _ (
      (supported_test input mode requirements).0
        (ap (λ (q : ReleaseGateReport). q.status) report ∙ k)) in
    let (fewer, found', every') =
      nested (holds_supported (values_of input)) mode earlier requirements found before every in
    (
      report_of input earlier (gate_reasons input fewer),
      rw (found', hashable),
      (supported_test input earlier fewer).1 (and-intro every' common),
    )
