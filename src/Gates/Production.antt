-- ===== src/Gates/Production.antt =====
-- taskguard/v3/production_gate.py: the gate before an apply in production.
use bricek4_ligong_skills.Base.{
  String, ◌≡◌, refl, sym, subst, ◌∙◌, ◌↔◌, Bool, true, false, not, ◌&&◌, ◌||◌, some, List, [], ◌∷◌,
  ◌++◌, arith, ◌==◌, eq_iff, Mapping, get, found_is, found_is_iff, or_iff, contains, supported_in,
  all_supported_iff, all-contains, all_of_contains, is_empty, is_empty-append, reject,
  is_empty-reject, all, and-true, and-intro, ◌+++◌, is_blank, if◌then◌else◌, status_of,
  status_of_iff,
}

abbrev pub production_guards : List String
production_guards =
    "local_platform" ∷ "adapter_registered" ∷ "exact_allowlist" ∷ "adapter_conformance"
    ∷ "trusted_authority_provider" ∷ "authority_receipt" ∷ "plan" ∷ "target" ∷ "principal"
    ∷ "rollback_readiness" ∷ "rollback_authority" ∷ "kill_switch" ∷ []

pub record ProductionDecision : Type 0 where
  pub status : String
  pub reason_code : String
  pub failed_guards : List String

pub record ProductionGateContext : Type 0 where
  pub guards : Mapping String
  pub binding_digest : String
  pub guard_bindings : Mapping String
  pub receipt_graph_verified : Bool
  pub trusted_policy_source : Bool

-- `ProductionGateContext | Mapping[str, str]`, which the code tells apart by `isinstance`.
pub data GateInput : Type 0 where
  context : ProductionGateContext → GateInput
  plain : Mapping String → GateInput

-- `name in {"local_platform", "kill_switch"} or guard_bindings.get(name) == binding_digest`
abbrev bound_to : ProductionGateContext → String → Bool
bound_to c name =
    (name == "local_platform" || name == "kill_switch")
    || found_is (get c.guard_bindings name) c.binding_digest

abbrev flag : Bool → String → List String
flag holds name = if holds then [] else name ∷ []

-- `failed_values`
failed_guards_of : ProductionGateContext → List String
failed_guards_of c =
    reject (supported_in c.guards) production_guards
    ++ (flag c.receipt_graph_verified "receipt_graph"
        ++ (flag c.trusted_policy_source "trusted_policy_source"
            ++ flag (not (is_blank c.binding_digest) && all (bound_to c) production_guards)
                "common_binding"))

abbrev first_of_failed : List String → String
first_of_failed [] = ""
first_of_failed (name ∷ names) = name

blocked_reason : List String → String
blocked_reason failed =
    if contains failed "trusted_authority_provider"
    then "NO_TRUSTED_AUTHORITY_PROVIDER"
    else if contains failed "adapter_registered"
    then "NO_REGISTERED_PRODUCTION_ADAPTER"
    else "PRODUCTION_GUARD_BLOCKED/" +++ first_of_failed failed

decide_from : List String → ProductionDecision
unfolding blocked_reason
decide_from failed = record {
  status = status_of (is_empty failed);
  reason_code =
      if is_empty failed then "ALL_PRODUCTION_GUARDS_SUPPORTED" else blocked_reason failed;
  failed_guards = failed;
}

unfoldable pub evaluate_production_gate : GateInput → ProductionDecision
unfolding failed_guards_of decide_from
evaluate_production_gate (plain values) = record {
  status = "UNSUPPORTED";
  reason_code = "UNTRUSTED_PRODUCTION_GATE_CONTEXT";
  failed_guards = production_guards;
}
evaluate_production_gate (context c) = decide_from (failed_guards_of c)

-- The guards that have to hold, whatever the table of the module says.
abbrev pub guards_asked : List String
guards_asked =
    "local_platform" ∷ "adapter_registered" ∷ "exact_allowlist" ∷ "adapter_conformance"
    ∷ "trusted_authority_provider" ∷ "authority_receipt" ∷ "plan" ∷ "target" ∷ "principal"
    ∷ "rollback_readiness" ∷ "rollback_authority" ∷ "kill_switch" ∷ []

-- What the gate asks of a context.
pub record IsReady (c : ProductionGateContext) : Type 0 where
  pub guards_supported :
      (name : String) → contains guards_asked name ≡ true → get c.guards name ≡ some "SUPPORTED"
  pub graph_verified : c.receipt_graph_verified ≡ true
  pub policy_trusted : c.trusted_policy_source ≡ true
  pub digest_given : is_blank c.binding_digest ≡ false
  pub one_binding :
      (name : String)
      → contains guards_asked name ≡ true
      → (name == "local_platform" || name == "kill_switch") ≡ false
      → get c.guard_bindings name ≡ some c.binding_digest

-- The five parts of the gate, each as one test.
clear_test : ProductionGateContext → Bool
clear_test c =
    all (supported_in c.guards) production_guards
    && (c.receipt_graph_verified
        && (c.trusted_policy_source
            && (not (is_blank c.binding_digest) && all (bound_to c) production_guards)))

is_empty-flag : (b : Bool) (name : String) → is_empty (flag b name) ≡ b
is_empty-flag true name = refl
is_empty-flag false name = refl

is_empty-failed_guards_of :
    (c : ProductionGateContext) → is_empty (failed_guards_of c) ≡ clear_test c
unfolding failed_guards_of clear_test
is_empty-failed_guards_of c =
    rw is_empty-append
      (rw is_empty-append (rw is_empty-append (simp (is_empty-flag, is_empty-reject))))

bound_to_iff :
    (c : ProductionGateContext) (name : String)
    → (bound_to c name ≡ true) ↔ (
        (name == "local_platform" || name == "kill_switch") ≡ false
        → get c.guard_bindings name ≡ some c.binding_digest)
bound_to_iff c name =
    let test =
      or_iff (name == "local_platform" || name == "kill_switch")
        (found_is (get c.guard_bindings name) c.binding_digest) in
    let found = found_is_iff (get c.guard_bindings name) c.binding_digest in
    (λ h k. found.0 (test.0 h k), λ h. test.1 (λ k. found.1 (h k)))

clear_test_iff : (c : ProductionGateContext) → (clear_test c ≡ true) ↔ IsReady c
unfolding clear_test
clear_test_iff c = (
  λ h.
      let (supported, h₁) = and-true _ _ h in
      let (verified, h₂) = and-true _ _ h₁ in
      let (trusted, h₃) = and-true _ _ h₂ in
      let (given, bound) = and-true _ _ h₃ in
      record {
        guards_supported = (all_supported_iff c.guards production_guards).0 supported;
        graph_verified = verified;
        policy_trusted = trusted;
        digest_given = ground arith;
        one_binding = λ name m.
            (bound_to_iff c name).0 (all-contains (bound_to c) production_guards name bound m);
      },
  λ r. and-intro ((all_supported_iff c.guards production_guards).1 r.guards_supported) (
      and-intro r.graph_verified (
        and-intro r.policy_trusted (
          and-intro (rw r.digest_given) (
            all_of_contains (bound_to c) production_guards
              (λ name m. (bound_to_iff c name).1 (r.one_binding name m)))))),
)

context-injective : {c d : ProductionGateContext} → context c ≡ context d → c ≡ d
context-injective e = cc

-- The production gate answers SUPPORTED exactly when it is given a typed context, not a plain mapping,
-- in which every guard is SUPPORTED, the receipt graph is verified, the policy source is trusted, and a
-- non-empty digest is the one to which every guard but `local_platform` and `kill_switch` is bound.
pub production_gate_supported_iff :
    (input : GateInput)
    → ((evaluate_production_gate input).status ≡ "SUPPORTED")
      ↔ ((c : ProductionGateContext) × (input ≡ context c) × IsReady c)
unfolding evaluate_production_gate
production_gate_supported_iff (plain values) =
    (λ h. cc ((eq_iff "UNSUPPORTED" "SUPPORTED").1 h), λ (c, e, r). cc)
production_gate_supported_iff (context c) = (
  λ h.
      let clear = (status_of_iff (is_empty (failed_guards_of c))).0 h in
      (c, refl, (clear_test_iff c).0 (sym (is_empty-failed_guards_of c) ∙ clear)),
  λ (d, e, r). (status_of_iff (is_empty (failed_guards_of c))).1 (
      is_empty-failed_guards_of c
      ∙ (clear_test_iff c).1 (subst IsReady (sym (context-injective e)) r)),
)
