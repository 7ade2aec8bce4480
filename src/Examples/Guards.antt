-- ===== src/Examples/Guards.antt =====
-- Instances of the gates (taskguard/v3).
use bricek4_ligong_skills.Base.{
  ◌≡◌, refl, ◌≤◌, ◌↔◌, String, true, false, some, List, [], ◌∷◌, Mapping, get, get_value, contains,
  Value, cons, nil, tuple, str, int, bool, pos, any, select, length, is_hashable, ok, raise_if,
}
use bricek4_ligong_skills.Gates.Terminal.{required_dimensions}
use bricek4_ligong_skills.Gates.Production.{
  production_guards, ProductionGateContext, IsReady, context, evaluate_production_gate,
  production_gate_supported_iff,
}
use bricek4_ligong_skills.Gates.Release
use bricek4_ligong_skills.Gates.Release.Admissible
use bricek4_ligong_skills.Gates.Release.Order
use bricek4_ligong_skills.Gates.Policy
use bricek4_ligong_skills.Gates.Policy.Unique
use bricek4_ligong_skills.Gates.Health
use bricek4_ligong_skills.Gates.Health.Window

abbrev with_status : String → List String → Mapping String
with_status status [] = []
with_status status (name ∷ names) = (name, status) ∷ with_status status names

abbrev dimensions : Mapping String
dimensions = with_status "SUPPORTED" required_dimensions

abbrev production_context : ProductionGateContext
production_context = record {
  guards = with_status "SUPPORTED" production_guards;
  binding_digest = "binding-1";
  guard_bindings = with_status "binding-1" production_guards;
  receipt_graph_verified = true;
  trusted_policy_source = true;
}

production_gate_supported_example :
    ((evaluate_production_gate (context production_context)).status ≡ "SUPPORTED")
    ↔ ((c : ProductionGateContext) × (context production_context ≡ context c) × IsReady c)
production_gate_supported_example = production_gate_supported_iff (context production_context)

-- Evidence for the mode CANARY.
abbrev release_values : Mapping Value
release_values =
    ("trusted_evidence_root", str "SUPPORTED")
    ∷ ("receipt_graph", str "SUPPORTED")
    ∷ ("core", str "SUPPORTED")
    ∷ ("shadow", str "SUPPORTED")
    ∷ ("sandbox_conformance", str "SUPPORTED")
    ∷ ("sandbox_target", str "SUPPORTED")
    ∷ ("allowlist", str "SUPPORTED")
    ∷ ("kill_switch", str "SUPPORTED")
    ∷ ("requested_action_count", int (pos 1))
    ∷ ("action_kind", str "deploy")
    ∷ ("rollback_required", bool true)
    ∷ []

abbrev release_evidence : Release.EvidenceInput
release_evidence = Release.evidence (record {
  values = release_values;
  trusted_root_digest = "root-1";
  receipt_graph_verified = true;
  trusted_source = true;
})

abbrev canary_report : Release.ReleaseGateReport
canary_report = record {
  mode = "CANARY";
  status = "SUPPORTED";
  ready_for_production = false;
  requested_action_count = pos 1;
  action_kind = "deploy";
  rollback_required = true;
  reasons = [];
}

canary_run : Release.evaluate_release_gates release_evidence "CANARY" ≡ ok canary_report
unfolding Release.evaluate_release_gates Release.mode_requirements is_hashable get get_value
    contains
canary_run = refl

release_gate_supported_example :
    (requirements : List String) × (Release.mode_requirements "CANARY" ≡ some requirements)
    × ((canary_report.status ≡ "SUPPORTED") ↔ Admissible.IsAdmissible release_evidence requirements)
    × ((canary_report.ready_for_production ≡ true)
        ↔ (◌≡◌ {A = String} "CANARY" "PRODUCTION" × (canary_report.status ≡ "SUPPORTED")))
release_gate_supported_example =
    Admissible.release_gate_supported_iff release_evidence "CANARY" canary_run

release_gates_ordered_example :
    (r : Release.ReleaseGateReport) × (Release.evaluate_release_gates release_evidence "SHADOW"
      ≡ ok r)
    × (r.status ≡ "SUPPORTED")
unfolding contains
release_gates_ordered_example =
    Order.release_gates_ordered release_evidence "CANARY" "SHADOW" canary_run refl refl

abbrev rule : Policy.ReleaseRule
rule = record {
  adapter_id = "deploy-adapter";
  adapter_version = "1.0";
  action_kind = "deploy";
  environment = "SANDBOX";
  canonical_target_digest = "0000000000000000000000000000000000000000000000000000000000000001";
  authority_provider_id = "authority";
  authority_provider_version = "2";
  conformance_receipt_digest = "0000000000000000000000000000000000000000000000000000000000000002";
  receipt_schema_versions = "1" ∷ [];
  mode = "CANARY";
  enabled = true;
}

abbrev policy : Policy.ReleasePolicy
policy = record {
  rules = rule ∷ [];
  revision = pos 1;
  managed_owner = "owner";
  trusted_source = true;
}

policy_made : Policy.new_policy policy ≡ ok policy
unfolding Policy.new_policy Policy.are_distinct raise_if
policy_made = refl

abbrev policy_binding : Mapping Value
policy_binding =
    ("adapter_id", str "deploy-adapter")
    ∷ ("adapter_version", str "1.0")
    ∷ ("action_kind", str "deploy")
    ∷ ("environment", str "SANDBOX")
    ∷ ("canonical_target_digest", str rule.canonical_target_digest)
    ∷ ("authority_provider_id", str "authority")
    ∷ ("authority_provider_version", str "2")
    ∷ ("conformance_receipt_digest", str rule.conformance_receipt_digest)
    ∷ ("receipt_schema_versions", tuple (cons (str "1") nil))
    ∷ []

authorize_mode_example :
    (((Policy.authorize_mode policy policy_binding "CANARY").status ≡ "SUPPORTED") ↔ (
      (policy.trusted_source ≡ true)
      × (any (Policy.matches policy_binding "CANARY") policy.rules ≡ true)))
    × (length (select (Policy.matches policy_binding "CANARY") policy.rules) ≤ 1)
authorize_mode_example = Unique.authorize_mode_exact policy policy_made policy_binding "CANARY"

abbrev samples : List Health.HealthSample
samples =
    record { effect_revision = "r1"; tick = pos 0; signals = ("latency", bool true) ∷ [] }
    ∷ record { effect_revision = "r1"; tick = pos 60; signals = ("latency", bool true) ∷ [] }
    ∷ []

health_verdict_example :
    ((Health.evaluate_health_window samples "r1" ("latency" ∷ []) (pos 2) (pos 60)).verdict
        ≡ "SUPPORTED"
      ↔ (Window.IsPassing ("latency" ∷ []) samples × Window.IsWindow samples "r1" (pos 2) (pos 60)))
    × ((Health.evaluate_health_window samples "r1" ("latency" ∷ []) (pos 2) (pos 60)).verdict
          ≡ "FAILED"
        ↔ (¬ Window.IsPassing ("latency" ∷ []) samples))
    × ((Health.evaluate_health_window samples "r1" ("latency" ∷ []) (pos 2) (pos 60)).verdict
          ≡ "STALE"
        ↔ (Window.IsPassing ("latency" ∷ []) samples
            × (¬ Window.IsWindow samples "r1" (pos 2) (pos 60))))
health_verdict_example = Window.health_verdict_exact samples "r1" ("latency" ∷ []) (pos 2) (pos 60)
