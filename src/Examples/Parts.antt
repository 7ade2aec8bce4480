-- ===== src/Examples/Parts.antt =====
-- Instances for verdicts, the stage chain, adapters, the router and the host report.
use bricek4_ligong_skills.Base.{
  ℕ, ◌≡◌, refl, ◌↔◌, ◌⊎◌, String, Bool, true, false, Option, none, some, List, [], ◌∷◌, ok, Mapping,
  Value, field, end, str, bool, int, dict, pos, contains, all, get, get_value, is_true, raise_if,
  starts_with,
}
use bricek4_ligong_skills.Gates.Sandbox.{SandboxPolicy, validate_sandbox_target}
use bricek4_ligong_skills.Gates.Sandbox.Supported.{IsInSandbox, sandbox_supported_iff}
use bricek4_ligong_skills.StageChain
use bricek4_ligong_skills.Adapters.Registry
use bricek4_ligong_skills.Adapters.Capabilities
use bricek4_ligong_skills.Adapters.Conformance
use bricek4_ligong_skills.Adapters.Conformance.Supported.{IsConforming, conformance_supported_iff}
use bricek4_ligong_skills.Router
use bricek4_ligong_skills.Router.Agreement.{resolve-Agrees}
use bricek4_ligong_skills.Host

abbrev sandbox : SandboxPolicy
sandbox = record {
  endpoint = "https://sandbox.test";
  provider = "cloud";
  account_id = "a1";
  project_id = "p1";
  tenant_id = "t1";
  region = "eu";
  resource_prefixes = "demo-" ∷ [];
}

abbrev target : Mapping String
target =
    ("environment", "sandbox")
    ∷ ("endpoint", "https://sandbox.test")
    ∷ ("provider", "cloud")
    ∷ ("account_id", "a1")
    ∷ ("project_id", "p1")
    ∷ ("tenant_id", "t1")
    ∷ ("region", "eu")
    ∷ ("resource_id", "demo-7")
    ∷ []

sandbox_supported_example :
    ((validate_sandbox_target target sandbox).status ≡ "SUPPORTED") ↔ IsInSandbox target sandbox
sandbox_supported_example = sandbox_supported_iff target sandbox

abbrev with_text : List String → Mapping Value
with_text [] = []
with_text (name ∷ names) = (name, str "x") ∷ with_text names

abbrev chain_binding : Mapping Value
chain_binding = with_text StageChain.immutable_bindings

abbrev constant_hash : String → String → Mapping Value → Option String → String
constant_hash version stage binding previous = "digest"

abbrev initial_stage : StageChain.ChainStage
initial_stage = StageChain.stage_of constant_hash "initial" chain_binding none

abbrev diff_stage : StageChain.ChainStage
diff_stage = StageChain.stage_of constant_hash "diff" chain_binding (some "digest")

diff_run :
    StageChain.commit_chain_stage constant_hash "diff" chain_binding (some initial_stage)
    ≡ ok diff_stage
unfolding StageChain.commit_chain_stage raise_if contains get StageChain.value_eq
diff_run = refl

commit-Follows_example :
    (StageChain.require_chain_stage constant_hash diff_stage "diff" ≡ ok tt)
    × (diff_stage.binding ≡ chain_binding)
    × (diff_stage.previous_digest ≡ StageChain.digest_of (some initial_stage))
    × StageChain.Follows (some initial_stage) diff_stage
commit-Follows_example =
    StageChain.commit-Follows constant_hash "diff" chain_binding (some initial_stage) diff_run

abbrev registration : Registry.AdapterRegistration
registration = record {
  adapter_id = "deploy-adapter";
  adapter_version = "1.0";
  supported_actions = "deploy" ∷ [];
  allowed_environments = "sandbox" ∷ [];
  factory = λ context. record { adapter_id = some "deploy-adapter"; adapter_version = some "1.0" };
  production_enabled = false;
}

abbrev registry : Registry.Registry
registry = ("deploy-adapter", registration) ∷ []

registry_run : Registry.new_registry (registration ∷ []) false ≡ ok registry
unfolding Registry.new_registry Registry.register_all raise_if get
registry_run = refl

resolve_exactly_example :
    ((Registry.resolve registry "deploy-adapter" "deploy" "sandbox" ≡ some registration) ↔ (
      (get registry "deploy-adapter" ≡ some registration)
      × (Registry.serves registration "deploy" "sandbox" ≡ true)))
    × (Registry.resolve registry "deploy-adapter" "deploy" "sandbox" ≡ some registration
        → (◌≡◌ {A = String} registration.adapter_id "deploy-adapter")
          × (◌≡◌ {A = String} "sandbox" "production" → ◌≡◌ {A = Bool} false true))
resolve_exactly_example =
    Registry.resolve_exactly (registration ∷ []) false registry_run "deploy-adapter" "deploy"
      "sandbox" registration

abbrev with_flag : List String → Mapping Value
with_flag [] = []
with_flag (name ∷ names) = (name, bool true) ∷ with_flag names

abbrev able_adapter : Capabilities.ActionAdapter String
able_adapter = record {
  adapter_id = "deploy-adapter";
  adapter_version = "1.0";
  capabilities = λ action. some (with_flag Capabilities.required_capabilities);
}

abbrev adapters : Mapping (Capabilities.ActionAdapter String)
adapters = ("deploy-adapter", able_adapter) ∷ []

abbrev identity : Conformance.Identity
identity = record { adapter_id = "deploy-adapter"; adapter_version = "1.0" }

abbrev subject : Conformance.Subject
subject = record {
  adapter_id = "deploy-adapter";
  adapter_version = "1.0";
  identity = some identity;
  capabilities = some (with_flag Capabilities.required_capabilities);
}

abbrev with_pass : List String → Mapping Bool
with_pass [] = []
with_pass (name ∷ names) = (name, true) ∷ with_pass names

abbrev harness : Option Conformance.ConformanceEvidence
harness =
    some (record { case_results = with_pass Conformance.required_cases; trusted_harness = true })

conformance_supported_example :
    ((Conformance.run_conformance
        (λ i kind environment passed failed. "digest")
        subject
        "deploy"
        harness
        "sandbox").status
      ≡ "SUPPORTED")
    ↔ IsConforming subject harness
conformance_supported_example =
    conformance_supported_iff (λ i kind environment passed failed. "digest") subject "deploy"
      harness "sandbox"

abbrev contract_value : Value
contract_value = dict (field "version" (int (pos 3)) end)

abbrev task_value : Value
task_value = dict (field "protocol_version" (int (pos 3)) (field "task_id" (str "task-1") end))

plan_route : Router.resolve_protocol "plan" (some (ok contract_value)) (some (ok task_value)) ≡ ok 3
unfolding Router.resolve_protocol Router.protocol_from_contract Router.protocol_from_task_manifest
    contains
plan_route = refl

resolve-Agrees_example :
    ((raw : Value)
      → ◌≡◌ {A = Router.Loaded} (some (ok contract_value)) (some (ok raw))
      → Router.protocol_from_contract raw ≡ ok 3)
    × ((raw : Value)
        → Router.state_read "plan" (some (ok task_value)) ≡ some (ok raw)
        → Router.protocol_from_task_manifest raw ≡ ok 3)
    × (◌≡◌ {A = Router.Loaded} (some (ok contract_value)) none
        → Router.state_read "plan" (some (ok task_value)) ≡ none
        → ((contains Router.v3_only_commands "plan" ≡ true) × (◌≡◌ {A = ℕ} 3 3))
          ⊎ ((contains Router.stateless_commands "plan" ≡ true)
              × (◌≡◌ {A = Router.Loaded} (some (ok task_value)) none)
              × (◌≡◌ {A = ℕ} 3 2)))
resolve-Agrees_example =
    resolve-Agrees "plan" (some (ok contract_value)) (some (ok task_value)) plan_route

abbrev host_facts : Mapping Value
host_facts = with_flag Host.capability_order

abbrev host_report : Host.HostReport
host_report = record {
  platform = "linux";
  python = "3.12";
  capabilities = Host.capability_of "linux" host_facts;
  missing = [];
  taskguard_supported = true;
}

host_run : Host.evaluate_capabilities "linux" host_facts "3.12" ≡ ok host_report
unfolding Host.evaluate_capabilities raise_if get_value starts_with
host_run = refl

evaluated_valid_example :
    (Host.validate_capability_report (Host.to_dict host_report) ≡ ok (Host.to_dict host_report))
    × ((host_report.taskguard_supported ≡ true) ↔ (
        (all (λ name. is_true (get_value host_facts name)) Host.capability_order ≡ true)
        × (Host.is_supported_platform "linux" ≡ true)))
evaluated_valid_example = Host.evaluated_valid "linux" host_facts "3.12" host_run
