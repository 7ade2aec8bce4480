-- ===== src/Adapters/Capabilities.antt =====
-- taskguard/v3/capabilities.py: the registry of adapters, and what an adapter must be able to do.
use Prim.Native.Char.{code}
use bricek4_ligong_skills.Base.{
  ℕ, zero, suc, String, ◌≡◌, refl, sym, subst, ◌∙◌, ◌↔◌, ◌≢◌, inl, inr, Option-cases, Bool, true,
  false, not, ◌&&◌, ◌||◌, Option, none, some, List, [], ◌∷◌, eq_iff, Outcome, ok, err, ◌>>◌,
  raise_if, Mapping, get, get_value, contains, all, map, reject, is_empty, is_empty-reject, leb,
  eqb, Value, is_true, status_of, status_of_iff, ◌+++◌, all-contains, all_of_contains,
}

-- `REQUIRED_MUTATION_CAPABILITIES`, sorted.
abbrev pub required_capabilities : List String
required_capabilities =
    "canonical_target" ∷ "effect_observation" ∷ "effect_reconciliation" ∷ "idempotency_key"
    ∷ "principal_identity" ∷ "revision_bound_health" ∷ "rollback_execution" ∷ "rollback_preparation"
    ∷ "side_effect_free_plan" ∷ []

-- `[A-Za-z0-9][A-Za-z0-9._/-]{2,127}`
abbrev is_alnum : ℕ → Bool
is_alnum c = (leb b'0' c && leb c b'9') || (leb b'A' c && leb c b'Z') || (leb b'a' c && leb c b'z')

abbrev is_tail : ℕ → Bool
is_tail c = is_alnum c || eqb c b'.' || eqb c b'_' || eqb c b'/' || eqb c b'-'

tail_between : ℕ → ℕ → String → Bool
tail_between zero n String.[] = true
tail_between (suc m) n String.[] = false
tail_between m zero (String.◌∷◌ c s) = false
tail_between zero (suc n) (String.◌∷◌ c s) = is_tail (code c) && tail_between zero n s
tail_between (suc m) (suc n) (String.◌∷◌ c s) = is_tail (code c) && tail_between m n s

unfoldable pub is_identifier : String → Bool
unfolding tail_between
is_identifier String.[] = false
is_identifier (String.◌∷◌ c s) = is_alnum (code c) && tail_between 2 127 s

pub data RegistryError : Type 0 where
  unstable_id unstable_version duplicate_adapter unknown_adapter : RegistryError

pub record CapabilityReport : Type 0 where
  pub verdict : String
  pub reasons : List String
  pub adapter_id : String
  pub adapter_version : Option String
  pub capabilities : Mapping Value

-- An adapter for the actions of type `A`; `capabilities` gives the manifest, or `none` where it raises.
pub record ActionAdapter (A : Type 0) : Type 0 where
  pub adapter_id : String
  pub adapter_version : String
  pub capabilities : A → Option (Mapping Value)

abbrev pub holds_capability : Mapping Value → String → Bool
holds_capability manifest name = is_true (get_value manifest name)

missing_of : Mapping Value → List String
missing_of manifest =
    map (λ name. "MISSING_CAPABILITY/" +++ name)
      (reject (holds_capability manifest) required_capabilities)

report_on : String → String → Option (Mapping Value) → CapabilityReport
report_on name version none = record {
  verdict = "UNSUPPORTED";
  reasons = "CAPABILITY_REPORT_INVALID" ∷ [];
  adapter_id = name;
  adapter_version = some version;
  capabilities = [];
}
report_on name version (some manifest) = record {
  verdict = status_of (is_empty (missing_of manifest));
  reasons = missing_of manifest;
  adapter_id = name;
  adapter_version = some version;
  capabilities = manifest;
}

module _ {A : Type 0} where
  abbrev is_taken : Option (ActionAdapter A) → Bool
  is_taken none = false
  is_taken (some a) = true

  -- The loop of `AdapterRegistry.__init__`.
  unfoldable pub register_adapters :
      List (ActionAdapter A)
      → Mapping (ActionAdapter A)
      → Outcome RegistryError (Mapping (ActionAdapter A))
  register_adapters [] values = ok values
  register_adapters (a ∷ rest) values = do
    raise_if (not (is_identifier a.adapter_id)) unstable_id
    raise_if (not (is_identifier a.adapter_version)) unstable_version
    raise_if (is_taken (get values a.adapter_id)) duplicate_adapter
    register_adapters rest ((a.adapter_id, a) ∷ values)

  abbrev required_adapter : Option (ActionAdapter A) → Outcome RegistryError (ActionAdapter A)
  required_adapter none = err unknown_adapter
  required_adapter (some a) = ok a

  unfoldable pub require :
      Mapping (ActionAdapter A) → String → Outcome RegistryError (ActionAdapter A)
  require registry adapter_id = required_adapter (get registry adapter_id)

  report_for : String → Option (ActionAdapter A) → A → CapabilityReport
  report_for name none action = record {
    verdict = "UNSUPPORTED";
    reasons = "ADAPTER_NOT_REGISTERED" ∷ [];
    adapter_id = name;
    adapter_version = none;
    capabilities = [];
  }
  report_for name (some a) action = report_on name a.adapter_version (a.capabilities action)

  -- `evaluate_action_capabilities`, where `name` is the adapter that the action names.
  unfoldable pub evaluate_action_capabilities :
      String → A → Mapping (ActionAdapter A) → CapabilityReport
  unfolding report_for report_on missing_of
  evaluate_action_capabilities name action registry = report_for name (get registry name) action

is_empty-map : (f : String → String) (xs : List String) → is_empty (map f xs) ≡ is_empty xs
is_empty-map f [] = refl
is_empty-map f (x ∷ xs) = refl

is_empty-missing_of :
    (manifest : Mapping Value)
    → is_empty (missing_of manifest) ≡ all (holds_capability manifest) required_capabilities
unfolding missing_of
is_empty-missing_of manifest =
    is_empty-map (λ name. "MISSING_CAPABILITY/" +++ name)
      (reject (holds_capability manifest) required_capabilities)
    ∙ is_empty-reject (holds_capability manifest) required_capabilities

-- A manifest that holds every required capability.
abbrev pub IsCapable : Option (Mapping Value) → Type 0
IsCapable o =
    (manifest : Mapping Value) × (o ≡ some manifest)
    × ((name : String)
        → contains required_capabilities name ≡ true
        → holds_capability manifest name ≡ true)

unsupported≢supported : ◌≢◌ {A = String} "UNSUPPORTED" "SUPPORTED"
unsupported≢supported h = cc ((eq_iff "UNSUPPORTED" "SUPPORTED").1 h)

some-injective : {A : Type 0} {a b : A} → some a ≡ some b → a ≡ b
some-injective h = cc

report_on_iff :
    (name version : String) (o : Option (Mapping Value))
    → ((report_on name version o).verdict ≡ "SUPPORTED") ↔ IsCapable o
unfolding report_on
report_on_iff name version none = (λ h. absurd (unsupported≢supported h), λ (m, e, every). cc)
report_on_iff name version (some manifest) = (
  λ h.
      let clear =
        sym (is_empty-missing_of manifest) ∙ (status_of_iff (is_empty (missing_of manifest))).0 h in
      (
        manifest,
        refl,
        λ a member. all-contains (holds_capability manifest) required_capabilities a clear member,
      ),
  λ (m, e, every). (status_of_iff (is_empty (missing_of manifest))).1 (
      is_empty-missing_of manifest
      ∙ all_of_contains (holds_capability manifest) required_capabilities (
          subst
            (λ (x : Mapping Value).
              (a : String) → contains required_capabilities a ≡ true → holds_capability x a ≡ true)
            (sym (some-injective e)) every)),
)

-- An action is SUPPORTED exactly when the adapter that it names is registered and reports, for this action, that
-- it has every required capability; a report that raises, a missing capability and one that is not the Boolean
-- `True` all make it UNSUPPORTED.
pub capabilities_supported_iff :
    {A : Type 0} (name : String) (action : A) (registry : Mapping (ActionAdapter A))
    → ((evaluate_action_capabilities name action registry).verdict ≡ "SUPPORTED")
      ↔ ((a : ActionAdapter A) × (get registry name ≡ some a) × IsCapable (a.capabilities action))
unfolding evaluate_action_capabilities
capabilities_supported_iff {A} name action registry = (
  λ h. elim (Option-cases (get registry name)) [
    | inl missing ↦ absurd (unsupported≢supported (rw missing at h))
    | inr (a, found) ↦
        (a, found, (report_on_iff name a.adapter_version (a.capabilities action)).0 (rw found at h))
  ],
  λ (a, found, capable).
      rw found ((report_on_iff name a.adapter_version (a.capabilities action)).1 capable),
)
