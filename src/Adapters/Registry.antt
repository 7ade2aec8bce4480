-- ===== src/Adapters/Registry.antt =====
-- taskguard/v3/adapter_registry.py: the closed registration of adapters.
use bricek4_ligong_skills.Base.{
  String, ◌≡◌, refl, sym, subst, ◌↔◌, inl, inr, Bool, true, false, not, ◌&&◌, ◌||◌, Option, none,
  some, List, [], ◌∷◌, ◌++◌, ◌==◌, eq_iff, arith, Outcome, ok, err, ◌>>◌, raise_if, raise_if-passed,
  ok-injective, Mapping, get, contains, any, is_empty, has_wildcard, is_blank, if◌then◌else◌,
  Bool-cases,
}

-- `factory` makes an adapter, of which the registry looks at the identifier and the version, where it has them.
pub record Adapter : Type 0 where
  pub adapter_id : Option String
  pub adapter_version : Option String

pub record AdapterContext : Type 0 where
  pub mode : String
  pub endpoint : Option String

pub record AdapterRegistration : Type 0 where
  pub adapter_id : String
  pub adapter_version : String
  pub supported_actions : List String
  pub allowed_environments : List String
  pub factory : AdapterContext → Adapter
  pub production_enabled : Bool

pub data RegistrationError : Type 0 where
  not_exact no_scope duplicate untrusted_production mismatched_identity : RegistrationError

abbrev is_inexact : String → Bool
is_inexact item = is_blank item || has_wildcard item

-- `AdapterRegistration.__post_init__`
pub new_registration : AdapterRegistration → Outcome RegistrationError AdapterRegistration
new_registration r = do
  raise_if
      (any is_inexact
        (r.adapter_id ∷ r.adapter_version ∷ (r.supported_actions ++ r.allowed_environments)))
      not_exact
  raise_if (is_empty r.supported_actions || is_empty r.allowed_environments) no_scope
  ok r

abbrev pub Registry : Type 0
Registry = Mapping AdapterRegistration

abbrev is_taken : Option AdapterRegistration → Bool
is_taken none = false
is_taken (some r) = true

-- The loop of `AdapterRegistrationRegistry.__init__`.
unfoldable pub register_all :
    Bool → List AdapterRegistration → Registry → Outcome RegistrationError Registry
register_all allow_production [] values = ok values
register_all allow_production (r ∷ rs) values = do
  raise_if (is_taken (get values r.adapter_id)) duplicate
  raise_if (r.production_enabled && not allow_production) untrusted_production
  register_all allow_production rs ((r.adapter_id, r) ∷ values)

unfoldable pub new_registry : List AdapterRegistration → Bool → Outcome RegistrationError Registry
new_registry registrations allow_production = register_all allow_production registrations []

abbrev pub serves : AdapterRegistration → String → String → Bool
serves r action_kind environment =
    contains r.supported_actions action_kind
    && (contains r.allowed_environments environment
        && (not (environment == "production") || r.production_enabled))

abbrev served : Option AdapterRegistration → String → String → Option AdapterRegistration
served none action_kind environment = none
served (some r) action_kind environment =
    if not (contains r.supported_actions action_kind)
      || not (contains r.allowed_environments environment)
    then none
    else if environment == "production" && not r.production_enabled
    then none
    else some r

unfoldable pub resolve : Registry → String → String → String → Option AdapterRegistration
resolve registry adapter_id action_kind environment =
    served (get registry adapter_id) action_kind environment

abbrev is_exactly : Option String → String → Bool
is_exactly none text = false
is_exactly (some s) text = s == text

abbrev made_by : AdapterRegistration → Adapter → Outcome RegistrationError (Option Adapter)
made_by r a =
    if not (is_exactly a.adapter_id r.adapter_id)
      || not (is_exactly a.adapter_version r.adapter_version)
    then err mismatched_identity
    else ok (some a)

abbrev made :
    Option AdapterRegistration → AdapterContext → Outcome RegistrationError (Option Adapter)
made none context = ok none
made (some r) context = made_by r (r.factory context)

unfoldable pub instantiate :
    Registry
    → String
    → String
    → String
    → AdapterContext
    → Outcome RegistrationError (Option Adapter)
unfolding resolve
instantiate registry adapter_id action_kind environment context =
    made (resolve registry adapter_id action_kind environment) context

-- A registered adapter stands under its own identifier, and is enabled for production only where that is allowed.
abbrev IsSafe : Bool → Registry → Type 0
IsSafe allow_production values =
    (k : String) (r : AdapterRegistration)
    → get values k ≡ some r
    → (r.adapter_id ≡ k) × (r.production_enabled ≡ true → allow_production ≡ true)

some-injective : {A : Type 0} {a b : A} → some a ≡ some b → a ≡ b
some-injective h = cc

added-IsSafe :
    (allow : Bool) (r : AdapterRegistration) (values : Registry)
    → (r.production_enabled && not allow) ≡ false
    → IsSafe allow values
    → IsSafe allow ((r.adapter_id, r) ∷ values)
unfolding get
added-IsSafe allow r values trusted safe k q h = elim (Bool-cases (r.adapter_id == k)) [
  | inl same ↦
      let found : r ≡ q = some-injective (rw same at h) in
      subst
        (λ (x : AdapterRegistration).
          (x.adapter_id ≡ k) × (x.production_enabled ≡ true → allow ≡ true))
        found ((eq_iff r.adapter_id k).0 same, λ enabled. ground arith)
  | inr other ↦ safe k q (rw other at h)
]

register_all-IsSafe :
    (allow : Bool) (rs : List AdapterRegistration) (values : Registry) {registry : Registry}
    → register_all allow rs values ≡ ok registry
    → IsSafe allow values
    → IsSafe allow registry
unfolding register_all
register_all-IsSafe allow [] values h safe = subst (IsSafe allow) (ok-injective h) safe
register_all-IsSafe allow (r ∷ rs) values h safe =
    let (free, h₁) = raise_if-passed _ _ _ h in
    let (trusted, h₂) = raise_if-passed _ _ _ h₁ in
    register_all-IsSafe allow rs ((r.adapter_id, r) ∷ values) h₂
      (added-IsSafe allow r values trusted safe)

nothing_registered : {allow : Bool} → IsSafe allow []
unfolding get
nothing_registered k r h = cc

served_test :
    {A : Type 0} (a b production enabled : Bool) (q r : A)
    → ((if not a || not b then none else if production && not enabled then none else some q)
        ≡ some r)
      ↔ ((some q ≡ some r) × ((a && (b && (not production || enabled))) ≡ true))
served_test true true true true q r = (λ h. (h, refl), λ h. h.0)
served_test true true true false q r = (λ h. cc, λ h. cc)
served_test true true false enabled q r = (λ h. (h, refl), λ h. h.0)
served_test true false production enabled q r = (λ h. cc, λ h. cc)
served_test false b production enabled q r = (λ h. cc, λ h. cc)

served_iff :
    (found : Option AdapterRegistration) (action_kind environment : String)
    (r : AdapterRegistration)
    → (served found action_kind environment ≡ some r)
      ↔ ((found ≡ some r) × (serves r action_kind environment ≡ true))
served_iff none action_kind environment r = (λ h. cc, λ h. cc)
served_iff (some q) action_kind environment r =
    let test =
      served_test (contains q.supported_actions action_kind)
        (contains q.allowed_environments environment) (environment == "production")
        q.production_enabled q r in
    (
      λ h.
          let (same, serving) = test.0 h in
          (
            same,
            subst (λ x. serves x action_kind environment ≡ true) (some-injective same) serving,
          ),
      λ h. test.1 (
        h.0,
        subst (λ x. serves x action_kind environment ≡ true) (sym (some-injective h.0)) h.1,
      ),
    )

-- In a registry that its constructor made, a request resolves to a registration exactly when that stands under
-- the identifier and lists the action and the environment, and is enabled if the environment is production. What
-- is resolved has the identifier asked for, and none is resolved for production unless the registry allows it.
pub resolve_exactly :
    (registrations : List AdapterRegistration) (allow_production : Bool) {registry : Registry}
    → new_registry registrations allow_production ≡ ok registry
    → (adapter_id action_kind environment : String) (r : AdapterRegistration)
    → ((resolve registry adapter_id action_kind environment ≡ some r)
        ↔ ((get registry adapter_id ≡ some r) × (serves r action_kind environment ≡ true)))
      × (resolve registry adapter_id action_kind environment ≡ some r
          → (r.adapter_id ≡ adapter_id) × (environment ≡ "production" → allow_production ≡ true))
unfolding new_registry resolve
resolve_exactly registrations allow {registry} h adapter_id action_kind environment r =
    let safe : IsSafe allow registry =
      register_all-IsSafe allow registrations [] h nothing_registered in
    let exact = served_iff (get registry adapter_id) action_kind environment r in
    (
      exact,
      λ k.
          let (found, serving) = exact.0 k in
          let (named, trusted) = safe adapter_id r found in
          (
            named,
            λ production. trusted (ground (arith, (eq_iff environment "production").1 production)),
          ),
    )
