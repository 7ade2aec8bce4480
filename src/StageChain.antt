-- ===== src/StageChain.antt =====
-- taskguard/v3/chain.py: the stages of a risk chain, each bound to the one before it.
use bricek4_ligong_skills.Base.{
  arith, all-contains, ℕ, suc, ◌+◌, String, ◌≡◌, refl, sym, subst, Bool, true, false, not, ◌&&◌,
  ◌||◌, Option, none, some, List, [], ◌∷◌, ◌==◌, eq_iff, eq_refl, Outcome, ok, ◌>>◌, raise_if,
  >>=-eq-ok, raise_if-passed, ok-injective, Mapping, get, contains, all, eqb, if◌then◌else◌, Value,
  Items, Fields, null, bool, int, str, list, tuple, dict, nil, cons, end, field, ℤ, pos, negsuc,
  find_field,
}

-- Python's `==` on values: `True` equals 1, and the order of a dictionary does not count.
abbrev int_of : Bool → ℤ
int_of true = pos 1
int_of false = pos 0

abbrev int_eq : ℤ → ℤ → Bool
int_eq (pos m) (pos n) = eqb m n
int_eq (negsuc m) (negsuc n) = eqb m n
int_eq _ _ = false

abbrev size : Fields → ℕ
size end = 0
size (field k v fs) = suc (size fs)

unfoldable mutual
  pub value_eq : Value → Value → Bool
  value_eq null null = true
  value_eq (bool a) (bool b) = int_eq (int_of a) (int_of b)
  value_eq (bool a) (int n) = int_eq (int_of a) n
  value_eq (int m) (bool b) = int_eq m (int_of b)
  value_eq (int m) (int n) = int_eq m n
  value_eq (str s) (str t) = s == t
  value_eq (list vs) (list ws) = items_eq vs ws
  value_eq (tuple vs) (tuple ws) = items_eq vs ws
  value_eq (dict fs) (dict gs) = eqb (size fs) (size gs) && fields_in fs gs
  value_eq _ _ = false

  pub items_eq : Items → Items → Bool
  items_eq nil nil = true
  items_eq (cons v vs) (cons w ws) = value_eq v w && items_eq vs ws
  items_eq _ _ = false

  pub fields_in : Fields → Fields → Bool
  fields_in end gs = true
  fields_in (field k v fs) gs =
      elim (find_field gs k) [ none ↦ false | some w ↦ value_eq v w ] && fields_in fs gs

abbrev pub stages : List String
stages = "initial" ∷ "diff" ∷ "final" ∷ []

abbrev pub immutable_bindings : List String
immutable_bindings =
    "task_id" ∷ "action_id" ∷ "action_digest" ∷ "target_digest" ∷ "environment"
    ∷ "resource_scope_digest" ∷ "desired_state_digest" ∷ "preconditions_digest" ∷ "adapter_id"
    ∷ "adapter_version" ∷ "capability_digest" ∷ "authority_policy_digest" ∷ "plan_policy_digest"
    ∷ "rollback_policy_digest" ∷ "health_policy_digest" ∷ []

pub data ChainBindingMismatch : Type 0 where
  unknown_stage wrong_sequence unknown_previous skipped_stage binding_drift wrong_stage
        wrong_digest :
      ChainBindingMismatch

pub record ChainStage : Type 0 where
  pub version : String
  pub stage : String
  pub binding : Mapping Value
  pub previous_digest : Option String
  pub digest : String

-- `STAGES.index(stage)` of a known stage.
abbrev pub stage_index : String → ℕ
stage_index stage = if stage == "initial" then 0 else if stage == "diff" then 1 else 2

abbrev is_none : {A : Type 0} → Option A → Bool
is_none none = true
is_none (some a) = false

abbrev both_same : Option Value → Option Value → Bool
both_same (some v) (some w) = value_eq v w
both_same _ _ = false

-- Whether a field is in both bindings with equal values.
abbrev pub same_binding : Mapping Value → Mapping Value → String → Bool
same_binding earlier later name = both_same (get earlier name) (get later name)

abbrev pub bool_eq : Bool → Bool → Bool
bool_eq true b = b
bool_eq false b = not b

-- `STAGES.index` raises a `ValueError` for the stage of a previous value that is unknown. The loop over the
-- immutable bindings stops at the first that differs.
abbrev check_previous :
    String → Mapping Value → Option ChainStage → Outcome ChainBindingMismatch (Unit {0})
check_previous stage binding none = ok tt
check_previous stage binding (some p) = do
  raise_if (not (contains stages p.stage)) unknown_previous
  raise_if (not (eqb (stage_index p.stage + 1) (stage_index stage))) skipped_stage
  raise_if (not (all (same_binding p.binding binding) immutable_bindings)) binding_drift

abbrev pub digest_of : Option ChainStage → Option String
digest_of none = none
digest_of (some p) = some p.digest

-- `hash` is SHA-256 of the canonical JSON of the four fields; a binding is taken to be canonical JSON.
module _ (hash : String → String → Mapping Value → Option String → String) where
  abbrev pub stage_of : String → Mapping Value → Option String → ChainStage
  stage_of stage binding previous_digest = record {
    version = "risk-chain-v3";
    stage = stage;
    binding = binding;
    previous_digest = previous_digest;
    digest = hash "risk-chain-v3" stage binding previous_digest;
  }

  unfoldable pub commit_chain_stage :
      String → Mapping Value → Option ChainStage → Outcome ChainBindingMismatch ChainStage
  commit_chain_stage stage binding previous = do
    raise_if (not (contains stages stage)) unknown_stage
    raise_if (not (bool_eq (eqb (stage_index stage) 0) (is_none previous))) wrong_sequence
    check_previous stage binding previous
    ok (stage_of stage binding (digest_of previous))

  unfoldable pub require_chain_stage : ChainStage → String → Outcome ChainBindingMismatch (Unit {0})
  require_chain_stage value stage = do
    raise_if (not (value.version == "risk-chain-v3") || not (value.stage == stage)) wrong_stage
    raise_if
        (not (hash value.version value.stage value.binding value.previous_digest == value.digest))
        wrong_digest

accepted :
    (hash : String → String → Mapping Value → Option String → String) (stage : String)
    (binding : Mapping Value) (previous_digest : Option String)
    → require_chain_stage hash (stage_of hash stage binding previous_digest) stage ≡ ok tt
unfolding require_chain_stage raise_if
accepted hash stage binding previous_digest =
    rw (eq_refl stage, eq_refl (hash "risk-chain-v3" stage binding previous_digest)) refl

-- How a stage follows the one before it: it is the first, or the next one with the same immutable bindings.
abbrev pub Follows : Option ChainStage → ChainStage → Type 0
Follows none c = c.stage ≡ "initial"
Follows (some p) c =
    (stage_index c.stage ≡ stage_index p.stage + 1)
    × ((name : String)
        → contains immutable_bindings name ≡ true
        → same_binding p.binding c.binding name ≡ true)

not-false : (b : Bool) → not b ≡ false → b ≡ true
not-false true h = refl
not-false false h = sym h

is_initial :
    (stage : String)
    → contains stages stage ≡ true
    → eqb (stage_index stage) 0 ≡ true
    → stage ≡ "initial"
unfolding contains
is_initial stage h k =
    ground (arith, eq_iff stage "initial", eq_iff stage "diff", eq_iff stage "final")

raise_if-last : {E : Type 0} (b : Bool) (e : E) → raise_if b e ≡ ok tt → b ≡ false
unfolding raise_if
raise_if-last true e h = cc
raise_if-last false e h = refl

equal_numbers : (a b : ℕ) → eqb a b ≡ true → a ≡ b
equal_numbers a b h = ground arith

previous-Follows :
    (c : ChainStage) (previous : Option ChainStage)
    → contains stages c.stage ≡ true
    → bool_eq (eqb (stage_index c.stage) 0) (is_none previous) ≡ true
    → check_previous c.stage c.binding previous ≡ ok tt
    → Follows previous c
previous-Follows c none known sequence checked = is_initial c.stage known (ground arith)
previous-Follows c (some p) known sequence checked =
    let (found, rest) = raise_if-passed _ _ _ checked in
    let (next, last) = raise_if-passed _ _ _ rest in
    let agreed = not-false _ (raise_if-last _ _ last) in
    (
      sym (equal_numbers (stage_index p.stage + 1) (stage_index c.stage) (not-false _ next)),
      λ name member.
          all-contains (same_binding p.binding c.binding) immutable_bindings name agreed member,
    )

-- A stage that is committed is accepted as that stage, keeps the binding given and the digest of the previous
-- stage; without a previous stage it is the initial one, and with one it is the next in the order, and every
-- immutable binding is in both and equal.
pub commit-Follows :
    (hash : String → String → Mapping Value → Option String → String) (stage : String)
    (binding : Mapping Value) (previous : Option ChainStage) {c : ChainStage}
    → commit_chain_stage hash stage binding previous ≡ ok c
    → (require_chain_stage hash c stage ≡ ok tt)
      × (c.binding ≡ binding)
      × (c.previous_digest ≡ digest_of previous)
      × Follows previous c
unfolding commit_chain_stage
commit-Follows hash stage binding previous h =
    let (known, h₁) = raise_if-passed _ _ _ h in
    let (sequence, h₂) = raise_if-passed _ _ _ h₁ in
    let (u, checked, made) = >>=-eq-ok (check_previous stage binding previous) _ h₂ in
    let same = ok-injective made in
    subst
      (λ (c : ChainStage).
        (require_chain_stage hash c stage ≡ ok tt)
        × (c.binding ≡ binding)
        × (c.previous_digest ≡ digest_of previous)
        × Follows previous c)
      same
      (
        accepted hash stage binding (digest_of previous),
        refl,
        refl,
        previous-Follows (stage_of hash stage binding (digest_of previous)) previous
            (not-false _ known) (not-false _ sequence) checked,
      )
