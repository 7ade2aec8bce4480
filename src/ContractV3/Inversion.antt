-- ===== src/ContractV3/Inversion.antt =====
-- What holds of a whole action that `_parse_action` of taskguard/contracts/v3.py returned.
use bricek4_ligong_skills.Base.{
  ℕ, ◌≡◌, subst, String, true, ok, >>=-elim, ok-injective, Value, Fields, contains,
}
use bricek4_ligong_skills.Contract.{Label, member, lookup_field}
use bricek4_ligong_skills.ContractV3.{
  ActionTarget, AuthorityPolicy, RollbackPolicy, HealthPolicy, ActionSpec, action_fields,
  supported_action_kinds, supported_environments, text, json_object, exact,
}
use bricek4_ligong_skills.ContractV3.Actions.{
  parse_target, parse_authority, parse_plan, parse_rollback, parse_health, known_text, build_action,
  parse_action,
}
use bricek4_ligong_skills.ContractV3.Parsed.{
  IsText, IsPositive, IsTarget, IsHealth, IsAction, text-IsText, known_text-contains,
  parse_target-IsTarget, parse_authority-bounds, parse_plan-IsPositive, parse_rollback-required,
  parse_health-IsHealth,
}

-- The three objects of the action are those of the document, frozen.
abbrev pub AreFrozen : Fields → Label → ActionSpec → Type 0
AreFrozen raw label a =
    (json_object (lookup_field raw "resource_scope") (member label "resource_scope")
      ≡ ok a.resource_scope)
    × (json_object (lookup_field raw "desired_state") (member label "desired_state")
        ≡ ok a.desired_state)
    × (json_object (lookup_field raw "preconditions") (member label "preconditions")
        ≡ ok a.preconditions)

module _ (raw : Fields) (label : Label) (kind environment : String) (target : ActionTarget)
    (authority : AuthorityPolicy) (plan : ℕ) (rollback : RollbackPolicy)
    (health : HealthPolicy) where
  -- The last step keeps what the parts before it were found to be.
  build_action-IsAction :
      (a : ActionSpec)
      → IsText kind × (contains supported_action_kinds kind ≡ true)
      → IsText environment × (contains supported_environments environment ≡ true)
      → IsTarget target
      → IsText authority.provider × IsPositive authority.max_uses
      → IsPositive plan
      → rollback.required ≡ true
      → IsHealth health
      → build_action raw label kind environment target authority plan rollback health ≡ ok a
      → IsAction a × AreFrozen raw label a
  unfolding build_action
  build_action-IsAction a (is_kind, known_kind) (is_environment, known_environment) is_target
        (provider, uses) age required is_health h =
      >>=-elim (text (lookup_field raw "id") _) _ h λ id is_id h1.
        >>=-elim (text (lookup_field raw "adapter") _) _ h1 λ adapter is_adapter h2.
          >>=-elim (json_object (lookup_field raw "resource_scope") _) _ h2 λ scope is_scope h3.
            >>=-elim (json_object (lookup_field raw "desired_state") _) _ h3 λ state is_state h4.
              >>=-elim (json_object (lookup_field raw "preconditions") _) _ h4
                λ conditions is_conditions h5.
                  subst (λ q. IsAction q × AreFrozen raw label q) (ok-injective h5)
                    (
                      record {
                        id = text-IsText _ _ id is_id;
                        kind = is_kind;
                        known_kind = known_kind;
                        adapter = text-IsText _ _ adapter is_adapter;
                        target = is_target;
                        environment = is_environment;
                        known_environment = known_environment;
                        provider = provider;
                        uses = uses;
                        age = age;
                        rolls_back = required;
                        health = is_health;
                      },
                      (is_scope, is_state, is_conditions),
                    )

-- What an action says, and where its three objects come from.
pub parse_action-IsAction :
    (value : Value) (label : Label) (a : ActionSpec)
    → parse_action value label ≡ ok a
    → IsAction a
      × ((raw : Fields) × (exact value label action_fields ≡ ok raw) × AreFrozen raw label a)
unfolding parse_action
parse_action-IsAction value label a h =
    >>=-elim (exact value label action_fields) _ h λ raw is_raw h1.
      >>=-elim (known_text (lookup_field raw "kind") _ supported_action_kinds _) _ h1 λ k is_k h2.
        >>=-elim (known_text (lookup_field raw "environment") _ supported_environments _) _ h2
          λ e is_e h3. >>=-elim (parse_target (lookup_field raw "target") _) _ h3 λ t is_t h4.
            >>=-elim (parse_authority (lookup_field raw "authority_policy") _) _ h4 λ u is_u h5.
              >>=-elim (parse_plan (lookup_field raw "plan_policy") _) _ h5 λ p is_p h6.
                >>=-elim (parse_rollback (lookup_field raw "rollback_policy") _ k) _ h6 λ r is_r h7.
                  >>=-elim (parse_health (lookup_field raw "health_policy") _) _ h7 λ l is_l h8.
                    let kind = known_text-contains _ _ _ _ k is_k in
                    let (sound, frozen) =
                      build_action-IsAction raw label k e t u p r l a kind
                        (known_text-contains _ _ _ _ e is_e) (parse_target-IsTarget _ _ t is_t)
                        (parse_authority-bounds _ _ u is_u) (parse_plan-IsPositive _ _ p is_p)
                        (parse_rollback-required _ _ k r kind.1 is_r)
                        (parse_health-IsHealth _ _ l is_l) h8 in
                    (sound, (raw, is_raw, frozen))
