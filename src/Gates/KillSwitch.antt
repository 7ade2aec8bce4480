-- ===== src/Gates/KillSwitch.antt =====
-- taskguard/v3/kill_switch.py: the managed kill switch, which leaves recovery open.
use bricek4_ligong_skills.Base.{
  String, ◌≡◌, ◌↔◌, ◌⊎◌, Bool, true, false, not, ◌&&◌, ◌||◌, Option, none, some, List, [], ◌∷◌,
  arith, eq_iff, Outcome, ok, Mapping, get, found_is, contains, is_blank, ℤ, pos, ltb_ℤ, raise_if,
  ◌>>◌, if◌then◌else◌,
}

abbrev pub recovery_operations : List String
recovery_operations = "reconcile" ∷ "rollback" ∷ "status" ∷ "export" ∷ []

pub record KillSwitchDecision : Type 0 where
  pub status : String
  pub reason : String

pub record KillSwitchPolicy : Type 0 where
  pub revision : ℤ
  pub managed_owner : String
  pub closed : Bool
  pub adapter_id : Option String
  pub action_kind : Option String
  pub environment : Option String
  pub target_digest : Option String

pub data ValueError : Type 0 where
  bad_policy : ValueError

-- `__post_init__`: the policy, or the error of its constructor.
pub new_policy : KillSwitchPolicy → Outcome ValueError KillSwitchPolicy
new_policy p = do raise_if (ltb_ℤ p.revision (pos 1) || is_blank p.managed_owner) bad_policy; ok p

-- `expected is None or binding.get(name) == expected`
abbrev pub in_scope : Option String → Option String → Bool
in_scope none v = true
in_scope (some e) v = found_is v e

unfoldable pub scoped : KillSwitchPolicy → Mapping String → Bool
scoped p binding =
    in_scope p.adapter_id (get binding "adapter_id")
    && in_scope p.action_kind (get binding "action_kind")
    && in_scope p.environment (get binding "environment")
    && in_scope p.target_digest (get binding "canonical_target_digest")

unfoldable pub decide : KillSwitchPolicy → Mapping String → String → String → KillSwitchDecision
decide p binding lifecycle operation =
    if not p.closed || not (scoped p binding)
    then record { status = "SUPPORTED"; reason = "SWITCH_OPEN_OR_OUT_OF_SCOPE" }
    else if contains recovery_operations operation
    then record { status = "SUPPORTED"; reason = "RECOVERY_PRESERVED" }
    else record { status = "BLOCKED"; reason = "KILL_SWITCH_CLOSED" }

-- The switch blocks an operation exactly when it is closed, the binding meets every scope that the
-- policy names and the operation is none of reconcile, rollback, status and export; otherwise it
-- answers SUPPORTED. The lifecycle makes no difference.
pub decide_blocks_iff :
    (p : KillSwitchPolicy) (binding : Mapping String) (lifecycle operation : String)
    → ((decide p binding lifecycle operation).status ≡ "BLOCKED" ↔ (
        (p.closed ≡ true)
        × (scoped p binding ≡ true)
        × (contains recovery_operations operation ≡ false)))
      × (((decide p binding lifecycle operation).status ≡ "BLOCKED")
          ⊎ ((decide p binding lifecycle operation).status ≡ "SUPPORTED"))
unfolding decide
decide_blocks_iff p b l o =
    ((λ h. ground (arith, eq_iff "SUPPORTED" "BLOCKED"), λ h. ground arith), ground arith)
