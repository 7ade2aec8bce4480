-- ===== src/Examples/Effects.antt =====
-- Instances of the saga (taskguard/v3/saga.py): one action over a store of three receipts.
use bricek4_ligong_skills.Base.{
  ◌≡◌, refl, ◌⊎◌, String, true, Option, none, some, [], ◌∷◌, ok, err, Mapping, Value, str, pos,
  contains, raise_if, get, get_value, has_nul, is_sha256, ◌-ℤ◌,
}
use bricek4_ligong_skills.Receipts.{ReceiptRef, Receipt, receipt_version}
use bricek4_ligong_skills.Receipts
use bricek4_ligong_skills.Saga
use bricek4_ligong_skills.Store.Graph
use bricek4_ligong_skills.Store.{file, load, put}
use bricek4_ligong_skills.Gates.KillSwitch.{KillSwitchPolicy, scoped}
use bricek4_ligong_skills.Saga.{
  Services, World, SagaError, binding_error, Call, consumed, wrote, applied, Answer, response,
  raised, release_check, request_of,
}
use bricek4_ligong_skills.Saga.Quiet.{IsQuiet}
use bricek4_ligong_skills.Saga.Recovery.{is_applied, only_apply_applies}
use bricek4_ligong_skills.Saga.Effects.{Refused, IsApplied, IsGuarded, after_consumption}
use bricek4_ligong_skills.Saga.Safety.{apply-IsGuarded}
use bricek4_ligong_skills.Saga.Confirmed.{closed_switch_stops}
use bricek4_ligong_skills.Saga.Apply.{apply, apply_intended, prepare_rollback, reconcile}
use bricek4_ligong_skills.Saga.Rollback.{rollback, rollback_binding}
use bricek4_ligong_skills.Saga.RolledBack.{IsRolledBack, rollback-IsRolledBack}
use bricek4_ligong_skills.Saga.{rolled_back}
use bricek4_ligong_skills.Examples.Release.{
  plan_ref, authority_ref, readiness_ref, intent_ref, effect_ref, rollback_intent_ref, rollback_ref,
  rollback_intent_binding, services, start, done,
}

applied_run :
    apply
      (services none)
      "task-1"
      "action-1"
      plan_ref
      authority_ref
      readiness_ref
      "target-1"
      300
      none
      "ROLLBACK_READY"
      start
    ≡ (ok (intent_ref, effect_ref), done)
unfolding apply Saga.◌>>=◌ release_check Saga.pure Saga.check_graph Graph.verify_graph
    Graph.verify_from Graph.visit_all Graph.visit contains raise_if load get
    Saga.require_apply_bindings Saga.load_receipt Saga.refuse get_value Saga.now has_nul is_sha256
    ◌-ℤ◌ Receipts.are_sorted Receipts.are_unique Receipts.freeze_json Receipts.freeze_mapping
    Receipts.insert_ref Receipts.new_receipt Receipts.new_ref Receipts.sort_refs apply_intended
    Saga.consume_authority Saga.raise Saga.write_receipt put
applied_run = refl

apply-IsGuarded_example :
    Refused (services none) {A = ReceiptRef × ReceiptRef} start (ok (intent_ref, effect_ref)) done
    ⊎ (IsGuarded
          (services none)
          "task-1"
          "action-1"
          plan_ref
          authority_ref
          readiness_ref
          "target-1"
          300
          none
          "ROLLBACK_READY"
          start
        × IsApplied
            (services none)
            "task-1"
            "action-1"
            plan_ref
            authority_ref
            readiness_ref
            "target-1"
            (after_consumption
              (services none)
              "task-1"
              "action-1"
              plan_ref
              authority_ref
              readiness_ref
              "target-1"
              start)
            done)
apply-IsGuarded_example =
    apply-IsGuarded (services none) "task-1" "action-1" plan_ref authority_ref readiness_ref
      "target-1" 300 none "ROLLBACK_READY" start applied_run

abbrev closed_switch : KillSwitchPolicy
closed_switch = record {
  revision = pos 1;
  managed_owner = "owner";
  closed = true;
  adapter_id = some "adapter-1";
  action_kind = none;
  environment = none;
  target_digest = none;
}

abbrev release : Mapping String
release = ("adapter_id", "adapter-1") ∷ []

in_scope_run : scoped closed_switch release ≡ true
unfolding scoped get
in_scope_run = refl

closed_switch_stops_example :
    (apply
        (services (some closed_switch))
        "task-1"
        "action-1"
        plan_ref
        authority_ref
        readiness_ref
        "target-1"
        300
        (some release)
        "ROLLBACK_READY"
        start
      ≡ (err (binding_error "KILL_SWITCH_CLOSED"), start))
    × (release_check
          (services (some closed_switch))
          (some release)
          "ROLLBACK_READY"
          "rollback"
          start
        ≡ (ok tt, start))
closed_switch_stops_example =
    closed_switch_stops (services (some closed_switch)) closed_switch release refl refl in_scope_run
      "task-1" "action-1" plan_ref authority_ref readiness_ref "target-1" 300 "ROLLBACK_READY" start

only_apply_applies_example :
    ((plan authority : ReceiptRef) (target : String) (recovery_point : Mapping Value)
      → IsQuiet
          (services none)
          is_applied
          done
          (prepare_rollback
            (services none)
            "task-1"
            "action-1"
            plan
            authority
            target
            recovery_point
            done).1)
    × ((intent : ReceiptRef)
        → IsQuiet
            (services none)
            is_applied
            done
            (reconcile (services none) "task-1" "action-1" intent done).1)
    × ((effect readiness authority : ReceiptRef) (binding : Option (Mapping String))
          (lifecycle : String)
        → IsQuiet
            (services none)
            is_applied
            done
            (rollback
              (services none)
              "task-1"
              "action-1"
              effect
              readiness
              authority
              binding
              lifecycle
              done).1)
only_apply_applies_example = only_apply_applies (services none) done "task-1" "action-1"

abbrev undone : World
undone = record {
  disk =
      (rollback_ref.digest, file rollback_ref.kind)
      ∷ (rollback_intent_ref.digest, file rollback_intent_ref.kind)
      ∷ done.disk;
  ticks = 5;
  calls =
      wrote rollback_ref
      ∷ rolled_back (request_of "task-1" "action-1" (str "key-1") rollback_intent_binding)
      ∷ wrote rollback_intent_ref
      ∷ consumed authority_ref "rollback" "task-1" "action-1"
      ∷ done.calls;
}

rolled_back_run :
    rollback
      (services none)
      "task-1"
      "action-1"
      effect_ref
      readiness_ref
      authority_ref
      none
      "ROLLBACK_REQUIRED"
      done
    ≡ (ok (rollback_intent_ref, rollback_ref), undone)
unfolding rollback Saga.key_in Saga.◌>>=◌ release_check Saga.pure Saga.check_graph
    Graph.verify_graph Graph.verify_from Graph.visit_all Graph.visit contains raise_if load get
    Saga.load_receipt Saga.refuse get_value Saga.now has_nul is_sha256 ◌-ℤ◌ Receipts.are_sorted
    Receipts.are_unique Receipts.freeze_json Receipts.freeze_mapping Receipts.insert_ref
    Receipts.new_receipt Receipts.new_ref Receipts.sort_refs apply_intended Saga.consume_authority
    Saga.raise Saga.write_receipt put
rolled_back_run = refl

rollback-IsRolledBack_example :
    IsRolledBack
      (services none)
      "task-1"
      "action-1"
      authority_ref
      (rollback_binding (services none) effect_ref readiness_ref authority_ref)
      none
      "ROLLBACK_REQUIRED"
      rollback_intent_ref
      rollback_ref
      done
      undone
rollback-IsRolledBack_example =
    rollback-IsRolledBack (services none) "task-1" "action-1" effect_ref readiness_ref authority_ref
      none "ROLLBACK_REQUIRED" done rolled_back_run
