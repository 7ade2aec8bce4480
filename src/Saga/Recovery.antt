-- ===== src/Saga/Recovery.antt =====
-- What the methods of taskguard/v3/saga.py other than `apply` can do to the world.
use bricek4_ligong_skills.Base.{
  String, ◌≡◌, refl, Bool, true, false, Option, List, [], ◌∷◌, Mapping, Value,
}
use bricek4_ligong_skills.Receipts.{ReceiptRef}
use bricek4_ligong_skills.Saga.{
  Services, World, Saga, Call, applied, Answer, response, raised, refuse, load_receipt, check_graph,
  write_receipt, release_check, consume_authority, key_in,
}
use bricek4_ligong_skills.Saga.Quiet.{
  IsQuiet, Silent, bind-Silent, pure-Silent, raise-Silent, refuse-Silent, load_receipt-Silent,
  check_graph-Silent, release_check-Silent, key_in-Silent, write_receipt-Silent,
  consume_authority-Silent,
}
use bricek4_ligong_skills.Saga.Apply.{
  prepare_rollback, reconcile, answered, call_prepare, call_reconcile,
}
use bricek4_ligong_skills.Saga.Rollback.{rollback, after_rollback, call_rollback}

abbrev pub is_applied : Call → Bool
is_applied (applied m) = true
is_applied _ = false

module _ (s : Services) where
  abbrev Calm : {A : Type 0} → Saga A → Type 0
  Calm m = Silent s is_applied m

  -- A call of the adapter that is not `apply`.
  called :
      (c : Call) (w : World)
      → is_applied c ≡ false
      → IsQuiet s is_applied w (record w { calls = c ∷ w.calls })
  called c w other = record {
    added = c ∷ [];
    calls_added = refl;
    none_tested = rw other refl;
    loads_kept = λ ref q l. l;
  }

  write-Calm :
      (kind task_id action_id : String) (binding body : Mapping Value) (parents : List ReceiptRef)
      → Calm (write_receipt s kind task_id action_id binding body parents)
  write-Calm kind task_id action_id binding body parents =
      write_receipt-Silent s is_applied (λ ref. refl) kind task_id action_id binding body parents

  answered-Calm :
      {A : Type 0} (f : Mapping Value → Saga A)
      → ((m : Mapping Value) → Calm (f m))
      → (a : Answer) → Calm (answered s f a)
  answered-Calm f rest (raised name) w = raise-Silent s is_applied _ _ w
  answered-Calm f rest (response m) w = rest m w

  prepare_rollback-Calm :
      (task_id action_id : String) (plan_ref authority_ref : ReceiptRef) (target : String)
      (recovery_point : Mapping Value)
      → Calm (prepare_rollback s task_id action_id plan_ref authority_ref target recovery_point)
  unfolding prepare_rollback
  prepare_rollback-Calm task_id action_id plan_ref authority_ref target recovery_point =
      bind-Silent s is_applied (call_prepare s _) _ (λ w. called _ w refl)
        (answered-Calm _ λ m.
          bind-Silent s is_applied (refuse _ _) _ (refuse-Silent s is_applied _ _)
            λ _. write-Calm _ _ _ _ _ _)

  reconcile-Calm :
      (task_id action_id : String) (intent_ref : ReceiptRef)
      → Calm (reconcile s task_id action_id intent_ref)
  unfolding reconcile
  reconcile-Calm task_id action_id intent_ref =
      bind-Silent s is_applied (load_receipt s intent_ref) _
        (load_receipt-Silent s is_applied intent_ref)
        λ intent. bind-Silent s is_applied (refuse _ _) _ (refuse-Silent s is_applied _ _) λ _.
          bind-Silent s is_applied (key_in s intent) _ (key_in-Silent s is_applied intent) λ key.
            bind-Silent s is_applied (call_reconcile s _) _ (λ w. called _ w refl)
              (answered-Calm _ λ m.
                bind-Silent s is_applied (refuse _ _) _ (refuse-Silent s is_applied _ _)
                  λ _. write-Calm _ _ _ _ _ _)

  after_rollback-Calm :
      (task_id action_id : String) (intent_ref : ReceiptRef) (a : Answer)
      → Calm (after_rollback s task_id action_id intent_ref a)
  after_rollback-Calm task_id action_id intent_ref (raised name) w = raise-Silent s is_applied _ _ w
  after_rollback-Calm task_id action_id intent_ref (response m) w =
      bind-Silent s is_applied (refuse _ _) _ (refuse-Silent s is_applied _ _)
        (λ _.
          bind-Silent s is_applied (write_receipt s _ _ _ _ _ _) _ (write-Calm _ _ _ _ _ _)
            λ r. pure-Silent s is_applied (intent_ref, r))
        w

  rollback-Calm :
      (task_id action_id : String) (effect_ref readiness_ref authority_ref : ReceiptRef)
      (release : Option (Mapping String)) (lifecycle : String)
      → Calm (rollback s task_id action_id effect_ref readiness_ref authority_ref release lifecycle)
  unfolding rollback
  rollback-Calm task_id action_id effect_ref readiness_ref authority_ref release lifecycle =
      bind-Silent s is_applied (release_check s release lifecycle "rollback") _
        (release_check-Silent s is_applied _ _ _)
        λ _. bind-Silent s is_applied (check_graph s _) _ (check_graph-Silent s is_applied _) λ _.
          bind-Silent s is_applied (load_receipt s authority_ref) _
            (load_receipt-Silent s is_applied authority_ref)
            λ authority.
              bind-Silent s is_applied (refuse _ _) _ (refuse-Silent s is_applied _ _) λ _.
                bind-Silent s is_applied
                  (consume_authority s authority_ref "rollback" task_id action_id) _
                  (consume_authority-Silent s is_applied (λ ref o t a. refl) authority_ref _ _ _)
                  λ _.
                    bind-Silent s is_applied (write_receipt s _ _ _ _ _ _) _
                      (write-Calm _ _ _ _ _ _)
                      λ intent_ref.
                        bind-Silent s is_applied (load_receipt s intent_ref) _
                          (load_receipt-Silent s is_applied intent_ref)
                          λ intent.
                            bind-Silent s is_applied (key_in s intent) _
                              (key_in-Silent s is_applied intent)
                              λ key.
                                bind-Silent s is_applied (call_rollback s _) _
                                  (λ w. called _ w refl)
                                  (after_rollback-Calm task_id action_id intent_ref)

-- Whatever happens in them, the preparation of a rollback, a reconciliation and a rollback never call the
-- adapter's `apply`, and every receipt that loaded before still loads with the same content.
pub only_apply_applies :
    (s : Services) (w : World) (task_id action_id : String)
    → ((plan_ref authority_ref : ReceiptRef) (target : String) (recovery_point : Mapping Value)
        → IsQuiet s is_applied w
            (prepare_rollback s task_id action_id plan_ref authority_ref target recovery_point w).1)
      × ((intent_ref : ReceiptRef)
          → IsQuiet s is_applied w (reconcile s task_id action_id intent_ref w).1)
      × ((effect_ref readiness_ref authority_ref : ReceiptRef) (release : Option (Mapping String))
            (lifecycle : String)
          → IsQuiet s is_applied w
              (rollback s task_id action_id effect_ref readiness_ref authority_ref release lifecycle
                w).1)
only_apply_applies s w task_id action_id = (
  λ plan_ref authority_ref target recovery_point.
      prepare_rollback-Calm s task_id action_id plan_ref authority_ref target recovery_point w,
  λ intent_ref. reconcile-Calm s task_id action_id intent_ref w,
  λ effect_ref readiness_ref authority_ref release lifecycle.
      rollback-Calm s task_id action_id effect_ref readiness_ref authority_ref release lifecycle w,
)
