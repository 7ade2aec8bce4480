-- ===== src/Saga/Rollback.antt =====
-- `rollback` of taskguard/v3/saga.py.
use bricek4_ligong_skills.Base.{
  String, not, ◌&&◌, Option, [], ◌∷◌, ◌==◌, ok, Mapping, get_value, Value, str, is_text, is_true,
}
use bricek4_ligong_skills.Receipts.{ReceiptRef}
use bricek4_ligong_skills.Saga.{
  Services, Saga, binding_error, effect_unknown, provider_raised, rolled_back, Answer, response,
  raised, ◌>>=◌, ◌>>◌, pure, raise, refuse, load_receipt, check_graph, write_receipt, release_check,
  consume_authority, key_in, request_of,
}

module _ (s : Services) where
  abbrev pub call_rollback : Mapping Value → Saga Answer
  call_rollback request w =
      (ok (s.rollback_answer w.calls request), record w { calls = rolled_back request ∷ w.calls })

  abbrev pub after_rollback : String → String → ReceiptRef → Answer → Saga (ReceiptRef × ReceiptRef)
  after_rollback task_id action_id intent_ref (raised name) = raise (provider_raised name)
  after_rollback task_id action_id intent_ref (response m) = do
    refuse (not (is_text (get_value m "rollback_state") "ROLLED_BACK"))
        (effect_unknown intent_ref "ROLLBACK_EFFECT_UNKNOWN")
    result_ref ←
        write_receipt s "rollback-receipt-v1" task_id action_id
          (("rollback_intent_digest", str intent_ref.digest) ∷ []) m (intent_ref ∷ [])
    pure (intent_ref, result_ref)

  abbrev pub rollback_binding : ReceiptRef → ReceiptRef → ReceiptRef → Mapping Value
  rollback_binding effect_ref readiness_ref authority_ref =
      ("effect_digest", str effect_ref.digest)
      ∷ ("rollback_readiness_digest", str readiness_ref.digest)
      ∷ ("authority_digest", str authority_ref.digest)
      ∷ []

  unfoldable pub rollback :
      String
      → String
      → ReceiptRef
      → ReceiptRef
      → ReceiptRef
      → Option (Mapping String)
      → String
      → Saga (ReceiptRef × ReceiptRef)
  rollback task_id action_id effect_ref readiness_ref authority_ref release lifecycle = do
    release_check s release lifecycle "rollback"
    check_graph s (effect_ref ∷ readiness_ref ∷ authority_ref ∷ [])
    authority ← load_receipt s authority_ref
    refuse
        (not (
          authority.kind == "authority-receipt-v1"
          && is_true (get_value authority.body "rollback_authorized")))
        (binding_error "authority does not authorize rollback")
    consume_authority s authority_ref "rollback" task_id action_id
    let binding = rollback_binding effect_ref readiness_ref authority_ref
    intent_ref ←
        write_receipt s "rollback-intent-receipt-v1" task_id action_id binding
          (("idempotency_key", str (s.key_of task_id action_id binding)) ∷ [])
          (effect_ref ∷ readiness_ref ∷ authority_ref ∷ [])
    intent ← load_receipt s intent_ref
    key ← key_in s intent
    answer ← call_rollback (request_of task_id action_id key binding)
    after_rollback task_id action_id intent_ref answer
