-- ===== src/Saga/Apply.antt =====
-- `prepare_rollback`, `apply` and `reconcile` of taskguard/v3/saga.py.
use bricek4_ligong_skills.Base.{
  ℕ, String, not, ◌||◌, Option, none, some, List, [], ◌∷◌, ◌==◌, ok, Mapping, get, get_value, Value,
  str, is_text, is_true, is_hashable, contains, if◌then◌else◌,
}
use bricek4_ligong_skills.Receipts.{ReceiptRef}
use bricek4_ligong_skills.Saga.{
  Services, Saga, binding_error, effect_unknown, provider_raised, unhashable_state, prepared,
  applied, reconciled, Answer, response, raised, ◌>>=◌, ◌>>◌, pure, raise, refuse, load_receipt,
  check_graph, write_receipt, release_check, consume_authority, require_apply_bindings, key_in,
  is_falsy, set_entry, request_of, dict_of,
}

-- The adapter's answer to a request that was put together, and the recorded call.
module _ (s : Services) where
  -- The `try` block of `apply`: a key that the intent lacks is an exception as well.
  abbrev pub call_apply : String → String → Mapping Value → Option Value → Saga Answer
  call_apply task_id action_id binding none w = (ok (raised "KeyError"), w)
  call_apply task_id action_id binding (some key) w =
      let request = request_of task_id action_id key binding in
      (ok (s.apply_answer w.calls request), record w { calls = applied request ∷ w.calls })

  abbrev pub after_apply :
      String → String → String → ReceiptRef → Answer → Saga (ReceiptRef × ReceiptRef)
  after_apply task_id action_id target intent_ref (raised name) = do
    write_receipt s "effect-unknown-receipt-v1" task_id action_id
        (("apply_intent_digest", str intent_ref.digest) ∷ []) (("reason", str name) ∷ [])
        (intent_ref ∷ [])
    raise (effect_unknown intent_ref name)
  after_apply task_id action_id target intent_ref (response m) = do
    refuse
        (not (is_text (get_value m "effect_state") "APPLIED")
          || is_falsy (get_value m "effect_revision"))
        (effect_unknown intent_ref "MALFORMED_OR_AMBIGUOUS_APPLY_RESPONSE")
    effect_ref ←
        write_receipt s "effect-receipt-v1" task_id action_id
          (("apply_intent_digest", str intent_ref.digest) ∷ ("target_digest", str target) ∷ []) m
          (intent_ref ∷ [])
    pure (intent_ref, effect_ref)

  abbrev pub apply_binding : ReceiptRef → ReceiptRef → ReceiptRef → String → Mapping Value
  apply_binding plan_ref authority_ref readiness_ref target =
      ("plan_digest", str plan_ref.digest)
      ∷ ("authority_digest", str authority_ref.digest)
      ∷ ("rollback_readiness_digest", str readiness_ref.digest)
      ∷ ("target_digest", str target)
      ∷ []

  -- `apply`, from the write of the intent on.
  unfoldable pub apply_intended :
      String
      → String
      → ReceiptRef
      → ReceiptRef
      → ReceiptRef
      → String
      → Saga (ReceiptRef × ReceiptRef)
  apply_intended task_id action_id plan_ref authority_ref readiness_ref target = do
    let binding = apply_binding plan_ref authority_ref readiness_ref target
    intent_ref ←
        write_receipt s "apply-intent-receipt-v1" task_id action_id binding
          (("idempotency_key", str (s.key_of task_id action_id binding)) ∷ [])
          (plan_ref ∷ authority_ref ∷ readiness_ref ∷ [])
    intent ← load_receipt s intent_ref
    answer ← call_apply task_id action_id binding (get intent.body "idempotency_key")
    after_apply task_id action_id target intent_ref answer

  unfoldable pub apply :
      String
      → String
      → ReceiptRef
      → ReceiptRef
      → ReceiptRef
      → String
      → ℕ
      → Option (Mapping String)
      → String
      → Saga (ReceiptRef × ReceiptRef)
  unfolding apply_intended
  apply task_id action_id plan_ref authority_ref readiness_ref target max_age release lifecycle = do
    release_check s release lifecycle "apply"
    check_graph s (plan_ref ∷ authority_ref ∷ readiness_ref ∷ [])
    require_apply_bindings s plan_ref authority_ref readiness_ref target max_age
    consume_authority s authority_ref "apply" task_id action_id
    release_check s release lifecycle "apply"
    apply_intended task_id action_id plan_ref authority_ref readiness_ref target

  abbrev pub answered : {A : Type 0} → (Mapping Value → Saga A) → Answer → Saga A
  answered f (raised name) = raise (provider_raised name)
  answered f (response m) = f m

  abbrev pub call_prepare : Mapping Value → Saga Answer
  call_prepare request w =
      (ok (s.prepare_answer w.calls request), record w { calls = prepared request ∷ w.calls })

  unfoldable pub prepare_rollback :
      String → String → ReceiptRef → ReceiptRef → String → Mapping Value → Saga ReceiptRef
  prepare_rollback task_id action_id plan_ref authority_ref target recovery_point = do
    answer ← call_prepare (
        ("task_id", str task_id)
        ∷ ("action_id", str action_id)
        ∷ ("plan_digest", str plan_ref.digest)
        ∷ ("target_digest", str target)
        ∷ ("recovery_point", dict_of recovery_point)
        ∷ [])
    answered
        (λ m. do
          refuse (not (is_true (get_value m "ready")))
              (binding_error "provider did not prove rollback readiness")
          write_receipt s "rollback-readiness-receipt-v1" task_id action_id
              (("plan_digest", str plan_ref.digest)
                ∷ ("authority_digest", str authority_ref.digest)
                ∷ ("target_digest", str target)
                ∷ [])
              (("recovery_point", dict_of recovery_point) ∷ ("provider", dict_of m) ∷ [])
              (plan_ref ∷ authority_ref ∷ []))
        answer

  abbrev pub effect_states : List String
  effect_states = "APPLIED" ∷ "NOT_APPLIED" ∷ "UNKNOWN" ∷ []

  -- `state if state in {...} else "UNKNOWN"`
  abbrev pub known_state : Value → Value
  known_state (str t) = if contains effect_states t then str t else str "UNKNOWN"
  known_state v = str "UNKNOWN"

  abbrev pub call_reconcile : Mapping Value → Saga Answer
  call_reconcile request w =
      (ok (s.reconcile_answer w.calls request), record w { calls = reconciled request ∷ w.calls })

  unfoldable pub reconcile : String → String → ReceiptRef → Saga ReceiptRef
  reconcile task_id action_id intent_ref = do
    intent ← load_receipt s intent_ref
    refuse (not (intent.kind == "apply-intent-receipt-v1"))
        (binding_error "reconcile requires an apply-intent receipt")
    key ← key_in s intent
    answer ←
        call_reconcile
          (request_of task_id action_id key (("apply_intent_digest", str intent_ref.digest) ∷ []))
    answered
        (λ m. do
          refuse (not (is_hashable (get_value m "effect_state"))) unhashable_state
          write_receipt s "reconcile-receipt-v1" task_id action_id
              (("apply_intent_digest", str intent_ref.digest) ∷ [])
              (set_entry m "effect_state" (known_state (get_value m "effect_state")))
              (intent_ref ∷ []))
        answer
