-- ===== src/Saga/RolledBack.antt =====
-- The calls of a `rollback` that returns (taskguard/v3/saga.py).
use bricek4_ligong_skills.Base.{
  String, ◌≡◌, refl, sym, subst, ap, ◌∙◌, true, ◌&&◌, ◌==◌, Option, none, some, ◌∷◌, ok, Mapping,
  Value, get, get_value, is_text, is_true,
}
use bricek4_ligong_skills.Receipts.{ReceiptRef, Receipt}
use bricek4_ligong_skills.Store.{load}
use bricek4_ligong_skills.Saga.{
  Services, World, consumed, wrote, rolled_back, Answer, response, raised, ◌>>=◌, pure, raise,
  refuse, write_receipt, key_in, required_key, request_of,
}
use bricek4_ligong_skills.Saga.Returns.{
  refuse-passed, not-false, load_receipt-returned, check_graph-returned, consume_authority-returned,
  release_check-returned, write_receipt-returned, SwitchOpen,
}
use bricek4_ligong_skills.Saga.Guarded.{bind-returned}
use bricek4_ligong_skills.Saga.Confirmed.{pure-returned}
use bricek4_ligong_skills.Saga.Rollback.{rollback, call_rollback, after_rollback, rollback_binding}

-- The guards of a `rollback` that returned, its calls, and the response that it rests on.
pub record IsRolledBack (s : Services) (task_id action_id : String) (authority_ref : ReceiptRef)
    (binding : Mapping Value) (release : Option (Mapping String)) (lifecycle : String)
    (intent_ref result_ref : ReceiptRef) (w w' : World) : Type 0 where
  pub key : Value
  pub answer : Mapping Value
  pub authority : Receipt
  pub switch_open : SwitchOpen s release lifecycle "rollback"
  pub authority_loaded : load s.codec w.disk authority_ref ≡ ok authority
  pub rollback_authorized :
      (authority.kind == "authority-receipt-v1"
        && is_true (get_value authority.body "rollback_authorized"))
      ≡ true
  pub all_calls :
      w'.calls
      ≡ wrote result_ref
        ∷ rolled_back (request_of task_id action_id key binding)
        ∷ wrote intent_ref
        ∷ consumed authority_ref "rollback" task_id action_id
        ∷ w.calls
  pub answered_by :
      s.rollback_answer
        (wrote intent_ref ∷ consumed authority_ref "rollback" task_id action_id ∷ w.calls)
        (request_of task_id action_id key binding)
      ≡ response answer
  pub state_rolled_back : is_text (get_value answer "rollback_state") "ROLLED_BACK" ≡ true

module _ (s : Services) (task_id action_id : String) where
  after_rollback-returned :
      (intent_ref : ReceiptRef) (a : Answer) (v : World) {i e : ReceiptRef} {w' : World}
      → after_rollback s task_id action_id intent_ref a v ≡ (ok (i, e), w')
      → (m : Mapping Value) × (a ≡ response m)
        × (is_text (get_value m "rollback_state") "ROLLED_BACK" ≡ true)
        × (intent_ref ≡ i)
        × (w'.calls ≡ wrote e ∷ v.calls)
  unfolding raise
  after_rollback-returned intent_ref (raised name) v h = cc
  after_rollback-returned intent_ref (response m) v {i} {e} h =
      let (t, u, passed, k) = bind-returned (refuse _ _) _ v h in
      let (ref, x, written, returned) = bind-returned (write_receipt s _ _ _ _ _ _) _ u k in
      let (stated, same) = refuse-passed _ _ v passed in
      let (pair, last) = pure-returned (intent_ref, ref) x returned in
      (
        m,
        refl,
        not-false _ stated,
        ap (λ q. q.0) pair,
        sym (ap (λ (y : World). y.calls) last)
            ∙ write_receipt-returned s _ _ _ _ _ _ u written
            ∙ ap (λ (q : ReceiptRef × ReceiptRef). wrote q.1 ∷ u.calls) pair
            ∙ ap (λ (y : World). wrote e ∷ y.calls) (sym same),
      )

  called-returned :
      (request : Mapping Value) (intent_ref : ReceiptRef) (v : World) {i e : ReceiptRef}
      {w' : World}
      → (call_rollback s request >>= after_rollback s task_id action_id intent_ref) v
        ≡ (ok (i, e), w')
      → (m : Mapping Value) × (s.rollback_answer v.calls request ≡ response m)
        × (is_text (get_value m "rollback_state") "ROLLED_BACK" ≡ true)
        × (intent_ref ≡ i)
        × (w'.calls ≡ wrote e ∷ rolled_back request ∷ v.calls)
  unfolding ◌>>=◌
  called-returned request intent_ref v h =
      after_rollback-returned intent_ref (s.rollback_answer v.calls request)
        (record v { calls = rolled_back request ∷ v.calls }) h

  key-kept :
      (k : Option Value) (w : World) {key : Value} {v : World}
      → required_key s k w ≡ (ok key, v)
      → w ≡ v
  unfolding raise pure
  key-kept none w h = cc
  key-kept (some k) w h = ap (λ q. q.1) h

  key_in-kept :
      (r : Receipt) (w : World) {key : Value} {v : World} → key_in s r w ≡ (ok key, v) → w ≡ v
  unfolding key_in
  key_in-kept r w h = key-kept (get r.body "idempotency_key") w h

-- A `rollback` that returns two references had a kill switch that supports it and an authority receipt on disk that
-- authorises rollbacks; it consumed that authority, wrote the intent of the first reference, called the adapter,
-- which answered ROLLED_BACK, and only then wrote the result of the second. No other call was made.
pub rollback-IsRolledBack :
    (s : Services) (task_id action_id : String)
    (effect_ref readiness_ref authority_ref : ReceiptRef) (release : Option (Mapping String))
    (lifecycle : String) (w : World) {intent_ref result_ref : ReceiptRef} {w' : World}
    → rollback s task_id action_id effect_ref readiness_ref authority_ref release lifecycle w
      ≡ (ok (intent_ref, result_ref), w')
    → IsRolledBack s task_id action_id authority_ref
        (rollback_binding s effect_ref readiness_ref authority_ref)
        release
        lifecycle
        intent_ref
        result_ref
        w
        w'
unfolding rollback
rollback-IsRolledBack s task_id action_id effect_ref readiness_ref authority_ref release lifecycle w
      {intent_ref} {result_ref} {w'} h =
    let binding = rollback_binding s effect_ref readiness_ref authority_ref in
    let (u₁, v₁, h₁, k₁) = bind-returned _ _ w h in
    let (u₂, v₂, h₂, k₂) = bind-returned _ _ v₁ k₁ in
    let (authority, v₃, h₃, k₃) = bind-returned _ _ v₂ k₂ in
    let (u₄, v₄, h₄, k₄) = bind-returned _ _ v₃ k₃ in
    let (u₅, v₅, h₅, k₅) = bind-returned _ _ v₄ k₄ in
    let (ref, v₆, h₆, k₆) = bind-returned _ _ v₅ k₅ in
    let (intent, v₇, h₇, k₇) = bind-returned _ _ v₆ k₆ in
    let (key, v₈, h₈, k₈) = bind-returned _ _ v₇ k₇ in
    let (supported, w₁) = release_check-returned s release lifecycle "rollback" w h₁ in
    let (_, w₂) = check_graph-returned s _ v₁ h₂ in
    let (found, w₃) = load_receipt-returned s authority_ref v₂ h₃ in
    let (granted, w₄) = refuse-passed _ _ v₃ h₄ in
    let (_, w₅) = consume_authority-returned s authority_ref "rollback" task_id action_id v₄ h₅ in
    let (_, w₇) = load_receipt-returned s ref v₆ h₇ in
    let w₈ = key_in-kept s task_id action_id intent v₇ h₈ in
    let consumption : v₅.calls ≡ consumed authority_ref "rollback" task_id action_id ∷ w.calls =
      sym (ap (λ (x : World). x.calls) w₅)
      ∙ ap (λ (x : World). consumed authority_ref "rollback" task_id action_id ∷ x.calls)
          (sym (w₁ ∙ w₂ ∙ w₃ ∙ w₄)) in
    let (m, answer, state, same, calls) =
      called-returned s task_id action_id (request_of task_id action_id key binding) ref v₈ k₈ in
    let before : v₈.calls
        ≡ wrote intent_ref ∷ consumed authority_ref "rollback" task_id action_id ∷ w.calls =
      sym (ap (λ (x : World). x.calls) (w₇ ∙ w₈))
      ∙ write_receipt-returned s _ _ _ _ _ _ v₅ h₆
      ∙ ap (λ (x : ReceiptRef). wrote x ∷ v₅.calls) same
      ∙ ap (λ cs. wrote intent_ref ∷ cs) consumption in
    record {
      key = key;
      answer = m;
      authority = authority;
      switch_open = supported;
      authority_loaded =
          subst (λ (x : World). load s.codec x.disk authority_ref ≡ ok authority) (sym (w₁ ∙ w₂))
            found;
      rollback_authorized = not-false _ granted;
      all_calls =
          calls
          ∙ ap
              (λ cs. wrote result_ref ∷ rolled_back (request_of task_id action_id key binding) ∷ cs)
              before;
      answered_by =
          subst (λ cs. s.rollback_answer cs (request_of task_id action_id key binding) ≡ response m)
            before answer;
      state_rolled_back = state;
    }
