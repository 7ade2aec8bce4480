-- ===== src/Saga/Safety.antt =====
-- When `apply` of taskguard/v3/saga.py calls the adapter.
use bricek4_ligong_skills.Base.{
  ℕ, ◌+◌, String, ◌≡◌, refl, sym, subst, ap, ◌∙◌, ◌⊎◌, inl, inr, Option, some, List, [], ◌∷◌,
  Outcome, ok, Mapping,
}
use bricek4_ligong_skills.Receipts.{ReceiptRef}
use bricek4_ligong_skills.Store.Graph.{verify_graph}
use bricek4_ligong_skills.Saga.{
  Consumer, consents, Services, World, SagaError, consumed, check_graph, release_check,
  consume_authority, require_apply_bindings,
}
use bricek4_ligong_skills.Saga.Quiet.{
  check_graph-Silent, release_check-Silent, consume_authority-Silent, require_apply_bindings-Silent,
}
use bricek4_ligong_skills.Saga.Returns.{
  check_graph-returned, consume_authority-returned, release_check-returned,
}
use bricek4_ligong_skills.Saga.Recovery.{is_applied}
use bricek4_ligong_skills.Saga.Guarded.{IsBound, require_apply_bindings-returned}
use bricek4_ligong_skills.Saga.Effects.{
  Refused, stepped, IsApplied, IsGuarded, after_consumption, apply_intended-cases,
}
use bricek4_ligong_skills.Saga.Apply.{apply}

module _ (s : Services) (task_id action_id : String)
    (plan_ref authority_ref readiness_ref : ReceiptRef) (target : String) (max_age : ℕ)
    (release : Option (Mapping String)) (lifecycle : String) where
  abbrev roots : List ReceiptRef
  roots = plan_ref ∷ authority_ref ∷ readiness_ref ∷ []

  -- The five checks of `apply`, each on what the one before left, guard the state at the start.
  guards_hold :
      (w v₁ v₂ v₃ v₄ v₅ : World) {u₁ u₂ u₃ u₄ u₅ : Unit {0}}
      → release_check s release lifecycle "apply" w ≡ (ok u₁, v₁)
      → check_graph s roots v₁ ≡ (ok u₂, v₂)
      → require_apply_bindings s plan_ref authority_ref readiness_ref target max_age v₂
        ≡ (ok u₃, v₃)
      → consume_authority s authority_ref "apply" task_id action_id v₃ ≡ (ok u₄, v₄)
      → release_check s release lifecycle "apply" v₄ ≡ (ok u₅, v₅)
      → IsGuarded s task_id action_id plan_ref authority_ref readiness_ref target max_age release
          lifecycle w
        × (after_consumption s task_id action_id plan_ref authority_ref readiness_ref target w ≡ v₅)
  guards_hold w v₁ v₂ v₃ v₄ v₅ h₁ h₂ h₃ h₄ h₅ =
      let (open_first, w₁) = release_check-returned s release lifecycle "apply" w h₁ in
      let (verified, w₂) = check_graph-returned s roots v₁ h₂ in
      let (bound, w₃) =
        require_apply_bindings-returned s plan_ref authority_ref readiness_ref target max_age v₂
          h₃ in
      let (consumer, w₄) =
        consume_authority-returned s authority_ref "apply" task_id action_id v₃ h₄ in
      let (_, w₅) = release_check-returned s release lifecycle "apply" v₄ h₅ in
      let start : w ≡ v₂ = w₁ ∙ w₂ in
      let ticked : record w { ticks = w.ticks + 1 } ≡ v₃ =
        ap (λ (x : World). record x { ticks = x.ticks + 1 }) start ∙ w₃ in
      (
        record {
          switch_open = open_first;
          graph_verified =
              subst (λ (x : World). (n : ℕ) × (verify_graph s.codec x.disk 4096 64 roots ≡ ok n))
                (sym w₁) verified;
          bound =
              subst (IsBound s plan_ref authority_ref readiness_ref target max_age) (sym start)
                bound;
          consumed_now =
              subst
                (λ (x : World).
                  (f : Consumer) × (s.consumer ≡ some f)
                  × (f x.calls authority_ref "apply" task_id action_id ≡ consents))
                (sym ticked) consumer;
        },
        ap
              (λ (x : World). record x {
                calls = consumed authority_ref "apply" task_id action_id ∷ x.calls;
              })
              ticked
            ∙ w₄
            ∙ w₅,
      )

-- An `apply` either raises without a call of the adapter, with no receipt lost; or all its guards held at the
-- start (the kill switch open, the graph verified, the three receipts bound and fresh, the consumer's
-- answer true), and the adapter was called exactly once, after the authority was consumed and an intent
-- written, with the key of that intent, which was on disk then and still is at the end.
pub apply-IsGuarded :
    (s : Services) (task_id action_id : String) (plan_ref authority_ref readiness_ref : ReceiptRef)
    (target : String) (max_age : ℕ) (release : Option (Mapping String)) (lifecycle : String)
    (w : World) {r : Outcome SagaError (ReceiptRef × ReceiptRef)} {w' : World}
    → apply s task_id action_id plan_ref authority_ref readiness_ref target max_age release
        lifecycle w
      ≡ (r, w')
    → Refused s w r w'
      ⊎ (IsGuarded s task_id action_id plan_ref authority_ref readiness_ref target max_age release
            lifecycle w
          × IsApplied s task_id action_id plan_ref authority_ref readiness_ref target
              (after_consumption s task_id action_id plan_ref authority_ref readiness_ref target w)
              w')
unfolding apply
apply-IsGuarded s task_id action_id plan_ref authority_ref readiness_ref target max_age release
      lifecycle w {r} {w'} h =
    stepped s (release_check s release lifecycle "apply") _ w
      (release_check-Silent s is_applied _ _ _) h
      λ u₁ v₁ h₁ k₁.
        stepped s (check_graph s (plan_ref ∷ authority_ref ∷ readiness_ref ∷ [])) _ v₁
          (check_graph-Silent s is_applied _) k₁
          λ u₂ v₂ h₂ k₂.
            stepped s (require_apply_bindings s plan_ref authority_ref readiness_ref target max_age)
              _ v₂ (require_apply_bindings-Silent s is_applied _ _ _ _ _) k₂
              λ u₃ v₃ h₃ k₃.
                stepped s (consume_authority s authority_ref "apply" task_id action_id) _ v₃
                  (consume_authority-Silent s is_applied (λ ref o t a. refl) _ _ _ _) k₃
                  λ u₄ v₄ h₄ k₄.
                    stepped s (release_check s release lifecycle "apply") _ v₄
                      (release_check-Silent s is_applied _ _ _) k₄
                      λ u₅ v₅ h₅ k₅.
                        let (guarded, ready) =
                          guards_hold s task_id action_id plan_ref authority_ref readiness_ref
                            target max_age release lifecycle w v₁ v₂ v₃ v₄ v₅ h₁ h₂ h₃ h₄ h₅ in
                        elim (apply_intended-cases s task_id action_id plan_ref authority_ref
                          readiness_ref target v₅ k₅) [
                            | inl refused ↦ inl refused
                            | inr called ↦ inr (
                              guarded,
                              subst
                                  (λ x.
                                    IsApplied s task_id action_id plan_ref authority_ref
                                      readiness_ref target x w')
                                  (sym ready) called,
                            )
                          ]
