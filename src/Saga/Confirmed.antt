-- ===== src/Saga/Confirmed.antt =====
-- The calls of an `apply` that returns, and `apply` under a closed kill switch (taskguard/v3/saga.py).
use bricek4_ligong_skills.Base.{
  ℕ, String, ◌≡◌, refl, sym, subst, ap, true, false, some, ◌∷◌, ok, err, ok-injective, Mapping,
  Value, get_value, is_text, contains,
}
use bricek4_ligong_skills.Receipts.{ReceiptRef}
use bricek4_ligong_skills.Gates.KillSwitch.{KillSwitchPolicy, decide, scoped}
use bricek4_ligong_skills.Saga.{
  Services, World, Saga, SagaError, binding_error, consumed, wrote, applied, response, ◌>>=◌, pure,
  refuse, release_check, switch_decided, request_of, is_falsy,
}
use bricek4_ligong_skills.Saga.Apply.{apply}

closed_blocks :
    (k : KillSwitchPolicy) (b : Mapping String) (lifecycle : String)
    → k.closed ≡ true
    → scoped k b ≡ true
    → decide k b lifecycle "apply" ≡ record { status = "BLOCKED"; reason = "KILL_SWITCH_CLOSED" }
unfolding decide contains
closed_blocks k b lifecycle h i = rw (i, h) refl

closed_preserves :
    (k : KillSwitchPolicy) (b : Mapping String) (lifecycle : String)
    → k.closed ≡ true
    → scoped k b ≡ true
    → decide k b lifecycle "rollback"
      ≡ record { status = "SUPPORTED"; reason = "RECOVERY_PRESERVED" }
unfolding decide contains
closed_preserves k b lifecycle h i = rw (i, h) refl

module _ (s : Services) (k : KillSwitchPolicy) (b : Mapping String) (lifecycle : String) where
  closed_check :
      k.closed ≡ true
      → scoped k b ≡ true
      → (w : World)
      → switch_decided s (some k) (some b) lifecycle "apply" w
        ≡ (err (binding_error "KILL_SWITCH_CLOSED"), w)
  unfolding refuse
  closed_check h i w = rw (closed_blocks k b lifecycle h i) refl

  recovery_check :
      k.closed ≡ true
      → scoped k b ≡ true
      → (w : World) → switch_decided s (some k) (some b) lifecycle "rollback" w ≡ (ok tt, w)
  unfolding refuse
  recovery_check h i w = rw (closed_preserves k b lifecycle h i) refl

  raised_first :
      {A B : Type 0} (m : Saga A) (f : A → Saga B) (w : World) {e : SagaError}
      → m w ≡ (err e, w)
      → (m >>= f) w ≡ (err e, w)
  unfolding ◌>>=◌
  raised_first m f w h = rw h refl

-- While the kill switch is closed for the scope of the release, `apply` raises KILL_SWITCH_CLOSED and changes
-- nothing, whatever its other arguments; the same check lets a rollback pass.
pub closed_switch_stops :
    (s : Services) (k : KillSwitchPolicy) (b : Mapping String)
    → s.kill_switch ≡ some k
    → k.closed ≡ true
    → scoped k b ≡ true
    → (task_id action_id : String) (plan_ref authority_ref readiness_ref : ReceiptRef)
      (target : String) (max_age : ℕ) (lifecycle : String) (w : World)
    → (apply s task_id action_id plan_ref authority_ref readiness_ref target max_age
          (some b)
          lifecycle
          w
        ≡ (err (binding_error "KILL_SWITCH_CLOSED"), w))
      × (release_check s (some b) lifecycle "rollback" w ≡ (ok tt, w))
unfolding apply release_check
closed_switch_stops s k b given closed inside task_id action_id plan_ref authority_ref readiness_ref
      target max_age lifecycle w =
    (
      raised_first s k b lifecycle (release_check s (some b) lifecycle "apply") _ w (
          subst
            (λ j.
              switch_decided s j (some b) lifecycle "apply" w
              ≡ (err (binding_error "KILL_SWITCH_CLOSED"), w))
            (sym given) (closed_check s k b lifecycle closed inside w)),
      subst (λ j. switch_decided s j (some b) lifecycle "rollback" w ≡ (ok tt, w)) (sym given)
          (recovery_check s k b lifecycle closed inside w),
    )

-- The calls of an `apply` that returned, and the response that it rests on.
pub record IsConfirmed (s : Services) (task_id action_id : String) (authority_ref : ReceiptRef)
    (binding : Mapping Value) (intent_ref effect_ref : ReceiptRef) (w w' : World) : Type 0 where
  pub key : Value
  pub answer : Mapping Value
  pub all_calls :
      w'.calls
      ≡ wrote effect_ref
        ∷ applied (request_of task_id action_id key binding)
        ∷ wrote intent_ref
        ∷ consumed authority_ref "apply" task_id action_id
        ∷ w.calls
  pub answered_by :
      s.apply_answer
        (wrote intent_ref ∷ consumed authority_ref "apply" task_id action_id ∷ w.calls)
        (request_of task_id action_id key binding)
      ≡ response answer
  pub state_applied : is_text (get_value answer "effect_state") "APPLIED" ≡ true
  pub revision_given : is_falsy (get_value answer "effect_revision") ≡ false

pub pure-returned :
    {A : Type 0} (a : A) (w : World) {b : A} {v : World} → pure a w ≡ (ok b, v) → (a ≡ b) × (w ≡ v)
unfolding pure
pure-returned a w h = (ok-injective (ap (λ q. q.0) h), ap (λ q. q.1) h)
