-- ===== src/Saga/Effects.antt =====
-- When `apply` (taskguard/v3/saga.py) calls the adapter, and what it leaves behind.
use bricek4_ligong_skills.Base.{
  ℕ, ◌+◌, String, ◌≡◌, refl, sym, subst, ap, ◌∙◌, ◌⊎◌, inl, inr, Option, none, some, [], ◌∷◌,
  Outcome, ok, err, Mapping, Value, get,
}
use bricek4_ligong_skills.Receipts.{ReceiptRef, Receipt}
use bricek4_ligong_skills.Store.{load}
use bricek4_ligong_skills.Store.Graph.{verify_graph}
use bricek4_ligong_skills.Saga.{
  Consumer, consents, Services, World, Saga, SagaError, consumed, wrote, applied, Answer, raised,
  response, ◌>>=◌, raise, refuse, load_receipt, write_receipt, request_of, effect_unknown,
}
use bricek4_ligong_skills.Saga.Quiet.{
  IsQuiet, Silent, bind-Went, IsQuiet-trans, bind-Silent, pure-Silent, raise-Silent, refuse-Silent,
  load_receipt-Silent, write_receipt-Silent,
}
use bricek4_ligong_skills.Saga.Returns.{load_receipt-returned, write_receipt-returned, SwitchOpen}
use bricek4_ligong_skills.Saga.Recovery.{is_applied}
use bricek4_ligong_skills.Saga.Guarded.{IsBound}
use bricek4_ligong_skills.Saga.Apply.{apply_intended, call_apply, after_apply, apply_binding}

module _ (s : Services) where
  -- An exception, with no call of the adapter's `apply`.
  abbrev pub Refused : {A : Type 0} → World → Outcome SagaError A → World → Type 0
  Refused w r w' = IsQuiet s is_applied w w' × ((e : SagaError) × (r ≡ err e))

  IsQuiet-at :
      {A : Type 0} (m : Saga A) (w : World) {r : Outcome SagaError A} {v : World}
      → Silent s is_applied m
      → m w ≡ (r, v)
      → IsQuiet s is_applied w v
  IsQuiet-at m w silent h = subst (IsQuiet s is_applied w) (ap (λ q. q.1) h) (silent w)

  -- A bind whose first part is silent: a refusal, or what the rest shows.
  pub stepped :
      {A B : Type 0} (m : Saga A) (f : A → Saga B) (w : World) {r : Outcome SagaError B}
      {w' : World} {P : Type 0}
      → Silent s is_applied m
      → (m >>= f) w ≡ (r, w')
      → ((a : A) (v : World) → m w ≡ (ok a, v) → f a v ≡ (r, w') → Refused v r w' ⊎ P)
      → Refused w r w' ⊎ P
  stepped m f w silent h rest = elim (bind-Went m f w h) [
    | inl (e, threw, same) ↦ inl (IsQuiet-at m w silent threw, (e, same))
    | inr (a, v, returned, continued) ↦ elim (rest a v returned continued) [
      | inl (quiet, thrown) ↦
          inl (IsQuiet-trans s is_applied (IsQuiet-at m w silent returned) quiet, thrown)
      | inr p ↦ inr p
    ]
  ]

  after_apply-Silent :
      (task_id action_id target : String) (intent_ref : ReceiptRef) (a : Answer)
      → Silent s is_applied (after_apply s task_id action_id target intent_ref a)
  after_apply-Silent task_id action_id target intent_ref (raised name) =
      bind-Silent s is_applied (write_receipt s _ _ _ _ _ _) _
        (write_receipt-Silent s is_applied (λ ref. refl) _ _ _ _ _ _)
        λ _. raise-Silent s is_applied _ _
  after_apply-Silent task_id action_id target intent_ref (response m) =
      bind-Silent s is_applied (refuse _ _) _ (refuse-Silent s is_applied _ _) λ _.
        bind-Silent s is_applied (write_receipt s _ _ _ _ _ _) _
          (write_receipt-Silent s is_applied (λ ref. refl) _ _ _ _ _ _)
          λ ref. pure-Silent s is_applied (intent_ref, ref)

  module _ (task_id action_id : String) (plan_ref authority_ref readiness_ref : ReceiptRef)
      (target : String) where
    abbrev binding : Mapping Value
    binding = apply_binding s plan_ref authority_ref readiness_ref target

    -- The adapter was called once, with the key of an intent that was on disk then and still is.
    pub record IsApplied (w w' : World) : Type 0 where
      pub before : World
      pub intent_ref : ReceiptRef
      pub intent : Receipt
      pub key : Value
      pub intent_written : before.calls ≡ wrote intent_ref ∷ w.calls
      pub intent_loaded : load s.codec before.disk intent_ref ≡ ok intent
      pub key_of_intent : get intent.body "idempotency_key" ≡ some key
      pub intent_kept : load s.codec w'.disk intent_ref ≡ ok intent
      pub rest_quiet :
          IsQuiet s is_applied
            (record before {
              calls = applied (request_of task_id action_id key binding) ∷ before.calls;
            })
            w'

    raised_answer :
        (intent_ref : ReceiptRef) (name : String) (v : World)
        {r : Outcome SagaError (ReceiptRef × ReceiptRef)} {w' : World}
        → after_apply s task_id action_id target intent_ref (raised name) v ≡ (r, w')
        → (e : SagaError) × (r ≡ err e)
    unfolding raise
    raised_answer intent_ref name v h = elim (bind-Went (write_receipt s _ _ _ _ _ _) _ v h) [
      | inl (e, threw, same) ↦ (e, same)
      | inr (ref, u, returned, thrown) ↦
          (effect_unknown intent_ref name, sym (ap (λ q. q.0) thrown))
    ]

    called_or_not :
        (intent_ref : ReceiptRef) (intent : Receipt) (w v : World) (k : Option Value)
        {r : Outcome SagaError (ReceiptRef × ReceiptRef)} {w' : World}
        → v.calls ≡ wrote intent_ref ∷ w.calls
        → load s.codec v.disk intent_ref ≡ ok intent
        → get intent.body "idempotency_key" ≡ k
        → (call_apply s task_id action_id binding k
              >>= after_apply s task_id action_id target intent_ref)
            v
          ≡ (r, w')
        → Refused v r w' ⊎ IsApplied w w'
    unfolding ◌>>=◌
    called_or_not intent_ref intent w v none written found key h = inl (
      IsQuiet-at (after_apply s task_id action_id target intent_ref (raised "KeyError")) v
          (after_apply-Silent task_id action_id target intent_ref (raised "KeyError")) h,
      raised_answer intent_ref "KeyError" v h,
    )
    called_or_not intent_ref intent w v (some k) written found key h =
        let request = request_of task_id action_id k binding in
        let called : World = record v { calls = applied request ∷ v.calls } in
        let quiet =
          IsQuiet-at
            (after_apply s task_id action_id target intent_ref (s.apply_answer v.calls request))
            called
            (after_apply-Silent task_id action_id target intent_ref
              (s.apply_answer v.calls request))
            h in
        inr (record {
          before = v;
          intent_ref = intent_ref;
          intent = intent;
          key = k;
          intent_written = written;
          intent_loaded = found;
          key_of_intent = key;
          intent_kept = quiet.loads_kept intent_ref intent found;
          rest_quiet = quiet;
        })

    pub apply_intended-cases :
        (w : World) {r : Outcome SagaError (ReceiptRef × ReceiptRef)} {w' : World}
        → apply_intended s task_id action_id plan_ref authority_ref readiness_ref target w ≡ (r, w')
        → Refused w r w' ⊎ IsApplied w w'
    unfolding apply_intended
    apply_intended-cases w h =
        stepped (write_receipt s _ _ _ _ _ _) _ w
          (write_receipt-Silent s is_applied (λ ref. refl) _ _ _ _ _ _) h
          λ intent_ref v returned rest.
            stepped (load_receipt s intent_ref) _ v (load_receipt-Silent s is_applied intent_ref)
              rest
              λ intent u loaded continued.
                let (found, same) = load_receipt-returned s intent_ref v loaded in
                called_or_not intent_ref intent w u (get intent.body "idempotency_key")
                  (sym (ap (λ (x : World). x.calls) same)
                    ∙ write_receipt-returned s _ _ _ _ _ _ w returned)
                  (subst (λ (x : World). load s.codec x.disk intent_ref ≡ ok intent) same found)
                  refl continued

    -- What holds at `w` before the adapter may be called.
    pub record IsGuarded (max_age : ℕ) (release : Option (Mapping String)) (lifecycle : String)
        (w : World) : Type 0 where
      pub switch_open : SwitchOpen s release lifecycle "apply"
      pub graph_verified :
          (n : ℕ) × (verify_graph s.codec w.disk 4096 64
              (plan_ref ∷ authority_ref ∷ readiness_ref ∷ [])
            ≡ ok n)
      pub bound : IsBound s plan_ref authority_ref readiness_ref target max_age w
      pub consumed_now :
          (f : Consumer) × (s.consumer ≡ some f)
          × (f w.calls authority_ref "apply" task_id action_id ≡ consents)

    abbrev pub after_consumption : World → World
    after_consumption w = record w {
      ticks = w.ticks + 1;
      calls = consumed authority_ref "apply" task_id action_id ∷ w.calls;
    }
