-- ===== src/Saga/Quiet.antt =====
-- Methods of taskguard/v3/saga.py that make no call of a given kind and hide no receipt, and their composition.
use bricek4_ligong_skills.Base.{
  ℕ, String, ◌≡◌, refl, sym, subst, ap, ◌∙◌, ◌⊎◌, inl, inr, Bool, true, false, Option, none, some,
  List, [], ◌∷◌, ◌++◌, append_assoc, Outcome, ok, err, Mapping, Value, any, arith, get,
}
use bricek4_ligong_skills.Receipts.{ReceiptRef, Receipt, ReceiptError}
use bricek4_ligong_skills.Store.{IntegrityError, GraphError, load, put, Disk}
use bricek4_ligong_skills.Store.Content.{load-put_stable}
use bricek4_ligong_skills.Store.Graph.{verify_graph}
use bricek4_ligong_skills.Gates.KillSwitch.{KillSwitchPolicy}
use bricek4_ligong_skills.Saga.{
  Consumer, consents, declines, throws, Consent, consented, Services, World, Saga, SagaError, Call,
  consumed, wrote, continue, ◌>>=◌, pure, raise, refuse, now, load_receipt, check_graph,
  write_receipt, release_check, consume_authority, key_in, require_apply_bindings, loaded, verified,
  put_checked, put_new, switch_decided, asked, consume_with, required_key,
}

-- A bind raised in its first part, or went on from what that part returned.
abbrev pub Went :
    {A B : Type 0} → Saga A → (A → Saga B) → World → Outcome SagaError B → World → Type 0
Went {A} m f w r w' =
    ((e : SagaError) × (m w ≡ (err e, w')) × (r ≡ err e))
    ⊎ ((a : A) × (v : World) × (m w ≡ (ok a, v)) × (f a v ≡ (r, w')))

went_from :
    {A B : Type 0} (p : Outcome SagaError A × World) (f : A → Saga B) {r : Outcome SagaError B}
    {w' : World}
    → continue p.0 f p.1 ≡ (r, w')
    → ((e : SagaError) × (p ≡ (err e, w')) × (r ≡ err e))
      ⊎ ((a : A) × (v : World) × (p ≡ (ok a, v)) × (f a v ≡ (r, w')))
went_from (ok a, v) f h = inr (a, v, refl, h)
went_from (err e, v) f h = inl (e, ap (λ q. (err e, q.1)) h, sym (ap (λ q. q.0) h))

pub bind-Went :
    {A B : Type 0} (m : Saga A) (f : A → Saga B) (w : World) {r : Outcome SagaError B} {w' : World}
    → (m >>= f) w ≡ (r, w')
    → Went m f w r w'
unfolding ◌>>=◌
bind-Went m f w h = went_from (m w) f h

module _ (s : Services) (p : Call → Bool) where
  -- From `w` to `w'` no call that `p` tests for was added, and what loaded still loads.
  pub record IsQuiet (w w' : World) : Type 0 where
    pub added : List Call
    pub calls_added : w'.calls ≡ added ++ w.calls
    pub none_tested : any p added ≡ false
    pub loads_kept :
        (ref : ReceiptRef) (q : Receipt)
        → load s.codec w.disk ref ≡ ok q
        → load s.codec w'.disk ref ≡ ok q

  -- A method that is quiet whatever it returns.
  abbrev pub Silent : {A : Type 0} → Saga A → Type 0
  Silent m = (w : World) → IsQuiet w (m w).1

  pub IsQuiet-refl : {w w' : World} → w ≡ w' → IsQuiet w w'
  IsQuiet-refl {w} same =
      subst (IsQuiet w) same
        (record { added = []; calls_added = refl; none_tested = refl; loads_kept = λ ref q h. h })

  any-append : (xs ys : List Call) → any p xs ≡ false → any p ys ≡ false → any p (xs ++ ys) ≡ false
  any-append [] ys h k = k
  any-append (x ∷ xs) ys h k = ground (arith, any-append xs ys)

  pub IsQuiet-trans : {u v w : World} → IsQuiet u v → IsQuiet v w → IsQuiet u w
  IsQuiet-trans {u} a b = record {
    added = b.added ++ a.added;
    calls_added =
        b.calls_added
        ∙ ap (◌++◌ b.added) a.calls_added
        ∙ sym (append_assoc b.added a.added u.calls);
    none_tested = any-append b.added a.added b.none_tested a.none_tested;
    loads_kept = λ ref q h. b.loads_kept ref q (a.loads_kept ref q h);
  }

  continue-IsQuiet :
      {A B : Type 0} (w : World) (q : Outcome SagaError A × World) (f : A → Saga B)
      → IsQuiet w q.1
      → ((a : A) → Silent (f a))
      → IsQuiet w (continue q.0 f q.1).1
  continue-IsQuiet w (ok a, v) f first rest = IsQuiet-trans first (rest a v)
  continue-IsQuiet w (err e, v) f first rest = first

  pub bind-Silent :
      {A B : Type 0} (m : Saga A) (f : A → Saga B)
      → Silent m
      → ((a : A) → Silent (f a))
      → Silent (m >>= f)
  unfolding ◌>>=◌
  bind-Silent m f first rest w = continue-IsQuiet w (m w) f (first w) rest

  pub pure-Silent : {A : Type 0} (a : A) → Silent (pure a)
  unfolding pure
  pure-Silent a w = IsQuiet-refl refl

  pub raise-Silent : (A : Type 0) (e : SagaError) → Silent (raise {A = A} e)
  unfolding raise
  raise-Silent A e w = IsQuiet-refl refl

  pub refuse-Silent : (b : Bool) (e : SagaError) → Silent (refuse b e)
  unfolding refuse
  refuse-Silent true e w = IsQuiet-refl refl
  refuse-Silent false e w = IsQuiet-refl refl

  pub now-Silent : Silent (now s)
  unfolding now
  now-Silent w = record {
    added = [];
    calls_added = refl;
    none_tested = refl;
    loads_kept = λ ref q h. h;
  }

  loaded-kept : (o : Outcome IntegrityError Receipt) (w : World) → (loaded s o w).1 ≡ w
  loaded-kept (ok r) w = refl
  loaded-kept (err e) w = refl

  pub load_receipt-Silent : (ref : ReceiptRef) → Silent (load_receipt s ref)
  unfolding load_receipt
  load_receipt-Silent ref w = IsQuiet-refl (sym (loaded-kept (load s.codec w.disk ref) w))

  verified-kept : (o : Outcome GraphError ℕ) (w : World) → (verified s o w).1 ≡ w
  verified-kept (ok n) w = refl
  verified-kept (err e) w = refl

  pub check_graph-Silent : (roots : List ReceiptRef) → Silent (check_graph s roots)
  unfolding check_graph
  check_graph-Silent roots w =
      IsQuiet-refl (sym (verified-kept (verify_graph s.codec w.disk 4096 64 roots) w))

  switch-Silent :
      (k : Option KillSwitchPolicy) (b : Option (Mapping String)) (l o : String)
      → Silent (switch_decided s k b l o)
  switch-Silent none b l o w = pure-Silent tt w
  switch-Silent (some k) none l o w = raise-Silent _ _ w
  switch-Silent (some k) (some b) l o w = refuse-Silent _ _ w

  pub release_check-Silent :
      (b : Option (Mapping String)) (l o : String) → Silent (release_check s b l o)
  unfolding release_check
  release_check-Silent b l o w = switch-Silent s.kill_switch b l o w

  required_key-Silent : (k : Option Value) → Silent (required_key s k)
  required_key-Silent none w = raise-Silent _ _ w
  required_key-Silent (some k) w = pure-Silent k w

  pub key_in-Silent : (r : Receipt) → Silent (key_in s r)
  unfolding key_in
  key_in-Silent r w = required_key-Silent (get r.body "idempotency_key") w

  module _ (unwritten : (ref : ReceiptRef) → p (wrote ref) ≡ false) where
    put_checked-IsQuiet :
        (r : Receipt) (w : World) (o : Outcome IntegrityError (ReceiptRef × Disk))
        → put s.codec w.disk none r ≡ o
        → IsQuiet w (put_checked s o w).1
    put_checked-IsQuiet r w (err e) h = IsQuiet-refl refl
    put_checked-IsQuiet r w (ok (ref, disk)) h = record {
      added = wrote ref ∷ [];
      calls_added = refl;
      none_tested = rw (unwritten ref) refl;
      loads_kept = λ other q l. load-put_stable s.codec w.disk none r h other q l;
    }

    put_new-Silent : (o : Outcome ReceiptError Receipt) → Silent (put_new s o)
    put_new-Silent (err e) w = IsQuiet-refl refl
    put_new-Silent (ok r) w = put_checked-IsQuiet r w (put s.codec w.disk none r) refl

    pub write_receipt-Silent :
        (kind task_id action_id : String) (binding body : Mapping Value) (parents : List ReceiptRef)
        → Silent (write_receipt s kind task_id action_id binding body parents)
    unfolding write_receipt
    write_receipt-Silent kind task_id action_id binding body parents =
        bind-Silent (now s) _ now-Silent λ t. put_new-Silent _

  module _ (unconsumed : (ref : ReceiptRef) (o t a : String) → p (consumed ref o t a) ≡ false) where
    consented-Silent : (answer : Consent) → Silent (consented s answer)
    unfolding pure
    consented-Silent consents w = IsQuiet-refl refl
    consented-Silent declines w = raise-Silent _ _ w
    consented-Silent (throws name) w = raise-Silent _ _ w

    asked-Silent :
        (f : Consumer) → (ref : ReceiptRef) (o t a : String) → Silent (asked s f ref o t a)
    asked-Silent f ref o t a w =
        IsQuiet-trans
          (record {
            added = consumed ref o t a ∷ [];
            calls_added = refl;
            none_tested = rw (unconsumed ref o t a) refl;
            loads_kept = λ other q l. l;
          })
          (consented-Silent (f w.calls ref o t a)
            (record w { calls = consumed ref o t a ∷ w.calls }))

    consume_with-Silent :
        (k : Option Consumer)
        → (ref : ReceiptRef) (o t a : String) → Silent (consume_with s k ref o t a)
    consume_with-Silent none ref o t a w = raise-Silent _ _ w
    consume_with-Silent (some f) ref o t a w = asked-Silent f ref o t a w

    pub consume_authority-Silent :
        (ref : ReceiptRef) (o t a : String) → Silent (consume_authority s ref o t a)
    unfolding consume_authority
    consume_authority-Silent ref o t a w = consume_with-Silent s.consumer ref o t a w

  pub require_apply_bindings-Silent :
      (plan_ref authority_ref readiness_ref : ReceiptRef) (target : String) (max_age : ℕ)
      → Silent (require_apply_bindings s plan_ref authority_ref readiness_ref target max_age)
  unfolding require_apply_bindings
  require_apply_bindings-Silent plan_ref authority_ref readiness_ref target max_age =
      bind-Silent (load_receipt s plan_ref) _ (load_receipt-Silent plan_ref) λ plan.
        bind-Silent (load_receipt s authority_ref) _ (load_receipt-Silent authority_ref)
          λ authority.
            bind-Silent (load_receipt s readiness_ref) _ (load_receipt-Silent readiness_ref)
              λ readiness. bind-Silent (refuse _ _) _ (refuse-Silent _ _) λ _.
                bind-Silent (refuse _ _) _ (refuse-Silent _ _) λ _.
                  bind-Silent (refuse _ _) _ (refuse-Silent _ _)
                    λ _. bind-Silent (now s) _ now-Silent λ t. refuse-Silent _ _
