-- ===== src/Saga/Returns.antt =====
-- What a step of taskguard/v3/saga.py says of the world when it returns.
use bricek4_ligong_skills.Base.{
  ℕ, String, ◌≡◌, refl, sym, ap, Bool, true, false, not, Option, none, some, List, ◌∷◌, Outcome, ok,
  err, Mapping, Value, subst, eq_iff,
}
use bricek4_ligong_skills.Receipts.{ReceiptRef, Receipt, ReceiptError}
use bricek4_ligong_skills.Store.{IntegrityError, GraphError, load, Disk}
use bricek4_ligong_skills.Store.Graph.{verify_graph}
use bricek4_ligong_skills.Gates.KillSwitch.{KillSwitchPolicy, decide}
use bricek4_ligong_skills.Saga.{
  Consumer, consents, declines, throws, Consent, consented, Services, World, SagaError, consumed,
  wrote, ◌>>=◌, pure, raise, refuse, now, load_receipt, check_graph, write_receipt, release_check,
  consume_authority, loaded, verified, put_checked, put_new, switch_decided, asked, consume_with,
}

pub refuse-passed :
    (b : Bool) (e : SagaError) (w : World) {u : Unit {0}} {v : World}
    → refuse b e w ≡ (ok u, v)
    → (b ≡ false) × (w ≡ v)
unfolding refuse
refuse-passed true e w h = cc
refuse-passed false e w h = (refl, ap (λ q. q.1) h)

pub not-false : (b : Bool) → not b ≡ false → b ≡ true
not-false true h = refl
not-false false h = sym h

some-injective : {A : Type 0} {a b : A} → some a ≡ some b → a ≡ b
some-injective h = cc

module _ (s : Services) where
  loaded-returned :
      (o : Outcome IntegrityError Receipt) (w : World) {q : Receipt} {v : World}
      → loaded s o w ≡ (ok q, v)
      → (o ≡ ok q) × (w ≡ v)
  loaded-returned (ok r) w h = (cc, ap (λ q. q.1) h)
  loaded-returned (err e) w h = cc

  pub load_receipt-returned :
      (ref : ReceiptRef) (w : World) {q : Receipt} {v : World}
      → load_receipt s ref w ≡ (ok q, v)
      → (load s.codec w.disk ref ≡ ok q) × (w ≡ v)
  unfolding load_receipt
  load_receipt-returned ref w h = loaded-returned (load s.codec w.disk ref) w h

  verified-returned :
      (o : Outcome GraphError ℕ) (w : World) {u : Unit {0}} {v : World}
      → verified s o w ≡ (ok u, v)
      → ((n : ℕ) × (o ≡ ok n)) × (w ≡ v)
  verified-returned (ok n) w h = ((n, refl), ap (λ q. q.1) h)
  verified-returned (err e) w h = cc

  pub check_graph-returned :
      (roots : List ReceiptRef) (w : World) {u : Unit {0}} {v : World}
      → check_graph s roots w ≡ (ok u, v)
      → ((n : ℕ) × (verify_graph s.codec w.disk 4096 64 roots ≡ ok n)) × (w ≡ v)
  unfolding check_graph
  check_graph-returned roots w h = verified-returned (verify_graph s.codec w.disk 4096 64 roots) w h

  consented-returned :
      (answer : Consent) (w : World) {u : Unit {0}} {v : World}
      → consented s answer w ≡ (ok u, v)
      → (answer ≡ consents) × (w ≡ v)
  unfolding raise pure
  consented-returned consents w h = (refl, ap (λ q. q.1) h)
  consented-returned declines w h = cc
  consented-returned (throws name) w h = cc

  asked-returned :
      (f : Consumer) (ref : ReceiptRef) (o t a : String) (w : World) {u : Unit {0}} {v : World}
      → asked s f ref o t a w ≡ (ok u, v)
      → (f w.calls ref o t a ≡ consents) × (record w { calls = consumed ref o t a ∷ w.calls } ≡ v)
  asked-returned f ref o t a w h =
      consented-returned (f w.calls ref o t a) (record w { calls = consumed ref o t a ∷ w.calls }) h

  consume_with-returned :
      (k : Option Consumer) (ref : ReceiptRef) (o t a : String) (w : World) {u : Unit {0}}
      {v : World}
      → consume_with s k ref o t a w ≡ (ok u, v)
      → ((f : Consumer) × (k ≡ some f) × (f w.calls ref o t a ≡ consents))
        × (record w { calls = consumed ref o t a ∷ w.calls } ≡ v)
  unfolding raise
  consume_with-returned none ref o t a w h = cc
  consume_with-returned (some f) ref o t a w h =
      let (said, same) = asked-returned f ref o t a w h in ((f, refl, said), same)

  pub consume_authority-returned :
      (ref : ReceiptRef) (o t a : String) (w : World) {u : Unit {0}} {v : World}
      → consume_authority s ref o t a w ≡ (ok u, v)
      → ((f : Consumer) × (s.consumer ≡ some f) × (f w.calls ref o t a ≡ consents))
        × (record w { calls = consumed ref o t a ∷ w.calls } ≡ v)
  unfolding consume_authority
  consume_authority-returned ref o t a w h = consume_with-returned s.consumer ref o t a w h

  put_checked-returned :
      (o : Outcome IntegrityError (ReceiptRef × Disk)) (w : World) {ref : ReceiptRef} {v : World}
      → put_checked s o w ≡ (ok ref, v)
      → v.calls ≡ wrote ref ∷ w.calls
  put_checked-returned (err e) w h = cc
  put_checked-returned (ok (r, disk)) w h = cc

  put_new-returned :
      (o : Outcome ReceiptError Receipt) (w : World) {ref : ReceiptRef} {v : World}
      → put_new s o w ≡ (ok ref, v)
      → v.calls ≡ wrote ref ∷ w.calls
  put_new-returned (err e) w h = cc
  put_new-returned (ok r) w h = put_checked-returned _ w h

  pub write_receipt-returned :
      (kind task_id action_id : String) (binding body : Mapping Value) (parents : List ReceiptRef)
      (w : World) {ref : ReceiptRef} {v : World}
      → write_receipt s kind task_id action_id binding body parents w ≡ (ok ref, v)
      → v.calls ≡ wrote ref ∷ w.calls
  unfolding write_receipt ◌>>=◌ now
  write_receipt-returned kind task_id action_id binding body parents w h = put_new-returned _ _ h

  -- The kill switch, if there is one, supports the operation on the binding that was given.
  abbrev pub SwitchOpen : Option (Mapping String) → String → String → Type 0
  SwitchOpen release lifecycle operation =
      (k : KillSwitchPolicy)
      → s.kill_switch ≡ some k
      → (b : Mapping String) × (release ≡ some b)
        × ((decide k b lifecycle operation).status ≡ "SUPPORTED")

  switch-returned :
      (k : Option KillSwitchPolicy) (release : Option (Mapping String))
      (lifecycle operation : String) (w : World) {u : Unit {0}} {v : World}
      → switch_decided s k release lifecycle operation w ≡ (ok u, v)
      → ((j : KillSwitchPolicy)
          → k ≡ some j
          → (b : Mapping String) × (release ≡ some b)
            × ((decide j b lifecycle operation).status ≡ "SUPPORTED"))
        × (w ≡ v)
  unfolding pure raise
  switch-returned none release lifecycle operation w h = (λ j e. cc, ap (λ q. q.1) h)
  switch-returned (some k) none lifecycle operation w h = cc
  switch-returned (some k) (some b) lifecycle operation w h =
      let (supported, same) = refuse-passed _ _ w h in
      (
        λ j e. (
          b,
          refl,
          subst (λ (x : KillSwitchPolicy). (decide x b lifecycle operation).status ≡ "SUPPORTED")
              (some-injective e)
              ((eq_iff (decide k b lifecycle operation).status "SUPPORTED").0
                (not-false _ supported)),
        ),
        same,
      )

  pub release_check-returned :
      (release : Option (Mapping String)) (lifecycle operation : String) (w : World) {u : Unit {0}}
      {v : World}
      → release_check s release lifecycle operation w ≡ (ok u, v)
      → SwitchOpen release lifecycle operation × (w ≡ v)
  unfolding release_check
  release_check-returned release lifecycle operation w h =
      switch-returned s.kill_switch release lifecycle operation w h
