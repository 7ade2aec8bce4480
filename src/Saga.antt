-- ===== src/Saga.antt =====
-- taskguard/v3/saga.py: apply, reconcile and rollback of one external action, each step of which leaves a
-- receipt. The adapter, the authority consumer and the clock are the parameters of `Services`.
pub mod Quiet
pub mod Recovery
pub mod Returns
pub mod Guarded
pub mod Effects
pub mod Safety
pub mod Confirmed
pub mod RolledBack
pub mod Apply
pub mod Rollback
use bricek4_ligong_skills.Base.{
  ℕ, ◌+◌, ◌*◌, String, Bool, true, false, not, ◌&&◌, ◌||◌, Option, none, some, List, [], ◌∷◌, ◌++◌,
  ◌==◌, Outcome, ok, err, Mapping, get, get_value, Value, Items, Fields, nil, end, field, null,
  bool, int, str, list, tuple, dict, zero, is_text, is_true, ℤ, pos, leb_ℤ, ltb_ℤ, ◌-ℤ◌,
  if◌then◌else◌,
}
use bricek4_ligong_skills.Receipts.{
  ReceiptRef, Receipt, ReceiptError, new_receipt, receipt_version, sort_refs,
}
use bricek4_ligong_skills.Store.{Codec, Disk, IntegrityError, GraphError, put, load}
use bricek4_ligong_skills.Store.Graph.{verify_graph}
use bricek4_ligong_skills.Gates.KillSwitch.{KillSwitchPolicy, decide}

-- A call that the service makes to the world outside.
pub data Call : Type 0 where
  consumed : ReceiptRef → String → String → String → Call
  wrote : ReceiptRef → Call
  prepared : Mapping Value → Call
  applied : Mapping Value → Call
  reconciled : Mapping Value → Call
  rolled_back : Mapping Value → Call

-- What the adapter answers to a request: a response, or the name of the exception that it raises.
pub data Answer : Type 0 where
  response : Mapping Value → Answer
  raised : String → Answer

-- What the authority consumer does: it returns `True`, or something else, or raises the exception of a name.
pub data Consent : Type 0 where
  consents declines : Consent
  throws : String → Consent

abbrev pub Consumer : Type 0
Consumer = List Call → ReceiptRef → String → String → String → Consent

-- The answers of the adapter and of the authority consumer may depend on all calls before. The clock
-- gives microseconds, `stamp` writes an instant as the text of `issued_at`, and `instant_of` reads it.
-- `key_of` is the SHA-256 of the task, the action and the binding.
pub record Services : Type 0 where
  pub codec : Codec
  pub is_timestamp : String → Bool
  pub key_of : String → String → Mapping Value → String
  pub clock : ℕ → ℤ
  pub stamp : ℤ → String
  pub instant_of : String → ℤ
  pub prepare_answer : List Call → Mapping Value → Answer
  pub apply_answer : List Call → Mapping Value → Answer
  pub reconcile_answer : List Call → Mapping Value → Answer
  pub rollback_answer : List Call → Mapping Value → Answer
  pub consumer : Option Consumer
  pub kill_switch : Option KillSwitchPolicy

-- The receipts on disk, how often the clock was read, and the calls so far, the latest first.
pub record World : Type 0 where
  pub disk : Disk
  pub ticks : ℕ
  pub calls : List Call

pub data SagaError : Type 0 where
  binding_error : String → SagaError
  effect_unknown : ReceiptRef → String → SagaError
  integrity : IntegrityError → SagaError
  graph : GraphError → SagaError
  bad_receipt : ReceiptError → SagaError
  provider_raised : String → SagaError
  consumer_raised : String → SagaError
  missing_key : SagaError
  unhashable_state : SagaError

-- A method: what was written and called before a raise stays.
abbrev pub Saga : Type 0 → Type 0
Saga A = World → Outcome SagaError A × World

abbrev pub continue : {A B : Type 0} → Outcome SagaError A → (A → Saga B) → Saga B
continue (ok a) f w = f a w
continue (err e) f w = (err e, w)

infixl 5 ◌>>=◌ ◌>>◌
unfoldable pub ◌>>=◌ : {A B : Type 0} → Saga A → (A → Saga B) → Saga B
◌>>=◌ m f w = let (r, w') = m w in continue r f w'

abbrev pub ◌>>◌ : {A B : Type 0} → Saga A → Saga B → Saga B
m >> k = m >>= λ _. k

unfoldable pub pure : {A : Type 0} → A → Saga A
pure a w = (ok a, w)

unfoldable pub raise : {A : Type 0} → SagaError → Saga A
raise e w = (err e, w)

-- `if test: raise e`
unfoldable pub refuse : Bool → SagaError → Saga (Unit {0})
refuse true e w = (err e, w)
refuse false e w = (ok tt, w)

module _ (s : Services) where
  unfoldable pub now : Saga ℤ
  now w = (ok (s.clock w.ticks), record w { ticks = w.ticks + 1 })

  abbrev pub loaded : Outcome IntegrityError Receipt → World → Outcome SagaError Receipt × World
  loaded (ok r) w = (ok r, w)
  loaded (err e) w = (err (integrity e), w)

  unfoldable pub load_receipt : ReceiptRef → Saga Receipt
  load_receipt ref w = loaded (load s.codec w.disk ref) w

  abbrev pub verified : Outcome GraphError ℕ → World → Outcome SagaError (Unit {0}) × World
  verified (ok n) w = (ok tt, w)
  verified (err e) w = (err (graph e), w)

  unfoldable pub check_graph : List ReceiptRef → Saga (Unit {0})
  check_graph roots w = verified (verify_graph s.codec w.disk 4096 64 roots) w

  abbrev pub put_checked :
      Outcome IntegrityError (ReceiptRef × Disk) → World → Outcome SagaError ReceiptRef × World
  put_checked (err e) w = (err (integrity e), w)
  put_checked (ok (ref, disk)) w = (ok ref, record w { disk = disk; calls = wrote ref ∷ w.calls })

  abbrev pub put_new : Outcome ReceiptError Receipt → World → Outcome SagaError ReceiptRef × World
  put_new (err e) w = (err (bad_receipt e), w)
  put_new (ok r) w = put_checked (put s.codec w.disk none r) w

  -- `_receipt`. The write lock keeps other writers away from the target.
  unfoldable pub write_receipt :
      String → String → String → Mapping Value → Mapping Value → List ReceiptRef → Saga ReceiptRef
  write_receipt kind task_id action_id binding body parents = do
    t ← now
    put_new (
        new_receipt s.is_timestamp (record {
          version = receipt_version;
          kind = kind;
          task_id = task_id;
          action_id = some action_id;
          binding = binding;
          body = body;
          parents = sort_refs parents;
          issued_at = s.stamp t;
        }))

  abbrev pub decided :
      KillSwitchPolicy → Option (Mapping String) → String → String → Saga (Unit {0})
  decided policy none lifecycle operation =
      raise (binding_error "kill-switch scope binding is required")
  decided policy (some binding) lifecycle operation =
      let decision = decide policy binding lifecycle operation in
      refuse (not (decision.status == "SUPPORTED")) (binding_error decision.reason)

  abbrev pub switch_decided :
      Option KillSwitchPolicy → Option (Mapping String) → String → String → Saga (Unit {0})
  switch_decided none binding lifecycle operation = pure tt
  switch_decided (some policy) binding lifecycle operation =
      decided policy binding lifecycle operation

  -- `_release_check`
  unfoldable pub release_check : Option (Mapping String) → String → String → Saga (Unit {0})
  release_check binding lifecycle operation =
      switch_decided s.kill_switch binding lifecycle operation

  abbrev pub consented : Consent → Saga (Unit {0})
  consented consents = pure tt
  consented declines = raise (binding_error "AUTHORITY_CONSUMPTION_REJECTED")
  consented (throws name) = raise (consumer_raised name)

  -- The consumer's answer at this moment; the call itself is recorded, whatever comes of it.
  abbrev pub asked : Consumer → ReceiptRef → String → String → String → Saga (Unit {0})
  asked consumer ref operation task_id action_id w =
      consented (consumer w.calls ref operation task_id action_id)
        (record w { calls = consumed ref operation task_id action_id ∷ w.calls })

  abbrev pub consume_with :
      Option Consumer → ReceiptRef → String → String → String → Saga (Unit {0})
  consume_with none ref operation task_id action_id =
      raise (binding_error "NO_TRUSTED_AUTHORITY_CONSUMER")
  consume_with (some consumer) ref operation task_id action_id =
      asked consumer ref operation task_id action_id

  -- `_consume_authority`
  unfoldable pub consume_authority : ReceiptRef → String → String → String → Saga (Unit {0})
  consume_authority ref operation task_id action_id =
      consume_with s.consumer ref operation task_id action_id

  abbrev pub field_is : Mapping Value → String → String → Bool
  field_is m name text = is_text (get_value m name) text

  abbrev pub is_plan_for : String → Receipt → Bool
  is_plan_for target plan =
      plan.kind == "plan-receipt-v1" && field_is plan.binding "target_digest" target

  abbrev pub authorizes_apply : ReceiptRef → String → Receipt → Bool
  authorizes_apply plan_ref target authority =
      authority.kind == "authority-receipt-v1"
      && (field_is authority.binding "plan_digest" plan_ref.digest
          && (field_is authority.binding "target_digest" target
              && is_true (get_value authority.body "apply_authorized")))

  abbrev pub is_ready_for : ReceiptRef → ReceiptRef → String → Receipt → Bool
  is_ready_for plan_ref authority_ref target readiness =
      readiness.kind == "rollback-readiness-receipt-v1"
      && (field_is readiness.binding "plan_digest" plan_ref.digest
          && (field_is readiness.binding "authority_digest" authority_ref.digest
              && field_is readiness.binding "target_digest" target))

  -- `0 <= age <= max_readiness_age_seconds`, in microseconds.
  abbrev pub is_fresh : ℤ → Receipt → ℕ → Bool
  is_fresh t readiness max_age =
      let age = t -ℤ s.instant_of readiness.issued_at in
      leb_ℤ (pos 0) age && leb_ℤ age (pos (max_age * 1000000))

  -- `_require_apply_bindings`
  unfoldable pub require_apply_bindings :
      ReceiptRef → ReceiptRef → ReceiptRef → String → ℕ → Saga (Unit {0})
  require_apply_bindings plan_ref authority_ref readiness_ref target max_age = do
    plan ← load_receipt plan_ref
    authority ← load_receipt authority_ref
    readiness ← load_receipt readiness_ref
    refuse (not (is_plan_for target plan)) (binding_error "plan is not bound to the exact target")
    refuse (not (authorizes_apply plan_ref target authority))
        (binding_error "authority does not authorize this exact apply")
    refuse (not (is_ready_for plan_ref authority_ref target readiness))
        (binding_error "rollback readiness is not exactly bound")
    t ← now
    refuse (not (is_fresh t readiness max_age)) (binding_error "rollback readiness is stale")

  abbrev pub required_key : Option Value → Saga Value
  required_key none = raise missing_key
  required_key (some key) = pure key

  -- `self.receipts.load(ref).body["idempotency_key"]`
  unfoldable pub key_in : Receipt → Saga Value
  key_in r = required_key (get r.body "idempotency_key")

-- `not value` in a test.
abbrev pub is_falsy : Value → Bool
is_falsy null = true
is_falsy (bool b) = not b
is_falsy (int (pos zero)) = true
is_falsy (str String.[]) = true
is_falsy (list nil) = true
is_falsy (tuple nil) = true
is_falsy (dict end) = true
is_falsy _ = false

-- `{**m, k: v}`
unfoldable pub set_entry : Mapping Value → String → Value → Mapping Value
set_entry [] k v = (k, v) ∷ []
set_entry ((j, u) ∷ m) k v = if j == k then (k, v) ∷ m else (j, u) ∷ set_entry m k v

-- The request of a call: the task, the action, the key and the binding of the intent.
abbrev pub request_of : String → String → Value → Mapping Value → Mapping Value
request_of task_id action_id key binding =
    ("task_id", str task_id) ∷ ("action_id", str action_id) ∷ ("idempotency_key", key) ∷ binding

abbrev pub fields_of : Mapping Value → Fields
fields_of [] = end
fields_of ((k, v) ∷ m) = field k v (fields_of m)

abbrev pub dict_of : Mapping Value → Value
dict_of m = dict (fields_of m)
