-- ===== src/Examples/Release.antt =====
-- One action of a release (taskguard/v3/saga.py) with its receipts, an adapter and a consumer of authorities.
use bricek4_ligong_skills.Base.{
  ◌==◌, String, true, Option, some, List, [], ◌∷◌, Mapping, Value, bool, str, pos, if◌then◌else◌,
}
use bricek4_ligong_skills.Receipts.{ReceiptRef, Receipt, receipt_version}
use bricek4_ligong_skills.Store.{Codec, file, Disk}
use bricek4_ligong_skills.Gates.KillSwitch.{KillSwitchPolicy}
use bricek4_ligong_skills.Saga.{
  consents, Services, World, consumed, wrote, applied, response, raised, request_of,
}

abbrev pub plan_ref : ReceiptRef
plan_ref = record {
  digest = "000000000000000000000000000000000000000000000000000000000000000a";
  kind = "plan-receipt-v1";
}

abbrev pub authority_ref : ReceiptRef
authority_ref = record {
  digest = "000000000000000000000000000000000000000000000000000000000000000b";
  kind = "authority-receipt-v1";
}

abbrev pub readiness_ref : ReceiptRef
readiness_ref = record {
  digest = "000000000000000000000000000000000000000000000000000000000000000c";
  kind = "rollback-readiness-receipt-v1";
}

abbrev pub intent_ref : ReceiptRef
intent_ref = record {
  digest = "000000000000000000000000000000000000000000000000000000000000000d";
  kind = "apply-intent-receipt-v1";
}

abbrev pub effect_ref : ReceiptRef
effect_ref = record {
  digest = "000000000000000000000000000000000000000000000000000000000000000e";
  kind = "effect-receipt-v1";
}

abbrev pub rollback_intent_ref : ReceiptRef
rollback_intent_ref = record {
  digest = "00000000000000000000000000000000000000000000000000000000000000aa";
  kind = "rollback-intent-receipt-v1";
}

abbrev pub rollback_ref : ReceiptRef
rollback_ref = record {
  digest = "00000000000000000000000000000000000000000000000000000000000000bb";
  kind = "rollback-receipt-v1";
}

abbrev pub rollback_intent_binding : Mapping Value
rollback_intent_binding =
    ("effect_digest", str effect_ref.digest)
    ∷ ("rollback_readiness_digest", str readiness_ref.digest)
    ∷ ("authority_digest", str authority_ref.digest)
    ∷ []

abbrev pub rollback_reply : Mapping Value
rollback_reply = ("rollback_state", str "ROLLED_BACK") ∷ []

abbrev pub receipt_of : String → Mapping Value → Mapping Value → List ReceiptRef → Receipt
receipt_of kind binding body parents = record {
  version = receipt_version;
  kind = kind;
  task_id = "task-1";
  action_id = some "action-1";
  binding = binding;
  body = body;
  parents = parents;
  issued_at = "2026-01-01T00:00:00Z";
}

abbrev pub intent_binding : Mapping Value
intent_binding =
    ("plan_digest", str plan_ref.digest)
    ∷ ("authority_digest", str authority_ref.digest)
    ∷ ("rollback_readiness_digest", str readiness_ref.digest)
    ∷ ("target_digest", str "target-1")
    ∷ []

abbrev pub answer : Mapping Value
answer = ("effect_state", str "APPLIED") ∷ ("effect_revision", str "r7") ∷ []

abbrev pub stored : String → Receipt
stored kind =
    if kind == "plan-receipt-v1"
    then receipt_of kind (("target_digest", str "target-1") ∷ []) [] []
    else if kind == "authority-receipt-v1"
    then receipt_of kind
        (("plan_digest", str plan_ref.digest) ∷ ("target_digest", str "target-1") ∷ [])
        (("apply_authorized", bool true) ∷ ("rollback_authorized", bool true) ∷ []) (plan_ref ∷ [])
    else if kind == "rollback-readiness-receipt-v1"
    then receipt_of kind
        (("plan_digest", str plan_ref.digest)
          ∷ ("authority_digest", str authority_ref.digest)
          ∷ ("target_digest", str "target-1")
          ∷ [])
        [] (plan_ref ∷ authority_ref ∷ [])
    else if kind == "apply-intent-receipt-v1"
    then receipt_of kind intent_binding (("idempotency_key", str "key-1") ∷ [])
        (plan_ref ∷ authority_ref ∷ readiness_ref ∷ [])
    else if kind == "rollback-intent-receipt-v1"
    then receipt_of kind rollback_intent_binding (("idempotency_key", str "key-1") ∷ [])
        (authority_ref ∷ readiness_ref ∷ effect_ref ∷ [])
    else if kind == "rollback-receipt-v1"
    then receipt_of kind (("rollback_intent_digest", str rollback_intent_ref.digest) ∷ [])
        rollback_reply (rollback_intent_ref ∷ [])
    else receipt_of kind
        (("apply_intent_digest", str intent_ref.digest) ∷ ("target_digest", str "target-1") ∷ [])
        answer (intent_ref ∷ [])

abbrev pub codec : Codec
codec = record {
  encode = λ r. r.kind;
  decode = λ s. some (stored s);
  sha256 = λ s.
      if s == "plan-receipt-v1"
      then plan_ref.digest
      else if s == "authority-receipt-v1"
      then authority_ref.digest
      else if s == "rollback-readiness-receipt-v1"
      then readiness_ref.digest
      else if s == "apply-intent-receipt-v1"
      then intent_ref.digest
      else if s == "rollback-intent-receipt-v1"
      then rollback_intent_ref.digest
      else if s == "rollback-receipt-v1"
      then rollback_ref.digest
      else effect_ref.digest;
}

abbrev pub disk : Disk
disk =
    (plan_ref.digest, file plan_ref.kind)
    ∷ (authority_ref.digest, file authority_ref.kind)
    ∷ (readiness_ref.digest, file readiness_ref.kind)
    ∷ []

-- An adapter that applies at once, and a consumer that grants once.
abbrev pub services : Option KillSwitchPolicy → Services
services switch = record {
  codec = codec;
  is_timestamp = λ t. true;
  key_of = λ task action binding. "key-1";
  clock = λ n. pos 0;
  stamp = λ t. "2026-01-01T00:00:00Z";
  instant_of = λ t. pos 0;
  prepare_answer = λ calls request. raised "TimeoutError";
  apply_answer = λ calls request. response answer;
  reconcile_answer = λ calls request. response answer;
  rollback_answer = λ calls request. response rollback_reply;
  consumer = some (λ calls ref operation task action. consents);
  kill_switch = switch;
}

abbrev pub start : World
start = record { disk = disk; ticks = 0; calls = [] }

abbrev pub done : World
done = record {
  disk =
      (effect_ref.digest, file effect_ref.kind) ∷ (intent_ref.digest, file intent_ref.kind) ∷ disk;
  ticks = 3;
  calls =
      wrote effect_ref
      ∷ applied (request_of "task-1" "action-1" (str "key-1") intent_binding)
      ∷ wrote intent_ref
      ∷ consumed authority_ref "apply" "task-1" "action-1"
      ∷ [];
}
