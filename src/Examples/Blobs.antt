-- ===== src/Examples/Blobs.antt =====
-- Instances for receipts and their store (taskguard/v3/receipt_store.py).
use bricek4_ligong_skills.Base.{
  ◌≡◌, arith, ℕ, ◌≤◌, List, refl, ◌==◌, String, true, none, some, [], ◌∷◌, ok, contains, all,
  length, if◌then◌else◌, raise_if, get, is_sha256, has_nul,
}
use bricek4_ligong_skills.Receipts.{ReceiptRef, Receipt, receipt_version, digests_of, new_ref}
use bricek4_ligong_skills.Receipts.{new_receipt, are_sorted, are_unique, freeze_mapping}
use bricek4_ligong_skills.Receipts.Manifest.{
  is_ref, to_manifest, from_manifest, from_manifest-to_manifest,
}
use bricek4_ligong_skills.Store.{Codec, file, Disk, put, load}
use bricek4_ligong_skills.Store.Content.{load-put, load-put_stable}
use bricek4_ligong_skills.Store.Graph.{Visited, verify_graph, verify_from, visit_all, visit}
use bricek4_ligong_skills.Store.Ancestors.{IsGrounded}
use bricek4_ligong_skills.Store.Completeness.{verify_graph-succeeds}
use bricek4_ligong_skills.Store.Soundness.{IsSound, verify_graph-IsSound}

-- A codec for the two receipts below.
abbrev plan_digest : String
plan_digest = "00000000000000000000000000000000000000000000000000000000000000aa"

abbrev intent_digest : String
intent_digest = "00000000000000000000000000000000000000000000000000000000000000bb"

abbrev plan_ref : ReceiptRef
plan_ref = record { digest = plan_digest; kind = "plan-receipt-v1" }

abbrev intent_ref : ReceiptRef
intent_ref = record { digest = intent_digest; kind = "apply-intent-receipt-v1" }

abbrev plan_receipt : Receipt
plan_receipt = record {
  version = receipt_version;
  kind = "plan-receipt-v1";
  task_id = "task-1";
  action_id = none;
  binding = [];
  body = [];
  parents = [];
  issued_at = "2026-01-01T00:00:00Z";
}

abbrev intent_receipt : Receipt
intent_receipt = record {
  version = receipt_version;
  kind = "apply-intent-receipt-v1";
  task_id = "task-1";
  action_id = some "action-1";
  binding = [];
  body = [];
  parents = plan_ref ∷ [];
  issued_at = "2026-01-01T00:01:00Z";
}

abbrev codec : Codec
codec = record {
  encode = λ r. r.kind;
  decode = λ s. if s == "plan-receipt-v1" then some plan_receipt else some intent_receipt;
  sha256 = λ s. if s == "plan-receipt-v1" then plan_digest else intent_digest;
}

abbrev plan_disk : Disk
plan_disk = (plan_digest, file "plan-receipt-v1") ∷ []

abbrev both_disk : Disk
both_disk = (intent_digest, file "apply-intent-receipt-v1") ∷ plan_disk

intent_put : put codec plan_disk none intent_receipt ≡ ok (intent_ref, both_disk)
unfolding put new_ref raise_if get is_sha256 has_nul
intent_put = refl

plan_load : load codec plan_disk plan_ref ≡ ok plan_receipt
unfolding load get
plan_load = refl

load-put_example : load codec both_disk intent_ref ≡ ok intent_receipt
load-put_example = load-put codec plan_disk none intent_receipt intent_put refl

load-put_stable_example : load codec both_disk plan_ref ≡ ok plan_receipt
load-put_stable_example =
    load-put_stable codec plan_disk none intent_receipt intent_put plan_ref plan_receipt plan_load

graph_run : verify_graph codec both_disk 4096 64 (intent_ref ∷ []) ≡ ok 2
unfolding verify_graph verify_from visit_all visit raise_if load get contains
graph_run = refl

abbrev both_digests : List String
both_digests = intent_digest ∷ plan_digest ∷ []

both_loaded : load codec both_disk intent_ref ≡ ok intent_receipt
unfolding load get
both_loaded = refl

plan_still_loaded : load codec both_disk plan_ref ≡ ok plan_receipt
unfolding load get
plan_still_loaded = refl

intent-IsGrounded : IsGrounded codec both_disk both_digests 2 intent_ref
unfolding IsGrounded contains
intent-IsGrounded =
    (refl, (intent_receipt, both_loaded, ((refl, (plan_receipt, plan_still_loaded, tt)), tt)))

-- Two receipts, over one generation, are just as many as are allowed.
verify_graph-succeeds_example :
    (n : ℕ) × (verify_graph codec both_disk 2 1 (intent_ref ∷ []) ≡ ok n) × (n ≤ 2)
verify_graph-succeeds_example =
    verify_graph-succeeds codec both_disk both_digests 2 (omega arith) 1 (intent_ref ∷ [])
      (intent-IsGrounded, tt)

verify_graph-IsSound_example :
    (v : Visited) × IsSound codec both_disk v
    × (all (contains v) (digests_of (intent_ref ∷ [])) ≡ true)
    × (length v ≡ 2)
verify_graph-IsSound_example =
    verify_graph-IsSound codec both_disk 4096 64 (intent_ref ∷ []) graph_run

intent_made : new_receipt (λ t. true) intent_receipt ≡ ok intent_receipt
unfolding new_receipt raise_if has_nul are_sorted are_unique contains freeze_mapping
intent_made = refl

intent_parents : all is_ref intent_receipt.parents ≡ true
unfolding is_sha256 has_nul
intent_parents = refl

from_manifest-to_manifest_example :
    from_manifest (λ t. true) (to_manifest intent_receipt) ≡ ok intent_receipt
from_manifest-to_manifest_example =
    from_manifest-to_manifest (λ t. true) intent_receipt intent_made intent_parents
