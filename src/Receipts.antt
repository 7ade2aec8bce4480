-- ===== src/Receipts.antt =====
-- taskguard/receipts/refs.py, taskguard/v3/receipts.py and the freezing of JSON values in
-- taskguard/validation.py: receipts and the references to them.
pub mod Frozen
pub mod Manifest
use Prim.Native.String.{compare}
use text.Mathlib.Text.{is_lt}
use bricek4_ligong_skills.Base.{
  ℕ, String, Bool, true, false, not, ◌&&◌, ◌||◌, Option, none, some, List, [], ◌∷◌, ◌==◌, Outcome,
  ok, err, ◌>>=◌, ◌>>◌, raise_if, Mapping, Value, Items, Fields, nil, cons, end, field, null, bool,
  int, str, list, tuple, dict, is_blank, has_nul, is_sha256, contains, map, if◌then◌else◌,
}

pub record ReceiptRef : Type 0 where
  pub digest : String
  pub kind : String

pub data RefError : Type 0 where
  bad_digest bad_kind : RefError

-- `ReceiptRef.__post_init__`
unfoldable pub new_ref : String → String → Outcome RefError ReceiptRef
new_ref digest kind = do
  raise_if (not (is_sha256 digest)) bad_digest
  raise_if (is_blank kind || has_nul kind) bad_kind
  ok (record { digest = digest; kind = kind })

pub record Receipt : Type 0 where
  pub version : String
  pub kind : String
  pub task_id : String
  pub action_id : Option String
  pub binding : Mapping Value
  pub body : Mapping Value
  pub parents : List ReceiptRef
  pub issued_at : String

-- `freeze_json`: lists become tuples at every depth.
unfoldable mutual
  pub freeze_json : Value → Value
  freeze_json null = null
  freeze_json (bool b) = bool b
  freeze_json (int n) = int n
  freeze_json (str s) = str s
  freeze_json (list vs) = tuple (freeze_items vs)
  freeze_json (tuple vs) = tuple (freeze_items vs)
  freeze_json (dict fs) = dict (freeze_fields fs)

  pub freeze_items : Items → Items
  freeze_items nil = nil
  freeze_items (cons v vs) = cons (freeze_json v) (freeze_items vs)

  pub freeze_fields : Fields → Fields
  freeze_fields end = end
  freeze_fields (field k v fs) = field k (freeze_json v) (freeze_fields fs)

-- `thaw_json`: tuples become lists at every depth.
unfoldable mutual
  pub thaw_json : Value → Value
  thaw_json null = null
  thaw_json (bool b) = bool b
  thaw_json (int n) = int n
  thaw_json (str s) = str s
  thaw_json (list vs) = list vs
  thaw_json (tuple vs) = list (thaw_items vs)
  thaw_json (dict fs) = dict (thaw_fields fs)

  pub thaw_items : Items → Items
  thaw_items nil = nil
  thaw_items (cons v vs) = cons (thaw_json v) (thaw_items vs)

  pub thaw_fields : Fields → Fields
  thaw_fields end = end
  thaw_fields (field k v fs) = field k (thaw_json v) (thaw_fields fs)

-- `freeze_json(dict(value))` on a mapping.
unfoldable pub freeze_mapping : Mapping Value → Mapping Value
freeze_mapping [] = []
freeze_mapping ((k, v) ∷ m) = (k, freeze_json v) ∷ freeze_mapping m

pub data ReceiptError : Type 0 where
  bad_version empty_field bad_action bad_timestamp unsorted_parents repeated_parents : ReceiptError

abbrev is_bad_text : String → Bool
is_bad_text s = is_blank s || has_nul s

abbrev is_bad_action : Option String → Bool
is_bad_action none = false
is_bad_action (some a) = is_blank a

-- The order of the keys `(item.digest, item.kind)`; equal keys may stand side by side.
abbrev le_ref : ReceiptRef → ReceiptRef → Bool
le_ref a b =
    if a.digest == b.digest
    then not (is_lt (compare b.kind a.kind))
    else is_lt (compare a.digest b.digest)

-- `tuple(sorted(parents, key=...)) == parents`
unfoldable pub are_sorted : List ReceiptRef → Bool
are_sorted [] = true
are_sorted (a ∷ []) = true
are_sorted (a ∷ b ∷ refs) = le_ref a b && are_sorted (b ∷ refs)

abbrev pub digests_of : List ReceiptRef → List String
digests_of [] = []
digests_of (r ∷ refs) = r.digest ∷ digests_of refs

-- `len(set(digests)) == len(digests)`
unfoldable pub are_unique : List String → Bool
are_unique [] = true
are_unique (d ∷ ds) = not (contains ds d) && are_unique ds

abbrev pub receipt_version : String
receipt_version = "taskguard-receipt-v1"

-- `Receipt.__post_init__`, with `datetime.fromisoformat` as the test `is_timestamp`.
unfoldable pub new_receipt : (String → Bool) → Receipt → Outcome ReceiptError Receipt
new_receipt is_timestamp r = do
  raise_if (not (r.version == receipt_version)) bad_version
  raise_if (is_bad_text r.kind || is_bad_text r.task_id || is_bad_text r.issued_at) empty_field
  raise_if (is_bad_action r.action_id) bad_action
  raise_if (not (is_timestamp r.issued_at)) bad_timestamp
  raise_if (not (are_sorted r.parents)) unsorted_parents
  raise_if (not (are_unique (digests_of r.parents))) repeated_parents
  ok (record r { binding = freeze_mapping r.binding; body = freeze_mapping r.body })

-- `sorted(parents, key=...)`, as `SagaService._receipt` sorts them.
unfoldable pub insert_ref : ReceiptRef → List ReceiptRef → List ReceiptRef
insert_ref a [] = a ∷ []
insert_ref a (b ∷ refs) = if le_ref a b then a ∷ b ∷ refs else b ∷ insert_ref a refs

unfoldable pub sort_refs : List ReceiptRef → List ReceiptRef
unfolding insert_ref
sort_refs [] = []
sort_refs (a ∷ refs) = insert_ref a (sort_refs refs)
