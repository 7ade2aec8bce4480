-- ===== src/Receipts/Manifest.antt =====
-- `to_manifest` and `from_manifest` of taskguard/receipts/refs.py and of taskguard/v3/receipts.py.
use bricek4_ligong_skills.Base.{
  String, ◌≡◌, refl, sym, subst, ap, ap₂, ◌∙◌, Bool, true, false, not, ◌&&◌, ◌||◌, Option, none,
  some, List, [], ◌∷◌, ◌==◌, Outcome, ok, err, ◌>>=◌, ◌>>◌, raise_if, raise_if-passed, ok-injective,
  Mapping, contains, all, is_sha256, is_blank, has_nul, and-true, Value, Items, Fields, null, bool,
  int, str, list, tuple, dict, nil, cons, end, field, find_field, or_null,
}
use bricek4_ligong_skills.Receipts.{
  ReceiptRef, RefError, new_ref, Receipt, ReceiptError, freeze_json, freeze_items, freeze_fields,
  thaw_json, thaw_items, thaw_fields, freeze_mapping, new_receipt, receipt_version, is_bad_text,
  is_bad_action, are_sorted, are_unique, digests_of,
}

pub data ManifestError : Type 0 where
  bad_shape not_array not_object : ManifestError
  bad_ref : RefError → ManifestError
  bad_receipt : ReceiptError → ManifestError

abbrev keys_of : Fields → List String
keys_of end = []
keys_of (field k v fs) = k ∷ keys_of fs

-- `set(value) == names`
abbrev has_keys : List String → Fields → Bool
has_keys names fs = all (contains names) (keys_of fs) && all (contains (keys_of fs)) names

abbrev fields_of : Value → ManifestError → Outcome ManifestError Fields
fields_of (dict fs) e = ok fs
fields_of _ e = err e

abbrev entry : Fields → String → Value
entry fs k = or_null (find_field fs k)

-- A value that is no text stands as the empty text, which the checks behind refuse as they refuse that value.
abbrev text_of : Value → String
text_of (str s) = s
text_of _ = ""

abbrev is_string : Value → Bool
is_string (str s) = true
is_string _ = false

abbrev ref_checked : Outcome RefError ReceiptRef → Outcome ManifestError ReceiptRef
ref_checked (ok r) = ok r
ref_checked (err e) = err (bad_ref e)

-- `ReceiptRef.to_manifest` and `ReceiptRef.from_manifest`
abbrev pub ref_to_manifest : ReceiptRef → Value
ref_to_manifest r = dict (field "digest" (str r.digest) (field "kind" (str r.kind) end))

unfoldable pub ref_from_manifest : Value → Outcome ManifestError ReceiptRef
ref_from_manifest value = do
  fs ← fields_of value bad_shape
  raise_if (not (has_keys ("digest" ∷ "kind" ∷ []) fs)) bad_shape
  raise_if (not (is_string (entry fs "digest")) || not (is_string (entry fs "kind"))) bad_shape
  ref_checked (new_ref (text_of (entry fs "digest")) (text_of (entry fs "kind")))

abbrev of_mapping : Mapping Value → Fields
of_mapping [] = end
of_mapping ((k, v) ∷ m) = field k v (of_mapping m)

abbrev to_mapping : Fields → Mapping Value
to_mapping end = []
to_mapping (field k v fs) = (k, v) ∷ to_mapping fs

abbrev pub refs_to_items : List ReceiptRef → Items
refs_to_items [] = nil
refs_to_items (r ∷ rs) = cons (ref_to_manifest r) (refs_to_items rs)

abbrev action_value : Option String → Value
action_value none = null
action_value (some a) = str a

-- `Receipt.to_manifest`
unfoldable pub to_manifest : Receipt → Value
to_manifest r = dict (
    field "version" (str r.version) (
      field "kind" (str r.kind) (
        field "task_id" (str r.task_id) (
          field "action_id" (action_value r.action_id) (
            field "binding" (dict (thaw_fields (of_mapping r.binding))) (
              field "body" (dict (thaw_fields (of_mapping r.body))) (
                field "parents" (list (refs_to_items r.parents))
                  (field "issued_at" (str r.issued_at) end))))))))

abbrev receipt_fields : List String
receipt_fields =
    "version" ∷ "kind" ∷ "task_id" ∷ "action_id" ∷ "binding" ∷ "body" ∷ "parents" ∷ "issued_at" ∷ []

abbrev action_of : Value → Option String
action_of null = none
action_of (str s) = some s
action_of _ = some ""

abbrev array_of : Value → Outcome ManifestError Items
array_of (list vs) = ok vs
array_of _ = err not_array

unfoldable pub refs_from_items : Items → Outcome ManifestError (List ReceiptRef)
refs_from_items nil = ok []
refs_from_items (cons v vs) = do r ← ref_from_manifest v; rs ← refs_from_items vs; ok (r ∷ rs)

abbrev receipt_checked : Outcome ReceiptError Receipt → Outcome ManifestError Receipt
receipt_checked (ok r) = ok r
receipt_checked (err e) = err (bad_receipt e)

-- `Receipt.from_manifest`
unfoldable pub from_manifest : (String → Bool) → Value → Outcome ManifestError Receipt
from_manifest is_timestamp raw = do
  fs ← fields_of raw bad_shape
  raise_if (not (has_keys receipt_fields fs)) bad_shape
  parents_raw ← array_of (entry fs "parents")
  binding ← fields_of (entry fs "binding") not_object
  body ← fields_of (entry fs "body") not_object
  parents ← refs_from_items parents_raw
  receipt_checked (
      new_receipt is_timestamp (record {
        version = text_of (entry fs "version");
        kind = text_of (entry fs "kind");
        task_id = text_of (entry fs "task_id");
        action_id = action_of (entry fs "action_id");
        binding = to_mapping binding;
        body = to_mapping body;
        parents = parents;
        issued_at = text_of (entry fs "issued_at");
      }))

-- A reference that its constructor accepts.
abbrev pub is_ref : ReceiptRef → Bool
is_ref r = is_sha256 r.digest && not (is_blank r.kind || has_nul r.kind)

not-true : (b : Bool) → not b ≡ true → b ≡ false
not-true true h = sym h
not-true false h = refl

ref-roundtrip : (r : ReceiptRef) → is_ref r ≡ true → ref_from_manifest (ref_to_manifest r) ≡ ok r
unfolding ref_from_manifest raise_if contains new_ref
ref-roundtrip r h =
    let (hex, named) = and-true (is_sha256 r.digest) _ h in rw (hex, not-true _ named) refl

refs-roundtrip :
    (rs : List ReceiptRef) → all is_ref rs ≡ true → refs_from_items (refs_to_items rs) ≡ ok rs
unfolding refs_from_items
refs-roundtrip [] h = refl
refs-roundtrip (r ∷ rs) h =
    let (first, rest) = and-true (is_ref r) (all is_ref rs) h in
    rw (ref-roundtrip r first, refs-roundtrip rs rest) refl

mutual
  unfolding freeze_json thaw_json

  refreeze_value : (v : Value) → freeze_json (thaw_json (freeze_json v)) ≡ freeze_json v
  refreeze_value null = refl
  refreeze_value (bool b) = refl
  refreeze_value (int n) = refl
  refreeze_value (str s) = refl
  refreeze_value (list vs) = ap tuple (refreeze_items vs)
  refreeze_value (tuple vs) = ap tuple (refreeze_items vs)
  refreeze_value (dict fs) = ap dict (refreeze_fields fs)

  refreeze_items : (vs : Items) → freeze_items (thaw_items (freeze_items vs)) ≡ freeze_items vs
  refreeze_items nil = refl
  refreeze_items (cons v vs) = rw (refreeze_value v, refreeze_items vs)

  refreeze_fields :
      (fs : Fields) → freeze_fields (thaw_fields (freeze_fields fs)) ≡ freeze_fields fs
  refreeze_fields end = refl
  refreeze_fields (field k v fs) = rw (refreeze_value v, refreeze_fields fs)

refreeze_mapping :
    (m : Mapping Value)
    → freeze_mapping (to_mapping (thaw_fields (of_mapping (freeze_mapping m)))) ≡ freeze_mapping m
unfolding freeze_mapping thaw_json
refreeze_mapping [] = refl
refreeze_mapping ((k, v) ∷ m) = rw (refreeze_value v, refreeze_mapping m)

-- The tests that the constructor of a receipt makes.
record IsAccepted (t : String → Bool) (q : Receipt) : Type 0 where
  version : not (q.version == receipt_version) ≡ false
  texts : (is_bad_text q.kind || is_bad_text q.task_id || is_bad_text q.issued_at) ≡ false
  action : is_bad_action q.action_id ≡ false
  timestamp : not (t q.issued_at) ≡ false
  sorted : not (are_sorted q.parents) ≡ false
  unique : not (are_unique (digests_of q.parents)) ≡ false

abbrev frozen : Receipt → Receipt
frozen q = record q { binding = freeze_mapping q.binding; body = freeze_mapping q.body }

new_receipt-IsAccepted :
    (t : String → Bool) (q : Receipt) {r : Receipt}
    → new_receipt t q ≡ ok r
    → IsAccepted t q × (frozen q ≡ r)
unfolding new_receipt
new_receipt-IsAccepted t q h =
    let (h₁, k₁) = raise_if-passed _ _ _ h in
    let (h₂, k₂) = raise_if-passed _ _ _ k₁ in
    let (h₃, k₃) = raise_if-passed _ _ _ k₂ in
    let (h₄, k₄) = raise_if-passed _ _ _ k₃ in
    let (h₅, k₅) = raise_if-passed _ _ _ k₄ in
    let (h₆, k₆) = raise_if-passed _ _ _ k₅ in
    (
      record { version = h₁; texts = h₂; action = h₃; timestamp = h₄; sorted = h₅; unique = h₆ },
      ok-injective k₆,
    )

rebound :
    (t : String → Bool) (q : Receipt) (b c : Mapping Value)
    → IsAccepted t q
    → new_receipt t (record q { binding = b; body = c })
      ≡ ok (record q { binding = freeze_mapping b; body = freeze_mapping c })
unfolding new_receipt raise_if
rebound t q b c a = rw (a.version, a.texts, a.action, a.timestamp, a.sorted, a.unique) refl

action_roundtrip : (o : Option String) → action_of (action_value o) ≡ o
action_roundtrip none = refl
action_roundtrip (some a) = refl

abbrev thawed : Mapping Value → Mapping Value
thawed m = to_mapping (thaw_fields (of_mapping (freeze_mapping m)))

read_back :
    (t : String → Bool) (q : Receipt)
    → IsAccepted t q
    → all is_ref q.parents ≡ true
    → from_manifest t (to_manifest (frozen q))
      ≡ receipt_checked
          (new_receipt t (record q { binding = thawed q.binding; body = thawed q.body }))
unfolding from_manifest to_manifest raise_if contains
read_back t q a valid = rw (refs-roundtrip q.parents valid, action_roundtrip q.action_id) refl

-- A receipt that its constructor made, whose parents are references that theirs accepts, is read back unchanged
-- from its manifest.
pub from_manifest-to_manifest :
    (is_timestamp : String → Bool) (q : Receipt) {r : Receipt}
    → new_receipt is_timestamp q ≡ ok r
    → all is_ref r.parents ≡ true
    → from_manifest is_timestamp (to_manifest r) ≡ ok r
from_manifest-to_manifest t q {r} h valid =
    let (accepted, same) = new_receipt-IsAccepted t q h in
    subst (λ x. from_manifest t (to_manifest x) ≡ ok x) same
      (read_back t q accepted (ap (λ (x : Receipt). all is_ref x.parents) same ∙ valid)
        ∙ ap receipt_checked (rebound t q (thawed q.binding) (thawed q.body) accepted)
        ∙ ap₂ (λ b c. ok (record q { binding = b; body = c })) (refreeze_mapping q.binding)
            (refreeze_mapping q.body))
