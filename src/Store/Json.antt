-- ===== src/Store/Json.antt =====
-- The codec that taskguard/v3/receipt_store.py works with: `json` writes and reads the values, and the manifests of
-- `Receipt` make receipts of them.
use bricek4_ligong_skills.Base.{
  String, ◌≡◌, ◌∙◌, ap, Bool, true, Option, none, some, Outcome, ok, err, all, Value,
}
use bricek4_ligong_skills.Receipts.{ReceiptRef, Receipt, new_receipt}
use bricek4_ligong_skills.Receipts.Manifest.{
  ManifestError, is_ref, to_manifest, from_manifest, from_manifest-to_manifest,
}
use bricek4_ligong_skills.Store.{Codec, Blob, Disk, put, load}
use bricek4_ligong_skills.Store.Content.{load-put}

-- `canonical_json_bytes`, `loads_strict_json` and `sha256`, with the test of a timestamp.
pub record Json : Type 0 where
  pub dump : Value → String
  pub parse : String → Option Value
  pub sha256 : String → String
  pub is_timestamp : String → Bool

abbrev accepted_of : Outcome ManifestError Receipt → Option Receipt
accepted_of (ok r) = some r
accepted_of (err e) = none

abbrev pub read_by : Json → Option Value → Option Receipt
read_by j none = none
read_by j (some raw) = accepted_of (from_manifest j.is_timestamp raw)

abbrev pub json_codec : Json → Codec
json_codec j = record {
  encode = λ r. j.dump (to_manifest r);
  decode = λ text. read_by j (j.parse text);
  sha256 = j.sha256;
}

-- A receipt that its constructor made, with parents that theirs accepts, and that was put, is loaded again through
-- the reference, if the JSON text of its manifest is read back as that manifest.
pub load-put_json :
    (j : Json) (disk : Disk) (raced : Option Blob) (q : Receipt) {r : Receipt} {ref : ReceiptRef}
    {disk' : Disk}
    → new_receipt j.is_timestamp q ≡ ok r
    → all is_ref r.parents ≡ true
    → put (json_codec j) disk raced r ≡ ok (ref, disk')
    → j.parse (j.dump (to_manifest r)) ≡ some (to_manifest r)
    → load (json_codec j) disk' ref ≡ ok r
load-put_json j disk raced q {r} made parents done reads =
    load-put (json_codec j) disk raced r done (
      ap (read_by j) reads
      ∙ ap accepted_of (from_manifest-to_manifest j.is_timestamp q made parents))
