-- ===== src/Store.antt =====
-- taskguard/v3/receipt_store.py: content-addressed receipts on disk, and the check of their graph.
pub mod Content
pub mod Graph
pub mod Soundness
pub mod Ancestors
pub mod Completeness
pub mod Json
use Prim.Native.String.{len}
use bricek4_ligong_skills.Base.{
  ℕ, zero, suc, String, Bool, true, false, not, ◌&&◌, ◌||◌, Option, none, some, List, [], ◌∷◌, ◌==◌,
  Outcome, ok, err, ◌>>=◌, ◌>>◌, raise_if, Mapping, get, contains, ltb, leb, length, if◌then◌else◌,
}
use bricek4_ligong_skills.Receipts.{ReceiptRef, RefError, new_ref, Receipt}

-- The writing and reading of a receipt and SHA-256 in hexadecimal. The theorems hold for any codec; `Json` makes one
-- of the canonical and strict JSON of the source and of the manifests of receipts.
pub record Codec : Type 0 where
  pub encode : Receipt → String
  pub decode : String → Option Receipt
  pub sha256 : String → String

-- A directory entry: a private single-link regular file with its bytes, or something that
-- `_read_blob` refuses (a link, a second link, a file replaced while it was read).
pub data Blob : Type 0 where
  file : String → Blob
  unsafe : Blob

-- `self.receipts`: the blobs under their digests.
abbrev pub Disk : Type 0
Disk = Mapping Blob

pub data IntegrityError : Type 0 where
  cannot_open unsafe_blob too_large bad_reference conflicting_blob invalid_blob mismatch :
      IntegrityError

-- `ReceiptGraphError`, which also wraps what `load` raises.
pub data GraphError : Type 0 where
  too_deep cyclic too_many : GraphError
  broken : IntegrityError → GraphError

abbrev pub max_blob_bytes : ℕ
max_blob_bytes = 1048576

-- `_read_blob`
abbrev pub read_blob : Option Blob → Outcome IntegrityError String
read_blob none = err cannot_open
read_blob (some unsafe) = err unsafe_blob
read_blob (some (file bytes)) = if ltb max_blob_bytes (len bytes) then err too_large else ok bytes

-- `ValueError` of the constructor of a reference.
abbrev to_ref : Outcome RefError ReceiptRef → Outcome IntegrityError ReceiptRef
to_ref (ok ref) = ok ref
to_ref (err e) = err bad_reference

-- The blob that is at the target already must be the one to be written.
abbrev keep_existing :
    Disk
    → ReceiptRef
    → String
    → Outcome IntegrityError String
    → Outcome IntegrityError (ReceiptRef × Disk)
keep_existing disk ref bytes (err e) = err e
keep_existing disk ref bytes (ok found) =
    if found == bytes then ok (ref, disk) else err conflicting_blob

-- `os.link(temporary, target)`, where `raced` is what another writer left at the target since the
-- test `target.exists()`.
abbrev link_new :
    Disk → ReceiptRef → String → Option Blob → Outcome IntegrityError (ReceiptRef × Disk)
link_new disk ref bytes none = ok (ref, (ref.digest, file bytes) ∷ disk)
link_new disk ref bytes (some blob) =
    keep_existing ((ref.digest, blob) ∷ disk) ref bytes (read_blob (some blob))

abbrev write_blob :
    Disk
    → ReceiptRef
    → String
    → Option Blob
    → Option Blob
    → Outcome IntegrityError (ReceiptRef × Disk)
write_blob disk ref bytes (some blob) raced = keep_existing disk ref bytes (read_blob (some blob))
write_blob disk ref bytes none raced = link_new disk ref bytes raced

module _ (c : Codec) where
  -- `Receipt.digest`
  abbrev pub digest : Receipt → String
  digest r = c.sha256 (c.encode r)

  -- `_put_locked`
  unfoldable pub put : Disk → Option Blob → Receipt → Outcome IntegrityError (ReceiptRef × Disk)
  put disk raced r = do
    raise_if (ltb max_blob_bytes (len (c.encode r))) too_large
    ref ← to_ref (new_ref (digest r) r.kind)
    write_blob disk ref (c.encode r) (get disk ref.digest) raced

  -- The checks that `load` makes on a receipt that was read.
  abbrev verified : ReceiptRef → String → Receipt → Outcome IntegrityError Receipt
  verified ref bytes r =
      if c.encode r == bytes && (digest r == ref.digest && r.kind == ref.kind)
      then ok r
      else err mismatch

  abbrev from_bytes : ReceiptRef → String → Option Receipt → Outcome IntegrityError Receipt
  from_bytes ref bytes none = err invalid_blob
  from_bytes ref bytes (some r) = verified ref bytes r

  -- `load`
  unfoldable pub load : Disk → ReceiptRef → Outcome IntegrityError Receipt
  load disk ref = do bytes ← read_blob (get disk ref.digest); from_bytes ref bytes (c.decode bytes)
