-- ===== src/Store/Content.antt =====
-- Putting and loading receipts (taskguard/v3/receipt_store.py).
use Prim.Native.String.{len}
use bricek4_ligong_skills.Base.{
  String, ◌≡◌, refl, sym, subst, ap, ◌∙◌, ◌⊎◌, inl, inr, Bool, true, false, ◌&&◌, Option, none,
  some, ◌∷◌, arith, ◌==◌, eq_iff, eq_refl, Outcome, ok, err, raise_if, raise_if-passed, >>=-eq-ok,
  ok-injective, get, ltb, and-true, Bool-cases,
}
use bricek4_ligong_skills.Receipts.{ReceiptRef, new_ref, Receipt}
use bricek4_ligong_skills.Store.{
  Codec, Blob, file, unsafe, Disk, IntegrityError, max_blob_bytes, read_blob, to_ref, keep_existing,
  write_blob, digest, put, from_bytes, load,
}

-- Where a blob is read, it is a file of these bytes.
read-file :
    (found : Option Blob) {bytes : String} → read_blob found ≡ ok bytes → found ≡ some (file bytes)
read-file none h = cc
read-file (some unsafe) h = cc
read-file (some (file b)) h = ground arith

module _ (c : Codec) where
  verified_test : ReceiptRef → String → Receipt → Bool
  verified_test ref bytes r =
      c.encode r == bytes && (digest c r == ref.digest && r.kind == ref.kind)

  from_bytes-ok :
      (ref : ReceiptRef) (bytes : String) (o : Option Receipt) {r : Receipt}
      → from_bytes c ref bytes o ≡ ok r
      → (o ≡ some r) × (verified_test ref bytes r ≡ true)
  unfolding verified_test
  from_bytes-ok ref bytes none h = cc
  from_bytes-ok ref bytes (some q) {r} h = elim (Bool-cases (verified_test ref bytes q)) [
    | inl t ↦ let same : q ≡ r = ok-injective (rw t at h) in (ap some same, rw (← same) t)
    | inr f ↦ cc (rw f at h)
  ]

  -- What a load returns was decoded from the bytes of the blob.
  pub load_decoded :
      (disk : Disk) (ref : ReceiptRef) {r : Receipt}
      → load c disk ref ≡ ok r
      → (bytes : String) × (read_blob (get disk ref.digest) ≡ ok bytes) × (c.decode bytes ≡ some r)
  unfolding load
  load_decoded disk ref h =
      let (bytes, found, h₁) = >>=-eq-ok (read_blob (get disk ref.digest)) _ h in
      (bytes, found, (from_bytes-ok ref bytes (c.decode bytes) h₁).0)

  -- What a load that returns has checked.
  pub load_intact :
      (disk : Disk) (ref : ReceiptRef) {r : Receipt}
      → load c disk ref ≡ ok r
      → (get disk ref.digest ≡ some (file (c.encode r)))
        × (digest c r ≡ ref.digest)
        × (r.kind ≡ ref.kind)
  unfolding load verified_test
  load_intact disk ref {r} h =
      let (bytes, found, h₁) = >>=-eq-ok (read_blob (get disk ref.digest)) _ h in
      let (decoded, test) = from_bytes-ok ref bytes (c.decode bytes) h₁ in
      let (at_bytes, rest) = and-true (c.encode r == bytes) _ test in
      let (at_digest, at_kind) = and-true (digest c r == ref.digest) _ rest in
      (
        read-file (get disk ref.digest) found
            ∙ ap (λ b. some (file b)) (sym ((eq_iff (c.encode r) bytes).0 at_bytes)),
        (eq_iff (digest c r) ref.digest).0 at_digest,
        (eq_iff r.kind ref.kind).0 at_kind,
      )

  -- Two disks with the same blob under a digest load the same.
  load-same_blob :
      (disk disk' : Disk) (ref : ReceiptRef)
      → get disk ref.digest ≡ get disk' ref.digest
      → load c disk ref ≡ load c disk' ref
  unfolding load
  load-same_blob disk disk' ref e = rw e

  -- A put that returns: the reference, the blob that stands under it, and what was there before.
  record IsPut (disk : Disk) (r : Receipt) (ref : ReceiptRef) (disk' : Disk) : Type 0 where
    at_digest : ref.digest ≡ digest c r
    at_kind : ref.kind ≡ r.kind
    fits : ltb max_blob_bytes (len (c.encode r)) ≡ false
    stored : get disk' ref.digest ≡ some (file (c.encode r))
    kept :
        (disk' ≡ disk)
        ⊎ ((get disk ref.digest ≡ none) × ((blob : Blob) × (disk' ≡ (ref.digest, blob) ∷ disk)))

  to_ref-new_ref :
      (d k : String) {ref : ReceiptRef}
      → to_ref (new_ref d k) ≡ ok ref
      → (ref.digest ≡ d) × (ref.kind ≡ k)
  unfolding new_ref raise_if
  to_ref-new_ref d k h = ground arith

  existing :
      (disk : Disk) (ref : ReceiptRef) (bytes : String) (m : Outcome IntegrityError String)
      {ref' : ReceiptRef} {disk' : Disk}
      → keep_existing disk ref bytes m ≡ ok (ref', disk')
      → (m ≡ ok bytes) × (ref ≡ ref') × (disk ≡ disk')
  existing disk ref bytes (err e) h = cc
  existing disk ref bytes (ok found) {ref'} {disk'} h = elim (Bool-cases (found == bytes)) [
    | inr f ↦ cc (rw f at h)
    | inl t ↦
        let pair : ◌≡◌ {A = ReceiptRef × Disk} (ref, disk) (ref', disk') =
          ok-injective (rw t at h) in
        (ap ok ((eq_iff found bytes).0 t), ap (λ p. p.0) pair, ap (λ p. p.1) pair)
  ]

  get-head : (d : String) (blob : Blob) (disk : Disk) → get ((d, blob) ∷ disk) d ≡ some blob
  unfolding get
  get-head d blob disk = rw eq_refl

  written :
      (disk : Disk) (ref : ReceiptRef) (bytes : String) (found raced : Option Blob)
      {ref' : ReceiptRef} {disk' : Disk}
      → get disk ref.digest ≡ found
      → write_blob disk ref bytes found raced ≡ ok (ref', disk')
      → (ref ≡ ref')
        × (get disk' ref.digest ≡ some (file bytes))
        × ((disk' ≡ disk)
            ⊎ ((found ≡ none) × ((blob : Blob) × (disk' ≡ (ref.digest, blob) ∷ disk))))
  written disk ref bytes none none {ref'} {disk'} e h =
      let pair : ◌≡◌ {A = ReceiptRef × Disk} (ref, (ref.digest, file bytes) ∷ disk) (ref', disk') =
        ok-injective h in
      let same : (ref.digest, file bytes) ∷ disk ≡ disk' = ap (λ p. p.1) pair in
      (
        ap (λ p. p.0) pair,
        rw (← same) (get-head ref.digest (file bytes) disk),
        inr (refl, (file bytes, sym same)),
      )
  written disk ref bytes none (some blob) {ref'} {disk'} e h =
      let (read, same_ref, same) =
        existing ((ref.digest, blob) ∷ disk) ref bytes (read_blob (some blob)) h in
      (
        same_ref,
        rw (← same) (get-head ref.digest blob disk ∙ read-file (some blob) read),
        inr (refl, (blob, sym same)),
      )
  written disk ref bytes (some blob) raced {ref'} {disk'} e h =
      let (read, same_ref, same) = existing disk ref bytes (read_blob (some blob)) h in
      (same_ref, rw (← same) (e ∙ read-file (some blob) read), inl (sym same))

  put-IsPut :
      (disk : Disk) (raced : Option Blob) (r : Receipt) {ref : ReceiptRef} {disk' : Disk}
      → put c disk raced r ≡ ok (ref, disk')
      → IsPut disk r ref disk'
  unfolding put
  put-IsPut disk raced r {ref} {disk'} h =
      let (fits, h₁) = raise_if-passed _ _ _ h in
      let (made, named, h₂) = >>=-eq-ok (to_ref (new_ref (digest c r) r.kind)) _ h₁ in
      let (at_digest, at_kind) = to_ref-new_ref (digest c r) r.kind named in
      let (same, stored, kept) =
        written disk made (c.encode r) (get disk made.digest) raced refl h₂ in
      subst (λ x. IsPut disk r x disk') same
        (record {
          at_digest = at_digest;
          at_kind = at_kind;
          fits = fits;
          stored = stored;
          kept = kept;
        })

  -- A receipt that was put is loaded again through the reference that `put` returned, if its canonical
  -- text reads back as the receipt; this holds whether the blob was new, was there or appeared meanwhile.
  pub load-put :
      (disk : Disk) (raced : Option Blob) (r : Receipt) {ref : ReceiptRef} {disk' : Disk}
      → put c disk raced r ≡ ok (ref, disk')
      → c.decode (c.encode r) ≡ some r
      → load c disk' ref ≡ ok r
  unfolding load
  load-put disk raced r {ref} h readable =
      let done = put-IsPut disk raced r h in
      rw (done.stored, done.fits, readable, done.at_digest, done.at_kind) (simp eq_refl)

  not_hidden :
      (disk : Disk) (d : String) (blob : Blob) (other : ReceiptRef) (q : Receipt)
      → get disk d ≡ none
      → load c disk other ≡ ok q
      → get disk other.digest ≡ get ((d, blob) ∷ disk) other.digest
  unfolding get
  not_hidden disk d blob other q missing loaded =
      let there : get disk other.digest ≡ some (file (c.encode q)) =
        (load_intact disk other loaded).0 in
      ground (arith, eq_iff d other.digest)

  -- A put never changes what another reference, or the same one, loads: receipts are immutable.
  pub load-put_stable :
      (disk : Disk) (raced : Option Blob) (r : Receipt) {ref : ReceiptRef} {disk' : Disk}
      → put c disk raced r ≡ ok (ref, disk')
      → (other : ReceiptRef) (q : Receipt) → load c disk other ≡ ok q
      → load c disk' other ≡ ok q
  load-put_stable disk raced r {ref} h other q loaded =
      let done = put-IsPut disk raced r h in
      elim done.kept [
        | inl same ↦ rw same loaded
        | inr (missing, (blob, added)) ↦ rw added (
            sym (
              load-same_blob disk ((ref.digest, blob) ∷ disk) other
                (not_hidden disk ref.digest blob other q missing loaded))
            ∙ loaded)
      ]
