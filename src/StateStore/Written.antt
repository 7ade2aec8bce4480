-- ===== src/StateStore/Written.antt =====
-- What a write of taskguard/state.py leaves on disk, key by key.
use bricek4_ligong_skills.Base.{
  ◌≡◌, refl, ap, ◌∙◌, String, Option, none, some, [], ◌∷◌, ◌==◌, ◌⊎◌, inl, inr, ok, err, ltb, get,
  Value, Fields, str, end, field, find_field, if◌then◌else◌, arith, eq_iff, Bool-cases,
  Outcome-cases, ok-injective,
}
use bricek4_ligong_skills.StateStore.{
  Checked, Codec, text, Disk, put_field, drop_field, update_fields, max_state_bytes,
}
use bricek4_ligong_skills.StateStore.Files.{
  Fault, no_fault, after_temp_fsync, after_replace, write_unlocked, replace_entry, commit, checksum,
  sealed, sized,
}

pub find_field-put :
    (key : String) (value : Value) (fs : Fields) (k : String)
    → find_field (put_field key value fs) k ≡ (if key == k then some value else find_field fs k)
unfolding put_field
find_field-put key value end k = refl
find_field-put key value (field j v fs) k =
    ground (arith, eq_iff j key, eq_iff key k, eq_iff j k, find_field-put key value fs k)

pub find_field-drop :
    (key : String) (fs : Fields) (k : String)
    → find_field (drop_field key fs) k ≡ (if key == k then none else find_field fs k)
unfolding drop_field
find_field-drop key end k = ground arith
find_field-drop key (field j v fs) k =
    ground (arith, eq_iff j key, eq_iff key k, eq_iff j k, find_field-drop key fs k)

-- What the changes say of a key, or else what was there.
abbrev pub override : Fields → String → Option Value → Option Value
override end k o = o
override (field j v changes) k o = override changes k (if j == k then some v else o)

pub find_field-update :
    (changes fs : Fields) (k : String)
    → find_field (update_fields fs changes) k ≡ override changes k (find_field fs k)
unfolding update_fields
find_field-update end fs k = refl
find_field-update (field j v changes) fs k =
    find_field-update changes (put_field j v fs) k
    ∙ ap (override changes k) (find_field-put j v fs k)

pub get-replace :
    {Text : Type 0} (id : String) (t : Text) (disk : Disk Text) (j : String)
    → get (replace_entry id t disk) j ≡ (if id == j then some (text t) else get disk j)
unfolding replace_entry get
get-replace id t [] j = refl
get-replace id t ((i, e) ∷ disk) j =
    ground (arith, eq_iff i id, eq_iff id j, eq_iff i j, get-replace id t disk j)

module _ {Text : Type 0} (codec : Codec Text) (id : String) where
  -- The manifest of a payload took the place of the old one.
  abbrev pub IsWritten : Fields → Disk Text → Disk Text → Type 0
  IsWritten payload disk disk' =
      (digest : String) × (t : Text) × (codec.dumps (put_field "checksum" (str digest) payload)
        ≡ some t)
      × (disk' ≡ replace_entry id t disk)

  commit-IsWritten :
      (fault : Fault) (complete : Fields) (t : Text) (disk : Disk Text)
      → ((commit fault id complete t disk).1 ≡ disk)
        ⊎ ((commit fault id complete t disk).1 ≡ replace_entry id t disk)
  unfolding commit
  commit-IsWritten no_fault complete t disk = inr refl
  commit-IsWritten after_temp_fsync complete t disk = inl refl
  commit-IsWritten after_replace complete t disk = inr refl

  sized-some :
      (o : Option Text) (message : String) (t : Text) → sized codec o message ≡ ok t → o ≡ some t
  unfolding sized
  sized-some none message t h = absurd (cc h)
  sized-some (some u) message t h = elim (Bool-cases (ltb max_state_bytes (codec.size u))) [
    | inl large ↦ absurd (cc (rw (sized, large) at h))
    | inr fit ↦ let same : u ≡ t = ok-injective (rw (sized, fit) at h) in ap some same
  ]

  sealed-IsWritten :
      (payload : Fields) (fault : Fault) (digest : Checked String) (disk : Disk Text)
      → ((sealed codec id payload fault digest disk).1 ≡ disk)
        ⊎ IsWritten payload disk (sealed codec id payload fault digest disk).1
  sealed-IsWritten payload fault (err e) disk = inl refl
  sealed-IsWritten payload fault (ok digest) disk =
      let complete = put_field "checksum" (str digest) payload in
      let message : String = "state exceeds maximum serialized size" in
      elim (Outcome-cases (sized codec (codec.dumps complete) message)) [
        | inl (t, written) ↦
            let dumped = sized-some (codec.dumps complete) message t written in
            elim (commit-IsWritten fault complete t disk) [
              | inl same ↦ inl (rw written same)
              | inr replaced ↦ inr (digest, t, dumped, rw written replaced)
            ]
        | inr (e, failed) ↦ inl (rw failed)
      ]

  -- A write that changes the disk put the manifest of the payload, with its checksum, in place of the old one.
  pub write_unlocked-IsWritten :
      (payload : Fields) (fault : Fault) (disk : Disk Text)
      → ((write_unlocked codec id payload fault disk).1 ≡ disk)
        ⊎ IsWritten payload disk (write_unlocked codec id payload fault disk).1
  unfolding write_unlocked
  write_unlocked-IsWritten payload fault disk =
      sealed-IsWritten payload fault (checksum codec payload) disk

  commit-replaced :
      (fault : Fault) (complete : Fields) (t : Text) (disk : Disk Text) (p : Fields)
      → (commit fault id complete t disk).0 ≡ ok p
      → (commit fault id complete t disk).1 ≡ replace_entry id t disk
  unfolding commit
  commit-replaced no_fault complete t disk p h = refl
  commit-replaced after_temp_fsync complete t disk p h = absurd (cc h)
  commit-replaced after_replace complete t disk p h = refl

  sealed-returned :
      (payload : Fields) (fault : Fault) (digest : Checked String) (disk : Disk Text) (p : Fields)
      → (sealed codec id payload fault digest disk).0 ≡ ok p
      → IsWritten payload disk (sealed codec id payload fault digest disk).1
  sealed-returned payload fault (err e) disk p h = absurd (cc h)
  sealed-returned payload fault (ok digest) disk p h =
      let complete = put_field "checksum" (str digest) payload in
      let message : String = "state exceeds maximum serialized size" in
      elim (Outcome-cases (sized codec (codec.dumps complete) message)) [
        | inl (t, written) ↦ (
          digest,
          t,
          sized-some (codec.dumps complete) message t written,
          rw written (commit-replaced fault complete t disk p (rw written at h)),
        )
        | inr (e, failed) ↦ absurd (cc (rw failed at h))
      ]

  -- A write that returned wrote.
  pub write_unlocked-returned :
      (payload : Fields) (fault : Fault) (disk : Disk Text) (p : Fields)
      → (write_unlocked codec id payload fault disk).0 ≡ ok p
      → IsWritten payload disk (write_unlocked codec id payload fault disk).1
  unfolding write_unlocked
  write_unlocked-returned payload fault disk p h =
      sealed-returned payload fault (checksum codec payload) disk p h
