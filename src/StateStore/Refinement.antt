-- ===== src/StateStore/Refinement.antt =====
-- The state store of taskguard/state.py implements the table of rows.
use cubical.Cubical.Foundations.Prelude.{fun_ext}
use bricek4_ligong_skills.Base.{
  ℕ, ◌+◌, ◌≡◌, ap, ◌∙◌, String, true, false, not, Option, none, some, ◌==◌, ok, >>=-elim,
  raise_if-passed, true_of_not, Value, Fields, str, int, pos, negsuc, dict, null, bool, list, tuple,
  find_field, or_null, get, is_text, if◌then◌else◌, arith, Bool-cases, Option-cases, Outcome-cases,
  inl, inr, ◌⊎◌,
}
use bricek4_ligong_skills.StateStore.{
  Codec, Entry, text, Disk, put_field, drop_field, update_fields, operation_id, owner_of,
  is_protected, protected_update_fields, item,
}
use bricek4_ligong_skills.StateStore.Files.{Fault, no_fault, load_unlocked}
use bricek4_ligong_skills.StateStore.Files.Loaded.{load_unlocked-read}
use bricek4_ligong_skills.StateStore.Operations.{
  new_payload, next_payload, is_revision, name_exists, create, create_checked, create_locked,
  update, update_checked, update_locked, update_loaded, revision_of, disposition, disposed,
  disposition_checked, Update,
}
use bricek4_ligong_skills.StateStore.Written.{
  override, find_field-put, find_field-drop, find_field-update, get-replace, IsWritten,
  write_unlocked-IsWritten,
}
use bricek4_ligong_skills.StateStore.Table.{
  Row, Table, set_row, without_checksum, new_row, next_row, Step, opened, revised,
}

-- What the reader gives back of a written manifest: an object with the same keys and values.
pub record IsFaithful {Text : Type 0} (codec : Codec Text) : Type 0 where
  pub reads :
      (fs : Fields) (t : Text)
      → codec.dumps fs ≡ some t
      → (gs : Fields) × (codec.loads t ≡ some (dict gs))
        × ((k : String) → find_field gs k ≡ find_field fs k)

abbrev pub row_of : Fields → Row
row_of fs = without_checksum (find_field fs)

abbrev row_in : Option Value → Option Row
row_in (some (dict fs)) = some (row_of fs)
row_in _ = none

abbrev row_at : {Text : Type 0} → Codec Text → Option (Entry Text) → Option Row
row_at codec (some (text t)) = row_in (codec.loads t)
row_at codec _ = none

-- The table that a disk stands for.
abbrev pub table : {Text : Type 0} → Codec Text → Disk Text → Table
table codec disk id = row_at codec (get disk id)

checksum_twice :
    (k : String) (o : Option Value) (v : Value)
    → (if "checksum" == k then none else if "checksum" == k then some v else o)
      ≡ (if "checksum" == k then none else o)
checksum_twice k o v = elim (Bool-cases ("checksum" == k)) [ inl e ↦ rw e | inr e ↦ rw e ]

-- A revision that is equal to a number is that number.
pub revision_of_value :
    (o : Option Value) (n : ℕ) → is_revision (or_null o) n ≡ true → o ≡ some (int (pos n))
unfolding is_revision
revision_of_value (some (int (pos m))) n h = let e : m ≡ n = ground arith in rw e
revision_of_value (some (int (negsuc m))) n h = absurd (cc h)
revision_of_value none n h = absurd (cc h)
revision_of_value (some null) n h = absurd (cc h)
revision_of_value (some (bool b)) n h = absurd (cc h)
revision_of_value (some (str s)) n h = absurd (cc h)
revision_of_value (some (list vs)) n h = absurd (cc h)
revision_of_value (some (tuple vs)) n h = absurd (cc h)
revision_of_value (some (dict fs)) n h = absurd (cc h)

revision_at :
    (current : Fields) (n : ℕ)
    → is_revision (item current "revision") n ≡ true
    → row_of current "revision" ≡ some (int (pos n))
unfolding item
revision_at current n h = revision_of_value (find_field current "revision") n h

get_of_missing :
    {Text : Type 0} (id : String) (disk : Disk Text)
    → name_exists id disk ≡ false
    → get disk id ≡ none
unfolding name_exists
get_of_missing id disk missing = elim (Option-cases (get disk id)) [
  | inl none_there ↦ none_there
  | inr (e, found) ↦ absurd (cc (rw (found, name_exists) at missing))
]

unprotected :
    (id revision owner : Value) (changes : Fields) (u : Update)
    → update_checked id revision owner changes ≡ ok u
    → is_protected protected_update_fields changes ≡ false
unfolding update_checked
unprotected id revision owner changes u h = >>=-elim (operation_id id) _ h λ i _ h1.
    >>=-elim (owner_of owner) _ h1 λ o _ h2.
      >>=-elim (revision_of revision) _ h2
        λ r _ h3. (raise_if-passed (is_protected protected_update_fields changes) _ _ h3).0

module _ {Text : Type 0} (codec : Codec Text) (faithful : IsFaithful codec) where
  row_of-written :
      (payload : Fields) (digest : String) (t : Text)
      → codec.dumps (put_field "checksum" (str digest) payload) ≡ some t
      → row_in (codec.loads t) ≡ some (row_of payload)
  row_of-written payload digest t dumped =
      let (gs, read, same) = faithful.reads _ t dumped in
      rw read (
        ap some (
          fun_ext λ k.
            ap (λ o. if "checksum" == k then none else o)
              (same k ∙ find_field-put "checksum" (str digest) payload k)
            ∙ checksum_twice k (find_field payload k) (str digest)))

  pub table-written :
      (id : String) (payload : Fields) (disk disk' : Disk Text)
      → IsWritten codec id payload disk disk'
      → table codec disk' ≡ set_row id (row_of payload) (table codec disk)
  table-written id payload disk disk' (digest, t, dumped, replaced) = fun_ext λ j.
      ap (λ d. row_at codec (get d j)) replaced
      ∙ (ap (row_at codec) (get-replace id t disk j) ∙ elim (Bool-cases (id == j)) [
        | inl same ↦ rw same (row_of-written payload digest t dumped)
        | inr other ↦ rw other
      ])

  -- A method leaves the table as it was, or takes one step in it.
  abbrev pub Refines : Disk Text → Disk Text → Type 0
  Refines disk disk' = (disk' ≡ disk) ⊎ Step (table codec disk) (table codec disk')

  row_of-new :
      (id owner : String) (fields : Fields)
      → row_of (update_fields (new_payload id owner) fields) ≡ new_row id owner fields
  row_of-new id owner fields = fun_ext λ k.
      ap (λ o. if "checksum" == k then none else o)
        (find_field-update fields (new_payload id owner) k)

  pub row_of-next :
      (current changes : Fields) (n : ℕ)
      → row_of (next_payload current changes n) ≡ next_row (row_of current) changes n
  row_of-next current changes n = fun_ext λ k.
      ap (λ o. if "checksum" == k then none else o)
        (find_field-put "revision" (int (pos (n + 1)))
            (update_fields (drop_field "checksum" current) changes) k
          ∙ ap (λ o. if "revision" == k then some (int (pos (n + 1))) else o)
              (find_field-update changes (drop_field "checksum" current) k
                ∙ ap (override changes k) (find_field-drop "checksum" current k)))

  create_locked-Refines :
      (id owner : String) (fields : Fields) (disk : Disk Text)
      → Refines disk (create_locked codec fields (id, owner) disk).1
  unfolding create_locked
  create_locked-Refines id owner fields disk = elim (Bool-cases (name_exists id disk)) [
    | inl found ↦ inl (rw found)
    | inr missing ↦
        rw missing
          (elim (write_unlocked-IsWritten codec id (update_fields (new_payload id owner) fields)
            no_fault disk) [
              | inl same ↦ inl same
              | inr written ↦ inr (
                  opened id owner fields (ap (row_at codec) (get_of_missing id disk missing)) (
                    table-written id _ disk _ written
                    ∙ ap (λ r. set_row id r (table codec disk)) (row_of-new id owner fields)))
            ])
  ]

  pub create-Refines :
      (id owner : Value) (fields : Fields) (disk : Disk Text)
      → Refines disk (create codec id owner fields disk).1
  unfolding create
  create-Refines id owner fields disk = elim (Outcome-cases (create_checked id owner fields)) [
    | inl ((i, o), passed) ↦ rw passed (create_locked-Refines i o fields disk)
    | inr (e, failed) ↦ inl (rw failed)
  ]

  -- What was loaded is the row of the table.
  pub load_unlocked-row :
      (id : String) (disk : Disk Text) (current : Fields)
      → load_unlocked codec id disk ≡ ok current
      → table codec disk id ≡ some (row_of current)
  load_unlocked-row id disk current h =
      let (t, found, read, _) = load_unlocked-read codec id disk current h in
      ap (row_at codec) found ∙ ap row_in read

  update_loaded-Refines :
      (u : Update) (fault : Fault) (changes current : Fields) (disk : Disk Text)
      → table codec disk u.id ≡ some (row_of current)
      → is_protected protected_update_fields changes ≡ false
      → Refines disk (update_loaded codec u fault changes current disk).1
  unfolding update_loaded
  update_loaded-Refines u fault changes current disk at free =
      elim (Bool-cases (not (is_text (item current "owner") u.owner))) [
        | inl conflict ↦ inl (rw conflict)
        | inr same_owner ↦
            rw same_owner
              (elim (Bool-cases (not (is_revision (item current "revision") u.revision))) [
                | inl conflict ↦ inl (rw conflict)
                | inr same_revision ↦
                    rw same_revision
                      (elim (write_unlocked-IsWritten codec u.id
                        (next_payload current changes u.revision) fault disk) [
                          | inl same ↦ inl same
                          | inr written ↦ inr (
                              revised u.id (row_of current) changes u.revision at
                                (revision_at current u.revision (true_of_not _ same_revision)) free
                                (table-written u.id _ disk _ written
                                  ∙ ap (λ r. set_row u.id r (table codec disk))
                                      (row_of-next current changes u.revision)))
                        ])
              ])
      ]

  update_locked-Refines :
      (u : Update) (fault : Fault) (changes : Fields) (disk : Disk Text)
      → is_protected protected_update_fields changes ≡ false
      → Refines disk (update_locked codec fault changes u disk).1
  unfolding update_locked
  update_locked-Refines u fault changes disk free =
      elim (Outcome-cases (load_unlocked codec u.id disk)) [
        | inl (current, found) ↦ rw found (
            update_loaded-Refines u fault changes current disk
              (load_unlocked-row u.id disk current found) free)
        | inr (e, failed) ↦ inl (rw failed)
      ]

  pub update-Refines :
      (id revision owner : Value) (fault : Fault) (changes : Fields) (disk : Disk Text)
      → Refines disk (update codec id revision owner fault changes disk).1
  unfolding update
  update-Refines id revision owner fault changes disk =
      elim (Outcome-cases (update_checked id revision owner changes)) [
        | inl (u, passed) ↦ rw passed (
            update_locked-Refines u fault changes disk
              (unprotected id revision owner changes u passed))
        | inr (e, failed) ↦ inl (rw failed)
      ]

  pub disposition-Refines :
      (id revision owner verdict : Value) (disk : Disk Text)
      → Refines disk (disposition codec id revision owner verdict disk).1
  unfolding disposition disposed
  disposition-Refines id revision owner verdict disk =
      elim (Outcome-cases (disposition_checked verdict)) [
        | inl (v, passed) ↦ rw passed (update-Refines id revision owner no_fault _ disk)
        | inr (e, failed) ↦ inl (rw failed)
      ]
