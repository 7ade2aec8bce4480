-- ===== src/StateStore/Revisions.antt =====
-- What `update` of taskguard/state.py does when it returns, and to a second caller.
use bricek4_ligong_skills.Base.{
  ℕ, ◌+◌, ◌≡◌, refl, sym, ap, ◌∙◌, subst, String, true, false, not, Option, some, ok, err, >>=-elim,
  ok-injective, raise_if-passed, true_of_not, Value, Fields, int, pos, find_field, or_null, is_text,
  if◌then◌else◌, arith, eq_iff, Bool-cases, Outcome-cases, inl, inr,
}
use bricek4_ligong_skills.StateStore.{
  StateError, Checked, Codec, Disk, operation_id, owner_of, item, lifecycles, verdicts,
  is_protected, protected_update_fields,
}
use bricek4_ligong_skills.StateStore.Files.{Fault, load_unlocked}
use bricek4_ligong_skills.StateStore.Operations.{
  update, update_checked, update_locked, update_loaded, Update, revision_of, is_revision,
  known_change, next_payload,
}
use bricek4_ligong_skills.StateStore.Written.{IsWritten, write_unlocked-returned}
use bricek4_ligong_skills.StateStore.Table.{Row, Table, set_row, next_row}
use bricek4_ligong_skills.StateStore.Refinement.{
  IsFaithful, table, row_of, table-written, load_unlocked-row, row_of-next,
}

module _ {Text : Type 0} (codec : Codec Text) where
  update_loaded-returned :
      (u : Update) (fault : Fault) (changes current : Fields) (disk : Disk Text) (p : Fields)
      → (update_loaded codec u fault changes current disk).0 ≡ ok p
      → (is_text (item current "owner") u.owner ≡ true)
        × (is_revision (item current "revision") u.revision ≡ true)
        × IsWritten codec u.id
            (next_payload current changes u.revision)
            disk
            (update_loaded codec u fault changes current disk).1
  unfolding update_loaded
  update_loaded-returned u fault changes current disk p h =
      elim (Bool-cases (not (is_text (item current "owner") u.owner))) [
        | inl conflict ↦ absurd (cc (rw conflict at h))
        | inr owned ↦ elim (Bool-cases (not (is_revision (item current "revision") u.revision))) [
          | inl conflict ↦ absurd (cc (rw (owned, conflict) at h))
          | inr current_revision ↦ (
            true_of_not _ owned,
            true_of_not _ current_revision,
            rw (owned, current_revision)
                (write_unlocked-returned codec u.id (next_payload current changes u.revision) fault
                  disk p (rw (owned, current_revision) at h)),
          )
        ]
      ]

  update_locked-returned :
      (u : Update) (fault : Fault) (changes : Fields) (disk : Disk Text) (p : Fields)
      → (update_locked codec fault changes u disk).0 ≡ ok p
      → (current : Fields) × (load_unlocked codec u.id disk ≡ ok current)
        × (is_text (item current "owner") u.owner ≡ true)
        × (is_revision (item current "revision") u.revision ≡ true)
        × IsWritten codec u.id
            (next_payload current changes u.revision)
            disk
            (update_locked codec fault changes u disk).1
  unfolding update_locked
  update_locked-returned u fault changes disk p h =
      elim (Outcome-cases (load_unlocked codec u.id disk)) [
        | inl (current, found) ↦
            let (owned, revision, written) =
              update_loaded-returned u fault changes current disk p (rw found at h) in
            (current, found, owned, revision, rw found written)
        | inr (e, failed) ↦ absurd (cc (rw failed at h))
      ]

  -- Another revision than the one on disk is refused.
  update_locked-conflict :
      (u : Update) (fault : Fault) (changes : Fields) (disk : Disk Text)
      → ((current : Fields)
          → load_unlocked codec u.id disk ≡ ok current
          → is_revision (item current "revision") u.revision ≡ false)
      → ((e : StateError) × ((update_locked codec fault changes u disk).0 ≡ err e))
        × ((update_locked codec fault changes u disk).1 ≡ disk)
  unfolding update_locked update_loaded
  update_locked-conflict u fault changes disk differs =
      elim (Outcome-cases (load_unlocked codec u.id disk)) [
        | inr (e, failed) ↦ rw failed ((e, refl), refl)
        | inl (current, found) ↦
            let other = differs current found in
            rw found (elim (Bool-cases (is_text (item current "owner") u.owner)) [
              | inl owned ↦ rw (owned, other) ((_, refl), refl)
              | inr foreign ↦ rw foreign ((_, refl), refl)
            ])
      ]

-- A method raised and left the disk as it was.
abbrev pub IsRefused :
    {Text : Type 0} → Codec Text → Disk Text → Checked Fields × Disk Text → Type 0
IsRefused codec disk (r, disk') = ((e : StateError) × (r ≡ err e)) × (disk' ≡ disk)

update_checked-parts :
    (id revision owner : Value) (changes : Fields) (u : Update)
    → update_checked id revision owner changes ≡ ok u
    → (operation_id id ≡ ok u.id) × (revision_of revision ≡ ok u.revision)
unfolding update_checked
update_checked-parts id revision owner changes u h = >>=-elim (operation_id id) _ h λ i is_id h1.
    >>=-elim (owner_of owner) _ h1 λ o _ h2.
      >>=-elim (revision_of revision) _ h2 λ r is_revision h3.
        let (_, h4) = raise_if-passed (is_protected protected_update_fields changes) _ _ h3 in
        let (_, h5) = raise_if-passed (not (known_change changes "lifecycle" lifecycles)) _ _ h4 in
        let (_, h6) = raise_if-passed (not (known_change changes "verdict" verdicts)) _ _ h5 in
        let same : record { id = i; owner = o; revision = r } ≡ u = ok-injective h6 in
        subst (λ (w : Update). (operation_id id ≡ ok w.id) × (revision_of revision ≡ ok w.revision))
          same (is_id, is_revision)

next_revision-differs :
    (o : Option Value) (n : ℕ) → o ≡ some (int (pos (n + 1))) → is_revision (or_null o) n ≡ false
unfolding is_revision
next_revision-differs o n at =
    subst (λ v. is_revision (or_null v) n ≡ false) (sym at) (ground arith)

some-injective {ℓ} : {A : Type ℓ} {x y : A} → some x ≡ some y → x ≡ y
some-injective h = cc

module _ {Text : Type 0} (codec : Codec Text) (faithful : IsFaithful codec) where
  loaded_past :
      (i : String) (n : ℕ) (current : Fields) (disk : Disk Text) (row : Row)
      → table codec disk i ≡ some row
      → row "revision" ≡ some (int (pos (n + 1)))
      → load_unlocked codec i disk ≡ ok current
      → is_revision (item current "revision") n ≡ false
  unfolding item
  loaded_past i n current disk row there past found =
      let loaded = load_unlocked-row codec faithful i disk current found in
      let same : row ≡ row_of current = some-injective (sym there ∙ loaded) in
      next_revision-differs (find_field current "revision") n
        (subst (λ (r : Row). r "revision" ≡ some (int (pos (n + 1)))) same past)

  -- A revision that the row on disk is past is refused.
  stale-IsRefused :
      (id revision owner : Value) (fault : Fault) (changes : Fields) (u : Update) (disk : Disk Text)
      (row : Row)
      → operation_id id ≡ ok u.id
      → revision_of revision ≡ ok u.revision
      → table codec disk u.id ≡ some row
      → row "revision" ≡ some (int (pos (u.revision + 1)))
      → IsRefused codec disk (update codec id revision owner fault changes disk)
  unfolding update
  stale-IsRefused id revision owner fault changes u disk row is_id is_revision_n at past =
      elim (Outcome-cases (update_checked id revision owner changes)) [
        | inr (e, failed) ↦ rw failed ((e, refl), refl)
        | inl (w, passed) ↦
            let (w_id, w_revision) = update_checked-parts id revision owner changes w passed in
            let same_id : u.id ≡ w.id = ok-injective (sym is_id ∙ w_id) in
            let same_revision : u.revision ≡ w.revision =
              ok-injective (sym is_revision_n ∙ w_revision) in
            rw passed (
              update_locked-conflict codec w fault changes disk λ current found.
                loaded_past w.id w.revision current disk row
                  (subst (λ i. table codec disk i ≡ some row) same_id at)
                  (subst (λ n. row "revision" ≡ some (int (pos (n + 1)))) same_revision past) found)
      ]

  table-revised :
      (u : Update) (current changes : Fields) (disk disk' : Disk Text)
      → IsWritten codec u.id (next_payload current changes u.revision) disk disk'
      → table codec disk'
        ≡ set_row u.id (next_row (row_of current) changes u.revision) (table codec disk)
  table-revised u current changes disk disk' written =
      table-written codec faithful u.id _ disk disk' written
      ∙ ap (λ r. set_row u.id r (table codec disk))
          (row_of-next codec faithful current changes u.revision)

  -- An update that returned found the owner and the revision that it expected, and the disk is the one before with
  -- the changes and the next revision at its id; a second update that expects the same revision raises and changes
  -- nothing, whoever calls it.
  pub update-IsOptimistic :
      (id revision owner : Value) (fault : Fault) (changes : Fields) (disk : Disk Text) (p : Fields)
      → (update codec id revision owner fault changes disk).0 ≡ ok p
      → (u : Update) × (current : Fields) × (update_checked id revision owner changes ≡ ok u)
        × (load_unlocked codec u.id disk ≡ ok current)
        × (is_text (item current "owner") u.owner ≡ true)
        × (is_revision (item current "revision") u.revision ≡ true)
        × (table codec (update codec id revision owner fault changes disk).1
            ≡ set_row u.id (next_row (row_of current) changes u.revision) (table codec disk))
        × ((owner' : Value) (fault' : Fault) (changes' : Fields)
            → IsRefused codec (update codec id revision owner fault changes disk).1 (
                update codec id revision owner' fault' changes'
                  (update codec id revision owner fault changes disk).1))
  unfolding update
  update-IsOptimistic id revision owner fault changes disk p h =
      elim (Outcome-cases (update_checked id revision owner changes)) [
        | inr (e, failed) ↦ absurd (cc (rw failed at h))
        | inl (u, passed) ↦
            let (current, found, owned, at_revision, written) =
              update_locked-returned codec u fault changes disk p (rw passed at h) in
            let disk' = (update_locked codec fault changes u disk).1 in
            let revised_table = table-revised u current changes disk disk' written in
            let (is_id, is_n) = update_checked-parts id revision owner changes u passed in
            rw passed (
              u,
              current,
              refl,
              found,
              owned,
              at_revision,
              revised_table,
              λ owner' fault' changes'.
                  stale-IsRefused id revision owner' fault' changes' u disk'
                    (next_row (row_of current) changes u.revision) is_id is_n
                    (ap (λ (t : Table). t u.id) revised_table
                      ∙ ap
                          (λ b.
                            if b
                            then some (next_row (row_of current) changes u.revision)
                            else table codec disk u.id)
                          ((eq_iff u.id u.id).1 refl))
                    refl,
            )
      ]
