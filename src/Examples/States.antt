-- ===== src/Examples/States.antt =====
-- Results about taskguard/state.py at a concrete store, whose texts are the manifests themselves.
use bricek4_ligong_skills.Base.{
  ℕ, zero, suc, ◌≡◌, ◌≤◌, refl, String, true, some, List, [], ◌∷◌, ◌↔◌, ok, err, and-intro, Value,
  Items, Fields, int, str, pos, list, dict, nil, cons, end, field, find_field, is_text, has_nul,
  contains, is_sha256, get, arith, raise_if,
}
use bricek4_ligong_skills.Risk.Paths.{is_spaces}
use bricek4_ligong_skills.StateStore.{
  StateError, Codec, text, Disk, item, put_field, drop_field, update_fields, has_field,
  is_protected, is_positive, operation_id, owner_of, is_operation_id, max_state_nodes,
}
use bricek4_ligong_skills.StateStore.Resources.{validate_json_resources, scan}
use bricek4_ligong_skills.StateStore.Files.{
  Fault, no_fault, after_replace, load_unlocked, check_payload, check_fields, checksum,
  canonical_bytes, sized, write_unlocked, commit, replace_entry,
}
use bricek4_ligong_skills.StateStore.Operations.{
  update, update_checked, update_locked, update_loaded, revision_of, known_change, is_revision,
  Update,
}
use bricek4_ligong_skills.StateStore.Traversal.{
  nodes, nodes_items, fits, fits_items, validate_json_resources_iff,
}
use bricek4_ligong_skills.StateStore.Table.{Row, Steps, Succeeds, set_row, next_row}
use bricek4_ligong_skills.StateStore.Refinement.{IsFaithful, table, row_of}
use bricek4_ligong_skills.StateStore.Runs.{Call, creates, updates, run, run-Refines, run-Succeeds}
use bricek4_ligong_skills.StateStore.Revisions.{IsRefused, update-IsOptimistic}
use bricek4_ligong_skills.StateStore.Limits.{full_manifest_unreadable}

abbrev digest : String
digest = "aaaaaaaaaaaaaaaaaaaaaaaaaaaaaaaaaaaaaaaaaaaaaaaaaaaaaaaaaaaaaaaa"

abbrev plain : Codec Fields
plain = record {
  dumps = λ fs. some fs;
  loads = λ t. some (dict t);
  sha256 = λ t. digest;
  size = λ t. 100;
}

same_finds : (fs t : Fields) → some fs ≡ some t → (k : String) → find_field t k ≡ find_field fs k
same_finds fs t h k = let e : fs ≡ t = cc in rw e

plain-IsFaithful : IsFaithful plain
plain-IsFaithful = record { reads = λ fs t h. (t, refl, same_finds fs t h) }

abbrev manifest : Fields
manifest = field "schema_version" (int (pos 2)) (
    field "operation_id" (str "task") (
      field "owner" (str "me") (
        field "lifecycle" (str "RUNNING") (
          field "verdict" (str "UNKNOWN")
            (field "revision" (int (pos 4)) (field "checksum" (str digest) end))))))

abbrev disk : Disk Fields
disk = ("task", text manifest) ∷ []

abbrev finishing : Fields
finishing = field "lifecycle" (str "TERMINAL") (field "verdict" (str "SUPPORTED") end)

abbrev finished : Fields
finished = field "schema_version" (int (pos 2)) (
    field "operation_id" (str "task") (
      field "owner" (str "me") (
        field "lifecycle" (str "TERMINAL") (
          field "verdict" (str "SUPPORTED")
            (field "revision" (int (pos 5)) (field "checksum" (str digest) end))))))

update_runs :
    (update plain (str "task") (int (pos 4)) (str "me") no_fault finishing disk).0 ≡ ok finished
unfolding update operation_id raise_if is_operation_id owner_of is_spaces has_nul is_positive
    is_protected contains has_field item load_unlocked get check_payload validate_json_resources
    is_sha256 checksum canonical_bytes check_fields commit replace_entry sized write_unlocked
    is_revision known_change revision_of update_checked update_loaded update_locked scan drop_field
    put_field update_fields
update_runs = refl

update-IsOptimistic_example :
    (u : Update) × (current : Fields) × (update_checked
        (str "task")
        (int (pos 4))
        (str "me")
        finishing
      ≡ ok u)
    × (load_unlocked plain u.id disk ≡ ok current)
    × (is_text (item current "owner") u.owner ≡ true)
    × (is_revision (item current "revision") u.revision ≡ true)
    × (table plain (update plain (str "task") (int (pos 4)) (str "me") no_fault finishing disk).1
        ≡ set_row u.id (next_row (row_of current) finishing u.revision) (table plain disk))
    × ((owner' : Value) (fault' : Fault) (changes' : Fields)
        → IsRefused plain
            (update plain (str "task") (int (pos 4)) (str "me") no_fault finishing disk).1
            (update plain
              (str "task")
              (int (pos 4))
              owner'
              fault'
              changes'
              (update plain (str "task") (int (pos 4)) (str "me") no_fault finishing disk).1))
update-IsOptimistic_example =
    update-IsOptimistic plain plain-IsFaithful (str "task") (int (pos 4)) (str "me") no_fault
      finishing disk finished update_runs

abbrev two_calls : List Call
two_calls =
    updates (str "task") (int (pos 4)) (str "me") after_replace finishing
    ∷ creates (str "chain") (str "you") end
    ∷ []

run-Refines_example : Steps (table plain disk) (table plain (run plain two_calls disk))
run-Refines_example = run-Refines plain plain-IsFaithful two_calls disk

run-Succeeds_example :
    (new : Row) × (table plain (run plain two_calls disk) "task" ≡ some new)
    × Succeeds (row_of manifest) new
unfolding get
run-Succeeds_example =
    run-Succeeds plain plain-IsFaithful two_calls disk "task" (row_of manifest) refl

validate_json_resources_iff_example :
    (validate_json_resources (dict manifest) ≡ ok tt)
    ↔ ((nodes (dict manifest) ≤ max_state_nodes) × (fits 1 (dict manifest) ≡ true))
validate_json_resources_iff_example = validate_json_resources_iff (dict manifest)

zeros : ℕ → Items
zeros zero = nil
zeros (suc n) = cons (int (pos 0)) (zeros n)

nodes-zeros : (n : ℕ) → nodes_items (zeros n) ≡ n
unfolding nodes zeros
nodes-zeros zero = refl
nodes-zeros (suc n) = omega (arith, nodes-zeros n)

fits-zeros : (n : ℕ) → fits_items 3 (zeros n) ≡ true
unfolding fits zeros
fits-zeros zero = refl
fits-zeros (suc n) = fits-zeros n

abbrev full : Fields
full = field "log" (list (zeros 99998)) end

full_manifest_unreadable_example :
    (validate_json_resources (dict (drop_field "checksum" full)) ≡ ok tt)
    × ((e : StateError) × (check_payload plain "task"
            (dict (put_field "checksum" (str digest) full))
          ≡ err e))
unfolding has_field fits nodes
full_manifest_unreadable_example =
    full_manifest_unreadable plain "task" digest full refl (and-intro (fits-zeros 99998) refl)
      (omega (arith, nodes-zeros 99998))
