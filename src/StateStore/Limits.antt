-- ===== src/StateStore/Limits.antt =====
-- The node limit of taskguard/state.py where a manifest is written and where it is read.
use bricek4_ligong_skills.Base.{
  suc, ◌≡◌, refl, String, true, false, ◌==◌, ok, err, Outcome-cases, or-false, inl, inr, Value,
  Fields, str, dict, end, field, arith,
}
use bricek4_ligong_skills.StateStore.{
  StateError, Codec, put_field, drop_field, has_field, max_state_nodes,
}
use bricek4_ligong_skills.StateStore.Resources.{validate_json_resources}
use bricek4_ligong_skills.StateStore.Files.{check_payload}
use bricek4_ligong_skills.StateStore.Traversal.{
  nodes, nodes_fields, fits, validate_json_resources_iff,
}

drop_field-absent : (key : String) (fs : Fields) → has_field fs key ≡ false → drop_field key fs ≡ fs
unfolding drop_field has_field
drop_field-absent key end h = refl
drop_field-absent key (field k v fs) h =
    let (other, later) = or-false (k == key) (has_field fs key) h in
    rw (other, drop_field-absent key fs later)

nodes_fields-put_absent :
    (key s : String) (fs : Fields)
    → has_field fs key ≡ false
    → nodes_fields (put_field key (str s) fs) ≡ suc (nodes_fields fs)
unfolding put_field has_field nodes
nodes_fields-put_absent key s end h = omega arith
nodes_fields-put_absent key s (field k v fs) h =
    let (other, later) = or-false (k == key) (has_field fs key) h in
    rw other (omega (arith, nodes_fields-put_absent key s fs later))

check_payload-resources :
    {Text : Type 0} (codec : Codec Text) (id : String) (value : Value) (e : StateError)
    → validate_json_resources value ≡ err e
    → check_payload codec id value ≡ err e
unfolding check_payload
check_payload-resources codec id value e failed = rw failed

-- A manifest of exactly as many nodes as are allowed passes the check that a write makes, which leaves the checksum
-- out, and what is written is refused by the check that a read makes, which counts the checksum.
pub full_manifest_unreadable :
    {Text : Type 0} (codec : Codec Text) (id digest : String) (payload : Fields)
    → has_field payload "checksum" ≡ false
    → fits 1 (dict payload) ≡ true
    → nodes (dict payload) ≡ max_state_nodes
    → (validate_json_resources (dict (drop_field "checksum" payload)) ≡ ok tt)
      × ((e : StateError) × (check_payload codec id
              (dict (put_field "checksum" (str digest) payload))
            ≡ err e))
unfolding nodes
full_manifest_unreadable codec id digest payload absent fit full =
    let complete = dict (put_field "checksum" (str digest) payload) in
    let more = nodes_fields-put_absent "checksum" digest payload absent in
    (
      rw (drop_field-absent "checksum" payload absent)
          ((validate_json_resources_iff (dict payload)).1 (omega arith, fit)),
      elim (Outcome-cases (validate_json_resources complete)) [
        | inl (_, passed) ↦
            let few = ((validate_json_resources_iff complete).0 passed).0 in absurd (omega arith)
        | inr (e, failed) ↦ (e, check_payload-resources codec id complete e failed)
      ],
    )
