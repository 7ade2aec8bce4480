-- ===== src/StateStore/Files.antt =====
-- `_canonical_bytes`, `_checksum`, `_load_unlocked` and `_write_unlocked` of taskguard/state.py.
pub mod Loaded
use bricek4_ligong_skills.Base.{
  ℕ, String, Bool, true, false, not, ◌&&◌, ◌||◌, Option, none, some, List, [], ◌∷◌, ◌==◌, Outcome,
  ok, err, ◌>>=◌, ◌>>◌, raise_if, get, Value, Fields, str, int, dict, pos, all, contains, is_sha256,
  ltb, eqb, if◌then◌else◌,
}
use bricek4_ligong_skills.StateStore.{
  StateError, state_error, checksum_error, interrupted_write, Checked, Codec, Entry, text, refused,
  Disk, max_state_bytes, lifecycles, verdicts, required_fields, operation_id, owner_of, item,
  put_field, drop_field, has_field, is_positive,
}
use bricek4_ligong_skills.StateStore.Resources.{validate_json_resources}

-- What `json.dumps` returned, within the limit.
unfoldable pub sized : {Text : Type 0} → Codec Text → Option Text → String → Checked Text
sized codec none message = err (state_error "state is not canonical-JSON serializable")
sized codec (some written) message =
    if ltb max_state_bytes (codec.size written) then err (state_error message) else ok written

unfoldable pub canonical_bytes : {Text : Type 0} → Codec Text → Fields → Checked Text
unfolding sized
canonical_bytes codec payload = do
  validate_json_resources (dict (drop_field "checksum" payload))
  sized codec (codec.dumps (drop_field "checksum" payload)) "state exceeds maximum canonical size"

-- `_checksum`
unfoldable pub checksum : {Text : Type 0} → Codec Text → Fields → Checked String
checksum codec payload = do bytes ← canonical_bytes codec payload; ok (codec.sha256 bytes)

object_of : Value → Checked Fields
object_of (dict fs) = ok fs
object_of _ = err (state_error "state manifest must be a JSON object")

-- A persisted checksum in its shape.
persisted_of : Value → Checked String
persisted_of (str s) =
    if is_sha256 s then ok s else err (checksum_error "state checksum has an invalid shape")
persisted_of _ = err (checksum_error "state checksum has an invalid shape")

abbrev is_two : Value → Bool
is_two (int (pos n)) = eqb n 2
is_two _ = false

abbrev is_one_of : List String → Value → Bool
is_one_of names (str s) = contains names s
is_one_of names _ = false

text_of : Value → Checked String
text_of (str s) = ok s
text_of _ = err (state_error "state operation_id must be a string")

-- The checks of the fields, after those of the checksum.
unfoldable pub check_fields : String → Fields → Checked (Unit {0})
unfolding text_of
check_fields id payload = do
  raise_if (not (is_two (item payload "schema_version"))) (state_error "unsupported state schema")
  persisted ← text_of (item payload "operation_id")
  operation_id (str persisted)
  raise_if (not (persisted == id)) (state_error "state operation_id does not match its filename")
  owner_of (item payload "owner")
  raise_if (not (is_one_of lifecycles (item payload "lifecycle"))) (state_error "unknown lifecycle")
  raise_if (not (is_one_of verdicts (item payload "verdict"))) (state_error "unknown verdict")
  raise_if (not (is_positive (item payload "revision")))
      (state_error "state revision must be a positive integer")

-- The checks of a payload that was read.
unfoldable pub check_payload : {Text : Type 0} → Codec Text → String → Value → Checked Fields
unfolding object_of persisted_of
check_payload codec id value = do
  validate_json_resources value
  payload ← object_of value
  raise_if (not (all (has_field payload) required_fields))
      (state_error "state manifest missing fields")
  persisted ← persisted_of (item payload "checksum")
  expected ← checksum codec payload
  raise_if (not (persisted == expected))
      (checksum_error "state checksum does not match persisted content")
  check_fields id payload
  ok payload

loaded : {Text : Type 0} → Codec Text → String → Option Value → Checked Fields
loaded codec id none = err (state_error "state is malformed JSON")
loaded codec id (some value) = check_payload codec id value

entry_of : {Text : Type 0} → Codec Text → Option (Entry Text) → Checked Text
entry_of codec none = err (state_error "cannot open state manifest")
entry_of codec (some refused) = err (state_error "cannot open state manifest")
entry_of codec (some (text raw)) =
    if ltb max_state_bytes (codec.size raw)
    then err (state_error "state manifest exceeds maximum size")
    else ok raw

-- `_load_unlocked`
unfoldable pub load_unlocked : {Text : Type 0} → Codec Text → String → Disk Text → Checked Fields
unfolding entry_of loaded
load_unlocked codec id disk = do
  raw ← entry_of codec (get disk id)
  loaded codec id (codec.loads raw)

-- The fault hook of a write: none, after the temporary file is on disk, or after it took the place of the manifest.
pub data Fault : Type 0 where
  no_fault after_temp_fsync after_replace : Fault

-- The new manifest in place of the old one.
unfoldable pub replace_entry : {Text : Type 0} → String → Text → Disk Text → Disk Text
replace_entry id written [] = (id, text written) ∷ []
replace_entry id written ((j, e) ∷ disk) =
    if j == id then (j, text written) ∷ disk else (j, e) ∷ replace_entry id written disk

-- The temporary file is removed unless it was renamed.
unfoldable pub commit :
    {Text : Type 0} → Fault → String → Fields → Text → Disk Text → Checked Fields × Disk Text
commit no_fault id complete written disk = (ok complete, replace_entry id written disk)
commit after_temp_fsync id complete written disk =
    (err (interrupted_write "interrupted after temporary-file fsync"), disk)
commit after_replace id complete written disk =
    (err (interrupted_write "interrupted after atomic replace"), replace_entry id written disk)

abbrev pub write_checked :
    {Text : Type 0}
    → Fault
    → String
    → Fields
    → Checked Text
    → Disk Text
    → Checked Fields × Disk Text
write_checked fault id complete (err e) disk = (err e, disk)
write_checked fault id complete (ok written) disk = commit fault id complete written disk

abbrev pub sealed :
    {Text : Type 0}
    → Codec Text
    → String
    → Fields
    → Fault
    → Checked String
    → Disk Text
    → Checked Fields × Disk Text
sealed codec id payload fault (err e) disk = (err e, disk)
sealed codec id payload fault (ok digest) disk =
    let complete = put_field "checksum" (str digest) payload in
    write_checked fault id complete
      (sized codec (codec.dumps complete) "state exceeds maximum serialized size") disk

-- `_write_unlocked`
unfoldable pub write_unlocked :
    {Text : Type 0} → Codec Text → String → Fields → Fault → Disk Text → Checked Fields × Disk Text
unfolding sized
write_unlocked codec id payload fault disk =
    sealed codec id payload fault (checksum codec payload) disk
