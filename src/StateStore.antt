-- ===== src/StateStore.antt =====
-- taskguard/state.py: the errors, the names, the limits and the fields of a state manifest, and what is on disk.
pub mod Resources
pub mod Files
pub mod Operations
pub mod Lease
pub mod Traversal
pub mod Written
pub mod Table
pub mod Refinement
pub mod Runs
pub mod Revisions
pub mod Limits
use Prim.Native.Char.{code}
use Prim.Native.String
use bricek4_ligong_skills.Base.{
  ℕ, zero, suc, String, Bool, true, false, not, ◌&&◌, ◌||◌, Option, none, some, List, [], ◌∷◌, ◌==◌,
  Outcome, ok, err, ◌>>=◌, ◌>>◌, raise_if, Mapping, Value, Items, Fields, str, int, end, field, pos,
  find_field, or_null, leb, eqb, contains, has_nul, if◌then◌else◌, ◌+++◌,
}
use bricek4_ligong_skills.Risk.Paths.{is_spaces}

-- `StateError` and its subclasses, with the message.
pub data StateError : Type 0 where
  state_error : String → StateError
  checksum_error : String → StateError
  concurrent_update : String → StateError
  interrupted_write : String → StateError

abbrev pub Checked : Type 0 → Type 0
Checked A = Outcome StateError A

-- What the store takes from `json` and `hashlib`: `dumps` is the canonical text with sorted keys, `none` where that
-- raises; `loads` reads a text; `sha256` is in hexadecimal.
-- The texts are any type, with their size in bytes.
pub record Codec (Text : Type 0) : Type 0 where
  pub dumps : Fields → Option Text
  pub loads : Text → Option Value
  pub sha256 : Text → String
  pub size : Text → ℕ

-- A name under the root: a private regular file with its text, or something that `_open_regular` refuses.
pub data Entry (Text : Type 0) : Type 0 where
  text : Text → Entry Text
  refused : Entry Text

-- The manifests under their operation ids.
abbrev pub Disk : Type 0 → Type 0
Disk Text = Mapping (Entry Text)

abbrev pub max_state_bytes : ℕ
max_state_bytes = 8388608

abbrev pub max_state_depth : ℕ
max_state_depth = 64

abbrev pub max_state_nodes : ℕ
max_state_nodes = 100000

abbrev pub lifecycles : List String
lifecycles =
    "NEW" ∷ "INITIALIZED" ∷ "RUNNING" ∷ "RETRY_WAIT" ∷ "VERIFYING" ∷ "TERMINAL_ERROR" ∷ "TERMINAL"
    ∷ []

abbrev pub verdicts : List String
verdicts = "SUPPORTED" ∷ "FAILED" ∷ "STALE" ∷ "UNKNOWN" ∷ "NOT_REQUIRED" ∷ []

abbrev pub protected_create_fields : List String
protected_create_fields = "schema_version" ∷ "operation_id" ∷ "owner" ∷ "revision" ∷ "checksum" ∷ []

abbrev pub protected_update_fields : List String
protected_update_fields = "admission_anchor" ∷ protected_create_fields

abbrev pub required_fields : List String
required_fields =
    "schema_version" ∷ "operation_id" ∷ "owner" ∷ "lifecycle" ∷ "verdict" ∷ "revision" ∷ "checksum"
    ∷ []

-- `[A-Za-z0-9][A-Za-z0-9._-]{0,127}\Z`
abbrev is_alnum : ℕ → Bool
is_alnum c = (leb b'A' c && leb c b'Z') || (leb b'a' c && leb c b'z') || (leb b'0' c && leb c b'9')

abbrev is_id_char : ℕ → Bool
is_id_char c = is_alnum c || eqb c b'.' || eqb c b'_' || eqb c b'-'

id_tail : ℕ → String → Bool
id_tail n String.[] = true
id_tail zero (String.◌∷◌ c s) = false
id_tail (suc n) (String.◌∷◌ c s) = is_id_char (code c) && id_tail n s

unfoldable pub is_operation_id : String → Bool
unfolding id_tail
is_operation_id String.[] = false
is_operation_id (String.◌∷◌ c s) = is_alnum (code c) && id_tail 127 s

-- `_operation_id`
unfoldable pub operation_id : Value → Checked String
operation_id (str s) = do
  raise_if (not (is_operation_id s))
      (state_error "operation_id must match [A-Za-z0-9][A-Za-z0-9._-]{0,127}")
  raise_if (s == "." || s == "..") (state_error "operation_id must not be a path traversal token")
  ok s
operation_id _ = err (state_error "operation_id must match [A-Za-z0-9][A-Za-z0-9._-]{0,127}")

-- `_owner`
unfoldable pub owner_of : Value → Checked String
owner_of (str s) = do
  raise_if (is_spaces s || has_nul s) (state_error "owner must be a non-empty string without NUL")
  ok s
owner_of _ = err (state_error "owner must be a non-empty string without NUL")

-- `payload[key]` of a key that is there.
unfoldable pub item : Fields → String → Value
item fs key = or_null (find_field fs key)

-- `payload[key] = value`
unfoldable pub put_field : String → Value → Fields → Fields
put_field key value end = field key value end
put_field key value (field k v fs) =
    if k == key then field k value fs else field k v (put_field key value fs)

-- `payload.pop(key, None)`
unfoldable pub drop_field : String → Fields → Fields
drop_field key end = end
drop_field key (field k v fs) =
    if k == key then drop_field key fs else field k v (drop_field key fs)

-- `payload.update(changes)`, where the keys of the changes are distinct.
unfoldable pub update_fields : Fields → Fields → Fields
unfolding put_field
update_fields fs end = fs
update_fields fs (field k v changes) = update_fields (put_field k v fs) changes

-- `key in payload`
unfoldable pub has_field : Fields → String → Bool
has_field end key = false
has_field (field k v fs) key = k == key || has_field fs key

-- The keys of the changes that are protected.
unfoldable pub is_protected : List String → Fields → Bool
is_protected names end = false
is_protected names (field k v fs) = contains names k || is_protected names fs

-- `payload["revision"]` as a positive integer.
unfoldable pub is_positive : Value → Bool
is_positive (int (pos n)) = leb 1 n
is_positive _ = false
