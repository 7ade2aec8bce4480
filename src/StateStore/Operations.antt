-- ===== src/StateStore/Operations.antt =====
-- The methods of `StateStore` in taskguard/state.py. Each runs under the lock of the store, so it sees the disk as
-- the one before left it.
use bricek4_ligong_skills.Base.{
  ℕ, ◌+◌, String, Bool, true, false, not, ◌&&◌, ◌||◌, none, some, List, [], ◌∷◌, ok, err, ◌>>=◌,
  ◌>>◌, raise_if, get, Value, Fields, str, int, pos, end, field, contains, eqb, is_text,
  if◌then◌else◌,
}
use bricek4_ligong_skills.StateStore.{
  state_error, concurrent_update, Checked, Codec, Disk, lifecycles, verdicts,
  protected_create_fields, protected_update_fields, operation_id, owner_of, item, put_field,
  drop_field, update_fields, has_field, is_protected, is_positive,
}
use bricek4_ligong_skills.StateStore.Files.{Fault, no_fault, load_unlocked, write_unlocked}

-- A method: its result, and the disk that it leaves.
abbrev pub Method : Type 0 → Type 0 → Type 0
Method Text A = Disk Text → Checked A × Disk Text

-- Checks before the rest of a method.
abbrev pub after : {Text A B : Type 0} → Checked A → (A → Method Text B) → Method Text B
after (ok a) next disk = next a disk
after (err e) next disk = (err e, disk)

unfoldable pub name_exists : {Text : Type 0} → String → Disk Text → Bool
name_exists id disk = elim (get disk id) [ none ↦ false | some e ↦ true ]

-- The fields that every new manifest has.
unfoldable pub new_payload : String → String → Fields
new_payload id owner = field "schema_version" (int (pos 2)) (
    field "operation_id" (str id) (
      field "owner" (str owner) (
        field "lifecycle" (str "INITIALIZED")
          (field "verdict" (str "UNKNOWN") (field "revision" (int (pos 1)) end)))))

-- The checks of `create` before the lock: the id and the owner.
unfoldable pub create_checked : Value → Value → Fields → Checked (String × String)
create_checked id owner fields = do
  i ← operation_id id
  o ← owner_of owner
  raise_if (is_protected protected_create_fields fields)
      (state_error "cannot override protected create fields")
  raise_if (has_field fields "lifecycle" || has_field fields "verdict")
      (state_error "create lifecycle and verdict are fixed")
  ok (i, o)

unfoldable pub create_locked :
    {Text : Type 0} → Codec Text → Fields → String × String → Method Text Fields
create_locked codec fields (id, owner) disk =
    if name_exists id disk
    then (err (concurrent_update "state already exists"), disk)
    else write_unlocked codec id (update_fields (new_payload id owner) fields) no_fault disk

unfoldable pub create : {Text : Type 0} → Codec Text → Value → Value → Fields → Method Text Fields
unfolding create_checked create_locked
create codec id owner fields = after (create_checked id owner fields) (create_locked codec fields)

unfoldable pub load : {Text : Type 0} → Codec Text → Value → Disk Text → Checked Fields
load codec id disk = do i ← operation_id id; load_unlocked codec i disk

-- Without the lock, and without making any file.
unfoldable pub load_snapshot : {Text : Type 0} → Codec Text → Value → Disk Text → Checked Fields
load_snapshot codec id disk = do i ← operation_id id; load_unlocked codec i disk

-- A changed lifecycle or verdict has to be known.
unfoldable pub known_change : Fields → String → List String → Bool
known_change changes key names =
    if has_field changes key
    then elim (item changes key) [ str s ↦ contains names s | _ ↦ false ]
    else true

-- The positive integer that `expected_revision` has to be.
unfoldable pub revision_of : Value → Checked ℕ
revision_of (int (pos n)) =
    if is_positive (int (pos n))
    then ok n
    else err (state_error "expected_revision must be a positive integer")
revision_of _ = err (state_error "expected_revision must be a positive integer")

pub record Update : Type 0 where
  pub id : String
  pub owner : String
  pub revision : ℕ

unfoldable pub update_checked : Value → Value → Value → Fields → Checked Update
unfolding known_change revision_of
update_checked id revision owner changes = do
  i ← operation_id id
  o ← owner_of owner
  r ← revision_of revision
  raise_if (is_protected protected_update_fields changes)
      (state_error "cannot update protected fields")
  raise_if (not (known_change changes "lifecycle" lifecycles)) (state_error "unknown lifecycle")
  raise_if (not (known_change changes "verdict" verdicts)) (state_error "unknown verdict")
  ok (record { id = i; owner = o; revision = r })

-- `current["revision"] != expected_revision`
unfoldable pub is_revision : Value → ℕ → Bool
is_revision (int (pos m)) n = eqb m n
is_revision _ n = false

abbrev pub next_payload : Fields → Fields → ℕ → Fields
next_payload current changes revision =
    put_field "revision" (int (pos (revision + 1)))
      (update_fields (drop_field "checksum" current) changes)

unfoldable pub update_loaded :
    {Text : Type 0} → Codec Text → Update → Fault → Fields → Fields → Method Text Fields
update_loaded codec u fault changes current disk =
    if not (is_text (item current "owner") u.owner)
    then (err (concurrent_update "owner conflict"), disk)
    else if not (is_revision (item current "revision") u.revision)
    then (err (concurrent_update "revision conflict"), disk)
    else write_unlocked codec u.id (next_payload current changes u.revision) fault disk

unfoldable pub update_locked :
    {Text : Type 0} → Codec Text → Fault → Fields → Update → Method Text Fields
unfolding update_loaded
update_locked codec fault changes u disk =
    after (load_unlocked codec u.id disk) (update_loaded codec u fault changes) disk

unfoldable pub update :
    {Text : Type 0} → Codec Text → Value → Value → Value → Fault → Fields → Method Text Fields
unfolding update_checked update_locked
update codec id revision owner fault changes =
    after (update_checked id revision owner changes) (update_locked codec fault changes)

claimed : String → Fields → Checked Fields
claimed owner current = do
  raise_if (not (is_text (item current "owner") owner)) (concurrent_update "owner conflict")
  ok current

unfoldable pub claim : {Text : Type 0} → Codec Text → Value → Value → Disk Text → Checked Fields
unfolding claimed
claim codec id owner disk = do
  i ← operation_id id
  o ← owner_of owner
  current ← load_unlocked codec i disk
  claimed o current

pub record Recovery : Type 0 where
  pub verdict : Value
  pub lifecycle : Value
  pub revision : Value
  pub next_action : String

unfoldable pub is_reusable_state : Fields → Bool
is_reusable_state current =
    is_text (item current "lifecycle") "TERMINAL" && is_text (item current "verdict") "SUPPORTED"

recovered : Fields → Value → String → Recovery
recovered current verdict next_action = record {
  verdict = verdict;
  lifecycle = item current "lifecycle";
  revision = item current "revision";
  next_action = next_action;
}

unfoldable pub recovery : Fields → Recovery
unfolding recovered
recovery current =
    if is_reusable_state current
    then recovered current (str "SUPPORTED") "reuse"
    else if is_text (item current "lifecycle") "TERMINAL_ERROR"
    then recovered current (item current "verdict") "inspect_or_dispose"
    else if is_text (item current "lifecycle") "RUNNING"
    then recovered current (str "UNKNOWN") "explicit_disposition_required"
    else recovered current (str "UNKNOWN") "continue"

unfoldable pub recover : {Text : Type 0} → Codec Text → Value → Disk Text → Checked Recovery
recover codec id disk = do current ← load codec id disk; ok (recovery current)

unfoldable pub is_reusable : {Text : Type 0} → Codec Text → Value → Disk Text → Checked Bool
is_reusable codec id disk = do current ← load codec id disk; ok (is_reusable_state current)

unfoldable pub disposition_checked : Value → Checked String
disposition_checked (str s) = do
  raise_if (not (contains ("FAILED" ∷ "STALE" ∷ "UNKNOWN" ∷ []) s))
      (state_error "disposition verdict must be FAILED, STALE, or UNKNOWN")
  ok s
disposition_checked _ = err (state_error "disposition verdict must be FAILED, STALE, or UNKNOWN")

unfoldable pub disposed :
    {Text : Type 0} → Codec Text → Value → Value → Value → String → Method Text Fields
disposed codec id revision owner verdict =
    update codec id revision owner no_fault
      (field "lifecycle" (str "TERMINAL_ERROR") (field "verdict" (str verdict) end))

unfoldable pub disposition :
    {Text : Type 0} → Codec Text → Value → Value → Value → Value → Method Text Fields
unfolding disposition_checked disposed
disposition codec id revision owner verdict =
    after (disposition_checked verdict) (disposed codec id revision owner)
