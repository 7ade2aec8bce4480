-- ===== src/StateStore/Lease.antt =====
-- `ExecutionLease` of taskguard/state.py: its manifest and the check of a persisted one.
use bricek4_ligong_skills.Base.{
  ℕ, String, Bool, false, not, ◌&&◌, err, raise_if, List, [], ◌∷◌, Value, Fields, str, int, pos,
  dict, end, field, all, contains, eqb, is_text,
}
use bricek4_ligong_skills.StateStore.{state_error, Checked, item, has_field}

pub record ExecutionLease : Type 0 where
  pub descriptor : ℕ
  pub root_descriptor : ℕ
  pub device : ℕ
  pub inode : ℕ
  pub root_device : ℕ
  pub root_inode : ℕ
  pub root_exclusive : Bool

unfoldable pub to_manifest : ExecutionLease → Fields
to_manifest l = field "version" (str "taskguard-execution-lease-v1") (
    field "device" (int (pos l.device)) (
      field "inode" (int (pos l.inode)) (
        field "root_device" (int (pos l.root_device))
          (field "root_inode" (int (pos l.root_inode)) end))))

abbrev names : Fields → List String
names end = []
names (field k v fs) = k ∷ names fs

abbrev lease_keys : List String
lease_keys = "version" ∷ "device" ∷ "inode" ∷ "root_device" ∷ "root_inode" ∷ []

-- An integer, not negative and equal to the number.
abbrev is_number : Value → ℕ → Bool
is_number (int (pos n)) m = eqb n m
is_number _ m = false

-- The persisted manifest has the keys and the values of the lease.
unfoldable pub same_manifest : ExecutionLease → Fields → Bool
same_manifest l fs =
    all (contains lease_keys) (names fs)
    && (all (has_field fs) lease_keys
        && (is_text (item fs "version") "taskguard-execution-lease-v1"
            && (is_number (item fs "device") l.device
                && (is_number (item fs "inode") l.inode
                    && (is_number (item fs "root_device") l.root_device
                        && is_number (item fs "root_inode") l.root_inode)))))

unfoldable pub require_manifest : ExecutionLease → Value → Checked (Unit {0})
require_manifest l (dict fs) =
    raise_if (not (same_manifest l fs)) (
      state_error "persisted execution lease does not match the acquired root and inode generation")
require_manifest l _ =
    err (
      state_error "persisted execution lease does not match the acquired root and inode generation")
