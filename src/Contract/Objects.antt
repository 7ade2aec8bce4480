-- ===== src/Contract/Objects.antt =====
-- The arrays of objects of a contract: `_acceptance_items`, `_forbidden_rules` and `_surface_rules` of
-- taskguard/contract.py.
pub mod Distinct
pub mod Parsed
use bricek4_ligong_skills.Base.{
  ℕ, ◌+◌, String, Bool, true, false, not, ◌&&◌, ◌||◌, Option, none, some, List, [], ◌∷◌, ◌++◌,
  Outcome, ok, err, ◌>>=◌, ◌>>◌, raise_if, Value, Items, Fields, list, null, str, dict, nil, cons,
  contains, if◌then◌else◌,
}
use bricek4_ligong_skills.Contract.{
  Label, top, at_index, member, Checked, HostPath, error, nonempty_string, boolean, exact_fields,
  lookup_field, field_or, Acceptance, ForbiddenRule, SurfaceRule, acceptance_fields,
  acceptance_required, forbidden_fields, forbidden_modes, surface_fields,
}
use bricek4_ligong_skills.Contract.Paths.{Host, canonical_path, canonical_cwd, path_array}

-- `isinstance(raw, Mapping)`
unfoldable pub object_of : Value → Label → Checked Fields
object_of (dict fs) label = ok fs
object_of _ label = err (error label "must be an object")

-- The texts of a list comprehension, with the index of each.
texts_from : Label → ℕ → Items → Checked (List String)
texts_from label index nil = ok []
texts_from label index (cons v vs) = do
  text ← nonempty_string v (at_index label index)
  rest ← texts_from label (index + 1) vs
  ok (text ∷ rest)

-- `argv`
unfoldable pub argv_of : Value → Label → Checked (List String)
unfolding texts_from
argv_of (list (cons v vs)) label = texts_from label 0 (cons v vs)
argv_of _ label = err (error label "must be a non-empty string array")

-- A text that may be `None`.
unfoldable pub optional_text : Value → Label → Checked (Option String)
optional_text null label = ok none
optional_text v label = do text ← nonempty_string v label; ok (some text)

-- `expected_red_pattern`: it is required with `requires_red`.
unfoldable pub red_pattern : Bool → Value → Label → Checked (Option String)
unfolding optional_text
red_pattern true v label = do text ← nonempty_string v label; ok (some text)
red_pattern false v label = optional_text v label

-- The loop over an array of objects: `item` is its body, and `seen` holds the ids of the items before.
unfoldable pub object_loop :
    {A : Type 0}
    → (A → String)
    → (List String → Label → Value → Checked A)
    → Label
    → List String
    → ℕ
    → Items
    → Checked (List A)
object_loop id_of item label seen index nil = ok []
object_loop id_of item label seen index (cons raw raws) = do
  a ← item seen (at_index label index) raw
  rest ← object_loop id_of item label (id_of a ∷ seen) (index + 1) raws
  ok (a ∷ rest)

module _ (host : Host) (repo : HostPath) where
  -- The body of the loop of `_acceptance_items`.
  unfoldable pub acceptance_item : List String → Label → Value → Checked Acceptance
  acceptance_item seen label raw = do
    fs ← object_of raw label
    exact_fields fs label acceptance_fields acceptance_required
    id ← nonempty_string (lookup_field fs "id") (member label "id")
    raise_if (contains seen id) (error (member label "id") "must be unique")
    argv ← argv_of (lookup_field fs "argv") (member label "argv")
    cwd ← canonical_cwd host repo (field_or fs "cwd" (str ".")) (member label "cwd")
    requires_red ← boolean (lookup_field fs "requires_red") (member label "requires_red")
    idempotent ← boolean (lookup_field fs "idempotent") (member label "idempotent")
    expected ←
        red_pattern requires_red (lookup_field fs "expected_red_pattern")
          (member label "expected_red_pattern")
    selector ← optional_text (lookup_field fs "selector") (member label "selector")
    ok (record {
      id = id;
      argv = argv;
      cwd = cwd;
      requires_red = requires_red;
      expected_red_pattern = expected;
      idempotent = idempotent;
      selector = selector;
    })

  -- `_acceptance_items`
  unfoldable pub acceptance_items : Value → Checked (List Acceptance)
  acceptance_items (list (cons raw raws)) =
      object_loop (λ a. a.id) acceptance_item (top "acceptance") [] 0 (cons raw raws)
  acceptance_items _ = err (error (top "acceptance") "must be a non-empty array")

  -- The body of the loop of `_forbidden_rules`.
  unfoldable pub forbidden_rule : List String → Label → Value → Checked ForbiddenRule
  forbidden_rule seen label raw = do
    fs ← object_of raw label
    exact_fields fs label forbidden_fields forbidden_fields
    id ← nonempty_string (lookup_field fs "id") (member label "id")
    raise_if (contains seen id) (error (member label "id") "must be unique")
    glob ← canonical_path host repo (lookup_field fs "glob") (member label "glob") false true
    regex ← nonempty_string (lookup_field fs "regex") (member label "regex")
    raise_if (not (host.compiles regex)) (error (member label "regex") "invalid regular expression")
    mode ← nonempty_string (lookup_field fs "mode") (member label "mode")
    raise_if (not (contains forbidden_modes mode))
        (error (member label "mode") "must be one of ['eliminate', 'no_new']")
    ok (record { id = id; glob = glob; regex = regex; mode = mode })

  -- `_forbidden_rules`
  unfoldable pub forbidden_rules : Value → Checked (List ForbiddenRule)
  forbidden_rules null = ok []
  forbidden_rules (list raws) = object_loop (λ r. r.id) forbidden_rule (top "forbidden") [] 0 raws
  forbidden_rules _ = err (error (top "forbidden") "must be an array")

  -- The body of the loop of `_surface_rules`.
  unfoldable pub surface_rule : List String → Label → Value → Checked SurfaceRule
  surface_rule seen label raw = do
    fs ← object_of raw label
    exact_fields fs label surface_fields surface_fields
    id ← nonempty_string (lookup_field fs "id") (member label "id")
    raise_if (contains seen id) (error (member label "id") "must be unique")
    argv ← argv_of (lookup_field fs "argv") (member label "argv")
    cwd ← canonical_cwd host repo (field_or fs "cwd" (str ".")) (member label "cwd")
    read_only ← boolean (lookup_field fs "read_only") (member label "read_only")
    raise_if (not read_only) (error (member label "read_only") "surface adapters must be read-only")
    normalizer ←
        nonempty_string (lookup_field fs "normalizer_version") (member label "normalizer_version")
    allowed_writes ←
        path_array host repo (field_or fs "allowed_writes" (list nil))
          (member label "allowed_writes")
    ok (record {
      id = id;
      argv = argv;
      cwd = cwd;
      read_only = true;
      normalizer_version = normalizer;
      allowed_writes = allowed_writes;
    })

  -- `_surface_rules`
  unfoldable pub surface_rules : Value → Checked (List SurfaceRule)
  surface_rules null = ok []
  surface_rules (list raws) = object_loop (λ r. r.id) surface_rule (top "surfaces") [] 0 raws
  surface_rules _ = err (error (top "surfaces") "must be an array")
