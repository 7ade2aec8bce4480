-- ===== src/Host.antt =====
-- taskguard/capabilities.py: the report on what the host offers, and the check of a report.
use bricek4_ligong_skills.Base.{
  String, ◌≡◌, refl, sym, subst, ◌∙◌, ◌↔◌, Bool, true, false, not, ◌&&◌, ◌||◌, Option, none, some,
  List, [], ◌∷◌, ◌==◌, Outcome, ok, err, ◌>>=◌, ◌>>◌, raise_if, raise_if-passed, ok-injective,
  Mapping, get_value, contains, all, any, reject, is_empty, is_empty-reject, starts_with, eq_refl,
  if◌then◌else◌, Value, Items, Fields, nil, cons, end, field, bool, str, list, dict, is_true,
  is_text, is_texts, find_field, or_null,
}

abbrev pub capability_order : List String
capability_order =
    "posix_platform" ∷ "fcntl" ∷ "o_nofollow" ∷ "o_directory" ∷ "directory_fsync" ∷ "process_groups"
    ∷ "required_signals" ∷ "git" ∷ []

pub data CapabilityError : Type 0 where
  not_boolean inexact_schema wrong_version not_text wrong_facts wrong_missing wrong_verdict :
      CapabilityError

-- The report; `capabilities` gives the fact under each name of the order.
pub record HostReport : Type 0 where
  pub platform : String
  pub python : String
  pub capabilities : String → Bool
  pub missing : List String
  pub taskguard_supported : Bool

abbrev is_bool : Value → Bool
is_bool (bool b) = true
is_bool _ = false

-- `"darwin"`, or one of the four prefixes.
abbrev pub is_supported_platform : String → Bool
is_supported_platform name =
    name == "darwin" || any (starts_with name) ("linux" ∷ "freebsd" ∷ "openbsd" ∷ "netbsd" ∷ [])

abbrev pub capability_of : String → Mapping Value → String → Bool
capability_of platform facts name =
    if name == "posix_platform"
    then is_true (get_value facts name) && is_supported_platform platform
    else is_true (get_value facts name)

abbrev report_of : String → Mapping Value → String → HostReport
report_of platform facts python = record {
  platform = platform;
  python = python;
  capabilities = capability_of platform facts;
  missing = reject (capability_of platform facts) capability_order;
  taskguard_supported = is_empty (reject (capability_of platform facts) capability_order);
}

unfoldable pub evaluate_capabilities :
    String → Mapping Value → String → Outcome CapabilityError HostReport
evaluate_capabilities platform facts python = do
  raise_if (not (all (λ name. is_bool (get_value facts name)) capability_order)) not_boolean
  ok (report_of platform facts python)

abbrev pub texts : List String → Items
texts [] = nil
texts (t ∷ ts) = cons (str t) (texts ts)

abbrev facts_in : (String → Bool) → List String → Fields
facts_in f [] = end
facts_in f (name ∷ names) = field name (bool (f name)) (facts_in f names)

-- The dictionary that `evaluate_capabilities` returns.
unfoldable pub to_dict : HostReport → Value
to_dict r = dict (
    field "version" (str "taskguard-capabilities-v1") (
      field "platform" (str r.platform) (
        field "python" (str r.python) (
          field "capabilities" (dict (facts_in r.capabilities capability_order)) (
            field "missing" (list (texts r.missing))
              (field "taskguard_supported" (bool r.taskguard_supported) end))))))

abbrev keys_of : Fields → List String
keys_of end = []
keys_of (field k v fs) = k ∷ keys_of fs

abbrev report_fields : List String
report_fields =
    "version" ∷ "platform" ∷ "python" ∷ "capabilities" ∷ "missing" ∷ "taskguard_supported" ∷ []

abbrev entry : Fields → String → Value
entry fs k = or_null (find_field fs k)

abbrev is_string : Value → Bool
is_string (str s) = true
is_string _ = false

abbrev same_texts : List String → List String → Bool
same_texts [] [] = true
same_texts (a ∷ xs) (b ∷ ys) = a == b && same_texts xs ys
same_texts _ _ = false

abbrev fields_of : Value → Option Fields
fields_of (dict fs) = some fs
fields_of _ = none

abbrev exact_fields : Option Fields → CapabilityError → Outcome CapabilityError Fields
exact_fields none e = err e
exact_fields (some fs) e = ok fs

-- `value["missing"] != expected`, and the verdict, which must be the Boolean.
abbrev is_text_list : Value → List String → Bool
is_text_list (list vs) ts = is_texts vs ts
is_text_list _ ts = false

abbrev is_verdict : Value → Bool → Bool
is_verdict (bool true) b = b
is_verdict (bool false) b = not b
is_verdict _ b = false

abbrev missing_in : Fields → List String
missing_in facts = reject (λ name. is_true (entry facts name)) capability_order

unfoldable pub validate_capability_report : Value → Outcome CapabilityError Value
validate_capability_report value = do
  fs ← exact_fields (fields_of value) inexact_schema
  raise_if
      (not (all (contains report_fields) (keys_of fs) && all (contains (keys_of fs)) report_fields))
      inexact_schema
  raise_if (not (is_text (entry fs "version") "taskguard-capabilities-v1")) wrong_version
  raise_if (not (is_string (entry fs "platform")) || not (is_string (entry fs "python"))) not_text
  facts ← exact_fields (fields_of (entry fs "capabilities")) wrong_facts
  raise_if (not (same_texts (keys_of facts) capability_order)) wrong_facts
  raise_if (not (all (λ name. is_bool (entry facts name)) capability_order)) not_boolean
  raise_if (not (is_text_list (entry fs "missing") (missing_in facts))) wrong_missing
  raise_if (not (is_verdict (entry fs "taskguard_supported") (is_empty (missing_in facts))))
      wrong_verdict
  ok value

is_texts-texts : (ts : List String) → is_texts (texts ts) ts ≡ true
is_texts-texts [] = refl
is_texts-texts (t ∷ ts) = rw (eq_refl t, is_texts-texts ts) refl

is_verdict-same : (b : Bool) → is_verdict (bool b) b ≡ true
is_verdict-same true = refl
is_verdict-same false = refl

validate-to_dict :
    (platform python : String) (f : String → Bool)
    → validate_capability_report (
        to_dict (record {
          platform = platform;
          python = python;
          capabilities = f;
          missing = reject f capability_order;
          taskguard_supported = is_empty (reject f capability_order);
        }))
      ≡ ok (
          to_dict (record {
            platform = platform;
            python = python;
            capabilities = f;
            missing = reject f capability_order;
            taskguard_supported = is_empty (reject f capability_order);
          }))
unfolding validate_capability_report to_dict raise_if contains
validate-to_dict platform python f =
    rw
      (
        is_texts-texts (reject f capability_order),
        is_verdict-same (is_empty (reject f capability_order)),
      )
      refl

regroup : (a p b : Bool) → ((a && p) && b) ≡ true → ((a && b) ≡ true) × (p ≡ true)
regroup true true b h = (h, refl)
regroup true false b h = cc
regroup false p b h = cc

ungroup : (a p b : Bool) → ((a && b) ≡ true) × (p ≡ true) → ((a && p) && b) ≡ true
ungroup true true b (h, k) = h
ungroup true false b (h, k) = cc
ungroup false p b (h, k) = cc

supported_iff :
    (platform : String) (facts : Mapping Value)
    → (is_empty (reject (capability_of platform facts) capability_order) ≡ true) ↔ (
        (all (λ name. is_true (get_value facts name)) capability_order ≡ true)
        × (is_supported_platform platform ≡ true))
supported_iff platform facts =
    let every = is_empty-reject (capability_of platform facts) capability_order in
    (
      λ h.
          regroup (is_true (get_value facts "posix_platform")) (is_supported_platform platform) _
            (sym every ∙ h),
      λ h.
          every
          ∙ ungroup (is_true (get_value facts "posix_platform")) (is_supported_platform platform) _
              h,
    )

-- A report that is evaluated passes the check of reports unchanged, and it supports TaskGuard exactly when every
-- fact of the order is `True` and the platform is one of those supported.
pub evaluated_valid :
    (platform : String) (facts : Mapping Value) (python : String) {r : HostReport}
    → evaluate_capabilities platform facts python ≡ ok r
    → (validate_capability_report (to_dict r) ≡ ok (to_dict r))
      × ((r.taskguard_supported ≡ true) ↔ (
          (all (λ name. is_true (get_value facts name)) capability_order ≡ true)
          × (is_supported_platform platform ≡ true)))
unfolding evaluate_capabilities
evaluated_valid platform facts python {r} h =
    let (typed, made) = raise_if-passed _ _ _ h in
    subst
      (λ (x : HostReport).
        (validate_capability_report (to_dict x) ≡ ok (to_dict x))
        × ((x.taskguard_supported ≡ true) ↔ (
            (all (λ name. is_true (get_value facts name)) capability_order ≡ true)
            × (is_supported_platform platform ≡ true))))
      (ok-injective made)
      (
        validate-to_dict platform python (capability_of platform facts),
        supported_iff platform facts,
      )
