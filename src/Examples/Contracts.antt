-- ===== src/Examples/Contracts.antt =====
-- Results about taskguard/contract.py at concrete contracts and trees.
use bricek4_ligong_skills.Base.{
  ℕ, ◌≡◌, refl, String, true, false, Option, none, some, List, [], ◌∷◌, ◌↔◌, ok, Value, bool, int,
  str, list, dict, nil, cons, end, field, pos, contains, has_nul, raise_if, sorted_set, starts_with,
}
use bricek4_ligong_skills.Risk.Paths.{is_spaces, path_parts, is_absolute, join_slash, is_git_part}
use bricek4_ligong_skills.Contract.{
  HostPath, top, Contract, exact_fields, nonempty_string, boolean, lexical_relative,
}
use bricek4_ligong_skills.Contract.Glob.{fnmatchcase}
use bricek4_ligong_skills.Contract.Selectors.{
  selector_matches, epsilon_loop, epsilon_closure, has, is_deep, has_magic, posix_parts,
  pattern_states,
}
use bricek4_ligong_skills.Contract.Selectors.Worklist.{Skips, epsilon_closure_terminates}
use bricek4_ligong_skills.Contract.Selectors.Matching.{Selects, Matches, selector_matches_iff}
use bricek4_ligong_skills.Contract.Scan.{
  file, link, directory, Entries, vacant, entry, Repository, inspect_glob, can_list, glob_entries,
  glob_named, can_go_on, inspect_literal, walk_literal, visit_part, scan_entries, scan_named,
  reject_nested_marker,
}
use bricek4_ligong_skills.Contract.Scan.Safety.{At, last, inside, IsBounded}
use bricek4_ligong_skills.Contract.Scan.Globs.{inspect_glob-IsBounded}
use bricek4_ligong_skills.Contract.Paths.{
  Host, resolved, canonical_repo, paths_of, canonical_path, git_admin_roots, inspect, canonical_cwd,
  path_array,
}
use bricek4_ligong_skills.Contract.Objects.{
  acceptance_items, object_loop, acceptance_item, object_of, argv_of, red_pattern, optional_text,
  forbidden_rules, surface_rules,
}
use bricek4_ligong_skills.Contract.Validate.{
  validate_contract, version_of, scope_of, repeats, acknowledged_of,
}
use bricek4_ligong_skills.Contract.Validate.WellFormed.{
  IsWellFormed, validate_contract-IsWellFormed,
}

epsilon_closure_terminates_example :
    ((epsilon_loop (0 ∷ []) ("**" ∷ "a" ∷ [])).pending ≡ [])
    × ((j : ℕ)
        → (has (epsilon_closure (0 ∷ []) ("**" ∷ "a" ∷ [])) j ≡ true)
          ↔ ((i : ℕ) × (has (0 ∷ []) i ≡ true) × Skips ("**" ∷ "a" ∷ []) i j))
epsilon_closure_terminates_example = epsilon_closure_terminates (0 ∷ []) ("**" ∷ "a" ∷ [])

selector_matches_iff_example :
    (selector_matches "src/a.py" "src/**" ≡ true) ↔ Selects "src/a.py" "src/**"
selector_matches_iff_example = selector_matches_iff "src/a.py" "src/**"

-- A tree with a marker of Git, a folder with a file, and a link into the folder.
abbrev sources : Entries
sources = entry ".git" (directory true vacant) (
    entry "alias" (link (some ("r" ∷ "src" ∷ [])))
      (entry "src" (directory true (entry "a.py" file vacant)) vacant))

abbrev checkout : Repository
checkout = record { location = "r" ∷ []; admin_roots = ("r" ∷ ".git" ∷ []) ∷ [] }

abbrev python_files : List String
python_files = "src" ∷ "*.py" ∷ []

python_files_accepted :
    inspect_glob checkout (top "scope") python_files (directory true sources) ≡ ok tt
unfolding inspect_glob can_list raise_if glob_entries glob_named is_git_part pattern_states is_deep
    fnmatchcase can_go_on
python_files_accepted = refl

a_py_there : At sources ("src" ∷ []) "a.py" file
a_py_there = inside refl (last refl)

inspect_glob-IsBounded_example :
    (Matches ("src" ∷ "a.py" ∷ []) python_files
      → (is_git_part "a.py" ≡ false) × IsBounded checkout file)
    × ((part : String) (rest : List String) (target : Option HostPath)
        → file ≡ link target
        → is_git_part "a.py" ≡ false
        → ¬ Matches ("src" ∷ "a.py" ∷ (part ∷ rest)) python_files)
unfolding is_git_part
inspect_glob-IsBounded_example =
    inspect_glob-IsBounded checkout (top "scope") python_files true a_py_there refl
      python_files_accepted

abbrev pub host : Host
host = record {
  resolve_path = λ text. some ("r" ∷ []);
  is_dir = λ path. true;
  toplevel = λ repo. some repo;
  git_path = λ repo flag. resolved ("r" ∷ ".git" ∷ []);
  tree = λ repo. directory true sources;
  compiles = λ regex. true;
}

abbrev unit_tests : Value
unit_tests = dict (
    field "id" (str "unit") (
      field "argv" (list (cons (str "pytest") nil)) (
        field "cwd" (str "src")
          (field "requires_red" (bool false) (field "idempotent" (bool true) end)))))

abbrev small_document : Value
small_document = dict (
    field "version" (int (pos 2)) (
      field "task_id" (str "t1") (
        field "goal" (str "fix") (
          field "risk" (str "L1") (
            field "repo" (str ".") (
              field "scope" (list (cons (str "src") nil))
                (field "acceptance" (list (cons unit_tests nil)) end)))))))

abbrev small_contract : Contract
small_contract = record {
  version = 2;
  task_id = "t1";
  goal = "fix";
  risk = "L1";
  repo = "r" ∷ [];
  scope = "src" ∷ [];
  acceptance =
      record {
        id = "unit";
        argv = "pytest" ∷ [];
        cwd = "src";
        requires_red = false;
        expected_red_pattern = none;
        idempotent = true;
        selector = none;
      }
      ∷ [];
  acknowledge_dirty = [];
  forbidden = [];
  surfaces = [];
}

small_document_accepted : validate_contract host small_document ≡ ok small_contract
unfolding validate_contract exact_fields sorted_set contains version_of nonempty_string is_spaces
    has_nul raise_if canonical_repo scope_of paths_of canonical_path lexical_relative is_absolute
    path_parts join_slash posix_parts is_git_part git_admin_roots inspect has_magic starts_with
    inspect_literal walk_literal visit_part can_list reject_nested_marker scan_entries scan_named
    repeats acceptance_items object_loop acceptance_item object_of argv_of canonical_cwd boolean
    red_pattern optional_text acknowledged_of path_array forbidden_rules surface_rules
small_document_accepted = refl

validate_contract-IsWellFormed_example : IsWellFormed host small_contract
validate_contract-IsWellFormed_example =
    validate_contract-IsWellFormed host small_document small_contract small_document_accepted

star_in_the_middle : fnmatchcase "main_test.py" "m*_test.p?" ≡ true
unfolding fnmatchcase
star_in_the_middle = refl

ranges_and_dashes : fnmatchcase "b-" "[a-c][!a-c]" ≡ true
unfolding fnmatchcase
ranges_and_dashes = refl

unclosed_set_is_literal : fnmatchcase "[a" "[a" ≡ true
unfolding fnmatchcase
unclosed_set_is_literal = refl

closing_bracket_first : fnmatchcase "]" "[]a]" ≡ true
unfolding fnmatchcase
closing_bracket_first = refl

case_counts : fnmatchcase "A" "a" ≡ false
unfolding fnmatchcase
case_counts = refl

deep_selector_runs : selector_matches "src/a/b/test_x.py" "src/**/test_*.py" ≡ true
unfolding selector_matches path_parts join_slash starts_with is_deep fnmatchcase
deep_selector_runs = refl
