-- ===== src/Contract/Paths.antt =====
-- The checks of taskguard/contract.py that ask the host: the repository, its Git directories and the selected paths.
pub mod Confined
use bricek4_ligong_skills.Base.{
  ℕ, ◌+◌, ◌≡◌, String, Bool, true, false, not, ◌&&◌, ◌||◌, Option, none, some, List, [], ◌∷◌, ◌++◌,
  ◌==◌, Outcome, ok, err, ◌>>=◌, ◌>>◌, raise_if, Value, Items, list, null, nil, cons, any,
  if◌then◌else◌, ◌+++◌, suc,
}
use bricek4_ligong_skills.Contract.{
  Label, top, at_index, Checked, HostPath, error, nonempty_string, lexical_relative,
}
use bricek4_ligong_skills.Contract.Selectors.{has_magic, posix_parts}
use bricek4_ligong_skills.Contract.Scan.{Node, Repository, inspect_literal, inspect_glob}
use bricek4_ligong_skills.Risk.Paths.{is_git_part}

-- What `git rev-parse` with one of the flags `--git-dir` and `--git-common-dir` leads to.
pub data GitPath : Type 0 where
  no_answer : GitPath
  unresolved : GitPath
  resolved : HostPath → GitPath

-- The host: paths are resolved strictly against the base, `none` where that raises; `toplevel` is `git rev-parse
-- --show-toplevel`, `none` where it fails; `compiles` is `re.compile` without an error.
pub record Host : Type 0 where
  pub resolve_path : String → Option HostPath
  pub is_dir : HostPath → Bool
  pub toplevel : HostPath → Option HostPath
  pub git_path : HostPath → String → GitPath
  pub tree : HostPath → Node
  pub compiles : String → Bool

unfoldable pub same_path : HostPath → HostPath → Bool
same_path [] [] = true
same_path (p ∷ ps) (q ∷ qs) = p == q && same_path ps qs
same_path _ _ = false

abbrev git_flags : List String
git_flags = "--git-dir" ∷ "--git-common-dir" ∷ []

-- A root is kept once.
abbrev add_root : HostPath → List HostPath → List HostPath
add_root path roots = if any (same_path path) roots then roots else roots ++ path ∷ []

git_answer : GitPath → String → List HostPath → Checked (List HostPath)
unfolding same_path
git_answer no_answer flag roots =
    err (error (top "repo") ("cannot resolve Git administrative path " +++ flag))
git_answer unresolved flag roots =
    err (error (top "repo") ("cannot resolve Git administrative path " +++ flag))
git_answer (resolved path) flag roots = ok (add_root path roots)

admin_roots_from : Host → HostPath → List String → List HostPath → Checked (List HostPath)
unfolding git_answer
admin_roots_from host repo [] roots = ok roots
admin_roots_from host repo (flag ∷ flags) roots = do
  roots' ← git_answer (host.git_path repo flag) flag roots
  admin_roots_from host repo flags roots'

-- `_git_admin_roots`
unfoldable pub git_admin_roots : Host → HostPath → Checked (List HostPath)
unfolding admin_roots_from
git_admin_roots host repo = admin_roots_from host repo git_flags []

-- `_git_root(repo) != repo`
root_checked : Option HostPath → HostPath → Checked HostPath
unfolding same_path
root_checked none repo = err (error (top "repo") "must be a Git working-tree root")
root_checked (some root) repo = do
  raise_if (not (same_path root repo)) (error (top "repo") "must name the Git working-tree root")
  ok repo

repo_checked : Host → Option HostPath → Checked HostPath
unfolding root_checked
repo_checked host none = err (error (top "repo") "cannot resolve repository")
repo_checked host (some repo) = do
  raise_if (not (host.is_dir repo)) (error (top "repo") "must resolve to a directory")
  root_checked (host.toplevel repo) repo

-- `_canonical_repo`
unfoldable pub canonical_repo : Host → Value → Checked HostPath
unfolding repo_checked
canonical_repo host value = do
  text ← nonempty_string value (top "repo")
  repo_checked host (host.resolve_path text)

-- The walk of a normalized path, by whether it has a glob character.
unfoldable pub inspect : Host → Repository → Label → Bool → String → Checked (Unit {0})
inspect host repository label allow_link normalized =
    if has_magic normalized
    then inspect_glob repository label (posix_parts normalized) (host.tree repository.location)
    else inspect_literal repository label allow_link (posix_parts normalized)
        (host.tree repository.location)

-- `_canonical_path`
unfoldable pub canonical_path : Host → HostPath → Value → Label → Bool → Bool → Checked String
canonical_path host repo value label allow_dot allow_link = do
  normalized ← lexical_relative value label allow_dot
  raise_if (any is_git_part (posix_parts normalized))
      (error label "must not select Git administrative data")
  admin_roots ← git_admin_roots host repo
  inspect host (record { location = repo; admin_roots = admin_roots }) label allow_link normalized
  ok normalized

-- `cwd` of an acceptance or a surface: a path, no link itself, that is a directory.
unfoldable pub canonical_cwd : Host → HostPath → Value → Label → Checked String
canonical_cwd host repo value label = do
  cwd ← canonical_path host repo value label true false
  raise_if (not (host.is_dir (repo ++ posix_parts cwd)))
      (error label "must resolve to an existing directory")
  ok cwd

-- The parts of the list comprehensions, with the index of the item.
path_items : Host → HostPath → Label → Bool → ℕ → Items → Checked (List String)
path_items host repo label allow_dot index nil = ok []
path_items host repo label allow_dot index (cons v vs) = do
  path ← canonical_path host repo v (at_index label index) allow_dot true
  rest ← path_items host repo label allow_dot (index + 1) vs
  ok (path ∷ rest)

unfoldable pub paths_of : Host → HostPath → Label → Bool → Items → Checked (List String)
unfolding path_items
paths_of host repo label allow_dot vs = path_items host repo label allow_dot 0 vs

-- `_path_array`
unfoldable pub path_array : Host → HostPath → Value → Label → Checked (List String)
path_array host repo null label = ok []
path_array host repo (list vs) label = paths_of host repo label false vs
path_array host repo _ label = err (error label "must be an array")
