-- ===== src/Contract/Paths/Confined.antt =====
-- What a path that `_canonical_path` of taskguard/contract.py returned selects in the working tree.
use bricek4_ligong_skills.Base.{
  ℕ, ◌+◌, ◌≡◌, refl, subst, String, Bool, true, false, List, [], ◌∷◌, ◌++◌, ◌⊎◌, inl, inr, ok,
  >>=-eq-ok, >>=-elim, some, none, is_empty, Option, true_of_not, raise_if-passed, ok-injective,
  any, Value, Items, nil, cons, null, list, bool, int, str, tuple, dict, All, not, arith,
}
use bricek4_ligong_skills.Contract.{
  Label, HostPath, top, at_index, lexical_relative, nonempty_string,
}
use bricek4_ligong_skills.Contract.Selectors.{has_magic, posix_parts}
use bricek4_ligong_skills.Contract.Selectors.Matching.{Matches}
use bricek4_ligong_skills.Contract.Scan.{Node, directory, Entries, Repository}
use bricek4_ligong_skills.Contract.Scan.Safety.{At, IsBounded, inspect_literal-IsBounded}
use bricek4_ligong_skills.Contract.Scan.Globs.{inspect_glob-IsBounded}
use bricek4_ligong_skills.Contract.Paths.{
  Host, git_admin_roots, inspect, canonical_path, canonical_cwd, path_items, paths_of, path_array,
  same_path, root_checked, repo_checked, canonical_repo,
}
use bricek4_ligong_skills.Risk.Paths.{is_git_part}

-- A path without a glob character selects itself and what is below it, another one what its components match.
abbrev pub SelectedBy : String → List String → Type 0
SelectedBy selector path =
    (has_magic selector ≡ false) × ((more : List String) × (path ≡ posix_parts selector ++ more))
    ⊎ (has_magic selector ≡ true) × Matches path (posix_parts selector)

-- In folders that are not Git's, the selector selects no administrative data of Git and no link that leaves the
-- repository, the marker `.git` of the root apart.
abbrev pub IsConfined : Host → HostPath → String → Type 0
IsConfined host repo selector =
    (roots : List HostPath) × (git_admin_roots host repo ≡ ok roots)
    × ((listable : Bool) (es : Entries) (front : List String) (name : String) (node : Node)
        → host.tree repo ≡ directory listable es
        → At es front name node
        → any is_git_part front ≡ false
        → SelectedBy selector (front ++ name ∷ [])
        → (is_git_part name ≡ false)
            × IsBounded (record { location = repo; admin_roots = roots }) node
          ⊎ (front ≡ []) × (name ≡ ".git"))

inspect-IsBounded :
    (host : Host) (repo : Repository) (label : Label) (allow_link listable : Bool)
    (selector : String) (es : Entries) (front : List String) (name : String) (node : Node)
    → inspect host repo label allow_link selector ≡ ok tt
    → any is_git_part (posix_parts selector) ≡ false
    → host.tree repo.location ≡ directory listable es
    → At es front name node
    → any is_git_part front ≡ false
    → SelectedBy selector (front ++ name ∷ [])
    → (is_git_part name ≡ false) × IsBounded repo node ⊎ (front ≡ []) × (name ≡ ".git")
unfolding inspect
inspect-IsBounded host repo label allow_link listable selector es front name node h plain tree at
      clean (inl (literal, (more, eq))) =
    inspect_literal-IsBounded repo label allow_link listable (posix_parts selector) more at clean
      plain eq (rw (inspect, literal, tree) at h)
inspect-IsBounded host repo label allow_link listable selector es front name node h plain tree at
      clean (inr (magic, m)) =
    inl (
      (inspect_glob-IsBounded repo label (posix_parts selector) listable at clean
          (rw (inspect, magic, tree) at h)).0
        m)

pub canonical_path-IsConfined :
    (host : Host) (repo : HostPath) (value : Value) (label : Label) (allow_dot allow_link : Bool)
    (path : String)
    → canonical_path host repo value label allow_dot allow_link ≡ ok path
    → IsConfined host repo path
unfolding canonical_path
canonical_path-IsConfined host repo value label allow_dot allow_link path h =
    let (normalized, _, h1) = >>=-eq-ok (lexical_relative value label allow_dot) _ h in
    let (plain, h2) = raise_if-passed _ _ _ h1 in
    let (roots, is_roots, h3) = >>=-eq-ok (git_admin_roots host repo) _ h2 in
    let (_, walked, h4) =
      >>=-eq-ok
        (inspect host (record { location = repo; admin_roots = roots }) label allow_link normalized)
        _ h3 in
    subst (λ p. IsConfined host repo p) (ok-injective h4)
      (
        roots,
        is_roots,
        λ listable es front name node.
            inspect-IsBounded host (record { location = repo; admin_roots = roots }) label
              allow_link listable normalized es front name node walked plain,
      )

pub canonical_cwd-IsConfined :
    (host : Host) (repo : HostPath) (value : Value) (label : Label) (cwd : String)
    → canonical_cwd host repo value label ≡ ok cwd
    → IsConfined host repo cwd × (host.is_dir (repo ++ posix_parts cwd) ≡ true)
unfolding canonical_cwd
canonical_cwd-IsConfined host repo value label cwd h =
    let (path, canonical, h1) = >>=-eq-ok (canonical_path host repo value label true false) _ h in
    let (exists, h2) = raise_if-passed (not (host.is_dir (repo ++ posix_parts path))) _ _ h1 in
    subst (λ p. IsConfined host repo p × (host.is_dir (repo ++ posix_parts p) ≡ true))
      (ok-injective h2)
      (canonical_path-IsConfined host repo value label true false path canonical, ground arith)

path_items-All :
    (host : Host) (repo : HostPath) (label : Label) (allow_dot : Bool) (index : ℕ) (vs : Items)
    (paths : List String)
    → path_items host repo label allow_dot index vs ≡ ok paths
    → All (IsConfined host repo) paths
unfolding path_items
path_items-All host repo label allow_dot index nil paths h =
    subst (λ ps. All (IsConfined host repo) ps) (ok-injective h) tt
path_items-All host repo label allow_dot index (cons v vs) paths h =
    let (path, canonical, h1) =
      >>=-eq-ok (canonical_path host repo v (at_index label index) allow_dot true) _ h in
    let (rest, later, h2) = >>=-eq-ok (path_items host repo label allow_dot (index + 1) vs) _ h1 in
    subst (λ ps. All (IsConfined host repo) ps) (ok-injective h2)
      (
        canonical_path-IsConfined host repo v (at_index label index) allow_dot true path canonical,
        path_items-All host repo label allow_dot (index + 1) vs rest later,
      )

pub paths_of-All :
    (host : Host) (repo : HostPath) (label : Label) (allow_dot : Bool) (vs : Items)
    (paths : List String)
    → paths_of host repo label allow_dot vs ≡ ok paths
    → All (IsConfined host repo) paths
unfolding paths_of
paths_of-All host repo label allow_dot vs paths h =
    path_items-All host repo label allow_dot 0 vs paths h

pub path_array-All :
    (host : Host) (repo : HostPath) (value : Value) (label : Label) (paths : List String)
    → path_array host repo value label ≡ ok paths
    → All (IsConfined host repo) paths
unfolding path_array
path_array-All host repo null label paths h =
    subst (λ ps. All (IsConfined host repo) ps) (ok-injective h) tt
path_array-All host repo (list vs) label paths h = paths_of-All host repo label false vs paths h
path_array-All host repo (bool _) label paths h = cc
path_array-All host repo (int _) label paths h = cc
path_array-All host repo (str _) label paths h = cc
path_array-All host repo (tuple _) label paths h = cc
path_array-All host repo (dict _) label paths h = cc

pub paths_of-filled :
    (host : Host) (repo : HostPath) (label : Label) (allow_dot : Bool) (v : Value) (vs : Items)
    (paths : List String)
    → paths_of host repo label allow_dot (cons v vs) ≡ ok paths
    → is_empty paths ≡ false
unfolding paths_of
paths_of-filled host repo label allow_dot v vs paths h =
    >>=-elim (canonical_path host repo v (at_index label 0) allow_dot true) _ h λ path _ h1.
      >>=-elim (path_items host repo label allow_dot (0 + 1) vs) _ h1
        λ rest _ h2. subst (λ ps. is_empty ps ≡ false) (ok-injective h2) refl

-- The repository is a directory and the root of its own working tree.
abbrev pub IsTopLevel : Host → HostPath → Type 0
IsTopLevel host repo =
    (host.is_dir repo ≡ true)
    × ((root : HostPath) × (host.toplevel repo ≡ some root) × (same_path root repo ≡ true))

root_checked-root :
    (answer : Option HostPath) (repo found : HostPath)
    → root_checked answer repo ≡ ok found
    → (repo ≡ found) × ((root : HostPath) × (answer ≡ some root) × (same_path root repo ≡ true))
unfolding root_checked
root_checked-root none repo found h = absurd (cc h)
root_checked-root (some root) repo found h =
    let (same, h1) = raise_if-passed (not (same_path root repo)) _ _ h in
    (ok-injective h1, (root, refl, true_of_not _ same))

repo_checked-IsTopLevel :
    (host : Host) (resolved : Option HostPath) (repo : HostPath)
    → repo_checked host resolved ≡ ok repo
    → IsTopLevel host repo
unfolding repo_checked
repo_checked-IsTopLevel host none repo h = absurd (cc h)
repo_checked-IsTopLevel host (some path) repo h =
    let (is_dir, h1) = raise_if-passed (not (host.is_dir path)) _ _ h in
    let (same, root) = root_checked-root (host.toplevel path) path repo h1 in
    subst (λ p. IsTopLevel host p) same (true_of_not _ is_dir, root)

pub canonical_repo-IsTopLevel :
    (host : Host) (value : Value) (repo : HostPath)
    → canonical_repo host value ≡ ok repo
    → IsTopLevel host repo
unfolding canonical_repo
canonical_repo-IsTopLevel host value repo h =
    >>=-elim (nonempty_string value (top "repo")) _ h
      λ text _ h1. repo_checked-IsTopLevel host (host.resolve_path text) repo h1
