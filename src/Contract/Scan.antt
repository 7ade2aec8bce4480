-- ===== src/Contract/Scan.antt =====
-- The walks of taskguard/contract.py over the working tree, which follow no link. The tree stays as it is while it
-- is read. A directory holds its entries in the order of their names, which is the order of `sorted`.
pub mod Safety
pub mod Globs
use bricek4_ligong_skills.Base.{
  ℕ, ◌≡◌, refl, String, Bool, true, false, not, ◌&&◌, ◌||◌, Option, none, some, List, [], ◌∷◌, ◌++◌,
  ◌==◌, Outcome, ok, err, ◌>>=◌, ◌>>◌, raise_if, any, is_empty, length, ltb, if◌then◌else◌, ◌+++◌,
}
use bricek4_ligong_skills.Contract.{Label, Checked, HostPath, error}
use bricek4_ligong_skills.Contract.Selectors.{has, pattern_states}
use bricek4_ligong_skills.Risk.Paths.{is_git_part}

-- What `os.stat` without following links and `os.open` say of a name. `link` holds what `resolve(strict=True)`
-- gives for it, `locked` is a directory that cannot be opened, and the flag of a directory says whether it can be
-- listed.
mutual
  pub data Node : Type 0 where
    file : Node
    unreadable : Node
    link : Option HostPath → Node
    locked : Node
    directory : Bool → Entries → Node

  pub data Entries : Type 0 where
    vacant : Entries
    entry : String → Node → Entries → Entries

pub record Repository : Type 0 where
  pub location : HostPath
  pub admin_roots : List HostPath

abbrev Done : Type 0
Done = Checked (Unit {0})

-- `_inside(path, root)`
unfoldable pub is_inside : HostPath → HostPath → Bool
is_inside path [] = true
is_inside [] (r ∷ root) = false
is_inside (p ∷ path) (r ∷ root) = p == r && is_inside path root

-- `path.relative_to(root)` where the path is inside.
unfoldable pub relative_to : HostPath → HostPath → HostPath
relative_to path [] = path
relative_to [] (r ∷ root) = []
relative_to (p ∷ path) (r ∷ root) = relative_to path root

-- `_inside_git_admin`
unfoldable pub is_inside_git_admin : HostPath → List HostPath → Bool
unfolding is_inside
is_inside_git_admin path admin_roots = any (is_inside path) admin_roots

unfoldable pub validate_symlink_boundary : Repository → Label → String → Option HostPath → Done
validate_symlink_boundary repo label relative none =
    err (error label ("contains an unresolved symlink: " +++ relative))
validate_symlink_boundary repo label relative (some target) = do
  raise_if (is_inside_git_admin target repo.admin_roots)
      (error label ("selects Git administrative data through symlink: " +++ relative))
  raise_if (not (is_inside target repo.location))
      (error label ("contains a symlink escape: " +++ relative))
  raise_if (any is_git_part (relative_to target repo.location))
      (error label ("selects Git administrative data through symlink: " +++ relative))

-- The failures of `_entry_stat`, `_open_child_directory` and `_directory_names`.
abbrev cannot_inspect : Label → String → Done
cannot_inspect label relative = err (error label ("cannot inspect selected path " +++ relative))

abbrev cannot_open : Label → String → Done
cannot_open label relative =
    err (error label ("cannot open selected directory without following links: " +++ relative))

unfoldable pub can_list : Bool → Label → String → Done
can_list listable label relative =
    raise_if (not listable) (error label ("cannot enumerate selected directory " +++ relative))

abbrev pub child_of : String → String → String
child_of relative name = if relative == "." then name else relative +++ ("/" +++ name)

-- `_reject_nested_admin_marker`
unfoldable pub reject_nested_marker : Label → String → Entries → Done
reject_nested_marker label relative vacant = ok tt
reject_nested_marker label relative (entry name node es) = do
  raise_if (is_git_part name)
      (error label ("selects Git administrative data: " +++ child_of relative name))
  reject_nested_marker label relative es

-- A name of a directory that `_scan_selected_directory` walks; `below` is the walk of its node.
unfoldable pub scan_named : Label → Bool → String → String → Done → Done
scan_named label is_root child name below =
    if is_git_part name
    then if is_root && name == ".git"
      then ok tt
      else err (error label ("selects Git administrative data: " +++ child))
    else below

-- `_scan_selected_directory`
unfoldable mutual
  pub scan_entries : Repository → Label → Bool → String → Entries → Done
  scan_entries repo label is_root relative vacant = ok tt
  scan_entries repo label is_root relative (entry name node es) = do
    scan_named label is_root (child_of relative name) name
        (scan_node repo label (child_of relative name) node)
    scan_entries repo label is_root relative es

  pub scan_node : Repository → Label → String → Node → Done
  scan_node repo label child file = ok tt
  scan_node repo label child unreadable = cannot_inspect label child
  scan_node repo label child (link target) = validate_symlink_boundary repo label child target
  scan_node repo label child locked = cannot_open label child
  scan_node repo label child (directory listable es) =
      can_list listable label child >> scan_entries repo label false child es

-- `os.stat(part, dir_fd=…)`
abbrev pub find_entry : Entries → String → Option Node
find_entry vacant name = none
find_entry (entry n node es) name = if n == name then some node else find_entry es name

-- One round of the loop of `_inspect_literal_no_follow`: `next` is the rest of the loop.
unfoldable pub visit_part :
    Repository → Label → Bool → String → Bool → Option Node → (Entries → Done) → Done
visit_part repo label allow_link relative final none next = ok tt
visit_part repo label allow_link relative final (some file) next =
    if final then ok tt else err (error label ("path component is not a directory: " +++ relative))
visit_part repo label allow_link relative final (some unreadable) next =
    cannot_inspect label relative
visit_part repo label allow_link relative final (some (link target)) next = do
  raise_if (final && not allow_link) (error label ("must not be a symlink: " +++ relative))
  validate_symlink_boundary repo label relative target
  raise_if (not final) (error label ("contains an ancestor symlink: " +++ relative))
visit_part repo label allow_link relative final (some locked) next = cannot_open label relative
visit_part repo label allow_link relative final (some (directory listable es)) next = do
  can_list listable label relative
  reject_nested_marker label relative es
  if final then scan_entries repo label false relative es else next es

unfoldable pub walk_literal : Repository → Label → Bool → String → List String → Entries → Done
walk_literal repo label allow_link trail [] es = ok tt
walk_literal repo label allow_link trail (part ∷ parts) es =
    visit_part repo label allow_link (child_of trail part) (is_empty parts) (find_entry es part)
      (walk_literal repo label allow_link (child_of trail part) parts)

cannot_open_root : Label → Done
cannot_open_root label =
    err (error label "cannot open repository directory without following links")

unfoldable pub inspect_literal : Repository → Label → Bool → List String → Node → Done
unfolding cannot_open_root
inspect_literal repo label allow_link [] (directory listable es) =
    can_list listable label "." >> scan_entries repo label true "." es
inspect_literal repo label allow_link (part ∷ parts) (directory listable es) =
    walk_literal repo label allow_link "." (part ∷ parts) es
inspect_literal repo label allow_link parts root = cannot_open_root label

-- `any(index < len(pattern) for index in states)`
unfoldable pub can_go_on : List String → List ℕ → Bool
can_go_on pattern states = any (λ i. ltb i (length pattern)) states

abbrev path_text : List String → String
path_text [] = "."
path_text (p ∷ []) = p
path_text (p ∷ ps) = p +++ ("/" +++ path_text ps)

-- A name of a directory that `_scan_glob_matches` walks; `below` is the walk of its node.
unfoldable pub glob_named : Label → List String → List String → String → Done → Done
glob_named label pattern child name below =
    let states = pattern_states child pattern in
    if is_git_part name
    then raise_if (has states (length pattern))
        (error label ("pattern selects Git administrative data: " +++ path_text child))
    else if is_empty states
    then ok tt
    else below

-- `_scan_glob_matches`
unfoldable mutual
  pub glob_entries : Repository → Label → List String → List String → Entries → Done
  glob_entries repo label pattern parts vacant = ok tt
  glob_entries repo label pattern parts (entry name node es) = do
    glob_named label pattern (parts ++ name ∷ []) name
        (glob_node repo label pattern (parts ++ name ∷ []) node)
    glob_entries repo label pattern parts es

  pub glob_node : Repository → Label → List String → List String → Node → Done
  glob_node repo label pattern child file = ok tt
  glob_node repo label pattern child unreadable = cannot_inspect label (path_text child)
  glob_node repo label pattern child (link target) =
      let states = pattern_states child pattern in
      if can_go_on pattern states
      then err (error label ("pattern crosses an ancestor symlink: " +++ path_text child))
      else if has states (length pattern)
      then validate_symlink_boundary repo label (path_text child) target
      else ok tt
  glob_node repo label pattern child locked = cannot_open label (path_text child)
  glob_node repo label pattern child (directory listable es) =
      if can_go_on pattern (pattern_states child pattern)
      then can_list listable label (path_text child) >> glob_entries repo label pattern child es
      else ok tt

-- `_inspect_glob_no_follow`
unfoldable pub inspect_glob : Repository → Label → List String → Node → Done
unfolding cannot_open_root
inspect_glob repo label pattern (directory listable es) =
    can_list listable label "." >> glob_entries repo label pattern [] es
inspect_glob repo label pattern root = cannot_open_root label
