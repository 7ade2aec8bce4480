-- ===== src/Contract/Scan/Safety.antt =====
-- What the walks of taskguard/contract.py accept.
use bricek4_ligong_skills.Base.{
  ◌≡◌, refl, sym, subst, ◌∙◌, String, Bool, true, false, not, ◌&&◌, Option, none, some, List, [],
  ◌∷◌, ◌++◌, ◌==◌, ◌⊎◌, inl, inr, Outcome, ok, err, ◌>>◌, raise_if, any, if◌then◌else◌, arith,
  Bool-cases, eq_iff, or-false, false≢true,
}
use bricek4_ligong_skills.Contract.{Label, Checked, HostPath}
use bricek4_ligong_skills.Contract.Scan.{
  Node, file, unreadable, link, locked, directory, Entries, vacant, entry, Repository, is_inside,
  relative_to, is_inside_git_admin, validate_symlink_boundary, can_list, child_of, scan_named,
  scan_entries, scan_node, find_entry, visit_part, walk_literal, inspect_literal,
  reject_nested_marker,
}
use bricek4_ligong_skills.Risk.Paths.{is_git_part}

-- The node under a name, behind the directories of a path; no link is followed.
pub data At : Entries → List String → String → Node → Type 0 where
  last :
      {es : Entries} {name : String} {node : Node}
      → find_entry es name ≡ some node
      → At es [] name node
  inside :
      {es below : Entries} {listable : Bool} {folder : String} {front : List String} {name : String}
      {node : Node}
      → find_entry es folder ≡ some (directory listable below)
      → At below front name node
      → At es (folder ∷ front) name node

-- A link resolves to a place in the repository that is no administrative data of Git.
abbrev pub StaysInside : Repository → Option HostPath → Type 0
StaysInside repo none = ⊥
StaysInside repo (some target) =
    (is_inside target repo.location ≡ true)
    × (is_inside_git_admin target repo.admin_roots ≡ false)
    × (any is_git_part (relative_to target repo.location) ≡ false)

abbrev pub IsBounded : Repository → Node → Type 0
IsBounded repo (link target) = StaysInside repo target
IsBounded repo _ = Unit

-- Two checks that both passed.
pub passed {ℓ} :
    {E A B : Type ℓ} (m : Outcome E A) (k : Outcome E B) {b : B}
    → (m >> k) ≡ ok b
    → (a : A) × (m ≡ ok a) × (k ≡ ok b)
passed (ok a) k h = (a, refl, h)
passed (err e) k h = cc

pub validate-StaysInside :
    (repo : Repository) (label : Label) (relative : String) (target : Option HostPath)
    → validate_symlink_boundary repo label relative target ≡ ok tt
    → StaysInside repo target
unfolding validate_symlink_boundary raise_if
validate-StaysInside repo label relative none h = cc
validate-StaysInside repo label relative (some target) h = ground arith

marker_is_git : is_git_part ".git" ≡ true
unfolding is_git_part
marker_is_git = refl

module _ (repo : Repository) (label : Label) where
  -- Each entry of a directory that was walked was walked.
  scan_entries-each :
      (is_root : Bool) (relative : String) (es : Entries) (name : String) (node : Node)
      → scan_entries repo label is_root relative es ≡ ok tt
      → find_entry es name ≡ some node
      → (child : String) × (scan_named label is_root child name (scan_node repo label child node)
          ≡ ok tt)
  unfolding scan_entries
  scan_entries-each is_root relative vacant name node h found = cc
  scan_entries-each is_root relative (entry n other es) name node h found =
      let (_, here, later) =
        passed
          (scan_named label is_root (child_of relative n) n
            (scan_node repo label (child_of relative n) other))
          (scan_entries repo label is_root relative es) h in
      elim (Bool-cases (n == name)) [
        | inl same ↦
            let eq : n ≡ name = (eq_iff n name).0 same in
            let eq' : other ≡ node = ground arith in (child_of relative name, rw (← eq, ← eq') here)
        | inr differ ↦ scan_entries-each is_root relative es name node later (rw differ at found)
      ]

  scan_named-ok :
      (is_root : Bool) (child name : String) (below : Checked (Unit {0}))
      → scan_named label is_root child name below ≡ ok tt
      → (is_git_part name ≡ false) × (below ≡ ok tt) ⊎ (is_root ≡ true) × (name ≡ ".git")
  unfolding scan_named
  scan_named-ok is_root child name below h = elim (Bool-cases (is_git_part name)) [
    | inl git ↦ elim (Bool-cases (is_root && name == ".git")) [
      | inl marker ↦ inr (ground arith, (eq_iff name ".git").0 (ground arith))
      | inr other ↦ absurd (ground arith)
    ]
    | inr plain ↦ inl (plain, rw plain at h)
  ]

  scan_node-IsBounded :
      (child : String) (node : Node) → scan_node repo label child node ≡ ok tt → IsBounded repo node
  unfolding scan_node
  scan_node-IsBounded child file h = tt
  scan_node-IsBounded child unreadable h = cc
  scan_node-IsBounded child (link target) h = validate-StaysInside repo label child target h
  scan_node-IsBounded child locked h = cc
  scan_node-IsBounded child (directory listable es) h = tt

  scan_node-below :
      (child : String) (listable : Bool) (es : Entries)
      → scan_node repo label child (directory listable es) ≡ ok tt
      → scan_entries repo label false child es ≡ ok tt
  unfolding scan_node
  scan_node-below child listable es h = (passed (can_list listable label child) _ h).2

  -- Below a walked directory nothing is administrative data of Git and every link stays inside.
  scan_entries-IsBounded :
      {es : Entries} {front : List String} {name : String} {node : Node} (relative : String)
      → At es front name node
      → scan_entries repo label false relative es ≡ ok tt
      → (is_git_part name ≡ false) × IsBounded repo node
  scan_entries-IsBounded {es} {name} {node} relative (last found) h =
      let (child, here) = scan_entries-each false relative es name node h found in
      elim (scan_named-ok false child name _ here) [
        | inl (plain, walked) ↦ (plain, scan_node-IsBounded child node walked)
        | inr (root, _) ↦ absurd (false≢true root)
      ]
  scan_entries-IsBounded {es} relative (inside {below} {listable} {folder} found at) h =
      let (child, here) =
        scan_entries-each false relative es folder (directory listable below) h found in
      elim (scan_named-ok false child folder _ here) [
        | inl (plain, walked) ↦
            scan_entries-IsBounded child at (scan_node-below child listable below walked)
        | inr (root, _) ↦ absurd (false≢true root)
      ]

  -- In the root the entry `.git` is passed over.
  scan_root-IsBounded :
      {es : Entries} {front : List String} {name : String} {node : Node}
      → At es front name node
      → any is_git_part front ≡ false
      → scan_entries repo label true "." es ≡ ok tt
      → (is_git_part name ≡ false) × IsBounded repo node ⊎ (front ≡ []) × (name ≡ ".git")
  scan_root-IsBounded {es} {name} {node} (last found) clean h =
      let (child, here) = scan_entries-each true "." es name node h found in
      elim (scan_named-ok true child name _ here) [
        | inl (plain, walked) ↦ inl (plain, scan_node-IsBounded child node walked)
        | inr (_, marker) ↦ inr (refl, marker)
      ]
  scan_root-IsBounded {es} (inside {below} {listable} {folder} found at) clean h =
      let (child, here) = scan_entries-each true "." es folder (directory listable below) h found in
      elim (scan_named-ok true child folder _ here) [
        | inl (plain, walked) ↦
            inl (scan_entries-IsBounded child at (scan_node-below child listable below walked))
        | inr (_, marker) ↦
            let git : is_git_part folder ≡ true = rw marker marker_is_git in
            absurd (false≢true (sym (or-false _ _ clean).0 ∙ git))
      ]

  visit_part-final :
      (allow_link : Bool) (relative : String) (node : Node) (next : Entries → Checked (Unit {0}))
      → visit_part repo label allow_link relative true (some node) next ≡ ok tt
      → IsBounded repo node
  unfolding visit_part raise_if
  visit_part-final allow_link relative file next h = tt
  visit_part-final allow_link relative unreadable next h = cc
  visit_part-final allow_link relative (link target) next h =
      let (_, _, later) = passed (raise_if (not allow_link) _) _ h in
      let (_, bounded, _) = passed (validate_symlink_boundary repo label relative target) _ later in
      validate-StaysInside repo label relative target bounded
  visit_part-final allow_link relative locked next h = cc
  visit_part-final allow_link relative (directory listable es) next h = tt

  visit_part-directory :
      (allow_link : Bool) (relative : String) (final listable : Bool) (es : Entries)
      (next : Entries → Checked (Unit {0}))
      → visit_part repo label allow_link relative final (some (directory listable es)) next ≡ ok tt
      → (if final then scan_entries repo label false relative es else next es) ≡ ok tt
  unfolding visit_part
  visit_part-directory allow_link relative final listable es next h =
      let (_, _, later) = passed (can_list listable label relative) _ h in
      (passed (reject_nested_marker label relative es) _ later).2

  -- The walk along the parts of a literal path, and what it walks at the end of them.
  walk_literal-IsBounded :
      {es : Entries} {front : List String} {name : String} {node : Node} (allow_link : Bool)
      (trail part : String) (parts more : List String)
      → At es front name node
      → front ++ name ∷ [] ≡ part ∷ parts ++ more
      → any is_git_part (part ∷ parts) ≡ false
      → walk_literal repo label allow_link trail (part ∷ parts) es ≡ ok tt
      → (is_git_part name ≡ false) × IsBounded repo node
  unfolding walk_literal
  walk_literal-IsBounded {es} {name} {node} allow_link trail part [] more (last found) eq clean h =
      let same : name ≡ part = ground arith in
      let found' = subst (λ n. find_entry es n ≡ some node) same found in
      (
        rw same (or-false _ _ clean).0,
        visit_part-final allow_link (child_of trail part) node
            (walk_literal repo label allow_link (child_of trail part) []) (rw found' at h),
      )
  walk_literal-IsBounded allow_link trail part (p ∷ parts) more (last found) eq clean h =
      absurd (ground arith)
  walk_literal-IsBounded allow_link trail part [] more
        (inside {es} {below} {listable} {folder} found at) eq clean h =
      let same : folder ≡ part = ground arith in
      let found' = subst (λ n. find_entry es n ≡ some (directory listable below)) same found in
      scan_entries-IsBounded (child_of trail part) at (
        visit_part-directory allow_link (child_of trail part) true listable below
          (walk_literal repo label allow_link (child_of trail part) []) (rw found' at h))
  walk_literal-IsBounded allow_link trail part (p ∷ parts) more
        (inside {es} {below} {listable} {folder} found at) eq clean h =
      let same : folder ≡ part = ground arith in
      let found' = subst (λ n. find_entry es n ≡ some (directory listable below)) same found in
      walk_literal-IsBounded allow_link (child_of trail part) p parts more at (ground arith)
        (or-false _ _ clean).1
        (visit_part-directory allow_link (child_of trail part) false listable below
          (walk_literal repo label allow_link (child_of trail part) (p ∷ parts)) (rw found' at h))

-- An accepted literal path selects nothing of Git and no link that leaves the repository, neither at the path nor
-- below it; only the marker of the root itself is passed over.
pub inspect_literal-IsBounded :
    {es : Entries} {front : List String} {name : String} {node : Node} (repo : Repository)
    (label : Label) (allow_link listable : Bool) (parts more : List String)
    → At es front name node
    → any is_git_part front ≡ false
    → any is_git_part parts ≡ false
    → front ++ name ∷ [] ≡ parts ++ more
    → inspect_literal repo label allow_link parts (directory listable es) ≡ ok tt
    → (is_git_part name ≡ false) × IsBounded repo node ⊎ (front ≡ []) × (name ≡ ".git")
unfolding inspect_literal
inspect_literal-IsBounded repo label allow_link listable [] more at clean plain eq h =
    scan_root-IsBounded repo label at clean (passed (can_list listable label ".") _ h).2
inspect_literal-IsBounded repo label allow_link listable (part ∷ parts) more at clean plain eq h =
    inl (walk_literal-IsBounded repo label allow_link "." part parts more at eq plain h)
