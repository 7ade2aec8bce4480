-- ===== src/Contract/Scan/Globs.antt =====
-- What `_scan_glob_matches` of taskguard/contract.py accepts.
use bricek4_ligong_skills.Base.{
  ℕ, ◌≡◌, refl, sym, subst, String, Bool, true, false, Option, some, List, [], ◌∷◌, ◌++◌,
  append_assoc, ◌==◌, ◌<◌, inl, inr, ok, raise_if, any, is_empty, length, ltb, arith, Bool-cases,
  eq_iff, or-false, or-true, eqb,
}
use bricek4_ligong_skills.Contract.{Label, HostPath}
use bricek4_ligong_skills.Contract.Selectors.{has, pattern_states, is_full_match}
use bricek4_ligong_skills.Contract.Selectors.Matching.{
  Matches, Matches-has_state, is_full_match_iff,
}
use bricek4_ligong_skills.Contract.Scan.{
  Node, file, unreadable, link, locked, directory, Entries, vacant, entry, Repository, can_list,
  find_entry, can_go_on, glob_named, glob_entries, glob_node, inspect_glob,
}
use bricek4_ligong_skills.Contract.Scan.Safety.{
  At, last, inside, IsBounded, passed, validate-StaysInside,
}
use bricek4_ligong_skills.Risk.Paths.{is_git_part}

any_below :
    (n : ℕ) (states : List ℕ) (k : ℕ)
    → has states k ≡ true
    → k < n
    → any (λ i. ltb i n) states ≡ true
any_below n [] k h lt = cc
any_below n (i ∷ states) k h lt = elim (Bool-cases (eqb i k)) [
  | inl same ↦ ground arith
  | inr other ↦ rw (any_below n states k (ground arith) lt, or-true)
]

has-nonempty : (states : List ℕ) (k : ℕ) → has states k ≡ true → is_empty states ≡ false
has-nonempty [] k h = cc
has-nonempty (i ∷ states) k h = refl

-- A path that can be extended to a match is gone into.
Matches-can_go_on :
    (parts : List String) (part : String) (rest pattern : List String)
    → Matches (parts ++ part ∷ rest) pattern
    → (can_go_on pattern (pattern_states parts pattern) ≡ true)
      × (is_empty (pattern_states parts pattern) ≡ false)
unfolding can_go_on
Matches-can_go_on parts part rest pattern m =
    let (k, member, lt) = Matches-has_state parts part rest pattern m in
    (any_below (length pattern) _ k member lt, has-nonempty _ k member)

module _ (repo : Repository) (label : Label) (pattern : List String) where
  -- The check of the node that stands at the parts `child`, the last of which is `name`.
  abbrev WasChecked : List String → String → Node → Type 0
  WasChecked child name node =
      glob_named label pattern child name (glob_node repo label pattern child node) ≡ ok tt

  glob_entries-each :
      (parts : List String) (es : Entries) (name : String) (node : Node)
      → glob_entries repo label pattern parts es ≡ ok tt
      → find_entry es name ≡ some node
      → WasChecked (parts ++ name ∷ []) name node
  unfolding glob_entries
  glob_entries-each parts vacant name node h found = cc
  glob_entries-each parts (entry n other es) name node h found =
      let (_, here, later) =
        passed
          (glob_named label pattern (parts ++ n ∷ []) n
            (glob_node repo label pattern (parts ++ n ∷ []) other))
          (glob_entries repo label pattern parts es) h in
      elim (Bool-cases (n == name)) [
        | inl same ↦
            let eq : n ≡ name = (eq_iff n name).0 same in
            let eq' : other ≡ node = ground arith in rw (← eq, ← eq') here
        | inr differ ↦ glob_entries-each parts es name node later (rw differ at found)
      ]

  -- A folder on the way to a match is walked.
  WasChecked-below :
      (child : List String) (folder part : String) (rest : List String) (listable : Bool)
      (es : Entries)
      → WasChecked child folder (directory listable es)
      → is_git_part folder ≡ false
      → Matches (child ++ part ∷ rest) pattern
      → glob_entries repo label pattern child es ≡ ok tt
  unfolding glob_named glob_node
  WasChecked-below child folder part rest listable es h plain m =
      let (further, left) = Matches-can_go_on child part rest pattern m in
      let walked : glob_node repo label pattern child (directory listable es) ≡ ok tt =
        rw (glob_named, plain, left) at h in
      (passed (can_list listable label _) (glob_entries repo label pattern child es)
        (rw (glob_node, further) at walked)).2

  -- Every path that can still lead to a match was checked, behind the folders in front of it.
  glob_entries-reaches :
      {es : Entries} {front : List String} {name : String} {node : Node} (parts rest : List String)
      → At es front name node
      → any is_git_part front ≡ false
      → Matches (parts ++ (front ++ name ∷ rest)) pattern
      → glob_entries repo label pattern parts es ≡ ok tt
      → WasChecked (parts ++ (front ++ name ∷ [])) name node
  glob_entries-reaches {es} {name} {node} parts rest (last found) clean m h =
      glob_entries-each parts es name node h found
  glob_entries-reaches parts rest
        (inside {es} {below} {listable} {folder} {front = []} {name} {node} found at) clean m h =
      let child = parts ++ folder ∷ [] in
      let regrouped : Matches (child ++ name ∷ rest) pattern =
        subst (λ ps. Matches ps pattern) (sym (append_assoc parts (folder ∷ []) (name ∷ rest))) m in
      let checked = glob_entries-each parts es folder (directory listable below) h found in
      let walked =
        WasChecked-below child folder name rest listable below checked (or-false _ _ clean).0
          regrouped in
      subst (λ ps. WasChecked ps name node) (append_assoc parts (folder ∷ []) (name ∷ []))
        (glob_entries-reaches child rest at refl regrouped walked)
  glob_entries-reaches parts rest
        (inside {es} {below} {listable} {folder} {front = next ∷ front} {name} {node} found at)
        clean m h =
      let child = parts ++ folder ∷ [] in
      let regrouped : Matches (child ++ next ∷ (front ++ name ∷ rest)) pattern =
        subst (λ ps. Matches ps pattern)
          (sym (append_assoc parts (folder ∷ []) (next ∷ (front ++ name ∷ rest)))) m in
      let checked = glob_entries-each parts es folder (directory listable below) h found in
      let walked =
        WasChecked-below child folder next (front ++ name ∷ rest) listable below checked
          (or-false _ _ clean).0 regrouped in
      subst (λ ps. WasChecked ps name node)
        (append_assoc parts (folder ∷ []) (next ∷ (front ++ name ∷ [])))
        (glob_entries-reaches child rest at (or-false _ _ clean).1 regrouped walked)

  -- A link that was checked leads to no match behind it.
  WasChecked-link :
      (child : List String) (name part : String) (rest : List String) (target : Option HostPath)
      → WasChecked child name (link target)
      → is_git_part name ≡ false
      → ¬ Matches (child ++ part ∷ rest) pattern
  unfolding glob_named glob_node
  WasChecked-link child name part rest target h plain m =
      let (further, left) = Matches-can_go_on child part rest pattern m in
      let walked : glob_node repo label pattern child (link target) ≡ ok tt =
        rw (glob_named, plain, left) at h in
      absurd (cc (rw (glob_node, further) at walked))

  glob_node-IsBounded :
      (child : List String) (node : Node)
      → has (pattern_states child pattern) (length pattern) ≡ true
      → glob_node repo label pattern child node ≡ ok tt
      → IsBounded repo node
  unfolding glob_node
  glob_node-IsBounded child file full h = tt
  glob_node-IsBounded child unreadable full h = cc
  glob_node-IsBounded child (link target) full h =
      elim (Bool-cases (can_go_on pattern (pattern_states child pattern))) [
        | inl further ↦ absurd (cc (rw (glob_node, further) at h))
        | inr ended ↦ validate-StaysInside repo label _ target (rw (glob_node, ended, full) at h)
      ]
  glob_node-IsBounded child locked full h = cc
  glob_node-IsBounded child (directory listable es) full h = tt

  -- A match that was checked is no administrative data of Git, and stays inside if it is a link.
  WasChecked-IsBounded :
      (child : List String) (name : String) (node : Node)
      → WasChecked child name node
      → Matches child pattern
      → (is_git_part name ≡ false) × IsBounded repo node
  unfolding glob_named is_full_match raise_if
  WasChecked-IsBounded child name node h m =
      let full : has (pattern_states child pattern) (length pattern) ≡ true =
        (is_full_match_iff child pattern).1 m in
      elim (Bool-cases (is_git_part name)) [
        | inl git ↦ absurd (cc (rw (glob_named, git, full, raise_if) at h))
        | inr plain ↦
            let left = has-nonempty (pattern_states child pattern) (length pattern) full in
            let walked : glob_node repo label pattern child node ≡ ok tt =
              rw (glob_named, plain, left) at h in
            (plain, glob_node-IsBounded child node full walked)
      ]

  -- An accepted glob matches nothing of Git and no link that leaves the repository, and it matches nothing behind
  -- a link; what stands in a folder of Git is not spoken of.
  pub inspect_glob-IsBounded :
      {es : Entries} {front : List String} {name : String} {node : Node} (listable : Bool)
      → At es front name node
      → any is_git_part front ≡ false
      → inspect_glob repo label pattern (directory listable es) ≡ ok tt
      → (Matches (front ++ name ∷ []) pattern → (is_git_part name ≡ false) × IsBounded repo node)
        × ((part : String) (rest : List String) (target : Option HostPath)
            → node ≡ link target
            → is_git_part name ≡ false
            → ¬ Matches (front ++ name ∷ (part ∷ rest)) pattern)
  unfolding inspect_glob
  inspect_glob-IsBounded {es} {front} {name} {node} listable at clean h =
      let walked =
        (passed (can_list listable label ".") (glob_entries repo label pattern [] es) h).2 in
      (
        λ m.
            WasChecked-IsBounded (front ++ name ∷ []) name node
              (glob_entries-reaches [] [] at clean m walked) m,
        λ part rest target e plain m.
            let checked = glob_entries-reaches [] (part ∷ rest) at clean m walked in
            WasChecked-link (front ++ name ∷ []) name part rest target
              (subst (λ n. WasChecked (front ++ name ∷ []) name n) e checked) plain
              (subst (λ ps. Matches ps pattern) (sym (append_assoc front (name ∷ []) (part ∷ rest)))
                m),
      )
