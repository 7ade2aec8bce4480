-- ===== src/Contract/Objects/Parsed.antt =====
-- What the loops of taskguard/contract.py over arrays of objects return.
use bricek4_ligong_skills.Base.{
  true_of_not, ◌+◌, ◌≡◌, ◌≢◌, refl, subst, String, Bool, true, false, not, Option, none, List, [],
  ◌++◌, ok, >>=-elim, false≢true, raise_if-passed, ok-injective, Value, nil, cons, list, null, str,
  contains, is_empty, All,
}
use bricek4_ligong_skills.Contract.{
  Label, top, at_index, member, HostPath, nonempty_string, boolean, exact_fields, lookup_field,
  field_or, Acceptance, ForbiddenRule, SurfaceRule, acceptance_fields, acceptance_required,
  forbidden_fields, forbidden_modes, surface_fields,
}
use bricek4_ligong_skills.Contract.Selectors.{posix_parts}
use bricek4_ligong_skills.Contract.Paths.{Host, canonical_path, canonical_cwd, path_array}
use bricek4_ligong_skills.Contract.Paths.Confined.{
  IsConfined, canonical_path-IsConfined, canonical_cwd-IsConfined, path_array-All,
}
use bricek4_ligong_skills.Contract.Objects.{
  object_of, texts_from, argv_of, optional_text, red_pattern, acceptance_item, acceptance_items,
  forbidden_rule, forbidden_rules, surface_rule, surface_rules,
}
use bricek4_ligong_skills.Contract.Objects.Distinct.{
  DistinctBy, object_loop-All, object_loop-filled,
}

module _ (host : Host) (repo : HostPath) where
  pub record IsAcceptance (a : Acceptance) : Type 0 where
    pub runs : is_empty a.argv ≡ false
    pub exists : host.is_dir (repo ++ posix_parts a.cwd) ≡ true
    pub confined : IsConfined host repo a.cwd
    pub red : a.requires_red ≡ true → a.expected_red_pattern ≢ none

  argv_of-filled :
      (value : Value) (label : Label) (argv : List String)
      → argv_of value label ≡ ok argv
      → is_empty argv ≡ false
  unfolding argv_of
  argv_of-filled (list (cons v vs)) label argv h =
      >>=-elim (nonempty_string v (at_index label 0)) _ h λ text _ h1.
        >>=-elim (texts_from label (0 + 1) vs) _ h1
          λ rest _ h2. subst (λ xs. is_empty xs ≡ false) (ok-injective h2) refl
  argv_of-filled value label argv h = cc

  red_pattern-required :
      (required : Bool) (value : Value) (label : Label) (pattern : Option String)
      → red_pattern required value label ≡ ok pattern
      → required ≡ true
      → pattern ≢ none
  unfolding red_pattern
  red_pattern-required true value label pattern h is_required nothing =
      >>=-elim (nonempty_string value label) _ h λ text _ h1. cc (ok-injective h1)
  red_pattern-required false value label pattern h is_required nothing =
      absurd (false≢true is_required)

  acceptance_item-IsAcceptance :
      (seen : List String) (label : Label) (raw : Value) (a : Acceptance)
      → acceptance_item host repo seen label raw ≡ ok a
      → (contains seen a.id ≡ false) × IsAcceptance a
  unfolding acceptance_item
  acceptance_item-IsAcceptance seen label raw a h = >>=-elim (object_of raw label) _ h λ fs _ h1.
      >>=-elim (exact_fields fs label acceptance_fields acceptance_required) _ h1 λ _ _ h2.
        >>=-elim (nonempty_string (lookup_field fs "id") (member label "id")) _ h2 λ id _ h3.
          let (fresh, h4) = raise_if-passed (contains seen id) _ _ h3 in
          >>=-elim (argv_of (lookup_field fs "argv") (member label "argv")) _ h4 λ argv is_argv h5.
            >>=-elim (canonical_cwd host repo (field_or fs "cwd" (str ".")) (member label "cwd")) _
              h5
              λ cwd is_cwd h6.
                >>=-elim (boolean (lookup_field fs "requires_red") (member label "requires_red")) _
                  h6
                  λ requires_red _ h7.
                    >>=-elim (boolean (lookup_field fs "idempotent") (member label "idempotent")) _
                      h7
                      λ idempotent _ h8.
                        >>=-elim
                          (red_pattern requires_red (lookup_field fs "expected_red_pattern")
                            (member label "expected_red_pattern"))
                          _ h8
                          λ expected is_red h9.
                            >>=-elim
                              (optional_text (lookup_field fs "selector") (member label "selector"))
                              _ h9
                              λ selector _ h10.
                                let (confined, exists) =
                                  canonical_cwd-IsConfined host repo _ _ cwd is_cwd in
                                subst (λ b. (contains seen b.id ≡ false) × IsAcceptance b)
                                  (ok-injective h10)
                                  (
                                    fresh,
                                    record {
                                      runs = argv_of-filled _ _ argv is_argv;
                                      exists = exists;
                                      confined = confined;
                                      red = red_pattern-required requires_red _ _ expected is_red;
                                    },
                                  )

  pub acceptance_items-All :
      (value : Value) (items : List Acceptance)
      → acceptance_items host repo value ≡ ok items
      → (is_empty items ≡ false) × DistinctBy (λ a. a.id) items × All IsAcceptance items
  unfolding acceptance_items
  acceptance_items-All (list (cons raw raws)) items h =
      let (_, distinct, parsed) =
        object_loop-All (λ (a : Acceptance). a.id) (acceptance_item host repo) IsAcceptance
          acceptance_item-IsAcceptance (top "acceptance") [] 0 (cons raw raws) items h in
      (object_loop-filled (λ (a : Acceptance). a.id) _ _ [] 0 raw raws items h, distinct, parsed)
  acceptance_items-All value items h = cc

  pub record IsForbiddenRule (r : ForbiddenRule) : Type 0 where
    pub confined : IsConfined host repo r.glob
    pub compiles : host.compiles r.regex ≡ true
    pub known_mode : contains forbidden_modes r.mode ≡ true

  forbidden_rule-IsForbiddenRule :
      (seen : List String) (label : Label) (raw : Value) (r : ForbiddenRule)
      → forbidden_rule host repo seen label raw ≡ ok r
      → (contains seen r.id ≡ false) × IsForbiddenRule r
  unfolding forbidden_rule
  forbidden_rule-IsForbiddenRule seen label raw r h = >>=-elim (object_of raw label) _ h λ fs _ h1.
      >>=-elim (exact_fields fs label forbidden_fields forbidden_fields) _ h1 λ _ _ h2.
        >>=-elim (nonempty_string (lookup_field fs "id") (member label "id")) _ h2 λ id _ h3.
          let (fresh, h4) = raise_if-passed (contains seen id) _ _ h3 in
          >>=-elim
            (canonical_path host repo (lookup_field fs "glob") (member label "glob") false true) _
            h4
            λ glob is_glob h5.
              >>=-elim (nonempty_string (lookup_field fs "regex") (member label "regex")) _ h5
                λ regex _ h6.
                  let (compiles, h7) = raise_if-passed (not (host.compiles regex)) _ _ h6 in
                  >>=-elim (nonempty_string (lookup_field fs "mode") (member label "mode")) _ h7
                    λ mode _ h8.
                      let (known, h9) =
                        raise_if-passed (not (contains forbidden_modes mode)) _ _ h8 in
                      subst (λ q. (contains seen q.id ≡ false) × IsForbiddenRule q)
                        (ok-injective h9)
                        (
                          fresh,
                          record {
                            confined =
                                canonical_path-IsConfined host repo _ _ false true glob is_glob;
                            compiles = true_of_not _ compiles;
                            known_mode = true_of_not _ known;
                          },
                        )

  pub forbidden_rules-All :
      (value : Value) (rules : List ForbiddenRule)
      → forbidden_rules host repo value ≡ ok rules
      → DistinctBy (λ r. r.id) rules × All IsForbiddenRule rules
  unfolding forbidden_rules
  forbidden_rules-All null rules h =
      subst (λ rs. DistinctBy (λ r. r.id) rs × All IsForbiddenRule rs) (ok-injective h) (tt, tt)
  forbidden_rules-All (list raws) rules h =
      let (_, distinct, parsed) =
        object_loop-All (λ (r : ForbiddenRule). r.id) (forbidden_rule host repo) IsForbiddenRule
          forbidden_rule-IsForbiddenRule (top "forbidden") [] 0 raws rules h in
      (distinct, parsed)
  forbidden_rules-All value rules h = cc

  pub record IsSurfaceRule (r : SurfaceRule) : Type 0 where
    pub runs : is_empty r.argv ≡ false
    pub exists : host.is_dir (repo ++ posix_parts r.cwd) ≡ true
    pub confined : IsConfined host repo r.cwd
    pub read_only : r.read_only ≡ true
    pub writes : All (IsConfined host repo) r.allowed_writes

  surface_rule-IsSurfaceRule :
      (seen : List String) (label : Label) (raw : Value) (r : SurfaceRule)
      → surface_rule host repo seen label raw ≡ ok r
      → (contains seen r.id ≡ false) × IsSurfaceRule r
  unfolding surface_rule
  surface_rule-IsSurfaceRule seen label raw r h = >>=-elim (object_of raw label) _ h λ fs _ h1.
      >>=-elim (exact_fields fs label surface_fields surface_fields) _ h1 λ _ _ h2.
        >>=-elim (nonempty_string (lookup_field fs "id") (member label "id")) _ h2 λ id _ h3.
          let (fresh, h4) = raise_if-passed (contains seen id) _ _ h3 in
          >>=-elim (argv_of (lookup_field fs "argv") (member label "argv")) _ h4 λ argv is_argv h5.
            >>=-elim (canonical_cwd host repo (field_or fs "cwd" (str ".")) (member label "cwd")) _
              h5
              λ cwd is_cwd h6.
                >>=-elim (boolean (lookup_field fs "read_only") (member label "read_only")) _ h6
                  λ read_only _ h7.
                    let (_, h8) = raise_if-passed (not read_only) _ _ h7 in
                    >>=-elim
                      (nonempty_string (lookup_field fs "normalizer_version")
                        (member label "normalizer_version"))
                      _ h8
                      λ normalizer _ h9.
                        >>=-elim
                          (path_array host repo (field_or fs "allowed_writes" (list nil))
                            (member label "allowed_writes"))
                          _ h9
                          λ writes is_writes h10.
                            let (confined, exists) =
                              canonical_cwd-IsConfined host repo _ _ cwd is_cwd in
                            subst (λ q. (contains seen q.id ≡ false) × IsSurfaceRule q)
                              (ok-injective h10)
                              (
                                fresh,
                                record {
                                  runs = argv_of-filled _ _ argv is_argv;
                                  exists = exists;
                                  confined = confined;
                                  read_only = refl;
                                  writes = path_array-All host repo _ _ writes is_writes;
                                },
                              )

  pub surface_rules-All :
      (value : Value) (rules : List SurfaceRule)
      → surface_rules host repo value ≡ ok rules
      → DistinctBy (λ r. r.id) rules × All IsSurfaceRule rules
  unfolding surface_rules
  surface_rules-All null rules h =
      subst (λ rs. DistinctBy (λ r. r.id) rs × All IsSurfaceRule rs) (ok-injective h) (tt, tt)
  surface_rules-All (list raws) rules h =
      let (_, distinct, parsed) =
        object_loop-All (λ (r : SurfaceRule). r.id) (surface_rule host repo) IsSurfaceRule
          surface_rule-IsSurfaceRule (top "surfaces") [] 0 raws rules h in
      (distinct, parsed)
  surface_rules-All value rules h = cc
