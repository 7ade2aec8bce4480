-- ===== src/Contract/Selectors/Matching.antt =====
-- `_selector_matches` of taskguard/contract.py against the meaning of a selector.
use bricek4_ligong_skills.Base.{
  ℕ, zero, suc, ◌≤◌, ◌<◌, ◌≡◌, refl, ap, sym, ◌∙◌, String, true, false, List, [], ◌∷◌, ◌++◌,
  append-nil, subst, starts_with, or-true, ◌≢◌, ◌+++◌, some, ◌↔◌, ◌⊎◌, inl, inr, ◌==◌, length,
  arith, Bool-cases, Option-cases, eq_iff, String,
}
use bricek4_ligong_skills.Contract.Glob.{fnmatchcase}
use bricek4_ligong_skills.Contract.Selectors.{
  get_elem?, has, is_deep, pattern_states, epsilon_closure, is_full_match, canonical, has_magic,
  posix_parts, selector_matches,
}
use bricek4_ligong_skills.Contract.Selectors.Worklist.{
  stay, get_elem-lt, epsilon_closure_iff, epsilon_closure-closed,
}
use bricek4_ligong_skills.Contract.Selectors.Positions.{
  stays, steps, Reads, ends, skips, reads, Reads-Skips, Moves, Reads-nil, Reads-cons,
}
use bricek4_ligong_skills.Contract.Selectors.Reading.{
  read_parts_sound, read_parts-keeps, AreClosed-Skips, AreClosed,
}

-- The meaning of a selector: `**` stands for any number of components, every other one for a component that it
-- matches.
pub data Matches : List String → List String → Type 0 where
  done : Matches [] []
  none_more : {parts pattern : List String} → Matches parts pattern → Matches parts ("**" ∷ pattern)
  one_more :
      {part : String} {parts pattern : List String}
      → Matches parts ("**" ∷ pattern)
      → Matches (part ∷ parts) ("**" ∷ pattern)
  one :
      {part selector : String} {parts pattern : List String}
      → (selector == "**") ≡ false
      → fnmatchcase part selector ≡ true
      → Matches parts pattern
      → Matches (part ∷ parts) (selector ∷ pattern)

abbrev drop : ℕ → List String → List String
drop zero xs = xs
drop (suc n) [] = []
drop (suc n) (x ∷ xs) = drop n xs

drop-some :
    (xs : List String) (i : ℕ) (x : String)
    → get_elem? xs i ≡ some x
    → drop i xs ≡ x ∷ drop (suc i) xs
drop-some [] i x e = cc
drop-some (y ∷ xs) zero x e = cc
drop-some (y ∷ xs) (suc i) x e = drop-some xs i x e

lt-length_of_some :
    (xs : List String) (i : ℕ) (x : String) → get_elem? xs i ≡ some x → i < length xs
lt-length_of_some [] i x e = cc
lt-length_of_some (y ∷ xs) zero x e = omega arith
lt-length_of_some (y ∷ xs) (suc i) x e = omega (arith, lt-length_of_some xs i x e)

drop-length : (xs : List String) → drop (length xs) xs ≡ []
drop-length [] = refl
drop-length (x ∷ xs) = drop-length xs

drop-nil : (xs : List String) (i : ℕ) → i ≤ length xs → drop i xs ≡ [] → i ≡ length xs
drop-nil [] i le e = omega arith
drop-nil (x ∷ xs) zero le e = absurd (ground arith)
drop-nil (x ∷ xs) (suc i) le e = omega (arith, drop-nil xs i (omega arith) e)

drop-cons :
    (xs : List String) (i : ℕ) (y : String) (ys : List String)
    → drop i xs ≡ y ∷ ys
    → (get_elem? xs i ≡ some y) × (drop (suc i) xs ≡ ys) × (i < length xs)
drop-cons [] zero y ys e = absurd (ground arith)
drop-cons [] (suc i) y ys e = absurd (ground arith)
drop-cons (x ∷ xs) zero y ys e = (ground arith, ground arith, omega arith)
drop-cons (x ∷ xs) (suc i) y ys e =
    let (here, later, short) = drop-cons xs i y ys e in (here, later, omega arith)

module _ (pattern : List String) where
  is_deep-some : (i : ℕ) → is_deep pattern i ≡ true → get_elem? pattern i ≡ some "**"
  unfolding is_deep
  is_deep-some i deep = elim (Option-cases (get_elem? pattern i)) [
    | inl e ↦ absurd (ground arith)
    | inr (s, e) ↦
        let star : (s == "**") ≡ true = rw e at deep in e ∙ ap some ((eq_iff s "**").0 star)
  ]

  is_deep_of_some : (i : ℕ) → get_elem? pattern i ≡ some "**" → is_deep pattern i ≡ true
  unfolding is_deep
  is_deep_of_some i e = rw e

  Reads-Matches :
      {parts : List String} {i : ℕ} → Reads pattern parts i → Matches parts (drop i pattern)
  Reads-Matches (ends e) = rw (e, drop-length pattern) done
  Reads-Matches {i} (skips deep r) =
      rw (drop-some pattern i "**" (is_deep-some i deep)) (none_more (Reads-Matches r))
  Reads-Matches {i} (reads {parts = ps} (stays deep) r) =
      let eq = drop-some pattern i "**" (is_deep-some i deep) in
      rw eq (one_more (subst (λ q. Matches ps q) eq (Reads-Matches r)))
  Reads-Matches {i} (reads (steps selector e plain fits) r) =
      rw (drop-some pattern i selector e) (one plain fits (Reads-Matches r))

  Matches-Reads :
      {parts rest : List String}
      → Matches parts rest
      → (i : ℕ) → i ≤ length pattern
      → drop i pattern ≡ rest
      → Reads pattern parts i
  Matches-Reads done i le e = ends (drop-nil pattern i le e)
  Matches-Reads (none_more {pattern = q} m) i le e =
      let (here, later, short) = drop-cons pattern i "**" q e in
      skips (is_deep_of_some i here) (Matches-Reads m (suc i) (omega arith) later)
  Matches-Reads (one_more {pattern = q} m) i le e =
      let (here, later, short) = drop-cons pattern i "**" q e in
      reads (stays (is_deep_of_some i here)) (Matches-Reads m i le e)
  Matches-Reads (one {selector = s} {pattern = q} plain fits m) i le e =
      let (here, later, short) = drop-cons pattern i s q e in
      reads (steps s here plain fits) (Matches-Reads m (suc i) (omega arith) later)

is_full_match_sound :
    (parts pattern : List String) → is_full_match parts pattern ≡ true → Matches parts pattern
unfolding is_full_match pattern_states
is_full_match_sound parts pattern h =
    let start = epsilon_closure (0 ∷ []) pattern in
    let (k, member, later) = read_parts_sound pattern parts start h in
    let (i, zero_only, path) = (epsilon_closure_iff (0 ∷ []) pattern k).0 member in
    let first : 0 ≡ i = ground arith in
    subst (λ n. Matches parts (drop n pattern)) (sym first)
      (Reads-Matches pattern (Reads-Skips pattern path later))

-- Parts that go on to match leave a state from which the rest is read.
kept_state :
    (parts rest pattern : List String)
    → Matches (parts ++ rest) pattern
    → (j : ℕ) × (has (pattern_states parts pattern) j ≡ true)
      × Reads pattern rest j
      × AreClosed pattern (pattern_states parts pattern)
unfolding pattern_states
kept_state parts rest pattern m =
    read_parts-keeps pattern parts rest (epsilon_closure (0 ∷ []) pattern) 0
      (epsilon_closure-closed (0 ∷ []) pattern)
      ((epsilon_closure_iff (0 ∷ []) pattern 0).1 (0, refl, stay))
      (Matches-Reads pattern m 0 (omega arith) refl)

Moves-lt :
    {pattern : List String} {part : String} {i j : ℕ} → Moves pattern part i j → i < length pattern
Moves-lt {pattern} {i} (stays deep) = get_elem-lt pattern i deep
Moves-lt {pattern} {i} (steps selector e plain fits) = lt-length_of_some pattern i selector e

is_full_match_complete :
    (parts pattern : List String) → Matches parts pattern → is_full_match parts pattern ≡ true
unfolding is_full_match
is_full_match_complete parts pattern m =
    let (j, member, r, closed) = kept_state parts [] pattern (rw append-nil m) in
    AreClosed-Skips pattern _ closed (Reads-nil pattern r refl) member

-- A path that can still be extended to a match leaves a state before the end of the pattern.
pub Matches-has_state :
    (parts : List String) (part : String) (rest pattern : List String)
    → Matches (parts ++ part ∷ rest) pattern
    → (k : ℕ) × (has (pattern_states parts pattern) k ≡ true) × (k < length pattern)
Matches-has_state parts part rest pattern m =
    let (j, member, r, closed) = kept_state parts (part ∷ rest) pattern m in
    let (k, _, path, move, _) = Reads-cons pattern part rest r refl in
    (k, AreClosed-Skips pattern _ closed path member, Moves-lt move)

-- The set of states holds the end of the pattern exactly if the parts match it.
pub is_full_match_iff :
    (parts pattern : List String) → (is_full_match parts pattern ≡ true) ↔ Matches parts pattern
unfolding is_full_match
is_full_match_iff parts pattern =
    (is_full_match_sound parts pattern, is_full_match_complete parts pattern)

-- What a selector selects: all paths if it is the root; without a glob character the path itself and those below
-- it; otherwise the paths whose components match its components.
abbrev pub Selects : String → String → Type 0
Selects path selector =
    (canonical selector ≡ ".")
    ⊎ (has_magic (canonical selector) ≡ false)
      × ((canonical path ≡ canonical selector)
          ⊎ (starts_with (canonical path) (canonical selector +++ "/") ≡ true))
    ⊎ (has_magic (canonical selector) ≡ true)
      × Matches (posix_parts (canonical path)) (posix_parts (canonical selector))

-- `_selector_matches` is True exactly for the paths that the selector selects.
pub selector_matches_iff :
    (path selector : String) → (selector_matches path selector ≡ true) ↔ Selects path selector
unfolding selector_matches
selector_matches_iff path selector = elim (Bool-cases (canonical selector == ".")) [
  | inl root ↦ rw root (λ h. inl ((eq_iff _ _).0 root), λ s. refl)
  | inr below ↦
      let not_root : canonical selector ≢ "." = λ e. cc ((eq_iff _ _).1 e) in
      elim (Bool-cases (has_magic (canonical selector))) [
        | inl magic ↦
            let by_parts =
              is_full_match_iff (posix_parts (canonical path)) (posix_parts (canonical selector)) in
            rw (below, magic)
              (
                λ h. inr (inr (refl, by_parts.0 h)),
                λ s. elim s [
                  | inl e ↦ absurd (not_root e)
                  | inr (inl (plain, _)) ↦ cc
                  | inr (inr (_, m)) ↦ by_parts.1 m
                ],
              )
        | inr plain ↦
            rw (below, plain)
              (
                λ h. inr (
                    inl (
                      refl,
                      elim (Bool-cases (canonical path == canonical selector)) [
                        | inl same ↦ inl ((eq_iff _ _).0 same)
                        | inr other ↦ inr (ground arith)
                      ],
                    )),
                λ s. elim s [
                  | inl e ↦ absurd (not_root e)
                  | inr (inl (_, inl same)) ↦ rw ((eq_iff _ _).1 same)
                  | inr (inl (_, inr prefix)) ↦ rw (prefix, or-true)
                  | inr (inr (magic, _)) ↦ cc
                ],
              )
      ]
]
