-- ===== src/Contract/Selectors/Positions.antt =====
-- The moves of `_pattern_states` of taskguard/contract.py between positions of the pattern.
use bricek4_ligong_skills.Base.{
  ℕ, suc, ◌≡◌, refl, sym, String, true, false, List, [], ◌∷◌, subst, Option, none, some, ◌↔◌, ◌⊎◌,
  inl, inr, ◌==◌, length, arith, Bool-cases, Option-cases, String,
}
use bricek4_ligong_skills.Contract.Glob.{fnmatchcase}
use bricek4_ligong_skills.Contract.Selectors.{get_elem?, has, add, is_deep, follow, advance}
use bricek4_ligong_skills.Contract.Selectors.Worklist.{
  Skips, stay, skip, has_cons, has_here, has_later,
}

-- The same by positions: from `i` the parts lead to the end of the pattern.
module _ (pattern : List String) where
  pub data Moves (part : String) : ℕ → ℕ → Type 0 where
    stays : {i : ℕ} → is_deep pattern i ≡ true → Moves part i i
    steps :
        {i : ℕ} (selector : String)
        → get_elem? pattern i ≡ some selector
        → (selector == "**") ≡ false
        → fnmatchcase part selector ≡ true
        → Moves part i (suc i)

  pub data Reads : List String → ℕ → Type 0 where
    ends : {i : ℕ} → i ≡ length pattern → Reads [] i
    skips :
        {parts : List String} {i : ℕ}
        → is_deep pattern i ≡ true
        → Reads parts (suc i)
        → Reads parts i
    reads :
        {part : String} {parts : List String} {i j : ℕ}
        → Moves part i j
        → Reads parts j
        → Reads (part ∷ parts) i

  pub Reads-Skips :
      {parts : List String} {i j : ℕ} → Skips pattern i j → Reads parts j → Reads parts i
  Reads-Skips stay r = r
  Reads-Skips (skip deep later) r = skips deep (Reads-Skips later r)

  -- A derivation goes over some `**` first.
  pub Reads-nil :
      {parts : List String} {i : ℕ} → Reads parts i → parts ≡ [] → Skips pattern i (length pattern)
  Reads-nil (ends e) nothing = rw e stay
  Reads-nil (skips deep r) nothing = skip deep (Reads-nil r nothing)
  Reads-nil (reads m r) nothing = absurd (ground arith)

  pub Reads-cons :
      {whole : List String} {i : ℕ} (part : String) (parts : List String)
      → Reads whole i
      → whole ≡ part ∷ parts
      → (k : ℕ) × (j : ℕ) × Skips pattern i k × Moves part k j × Reads parts j
  Reads-cons part parts (ends e) eq = absurd (ground arith)
  Reads-cons part parts (skips deep r) eq =
      let (k, j, s, m, later) = Reads-cons part parts r eq in (k, j, skip deep s, m, later)
  Reads-cons part parts (reads {part = p} {parts = ps} {i} {j} m r) eq =
      let same : p ≡ part = ground arith in
      let rest : ps ≡ parts = ground arith in (i, j, stay, rw (← same) m, rw (← rest) r)

has-add : (j : ℕ) (xs : List ℕ) (k : ℕ) → (has (add j xs) k ≡ true) ↔ ((j ≡ k) ⊎ (has xs k ≡ true))
has-add j xs k = elim (Bool-cases (has xs j)) [
  | inl old ↦ rw old (λ h. inr h, λ h. elim h [ inl e ↦ rw (← e) old | inr m ↦ m ])
  | inr new ↦ rw new (
    has_cons j xs k,
    λ h. elim h [ inl e ↦ rw (← e) (has_here j xs) | inr m ↦ has_later j xs k m ],
  )
]

has-follow :
    (pattern : List String) (part : String) (i : ℕ) (xs : List ℕ) (k : ℕ)
    → has (follow part (get_elem? pattern i) i xs) k ≡ true
    → Moves pattern part i k ⊎ (has xs k ≡ true)
unfolding follow is_deep
has-follow pattern part i xs k = elim (Option-cases (get_elem? pattern i)) [
  | inl e ↦ rw e (λ h. inr h)
  | inr (selector, e) ↦ elim (Bool-cases (selector == "**")) [
    | inl deep ↦ λ h. elim ((has-add i xs k).0 (rw (e, follow, deep) at h)) [
      | inl same ↦ inl (rw (← same) (stays (rw e deep)))
      | inr m ↦ inr m
    ]
    | inr plain ↦ elim (Bool-cases (fnmatchcase part selector)) [
      | inl fits ↦ λ h. elim ((has-add (suc i) xs k).0 (rw (e, follow, plain, fits) at h)) [
        | inl same ↦ inl (rw (← same) (steps selector e plain fits))
        | inr m ↦ inr m
      ]
      | inr other ↦ λ h. inr (rw (e, follow, plain, other) at h)
    ]
  ]
]

has-follow_old :
    (part : String) (o : Option String) (i : ℕ) (xs : List ℕ) (k : ℕ)
    → has xs k ≡ true
    → has (follow part o i xs) k ≡ true
unfolding follow
has-follow_old part none i xs k h = h
has-follow_old part (some selector) i xs k h = elim (Bool-cases (selector == "**")) [
  | inl deep ↦ rw deep ((has-add i xs k).1 (inr h))
  | inr plain ↦ elim (Bool-cases (fnmatchcase part selector)) [
    | inl fits ↦ rw (plain, fits) ((has-add (suc i) xs k).1 (inr h))
    | inr other ↦ rw (plain, other) h
  ]
]

has-follow_new :
    {pattern : List String} {part : String} {i k : ℕ} (xs : List ℕ)
    → Moves pattern part i k
    → has (follow part (get_elem? pattern i) i xs) k ≡ true
unfolding follow is_deep
has-follow_new {pattern} {i} xs (stays deep) = elim (Option-cases (get_elem? pattern i)) [
  | inl e ↦ absurd (ground arith)
  | inr (selector, e) ↦
      let star : (selector == "**") ≡ true = rw e at deep in
      rw (e, star) ((has-add i xs i).1 (inl refl))
]
has-follow_new {i} xs (steps selector e plain fits) =
    rw (e, plain, fits) ((has-add (suc i) xs (suc i)).1 (inl refl))

-- The positions after one component are those that a move from a state leads to.
module _ (pattern : List String) (part : String) where
  pub advance_sound :
      (states following : List ℕ) (k : ℕ)
      → has (advance pattern part states following) k ≡ true
      → ((i : ℕ) × (has states i ≡ true) × Moves pattern part i k) ⊎ (has following k ≡ true)
  unfolding advance
  advance_sound [] following k h = inr h
  advance_sound (i ∷ states) following k h =
      elim (advance_sound states (follow part (get_elem? pattern i) i following) k h) [
        | inl (j, m, move) ↦ inl (j, has_later i states j m, move)
        | inr m ↦ elim (has-follow pattern part i following k m) [
          | inl move ↦ inl (i, has_here i states, move)
          | inr old ↦ inr old
        ]
      ]

  advance_old :
      (states following : List ℕ) (k : ℕ)
      → has following k ≡ true
      → has (advance pattern part states following) k ≡ true
  unfolding advance
  advance_old [] following k h = h
  advance_old (i ∷ states) following k h =
      advance_old states _ k (has-follow_old part (get_elem? pattern i) i following k h)

  pub advance_complete :
      (states following : List ℕ) (i k : ℕ)
      → has states i ≡ true
      → Moves pattern part i k
      → has (advance pattern part states following) k ≡ true
  unfolding advance
  advance_complete [] following i k h move = cc
  advance_complete (j ∷ states) following i k h move = elim (has_cons j states i h) [
    | inl same ↦ advance_old states _ k (
        subst (λ n. has (follow part (get_elem? pattern n) n following) k ≡ true) (sym same)
          (has-follow_new following move))
    | inr later ↦ advance_complete states _ i k later move
  ]
