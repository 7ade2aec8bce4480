-- ===== src/Contract/Selectors/Worklist.antt =====
-- The worklist of `_epsilon_closure` against the relation that it computes.
use bricek4_ligong_skills.Base.{
  ℕ, zero, suc, ◌≤◌, ◌<◌, ◌≡◌, refl, ap, String, true, false, ◌&&◌, not, List, [], ◌∷◌, ◌↔◌, ◌⊎◌,
  inl, inr, eqb, length, arith, Bool-cases, and-true,
}
use bricek4_ligong_skills.Contract.Selectors.{
  has, is_deep, Closure, close_step, close_loop, work, epsilon_loop, epsilon_closure,
}

pub eq_of_eqb : (i j : ℕ) → eqb i j ≡ true → i ≡ j
eq_of_eqb i j h = ground arith

pub eqb_self : (i : ℕ) → eqb i i ≡ true
eqb_self i = ground arith

pub has_cons : (i : ℕ) (xs : List ℕ) (j : ℕ) → has (i ∷ xs) j ≡ true → (i ≡ j) ⊎ (has xs j ≡ true)
has_cons i xs j h = elim (Bool-cases (eqb i j)) [
  | inl same ↦ inl (eq_of_eqb i j same)
  | inr other ↦ inr (ground arith)
]

pub has_later : (i : ℕ) (xs : List ℕ) (j : ℕ) → has xs j ≡ true → has (i ∷ xs) j ≡ true
has_later i xs j h = ground arith

pub has_here : (i : ℕ) (xs : List ℕ) → has (i ∷ xs) i ≡ true
has_here i xs = rw (eqb_self i)

-- From `i` the position `j` is reached without reading: all selectors between them are `**`.
pub data Skips (pattern : List String) : ℕ → ℕ → Type 0 where
  stay : {i : ℕ} → Skips pattern i i
  skip : {i j : ℕ} → is_deep pattern i ≡ true → Skips pattern (suc i) j → Skips pattern i j

Skips-last :
    {pattern : List String} {i j : ℕ}
    → Skips pattern i j
    → is_deep pattern j ≡ true
    → Skips pattern i (suc j)
Skips-last stay deep = skip deep stay
Skips-last (skip here later) deep = skip here (Skips-last later deep)

module _ (pattern : List String) (start : List ℕ) where
  record Invariant (c : Closure) : Type 0 where
    keeps : (j : ℕ) → has start j ≡ true → has c.closed j ≡ true
    sound : (j : ℕ) → has c.closed j ≡ true → (i : ℕ) × (has start i ≡ true) × Skips pattern i j
    waits : (j : ℕ) → has c.pending j ≡ true → has c.closed j ≡ true
    complete :
        (j : ℕ)
        → has c.closed j ≡ true
        → is_deep pattern j ≡ true
        → (has c.closed (suc j) ≡ true) ⊎ (has c.pending j ≡ true)

  -- The round adds the next position.
  Invariant-added :
      (closed : List ℕ) (i : ℕ) (rest : List ℕ)
      → Invariant (record { closed = closed; pending = i ∷ rest })
      → is_deep pattern i ≡ true
      → Invariant (record { closed = suc i ∷ closed; pending = suc i ∷ rest })
  Invariant-added closed i rest inv deep =
      let member : has closed i ≡ true = inv.waits i (has_here i rest) in
      record {
        keeps = λ j h. has_later (suc i) closed j (inv.keeps j h);
        sound = λ j h. elim (has_cons (suc i) closed j h) [
          | inl same ↦
              let (k, from, path) = inv.sound i member in
              (k, from, rw (← same) (Skips-last path deep))
          | inr old ↦ inv.sound j old
        ];
        waits = λ j h. elim (has_cons (suc i) rest j h) [
          | inl same ↦ rw (← same) (has_here (suc i) closed)
          | inr old ↦ has_later (suc i) closed j (inv.waits j (has_later i rest j old))
        ];
        complete = λ j h d. elim (has_cons (suc i) closed j h) [
          | inl same ↦ inr (rw (← same) (has_here (suc i) rest))
          | inr old ↦ elim (inv.complete j old d) [
            | inl next ↦ inl (has_later (suc i) closed (suc j) next)
            | inr waiting ↦ elim (has_cons i rest j waiting) [
              | inl same ↦ inl (rw (← same) (has_here (suc i) closed))
              | inr later ↦ inr (has_later (suc i) rest j later)
            ]
          ]
        ];
      }

  -- The round adds nothing: there is no `**`, or the next position is there already.
  Invariant-dropped :
      (closed : List ℕ) (i : ℕ) (rest : List ℕ)
      → Invariant (record { closed = closed; pending = i ∷ rest })
      → (is_deep pattern i && not (has closed (suc i))) ≡ false
      → Invariant (record { closed = closed; pending = rest })
  Invariant-dropped closed i rest inv guard = record {
    keeps = inv.keeps;
    sound = inv.sound;
    waits = λ j h. inv.waits j (has_later i rest j h);
    complete = λ j h d. elim (inv.complete j h d) [
      | inl next ↦ inl next
      | inr waiting ↦ elim (has_cons i rest j waiting) [
        | inl same ↦
            let deep : is_deep pattern i ≡ true = rw same d in
            let next : has closed (suc i) ≡ true = ground arith in inl (rw (← same) next)
        | inr later ↦ inr later
      ]
    ];
  }

  close_step-Invariant :
      (closed : List ℕ) (i : ℕ) (rest : List ℕ)
      → Invariant (record { closed = closed; pending = i ∷ rest })
      → Invariant (close_step pattern closed i rest)
  unfolding close_step
  close_step-Invariant closed i rest inv =
      elim (Bool-cases (is_deep pattern i && not (has closed (suc i)))) [
        | inl guard ↦ rw guard (Invariant-added closed i rest inv (and-true _ _ guard).0)
        | inr guard ↦ rw guard (Invariant-dropped closed i rest inv guard)
      ]

  -- A round costs one unit of the work.
  close_step-work :
      (closed : List ℕ) (i : ℕ) (rest : List ℕ) (size : ℕ)
      → (is_deep pattern i ≡ true → i < size)
      → suc (work size (close_step pattern closed i rest).pending) ≤ work size (i ∷ rest)
  unfolding close_step
  close_step-work closed i rest size below =
      elim (Bool-cases (is_deep pattern i && not (has closed (suc i)))) [
        | inl guard ↦ let short : i < size = below (and-true _ _ guard).0 in rw guard (omega arith)
        | inr guard ↦ rw guard (omega arith)
      ]

  close_loop-ends :
      (fuel : ℕ) (closed pending : List ℕ)
      → ((i : ℕ) → is_deep pattern i ≡ true → i < length pattern)
      → work (length pattern) pending ≤ fuel
      → Invariant (record { closed = closed; pending = pending })
      → let end = close_loop fuel pattern (record { closed = closed; pending = pending }) in
        (end.pending ≡ []) × Invariant end
  unfolding close_loop
  close_loop-ends zero closed [] below enough inv = (refl, inv)
  close_loop-ends zero closed (i ∷ rest) below enough inv = absurd (omega arith)
  close_loop-ends (suc fuel) closed [] below enough inv = (refl, inv)
  close_loop-ends (suc fuel) closed (i ∷ rest) below enough inv =
      let c = close_step pattern closed i rest in
      let cost = close_step-work closed i rest (length pattern) (below i) in
      close_loop-ends fuel c.closed c.pending below (omega arith)
        (close_step-Invariant closed i rest inv)

  Invariant-start : Invariant (record { closed = start; pending = start })
  Invariant-start = record {
    keeps = λ j h. h;
    sound = λ j h. (j, h, stay);
    waits = λ j h. h;
    complete = λ j h d. inr h;
  }

pub get_elem-lt : (pattern : List String) (i : ℕ) → is_deep pattern i ≡ true → i < length pattern
unfolding is_deep
get_elem-lt [] i h = cc
get_elem-lt (p ∷ pattern) zero h = omega arith
get_elem-lt (p ∷ pattern) (suc i) h = omega (arith, get_elem-lt pattern i h)

module _ (states : List ℕ) (pattern : List String) where
  loop_facts :
      ((epsilon_loop states pattern).pending ≡ [])
      × Invariant pattern states (epsilon_loop states pattern)
  unfolding epsilon_loop
  loop_facts =
      close_loop-ends pattern states (work (length pattern) states) states states
        (get_elem-lt pattern) (omega arith) (Invariant-start pattern states)

  -- The closure is closed, and what is reached from a member without reading is a member.
  pub epsilon_closure-closed :
      (j : ℕ)
      → has (epsilon_closure states pattern) j ≡ true
      → is_deep pattern j ≡ true
      → has (epsilon_closure states pattern) (suc j) ≡ true
  unfolding epsilon_closure
  epsilon_closure-closed j h d =
      let (ended, inv) = loop_facts in
      elim (inv.complete j h d) [
        | inl next ↦ next
        | inr waiting ↦ let nothing = ap (λ xs. has xs j) ended in cc
      ]

  pub has-Skips :
      {i j : ℕ}
      → Skips pattern i j
      → has (epsilon_closure states pattern) i ≡ true
      → has (epsilon_closure states pattern) j ≡ true
  has-Skips stay h = h
  has-Skips {i} (skip deep later) h = has-Skips later (epsilon_closure-closed i h deep)

  pub epsilon_closure_iff :
      (j : ℕ)
      → (has (epsilon_closure states pattern) j ≡ true)
        ↔ ((i : ℕ) × (has states i ≡ true) × Skips pattern i j)
  unfolding epsilon_closure
  epsilon_closure_iff j =
      let inv = loop_facts.1 in
      (λ h. inv.sound j h, λ (i, from, path). has-Skips path (inv.keeps i from))

  -- The loop of `_epsilon_closure` ends with no position pending within as many rounds as its work, and the set
  -- that it returns has exactly the positions that a given one reaches over selectors `**`.
  pub epsilon_closure_terminates :
      ((epsilon_loop states pattern).pending ≡ [])
      × ((j : ℕ)
          → (has (epsilon_closure states pattern) j ≡ true)
            ↔ ((i : ℕ) × (has states i ≡ true) × Skips pattern i j))
  epsilon_closure_terminates = (loop_facts.0, epsilon_closure_iff)
