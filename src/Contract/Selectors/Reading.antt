-- ===== src/Contract/Selectors/Reading.antt =====
-- The state sets of `_pattern_states` of taskguard/contract.py against the moves between positions.
use bricek4_ligong_skills.Base.{
  ℕ, suc, ◌≡◌, refl, String, true, false, List, [], ◌∷◌, ◌++◌, inl, inr, length, is_empty, arith,
  Bool-cases, String,
}
use bricek4_ligong_skills.Contract.Selectors.{has, is_deep, advance, read_parts, epsilon_closure}
use bricek4_ligong_skills.Contract.Selectors.Worklist.{
  Skips, stay, skip, epsilon_closure_iff, epsilon_closure-closed,
}
use bricek4_ligong_skills.Contract.Selectors.Positions.{
  Reads, ends, reads, Reads-Skips, Reads-cons, advance_sound, advance_complete,
}

is_empty-has : (xs : List ℕ) (j : ℕ) → is_empty xs ≡ true → has xs j ≡ false
is_empty-has [] j h = refl
is_empty-has (x ∷ xs) j h = cc

-- States that are closed under `**` hold the end after the parts exactly if one of them reads the parts.
module _ (pattern : List String) where
  abbrev pub AreClosed : List ℕ → Type 0
  AreClosed states =
      (j : ℕ) → has states j ≡ true → is_deep pattern j ≡ true → has states (suc j) ≡ true

  pub AreClosed-Skips :
      {i j : ℕ} (states : List ℕ)
      → AreClosed states
      → Skips pattern i j
      → has states i ≡ true
      → has states j ≡ true
  AreClosed-Skips states closed stay h = h
  AreClosed-Skips {i} states closed (skip deep later) h =
      AreClosed-Skips states closed later (closed i h deep)

  pub read_parts_sound :
      (parts : List String) (states : List ℕ)
      → has (read_parts pattern parts states) (length pattern) ≡ true
      → (i : ℕ) × (has states i ≡ true) × Reads pattern parts i
  unfolding read_parts
  read_parts_sound [] states h = (length pattern, h, ends refl)
  read_parts_sound (part ∷ parts) states h =
      let next = epsilon_closure (advance pattern part states []) pattern in
      elim (Bool-cases (is_empty next)) [
        | inl empty ↦
            let member : has next (length pattern) ≡ true = rw empty at h in
            let none_there = is_empty-has next (length pattern) empty in absurd (ground arith)
        | inr some_left ↦
            let (k, m, later) = read_parts_sound parts next (rw some_left at h) in
            let (j, from, path) =
              (epsilon_closure_iff (advance pattern part states []) pattern k).0 m in
            elim (advance_sound pattern part states [] j from) [
              | inl (i, member, move) ↦ (i, member, reads move (Reads-Skips pattern path later))
              | inr nothing ↦ absurd (ground arith)
            ]
      ]

  -- A state from which the rest is read is kept while the first parts are read.
  pub read_parts-keeps :
      (parts rest : List String) (states : List ℕ) (i : ℕ)
      → AreClosed states
      → has states i ≡ true
      → Reads pattern (parts ++ rest) i
      → (j : ℕ) × (has (read_parts pattern parts states) j ≡ true)
        × Reads pattern rest j
        × AreClosed (read_parts pattern parts states)
  unfolding read_parts
  read_parts-keeps [] rest states i closed h r = (i, h, r, closed)
  read_parts-keeps (part ∷ parts) rest states i closed h r =
      let following = advance pattern part states [] in
      let next = epsilon_closure following pattern in
      let (k, j, path, move, later) = Reads-cons pattern part (parts ++ rest) r refl in
      let from = AreClosed-Skips states closed path h in
      let member = advance_complete pattern part states [] k j from move in
      let there = (epsilon_closure_iff following pattern j).1 (j, member, stay) in
      let kept =
        read_parts-keeps parts rest next j (epsilon_closure-closed following pattern) there later in
      elim (Bool-cases (is_empty next)) [
        | inl empty ↦ let none_there = is_empty-has next j empty in absurd (ground arith)
        | inr some_left ↦ rw some_left kept
      ]
