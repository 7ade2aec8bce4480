-- ===== src/StateStore/Traversal.antt =====
-- The loop of `_validate_json_resources` of taskguard/state.py against a definition by recursion on the value.
use bricek4_ligong_skills.Base.{
  ℕ, zero, suc, ◌+◌, ◌≤◌, ◌≡◌, refl, Bool, true, false, ◌&&◌, none, some, [], ◌∷◌, ◌↔◌, ok, ltb,
  leb, Value, Items, Fields, null, bool, int, str, list, tuple, dict, nil, cons, end, field, arith,
  Bool-cases, Option-cases, inl, inr, and-true, and-intro,
}
use bricek4_ligong_skills.StateStore.{max_state_nodes, max_state_depth}
use bricek4_ligong_skills.StateStore.Resources.{
  Pending, push_items, push_fields, expand, scan, validate_json_resources,
}

-- The nodes of a value, itself included.
unfoldable mutual
  pub nodes : Value → ℕ
  nodes null = 1
  nodes (bool b) = 1
  nodes (int n) = 1
  nodes (str s) = 1
  nodes (tuple vs) = 1
  nodes (list vs) = suc (nodes_items vs)
  nodes (dict fs) = suc (nodes_fields fs)

  pub nodes_items : Items → ℕ
  nodes_items nil = 0
  nodes_items (cons v vs) = nodes v + nodes_items vs

  pub nodes_fields : Fields → ℕ
  nodes_fields end = 0
  nodes_fields (field k v fs) = nodes v + nodes_fields fs

-- A value at a depth has JSON types only, and goes no deeper than is allowed.
unfoldable mutual
  pub fits : ℕ → Value → Bool
  fits d null = leb d max_state_depth
  fits d (bool b) = leb d max_state_depth
  fits d (int n) = leb d max_state_depth
  fits d (str s) = leb d max_state_depth
  fits d (tuple vs) = false
  fits d (list vs) = leb d max_state_depth && fits_items (suc d) vs
  fits d (dict fs) = leb d max_state_depth && fits_fields (suc d) fs

  pub fits_items : ℕ → Items → Bool
  fits_items d nil = true
  fits_items d (cons v vs) = fits d v && fits_items d vs

  pub fits_fields : ℕ → Fields → Bool
  fits_fields d end = true
  fits_fields d (field k v fs) = fits d v && fits_fields d fs

-- The same for the whole stack.
total : Pending → ℕ
total [] = 0
total ((v, d) ∷ stack) = nodes v + total stack

all_fit : Pending → Bool
all_fit [] = true
all_fit ((v, d) ∷ stack) = fits d v && all_fit stack

total-push_items :
    (vs : Items) (d : ℕ) (stack : Pending)
    → total (push_items vs d stack) ≡ nodes_items vs + total stack
unfolding push_items nodes total
total-push_items nil d stack = omega arith
total-push_items (cons v vs) d stack = omega (arith, total-push_items vs d ((v, d) ∷ stack))

total-push_fields :
    (fs : Fields) (d : ℕ) (stack : Pending)
    → total (push_fields fs d stack) ≡ nodes_fields fs + total stack
unfolding push_fields nodes total
total-push_fields end d stack = omega arith
total-push_fields (field k v fs) d stack = omega (arith, total-push_fields fs d ((v, d) ∷ stack))

all_fit-push_items :
    (vs : Items) (d : ℕ) (stack : Pending)
    → all_fit (push_items vs d stack) ≡ (fits_items d vs && all_fit stack)
unfolding push_items fits all_fit
all_fit-push_items nil d stack = refl
all_fit-push_items (cons v vs) d stack = ground (arith, all_fit-push_items vs d ((v, d) ∷ stack))

all_fit-push_fields :
    (fs : Fields) (d : ℕ) (stack : Pending)
    → all_fit (push_fields fs d stack) ≡ (fits_fields d fs && all_fit stack)
unfolding push_fields fits all_fit
all_fit-push_fields end d stack = refl
all_fit-push_fields (field k v fs) d stack =
    ground (arith, all_fit-push_fields fs d ((v, d) ∷ stack))

abbrev Admits : ℕ → Pending → Type 0
Admits room stack = (total stack ≤ room) × (all_fit stack ≡ true)

-- A round at a value and the rest of the loop.
nodes-pos : (v : Value) → 1 ≤ nodes v
unfolding nodes
nodes-pos null = omega arith
nodes-pos (bool b) = omega arith
nodes-pos (int n) = omega arith
nodes-pos (str s) = omega arith
nodes-pos (tuple vs) = omega arith
nodes-pos (list vs) = omega arith
nodes-pos (dict fs) = omega arith

module _ (d : ℕ) (stack : Pending) where
  -- A round counts one node, and leaves the children to fit.
  Rounds : Value → Pending → Type 0
  Rounds v stack' =
      (suc (total stack') ≡ nodes v + total stack)
      × ((leb d max_state_depth && all_fit stack') ≡ (fits d v && all_fit stack))

  expand-Rounds : (v : Value) (stack' : Pending) → expand v d stack ≡ some stack' → Rounds v stack'
  unfolding Rounds expand nodes fits
  expand-Rounds null stack' h =
      let e : stack ≡ stack' = ground arith in rw (← e) (omega arith, refl)
  expand-Rounds (bool b) stack' h =
      let e : stack ≡ stack' = ground arith in rw (← e) (omega arith, refl)
  expand-Rounds (int n) stack' h =
      let e : stack ≡ stack' = ground arith in rw (← e) (omega arith, refl)
  expand-Rounds (str s) stack' h =
      let e : stack ≡ stack' = ground arith in rw (← e) (omega arith, refl)
  expand-Rounds (tuple vs) stack' h = absurd (cc h)
  expand-Rounds (list vs) stack' h =
      let e : push_items vs (suc d) stack ≡ stack' = ground arith in
      rw (← e) (
        omega (arith, total-push_items vs (suc d) stack),
        ground (arith, all_fit-push_items vs (suc d) stack),
      )
  expand-Rounds (dict fs) stack' h =
      let e : push_fields fs (suc d) stack ≡ stack' = ground arith in
      rw (← e) (
        omega (arith, total-push_fields fs (suc d) stack),
        ground (arith, all_fit-push_fields fs (suc d) stack),
      )

  expand-none : (v : Value) → expand v d stack ≡ none → fits d v ≡ false
  unfolding expand fits
  expand-none null h = absurd (cc h)
  expand-none (bool b) h = absurd (cc h)
  expand-none (int n) h = absurd (cc h)
  expand-none (str s) h = absurd (cc h)
  expand-none (tuple vs) h = refl
  expand-none (list vs) h = absurd (cc h)
  expand-none (dict fs) h = absurd (cc h)

fits-depth : (d : ℕ) (v : Value) → fits d v ≡ true → leb d max_state_depth ≡ true
unfolding fits
fits-depth d null h = h
fits-depth d (bool b) h = h
fits-depth d (int n) h = h
fits-depth d (str s) h = h
fits-depth d (tuple vs) h = absurd (cc h)
fits-depth d (list vs) h = (and-true _ _ h).0
fits-depth d (dict fs) h = (and-true _ _ h).0

scan_iff : (room : ℕ) (stack : Pending) → (scan room stack ≡ ok tt) ↔ Admits room stack
unfolding scan total all_fit Rounds
scan_iff room [] = (λ h. (omega arith, refl), λ h. refl)
scan_iff zero ((v, d) ∷ stack) = (λ h. cc, λ (few, _). absurd (omega (arith, nodes-pos v)))
scan_iff (suc room) ((v, d) ∷ stack) = elim (Bool-cases (ltb max_state_depth d)) [
  | inl deep ↦ rw deep (
    λ h. cc,
    λ (_, fit). let shallow = fits-depth d v (and-true _ _ fit).0 in absurd (ground arith),
  )
  | inr shallow ↦ elim (Option-cases (expand v d stack)) [
    | inl other ↦
        let bad = expand-none d stack v other in
        rw (shallow, other) (λ h. cc, λ (_, fit). absurd (ground arith))
    | inr (stack', more) ↦
        let (count, fit) = expand-Rounds d stack v stack' more in
        let (sound, complete) = scan_iff room stack' in
        let low : leb d max_state_depth ≡ true = ground arith in
        rw (shallow, more)
          (
            λ h. let (few, ok_fit) = sound h in (omega arith, ground arith),
            λ (few, fits_all). complete (omega arith, ground arith),
          )
  ]
]

-- The loop accepts a value exactly if it has at most as many nodes as are allowed, no deeper than is allowed and of
-- JSON types only.
pub validate_json_resources_iff :
    (value : Value)
    → (validate_json_resources value ≡ ok tt)
      ↔ ((nodes value ≤ max_state_nodes) × (fits 1 value ≡ true))
unfolding validate_json_resources total all_fit
validate_json_resources_iff value =
    let (sound, complete) = scan_iff max_state_nodes ((value, 1) ∷ []) in
    (
      λ h. let (few, fit) = sound h in (omega arith, (and-true _ _ fit).0),
      λ (few, fit). complete (omega arith, and-intro fit refl),
    )
