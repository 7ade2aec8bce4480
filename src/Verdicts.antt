-- ===== src/Verdicts.antt =====
-- taskguard/verdicts.py: the aggregation of verdicts by a table of precedence.
use bricek4_ligong_skills.Base.{
  ℕ, ◌≤◌, String, ◌≡◌, refl, subst, inl, inr, Bool-cases, Bool, true, false, not, Option, none,
  some, List, [], ◌∷◌, arith, ◌==◌, eq_iff, eq_refl, Mapping, get, contains, all, ltb,
  if◌then◌else◌,
}

abbrev pub v2_precedence : Mapping ℕ
v2_precedence = ("SUPPORTED", 0) ∷ ("UNKNOWN", 1) ∷ ("STALE", 2) ∷ ("FAILED", 3) ∷ []

abbrev pub v3_precedence : Mapping ℕ
v3_precedence =
    ("READY", 0)
    ∷ ("SUPPORTED", 0)
    ∷ ("SNAPSHOT_ONLY", 1)
    ∷ ("UNKNOWN", 2)
    ∷ ("STALE", 3)
    ∷ ("UNSUPPORTED", 4)
    ∷ ("FAILED", 5)
    ∷ []

abbrev is_known : Option ℕ → Bool
is_known none = false
is_known (some n) = true

abbrev rank_of : Option ℕ → ℕ
rank_of none = 0
rank_of (some n) = n

-- `precedence[value]`, for a value that is a key.
abbrev pub rank : Mapping ℕ → String → ℕ
rank precedence value = rank_of (get precedence value)

abbrev pub in_table : Mapping ℕ → String → Bool
in_table precedence value = is_known (get precedence value)

-- `max(values, key=...)`: the first of the values of the highest rank.
unfoldable pub max_by : Mapping ℕ → String → List String → String
max_by precedence best [] = best
max_by precedence best (x ∷ xs) =
    max_by precedence (if ltb (rank precedence best) (rank precedence x) then x else best) xs

-- `_aggregate`
unfoldable pub aggregate : List String → Mapping ℕ → String → String
unfolding max_by
aggregate [] precedence default = default
aggregate (x ∷ xs) precedence default =
    if not (all (in_table precedence) (x ∷ xs)) then "UNKNOWN" else max_by precedence x xs

unfoldable pub aggregate_v2_verdicts : List String → String
unfolding aggregate
aggregate_v2_verdicts values = aggregate values v2_precedence "UNKNOWN"

unfoldable pub aggregate_v3_verdicts : List String → String
unfolding aggregate
aggregate_v3_verdicts values = aggregate values v3_precedence "UNKNOWN"

-- The running best ends in the list and above all of it.
abbrev IsWorst : Mapping ℕ → String → List String → String → Type 0
IsWorst p best xs m =
    (contains (best ∷ xs) m ≡ true)
    × (rank p best ≤ rank p m)
    × ((y : String) → contains xs y ≡ true → rank p y ≤ rank p m)

IsWorst-step :
    (p : Mapping ℕ) (best x : String) (xs : List String) (m : String)
    → IsWorst p (if ltb (rank p best) (rank p x) then x else best) xs m
    → IsWorst p best (x ∷ xs) m
unfolding contains
IsWorst-step p best x xs m (within, above, every) =
    let low : rank p best ≤ rank p m = ground arith in
    let high : rank p x ≤ rank p m = ground arith in
    (
      ground arith,
      low,
      λ y h. elim (Bool-cases (x == y)) [
        | inl same ↦ subst (λ z. rank p z ≤ rank p m) ((eq_iff x y).0 same) high
        | inr other ↦ every y (rw other at h)
      ],
    )

max_by-IsWorst :
    (p : Mapping ℕ) (best : String) (xs : List String) → IsWorst p best xs (max_by p best xs)
unfolding max_by contains
max_by-IsWorst p best [] = (ground (arith, eq_refl best), omega arith, λ y h. cc)
max_by-IsWorst p best (x ∷ xs) =
    IsWorst-step p best x xs _
      (max_by-IsWorst p (if ltb (rank p best) (rank p x) then x else best) xs)

-- The aggregate of a list that is not empty is UNKNOWN if a value is not in the table, and else one of the
-- values, of a rank that no value exceeds.
pub aggregate_worst :
    (p : Mapping ℕ) (default x : String) (xs : List String)
    → (all (in_table p) (x ∷ xs) ≡ false → aggregate (x ∷ xs) p default ≡ "UNKNOWN")
      × (all (in_table p) (x ∷ xs) ≡ true
          → (contains (x ∷ xs) (aggregate (x ∷ xs) p default) ≡ true)
            × ((y : String)
                → contains (x ∷ xs) y ≡ true
                → rank p y ≤ rank p (aggregate (x ∷ xs) p default)))
unfolding aggregate contains
aggregate_worst p default x xs = (
  λ h. rw h refl,
  λ h. rw h (
      let (within, above, every) = max_by-IsWorst p x xs in
      (
        within,
        λ y k. elim (Bool-cases (x == y)) [
          | inl same ↦ subst (λ z. rank p z ≤ rank p (max_by p x xs)) ((eq_iff x y).0 same) above
          | inr other ↦ every y (rw other at k)
        ],
      )),
)
