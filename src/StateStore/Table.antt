-- ===== src/StateStore/Table.antt =====
-- What the state store of taskguard/state.py promises: a table of rows that are created once and then revised.
use bricek4_ligong_skills.Base.{
  ℕ, ◌+◌, ◌≤◌, ◌≡◌, refl, sym, ap, ◌∙◌, subst, String, true, false, Option, none, some, List, [],
  ◌∷◌, ◌==◌, Value, Fields, int, pos, end, field, find_field, contains, if◌then◌else◌, arith,
  eq_iff, Bool-cases, inl, inr, or-false,
}
use bricek4_ligong_skills.StateStore.{is_protected, protected_update_fields}
use bricek4_ligong_skills.StateStore.Operations.{new_payload}
use bricek4_ligong_skills.StateStore.Written.{override}

-- The fields of a manifest but its checksum.
abbrev pub Row : Type 0
Row = String → Option Value

-- The rows under their operation ids.
abbrev pub Table : Type 0
Table = String → Option Row

abbrev pub set_row : String → Row → Table → Table
set_row id row t j = if id == j then some row else t j

abbrev pub without_checksum : Row → Row
without_checksum row k = if "checksum" == k then none else row k

-- A new row: the fixed fields and the given ones.
abbrev pub new_row : String → String → Fields → Row
new_row id owner fields =
    without_checksum (λ k. override fields k (find_field (new_payload id owner) k))

-- The row after a revision.
abbrev pub next_row : Row → Fields → ℕ → Row
next_row row changes n =
    without_checksum
      (λ k. if "revision" == k then some (int (pos (n + 1))) else override changes k (row k))

pub data Step : Table → Table → Type 0 where
  opened :
      {t u : Table} (id owner : String) (fields : Fields)
      → t id ≡ none
      → u ≡ set_row id (new_row id owner fields) t
      → Step t u
  revised :
      {t u : Table} (id : String) (row : Row) (changes : Fields) (n : ℕ)
      → t id ≡ some row
      → row "revision" ≡ some (int (pos n))
      → is_protected protected_update_fields changes ≡ false
      → u ≡ set_row id (next_row row changes n) t
      → Step t u

pub data Steps (t : Table) : Table → Type 0 where
  here : Steps t t
  next : {u v : Table} → Steps t u → Step u v → Steps t v

override-unchanged :
    (names : List String) (changes : Fields) (k : String) (o : Option Value)
    → is_protected names changes ≡ false
    → contains names k ≡ true
    → override changes k o ≡ o
unfolding is_protected
override-unchanged names end k o h m = refl
override-unchanged names (field j v changes) k o h m =
    let (free, later) = or-false (contains names j) (is_protected names changes) h in
    elim (Bool-cases (j == k)) [
      | inl same ↦
          let eq : j ≡ k = (eq_iff j k).0 same in
          absurd (cc (sym free ∙ ap (contains names) eq ∙ m))
      | inr other ↦ rw other (override-unchanged names changes k o later m)
    ]

-- The fields that no revision touches.
abbrev pub fixed_fields : List String
fixed_fields = "schema_version" ∷ "operation_id" ∷ "owner" ∷ "admission_anchor" ∷ []

-- One row came from another by revisions: the fixed fields are as they were and the revision has not gone down.
pub record Succeeds (old new : Row) : Type 0 where
  pub keeps : (k : String) → contains fixed_fields k ≡ true → new k ≡ old k
  pub grows :
      (n : ℕ)
      → old "revision" ≡ some (int (pos n))
      → (m : ℕ) × (new "revision" ≡ some (int (pos m))) × (n ≤ m)

pub Succeeds-same : (row : Row) → Succeeds row row
Succeeds-same row = record { keeps = λ k h. refl; grows = λ n h. (n, h, omega arith) }

Succeeds-trans : {a b c : Row} → Succeeds a b → Succeeds b c → Succeeds a c
Succeeds-trans p q = record {
  keeps = λ k h. q.keeps k h ∙ p.keeps k h;
  grows = λ n h.
      let (m, at_m, le) = p.grows n h in
      let (k, at_k, le') = q.grows m at_m in (k, at_k, omega arith);
}

same_revision :
    (o : Option Value) (n m : ℕ) → o ≡ some (int (pos n)) → o ≡ some (int (pos m)) → m ≤ n + 1
same_revision o n m h k = let e : n ≡ m = ground arith in omega arith

at_fixed :
    (P : String → Type 0)
    → P "schema_version"
    → P "operation_id"
    → P "owner"
    → P "admission_anchor"
    → (k : String) → contains fixed_fields k ≡ true
    → P k
unfolding contains
at_fixed P schema operation owner anchor k h = elim (Bool-cases ("schema_version" == k)) [
  | inl e ↦ subst P ((eq_iff "schema_version" k).0 e) schema
  | inr a ↦ elim (Bool-cases ("operation_id" == k)) [
    | inl e ↦ subst P ((eq_iff "operation_id" k).0 e) operation
    | inr b ↦ elim (Bool-cases ("owner" == k)) [
      | inl e ↦ subst P ((eq_iff "owner" k).0 e) owner
      | inr c ↦ elim (Bool-cases ("admission_anchor" == k)) [
        | inl e ↦ subst P ((eq_iff "admission_anchor" k).0 e) anchor
        | inr d ↦ absurd (cc (rw (a, b, c, d) at h))
      ]
    ]
  ]
]

next_row-Succeeds :
    (row : Row) (changes : Fields) (n : ℕ)
    → row "revision" ≡ some (int (pos n))
    → is_protected protected_update_fields changes ≡ false
    → Succeeds row (next_row row changes n)
unfolding contains
next_row-Succeeds row changes n at free =
    let unchanged = λ (k : String) (m : contains protected_update_fields k ≡ true).
      override-unchanged protected_update_fields changes k (row k) free m in
    record {
      keeps =
          at_fixed (λ k. next_row row changes n k ≡ row k) (unchanged "schema_version" refl)
            (unchanged "operation_id" refl) (unchanged "owner" refl)
            (unchanged "admission_anchor" refl);
      grows = λ m h. (n + 1, refl, same_revision (row "revision") n m at h);
    }

-- What was in the table before a step is there behind it, revised at most.
abbrev pub Keeps : Table → Table → Type 0
Keeps t u =
    (id : String) (row : Row) → t id ≡ some row → (new : Row) × (u id ≡ some new) × Succeeds row new

set_row-Keeps :
    (t u : Table) (id : String) (row new : Row)
    → t id ≡ some row
    → Succeeds row new
    → u ≡ set_row id new t
    → Keeps t u
set_row-Keeps t u id row new at after eq j old at_old =
    let there = ap (λ (v : Table). v j) eq in
    elim (Bool-cases (id == j)) [
      | inl same ↦
          let e : id ≡ j = (eq_iff id j).0 same in
          let row_old : row ≡ old = ground arith in
          (
            new,
            there ∙ ap (λ b. if b then some new else t j) same,
            subst (λ r. Succeeds r new) row_old after,
          )
      | inr other ↦
          (old, there ∙ (ap (λ b. if b then some new else t j) other ∙ at_old), Succeeds-same old)
    ]

Step-Keeps : {t u : Table} → Step t u → Keeps t u
Step-Keeps {t} (opened id owner fields free eq) j old at_old =
    let there = ap (λ (v : Table). v j) eq in
    elim (Bool-cases (id == j)) [
      | inl same ↦
          let e : t j ≡ none = subst (λ k. t k ≡ none) ((eq_iff id j).0 same) free in
          absurd (cc (sym at_old ∙ e))
      | inr other ↦ (
        old,
        there ∙ (ap (λ b. if b then some (new_row id owner fields) else t j) other ∙ at_old),
        Succeeds-same old,
      )
    ]
Step-Keeps {t} {u} (revised id row changes n at revision free eq) j old at_old =
    set_row-Keeps t u id row (next_row row changes n) at
      (next_row-Succeeds row changes n revision free) eq j old at_old

pub Steps-Keeps : {t u : Table} → Steps t u → Keeps t u
Steps-Keeps here id row at = (row, at, Succeeds-same row)
Steps-Keeps (next steps step) id row at =
    let (middle, at_middle, first) = Steps-Keeps steps id row at in
    let (new, at_new, second) = Step-Keeps step id middle at_middle in
    (new, at_new, Succeeds-trans first second)
