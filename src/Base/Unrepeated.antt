-- ===== src/Base/Unrepeated.antt =====
-- Lists of texts in which none comes twice: such a list is no longer than one that holds all of its texts.
use Prim.Native.Nat.{suc, ◌≤◌}
use Prim.Native.String.{String}
use mathlib.Core.Path.{◌≡◌, refl, ap}
use mathlib.Core.Bool.{true, false}
use mathlib.Core.Logic.{inl, inr}
use mathlib.Core.List.{List, [], ◌∷◌}
use native.Mathlib.Omega.{arith}
use text.Mathlib.Text.{◌==◌}
use text.Mathlib.TextEquality.{eq_iff}
use bricek4_ligong_skills.Base.Tests.{if◌then◌else◌, Bool-cases, and-true}
use bricek4_ligong_skills.Base.Lists.{length, all}
use bricek4_ligong_skills.Base.Text.{contains, all-contains, all_of_contains}

remove : String → List String → List String
remove d [] = []
remove d (y ∷ ys) = let rest = remove d ys in if y == d then ys else y ∷ rest

length-remove :
    (d : String) (ys : List String) → contains ys d ≡ true → suc (length (remove d ys)) ≡ length ys
unfolding contains remove
length-remove d [] h = cc
length-remove d (y ∷ ys) h = elim (Bool-cases (y == d)) [
  | inl here ↦ rw here refl
  | inr other ↦ rw other (ap suc (length-remove d ys (rw other at h)))
]

contains-remove :
    (d a : String) (ys : List String)
    → contains ys a ≡ true
    → (d == a) ≡ false
    → contains (remove d ys) a ≡ true
unfolding contains remove
contains-remove d a [] h off = cc
contains-remove d a (y ∷ ys) h off = elim (Bool-cases (y == d)) [
  | inl here ↦ ground (arith, here, eq_iff y d, eq_iff y a, eq_iff d a)
  | inr other ↦ rw other (elim (Bool-cases (y == a)) [
    | inl same ↦ rw same refl
    | inr later ↦ rw later (contains-remove d a ys (rw later at h) off)
  ])
]

differs :
    (xs : List String) (d a : String)
    → contains xs d ≡ false
    → contains xs a ≡ true
    → (d == a) ≡ false
differs xs d a fresh m = elim (Bool-cases (d == a)) [
  | inl same ↦ let eq : d ≡ a = (eq_iff d a).0 same in absurd (cc (rw eq at fresh))
  | inr other ↦ other
]

-- No text comes twice.
abbrev pub Once : List String → Type 0
Once [] = Unit
Once (d ∷ v) = (contains v d ≡ false) × Once v

pub length-Once :
    (xs ys : List String) → Once xs → all (contains ys) xs ≡ true → length xs ≤ length ys
length-Once [] ys once h = omega arith
length-Once (d ∷ xs) ys (fresh, once) h =
    let (here, later) = and-true (contains ys d) (all (contains ys) xs) h in
    let rest = length-Once xs (remove d ys) once (
      all_of_contains (contains (remove d ys)) xs (λ a m.
        contains-remove d a ys (all-contains (contains ys) xs a later m)
          (differs xs d a fresh m))) in
    let shorter = length-remove d ys here in omega arith
