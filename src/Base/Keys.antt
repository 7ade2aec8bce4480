-- ===== src/Base/Keys.antt =====
-- Mappings with exactly the given keys: `set(m) == set(names)`.
use Prim.Native.String.{String}
use mathlib.Core.Path.{◌≡◌, refl}
use mathlib.Core.Bool.{Bool, true, ◌&&◌}
use mathlib.Core.Logic.{◌≢◌, ◌↔◌, inl, inr}
use mathlib.Core.Option.{none}
use mathlib.Core.List.{List, [], ◌∷◌}
use text.Mathlib.Text.{◌==◌}
use bricek4_ligong_skills.Base.Tests.{Bool-cases, and-true, and-intro}
use bricek4_ligong_skills.Base.Lists.{all}
use bricek4_ligong_skills.Base.Text.{Mapping, get, contains, all-contains, all_of_contains}

abbrev pub map_keys : {A : Type 0} → Mapping A → List String
map_keys [] = []
map_keys ((k, v) ∷ m) = k ∷ map_keys m

abbrev pub has_exactly : {A : Type 0} → Mapping A → List String → Bool
has_exactly m names = all (contains names) (map_keys m) && all (contains (map_keys m)) names

-- The mapping has the names as its keys, and no other.
abbrev pub HasExactly : {A : Type 0} → Mapping A → List String → Type 0
HasExactly m names = (name : String) → (get m name ≢ none) ↔ (contains names name ≡ true)

contains-map_keys :
    {A : Type 0} (m : Mapping A) (name : String)
    → (contains (map_keys m) name ≡ true) ↔ (get m name ≢ none)
unfolding contains get
contains-map_keys [] name = (λ h. cc, λ h. absurd (h refl))
contains-map_keys ((k, v) ∷ m) name = elim (Bool-cases (k == name)) [
  | inl here ↦ (λ h. rw here (λ e. cc e), λ h. rw here refl)
  | inr other ↦ rw other (contains-map_keys m name)
]

pub has_exactly_iff :
    {A : Type 0} (m : Mapping A) (names : List String)
    → (has_exactly m names ≡ true) ↔ HasExactly m names
has_exactly_iff m names = (
  λ h name.
      let (within, every) = and-true (all (contains names) (map_keys m)) _ h in
      (
        λ found.
            all-contains (contains names) (map_keys m) name within
              ((contains-map_keys m name).1 found),
        λ listed.
            (contains-map_keys m name).0
              (all-contains (contains (map_keys m)) names name every listed),
      ),
  λ h.
      and-intro
        (all_of_contains (contains names) (map_keys m)
          (λ a k. (h a).0 ((contains-map_keys m a).0 k)))
        (all_of_contains (contains (map_keys m)) names
          (λ a k. (contains-map_keys m a).1 ((h a).1 k))),
)
