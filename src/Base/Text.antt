-- ===== src/Base/Text.antt =====
-- Texts as members of lists, keys of mappings and elements of sorted sets.
use Prim.Native.Nat.{ℕ, zero, suc}
use Prim.Native.String.{String, compare}
use Prim.Native.String
use Prim.Native.Char.{code}
use mathlib.Core.Path.{◌≡◌, refl, ap}
use mathlib.Core.Bool.{Bool, true, false, ◌&&◌, ◌||◌}
use mathlib.Core.Logic.{◌↔◌}
use mathlib.Core.Option.{Option, none, some}
use mathlib.Core.List.{List, [], ◌∷◌, ◌++◌}
use native.Mathlib.Omega.{arith}
use text.Mathlib.Text.{◌==◌, is_lt}
use text.Mathlib.TextPositions.{eq_refl}
use text.Mathlib.TextEquality.{eq_iff}
use bricek4_ligong_skills.Base.Tests.{if◌then◌else◌, eqb, leb}
use bricek4_ligong_skills.Base.Lists.{all, is_empty}

-- The source's `+` on texts and its f-strings.
infixr 65 ◌+++◌
abbrev pub ◌+++◌ : String → String → String
a +++ b = String.◌++◌ a b

-- `not text`
abbrev pub is_blank : String → Bool
is_blank String.[] = true
is_blank (String.◌∷◌ c s) = false

-- `a in xs`
unfoldable pub contains : List String → String → Bool
contains [] a = false
contains (x ∷ xs) a = x == a || contains xs a

-- A mapping with text keys, in insertion order.
abbrev pub Mapping {ℓ} : Type ℓ → Type ℓ
Mapping V = List (String × V)

-- `m.get(k)`
unfoldable pub get {ℓ} : {V : Type ℓ} → Mapping V → String → Option V
get [] k = none
get ((j, v) ∷ m) k = if j == k then some v else get m k

-- A property checked on each element holds of each member, and conversely.
pub all-contains :
    (p : String → Bool) (xs : List String) (a : String)
    → all p xs ≡ true
    → contains xs a ≡ true
    → p a ≡ true
unfolding contains
all-contains p [] a h m = cc
all-contains p (x ∷ xs) a h m = ground (arith, eq_iff x a, all-contains p xs a)

pub all_of_contains :
    (p : String → Bool) (xs : List String)
    → ((a : String) → contains xs a ≡ true → p a ≡ true)
    → all p xs ≡ true
unfolding contains
all_of_contains p [] h = refl
all_of_contains p (x ∷ xs) h =
    let here : p x ≡ true = h x (rw eq_refl) in
    let later : all p xs ≡ true = all_of_contains p xs (λ a m. h a (ground arith)) in rw here later

pub contains-append :
    (xs ys : List String) (a : String) → contains (xs ++ ys) a ≡ (contains xs a || contains ys a)
unfolding contains
contains-append [] ys a = refl
contains-append (x ∷ xs) ys a = ground (arith, contains-append xs ys a)

-- `v == "SUPPORTED"` on what `get` found.
abbrev pub is_supported : Option String → Bool
is_supported none = false
is_supported (some s) = s == "SUPPORTED"

pub is_supported_iff : (o : Option String) → (is_supported o ≡ true) ↔ (o ≡ some "SUPPORTED")
is_supported_iff none = (λ h. cc, λ h. cc)
is_supported_iff (some s) =
    (λ h. cc (ap some ((eq_iff s "SUPPORTED").0 h)), λ h. (eq_iff s "SUPPORTED").1 (ground arith))

-- `m.get(name) == expected`
abbrev pub found_is : Option String → String → Bool
found_is none e = false
found_is (some v) e = v == e

pub found_is_iff : (o : Option String) (e : String) → (found_is o e ≡ true) ↔ (o ≡ some e)
found_is_iff none e = (λ h. cc, λ h. cc)
found_is_iff (some s) e = (λ h. ap some ((eq_iff s e).0 h), λ h. (eq_iff s e).1 (ground arith))

abbrev pub supported_in : Mapping String → String → Bool
supported_in m name = is_supported (get m name)

-- `all(m.get(name) == "SUPPORTED" for name in names)`, read as a statement.
pub all_supported_iff :
    (m : Mapping String) (names : List String)
    → (all (supported_in m) names ≡ true)
      ↔ ((name : String) → contains names name ≡ true → get m name ≡ some "SUPPORTED")
all_supported_iff m names = (
  λ h name k. (is_supported_iff (get m name)).0 (all-contains (supported_in m) names name h k),
  λ h.
      all_of_contains (supported_in m) names
        (λ name k. (is_supported_iff (get m name)).1 (h name k)),
)

abbrev pub status_of : Bool → String
status_of true = "SUPPORTED"
status_of false = "UNSUPPORTED"

pub status_of_iff : (b : Bool) → (status_of b ≡ "SUPPORTED") ↔ (b ≡ true)
status_of_iff true = (λ h. refl, λ h. refl)
status_of_iff false = (λ h. cc ((eq_iff "UNSUPPORTED" "SUPPORTED").1 h), λ h. cc)

-- `tuple(sorted(set(xs)))`: each text once, in the order of the code points.
unfoldable pub insert_text : String → List String → List String
insert_text x [] = x ∷ []
insert_text x (y ∷ ys) =
    if x == y then y ∷ ys else if is_lt (compare x y) then x ∷ y ∷ ys else y ∷ insert_text x ys

unfoldable pub sorted_set : List String → List String
unfolding insert_text
sorted_set [] = []
sorted_set (x ∷ xs) = insert_text x (sorted_set xs)

contains-insert_text :
    (x : String) (ys : List String) (a : String)
    → contains (insert_text x ys) a ≡ (x == a || contains ys a)
unfolding contains insert_text
contains-insert_text x [] a = refl
contains-insert_text x (y ∷ ys) a =
    ground (arith, eq_iff x y, eq_iff x a, eq_iff y a, contains-insert_text x ys a)

pub contains-sorted_set :
    (xs : List String) (a : String) → contains (sorted_set xs) a ≡ contains xs a
unfolding contains sorted_set
contains-sorted_set [] a = refl
contains-sorted_set (x ∷ xs) a =
    rw (contains-insert_text x (sorted_set xs) a) (rw (contains-sorted_set xs a))

is_empty-insert_text : (x : String) (ys : List String) → is_empty (insert_text x ys) ≡ false
unfolding insert_text
is_empty-insert_text x [] = refl
is_empty-insert_text x (y ∷ ys) = ground arith

pub is_empty-sorted_set : (xs : List String) → is_empty (sorted_set xs) ≡ is_empty xs
unfolding sorted_set
is_empty-sorted_set [] = refl
is_empty-sorted_set (x ∷ xs) = is_empty-insert_text x (sorted_set xs)

-- One of the tokens `*`, `?`, `[` and `]` in a text.
abbrev pub is_wild : ℕ → Bool
is_wild c = eqb c b'*' || eqb c b'?' || eqb c b'[' || eqb c b']'

unfoldable pub has_wildcard : String → Bool
has_wildcard String.[] = false
has_wildcard (String.◌∷◌ c s) = is_wild (code c) || has_wildcard s

-- `re.fullmatch("[0-9a-f]{64}", s)`
abbrev is_hex : ℕ → Bool
is_hex c = (leb b'0' c && leb c b'9') || (leb b'a' c && leb c b'f')

hex_run : ℕ → String → Bool
hex_run zero String.[] = true
hex_run (suc n) (String.◌∷◌ c s) = is_hex (code c) && hex_run n s
hex_run _ _ = false

unfoldable pub is_sha256 : String → Bool
unfolding hex_run
is_sha256 s = hex_run 64 s

-- `"\x00" in s`
unfoldable pub has_nul : String → Bool
has_nul String.[] = false
has_nul (String.◌∷◌ c s) = eqb (code c) 0 || has_nul s

-- `text.startswith(prefix)`
unfoldable pub starts_with : String → String → Bool
starts_with text String.[] = true
starts_with String.[] (String.◌∷◌ d prefix) = false
starts_with (String.◌∷◌ c text) (String.◌∷◌ d prefix) =
    eqb (code c) (code d) && starts_with text prefix
