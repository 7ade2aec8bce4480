-- ===== src/Base/Values.antt =====
-- The values that a mapping of the source holds. Floating-point numbers are left out.
use Prim.Native.Nat.{ℕ, suc, ◌+◌, ◌-◌}
use Prim.Native.String.{String}
use mathlib.Core.Path.{◌≡◌, ap}
use mathlib.Core.Logic.{◌↔◌}
use mathlib.Core.Bool.{Bool, true, false, ◌&&◌}
use mathlib.Core.List.{List, [], ◌∷◌}
use mathlib.Core.Option.{Option, none, some}
use native.Mathlib.Omega.{arith}
use text.Mathlib.Text.{◌==◌}
use bricek4_ligong_skills.Base.Tests.{leb, ltb, eqb, if◌then◌else◌}
use bricek4_ligong_skills.Base.Text.{is_blank, Mapping, get}

-- `negsuc n` is -(n + 1).
pub data ℤ : Type 0 where
  pos : ℕ → ℤ
  negsuc : ℕ → ℤ

mutual
  pub data Value : Type 0 where
    null : Value
    bool : Bool → Value
    int : ℤ → Value
    str : String → Value
    list : Items → Value
    tuple : Items → Value
    dict : Fields → Value

  pub data Items : Type 0 where
    nil : Items
    cons : Value → Items → Items

  pub data Fields : Type 0 where
    end : Fields
    field : String → Value → Fields → Fields

-- `m.get(k)`, where a missing key gives `None` as a key that holds `None` does.
abbrev pub or_null : Option Value → Value
or_null none = null
or_null (some v) = v

unfoldable pub get_value : Mapping Value → String → Value
unfolding get
get_value m k = or_null (get m k)

-- `v == text`
abbrev pub is_text : Value → String → Bool
is_text (str s) t = s == t
is_text _ t = false

-- `v is True`
abbrev pub is_true : Value → Bool
is_true (bool b) = b
is_true _ = false

-- `m.get(k) is True` holds exactly where `True` is found.
pub true_at : (o : Option Value) → (is_true (or_null o) ≡ true) ↔ (o ≡ some (bool true))
true_at none = (λ h. cc, λ h. cc)
true_at (some (bool b)) = (λ h. ap (λ x. some (bool x)) h, λ h. ground arith)
true_at (some v) = (λ h. cc, λ h. cc)

-- `v is None`
abbrev pub is_null : Value → Bool
is_null null = true
is_null _ = false

-- `type(v) is str and v`
abbrev pub is_filled : Value → Bool
is_filled (str s) = if is_blank s then false else true
is_filled _ = false

-- Signed numbers go through their two parts, which are numbers that `omega` reads.
abbrev pub pos_part : ℤ → ℕ
pos_part (pos n) = n
pos_part (negsuc n) = 0

abbrev pub neg_part : ℤ → ℕ
neg_part (pos n) = 0
neg_part (negsuc n) = suc n

abbrev pub leb_ℤ : ℤ → ℤ → Bool
leb_ℤ a b = leb (pos_part a + neg_part b) (pos_part b + neg_part a)

abbrev pub ltb_ℤ : ℤ → ℤ → Bool
ltb_ℤ a b = ltb (pos_part a + neg_part b) (pos_part b + neg_part a)

abbrev sub_ℕ : ℕ → ℕ → ℤ
sub_ℕ a b = if leb b a then pos (a - b) else negsuc (b - a - 1)

infixl 65 ◌-ℤ◌
unfoldable pub ◌-ℤ◌ : ℤ → ℤ → ℤ
a -ℤ b = sub_ℕ (pos_part a + neg_part b) (neg_part a + pos_part b)

-- `v == 1`: Python's `True` is equal to 1 as well.
abbrev pub is_one : Value → Bool
is_one (int (pos n)) = eqb n 1
is_one (bool b) = b
is_one _ = false

-- `v == text` for what `get` found, and the tuple of texts that `v` is compared with.
abbrev pub is_texts : Items → List String → Bool
is_texts nil [] = true
is_texts (cons v vs) (t ∷ ts) = is_text v t && is_texts vs ts
is_texts _ _ = false

abbrev pub is_text_tuple : Value → List String → Bool
is_text_tuple (tuple vs) ts = is_texts vs ts
is_text_tuple _ ts = false

-- A list or a dictionary cannot be hashed, and neither can a tuple that holds one.
unfoldable mutual
  pub is_hashable : Value → Bool
  is_hashable null = true
  is_hashable (bool b) = true
  is_hashable (int n) = true
  is_hashable (str s) = true
  is_hashable (list vs) = false
  is_hashable (tuple vs) = all_hashable vs
  is_hashable (dict fs) = false

  pub all_hashable : Items → Bool
  all_hashable nil = true
  all_hashable (cons v vs) = is_hashable v && all_hashable vs

-- `d.get(k)` on the entries of a dictionary.
abbrev pub find_field : Fields → String → Option Value
find_field end k = none
find_field (field j v fs) k = if j == k then some v else find_field fs k
