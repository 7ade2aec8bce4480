-- ===== src/ContractV3/Frozen.antt =====
-- Freezing and thawing the JSON objects of an action (taskguard/contracts/v3.py).
use bricek4_ligong_skills.Base.{
  ◌==◌, ◌≡◌, refl, ap, subst, String, true, ok, inl, inr, ok-injective, Value, Items, Fields, null,
  bool, int, str, list, tuple, dict, nil, cons, end, field, Bool-cases, and-true,
}
use bricek4_ligong_skills.Receipts.Frozen.{is_plain, is_plain_items, is_plain_fields}
use bricek4_ligong_skills.Contract.{Label, lookup_field}
use bricek4_ligong_skills.ContractV3.{
  json_object, freeze_fields, freeze, freeze_items, thaw, thaw_items, thaw_fields,
}

-- Freezing a value that holds no tuple can be undone.
mutual
  unfolding freeze thaw is_plain

  thaw-freeze_plain : (v : Value) → is_plain v ≡ true → thaw (freeze v) ≡ v
  thaw-freeze_plain null h = refl
  thaw-freeze_plain (bool b) h = refl
  thaw-freeze_plain (int n) h = refl
  thaw-freeze_plain (str s) h = refl
  thaw-freeze_plain (list vs) h = ap list (thaw-freeze_plain_items vs h)
  thaw-freeze_plain (tuple vs) h = cc
  thaw-freeze_plain (dict fs) h = ap dict (thaw-freeze_plain_fields fs h)

  thaw-freeze_plain_items :
      (vs : Items) → is_plain_items vs ≡ true → thaw_items (freeze_items vs) ≡ vs
  thaw-freeze_plain_items nil h = refl
  thaw-freeze_plain_items (cons v vs) h =
      let (h₁, h₂) = and-true (is_plain v) (is_plain_items vs) h in
      rw (thaw-freeze_plain v h₁, thaw-freeze_plain_items vs h₂)

  thaw-freeze_plain_fields :
      (fs : Fields) → is_plain_fields fs ≡ true → thaw_fields (freeze_fields fs) ≡ fs
  thaw-freeze_plain_fields end h = refl
  thaw-freeze_plain_fields (field k v fs) h =
      let (h₁, h₂) = and-true (is_plain v) (is_plain_fields fs) h in
      rw (thaw-freeze_plain v h₁, thaw-freeze_plain_fields fs h₂)

pub lookup_field-is_plain :
    (fs : Fields) (name : String)
    → is_plain_fields fs ≡ true
    → is_plain (lookup_field fs name) ≡ true
unfolding is_plain
lookup_field-is_plain end name h = refl
lookup_field-is_plain (field k v fs) name h =
    let (h₁, h₂) = and-true (is_plain v) (is_plain_fields fs) h in
    elim (Bool-cases (k == name)) [
      | inl here ↦ rw (here) h₁
      | inr other ↦ rw (other) (lookup_field-is_plain fs name h₂)
    ]

pub json_object-again :
    (v : Value) (label label' : Label) (x : Fields)
    → is_plain v ≡ true
    → json_object v label ≡ ok x
    → json_object (dict (thaw_fields x)) label' ≡ ok x
unfolding json_object is_plain
json_object-again (dict fs) label label' x h e =
    subst (λ q. json_object (dict (thaw_fields q)) label' ≡ ok q) (ok-injective e)
      (ap (λ q. ok (freeze_fields q)) (thaw-freeze_plain_fields fs h))
json_object-again v label label' x h e = cc
