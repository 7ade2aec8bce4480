-- ===== src/Receipts/Frozen.antt =====
-- Freezing and thawing JSON values (taskguard/validation.py).
use bricek4_ligong_skills.Base.{
  ◌≡◌, refl, ap, Bool, true, false, ◌&&◌, and-true, Value, Items, Fields, nil, cons, end, field,
  null, bool, int, str, list, tuple, dict,
}
use bricek4_ligong_skills.Receipts.{
  freeze_json, freeze_items, freeze_fields, thaw_json, thaw_items, thaw_fields,
}

-- A value that `json.loads` can return: it holds no tuple.
unfoldable mutual
  pub is_plain : Value → Bool
  is_plain null = true
  is_plain (bool b) = true
  is_plain (int n) = true
  is_plain (str s) = true
  is_plain (list vs) = is_plain_items vs
  is_plain (tuple vs) = false
  is_plain (dict fs) = is_plain_fields fs

  pub is_plain_items : Items → Bool
  is_plain_items nil = true
  is_plain_items (cons v vs) = is_plain v && is_plain_items vs

  pub is_plain_fields : Fields → Bool
  is_plain_fields end = true
  is_plain_fields (field k v fs) = is_plain v && is_plain_fields fs

mutual
  unfolding freeze_json thaw_json is_plain

  thaw-freeze_value : (v : Value) → is_plain v ≡ true → thaw_json (freeze_json v) ≡ v
  thaw-freeze_value null h = refl
  thaw-freeze_value (bool b) h = refl
  thaw-freeze_value (int n) h = refl
  thaw-freeze_value (str s) h = refl
  thaw-freeze_value (list vs) h = ap list (thaw-freeze_items vs h)
  thaw-freeze_value (tuple vs) h = cc
  thaw-freeze_value (dict fs) h = ap dict (thaw-freeze_fields fs h)

  thaw-freeze_items : (vs : Items) → is_plain_items vs ≡ true → thaw_items (freeze_items vs) ≡ vs
  thaw-freeze_items nil h = refl
  thaw-freeze_items (cons v vs) h =
      let (h₁, h₂) = and-true (is_plain v) (is_plain_items vs) h in
      rw (thaw-freeze_value v h₁, thaw-freeze_items vs h₂)

  thaw-freeze_fields :
      (fs : Fields) → is_plain_fields fs ≡ true → thaw_fields (freeze_fields fs) ≡ fs
  thaw-freeze_fields end h = refl
  thaw-freeze_fields (field k v fs) h =
      let (h₁, h₂) = and-true (is_plain v) (is_plain_fields fs) h in
      rw (thaw-freeze_value v h₁, thaw-freeze_fields fs h₂)

mutual
  unfolding freeze_json

  freeze_value_idem : (v : Value) → freeze_json (freeze_json v) ≡ freeze_json v
  freeze_value_idem null = refl
  freeze_value_idem (bool b) = refl
  freeze_value_idem (int n) = refl
  freeze_value_idem (str s) = refl
  freeze_value_idem (list vs) = ap tuple (freeze_items_idem vs)
  freeze_value_idem (tuple vs) = ap tuple (freeze_items_idem vs)
  freeze_value_idem (dict fs) = ap dict (freeze_fields_idem fs)

  freeze_items_idem : (vs : Items) → freeze_items (freeze_items vs) ≡ freeze_items vs
  freeze_items_idem nil = refl
  freeze_items_idem (cons v vs) = rw (freeze_value_idem v, freeze_items_idem vs)

  freeze_fields_idem : (fs : Fields) → freeze_fields (freeze_fields fs) ≡ freeze_fields fs
  freeze_fields_idem end = refl
  freeze_fields_idem (field k v fs) = rw (freeze_value_idem v, freeze_fields_idem fs)

-- A value that JSON text can hold is given back unchanged when it is frozen and then thawed, at every
-- depth; and freezing any value a second time changes nothing.
pub thaw-freeze :
    (v : Value)
    → (is_plain v ≡ true → thaw_json (freeze_json v) ≡ v)
      × (freeze_json (freeze_json v) ≡ freeze_json v)
thaw-freeze v = (thaw-freeze_value v, freeze_value_idem v)
