-- ===== src/Contract/Objects/Distinct.antt =====
-- What the loop of taskguard/contract.py over an array of objects returns, whatever the objects are.
use bricek4_ligong_skills.Base.{
  ℕ, ◌+◌, ◌≡◌, ◌≢◌, refl, subst, String, false, List, [], ◌∷◌, ◌==◌, ok, >>=-elim, ok-injective,
  Value, Items, nil, cons, contains, is_empty, All, or-false, eq_iff,
}
use bricek4_ligong_skills.Contract.{Label, at_index, Checked}
use bricek4_ligong_skills.Contract.Objects.{object_loop}

-- No two elements have the same id.
abbrev pub DistinctBy : {A : Type 0} → (A → String) → List A → Type 0
DistinctBy key [] = Unit
DistinctBy key (x ∷ xs) = All (λ y. key x ≢ key y) xs × DistinctBy key xs

abbrev Fresh : {A : Type 0} → (A → String) → List String → List A → Type 0
Fresh key seen xs = All (λ x. contains seen (key x) ≡ false) xs

-- What is new behind an id and all ids before it differs from the id and is new behind those before.
Fresh-later :
    {A : Type 0} (key : A → String) (id : String) (seen : List String) (xs : List A)
    → Fresh key (id ∷ seen) xs
    → All (λ y. id ≢ key y) xs × Fresh key seen xs
unfolding contains
Fresh-later key id seen [] h = (tt, tt)
Fresh-later key id seen (x ∷ xs) (here, later) =
    let (differs, fresh) = or-false (id == key x) (contains seen (key x)) here in
    let (all_differ, all_fresh) = Fresh-later key id seen xs later in
    ((λ e. cc ((eq_iff id (key x)).1 e), all_differ), (fresh, all_fresh))

-- What holds of each item, and that it is new, holds of the loop.
pub object_loop-All :
    {A : Type 0} (id_of : A → String) (item : List String → Label → Value → Checked A)
    (P : A → Type 0)
    → ((seen : List String) (label : Label) (raw : Value) (a : A)
        → item seen label raw ≡ ok a
        → (contains seen (id_of a) ≡ false) × P a)
    → (label : Label) (seen : List String) (index : ℕ) (raws : Items) (items : List A)
    → object_loop id_of item label seen index raws ≡ ok items
    → Fresh id_of seen items × DistinctBy id_of items × All P items
unfolding object_loop
object_loop-All id_of item P each label seen index nil items h =
    subst (λ xs. Fresh id_of seen xs × DistinctBy id_of xs × All P xs) (ok-injective h) (tt, tt, tt)
object_loop-All id_of item P each label seen index (cons raw raws) items h =
    >>=-elim (item seen (at_index label index) raw) _ h λ a is_item h1.
      >>=-elim (object_loop id_of item label (id_of a ∷ seen) (index + 1) raws) _ h1
        λ rest is_rest h2.
          let (fresh, holds) = each seen (at_index label index) raw a is_item in
          let (new, distinct, all_hold) =
            object_loop-All id_of item P each label (id_of a ∷ seen) (index + 1) raws rest
              is_rest in
          let (differ, still_fresh) = Fresh-later id_of (id_of a) seen rest new in
          subst (λ xs. Fresh id_of seen xs × DistinctBy id_of xs × All P xs) (ok-injective h2)
            ((fresh, still_fresh), (differ, distinct), (holds, all_hold))

pub object_loop-filled :
    {A : Type 0} (id_of : A → String) (item : List String → Label → Value → Checked A)
    (label : Label) (seen : List String) (index : ℕ) (raw : Value) (raws : Items) (items : List A)
    → object_loop id_of item label seen index (cons raw raws) ≡ ok items
    → is_empty items ≡ false
unfolding object_loop
object_loop-filled id_of item label seen index raw raws items h =
    >>=-elim (item seen (at_index label index) raw) _ h λ a _ h1.
      >>=-elim (object_loop id_of item label (id_of a ∷ seen) (index + 1) raws) _ h1
        λ rest _ h2. subst (λ xs. is_empty xs ≡ false) (ok-injective h2) refl
