-- ===== src/Store/Ancestors.antt =====
-- The ancestors of a receipt of taskguard/v3/receipt_store.py, and why they hold no cycle.
use bricek4_ligong_skills.Base.{
  ℕ, zero, suc, String, ◌≡◌, ◌≢◌, refl, sym, ap, subst, true, List, [], ◌∷◌, Outcome, ok,
  ok-injective, ◌∙◌, Option, some, contains, all, All,
}
use mathlib.Core.List.{Memᴰ}
use bricek4_ligong_skills.Receipts.{ReceiptRef, Receipt}
use bricek4_ligong_skills.Store.{Codec, Disk, IntegrityError, load}
use bricek4_ligong_skills.Store.Content.{load_decoded}

All-member :
    (P : ReceiptRef → Type 0) {a : ReceiptRef} (xs : List ReceiptRef) → All P xs → Memᴰ a xs → P a
All-member P [] h m = elim m [ ]
All-member P (x ∷ xs) (here, later) (Memᴰ.head same) = subst P (sym same) here
All-member P (x ∷ xs) (here, later) (Memᴰ.tail m) = All-member P xs later m

pub All-of_members :
    (P : ReceiptRef → Type 0) (xs : List ReceiptRef)
    → ((a : ReceiptRef) → Memᴰ a xs → P a)
    → All P xs
All-of_members P [] h = tt
All-of_members P (x ∷ xs) h = (h x (Memᴰ.head refl), All-of_members P xs (λ a m. h a (Memᴰ.tail m)))

module _ (c : Codec) (disk : Disk) where
  -- What loads under one digest is one receipt, whatever the kind of the reference.
  load_same :
      (a b : ReceiptRef) (r q : Receipt)
      → a.digest ≡ b.digest
      → load c disk a ≡ ok r
      → load c disk b ≡ ok q
      → r ≡ q
  load_same a b r q same is_r is_q =
      let (bytes, at_a, found) = load_decoded c disk a is_r in
      let (others, at_b, again) = load_decoded c disk b is_q in
      let one : bytes ≡ others = ok-injective (sym (rw same at at_a) ∙ at_b) in
      let both : ◌≡◌ {A = Option Receipt} (some r) (some q) = sym found ∙ ap c.decode one ∙ again in
      cc

  -- A receipt loads under `a` and names `b` as a parent.
  pub record IsParent (b a : ReceiptRef) : Type 0 where
    pub receipt : Receipt
    pub loaded : load c disk a ≡ ok receipt
    pub named : Memᴰ b receipt.parents

  pub data Descends : ReceiptRef → ReceiptRef → Type 0 where
    child : {a b : ReceiptRef} → IsParent b a → Descends a b
    further : {a b d : ReceiptRef} → IsParent b a → Descends b d → Descends a d

  pub Descends-parent : {a b d : ReceiptRef} → Descends a b → IsParent d b → Descends a d
  Descends-parent (child e) last = further e (child last)
  Descends-parent (further e rest) last = further e (Descends-parent rest last)

  -- The reference and its ancestors over fewer than `levels` generations, and there are no more, load; and all their
  -- digests are among the known ones.
  unfoldable pub IsGrounded : List String → ℕ → ReceiptRef → Type 0
  IsGrounded known zero ref = ⊥
  IsGrounded known (suc levels) ref =
      (contains known ref.digest ≡ true)
      × ((receipt : Receipt) × (load c disk ref ≡ ok receipt)
          × All (IsGrounded known levels) receipt.parents)

  IsParent-moved :
      {a b p : ReceiptRef} {q : Receipt}
      → IsParent p a
      → b.digest ≡ a.digest
      → load c disk b ≡ ok q
      → IsParent p b
  IsParent-moved {a} {b} {p} {q} e same is_q =
      let one : e.receipt ≡ q = load_same a b e.receipt q (sym same) e.loaded is_q in
      record { receipt = e.receipt; loaded = is_q ∙ ap ok (sym one); named = e.named }

  module _ (known : List String) where
    IsGrounded-loads :
        (levels : ℕ) (a : ReceiptRef)
        → IsGrounded known levels a
        → (r : Receipt) × (load c disk a ≡ ok r)
    unfolding IsGrounded
    IsGrounded-loads zero a g = absurd g
    IsGrounded-loads (suc levels) a (here, (r, loaded, all)) = (r, loaded)

    IsGrounded-parent :
        (levels : ℕ) {a b : ReceiptRef}
        → IsGrounded known (suc levels) a
        → IsParent b a
        → IsGrounded known levels b
    unfolding IsGrounded
    IsGrounded-parent levels {b = b} (here, (r, loaded, parents)) e =
        let one : ◌≡◌ {A = Outcome IntegrityError Receipt} (ok e.receipt) (ok r) =
          sym e.loaded ∙ loaded in
        All-member (IsGrounded known levels) r.parents parents
          (subst (λ x. Memᴰ b x.parents) (ok-injective one) e.named)

    descendant_loads :
        (levels : ℕ) {a b : ReceiptRef}
        → IsGrounded known levels a
        → Descends a b
        → (r : Receipt) × (load c disk b ≡ ok r)
    unfolding IsGrounded
    descendant_loads zero g d = absurd g
    descendant_loads (suc levels) {b = b} g (child e) =
        IsGrounded-loads levels b (IsGrounded-parent levels g e)
    descendant_loads (suc levels) g (further e rest) =
        descendant_loads levels (IsGrounded-parent levels g e) rest

    -- No ancestor has the digest of the reference itself.
    pub acyclic :
        (levels : ℕ) (a b : ReceiptRef)
        → IsGrounded known levels a
        → Descends a b
        → b.digest ≢ a.digest
    unfolding IsGrounded
    acyclic zero a b g d same = absurd g
    acyclic (suc levels) a b g (child e) same =
        let below = IsGrounded-parent levels g e in
        let (q, is_q) = IsGrounded-loads levels b below in
        acyclic levels b b below (child (IsParent-moved e same is_q)) refl
    acyclic (suc levels) a b g (further {b = p} e rest) same =
        let below = IsGrounded-parent levels g e in
        let (q, is_q) = descendant_loads levels below rest in
        acyclic levels p p below (Descends-parent rest (IsParent-moved e same is_q)) refl
