-- ===== src/Saga/Guarded.antt =====
-- The order of the steps of `apply` (taskguard/v3/saga.py): what must hold before the adapter is called.
use bricek4_ligong_skills.Base.{ℕ, ◌+◌, String, ◌≡◌, sym, subst, ap, ◌∙◌, inl, inr, true, ok, ℤ}
use bricek4_ligong_skills.Receipts.{ReceiptRef, Receipt}
use bricek4_ligong_skills.Store.{load}
use bricek4_ligong_skills.Saga.{
  Services, World, Saga, ◌>>=◌, now, require_apply_bindings, is_plan_for, authorizes_apply,
  is_ready_for, is_fresh,
}
use bricek4_ligong_skills.Saga.Quiet.{bind-Went}
use bricek4_ligong_skills.Saga.Returns.{refuse-passed, not-false, load_receipt-returned}

pub bind-returned :
    {A B : Type 0} (m : Saga A) (f : A → Saga B) (w : World) {b : B} {w' : World}
    → (m >>= f) w ≡ (ok b, w')
    → (a : A) × (v : World) × (m w ≡ (ok a, v)) × (f a v ≡ (ok b, w'))
bind-returned m f w h = elim (bind-Went m f w h) [ inl (e, raised, same) ↦ cc | inr found ↦ found ]

-- The three receipts are on disk and bound to the target, and the readiness is fresh at the next reading
-- of the clock.
pub record IsBound (s : Services) (plan_ref authority_ref readiness_ref : ReceiptRef)
    (target : String) (max_age : ℕ) (w : World) : Type 0 where
  pub plan : Receipt
  pub authority : Receipt
  pub readiness : Receipt
  pub plan_loaded : load s.codec w.disk plan_ref ≡ ok plan
  pub authority_loaded : load s.codec w.disk authority_ref ≡ ok authority
  pub readiness_loaded : load s.codec w.disk readiness_ref ≡ ok readiness
  pub plan_bound : is_plan_for s target plan ≡ true
  pub apply_authorized : authorizes_apply s plan_ref target authority ≡ true
  pub rollback_ready : is_ready_for s plan_ref authority_ref target readiness ≡ true
  pub fresh : is_fresh s (s.clock w.ticks) readiness max_age ≡ true

now-returned :
    (s : Services) (w : World) {t : ℤ} {v : World}
    → now s w ≡ (ok t, v)
    → (s.clock w.ticks ≡ t) × (record w { ticks = w.ticks + 1 } ≡ v)
unfolding now
now-returned s w h = (cc, ap (λ q. q.1) h)

pub require_apply_bindings-returned :
    (s : Services) (plan_ref authority_ref readiness_ref : ReceiptRef) (target : String)
    (max_age : ℕ) (w : World) {u : Unit {0}} {v : World}
    → require_apply_bindings s plan_ref authority_ref readiness_ref target max_age w ≡ (ok u, v)
    → IsBound s plan_ref authority_ref readiness_ref target max_age w
      × (record w { ticks = w.ticks + 1 } ≡ v)
unfolding require_apply_bindings
require_apply_bindings-returned s plan_ref authority_ref readiness_ref target max_age w {u} {v} h =
    let (plan, v₁, h₁, k₁) = bind-returned _ _ w h in
    let (authority, v₂, h₂, k₂) = bind-returned _ _ v₁ k₁ in
    let (readiness, v₃, h₃, k₃) = bind-returned _ _ v₂ k₂ in
    let (u₄, v₄, h₄, k₄) = bind-returned _ _ v₃ k₃ in
    let (u₅, v₅, h₅, k₅) = bind-returned _ _ v₄ k₄ in
    let (u₆, v₆, h₆, k₆) = bind-returned _ _ v₅ k₅ in
    let (t, v₇, h₇, k₇) = bind-returned _ _ v₆ k₆ in
    let (l₁, w₁) = load_receipt-returned s plan_ref w h₁ in
    let (l₂, w₂) = load_receipt-returned s authority_ref v₁ h₂ in
    let (l₃, w₃) = load_receipt-returned s readiness_ref v₂ h₃ in
    let (b₁, w₄) = refuse-passed _ _ v₃ h₄ in
    let (b₂, w₅) = refuse-passed _ _ v₄ h₅ in
    let (b₃, w₆) = refuse-passed _ _ v₅ h₆ in
    let (c, w₇) = now-returned s v₆ h₇ in
    let (b₄, w₈) = refuse-passed _ _ v₇ k₇ in
    let same = w₁ ∙ w₂ ∙ w₃ ∙ w₄ ∙ w₅ ∙ w₆ in
    (
      record {
        plan = plan;
        authority = authority;
        readiness = readiness;
        plan_loaded = l₁;
        authority_loaded =
            subst (λ (x : World). load s.codec x.disk authority_ref ≡ ok authority) (sym w₁) l₂;
        readiness_loaded =
            subst (λ (x : World). load s.codec x.disk readiness_ref ≡ ok readiness) (sym (w₁ ∙ w₂))
              l₃;
        plan_bound = not-false _ b₁;
        apply_authorized = not-false _ b₂;
        rollback_ready = not-false _ b₃;
        fresh =
            subst (λ x. is_fresh s x readiness max_age ≡ true)
              (sym c ∙ sym (ap (λ (x : World). s.clock x.ticks) same)) (not-false _ b₄);
      },
      ap (λ (x : World). record x { ticks = x.ticks + 1 }) same ∙ w₇ ∙ w₈,
    )
