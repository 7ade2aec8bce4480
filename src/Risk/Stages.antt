-- ===== src/Risk/Stages.antt =====
-- Consecutive stages of the risk fuse (taskguard/risk.py).
use bricek4_ligong_skills.Base.{
  String, ◌≡◌, subst, ap, ◌∙◌, true, Option, none, some, List, ◌∷◌, eq_refl, ok, >>=-eq-ok,
  ok-injective, raise_if, is_sha256,
}
use bricek4_ligong_skills.Risk.{Stage, initial, diff, final, TaskCapsule}
use bricek4_ligong_skills.Risk.Fuse.{
  StageResult, RiskResult, stage_result, chain_of, validate_chain, checked_previous, signed,
  evaluate_capsule,
}
use bricek4_ligong_skills.Risk.Blockers.{follows}
use bricek4_ligong_skills.Risk.Admission.{admitted_iff}

accepted :
    (digest : StageResult → List StageResult → String)
    → ((x : StageResult) (xs : List StageResult) → is_sha256 (digest x xs) ≡ true)
    → (c : TaskCapsule) (s : Stage) (p : Option RiskResult) → checked_previous digest c s p ≡ ok tt
    → follows s p ≡ true
    → validate_chain digest c.task_id s
        ((signed digest (stage_result c s p) (chain_of p)).top ∷ chain_of p)
      ≡ ok tt
unfolding validate_chain stage_result raise_if
accepted digest hex c initial none checked f = rw (hex _ _, eq_refl, eq_refl)
accepted digest hex c initial (some p) checked f = cc
accepted digest hex c diff none checked f = cc
accepted digest hex c final none checked f = cc
accepted digest hex c diff (some p) checked f = rw (hex _ _, eq_refl, eq_refl) checked
accepted digest hex c final (some p) checked f = rw (hex _ _, eq_refl, eq_refl) checked

-- An admitted result is accepted as the previous result of its task's next stage, whatever stages it nests,
-- if `digest` answers in the form of a SHA-256 digest.
pub admitted_chain_accepted :
    (digest : StageResult → List StageResult → String)
    → ((x : StageResult) (xs : List StageResult) → is_sha256 (digest x xs) ≡ true)
    → (c : TaskCapsule) (s : Stage) (previous : Option RiskResult) {r : RiskResult}
    → evaluate_capsule digest c s previous ≡ ok r
    → r.top.admitted ≡ true
    → validate_chain digest c.task_id s (r.top ∷ r.nested) ≡ ok tt
unfolding evaluate_capsule
admitted_chain_accepted digest hex c s previous h admitted =
    let (_, checked, result) = >>=-eq-ok (checked_previous digest c s previous) _ h in
    let same = ok-injective result in
    subst (λ q. validate_chain digest c.task_id s (q.top ∷ q.nested) ≡ ok tt) same
      (accepted digest hex c s previous checked
        ((admitted_iff c s previous).0
          (ap (λ (q : RiskResult). q.top.admitted) same ∙ admitted)).after_admitted)
