-- ===== src/Risk/Monotone.antt =====
-- What a stage of the risk fuse takes over from the one before it (taskguard/risk.py).
use bricek4_ligong_skills.Base.{
  ℕ, zero, suc, ◌≤◌, String, ◌≡◌, refl, sym, subst, ap, ◌∙◌, not, ◌&&◌, ◌||◌, Option, none, some,
  List, [], ◌∷◌, ◌++◌, arith, eq_iff, ok, >>=-eq-ok, ok-injective, Value, contains, contains-append,
}
use bricek4_ligong_skills.Risk.{Level, index, Stage, parse_stage, TaskCapsule}
use bricek4_ligong_skills.Risk.Capsule.{validate_capsule}
use bricek4_ligong_skills.Risk.Fuse.{
  StageResult, RiskResult, first_seen, ordered_union, level_at, hard_of, soft_of, hard_of_previous,
  soft_of_previous, floor_of, effective_index, stage_result, chain_of, checked_previous,
  known_stage, signed, evaluate_capsule, evaluate_risk,
}

contains-first_seen :
    (seen xs : List String) (a : String)
    → contains (first_seen seen xs) a ≡ (not (contains seen a) && contains xs a)
unfolding first_seen contains
contains-first_seen seen [] a = ground arith
contains-first_seen seen (x ∷ xs) a =
    ground (arith, eq_iff x a, contains-first_seen seen xs a, contains-first_seen (x ∷ seen) xs a)

-- The union holds what either list holds.
pub contains-ordered_union :
    (first second : List String) (a : String)
    → contains (ordered_union first second) a ≡ (contains first a || contains second a)
unfolding ordered_union contains
contains-ordered_union first second a =
    contains-first_seen [] (first ++ second) a ∙ contains-append first second a

index-le : (d : Level) → index d ≤ 3
index-le d = ground arith

floor_of-le : (d : Level) (ts ss : List String) → floor_of d ts ss ≤ 3
floor_of-le d ts ss = ground arith

effective_index-le :
    (d : Level) (p : Option RiskResult) (ts ss : List String) → effective_index d p ts ss ≤ 3
unfolding effective_index
effective_index-le d none ts ss = omega (arith, index-le d, floor_of-le d ts ss)
effective_index-le d (some p) ts ss =
    omega (arith, index-le d, index-le p.top.effective_risk, floor_of-le d ts ss)

index-level_at : (n : ℕ) → n ≤ 3 → index (level_at n) ≡ n
index-level_at zero h = refl
index-level_at (suc zero) h = refl
index-level_at (suc (suc zero)) h = refl
index-level_at (suc (suc (suc n))) h = omega arith

-- The effective level of a stage, as a number.
index-effective :
    (c : TaskCapsule) (s : Stage) (p : Option RiskResult)
    → index (stage_result c s p).effective_risk
      ≡ effective_index c.risk p
          (stage_result c s p).hard_triggers
          (stage_result c s p).soft_signals
unfolding stage_result
index-effective c s p =
    let ts = ordered_union (hard_of_previous p) (hard_of c.signals) in
    let ss = ordered_union (soft_of_previous p) (soft_of c.signals) in
    index-level_at (effective_index c.risk p ts ss) (effective_index-le c.risk p ts ss)

-- What the levels and the lists of a stage may not fall below.
pub record IsAbove (c : TaskCapsule) (previous : Option RiskResult) (r : StageResult) : Type 0 where
  pub declared : index c.risk ≤ index r.effective_risk
  pub earlier :
      (p : RiskResult) → previous ≡ some p → index p.top.effective_risk ≤ index r.effective_risk
  pub triggers_kept :
      (a : String)
      → contains r.hard_triggers a
        ≡ (contains (hard_of_previous previous) a || contains (hard_of c.signals) a)
  pub soft_kept :
      (a : String)
      → contains r.soft_signals a
        ≡ (contains (soft_of_previous previous) a || contains (soft_of c.signals) a)
  pub at_least_floor : floor_of c.risk r.hard_triggers r.soft_signals ≤ index r.effective_risk

-- The three parts of the maximum.
effective_index-ge :
    (d : Level) (p : Option RiskResult) (ts ss : List String)
    → (index d ≤ effective_index d p ts ss) × (floor_of d ts ss ≤ effective_index d p ts ss)
unfolding effective_index
effective_index-ge d none ts ss = (omega arith, omega arith)
effective_index-ge d (some p) ts ss = (omega arith, omega arith)

abbrev level_of : Option RiskResult → ℕ
level_of none = 0
level_of (some p) = index p.top.effective_risk

effective_index-ge_previous :
    (d : Level) (o : Option RiskResult) (p : RiskResult) (ts ss : List String)
    → o ≡ some p
    → index p.top.effective_risk ≤ effective_index d o ts ss
unfolding effective_index
effective_index-ge_previous d none p ts ss e = cc
effective_index-ge_previous d (some q) p ts ss e = omega (arith, ap level_of e)

pub stage_result-IsAbove :
    (c : TaskCapsule) (s : Stage) (p : Option RiskResult) → IsAbove c p (stage_result c s p)
unfolding stage_result
stage_result-IsAbove c s p =
    let ts = ordered_union (hard_of_previous p) (hard_of c.signals) in
    let ss = ordered_union (soft_of_previous p) (soft_of c.signals) in
    let level = index-effective c s p in
    let parts = effective_index-ge c.risk p ts ss in
    record {
      declared = rw level parts.0;
      earlier = λ q e. rw level (effective_index-ge_previous c.risk p q ts ss e);
      triggers_kept = λ a. contains-ordered_union (hard_of_previous p) (hard_of c.signals) a;
      soft_kept = λ a. contains-ordered_union (soft_of_previous p) (soft_of c.signals) a;
      at_least_floor = rw level parts.1;
    }

known_stage-ok :
    (digest : StageResult → List StageResult → String) (o : Option Stage) {s : Stage}
    → known_stage digest o ≡ ok s
    → o ≡ some s
known_stage-ok digest none h = cc
known_stage-ok digest (some s) h = ap some (ok-injective h)

-- Behind the checks of `evaluate_risk` stands one stage.
pub evaluated :
    (digest : StageResult → List StageResult → String) (capsule : Value) (stage : String)
    (previous : Option RiskResult) {r : RiskResult}
    → evaluate_risk digest capsule stage previous ≡ ok r
    → (s : Stage) × (c : TaskCapsule) × (parse_stage stage ≡ some s)
      × (validate_capsule capsule ≡ ok c)
      × (checked_previous digest c s previous ≡ ok tt)
      × (signed digest (stage_result c s previous) (chain_of previous) ≡ r)
unfolding evaluate_risk evaluate_capsule
evaluated digest capsule stage previous h =
    let (s, known, h₁) = >>=-eq-ok (known_stage digest (parse_stage stage)) _ h in
    let (c, valid, h₂) = >>=-eq-ok (validate_capsule capsule) _ h₁ in
    let (_, checked, h₃) = >>=-eq-ok (checked_previous digest c s previous) _ h₂ in
    (s, c, known_stage-ok digest (parse_stage stage) known, valid, checked, ok-injective h₃)

unsigned_IsAbove :
    (digest : StageResult → List StageResult → String) (c : TaskCapsule) (s : Stage)
    (p : Option RiskResult)
    → IsAbove c p (stage_result c s p)
    → IsAbove c p (signed digest (stage_result c s p) (chain_of p)).top
unsigned_IsAbove digest c s p h = record {
  declared = h.declared;
  earlier = h.earlier;
  triggers_kept = h.triggers_kept;
  soft_kept = h.soft_kept;
  at_least_floor = h.at_least_floor;
}

-- The fuse goes one way: whatever a capsule says at a later stage, the effective level of its result is at
-- least the declared level, at least that of the previous stage, and at least the floor that the hard
-- triggers and the soft signals set; its triggers and soft signals are exactly those of the previous
-- stage and those of the capsule; and it nests the previous stages unchanged.
pub fuse_one_way :
    (digest : StageResult → List StageResult → String) (capsule : Value) (stage : String)
    (previous : Option RiskResult) {r : RiskResult}
    → evaluate_risk digest capsule stage previous ≡ ok r
    → (c : TaskCapsule) × (validate_capsule capsule ≡ ok c)
      × IsAbove c previous r.top
      × (r.nested ≡ chain_of previous)
fuse_one_way digest capsule stage previous {r} h =
    let (s, c, known, valid, checked, same) = evaluated digest capsule stage previous h in
    let above = stage_result-IsAbove c s previous in
    (
      c,
      valid,
      subst (λ q. IsAbove c previous q.top) same (unsigned_IsAbove digest c s previous above),
      ap (λ (q : RiskResult). q.nested) (sym same),
    )
