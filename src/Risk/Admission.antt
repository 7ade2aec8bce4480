-- ===== src/Risk/Admission.antt =====
-- When the risk fuse admits a stage (taskguard/risk.py).
use bricek4_ligong_skills.Base.{
  ℕ, ◌≤◌, String, ◌≡◌, refl, sym, subst, ap, ◌∙◌, ◌↔◌, Bool, true, false, not, ◌&&◌, Option, some,
  List, arith, ok, Value, contains, select, all, all-contains, all_of_contains, and-true, and-intro,
  leb,
}
use bricek4_ligong_skills.Risk.{
  Level, index, Stage, initial, diff, final, parse_stage, hard_l3, TaskCapsule,
}
use bricek4_ligong_skills.Risk.Capsule.{validate_capsule}
use bricek4_ligong_skills.Risk.Fuse.{
  StageResult, RiskResult, is_final, stage_result, chain_of, signed, evaluate_risk,
}
use bricek4_ligong_skills.Risk.Monotone.{stage_result-IsAbove, evaluated}
use bricek4_ligong_skills.Risk.Blockers.{
  contains-select, is_bound, follows, clear_test, is_empty-blockers_of,
}

-- What an admitted stage fulfils.
pub record IsAdmissible (c : TaskCapsule) (s : Stage) (p : Option RiskResult) (r : StageResult)
    : Type 0 where
  pub exact_level : r.effective_risk ≡ c.risk
  pub after_admitted : follows s p ≡ true
  pub scope_kept : contains c.signals "scope_expansion" ≡ false
  pub no_conflict : s ≡ final → contains r.soft_signals "evidence_conflict" ≡ false
  pub actions_bound :
      (signal : String)
      → contains r.hard_triggers signal ≡ true
      → contains hard_l3 signal ≡ true
      → is_bound c signal ≡ true

same_level : (a b : Level) → index a ≤ index b → index b ≤ index a → a ≡ b
same_level a b h k = ground arith

leb→le : (a b : ℕ) → leb a b ≡ true → a ≤ b
leb→le a b h = ground arith

leb_refl : (a : ℕ) → leb a a ≡ true
leb_refl a = ground arith

not-true : (b : Bool) → not b ≡ true → b ≡ false
not-true b h = ground arith

conflict_free : (s : Stage) (b : Bool) → s ≡ final → not (is_final s && b) ≡ true → b ≡ false
conflict_free s b e h = ground arith

conflict_test : (s : Stage) (b : Bool) → (s ≡ final → b ≡ false) → not (is_final s && b) ≡ true
conflict_test initial b h = refl
conflict_test diff b h = refl
conflict_test final b h = rw (h refl)

module _ (c : TaskCapsule) (s : Stage) (p : Option RiskResult) where
  admitted_test : (stage_result c s p).admitted ≡ (
      leb (index (stage_result c s p).effective_risk) (index c.risk)
      && clear_test c s p (stage_result c s p).hard_triggers (stage_result c s p).soft_signals)
  unfolding stage_result
  admitted_test =
      ap (λ b. leb (index (stage_result c s p).effective_risk) (index c.risk) && b)
        (is_empty-blockers_of c s p _ _)

  -- The tests behind an empty list of blockers, as statements.
  record IsClear (triggers signals : List String) : Type 0 where
    after_admitted : follows s p ≡ true
    scope_kept : contains c.signals "scope_expansion" ≡ false
    no_conflict : s ≡ final → contains signals "evidence_conflict" ≡ false
    actions_bound :
        (signal : String)
        → contains triggers signal ≡ true
        → contains hard_l3 signal ≡ true
        → is_bound c signal ≡ true

  is_clear :
      (triggers signals : List String)
      → clear_test c s p triggers signals ≡ true
      → IsClear triggers signals
  is_clear triggers signals h =
      let (after, rest) = and-true (follows s p) _ h in
      let (flags, bound) =
        and-true
          (not (contains c.signals "scope_expansion")
            && not (is_final s && contains signals "evidence_conflict"))
          (all (is_bound c) (select (contains hard_l3) triggers)) rest in
      let (scope, conflict) =
        and-true (not (contains c.signals "scope_expansion"))
          (not (is_final s && contains signals "evidence_conflict")) flags in
      record {
        after_admitted = after;
        scope_kept = not-true (contains c.signals "scope_expansion") scope;
        no_conflict = λ e. conflict_free s (contains signals "evidence_conflict") e conflict;
        actions_bound = λ signal m k.
            all-contains (is_bound c) (select (contains hard_l3) triggers) signal bound
              (contains-select (contains hard_l3) triggers signal ∙ and-intro m k);
      }

  clear_again :
      (triggers signals : List String)
      → IsClear triggers signals
      → clear_test c s p triggers signals ≡ true
  clear_again triggers signals a = and-intro a.after_admitted (
      and-intro
        (and-intro (rw a.scope_kept)
          (conflict_test s (contains signals "evidence_conflict") a.no_conflict))
        (all_of_contains (is_bound c) (select (contains hard_l3) triggers) λ signal m.
          let (there, level) =
            and-true (contains triggers signal) (contains hard_l3 signal)
              (sym (contains-select (contains hard_l3) triggers signal) ∙ m) in
          a.actions_bound signal there level))

  pub admitted_iff :
      ((stage_result c s p).admitted ≡ true) ↔ IsAdmissible c s p (stage_result c s p)
  admitted_iff =
      let r = stage_result c s p in
      (
        λ h.
            let (low, clear) =
              and-true (leb (index r.effective_risk) (index c.risk))
                (clear_test c s p r.hard_triggers r.soft_signals) (sym admitted_test ∙ h) in
            let free = is_clear r.hard_triggers r.soft_signals clear in
            record {
              exact_level =
                  same_level r.effective_risk c.risk (leb→le _ _ low)
                    (stage_result-IsAbove c s p).declared;
              after_admitted = free.after_admitted;
              scope_kept = free.scope_kept;
              no_conflict = free.no_conflict;
              actions_bound = free.actions_bound;
            },
        λ a.
            admitted_test
            ∙ and-intro (rw a.exact_level (leb_refl (index c.risk))) (
                clear_again r.hard_triggers r.soft_signals (record {
                  after_admitted = a.after_admitted;
                  scope_kept = a.scope_kept;
                  no_conflict = a.no_conflict;
                  actions_bound = a.actions_bound;
                })),
      )

signed-IsAdmissible :
    (digest : StageResult → List StageResult → String) (c : TaskCapsule) (s : Stage)
    (p : Option RiskResult)
    → IsAdmissible c s p (stage_result c s p)
    → IsAdmissible c s p (signed digest (stage_result c s p) (chain_of p)).top
signed-IsAdmissible digest c s p a = record {
  exact_level = a.exact_level;
  after_admitted = a.after_admitted;
  scope_kept = a.scope_kept;
  no_conflict = a.no_conflict;
  actions_bound = a.actions_bound;
}

unsigned-IsAdmissible :
    (digest : StageResult → List StageResult → String) (c : TaskCapsule) (s : Stage)
    (p : Option RiskResult)
    → IsAdmissible c s p (signed digest (stage_result c s p) (chain_of p)).top
    → IsAdmissible c s p (stage_result c s p)
unsigned-IsAdmissible digest c s p a = record {
  exact_level = a.exact_level;
  after_admitted = a.after_admitted;
  scope_kept = a.scope_kept;
  no_conflict = a.no_conflict;
  actions_bound = a.actions_bound;
}

-- A stage is admitted exactly when its effective level is the declared one, the previous stage (but for
-- the initial one) is given and admitted, the capsule signals no scope expansion, no contradictory
-- evidence has been signalled up to the final stage, and every trigger of level 3, of this stage or of an
-- earlier one, names an action of the capsule for each of which there is an authority with the same action,
-- target, environment and scope.
pub admitted_exactly :
    (digest : StageResult → List StageResult → String) (capsule : Value) (stage : String)
    (previous : Option RiskResult) {r : RiskResult}
    → evaluate_risk digest capsule stage previous ≡ ok r
    → (s : Stage) × (c : TaskCapsule) × (parse_stage stage ≡ some s)
      × (validate_capsule capsule ≡ ok c)
      × ((r.top.admitted ≡ true) ↔ IsAdmissible c s previous r.top)
admitted_exactly digest capsule stage previous {r} h =
    let (s, c, known, valid, checked, same) = evaluated digest capsule stage previous h in
    let test = admitted_iff c s previous in
    (
      s,
      c,
      known,
      valid,
      subst (λ q. (q.top.admitted ≡ true) ↔ IsAdmissible c s previous q.top) same
          (
            λ k. signed-IsAdmissible digest c s previous (test.0 k),
            λ a. test.1 (unsigned-IsAdmissible digest c s previous a),
          ),
    )
