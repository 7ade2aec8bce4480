-- ===== src/Risk/Blockers.antt =====
-- When a stage has no blockers (taskguard/risk.py).
use bricek4_ligong_skills.Base.{
  String, ◌≡◌, refl, ap₂, ◌∙◌, Bool, true, false, not, ◌&&◌, Option, none, some, List, [], ◌∷◌, map,
  arith, eq_iff, contains, select, reject, is_empty-reject, is_empty, is_empty-append, all,
  if◌then◌else◌,
}
use bricek4_ligong_skills.Risk.{Stage, initial, hard_l3, TaskCapsule}
use bricek4_ligong_skills.Risk.Fuse.{
  RiskResult, matching, is_granted, missing_authority, signal_blockers, authority_blockers,
  stage_blockers, signal_flags, is_final, blockers_of,
}

pub contains-select :
    (p : String → Bool) (xs : List String) (a : String)
    → contains (select p xs) a ≡ (contains xs a && p a)
unfolding contains
contains-select p [] a = refl
contains-select p (x ∷ xs) a = ground (arith, eq_iff x a, contains-select p xs a)

is_empty-map : {A : Type 0} (f : A → String) (xs : List A) → is_empty (map f xs) ≡ is_empty xs
is_empty-map f [] = refl
is_empty-map f (x ∷ xs) = refl

is_empty-flag : (b : Bool) (x : String) → is_empty (if b then x ∷ [] else []) ≡ not b
is_empty-flag true x = refl
is_empty-flag false x = refl

-- A trigger of level 3 for which the capsule names actions, each with an authority of the same key.
abbrev pub is_bound : TaskCapsule → String → Bool
is_bound c signal =
    not (is_empty (matching signal c.external_actions))
    && all (is_granted c.authority) (matching signal c.external_actions)

is_empty-signal_blockers :
    (c : TaskCapsule) (signal : String) → is_empty (signal_blockers c signal) ≡ is_bound c signal
is_empty-signal_blockers c signal =
    let actions = matching signal c.external_actions in
    is_empty-append _ (missing_authority signal c.authority actions)
    ∙ ap₂ ◌&&◌ (is_empty-flag (is_empty actions) _) (
        is_empty-map _ (reject (is_granted c.authority) actions)
        ∙ is_empty-reject (is_granted c.authority) actions)

is_empty-authority_blockers :
    (c : TaskCapsule) (signals : List String)
    → is_empty (authority_blockers c signals) ≡ all (is_bound c) signals
unfolding authority_blockers
is_empty-authority_blockers c [] = refl
is_empty-authority_blockers c (signal ∷ signals) =
    is_empty-append (signal_blockers c signal) (authority_blockers c signals)
    ∙ ap₂ ◌&&◌ (is_empty-signal_blockers c signal) (is_empty-authority_blockers c signals)

-- The previous stage is there and admitted, if the stage has one.
abbrev pub follows : Stage → Option RiskResult → Bool
follows initial previous = true
follows _ none = false
follows _ (some p) = p.top.admitted

is_empty-stage_blockers :
    (s : Stage) (p : Option RiskResult) → is_empty (stage_blockers s p) ≡ follows s p
is_empty-stage_blockers s p = ground arith

is_empty-signal_flags :
    (c : TaskCapsule) (s : Stage) (signals : List String)
    → is_empty (signal_flags c s signals) ≡ (
        not (contains c.signals "scope_expansion")
        && not (is_final s && contains signals "evidence_conflict"))
is_empty-signal_flags c s signals =
    is_empty-append _ (
      if is_final s && contains signals "evidence_conflict"
      then "contradictory_evidence" ∷ []
      else [])
    ∙ ap₂ ◌&&◌ (is_empty-flag (contains c.signals "scope_expansion") _)
        (is_empty-flag (is_final s && contains signals "evidence_conflict") _)

abbrev pub clear_test : TaskCapsule → Stage → Option RiskResult → List String → List String → Bool
clear_test c s p triggers signals =
    follows s p
    && ((not (contains c.signals "scope_expansion")
          && not (is_final s && contains signals "evidence_conflict"))
        && all (is_bound c) (select (contains hard_l3) triggers))

pub is_empty-blockers_of :
    (c : TaskCapsule) (s : Stage) (p : Option RiskResult) (triggers signals : List String)
    → is_empty (blockers_of c s p triggers signals) ≡ clear_test c s p triggers signals
unfolding blockers_of
is_empty-blockers_of c s p triggers signals =
    is_empty-append (stage_blockers s p) _
    ∙ ap₂ ◌&&◌ (is_empty-stage_blockers s p) (
        is_empty-append (signal_flags c s signals)
          (authority_blockers c (select (contains hard_l3) triggers))
        ∙ ap₂ ◌&&◌ (is_empty-signal_flags c s signals)
            (is_empty-authority_blockers c (select (contains hard_l3) triggers)))
