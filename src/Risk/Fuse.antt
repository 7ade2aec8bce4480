-- ===== src/Risk/Fuse.antt =====
-- `evaluate_risk` of taskguard/risk.py: one stage of the one-way risk fuse.
use Prim.Native.Nat.{max}
use bricek4_ligong_skills.Base.{
  ℕ, zero, suc, String, Bool, true, false, not, ◌&&◌, Option, none, some, List, [], ◌∷◌, ◌++◌, ◌==◌,
  Outcome, ok, err, ◌>>=◌, ◌>>◌, raise_if, Value, contains, any, select, reject, is_empty, length,
  leb, eqb, map, is_sha256, ◌+++◌, if◌then◌else◌,
}
use bricek4_ligong_skills.Risk.{
  Level, l0, l1, l2, l3, index, Stage, initial, diff, final, parse_stage, stage_previous, hard_l2,
  hard_l3, soft, base_guards, Action, Authority, TaskCapsule, same_action, CapsuleError, bad_stage,
  unexpected_previous, bad_digest, wrong_previous,
}
use bricek4_ligong_skills.Risk.Capsule.{validate_capsule, grants}

-- A risk result without its `previous`.
pub record StageResult : Type 0 where
  pub task_id : String
  pub stage : Stage
  pub declared_risk : Level
  pub effective_risk : Level
  pub hard_triggers : List String
  pub soft_signals : List String
  pub blockers : List String
  pub guards : List String
  pub independent_review : Bool
  pub admitted : Bool
  pub result_digest : String

-- A risk result: this stage, and those that `previous` nests, from the latest to the first. Its type
-- stands for the exact schema that `_validate_previous` asks of the raw value.
pub record RiskResult : Type 0 where
  pub top : StageResult
  pub nested : List StageResult

abbrev pub same_stage : Stage → Stage → Bool
same_stage initial initial = true
same_stage diff diff = true
same_stage final final = true
same_stage _ _ = false

-- `list(dict.fromkeys([*first, *second]))`
unfoldable pub first_seen : List String → List String → List String
first_seen seen [] = []
first_seen seen (x ∷ xs) =
    let rest = first_seen (if contains seen x then seen else x ∷ seen) xs in
    if contains seen x then rest else x ∷ rest

unfoldable pub ordered_union : List String → List String → List String
unfolding first_seen
ordered_union first second = first_seen [] (first ++ second)

-- `_RISKS[n]` for the indices that occur.
abbrev pub level_at : ℕ → Level
level_at zero = l0
level_at (suc zero) = l1
level_at (suc (suc zero)) = l2
level_at (suc (suc (suc n))) = l3

abbrev pub hard_of : List String → List String
hard_of signals = select (contains (hard_l2 ++ hard_l3)) signals

abbrev pub soft_of : List String → List String
soft_of signals = select (contains soft) signals

abbrev pub hard_of_previous : Option RiskResult → List String
hard_of_previous none = []
hard_of_previous (some p) = p.top.hard_triggers

abbrev pub soft_of_previous : Option RiskResult → List String
soft_of_previous none = []
soft_of_previous (some p) = p.top.soft_signals

abbrev pub with_previous : ℕ → Option RiskResult → ℕ
with_previous n none = n
with_previous n (some p) = max n (index p.top.effective_risk)

-- The floor that the triggers and the soft signals set.
abbrev pub floor_of : Level → List String → List String → ℕ
floor_of declared triggers signals =
    if not (is_empty (select (contains hard_l3) triggers))
    then 3
    else if not (is_empty (select (contains hard_l2) triggers))
    then 2
    else if leb 2 (length signals)
    then (if eqb (index declared) 0 then 1 else 2)
    else 0

unfoldable pub effective_index : Level → Option RiskResult → List String → List String → ℕ
effective_index declared previous triggers signals =
    max (with_previous (index declared) previous) (floor_of declared triggers signals)

-- `[item for item in actions.values() if item["action"] == signal]`
abbrev pub matching : String → List Action → List Action
matching signal actions = select (λ a. a.action == signal) actions

abbrev pub is_granted : List Authority → Action → Bool
is_granted authority a = any (same_action a) (grants authority)

abbrev pub missing_authority : String → List Authority → List Action → List String
missing_authority signal authority actions =
    map (λ a. "missing_authority:" +++ (signal +++ (":" +++ a.target)))
      (reject (is_granted authority) actions)

abbrev pub signal_blockers : TaskCapsule → String → List String
signal_blockers c signal =
    (if is_empty (matching signal c.external_actions)
      then ("missing_action_binding:" +++ signal) ∷ []
      else [])
    ++ missing_authority signal c.authority (matching signal c.external_actions)

-- The loop over the triggers of level 3.
unfoldable pub authority_blockers : TaskCapsule → List String → List String
authority_blockers c [] = []
authority_blockers c (signal ∷ signals) = signal_blockers c signal ++ authority_blockers c signals

abbrev pub stage_blockers : Stage → Option RiskResult → List String
stage_blockers initial previous = []
stage_blockers _ none = "previous_stage_result_required" ∷ []
stage_blockers _ (some p) = if p.top.admitted then [] else "previous_stage_not_admitted" ∷ []

abbrev pub is_final : Stage → Bool
is_final final = true
is_final _ = false

abbrev pub signal_flags : TaskCapsule → Stage → List String → List String
signal_flags c stage signals =
    (if contains c.signals "scope_expansion" then "scope_reconfirmation_required" ∷ [] else [])
    ++ (if is_final stage && contains signals "evidence_conflict"
        then "contradictory_evidence" ∷ []
        else [])

unfoldable pub blockers_of :
    TaskCapsule → Stage → Option RiskResult → List String → List String → List String
unfolding authority_blockers
blockers_of c stage previous triggers signals =
    stage_blockers stage previous
    ++ (signal_flags c stage signals ++ authority_blockers c (select (contains hard_l3) triggers))

abbrev pub is_high : Level → Bool
is_high l2 = true
is_high l3 = true
is_high _ = false

-- The body of `evaluate_risk` behind its checks, but for the digest.
unfoldable pub stage_result : TaskCapsule → Stage → Option RiskResult → StageResult
unfolding ordered_union effective_index blockers_of
stage_result c stage previous =
    let triggers = ordered_union (hard_of_previous previous) (hard_of c.signals) in
    let signals = ordered_union (soft_of_previous previous) (soft_of c.signals) in
    let effective = level_at (effective_index c.risk previous triggers signals) in
    let blockers = blockers_of c stage previous triggers signals in
    let review = is_high c.risk && leb 2 (length signals) in
    record {
      task_id = c.task_id;
      stage = stage;
      declared_risk = c.risk;
      effective_risk = effective;
      hard_triggers = triggers;
      soft_signals = signals;
      blockers = blockers;
      guards = base_guards effective ++ (if review then "independent_review" ∷ [] else []);
      independent_review = review;
      admitted = leb (index effective) (index c.risk) && is_empty blockers;
      result_digest = "";
    }

abbrev pub chain_of : Option RiskResult → List StageResult
chain_of none = []
chain_of (some p) = p.top ∷ p.nested

-- SHA-256 of the canonical JSON of a result without its digest, with the stages that it nests, is the
-- parameter `digest`; the field `result_digest` of its first argument is blank.
module _ (digest : StageResult → List StageResult → String) where
  abbrev pub unsigned : StageResult → StageResult
  unsigned s = record s { result_digest = "" }

  abbrev pub digest_holds : StageResult → List StageResult → Bool
  digest_holds s nested = is_sha256 s.result_digest && s.result_digest == digest (unsigned s) nested

  -- `_validate_previous`, where the second argument is the stage that the value must have.
  unfoldable pub validate_chain :
      String → Stage → List StageResult → Outcome CapsuleError (Unit {0})
  validate_chain task_id expected [] = err wrong_previous
  validate_chain task_id expected (s ∷ nested) = do
    raise_if (not (digest_holds s nested)) bad_digest
    raise_if (not (same_stage s.stage expected && s.task_id == task_id)) wrong_previous
    elim (stage_previous expected) [
      | none ↦ raise_if (not (is_empty nested)) wrong_previous
      | some earlier ↦ validate_chain task_id earlier nested
    ]

  abbrev pub checked_previous :
      TaskCapsule → Stage → Option RiskResult → Outcome CapsuleError (Unit {0})
  checked_previous c stage none = ok tt
  checked_previous c initial (some p) = err unexpected_previous
  checked_previous c diff (some p) = validate_chain c.task_id initial (p.top ∷ p.nested)
  checked_previous c final (some p) = validate_chain c.task_id diff (p.top ∷ p.nested)

  abbrev pub signed : StageResult → List StageResult → RiskResult
  signed s nested = record { top = record s { result_digest = digest s nested }; nested = nested }

  abbrev pub known_stage : Option Stage → Outcome CapsuleError Stage
  known_stage none = err bad_stage
  known_stage (some s) = ok s

  -- The evaluation of a capsule that was validated.
  unfoldable pub evaluate_capsule :
      TaskCapsule → Stage → Option RiskResult → Outcome CapsuleError RiskResult
  evaluate_capsule c stage previous = do
    checked_previous c stage previous
    ok (signed (stage_result c stage previous) (chain_of previous))

  unfoldable pub evaluate_risk :
      Value → String → Option RiskResult → Outcome CapsuleError RiskResult
  unfolding evaluate_capsule
  evaluate_risk capsule stage previous = do
    s ← known_stage (parse_stage stage)
    c ← validate_capsule capsule
    evaluate_capsule c s previous
