-- ===== src/Router.antt =====
-- taskguard/router.py: which protocol a command is for, and the backend that it goes to.
pub mod Agreement
use bricek4_ligong_skills.Base.{
  ℕ, String, ◌≡◌, refl, sym, subst, ap, ◌∙◌, ◌⊎◌, inl, inr, Bool, true, false, not, ◌&&◌, ◌||◌,
  Option, none, some, List, [], ◌∷◌, ◌==◌, arith, Outcome, ok, err, ◌>>=◌, >>=-eq-ok, ok-injective,
  contains, any, eqb, if◌then◌else◌, Value, dict, str, int, pos, is_text, find_field, Bool-cases,
}

-- `ProtocolResolutionError`, and what reading the contract or the state may raise.
pub data RouteError : Type 0 where
  unsupported_protocol unrecognized_task protocol_mismatch : RouteError
  load_failed : String → RouteError

-- The entry of a dictionary; there is none in another value.
abbrev entry : Value → String → Option Value
entry (dict fs) k = find_field fs k
entry _ k = none

-- `type(v) is int and v == n`
abbrev is_int : Option Value → ℕ → Bool
is_int (some (int (pos m))) n = eqb m n
is_int _ n = false

abbrev is_string : Option Value → Bool
is_string (some (str s)) = true
is_string _ = false

abbrev holds_text : Option Value → String → Bool
holds_text none t = false
holds_text (some v) t = is_text v t

unfoldable pub protocol_from_contract : Value → Outcome RouteError ℕ
protocol_from_contract raw =
    if is_int (entry raw "version") 2
    then ok 2
    else if is_int (entry raw "version") 3
    then ok 3
    else err unsupported_protocol

abbrev or_none : Option Value → Value
or_none none = str ""
or_none (some v) = v

-- `task.get("protocol_version") == 3`, and then the contract that the state holds. A missing contract is no
-- dictionary.
unfoldable pub protocol_from_task_manifest : Value → Outcome RouteError ℕ
protocol_from_task_manifest task =
    let contract = or_none (entry task "contract") in
    if is_int (entry task "protocol_version") 3
    then (if is_string (entry task "task_id") then ok 3 else err unrecognized_task)
    else if holds_text (entry contract "binding_version") "taskguard-contract-binding-v2"
        && is_int (entry contract "version") 2
    then ok 2
    else err unrecognized_task

abbrev pub v3_only_commands : List String
v3_only_commands =
    "validate" ∷ "explain" ∷ "doctor-v3" ∷ "provider-readiness" ∷ "shadow" ∷ "plan" ∷ "apply"
    ∷ "reconcile" ∷ "rollback" ∷ "health" ∷ []

abbrev pub stateless_commands : List String
stateless_commands = "run" ∷ "verify" ∷ "status" ∷ "checkpoint" ∷ "dispose" ∷ "export" ∷ []

-- A file that the command names, and what reading it gave.
abbrev pub Loaded : Type 0
Loaded = Option (Outcome RouteError Value)

abbrev version_by : (Value → Outcome RouteError ℕ) → Loaded → Outcome RouteError (Option ℕ)
version_by f none = ok none
version_by f (some (err e)) = err e
version_by f (some (ok v)) = do n ← f v; ok (some n)

-- `command != "init"` guards the reading of the state.
abbrev pub state_read : String → Loaded → Loaded
state_read command state = if command == "init" then none else state

abbrev is_none : {A : Type 0} → Option A → Bool
is_none none = true
is_none (some a) = false

abbrev differ : Option ℕ → Option ℕ → Bool
differ (some m) (some n) = not (eqb m n)
differ _ _ = false

abbrev first_version : Option ℕ → Option ℕ → Outcome RouteError ℕ → Outcome RouteError ℕ
first_version (some n) state default = ok n
first_version none (some n) default = ok n
first_version none none default = default

choose : String → Bool → Option ℕ → Option ℕ → Outcome RouteError ℕ
choose command no_state contract state =
    if differ contract state
    then err protocol_mismatch
    else if contains v3_only_commands command && (is_none contract && is_none state)
    then ok 3
    else first_version contract state
        (if contains stateless_commands command && no_state then ok 2 else err unsupported_protocol)

unfoldable pub resolve_protocol : String → Loaded → Loaded → Outcome RouteError ℕ
unfolding choose
resolve_protocol command contract state = do
  contract_version ← version_by protocol_from_contract contract
  state_version ← version_by protocol_from_task_manifest (state_read command state)
  choose command (is_none state) contract_version state_version

-- The text after the first occurrence of an option.
unfoldable pub argument : List String → String → Option String
argument [] name = none
argument (x ∷ []) name = none
argument (x ∷ y ∷ rest) name = if x == name then some y else argument (y ∷ rest) name

abbrev is_help : String → Bool
is_help item = item == "-h" || item == "--help"

abbrev read_by : (String → Outcome RouteError Value) → Option String → Loaded
read_by read none = none
read_by read (some path) = some (read path)

-- `read` reads a contract, `load` the task of a state directory, and `backends` is the registry.
module _ {B : Type 0} (read load : String → Outcome RouteError Value)
    (backends : ℕ → Option B) where
  abbrev required : Option B → Outcome RouteError B
  required none = err unsupported_protocol
  required (some b) = ok b

  unfoldable pub require : ℕ → Outcome RouteError B
  require version = required (backends version)

  unfoldable pub route_command : List String → Outcome RouteError B
  unfolding require
  route_command [] = require 2
  route_command (command ∷ rest) =
      let routed = do
        version ←
            resolve_protocol command (read_by read (argument (command ∷ rest) "--contract"))
              (read_by load (argument (command ∷ rest) "--state-dir"))
        require version
      in if any is_help rest
        then require (if contains v3_only_commands command then 3 else 2)
        else routed
