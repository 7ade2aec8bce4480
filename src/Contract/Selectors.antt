-- ===== src/Contract/Selectors.antt =====
-- `_epsilon_closure`, `_pattern_states` and `_selector_matches` of taskguard/contract.py. A set of positions is a
-- list in which only the membership counts.
pub mod Worklist
mod Positions
mod Reading
pub mod Matching
use Prim.Native.Char.{code}
use Prim.Native.String
use bricek4_ligong_skills.Base.{
  ℕ, zero, suc, ◌+◌, ◌-◌, ◌≡◌, refl, String, Bool, true, false, ◌&&◌, ◌||◌, not, Option, none, some,
  List, [], ◌∷◌, ◌==◌, eqb, length, is_empty, is_blank, starts_with, if◌then◌else◌, ◌+++◌,
}
use bricek4_ligong_skills.Contract.Glob.{fnmatchcase}
use bricek4_ligong_skills.Risk.Paths.{path_parts, join_slash}

abbrev pub get_elem? {ℓ} : {A : Type ℓ} → List A → ℕ → Option A
get_elem? [] i = none
get_elem? (x ∷ xs) zero = some x
get_elem? (x ∷ xs) (suc i) = get_elem? xs i

-- `index in positions`
abbrev pub has : List ℕ → ℕ → Bool
has [] j = false
has (i ∷ xs) j = eqb i j || has xs j

-- `positions.add(index)`
abbrev pub add : ℕ → List ℕ → List ℕ
add j xs = if has xs j then xs else j ∷ xs

-- `index < len(pattern) and pattern[index] == "**"`
abbrev pub is_deep_selector : Option String → Bool
is_deep_selector none = false
is_deep_selector (some s) = s == "**"

unfoldable pub is_deep : List String → ℕ → Bool
is_deep pattern i = is_deep_selector (get_elem? pattern i)

-- The two variables of the loop.
pub record Closure : Type 0 where
  pub closed : List ℕ
  pub pending : List ℕ

-- One round, after `index = pending.pop()`.
unfoldable pub close_step : List String → List ℕ → ℕ → List ℕ → Closure
close_step pattern closed i pending =
    if is_deep pattern i && not (has closed (suc i))
    then record { closed = suc i ∷ closed; pending = suc i ∷ pending }
    else record { closed = closed; pending = pending }

unfoldable pub close_loop : ℕ → List String → Closure → Closure
unfolding close_step
close_loop zero pattern c = c
close_loop (suc fuel) pattern c = elim (c.pending) [
  | [] ↦ c
  | i ∷ rest ↦ close_loop fuel pattern (close_step pattern c.closed i rest)
]

-- Each position waits for at most the positions behind it.
abbrev pub work : ℕ → List ℕ → ℕ
work size [] = 0
work size (i ∷ xs) = suc (size - i) + work size xs

unfoldable pub epsilon_loop : List ℕ → List String → Closure
unfolding close_loop
epsilon_loop states pattern =
    close_loop (work (length pattern) states) pattern (record { closed = states; pending = states })

unfoldable pub epsilon_closure : List ℕ → List String → List ℕ
unfolding epsilon_loop
epsilon_closure states pattern = (epsilon_loop states pattern).closed

-- The body of `for index in states`.
unfoldable pub follow : String → Option String → ℕ → List ℕ → List ℕ
follow part none i following = following
follow part (some selector) i following =
    if selector == "**"
    then add i following
    else if fnmatchcase part selector
    then add (suc i) following
    else following

unfoldable pub advance : List String → String → List ℕ → List ℕ → List ℕ
unfolding follow
advance pattern part [] following = following
advance pattern part (i ∷ states) following =
    advance pattern part states (follow part (get_elem? pattern i) i following)

unfoldable pub read_parts : List String → List String → List ℕ → List ℕ
unfolding advance epsilon_closure
read_parts pattern [] states = states
read_parts pattern (part ∷ parts) states =
    let next = epsilon_closure (advance pattern part states []) pattern in
    let rest = read_parts pattern parts next in if is_empty next then next else rest

unfoldable pub pattern_states : List String → List String → List ℕ
unfolding read_parts epsilon_closure
pattern_states parts pattern = read_parts pattern parts (epsilon_closure (0 ∷ []) pattern)

-- `len(pattern) in states`
unfoldable pub is_full_match : List String → List String → Bool
unfolding pattern_states
is_full_match parts pattern = has (pattern_states parts pattern) (length pattern)

-- `text.rstrip("/")`
unfoldable pub rstrip_slash : String → String
rstrip_slash String.[] = String.[]
rstrip_slash (String.◌∷◌ c s) =
    let rest = rstrip_slash s in
    if is_blank rest && eqb (code c) b'/' then "" else String.◌∷◌ c rest

-- The root of a POSIX path: exactly two slashes are kept.
posix_root : String → String
posix_root text =
    if starts_with text "/"
    then if starts_with text "//" && not (starts_with text "///") then "//" else "/"
    else ""

-- `PurePosixPath(text).parts`
unfoldable pub posix_parts : String → List String
unfolding posix_root
posix_parts text =
    if is_blank (posix_root text) then path_parts text else posix_root text ∷ path_parts text

-- `PurePosixPath(text).as_posix()`
unfoldable pub as_posix : String → String
unfolding posix_root
as_posix text =
    if is_blank (posix_root text)
    then join_slash (path_parts text)
    else if is_empty (path_parts text)
    then posix_root text
    else posix_root text +++ join_slash (path_parts text)

abbrev or_dot : String → String
or_dot text = if is_blank text then "." else text

-- `PurePosixPath(text.rstrip("/") or ".").as_posix()`
unfoldable pub canonical : String → String
unfolding rstrip_slash as_posix
canonical text = as_posix (or_dot (rstrip_slash text))

-- `re.search("[*?[]", text)`
unfoldable pub has_magic : String → Bool
has_magic String.[] = false
has_magic (String.◌∷◌ c s) =
    (eqb (code c) b'*' || eqb (code c) b'?' || eqb (code c) b'[') || has_magic s

unfoldable pub selector_matches : String → String → Bool
unfolding canonical has_magic is_full_match posix_parts
selector_matches path_text selector =
    if canonical selector == "."
    then true
    else if not (has_magic (canonical selector))
    then canonical path_text == canonical selector
      || starts_with (canonical path_text) (canonical selector +++ "/")
    else is_full_match (posix_parts (canonical path_text)) (posix_parts (canonical selector))
