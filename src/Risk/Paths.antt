-- ===== src/Risk/Paths.antt =====
-- The texts and paths of taskguard/risk.py: `str.strip`, `PurePosixPath` and the task-id pattern.
use Prim.Native.String.{String}
use Prim.Native.Char.{Char, code}
use bricek4_ligong_skills.Base.{
  ℕ, zero, suc, Bool, true, false, ◌&&◌, ◌||◌, List, [], ◌∷◌, ◌==◌, leb, eqb, reject, is_blank,
  ◌+++◌, if◌then◌else◌,
}

-- `str.isspace` of one character.
abbrev is_space : ℕ → Bool
is_space c =
    (leb 9 c && leb c 13)
    || (leb 28 c && leb c 32)
    || eqb c 133
    || eqb c 160
    || eqb c 5760
    || (leb 8192 c && leb c 8202)
    || eqb c 8232
    || eqb c 8233
    || eqb c 8239
    || eqb c 8287
    || eqb c 12288

-- `not value.strip()`
unfoldable pub is_spaces : String → Bool
is_spaces String.[] = true
is_spaces (String.◌∷◌ c s) = is_space (code c) && is_spaces s

-- `[A-Za-z0-9][A-Za-z0-9._:-]{0,127}\Z`
abbrev is_alnum : ℕ → Bool
is_alnum c = (leb b'A' c && leb c b'Z') || (leb b'a' c && leb c b'z') || (leb b'0' c && leb c b'9')

abbrev is_id_char : ℕ → Bool
is_id_char c = is_alnum c || eqb c b'.' || eqb c b'_' || eqb c b':' || eqb c b'-'

id_tail : ℕ → String → Bool
id_tail n String.[] = true
id_tail zero (String.◌∷◌ c s) = false
id_tail (suc n) (String.◌∷◌ c s) = is_id_char (code c) && id_tail n s

unfoldable pub is_task_id : String → Bool
unfolding id_tail
is_task_id String.[] = false
is_task_id (String.◌∷◌ c s) = is_alnum (code c) && id_tail 127 s

abbrev prepend : Char → List String → List String
prepend c [] = String.◌∷◌ c String.[] ∷ []
prepend c (p ∷ ps) = String.◌∷◌ c p ∷ ps

-- `path.split("/")`
unfoldable pub split_slash : String → List String
split_slash String.[] = "" ∷ []
split_slash (String.◌∷◌ c s) =
    let rest = split_slash s in if eqb (code c) b'/' then "" ∷ rest else prepend c rest

abbrev is_dropped : String → Bool
is_dropped part = is_blank part || part == "."

-- `PurePosixPath(value).parts` of a relative path.
unfoldable pub path_parts : String → List String
unfolding split_slash
path_parts value = reject is_dropped (split_slash value)

unfoldable pub is_absolute : String → Bool
is_absolute String.[] = false
is_absolute (String.◌∷◌ c s) = eqb (code c) b'/'

-- `as_posix()` of a relative path with these parts.
unfoldable pub join_slash : List String → String
join_slash [] = "."
join_slash (p ∷ []) = p
join_slash (p ∷ ps) = p +++ ("/" +++ join_slash ps)

abbrev either_case : ℕ → ℕ → ℕ → Bool
either_case c lower upper = eqb c lower || eqb c upper

-- `part.casefold() == ".git"`
unfoldable pub is_git_part : String → Bool
is_git_part (String.◌∷◌ d (String.◌∷◌ g (String.◌∷◌ i (String.◌∷◌ t String.[])))) =
    eqb (code d) b'.'
    && (either_case (code g) b'g' b'G'
        && (either_case (code i) b'i' b'I' && either_case (code t) b't' b'T'))
is_git_part _ = false
