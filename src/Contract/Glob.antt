-- ===== src/Contract/Glob.antt =====
-- `fnmatch.fnmatchcase` of one path component, which taskguard/contract.py calls, on code points. Left out: the
-- reading of a set that begins with an empty range and goes on with `!`.
use Prim.Native.String.{String}
use Prim.Native.Char.{code}
use bricek4_ligong_skills.Base.{
  ℕ, zero, suc, Bool, true, false, not, ◌&&◌, ◌||◌, Option, none, some, List, [], ◌∷◌, leb, eqb,
  any, length, if◌then◌else◌,
}

-- A range `a-b` of a set; a single character is a range of one.
pub record CharRange : Type 0 where
  pub low : ℕ
  pub high : ℕ

pub data Token : Type 0 where
  any_run : Token
  any_one : Token
  literal : ℕ → Token
  one_of : Bool → List CharRange → Token

codes : String → List ℕ
codes String.[] = []
codes (String.◌∷◌ c s) = code c ∷ codes s

abbrev single : ℕ → CharRange
single c = record { low = c; high = c }

ranges : List ℕ → List CharRange
ranges [] = []
ranges (a ∷ []) = single a ∷ []
ranges (a ∷ b ∷ []) = single a ∷ single b ∷ []
ranges (a ∷ d ∷ b ∷ cs) = elim (eqb d b'-') [
  | true ↦ record { low = a; high = b } ∷ ranges cs
  | false ↦ single a ∷ ranges (d ∷ b ∷ cs)
]

-- What stands before the next `]`, and what stands behind it.
before_bracket : List ℕ → Option (List ℕ × List ℕ)
before_bracket [] = none
before_bracket (c ∷ cs) =
    let rest = before_bracket cs in
    if eqb c b']' then some ([], cs) else elim rest [ none ↦ none | some (s, r) ↦ some (c ∷ s, r) ]

-- A `]` that comes first belongs to the set.
set_body : List ℕ → Option (List ℕ × List ℕ)
unfolding before_bracket
set_body [] = none
set_body (c ∷ cs) =
    if eqb c b']'
    then elim (before_bracket cs) [ none ↦ none | some (s, r) ↦ some (c ∷ s, r) ]
    else before_bracket (c ∷ cs)

set_token : Bool → Option (List ℕ × List ℕ) → Option (Token × List ℕ)
unfolding ranges
set_token negated none = none
set_token negated (some (s, r)) = some (one_of negated (ranges s), r)

-- The set after a `[`, if its `]` is there.
read_set : List ℕ → Option (Token × List ℕ)
unfolding set_body set_token
read_set [] = none
read_set (c ∷ cs) =
    if eqb c b'!' then set_token true (set_body cs) else set_token false (set_body (c ∷ cs))

-- The number bounds the tokens; a pattern has as many characters at least.
tokens : ℕ → List ℕ → List Token
unfolding read_set
tokens zero cs = []
tokens (suc n) [] = []
tokens (suc n) (c ∷ cs) =
    let after = tokens n in
    if eqb c b'*'
    then any_run ∷ after cs
    else if eqb c b'?'
    then any_one ∷ after cs
    else if eqb c b'['
    then elim (read_set cs) [ none ↦ literal c ∷ after cs | some (t, r) ↦ t ∷ after r ]
    else literal c ∷ after cs

abbrev within : ℕ → CharRange → Bool
within c r = leb r.low c && leb c r.high

abbrev fits : Token → ℕ → Bool
fits any_run c = true
fits any_one c = true
fits (literal d) c = eqb d c
fits (one_of negated rs) c = if negated then not (any (within c) rs) else any (within c) rs

-- Some suffix of the text goes on to match.
some_suffix : (List ℕ → Bool) → List ℕ → Bool
some_suffix test [] = test []
some_suffix test (c ∷ cs) = test (c ∷ cs) || some_suffix test cs

match_tokens : List Token → List ℕ → Bool
unfolding some_suffix
match_tokens [] [] = true
match_tokens [] (c ∷ cs) = false
match_tokens (any_run ∷ ts) cs = some_suffix (match_tokens ts) cs
match_tokens (t ∷ ts) [] = false
match_tokens (t ∷ ts) (c ∷ cs) = fits t c && match_tokens ts cs

unfoldable pub fnmatchcase : String → String → Bool
unfolding codes tokens match_tokens
fnmatchcase name pattern =
    let cs = codes pattern in match_tokens (tokens (length cs) cs) (codes name)
