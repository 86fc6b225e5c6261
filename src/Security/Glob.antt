-- ===== src/Security/Glob.antt =====
-- `fnmatch.fnmatchcase` of Python's standard library, over code points: `*`, `?`, `[seq]` and
-- `[!seq]`, where a `[` that is never closed stands for itself.
use stargraph.Common.{
  ℕ, zero, suc, ◌≡◌, refl, String, Bool, true, false, not, Option, none, some, List, [], ◌∷◌, arith,
  nat_eq, leb, codes, if◌then◌else◌, ◌&&◌, ◌||◌, length, any, All, ◌↔◌,
}

-- A part of a pattern. A set is a list of ranges of code points, negated or not.
pub data Token : Type 0 where
  star : Token
  any_char : Token
  literal : ℕ → Token
  one_of : Bool → List (ℕ × ℕ) → Token

-- The items up to the closing bracket, and what follows it.
split_bracket : List ℕ → Option (List ℕ × List ℕ)
split_bracket [] = none
split_bracket (c ∷ cs) =
    let rest = split_bracket cs in
    if nat_eq c b']'
    then some ([], cs)
    else elim rest [ none ↦ none | some (inside, after) ↦ some (c ∷ inside, after) ]

-- A `]` that comes first is an item of the set.
set_body : List ℕ → Option (List ℕ × List ℕ)
unfolding split_bracket
set_body [] = none
set_body (c ∷ rest) = elim (split_bracket rest) [
  | none ↦ none
  | some (inside, after) ↦ some (c ∷ inside, after)
]

-- `lo-hi` is a range; a `-` at either end stands for itself.
ranges : List ℕ → List (ℕ × ℕ)
ranges [] = []
ranges (c ∷ []) = (c, c) ∷ []
ranges (c ∷ d ∷ []) = (c, c) ∷ (d, d) ∷ []
ranges (c ∷ d ∷ e ∷ rest) =
    let range = (c, e) ∷ ranges rest in
    let single = (c, c) ∷ ranges (d ∷ e ∷ rest) in if nat_eq d b'-' then range else single

-- The token of a `[`, from what follows it.
bracket_token : List ℕ → Option (Token × List ℕ)
unfolding set_body ranges
bracket_token [] = none
bracket_token (c ∷ rest) =
    if nat_eq c b'!'
    then elim (set_body rest) [
      | none ↦ none
      | some (inside, after) ↦ some (one_of true (ranges inside), after)
    ]
    else elim (set_body (c ∷ rest)) [
      | none ↦ none
      | some (inside, after) ↦ some (one_of false (ranges inside), after)
    ]

next_token : ℕ → List ℕ → Token × List ℕ
unfolding bracket_token
next_token c cs =
    if nat_eq c b'*'
    then (star, cs)
    else if nat_eq c b'?'
    then (any_char, cs)
    else if nat_eq c b'['
    then elim (bracket_token cs) [ none ↦ (literal c, cs) | some found ↦ found ]
    else (literal c, cs)

-- Each token takes at least one character, so the pattern's length is fuel enough.
tokens : ℕ → List ℕ → List Token
unfolding next_token
tokens fuel [] = []
tokens zero (c ∷ cs) = []
tokens (suc fuel) (c ∷ cs) = let (t, rest) = next_token c cs in t ∷ tokens fuel rest

in_ranges : List (ℕ × ℕ) → ℕ → Bool
in_ranges rs x = any (λ (r : ℕ × ℕ). leb r.0 x && leb x r.1) rs

fits : Token → ℕ → Bool
unfolding in_ranges
fits star x = true
fits any_char x = true
fits (literal c) x = nat_eq c x
fits (one_of negated rs) x = if negated then not (in_ranges rs x) else in_ranges rs x

matches : List Token → List ℕ → Bool
unfolding fits
matches [] [] = true
matches [] (x ∷ xs) = false
matches (star ∷ ts) [] = matches ts []
matches (star ∷ ts) (x ∷ xs) = elim (matches ts (x ∷ xs)) [
  | true ↦ true
  | false ↦ matches (star ∷ ts) xs
]
matches (t ∷ ts) [] = false
matches (t ∷ ts) (x ∷ xs) = fits t x && matches ts xs

unfoldable pub fnmatchcase : String → String → Bool
unfolding matches tokens
fnmatchcase name pattern = matches (tokens (length (codes pattern)) (codes pattern)) (codes name)

-- A character that stands for itself in a pattern.
abbrev pub IsPlain : ℕ → Type 0
IsPlain c = (nat_eq c b'*' || nat_eq c b'?' || nat_eq c b'[') ≡ false

abbrev pub IsLiteral : String → Type 0
IsLiteral p = All IsPlain (codes p)

tokens-plain :
    (c : ℕ) (cs : List ℕ) (fuel : ℕ)
    → IsPlain c
    → tokens (suc fuel) (c ∷ cs) ≡ literal c ∷ tokens fuel cs
unfolding tokens
tokens-plain c cs fuel h = ground arith

tokens-nil : tokens 0 [] ≡ []
unfolding tokens
tokens-nil = refl

matches-literal :
    (ps xs : List ℕ) → All IsPlain ps → matches (tokens (length ps) ps) xs ≡ true → ps ≡ xs
unfolding matches
matches-literal [] [] h m = refl
matches-literal [] (x ∷ xs) h m = let m' : matches [] (x ∷ xs) ≡ true = rw tokens-nil at m in cc
matches-literal (p ∷ ps) [] h m =
    let m' : matches (literal p ∷ tokens (length ps) ps) [] ≡ true =
      rw (tokens-plain p ps (length ps) h.0) at m in
    cc
matches-literal (p ∷ ps) (x ∷ xs) h m =
    let m' : (nat_eq p x && matches (tokens (length ps) ps) xs) ≡ true =
      rw (tokens-plain p ps (length ps) h.0) at m in
    ground (arith, matches-literal ps xs h.1)

literal-matches : (ps : List ℕ) → All IsPlain ps → matches (tokens (length ps) ps) ps ≡ true
unfolding matches
literal-matches [] h = rw tokens-nil refl
literal-matches (p ∷ ps) h =
    rw (tokens-plain p ps (length ps) h.0) (ground (arith, literal-matches ps h.1))

-- A pattern with no wildcard matches the text that it spells, and no other.
pub fnmatchcase-literal :
    (name pattern : String)
    → IsLiteral pattern
    → (fnmatchcase name pattern ≡ true) ↔ (codes pattern ≡ codes name)
unfolding fnmatchcase
fnmatchcase-literal name pattern h = (
  matches-literal (codes pattern) (codes name) h,
  λ e. rw (← e) (literal-matches (codes pattern) h),
)

matches-star : (xs : List ℕ) → matches (star ∷ []) xs ≡ true
unfolding matches
matches-star [] = refl
matches-star (x ∷ xs) = matches-star xs

pub fnmatchcase-star : (name : String) → fnmatchcase name "*" ≡ true
unfolding fnmatchcase
fnmatchcase-star name = matches-star (codes name)

sets_run :
    (fnmatchcase "db-7" "db-[0-9]" ≡ true)
    × (fnmatchcase "db-x" "db-[!0-9]" ≡ true)
    × (fnmatchcase "a]c" "?[]]*" ≡ true)
    × (fnmatchcase "[a" "[a" ≡ true)
unfolding fnmatchcase
sets_run = (refl, refl, refl, refl)
