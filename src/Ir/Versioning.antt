-- ===== src/Ir/Versioning.antt =====
-- Versions of documents and of packs (src/stargraph/ir/_versioning.py). `int` takes ASCII digits.
use stargraph.Common.{
  ℕ, ◌+◌, ◌-◌, ◌*◌, String, Bool, true, false, not, Option, none, some, List, [], ◌∷◌, ◌&&◌, ◌||◌,
  Value, str, if◌then◌else◌, nat_eq, ◌==◌, string_keys, codes,
}
use stargraph.Ir.Ids.{between}

abbrev is_blank : ℕ → Bool
is_blank c = nat_eq c 32 || between 9 13 c || between 28 31 c

abbrev trim_left : List ℕ → List ℕ
trim_left [] = []
trim_left (c ∷ cs) = let rest = trim_left cs in if is_blank c then rest else c ∷ cs

abbrev trim_right : List ℕ → List ℕ
trim_right [] = []
trim_right (c ∷ cs) = elim (trim_right cs) [
  | [] ↦ if is_blank c then [] else c ∷ []
  | d ∷ ds ↦ c ∷ d ∷ ds
]

-- Digits behind a number, with single underscores between them.
abbrev digits : ℕ → List ℕ → Option ℕ
digits n [] = some n
digits n (c ∷ []) = if between b'0' b'9' c then some (n * 10 + (c - b'0')) else none
digits n (c ∷ d ∷ cs) =
    let plain = digits (n * 10 + (c - b'0')) (d ∷ cs) in
    let joined = digits (n * 10 + (d - b'0')) cs in
    if between b'0' b'9' c
    then plain
    else (if nat_eq c b'_' && between b'0' b'9' d then joined else none)

abbrev number : List ℕ → Option ℕ
number [] = none
number (c ∷ cs) = if between b'0' b'9' c then digits (c - b'0') cs else none

-- An integer, by its sign and its size; zero has no sign.
abbrev signed : Bool → Option ℕ → Option (Bool × ℕ)
signed minus none = none
signed minus (some n) = some (minus && not (nat_eq n 0), n)

-- `int`, of a text
unfoldable pub parse_int : List ℕ → Option (Bool × ℕ)
parse_int cs = elim (trim_right (trim_left cs)) [
  | [] ↦ none
  | c ∷ rest ↦
      if nat_eq c b'-'
      then signed true (number rest)
      else signed false (number (if nat_eq c b'+' then rest else c ∷ rest))
]

-- `s.split(".")`
abbrev split_dots : List ℕ → List (List ℕ)
split_dots [] = [] ∷ []
split_dots (c ∷ cs) = elim (split_dots cs) [
  | [] ↦ []
  | part ∷ parts ↦ if nat_eq c b'.' then [] ∷ part ∷ parts else (c ∷ part) ∷ parts
]

abbrev pub Integer : Type 0
Integer = Bool × ℕ

-- `parse_version`
unfoldable pub parse_version : String → Option (Integer × Integer × Integer)
unfolding parse_int
parse_version s = elim (split_dots (codes s)) [
  | major ∷ minor ∷ patch ∷ [] ↦ elim (parse_int major) [
    | none ↦ none
    | some a ↦ elim (parse_int minor) [
      | none ↦ none
      | some b ↦ elim (parse_int patch) [ none ↦ none | some c ↦ some (a, b, c) ]
    ]
  ]
  | _ ↦ none
]

abbrev same_integer : Integer → Integer → Bool
same_integer (s, n) (t, m) = nat_eq n m && (if s then t else not t)

-- The major of the version that this build understands, `STARGRAPH_IR_VERSION`.
unfoldable pub expected_major : Integer
expected_major = (false, 1)

-- `check_version`: the version that it refuses, if it does.
unfoldable pub check_version : Option Value → Option String
unfolding parse_version expected_major
check_version (some (str raw)) = elim (parse_version raw) [
  | none ↦ none
  | some (major, minor, patch) ↦ if same_integer major expected_major then none else some raw
]
check_version _ = none

-- `PackRequires`, and `PackMount` as far as the check reads it.
pub record PackRequires : Type 0 where
  pub stargraph_facts_version : Option String
  pub api_version : Option String

abbrev pub meets : Option String → String → Bool
meets none host = true
meets (some required) host = required == host

-- `check_pack_compat`: the field that disagrees.
unfoldable pub check_pack_compat : Option PackRequires → String → String → Option String
check_pack_compat none facts api = none
check_pack_compat (some r) facts api =
    if not (meets r.stargraph_facts_version facts)
    then some "stargraph_facts_version"
    else (if not (meets r.api_version api) then some "api_version" else none)
