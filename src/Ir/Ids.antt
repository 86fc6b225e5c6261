-- ===== src/Ir/Ids.antt =====
-- Ids of nodes, rules and packs (src/stargraph/ir/_ids.py): slugs, generated ids and the grammar of stable
-- ids.
pub mod Generated
pub mod Stable
use Prim.Native.Char.{Char, code}
use Prim.Native.String.{char_at}
use stargraph.Common.{
  ℕ, zero, suc, ◌-◌, String, Bool, true, false, not, Option, none, some, List, [], ◌∷◌, ◌&&◌, ◌||◌,
  Value, null, bool, int, neg_int, str, atom, obj, arr, Record, Result, ok, err, value_error,
  if◌then◌else◌, leb, ltb, nat_eq, any, ◌==◌, string_keys, length, codes, or_none, take_chars,
  text_append, Elements, Members, no_member, no_element, member, element,
}
use stargraph.Common.Decimal.{decimal}
use stargraph.Common.Dict.{lookup, insert}

abbrev pub between : ℕ → ℕ → ℕ → Bool
between lo hi c = leb lo c && leb c hi

abbrev is_alnum : ℕ → Bool
is_alnum c = between b'a' b'z' c || between b'A' b'Z' c || between b'0' b'9' c

-- `_SLUG_RE.sub("-", text)`: the flag says that the run of other characters has its dash.
abbrev collapse : Bool → String → String
collapse dashed String.[] = String.[]
collapse dashed (String.◌∷◌ c s) =
    let rest = collapse true s in
    let kept = collapse false s in
    if is_alnum (code c) then String.◌∷◌ c kept else (if dashed then rest else text_append "-" rest)

-- `.strip("-")`
abbrev strip_left : String → String
strip_left String.[] = String.[]
strip_left (String.◌∷◌ c s) =
    let rest = strip_left s in if nat_eq (code c) b'-' then rest else String.◌∷◌ c s

abbrev strip_right : String → String
strip_right String.[] = String.[]
strip_right (String.◌∷◌ c s) =
    let rest = strip_right s in
    if nat_eq (code c) b'-' && rest == "" then String.[] else String.◌∷◌ c rest

abbrev lower_char : Char → Char
lower_char c =
    if between b'A' b'Z' (code c) then char_at "abcdefghijklmnopqrstuvwxyz" (code c - b'A') else c

abbrev lower : String → String
lower String.[] = String.[]
lower (String.◌∷◌ c s) = String.◌∷◌ (lower_char c) (lower s)

-- `_slug`
unfoldable pub slug : String → String
slug text = take_chars 24 (lower (strip_right (strip_left (collapse false text))))

-- Python's truth of a value; a float of zero is false.
unfoldable pub truthy : Value → Bool
truthy null = false
truthy (bool b) = b
truthy (int zero) = false
truthy (int (suc n)) = true
truthy (neg_int n) = true
truthy (str s) = not (s == "")
truthy (atom kind text) = not (kind == "float" && (text == "0.0" || text == "-0.0"))
truthy (obj no_member) = false
truthy (obj (member k v ms)) = true
truthy (arr no_element) = false
truthy (arr (element v vs)) = true

abbrev pub contains : String → List String → Bool
contains x ys = any (λ y. y == x) ys

-- `item.get("id")`, where it is true, as a text; `text` is `str`.
unfoldable pub id_of : (Value → String) → Record → Option String
unfolding lookup truthy
id_of text item = elim (lookup "id" item) [
  | none ↦ none
  | some v ↦ if truthy v then some (text v) else none
]

-- `next(iter(item.values()), "")`
abbrev first_value : Record → Value
first_value [] = str ""
first_value ((k, v) ∷ item) = v

-- The text that an id is made of.
unfoldable pub base_of : (Value → String) → Record → String
unfolding lookup truthy slug
base_of text item = slug (elim (lookup "name" item) [
  | none ↦ text (first_value item)
  | some v ↦ if truthy v then text v else text (first_value item)
])

-- `f"{base}-{n}" if base else f"item-{n}"`
unfoldable pub candidate : String → ℕ → String
candidate base n = text_append (if base == "" then "item" else base) (text_append "-" (decimal n))

-- The `while`, from its second turn; without fuel it has no answer.
unfoldable pub search_id : ℕ → String → ℕ → List String → Option String
unfolding candidate
search_id zero base n seen = none
search_id (suc fuel) base n seen =
    let later = search_id fuel base (suc n) seen in
    let c = candidate base n in if contains c seen || c == "" then later else some c

unfoldable pub new_id : String → List String → Option String
unfolding search_id
new_id base seen =
    if contains base seen || base == ""
    then search_id (suc (length seen)) base 2 seen
    else some base

-- The first loop of `_autogen_ids`: the ids that are given.
unfoldable pub given_ids : (Value → String) → List Record → List String
unfolding id_of
given_ids text [] = []
given_ids text (item ∷ items) =
    let ids = given_ids text items in elim (id_of text item) [ none ↦ ids | some i ↦ i ∷ ids ]

-- The second loop.
unfoldable pub fill_ids : (Value → String) → List String → List Record → Option (List Record)
unfolding id_of base_of new_id insert
fill_ids text seen [] = some []
fill_ids text seen (item ∷ items) = elim (id_of text item) [
  | some i ↦ elim (fill_ids text seen items) [ none ↦ none | some out ↦ some (item ∷ out) ]
  | none ↦ elim (new_id (base_of text item) seen) [
    | none ↦ none
    | some c ↦ elim (fill_ids text (c ∷ seen) items) [
      | none ↦ none
      | some out ↦ some (insert "id" (str c) item ∷ out)
    ]
  ]
]

-- `_autogen_ids`
unfoldable pub autogen_ids : (Value → String) → List Record → Option (List Record)
unfolding given_ids fill_ids
autogen_ids text items = fill_ids text (given_ids text items) items

-- `[a-z0-9]` and `[a-z0-9_\-.]`
abbrev pub starts_id : ℕ → Bool
starts_id c = between b'a' b'z' c || between b'0' b'9' c

abbrev pub continues_id : ℕ → Bool
continues_id c = starts_id c || nat_eq c b'_' || nat_eq c b'-' || nat_eq c b'.'

-- At most n characters of an id, and `$`, which holds at the end and before a last newline.
abbrev pub matches_tail : ℕ → List ℕ → Bool
matches_tail n [] = true
matches_tail zero (c ∷ []) = nat_eq c 10
matches_tail (suc n) (c ∷ []) = nat_eq c 10 || continues_id c
matches_tail zero (c ∷ d ∷ cs) = false
matches_tail (suc n) (c ∷ d ∷ cs) = continues_id c && matches_tail n (d ∷ cs)

-- `_STABLE_ID_RE.match`
abbrev pub matches_id : List ℕ → Bool
matches_id [] = false
matches_id (c ∷ cs) = starts_id c && matches_tail 127 cs

-- `_validate_stable_id`
unfoldable pub validate_stable_id : String → String → Result String
validate_stable_id kind s =
    if ltb 128 (length (codes s))
    then err (value_error (text_append kind " id exceeds 128 chars"))
    else (if matches_id (codes s)
        then ok s
        else err (value_error (text_append kind " id is not a valid slug")))
