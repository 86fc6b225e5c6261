-- ===== src/Ir/Ids/Generated.antt =====
-- The ids that `_autogen_ids` gives: its search ends, and no two parts share an id.
use text.Mathlib.TextEquality.{eq_iff}
use text.Mathlib.TextLemmas.{append_cancel_left, append-eq-nil_iff, cons≢nil}
use mathlib.Core.Path.{subst}
use stargraph.Common.{
  ℕ, zero, suc, ◌<◌, ◌≤◌, ◌≡◌, refl, ap, inl, inr, String, Bool, true, false, not, none, some, List,
  [], ◌∷◌, ◌&&◌, ◌||◌, arith, Value, str, Record, if◌then◌else◌, ◌==◌, string_keys, length,
  Bool-cases, Option-cases,
}
use stargraph.Common.Decimal.{decimal-inj}
use stargraph.Common.Dict.{insert, lookup-insert}
use stargraph.Ir.Ids.{
  truthy, contains, id_of, base_of, candidate, search_id, new_id, given_ids, fill_ids, autogen_ids,
}

-- The list without the first x in it.
abbrev without : String → List String → List String
without x [] = []
without x (y ∷ ys) = let rest = without x ys in if y == x then ys else y ∷ rest

contains-without :
    (x y : String) (ys : List String) → (x == y) ≡ false → contains y (without x ys) ≡ contains y ys
contains-without x y [] o = refl
contains-without x y (z ∷ ys) o =
    ground (arith, contains-without x y ys o, eq_iff z x, eq_iff z y, eq_iff x y)

length-without :
    (x : String) (ys : List String) → contains x ys ≡ true → suc (length (without x ys)) ≡ length ys
length-without x [] h = cc
length-without x (y ∷ ys) h = ground (arith, length-without x ys)

candidate-inj : (base : String) (n m : ℕ) → candidate base n ≡ candidate base m → n ≡ m
unfolding candidate
candidate-inj base n m e = decimal-inj n m (append_cancel_left "-" _ _ (append_cancel_left _ _ _ e))

candidate-nonempty : (base : String) (n : ℕ) → (candidate base n == "") ≡ false
unfolding candidate
candidate-nonempty base n = elim (Bool-cases (candidate base n == "")) [
  | inr full ↦ full
  | inl empty ↦
      let parts = append-eq-nil_iff.0 ((eq_iff (candidate base n) "").0 empty) in
      let dash = (append-eq-nil_iff.0 parts.1).0 in elim (cons≢nil dash) [ ]
]

-- The search finds an id when it has more turns than there are ids that its candidates can meet: `left`
-- holds them.
search_id-finds :
    (fuel : ℕ) (base : String) (n : ℕ) (seen left : List String)
    → length left < fuel
    → ((m : ℕ) → n ≤ m → contains (candidate base m) seen ≡ contains (candidate base m) left)
    → (c : String) × (search_id fuel base n seen ≡ some c)
      × (contains c seen ≡ false)
      × ((c == "") ≡ false)
unfolding search_id
search_id-finds zero base n seen left h same = ground arith
search_id-finds (suc fuel) base n seen left h same =
    let c = candidate base n in
    elim (Bool-cases (contains c seen)) [
      | inr free ↦ rw (free, candidate-nonempty base n) (c, refl, free, candidate-nonempty base n)
      | inl used ↦ rw used (
          search_id-finds fuel base (suc n) seen (without c left)
            (ground (arith, length-without c left, same n, used))
            (λ m le. ground (
              arith,
              same m,
              contains-without c (candidate base m) left,
              candidate-inj base n m,
              eq_iff c (candidate base m),
            )))
    ]

new_id-finds :
    (base : String) (seen : List String)
    → (c : String) × (new_id base seen ≡ some c) × (contains c seen ≡ false) × ((c == "") ≡ false)
unfolding new_id
new_id-finds base seen = elim (Bool-cases (contains base seen || base == "")) [
  | inl used ↦
      rw used (search_id-finds (suc (length seen)) base 2 seen seen (omega arith) (λ m le. refl))
  | inr free ↦ rw free (base, refl, ground arith, ground arith)
]

-- No text stands twice in the list.
abbrev pub distinct : List String → Bool
distinct [] = true
distinct (x ∷ xs) = not (contains x xs) && distinct xs

-- What the second loop makes of n items with the given ids, when `seen` has these: an id for each item,
-- none of them twice, and the new ones are new.
abbrev Filled : List String → List String → ℕ → List String → Type 0
Filled seen given n ids =
    (distinct ids ≡ true)
    × (length ids ≡ n)
    × ((x : String) → contains x ids ≡ true → (contains x given || not (contains x seen)) ≡ true)

abbrev Seen : List String → List String → Type 0
Seen seen given = (x : String) → contains x given ≡ true → contains x seen ≡ true

keep-Filled :
    (seen given ids : List String) (n : ℕ) (i : String)
    → distinct (i ∷ given) ≡ true
    → Seen seen (i ∷ given)
    → Filled seen given n ids
    → Filled seen (i ∷ given) (suc n) (i ∷ ids)
keep-Filled seen given ids n i d h (dist, len, new) = (
  ground (arith, new i, h i, eq_iff i i),
  ground arith,
  λ x e. ground (arith, new x, h x, eq_iff i x),
)

name-Filled :
    (seen given ids : List String) (n : ℕ) (c : String)
    → contains c seen ≡ false
    → Seen seen given
    → Filled (c ∷ seen) given n ids
    → Filled seen given (suc n) (c ∷ ids)
name-Filled seen given ids n c f h (dist, len, new) = (
  ground (arith, new c, h c, eq_iff c c),
  ground arith,
  λ x e. ground (arith, new x, h x, eq_iff c x),
)

id_of-insert :
    (text : Value → String) (c : String) (item : Record)
    → text (str c) ≡ c
    → (c == "") ≡ false
    → id_of text (insert "id" (str c) item) ≡ some c
unfolding id_of truthy
id_of-insert text c item t full =
    ground (arith, t, full, lookup-insert "id" "id" (str c) item, eq_iff "id" "id")

given_ids-cons :
    (text : Value → String) (i : String) (item : Record) (items : List Record)
    → id_of text item ≡ some i
    → given_ids text (item ∷ items) ≡ i ∷ given_ids text items
unfolding given_ids
given_ids-cons text i item items e =
    let ids = given_ids text items in ap (λ o. elim o [ none ↦ ids | some i ↦ i ∷ ids ]) e

given_ids-skip :
    (text : Value → String) (item : Record) (items : List Record)
    → id_of text item ≡ none
    → given_ids text (item ∷ items) ≡ given_ids text items
unfolding given_ids
given_ids-skip text item items e =
    let ids = given_ids text items in ap (λ o. elim o [ none ↦ ids | some i ↦ i ∷ ids ]) e

fill_ids-keep :
    (text : Value → String) (seen : List String) (i : String) (item : Record)
    (items out : List Record)
    → id_of text item ≡ some i
    → fill_ids text seen items ≡ some out
    → fill_ids text seen (item ∷ items) ≡ some (item ∷ out)
unfolding fill_ids
fill_ids-keep text seen i item items out given ran = ground (arith, given, ran)

fill_ids-name :
    (text : Value → String) (seen : List String) (c : String) (item : Record)
    (items out : List Record)
    → id_of text item ≡ none
    → new_id (base_of text item) seen ≡ some c
    → fill_ids text (c ∷ seen) items ≡ some out
    → fill_ids text seen (item ∷ items) ≡ some (insert "id" (str c) item ∷ out)
unfolding fill_ids
fill_ids-name text seen c item items out missing found ran = ground (arith, missing, found, ran)

abbrev FilledBy : (Value → String) → List String → List Record → List Record → Type 0
FilledBy text seen items out =
    Filled seen (given_ids text items) (length items) (given_ids text out)

fill_ids-Filled :
    (text : Value → String) (seen : List String) (items : List Record)
    → ((s : String) → text (str s) ≡ s)
    → distinct (given_ids text items) ≡ true
    → Seen seen (given_ids text items)
    → (out : List Record) × (fill_ids text seen items ≡ some out) × FilledBy text seen items out
unfolding fill_ids given_ids
fill_ids-Filled text seen [] t d h = ([], refl, (refl, refl, λ x e. cc))
fill_ids-Filled text seen (item ∷ items) t d h = elim (Option-cases (id_of text item)) [
  | inr (i, given) ↦
      let d' = subst (λ ids. distinct ids ≡ true) (given_ids-cons text i item items given) d in
      let h' = subst (Seen seen) (given_ids-cons text i item items given) h in
      let (out, ran, filled) =
        fill_ids-Filled text seen items t (ground (arith, d')) (λ x e. ground (arith, h' x, e)) in
      (
        item ∷ out,
        fill_ids-keep text seen i item items out given ran,
        rw (given_ids-cons text i item items given, given_ids-cons text i item out given)
            (keep-Filled seen _ _ (length items) i d' h' filled),
      )
  | inl missing ↦
      let d' = subst (λ ids. distinct ids ≡ true) (given_ids-skip text item items missing) d in
      let h' = subst (Seen seen) (given_ids-skip text item items missing) h in
      let (c, found, free, full) = new_id-finds (base_of text item) seen in
      let (out, ran, filled) =
        fill_ids-Filled text (c ∷ seen) items t d' (λ x e. ground (arith, h' x, e)) in
      let named = id_of-insert text c item (t c) full in
      (
        insert "id" (str c) item ∷ out,
        fill_ids-name text seen c item items out missing found ran,
        rw
            (
              given_ids-skip text item items missing,
              given_ids-cons text c (insert "id" (str c) item) out named,
            )
            (name-Filled seen _ _ (length items) c free h' filled),
      )
]

-- Where the ids that items bring along are distinct, and `str` of a text is the text: the generation of ids
-- ends, whatever names the items have, every item has an id behind it, and all are distinct.
pub autogen_ids-distinct :
    (text : Value → String) (items : List Record)
    → ((s : String) → text (str s) ≡ s)
    → distinct (given_ids text items) ≡ true
    → (out : List Record) × (autogen_ids text items ≡ some out)
      × (length (given_ids text out) ≡ length items)
      × (distinct (given_ids text out) ≡ true)
unfolding autogen_ids
autogen_ids-distinct text items t d =
    let (out, ran, (dist, len, new)) =
      fill_ids-Filled text (given_ids text items) items t d (λ x e. e) in
    (out, ran, len, dist)
