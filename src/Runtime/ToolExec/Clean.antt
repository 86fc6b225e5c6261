-- ===== src/Runtime/ToolExec/Clean.antt =====
-- What no string of a sanitized payload holds.
use Prim.Native.Char.{Char, code}
use stargraph.Common.{
  ℕ, zero, suc, ◌≡◌, refl, String, Bool, true, false, not, ◌&&◌, none, some, [], ◌∷◌, Value, null,
  bool, int, neg_int, str, atom, obj, arr, Members, no_member, member, Elements, no_element,
  element, Record, if◌then◌else◌, nat_eq, Bool-cases, inl, inr,
}
use stargraph.Runtime.ToolExec.Sanitize.{
  is_control, strip_control, escape, before, marker_at, drop_markers, sanitize_str, sanitize,
  sanitize_members, sanitize_elements, sanitize_payload,
}

-- No control character, and none of `<`, `>`, `"` and `'`.
abbrev pub is_safe : ℕ → Bool
is_safe n =
    not (is_control n)
    && (not (nat_eq n 60) && (not (nat_eq n 62) && (not (nat_eq n 34) && not (nat_eq n 39))))

abbrev pub AllSafe : String → Type 0
AllSafe String.[] = Unit
AllSafe (String.◌∷◌ c s) = (is_safe (code c) ≡ true) × AllSafe s

-- Every string leaf, at any depth.
mutual
  pub IsClean : Value → Type 0
  IsClean (str s) = AllSafe s
  IsClean (obj ms) = AllClean ms
  IsClean (arr es) = EachClean es
  IsClean _ = Unit

  pub AllClean : Members → Type 0
  AllClean no_member = Unit
  AllClean (member k v ms) = IsClean v × AllClean ms

  pub EachClean : Elements → Type 0
  EachClean no_element = Unit
  EachClean (element v es) = IsClean v × EachClean es

abbrev NoControl : String → Type 0
NoControl String.[] = Unit
NoControl (String.◌∷◌ c s) = (is_control (code c) ≡ false) × NoControl s

strip_control-NoControl : (s : String) → NoControl (strip_control s)
strip_control-NoControl String.[] = tt
strip_control-NoControl (String.◌∷◌ c s) = elim (Bool-cases (is_control (code c))) [
  | inl bad ↦ rw bad (strip_control-NoControl s)
  | inr good ↦ rw good (good, strip_control-NoControl s)
]

before-AllSafe : (p s : String) → AllSafe p → AllSafe s → AllSafe (before p s)
before-AllSafe String.[] s hp hs = hs
before-AllSafe (String.◌∷◌ c p) s (safe, hp) hs = (safe, before-AllSafe p s hp hs)

-- One character, escaped.
abbrev escape_char : Char → String → String
escape_char c rest =
    let n = code c in
    if nat_eq n 38
    then before "&amp;" rest
    else if nat_eq n 60
    then before "&lt;" rest
    else if nat_eq n 62
    then before "&gt;" rest
    else if nat_eq n 34
    then before "&quot;" rest
    else if nat_eq n 39
    then before "&#x27;" rest
    else String.◌∷◌ c rest

escape_char-AllSafe :
    (c : Char) (rest : String)
    → is_control (code c) ≡ false
    → AllSafe rest
    → AllSafe (escape_char c rest)
escape_char-AllSafe c rest plain h = elim (Bool-cases (nat_eq (code c) 38)) [
  | inl e ↦ rw e (refl, (refl, (refl, (refl, (refl, h)))))
  | inr amp ↦ rw amp (elim (Bool-cases (nat_eq (code c) 60)) [
    | inl e ↦ rw e (refl, (refl, (refl, (refl, h))))
    | inr lt ↦ rw lt (elim (Bool-cases (nat_eq (code c) 62)) [
      | inl e ↦ rw e (refl, (refl, (refl, (refl, h))))
      | inr gt ↦ rw gt (elim (Bool-cases (nat_eq (code c) 34)) [
        | inl e ↦ rw e (refl, (refl, (refl, (refl, (refl, (refl, h))))))
        | inr quot ↦ rw quot (elim (Bool-cases (nat_eq (code c) 39)) [
          | inl e ↦ rw e (refl, (refl, (refl, (refl, (refl, (refl, h))))))
          | inr apos ↦ rw apos (rw (plain, lt, gt, quot, apos) refl, h)
        ])
      ])
    ])
  ])
]

escape-AllSafe : (s : String) → NoControl s → AllSafe (escape s)
escape-AllSafe String.[] h = tt
escape-AllSafe (String.◌∷◌ c s) (plain, h) =
    escape_char-AllSafe c (escape s) plain (escape-AllSafe s h)

drop_markers-AllSafe : (skip : ℕ) (s : String) → AllSafe s → AllSafe (drop_markers skip s)
unfolding drop_markers
drop_markers-AllSafe skip String.[] h = tt
drop_markers-AllSafe (suc skip) (String.◌∷◌ c s) (safe, h) = drop_markers-AllSafe skip s h
drop_markers-AllSafe zero (String.◌∷◌ c s) (safe, h) =
    elim (marker_at (String.◌∷◌ c s))
      as (λ o. AllSafe (elim o as (λ _. String) [
        | none ↦ String.◌∷◌ c (drop_markers zero s)
        | some more ↦ drop_markers more s
      ])) [
        | none ↦ (safe, drop_markers-AllSafe zero s h)
        | some more ↦ drop_markers-AllSafe more s h
      ]

sanitize_str-AllSafe : (s : String) → AllSafe (sanitize_str s)
unfolding sanitize_str
sanitize_str-AllSafe s =
    drop_markers-AllSafe 0 (escape (strip_control s))
      (escape-AllSafe (strip_control s) (strip_control-NoControl s))

mutual
  unfolding sanitize IsClean

  pub sanitize-IsClean : (v : Value) → IsClean (sanitize v)
  sanitize-IsClean (str s) = sanitize_str-AllSafe s
  sanitize-IsClean (obj ms) = sanitize_members-AllClean ms
  sanitize-IsClean (arr es) = sanitize_elements-EachClean es
  sanitize-IsClean null = tt
  sanitize-IsClean (bool b) = tt
  sanitize-IsClean (int n) = tt
  sanitize-IsClean (neg_int n) = tt
  sanitize-IsClean (atom type text) = tt

  sanitize_members-AllClean : (ms : Members) → AllClean (sanitize_members ms)
  sanitize_members-AllClean no_member = tt
  sanitize_members-AllClean (member k v ms) = (sanitize-IsClean v, sanitize_members-AllClean ms)

  sanitize_elements-EachClean : (es : Elements) → EachClean (sanitize_elements es)
  sanitize_elements-EachClean no_element = tt
  sanitize_elements-EachClean (element v es) = (sanitize-IsClean v, sanitize_elements-EachClean es)

abbrev pub CleanPayload : Record → Type 0
CleanPayload [] = Unit
CleanPayload ((k, v) ∷ d) = IsClean v × CleanPayload d

pub sanitize_payload-CleanPayload : (d : Record) → CleanPayload (sanitize_payload d)
unfolding sanitize_payload
sanitize_payload-CleanPayload [] = tt
sanitize_payload-CleanPayload ((k, v) ∷ d) = (sanitize-IsClean v, sanitize_payload-CleanPayload d)
