-- ===== src/Ir/When/Literals.antt =====
-- What CLIPS reads of the string literals that `compile_when` writes.
use Prim.Native.Char.{Char, char, code}
use text.Mathlib.TextLemmas.{cons-append, nil-append}
use stargraph.Common.{
  ◌≡◌, refl, inl, inr, ap, ◌∙◌, String, false, Option, none, some, arith, ◌||◌, if◌then◌else◌,
  nat_eq, text_append, Bool-cases,
}
use stargraph.Ir.When.{backslash, clips_string}

abbrev quote : Char
quote = char 34 tt

abbrev onto : Char → Option (String × String) → Option (String × String)
onto c none = none
onto c (some (inside, after)) = some (String.◌∷◌ c inside, after)

-- The inside of a CLIPS string, up to the quote that closes it, and what follows: a backslash takes the next
-- character as it is.
abbrev pub read_literal : String → Option (String × String)
read_literal String.[] = none
read_literal (String.◌∷◌ c String.[]) =
    if nat_eq (code c) 34 then some (String.[], String.[]) else none
read_literal (String.◌∷◌ c (String.◌∷◌ d s)) =
    let escaped = read_literal s in
    let plain = read_literal (String.◌∷◌ d s) in
    if nat_eq (code c) 34
    then some (String.[], String.◌∷◌ d s)
    else (if nat_eq (code c) 92 then onto d escaped else onto c plain)

read_literal-plain :
    (c : Char) (s : String)
    → nat_eq (code c) 34 ≡ false
    → nat_eq (code c) 92 ≡ false
    → read_literal (String.◌∷◌ c s) ≡ onto c (read_literal s)
read_literal-plain c String.[] q b = rw q refl
read_literal-plain c (String.◌∷◌ d s) q b = rw (q, b) refl

read_literal-quote : (s : String) → read_literal (String.◌∷◌ quote s) ≡ some (String.[], s)
read_literal-quote String.[] = refl
read_literal-quote (String.◌∷◌ d s) = refl

clips_string-cons :
    (c : Char) (s : String)
    → clips_string (String.◌∷◌ c s) ≡ (
        if nat_eq (code c) 34 || nat_eq (code c) 92
        then String.◌∷◌ backslash (String.◌∷◌ c (clips_string s))
        else String.◌∷◌ c (clips_string s))
unfolding clips_string
clips_string-cons c s = ground arith

-- No value leaves its literal: what CLIPS reads up to the closing quote is the value, whatever text stands
-- behind.
pub read_literal-clips_string :
    (value after : String)
    → read_literal (text_append (clips_string value) (String.◌∷◌ quote after)) ≡ some (value, after)
read_literal-clips_string String.[] after =
    unfold clips_string in
    ap read_literal (nil-append (String.◌∷◌ quote after)) ∙ read_literal-quote after
read_literal-clips_string (String.◌∷◌ c s) after =
    elim (Bool-cases (nat_eq (code c) 34 || nat_eq (code c) 92)) [
      | inl special ↦
          rw
            (
              clips_string-cons c s,
              special,
              cons-append,
              cons-append,
              read_literal-clips_string s after,
            )
            refl
      | inr plain ↦
          rw
            (
              clips_string-cons c s,
              plain,
              cons-append,
              read_literal-plain c (text_append (clips_string s) (String.◌∷◌ quote after))
                  (ground (arith, plain)) (ground (arith, plain)),
              read_literal-clips_string s after,
            )
            refl
    ]
