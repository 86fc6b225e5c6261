-- ===== src/Ir/Validate/Pointer.antt =====
-- The paths in validation errors are JSON pointers that read back as the location.
use Prim.Native.Char.{Char, code}
use text.Mathlib.TextLemmas.{cons-append, nil-append}
use text.Mathlib.TextEquality.{Char-path}
use stargraph.Common.{
  ◌≡◌, refl, inl, inr, ap, ◌∙◌, sym, String, true, false, List, [], ◌∷◌, if◌then◌else◌, nat_eq,
  nat_eq_iff, text_append, Bool-cases,
}
use stargraph.Ir.Validate.{tilde, slash, zero_char, one_char, escape_segment, loc_to_pointer}

abbrev next : (String × List String) → String × List String
next (segment, segments) = (String.[], segment ∷ segments)

abbrev onto : Char → (String × List String) → String × List String
onto c (segment, segments) = (String.◌∷◌ c segment, segments)

-- RFC 6901: the rest of a segment and the segments behind it. `~1` is a slash and `~0` a tilde.
abbrev read_segments : String → String × List String
read_segments String.[] = (String.[], [])
read_segments (String.◌∷◌ c String.[]) =
    if nat_eq (code c) b'/' then next (String.[], []) else (String.◌∷◌ c String.[], [])
read_segments (String.◌∷◌ c (String.◌∷◌ d s)) =
    let escaped = read_segments s in
    let plain = read_segments (String.◌∷◌ d s) in
    if nat_eq (code c) b'/'
    then next plain
    else (if nat_eq (code c) b'~'
        then onto (if nat_eq (code d) b'1' then slash else tilde) escaped
        else onto c plain)

-- The segments of a pointer; the empty pointer has none.
abbrev pub read_pointer : String → List String
read_pointer s = (read_segments s).1

read_segments-plain :
    (c : Char) (s : String)
    → nat_eq (code c) b'/' ≡ false
    → nat_eq (code c) b'~' ≡ false
    → read_segments (String.◌∷◌ c s) ≡ onto c (read_segments s)
read_segments-plain c String.[] q b = rw q refl
read_segments-plain c (String.◌∷◌ d s) q b = rw (q, b) refl

read_segments-slash : (s : String) → read_segments (String.◌∷◌ slash s) ≡ next (read_segments s)
read_segments-slash String.[] = refl
read_segments-slash (String.◌∷◌ d s) = refl

escape_segment-tilde :
    (c : Char) (s : String)
    → nat_eq (code c) b'~' ≡ true
    → escape_segment (String.◌∷◌ c s) ≡ String.◌∷◌ tilde (String.◌∷◌ zero_char (escape_segment s))
unfolding escape_segment
escape_segment-tilde c s e = rw e refl

escape_segment-slash :
    (c : Char) (s : String)
    → nat_eq (code c) b'/' ≡ true
    → nat_eq (code c) b'~' ≡ false
    → escape_segment (String.◌∷◌ c s) ≡ String.◌∷◌ tilde (String.◌∷◌ one_char (escape_segment s))
unfolding escape_segment
escape_segment-slash c s e f = rw (f, e) refl

escape_segment-plain :
    (c : Char) (s : String)
    → nat_eq (code c) b'/' ≡ false
    → nat_eq (code c) b'~' ≡ false
    → escape_segment (String.◌∷◌ c s) ≡ String.◌∷◌ c (escape_segment s)
unfolding escape_segment
escape_segment-plain c s e f = rw (f, e) refl

read_segments-escape :
    (s after : String) (segments : List String)
    → read_segments after ≡ (String.[], segments)
    → read_segments (text_append (escape_segment s) after) ≡ (s, segments)
read_segments-escape String.[] after segments e =
    unfold escape_segment in ap read_segments (nil-append after) ∙ e
read_segments-escape (String.◌∷◌ c s) after segments e =
    let later = read_segments-escape s after segments e in
    elim (Bool-cases (nat_eq (code c) b'~')) [
      | inl is_tilde ↦
          let same : tilde ≡ c = Char-path tilde c (sym ((nat_eq_iff (code c) b'~').0 is_tilde)) in
          rw (escape_segment-tilde c s is_tilde, cons-append, cons-append, later)
            (ap (λ d. (String.◌∷◌ d s, segments)) same)
      | inr not_tilde ↦ elim (Bool-cases (nat_eq (code c) b'/')) [
        | inl is_slash ↦
            let same : slash ≡ c =
              Char-path slash c (sym ((nat_eq_iff (code c) b'/').0 is_slash)) in
            rw (escape_segment-slash c s is_slash not_tilde, cons-append, cons-append, later)
              (ap (λ d. (String.◌∷◌ d s, segments)) same)
        | inr plain ↦
            rw
              (
                escape_segment-plain c s plain not_tilde,
                cons-append,
                read_segments-plain c (text_append (escape_segment s) after) plain not_tilde,
                later,
              )
              refl
      ]
    ]

read_segments-loc_to_pointer :
    (loc : List String) → read_segments (loc_to_pointer loc) ≡ (String.[], loc)
unfolding loc_to_pointer
read_segments-loc_to_pointer [] = refl
read_segments-loc_to_pointer (s ∷ loc) =
    read_segments-slash (text_append (escape_segment s) (loc_to_pointer loc))
    ∙ ap next (read_segments-escape s (loc_to_pointer loc) loc (read_segments-loc_to_pointer loc))

-- The pointer of a location reads back as the location, whatever slashes and tildes its segments have.
pub read_pointer-loc_to_pointer : (loc : List String) → read_pointer (loc_to_pointer loc) ≡ loc
read_pointer-loc_to_pointer loc = ap (λ r. r.1) (read_segments-loc_to_pointer loc)
