-- ===== src/Runtime/Merge/Paths.antt =====
-- The path of a custom merge strategy: what stands behind a prefix, and before and behind the last dot.
use Prim.Native.Char.{Char, char, code}
use mathlib.Core.Path.{ap₂, subst}
use text.Mathlib.TextLemmas.{nil-append, cons-append}
use text.Mathlib.TextEquality.{Char-path}
use stargraph.Common.{
  ◌≡◌, refl, sym, ap, ◌∙◌, inl, inr, String, Bool, false, none, some, strip_prefix, text_append,
  codes, any, nat_eq, nat_eq_iff, Bool-cases, Option-cases, arith,
}
use stargraph.Runtime.Merge.{rpartition}

cons_text_inj : {c d : Char} {s t : String} → c ≡ d → s ≡ t → (String.◌∷◌ c s) ≡ (String.◌∷◌ d t)
cons_text_inj p q = ap₂ (λ x y. String.◌∷◌ x y) p q

pub strip_prefix-some : (p s rest : String) → strip_prefix p s ≡ some rest → s ≡ text_append p rest
strip_prefix-some String.[] s rest e = let same : s ≡ rest = cc in same ∙ sym (nil-append rest)
strip_prefix-some (String.◌∷◌ c p) String.[] rest e = absurd (cc)
strip_prefix-some (String.◌∷◌ c p) (String.◌∷◌ d s) rest e =
    elim (Bool-cases (nat_eq (code c) (code d))) [
      | inl equal ↦
          let inner : strip_prefix p s ≡ some rest = ground (arith, e) in
          cons_text_inj (sym (Char-path c d ((nat_eq_iff (code c) (code d)).0 equal)))
            (strip_prefix-some p s rest inner)
          ∙ sym (cons-append c p rest)
      | inr other ↦ absurd (ground arith)
    ]

pub append-strip_prefix : (p rest : String) → strip_prefix p (text_append p rest) ≡ some rest
append-strip_prefix String.[] rest = ap some (nil-append rest)
append-strip_prefix (String.◌∷◌ c p) rest =
    ap (strip_prefix (String.◌∷◌ c p)) (cons-append c p rest)
    ∙ ground (arith, append-strip_prefix p rest)

-- Whether a text has a dot in it.
abbrev pub has_dot : String → Bool
has_dot s = any (nat_eq 46) (codes s)

pub rpartition-none : (s : String) → rpartition 46 s ≡ none → has_dot s ≡ false
unfolding rpartition
rpartition-none String.[] e = refl
rpartition-none (String.◌∷◌ c s) e = elim (Option-cases (rpartition 46 s)) [
  | inl none_left ↦ ground (arith, rpartition-none s none_left)
  | inr (found, at) ↦ absurd (ground arith)
]

dot_first : (c : Char) (s : String) → code c ≡ 46 → (String.◌∷◌ c s) ≡ text_append "." s
dot_first c s e =
    cons_text_inj (Char-path c (char 46 tt) e) (sym (nil-append s))
    ∙ sym (cons-append (char 46 tt) "" s)

-- What `rpartition` finds is split at its last dot.
abbrev pub IsSplit : String → String × String → Type 0
IsSplit s (before, after) =
    (s ≡ text_append before (text_append "." after)) × (has_dot after ≡ false)

pub rpartition-IsSplit :
    (s : String) (found : String × String) → rpartition 46 s ≡ some found → IsSplit s found
unfolding rpartition
rpartition-IsSplit String.[] found e = absurd (cc)
rpartition-IsSplit (String.◌∷◌ c s) found e = elim (Option-cases (rpartition 46 s)) [
  | inr ((before, after), at) ↦
      let (joined, plain) = rpartition-IsSplit s (before, after) at in
      let same : (String.◌∷◌ c before, after) ≡ found = cc in
      subst (IsSplit (String.◌∷◌ c s)) same
        (ap (String.◌∷◌ c) joined ∙ sym (cons-append c before (text_append "." after)), plain)
  | inl none_left ↦ elim (Bool-cases (nat_eq (code c) 46)) [
    | inl dot ↦
        let same : ("", s) ≡ found = cc in
        subst (IsSplit (String.◌∷◌ c s)) same (
          dot_first c s ((nat_eq_iff (code c) 46).0 dot) ∙ sym (nil-append (text_append "." s)),
          rpartition-none s none_left,
        )
    | inr other ↦ absurd (ground arith)
  ]
]
