-- ===== src/Replay/Counterfactual/Laws.antt =====
-- What the derived hash tells of a parent's hash and a mutation.
use mathlib.Core.List.{List-discrete}
use mathlib.Core.Path.{ap₂}
use native.Mathlib.Decide.{ℕ_discrete}
use text.Mathlib.TextEquality.{Char-path}
use stargraph.Common.{
  ℕ, ◌≡◌, refl, sym, ◌∙◌, ◌≢◌, ◌⊎◌, inl, inr, String, Bool, false, List, [], ◌∷◌, ◌++◌, Result, ok,
  >>=-eq-ok, codes, any, nat_eq, arith,
}
use stargraph.Replay.Counterfactual.{
  CounterfactualMutation, pre_image, encode_ascii, derived_graph_hash,
}

-- Whether a text has the separator in it; the hexadecimal digits of a hash have not.
abbrev pub has_nul : List ℕ → Bool
has_nul bytes = any (nat_eq 0) bytes

cons_inj : {c d : ℕ} {a b : List ℕ} → (c ∷ a) ≡ (d ∷ b) → (c ≡ d) × (a ≡ b)
cons_inj e = (cc, cc)

codes_inj : (s t : String) → codes s ≡ codes t → s ≡ t
codes_inj String.[] String.[] e = refl
codes_inj String.[] (String.◌∷◌ d t) e = absurd (cc)
codes_inj (String.◌∷◌ c s) String.[] e = absurd (cc)
codes_inj (String.◌∷◌ c s) (String.◌∷◌ d t) e =
    let (same, rest) = cons_inj e in
    ap₂ (λ x y. String.◌∷◌ x y) (Char-path c d same) (codes_inj s t rest)

split_nul :
    (a b x y : List ℕ)
    → has_nul a ≡ false
    → has_nul b ≡ false
    → (a ++ (0 ∷ x)) ≡ (b ++ (0 ∷ y))
    → (a ≡ b) × (x ≡ y)
split_nul [] [] x y ha hb e = (refl, cc)
split_nul [] (d ∷ b) x y ha hb e = absurd (ground arith)
split_nul (c ∷ a) [] x y ha hb e = absurd (ground arith)
split_nul (c ∷ a) (d ∷ b) x y ha hb e =
    let (same, rest) = split_nul a b x y (ground arith) (ground arith) (cc) in
    (ap₂ (λ u v. u ∷ v) (cons_inj e).0 same, rest)

pre_image_inj :
    (a b x y : List ℕ)
    → has_nul a ≡ false
    → has_nul b ≡ false
    → pre_image a x ≡ pre_image b y
    → (a ≡ b) × (x ≡ y)
unfolding pre_image
pre_image_inj a b x y ha hb e = split_nul a b x y ha hb (cc)

encode_ascii-codes : (s : String) (bytes : List ℕ) → encode_ascii s ≡ ok bytes → bytes ≡ codes s
unfolding encode_ascii
encode_ascii-codes s bytes e = ground arith

ok_inj : {s t : String} → ◌≡◌ {A = Result String} (ok s) (ok t) → s ≡ t
ok_inj e = cc

-- Two texts with one hash.
abbrev pub Collision : (List ℕ → String) → Type 0
Collision hash = (x : List ℕ) × (y : List ℕ) × (x ≢ y) × (hash x ≡ hash y)

-- If `derived_graph_hash` returns one hash for two pairs of a parent's hash and a mutation, and the parents' hashes
-- have no NUL character, then the parents' hashes are the same and the mutations have one canonical form, or the hash
-- function has a collision, which the proof names.
pub derived_graph_hash_inj :
    (sha256 : List ℕ → String) (dumps : CounterfactualMutation → List ℕ) (first second : String)
    (m n : CounterfactualMutation) (hash : String)
    → has_nul (codes first) ≡ false
    → has_nul (codes second) ≡ false
    → derived_graph_hash sha256 dumps first m ≡ ok hash
    → derived_graph_hash sha256 dumps second n ≡ ok hash
    → ((first ≡ second) × (dumps m ≡ dumps n)) ⊎ Collision sha256
unfolding derived_graph_hash
derived_graph_hash_inj sha256 dumps first second m n hash clean clean' e e' =
    let (a, ea, ha) = >>=-eq-ok (encode_ascii first) _ e in
    let (b, eb, hb) = >>=-eq-ok (encode_ascii second) _ e' in
    let sa = encode_ascii-codes first a ea in
    let sb = encode_ascii-codes second b eb in
    elim (List-discrete ℕ_discrete (pre_image a (dumps m)) (pre_image b (dumps n))) [
      | yes same ↦
          let (parents, forms) =
            pre_image_inj a b (dumps m) (dumps n) (rw sa clean) (rw sb clean') same in
          inl (codes_inj first second (sym sa ∙ parents ∙ sb), forms)
      | no apart ↦ inr (pre_image a (dumps m), pre_image b (dumps n), apart, ok_inj (ha ∙ sym hb))
    ]
