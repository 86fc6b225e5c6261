-- ===== src/Common/Sorting.antt =====
-- Python's `sorted`, over a total order, and what it forgets of a list: exactly the order.
use Prim.Native.String.{String}
use text.Mathlib.TextEquality.{Char-path}
use Prim.Native.Char.{code}
use mathlib.Core.Path.{◌≡◌, refl, sym, ◌∙◌, ap, subst}
use mathlib.Core.Logic.{◌↔◌, inl, inr}
use mathlib.Core.Bool.{Bool, true, false}
use mathlib.Core.List.{List, [], ◌∷◌}
use mathlib.Core.List.Perm
use mathlib.Core.List.{Perm, is_set, foldr}
use native.Mathlib.Omega.{arith}
use stargraph.Common.Tests.{if◌then◌else◌, Bool-cases, ltb, nat_eq, string_keys, ◌==◌}

-- A total order, as a test.
pub record TotalOrder {ℓ} (K : Type ℓ) : Type ℓ where
  pub le : K → K → Bool
  pub le_total : (x y : K) → le x y ≡ false → le y x ≡ true
  pub le_antisymm : (x y : K) → le x y ≡ true → le y x ≡ true → x ≡ y
  pub le_trans : (x y z : K) → le x y ≡ true → le y z ≡ true → le x z ≡ true

module _ {ℓ} {K : Type ℓ} ⦃o : TotalOrder K⦄ where
  abbrev pub insort : K → List K → List K
  insort k [] = k ∷ []
  insort k (x ∷ xs) = let rest = insort k xs in if o.le k x then k ∷ x ∷ xs else x ∷ rest

  -- `sorted(xs)`
  unfoldable pub sorted : List K → List K
  sorted xs = foldr insort [] xs

  insort_comm_of_lt :
      (a b : K) (xs : List K)
      → o.le a b ≡ true
      → o.le b a ≡ false
      → insort a (insort b xs) ≡ insort b (insort a xs)
  insort_comm_of_lt a b [] ab ba = ground arith
  insort_comm_of_lt a b (x ∷ xs) ab ba = elim (Bool-cases (o.le b x)) [
    | inl bx ↦ ground (arith, o.le_trans a b x ab bx)
    | inr bx ↦ elim (Bool-cases (o.le a x)) [
      | inl ax ↦ ground arith
      | inr ax ↦ ground (arith, insort_comm_of_lt a b xs ab ba)
    ]
  ]

  insort_comm : (a b : K) (xs : List K) → insort a (insort b xs) ≡ insort b (insort a xs)
  insort_comm a b xs = elim (Bool-cases (o.le a b)) [
    | inl ab ↦ elim (Bool-cases (o.le b a)) [
      | inl ba ↦
          subst (λ z. insort a (insort z xs) ≡ insort z (insort a xs)) (o.le_antisymm a b ab ba)
            refl
      | inr ba ↦ insort_comm_of_lt a b xs ab ba
    ]
    | inr ab ↦ sym (insort_comm_of_lt b a xs (o.le_total a b ab) ab)
  ]

  insort-perm : (k : K) (xs : List K) → Perm (insort k xs) (k ∷ xs)
  insort-perm k [] = Perm.rfl
  insort-perm k (x ∷ xs) = elim (Bool-cases (o.le k x)) [
    | inl first ↦ rw first Perm.rfl
    | inr later ↦ rw later (Perm.trans (Perm.cons x (insort-perm k xs)) (Perm.swap k x xs))
  ]

  sorted-perm : (xs : List K) → Perm (sorted xs) xs
  unfolding sorted
  sorted-perm [] = Perm.nil
  sorted-perm (x ∷ xs) = Perm.trans (insort-perm x (sorted xs)) (Perm.cons x (sorted-perm xs))

  -- Two lists are sorted alike exactly if one is a permutation of the other.
  pub sorted-eq_iff : IsSet K → (xs ys : List K) → (sorted xs ≡ sorted ys) ↔ Perm xs ys
  unfolding sorted
  sorted-eq_iff set xs ys = (
    λ e. Perm.trans (Perm.symm (sorted-perm xs)) (subst (λ z. Perm z ys) (sym e) (sorted-perm ys)),
    λ p. Perm.foldr-eq (is_set set) insort insort_comm p [],
  )

pub String_discrete : Discrete String
String_discrete s t = elim (Bool-cases (s == t)) [
  | inl same ↦ yes ((string_keys.same_iff s t).0 same)
  | inr other ↦ no λ e. ground (arith, string_keys.same_iff s t)
]

-- Texts, by the code points from the left.
unfoldable pub le_text : String → String → Bool
le_text String.[] t = true
le_text (String.◌∷◌ c s) String.[] = false
le_text (String.◌∷◌ c s) (String.◌∷◌ d t) =
    let rest = le_text s t in
    if ltb (code c) (code d) then true else if nat_eq (code c) (code d) then rest else false

pub le_text_total : (s t : String) → le_text s t ≡ false → le_text t s ≡ true
unfolding le_text
le_text_total String.[] t h = cc
le_text_total (String.◌∷◌ c s) String.[] h = refl
le_text_total (String.◌∷◌ c s) (String.◌∷◌ d t) h = ground (arith, le_text_total s t)

pub le_text_antisymm : (s t : String) → le_text s t ≡ true → le_text t s ≡ true → s ≡ t
unfolding le_text
le_text_antisymm String.[] String.[] h k = refl
le_text_antisymm String.[] (String.◌∷◌ d t) h k = cc
le_text_antisymm (String.◌∷◌ c s) String.[] h k = cc
le_text_antisymm (String.◌∷◌ c s) (String.◌∷◌ d t) h k =
    ap (λ z. String.◌∷◌ z s) (Char-path c d (ground arith))
    ∙ ap (String.◌∷◌ d) (le_text_antisymm s t (ground arith) (ground arith))

pub le_text_trans : (s t u : String) → le_text s t ≡ true → le_text t u ≡ true → le_text s u ≡ true
unfolding le_text
le_text_trans String.[] t u h k = refl
le_text_trans (String.◌∷◌ c s) String.[] u h k = cc
le_text_trans (String.◌∷◌ c s) (String.◌∷◌ d t) String.[] h k = cc
le_text_trans (String.◌∷◌ c s) (String.◌∷◌ d t) (String.◌∷◌ e u) h k =
    ground (arith, le_text_trans s t u)

instance abbrev pub text_order : TotalOrder String
text_order = record {
  le = le_text;
  le_total = le_text_total;
  le_antisymm = le_text_antisymm;
  le_trans = le_text_trans;
}

-- Pairs, by the first component and then by the second.
module _ {A B : Type 0} ⦃a : TotalOrder A⦄ ⦃b : TotalOrder B⦄ where
  unfoldable pub le_pair : A × B → A × B → Bool
  le_pair x y = if a.le x.0 y.0 then (if a.le y.0 x.0 then b.le x.1 y.1 else true) else false

  pub le_pair_total : (x y : A × B) → le_pair x y ≡ false → le_pair y x ≡ true
  unfolding le_pair
  le_pair_total x y h = ground (arith, a.le_total x.0 y.0, b.le_total x.1 y.1)

  pub le_pair_antisymm : (x y : A × B) → le_pair x y ≡ true → le_pair y x ≡ true → x ≡ y
  unfolding le_pair
  le_pair_antisymm x y h k = ground (arith, a.le_antisymm x.0 y.0, b.le_antisymm x.1 y.1)

  pub le_pair_trans : (x y z : A × B) → le_pair x y ≡ true → le_pair y z ≡ true → le_pair x z ≡ true
  unfolding le_pair
  le_pair_trans x y z h k = ground (
    arith,
    a.le_trans x.0 y.0 z.0,
    a.le_trans z.0 y.0 x.0,
    a.le_trans y.0 z.0 x.0,
    a.le_trans z.0 x.0 y.0,
    b.le_trans x.1 y.1 z.1,
  )

  instance abbrev pub pair_order : TotalOrder (A × B)
  pair_order = record {
    le = le_pair;
    le_total = le_pair_total;
    le_antisymm = le_pair_antisymm;
    le_trans = le_pair_trans;
  }
