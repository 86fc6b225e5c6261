-- ===== src/Common/Lists.antt =====
-- Lists measured and indexed by native numbers, under the library's names, and searches that run.
use Prim.Native.Nat.{ℕ, zero, suc, ◌+◌}
use mathlib.Core.Path.{◌≡◌, refl}
use mathlib.Core.Logic.{◌⊎◌, inl, inr}
use mathlib.Core.Bool.{Bool, true, false, ◌&&◌, ◌||◌}
use mathlib.Core.List.{List, [], ◌∷◌, ◌++◌}
use mathlib.Core.Option.{Option, none, some}
use native.Mathlib.Omega.{arith}
use stargraph.Common.Tests.{if◌then◌else◌, Bool-cases, nat_eq}

module _ {ℓ} {A : Type ℓ} where
  abbrev pub length : List A → ℕ
  length [] = 0
  length (x ∷ xs) = suc (length xs)

  abbrev pub get_elem? : List A → ℕ → Option A
  get_elem? [] i = none
  get_elem? (x ∷ xs) zero = some x
  get_elem? (x ∷ xs) (suc i) = get_elem? xs i

  -- `xs[i] = y`, where there is such an item
  abbrev pub set : List A → ℕ → A → List A
  set [] i y = []
  set (x ∷ xs) zero y = y ∷ xs
  set (x ∷ xs) (suc i) y = x ∷ set xs i y

  -- the list without its item i
  abbrev pub drop_at : List A → ℕ → List A
  drop_at [] i = []
  drop_at (x ∷ xs) zero = xs
  drop_at (x ∷ xs) (suc i) = x ∷ drop_at xs i

  -- `xs[-1]`, where there is one.
  abbrev pub get_last? : List A → Option A
  get_last? [] = none
  get_last? (x ∷ []) = some x
  get_last? (x ∷ y ∷ ys) = get_last? (y ∷ ys)

  -- the first item that passes the test
  abbrev pub find : (A → Bool) → List A → Option A
  find p [] = none
  find p (x ∷ xs) = if p x then some x else find p xs

  abbrev pub any : (A → Bool) → List A → Bool
  any p [] = false
  any p (x ∷ xs) = p x || any p xs

  abbrev pub all : (A → Bool) → List A → Bool
  all p [] = true
  all p (x ∷ xs) = p x && all p xs

  abbrev pub All {κ} : (A → Type κ) → List A → Type κ
  All P [] = Unit
  All P (x ∷ xs) = P x × All P xs

  pub length-append : (xs ys : List A) → length (xs ++ ys) ≡ length xs + length ys
  length-append [] ys = omega arith
  length-append (x ∷ xs) ys = omega (arith, length-append xs ys)

  pub get_last?-append : (xs : List A) (x : A) → get_last? (xs ++ x ∷ []) ≡ some x
  get_last?-append [] x = refl
  get_last?-append (y ∷ []) x = refl
  get_last?-append (y ∷ z ∷ zs) x = get_last?-append (z ∷ zs) x

  -- what a search finds passes its test
  pub find-holds : (p : A → Bool) (xs : List A) (x : A) → find p xs ≡ some x → p x ≡ true
  find-holds p [] x e = cc
  find-holds p (y ∷ ys) x e = elim (Bool-cases (p y)) [
    | inl hit ↦ ground arith
    | inr miss ↦ find-holds p ys x (ground arith)
  ]

abbrev pub is_some {ℓ} : {A : Type ℓ} → Option A → Bool
is_some none = false
is_some (some x) = true

module _ {ℓ} {A : Type ℓ} where
  pub any-append : (p : A → Bool) (xs ys : List A) → any p (xs ++ ys) ≡ any p xs || any p ys
  any-append p [] ys = refl
  any-append p (x ∷ xs) ys = ground (arith, any-append p xs ys)

  pub any-set :
      (p : A → Bool) (xs : List A) (k : ℕ) (x y : A)
      → get_elem? xs k ≡ some x
      → any p xs ≡ true
      → any p (set xs k y) ≡ true ⊎ (p x ≡ true) × (p y ≡ false)
  any-set p [] k x y e h = cc
  any-set p (z ∷ xs) zero x y e h = ground arith
  any-set p (z ∷ xs) (suc k) x y e h = ground (arith, any-set p xs k x y e)

  pub any-drop_at :
      (p : A → Bool) (xs : List A) (k : ℕ) (x : A)
      → get_elem? xs k ≡ some x
      → p x ≡ false
      → any p xs ≡ true
      → any p (drop_at xs k) ≡ true
  any-drop_at p [] k x e o h = cc
  any-drop_at p (z ∷ xs) zero x e o h = ground arith
  any-drop_at p (z ∷ xs) (suc k) x e o h = ground (arith, any-drop_at p xs k x e o)

  pub get_elem?-set :
      (xs : List A) (k j : ℕ) (x y : A)
      → get_elem? xs k ≡ some x
      → get_elem? (set xs k y) j ≡ (if nat_eq k j then some y else get_elem? xs j)
  get_elem?-set [] k j x y e = cc
  get_elem?-set (z ∷ xs) zero zero x y e = refl
  get_elem?-set (z ∷ xs) zero (suc j) x y e = ground arith
  get_elem?-set (z ∷ xs) (suc k) zero x y e = ground arith
  get_elem?-set (z ∷ xs) (suc k) (suc j) x y e = ground (arith, get_elem?-set xs k j x y e)

  pub get_elem?-append :
      (xs : List A) (y : A) (j : ℕ)
      → get_elem? (xs ++ y ∷ []) j ≡ (if nat_eq (length xs) j then some y else get_elem? xs j)
  get_elem?-append [] y zero = refl
  get_elem?-append [] y (suc j) = ground arith
  get_elem?-append (x ∷ xs) y zero = ground arith
  get_elem?-append (x ∷ xs) y (suc j) = ground (arith, get_elem?-append xs y j)
