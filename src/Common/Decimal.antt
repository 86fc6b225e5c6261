-- ===== src/Common/Decimal.antt =====
-- `str(n)`: decimal digits.
use Prim.Native.Char.{code, Char}
use Prim.Native.String.{char_at}
use mathlib.Core.Path.{◌≡◌, refl, sym, ◌∙◌, ap}
use native.Mathlib.Omega.{arith}
use Prim.Native.Nat.{ℕ, zero, suc, ◌+◌, ◌-◌, ◌*◌, ◌/◌, ◌%◌, ◌<◌}
use Prim.Native.String.{String}
use stargraph.Common.Tests.{ltb, if◌then◌else◌, Bool-cases}
use mathlib.Core.Logic.{inl, inr}

abbrev digit : ℕ → Char
digit d = char_at "0123456789" d

-- The digits of n in front of a text; `fuel` bounds their number.
abbrev digits_before : ℕ → ℕ → String → String
digits_before zero n s = s
digits_before (suc fuel) n s =
    let more = digits_before fuel (n / 10) (String.◌∷◌ (digit (n % 10)) s) in
    if ltb n 10 then String.◌∷◌ (digit n) s else more

abbrev pub decimal : ℕ → String
decimal n = digits_before (suc n) n String.[]

-- What a text reads as, behind a number.
abbrev read : ℕ → String → ℕ
read a String.[] = a
read a (String.◌∷◌ c s) = read (a * 10 + (code c - 48)) s

code-digit : (d : ℕ) → d < 10 → code (digit d) ≡ 48 + d
code-digit zero h = refl
code-digit (suc zero) h = refl
code-digit (suc (suc zero)) h = refl
code-digit (suc (suc (suc zero))) h = refl
code-digit (suc (suc (suc (suc zero)))) h = refl
code-digit (suc (suc (suc (suc (suc zero))))) h = refl
code-digit (suc (suc (suc (suc (suc (suc zero)))))) h = refl
code-digit (suc (suc (suc (suc (suc (suc (suc zero))))))) h = refl
code-digit (suc (suc (suc (suc (suc (suc (suc (suc zero)))))))) h = refl
code-digit (suc (suc (suc (suc (suc (suc (suc (suc (suc zero))))))))) h = refl
code-digit (suc (suc (suc (suc (suc (suc (suc (suc (suc (suc d)))))))))) h = omega arith

read-digits_before :
    (fuel n : ℕ) (s : String) → n < fuel → read 0 (digits_before fuel n s) ≡ read n s
read-digits_before zero n s h = omega arith
read-digits_before (suc fuel) n s h = elim (Bool-cases (ltb n 10)) [
  | inl few ↦ rw few (ap (λ v. read v s) (ground (arith, few, code-digit n)))
  | inr many ↦ rw many (
      read-digits_before fuel (n / 10) (String.◌∷◌ (digit (n % 10)) s) (ground (arith, many))
      ∙ ap (λ v. read v s) (ground (arith, code-digit (n % 10))))
]

pub decimal-inj : (n m : ℕ) → decimal n ≡ decimal m → n ≡ m
decimal-inj n m e =
    sym (read-digits_before (suc n) n String.[] (omega arith))
    ∙ (ap (read 0) e ∙ read-digits_before (suc m) m String.[] (omega arith))
