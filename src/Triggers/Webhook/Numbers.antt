-- ===== src/Triggers/Webhook/Numbers.antt =====
-- What src/stargraph/triggers/webhook.py uses of Python's integers and texts: `int(text)`, `f"{n}"`,
-- `abs` and `lower`. A header's text is decoded from Latin-1, so it has no other digits and spaces.
use stargraph.Common.{
  ℕ, zero, suc, ◌+◌, ◌-◌, ◌*◌, ◌≡◌, refl, ◌↔◌, String, Bool, true, false, ◌&&◌, ◌||◌, Option, none,
  some, List, [], ◌∷◌, arith, Eq, ◌==◌, if◌then◌else◌, ltb, nat_eq, nat_eq_iff, all, codes,
  text_append, Members, no_member, member, Record, string_keys,
}
use stargraph.Common.Decimal.{decimal}
use stargraph.Common.Dict.{insert}
use stargraph.Ir.Ids.{between}
use Prim.Native.Char.{code}
use Prim.Native.String.{char_at}

pub data ℤ : Type 0 where
  pos : ℕ → ℤ
  negsuc : ℕ → ℤ

abbrev same_int : ℤ → ℤ → Bool
same_int (pos n) (pos m) = nat_eq n m
same_int (negsuc n) (negsuc m) = nat_eq n m
same_int _ _ = false

pub same_int_iff : (x y : ℤ) → (same_int x y ≡ true) ↔ (x ≡ y)
same_int_iff (pos n) (pos m) = ground (arith, nat_eq_iff n m)
same_int_iff (pos n) (negsuc m) = ground arith
same_int_iff (negsuc n) (pos m) = ground arith
same_int_iff (negsuc n) (negsuc m) = ground (arith, nat_eq_iff n m)

instance abbrev pub int_keys : Eq ℤ
int_keys = record { same = same_int; same_iff = same_int_iff }

-- Triples as keys.
abbrev pub Triple : Type 0
Triple = String × String × ℤ

abbrev same_triple : Triple → Triple → Bool
same_triple x y = x.0 == y.0 && (x.1 == y.1 && x.2 == y.2)

pub same_triple_iff : (x y : Triple) → (same_triple x y ≡ true) ↔ (x ≡ y)
same_triple_iff x y =
    ground
      (arith, string_keys.same_iff x.0 y.0, string_keys.same_iff x.1 y.1, int_keys.same_iff x.2 y.2)

instance abbrev pub triple_keys : Eq Triple
triple_keys = record { same = same_triple; same_iff = same_triple_iff }

-- `f"{n}"`
abbrev pub text_of_int : ℤ → String
text_of_int (pos n) = decimal n
text_of_int (negsuc n) = text_append "-" (decimal (suc n))

-- `abs(now - timestamp)`
abbrev pub distance : ℕ → ℤ → ℕ
distance now (pos t) = (now - t) + (t - now)
distance now (negsuc t) = now + suc t

abbrev is_space : ℕ → Bool
is_space c = between 9 13 c || (between 28 32 c || (nat_eq c 133 || nat_eq c 160))

-- What `int` reads of the digits: single underscores may stand between them. The flag says that the
-- last character was a digit; `count` is the number of digits, of which Python takes 4300 at most.
abbrev read_digits : ℕ → ℕ → Bool → List ℕ → Option ℕ
read_digits n count after_digit [] = if after_digit && ltb count 4301 then some n else none
read_digits n count after_digit (c ∷ cs) =
    let next = read_digits (n * 10 + (c - 48)) (suc count) true cs in
    let skipped = read_digits n count false cs in
    if between 48 57 c
    then next
    else if nat_eq c 95 && after_digit
    then skipped
    else if after_digit && (ltb count 4301 && all is_space (c ∷ cs))
    then some n
    else none

abbrev negated : Option ℕ → Option ℤ
negated none = none
negated (some zero) = some (pos 0)
negated (some (suc n)) = some (negsuc n)

abbrev positive : Option ℕ → Option ℤ
positive none = none
positive (some n) = some (pos n)

abbrev read_int : List ℕ → Option ℤ
read_int [] = none
read_int (c ∷ cs) =
    let rest = read_int cs in
    if is_space c
    then rest
    else if nat_eq c 43
    then positive (read_digits 0 0 false cs)
    else if nat_eq c 45
    then negated (read_digits 0 0 false cs)
    else positive (read_digits 0 0 false (c ∷ cs))

-- `int(text)`, or `none` for a ValueError
unfoldable pub int_of_text : String → Option ℤ
int_of_text s = read_int (codes s)

-- `s.lower()`, for the ASCII names of headers
abbrev pub lower : String → String
lower String.[] = String.[]
lower (String.◌∷◌ c s) =
    String.◌∷◌
      (if between 65 90 (code c) then char_at "abcdefghijklmnopqrstuvwxyz" (code c - 65) else c)
      (lower s)

abbrev pub is_ascii : String → Bool
is_ascii s = all (λ c. ltb c 128) (codes s)

-- An object of JSON, as the dict that it becomes.
abbrev pub of_members : Members → Record → Record
of_members no_member d = d
of_members (member k v ms) d = of_members ms (insert k v d)

parses :
    (int_of_text " -1_000 " ≡ some (negsuc 999))
    × (int_of_text "12a" ≡ none)
    × (int_of_text "1__0" ≡ none)
unfolding int_of_text
parses = (refl, refl, refl)
