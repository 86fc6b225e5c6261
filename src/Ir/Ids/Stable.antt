-- ===== src/Ir/Ids/Stable.antt =====
-- The grammar of stable ids, and what the validator takes.
use stargraph.Common.{
  ℕ, zero, suc, ◌≤◌, ◌≡◌, refl, ◌↔◌, String, Bool, true, false, List, [], ◌∷◌, ◌&&◌, arith, ok,
  if◌then◌else◌, leb, nat_eq, nat_eq_iff, all, length, codes,
}
use stargraph.Ir.Ids.{starts_id, continues_id, matches_tail, matches_id, validate_stable_id}

-- A text without its last newline.
abbrev pub chomp : List ℕ → List ℕ
chomp [] = []
chomp (c ∷ []) = if nat_eq c 10 then [] else c ∷ []
chomp (c ∷ d ∷ cs) = c ∷ chomp (d ∷ cs)

-- One to 128 characters: a lowercase letter or a digit, then letters, digits, `_`, `-` and `.`.
abbrev pub is_id : List ℕ → Bool
is_id [] = false
is_id (c ∷ cs) = starts_id c && all continues_id cs && leb (length cs) 127

matches_tail-chomp :
    (n : ℕ) (cs : List ℕ)
    → matches_tail n cs ≡ leb (length (chomp cs)) n && all continues_id (chomp cs)
matches_tail-chomp n [] = ground arith
matches_tail-chomp zero (c ∷ []) = ground (arith, nat_eq_iff c 10)
matches_tail-chomp (suc n) (c ∷ []) = ground (arith, nat_eq_iff c 10)
matches_tail-chomp zero (c ∷ d ∷ cs) = ground arith
matches_tail-chomp (suc n) (c ∷ d ∷ cs) = ground (arith, matches_tail-chomp n (d ∷ cs))

pub matches_id-chomp : (cs : List ℕ) → matches_id cs ≡ is_id (chomp cs)
matches_id-chomp [] = refl
matches_id-chomp (c ∷ []) = ground (arith, nat_eq_iff c 10)
matches_id-chomp (c ∷ d ∷ cs) = ground (arith, matches_tail-chomp 127 (d ∷ cs))

-- The validator takes exactly the ids of the grammar, and those with a newline behind them, of at most 128
-- characters in all.
pub validate_stable_id-accepts :
    (kind s : String)
    → (validate_stable_id kind s ≡ ok s)
      ↔ ((length (codes s) ≤ 128) × (is_id (chomp (codes s)) ≡ true))
unfolding validate_stable_id
validate_stable_id-accepts kind s = (
  λ e. ground (arith, e, matches_id-chomp (codes s)),
  λ h. ground (arith, h, matches_id-chomp (codes s)),
)
