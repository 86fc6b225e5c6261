-- ===== src/Triggers/Webhook/Nonces.antt =====
-- `_NonceLRU` of src/stargraph/triggers/webhook.py: an ordered dict of the keys that were seen, the oldest first.
use stargraph.Common.{
  ℕ, suc, ◌≤◌, ◌<◌, ◌≡◌, refl, ◌⊎◌, inl, inr, Bool, true, false, Option, none, some, List, [], ◌∷◌,
  ◌++◌, arith, Eq, ◌==◌, if◌then◌else◌, ltb, nat_eq, length, length-append, any, Bool-cases,
  Option-cases, sym, Result, ok, err, value_error,
}
use mathlib.Core.Path.{subst}

pub record NonceLru {ℓ} (K : Type ℓ) : Type ℓ where
  pub keys : List K
  pub capacity : ℕ

module _ {ℓ} {K : Type ℓ} where
  -- `_NonceLRU.__init__`
  unfoldable pub new_lru : ℕ → Result (NonceLru K)
  new_lru capacity =
      if nat_eq capacity 0
      then err (value_error "nonce_lru_size must be > 0")
      else ok (record { keys = []; capacity = capacity })

  -- `popitem(last=False)`
  abbrev pop_first : List K → List K
  pop_first [] = []
  pop_first (x ∷ xs) = xs

module _ {ℓ} {K : Type ℓ} ⦃e : Eq K⦄ where
  unfoldable pub key_seen : K → List K → Bool
  key_seen k xs = any (λ x. x == k) xs

  abbrev erase : K → List K → List K
  erase k [] = []
  erase k (x ∷ xs) = let rest = erase k xs in if x == k then xs else x ∷ rest

  -- `move_to_end`
  unfoldable pub move_to_end : K → List K → List K
  move_to_end k xs = erase k xs ++ k ∷ []

  unfoldable pub record_new : K → NonceLru K → NonceLru K
  record_new k c =
      let grown = c.keys ++ k ∷ [] in
      record c { keys = if ltb c.capacity (length grown) then pop_first grown else grown }

  -- `check_and_record`
  unfoldable pub check_and_record : K → NonceLru K → Bool × NonceLru K
  unfolding key_seen move_to_end record_new
  check_and_record k c =
      if key_seen k c.keys
      then (false, record c { keys = move_to_end k c.keys })
      else (true, record_new k c)

  -- The keys that came after a key's first place.
  abbrev age : K → List K → Option ℕ
  age k [] = none
  age k (x ∷ xs) = let later = age k xs in if x == k then some (length xs) else later

  -- The key is there, with at most so many behind it.
  abbrev pub IsYoung : K → ℕ → List K → Type 0
  IsYoung k n xs = (m : ℕ) × (age k xs ≡ some m) × (m ≤ n)

  age-append :
      (k y : K) (xs : List K) (m : ℕ) → age k xs ≡ some m → age k (xs ++ y ∷ []) ≡ some (suc m)
  age-append k y [] m h = cc
  age-append k y (x ∷ xs) m h =
      ground (arith, e.same_iff x k, length-append xs (y ∷ []), age-append k y xs m)

  age-append_self : (k : K) (xs : List K) → age k xs ≡ none → age k (xs ++ k ∷ []) ≡ some 0
  age-append_self k [] h = ground (arith, e.same_iff k k)
  age-append_self k (x ∷ xs) h = ground (arith, e.same_iff x k, age-append_self k xs)

  length-erase : (k : K) (xs : List K) → length (erase k xs) ≤ length xs
  length-erase k [] = omega arith
  length-erase k (x ∷ xs) = ground (arith, length-erase k xs)

  age-lt : (k : K) (xs : List K) (m : ℕ) → age k xs ≡ some m → m < length xs
  age-lt k [] m h = cc
  age-lt k (x ∷ xs) m h = ground (arith, age-lt k xs m)

  -- To erase a key makes no other key older.
  age-erase_other :
      (k y : K) (xs : List K) (m : ℕ)
      → (y == k) ≡ false
      → age k xs ≡ some m
      → IsYoung k m (erase y xs)
  age-erase_other k y [] m d h = cc
  age-erase_other k y (x ∷ xs) m d h = elim (Bool-cases (x == k)) [
    | inl hit ↦ (
      length (erase y xs),
      ground (arith, e.same_iff x k, e.same_iff x y, e.same_iff y k),
      ground (arith, length-erase y xs),
    )
    | inr miss ↦
        let (n, found, below) = age-erase_other k y xs m d (ground arith) in
        elim (Bool-cases (x == y)) [
          | inl same ↦ (m, ground arith, omega arith)
          | inr other ↦ (n, ground arith, below)
        ]
  ]

  age-erase_self :
      (k : K) (xs : List K) (m : ℕ)
      → age k xs ≡ some m
      → (age k (erase k xs) ≡ none) ⊎ IsYoung k m (erase k xs)
  age-erase_self k [] m h = cc
  age-erase_self k (x ∷ xs) m h = elim (Bool-cases (x == k)) [
    | inl hit ↦ elim (Option-cases (age k xs)) [
      | inl gone ↦ inl (ground arith)
      | inr (n, found) ↦ inr (n, ground arith, ground (arith, age-lt k xs n found))
    ]
    | inr miss ↦ elim (age-erase_self k xs m (ground arith)) [
      | inl gone ↦ inl (ground arith)
      | inr (n, found, below) ↦ inr (n, ground arith, below)
    ]
  ]

  age-pop_first :
      (k : K) (xs : List K) (m : ℕ)
      → age k xs ≡ some m
      → suc m < length xs
      → age k (pop_first xs) ≡ some m
  age-pop_first k [] m h s = cc
  age-pop_first k (x ∷ xs) m h s = ground arith

  age-unseen : (k : K) (xs : List K) → key_seen k xs ≡ false → age k xs ≡ none
  unfolding key_seen
  age-unseen k [] h = refl
  age-unseen k (x ∷ xs) h = ground (arith, age-unseen k xs)

  key_seen-age : (k : K) (xs : List K) (m : ℕ) → age k xs ≡ some m → key_seen k xs ≡ true
  unfolding key_seen
  key_seen-age k [] m h = cc
  key_seen-age k (x ∷ xs) m h = ground (arith, key_seen-age k xs m)

  -- A key that is there is refused.
  pub check_and_record-refuses :
      (k : K) (n : ℕ) (c : NonceLru K) → IsYoung k n c.keys → (check_and_record k c).0 ≡ false
  unfolding check_and_record
  check_and_record-refuses k n c (m, found, below) = ground (arith, key_seen-age k c.keys m found)

  record_new-IsYoung :
      (k y : K) (n : ℕ) (c : NonceLru K)
      → IsYoung k n c.keys
      → suc n < c.capacity
      → IsYoung k (suc n) (record_new y c).keys
  unfolding record_new
  record_new-IsYoung k y n c (m, found, below) room =
      let later = age-append k y c.keys m found in
      (suc m, ground (arith, later, age-pop_first k (c.keys ++ y ∷ []) (suc m) later), omega arith)

  move_to_end-IsYoung :
      (k y : K) (n : ℕ) (xs : List K) → IsYoung k n xs → IsYoung k (suc n) (move_to_end y xs)
  unfolding move_to_end
  move_to_end-IsYoung k y n xs (m, found, below) = elim (Bool-cases (y == k)) [
    | inl same ↦
        subst (λ z. IsYoung k (suc n) (erase z xs ++ z ∷ [])) (sym ((e.same_iff y k).0 same))
          (elim (age-erase_self k xs m found) [
            | inl gone ↦ (0, age-append_self k (erase k xs) gone, omega arith)
            | inr (j, there, few) ↦ (suc j, age-append k k (erase k xs) j there, omega arith)
          ])
    | inr other ↦
        let (j, there, few) = age-erase_other k y xs m other found in
        (suc j, age-append k y (erase y xs) j there, omega arith)
  ]

  -- Whatever is checked next, a young key stays, and gets older by one at most.
  pub check_and_record-IsYoung :
      (k y : K) (n : ℕ) (c : NonceLru K)
      → IsYoung k n c.keys
      → suc n < c.capacity
      → IsYoung k (suc n) (check_and_record y c).1.keys
  unfolding check_and_record
  check_and_record-IsYoung k y n c young room = elim (Bool-cases (key_seen y c.keys)) [
    | inl known ↦ rw known (move_to_end-IsYoung k y n c.keys young)
    | inr new ↦ rw new (record_new-IsYoung k y n c young room)
  ]

  -- A key that is accepted is the youngest.
  pub check_and_record-youngest :
      (k : K) (c : NonceLru K)
      → 0 < c.capacity
      → (check_and_record k c).0 ≡ true
      → IsYoung k 0 (check_and_record k c).1.keys
  unfolding check_and_record record_new
  check_and_record-youngest k c room new = elim (Bool-cases (key_seen k c.keys)) [
    | inl known ↦ absurd (ground arith)
    | inr fresh ↦
        let last = age-append_self k c.keys (age-unseen k c.keys fresh) in
        (0, rw fresh (ground (arith, last, age-pop_first k (c.keys ++ k ∷ []) 0 last)), omega arith)
  ]

  pub check_and_record-capacity :
      (k : K) (c : NonceLru K) → (check_and_record k c).1.capacity ≡ c.capacity
  unfolding check_and_record record_new
  check_and_record-capacity k c = ground arith
