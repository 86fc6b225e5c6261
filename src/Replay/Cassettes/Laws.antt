-- ===== src/Replay/Cassettes/Laws.antt =====
-- A cassette gives back what was recorded, also after it went through its JSON form.
use stargraph.Common.{
  ◌≡◌, refl, ◌∙◌, ap, true, false, none, some, [], ◌∷◌, ◌++◌, Record, ◌==◌, ◌&&◌, Eq, All,
  Bool-cases, inl, inr, if◌then◌else◌, arith, string_keys, nat_keys,
}
use stargraph.Common.Dict.{lookup, insert, lookup-insert}
use stargraph.Replay.Cassettes.{
  Cassette, pair_keys, record_answer, get, to_state, add_entries, from_state,
}

module _ {A B : Type 0} ⦃ea : Eq A⦄ ⦃eb : Eq B⦄ where
  -- The keys of a dict are distinct.
  abbrev pub HasDistinctKeys : Cassette A B → Type 0
  HasDistinctKeys [] = Unit
  HasDistinctKeys ((k, v) ∷ c) =
      All (λ (p : (A × B) × Record). (k == p.0) ≡ false) c × HasDistinctKeys c

  -- None of the keys is in the dict.
  abbrev IsFresh : Cassette A B → Cassette A B → Type 0
  IsFresh acc c = All (λ (p : (A × B) × Record). lookup p.0 acc ≡ none) c

  insert-fresh :
      (k : A × B) (v : Record) (d : Cassette A B)
      → lookup k d ≡ none
      → insert k v d ≡ d ++ (k, v) ∷ []
  unfolding insert lookup
  insert-fresh k v [] h = refl
  insert-fresh k v ((j, w) ∷ d) h = ground (arith, insert-fresh k v d)

  insert-IsFresh :
      (k : A × B) (v : Record) (acc c : Cassette A B)
      → All (λ (p : (A × B) × Record). (k == p.0) ≡ false) c
      → IsFresh acc c
      → IsFresh (insert k v acc) c
  insert-IsFresh k v acc [] h f = tt
  insert-IsFresh k v acc ((j, w) ∷ c) h f =
      (rw (lookup-insert k j v acc, h.0) f.0, insert-IsFresh k v acc c h.1 f.1)

  snoc_append : (xs ys : Cassette A B) (p : (A × B) × Record) → (xs ++ p ∷ []) ++ ys ≡ xs ++ p ∷ ys
  snoc_append [] ys p = refl
  snoc_append (x ∷ xs) ys p = ap (λ zs. x ∷ zs) (snoc_append xs ys p)

  append_nil : (xs : Cassette A B) → xs ≡ xs ++ []
  append_nil [] = refl
  append_nil (x ∷ xs) = ap (λ zs. x ∷ zs) (append_nil xs)

  add_entries-to_state :
      (acc c : Cassette A B)
      → HasDistinctKeys c
      → IsFresh acc c
      → add_entries (to_state c) acc ≡ acc ++ c
  unfolding add_entries to_state
  add_entries-to_state acc [] d f = append_nil acc
  add_entries-to_state acc ((k, v) ∷ c) d f =
      add_entries-to_state (insert k v acc) c d.1 (insert-IsFresh k v acc c d.0 f.1)
      ∙ ap (λ e. e ++ c) (insert-fresh k v acc f.0)
      ∙ snoc_append acc c (k, v)

  none-IsFresh : (c : Cassette A B) → IsFresh [] c
  unfolding lookup
  none-IsFresh [] = tt
  none-IsFresh (p ∷ c) = (refl, none-IsFresh c)

  -- A cassette with distinct keys, as every dict has them, comes back from its JSON form as it was, in
  -- the same order.
  pub from_state-to_state : (c : Cassette A B) → HasDistinctKeys c → from_state (to_state c) ≡ c
  unfolding from_state
  from_state-to_state c d = add_entries-to_state [] c d (none-IsFresh c)

  same_key : (k : A × B) → (k == k) ≡ true
  same_key k = (pair_keys.same_iff k k).1 refl

  insert-others :
      (j k : A × B) (v : Record) (c : Cassette A B)
      → (j == k) ≡ false
      → All (λ (p : (A × B) × Record). (j == p.0) ≡ false) c
      → All (λ (p : (A × B) × Record). (j == p.0) ≡ false) (insert k v c)
  unfolding insert
  insert-others j k v [] h a = (h, tt)
  insert-others j k v ((i, w) ∷ c) h a = elim (Bool-cases (i == k)) [
    | inl here ↦ rw here a
    | inr miss ↦ rw miss (a.0, insert-others j k v c h a.1)
  ]

  insert-HasDistinctKeys :
      (k : A × B) (v : Record) (c : Cassette A B)
      → HasDistinctKeys c
      → HasDistinctKeys (insert k v c)
  unfolding insert
  insert-HasDistinctKeys k v [] d = (tt, tt)
  insert-HasDistinctKeys k v ((i, w) ∷ c) d = elim (Bool-cases (i == k)) [
    | inl here ↦ rw here d
    | inr miss ↦ rw miss (insert-others i k v c miss d.0, insert-HasDistinctKeys k v c d.1)
  ]

  -- What is recorded last under a key is what a cassette gives for it after it went through its JSON
  -- form, and every other key gives what it gave before.
  pub get-from_state :
      (a a' : A) (b b' : B) (answer : Record) (c : Cassette A B)
      → HasDistinctKeys c
      → get a' b' (from_state (to_state (record_answer a b answer c)))
        ≡ (if ea.same a a' && eb.same b b' then some answer else get a' b' c)
  unfolding get record_answer
  get-from_state a a' b b' answer c d =
      ap (lookup (a', b')) (from_state-to_state _ (insert-HasDistinctKeys (a, b) answer c d))
      ∙ lookup-insert (a, b) (a', b') answer c
