-- ===== src/Replay/Cassettes.antt =====
-- `ToolCallCassette` and `InMemoryNodeCassette` of src/stargraph/replay/cassettes.py: what a tool or a
-- node answered, by a pair of keys, and its JSON form.
pub mod Laws
use stargraph.Common.{
  ℕ, ◌≡◌, refl, ◌↔◌, String, Bool, true, false, Option, none, some, List, [], ◌∷◌, Record, ◌==◌,
  nat_keys, string_keys, Eq, ◌&&◌, arith,
}
use stargraph.Common.Dict.{Dict, lookup, insert}

-- Tuples as keys: (tool_id, args_hash), and (node_id, step).
module _ {A B : Type 0} ⦃ea : Eq A⦄ ⦃eb : Eq B⦄ where
  abbrev pub same_pair : A × B → A × B → Bool
  same_pair x y = ea.same x.0 y.0 && eb.same x.1 y.1

  pub same_pair_iff : (x y : A × B) → (same_pair x y ≡ true) ↔ (x ≡ y)
  same_pair_iff x y = ground (arith, ea.same_iff x.0 y.0, eb.same_iff x.1 y.1)

  instance abbrev pub pair_keys : Eq (A × B)
  pair_keys = record { same = same_pair; same_iff = same_pair_iff }

-- One entry of the JSON form.
pub record Entry (A B : Type 0) : Type 0 where
  pub first : A
  pub second : B
  pub answer : Record

abbrev pub Cassette : Type 0 → Type 0 → Type 0
Cassette A B = Dict (A × B) Record

module _ {A B : Type 0} ⦃ea : Eq A⦄ ⦃eb : Eq B⦄ where
  -- `record`
  unfoldable pub record_answer : A → B → Record → Cassette A B → Cassette A B
  unfolding insert
  record_answer a b answer c = insert (a, b) answer c

  -- `get`
  unfoldable pub get : A → B → Cassette A B → Option Record
  unfolding lookup
  get a b c = lookup (a, b) c

  -- `to_state`
  unfoldable pub to_state : Cassette A B → List (Entry A B)
  to_state [] = []
  to_state ((k, answer) ∷ c) = record { first = k.0; second = k.1; answer = answer } ∷ to_state c

  -- the loop of `from_state`
  unfoldable pub add_entries : List (Entry A B) → Cassette A B → Cassette A B
  unfolding insert
  add_entries [] c = c
  add_entries (e ∷ es) c = add_entries es (insert (e.first, e.second) e.answer c)

  -- `from_state`
  unfoldable pub from_state : List (Entry A B) → Cassette A B
  unfolding add_entries
  from_state es = add_entries es []

-- `ToolCallCassette`, by the hash of the arguments.
module _ (args_hash : Record → String) where
  unfoldable pub record_call :
      String → Record → Record → Dict (String × String) Record → Dict (String × String) Record
  unfolding record_answer
  record_call tool_id args result c = record_answer tool_id (args_hash args) result c

  unfoldable pub get_call : String → Record → Dict (String × String) Record → Option Record
  unfolding get
  get_call tool_id args c = get tool_id (args_hash args) c
