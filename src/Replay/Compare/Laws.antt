-- ===== src/Replay/Compare/Laws.antt =====
-- When a comparison finds nothing.
use stargraph.Common.{
  ◌≡◌, ◌↔◌, Bool, true, not, Option, List, [], ◌∷◌, Record, ◌==◌, string_keys, all,
}
use stargraph.Graph.State.{Checkpoint}
use stargraph.Ir.Actions.{Action}
use stargraph.Replay.Compare.{Differ}

-- What jsonpatch says of its patches: there is nothing to do exactly between documents that are equal as JSON, for which
-- the order of members does not matter; `canonical` puts them in one order, at every depth. And the test of actions is
-- their equality.
abbrev pub IsExact : (Record → Record) → Differ → Type 0
IsExact canonical d =
    ((src dst : Record) → (d.patch_ops src dst ≡ []) ↔ (canonical src ≡ canonical dst))
    × ((x y : Option Action) → (d.same_next x y ≡ true) ↔ (x ≡ y))

-- Two rows agree in state, node, next action and side effects.
abbrev pub SameRow : (Record → Record) → Checkpoint → Checkpoint → Type 0
SameRow canonical o c =
    (canonical o.state ≡ canonical c.state)
    × (o.last_node ≡ c.last_node)
    × (o.next_action ≡ c.next_action)
    × (o.side_effects_hash ≡ c.side_effects_hash)

-- The same number of rows, and each agrees with its partner.
abbrev pub SameRows : (Record → Record) → List Checkpoint → List Checkpoint → Type 0
SameRows canonical [] [] = Unit
SameRows canonical (o ∷ os) (c ∷ cs) = SameRow canonical o c × SameRows canonical os cs
SameRows canonical _ _ = ⊥

-- Each row names its node.
abbrev pub is_named : List Checkpoint → Bool
is_named rows = all (λ c. not (c.last_node == "")) rows
