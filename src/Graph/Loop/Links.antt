-- ===== src/Graph/Loop/Links.antt =====
-- The ids of a graph's nodes: where they are distinct, each node is found by its id, and behind it the
-- next one of the graph.
use stargraph.Common.{
  ◌≡◌, refl, ◌∙◌, ◌≢◌, String, true, false, Option, none, some, List, [], ◌∷◌, All, ◌==◌,
  string_keys, Bool-cases, inl, inr,
}
use text.Mathlib.TextEquality.{eq_iff}
use stargraph.Ir.Nodes.{NodeSpec}
use stargraph.Runtime.Dispatch.{lookup_node, next_node_id}

abbrev pub HasDistinctIds : List NodeSpec → Type 0
HasDistinctIds [] = Unit
HasDistinctIds (n ∷ ns) = All (λ (m : NodeSpec). n.id ≢ m.id) ns × HasDistinctIds ns

abbrev pub first_id : List NodeSpec → Option String
first_id [] = none
first_id (n ∷ ns) = some n.id

-- Each node of the suffix is found by its id, with the next of the suffix behind it.
abbrev pub IsLinked : List NodeSpec → List NodeSpec → Type 0
IsLinked nodes [] = Unit
IsLinked nodes (n ∷ ns) =
    (lookup_node nodes n.id ≡ some n) × (next_node_id nodes n.id ≡ first_id ns) × IsLinked nodes ns

same_id : (n : NodeSpec) → (n.id == n.id) ≡ true
same_id n = (eq_iff n.id n.id).1 refl

other_id : (n m : NodeSpec) → n.id ≢ m.id → (n.id == m.id) ≡ false
other_id n m h = elim (Bool-cases (n.id == m.id)) [
  | inl e ↦ absurd (h ((eq_iff n.id m.id).0 e))
  | inr e ↦ e
]

lookup_node-behind :
    (n m : NodeSpec) (nodes : List NodeSpec)
    → n.id ≢ m.id
    → lookup_node (n ∷ nodes) m.id ≡ lookup_node nodes m.id
unfolding lookup_node
lookup_node-behind n m nodes h = rw (other_id n m h) refl

next_node_id-behind :
    (n m : NodeSpec) (nodes : List NodeSpec)
    → n.id ≢ m.id
    → next_node_id (n ∷ nodes) m.id ≡ next_node_id nodes m.id
unfolding next_node_id
next_node_id-behind n m [] h = refl
next_node_id-behind n m (x ∷ nodes) h = rw (other_id n m h) refl

behind-IsLinked :
    (n : NodeSpec) (nodes ns : List NodeSpec)
    → All (λ (m : NodeSpec). n.id ≢ m.id) ns
    → IsLinked nodes ns
    → IsLinked (n ∷ nodes) ns
behind-IsLinked n nodes [] h l = tt
behind-IsLinked n nodes (m ∷ ns) h l = (
  lookup_node-behind n m nodes h.0 ∙ l.0,
  next_node_id-behind n m nodes h.0 ∙ l.1,
  behind-IsLinked n nodes ns h.1 l.2,
)

next_node_id-head : (n : NodeSpec) (ns : List NodeSpec) → next_node_id (n ∷ ns) n.id ≡ first_id ns
unfolding next_node_id
next_node_id-head n [] = refl
next_node_id-head n (m ∷ ns) = rw (same_id n) refl

lookup_node-head : (n : NodeSpec) (ns : List NodeSpec) → lookup_node (n ∷ ns) n.id ≡ some n
unfolding lookup_node
lookup_node-head n ns = rw (same_id n) refl

pub distinct-IsLinked : (ns : List NodeSpec) → HasDistinctIds ns → IsLinked ns ns
distinct-IsLinked [] h = tt
distinct-IsLinked (n ∷ ns) h = (
  lookup_node-head n ns,
  next_node_id-head n ns,
  behind-IsLinked n ns ns h.0 (distinct-IsLinked ns h.1),
)
