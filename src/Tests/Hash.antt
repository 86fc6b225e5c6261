-- ===== src/Tests/Hash.antt =====
-- Documents and their structural hashes.
use Prim.Native.String.{String, ◌++◌ as text_append}
use mathlib.Core.List.Perm
use stargraph.Common.{
  ◌≡◌, refl, Option, none, some, List, [], ◌∷◌, Value, str, int, obj, arr, member, no_member,
  element, no_element, ok,
}
use stargraph.Ir.Actions.{goto, halt, retry}
use stargraph.Graph.Hash.{
  HashedNode, HashedRule, HashedIr, model_class, Canonical, structural_hash,
  pack_requires_component, normalize_at, elsewhere, in_topology,
}
use stargraph.Common.Sorting.{le_text}
use stargraph.Graph.Hash.Laws.{SortsMembers, structural_hash-Perm}

abbrev draft : HashedNode
draft = record { id = "draft"; class_schema = obj no_member }

abbrev review : HashedNode
review = record { id = "review"; class_schema = obj no_member }

abbrev back : HashedRule
back = record { id = "r1"; actions = goto "draft" ∷ halt "done" ∷ [] }

abbrev again : HashedRule
again = record { id = "r2"; actions = retry "review" 1 ∷ [] }

abbrev first : HashedIr
first = record {
  nodes = draft ∷ review ∷ [];
  rules = back ∷ again ∷ [];
  state_schema = model_class (obj no_member);
  governance = [];
}

-- The nodes run in another order.
abbrev second : HashedIr
second = record first { nodes = review ∷ draft ∷ []; rules = again ∷ back ∷ [] }

-- A stand-in for the encoder: it tells the nodes, one after the other.
abbrev joined : List String → String
joined [] = ""
joined (s ∷ ss) = text_append s (joined ss)

abbrev digest : Canonical → String
digest c = joined c.topology.nodes

digest-SortsMembers : SortsMembers digest
digest-SortsMembers c d same = refl

abbrev lossless : String → Option Value
lossless text = none

-- `str`, of texts only.
abbrev py_str : Value → String
py_str (str s) = s
py_str v = ""

hash_runs : structural_hash py_str digest lossless first [] ≡ ok "draftreview"
unfolding structural_hash
hash_runs = refl

-- Two mounts of one pack stay in the order of the document.
mounts_in_order :
    pack_requires_component (
      record { id = "p"; requires = some (some "2", none) }
      ∷ record { id = "p"; requires = some (some "1", none) }
      ∷ [])
    ≡ some (("p", (some "2", none)) ∷ ("p", (some "1", none)) ∷ [])
unfolding pack_requires_component
mounts_in_order = refl

-- A number that JSON does not keep, and the text that stands for it.
tag_collides :
    normalize_at py_str elsewhere (int 9007199254740992)
    ≡ normalize_at py_str elsewhere (str "__stargraph_bigint__:9007199254740992")
unfolding normalize_at
tag_collides = refl

structural_hash-Perm_example :
    structural_hash py_str digest lossless first []
    ≡ structural_hash py_str digest lossless second []
structural_hash-Perm_example =
    structural_hash-Perm py_str digest lossless first second [] [] digest-SortsMembers refl refl
      refl refl (Perm.swap review draft []) (Perm.swap again back []) Perm.nil

-- A dict under the key `topology` has its nodes sorted.
nested_topology :
    normalize_at py_str in_topology
      (obj (member "nodes" (arr (element (str "b") (element (str "a") no_element))) no_member))
    ≡ obj (member "nodes" (arr (element (str "a") (element (str "b") no_element))) no_member)
unfolding normalize_at le_text
nested_topology = refl
