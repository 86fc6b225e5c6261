-- ===== src/Graph/Hash/Signatures.antt =====
-- The node signatures of a document as the members of an object: up to their order.
use mathlib.Core.Path.{subst}
use Prim.Native.String.{String}
use mathlib.Core.List.{Perm}
use mathlib.Core.List.Perm
use mathlib.Core.List.{foldr}
use mathlib.Core.List.{append-nil, append_assoc}
use stargraph.Common.{
  ◌≡◌, refl, sym, ap, ◌∙◌, Bool, true, false, ◌||◌, List, [], ◌∷◌, ◌++◌, map, any, Value,
  string_keys, ◌==◌, arith,
}
use stargraph.Common.Dict.{Dict, insert}
use stargraph.Common.Sorting.{text_order, pair_order}
use stargraph.Ir.Ids.{contains}
use stargraph.Ir.Ids.Generated.{distinct}
use stargraph.Graph.Hash.{
  HashedNode, hashed_ids, node_signatures, normalize_signatures, normalize_at, place_of,
}

any-foldr {ℓ} :
    {A : Type ℓ} (p : A → Bool) (xs : List A) → any p xs ≡ foldr (λ x rest. p x || rest) false xs
any-foldr p [] = refl
any-foldr p (x ∷ xs) = ap (λ rest. p x || rest) (any-foldr p xs)

pub any-Perm {ℓ} : {A : Type ℓ} (p : A → Bool) (xs ys : List A) → Perm xs ys → any p xs ≡ any p ys
any-Perm {A} p xs ys same =
    let add : A → Bool → Bool = λ x rest. p x || rest in
    let add_comm : (a b : A) (rest : Bool) → add a (add b rest) ≡ add b (add a rest) =
      λ a b rest. ground arith in
    any-foldr p xs ∙ (Perm.foldr-eq (hlevel) add add_comm same false ∙ sym (any-foldr p ys))

abbrev entry : HashedNode → String × Value
entry n = (n.id, n.class_schema)

-- The keys of a dict have the name somewhere.
abbrev has_key : String → Dict String Value → Bool
has_key k [] = false
has_key k ((j, v) ∷ d) = j == k || has_key k d

insert-new :
    (k : String) (v : Value) (d : Dict String Value)
    → has_key k d ≡ false
    → insert k v d ≡ d ++ (k, v) ∷ []
unfolding insert
insert-new k v [] h = refl
insert-new k v ((j, w) ∷ d) h = ground (arith, insert-new k v d)

has_key-append :
    (k j : String) (v : Value) (d : Dict String Value)
    → has_key k (d ++ (j, v) ∷ []) ≡ has_key k d || j == k
has_key-append k j v [] = ground arith
has_key-append k j v ((i, w) ∷ d) = ground (arith, has_key-append k j v d)

-- None of the names is a key.
abbrev IsFresh : List String → Dict String Value → Type 0
IsFresh [] d = Unit
IsFresh (k ∷ ks) d = (has_key k d ≡ false) × IsFresh ks d

IsFresh-append :
    (ks : List String) (k : String) (v : Value) (d : Dict String Value)
    → contains k ks ≡ false
    → IsFresh ks d
    → IsFresh ks (d ++ (k, v) ∷ [])
IsFresh-append [] k v d h f = tt
IsFresh-append (j ∷ ks) k v d h (new, f) = (
  ground (arith, has_key-append j k v d, string_keys.same_iff k j, string_keys.same_iff j k),
  IsFresh-append ks k v d (ground arith) f,
)

-- Where no id is there twice, the dict has one entry for each node, in their order.
node_signatures-distinct :
    (ns : List HashedNode) (d : Dict String Value)
    → distinct (hashed_ids ns) ≡ true
    → IsFresh (hashed_ids ns) d
    → node_signatures ns d ≡ d ++ map entry ns
unfolding node_signatures
node_signatures-distinct [] d h f = sym (append-nil d)
node_signatures-distinct (n ∷ ns) d h (new, f) =
    let grown = d ++ entry n ∷ [] in
    ap (node_signatures ns) (insert-new n.id n.class_schema d new)
    ∙ (node_signatures-distinct ns grown (ground arith)
          (IsFresh-append (hashed_ids ns) n.id n.class_schema d (ground arith) f)
        ∙ append_assoc d (entry n ∷ []) (map entry ns))

IsFresh-nil : (ks : List String) → IsFresh ks []
IsFresh-nil [] = tt
IsFresh-nil (k ∷ ks) = (refl, IsFresh-nil ks)

pub signatures-Perm :
    (ns ms : List HashedNode)
    → distinct (hashed_ids ns) ≡ true
    → distinct (hashed_ids ms) ≡ true
    → Perm ns ms
    → Perm (node_signatures ns []) (node_signatures ms [])
signatures-Perm ns ms hn hm same =
    subst (λ z. Perm z (node_signatures ms []))
      (sym (node_signatures-distinct ns [] hn (IsFresh-nil (hashed_ids ns))))
      (subst (Perm (map entry ns))
        (sym (node_signatures-distinct ms [] hm (IsFresh-nil (hashed_ids ms))))
        (Perm.map entry same))

pub normalize_signatures-map :
    (py_str : Value → String) (d : Dict String Value)
    → normalize_signatures py_str d ≡ map (λ e. (e.0, normalize_at py_str (place_of e.0) e.1)) d
unfolding normalize_signatures
normalize_signatures-map py_str [] = refl
normalize_signatures-map py_str ((k, v) ∷ d) =
    ap (λ z. (k, normalize_at py_str (place_of k) v) ∷ z) (normalize_signatures-map py_str d)
