-- ===== src/Graph/Hash/Laws.antt =====
-- What the structural hash forgets of a document, and what it keeps.
use mathlib.Core.Path.{subst}
use Prim.Native.String.{String}
use mathlib.Core.List.{Perm}
use mathlib.Core.List.Perm
use mathlib.Core.List.{Permᴰ}
use mathlib.Core.List.{append-nil, append_assoc, perm_middle, Perm-prop}
use mathlib.Core.Logic.{∥∥₁_elim}
use mathlib.Core.HLevel.{hedberg, ×_discrete}
use stargraph.Common.{
  ◌≡◌, refl, sym, ap, ◌∙◌, ◌↔◌, true, ◌||◌, Option, List, [], ◌∷◌, ◌++◌, map, Value, Result, ok,
  err, ◌>>=◌, string_keys, value_error, if◌then◌else◌,
}
use stargraph.Common.Dict.{Dict}
use stargraph.Common.Sorting.{sorted, sorted-eq_iff, String_discrete, text_order, pair_order}
use stargraph.Ir.Ids.Generated.{distinct}
use stargraph.Graph.Hash.{
  HashedRule, HashedIr, Edge, hashed_ids, actions_edges, edges_of, topology_from_ir,
  node_signatures, has_float, Canonical, any_float, normalize_signatures, normalize_at, place_of,
  normalize_canonical, structural_hash_dict, structural_hash, state_schema_signature,
  pack_requires_component,
}
use stargraph.Graph.Hash.Signatures.{any-Perm, signatures-Perm, normalize_signatures-map}

String_set : IsSet String
String_set = hedberg String_discrete

Edge_set : IsSet Edge
Edge_set = hedberg (×_discrete String_discrete (×_discrete String_discrete String_discrete))

-- The topologies of two documents are the same exactly if their node ids are the same up to order,
-- repetitions counted, and so are the edges of their rules.
topology_from_ir-eq_iff :
    (a b : HashedIr)
    → (topology_from_ir a ≡ topology_from_ir b) ↔ (
        Perm (hashed_ids a.nodes) (hashed_ids b.nodes) × Perm (edges_of a.rules) (edges_of b.rules))
unfolding topology_from_ir
topology_from_ir-eq_iff a b = (
  λ e. (
    (sorted-eq_iff String_set (hashed_ids a.nodes) (hashed_ids b.nodes)).0 (ap (λ t. t.nodes) e),
    (sorted-eq_iff Edge_set (edges_of a.rules) (edges_of b.rules)).0 (ap (λ t. t.edges) e),
  ),
  λ (nodes, edges) i. record {
    nodes = (sorted-eq_iff String_set (hashed_ids a.nodes) (hashed_ids b.nodes)).1 nodes i;
    edges = (sorted-eq_iff Edge_set (edges_of a.rules) (edges_of b.rules)).1 edges i;
  },
)

append_comm {ℓ} : {A : Type ℓ} (xs ys : List A) → Perm (xs ++ ys) (ys ++ xs)
append_comm [] ys = subst (Perm ys) (sym (append-nil ys)) Perm.rfl
append_comm (x ∷ xs) ys =
    Perm.trans (Perm.cons x (append_comm xs ys)) (Perm.symm (perm_middle {a = x} ys xs))

exchange {ℓ} : {A : Type ℓ} (xs ys zs : List A) → Perm (xs ++ (ys ++ zs)) (ys ++ (xs ++ zs))
exchange xs ys zs =
    subst (λ l. Perm l (ys ++ (xs ++ zs))) (append_assoc xs ys zs)
      (subst (Perm ((xs ++ ys) ++ zs)) (append_assoc ys xs zs)
        (Perm.append_right zs (append_comm xs ys)))

edges_of-Permᴰ : {rs qs : List HashedRule} → Permᴰ rs qs → Perm (edges_of rs) (edges_of qs)
unfolding edges_of
edges_of-Permᴰ Permᴰ.nil = Perm.nil
edges_of-Permᴰ (Permᴰ.cons {a = a} {b = b} {l₁ = l₁} {l₂ = l₂} e d) =
    subst (λ z. Perm (edges_of (a ∷ l₁)) (edges_of (z ∷ l₂))) e
      (Perm.append_left (actions_edges a.id a.actions) (edges_of-Permᴰ d))
edges_of-Permᴰ (Permᴰ.swap {a = a} {b = b} {a' = a'} {b' = b'} {l = l} e f) =
    subst (λ z. Perm (edges_of (a ∷ b ∷ l)) (edges_of (z ∷ b' ∷ l))) f
      (subst (λ z. Perm (edges_of (a ∷ b ∷ l)) (edges_of (b ∷ z ∷ l))) e
        (exchange (actions_edges a.id a.actions) (actions_edges b.id b.actions) (edges_of l)))
edges_of-Permᴰ (Permᴰ.trans p q) = Perm.trans (edges_of-Permᴰ p) (edges_of-Permᴰ q)

edges_of-Perm : {rs qs : List HashedRule} → Perm rs qs → Perm (edges_of rs) (edges_of qs)
edges_of-Perm p = ∥∥₁_elim p Perm-prop edges_of-Permᴰ

-- What RFC 8785 says of objects: the encoder sorts the members.
abbrev pub SortsMembers : (Canonical → String) → Type 0
SortsMembers jcs_sha256 =
    (c : Canonical) (d : Dict String Value)
    → Perm c.signatures d
    → jcs_sha256 c ≡ jcs_sha256 (record c { signatures = d })

module _ (py_str : Value → String) (jcs_sha256 : Canonical → String)
    (sorts : SortsMembers jcs_sha256) where
  structural_hash_dict-Perm :
      (c : Canonical) (d : Dict String Value)
      → Perm c.signatures d
      → structural_hash_dict py_str jcs_sha256 c
        ≡ structural_hash_dict py_str jcs_sha256 (record c { signatures = d })
  unfolding structural_hash_dict any_float normalize_canonical
  structural_hash_dict-Perm c d same =
      let normal = normalize_canonical py_str c in
      let floats : any_float c ≡ any_float (record c { signatures = d }) =
        ap (λ b. b || has_float c.state_schema)
          (any-Perm (λ e. has_float e.1) c.signatures d same) in
      let members : Perm (normalize_signatures py_str c.signatures)
          (normalize_signatures py_str d) =
        subst (λ z. Perm z (normalize_signatures py_str d))
          (sym (normalize_signatures-map py_str c.signatures))
          (subst (Perm (map (λ e. (e.0, normalize_at py_str (place_of e.0) e.1)) c.signatures))
            (sym (normalize_signatures-map py_str d))
            (Perm.map (λ e. (e.0, normalize_at py_str (place_of e.0) e.1)) same)) in
      let hashes = sorts normal (normalize_signatures py_str d) members in
      λ i.
        if floats i
        then err (value_error "float fields forbidden in hashed payload (FR-4)")
        else ok (hashes i)

  hash_of_schema-Perm :
      (signature : Result Value) (a b : Value → Canonical)
      → ((v : Value)
          → structural_hash_dict py_str jcs_sha256 (a v)
            ≡ structural_hash_dict py_str jcs_sha256 (b v))
      → (signature >>= λ v. structural_hash_dict py_str jcs_sha256 (a v))
        ≡ (signature >>= λ v. structural_hash_dict py_str jcs_sha256 (b v))
  hash_of_schema-Perm (ok v) a b same = same v
  hash_of_schema-Perm (err e) a b same = refl

-- Two documents with the same state schema and the same mounted packs have the same structural hash,
-- or fail alike, if the nodes of one are a permutation of the nodes of the other, and so are the rules and
-- the versions of the rule packs. The conditions are that no document has a node id twice, and
-- that the encoder sorts the members of objects.
pub structural_hash-Perm :
    (py_str : Value → String) (jcs_sha256 : Canonical → String) (lossless : String → Option Value)
    (a b : HashedIr) (versions versions' : List Edge)
    → SortsMembers jcs_sha256
    → distinct (hashed_ids a.nodes) ≡ true
    → distinct (hashed_ids b.nodes) ≡ true
    → a.state_schema ≡ b.state_schema
    → a.governance ≡ b.governance
    → Perm a.nodes b.nodes
    → Perm a.rules b.rules
    → Perm versions versions'
    → structural_hash py_str jcs_sha256 lossless a versions
      ≡ structural_hash py_str jcs_sha256 lossless b versions'
unfolding structural_hash
structural_hash-Perm py_str jcs_sha256 lossless a b versions versions' sorts one_a one_b schema
      governance nodes rules packs =
    let topology : topology_from_ir a ≡ topology_from_ir b =
      (topology_from_ir-eq_iff a b).1 (Perm.map (λ n. n.id) nodes, edges_of-Perm rules) in
    let sorted_packs : sorted versions ≡ sorted versions' =
      (sorted-eq_iff Edge_set versions versions').1 packs in
    let canonical : HashedIr → List Edge → Value → Canonical = λ ir vs v. record {
      topology = topology_from_ir ir;
      signatures = node_signatures ir.nodes [];
      state_schema = v;
      rule_pack_versions = sorted vs;
      pack_requires = pack_requires_component ir.governance;
    } in
    let members : (v : Value) → Canonical =
      λ v. record (canonical a versions v) { signatures = node_signatures b.nodes [] } in
    let renamed : (v : Value) → members v ≡ canonical b versions' v = λ v i. record {
      topology = topology i;
      signatures = node_signatures b.nodes [];
      state_schema = v;
      rule_pack_versions = sorted_packs i;
      pack_requires = pack_requires_component (governance i);
    } in
    hash_of_schema-Perm py_str jcs_sha256 sorts (state_schema_signature lossless a.state_schema)
      (canonical a versions) (canonical b versions')
      (λ v.
        structural_hash_dict-Perm py_str jcs_sha256 sorts (canonical a versions v)
          (node_signatures b.nodes []) (signatures-Perm a.nodes b.nodes one_a one_b nodes)
        ∙ ap (structural_hash_dict py_str jcs_sha256) (renamed v))
    ∙ ap
        (λ z. state_schema_signature lossless z >>= λ v.
          structural_hash_dict py_str jcs_sha256 (canonical b versions' v))
        schema
