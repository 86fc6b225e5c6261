-- ===== src/Registry/Tools/Laws.antt =====
-- The two indexes of the registry agree.
use text.Mathlib.TextEquality.{eq_iff}
use stargraph.Common.{
  ◌≡◌, refl, ap, sym, ◌∙◌, String, Option, none, some, List, [], ◌∷◌, ◌++◌, ok, >>=-eq-ok, ◌==◌,
  string_keys, if◌then◌else◌, Bool-cases, inl, inr, arith,
}
use stargraph.Common.Dict.{Dict, lookup, insert, lookup-insert}
use stargraph.Security.Capabilities.{ToolSpec}
use stargraph.Registry.Tools.{
  tool_id, ToolRegistry, or_nothing, register_new, register, values, list_tools, register_all,
}

-- The tools of a namespace, in order.
abbrev pub of_namespace : String → List ToolSpec → List ToolSpec
of_namespace n [] = []
of_namespace n (t ∷ ts) = if t.namespace == n then t ∷ of_namespace n ts else of_namespace n ts

of_namespace-append :
    (n : String) (ts us : List ToolSpec)
    → of_namespace n (ts ++ us) ≡ of_namespace n ts ++ of_namespace n us
of_namespace-append n [] us = refl
of_namespace-append n (t ∷ ts) us = ground (arith, of_namespace-append n ts us)

values-insert :
    (k : String) (t : ToolSpec) (d : Dict String ToolSpec)
    → lookup k d ≡ none
    → values (insert k t d) ≡ values d ++ t ∷ []
unfolding lookup insert
values-insert k t [] h = refl
values-insert k t ((j, u) ∷ d) h = ground (arith, values-insert k t d)

append_nil : (xs : List ToolSpec) → xs ≡ xs ++ []
append_nil [] = refl
append_nil (x ∷ xs) = ap (λ ys. x ∷ ys) (append_nil xs)

snoc_append :
    (xs : List ToolSpec) (x : ToolSpec) (ys : List ToolSpec) → (xs ++ x ∷ []) ++ ys ≡ xs ++ x ∷ ys
snoc_append [] x ys = refl
snoc_append (z ∷ xs) x ys = ap (λ zs. z ∷ zs) (snoc_append xs x ys)

-- The index by namespace lists what the index by id has, in the order of registration.
abbrev pub IsIndexed : ToolRegistry → Type 0
IsIndexed g = (n : String) → list_tools (some n) g ≡ of_namespace n (list_tools none g)

-- One namespace's list after a tool was put in behind.
lists_after :
    (n : String) (t : ToolSpec) (old : List ToolSpec) (d : Dict String (List ToolSpec))
    → or_nothing (lookup n d) ≡ of_namespace n old
    → or_nothing (lookup n (insert t.namespace (or_nothing (lookup t.namespace d) ++ t ∷ []) d))
      ≡ of_namespace n (old ++ t ∷ [])
lists_after n t old d h =
    let ts = or_nothing (lookup t.namespace d) ++ t ∷ [] in
    elim (Bool-cases (t.namespace == n)) [
      | inl same ↦
          let eq : t.namespace ≡ n = (eq_iff t.namespace n).0 same in
          rw (lookup-insert t.namespace n ts d, of_namespace-append n old (t ∷ []), same)
            (ap (λ us. us ++ t ∷ []) (ap (λ k. or_nothing (lookup k d)) eq ∙ h))
      | inr other ↦
          rw (lookup-insert t.namespace n ts d, of_namespace-append n old (t ∷ []), other)
            (h ∙ append_nil (of_namespace n old))
    ]

register_new-IsIndexed :
    (t : ToolSpec) (known : Option ToolSpec) (g g' : ToolRegistry)
    → lookup (tool_id t) g.by_id ≡ known
    → register_new t known g ≡ ok g'
    → IsIndexed g
    → (list_tools none g' ≡ list_tools none g ++ t ∷ []) × IsIndexed g'
unfolding register_new list_tools
register_new-IsIndexed t (some u) g g' e r h = cc
register_new-IsIndexed t none g g' e r h =
    let listed = values-insert (tool_id t) t g.by_id e in
    let after : ToolRegistry = record {
      by_id = insert (tool_id t) t g.by_id;
      by_namespace =
          insert t.namespace (or_nothing (lookup t.namespace g.by_namespace) ++ t ∷ [])
            g.by_namespace;
    } in
    let made : after ≡ g' = cc in
    rw (← made) (
      listed,
      λ n. lists_after n t (values g.by_id) g.by_namespace (h n) ∙ ap (of_namespace n) (sym listed),
    )

-- Whatever tools are registered into an empty registry, where none is refused: the registry lists just
-- these in their order, and for each namespace those of the namespace, in their order.
pub register_all-IsIndexed :
    (ts : List ToolSpec) (g g' : ToolRegistry)
    → register_all ts g ≡ ok g'
    → IsIndexed g
    → (list_tools none g' ≡ list_tools none g ++ ts) × IsIndexed g'
unfolding register_all register
register_all-IsIndexed [] g g' e h =
    let same : g ≡ g' = cc in rw (← same) (append_nil (list_tools none g), h)
register_all-IsIndexed (t ∷ ts) g g' e h =
    let (one, first, rest) = >>=-eq-ok (register t g) _ e in
    let (here, kept) = register_new-IsIndexed t (lookup (tool_id t) g.by_id) g one refl first h in
    let (later, all_kept) = register_all-IsIndexed ts one g' rest kept in
    (later ∙ ap (λ us. us ++ ts) here ∙ snoc_append (list_tools none g) t ts, all_kept)
