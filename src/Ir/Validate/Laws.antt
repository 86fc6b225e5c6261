-- ===== src/Ir/Validate/Laws.antt =====
-- Which documents `validate` passes.
use text.Mathlib.TextEquality.{eq_iff}
use stargraph.Common.{
  ℕ, suc, ◌≡◌, refl, ◌∙◌, sym, ◌↔◌, String, Bool, true, false, not, Option, none, some, List, [],
  ◌∷◌, ◌++◌, ◌&&◌, arith, Value, str, Record, Result, ok, err, leb, all, length, codes, is_some,
  string_keys,
}
use stargraph.Common.Dict.{Dict, lookup, insert, lookup-insert}
use stargraph.Ir.Ids.{contains, validate_stable_id}
use stargraph.Ir.Ids.Generated.{distinct}
use stargraph.Ir.Ids.Stable.{is_id, chomp, matches_id-chomp}
use stargraph.Ir.When.{When, raw, sugar, compile_when, when_node_ref}
use stargraph.Ir.Versioning.{check_version}
use stargraph.Ir.Validate.{
  RuleIr, Document, IrError, valid, for_each, check_id, node_ids, rule_ids, check_ids, check_when,
  check_rule_when_sugar, check_unique, detect_within_ir_duplicates, is_cypher_key, lint_entry,
  lint_cypher_in_node_configs, or_else, version_errors, validate_parsed,
}

abbrev pub is_empty {ℓ} : {A : Type ℓ} → List A → Bool
is_empty [] = true
is_empty (x ∷ xs) = false

-- The ids that the grammar has, with at most 128 characters, a last newline included.
abbrev pub is_stable : String → Bool
is_stable i = leb (length (codes i)) 128 && is_id (chomp (codes i))

-- A mapping compiles, and the node that it names is a node of the document.
abbrev known : List String → Option String → Bool
known ids none = true
known ids (some ref) = contains ref ids

abbrev compiled : Result String → Bool
compiled (ok s) = true
compiled (err e) = false

abbrev pub is_sugared : (Value → String) → List String → When → Bool
is_sugared text ids (raw s) = true
is_sugared text ids (sugar m) =
    compiled (compile_when text (sugar m)) && known ids (when_node_ref (sugar m))

abbrev passes_lint : (String → Bool) → String × Value → Bool
passes_lint lint (key, str query) = not (is_cypher_key key && lint query)
passes_lint lint (key, v) = true

-- The major is ours, or the version is no text of three numbers.
abbrev understood : Option Record → Bool
understood none = true
understood (some ir) = not (is_some (check_version (lookup "ir_version" ir)))

-- What a document must be.
abbrev pub is_sound : (Value → String) → (String → Bool) → Document → Option Record → Bool
is_sound text lint doc as_dict =
    (all is_stable (node_ids doc.nodes)
      && all is_stable (rule_ids doc.rules)
      && all is_stable doc.governance)
    && (all (λ r. is_sugared text (node_ids doc.nodes) r.cond) doc.rules
        && ((distinct (node_ids doc.nodes)
              && distinct (rule_ids doc.rules)
              && distinct doc.governance
              && distinct doc.tools
              && distinct doc.skills
              && distinct doc.stores)
            && (all (λ n. all (passes_lint lint) n.config) doc.nodes && understood as_dict)))

is_empty-append {ℓ} :
    {A : Type ℓ} (xs ys : List A) → is_empty (xs ++ ys) ≡ is_empty xs && is_empty ys
is_empty-append [] ys = refl
is_empty-append (x ∷ xs) ys = refl

is_empty-for_each {ℓ} :
    {A : Type ℓ} (f : ℕ → A → List IrError) (p : A → Bool)
    → ((n : ℕ) (x : A) → is_empty (f n x) ≡ p x)
    → (n : ℕ) (xs : List A) → is_empty (for_each f n xs) ≡ all p xs
is_empty-for_each f p h n [] = refl
is_empty-for_each f p h n (x ∷ xs) = ground (
  arith,
  is_empty-append (f n x) (for_each f (suc n) xs),
  h n x,
  is_empty-for_each f p h (suc n) xs,
)

is_empty-or_else :
    (es later : List IrError) → is_empty (or_else es later) ≡ is_empty es && is_empty later
is_empty-or_else [] later = refl
is_empty-or_else (e ∷ es) later = refl

check_id-is_empty :
    (kind field : String) (n : ℕ) (i : String) → is_empty (check_id kind field n i) ≡ is_stable i
unfolding check_id validate_stable_id
check_id-is_empty kind field n i = ground (arith, matches_id-chomp (codes i))

check_when-is_empty :
    (text : Value → String) (ids : List String) (n : ℕ) (r : RuleIr)
    → is_empty (check_when text ids n r) ≡ is_sugared text ids r.cond
unfolding check_when
check_when-is_empty text ids n r =
    elim r.cond
      as (λ w. is_empty (check_when text ids n (record r { cond = w })) ≡ is_sugared text ids w) [
        | raw s ↦ refl
        | sugar m ↦ ground arith
      ]

-- The values that are not seen yet.
abbrev unseen : Dict String ℕ → List String → Bool
unseen seen values = all (λ v. not (is_some (lookup v seen))) values

unseen-insert :
    (v : String) (n : ℕ) (seen : Dict String ℕ) (values : List String)
    → unseen (insert v n seen) values ≡ not (contains v values) && unseen seen values
unseen-insert v n seen [] = refl
unseen-insert v n seen (w ∷ values) =
    ground (arith, lookup-insert v w n seen, unseen-insert v n seen values, eq_iff v w, eq_iff w v)

check_unique-is_empty :
    (field key : String) (n : ℕ) (seen : Dict String ℕ) (values : List String)
    → is_empty (check_unique field key n seen values) ≡ distinct values && unseen seen values
unfolding check_unique
check_unique-is_empty field key n seen [] = refl
check_unique-is_empty field key n seen (v ∷ values) = ground (
  arith,
  check_unique-is_empty field key (suc n) (insert v n seen) values,
  unseen-insert v n seen values,
)

lint_entry-is_empty :
    (lint : String → Bool) (n i : ℕ) (entry : String × Value)
    → is_empty (lint_entry lint n i entry) ≡ passes_lint lint entry
unfolding lint_entry
lint_entry-is_empty lint n i (key, str query) = ground arith
lint_entry-is_empty lint n i (key, v) = refl

unseen-none : (values : List String) → unseen [] values ≡ true
unfolding lookup
unseen-none [] = refl
unseen-none (v ∷ values) = unseen-none values

all_new :
    (field key : String) (values : List String)
    → is_empty (check_unique field key 0 [] values) ≡ distinct values
all_new field key values =
    ground (arith, check_unique-is_empty field key 0 [] values, unseen-none values)

check_ids-is_empty :
    (doc : Document)
    → is_empty (check_ids doc)
      ≡ all is_stable (node_ids doc.nodes)
        && all is_stable (rule_ids doc.rules)
        && all is_stable doc.governance
unfolding check_ids
check_ids-is_empty doc = ground (
  arith,
  is_empty-append (for_each (check_id "node" "nodes") 0 (node_ids doc.nodes)) (
      for_each (check_id "rule" "rules") 0 (rule_ids doc.rules)
      ++ for_each (check_id "pack" "governance") 0 doc.governance),
  is_empty-append (for_each (check_id "rule" "rules") 0 (rule_ids doc.rules))
      (for_each (check_id "pack" "governance") 0 doc.governance),
  is_empty-for_each (check_id "node" "nodes") is_stable (check_id-is_empty "node" "nodes") 0
      (node_ids doc.nodes),
  is_empty-for_each (check_id "rule" "rules") is_stable (check_id-is_empty "rule" "rules") 0
      (rule_ids doc.rules),
  is_empty-for_each (check_id "pack" "governance") is_stable (check_id-is_empty "pack" "governance")
      0 doc.governance,
)

is_empty-appends :
    (a b c d e f : List IrError)
    → is_empty (a ++ (b ++ (c ++ (d ++ (e ++ f)))))
      ≡ is_empty a && is_empty b && is_empty c && is_empty d && is_empty e && is_empty f
is_empty-appends [] [] [] [] [] f = refl
is_empty-appends [] [] [] [] (e ∷ es) f = refl
is_empty-appends [] [] [] (d ∷ ds) e f = refl
is_empty-appends [] [] (c ∷ cs) d e f = refl
is_empty-appends [] (b ∷ bs) c d e f = refl
is_empty-appends (x ∷ xs) b c d e f = refl

detect-is_empty :
    (doc : Document)
    → is_empty (detect_within_ir_duplicates doc)
      ≡ distinct (node_ids doc.nodes)
        && distinct (rule_ids doc.rules)
        && distinct doc.governance
        && distinct doc.tools
        && distinct doc.skills
        && distinct doc.stores
unfolding detect_within_ir_duplicates
detect-is_empty doc =
    rw
      (
        is_empty-appends (check_unique "nodes" "id" 0 [] (node_ids doc.nodes))
            (check_unique "rules" "id" 0 [] (rule_ids doc.rules))
            (check_unique "governance" "id" 0 [] doc.governance)
            (check_unique "tools" "id" 0 [] doc.tools) (check_unique "skills" "id" 0 [] doc.skills)
            (check_unique "stores" "name" 0 [] doc.stores),
        all_new "nodes" "id" (node_ids doc.nodes),
        all_new "rules" "id" (rule_ids doc.rules),
        all_new "governance" "id" doc.governance,
        all_new "tools" "id" doc.tools,
        all_new "skills" "id" doc.skills,
        all_new "stores" "name" doc.stores,
      )
      refl

version_errors-is_empty :
    (as_dict : Option Record) → is_empty (version_errors as_dict) ≡ understood as_dict
unfolding version_errors
version_errors-is_empty none = refl
version_errors-is_empty (some ir) = ground arith

is_empty_iff {ℓ} : {A : Type ℓ} (xs : List A) → (xs ≡ []) ↔ (is_empty xs ≡ true)
is_empty_iff [] = (λ e. refl, λ e. refl)
is_empty_iff (x ∷ xs) = (λ e. cc, λ e. cc)

pub validate_parsed-is_empty :
    (text : Value → String) (lint : String → Bool) (doc : Document) (as_dict : Option Record)
    → is_empty (validate_parsed text lint (valid doc) as_dict) ≡ is_sound text lint doc as_dict
unfolding validate_parsed check_rule_when_sugar lint_cypher_in_node_configs
validate_parsed-is_empty text lint doc as_dict =
    let ids = node_ids doc.nodes in
    let whens = for_each (check_when text ids) 0 doc.rules in
    let lints =
      for_each (λ n_idx node. for_each (lint_entry lint n_idx) 0 node.config) 0 doc.nodes in
    rw
      (
        is_empty-or_else (check_ids doc) (
            or_else whens
              (or_else (detect_within_ir_duplicates doc) (or_else lints (version_errors as_dict)))),
        is_empty-or_else whens
            (or_else (detect_within_ir_duplicates doc) (or_else lints (version_errors as_dict))),
        is_empty-or_else (detect_within_ir_duplicates doc) (or_else lints (version_errors as_dict)),
        is_empty-or_else lints (version_errors as_dict),
        check_ids-is_empty doc,
        detect-is_empty doc,
        version_errors-is_empty as_dict,
        is_empty-for_each (check_when text ids) (λ r. is_sugared text ids r.cond)
            (check_when-is_empty text ids) 0 doc.rules,
        is_empty-for_each (λ n_idx node. for_each (lint_entry lint n_idx) 0 node.config)
            (λ n. all (passes_lint lint) n.config)
            (λ n node.
              is_empty-for_each (lint_entry lint n) (passes_lint lint) (lint_entry-is_empty lint n)
                0 node.config)
            0 doc.nodes,
      )
      refl

-- A document that Pydantic takes passes `validate` exactly if its ids of nodes, rules and packs are stable, its
-- mappings compile and name nodes of it, no list has an id twice, its Cypher passes the linter, and its
-- version's major is ours or the version is no version at all.
pub validate-is_sound :
    (text : Value → String) (lint : String → Bool) (doc : Document) (as_dict : Option Record)
    → (validate_parsed text lint (valid doc) as_dict ≡ []) ↔ (is_sound text lint doc as_dict ≡ true)
validate-is_sound text lint doc as_dict =
    let e = validate_parsed-is_empty text lint doc as_dict in
    let f = is_empty_iff (validate_parsed text lint (valid doc) as_dict) in
    (λ h. sym e ∙ f.0 h, λ h. f.1 (e ∙ h))
