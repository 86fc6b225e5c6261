-- ===== src/Graph/Definition/Laws.antt =====
-- Which documents become graphs.
use stargraph.Common.{
  ◌≡◌, refl, ap, ◌∙◌, inl, inr, String, Bool, true, false, not, Option, none, some, List, [], ◌∷◌,
  ◌&&◌, Value, Result, ok, err, ◌>>=◌, ◌==◌, string_keys, all, arith, Bool-cases,
}
use mathlib.Core.Path.{subst}
use mathlib.Core.Bool.{false≢true}
use text.Mathlib.TextEquality.{eq_iff}
use stargraph.Common.Dict.{Dict, lookup}
use stargraph.Ir.Nodes.{ParallelBlock}
use stargraph.Ir.Validate.{IrError, valid, validate_parsed}
use stargraph.Ir.Validate.Laws.{is_sound, is_empty, validate_parsed-is_empty}
use stargraph.Graph.Definition.{
  Schema, fields, GraphIr, is_supported, is_forbidden, check_no_set_fields, compile_fields,
  resolve_state_class, schema_of, unsafe_targets, offenders, raised_for, compile_state_schema,
  first_error, one_by_one, check_race_side_effects, init_graph,
}

abbrev pub is_ok {ℓ} : {A : Type ℓ} → Result A → Bool
is_ok (ok a) = true
is_ok (err e) = false

abbrev pub none_left : Dict String String → Bool
none_left [] = true
none_left (entry ∷ rest) = false

-- The state is given by fields of the four simple types, under names that Pydantic takes, or by a class that can be
-- imported, and not by both.
abbrev pub has_schema :
    (Dict String String → Result {0} Unit)
    → (String → String → Result Schema)
    → Option String
    → Dict String String
    → Bool
has_schema create_model import_class none schema =
    all (λ f. is_supported f.1) schema && is_ok (create_model schema)
has_schema create_model import_class (some ref) schema =
    none_left schema && is_ok (resolve_state_class import_class ref)

check_no_set_fields-is_ok :
    (schema : Dict String String)
    → is_ok (check_no_set_fields schema) ≡ all (λ f. not (is_forbidden f.1)) schema
unfolding check_no_set_fields
check_no_set_fields-is_ok [] = refl
check_no_set_fields-is_ok ((field, t) ∷ rest) = ground (arith, check_no_set_fields-is_ok rest)

compile_fields-is_ok :
    (schema : Dict String String)
    → is_ok (compile_fields schema) ≡ all (λ f. is_supported f.1) schema
unfolding compile_fields
compile_fields-is_ok [] = refl
compile_fields-is_ok ((field, t) ∷ rest) = ground (arith, compile_fields-is_ok rest)

-- A type that is supported is no set.
supported_no_set_type : (t : String) → is_supported t ≡ true → is_forbidden t ≡ false
supported_no_set_type t h = elim (Bool-cases (t == "set")) [
  | inl e ↦
      let bad : is_supported "set" ≡ true =
        subst (λ u. is_supported u ≡ true) ((eq_iff t "set").0 e) h in
      absurd (false≢true bad)
  | inr n ↦ elim (Bool-cases (t == "frozenset")) [
    | inl e ↦
        let bad : is_supported "frozenset" ≡ true =
          subst (λ u. is_supported u ≡ true) ((eq_iff t "frozenset").0 e) h in
        absurd (false≢true bad)
    | inr m ↦ rw (n, m) refl
  ]
]

supported_no_set :
    (schema : Dict String String)
    → all (λ f. is_supported f.1) schema ≡ true
    → all (λ f. not (is_forbidden f.1)) schema ≡ true
supported_no_set [] h = refl
supported_no_set ((field, t) ∷ rest) h =
    let here : is_supported t ≡ true = ground (arith, h) in
    let later : all (λ f. is_supported f.1) rest ≡ true = ground (arith, h) in
    rw (supported_no_set_type t here) (supported_no_set rest later)

-- Without side effects that are known there is no offender.
unsafe_targets-none : (allowed targets : List String) → unsafe_targets [] allowed targets ≡ []
unfolding unsafe_targets lookup
unsafe_targets-none allowed [] = refl
unsafe_targets-none allowed (t ∷ targets) = ground (arith, unsafe_targets-none allowed targets)

offenders-none :
    (allowed : List String) (blocks : List ParallelBlock) → offenders [] allowed blocks ≡ []
unfolding offenders
offenders-none allowed [] = refl
offenders-none allowed (block ∷ blocks) =
    ground (arith, offenders-none allowed blocks, unsafe_targets-none allowed block.targets)

race_check_passes :
    (allowed : List String) (blocks : List ParallelBlock)
    → check_race_side_effects [] allowed blocks ≡ ok tt
unfolding check_race_side_effects
race_check_passes allowed blocks = ap raised_for (offenders-none allowed blocks)

built-is_ok :
    (a b : Result {0} Unit) (schema : Schema)
    → is_ok (a >>= (λ _. b >>= (λ _. ok schema))) ≡ is_ok a && is_ok b
built-is_ok (err e) b schema = refl
built-is_ok (ok _) (err e) schema = refl
built-is_ok (ok _) (ok _) schema = refl

schema_of-is_ok :
    (create_model : Dict String String → Result {0} Unit)
    (import_class : String → String → Result Schema) (ref : Option String)
    (schema : Dict String String)
    → is_ok (schema_of create_model import_class ref schema)
      ≡ has_schema create_model import_class ref schema
unfolding schema_of compile_state_schema
schema_of-is_ok create_model import_class none schema =
    built-is_ok (compile_fields schema) (create_model schema) (fields schema)
    ∙ ap (λ q. q && is_ok (create_model schema)) (compile_fields-is_ok schema)
schema_of-is_ok create_model import_class (some ref) [] = refl
schema_of-is_ok create_model import_class (some ref) (entry ∷ rest) = refl

first_error-is_ok :
    (es : List IrError) (later : Result Schema)
    → is_ok (first_error es later) ≡ is_empty es && is_ok later
first_error-is_ok [] later = refl
first_error-is_ok (e ∷ es) later = refl

one_by_one-is_ok :
    (a : Result {0} Unit) (b : Result Schema) → is_ok (one_by_one a b (ok tt)) ≡ is_ok a && is_ok b
one_by_one-is_ok (err e) b = refl
one_by_one-is_ok (ok _) (err e) = refl
one_by_one-is_ok (ok _) (ok schema) = refl

has_schema-no_set :
    (create_model : Dict String String → Result {0} Unit)
    (import_class : String → String → Result Schema) (ref : Option String)
    (schema : Dict String String)
    → has_schema create_model import_class ref schema ≡ true
    → all (λ f. not (is_forbidden f.1)) schema ≡ true
has_schema-no_set create_model import_class none schema h =
    supported_no_set schema (ground (arith, h))
has_schema-no_set create_model import_class (some ref) [] h = refl
has_schema-no_set create_model import_class (some ref) (entry ∷ rest) h = cc

implied : (a b h : Bool) → (h ≡ true → a ≡ true) → b ≡ h → a && b ≡ h
implied a b h f e = ground (arith, f, e)

-- A document passes the checks that the constructor of a graph makes before it hashes it exactly if it is sound, and its state is given by fields of the four simple types, from which
-- Pydantic can create a model, or by a class that can be imported, but not by both. The checks of set types and of races refuse nothing beyond that.
pub init_graph-accepts :
    (text : Value → String) (lint : String → Bool)
    (create_model : Dict String String → Result {0} Unit)
    (import_class : String → String → Result Schema) (g : GraphIr)
    → is_ok (init_graph text lint create_model import_class g)
      ≡ is_sound text lint g.doc (some g.dump)
        && has_schema create_model import_class g.class_ref g.state_schema
unfolding init_graph
init_graph-accepts text lint create_model import_class g =
    let errors = validate_parsed text lint (valid g.doc) (some g.dump) in
    let a = check_no_set_fields g.state_schema in
    let b = schema_of create_model import_class g.class_ref g.state_schema in
    let has = has_schema create_model import_class g.class_ref g.state_schema in
    let both : is_ok a && is_ok b ≡ has =
      implied (is_ok a) (is_ok b) has
        (λ h.
          check_no_set_fields-is_ok g.state_schema
          ∙ has_schema-no_set create_model import_class g.class_ref g.state_schema h)
        (schema_of-is_ok create_model import_class g.class_ref g.state_schema) in
    first_error-is_ok errors (one_by_one a b (check_race_side_effects [] [] g.parallel))
    ∙ (ap (λ q. is_empty errors && is_ok (one_by_one a b q)) (race_check_passes [] g.parallel)
        ∙ (ap (λ q. is_empty errors && q) (one_by_one-is_ok a b ∙ both)
            ∙ ap (λ q. q && has) (validate_parsed-is_empty text lint g.doc (some g.dump))))
