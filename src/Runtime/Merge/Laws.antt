-- ===== src/Runtime/Merge/Laws.antt =====
-- Which reducer a name comes to, after any calls of `register`.
use stargraph.Common.{
  ◌≡◌, ◌≢◌, sym, value_error, key_error, ◌>>=◌, strip_prefix, text_append, arith, refl, ap, ◌∙◌,
  inl, inr, String, true, Option, none, some, List, [], ◌∷◌, Result, ok, err, validation_error,
  string_keys, ◌==◌, if◌then◌else◌, Bool-cases, Option-cases, false,
}
use stargraph.Common.Dict.{lookup, insert, lookup-insert}
use mathlib.Core.Path.{subst}
use text.Mathlib.TextEquality.{eq_iff}
use stargraph.Runtime.Merge.Paths.{
  strip_prefix-some, append-strip_prefix, has_dot, rpartition-none, rpartition-IsSplit,
}
use stargraph.Runtime.Merge.{
  last_write, append, max, min, callable_or_raise, resolve_custom, rpartition, Strategy, Host,
  builtins, MergeRegistry, new_merge_registry, register_strategy, unregistered, get_strategy,
}

-- A call of `register` that raises leaves the registry as it was.
unfoldable after_register : Result MergeRegistry → MergeRegistry → MergeRegistry
after_register (ok r') r = r'
after_register (err e) r = r

-- Calls of `register`, in their order.
unfoldable pub register_all : Host → List (String × Strategy) → MergeRegistry → MergeRegistry
unfolding after_register register_strategy
register_all host [] r = r
register_all host ((name, fn) ∷ calls) r =
    register_all host calls (after_register (register_strategy host name fn r) r)

abbrev or_else : Option Strategy → Option Strategy → Option Strategy
or_else (some f) other = some f
or_else none other = other

-- The last function that was handed in under a name.
unfoldable pub latest : String → List (String × Strategy) → Option Strategy
latest name [] = none
latest name ((key, fn) ∷ calls) =
    or_else (latest name calls) (if key == name then some fn else none)

-- A built-in stands under its name; else the latest registration; else the path behind `custom:`.
unfoldable resolved : Host → Option Strategy → Option Strategy → String → Result Strategy
resolved host (some builtin) registered name = ok builtin
resolved host none (some fn) name = ok fn
resolved host none none name = unregistered host name

or_else_assoc : (a b c : Option Strategy) → or_else a (or_else b c) ≡ or_else (or_else a b) c
or_else_assoc (some f) b c = refl
or_else_assoc none b c = refl

module _ (key name : String) (fn : Strategy) (r : MergeRegistry) where
  abbrev stored : Option Strategy → Result MergeRegistry
  stored builtin = elim builtin [
    | some f ↦ err (validation_error "cannot override built-in merge strategy")
    | none ↦ ok (record r { user = insert key fn r.user })
  ]

  -- What the registry holds under a name, behind one more call.
  abbrev held : Option Strategy
  held = or_else (if key == name then some fn else none) (lookup name r.user)

  stored-held :
      (builtin : Option Strategy)
      → ((key == name) ≡ true → builtin ≡ none)
      → lookup name (after_register (stored builtin) r).user ≡ held
  unfolding after_register
  stored-held none same =
      lookup-insert key name fn r.user
      ∙ elim (Bool-cases (key == name)) [ inl equal ↦ rw equal refl | inr other ↦ rw other refl ]
  stored-held (some builtin) same = elim (Bool-cases (key == name)) [
    | inl equal ↦ let clash = same equal in absurd (cc)
    | inr other ↦ rw other refl
  ]

registered_once :
    (host : Host) (key name : String) (fn : Strategy) (r : MergeRegistry)
    → lookup name (builtins host) ≡ none
    → lookup name (after_register (register_strategy host key fn r) r).user ≡ held key name fn r
unfolding register_strategy
registered_once host key name fn r free =
    stored-held key name fn r (lookup key (builtins host))
      (λ equal. ap (λ k. lookup k (builtins host)) ((string_keys.same_iff key name).0 equal) ∙ free)

registered_all :
    (host : Host) (calls : List (String × Strategy)) (name : String) (r : MergeRegistry)
    → lookup name (builtins host) ≡ none
    → lookup name (register_all host calls r).user
      ≡ or_else (latest name calls) (lookup name r.user)
unfolding register_all latest
registered_all host [] name r free = refl
registered_all host ((key, fn) ∷ calls) name r free =
    registered_all host calls name (after_register (register_strategy host key fn r) r) free
    ∙ ap (or_else (latest name calls)) (registered_once host key name fn r free)
    ∙ or_else_assoc (latest name calls) (if key == name then some fn else none) (lookup name r.user)

or_else-none : (a : Option Strategy) → or_else a none ≡ a
or_else-none (some f) = refl
or_else-none none = refl

module _ (host : Host) (name : String) where
  -- `get`, by what the two dictionaries hold.
  got : Option Strategy → Option Strategy → Result Strategy
  got builtin registered = elim builtin [
    | some f ↦ ok f
    | none ↦ elim registered [ some fn ↦ ok fn | none ↦ unregistered host name ]
  ]

  got-resolved :
      (builtin registered expected : Option Strategy)
      → (builtin ≡ none → registered ≡ expected)
      → got builtin registered ≡ resolved host builtin expected name
  unfolding got resolved
  got-resolved (some f) registered expected same = refl
  got-resolved none registered none same = rw (same refl) refl
  got-resolved none registered (some fn) same = rw (same refl) refl

get_strategy-resolved :
    (host : Host) (calls : List (String × Strategy)) (name : String)
    → get_strategy host name (register_all host calls new_merge_registry)
      ≡ resolved host (lookup name (builtins host)) (latest name calls) name
unfolding get_strategy got lookup
get_strategy-resolved host calls name =
    got-resolved host name (lookup name (builtins host))
      (lookup name (register_all host calls new_merge_registry).user) (latest name calls)
      (λ free.
        registered_all host calls name new_merge_registry free ∙ or_else-none (latest name calls))

-- The name of no built-in strategy.
abbrev pub IsOther : String → Type 0
IsOther name = (name ≢ "last-write") × (name ≢ "append") × (name ≢ "max") × (name ≢ "min")

-- What a name is answered with, where these functions were handed in.
pub data Answers (host : Host) (calls : List (String × Strategy)) (name : String)
    : Result Strategy → Type 0 where
  is_last_write : name ≡ "last-write" → Answers host calls name (ok last_write)
  is_append : name ≡ "append" → Answers host calls name (ok append)
  is_max : name ≡ "max" → Answers host calls name (ok (max host))
  is_min : name ≡ "min" → Answers host calls name (ok (min host))
  registered :
      (fn : Strategy) → IsOther name → latest name calls ≡ some fn → Answers host calls name (ok fn)
  imported :
      (path attr : String)
      → IsOther name
      → latest name calls ≡ none
      → name ≡ text_append "custom:" (text_append path (text_append "." attr))
      → has_dot attr ≡ false
      → Answers host calls name (host.import_attr path attr >>= callable_or_raise)
  undotted :
      (ref message : String)
      → IsOther name
      → latest name calls ≡ none
      → name ≡ text_append "custom:" ref
      → has_dot ref ≡ false
      → Answers host calls name (err (value_error message))
  unknown :
      (message : String)
      → IsOther name
      → latest name calls ≡ none
      → ((ref : String) → name ≢ text_append "custom:" ref)
      → Answers host calls name (err (key_error message))

module _ (host : Host) (calls : List (String × Strategy)) (name : String) where
  resolve_custom-Answers :
      (ref : String)
      → IsOther name
      → latest name calls ≡ none
      → name ≡ text_append "custom:" ref
      → Answers host calls name (resolve_custom host ref)
  unfolding resolve_custom
  resolve_custom-Answers ref other free named = elim (Option-cases (rpartition 46 ref)) [
    | inl e ↦ rw (e, resolve_custom) (undotted ref _ other free named (rpartition-none ref e))
    | inr ((path, attr), e) ↦
        let (joined, plain) = rpartition-IsSplit ref (path, attr) e in
        rw (e, resolve_custom)
          (imported path attr other free (named ∙ ap (text_append "custom:") joined) plain)
  ]

  unregistered-Answers :
      IsOther name → latest name calls ≡ none → Answers host calls name (unregistered host name)
  unfolding unregistered
  unregistered-Answers other free = elim (Option-cases (strip_prefix "custom:" name)) [
    | inl e ↦
        rw (e, unregistered)
          (unknown _ other free (λ ref same.
            let found : strip_prefix "custom:" name ≡ some ref =
              ap (strip_prefix "custom:") same ∙ append-strip_prefix "custom:" ref in
            let clash : none ≡ some ref = sym e ∙ found in cc))
    | inr (ref, e) ↦
        rw (e, unregistered)
          (resolve_custom-Answers ref other free (strip_prefix-some "custom:" name ref e))
  ]

  other-Answers :
      IsOther name → Answers host calls name (resolved host none (latest name calls) name)
  unfolding resolved
  other-Answers other = elim (Option-cases (latest name calls)) [
    | inl e ↦ rw e (unregistered-Answers other e)
    | inr (fn, e) ↦ rw e (registered fn other e)
  ]

  apart : (key : String) → (key == name) ≡ false → name ≢ key
  apart key h same = ground (arith, h, eq_iff key name)

  same_key : (key : String) → (key == name) ≡ true → name ≡ key
  same_key key h = sym ((string_keys.same_iff key name).0 h)

  resolved-Answers :
      Answers host calls name (resolved host (lookup name (builtins host)) (latest name calls) name)
  unfolding lookup builtins resolved
  resolved-Answers = elim (Bool-cases ("last-write" == name)) [
    | inl here ↦ rw here (is_last_write (same_key "last-write" here))
    | inr no_last ↦ elim (Bool-cases ("append" == name)) [
      | inl here ↦ rw (no_last, here) (is_append (same_key "append" here))
      | inr no_append ↦ elim (Bool-cases ("max" == name)) [
        | inl here ↦ rw (no_last, no_append, here) (is_max (same_key "max" here))
        | inr no_max ↦ elim (Bool-cases ("min" == name)) [
          | inl here ↦ rw (no_last, no_append, no_max, here) (is_min (same_key "min" here))
          | inr no_min ↦
              rw (no_last, no_append, no_max, no_min)
                (other-Answers (
                  apart "last-write" no_last,
                  apart "append" no_append,
                  apart "max" no_max,
                  apart "min" no_min,
                ))
        ]
      ]
    ]
  ]

-- After any calls of `register`, those that raise included, `get` answers a built-in name with its reducer, whatever was
-- handed in under it; any other name with the function that was last handed in under it; a name that nobody handed in and
-- that is `custom:`, a path, a dot and an attribute without a dot, with what the import gives, which raises or must be a
-- callable; it raises ValueError where no dot stands behind `custom:`, and KeyError for every other name.
pub get_strategy-register_all :
    (host : Host) (calls : List (String × Strategy)) (name : String)
    → Answers host calls name (get_strategy host name (register_all host calls new_merge_registry))
get_strategy-register_all host calls name =
    subst (Answers host calls name) (sym (get_strategy-resolved host calls name))
      (resolved-Answers host calls name)
