-- ===== src/Registry/Stores.antt =====
-- `StoreRegistry` of src/stargraph/registry/stores.py: stores by their names, and who registered them.
use text.Mathlib.TextEquality.{eq_iff}
use stargraph.Common.{
  ◌≡◌, String, Bool, true, false, Option, none, some, List, [], ◌∷◌, Result, ok, err, key_error,
  node_error, ◌==◌, string_keys, if◌then◌else◌, arith,
}
use stargraph.Common.Dict.{Dict, lookup, insert, lookup-insert}

pub record StoreSpec : Type 0 where
  pub name : String
  pub provider : String

pub record StoreRegistry : Type 0 where
  pub by_name : Dict String StoreSpec
  pub owners : Dict String String

-- `StoreRegistry.__init__`
abbrev pub new_stores : StoreRegistry
new_stores = record { by_name = []; owners = [] }

-- Whether a name belongs to somebody else.
abbrev claimed : Option String → String → Bool
claimed none owner = false
claimed (some prior) owner = if prior == owner then false else true

-- `register`
unfoldable pub register_store : StoreSpec → String → StoreRegistry → Result StoreRegistry
unfolding lookup insert
register_store spec owner r =
    if claimed (lookup spec.name r.owners) owner
    then err (node_error "NamespaceConflictError" spec.name)
    else ok (record {
      by_name = insert spec.name spec r.by_name;
      owners = insert spec.name owner r.owners;
    })

abbrev listed : Dict String StoreSpec → List StoreSpec
listed [] = []
listed ((k, spec) ∷ d) = spec ∷ listed d

-- `list_stores`
unfoldable pub list_stores : StoreRegistry → List StoreSpec
list_stores r = listed r.by_name

-- `get_store`
unfoldable pub get_store : String → StoreRegistry → Result StoreSpec
unfolding lookup
get_store name r = elim (lookup name r.by_name) [
  | none ↦ err (key_error name)
  | some spec ↦ ok spec
]

-- A call of `register` that raises leaves the registry as it was.
abbrev after : Result StoreRegistry → StoreRegistry → StoreRegistry
after (ok r') r = r'
after (err e) r = r

-- Calls of `register`, by different owners.
unfoldable pub register_stores : List (StoreSpec × String) → StoreRegistry → StoreRegistry
unfolding register_store
register_stores [] r = r
register_stores ((spec, owner) ∷ calls) r =
    register_stores calls (after (register_store spec owner r) r)

register_store-owner :
    (spec : StoreSpec) (owner name first : String) (r : StoreRegistry)
    → lookup name r.owners ≡ some first
    → lookup name (after (register_store spec owner r) r).owners ≡ some first
unfolding register_store
register_store-owner spec owner name first r e = ground (
  arith,
  e,
  lookup-insert spec.name name owner r.owners,
  eq_iff spec.name name,
  eq_iff first owner,
)

-- A name stays with the distribution that registered it first, whatever others register behind it.
pub first_owner_stays :
    (calls : List (StoreSpec × String)) (name first : String) (r : StoreRegistry)
    → lookup name r.owners ≡ some first
    → lookup name (register_stores calls r).owners ≡ some first
unfolding register_stores
first_owner_stays [] name first r e = e
first_owner_stays ((spec, owner) ∷ calls) name first r e =
    first_owner_stays calls name first (after (register_store spec owner r) r)
      (register_store-owner spec owner name first r e)
