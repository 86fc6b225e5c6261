-- ===== src/Replay/Counterfactual.antt =====
-- src/stargraph/replay/counterfactual.py: what a counterfactual run changes, the hash that it is stored
-- under, and whether an answer is overridden.
pub mod Laws
use stargraph.Common.{
  ℕ, String, Bool, true, false, Option, none, some, List, [], ◌∷◌, ◌++◌, Record, Result, ok, err,
  ◌>>=◌, node_error, codes, text_append, all, ltb, nat_keys, if◌then◌else◌,
}
use stargraph.Common.Dict.{Dict, lookup}

pub record CounterfactualMutation : Type 0 where
  pub state_overrides : Option Record
  pub facts_assert : Option (List Record)
  pub facts_retract : Option (List Record)
  pub rule_pack_version : Option String
  pub node_output_overrides : Option Record
  pub respond_payloads : Option (Dict ℕ Record)

-- `CF_HASH_DOMAIN_TAG`
abbrev pub cf_hash_domain_tag : List ℕ
cf_hash_domain_tag = codes "stargraph-cf-v1"

-- The bytes that the hash is taken of.
unfoldable pub pre_image : List ℕ → List ℕ → List ℕ
pre_image original canonical = cf_hash_domain_tag ++ (0 ∷ (original ++ (0 ∷ canonical)))

-- `s.encode("ascii")`
unfoldable pub encode_ascii : String → Result (List ℕ)
encode_ascii s =
    if all (λ c. ltb c 128) (codes s) then ok (codes s) else err (node_error "UnicodeEncodeError" s)

-- `derived_graph_hash`, over SHA-256 in hexadecimal digits and the canonical JSON of a mutation.
unfoldable pub derived_graph_hash :
    (List ℕ → String)
    → (CounterfactualMutation → List ℕ)
    → String
    → CounterfactualMutation
    → Result String
unfolding encode_ascii pre_image
derived_graph_hash sha256 dumps original_hash mutation = do
  original ← encode_ascii original_hash
  ok (sha256 (pre_image original (dumps mutation)))

-- `apply_respond_override`: the payload, and the source of the fact that it goes to.
unfoldable pub apply_respond_override :
    CounterfactualMutation → ℕ → String → Option (Record × String)
unfolding lookup
apply_respond_override mutation step_n actor = elim mutation.respond_payloads [
  | none ↦ none
  | some payloads ↦ elim (lookup step_n payloads) [
    | none ↦ none
    | some payload ↦ some (payload, text_append "cf:" actor)
  ]
]
