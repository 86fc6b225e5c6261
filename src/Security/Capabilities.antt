-- ===== src/Security/Capabilities.antt =====
-- `Capabilities` of src/stargraph/security/capabilities.py: what a run was granted, and the tests
-- that the tool gate and the node gate make.
pub mod Laws
use stargraph.Common.{
  ℕ, ◌≡◌, refl, String, Bool, true, false, not, Option, none, some, List, [], ◌∷◌, arith, ◌==◌,
  string_keys, if◌then◌else◌, ◌&&◌, ◌||◌, any, all, partition, or_none, Eq,
}
use stargraph.Security.Glob.{fnmatchcase}

pub record CapabilityClaim : Type 0 where
  pub name : String
  pub scope : Option String

-- `granted` is a set; no operation depends on the order in which the list gives it.
pub record Capabilities : Type 0 where
  pub default_deny : Bool
  pub granted : List CapabilityClaim

-- What the gates read of a `ToolSpec`.
pub record ToolSpec : Type 0 where
  pub namespace : String
  pub name : String
  pub version : String
  pub permissions : List String

-- A request: the text before the first colon, and what follows, if it is not empty.
pub record Request : Type 0 where
  pub name : String
  pub scope : Option String

unfoldable pub parse_request : String → Request
parse_request capability =
    let (name, scope) = partition b':' capability in record { name = name; scope = or_none scope }

scope_covers : Bool → Option String → Option String → Bool
scope_covers default_deny request none = not default_deny
scope_covers default_deny none (some pattern) = false
scope_covers default_deny (some scope) (some pattern) = fnmatchcase scope pattern

-- One turn of the loop over the claims: does this claim answer with True?
unfoldable pub claim_covers : Bool → Request → CapabilityClaim → Bool
unfolding scope_covers
claim_covers default_deny r claim =
    if claim.name == r.name then scope_covers default_deny r.scope claim.scope else false

unfoldable pub has_permission : Capabilities → String → Bool
unfolding claim_covers parse_request
has_permission caps capability =
    any (claim_covers caps.default_deny (parse_request capability)) caps.granted

unfoldable pub check : Capabilities → ToolSpec → Bool
unfolding has_permission
check caps tool = all (has_permission caps) tool.permissions

-- What the documentation promises, as a relation between a grant and a request.
pub data Covers (caps : Capabilities) (r : Request) : CapabilityClaim → Type 0 where
  -- an unscoped grant covers every scope of its name, unless the deployment denies by default
  unscoped :
      {claim : CapabilityClaim}
      → claim.name ≡ r.name
      → claim.scope ≡ none
      → caps.default_deny ≡ false
      → Covers caps r claim
  -- a scoped grant covers a scoped request that its pattern matches
  scoped :
      {claim : CapabilityClaim}
      → (scope pattern : String) → claim.name ≡ r.name
      → claim.scope ≡ some pattern
      → r.scope ≡ some scope
      → fnmatchcase scope pattern ≡ true
      → Covers caps r claim
