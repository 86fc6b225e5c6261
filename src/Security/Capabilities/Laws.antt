-- ===== src/Security/Capabilities/Laws.antt =====
-- When a permission is granted: exactly when some claim covers it.
use text.Mathlib.TextEquality.{eq_iff}
use stargraph.Common.{
  ◌≡◌, refl, String, true, Option, none, some, List, [], ◌∷◌, arith, ◌==◌, any, ◌↔◌, inl, inr,
  Bool-cases, string_keys,
}
use stargraph.Security.Capabilities.{
  CapabilityClaim, Capabilities, Request, parse_request, scope_covers, claim_covers, has_permission,
  Covers, unscoped, scoped,
}

-- Some claim of the list covers the request.
pub data SomeCovers (caps : Capabilities) (r : Request) : List CapabilityClaim → Type 0 where
  first :
      {c : CapabilityClaim} {cs : List CapabilityClaim}
      → Covers caps r c
      → SomeCovers caps r (c ∷ cs)
  later :
      {c : CapabilityClaim} {cs : List CapabilityClaim}
      → SomeCovers caps r cs
      → SomeCovers caps r (c ∷ cs)

scope_covers-Covers :
    (caps : Capabilities) (r : Request) (c : CapabilityClaim) (rs cs : Option String)
    → c.name ≡ r.name
    → r.scope ≡ rs
    → c.scope ≡ cs
    → scope_covers caps.default_deny rs cs ≡ true
    → Covers caps r c
unfolding scope_covers
scope_covers-Covers caps r c rs none n e d h = unscoped n d (ground arith)
scope_covers-Covers caps r c none (some p) n e d h = cc
scope_covers-Covers caps r c (some s) (some p) n e d h = scoped s p n d e h

claim_covers-Covers :
    (caps : Capabilities) (r : Request) (c : CapabilityClaim)
    → claim_covers caps.default_deny r c ≡ true
    → Covers caps r c
unfolding claim_covers
claim_covers-Covers caps r c h = elim (Bool-cases (c.name == r.name)) [
  | inl same ↦
      scope_covers-Covers caps r c r.scope c.scope ((eq_iff c.name r.name).0 same) refl refl
        (ground arith)
  | inr other ↦ absurd (ground arith)
]

Covers-claim_covers :
    (caps : Capabilities) (r : Request) (c : CapabilityClaim)
    → Covers caps r c
    → claim_covers caps.default_deny r c ≡ true
unfolding claim_covers scope_covers
Covers-claim_covers caps r c (unscoped n e d) = ground (arith, eq_iff c.name r.name)
Covers-claim_covers caps r c (scoped s p n e q m) = ground (arith, eq_iff c.name r.name)

module _ (caps : Capabilities) (r : Request) where
  any-SomeCovers :
      (cs : List CapabilityClaim)
      → any (claim_covers caps.default_deny r) cs ≡ true
      → SomeCovers caps r cs
  any-SomeCovers [] h = cc
  any-SomeCovers (c ∷ cs) h = elim (Bool-cases (claim_covers caps.default_deny r c)) [
    | inl yes_here ↦ first (claim_covers-Covers caps r c yes_here)
    | inr not_here ↦ later (any-SomeCovers cs (ground arith))
  ]

  SomeCovers-any :
      (cs : List CapabilityClaim)
      → SomeCovers caps r cs
      → any (claim_covers caps.default_deny r) cs ≡ true
  SomeCovers-any [] h = elim h [ ]
  SomeCovers-any (c ∷ cs) (first h) = ground (arith, Covers-claim_covers caps r c h)
  SomeCovers-any (c ∷ cs) (later h) = ground (arith, SomeCovers-any cs h)

-- A permission is granted exactly when some claim covers it: one of the same name that is unscoped,
-- where the deployment does not deny by default, or one whose pattern matches the requested scope.
pub has_permission-Covers :
    (caps : Capabilities) (capability : String)
    → (has_permission caps capability ≡ true)
      ↔ SomeCovers caps (parse_request capability) caps.granted
unfolding has_permission
has_permission-Covers caps capability = (
  any-SomeCovers caps (parse_request capability) caps.granted,
  SomeCovers-any caps (parse_request capability) caps.granted,
)
