-- ===== src/Runtime/Action/Laws.antt =====
-- What `translate_actions` decides, and the rule that `rule_id_for` names.
use stargraph.Common.{
  ℕ, zero, suc, ◌≡◌, ◌∙◌, refl, ◌≢◌, String, Bool, true, false, Option, none, some, List, [], ◌∷◌,
  arith, find, All, get_elem?, nat_eq, nat_eq_iff, sym, ◌⊎◌, inl, inr, Bool-cases,
}
use stargraph.Ir.Actions.{ActionObject, goto, halt, parallel, interrupt}
use stargraph.Runtime.Action.{
  RoutingDecision, continue, routed, Found, nothing_found, note_kind, scan, decide,
  translate_actions, rule_id_of, rule_id_for,
}

abbrev pub is_interrupt : ActionObject → Bool
is_interrupt o = elim o.action [ interrupt _ ↦ true | _ ↦ false ]

abbrev pub is_halt : ActionObject → Bool
is_halt o = elim o.action [ halt _ ↦ true | _ ↦ false ]

abbrev pub is_goto : ActionObject → Bool
is_goto o = elim o.action [ goto _ ↦ true | _ ↦ false ]

abbrev pub is_parallel : ActionObject → Bool
is_parallel o = elim o.action [ parallel _ _ _ ↦ true | _ ↦ false ]

-- The documented precedence, with no loop: the first interrupt, else the first halt, and so on.
abbrev pub by_precedence : List ActionObject → RoutingDecision
by_precedence os = elim (find is_interrupt os) [
  | some i ↦ routed i
  | none ↦ elim (find is_halt os) [
    | some h ↦ routed h
    | none ↦ elim (find is_goto os) [
      | some g ↦ routed g
      | none ↦ elim (find is_parallel os) [ some p ↦ routed p | none ↦ continue ]
    ]
  ]
]

abbrev or_else : Option ActionObject → Option ActionObject → Option ActionObject
or_else none later = later
or_else (some old) later = some old

abbrev after : Found → List ActionObject → Found
after f os = record {
  interrupt = or_else f.interrupt (find is_interrupt os);
  halt = or_else f.halt (find is_halt os);
  goto = or_else f.goto (find is_goto os);
  parallel = or_else f.parallel (find is_parallel os);
}

after-cons :
    (f : Found) (o : ActionObject) (os : List ActionObject)
    → after (note_kind o.action o f) os ≡ after f (o ∷ os)
unfolding note_kind
after-cons f o os = ground arith

scan-after : (f : Found) (os : List ActionObject) → scan f os ≡ after f os
unfolding scan
scan-after f [] = ground arith
scan-after f (o ∷ os) = scan-after (note_kind o.action o f) os ∙ after-cons f o os

-- For every list of actions the decision is the first interrupt, else the first halt, else the
-- first goto, else the first parallel, and to continue where there is none of these.
pub translate_actions-precedence :
    (os : List ActionObject) → translate_actions os ≡ by_precedence os
unfolding translate_actions decide
translate_actions-precedence os = rw (scan-after nothing_found os) (ground arith)

-- No two objects of the list are the same.
abbrev pub HasDistinct : List ActionObject → Type 0
HasDistinct [] = Unit
HasDistinct (o ∷ os) = All (λ (p : ActionObject). o.ident ≢ p.ident) os × HasDistinct os

abbrev pub text_or_empty : Option String → String
text_or_empty none = ""
text_or_empty (some r) = r

ne_of_All :
    (o p : ActionObject) (os : List ActionObject) (i : ℕ)
    → All (λ (q : ActionObject). o.ident ≢ q.ident) os
    → get_elem? os i ≡ some p
    → nat_eq o.ident p.ident ≡ false
ne_of_All o p [] i h e = cc
ne_of_All o p (q ∷ os) zero h e = ground arith
ne_of_All o p (q ∷ os) (suc i) h e = ne_of_All o p os i h.1 e

rule_id_of-get_elem :
    (o : ActionObject) (os : List ActionObject) (ids : List String) (i : ℕ)
    → HasDistinct os
    → get_elem? os i ≡ some o
    → rule_id_of o os ids ≡ text_or_empty (get_elem? ids i)
unfolding rule_id_of
rule_id_of-get_elem o [] ids i d e = cc
rule_id_of-get_elem o (p ∷ os) [] i d e = refl
rule_id_of-get_elem o (p ∷ os) (r ∷ rs) zero d e = ground (arith, nat_eq_iff p.ident o.ident)
rule_id_of-get_elem o (p ∷ os) (r ∷ rs) (suc i) d e =
    rw (ne_of_All p o os i d.0 e) (rule_id_of-get_elem o os rs i d.1 e)

find-get_elem :
    (p : ActionObject → Bool) (os : List ActionObject) (o : ActionObject)
    → find p os ≡ some o
    → (i : ℕ) × (get_elem? os i ≡ some o)
find-get_elem p [] o e = cc
find-get_elem p (q ∷ os) o e = elim (Bool-cases (p q)) [
  | inl hit ↦ (0, ground arith)
  | inr miss ↦ let (i, h) = find-get_elem p os o (ground arith) in (suc i, h)
]

chosen-found :
    (os : List ActionObject) (o : ActionObject)
    → by_precedence os ≡ routed o
    → (find is_interrupt os ≡ some o)
      ⊎ ((find is_halt os ≡ some o) ⊎ ((find is_goto os ≡ some o) ⊎ (find is_parallel os ≡ some o)))
chosen-found os o e = ground arith

chosen-get_elem :
    (os : List ActionObject) (o : ActionObject)
    → by_precedence os ≡ routed o
    → (i : ℕ) × (get_elem? os i ≡ some o)
chosen-get_elem os o e = elim (chosen-found os o e) [
  | inl i ↦ find-get_elem is_interrupt os o i
  | inr (inl h) ↦ find-get_elem is_halt os o h
  | inr (inr (inl g)) ↦ find-get_elem is_goto os o g
  | inr (inr (inr p)) ↦ find-get_elem is_parallel os o p
]

-- Where the objects are distinct and the decision is one of them, that object stands in the list at
-- some place, and the rule named is the one at the same place of the ids, or "" past their end.
pub rule_id_for-translate_actions :
    (os : List ActionObject) (ids : List String) (o : ActionObject)
    → HasDistinct os
    → translate_actions os ≡ routed o
    → (i : ℕ) × (get_elem? os i ≡ some o)
      × (rule_id_for (translate_actions os) os ids ≡ text_or_empty (get_elem? ids i))
unfolding rule_id_for
rule_id_for-translate_actions os ids o d e =
    let (i, h) = chosen-get_elem os o (sym (translate_actions-precedence os) ∙ e) in
    (i, h, rw e (rule_id_of-get_elem o os ids i d h))
