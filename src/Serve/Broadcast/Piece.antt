-- ===== src/Serve/Broadcast/Piece.antt =====
-- The piece of the log that one subscriber sees.
use mathlib.Core.Path.{subst}
use stargraph.Common.{
  ◌≡◌, refl, ap, sym, ◌∙◌, ◌≤◌, inl, inr, Bool, true, false, not, List, [], ◌∷◌, ◌++◌, ◌&&◌, ◌||◌,
  arith, ltb, length, Bool-cases, length-append,
}
use stargraph.Serve.Broadcast.{
  Outcome, reading, ended, overflow_raised, torn_down, Subscriber, deliver, shut, next, ask,
  tear_down, last_outcome,
}

abbrev pub left : Outcome → Bool
left torn_down = true
left _ = false

module _ {E : Type 0} where
  -- What a subscriber has, and what it will still be given.
  abbrev pub seen : Subscriber E → List E
  seen sub = sub.received ++ (sub.replay ++ sub.buffer)

  -- A subscriber that has a right to every event from its beginning on.
  abbrev pub faithful : Bool → Subscriber E → Bool
  faithful closed sub = not closed && (not sub.overflowed && not (left sub.outcome))

  -- The log is what came before the subscriber, what it sees, and what came after. Nothing came after while it
  -- is in the set. A subscriber that lost nothing by its own doing is in the set as long as the loop runs. The
  -- first subscriber has missed nothing, if the log fits the backlog.
  abbrev pub SubInv : Bool → Bool → Bool → List E → Subscriber E → Type 0
  SubInv first closed pumping log sub =
      (earlier : List E) × (later : List E) × (log ≡ earlier ++ (seen sub ++ later))
      × ((sub.attached || faithful closed sub) ≡ true → later ≡ [])
      × ((pumping && faithful closed sub) ≡ true → sub.attached ≡ true)
      × (first ≡ true → length log ≤ 1024 → earlier ≡ [])

  pub append_assoc : (xs ys zs : List E) → (xs ++ ys) ++ zs ≡ xs ++ (ys ++ zs)
  append_assoc [] ys zs = refl
  append_assoc (x ∷ xs) ys zs = ap (λ l. x ∷ l) (append_assoc xs ys zs)

  pub append-nil : (xs : List E) → xs ++ [] ≡ xs
  append-nil [] = refl
  append-nil (x ∷ xs) = ap (λ l. x ∷ l) (append-nil xs)

  -- The log grows behind what a subscriber sees.
  grown :
      (log earlier mid later zs : List E)
      → log ≡ earlier ++ (mid ++ later)
      → log ++ zs ≡ earlier ++ (mid ++ (later ++ zs))
  grown log earlier mid later zs e =
      ap (λ l. l ++ zs) e
      ∙ (append_assoc earlier (mid ++ later) zs
          ∙ ap (λ l. earlier ++ l) (append_assoc mid later zs))

  -- An event at the end of the buffer is one at the end of what is seen.
  buffered :
      (received replay buffer zs : List E)
      → (received ++ (replay ++ buffer)) ++ zs ≡ (received ++ (replay ++ (buffer ++ zs))) ++ []
  buffered received replay buffer zs =
      append_assoc received (replay ++ buffer) zs
      ∙ (ap (λ l. received ++ l) (append_assoc replay buffer zs) ∙ sym (append-nil _))

  pub shorter : (log zs : List E) → length (log ++ zs) ≤ 1024 → length log ≤ 1024
  shorter log zs h = omega (arith, length-append log zs)

  deliver-room :
      (ev : E) (sub : Subscriber E)
      → sub.attached ≡ true
      → ltb (length sub.buffer) 100 ≡ true
      → deliver ev sub ≡ record sub { buffer = sub.buffer ++ ev ∷ [] }
  unfolding deliver
  deliver-room ev sub a r = ground (arith, a, r)

  deliver-full :
      (ev : E) (sub : Subscriber E)
      → sub.attached ≡ true
      → ltb (length sub.buffer) 100 ≡ false
      → deliver ev sub ≡ record sub { attached = false; overflowed = true }
  unfolding deliver
  deliver-full ev sub a r = ground (arith, a, r)

  deliver-gone : (ev : E) (sub : Subscriber E) → sub.attached ≡ false → deliver ev sub ≡ sub
  unfolding deliver
  deliver-gone ev sub a = ground (arith, a)

  pub deliver-SubInv :
      (first closed : Bool) (log : List E) (ev : E) (sub : Subscriber E)
      → SubInv first closed true log sub
      → SubInv first closed true (log ++ ev ∷ []) (deliver ev sub)
  deliver-SubInv first closed log ev sub (earlier, later, e, none_later, stays, whole) =
      let whole' : first ≡ true → length (log ++ ev ∷ []) ≤ 1024 → earlier ≡ [] =
        λ f h. whole f (shorter log (ev ∷ []) h) in
      elim (Bool-cases sub.attached) [
        | inr gone ↦
            subst (SubInv first closed true (log ++ ev ∷ [])) (sym (deliver-gone ev sub gone)) (
              earlier,
              later ++ ev ∷ [],
              grown log earlier (seen sub) later (ev ∷ []) e,
              λ h. ground (arith, h, gone, stays),
              stays,
              whole',
            )
        | inl here ↦
            let nothing : later ≡ [] = none_later (ground (arith, here)) in
            let e' : log ++ ev ∷ [] ≡ earlier ++ (seen sub ++ ev ∷ []) =
              subst (λ l. log ++ ev ∷ [] ≡ earlier ++ (seen sub ++ (l ++ ev ∷ []))) nothing
                (grown log earlier (seen sub) later (ev ∷ []) e) in
            elim (Bool-cases (ltb (length sub.buffer) 100)) [
              | inl room ↦
                  subst (SubInv first closed true (log ++ ev ∷ []))
                    (sym (deliver-room ev sub here room))
                    (
                      earlier,
                      [],
                      e'
                          ∙ ap (λ l. earlier ++ l)
                              (buffered sub.received sub.replay sub.buffer (ev ∷ [])),
                      λ h. refl,
                      λ h. here,
                      whole',
                    )
              | inr full ↦
                  subst (SubInv first closed true (log ++ ev ∷ []))
                    (sym (deliver-full ev sub here full))
                    (earlier, ev ∷ [], e', λ h. ground (arith, h), λ h. ground (arith, h), whole')
            ]
      ]

  -- A subscriber that sees what it saw, under a right that is no greater.
  pub kept :
      (first closed closed' pumping pumping' : Bool) (log : List E) (sub sub' : Subscriber E)
      → seen sub' ≡ seen sub
      → ((sub'.attached || faithful closed' sub') ≡ true
          → (sub.attached || faithful closed sub) ≡ true)
      → ((pumping' && faithful closed' sub') ≡ true → sub'.attached ≡ true)
      → SubInv first closed pumping log sub
      → SubInv first closed' pumping' log sub'
  kept first closed closed' pumping pumping' log sub sub' same right there
        (earlier, later, e, none_later, stays, whole) =
      (
        earlier,
        later,
        subst (λ l. log ≡ earlier ++ (l ++ later)) (sym same) e,
        λ h. none_later (right h),
        there,
        whole,
      )

  pub shut-SubInv :
      (first closed closed' pumping pumping' : Bool) (log : List E) (sub : Subscriber E)
      → (closed ≡ true → closed' ≡ true)
      → (pumping' && not closed') ≡ false
      → SubInv first closed pumping log sub
      → SubInv first closed' pumping' log (shut sub)
  shut-SubInv first closed closed' pumping pumping' log sub c quiet =
      kept first closed closed' pumping pumping' log sub (shut sub) refl (λ h. ground (arith, h, c))
        (λ h. ground (arith, h, quiet))

  next-waits : (sub : Subscriber E) → sub.attached ≡ true → next [] [] sub ≡ sub
  unfolding next
  next-waits sub a = ground (arith, a)

  next-ends :
      (sub : Subscriber E)
      → sub.attached ≡ false
      → next [] [] sub ≡ record sub { outcome = last_outcome sub.overflowed }
  unfolding next
  next-ends sub a = ground (arith, a)

  next-SubInv :
      (first closed pumping : Bool) (log replay buffer : List E) (sub : Subscriber E)
      → sub.replay ≡ replay
      → sub.buffer ≡ buffer
      → sub.outcome ≡ reading
      → SubInv first closed pumping log sub
      → SubInv first closed pumping log (next replay buffer sub)
  unfolding next
  next-SubInv first closed pumping log (ev ∷ replay) buffer sub r b o inv =
      kept first closed closed pumping pumping log sub
        (record sub { replay = replay; received = sub.received ++ ev ∷ [] })
        (append_assoc sub.received (ev ∷ []) (replay ++ sub.buffer)
          ∙ ap (λ l. sub.received ++ (l ++ sub.buffer)) (sym r))
        (λ h. h) inv.4 inv
  next-SubInv first closed pumping log [] (ev ∷ buffer) sub r b o inv =
      kept first closed closed pumping pumping log sub
        (record sub { buffer = buffer; received = sub.received ++ ev ∷ [] })
        (ap (λ l. (sub.received ++ ev ∷ []) ++ (l ++ buffer)) r
          ∙ (append_assoc sub.received (ev ∷ []) buffer
              ∙ (ap (λ l. sub.received ++ l) (sym b)
                  ∙ ap (λ l. sub.received ++ (l ++ sub.buffer)) (sym r))))
        (λ h. h) inv.4 inv
  next-SubInv first closed pumping log [] [] sub r b o inv = elim (Bool-cases sub.attached) [
    | inl here ↦ subst (SubInv first closed pumping log) (sym (next-waits sub here)) inv
    | inr gone ↦ subst (SubInv first closed pumping log) (sym (next-ends sub gone)) (
        kept first closed closed pumping pumping log sub
          (record sub { outcome = last_outcome sub.overflowed }) refl
          (λ h. ground (arith, h, gone, ap left o)) (λ h. ground (arith, h, gone, inv.4, ap left o))
          inv)
  ]

  pub ask-SubInv :
      (first closed pumping : Bool) (log : List E) (sub : Subscriber E) (o : Outcome)
      → sub.outcome ≡ o
      → SubInv first closed pumping log sub
      → SubInv first closed pumping log (ask sub o)
  unfolding ask
  ask-SubInv first closed pumping log sub reading o inv =
      next-SubInv first closed pumping log sub.replay sub.buffer sub refl refl o inv
  ask-SubInv first closed pumping log sub ended o inv = inv
  ask-SubInv first closed pumping log sub overflow_raised o inv = inv
  ask-SubInv first closed pumping log sub torn_down o inv = inv

  pub tear_down-SubInv :
      (first closed pumping : Bool) (log : List E) (sub : Subscriber E) (o : Outcome)
      → SubInv first closed pumping log sub
      → SubInv first closed pumping log (tear_down sub o)
  unfolding tear_down
  tear_down-SubInv first closed pumping log sub reading inv =
      kept first closed closed pumping pumping log sub (tear_down sub reading) refl
        (λ h. ground (arith, h)) (λ h. ground (arith, h)) inv
  tear_down-SubInv first closed pumping log sub ended inv = inv
  tear_down-SubInv first closed pumping log sub overflow_raised inv = inv
  tear_down-SubInv first closed pumping log sub torn_down inv = inv
