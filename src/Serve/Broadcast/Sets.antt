-- ===== src/Serve/Broadcast/Sets.antt =====
-- All subscribers, and the backlog.
use stargraph.Common.{
  ℕ, zero, suc, ◌≡◌, refl, ap, sym, ◌∙◌, ◌≤◌, inl, inr, Bool, true, false, List, [], ◌∷◌, ◌++◌,
  if◌then◌else◌, arith, ltb, length, map, Bool-cases, length-append,
}
use stargraph.Serve.Broadcast.{Subscriber, drop_oldest, at_subscriber}
use stargraph.Serve.Broadcast.Piece.{SubInv, append_assoc, shorter}

module _ {E : Type 0} where
  abbrev pub Subs : Bool → Bool → Bool → List E → List (Subscriber E) → Type 0
  Subs first closed pumping log [] = Unit
  Subs first closed pumping log (sub ∷ subs) =
      SubInv first closed pumping log sub × Subs false closed pumping log subs

  -- Until somebody subscribes the backlog is the end of the log, and all of it while it fits.
  abbrev pub BacklogInv : List E → List E → Type 0
  BacklogInv log backlog =
      (dropped : List E) × (log ≡ dropped ++ backlog)
      × (length backlog ≤ 1024)
      × (length log ≤ 1024 → dropped ≡ [])

  abbrev pub occupied : List (Subscriber E) → Bool
  occupied [] = false
  occupied (sub ∷ subs) = true

  pub Subs-map :
      (f : Subscriber E → Subscriber E) (first closed closed' pumping pumping' : Bool)
      (log log' : List E)
      → ((one : Bool) (sub : Subscriber E)
          → SubInv one closed pumping log sub
          → SubInv one closed' pumping' log' (f sub))
      → (subs : List (Subscriber E)) → Subs first closed pumping log subs
      → Subs first closed' pumping' log' (map f subs)
  Subs-map f first closed closed' pumping pumping' log log' g [] h = tt
  Subs-map f first closed closed' pumping pumping' log log' g (sub ∷ subs) (i, h) =
      (g first sub i, Subs-map f false closed closed' pumping pumping' log log' g subs h)

  pub Subs-at :
      (f : Subscriber E → Subscriber E) (k : ℕ) (first closed pumping : Bool) (log : List E)
      → ((one : Bool) (sub : Subscriber E)
          → SubInv one closed pumping log sub
          → SubInv one closed pumping log (f sub))
      → (subs : List (Subscriber E)) → Subs first closed pumping log subs
      → Subs first closed pumping log (at_subscriber f k subs)
  unfolding at_subscriber
  Subs-at f k first closed pumping log g [] h = tt
  Subs-at f zero first closed pumping log g (sub ∷ subs) (i, h) = (g first sub i, h)
  Subs-at f (suc k) first closed pumping log g (sub ∷ subs) (i, h) =
      (i, Subs-at f k false closed pumping log g subs h)

  pub Subs-append :
      (first closed pumping : Bool) (log : List E) (subs : List (Subscriber E)) (sub : Subscriber E)
      → Subs first closed pumping log subs
      → SubInv (if occupied subs then false else first) closed pumping log sub
      → Subs first closed pumping log (subs ++ sub ∷ [])
  Subs-append first closed pumping log [] sub h i = (i, tt)
  Subs-append first closed pumping log (s ∷ []) sub (j, h) i = (j, (i, tt))
  Subs-append first closed pumping log (s ∷ t ∷ subs) sub (j, h) i =
      (j, Subs-append false closed pumping log (t ∷ subs) sub h i)

  pub occupied-map :
      (f : Subscriber E → Subscriber E) (subs : List (Subscriber E))
      → occupied (map f subs) ≡ occupied subs
  occupied-map f [] = refl
  occupied-map f (sub ∷ subs) = refl

  pub occupied-at :
      (f : Subscriber E → Subscriber E) (k : ℕ) (subs : List (Subscriber E))
      → occupied (at_subscriber f k subs) ≡ occupied subs
  unfolding at_subscriber
  occupied-at f k [] = refl
  occupied-at f zero (sub ∷ subs) = refl
  occupied-at f (suc k) (sub ∷ subs) = refl

  pub occupied-append :
      (subs : List (Subscriber E)) (sub : Subscriber E) → occupied (subs ++ sub ∷ []) ≡ true
  occupied-append [] sub = refl
  occupied-append (s ∷ subs) sub = refl

  drop_oldest-BacklogInv : (l : List E) → length l ≤ 1025 → BacklogInv l (drop_oldest l)
  drop_oldest-BacklogInv [] h = ([], refl, omega arith, λ g. refl)
  drop_oldest-BacklogInv (ev ∷ evs) h = elim (Bool-cases (ltb 1024 (length (ev ∷ evs)))) [
    | inl over ↦ rw over (ev ∷ [], refl, omega (arith, h), λ g. ground (arith, g, over))
    | inr fits ↦ rw fits ([], refl, ground (arith, fits), λ g. refl)
  ]

  pub BacklogInv-append :
      (log backlog : List E) (ev : E)
      → BacklogInv log backlog
      → BacklogInv (log ++ ev ∷ []) (drop_oldest (backlog ++ ev ∷ []))
  BacklogInv-append log backlog ev (dropped, e, small, all_kept) =
      let (d, f, small', kept') =
        drop_oldest-BacklogInv (backlog ++ ev ∷ [])
          (omega (arith, length-append backlog (ev ∷ []))) in
      (
        dropped ++ d,
        ap (λ l. l ++ ev ∷ []) e
            ∙ (append_assoc dropped backlog (ev ∷ [])
                ∙ (ap (λ l. dropped ++ l) f ∙ sym (append_assoc dropped d _))),
        small',
        λ h.
            ap (λ l. l ++ d) (all_kept (shorter log (ev ∷ []) h))
            ∙ kept' (
                omega (
                  arith,
                  h,
                  length-append log (ev ∷ []),
                  length-append backlog (ev ∷ []),
                  length-append dropped backlog,
                  ap length e,
                )),
      )
