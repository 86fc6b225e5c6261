-- ===== src/Serve/Broadcast/Delivery.antt =====
-- What a subscriber sees: the events of the bus in their order, none twice, none left out.
use mathlib.Core.Path.{subst}
use stargraph.Common.{
  ℕ, zero, suc, ◌≡◌, refl, ap, sym, ◌∙◌, ◌≤◌, inl, inr, Bool, true, false, not, some, List, [], ◌∷◌,
  ◌++◌, ◌&&◌, if◌then◌else◌, arith, length, map, get_elem?, Bool-cases,
}
use stargraph.Serve.Broadcast.{
  reading, Subscriber, Broadcaster, new_broadcaster, deliver, drop_oldest, shut, close_all, publish,
  bus_ends, aclose, subscribe, ask, tear_down, at_subscriber, Act, publishes, ends_bus, closes,
  subscribes, asks, leaves, act, run,
}
use stargraph.Serve.Broadcast.Piece.{
  seen, faithful, SubInv, append-nil, deliver-SubInv, shut-SubInv, ask-SubInv, tear_down-SubInv,
}
use stargraph.Serve.Broadcast.Sets.{
  Subs, BacklogInv, occupied, Subs-map, Subs-at, Subs-append, occupied-map, occupied-at,
  occupied-append, BacklogInv-append,
}

module _ {E : Type 0} where
  abbrev Inv : Broadcaster E → Type 0
  Inv b =
      Subs true b.closed b.pumping b.log b.subscribers
      × (b.had_subscriber ≡ occupied b.subscribers)
      × (b.had_subscriber ≡ false → BacklogInv b.log b.backlog)

  close_all-Inv :
      (closed' pumping' : Bool) (b : Broadcaster E)
      → (b.closed ≡ true → closed' ≡ true)
      → (pumping' && not closed') ≡ false
      → Inv b
      → Inv (close_all (record b { closed = closed'; pumping = pumping' }))
  unfolding close_all
  close_all-Inv closed' pumping' b c quiet (subs, had, back) = (
    Subs-map shut true b.closed closed' b.pumping pumping' b.log b.log
        (λ one sub. shut-SubInv one b.closed closed' b.pumping pumping' b.log sub c quiet)
        b.subscribers subs,
    had ∙ sym (occupied-map shut b.subscribers),
    back,
  )

  -- The broadcaster after an event.
  abbrev fed : E → Broadcaster E → Broadcaster E
  fed ev b = record b {
    subscribers = map (deliver ev) b.subscribers;
    backlog = if b.had_subscriber then b.backlog else drop_oldest (b.backlog ++ ev ∷ []);
    log = b.log ++ ev ∷ [];
  }

  fed-Inv : (ev : E) (b : Broadcaster E) → b.pumping ≡ true → Inv b → Inv (fed ev b)
  fed-Inv ev b p (subs, had, back) = (
    subst (λ q. Subs true b.closed q (b.log ++ ev ∷ []) (map (deliver ev) b.subscribers)) (sym p)
        (Subs-map (deliver ev) true b.closed b.closed true true b.log (b.log ++ ev ∷ [])
          (λ one sub. deliver-SubInv one b.closed b.log ev sub) b.subscribers
          (subst (λ q. Subs true b.closed q b.log b.subscribers) p subs)),
    had ∙ sym (occupied-map (deliver ev) b.subscribers),
    λ n.
        subst
          (λ q.
            BacklogInv (b.log ++ ev ∷ [])
              (if q then b.backlog else drop_oldest (b.backlog ++ ev ∷ [])))
          (sym n) (BacklogInv-append b.log b.backlog ev (back n)),
  )

  publish-stopped : (ev : E) (b : Broadcaster E) → b.pumping ≡ false → publish ev b ≡ b
  unfolding publish
  publish-stopped ev b p = ground (arith, p)

  publish-goes :
      (ev : E) (b : Broadcaster E) → b.pumping ≡ true → b.closed ≡ false → publish ev b ≡ fed ev b
  unfolding publish
  publish-goes ev b p c = ground (arith, p, c)

  publish-last :
      (ev : E) (b : Broadcaster E)
      → b.pumping ≡ true
      → b.closed ≡ true
      → publish ev b ≡ close_all (record (fed ev b) { pumping = false })
  unfolding publish
  publish-last ev b p c = ground (arith, p, c)

  publish-Inv : (ev : E) (b : Broadcaster E) → Inv b → Inv (publish ev b)
  publish-Inv ev b inv = elim (Bool-cases b.pumping) [
    | inr stopped ↦ subst Inv (sym (publish-stopped ev b stopped)) inv
    | inl goes ↦ elim (Bool-cases b.closed) [
      | inr on ↦ subst Inv (sym (publish-goes ev b goes on)) (fed-Inv ev b goes inv)
      | inl off ↦
          subst Inv (sym (publish-last ev b goes off))
            (close_all-Inv b.closed false (fed ev b) (λ c. c) refl (fed-Inv ev b goes inv))
    ]
  ]

  bus_ends-Inv : (b : Broadcaster E) → Inv b → Inv (bus_ends b)
  unfolding bus_ends
  bus_ends-Inv b inv =
      elim b.pumping as (λ p. Inv (if p then close_all (record b { pumping = false }) else b)) [
        | true ↦ close_all-Inv b.closed false b (λ c. c) refl inv
        | false ↦ inv
      ]

  aclose-Inv : (b : Broadcaster E) → Inv b → Inv (aclose b)
  unfolding aclose
  aclose-Inv b inv = close_all-Inv true b.pumping b (λ c. refl) (ground arith) inv

  abbrev newcomer : List E → Subscriber E
  newcomer replay = record {
    replay = replay;
    buffer = [];
    received = [];
    attached = true;
    overflowed = false;
    outcome = reading;
  }

  newcomer-SubInv :
      (had closed pumping : Bool) (log backlog : List E)
      → (had ≡ false → BacklogInv log backlog)
      → SubInv
          (if had then false else true)
          closed
          pumping
          log
          (newcomer (if had then [] else backlog))
  newcomer-SubInv true closed pumping log backlog back =
      (log, [], sym (append-nil log), λ h. refl, λ h. refl, λ f. cc)
  newcomer-SubInv false closed pumping log backlog back =
      let (dropped, e, small, all_kept) = back refl in
      (
        dropped,
        [],
        e ∙ ap (λ l. dropped ++ l) (sym (append-nil (backlog ++ []) ∙ append-nil backlog)),
        λ h. refl,
        λ h. refl,
        λ f. all_kept,
      )

  subscribe-Inv : (b : Broadcaster E) → Inv b → Inv (subscribe b)
  unfolding subscribe
  subscribe-Inv b (subs, had, back) =
      let new = newcomer (if b.had_subscriber then [] else b.backlog) in
      (
        Subs-append true b.closed b.pumping b.log b.subscribers new subs (
            subst (λ q. SubInv (if q then false else true) b.closed b.pumping b.log new) had
              (newcomer-SubInv b.had_subscriber b.closed b.pumping b.log b.backlog back)),
        sym (occupied-append b.subscribers new),
        λ n. cc,
      )

  at-Inv :
      (f : Subscriber E → Subscriber E) (k : ℕ) (b : Broadcaster E)
      → ((one : Bool) (sub : Subscriber E)
          → SubInv one b.closed b.pumping b.log sub
          → SubInv one b.closed b.pumping b.log (f sub))
      → Inv b
      → Inv (record b { subscribers = at_subscriber f k b.subscribers })
  at-Inv f k b g (subs, had, back) = (
    Subs-at f k true b.closed b.pumping b.log g b.subscribers subs,
    had ∙ sym (occupied-at f k b.subscribers),
    back,
  )

  act-Inv : (a : Act E) (b : Broadcaster E) → Inv b → Inv (act a b)
  unfolding act
  act-Inv (publishes ev) b inv = publish-Inv ev b inv
  act-Inv ends_bus b inv = bus_ends-Inv b inv
  act-Inv closes b inv = aclose-Inv b inv
  act-Inv subscribes b inv = subscribe-Inv b inv
  act-Inv (asks k) b inv =
      at-Inv (λ sub. ask sub sub.outcome) k b
        (λ one sub. ask-SubInv one b.closed b.pumping b.log sub sub.outcome refl) inv
  act-Inv (leaves k) b inv =
      at-Inv (λ sub. tear_down sub sub.outcome) k b
        (λ one sub. tear_down-SubInv one b.closed b.pumping b.log sub sub.outcome) inv

  run-Inv : (acts : List (Act E)) (b : Broadcaster E) → Inv b → Inv (run acts b)
  unfolding run
  run-Inv [] b inv = inv
  run-Inv (a ∷ later) b inv = run-Inv later (act a b) (act-Inv a b inv)

  new-Inv : Inv new_broadcaster
  new-Inv = (tt, refl, λ n. ([], refl, omega arith, λ h. refl))

  sub_at :
      (first : Bool) (k : ℕ) (closed pumping : Bool) (log : List E) (subs : List (Subscriber E))
      (sub : Subscriber E)
      → Subs first closed pumping log subs
      → get_elem? subs k ≡ some sub
      → (one : Bool) × SubInv one closed pumping log sub
  sub_at first k closed pumping log [] sub h e = cc
  sub_at first zero closed pumping log (s ∷ subs) sub (i, h) e =
      let same : s ≡ sub = cc in (first, subst (SubInv first closed pumping log) same i)
  sub_at first (suc k) closed pumping log (s ∷ subs) sub (i, h) e =
      sub_at false k closed pumping log subs sub h e

  head_of :
      (closed pumping : Bool) (log : List E) (subs : List (Subscriber E)) (sub : Subscriber E)
      → Subs true closed pumping log subs
      → get_elem? subs 0 ≡ some sub
      → SubInv true closed pumping log sub
  head_of closed pumping log [] sub h e = cc
  head_of closed pumping log (s ∷ subs) sub (i, h) e =
      let same : s ≡ sub = cc in subst (SubInv true closed pumping log) same i

  -- Whoever subscribes, at whatever time, and whatever others do: what it has been given, what its iterator
  -- still holds and what its stream holds are together one piece of the events that were read of the bus, in
  -- their order, none twice and none left out between them.
  pub subscriber_sees_piece :
      (acts : List (Act E)) (k : ℕ) (sub : Subscriber E)
      → get_elem? (run acts new_broadcaster).subscribers k ≡ some sub
      → (earlier : List E) × (later : List E) × ((run acts new_broadcaster).log
          ≡ earlier ++ (seen sub ++ later))
  subscriber_sees_piece acts k sub e =
      let b = run acts new_broadcaster in
      let (one, inv) =
        sub_at true k b.closed b.pumping b.log b.subscribers sub
          (run-Inv acts new_broadcaster new-Inv).0 e in
      (inv.0, inv.1, inv.2)

  -- The first subscriber misses no event, also of those that were read before it subscribed, as long as there
  -- are at most 1024 in all, it did not overflow and did not go away, and nobody called `aclose`.
  pub first_subscriber_sees_all :
      (acts : List (Act E)) (sub : Subscriber E)
      → get_elem? (run acts new_broadcaster).subscribers 0 ≡ some sub
      → faithful (run acts new_broadcaster).closed sub ≡ true
      → length (run acts new_broadcaster).log ≤ 1024
      → seen sub ≡ (run acts new_broadcaster).log
  first_subscriber_sees_all acts sub e right fits =
      let b = run acts new_broadcaster in
      let (earlier, later, whole, none_later, stays, first) =
        head_of b.closed b.pumping b.log b.subscribers sub (run-Inv acts new_broadcaster new-Inv).0
          e in
      sym (
        whole
        ∙ (ap (λ l. l ++ (seen sub ++ later)) (first refl fits)
            ∙ (ap (λ l. seen sub ++ l) (none_later (ground (arith, right)))
                ∙ append-nil (seen sub))))
