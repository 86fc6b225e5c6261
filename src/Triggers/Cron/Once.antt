-- ===== src/Triggers/Cron/Once.antt =====
-- No tick is fired twice.
use mathlib.Core.Path.{subst}
use stargraph.Common.{
  ℕ, ◌+◌, ◌-◌, ◌≤◌, ◌<◌, ◌≡◌, refl, sym, ap, inl, inr, Bool, true, false, Option, none, some, List,
  [], ◌∷◌, ◌++◌, ◌&&◌, arith, ltb, leb, nat_eq_iff, if◌then◌else◌, Option-cases, all,
}
use stargraph.Triggers.Cron.{
  MissedFirePolicy, catches_up, Fires, fire, Turn, unless_fired, missed_fire, goes_on_at, fire_loop,
  compute_last_missed_fire,
}
use stargraph.Triggers.Cron.Ticks.{IsSchedule, no_later, compute_last_missed_fire-due}

-- Each number of the list is greater than those before it.
abbrev pub rises : List ℕ → Bool
rises [] = true
rises (t ∷ ts) = all (ltb t) ts && rises ts

-- The ticks that were fired rise, and the last of them is in the past.
abbrev pub IsFiring : (ℕ → Bool) → ℕ → List ℕ → Option ℕ → Type 0
IsFiring is_tick now fired none = fired ≡ []
IsFiring is_tick now fired (some l) =
    (is_tick l ≡ true) × (l ≤ now) × (rises fired ≡ true) × (all (λ t. leb t l) fired ≡ true)

abbrev Behind : ℕ → Option ℕ → Type 0
Behind f none = Unit
Behind f (some l) = l < f

all-rises :
    (t f l : ℕ) (ts : List ℕ) → all (ltb t) ts ≡ true → t < f → all (ltb t) (ts ++ f ∷ []) ≡ true
all-rises t f l [] h b = ground (arith, b)
all-rises t f l (u ∷ ts) h b = ground (arith, h, all-rises t f l ts)

rises-append :
    (l f : ℕ) (ts : List ℕ)
    → rises ts ≡ true
    → all (λ t. leb t l) ts ≡ true
    → l < f
    → rises (ts ++ f ∷ []) ≡ true
rises-append l f [] r u b = refl
rises-append l f (t ∷ ts) r u b = ground (arith, r, u, b, rises-append l f ts, all-rises t f l ts)

below-append :
    (l f : ℕ) (ts : List ℕ)
    → all (λ t. leb t l) ts ≡ true
    → l < f
    → all (λ t. leb t f) (ts ++ f ∷ []) ≡ true
below-append l f [] u b = ground arith
below-append l f (t ∷ ts) u b = ground (arith, u, b, below-append l f ts)

later-IsFiring :
    (is_tick : ℕ → Bool) (now now' : ℕ) (fired : List ℕ) (last : Option ℕ)
    → now ≤ now'
    → IsFiring is_tick now fired last
    → IsFiring is_tick now' fired last
later-IsFiring is_tick now now' fired none le i = i
later-IsFiring is_tick now now' fired (some l) le (t, p, r, u) = (t, omega (arith, p, le), r, u)

fired-IsFiring :
    (is_tick : ℕ → Bool) (now f : ℕ) (fired : List ℕ) (last : Option ℕ)
    → is_tick f ≡ true
    → f ≤ now
    → Behind f last
    → IsFiring is_tick now fired last
    → IsFiring is_tick now (fired ++ f ∷ []) (some f)
fired-IsFiring is_tick now f fired none t p b i = rw i (t, p, refl, ground arith)
fired-IsFiring is_tick now f fired (some l) t p b (tl, pl, r, u) =
    (t, p, rises-append l f fired r u b, below-append l f fired u b)

fire-IsFiring :
    (is_tick : ℕ → Bool) (refused : Bool) (now now' f : ℕ) (s : Fires)
    → is_tick f ≡ true
    → now ≤ now'
    → f ≤ now'
    → Behind f s.last_fire
    → IsFiring is_tick now s.fired s.last_fire
    → IsFiring is_tick now' (fire refused f s).fired (fire refused f s).last_fire
unfolding fire
fire-IsFiring is_tick true now now' f s t le p b i =
    later-IsFiring is_tick now now' s.fired s.last_fire le i
fire-IsFiring is_tick false now now' f s t le p b i =
    fired-IsFiring is_tick now' f s.fired s.last_fire t p b
      (later-IsFiring is_tick now now' s.fired s.last_fire le i)

-- A tick in the future is behind the last one that was fired.
next-Behind :
    (is_tick : ℕ → Bool) (now f : ℕ) (fired : List ℕ) (last : Option ℕ)
    → now < f
    → IsFiring is_tick now fired last
    → Behind f last
next-Behind is_tick now f fired none b i = tt
next-Behind is_tick now f fired (some l) b (t, p, r, u) = omega (arith, p, b)

-- So is one that is to be caught up.
missed-Behind :
    (next_fire : ℕ → ℕ) (is_tick : ℕ → Bool) (now m : ℕ) (fired : List ℕ) (last : Option ℕ)
    → IsSchedule next_fire is_tick
    → now < next_fire m
    → unless_fired (some m) last ≡ some m
    → IsFiring is_tick now fired last
    → Behind m last
missed-Behind next_fire is_tick now m fired none s n e i = tt
missed-Behind next_fire is_tick now m fired (some l) s n e (t, p, r, u) =
    ground (arith, e, no_later next_fire is_tick m l now s t p n, nat_eq_iff l m)

unless_fired-some :
    (missed last : Option ℕ) (m : ℕ) → unless_fired missed last ≡ some m → missed ≡ some m
unless_fired-some none last m e = cc
unless_fired-some (some k) none m e = e
unless_fired-some (some k) (some l) m e = ground (arith, e)

if-some : (b : Bool) (x : Option ℕ) (m : ℕ) → (if b then x else none) ≡ some m → x ≡ some m
if-some true x m e = e
if-some false x m e = cc

missed_fire-some :
    (next_fire : ℕ → ℕ) (is_tick : ℕ → Bool) (policy : MissedFirePolicy) (first : Bool) (now m : ℕ)
    (s : Fires)
    → IsSchedule next_fire is_tick
    → missed_fire next_fire policy first now s ≡ some m
    → IsFiring is_tick now s.fired s.last_fire
    → (is_tick m ≡ true) × (m ≤ now) × Behind m s.last_fire
unfolding missed_fire
missed_fire-some next_fire is_tick policy first now m s sched e i =
    let wanted =
      if-some (first && catches_up policy)
        (unless_fired (compute_last_missed_fire next_fire now) s.last_fire) m e in
    let found = unless_fired-some (compute_last_missed_fire next_fire now) s.last_fire m wanted in
    let (tick, due, next) = compute_last_missed_fire-due next_fire is_tick now m sched found in
    (
      tick,
      due,
      missed-Behind next_fire is_tick now m s.fired s.last_fire sched next
          (subst (λ q. unless_fired q s.last_fire ≡ some m) found wanted) i,
    )

rises_at_end :
    (is_tick : ℕ → Bool) (now : ℕ) (fired : List ℕ) (last : Option ℕ)
    → IsFiring is_tick now fired last
    → rises fired ≡ true
rises_at_end is_tick now fired none i = ap rises i
rises_at_end is_tick now fired (some l) (t, p, r, u) = r

-- A clock that is never set back: it shows at least the time that has passed.
abbrev pub IsNeverSetBack : (ℕ → ℕ) → Type 0
IsNeverSetBack wall = (t d : ℕ) → wall t + d ≤ wall (t + d)

goes_on_later :
    (wall : ℕ → ℕ) (t : ℕ) (turn : Turn) → IsNeverSetBack wall → wall t ≤ wall (goes_on_at t turn)
goes_on_later wall t turn forward =
    let extra : ℕ = if turn.refused then 1 else 0 in
    omega (arith, forward t turn.late, forward (t + turn.late) extra)

-- Behind a sleep the clock shows the tick or more.
tick_reached :
    (wall : ℕ → ℕ) (t f : ℕ) (turn : Turn)
    → IsNeverSetBack wall
    → f ≤ wall (goes_on_at (t + (f - wall t)) turn)
tick_reached wall t f turn forward =
    let here = t + (f - wall t) in
    omega (arith, forward t (f - wall t), goes_on_later wall here turn forward)

module _ (wall next_fire : ℕ → ℕ) (policy : MissedFirePolicy) where
  -- A turn that catches up.
  catches_up_fire :
      (first : Bool) (t m : ℕ) (turn : Turn) (turns : List Turn) (s : Fires)
      → missed_fire next_fire policy first (wall t) s ≡ some m
      → fire_loop wall next_fire policy first t (turn ∷ turns) s
        ≡ fire_loop wall next_fire policy false (goes_on_at t turn) turns (fire turn.refused m s)
  unfolding fire_loop
  catches_up_fire first t m turn turns s e = ground (arith, e)

  -- A turn that has nothing to catch up.
  waits_for_tick :
      (first : Bool) (t : ℕ) (turn : Turn) (turns : List Turn) (s : Fires)
      → missed_fire next_fire policy first (wall t) s ≡ none
      → let f = next_fire (wall t) in
        fire_loop wall next_fire policy first t (turn ∷ turns) s ≡ (
          if turn.stopped
          then s
          else fire_loop wall next_fire policy false
              (goes_on_at (t + (f - wall t)) turn)
              turns
              (fire turn.refused f s))
  unfolding fire_loop
  waits_for_tick first t turn turns s e = ground (arith, e)

-- In a zone whose clock is never set back, with ticks as cronsim gives them there, and sleeps that last no shorter than
-- asked: however late the loop wakes, whatever the scheduler refuses and whenever it is stopped, the ticks that it fires
-- rise, so that none is fired twice. It may start with the fires of an earlier life of the loop in the same process.
pub fires_once :
    (wall next_fire : ℕ → ℕ) (is_tick : ℕ → Bool) (policy : MissedFirePolicy) (first : Bool) (t : ℕ)
    (turns : List Turn) (s : Fires)
    → IsNeverSetBack wall
    → IsSchedule next_fire is_tick
    → IsFiring is_tick (wall t) s.fired s.last_fire
    → rises (fire_loop wall next_fire policy first t turns s).fired ≡ true
unfolding fire_loop
fires_once wall next_fire is_tick policy first t [] s forward sched i =
    rises_at_end is_tick (wall t) s.fired s.last_fire i
fires_once wall next_fire is_tick policy first t (turn ∷ turns) s forward sched i =
    elim (Option-cases (missed_fire next_fire policy first (wall t) s)) [
      | inr (m, found) ↦
          let (tick, due, behind) =
            missed_fire-some next_fire is_tick policy first (wall t) m s sched found i in
          let on = goes_on_at t turn in
          let later : wall t ≤ wall on = goes_on_later wall t turn forward in
          subst (λ q. rises q.fired ≡ true)
            (sym (catches_up_fire wall next_fire policy first t m turn turns s found))
            (fires_once wall next_fire is_tick policy false on turns (fire turn.refused m s) forward
              sched
              (fire-IsFiring is_tick turn.refused (wall t) (wall on) m s tick later
                (omega (arith, due, later)) behind i))
      | inl nothing ↦
          let f = next_fire (wall t) in
          let ahead : wall t < f = (sched.0 (wall t)).0 in
          let on = goes_on_at (t + (f - wall t)) turn in
          let reached : f ≤ wall on = tick_reached wall t f turn forward in
          subst (λ q. rises q.fired ≡ true)
            (sym (waits_for_tick wall next_fire policy first t turn turns s nothing))
            (elim turn.stopped
              as (λ b.
                rises
                  (if b
                    then s
                    else fire_loop wall next_fire policy false on turns
                        (fire turn.refused f s)).fired
                ≡ true) [
                  | true ↦ rises_at_end is_tick (wall t) s.fired s.last_fire i
                  | false ↦
                      fires_once wall next_fire is_tick policy false on turns
                        (fire turn.refused f s) forward sched
                        (fire-IsFiring is_tick turn.refused (wall t) (wall on) f s
                          (sched.0 (wall t)).1 (omega (arith, ahead, reached)) reached
                          (next-Behind is_tick (wall t) f s.fired s.last_fire ahead i) i)
                ])
    ]
