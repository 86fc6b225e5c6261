-- ===== src/Triggers/Cron.antt =====
-- The fire loop of `CronTrigger` (src/stargraph/triggers/cron.py), for one of its specs: it catches up a fire that was
-- missed, sleeps until the next tick, and enqueues. Times are seconds; `now` and the ticks are readings of the clock of
-- the spec's zone, between which Python compares, adds and subtracts as if no clock were ever set.
pub mod Ticks
pub mod Once
use stargraph.Common.{
  ℕ, zero, suc, ◌+◌, ◌-◌, Bool, true, false, not, Option, none, some, List, [], ◌∷◌, ◌++◌, ◌&&◌,
  if◌then◌else◌, ltb, nat_eq,
}

pub data MissedFirePolicy : Type 0 where
  fire_once_catchup : MissedFirePolicy
  skip : MissedFirePolicy

abbrev pub catches_up : MissedFirePolicy → Bool
catches_up fire_once_catchup = true
catches_up skip = false

-- `_last_fire` of the trigger, and the fires that the scheduler took, in order.
pub record Fires : Type 0 where
  pub last_fire : Option ℕ
  pub fired : List ℕ

-- `for _ in range(n)`: `next_fire` is `next(cronsim.CronSim(expression, base))`, and a simulation goes on from what it
-- gave last.
unfoldable pub last_before : ℕ → (ℕ → ℕ) → ℕ → ℕ → Option ℕ → Option ℕ
last_before zero next_fire base now last = last
last_before (suc n) next_fire base now last =
    let candidate = next_fire base in
    let later = last_before n next_fire candidate now (some candidate) in
    if ltb now candidate then last else later

-- `_compute_last_missed_fire`, with its bound of 2000 ticks and a look back of a day.
unfoldable pub compute_last_missed_fire : (ℕ → ℕ) → ℕ → Option ℕ
unfolding last_before
compute_last_missed_fire next_fire now = last_before 2000 next_fire (now - 86400) now none

-- `_fire`: a scheduler that refuses raises.
unfoldable pub fire : Bool → ℕ → Fires → Fires
fire true fire_at s = s
fire false fire_at s = record { last_fire = some fire_at; fired = s.fired ++ fire_at ∷ [] }

-- What happens from outside in one turn of the loop: how late it wakes, whether `stop` was called while it slept, and
-- whether the scheduler refuses.
pub record Turn : Type 0 where
  pub late : ℕ
  pub stopped : Bool
  pub refused : Bool

-- The fire that is to be caught up, unless it is the last one that was fired.
abbrev pub unless_fired : Option ℕ → Option ℕ → Option ℕ
unless_fired none last = none
unless_fired (some missed) none = some missed
unless_fired (some missed) (some last) = if nat_eq last missed then none else some missed

unfoldable pub missed_fire : (ℕ → ℕ) → MissedFirePolicy → Bool → ℕ → Fires → Option ℕ
unfolding compute_last_missed_fire
missed_fire next_fire policy first now s =
    if first && catches_up policy
    then unless_fired (compute_last_missed_fire next_fire now) s.last_fire
    else none

-- The time at which the loop goes on: after a refusal it sleeps for a second.
abbrev pub goes_on_at : ℕ → Turn → ℕ
goes_on_at t turn = t + turn.late + (if turn.refused then 1 else 0)

-- `_fire_loop`: `first` is its flag, `t` the instant at the head of a turn, and `wall` the clock of the zone,
-- `datetime.now(zone)`. A sleep lasts no shorter than asked.
unfoldable pub fire_loop :
    (ℕ → ℕ) → (ℕ → ℕ) → MissedFirePolicy → Bool → ℕ → List Turn → Fires → Fires
unfolding missed_fire fire
fire_loop wall next_fire policy first t [] s = s
fire_loop wall next_fire policy first t (turn ∷ turns) s =
    elim (missed_fire next_fire policy first (wall t) s) [
      | some missed ↦
          fire_loop wall next_fire policy false (goes_on_at t turn) turns
            (fire turn.refused missed s)
      | none ↦
          let fire_at = next_fire (wall t) in
          let delay = fire_at - wall t in
          let rest =
            fire_loop wall next_fire policy false (goes_on_at (t + delay) turn) turns
              (fire turn.refused fire_at s) in
          if turn.stopped then s else rest
    ]
