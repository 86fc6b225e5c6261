-- ===== src/Tests/Triggers.antt =====
-- The fire loop of cron triggers.
use stargraph.Common.{
  ℕ, ◌+◌, ◌-◌, ◌*◌, ◌/◌, ◌%◌, ◌≤◌, ◌<◌, ◌≡◌, refl, Bool, true, false, none, some, List, [], ◌∷◌,
  arith, nat_eq, nat_eq_iff, ltb, if◌then◌else◌,
}
use stargraph.Triggers.Cron.{
  Fires, Turn, fire_once_catchup, skip, fire_loop, compute_last_missed_fire,
}
use stargraph.Triggers.Cron.Ticks.{IsSchedule, compute_last_missed_fire-finds}
use stargraph.Triggers.Cron.Once.{rises, IsNeverSetBack, fires_once}

-- Every hour, on the hour.
abbrev hourly : ℕ → ℕ
hourly base = (base / 3600 + 1) * 3600

abbrev on_the_hour : ℕ → Bool
on_the_hour t = nat_eq (t % 3600) 0

hourly-IsSchedule : IsSchedule hourly on_the_hour
hourly-IsSchedule = (
  λ base. (omega arith, ground arith),
  λ base t after tick. omega (arith, after, (nat_eq_iff (t % 3600) 0).0 tick),
  λ t tick. omega (arith, (nat_eq_iff (t % 3600) 0).0 tick),
)

abbrev fresh : Fires
fresh = record { last_fire = none; fired = [] }

abbrev on_time : Turn
on_time = record { late = 0; stopped = false; refused = false }

abbrev turns : List Turn
turns = on_time ∷ record { late = 20; stopped = false; refused = true } ∷ on_time ∷ on_time ∷ []

compute_last_missed_fire-finds_example :
    (l : ℕ) × (compute_last_missed_fire hourly 100000 ≡ some l)
    × (93600 ≤ l)
    × (l ≤ 100000)
    × (on_the_hour l ≡ true)
    × (100000 < hourly l)
compute_last_missed_fire-finds_example =
    compute_last_missed_fire-finds hourly on_the_hour 100000 93600 hourly-IsSchedule refl
      (omega arith) (omega arith)

-- A clock that is set forward by an hour.
abbrev summer : ℕ → ℕ
summer t = if ltb t 105000 then t else t + 3600

summer-IsNeverSetBack : IsNeverSetBack summer
summer-IsNeverSetBack t d = ground arith

fires_once_example :
    rises (fire_loop summer hourly fire_once_catchup true 100000 turns fresh).fired ≡ true
fires_once_example =
    fires_once summer hourly on_the_hour fire_once_catchup true 100000 turns fresh
      summer-IsNeverSetBack hourly-IsSchedule refl

-- The missed hour is caught up; the refused one is lost.
fired :
    (fire_loop (λ t. t) hourly fire_once_catchup true 100000 turns fresh).fired
    ≡ 97200 ∷ 104400 ∷ 108000 ∷ []
unfolding fire_loop
fired = refl

-- A clock that is set back by an hour at instant 6000: the tick at 10800 is fired twice, once an hour early.
abbrev back_to_winter : ℕ → ℕ
back_to_winter t = if ltb t 6000 then t else t - 3600

abbrev at_three : ℕ → ℕ
at_three base = if ltb base 10800 then 10800 else 97200

abbrev two_turns : List Turn
two_turns = on_time ∷ on_time ∷ []

fired_twice :
    (fire_loop back_to_winter at_three skip true 5400 two_turns fresh).fired ≡ 10800 ∷ 10800 ∷ []
unfolding fire_loop
fired_twice = refl
