-- ===== src/Triggers/Cron/Ticks.antt =====
-- What the catch-up finds.
use mathlib.Core.Path.{subst}
use stargraph.Common.{
  ℕ, zero, suc, ◌+◌, ◌-◌, ◌*◌, ◌%◌, ◌≤◌, ◌<◌, ◌≡◌, sym, ◌∙◌, ◌⊎◌, inl, inr, Bool, true, Option,
  none, some, arith, ltb, Bool-cases,
}
use stargraph.Triggers.Cron.{last_before, compute_last_missed_fire}

-- The ticks of a cron expression of five fields are full minutes, and `next_fire` gives the first one behind its
-- argument, by the reading of the clock: so it is with cronsim where the clock is not set back on the way.
abbrev pub IsSchedule : (ℕ → ℕ) → (ℕ → Bool) → Type 0
IsSchedule next_fire is_tick =
    ((base : ℕ) → (base < next_fire base) × (is_tick (next_fire base) ≡ true))
    × ((base t : ℕ) → base < t → is_tick t ≡ true → next_fire base ≤ t)
    × ((t : ℕ) → is_tick t ≡ true → t % 60 ≡ 0)

-- From a tick on, the search finds the last one that is due, if it has turns enough.
last_before-from :
    (n : ℕ) (next_fire : ℕ → ℕ) (is_tick : ℕ → Bool) (base now : ℕ)
    → IsSchedule next_fire is_tick
    → is_tick base ≡ true
    → base ≤ now
    → now < base + n * 60
    → (l : ℕ) × (last_before n next_fire base now (some base) ≡ some l)
      × (base ≤ l)
      × (l ≤ now)
      × (is_tick l ≡ true)
      × (now < next_fire l)
unfolding last_before
last_before-from zero next_fire is_tick base now s b le room = ground arith
last_before-from (suc n) next_fire is_tick base now s b le room =
    let c = next_fire base in
    let gap : base + 60 ≤ c = omega (arith, (s.0 base).0, s.2 base b, s.2 c (s.0 base).1) in
    elim (Bool-cases (ltb now c)) [
      | inl past ↦ (base, ground (arith, past), omega arith, le, b, ground (arith, past))
      | inr due ↦
          let (l, e, low, high, tick, last) =
            last_before-from n next_fire is_tick c now s (s.0 base).1 (ground (arith, due))
              (omega (arith, room, gap)) in
          (l, ground (arith, due, e), omega (arith, low, gap), high, tick, last)
    ]

last_before-step :
    (n : ℕ) (next_fire : ℕ → ℕ) (base now : ℕ) (last : Option ℕ)
    → next_fire base ≤ now
    → last_before (suc n) next_fire base now last
      ≡ last_before n next_fire (next_fire base) now (some (next_fire base))
unfolding last_before
last_before-step n next_fire base now last h = ground (arith, h)

last_before-stops :
    (n : ℕ) (next_fire : ℕ → ℕ) (base now : ℕ) (last : Option ℕ)
    → ltb now (next_fire base) ≡ true
    → last_before (suc n) next_fire base now last ≡ last
unfolding last_before
last_before-stops n next_fire base now last h = ground (arith, h)

due_or_past : (c now : ℕ) → (c ≤ now) ⊎ (ltb now c ≡ true)
due_or_past c now = ground arith

turns_enough : (now c : ℕ) → now - 86400 < c → now < c + 1999 * 60
turns_enough now c h = omega arith

pub no_later :
    (next_fire : ℕ → ℕ) (is_tick : ℕ → Bool) (l t now : ℕ)
    → IsSchedule next_fire is_tick
    → is_tick t ≡ true
    → t ≤ now
    → now < next_fire l
    → t ≤ l
no_later next_fire is_tick l t now s tick before last = ground (arith, s.1 l t)

-- For every tick that the zone's clock showed in the 24 hours before its present reading, where `next_fire` gives the
-- first tick behind a reading: the catch-up finds one that is due, is no earlier, and is the last, since the next one
-- lies in the future. The bound of 2000 turns is enough.
pub compute_last_missed_fire-finds :
    (next_fire : ℕ → ℕ) (is_tick : ℕ → Bool) (now t : ℕ)
    → IsSchedule next_fire is_tick
    → is_tick t ≡ true
    → now - 86400 < t
    → t ≤ now
    → (l : ℕ) × (compute_last_missed_fire next_fire now ≡ some l)
      × (t ≤ l)
      × (l ≤ now)
      × (is_tick l ≡ true)
      × (now < next_fire l)
unfolding compute_last_missed_fire
compute_last_missed_fire-finds next_fire is_tick now t s tick recent before =
    let base = now - 86400 in
    let c = next_fire base in
    let due : c ≤ now = omega (arith, s.1 base t recent tick, before) in
    let (l, e, low, high, is, last) =
      last_before-from 1999 next_fire is_tick c now s (s.0 base).1 due
        (omega (arith, (s.0 base).0)) in
    (
      l,
      last_before-step 1999 next_fire base now none due ∙ e,
      no_later next_fire is_tick l t now s tick before last,
      high,
      is,
      last,
    )

-- What the catch-up finds is a tick that is due, and the next one is not.
pub compute_last_missed_fire-due :
    (next_fire : ℕ → ℕ) (is_tick : ℕ → Bool) (now m : ℕ)
    → IsSchedule next_fire is_tick
    → compute_last_missed_fire next_fire now ≡ some m
    → (is_tick m ≡ true) × (m ≤ now) × (now < next_fire m)
unfolding compute_last_missed_fire
compute_last_missed_fire-due next_fire is_tick now m s e =
    let base = now - 86400 in
    let c = next_fire base in
    elim (due_or_past c now) [
      | inr past ↦
          let nothing : none ≡ some m =
            sym (last_before-stops 1999 next_fire base now none past) ∙ e in
          cc
      | inl le ↦
          let (l, f, low, high, is, last) =
            last_before-from 1999 next_fire is_tick c now s (s.0 base).1 le
              (turns_enough now c (s.0 base).0) in
          let g : some l ≡ some m =
            sym f ∙ (sym (last_before-step 1999 next_fire base now none le) ∙ e) in
          let same : l ≡ m = cc in
          subst (λ k. (is_tick k ≡ true) × (k ≤ now) × (now < next_fire k)) same (is, high, last)
    ]
