-- ===== src/Replay/History.antt =====
-- `RunHistory` of src/stargraph/replay/history.py: the rows of a run, in the order of their steps.
use stargraph.Common.{
  ℕ, zero, suc, ◌≤◌, ◌<◌, ◌≡◌, inl, inr, Option, none, some, List, [], ◌∷◌, if◌then◌else◌, nat_eq,
  nat_keys, nat_eq_iff, length, leb, arith, Option-cases, find,
}
use stargraph.Common.Dict.{Dict, lookup}
use stargraph.Graph.State.{Checkpoint}

-- The loop of `load`, which reads one step behind the other until there is none: `rows` are what the driver has of
-- the run, by the step. Without fuel it has no answer.
unfoldable pub load_from : ℕ → ℕ → Dict ℕ Checkpoint → Option (List Checkpoint)
unfolding lookup
load_from zero step rows = none
load_from (suc fuel) step rows =
    let later = load_from fuel (suc step) rows in
    elim (lookup step rows) [
      | none ↦ some []
      | some c ↦ elim later [ none ↦ none | some cs ↦ some (c ∷ cs) ]
    ]

-- `RunHistory.load`: each turn but the last finds another row, so there are no more turns than rows, and one.
unfoldable pub load : Dict ℕ Checkpoint → Option (List Checkpoint)
unfolding load_from
load rows = load_from (suc (length rows)) 0 rows

-- `state_at_step`
unfoldable pub state_at_step : ℕ → List Checkpoint → Option Checkpoint
state_at_step step rows = find (λ c. nat_eq c.step step) rows

-- How many rows stand at a step or behind it.
abbrev from_step : ℕ → Dict ℕ Checkpoint → ℕ
from_step n [] = 0
from_step n ((k, c) ∷ rows) = if leb n k then suc (from_step n rows) else from_step n rows

from_step-suc : (n : ℕ) (rows : Dict ℕ Checkpoint) → from_step (suc n) rows ≤ from_step n rows
from_step-suc n [] = omega arith
from_step-suc n ((k, c) ∷ rows) = ground (arith, from_step-suc n rows)

from_step-lookup :
    (n : ℕ) (c : Checkpoint) (rows : Dict ℕ Checkpoint)
    → lookup n rows ≡ some c
    → from_step (suc n) rows < from_step n rows
unfolding lookup
from_step-lookup n c [] e = cc
from_step-lookup n c ((k, d) ∷ rows) e =
    ground (arith, from_step-suc n rows, from_step-lookup n c rows, nat_eq_iff k n)

from_step-length : (n : ℕ) (rows : Dict ℕ Checkpoint) → from_step n rows ≤ length rows
from_step-length n [] = omega arith
from_step-length n ((k, c) ∷ rows) = ground (arith, from_step-length n rows)

-- The rows of a run from a step on, up to the first step that has none.
abbrev pub IsRun : ℕ → Dict ℕ Checkpoint → List Checkpoint → Type 0
IsRun step rows [] = lookup step rows ≡ none
IsRun step rows (c ∷ cs) = (lookup step rows ≡ some c) × IsRun (suc step) rows cs

load_from-IsRun :
    (fuel step : ℕ) (rows : Dict ℕ Checkpoint)
    → from_step step rows < fuel
    → (cs : List Checkpoint) × (load_from fuel step rows ≡ some cs) × IsRun step rows cs
unfolding load_from
load_from-IsRun zero step rows h = ground arith
load_from-IsRun (suc fuel) step rows h = elim (Option-cases (lookup step rows)) [
  | inl missing ↦ ([], ground (arith, missing), missing)
  | inr (c, found) ↦
      let (cs, ran, rest) =
        load_from-IsRun fuel (suc step) rows
          (omega (arith, h, from_step-lookup step c rows found)) in
      (c ∷ cs, ground (arith, found, ran), (found, rest))
]

-- The loading of a run ends, and gives its rows from step 0 up to the first step that has none.
pub load-IsRun :
    (rows : Dict ℕ Checkpoint) → (cs : List Checkpoint) × (load rows ≡ some cs) × IsRun 0 rows cs
unfolding load
load-IsRun rows =
    load_from-IsRun (suc (length rows)) 0 rows (omega (arith, from_step-length 0 rows))
