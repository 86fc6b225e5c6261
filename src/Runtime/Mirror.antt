-- ===== src/Runtime/Mirror.antt =====
-- `MirrorScheduler` of src/stargraph/runtime/mirror_lifecycle.py: what the engine mirrored, in three
-- buckets, and the flush of the pinned one to the fact store.
use stargraph.Common.{
  ℕ, String, Option, none, some, List, [], ◌∷◌, ◌++◌, Record, Error, Result, ok, err, runtime_error,
}

-- `fathom.AssertSpec`
pub record AssertSpec : Type 0 where
  pub template : String
  pub slots : Record

pub data Lifecycle : Type 0 where
  run step pinned : Lifecycle

pub record MirrorScheduler : Type 0 where
  pub run_bucket : List AssertSpec
  pub step_bucket : List AssertSpec
  pub pinned_bucket : List AssertSpec

abbrev pub new_scheduler : MirrorScheduler
new_scheduler = record { run_bucket = []; step_bucket = []; pinned_bucket = [] }

unfoldable pub schedule : List AssertSpec → Lifecycle → MirrorScheduler → MirrorScheduler
schedule specs run m = record m { run_bucket = m.run_bucket ++ specs }
schedule specs step m = record m { step_bucket = m.step_bucket ++ specs }
schedule specs pinned m = record m { pinned_bucket = m.pinned_bucket ++ specs }

unfoldable pub retract_step : MirrorScheduler → MirrorScheduler
retract_step m = record m { step_bucket = [] }

-- The fact that a pinned spec becomes: its id is a hash of the spec alone.
pub record Fact : Type 0 where
  pub id : String
  pub spec : AssertSpec
  pub run_id : String
  pub step : ℕ

-- `fact_store.pin` answers with the exception that it raises, or with none.
abbrev pub FactStore : Type 0
FactStore = Fact → Option Error

module _ (fact_id : AssertSpec → String) (run_id : String) (at_step : ℕ) where
  unfoldable pub spec_to_fact : AssertSpec → Fact
  spec_to_fact spec = record { id = fact_id spec; spec = spec; run_id = run_id; step = at_step }

  -- The facts pinned, up to the first that the store refuses.
  pin_all : FactStore → List AssertSpec → List Fact × Result (Unit {0})
  unfolding spec_to_fact
  pin_all store [] = ([], ok tt)
  pin_all store (spec ∷ specs) =
      let (facts, result) = pin_all store specs in
      elim (store (spec_to_fact spec)) [
        | none ↦ (spec_to_fact spec ∷ facts, result)
        | some e ↦ ([], err e)
      ]

  -- No spec, no need of a store.
  flush : Option FactStore → List AssertSpec → List Fact × Result (Unit {0})
  unfolding pin_all
  flush store [] = ([], ok tt)
  flush none (spec ∷ specs) =
      ([], err (runtime_error "fact_store required when pinned specs are present"))
  flush (some pin) (spec ∷ specs) = pin_all pin (spec ∷ specs)

  unfoldable pub persist_pinned : Option FactStore → MirrorScheduler → List Fact × Result (Unit {0})
  unfolding flush
  persist_pinned store m = flush store m.pinned_bucket
