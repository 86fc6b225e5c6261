-- ===== src/Graph/State/Exec.antt =====
-- Code that changes a run and may raise. What was changed before a raise stays changed.
pub mod Keeps
use stargraph.Common.{Error, Result, ok, err, Option, none, some}
use stargraph.Ir.Actions.{InterruptAction}

-- `hit` is the signal `_HitInterrupt`; `too_deep` says that the model's bound on nested parallel
-- actions was met, which the program does not have.
pub data Raised : Type 0 where
  exception : Error → Raised
  hit : InterruptAction → Raised
  too_deep : Raised

pub data Outcome {ℓ} (A : Type ℓ) : Type ℓ where
  return : A → Outcome A
  raise : Raised → Outcome A

abbrev pub Exec : Type 0 → Type 0 → Type 0
Exec R A = R → Outcome A × R

module _ {R A : Type 0} where
  unfoldable pub pure : A → Exec R A
  pure a r = (return a, r)

  unfoldable pub stop : Raised → Exec R A
  stop e r = (raise e, r)

  unfoldable pub throw : Error → Exec R A
  throw e r = (raise (exception e), r)

  unfoldable pub lift : Result A → Exec R A
  lift (ok a) r = (return a, r)
  lift (err e) r = (raise (exception e), r)

  unfoldable pub need : Option A → Error → Exec R A
  need none e r = (raise (exception e), r)
  need (some a) e r = (return a, r)

module _ {R : Type 0} where
  unfoldable pub modify : (R → R) → Exec R (Unit {0})
  modify f r = (return tt, f r)

  -- A call that answers with the exception that it raises.
  unfoldable pub attempt : Option Error → Exec R (Unit {0})
  attempt none r = (return tt, r)
  attempt (some e) r = (raise (exception e), r)

module _ {R A B : Type 0} where
  abbrev pub resume : Outcome A → (A → Exec R B) → Exec R B
  resume (return a) f r = f a r
  resume (raise e) f r = (raise e, r)

  infixl 5 ◌>>=◌ ◌>>◌
  -- Opening this opens the other ways to build an action too.
  unfoldable pub ◌>>=◌ : Exec R A → (A → Exec R B) → Exec R B
  unfolding pure stop throw lift need modify attempt
  ◌>>=◌ m f r = resume (m r).0 f (m r).1

  abbrev pub ◌>>◌ : Exec R A → Exec R B → Exec R B
  m >> n = m >>= λ _. n
