-- ===== src/Graph/State/Exec/Keeps.antt =====
-- Invariants of actions: one rule for each way to build an action.
use stargraph.Common.{Bool, true, false, Option, none, some, Error, Result, ok, err, if◌then◌else◌}
use stargraph.Graph.State.Exec.{
  Raised, Outcome, return, raise, Exec, pure, stop, throw, lift, need, modify, attempt, resume,
  ◌>>=◌,
}

-- `m` keeps `P`, whether it returns or raises.
pub record Keeps {R A : Type 0} (P : R → Type 0) (m : Exec R A) : Type 0 where
  pub at : (r : R) → P r → P (m r).1

module _ {R A : Type 0} {P : R → Type 0} where
  pub Keeps-pure : (x : A) → Keeps P (pure x)
  unfolding pure
  Keeps-pure x = record { at = λ q held. held }

  pub Keeps-stop : (e : Raised) → Keeps P (stop {A = A} e)
  unfolding stop
  Keeps-stop e = record { at = λ r h. h }

  pub Keeps-throw : (e : Error) → Keeps P (throw {A = A} e)
  unfolding throw
  Keeps-throw e = record { at = λ r h. h }

  pub Keeps-lift : (x : Result A) → Keeps P (lift x)
  unfolding lift
  Keeps-lift (ok a) = record { at = λ r h. h }
  Keeps-lift (err e) = record { at = λ r h. h }

  pub Keeps-need : (x : Option A) (e : Error) → Keeps P (need x e)
  unfolding need
  Keeps-need none e = record { at = λ r h. h }
  Keeps-need (some a) e = record { at = λ r h. h }

  pub Keeps-if : (b : Bool) (m n : Exec R A) → Keeps P m → Keeps P n → Keeps P (if b then m else n)
  Keeps-if true m n km kn = km
  Keeps-if false m n km kn = kn

  pub Keeps-after :
      (f : R → R) (m : Exec R A) → ((r : R) → P r → P (f r)) → Keeps P m → Keeps P (λ r. m (f r))
  Keeps-after f m kf km = record { at = λ r h. km.at (f r) (kf r h) }

module _ {R : Type 0} {P : R → Type 0} where
  pub Keeps-modify : (f : R → R) → ((r : R) → P r → P (f r)) → Keeps P (modify f)
  unfolding modify
  Keeps-modify f kf = record { at = kf }

  pub Keeps-attempt : (x : Option Error) → Keeps P (attempt {R = R} x)
  unfolding attempt
  Keeps-attempt none = record { at = λ r h. h }
  Keeps-attempt (some e) = record { at = λ r h. h }

module _ {R A B : Type 0} {P : R → Type 0} where
  pub Keeps-resume :
      (o : Outcome A) (f : A → Exec R B) (r : R)
      → ((a : A) → Keeps P (f a))
      → P r
      → P (resume o f r).1
  Keeps-resume (return a) f r kf h = (kf a).at r h
  Keeps-resume (raise e) f r kf h = h

  pub Keeps-bind :
      (first : Exec R A) (next : A → Exec R B)
      → Keeps P first
      → ((x : A) → Keeps P (next x))
      → Keeps P (first >>= next)
  unfolding ◌>>=◌
  Keeps-bind first next one other = record {
    at = λ q start. Keeps-resume (first q).0 next (first q).1 other (one.at q start);
  }

pub ruleset keeps_rules = (
  Keeps-pure, Keeps-stop, Keeps-throw, Keeps-lift, Keeps-need, Keeps-if, Keeps-modify,
  Keeps-attempt, Keeps-bind,
)
