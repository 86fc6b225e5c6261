-- ===== src/Graph/Methods/Stable.antt =====
-- Properties of a run that a tick cannot break: those that read only the lifecycle of the run, that
-- the methods of the run keep, and that do not tell one event that is no result from another.
use stargraph.Common.{String, Bool, true, false, Option, List, Error, ◌≡◌, refl}
use stargraph.Graph.State.{RunState, Cause, Event, result, Setup, Run, Checkpoint}
use stargraph.Graph.State.Exec.{attempt}
use stargraph.Graph.State.Exec.Keeps.{Keeps, Keeps-bind, Keeps-attempt, Keeps-modify}
use stargraph.Graph.Methods.{emit, write_row, interfere, Call}

abbrev pub is_result : Event → Bool
is_result (result _ _) = true
is_result _ = false

pub record Lifecycle : Type 0 where
  pub state : RunState
  pub cancel_event : Bool
  pub pause_event : Bool
  pub respond_event : Bool
  pub error_class : Option String
  pub error_cause : Option Cause
  pub events : List Event

abbrev pub lifecycle : Run → Lifecycle
lifecycle r = record {
  state = r.state;
  cancel_event = r.cancel_event;
  pause_event = r.pause_event;
  respond_event = r.respond_event;
  error_class = r.error_class;
  error_cause = r.error_cause;
  events = r.events;
}

pub record IsStable (s : Setup) (P : Run → Type 0) : Type 0 where
  pub quiet : (r q : Run) → lifecycle q ≡ lifecycle r → P r → P q
  pub sends : (ev : Event) (r : Run) → is_result ev ≡ false → P r → P (emit ev r)
  pub calls : (cs : List Call) (r : Run) → P r → P (interfere s cs r)

module _ {s : Setup} {P : Run → Type 0} (st : IsStable s P) where
  pub write_row-Keeps :
      (d : Checkpoint → Option Error) (row : Checkpoint) → Keeps P (write_row d row)
  unfolding write_row
  write_row-Keeps d row =
      Keeps-bind (attempt (d row)) _ (Keeps-attempt (d row))
        (λ _. Keeps-modify _ (λ r h. st.quiet r _ refl h))
