-- ===== src/Graph/Loop/Linear.antt =====
-- A run with no rules: the nodes run in the order of the graph, each on the state that the one
-- before it left.
use stargraph.Common.{
  ℕ, ◌+◌, ◌≡◌, refl, ◌∙◌, String, false, Option, none, some, List, [], ◌∷◌, ◌++◌, ap, arith, Record,
  length, string_keys,
}
use mathlib.Core.Path.{subst, sym}
use stargraph.Graph.Loop.Links.{HasDistinctIds, IsLinked, distinct-IsLinked}
use stargraph.Common.Dict.{update}
use stargraph.Ir.Nodes.{NodeSpec}
use stargraph.Runtime.Action.{continue}
use stargraph.Runtime.Dispatch.Plain.{Bodies, plain, IsOn, dispatch_node-plain}
use stargraph.Runtime.Dispatch.{lookup_node, next_node_id, tick_row}
use stargraph.Graph.State.{State, model, Checkpoint, running, done, Setup, Run, new_run}
use stargraph.Graph.State.Exec.{return, ◌>>=◌}
use stargraph.Graph.Gates.Laws.{check_tool_capabilities-open, check_node_capability-open}
use stargraph.Graph.Helpers.{parallel_block_for}
use stargraph.Graph.Methods.{emit}
use stargraph.Graph.Loop.{
  boundary, advance, at_head, leave, finish_step, begin, begin_with, begin_nodes, gated, Config,
  at_node, halted, summary, Tick, tick, drive, step_phase, run_node, after_node, enter, execute,
}

abbrev pub quiet : Tick
quiet = record { during = []; waiting = [] }

abbrev pub quiet_ticks {ℓ} : {A : Type ℓ} → List A → List Tick
quiet_ticks [] = []
quiet_ticks (x ∷ xs) = quiet ∷ quiet_ticks xs

module _ (body : Bodies) where
  -- The fields behind the nodes, from a step on.
  abbrev pub fields_after : ℕ → Record → List NodeSpec → Record
  fields_after k f [] = f
  fields_after k f (n ∷ ns) = fields_after (k + 1) (update f (body n.id (model f) k)) ns

  -- The checkpoints of the nodes: one each, with the state that the node left.
  abbrev pub rows_after : Setup → ℕ → Record → List NodeSpec → List Checkpoint
  rows_after s k f [] = []
  rows_after s k f (n ∷ ns) =
      let out = body n.id (model f) k in
      tick_row s n.id (model (update f out)) out k continue ∷ rows_after s (k + 1) (update f out) ns

one_node :
    (s : Setup) (body : Bodies) (n : NodeSpec) (f : Record) (k : ℕ) (r : Run)
    (written : List Checkpoint)
    → lookup_node s.graph.nodes n.id ≡ some n
    → IsOn r written
    → let out = body n.id (model f) k in
      let after = run_node (plain body s) 1 [] n.id (model f) k r in
      (after.0 ≡ return (model (update f out), next_node_id s.graph.nodes n.id))
      × IsOn after.1 (written ++ tick_row s n.id (model (update f out)) out k continue ∷ [])
unfolding run_node ◌>>=◌
one_node s body n f k r written l h =
    rw (l, check_node_capability-open (plain body s) n refl)
      (dispatch_node-plain s body 0 n f k r written h)

-- Behind a node that nothing stopped the loop enters the next one.
finish_step-plain :
    (s : Setup) (body : Bodies) (anchor : String) (state : State) (next : Option String)
    (c : Config)
    → c.run.cancel_event ≡ false
    → c.run.pause_event ≡ false
    → finish_step (plain body s) anchor (after_node (plain body s)) (return (state, next)) c
      ≡ enter (plain body s) next (record c { state = state; step = c.step + 1 })
unfolding finish_step advance boundary after_node at_head parallel_block_for
finish_step-plain s body anchor state none c e p = rw (e, p) refl
finish_step-plain s body anchor state (some id) c e p = rw (e, p) refl

-- The config at a node.
abbrev at : Run → Record → ℕ → String → Config
at r f k id = record { run = r; state = model f; step = k; phase = at_node id }

tick-plain :
    (s : Setup) (body : Bodies) (n : NodeSpec) (f : Record) (k : ℕ) (r : Run)
    (written : List Checkpoint)
    → lookup_node s.graph.nodes n.id ≡ some n
    → IsOn r written
    → let r' = (run_node (plain body s) 1 [] n.id (model f) k r).1 in
      tick (plain body s) 1 quiet (at r f k n.id)
      ≡ enter
          (plain body s)
          (next_node_id s.graph.nodes n.id)
          (at r' (update f (body n.id (model f) k)) (k + 1) n.id)
unfolding tick step_phase
tick-plain s body n f k r written l h =
    let (o, on) = one_node s body n f k r written l h in
    rw o (
      finish_step-plain s body n.id _ (next_node_id s.graph.nodes n.id)
        (record (at r f k n.id) { run = _ }) on.cancel_event on.pause_event)

to_next :
    (s : Setup) (body : Bodies) (n m : NodeSpec) (ns : List NodeSpec) (f : Record) (k : ℕ) (r : Run)
    (written : List Checkpoint)
    → IsLinked s.graph.nodes (n ∷ m ∷ ns)
    → IsOn r written
    → let r' = (run_node (plain body s) 1 [] n.id (model f) k r).1 in
      tick (plain body s) 1 quiet (at r f k n.id)
      ≡ at r' (update f (body n.id (model f) k)) (k + 1) m.id
unfolding enter
to_next s body n m ns f k r written l h = rw (tick-plain s body n f k r written l.0 h, l.1) refl

-- The run has ended in order: the summary says so, and the state, the step and the rows are these.
pub record HasEnded (s : Setup) (st : State) (k : ℕ) (rows : List Checkpoint) (c : Config)
    : Type 0 where
  pub phase : c.phase ≡ halted (summary s c.run done)
  pub status : c.run.state ≡ done
  pub state : c.state ≡ st
  pub step : c.step ≡ k
  pub told : c.run.written ≡ rows

enter-HasEnded :
    (s : Setup) (f : Record) (k : ℕ) (r : Run) (id : String) (rows : List Checkpoint)
    → IsOn r rows
    → HasEnded s (model f) k rows (enter s none (at r f k id))
unfolding enter leave summary emit
enter-HasEnded s f k r id rows h = record {
  phase = refl;
  status = refl;
  state = refl;
  step = refl;
  told = h.told;
}

recounted :
    (s : Setup) (st : State) (k k' : ℕ) (rows rows' : List Checkpoint) (c : Config)
    → k ≡ k'
    → rows ≡ rows'
    → HasEnded s st k rows c
    → HasEnded s st k' rows' c
recounted s st k k' rows rows' c e d h = record {
  phase = h.phase;
  status = h.status;
  state = h.state;
  step = h.step ∙ e;
  told = h.told ∙ d;
}

snoc-append {ℓ} :
    {A : Type ℓ} (xs : List A) (x : A) (ys : List A) → (xs ++ x ∷ []) ++ ys ≡ xs ++ x ∷ ys
snoc-append [] x ys = refl
snoc-append (z ∷ xs) x ys = ap (λ zs. z ∷ zs) (snoc-append xs x ys)

module _ (s : Setup) (body : Bodies) where
  drive-plain :
      (n : NodeSpec) (ns : List NodeSpec) (f : Record) (k : ℕ) (r : Run) (written : List Checkpoint)
      → IsLinked s.graph.nodes (n ∷ ns)
      → IsOn r written
      → HasEnded
          (plain body s)
          (model (fields_after body k f (n ∷ ns)))
          (k + length (n ∷ ns))
          (written ++ rows_after body s k f (n ∷ ns))
          (drive (plain body s) 1 (quiet_ticks (n ∷ ns)) (at r f k n.id))
  unfolding drive
  drive-plain n [] f k r written l h =
      let on = (one_node s body n f k r written l.0 h).1 in
      rw (tick-plain s body n f k r written l.0 h, l.1)
        (enter-HasEnded (plain body s) _ (k + 1) _ n.id _ on)
  drive-plain n (m ∷ ns) f k r written l h =
      let out = body n.id (model f) k in
      let r' = (run_node (plain body s) 1 [] n.id (model f) k r).1 in
      let on = (one_node s body n f k r written l.0 h).1 in
      let rest = drive-plain m ns (update f out) (k + 1) r' _ l.2 on in
      subst
        (λ c.
          HasEnded (plain body s) (model (fields_after body k f (n ∷ m ∷ ns)))
            (k + length (n ∷ m ∷ ns)) (written ++ rows_after body s k f (n ∷ m ∷ ns))
            (drive (plain body s) 1 (quiet_ticks (m ∷ ns)) c))
        (sym (to_next s body n m ns f k r written l h))
        (recounted _ _ _ _ _ _ _ (omega arith) (snoc-append written _ _) rest)

fresh-IsOn : IsOn new_run []
unfolding new_run
fresh-IsOn = record { cancel_event = refl; pause_event = refl; pinned_bucket = refl; told = refl }

begin-plain :
    (s : Setup) (body : Bodies) (f : Record) (n : NodeSpec) (ns : List NodeSpec)
    → s.graph.nodes ≡ n ∷ ns
    → s.initial_state ≡ model f
    → begin (plain body s) new_run ≡ at (record new_run { state = running }) f 0 n.id
unfolding begin begin_with begin_nodes gated ◌>>=◌
begin-plain s body f n ns e i =
    let s' : Setup = record (plain body s) {
      graph = record s.graph { nodes = n ∷ ns; parallel = [] };
      initial_state = model f;
    } in
    rw (e, i, check_tool_capabilities-open s' refl) refl

-- For a graph of at least one node, with distinct ids, bodies that all return, a driver that accepts
-- every row and an initial state that is a model, with no rules, gates, blocks or receipts, and with
-- nobody who stops the run: one tick for each node ends the run as done, the nodes have run in order,
-- each on the fields that the one before it left, at the steps 0, 1, …, and each has written one
-- checkpoint with the fields that it left.
pub execute-plain :
    (s : Setup) (body : Bodies) (f : Record) (n : NodeSpec) (ns : List NodeSpec)
    → s.graph.nodes ≡ n ∷ ns
    → s.initial_state ≡ model f
    → HasDistinctIds (n ∷ ns)
    → HasEnded
        (plain body s)
        (model (fields_after body 0 f (n ∷ ns)))
        (length (n ∷ ns))
        (rows_after body s 0 f (n ∷ ns))
        (execute (plain body s) 1 (quiet_ticks (n ∷ ns)))
unfolding execute
execute-plain s body f n ns e i d =
    let linked : IsLinked s.graph.nodes (n ∷ ns) =
      subst (λ nodes. IsLinked nodes (n ∷ ns)) (sym e) (distinct-IsLinked (n ∷ ns) d) in
    let run_on : IsOn (record new_run { state = running }) [] = record {
      cancel_event = fresh-IsOn.cancel_event;
      pause_event = fresh-IsOn.pause_event;
      pinned_bucket = fresh-IsOn.pinned_bucket;
      told = fresh-IsOn.told;
    } in
    rw (begin-plain s body f n ns e i) (
      recounted _ _ _ _ _ _ _ (omega arith) refl
        (drive-plain s body n ns f 0 (record new_run { state = running }) [] linked run_on))
