-- ===== src/Graph/Resume/Laws.antt =====
-- When a run can be resumed.
use text.Mathlib.TextEquality.{eq_iff}
use stargraph.Common.{
  ℕ, zero, suc, ◌≡◌, refl, ◌↔◌, inl, inr, String, Bool, true, false, Option, none, some, List, [],
  Record, Result, ◌∷◌, ok, >>=-eq-ok, arith, ◌==◌, string_keys, any, Bool-cases, ◌&&◌, get_elem?,
}
use stargraph.Ir.Nodes.{MigrateBlock}
use stargraph.Graph.State.{model, Checkpoint, Graph}
use stargraph.Graph.Resume.{
  Reads, load_checkpoint, has_cf_prefix, refuse_cf_prefix, migrate_block_applies,
  validate_graph_hash, state_model_from_dict, Handle, or_stub, resume,
}

-- The documented condition on hashes: no graph to compare, the same hash, or a block that migrates from
-- the one hash to the other.
pub data IsCompatible (ckpt : Checkpoint) : Option Graph → Type 0 where
  unchecked : IsCompatible ckpt none
  same_hash : {graph : Graph} → graph.graph_hash ≡ ckpt.graph_hash → IsCompatible ckpt (some graph)
  migrated :
      {graph : Graph}
      → (i : ℕ) (b : MigrateBlock) → get_elem? graph.migrate i ≡ some b
      → b.from_hash ≡ ckpt.graph_hash
      → b.to_hash ≡ graph.graph_hash
      → IsCompatible ckpt (some graph)

any-get_elem :
    (p : MigrateBlock → Bool) (bs : List MigrateBlock)
    → any p bs ≡ true
    → (i : ℕ) × (b : MigrateBlock) × (get_elem? bs i ≡ some b) × (p b ≡ true)
any-get_elem p [] h = cc
any-get_elem p (b ∷ bs) h = elim (Bool-cases (p b)) [
  | inl here ↦ (0, b, refl, here)
  | inr miss ↦ let (i, c, e, k) = any-get_elem p bs (ground arith) in (suc i, c, e, k)
]

get_elem-any :
    (p : MigrateBlock → Bool) (bs : List MigrateBlock) (i : ℕ) (b : MigrateBlock)
    → get_elem? bs i ≡ some b
    → p b ≡ true
    → any p bs ≡ true
get_elem-any p [] i b e h = cc
get_elem-any p (c ∷ bs) zero b e h = ground arith
get_elem-any p (c ∷ bs) (suc i) b e h = ground (arith, get_elem-any p bs i b e h)

IsCompatible-graph :
    (ckpt : Checkpoint) (graph : Graph) (x : Unit {0})
    → validate_graph_hash ckpt (some graph) ≡ ok x
    → IsCompatible ckpt (some graph)
unfolding validate_graph_hash migrate_block_applies
IsCompatible-graph ckpt graph x e = elim (Bool-cases (graph.graph_hash == ckpt.graph_hash)) [
  | inl same ↦ same_hash ((eq_iff graph.graph_hash ckpt.graph_hash).0 same)
  | inr other ↦ elim (Bool-cases (migrate_block_applies graph ckpt)) [
    | inl applies ↦
        let (i, b, at, both) = any-get_elem _ graph.migrate applies in
        migrated i b at ((eq_iff b.from_hash ckpt.graph_hash).0 (ground arith))
          ((eq_iff b.to_hash graph.graph_hash).0 (ground arith))
    | inr none_applies ↦ absurd (ground arith)
  ]
]

validate-IsCompatible :
    (ckpt : Checkpoint) (graph : Option Graph) (x : Unit {0})
    → validate_graph_hash ckpt graph ≡ ok x
    → IsCompatible ckpt graph
validate-IsCompatible ckpt none x e = unchecked
validate-IsCompatible ckpt (some graph) x e = IsCompatible-graph ckpt graph x e

IsCompatible-validate :
    (ckpt : Checkpoint) (graph : Option Graph)
    → IsCompatible ckpt graph
    → validate_graph_hash ckpt graph ≡ ok tt
unfolding validate_graph_hash migrate_block_applies
IsCompatible-validate ckpt none unchecked = refl
IsCompatible-validate ckpt (some graph) (same_hash e) =
    ground (arith, eq_iff graph.graph_hash ckpt.graph_hash)
IsCompatible-validate ckpt (some graph) (migrated i b at f t) =
    let applies =
      get_elem-any
        (λ (m : MigrateBlock). m.from_hash == ckpt.graph_hash && m.to_hash == graph.graph_hash)
        graph.migrate i b at
        (ground (arith, eq_iff b.from_hash ckpt.graph_hash, eq_iff b.to_hash graph.graph_hash)) in
    ground arith

-- The run that a checkpoint is resumed to.
abbrev pub resumed : Graph → String → Option Graph → Checkpoint → Handle
resumed stub run_id graph ckpt = record {
  run_id = run_id;
  graph = or_stub stub graph;
  initial_state = model ckpt.state;
  parent_run_id = ckpt.parent_run_id;
}

-- A run is resumed to a handle exactly when the driver has the checkpoint asked for (the latest, or the
-- one of the step), its hash does not start with the prefix for forks and is compatible with the graph
-- given, and Pydantic builds a model of its state; the handle then has the checkpoint's state and parent.
pub resume-IsCompatible :
    (build : Record → Result {0} Unit) (stub : Graph) (driver : Reads) (run_id : String)
    (from_step : Option ℕ) (graph : Option Graph) (h : Handle)
    → (resume build stub driver run_id from_step graph ≡ ok h) ↔ (
        (ckpt : Checkpoint) × (load_checkpoint driver run_id from_step ≡ ok ckpt)
        × (has_cf_prefix ckpt ≡ false)
        × IsCompatible ckpt graph
        × (build ckpt.state ≡ ok tt)
        × (resumed stub run_id graph ckpt ≡ h))
unfolding resume refuse_cf_prefix state_model_from_dict
resume-IsCompatible build stub driver run_id from_step graph h = (
  λ e.
      let (ckpt, found, more) = >>=-eq-ok (load_checkpoint driver run_id from_step) _ e in
      let (_, own, most) = >>=-eq-ok (refuse_cf_prefix ckpt) _ more in
      let (x, valid, last) = >>=-eq-ok (validate_graph_hash ckpt graph) _ most in
      let (st, made, end) = >>=-eq-ok (state_model_from_dict build ckpt.state) _ last in
      let (_, taken, same) = >>=-eq-ok (build ckpt.state) _ made in
      (ckpt, found, ground arith, validate-IsCompatible ckpt graph x valid, taken, cc),
  λ (ckpt, found, own, compatible, taken, same).
      rw (found, own, IsCompatible-validate ckpt graph compatible, taken, same) refl,
)
