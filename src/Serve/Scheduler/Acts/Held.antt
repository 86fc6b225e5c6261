-- ===== src/Serve/Scheduler/Acts/Held.antt =====
-- Which futures are in the hands of the queue or of a worker.
use stargraph.Common.{
  any-append, any-set, any-drop_at, get_elem?-set, get_elem?-append, ℕ, ◌≡◌, refl, Bool, true,
  false, Option, none, some, List, [], ◌∷◌, ◌++◌, ◌&&◌, ◌||◌, arith, get_elem?, set, drop_at,
  length, any, Option-cases, inl, inr, nat_eq, nat_eq_iff, string_keys,
}
use mathlib.Core.Path.{subst}
use stargraph.Serve.Scheduler.{
  QueueItem, PendingRun, Phase, at_limiter, driving, Worker, Scheduler, FutureState, unsettled,
  resolved, rejected, called_off,
}
use stargraph.Serve.Scheduler.Acts.{call_off}
use stargraph.Serve.Scheduler.Steps.{settle, settled}

abbrev pub is_unsettled : Option FutureState → Bool
is_unsettled (some unsettled) = true
is_unsettled _ = false

-- Whether an item of the queue is to settle the future i.
abbrev pub carries : ℕ → Option QueueItem → Bool
carries i none = false
carries i (some item) = nat_eq item.future i

abbrev pub before_end : Phase → Bool
before_end at_limiter = true
before_end driving = true
before_end _ = false

-- Whether a worker is to settle the future i.
abbrev pub works_on : ℕ → Worker → Bool
works_on i w = before_end w.phase && nat_eq w.item.future i

abbrev pub held : ℕ → List (Option QueueItem) → List Worker → Bool
held i queue workers = any (carries i) queue || any (works_on i) workers

-- A future that nobody has settled is in the hands of the queue or of a worker.
abbrev pub Kept : List (Option QueueItem) → List FutureState → List Worker → Type 0
Kept queue futures workers =
    (i : ℕ) → is_unsettled (get_elem? futures i) ≡ true → held i queue workers ≡ true

abbrev pub NoLost : Scheduler → Type 0
NoLost s = Kept s.queue s.futures s.workers

unsettled_at :
    (i : ℕ) (new old : FutureState) (fs : List FutureState) (j : ℕ)
    → is_unsettled (some new) ≡ false
    → get_elem? fs i ≡ some old
    → is_unsettled (get_elem? (set fs i (settle old new)) j) ≡ true
    → (is_unsettled (get_elem? fs j) ≡ true) × (nat_eq i j ≡ false)
unsettled_at i new unsettled fs j o e h = ground (arith, get_elem?-set fs i j unsettled new e)
unsettled_at i new (resolved r) fs j o e h =
    ground (arith, get_elem?-set fs i j (resolved r) (resolved r) e, nat_eq_iff i j)
unsettled_at i new (rejected x) fs j o e h =
    ground (arith, get_elem?-set fs i j (rejected x) (rejected x) e, nat_eq_iff i j)
unsettled_at i new called_off fs j o e h =
    ground (arith, get_elem?-set fs i j called_off called_off e, nat_eq_iff i j)

-- A settled future stays settled, and the others are as they were.
pub settled-unsettled :
    (i : ℕ) (new : FutureState) (fs : List FutureState) (j : ℕ)
    → is_unsettled (some new) ≡ false
    → is_unsettled (get_elem? (settled i new fs) j) ≡ true
    → (is_unsettled (get_elem? fs j) ≡ true) × (nat_eq i j ≡ false)
unfolding settled
settled-unsettled i new fs j o h = elim (Option-cases (get_elem? fs i)) [
  | inl gone ↦ ground (arith, gone, nat_eq_iff i j)
  | inr (old, found) ↦ unsettled_at i new old fs j o found (
      subst
        (λ e.
          is_unsettled (get_elem? (elim e [ none ↦ fs | some old ↦ set fs i (settle old new) ]) j)
          ≡ true)
        found h)
]

pub call_off-unsettled :
    (q : List (Option QueueItem)) (fs : List FutureState) (j : ℕ)
    → is_unsettled (get_elem? (call_off q fs) j) ≡ true
    → (is_unsettled (get_elem? fs j) ≡ true) × (any (carries j) q ≡ false)
unfolding call_off
call_off-unsettled [] fs j h = (h, refl)
call_off-unsettled (none ∷ q) fs j h = call_off-unsettled q fs j h
call_off-unsettled (some item ∷ q) fs j h =
    let (a, b) = call_off-unsettled q (settled item.future called_off fs) j h in
    let (c, d) = settled-unsettled item.future called_off fs j refl a in (c, ground arith)

-- A new item at the end of the queue, with a new future.
pub add-Kept :
    (p : PendingRun) (queue : List (Option QueueItem)) (futures : List FutureState)
    (workers : List Worker)
    → Kept queue futures workers
    → Kept
        (queue ++ some (record { pending = p; future = length futures }) ∷ [])
        (futures ++ unsettled ∷ [])
        workers
add-Kept p queue futures workers h i =
    let item : QueueItem = record { pending = p; future = length futures } in
    ground (
      arith,
      h i,
      get_elem?-append futures unsettled i,
      any-append (carries i) queue (some item ∷ []),
    )

-- A worker that has settled its future moves on.
pub settled-Kept :
    (k : ℕ) (w : Worker) (p : Phase) (new : FutureState) (queue : List (Option QueueItem))
    (futures : List FutureState) (workers : List Worker)
    → get_elem? workers k ≡ some w
    → is_unsettled (some new) ≡ false
    → Kept queue futures workers
    → Kept queue (settled w.item.future new futures) (set workers k (record w { phase = p }))
settled-Kept k w p new queue futures workers e o h i u =
    let (open_before, other) = settled-unsettled w.item.future new futures i o u in
    ground (arith, h i open_before, any-set (works_on i) workers k w (record w { phase = p }) e)

-- A worker behind the end of its run moves on, or leaves.
pub moves-Kept :
    (k : ℕ) (w : Worker) (p : Phase) (queue : List (Option QueueItem)) (futures : List FutureState)
    (workers : List Worker)
    → get_elem? workers k ≡ some w
    → before_end w.phase ≡ false
    → Kept queue futures workers
    → Kept queue futures (set workers k (record w { phase = p }))
moves-Kept k w p queue futures workers e b h i =
    ground (arith, h i, any-set (works_on i) workers k w (record w { phase = p }) e)

pub leaves-Kept :
    (k : ℕ) (w : Worker) (queue : List (Option QueueItem)) (futures : List FutureState)
    (workers : List Worker)
    → get_elem? workers k ≡ some w
    → before_end w.phase ≡ false
    → Kept queue futures workers
    → Kept queue futures (drop_at workers k)
leaves-Kept k w queue futures workers e b h i =
    ground (arith, h i, any-drop_at (works_on i) workers k w e)
