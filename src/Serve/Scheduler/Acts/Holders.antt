-- ===== src/Serve/Scheduler/Acts/Holders.antt =====
-- The workers that hold the limiter of a graph, and what it counts of them.
use stargraph.Common.{
  ℕ, zero, suc, ◌+◌, ◌≤◌, ◌≡◌, String, Bool, true, false, Option, none, some, List, [], ◌∷◌, ◌++◌,
  ◌&&◌, ◌==◌, arith, get_elem?, set, drop_at, string_keys, if◌then◌else◌,
}
use stargraph.Common.Dict.{lookup}
use stargraph.Serve.Scheduler.{
  Phase, at_limiter, driving, clearing, recording, Worker, Limiter, Scheduler,
}
use stargraph.Serve.Scheduler.Acts.{}
use stargraph.Serve.Scheduler.Steps.{}

-- Whether a worker holds its limiter.
abbrev pub holds_token : Phase → Bool
holds_token at_limiter = false
holds_token driving = true
holds_token (clearing held status error_class) = held
holds_token (recording held status error_class) = held

abbrev pub weight : String → Worker → ℕ
weight g w = if w.item.pending.graph_id == g && holds_token w.phase then 1 else 0

-- How many workers hold the limiter of a graph.
abbrev pub holders : String → List Worker → ℕ
holders g [] = 0
holders g (w ∷ ws) = weight g w + holders g ws

pub holders-set :
    (g : String) (ws : List Worker) (k : ℕ) (w w' : Worker)
    → get_elem? ws k ≡ some w
    → holders g (set ws k w') + weight g w ≡ holders g ws + weight g w'
holders-set g [] k w w' e = cc
holders-set g (v ∷ ws) zero w w' e = let same : v ≡ w = cc in rw same (omega arith)
holders-set g (v ∷ ws) (suc k) w w' e = omega (arith, holders-set g ws k w w' e)

pub holders-drop_at :
    (g : String) (ws : List Worker) (k : ℕ) (w : Worker)
    → get_elem? ws k ≡ some w
    → holders g (drop_at ws k) + weight g w ≡ holders g ws
holders-drop_at g [] k w e = cc
holders-drop_at g (v ∷ ws) zero w e = let same : v ≡ w = cc in rw same (omega arith)
holders-drop_at g (v ∷ ws) (suc k) w e = omega (arith, holders-drop_at g ws k w e)

pub holders-append :
    (g : String) (ws vs : List Worker) → holders g (ws ++ vs) ≡ holders g ws + holders g vs
holders-append g [] vs = omega arith
holders-append g (w ∷ ws) vs = omega (arith, holders-append g ws vs)

-- The limiter of a graph, and the number of its holders.
abbrev pub IsLimited : Option Limiter → ℕ → Type 0
IsLimited none n = n ≡ 0
IsLimited (some l) n = (l.total ≡ 1) × (l.borrowed ≡ n) × (n ≤ 1)

abbrev pub LimitInv : Scheduler → Type 0
LimitInv s = (g : String) → IsLimited (lookup g s.limiters) (holders g s.workers)
