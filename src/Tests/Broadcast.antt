-- ===== src/Tests/Broadcast.antt =====
-- The broadcaster.
use stargraph.Common.{
  ℕ, ◌≡◌, refl, ◌≤◌, true, false, some, List, [], ◌∷◌, ◌++◌, get_elem?, length, arith,
}
use stargraph.Serve.Broadcast.{
  Subscriber, new_broadcaster, reading, Act, publishes, ends_bus, subscribes, asks, run,
}
use stargraph.Serve.Broadcast.Piece.{seen, faithful}
use stargraph.Serve.Broadcast.Delivery.{subscriber_sees_piece, first_subscriber_sees_all}

-- Two events before anybody listens, a second subscriber between the others.
abbrev acts : List (Act ℕ)
acts =
    publishes 1
    ∷ publishes 2
    ∷ subscribes
    ∷ publishes 3
    ∷ asks 0
    ∷ subscribes
    ∷ asks 0
    ∷ publishes 4
    ∷ asks 1
    ∷ ends_bus
    ∷ asks 0
    ∷ []

abbrev watcher : Subscriber ℕ
watcher = record {
  replay = [];
  buffer = 4 ∷ [];
  received = 1 ∷ 2 ∷ 3 ∷ [];
  attached = false;
  overflowed = false;
  outcome = reading;
}

abbrev late_watcher : Subscriber ℕ
late_watcher = record {
  replay = [];
  buffer = [];
  received = 4 ∷ [];
  attached = false;
  overflowed = false;
  outcome = reading;
}

watching : get_elem? (run acts new_broadcaster).subscribers 0 ≡ some watcher
unfolding run
watching = refl

watching_late : get_elem? (run acts new_broadcaster).subscribers 1 ≡ some late_watcher
unfolding run
watching_late = refl

still_open : (run acts new_broadcaster).closed ≡ false
unfolding run
still_open = refl

read_in_all : (run acts new_broadcaster).log ≡ 1 ∷ 2 ∷ 3 ∷ 4 ∷ []
unfolding run
read_in_all = refl

few_events : length (run acts new_broadcaster).log ≤ 1024
unfolding run
few_events = omega arith

is_faithful : faithful (run acts new_broadcaster).closed watcher ≡ true
unfolding run
is_faithful = refl

subscriber_sees_piece_example :
    (earlier : List ℕ) × (later : List ℕ) × ((run acts new_broadcaster).log
      ≡ earlier ++ (seen late_watcher ++ later))
subscriber_sees_piece_example = subscriber_sees_piece acts 1 late_watcher watching_late

first_subscriber_sees_all_example : seen watcher ≡ (run acts new_broadcaster).log
first_subscriber_sees_all_example =
    first_subscriber_sees_all acts watcher watching is_faithful few_events

-- A client that subscribes after the end of the run gets the backlog, and then waits for ever: nothing closes its
-- stream any more.
abbrev after_end : List (Act ℕ)
after_end = publishes 1 ∷ ends_bus ∷ subscribes ∷ asks 0 ∷ asks 0 ∷ asks 0 ∷ []

waits_for_ever :
    get_elem? (run after_end new_broadcaster).subscribers 0
    ≡ some (record {
      replay = [];
      buffer = [];
      received = 1 ∷ [];
      attached = true;
      overflowed = false;
      outcome = reading;
    })
unfolding run
waits_for_ever = refl
