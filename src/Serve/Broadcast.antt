-- ===== src/Serve/Broadcast.antt =====
-- `EventBroadcaster` of src/stargraph/serve/broadcast.py: one reader of a run's bus, and a bounded stream to each
-- subscriber. A stream of anyio is a buffer that refuses an item when it is full.
pub mod Piece
mod Sets
pub mod Delivery
use stargraph.Common.{
  ℕ, zero, suc, ◌-◌, Bool, true, false, not, Option, none, some, List, [], ◌∷◌, ◌++◌, ◌&&◌,
  if◌then◌else◌, ltb, length, map, get_elem?, set,
}

-- How the iterator of a subscriber stands: it goes on, has ended, has raised BroadcasterOverflow, or was torn
-- down by its client.
pub data Outcome : Type 0 where
  reading : Outcome
  ended : Outcome
  overflow_raised : Outcome
  torn_down : Outcome

-- `replay` is what the iterator still yields of the backlog, `buffer` what its stream holds, and `received` what
-- it has yielded. `attached` says that the subscriber is in `_subscribers`; its send half is open just as long.
pub record Subscriber (E : Type 0) : Type 0 where
  pub replay : List E
  pub buffer : List E
  pub received : List E
  pub attached : Bool
  pub overflowed : Bool
  pub outcome : Outcome

-- All who ever subscribed, in order. `pumping` says that `run` is in its loop, and `log` is what it has read of
-- the bus.
pub record Broadcaster (E : Type 0) : Type 0 where
  pub subscribers : List (Subscriber E)
  pub closed : Bool
  pub backlog : List E
  pub had_subscriber : Bool
  pub pumping : Bool
  pub log : List E

abbrev last_outcome : Bool → Outcome
last_outcome true = overflow_raised
last_outcome false = ended

module _ {E : Type 0} where
  -- `EventBroadcaster.__init__`, and the start of `run`
  abbrev pub new_broadcaster : Broadcaster E
  new_broadcaster = record {
    subscribers = [];
    closed = false;
    backlog = [];
    had_subscriber = false;
    pumping = true;
    log = [];
  }

  -- `send_nowait`, and `_mark_overflow` where it would block.
  unfoldable pub deliver : E → Subscriber E → Subscriber E
  deliver ev sub =
      if sub.attached
      then (if ltb (length sub.buffer) 100
          then record sub { buffer = sub.buffer ++ ev ∷ [] }
          else record sub { attached = false; overflowed = true })
      else sub

  abbrev pub drop_oldest : List E → List E
  drop_oldest [] = []
  drop_oldest (ev ∷ evs) = if ltb 1024 (length (ev ∷ evs)) then evs else ev ∷ evs

  -- `_close_all_subscribers`
  abbrev pub shut : Subscriber E → Subscriber E
  shut sub = record sub { attached = false }

  unfoldable pub close_all : Broadcaster E → Broadcaster E
  close_all b = record b { subscribers = map shut b.subscribers }

  -- The loop of `run` takes an event of the bus; a broadcaster that was closed meanwhile leaves the loop then.
  unfoldable pub publish : E → Broadcaster E → Broadcaster E
  unfolding deliver close_all
  publish ev b =
      let b' : Broadcaster E = record b {
        subscribers = map (deliver ev) b.subscribers;
        backlog = if b.had_subscriber then b.backlog else drop_oldest (b.backlog ++ ev ∷ []);
        log = b.log ++ ev ∷ [];
      } in
      if b.pumping then (if b.closed then close_all (record b' { pumping = false }) else b') else b

  -- The bus is closed: the loop of `run` ends.
  unfoldable pub bus_ends : Broadcaster E → Broadcaster E
  unfolding close_all
  bus_ends b = if b.pumping then close_all (record b { pumping = false }) else b

  -- `aclose`
  unfoldable pub aclose : Broadcaster E → Broadcaster E
  unfolding close_all
  aclose b = close_all (record b { closed = true })

  -- `subscribe` up to its first `yield`.
  unfoldable pub subscribe : Broadcaster E → Broadcaster E
  subscribe b = record b {
    subscribers =
        b.subscribers
        ++ record {
          replay = if b.had_subscriber then [] else b.backlog;
          buffer = [];
          received = [];
          attached = true;
          overflowed = false;
          outcome = reading;
        }
          ∷ [];
    had_subscriber = true;
    backlog = if b.had_subscriber then b.backlog else [];
  }

  -- The iterator is asked for its next item: from the backlog, from the stream, or, when the send half is closed,
  -- its end. An iterator that has to wait stays as it is.
  unfoldable pub next : List E → List E → Subscriber E → Subscriber E
  next (ev ∷ replay) buffer sub = record sub { replay = replay; received = sub.received ++ ev ∷ [] }
  next [] (ev ∷ buffer) sub = record sub { buffer = buffer; received = sub.received ++ ev ∷ [] }
  next [] [] sub =
      if sub.attached then sub else record sub { outcome = last_outcome sub.overflowed }

  unfoldable pub ask : Subscriber E → Outcome → Subscriber E
  unfolding next
  ask sub reading = next sub.replay sub.buffer sub
  ask sub _ = sub

  -- The client goes away: the `finally` of the iterator.
  unfoldable pub tear_down : Subscriber E → Outcome → Subscriber E
  tear_down sub reading = record sub { attached = false; outcome = torn_down }
  tear_down sub _ = sub

  unfoldable pub at_subscriber :
      (Subscriber E → Subscriber E) → ℕ → List (Subscriber E) → List (Subscriber E)
  at_subscriber f k [] = []
  at_subscriber f zero (sub ∷ subs) = f sub ∷ subs
  at_subscriber f (suc k) (sub ∷ subs) = sub ∷ at_subscriber f k subs

pub data Act (E : Type 0) : Type 0 where
  publishes : E → Act E
  ends_bus : Act E
  closes : Act E
  subscribes : Act E
  asks : (k : ℕ) → Act E
  leaves : (k : ℕ) → Act E

module _ {E : Type 0} where
  unfoldable pub act : Act E → Broadcaster E → Broadcaster E
  unfolding publish bus_ends aclose subscribe ask tear_down at_subscriber
  act (publishes ev) b = publish ev b
  act ends_bus b = bus_ends b
  act closes b = aclose b
  act subscribes b = subscribe b
  act (asks k) b = record b {
    subscribers = at_subscriber (λ sub. ask sub sub.outcome) k b.subscribers;
  }
  act (leaves k) b = record b {
    subscribers = at_subscriber (λ sub. tear_down sub sub.outcome) k b.subscribers;
  }

  unfoldable pub run : List (Act E) → Broadcaster E → Broadcaster E
  unfolding act
  run [] b = b
  run (a ∷ later) b = run later (act a b)
