-- ===== src/Serve/RateLimit.antt =====
-- `TokenBucket` and `PerActorBucketRegistry` of src/stargraph/serve/ratelimit.py. Time is counted in
-- microseconds and a token in `unit` parts, so that a refill is exact where the source has floats.
pub mod Window
pub mod Actors
use stargraph.Common.{
  ℕ, zero, suc, ◌+◌, ◌*◌, ◌-◌, ◌/◌, String, Bool, true, false, Option, none, some, List, [], ◌∷◌,
  Result, ok, err, ◌>>=◌, value_error, leb, nat_eq, if◌then◌else◌, string_keys,
}
use stargraph.Common.Dict.{Dict, lookup, insert}

-- One token, in parts: a minute of microseconds.
abbrev pub unit : ℕ
unit = 60000000

abbrev pub microseconds : ℕ
microseconds = 1000000

abbrev pub min : ℕ → ℕ → ℕ
min a b = if leb a b then a else b

pub record TokenBucket : Type 0 where
  pub capacity : ℕ
  pub refill_per_minute : ℕ
  pub tokens : ℕ
  pub last_refill : Option ℕ

-- `TokenBucket.__init__`
unfoldable pub new_bucket : ℕ → ℕ → Result TokenBucket
new_bucket capacity refill_per_minute =
    if nat_eq capacity 0
    then err (value_error "capacity must be positive")
    else if nat_eq refill_per_minute 0
    then err (value_error "refill_per_minute must be positive")
    else ok (record {
      capacity = capacity;
      refill_per_minute = refill_per_minute;
      tokens = capacity * unit;
      last_refill = none;
    })

refilled : ℕ → ℕ → TokenBucket → TokenBucket
refilled now last b = if leb now last then b else record b {
  tokens = min (b.capacity * unit) (b.tokens + (now - last) * b.refill_per_minute);
  last_refill = some now;
}

-- `_refill_locked`
unfoldable pub refill : ℕ → TokenBucket → TokenBucket
unfolding refilled
refill now b = elim b.last_refill [
  | none ↦ record b { last_refill = some now }
  | some last ↦ refilled now last b
]

take_tokens : ℕ → TokenBucket → Bool × TokenBucket
take_tokens n b =
    if leb (n * unit) b.tokens
    then (true, record b { tokens = b.tokens - n * unit })
    else (false, b)

-- `consume`, at the time that the clock shows
unfoldable pub consume : ℕ → ℕ → TokenBucket → Result (Bool × TokenBucket)
unfolding refill take_tokens
consume now n b =
    if nat_eq n 0 then err (value_error "n must be positive") else ok (take_tokens n (refill now b))

-- `max(1, math.ceil(deficit / rate))`, for a deficit in parts of a token
abbrev pub wait_for : ℕ → ℕ → ℕ
wait_for deficit refill_per_minute =
    let per_second = microseconds * refill_per_minute in
    let seconds = (deficit + (per_second - 1)) / per_second in if leb 1 seconds then seconds else 1

-- `seconds_until_available`
unfoldable pub seconds_until_available : ℕ → ℕ → TokenBucket → ℕ × TokenBucket
unfolding refill
seconds_until_available now n b =
    let b' = refill now b in
    (
      if leb (n * unit) b'.tokens then 1 else wait_for (n * unit - b'.tokens) b'.refill_per_minute,
      b',
    )

pub record Registry : Type 0 where
  pub capacity : ℕ
  pub refill_per_minute : ℕ
  pub buckets : Dict String TokenBucket

-- `get_or_create`: an actor's bucket, made where there is none. The caller then changes the bucket
-- in place, which `put_back` writes out.
found_or_new : String → Registry → Option TokenBucket → Result (TokenBucket × Registry)
unfolding insert new_bucket
found_or_new actor g (some b) = ok (b, g)
found_or_new actor g none = do
  b ← new_bucket g.capacity g.refill_per_minute
  ok (b, record g { buckets = insert actor b g.buckets })

unfoldable pub get_or_create : String → Registry → Result (TokenBucket × Registry)
unfolding lookup found_or_new
get_or_create actor g = found_or_new actor g (lookup actor g.buckets)

unfoldable pub put_back : String → TokenBucket → Registry → Registry
unfolding insert
put_back actor b g = record g { buckets = insert actor b g.buckets }

-- `reset`
unfoldable pub reset : Registry → Registry
reset g = record g { buckets = [] }
