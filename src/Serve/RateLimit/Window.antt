-- ===== src/Serve/RateLimit/Window.antt =====
-- How much a bucket grants in a span of time.
use stargraph.Common.{
  ℕ, ◌+◌, ◌*◌, ◌-◌, ◌≤◌, ◌≡◌, refl, ap, ◌∙◌, Bool, true, false, some, List, [], ◌∷◌, Result, ok,
  err, leb, nat_eq, arith, All, Bool-cases, inl, inr,
}
use native.Mathlib.Nat.{add-mul, mul-le-mul_right}
use stargraph.Serve.RateLimit.{unit, TokenBucket, refilled, refill, take_tokens, consume}

-- A request: the time, and the tokens that it asks for.
abbrev pub Request : Type 0
Request = ℕ × ℕ

-- What one request is granted, and the bucket behind it: a request for no token raises.
grant : ℕ → Result (Bool × TokenBucket) → TokenBucket → ℕ × TokenBucket
grant n (err e) b = (0, b)
grant n (ok (true, b')) b = (n, b')
grant n (ok (false, b')) b = (0, b')

-- Requests in the order in which the lock lets them in: the tokens granted, and the bucket behind them.
unfoldable pub serve : List Request → TokenBucket → ℕ × TokenBucket
unfolding consume grant
serve [] b = (0, b)
serve ((now, n) ∷ rs) b =
    let (granted, b') = grant n (consume now n b) b in
    let (more, after) = serve rs b' in (granted + more, after)

-- From the bucket b, last refilled at a time, to one behind it: it was refilled d later at most, and
-- what was granted and what is left were there before or came in meanwhile.
record IsPaid (b : TokenBucket) (last until : ℕ) (granted : ℕ) (b' : TokenBucket) : Type 0 where
  d : ℕ
  rate : b'.refill_per_minute ≡ b.refill_per_minute
  last_refill : b'.last_refill ≡ some (last + d)
  in_time : last + d ≤ until
  paid : granted * unit + b'.tokens ≤ b.tokens + d * b.refill_per_minute

unchanged :
    (b : TokenBucket) (last until : ℕ)
    → b.last_refill ≡ some last
    → last ≤ until
    → IsPaid b last until 0 b
unchanged b last until l h = record {
  d = 0;
  rate = refl;
  last_refill = l ∙ ap some (omega arith);
  in_time = omega arith;
  paid = omega arith;
}

refilled-IsPaid :
    (b : TokenBucket) (now last until : ℕ)
    → b.last_refill ≡ some last
    → last ≤ until
    → now ≤ until
    → IsPaid b last until 0 (refilled now last b)
unfolding refilled
refilled-IsPaid b now last until l h k = elim (Bool-cases (leb now last)) [
  | inl early ↦ rw early (unchanged b last until l h)
  | inr late ↦ rw late (record {
    d = now - last;
    rate = refl;
    last_refill = ap some (ground arith);
    in_time = ground arith;
    paid = ground arith;
  })
]

take_tokens-IsPaid :
    (b : TokenBucket) (n last until : ℕ) (c : TokenBucket)
    → IsPaid b last until 0 c
    → IsPaid b last until (grant n (ok (take_tokens n c)) b).0 (grant n (ok (take_tokens n c)) b).1
unfolding take_tokens grant
take_tokens-IsPaid b n last until c h = elim (Bool-cases (leb (n * unit) c.tokens)) [
  | inl enough ↦ rw enough (record {
    d = h.d;
    rate = h.rate;
    last_refill = h.last_refill;
    in_time = h.in_time;
    paid = ground (arith, h.paid);
  })
  | inr short ↦ rw short h
]

refill-refilled :
    (b : TokenBucket) (now last : ℕ)
    → b.last_refill ≡ some last
    → refill now b ≡ refilled now last b
unfolding refill
refill-refilled b now last l = ground (arith, l)

granted-IsPaid :
    (b : TokenBucket) (now n last until : ℕ)
    → b.last_refill ≡ some last
    → last ≤ until
    → now ≤ until
    → let after = grant n (consume now n b) b in IsPaid b last until after.0 after.1
unfolding consume grant
granted-IsPaid b now n last until l h k = elim (Bool-cases (nat_eq n 0)) [
  | inl zero_tokens ↦ rw zero_tokens (unchanged b last until l h)
  | inr some_tokens ↦
      rw (some_tokens, refill-refilled b now last l)
        (take_tokens-IsPaid b n last until (refilled now last b)
          (refilled-IsPaid b now last until l h k))
]

joined :
    (b b' b'' : TokenBucket) (last until first more : ℕ)
    → (p : IsPaid b last until first b') → IsPaid b' (last + p.d) until more b''
    → IsPaid b last until (first + more) b''
joined b b' b'' last until first more p q = record {
  d = p.d + q.d;
  rate = q.rate ∙ p.rate;
  last_refill = q.last_refill ∙ ap some (omega arith);
  in_time = omega (arith, q.in_time);
  paid =
      let same : q.d * b'.refill_per_minute ≡ q.d * b.refill_per_minute =
        ap (λ r. q.d * r) p.rate in
      omega
        (arith, p.paid, q.paid, same, add-mul p.d q.d b.refill_per_minute, add-mul first more unit);
}

serve-IsPaid :
    (rs : List Request) (b : TokenBucket) (last until : ℕ)
    → b.last_refill ≡ some last
    → last ≤ until
    → All (λ (r : Request). r.0 ≤ until) rs
    → IsPaid b last until (serve rs b).0 (serve rs b).1
unfolding serve
serve-IsPaid [] b last until l h k = unchanged b last until l h
serve-IsPaid ((now, n) ∷ rs) b last until l h k =
    let first = granted-IsPaid b now n last until l h k.0 in
    joined b _ _ last until _ _ first
      (serve-IsPaid rs _ (last + first.d) until first.last_refill first.in_time k.1)

-- However the requests of a span are ordered and sized, a bucket that holds no more than its capacity
-- grants in it no more tokens than its capacity and what the span refills: the bound is in parts of a
-- token, and the span runs from the last refill before it to the latest request.
pub serve-bound :
    (rs : List Request) (b : TokenBucket) (last until : ℕ)
    → b.tokens ≤ b.capacity * unit
    → b.last_refill ≡ some last
    → last ≤ until
    → All (λ (r : Request). r.0 ≤ until) rs
    → (serve rs b).0 * unit ≤ b.capacity * unit + (until - last) * b.refill_per_minute
serve-bound rs b last until full l h k =
    let p = serve-IsPaid rs b last until l h k in
    let short : p.d ≤ until - last = omega (arith, p.in_time) in
    omega (arith, p.paid, mul-le-mul_right b.refill_per_minute short)
