-- ===== src/Serve/RateLimit/Actors.antt =====
-- The buckets of two actors do not meet.
use stargraph.Common.{
  ◌≡◌, refl, ap, ◌∙◌, ◌≢◌, String, true, false, Option, none, some, ok, ◌==◌, string_keys,
  Bool-cases, inl, inr, >>=-eq-ok,
}
use text.Mathlib.TextEquality.{eq_iff}
use stargraph.Common.Dict.{Dict, lookup, insert, lookup-insert}
use stargraph.Serve.RateLimit.{
  TokenBucket, Registry, new_bucket, found_or_new, get_or_create, put_back,
}

other_key : (a b : String) → a ≢ b → (a == b) ≡ false
other_key a b h = elim (Bool-cases (a == b)) [ inl e ↦ absurd (h ((eq_iff a b).0 e)) | inr e ↦ e ]

lookup-insert-other :
    (a b : String) (v : TokenBucket) (d : Dict String TokenBucket)
    → a ≢ b
    → lookup b (insert a v d) ≡ lookup b d
lookup-insert-other a b v d h = rw (lookup-insert a b v d, other_key a b h) refl

same_key : (a : String) → (a == a) ≡ true
same_key a = (eq_iff a a).1 refl

-- Whether the bucket was there or made, another actor's is as it was.
made_apart :
    (a b : String) (g g' : Registry) (bucket : TokenBucket) (found : Option TokenBucket)
    → a ≢ b
    → found_or_new a g found ≡ ok (bucket, g')
    → lookup b g'.buckets ≡ lookup b g.buckets
unfolding found_or_new
made_apart a b g g' bucket (some there) h e = let same : g ≡ g' = cc in rw same refl
made_apart a b g g' bucket none h e =
    let (made, _, last) = >>=-eq-ok (new_bucket g.capacity g.refill_per_minute) _ e in
    let put : record g { buckets = insert a made g.buckets } ≡ g' = cc in
    rw (← put) (lookup-insert-other a b made g.buckets h)

found_again :
    (a : String) (used : TokenBucket) (d : Dict String TokenBucket)
    → lookup a (insert a used d) ≡ some used
found_again a used d = rw (lookup-insert a a used d, same_key a) refl

-- What an actor does with its bucket, which is made where there was none, is what it finds the next
-- time, and changes the bucket of no other actor.
pub actors_apart :
    (a b : String) (g g' : Registry) (bucket used : TokenBucket)
    → a ≢ b
    → get_or_create a g ≡ ok (bucket, g')
    → (get_or_create a (put_back a used g') ≡ ok (used, put_back a used g'))
      × (lookup b (put_back a used g').buckets ≡ lookup b g.buckets)
unfolding get_or_create put_back found_or_new
actors_apart a b g g' bucket used h e = (
  ap (found_or_new a (put_back a used g')) (found_again a used g'.buckets),
  lookup-insert-other a b used g'.buckets h ∙ made_apart a b g g' bucket (lookup a g.buckets) h e,
)
