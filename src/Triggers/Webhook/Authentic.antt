-- ===== src/Triggers/Webhook/Authentic.antt =====
-- What a request that gets past the guards of `_handle_request` carries.
use stargraph.Common.{
  ℕ, ◌≤◌, ◌≡◌, refl, inl, inr, String, Bool, true, false, Option, none, some, List, arith, Result,
  ok, err, ltb, Bool-cases, Option-cases, ◌>>=◌, >>=-eq-ok, ◌∙◌, ap, string_keys, text_append,
}
use mathlib.Core.Path.{subst}
use text.Mathlib.TextEquality.{eq_iff}
use stargraph.Common.Dict.{lookup}
use stargraph.Triggers.Webhook.{
  ℤ, text_of_int, distance, int_of_text, Body, utf8, not_utf8, WebhookSpec, Request, Env,
  compare_digest, sign, verify, header, authentic, judged, check_request,
}

abbrev pub parsed : Option String → Option ℤ
unfolding int_of_text
parsed none = none
parsed (some raw) = int_of_text raw

-- The time that a request claims.
abbrev pub timestamp_of : WebhookSpec → Request → Option ℤ
timestamp_of spec r = parsed (header spec.timestamp_header r)

-- The digest that a holder of the secret makes of a time and a text.
pub record IsSigned (env : Env) (secret : List ℕ) (timestamp : ℤ) (body : Body) (signature : String)
    : Type 0 where
  pub text : String
  pub is_text : body ≡ utf8 text
  pub digest :
      signature
      ≡ env.hmac_sha256 secret (text_append (text_of_int timestamp) (text_append "." text))

-- The secrets that a spec takes: the current one, and in a rotation the previous one.
pub data IsSecret (spec : WebhookSpec) : List ℕ → Type 0 where
  current : {s : List ℕ} → s ≡ spec.current_secret → IsSecret spec s
  previous : {s : List ℕ} → spec.previous_secret ≡ some s → IsSecret spec s

-- A call in its window, signed with one of the secrets.
pub record IsAuthentic (env : Env) (now : ℕ) (spec : WebhookSpec) (r : Request) (signature : String)
    (timestamp : ℤ) : Type 0 where
  pub signed_by : header spec.signature_header r ≡ some signature
  pub at_time : timestamp_of spec r ≡ some timestamp
  pub in_window : distance now timestamp ≤ spec.timestamp_window_seconds
  pub secret : List ℕ
  pub known : IsSecret spec secret
  pub signed : IsSigned env secret timestamp r.body signature

module _ (env : Env) where
  compare_digest-same : (a b : String) → compare_digest a b ≡ ok true → b ≡ a
  unfolding compare_digest
  compare_digest-same a b h = ground (arith, eq_iff a b)

  -- What one secret makes of a call: an error, or a digest.
  sign-compare :
      (secret : List ℕ) (timestamp : ℤ) (body : Body) (signature expected : String)
      → sign env secret timestamp body ≡ ok expected
      → compare_digest expected signature ≡ ok true
      → IsSigned env secret timestamp body signature
  unfolding sign
  sign-compare secret timestamp (utf8 text) signature expected made same = record {
    text = text;
    is_text = refl;
    digest = ground (arith, compare_digest-same expected signature same);
  }
  sign-compare secret timestamp (not_utf8 bytes) signature expected made same = cc

  abbrev Signed : WebhookSpec → ℤ → Body → String → Type 0
  Signed spec timestamp body signature =
      (secret : List ℕ) × IsSecret spec secret × IsSigned env secret timestamp body signature

  previous-Signed :
      (spec : WebhookSpec) (secret : List ℕ) (timestamp : ℤ) (body : Body) (signature : String)
      → spec.previous_secret ≡ some secret
      → (sign env secret timestamp body >>= λ older. compare_digest older signature) ≡ ok true
      → Signed spec timestamp body signature
  previous-Signed spec secret timestamp body signature known h =
      let (older, made, same) =
        >>=-eq-ok (sign env secret timestamp body) (λ older. compare_digest older signature) h in
      (secret, previous known, sign-compare secret timestamp body signature older made same)

  verify-Signed :
      (spec : WebhookSpec) (timestamp : ℤ) (body : Body) (signature : String)
      → verify env spec.current_secret spec.previous_secret timestamp body signature ≡ ok true
      → Signed spec timestamp body signature
  unfolding verify
  verify-Signed spec timestamp body signature h =
      let (expected, made, rest) = >>=-eq-ok (sign env spec.current_secret timestamp body) _ h in
      let (matches, compared, last) = >>=-eq-ok (compare_digest expected signature) _ rest in
      elim (Bool-cases matches) [
        | inl yes_it ↦ (
          spec.current_secret,
          current refl,
          sign-compare spec.current_secret timestamp body signature expected made
              (compared ∙ ap ok yes_it),
        )
        | inr not_it ↦ elim (Option-cases spec.previous_secret) [
          | inl alone ↦ absurd (ground arith)
          | inr (secret, known) ↦
              previous-Signed spec secret timestamp body signature known (ground arith)
        ]
      ]

  judged-authentic :
      (s : String) (n : ℤ) (res : Result Bool) {signature : String} {timestamp : ℤ}
      → judged s n res ≡ authentic signature timestamp
      → (res ≡ ok true) × (s ≡ signature) × (n ≡ timestamp)
  unfolding judged
  judged-authentic s n (err e) h = cc
  judged-authentic s n (ok true) h = (refl, cc, cc)
  judged-authentic s n (ok false) h = cc

  -- What `authentic` says of a request.
  pub check_request-IsAuthentic :
      (now : ℕ) (spec : WebhookSpec) (r : Request) (signature : String) (timestamp : ℤ)
      → check_request env now spec r ≡ authentic signature timestamp
      → IsAuthentic env now spec r signature timestamp
  unfolding check_request lookup int_of_text
  check_request-IsAuthentic now spec r signature timestamp h =
      elim (Option-cases (header spec.signature_header r)) [
        | inl missing ↦ absurd (ground (arith, missing))
        | inr (s, signed_by) ↦ elim (Option-cases (header spec.timestamp_header r)) [
          | inl missing ↦ absurd (ground (arith, missing))
          | inr (raw, at_time) ↦ elim (Option-cases (int_of_text raw)) [
            | inl bad ↦ absurd (ground (arith, bad))
            | inr (n, reads) ↦
                elim (Bool-cases (ltb spec.timestamp_window_seconds (distance now n))) [
                  | inl late ↦ absurd (ground (arith, late))
                  | inr in_time ↦
                      let soon : distance now n ≤ spec.timestamp_window_seconds =
                        ground (arith, in_time) in
                      let result = verify env spec.current_secret spec.previous_secret n r.body s in
                      let (holds, same, at) =
                        judged-authentic s n result (ground (arith, in_time)) in
                      let (secret, known, signed) = verify-Signed spec n r.body s holds in
                      let here : IsAuthentic env now spec r s n = record {
                        signed_by = signed_by;
                        at_time = ap parsed at_time ∙ reads;
                        in_window = soon;
                        secret = secret;
                        known = known;
                        signed = signed;
                      } in
                      subst (λ z. IsAuthentic env now spec r z timestamp) same
                        (subst (IsAuthentic env now spec r s) at here)
                ]
          ]
        ]
      ]
