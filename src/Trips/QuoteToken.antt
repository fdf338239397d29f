-- ===== src/Trips/QuoteToken.antt =====
-- apps/api/src/modules/trips/quote-token.service.ts: a signed quote. A token is the list of the
-- parts that `token.split('.')` makes of it. The codec (base64url over JSON) and the signature
-- (HMAC-SHA-256 under the secret, in base64url) are parameters; a quote's point is in billionths of
-- a degree.
use voyya_backend.Prelude.{
  Bool-cases, Option-cases, inl, inr, ap, ◌∙◌, subst, ◌||◌, refl, ℕ, ◌+◌, ◌*◌, ◌/◌, ◌≤◌, String,
  str_eq, eq_iff, ◌≡◌, true, not, Option, none, some, List, [], ◌∷◌, arith, ltb, ◌==◌,
  if◌then◌else◌,
}
use voyya_backend.Prelude.Int.{ℤ}
use voyya_backend.Trips.Fare.{FareBreakdown}

pub record Point : Type 0 where
  pub lat : ℤ
  pub lng : ℤ

-- The signed part of a quote, less its version and its expiry.
pub record Quote : Type 0 where
  pub municipality_id : ℕ
  pub municipality_fare_id : ℕ
  pub service_type : ℕ
  pub origin : Point
  pub destination : Point
  pub fare : FareBreakdown

pub record QuotePayload : Type 0 where
  pub version : ℕ
  pub quoted : Quote
  -- in seconds
  pub exp : ℕ

pub data QuoteVerification : Type 0 where
  valid : QuotePayload → QuoteVerification
  invalid expired : QuoteVerification

pub record Codec : Type 0 where
  pub encode : QuotePayload → String
  pub decode : String → Option QuotePayload
  pub sign_body : String → String

abbrev pub quote_token_version : ℕ
quote_token_version = 2

unfoldable pub sign : Codec → ℕ → ℕ → Quote → List String
sign codec ttl clock quote =
    let body =
      codec.encode
        (record { version = quote_token_version; quoted = quote; exp = clock / 1000 + ttl }) in
    body ∷ codec.sign_body body ∷ []

abbrev check_payload : ℕ → Option QuotePayload → QuoteVerification
check_payload clock none = invalid
check_payload clock (some payload) =
    if not (payload.version == quote_token_version) || ltb (payload.exp * 1000) clock
    then expired
    else valid payload

unfoldable pub verify : Codec → ℕ → List String → QuoteVerification
verify codec clock (body ∷ signature ∷ []) =
    if not (str_eq signature (codec.sign_body body))
    then invalid
    else check_payload clock (codec.decode body)
verify codec clock _ = invalid

-- The payload of a quote that is signed at an instant.
abbrev pub payload_at : ℕ → ℕ → Quote → QuotePayload
payload_at ttl clock quote = record {
  version = quote_token_version;
  quoted = quote;
  exp = clock / 1000 + ttl;
}

-- Where the codec decodes the signed payload as it was encoded, a signed quote verifies as itself
-- until its time to live has passed, counted from the second in which it was signed, and is expired
-- from then on.
pub verify-sign :
    (codec : Codec) (ttl clock clock' : ℕ) (quote : Quote)
    → codec.decode (codec.encode (payload_at ttl clock quote)) ≡ some (payload_at ttl clock quote)
    → verify codec clock' (sign codec ttl clock quote) ≡ (
        if ltb ((clock / 1000 + ttl) * 1000) clock'
        then expired
        else valid (payload_at ttl clock quote))
unfolding verify sign
verify-sign codec ttl clock clock' quote round =
    let p = payload_at ttl clock quote in
    let e : str_eq (codec.sign_body (codec.encode p)) (codec.sign_body (codec.encode p)) ≡ true =
      (eq_iff _ _).1 refl in
    rw (e, round) refl

checked :
    (clock : ℕ) (read payload : QuotePayload)
    → check_payload clock (some read) ≡ valid payload
    → (read ≡ payload) × (payload.version ≡ 2) × (clock ≤ payload.exp * 1000)
checked clock read payload h =
    elim (Bool-cases (not (read.version == quote_token_version) || ltb (read.exp * 1000) clock)) [
      | inl e ↦ cc (rw e at h)
      | inr e ↦
          let q : valid read ≡ valid payload = rw e at h in
          let p : read ≡ payload = cc in
          subst (λ (x : QuotePayload). (read ≡ x) × (x.version ≡ 2) × (clock ≤ x.exp * 1000)) p
            (refl, ground arith, ground arith)
    ]

-- A token of two parts is accepted only with the body's own signature, and a token of any other
-- number of parts never.
pub verify-valid :
    (codec : Codec) (clock : ℕ) (token : List String) (payload : QuotePayload)
    → verify codec clock token ≡ valid payload
    → (body : String) × (token ≡ body ∷ codec.sign_body body ∷ [])
      × (codec.decode body ≡ some payload)
      × (payload.version ≡ 2)
      × (clock ≤ payload.exp * 1000)
unfolding verify
verify-valid codec clock [] payload h = cc
verify-valid codec clock (a ∷ []) payload h = cc
verify-valid codec clock (a ∷ b ∷ c ∷ rest) payload h = cc
verify-valid codec clock (body ∷ signature ∷ []) payload h =
    elim (Bool-cases (str_eq signature (codec.sign_body body))) [
      | inr e ↦ cc (rw e at h)
      | inl e ↦ elim (Option-cases (codec.decode body)) [
        | inl none_read ↦ cc (rw (e, none_read) at h)
        | inr (read, found) ↦
            let h' : check_payload clock (some read) ≡ valid payload = rw (e, found) at h in
            let (q, version, fresh) = checked clock read payload h' in
            let signed : signature ≡ codec.sign_body body = (eq_iff _ _).0 e in
            (body, ap (λ s. body ∷ s ∷ []) signed, found ∙ ap some q, version, fresh)
      ]
    ]
