-- ===== src/Gong/Client/Attempts.antt =====
-- How often a request is sent, and when the loop gives up.
use gongcli_mcp.Prelude.{
  ℕ, zero, suc, ◌+◌, ◌≤◌, ◌<◌, ◌≡◌, refl, ◌⊎◌, Bool, true, false, ◌&&◌, arith, leb, ltb, nat_eq,
  Bool-cases, inl, inr, Option, none, some,
}
use gongcli_mcp.Gong.Origin.{Url}
use gongcli_mcp.Gong.Client.{
  RoundTrip, no_response, unreadable, response, Done, endpoint_error, cancelled, request_error,
  transport_error, body_error, exhausted, success, http_error, Trip, should_retry, slept, received,
  built, admitted, do_from, do_request,
}

-- Too Many Requests, Bad Gateway, Service Unavailable and Gateway Timeout.
abbrev pub AsksRetry : ℕ → Type 0
AsksRetry status = (status ≡ 429) ⊎ (status ≡ 502) ⊎ (status ≡ 503) ⊎ (status ≡ 504)

-- How a loop that has a URL ends: with an error of the transport, or with a status that asks for a
-- retry, only after every attempt; with a status below 400 as a success, with another as an error.
abbrev pub IsFinal : {W : Type 0} → ℕ → Done × Trip W → Type 0
IsFinal max_retries (endpoint_error, t) = ⊥
IsFinal max_retries (cancelled, t) = t.sent ≤ suc max_retries
IsFinal max_retries (request_error, t) = t.sent ≤ max_retries
IsFinal max_retries (transport_error, t) = t.sent ≡ suc max_retries
IsFinal max_retries (body_error, t) = t.sent ≤ suc max_retries
IsFinal max_retries (exhausted, t) = ⊥
IsFinal max_retries (success status, t) =
    (status < 400) × (AsksRetry status → ⊥) × (t.sent ≤ suc max_retries)
IsFinal max_retries (http_error status, t) =
    (400 ≤ status) × (t.sent ≤ suc max_retries) × (AsksRetry status → t.sent ≡ suc max_retries)

should_retry-AsksRetry : (status : ℕ) → AsksRetry status → should_retry status ≡ true
unfolding should_retry
should_retry-AsksRetry status h = ground arith

-- The attempt that is not repeated for a status that asks for it was the last.
last_of_retry :
    (attempt max_retries status : ℕ)
    → attempt ≤ max_retries
    → (should_retry status && ltb attempt max_retries) ≡ false
    → AsksRetry status
    → suc attempt ≡ suc max_retries
last_of_retry attempt max_retries status valid last h =
    let asks = should_retry-AsksRetry status h in ground arith

-- Without a URL nothing is sent.
abbrev pub Ends : {W : Type 0} → ℕ → Option Url → W → Done × Trip W → Type 0
Ends max_retries none w x = x ≡ (endpoint_error, record { world = w; sent = 0 })
Ends max_retries (some url) w x = IsFinal max_retries x

module _ {W : Type 0} (wait : W → Bool × W) (build : Url → W → Bool × W)
    (send : Url → W → RoundTrip × W) (sleep : ℕ → W → Bool × W) (max_retries : ℕ) where
  module _ (k : Trip W → Done × Trip W) (attempt : ℕ)
      (f : attempt < max_retries → (t : Trip W) → t.sent ≡ suc attempt → IsFinal max_retries (k t))
      (valid : attempt ≤ max_retries) where
    IsFinal-slept :
        (x : Bool × W)
        → attempt < max_retries
        → IsFinal max_retries (slept wait build send sleep max_retries k (suc attempt) x)
    unfolding slept
    IsFinal-slept (true, w) more = f more _ refl
    IsFinal-slept (false, w) more = omega arith

    IsFinal-received :
        (x : RoundTrip × W)
        → IsFinal max_retries (received wait build send sleep max_retries k attempt (suc attempt) x)
    unfolding received
    IsFinal-received (no_response, w) = elim (Bool-cases (nat_eq attempt max_retries)) [
      | inl last ↦ rw last (ground arith)
      | inr more ↦ rw more (IsFinal-slept _ (ground arith))
    ]
    IsFinal-received (unreadable, w) = omega arith
    IsFinal-received (response status after, w) =
        elim (Bool-cases (should_retry status && ltb attempt max_retries)) [
          | inl more ↦ rw more (IsFinal-slept _ (ground arith))
          | inr last ↦ rw last (elim (Bool-cases (leb 400 status)) [
            | inl bad ↦
                rw bad
                  (ground arith, omega arith, last_of_retry attempt max_retries status valid last)
            | inr good ↦ rw good (ground arith, λ h. ground arith, omega arith)
          ])
        ]

    IsFinal-built :
        (url : Url) (x : Bool × W)
        → IsFinal max_retries (built wait build send sleep max_retries k url attempt attempt x)
    unfolding built
    IsFinal-built url (false, w) = omega arith
    IsFinal-built url (true, w) = IsFinal-received (send url w)

    IsFinal-admitted :
        (url : Url) (x : Bool × W)
        → IsFinal max_retries (admitted wait build send sleep max_retries k url attempt attempt x)
    unfolding admitted
    IsFinal-admitted url (false, w) = omega arith
    IsFinal-admitted url (true, w) = IsFinal-built url (build url w)

  IsFinal-do_from :
      (url : Url) (left attempt : ℕ) (t : Trip W)
      → left + attempt ≡ suc max_retries
      → 0 < left
      → t.sent ≡ attempt
      → IsFinal max_retries (do_from wait build send sleep max_retries url left attempt t)
  unfolding do_from
  IsFinal-do_from url zero attempt t total more same = absurd (omega arith)
  IsFinal-do_from url (suc left) attempt t total more same = rw same (
      IsFinal-admitted (do_from wait build send sleep max_retries url left (suc attempt)) attempt
        (λ lt t' same'. IsFinal-do_from url left (suc attempt) t' (omega arith) (omega arith) same')
        (omega arith) url (wait t.world))

-- Whatever the world answers, a request without a URL ends at once, with nothing sent; any other ends
-- inside the loop: with a success below 400 that asks for no retry, an error of the status 400 or
-- above, or an error of the context, of building the request, of the transport or of the body. It
-- sends at most one request more than the retries, no more than the retries where building fails, and
-- gives up on an error of the transport or on a status that asks for a retry only after all of them.
pub do_request-Ends :
    {W : Type 0} (wait : W → Bool × W) (build : Url → W → Bool × W) (send : Url → W → RoundTrip × W)
    (sleep : ℕ → W → Bool × W) (max_retries : ℕ) (url : Option Url) (w : W)
    → Ends max_retries url w (do_request wait build send sleep max_retries url w)
unfolding do_request
do_request-Ends wait build send sleep max_retries none w = refl
do_request-Ends wait build send sleep max_retries (some url) w =
    IsFinal-do_from wait build send sleep max_retries url (suc max_retries) 0 _ (omega arith)
      (omega arith) refl
