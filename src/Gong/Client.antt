-- ===== src/Gong/Client.antt =====
-- The request loop of internal/gong/client.go. The world `W` stands for the limiter, net/http, the
-- clock and the context, which answer each step: `wait` is the limiter's (`true` if there is none),
-- `build` tells whether http.NewRequestWithContext makes a request for the URL, `send` is the round
-- trip and `sleep` the pause. A delay is the 64-bit word of a
-- time.Duration in nanoseconds; a Retry-After header comes as what strconv.Atoi and
-- http.ParseTime make of it.
pub mod Attempts
pub mod Delays
mod Tests
use gongcli_mcp.Prelude.{
  ℕ, zero, suc, ◌+◌, ◌-◌, ◌*◌, ◌%◌, ◌^◌, Bool, true, false, not, ◌&&◌, ◌||◌, Option, none, some,
  leb, ltb, nat_eq, if◌then◌else◌,
}
use gongcli_mcp.Prelude.Int.{ℤ, pos, negsuc}
use gongcli_mcp.Gong.Origin.{Url}

pub data RetryAfter : Type 0 where
  no_header other_text : RetryAfter
  seconds : ℤ → RetryAfter
  date_in : ℤ → RetryAfter

-- What a round trip gives: no response, a body that cannot be read or closed, or a response.
pub data RoundTrip : Type 0 where
  no_response unreadable : RoundTrip
  response : ℕ → RetryAfter → RoundTrip

pub data Done : Type 0 where
  endpoint_error cancelled request_error transport_error body_error exhausted : Done
  success http_error : ℕ → Done

-- The state of the loop: the world and the number of requests that were sent.
pub record Trip (W : Type 0) : Type 0 where
  pub world : W
  pub sent : ℕ

abbrev pub second : ℕ
second = 1000000000

-- The word of an integer.
word : ℤ → ℕ
word (pos n) = n % 2 ^ 64
word (negsuc n) = 2 ^ 64 - 1 - n % 2 ^ 64

-- The comparison of two words, `limit` positive, as signed numbers.
abbrev exceeds_word : ℕ → ℕ → Bool
exceeds_word w limit = ltb w (2 ^ 63) && ltb limit w

-- time.Duration(1<<attempt) * time.Second, 30 seconds at most
pub exponential_backoff : ℕ → ℕ
exponential_backoff attempt =
    let delay = 2 ^ attempt % 2 ^ 64 * second % 2 ^ 64 in
    if exceeds_word delay (30 * second) then 30 * second else delay

pub retry_backoff : RetryAfter → ℕ → ℕ
unfolding word
retry_backoff (seconds n) attempt = word n * second % 2 ^ 64
retry_backoff (date_in (pos n)) attempt =
    if ltb 0 n then word (pos n) else exponential_backoff attempt
retry_backoff after attempt = exponential_backoff attempt

-- 429, 502, 503 and 504
pub should_retry : ℕ → Bool
should_retry status =
    nat_eq status 429 || nat_eq status 502 || nat_eq status 503 || nat_eq status 504

module _ {W : Type 0} (wait : W → Bool × W) (build : Url → W → Bool × W)
    (send : Url → W → RoundTrip × W) (sleep : ℕ → W → Bool × W) (max_retries : ℕ) where
  -- The sleep before another iteration `k`; `false` means that the context is cancelled.
  slept : (Trip W → Done × Trip W) → ℕ → Bool × W → Done × Trip W
  slept k sent (true, w) = k (record { world = w; sent = sent })
  slept k sent (false, w) = (cancelled, record { world = w; sent = sent })

  -- Behind a round trip; `k` is the next iteration.
  received : (Trip W → Done × Trip W) → ℕ → ℕ → RoundTrip × W → Done × Trip W
  received k attempt sent (no_response, w) =
      if nat_eq attempt max_retries
      then (transport_error, record { world = w; sent = sent })
      else slept k sent (sleep (retry_backoff no_header attempt) w)
  received k attempt sent (unreadable, w) = (body_error, record { world = w; sent = sent })
  received k attempt sent (response status after, w) =
      if should_retry status && ltb attempt max_retries
      then slept k sent (sleep (retry_backoff after attempt) w)
      else (
        if leb 400 status then http_error status else success status,
        record { world = w; sent = sent },
      )

  -- Behind http.NewRequestWithContext.
  built : (Trip W → Done × Trip W) → Url → ℕ → ℕ → Bool × W → Done × Trip W
  built k url attempt sent (false, w) = (request_error, record { world = w; sent = sent })
  built k url attempt sent (true, w) = received k attempt (suc sent) (send url w)

  -- Behind the limiter.
  admitted : (Trip W → Done × Trip W) → Url → ℕ → ℕ → Bool × W → Done × Trip W
  admitted k url attempt sent (false, w) = (cancelled, record { world = w; sent = sent })
  admitted k url attempt sent (true, w) = built k url attempt sent (build url w)

  -- The iterations that are left of `for attempt := 0; attempt <= c.maxRetries; attempt++`.
  do_from : Url → ℕ → ℕ → Trip W → Done × Trip W
  do_from url zero attempt t = (exhausted, t)
  do_from url (suc left) attempt t =
      admitted (do_from url left (suc attempt)) url attempt t.sent (wait t.world)

  -- Client.do, for the URL that `endpoint` gives; `none` is its error.
  pub do_request : Option Url → W → Done × Trip W
  do_request none w = (endpoint_error, record { world = w; sent = 0 })
  do_request (some url) w = do_from url (suc max_retries) 0 (record { world = w; sent = 0 })
