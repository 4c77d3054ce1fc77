-- ===== src/Gong/Client/Tests.antt =====
-- Runs of the request loop and of the delays.
use gongcli_mcp.Prelude.{arith, ℕ, suc, ◌*◌, ◌≡◌, refl, true, some, nat_eq, if◌then◌else◌}
use gongcli_mcp.Prelude.Int.{pos}
use gongcli_mcp.Gong.Client.{
  RoundTrip, response, no_header, other_text, seconds, second, exponential_backoff, retry_backoff,
  do_request, do_from, admitted, built, received, slept, should_retry, success,
}
use gongcli_mcp.Gong.Client.Delays.{capped_seconds, retry_backoff-capped}
use gongcli_mcp.Gong.Client.Attempts.{Ends, do_request-Ends}
use gongcli_mcp.Gong.Origin.{Url}

-- A world that is a clock: busy until the third request.
abbrev send : Url → ℕ → RoundTrip × ℕ
send url n = (response (if nat_eq n 2 then 200 else 429) (seconds (pos 3)), suc n)

abbrev calls_url : Url
calls_url = record {
  scheme = "https";
  hostname = "api.gong.io";
  port = "";
  path = "/v2/calls";
  raw_query = "";
  rest = "";
}

do_request_run :
    do_request
      (λ w. (true, w))
      (λ url w. (true, w))
      send
      (λ delay w. (true, w))
      4
      (some calls_url)
      0
    ≡ (success 200, record { world = 3; sent = 3 })
unfolding do_request do_from admitted built received slept should_retry
do_request_run = refl

do_request-Ends_example : Ends 4 (some calls_url) 0 (
    do_request
      (λ w. (true, w))
      (λ url w. (true, w))
      send
      (λ delay w. (true, w))
      4
      (some calls_url)
      0)
do_request-Ends_example =
    do_request-Ends (λ w. (true, w)) (λ url w. (true, w)) send (λ delay w. (true, w)) 4
      (some calls_url) 0

third_delay_run : retry_backoff other_text 3 ≡ 8 * second
unfolding retry_backoff exponential_backoff
third_delay_run = refl

capped_run : exponential_backoff 33 ≡ 30 * second
unfolding exponential_backoff
capped_run = refl

retry_backoff-capped_example : retry_backoff no_header 7 ≡ capped_seconds 7
retry_backoff-capped_example = retry_backoff-capped 7 (omega arith)

-- The multiplication overflows: no delay at all is left.
overflow_run : exponential_backoff 55 ≡ 0
unfolding exponential_backoff
overflow_run = refl
