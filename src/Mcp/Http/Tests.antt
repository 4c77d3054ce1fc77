-- ===== src/Mcp/Http/Tests.antt =====
-- A notification over HTTP.
use gongcli_mcp.Prelude.{ℕ, String, ◌⊎◌, Option, none, some, []}
use gongcli_mcp.Store.{error, ok}
use gongcli_mcp.Mcp.Limits.{default_limit_policy}
use gongcli_mcp.Mcp.Policy.{no_switches}
use gongcli_mcp.Mcp.Server.{Server}
use gongcli_mcp.Mcp.Requests.{Tools, State, Response}
use gongcli_mcp.Mcp.Http.{HttpRequest, serve_http}
use gongcli_mcp.Mcp.Http.Served.{Refuses, Handles, serve_http-Handles}

abbrev open_server : Server
open_server = record {
  limit_policy = default_limit_policy;
  allowed_tool_names = [];
  facade_routed_tool_names = [];
  suppressed_call_ids = [];
  restricted_account_queries = [];
  policy_switches = no_switches;
  blocklist_guard = none;
}

abbrev tools : Tools (Unit {0})
tools = record {
  run = λ w name arguments. (ok name, tt);
  governance_check = none;
  decode_request = λ payload. some (record { id = none; method = payload; params = "" });
  decode_call = λ params. error "no name";
  decode_dispatch = λ raw. error "no operation";
  decode_nothing = λ raw. none;
  wrap_facade_result = λ tool op routed inner. ok inner;
  does_not_fit = λ id text. none;
}

abbrev start : State (Unit {0})
start = record { world = tt; ran = [] }

abbrev byte_length : String → ℕ
byte_length text = 10

abbrev marshal : Response → Option String
marshal resp = some "{}"

abbrev ping : HttpRequest
ping = record { path = "/mcp"; method = "POST"; body = ok "ping" }

serve_http-Handles_example :
    Refuses open_server tools [] byte_length marshal ping start
      (serve_http open_server tools [] byte_length marshal ping start)
    ⊎ Handles open_server tools [] byte_length marshal ping start
        (serve_http open_server tools [] byte_length marshal ping start)
serve_http-Handles_example = serve_http-Handles open_server tools [] byte_length marshal ping start
