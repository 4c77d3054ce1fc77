-- ===== src/Mcp/Requests/Tests.antt =====
-- Runs of requests against a server with an allowlist.
use gongcli_mcp.Prelude.{◌≡◌, refl, none, some, [], ◌∷◌, All}
use gongcli_mcp.Store.{ok}
use gongcli_mcp.Text.{trim_space}
use gongcli_mcp.Mcp.Limits.{default_limit_policy}
use gongcli_mcp.Mcp.Policy.{no_switches}
use gongcli_mcp.Mcp.Server.{Server, is_tool_allowed}
use gongcli_mcp.Mcp.Facade.{facade_operation_by_name, resolve_facade_routed_tool, is_facade_tool}
use gongcli_mcp.Mcp.Requests.{
  Request, Tools, State, tool_answered, handle_payload, handle_request, handle, handle_method,
  handle_tools_call, call_named, answered, answer_of, execute_tool, with_check, execute_checked,
  execute_facade_tool, execute_facade_dispatch, found_operation, routed_operation,
  execute_facade_routed, run_tool, noted, wrapped, responded, silenced,
}
use gongcli_mcp.Mcp.Requests.Allowed.{MayRun, handle_payload-MayRun}
use gongcli_mcp.Mcp.Requests.Answered.{Answers, is_answered, handle_payload-Answers}
use gongcli_mcp.Mcp.Requests.Governed.{IsIdle, handle_payload-IsIdle}

abbrev facade_server : Server
facade_server = record {
  limit_policy = default_limit_policy;
  allowed_tool_names = "gong_query" ∷ [];
  facade_routed_tool_names = "search_calls" ∷ [];
  suppressed_call_ids = [];
  restricted_account_queries = [];
  policy_switches = no_switches;
  blocklist_guard = none;
}

abbrev call : Request
call = record { id = some "7"; method = "tools/call"; params = "query.calls" }

abbrev tools : Tools (Unit {0})
tools = record {
  run = λ w name arguments. (ok name, tt);
  governance_check = none;
  decode_request = λ payload. some call;
  decode_call = λ params. ok (record { name = "gong_query"; arguments = params });
  decode_dispatch = λ raw. ok (record { operation = raw; arguments = "" });
  decode_nothing = λ raw. none;
  wrap_facade_result = λ tool op routed inner. ok inner;
  does_not_fit = λ id text. none;
}

abbrev start : State (Unit {0})
start = record { world = tt; ran = [] }

-- The facade falls back on the tool that it may route to.
routed_run : handle_payload facade_server tools [] "{}" start ≡ (
  some (record { id = some "7"; answer = tool_answered "search_calls" }),
  record { world = tt; ran = "search_calls" ∷ [] },
)
unfolding handle_payload handle_request handle handle_method handle_tools_call call_named answered
    answer_of execute_tool with_check execute_checked execute_facade_tool execute_facade_dispatch
    found_operation routed_operation execute_facade_routed run_tool noted wrapped responded silenced
    facade_operation_by_name resolve_facade_routed_tool is_facade_tool is_tool_allowed trim_space
routed_run = refl

handle_payload-MayRun_example :
    All (MayRun facade_server tools "{}") (handle_payload facade_server tools [] "{}" start).1.ran
handle_payload-MayRun_example = handle_payload-MayRun facade_server tools [] "{}" tt

handle_payload-Answers_example :
    Answers call (is_answered call) (handle_payload facade_server tools [] "{}" start).0
handle_payload-Answers_example = handle_payload-Answers facade_server tools [] "{}" start call refl

abbrev stale_tools : Tools (Unit {0})
stale_tools = record tools { governance_check = some (λ w. (some "stale", w)) }

handle_payload-IsIdle_example :
    IsIdle (λ w. (some "stale", w)) start (handle_payload facade_server stale_tools [] "{}" start).1
handle_payload-IsIdle_example =
    handle_payload-IsIdle facade_server stale_tools [] "{}" start (λ w. (some "stale", w)) "stale"
      refl refl
