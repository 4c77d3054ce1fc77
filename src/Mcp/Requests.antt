-- ===== src/Mcp/Requests.antt =====
-- The requests of internal/mcp/server.go: from a payload to its response. The bodies of the tools,
-- the decoders, the check on the size of a result and the governance check are parameters; the model
-- keeps the names of the tools that it runs, the latest first. An error of a tool is its kind, without
-- the advice that its text gives.
pub mod Routed
pub mod Reached
pub mod Allowed
pub mod Governed
pub mod Answered
mod Tests
use gongcli_mcp.Prelude.{
  ℕ, String, ◌==◌, Bool, true, false, not, ◌&&◌, Option, none, some, List, [], ◌∷◌, if◌then◌else◌,
}
use gongcli_mcp.Prelude.Int.{ℤ, negsuc}
use gongcli_mcp.Store.{Outcome, error, ok}
use gongcli_mcp.Text.{is_nil, trim_space}
use gongcli_mcp.Mcp.Server.{Server, is_tool_allowed}
use gongcli_mcp.Mcp.Facade.{
  FacadeOperation, is_facade_tool, facade_operation_by_name, resolve_facade_routed_tool,
}

-- An id is its JSON text; a request without one, or with null, is a notification.
pub record Request : Type 0 where
  pub id : Option String
  pub method : String
  pub params : String

pub record ToolsCallParams : Type 0 where
  pub name : String
  pub arguments : String

-- facadeDispatchArgs
pub record FacadeDispatchArgs : Type 0 where
  pub operation : String
  pub arguments : String

pub data ToolError : Type 0 where
  not_available no_operation : ToolError
  governance_failed bad_arguments tool_failed too_large not_wrapped : String → ToolError
  unknown_operation wrong_facade_tool no_routed_tool facade_routed : String → ToolError

pub data Answer : Type 0 where
  initialized : Answer
  tools_listed : List String → Answer
  tool_answered : String → Answer
  tool_refused : ToolError → Answer
  failure : ℤ → String → Answer

pub record Response : Type 0 where
  pub id : Option String
  pub answer : Answer

pub record Tools (S : Type 0) : Type 0 where
  pub run : S → String → String → Outcome String × S
  pub governance_check : Option (S → Option String × S)
  pub decode_request : String → Option Request
  pub decode_call : String → Outcome ToolsCallParams
  pub decode_dispatch : String → Outcome FacadeDispatchArgs
  -- decodeArgs into an empty struct
  pub decode_nothing : String → Option String
  pub wrap_facade_result : String → FacadeOperation → String → String → Outcome String
  -- ensureToolResultFits
  pub does_not_fit : Option String → String → Option String

pub record State (S : Type 0) : Type 0 where
  pub world : S
  pub ran : List String

pub data Executed : Type 0 where
  executed : String → Executed
  refused : ToolError → Executed

module _ {S : Type 0} (s : Server) (tools : Tools S) where
  noted : String → State S → Outcome String × S → Executed × State S
  noted name st (error e, w) =
      (refused (tool_failed e), record st { world = w; ran = name ∷ st.ran })
  noted name st (ok text, w) = (executed text, record st { world = w; ran = name ∷ st.ran })

  -- One tool's own code.
  pub run_tool : String → String → State S → Executed × State S
  run_tool name arguments st = noted name st (tools.run st.world name arguments)

  -- executeFacadeRouted
  execute_facade_routed : String → String → State S → Executed × State S
  execute_facade_routed name arguments st =
      if is_facade_tool name then (refused (facade_routed name), st) else run_tool name arguments st

  wrapped : String → FacadeOperation → String → Executed × State S → Executed × State S
  wrapped facade_tool op routed (refused e, st) = (refused e, st)
  wrapped facade_tool op routed (executed inner, st) =
      elim (tools.wrap_facade_result facade_tool op routed inner) [
        | error e ↦ (refused (not_wrapped e), st)
        | ok text ↦ (executed text, st)
      ]

  -- From the operation on: the routed tool, its code, and the wrapping of its result.
  pub routed_operation : String → FacadeOperation → String → State S → Executed × State S
  routed_operation facade_tool op arguments st = elim (resolve_facade_routed_tool s op) [
    | none ↦ (refused (no_routed_tool op.name), st)
    | some routed ↦ wrapped facade_tool op routed (execute_facade_routed routed arguments st)
  ]

  pub found_operation :
      String → FacadeDispatchArgs → Option FacadeOperation → State S → Executed × State S
  found_operation facade_tool args none st = (refused (unknown_operation args.operation), st)
  found_operation facade_tool args (some op) st =
      if op.facade_tool == facade_tool
      then routed_operation facade_tool op args.arguments st
      else (refused (wrong_facade_tool op.name), st)

  -- executeFacadeDispatch
  execute_facade_dispatch : String → String → State S → Executed × State S
  execute_facade_dispatch facade_tool raw st = elim (tools.decode_dispatch raw) [
    | error e ↦ (refused (bad_arguments e), st)
    | ok args ↦
        if is_nil (trim_space args.operation)
        then (refused no_operation, st)
        else found_operation facade_tool args (facade_operation_by_name args.operation) st
  ]

  -- executeFacadeStatus
  execute_facade_status : String → State S → Executed × State S
  execute_facade_status raw st = elim (tools.decode_nothing raw) [
    | some e ↦ (refused (bad_arguments e), st)
    | none ↦ elim (facade_operation_by_name "status.sync") [
      | none ↦ (refused (unknown_operation "status.sync"), st)
      | some op ↦ routed_operation "gong_status" op "" st
    ]
  ]

  pub explained_operation :
      FacadeDispatchArgs → Option FacadeOperation → State S → Executed × State S
  explained_operation args none st = (refused (unknown_operation args.operation), st)
  explained_operation args (some op) st =
      if not (op.facade_tool == "gong_explain_limitations")
        && not (op.name == "analyze.limitations.explain")
      then (refused (wrong_facade_tool op.name), st)
      else routed_operation "gong_explain_limitations" op args.arguments st

  -- executeFacadeExplainLimitations; without an operation the tool answers itself.
  execute_facade_explain_limitations : String → State S → Executed × State S
  execute_facade_explain_limitations raw st = elim (tools.decode_dispatch raw) [
    | error e ↦ (refused (bad_arguments e), st)
    | ok args ↦
        if is_nil (trim_space args.operation)
        then run_tool "gong_explain_limitations" raw st
        else explained_operation args (facade_operation_by_name args.operation) st
  ]

  -- executeFacadeTool, on a name that is a facade tool's.
  execute_facade_tool : ToolsCallParams → State S → Executed × State S
  execute_facade_tool params st =
      if params.name == "gong_status"
      then execute_facade_status params.arguments st
      else if params.name == "gong_discover_capabilities"
      then run_tool params.name params.arguments st
      else if params.name == "gong_explain_limitations"
      then execute_facade_explain_limitations params.arguments st
      else execute_facade_dispatch params.name params.arguments st

  -- executeTool behind the governance check.
  execute_checked : ToolsCallParams → State S → Executed × State S
  execute_checked params st =
      if is_facade_tool params.name
      then execute_facade_tool params st
      else run_tool params.name params.arguments st

  after_check : ToolsCallParams → State S → Option String × S → Executed × State S
  after_check params st (some e, w) = (refused (governance_failed e), record st { world = w })
  after_check params st (none, w) = execute_checked params (record st { world = w })

  with_check : ToolsCallParams → State S → Option (S → Option String × S) → Executed × State S
  with_check params st none = execute_checked params st
  with_check params st (some check) = after_check params st (check st.world)

  -- executeTool
  pub execute_tool : ToolsCallParams → State S → Executed × State S
  execute_tool params st = with_check params st tools.governance_check

  answer_of : Option String → Executed → Answer
  answer_of id (refused e) = tool_refused e
  answer_of id (executed text) = elim (tools.does_not_fit id text) [
    | none ↦ tool_answered text
    | some e ↦ tool_refused (too_large e)
  ]

  answered : Option String → Executed × State S → Answer × State S
  answered id (x, st) = (answer_of id x, st)

  call_named : Option String → ToolsCallParams → State S → Answer × State S
  call_named id params st =
      if is_nil (trim_space params.name)
      then (failure (negsuc 32601) "tool name is required", st)
      else if not (is_tool_allowed s params.name)
      then (tool_refused not_available, st)
      else answered id (execute_tool params st)

  -- handleToolsCall
  pub handle_tools_call : Request → State S → Answer × State S
  handle_tools_call req st = elim (tools.decode_call req.params) [
    | error e ↦ (failure (negsuc 32601) e, st)
    | ok params ↦ call_named req.id params st
  ]

  -- The filter of NewServerWithOptions over the catalog of tools.
  listed_tools : List String → List String
  listed_tools [] = []
  listed_tools (name ∷ names) =
      let rest = listed_tools names in if is_tool_allowed s name then name ∷ rest else rest

  -- Handle, on every method but notifications/initialized, which has no response.
  handle_method : List String → Request → State S → Answer × State S
  handle_method catalog req st =
      if req.method == "initialize"
      then (initialized, st)
      else if req.method == "tools/list"
      then (tools_listed (listed_tools catalog), st)
      else if req.method == "tools/call"
      then handle_tools_call req st
      else (failure (negsuc 32600) "method not found", st)

  responded : Option String → Answer × State S → Option Response × State S
  responded id (answer, st) = (some (record { id = id; answer = answer }), st)

  handle : List String → Request → State S → Option Response × State S
  handle catalog req st =
      if req.method == "notifications/initialized"
      then (none, st)
      else responded req.id (handle_method catalog req st)

  -- A request without an id gets no response.
  silenced : Option String → Option Response × State S → Option Response × State S
  silenced none (resp, st) = (none, st)
  silenced (some id) (resp, st) = (resp, st)

  handle_request : List String → Request → State S → Option Response × State S
  handle_request catalog req st =
      if is_nil req.method
      then responded req.id (failure (negsuc 32599) "method is required", st)
      else silenced req.id (handle catalog req st)

  -- handlePayload
  pub handle_payload : List String → String → State S → Option Response × State S
  handle_payload catalog payload st = elim (tools.decode_request payload) [
    | none ↦ responded none (failure (negsuc 32699) "parse error", st)
    | some req ↦ handle_request catalog req st
  ]
