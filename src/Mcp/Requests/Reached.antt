-- ===== src/Mcp/Requests/Reached.antt =====
-- How a payload reaches the execution of a tool: from what holds of the state before it and behind
-- each execution that it may ask for, to what holds of the state behind the payload.
use gongcli_mcp.Prelude.{
  String, ◌==◌, ◌≡◌, refl, Bool, true, false, Option, none, some, List, Bool-cases, Option-cases,
  inl, inr, if◌then◌else◌, eq_iff,
}
use gongcli_mcp.Store.{Outcome-cases, ok}
use gongcli_mcp.Text.{is_nil, trim_space}
use gongcli_mcp.Mcp.Server.{Server, is_tool_allowed}
use gongcli_mcp.Mcp.Requests.{
  Request, ToolsCallParams, Answer, Response, Tools, State, Executed, execute_tool, answered,
  call_named, handle_tools_call, handle_method, responded, handle, silenced, handle_request,
  handle_payload,
}

module _ {S : Type 0} (s : Server) (tools : Tools S) where
  -- The payload is a call of this tool, which is in the allowlist.
  pub record Calls (payload : String) (params : ToolsCallParams) : Type 0 where
    pub req : Request
    pub request : tools.decode_request payload ≡ some req
    pub method : req.method ≡ "tools/call"
    pub decoded : tools.decode_call req.params ≡ ok params
    pub allowed : is_tool_allowed s params.name ≡ true

  module _ (Q : State S → Type 0) (st : State S) (before : Q st) where
    if_Q :
        {X : Type 0} (b : Bool) (x y : X × State S)
        → (b ≡ true → Q x.1)
        → Q y.1
        → Q (if b then x else y).1
    if_Q true x y h k = h refl
    if_Q false x y h k = k

    answered-Q : (id : Option String) (x : Executed × State S) → Q x.1 → Q (answered s tools id x).1
    unfolding answered
    answered-Q id (x, st') h = h

    call_named-Q :
        (id : Option String) (params : ToolsCallParams)
        → (is_tool_allowed s params.name ≡ true → Q (execute_tool s tools params st).1)
        → Q (call_named s tools id params st).1
    unfolding call_named
    call_named-Q id params f = elim (Bool-cases (is_nil (trim_space params.name))) [
      | inl blank ↦ rw (blank, call_named) before
      | inr named ↦ elim (Bool-cases (is_tool_allowed s params.name)) [
        | inl allowed ↦ rw (named, allowed, call_named) (answered-Q id _ (f allowed))
        | inr denied ↦ rw (named, denied, call_named) before
      ]
    ]

    responded-Q : (id : Option String) (x : Answer × State S) → Q x.1 → Q (responded s tools id x).1
    unfolding responded
    responded-Q id (answer, st') h = h

    silenced-Q :
        (id : Option String) (x : Option Response × State S) → Q x.1 → Q (silenced s tools id x).1
    unfolding silenced
    silenced-Q none (resp, st') h = h
    silenced-Q (some id) (resp, st') h = h

    module _ (catalog : List String) (payload : String)
        (after : (params : ToolsCallParams)
          → Calls payload params
          → Q (execute_tool s tools params st).1) where
      module _ (req : Request) (request : tools.decode_request payload ≡ some req) where
        handle_tools_call-Q : req.method ≡ "tools/call" → Q (handle_tools_call s tools req st).1
        unfolding handle_tools_call
        handle_tools_call-Q method = elim (Outcome-cases (tools.decode_call req.params)) [
          | inl (e, bad) ↦ rw (bad, handle_tools_call) before
          | inr (params, good) ↦
              rw (good, handle_tools_call)
                (call_named-Q req.id params (λ allowed. after params (record {
                  req = req;
                  request = request;
                  method = method;
                  decoded = good;
                  allowed = allowed;
                })))
        ]

        handle_method-Q : Q (handle_method s tools catalog req st).1
        unfolding handle_method
        handle_method-Q =
            if_Q (req.method == "initialize") _ _ (λ e. before)
              (if_Q (req.method == "tools/list") _ _ (λ e. before)
                (if_Q (req.method == "tools/call") _ _
                  (λ e. handle_tools_call-Q ((eq_iff req.method "tools/call").0 e)) before))

        handle_request-Q : Q (handle_request s tools catalog req st).1
        unfolding handle_request handle
        handle_request-Q =
            if_Q (is_nil req.method) _ _ (λ e. responded-Q req.id _ before)
              (silenced-Q req.id _ (
                if_Q (req.method == "notifications/initialized") _ _ (λ e. before)
                  (responded-Q req.id _ handle_method-Q)))

      pub handle_payload-Q : Q (handle_payload s tools catalog payload st).1
      unfolding handle_payload
      handle_payload-Q = elim (Option-cases (tools.decode_request payload)) [
        | inl bad ↦ rw (bad, handle_payload) (responded-Q none _ before)
        | inr (req, good) ↦ rw (good, handle_payload) (handle_request-Q req good)
      ]
