-- ===== src/Mcp/Requests/Allowed.antt =====
-- Which tools a payload can run.
use gongcli_mcp.Prelude.{
  String, ◌==◌, ◌≡◌, refl, sym, true, ◌⊎◌, Option, none, some, List, [], ◌∷◌, All, Bool-cases,
  Option-cases, inl, inr, eq_iff,
}
use gongcli_mcp.Store.{ok, Outcome-cases}
use gongcli_mcp.Text.{is_nil, trim_space}
use gongcli_mcp.Mcp.Server.{Server}
use gongcli_mcp.Mcp.Facade.{FacadeOperation, is_facade_tool, facade_operation_by_name}
use gongcli_mcp.Mcp.Facade.Found.{IsOperation, facade_operation_by_name-IsOperation}
use gongcli_mcp.Mcp.Requests.{
  ToolsCallParams, FacadeDispatchArgs, Tools, State, execute_facade_dispatch, execute_facade_status,
  execute_facade_explain_limitations, execute_facade_tool, execute_checked, after_check, with_check,
  execute_tool, handle_payload,
}
use gongcli_mcp.Mcp.Requests.Routed.{
  Routes, run_tool-Ran, routed_operation-Ran, found_operation-Ran, explained_operation-Ran,
}
use gongcli_mcp.Mcp.Requests.Reached.{Calls, handle_payload-Q}

module _ {S : Type 0} (s : Server) (tools : Tools S) where
  -- The operation is one of the facade tool's own; the tool for limitations may also explain them for
  -- another.
  abbrev pub Fits : ToolsCallParams → FacadeOperation → Type 0
  Fits params op =
      (op.facade_tool ≡ params.name)
      ⊎ ((params.name ≡ "gong_explain_limitations") × (op.name ≡ "analyze.limitations.explain"))

  -- The call of a facade tool asks for the operation: that of the status tool is fixed, and another
  -- is named by the arguments and fits the tool.
  abbrev pub AsksFor : ToolsCallParams → FacadeOperation → Type 0
  AsksFor params op =
      ((params.name ≡ "gong_status") × IsOperation "status.sync" op)
      ⊎ ((args : FacadeDispatchArgs) × (tools.decode_dispatch params.arguments ≡ ok args)
          × IsOperation args.operation op
          × Fits params op)

  -- The call is one of this tool itself, or of a facade tool for an operation that routes to it.
  abbrev pub RunsFor : ToolsCallParams → String → Type 0
  RunsFor params name =
      (name ≡ params.name)
      ⊎ ((op : FacadeOperation) × (is_facade_tool params.name ≡ true)
          × AsksFor params op
          × Routes s op name)

  -- The payload calls a tool of the allowlist, and this tool runs for that call.
  abbrev pub MayRun : String → String → Type 0
  MayRun payload name =
      (params : ToolsCallParams) × Calls s tools payload params × RunsFor params name

  module _ (params : ToolsCallParams) where
    abbrev RanFor : State S → Type 0
    RanFor st = All (RunsFor params) st.ran

    module _ (facade : is_facade_tool params.name ≡ true) where
      execute_facade_dispatch-RanFor :
          (st : State S)
          → RanFor st
          → RanFor (execute_facade_dispatch s tools params.name params.arguments st).1
      unfolding execute_facade_dispatch
      execute_facade_dispatch-RanFor st h =
          elim (Outcome-cases (tools.decode_dispatch params.arguments)) [
            | inl (e, bad) ↦ rw (bad, execute_facade_dispatch, All) h
            | inr (args, good) ↦ elim (Bool-cases (is_nil (trim_space args.operation))) [
              | inl blank ↦ rw (good, blank, execute_facade_dispatch, All) h
              | inr named ↦
                  rw (good, named, execute_facade_dispatch, All)
                    (found_operation-Ran s tools (RunsFor params) params.name args _ st
                      (λ op name found own r. inr (
                        op,
                        facade,
                        inr (args, good, facade_operation_by_name-IsOperation _ op found, inl own),
                        r,
                      ))
                      h)
            ]
          ]

      execute_facade_status-RanFor :
          (st : State S)
          → params.name ≡ "gong_status"
          → RanFor st
          → RanFor (execute_facade_status s tools params.arguments st).1
      unfolding execute_facade_status
      execute_facade_status-RanFor st status h =
          elim (Option-cases (tools.decode_nothing params.arguments)) [
            | inr (e, bad) ↦ rw (bad, execute_facade_status, All) h
            | inl good ↦ elim (Option-cases (facade_operation_by_name "status.sync")) [
              | inl missing ↦ rw (good, missing, execute_facade_status, All) h
              | inr (op, found) ↦
                  rw (good, found, execute_facade_status, All)
                    (routed_operation-Ran s tools (RunsFor params) "gong_status" op "" st
                      (λ name r. inr (
                        op,
                        facade,
                        inl (status, facade_operation_by_name-IsOperation _ op found),
                        r,
                      ))
                      h)
            ]
          ]

      execute_facade_explain_limitations-RanFor :
          (st : State S)
          → params.name ≡ "gong_explain_limitations"
          → RanFor st
          → RanFor (execute_facade_explain_limitations s tools params.arguments st).1
      unfolding execute_facade_explain_limitations
      execute_facade_explain_limitations-RanFor st explain h =
          elim (Outcome-cases (tools.decode_dispatch params.arguments)) [
            | inl (e, bad) ↦ rw (bad, execute_facade_explain_limitations, All) h
            | inr (args, good) ↦ elim (Bool-cases (is_nil (trim_space args.operation))) [
              | inl blank ↦
                  rw (good, blank, execute_facade_explain_limitations, All)
                    (run_tool-Ran s tools (RunsFor params) "gong_explain_limitations"
                      params.arguments st (inl (sym explain)) h)
              | inr named ↦
                  rw (good, named, execute_facade_explain_limitations, All)
                    (explained_operation-Ran s tools (RunsFor params) args _ st
                      (λ op name found own r. inr (
                        op,
                        facade,
                        inr (
                          args,
                          good,
                          facade_operation_by_name-IsOperation _ op found,
                          elim own [
                            | inl tool ↦ inl (rw explain tool)
                            | inr other ↦ inr (explain, other)
                          ],
                        ),
                        r,
                      ))
                      h)
            ]
          ]

      execute_facade_tool-RanFor :
          (st : State S) → RanFor st → RanFor (execute_facade_tool s tools params st).1
      unfolding execute_facade_tool
      execute_facade_tool-RanFor st h = elim (Bool-cases (params.name == "gong_status")) [
        | inl status ↦
            rw (status, execute_facade_tool, All)
              (execute_facade_status-RanFor st ((eq_iff params.name "gong_status").0 status) h)
        | inr not_status ↦ elim (Bool-cases (params.name == "gong_discover_capabilities")) [
          | inl discover ↦
              rw (not_status, discover, execute_facade_tool, All)
                (run_tool-Ran s tools (RunsFor params) params.name params.arguments st (inl refl) h)
          | inr not_discover ↦ elim (Bool-cases (params.name == "gong_explain_limitations")) [
            | inl explain ↦
                rw (not_status, not_discover, explain, execute_facade_tool, All)
                  (execute_facade_explain_limitations-RanFor st
                    ((eq_iff params.name "gong_explain_limitations").0 explain) h)
            | inr not_explain ↦
                rw (not_status, not_discover, not_explain, execute_facade_tool, All)
                  (execute_facade_dispatch-RanFor st h)
          ]
        ]
      ]

    execute_checked-RanFor :
        (st : State S) → RanFor st → RanFor (execute_checked s tools params st).1
    unfolding execute_checked
    execute_checked-RanFor st h = elim (Bool-cases (is_facade_tool params.name)) [
      | inl facade ↦ rw (facade, execute_checked, All) (execute_facade_tool-RanFor facade st h)
      | inr plain ↦
          rw (plain, execute_checked, All)
            (run_tool-Ran s tools (RunsFor params) params.name params.arguments st (inl refl) h)
    ]

    after_check-RanFor :
        (st : State S) (x : Option String × S)
        → RanFor st
        → RanFor (after_check s tools params st x).1
    unfolding after_check
    after_check-RanFor st (some e, w) h = h
    after_check-RanFor st (none, w) h = execute_checked-RanFor (record st { world = w }) h

    execute_tool-RanFor :
        (st : State S) (check : Option (S → Option String × S))
        → RanFor st
        → RanFor (with_check s tools params st check).1
    unfolding with_check
    execute_tool-RanFor st none h = execute_checked-RanFor st h
    execute_tool-RanFor st (some check) h = after_check-RanFor st (check st.world) h

  MayRun-All :
      (payload : String) (params : ToolsCallParams) (names : List String)
      → Calls s tools payload params
      → All (RunsFor params) names
      → All (MayRun payload) names
  MayRun-All payload params [] calls h = tt
  MayRun-All payload params (name ∷ names) calls h =
      ((params, calls, h.0), MayRun-All payload params names calls h.1)

-- Whatever a payload holds and the tools answer, a tool runs for it only if it is a request with the
-- method tools/call for a tool in the allowlist, and that tool is the one that runs, or is a facade
-- tool that the request asks for an operation of its own (gong_explain_limitations also for the
-- operation analyze.limitations.explain) that routes to it; the tool is then no facade tool, and one
-- that the facade may route to.
pub handle_payload-MayRun :
    {S : Type 0} (s : Server) (tools : Tools S) (catalog : List String) (payload : String) (w : S)
    → All
        (MayRun s tools payload)
        (handle_payload s tools catalog payload (record { world = w; ran = [] })).1.ran
unfolding execute_tool
handle_payload-MayRun s tools catalog payload w =
    handle_payload-Q s tools (λ st. All (MayRun s tools payload) st.ran) _ tt catalog payload
      (λ params calls.
        MayRun-All s tools payload params _ calls
          (execute_tool-RanFor s tools params _ tools.governance_check tt))
