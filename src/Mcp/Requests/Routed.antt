-- ===== src/Mcp/Requests/Routed.antt =====
-- What the facade runs for a call.
use gongcli_mcp.Prelude.{
  String, ◌==◌, ◌≡◌, refl, sym, true, false, not, ◌&&◌, ◌⊎◌, Option, none, some, All, arith, eq_iff,
  Bool-cases, Option-cases, inl, inr,
}
use gongcli_mcp.Store.{Outcome, error, ok}
use gongcli_mcp.Text.{is_nil}
use gongcli_mcp.Mcp.Server.{Server}
use gongcli_mcp.Mcp.Facade.{
  FacadeOperation, is_facade_tool, is_facade_routed_tool_allowed, resolve_facade_routed_tool,
}
use gongcli_mcp.Mcp.Requests.{
  FacadeDispatchArgs, Tools, State, Executed, executed, refused, not_wrapped, noted, run_tool,
  execute_facade_routed, wrapped, routed_operation, found_operation, explained_operation,
}

-- The tool is the one that the operation routes to, or its fallback where that one may not be used;
-- the facade may route to it, and it is no facade tool.
abbrev pub Routes : Server → FacadeOperation → String → Type 0
Routes s op name =
    ((name ≡ op.routed_tool)
      ⊎ ((name ≡ op.routed_fallback) × (is_facade_routed_tool_allowed s op.routed_tool ≡ false)))
    × (is_facade_routed_tool_allowed s name ≡ true)
    × (is_facade_tool name ≡ false)

some-text : (a b : String) → some a ≡ some b → a ≡ b
some-text a b e = ground arith

resolve-Routes :
    (s : Server) (op : FacadeOperation) (routed : String)
    → resolve_facade_routed_tool s op ≡ some routed
    → is_facade_tool routed ≡ false
    → Routes s op routed
unfolding resolve_facade_routed_tool
resolve-Routes s op routed e plain =
    elim (Bool-cases (is_facade_routed_tool_allowed s op.routed_tool)) [
      | inl first ↦
          let same =
            some-text op.routed_tool routed (rw (first, resolve_facade_routed_tool) at e) in
          (inl (sym same), rw (← same) first, plain)
      | inr other ↦
          elim (Bool-cases (
            not (is_nil op.routed_fallback)
            && is_facade_routed_tool_allowed s op.routed_fallback)) [
              | inl second ↦
                  let same =
                    some-text op.routed_fallback routed
                      (rw (other, second, resolve_facade_routed_tool) at e) in
                  (inr (sym same, other), rw (← same) (ground arith), plain)
              | inr neither ↦ let no = rw (other, neither, resolve_facade_routed_tool) at e in cc
            ]
    ]

module _ {S : Type 0} (s : Server) (tools : Tools S) (P : String → Type 0) where
  abbrev pub Ran : State S → Type 0
  Ran st = All P st.ran

  noted-Ran :
      (name : String) (st : State S) (x : Outcome String × S)
      → P name
      → Ran st
      → Ran (noted s tools name st x).1
  unfolding noted
  noted-Ran name st (error e, w) may h = (may, h)
  noted-Ran name st (ok text, w) may h = (may, h)

  pub run_tool-Ran :
      (name arguments : String) (st : State S)
      → P name
      → Ran st
      → Ran (run_tool s tools name arguments st).1
  unfolding run_tool
  run_tool-Ran name arguments st may h = noted-Ran name st _ may h

  execute_facade_routed-Ran :
      (name arguments : String) (st : State S)
      → (is_facade_tool name ≡ false → P name)
      → Ran st
      → Ran (execute_facade_routed s tools name arguments st).1
  unfolding execute_facade_routed
  execute_facade_routed-Ran name arguments st may h = elim (Bool-cases (is_facade_tool name)) [
    | inl nested ↦ rw (nested, execute_facade_routed, All) h
    | inr plain ↦
        rw (plain, execute_facade_routed, All) (run_tool-Ran name arguments st (may plain) h)
  ]

  wrapped-Ran :
      (tool : String) (op : FacadeOperation) (routed : String) (x : Executed × State S)
      → Ran x.1
      → Ran (wrapped s tools tool op routed x).1
  unfolding wrapped
  wrapped-Ran tool op routed (refused e, st) h = h
  wrapped-Ran tool op routed (executed inner, st) h =
      step (tools.wrap_facade_result tool op routed inner)
    where
      step :
          (o : Outcome String)
          → All P
              (elim o as (λ x. Executed × State S) [
                | error e ↦ (refused (not_wrapped e), st)
                | ok text ↦ (executed text, st)
              ]).1.ran
      step (error e) = h
      step (ok text) = h

  pub routed_operation-Ran :
      (tool : String) (op : FacadeOperation) (arguments : String) (st : State S)
      → ((name : String) → Routes s op name → P name)
      → Ran st
      → Ran (routed_operation s tools tool op arguments st).1
  unfolding routed_operation
  routed_operation-Ran tool op arguments st may h =
      elim (Option-cases (resolve_facade_routed_tool s op)) [
        | inl missing ↦ rw (missing, routed_operation, All) h
        | inr (routed, found) ↦
            rw (found, routed_operation, All)
              (wrapped-Ran tool op routed _ (
                execute_facade_routed-Ran routed arguments st
                  (λ plain. may routed (resolve-Routes s op routed found plain)) h))
      ]

  pub found_operation-Ran :
      (tool : String) (args : FacadeDispatchArgs) (o : Option FacadeOperation) (st : State S)
      → ((op : FacadeOperation) (name : String)
          → o ≡ some op
          → op.facade_tool ≡ tool
          → Routes s op name
          → P name)
      → Ran st
      → Ran (found_operation s tools tool args o st).1
  unfolding found_operation
  found_operation-Ran tool args none st may h = h
  found_operation-Ran tool args (some op) st may h = elim (Bool-cases (op.facade_tool == tool)) [
    | inl same ↦
        rw (same, found_operation, All)
          (routed_operation-Ran tool op args.arguments st
            (λ name r. may op name refl ((eq_iff op.facade_tool tool).0 same) r) h)
    | inr other ↦ rw (other, found_operation, All) h
  ]

  pub explained_operation-Ran :
      (args : FacadeDispatchArgs) (o : Option FacadeOperation) (st : State S)
      → ((op : FacadeOperation) (name : String)
          → o ≡ some op
          → (op.facade_tool ≡ "gong_explain_limitations")
            ⊎ (op.name ≡ "analyze.limitations.explain")
          → Routes s op name
          → P name)
      → Ran st
      → Ran (explained_operation s tools args o st).1
  unfolding explained_operation
  explained_operation-Ran args none st may h = h
  explained_operation-Ran args (some op) st may h =
      elim (Bool-cases (
        not (op.facade_tool == "gong_explain_limitations")
        && not (op.name == "analyze.limitations.explain"))) [
          | inl wrong ↦ rw (wrong, explained_operation, All) h
          | inr right ↦
              let fits : (op.facade_tool ≡ "gong_explain_limitations")
                  ⊎ (op.name ≡ "analyze.limitations.explain") =
                ground (
                  arith,
                  eq_iff op.facade_tool "gong_explain_limitations",
                  eq_iff op.name "analyze.limitations.explain",
                ) in
              rw (right, explained_operation, All)
                (routed_operation-Ran "gong_explain_limitations" op args.arguments st
                  (λ name r. may op name refl fits r) h)
        ]
