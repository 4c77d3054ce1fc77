-- ===== src/Mcp/Requests/Governed.antt =====
-- What a failing governance check does.
use gongcli_mcp.Prelude.{String, ◌≡◌, refl, ap, subst, sym, ◌⊎◌, Option, none, some, List, inl, inr}
use gongcli_mcp.Mcp.Server.{Server}
use gongcli_mcp.Mcp.Requests.{
  ToolsCallParams, Tools, State, after_check, with_check, execute_tool, handle_payload,
}
use gongcli_mcp.Mcp.Requests.Reached.{handle_payload-Q}

-- No tool ran, and nothing but the check moved the world.
abbrev pub IsIdle : {S : Type 0} → (S → Option String × S) → State S → State S → Type 0
IsIdle check st st' =
    (st'.ran ≡ st.ran) × ((st'.world ≡ st.world) ⊎ (st'.world ≡ (check st.world).1))

module _ {S : Type 0} (s : Server) (tools : Tools S) (check : S → Option String × S) (st : State S)
    (e : String) where
  after_check-IsIdle :
      (params : ToolsCallParams) (x : Option String × S)
      → x ≡ check st.world
      → x.0 ≡ some e
      → IsIdle check st (after_check s tools params st x).1
  unfolding after_check
  after_check-IsIdle params (none, w) same h = cc
  after_check-IsIdle params (some f, w) same h = (refl, inr (ap (λ y. y.1) same))

  execute_tool-IsIdle :
      (params : ToolsCallParams)
      → tools.governance_check ≡ some check
      → (check st.world).0 ≡ some e
      → IsIdle check st (execute_tool s tools params st).1
  unfolding execute_tool with_check
  execute_tool-IsIdle params given h =
      subst (λ c. IsIdle check st (with_check s tools params st c).1) (sym given)
        (after_check-IsIdle params (check st.world) refl h)

-- While the governance check fails, no tool runs, whatever the payload: nothing is added to the names
-- of the tools that ran, and the world is as before or as the check left it.
pub handle_payload-IsIdle :
    {S : Type 0} (s : Server) (tools : Tools S) (catalog : List String) (payload : String)
    (st : State S) (check : S → Option String × S) (e : String)
    → tools.governance_check ≡ some check
    → (check st.world).0 ≡ some e
    → IsIdle check st (handle_payload s tools catalog payload st).1
handle_payload-IsIdle s tools catalog payload st check e given fails =
    handle_payload-Q s tools (IsIdle check st) st (refl, inl refl) catalog payload
      (λ params calls. execute_tool-IsIdle s tools check st e params given fails)
