-- ===== src/Mcp/Server/Tests.antt =====
-- Runs of the options of a server.
use gongcli_mcp.Prelude.{◌≡◌, ◌↔◌, true, none, [], ◌∷◌, Any}
use gongcli_mcp.Text.{trim_space}
use gongcli_mcp.Text.Ascii.{ascii}
use gongcli_mcp.Governance.Name.{normalize_name}
use gongcli_mcp.Mcp.Limits.{default_limit_policy}
use gongcli_mcp.Mcp.Policy.{no_switches}
use gongcli_mcp.Mcp.Server.{
  Server, with_suppressed_call_ids, with_restricted_account_query_terms, is_suppressed_call,
  restricted_account_query,
}
use gongcli_mcp.Mcp.Server.Restricted.{Gives, restricted_account_query_iff, is_suppressed_call_iff}

abbrev bare : Server
bare = record {
  limit_policy = default_limit_policy;
  allowed_tool_names = [];
  facade_routed_tool_names = [];
  suppressed_call_ids = [];
  restricted_account_queries = [];
  policy_switches = no_switches;
  blocklist_guard = none;
}

restricted_account_query_iff_example :
    (restricted_account_query ascii
        (with_restricted_account_query_terms ascii ("Acme, Inc." ∷ " " ∷ []) bare)
        "ACME inc"
      ≡ true)
    ↔ Any (Gives (normalize_name ascii) (normalize_name ascii "ACME inc")) ("Acme, Inc." ∷ " " ∷ [])
restricted_account_query_iff_example =
    restricted_account_query_iff ascii bare "Acme, Inc." (" " ∷ []) "ACME inc"

is_suppressed_call_iff_example :
    (is_suppressed_call (with_suppressed_call_ids (" c1" ∷ "c2" ∷ []) bare) "c1 " ≡ true)
    ↔ Any (Gives trim_space (trim_space "c1 ")) (" c1" ∷ "c2" ∷ [])
is_suppressed_call_iff_example = is_suppressed_call_iff bare " c1" ("c2" ∷ []) "c1 "
