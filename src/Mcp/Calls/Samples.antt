-- ===== src/Mcp/Calls/Samples.antt =====
-- A server that guards one customer.
use gongcli_mcp.Prelude.{some, [], ◌∷◌}
use gongcli_mcp.Prelude.Int.{pos}
use gongcli_mcp.Text.Ascii.{ascii}
use gongcli_mcp.Governance.Config.{Config}
use gongcli_mcp.Governance.Guard.{new_blocklist_guard_from_config}
use gongcli_mcp.Mcp.Limits.{default_limit_policy}
use gongcli_mcp.Mcp.Policy.{broad_public_redacted_switches}
use gongcli_mcp.Mcp.Server.{Server}

abbrev pub acme : Config
acme = record {
  version = pos 1;
  lists =
      (
        "no_ai",
        record {
          description = "";
          action = "";
          customers = record { name = "Acme"; aliases = []; reason = ""; notes = "" } ∷ [];
        },
      )
      ∷ [];
}

abbrev pub server : Server
server = record {
  limit_policy = default_limit_policy;
  allowed_tool_names = [];
  facade_routed_tool_names = [];
  suppressed_call_ids = "c2" ∷ [];
  restricted_account_queries = [];
  policy_switches = broad_public_redacted_switches;
  blocklist_guard = some (new_blocklist_guard_from_config ascii (some acme));
}
