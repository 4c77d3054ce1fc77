-- ===== src/Mcp/Server.antt =====
-- The settings of the Server of internal/mcp/server.go that decide what a tool may show, the
-- options that set them, and the tests that read them.
pub mod Restricted
mod Tests
use gongcli_mcp.Prelude.{
  ℕ, String, Bool, true, false, Option, none, some, List, [], ◌∷◌, any, is_empty, ltb, leb, ◌&&◌,
  nat_eq, if◌then◌else◌,
}
use gongcli_mcp.Prelude.Int.{ℤ, pos, negsuc}
use gongcli_mcp.Prelude.Sets.{has, add}
use gongcli_mcp.Text.{is_nil, trim_space}
use gongcli_mcp.Text.Unicode.{Unicode}
use gongcli_mcp.Governance.Name.{normalize_name}
use gongcli_mcp.Governance.Guard.{BlocklistGuard, empty, match_value}
use gongcli_mcp.Mcp.Limits.{LimitPolicy, normalize}
use gongcli_mcp.Mcp.Policy.{PolicySwitches}
use gongcli_mcp.Mcp.Json.{SearchCallSummary}

pub record Server : Type 0 where
  pub limit_policy : LimitPolicy
  pub allowed_tool_names : List String
  pub facade_routed_tool_names : List String
  pub suppressed_call_ids : List String
  pub restricted_account_queries : List String
  pub policy_switches : PolicySwitches
  pub blocklist_guard : Option BlocklistGuard

-- The loops that fill a set with what `clean` makes of each text, blanks left out.
unfoldable pub fill_set : (String → String) → List String → List String → List String
fill_set clean [] set = set
fill_set clean (raw ∷ raws) set =
    fill_set clean raws (if is_nil (clean raw) then set else add (clean raw) set)

pub with_tool_allowlist : List String → Server → Server
unfolding fill_set
with_tool_allowlist names s =
    let allowset = fill_set trim_space names [] in
    if is_empty allowset then s else record s { allowed_tool_names = allowset }

pub with_limit_policy : LimitPolicy → Server → Server
with_limit_policy policy s = record s { limit_policy = normalize policy }

pub with_suppressed_call_ids : List String → Server → Server
with_suppressed_call_ids call_ids s =
    if is_empty call_ids
    then s
    else record s { suppressed_call_ids = fill_set trim_space call_ids [] }

pub with_restricted_account_query_terms : Unicode → List String → Server → Server
with_restricted_account_query_terms u terms s =
    if is_empty terms
    then s
    else record s { restricted_account_queries = fill_set (normalize_name u) terms [] }

pub with_policy_switches : PolicySwitches → Server → Server
with_policy_switches switches s = record s { policy_switches = switches }

unfoldable pub with_blocklist_guard : Option BlocklistGuard → Server → Server
with_blocklist_guard guard s = if empty guard then s else record s { blocklist_guard = guard }

unfoldable pub is_tool_allowed : Server → String → Bool
is_tool_allowed s name =
    if is_empty s.allowed_tool_names then true else has name s.allowed_tool_names

unfoldable pub governed_query_limit : Server → ℕ → ℤ → ℕ
governed_query_limit s requested (negsuc max) = requested
governed_query_limit s requested (pos max) =
    if is_empty s.suppressed_call_ids then requested else if nat_eq max 0 then requested else max

unfoldable pub is_suppressed_call : Server → String → Bool
is_suppressed_call s call_id =
    if is_empty s.suppressed_call_ids then false else has (trim_space call_id) s.suppressed_call_ids

unfoldable pub blocklist_matches_call_summary : Unicode → Server → SearchCallSummary → Bool
blocklist_matches_call_summary u s summary =
    if empty s.blocklist_guard then false else match_value u s.blocklist_guard summary.title

unfoldable pub apply_policy_switches_to_search_summary :
    Server → SearchCallSummary → SearchCallSummary
apply_policy_switches_to_search_summary s summary =
    let p = s.policy_switches in
    let titled = if p.hide_call_titles then record summary { title = "" } else summary in
    if p.hide_raw_call_ids then record titled { call_id = "" } else titled

unfoldable pub restricted_account_query : Unicode → Server → String → Bool
restricted_account_query u s query =
    if is_empty s.restricted_account_queries
    then false
    else has (normalize_name u query) s.restricted_account_queries

unfoldable pub restricted_account_query_any : Unicode → Server → List String → Bool
unfolding restricted_account_query
restricted_account_query_any u s queries = any (restricted_account_query u s) queries

-- shouldReturnCapEnvelope
unfoldable pub should_return_cap_envelope : ℕ → ℕ → Bool
should_return_cap_envelope returned limit = ltb 0 limit && leb limit returned
