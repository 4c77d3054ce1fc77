-- ===== src/Mcp/Calls/Detail/Tests.antt =====
-- A run of get_call on a small store.
use gongcli_mcp.Prelude.{◌==◌, ◌≡◌, refl, false, not, some, [], ◌∷◌, if◌then◌else◌}
use gongcli_mcp.Prelude.Int.{pos}
use gongcli_mcp.Text.{is_nil, trim_space, join}
use gongcli_mcp.Text.Ascii.{ascii}
use gongcli_mcp.Governance.Name.{normalize_name, name_fields}
use gongcli_mcp.Governance.Guard.{empty, match_value, new_blocklist_guard_from_config}
use gongcli_mcp.Mcp.Server.{is_suppressed_call}
use gongcli_mcp.Store.{error, ok}
use gongcli_mcp.Mcp.Calls.Detail.{
  CallDetail, CallStore, GetCallArgs, get_call, found_call, checked_detail, shown_detail,
  blocklist_matches_call_detail, minimize_call_detail, minimize_object,
  apply_policy_switches_to_call_detail,
}
use gongcli_mcp.Mcp.Calls.Detail.Cleared.{ClearedDetail, get_call-Cleared}
use gongcli_mcp.Mcp.Calls.Samples.{acme, server}

abbrev stored : CallDetail
stored = record {
  call_id = "c3";
  call_ref = "";
  title = "Demo";
  started_at = "";
  duration_seconds = pos 60;
  parties_count = pos 2;
  crm_objects =
      record {
        object_type = "Account";
        object_id = "a1";
        object_name = "Globex";
        field_count = pos 1;
        populated_field_count = pos 1;
        field_names = "Industry" ∷ [];
        field_names_truncated = false;
      }
      ∷ [];
  crm_objects_truncated = false;
}

abbrev shown_call : CallDetail
shown_call = record stored {
  call_id = "";
  crm_objects =
      record {
        object_type = "Account";
        object_id = "a1";
        object_name = "";
        field_count = pos 1;
        populated_field_count = pos 1;
        field_names = "Industry" ∷ [];
        field_names_truncated = false;
      }
      ∷ [];
}

abbrev store : CallStore
store = record {
  resolve_call_id_by_ref = λ ref. error "unknown";
  get_call_detail = λ id. if id == "c3" then ok stored else error "unknown";
}

abbrev by_id : GetCallArgs
by_id = record { call_id = " c3 "; call_ref = "" }

get_run : get_call ascii server store by_id ≡ ok shown_call
unfolding get_call found_call checked_detail shown_detail is_suppressed_call
    blocklist_matches_call_detail match_value empty new_blocklist_guard_from_config
    minimize_call_detail minimize_object apply_policy_switches_to_call_detail normalize_name
    name_fields join trim_space
get_run = refl

get_call-Cleared_example :
    ClearedDetail ascii (some acme) server store (not (is_nil (trim_space ""))) shown_call
get_call-Cleared_example =
    get_call-Cleared ascii (some acme) server store by_id shown_call refl get_run
