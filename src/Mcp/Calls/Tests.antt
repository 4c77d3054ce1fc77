-- ===== src/Mcp/Calls/Tests.antt =====
-- Runs of search_calls on a small store.
use gongcli_mcp.Prelude.{String, ◌==◌, ◌≡◌, refl, Option, some, List, [], ◌∷◌, take, if◌then◌else◌}
use gongcli_mcp.Prelude.Int.{ℤ, pos}
use gongcli_mcp.Text.{trim_space, join}
use gongcli_mcp.Text.Ascii.{ascii}
use gongcli_mcp.Governance.Name.{normalize_name, name_fields}
use gongcli_mcp.Governance.Guard.{empty, match_value, new_blocklist_guard_from_config}
use gongcli_mcp.Mcp.Limits.{default_limit_policy, search_limit, missing_transcript_limit, normalize}
use gongcli_mcp.Mcp.Json.{
  Members, SearchCallSummary, text, number, member, no_members, find_member, summarize_call,
}
use gongcli_mcp.Mcp.Server.{
  is_suppressed_call, blocklist_matches_call_summary, apply_policy_switches_to_search_summary,
  governed_query_limit, should_return_cap_envelope,
}
use gongcli_mcp.Store.{ok, MissingTranscriptCall}
use gongcli_mcp.Mcp.Calls.{
  CallSearchParams, SearchCallsArgs, plain, collect, new_capped_tool_result, call_verdict,
  search_rows, search_calls, missing_transcripts, missing_rows, missing_verdict,
  MissingTranscriptsArgs,
}
use gongcli_mcp.Mcp.Calls.Loop.{shown_of, shown_rows}
use gongcli_mcp.Mcp.Calls.Emitted.{Shows, Asks, search_calls-take, search_calls-Shows}
use gongcli_mcp.Mcp.Calls.Samples.{acme, server}

abbrev call : String → String → Members
call id title =
    member "id" (text id)
      (member "title" (text title) (member "duration" (number (pos 60)) no_members))

abbrev decode : String → Option Members
decode raw =
    if raw == "1"
    then some (call "c1" "Acme renewal")
    else if raw == "2"
    then some (call "c2" "Intro")
    else some (call "c3" "Demo")

abbrev parse_int : String → ℤ
parse_int s = pos 0

abbrev raws : List String
raws = "1" ∷ "2" ∷ "3" ∷ []

abbrev args : SearchCallsArgs
args = record {
  crm_object_type = "";
  crm_object_id = "";
  from_date = "";
  to_date = "";
  lifecycle_bucket = "";
  scope = "";
  system = "";
  direction = "";
  transcript_status = "";
  limit = pos 5;
}

abbrev demo : SearchCallSummary
demo = record {
  call_id = "";
  title = "Demo";
  started_at = "";
  duration_seconds = pos 60;
  parties_count = 0;
}

search_run :
    search_calls server ascii decode parse_int (λ query. ok raws) args ≡ ok (plain (demo ∷ []))
unfolding search_calls search_rows call_verdict collect new_capped_tool_result search_limit
    normalize should_return_cap_envelope summarize_call is_suppressed_call
    blocklist_matches_call_summary match_value empty new_blocklist_guard_from_config
    apply_policy_switches_to_search_summary governed_query_limit normalize_name name_fields join
    trim_space find_member
search_run = refl

search_calls-take_example :
    demo ∷ []
    ≡ take
        (search_limit default_limit_policy (pos 5))
        (shown_of (call_verdict server ascii decode parse_int) raws)
unfolding shown_rows
search_calls-take_example =
    search_calls-take server ascii decode parse_int args raws (plain (demo ∷ [])) search_run

search_calls-Shows_example :
    (query : CallSearchParams) × Shows ascii
      (some acme)
      server
      decode
      parse_int
      (ok raws)
      (search_limit default_limit_policy (pos 5))
      (shown_rows (plain (demo ∷ [])))
    × Asks args query
search_calls-Shows_example =
    search_calls-Shows ascii (some acme) server decode parse_int (λ query. ok raws) args
      (plain (demo ∷ [])) refl search_run

-- The switches hide call IDs, but not in this tool.
abbrev missing_args : MissingTranscriptsArgs
missing_args = record {
  from_date = "";
  to_date = "";
  lifecycle_bucket = "";
  scope = "";
  system = "";
  direction = "";
  crm_object_type = "";
  crm_object_id = "";
  limit = pos 5;
}

abbrev missing_row : MissingTranscriptCall
missing_row = record { call_id = "c1"; title = "Acme renewal"; started_at = "" }

missing_run :
    missing_transcripts server (λ query. ok (missing_row ∷ [])) missing_args
    ≡ ok (plain (missing_row ∷ []))
unfolding missing_transcripts missing_rows missing_verdict collect new_capped_tool_result
    missing_transcript_limit normalize should_return_cap_envelope is_suppressed_call trim_space
missing_run = refl
