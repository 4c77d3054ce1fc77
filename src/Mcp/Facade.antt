-- ===== src/Mcp/Facade.antt =====
-- The routing of internal/mcp/facade.go: from the operations of the facade tools to the tools that
-- answer them. Of an operation the model keeps what the routing reads.
pub mod Found
use gongcli_mcp.Prelude.{
  String, ◌==◌, Bool, true, false, not, ◌&&◌, ◌||◌, Option, none, some, List, [], ◌∷◌, is_empty,
  if◌then◌else◌,
}
use gongcli_mcp.Prelude.Sets.{has}
use gongcli_mcp.Text.{is_nil, trim_space}
use gongcli_mcp.Mcp.Server.{Server, is_tool_allowed}

pub record FacadeOperation : Type 0 where
  pub name : String
  pub facade_tool : String
  pub routed_tool : String
  pub routed_fallback : String

abbrev operation : String → String → String → String → FacadeOperation
operation name facade_tool routed_tool routed_fallback = record {
  name = name;
  facade_tool = facade_tool;
  routed_tool = routed_tool;
  routed_fallback = routed_fallback;
}

pub facade_operations : List FacadeOperation
facade_operations =
    operation "status.sync" "gong_status" "get_sync_status" ""
    ∷ operation "query.call_count" "gong_query" "call_count" ""
    ∷ operation "query.dimension_counts" "gong_query" "dimension_counts" ""
    ∷ operation "query.calls" "gong_query" "search_calls_by_filters" "search_calls"
    ∷ operation "query.scorecards" "gong_query" "list_scorecards" ""
    ∷ operation "query.scorecard_detail" "gong_query" "get_scorecard" ""
    ∷ operation "query.transcript_segments" "gong_query" "search_transcript_segments"
        "search_transcripts_by_filters"
    ∷ operation "analyze.cohort.build" "gong_analyze" "build_call_cohort" ""
    ∷ operation "analyze.cohort.inspect" "gong_analyze" "inspect_call_cohort" ""
    ∷ operation "analyze.themes.discover" "gong_analyze" "discover_themes_in_cohort" ""
    ∷ operation "analyze.discovery_summary" "gong_analyze" "discovery_summary" ""
    ∷ operation "analyze.limitations.explain" "gong_analyze" "explain_analysis_limitations" ""
    ∷ operation "evidence.quotes.search" "gong_get_evidence" "search_quotes_in_cohort"
        "search_transcript_quotes_with_attribution"
    ∷ operation "evidence.quote_pack.build" "gong_get_evidence" "build_quote_pack" ""
    ∷ operation "evidence.highlights.list" "gong_get_evidence" "list_call_ai_highlights" ""
    ∷ operation "evidence.call_drilldown" "gong_get_evidence" "call_drilldown" ""
    ∷ operation "theme_intelligence_report" "gong_analyze" "theme_intelligence_report" ""
    ∷ operation "extract.buyer_questions" "gong_analyze" "extract_buyer_questions" ""
    ∷ operation "extract.objection_signals" "gong_analyze" "extract_objection_signals" ""
    ∷ operation "prospect.question.answer" "gong_analyze" "prospect_question_answer" ""
    ∷ operation "question.answer" "gong_analyze" "question_answer" ""
    ∷ []

abbrev facade_tool_names : List String
facade_tool_names =
    "gong_status" ∷ "gong_discover_capabilities" ∷ "gong_query" ∷ "gong_analyze"
    ∷ "gong_get_evidence" ∷ "gong_explain_limitations" ∷ []

unfoldable pub is_facade_tool : String → Bool
is_facade_tool name = has name facade_tool_names

find_operation : String → List FacadeOperation → Option FacadeOperation
find_operation name [] = none
find_operation name (op ∷ ops) = if op.name == name then some op else find_operation name ops

unfoldable pub facade_operation_by_name : String → Option FacadeOperation
unfolding find_operation facade_operations trim_space
facade_operation_by_name name =
    if is_nil (trim_space name) then none else find_operation (trim_space name) facade_operations

unfoldable pub is_facade_routed_tool_allowed : Server → String → Bool
is_facade_routed_tool_allowed s name =
    if is_tool_allowed s name
    then true
    else if is_empty s.facade_routed_tool_names
    then false
    else has name s.facade_routed_tool_names

-- `none` is the error that names the missing tools.
unfoldable pub resolve_facade_routed_tool : Server → FacadeOperation → Option String
unfolding is_facade_routed_tool_allowed
resolve_facade_routed_tool s op =
    if is_facade_routed_tool_allowed s op.routed_tool
    then some op.routed_tool
    else if not (is_nil op.routed_fallback) && is_facade_routed_tool_allowed s op.routed_fallback
    then some op.routed_fallback
    else none

pub facade_routed_tool_available : Server → FacadeOperation → Bool
facade_routed_tool_available s op =
    is_facade_routed_tool_allowed s op.routed_tool
    || not (is_nil op.routed_fallback) && is_facade_routed_tool_allowed s op.routed_fallback
