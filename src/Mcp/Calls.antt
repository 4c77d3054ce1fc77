-- ===== src/Mcp/Calls.antt =====
-- searchCalls and missingTranscripts of internal/mcp/server.go, over decoded arguments. The store
-- behind its interface is a record of functions; an error is its text.
pub mod Loop
pub mod Emitted
pub mod Detail
mod Samples
mod Tests
use gongcli_mcp.Prelude.{
  ℕ, suc, String, Bool, true, false, not, ◌&&◌, ◌||◌, Option, none, some, List, [], ◌∷◌, ◌++◌,
  length, is_empty, leb, if◌then◌else◌,
}
use gongcli_mcp.Prelude.Int.{ℤ}
use gongcli_mcp.Text.{is_nil, trim_space}
use gongcli_mcp.Text.Unicode.{Unicode}
use gongcli_mcp.Store.{MissingTranscriptCall, Outcome, error, ok}
use gongcli_mcp.Mcp.Limits.{normalize, search_limit, missing_transcript_limit}
use gongcli_mcp.Mcp.Json.{Members, SearchCallSummary, summarize_call}
use gongcli_mcp.Mcp.Server.{
  Server, governed_query_limit, is_suppressed_call, blocklist_matches_call_summary,
  apply_policy_switches_to_search_summary, should_return_cap_envelope,
}

pub record SearchCallsArgs : Type 0 where
  pub crm_object_type : String
  pub crm_object_id : String
  pub from_date : String
  pub to_date : String
  pub lifecycle_bucket : String
  pub scope : String
  pub system : String
  pub direction : String
  pub transcript_status : String
  pub limit : ℤ

pub record CallSearchParams : Type 0 where
  pub crm_object_type : String
  pub crm_object_id : String
  pub from_date : String
  pub to_date : String
  pub lifecycle_bucket : String
  pub scope : String
  pub system : String
  pub direction : String
  pub transcript_status : String
  pub limit : ℕ

pub record MissingTranscriptsArgs : Type 0 where
  pub from_date : String
  pub to_date : String
  pub lifecycle_bucket : String
  pub scope : String
  pub system : String
  pub direction : String
  pub crm_object_type : String
  pub crm_object_id : String
  pub limit : ℤ

pub record MissingTranscriptSearchParams : Type 0 where
  pub from_date : String
  pub to_date : String
  pub lifecycle_bucket : String
  pub scope : String
  pub system : String
  pub direction : String
  pub crm_object_type : String
  pub crm_object_id : String
  pub limit : ℕ

-- What a row of the store becomes: an error, nothing, or a row of the answer.
pub data Verdict (A : Type 0) : Type 0 where
  bad : String → Verdict A
  hidden : Verdict A
  shown : A → Verdict A

pub record Rows (A : Type 0) : Type 0 where
  pub rows : List A
  pub filtered : ℕ

abbrev pub no_rows : {A : Type 0} → Rows A
no_rows = record { rows = []; filtered = 0 }

module _ {A : Type 0} where
  -- The body of the loops; `k` is the rest of the loop.
  collected : (Rows A → Outcome (Rows A)) → ℕ → Rows A → Verdict A → Outcome (Rows A)
  collected k limit r (bad e) = error e
  collected k limit r hidden = k (record r { filtered = suc r.filtered })
  collected k limit r (shown a) =
      let next = record r { rows = r.rows ++ a ∷ [] } in
      if leb limit (length next.rows) then ok next else k next

module _ {R A : Type 0} where
  -- The loops, which stop at the first row that is bad or reaches the limit.
  unfoldable pub collect : (R → Verdict A) → ℕ → List R → Rows A → Outcome (Rows A)
  unfolding collected
  collect verdict limit [] r = ok r
  collect verdict limit (x ∷ xs) r = collected (collect verdict limit xs) limit r (verdict x)

-- The value of a tool's result.
pub data Shown (A : Type 0) : Type 0 where
  plain : List A → Shown A
  capped : String → List A → ℕ → ℕ → List String → Shown A

-- cappedToolPayload
capped_tool_payload : {A : Type 0} → String → List A → ℕ → List String → Shown A
capped_tool_payload tool rows limit refinements = capped tool rows (length rows) limit (
    if is_empty refinements
    then "add a narrower date, lifecycle, scope, system, direction, CRM, or text filter before increasing the cap"
      ∷ []
    else refinements)

-- newCappedToolResult
unfoldable pub new_capped_tool_result :
    {A : Type 0} → String → ℕ → List String → Outcome (Rows A) → Outcome (Shown A)
unfolding capped_tool_payload should_return_cap_envelope
new_capped_tool_result tool limit refinements (error e) = error e
new_capped_tool_result tool limit refinements (ok r) =
    if should_return_cap_envelope (length r.rows) limit
    then ok (capped_tool_payload tool r.rows limit refinements)
    else ok (plain r.rows)

-- out = append(out, advice), where the test holds
advise : Bool → String → List String → List String
advise test advice out = if test then advice ∷ out else out

search_call_refinements : SearchCallsArgs → List String
search_call_refinements args =
    advise (is_nil args.from_date || is_nil args.to_date)
      "add from_date and to_date to bound the call date range"
      (advise (is_nil args.lifecycle_bucket)
        "add lifecycle_bucket when investigating a specific sales or customer-success motion"
        (advise (is_nil args.scope || is_nil args.system || is_nil args.direction)
          "add scope, system, or direction to narrow the normalized call facts"
          (advise (is_nil args.crm_object_type && is_nil args.crm_object_id)
            "add crm_object_type or crm_object_id when following a known Account, Opportunity, Contact, or Lead"
            [])))

missing_transcript_refinements : MissingTranscriptsArgs → List String
missing_transcript_refinements args =
    advise (is_nil args.from_date || is_nil args.to_date)
      "add from_date and to_date to bound the call date range"
      (advise (is_nil args.lifecycle_bucket)
        "add lifecycle_bucket when the analysis is tied to a known business motion"
        (advise (is_nil args.scope) "add scope=External, Internal, or Unknown" (
          advise (is_nil args.system) "add system when the dataset spans multiple meeting systems" (
            advise (is_nil args.direction)
              "add direction when inbound, outbound, or conference style matters"
              (advise (is_nil args.crm_object_type && is_nil args.crm_object_id)
                "add crm_object_type or crm_object_id to inspect a specific CRM slice" [])))))

module _ (s : Server) where
  module _ (u : Unicode) where
    -- What the loop of searchCalls makes of a summary,
    unfoldable pub summary_verdict : Option SearchCallSummary → Verdict SearchCallSummary
    summary_verdict none = bad "invalid call"
    summary_verdict (some summary) =
        if is_suppressed_call s summary.call_id
        then hidden
        else if blocklist_matches_call_summary u s summary
        then hidden
        else shown (apply_policy_switches_to_search_summary s summary)

    module _ (decode : String → Option Members) (parse_int : String → ℤ) where
      -- and of a stored call.
      unfoldable pub call_verdict : String → Verdict SearchCallSummary
      unfolding summary_verdict
      call_verdict raw = summary_verdict (summarize_call parse_int decode raw)

      -- Behind the query.
      search_rows : SearchCallsArgs → ℕ → Outcome (List String) → Outcome (Shown SearchCallSummary)
      search_rows args limit (error e) = error e
      search_rows args limit (ok raws) =
          new_capped_tool_result "search_calls" limit (search_call_refinements args)
            (collect call_verdict limit raws no_rows)

      pub search_calls :
          (CallSearchParams → Outcome (List String))
          → SearchCallsArgs
          → Outcome (Shown SearchCallSummary)
      search_calls search_calls_raw args =
          let limit = search_limit s.limit_policy args.limit in
          search_rows args limit (
            search_calls_raw (record {
              crm_object_type = args.crm_object_type;
              crm_object_id = args.crm_object_id;
              from_date = args.from_date;
              to_date = args.to_date;
              lifecycle_bucket = args.lifecycle_bucket;
              scope = args.scope;
              system = args.system;
              direction = args.direction;
              transcript_status = args.transcript_status;
              limit = governed_query_limit s limit (normalize s.limit_policy).search_results;
            }))

  missing_verdict : MissingTranscriptCall → Verdict MissingTranscriptCall
  missing_verdict row = if is_suppressed_call s row.call_id then hidden else shown row

  missing_rows :
      MissingTranscriptsArgs
      → ℕ
      → Outcome (List MissingTranscriptCall)
      → Outcome (Shown MissingTranscriptCall)
  missing_rows args limit (error e) = error e
  missing_rows args limit (ok rows) =
      new_capped_tool_result "missing_transcripts" limit (missing_transcript_refinements args)
        (collect missing_verdict limit rows no_rows)

  pub missing_transcripts :
      (MissingTranscriptSearchParams → Outcome (List MissingTranscriptCall))
      → MissingTranscriptsArgs
      → Outcome (Shown MissingTranscriptCall)
  missing_transcripts find args =
      let limit = missing_transcript_limit s.limit_policy args.limit in
      let found = missing_rows args limit (
        find (record {
          from_date = args.from_date;
          to_date = args.to_date;
          lifecycle_bucket = args.lifecycle_bucket;
          scope = args.scope;
          system = args.system;
          direction = args.direction;
          crm_object_type = args.crm_object_type;
          crm_object_id = args.crm_object_id;
          limit = governed_query_limit s limit (normalize s.limit_policy).missing_transcripts;
        })) in
      if not (is_nil (trim_space args.crm_object_id)) && is_nil (trim_space args.crm_object_type)
      then error "crm_object_type is required when crm_object_id is set"
      else found
