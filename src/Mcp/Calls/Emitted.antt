-- ===== src/Mcp/Calls/Emitted.antt =====
-- What search_calls shows.
use gongcli_mcp.Prelude.{
  ℕ, ◌≤◌, ◌<◌, String, ◌≡◌, refl, sym, ap, subst, ◌∙◌, false, Option, none, some, List, All, Any,
  All-take, take, length, is_empty, length-take, arith, Bool-cases, inl, inr, if◌then◌else◌,
}
use gongcli_mcp.Prelude.Int.{ℤ}
use gongcli_mcp.Text.Unicode.{Unicode}
use gongcli_mcp.Governance.Config.{Config}
use gongcli_mcp.Governance.Audit.Suppressed.{Mentions, ConfigNames}
use gongcli_mcp.Governance.Guard.{
  BlocklistGuard, empty, match_value, new_blocklist_guard_from_config,
}
use gongcli_mcp.Governance.Guard.Agreement.{match_value_iff}
use gongcli_mcp.Mcp.Limits.{search_limit, normalize}
use gongcli_mcp.Mcp.Limits.Bounds.{request_limits-InRange}
use gongcli_mcp.Mcp.Json.{Members, SearchCallSummary, summarize_call}
use gongcli_mcp.Mcp.Server.{
  Server, governed_query_limit, is_suppressed_call, blocklist_matches_call_summary,
  apply_policy_switches_to_search_summary,
}
use gongcli_mcp.Store.{Outcome, error, ok}
use gongcli_mcp.Mcp.Calls.{
  SearchCallsArgs, CallSearchParams, Verdict, shown, Shown, summary_verdict, call_verdict,
  search_rows, search_calls,
}
use gongcli_mcp.Mcp.Calls.Loop.{shown_of, All-shown_of, shown_rows, new_capped_tool_result-take}

-- The guard alone decides: its early return for an empty one changes nothing.
match_value_of_empty :
    (u : Unicode) (g : Option BlocklistGuard) (value : String)
    → (if empty g then false else match_value u g value) ≡ match_value u g value
unfolding empty match_value
match_value_of_empty u none value = refl
match_value_of_empty u (some g) value = elim (Bool-cases (is_empty g.terms)) [
  | inl bare ↦ rw (bare, match_value) refl
  | inr full ↦ rw full refl
]

-- A value that the guard of a config lets pass mentions no listed name or alias.
pub unmatched-Unnamed :
    (u : Unicode) (cfg : Option Config) (g : Option BlocklistGuard) (value : String)
    → g ≡ some (new_blocklist_guard_from_config u cfg)
    → (if empty g then false else match_value u g value) ≡ false
    → ConfigNames (Mentions u value) cfg
    → ⊥
unmatched-Unnamed u cfg g value built clear named =
    let matched = (match_value_iff u cfg value).1 named in
    let clear' = sym (match_value_of_empty u g value) ∙ clear in let no = rw built at clear' in cc

-- A row that may be shown: it is the summary, with the fields that the switches hide left blank, of
-- one of the calls that the store answered, and that call is not suppressed and its title mentions no
-- listed name or alias.
pub record Cleared (u : Unicode) (cfg : Option Config) (s : Server)
    (decode : String → Option Members) (parse_int : String → ℤ) (raws : List String)
    (row : SearchCallSummary) : Type 0 where
  pub raw : String
  pub stored : Any (λ r. r ≡ raw) raws
  pub summary : SearchCallSummary
  pub summarized : summarize_call parse_int decode raw ≡ some summary
  pub allowed : is_suppressed_call s summary.call_id ≡ false
  pub unnamed : ConfigNames (Mentions u summary.title) cfg → ⊥
  pub same_facts :
      (row.started_at ≡ summary.started_at)
      × (row.duration_seconds ≡ summary.duration_seconds)
      × (row.parties_count ≡ summary.parties_count)
  pub title : row.title ≡ (if s.policy_switches.hide_call_titles then "" else summary.title)
  pub call_id : row.call_id ≡ (if s.policy_switches.hide_raw_call_ids then "" else summary.call_id)

module _ (u : Unicode) (cfg : Option Config) (s : Server)
    (guarded : s.blocklist_guard ≡ some (new_blocklist_guard_from_config u cfg))
    (decode : String → Option Members) (parse_int : String → ℤ) (raws : List String) (raw : String)
    (stored : Any (λ r. r ≡ raw) raws) where
  summary-Cleared :
      (summary : SearchCallSummary)
      → summarize_call parse_int decode raw ≡ some summary
      → is_suppressed_call s summary.call_id ≡ false
      → blocklist_matches_call_summary u s summary ≡ false
      → Cleared u cfg s decode parse_int raws (apply_policy_switches_to_search_summary s summary)
  unfolding blocklist_matches_call_summary apply_policy_switches_to_search_summary
  summary-Cleared summary summarized allowed clear = record {
    raw = raw;
    stored = stored;
    summarized = summarized;
    summary = summary;
    allowed = allowed;
    unnamed = unmatched-Unnamed u cfg s.blocklist_guard summary.title guarded clear;
    same_facts = ground arith;
    title = ground arith;
    call_id = ground arith;
  }

  shown-row : (a b : SearchCallSummary) → shown a ≡ shown b → a ≡ b
  shown-row a b e = ap row_of e
    where
      row_of : Verdict SearchCallSummary → SearchCallSummary
      row_of (shown c) = c
      row_of _ = a

  verdict-Cleared :
      (found : Option SearchCallSummary) (row : SearchCallSummary)
      → summarize_call parse_int decode raw ≡ found
      → summary_verdict s u found ≡ shown row
      → Cleared u cfg s decode parse_int raws row
  unfolding summary_verdict
  verdict-Cleared none row summarized e = cc
  verdict-Cleared (some summary) row summarized e =
      elim (Bool-cases (is_suppressed_call s summary.call_id)) [
        | inl hit ↦ let no = rw (hit, summary_verdict) at e in cc
        | inr allowed ↦ elim (Bool-cases (blocklist_matches_call_summary u s summary)) [
          | inl hit ↦ let no = rw (allowed, hit, summary_verdict) at e in cc
          | inr clear ↦
              subst (Cleared u cfg s decode parse_int raws)
                (shown-row _ row (rw (allowed, clear, summary_verdict) at e))
                (summary-Cleared summary summarized allowed clear)
        ]
      ]

module _ (s : Server) (u : Unicode) (decode : String → Option Members) (parse_int : String → ℤ)
    (args : SearchCallsArgs) where
  search_rows-take :
      (limit : ℕ) (raws : List String) (out : Shown SearchCallSummary)
      → 0 < limit
      → search_rows s u decode parse_int args limit (ok raws) ≡ ok out
      → shown_rows out ≡ take limit (shown_of (call_verdict s u decode parse_int) raws)
  unfolding search_rows
  search_rows-take limit raws out positive e =
      new_capped_tool_result-take (call_verdict s u decode parse_int) "search_calls" limit _ raws
        out positive e

  -- Where the store answers with these calls, search_calls shows the first of those that are to be
  -- shown, up to the limit of the request and the policy.
  pub search_calls-take :
      (raws : List String) (out : Shown SearchCallSummary)
      → search_calls s u decode parse_int (λ query. ok raws) args ≡ ok out
      → shown_rows out
        ≡ take
            (search_limit s.limit_policy args.limit)
            (shown_of (call_verdict s u decode parse_int) raws)
  unfolding search_calls
  search_calls-take raws out e =
      search_rows-take _ raws out (request_limits-InRange s.limit_policy args.limit).0.0 e

-- What a search shows: rows that may be shown of the calls that the store answered, and no more than
-- the limit.
abbrev pub Shows :
    Unicode
    → Option Config
    → Server
    → (String → Option Members)
    → (String → ℤ)
    → Outcome (List String)
    → ℕ
    → List SearchCallSummary
    → Type 0
Shows u cfg s decode parse_int answer limit rows =
    (raws : List String) × (answer ≡ ok raws)
    × All (Cleared u cfg s decode parse_int raws) rows
    × (length rows ≤ limit)

module _ (u : Unicode) (cfg : Option Config) (s : Server)
    (guarded : s.blocklist_guard ≡ some (new_blocklist_guard_from_config u cfg))
    (decode : String → Option Members) (parse_int : String → ℤ) (args : SearchCallsArgs) where
  call_verdict-Cleared :
      (raws : List String) (raw : String) (row : SearchCallSummary)
      → Any (λ r. r ≡ raw) raws
      → call_verdict s u decode parse_int raw ≡ shown row
      → Cleared u cfg s decode parse_int raws row
  unfolding call_verdict
  call_verdict-Cleared raws raw row stored e =
      verdict-Cleared u cfg s guarded decode parse_int raws raw stored _ row refl e

  search_rows-Shows :
      (limit : ℕ) (answer : Outcome (List String)) (out : Shown SearchCallSummary)
      → 0 < limit
      → search_rows s u decode parse_int args limit answer ≡ ok out
      → Shows u cfg s decode parse_int answer limit (shown_rows out)
  unfolding search_rows
  search_rows-Shows limit (error text) out positive e = cc
  search_rows-Shows limit (ok raws) out positive e =
      let verdict = call_verdict s u decode parse_int in
      let same = search_rows-take s u decode parse_int args limit raws out positive e in
      let P = Cleared u cfg s decode parse_int raws in
      let cleared =
        All-take P limit (shown_of verdict raws)
          (All-shown_of verdict P raws (call_verdict-Cleared raws)) in
      (
        raws,
        refl,
        subst (All P) (sym same) cleared,
        rw same (omega (arith, length-take limit (shown_of verdict raws))),
      )

-- The query has the filters of the request.
abbrev pub Asks : SearchCallsArgs → CallSearchParams → Type 0
Asks args query =
    (query.crm_object_type ≡ args.crm_object_type)
    × (query.crm_object_id ≡ args.crm_object_id)
    × (query.from_date ≡ args.from_date)
    × (query.to_date ≡ args.to_date)
    × (query.lifecycle_bucket ≡ args.lifecycle_bucket)
    × (query.scope ≡ args.scope)
    × (query.system ≡ args.system)
    × (query.direction ≡ args.direction)
    × (query.transcript_status ≡ args.transcript_status)

-- Whatever the store answers to the query, which has the filters of the request, every row that
-- search_calls shows is the summary of one of the calls in that answer, which is not suppressed and
-- whose title mentions no listed name or alias, with the title and the call ID blank where the
-- switches hide them; and there are no more rows than the limit of the request and the policy.
pub search_calls-Shows :
    (u : Unicode) (cfg : Option Config) (s : Server) (decode : String → Option Members)
    (parse_int : String → ℤ) (store : CallSearchParams → Outcome (List String))
    (args : SearchCallsArgs) (out : Shown SearchCallSummary)
    → s.blocklist_guard ≡ some (new_blocklist_guard_from_config u cfg)
    → search_calls s u decode parse_int store args ≡ ok out
    → (query : CallSearchParams) × Shows u cfg s decode parse_int
        (store query)
        (search_limit s.limit_policy args.limit)
        (shown_rows out)
      × Asks args query
unfolding search_calls
search_calls-Shows u cfg s decode parse_int store args out guarded e = (
  record {
    crm_object_type = args.crm_object_type;
    crm_object_id = args.crm_object_id;
    from_date = args.from_date;
    to_date = args.to_date;
    lifecycle_bucket = args.lifecycle_bucket;
    scope = args.scope;
    system = args.system;
    direction = args.direction;
    transcript_status = args.transcript_status;
    limit =
        governed_query_limit s (search_limit s.limit_policy args.limit)
          (normalize s.limit_policy).search_results;
  },
  search_rows-Shows u cfg s guarded decode parse_int args _ _ out
      (request_limits-InRange s.limit_policy args.limit).0.0 e,
  (refl, refl, refl, refl, refl, refl, refl, refl, refl),
)
