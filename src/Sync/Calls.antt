-- ===== src/Sync/Calls.antt =====
-- SyncCalls of internal/syncsvc/syncsvc.go. The world `S` stands for the Gong client and the store
-- behind their interfaces, which answer each command and each request; the JSON decoder and the
-- config's fingerprint are parameters. A run keeps the commands that it gave the store.
pub mod Governed
pub mod Counters
pub mod Balance
pub mod Cursors
pub mod Fuel
mod Tests
use gongcli_mcp.Prelude.{
  ℕ, zero, suc, ◌+◌, String, ◌==◌, Bool, true, false, not, ◌&&◌, ◌||◌, Option, none, some, List, [],
  ◌∷◌, length, leb, ltb, nat_eq, if◌then◌else◌,
}
use gongcli_mcp.Prelude.Int.{ℤ, pos, negsuc}
use gongcli_mcp.Prelude.Sets.{has, add}
use gongcli_mcp.Text.{cat, is_nil, trim_space, contains, join}
use gongcli_mcp.Text.Unicode.{Unicode}
use gongcli_mcp.Governance.Config.{Config}
use gongcli_mcp.Governance.Ingest.{
  Decoder, IngestDecision, IngestError, Evaluated, decided, failed, evaluate_call_payload,
}
use gongcli_mcp.Sync.Keys.{
  build_sync_key, build_request_context, append_request_context_part, build_call_request_context,
}
use gongcli_mcp.Sync.Run.{
  CallsParams, Result, CallListParams, CallsPage, Fetched, SyncError, Command, Run, body,
  unreachable, http_error, negative_max_pages, fetch_error, bad_page, out_of_fuel, ingest_error,
  store_error, rerun_with_governance, cursor_repeated, finish_error, error_and_finish_error,
  start_run, finish_run, record_skipped, clear_skipped, upsert_call, and_then, first_error,
  answered, issue, finish, count_written, count_skipped,
}

pub first_request : CallsParams → CallListParams
first_request params = record {
  from = trim_space params.from;
  to = trim_space params.to;
  cursor = trim_space params.cursor;
  context = trim_space params.context;
  expose_parties = params.expose_parties;
  expose_highlights = params.expose_highlights;
}

pub first_seen : CallListParams → List String
first_seen request = if is_nil request.cursor then [] else request.cursor ∷ []

abbrev no_result : Result
no_result = record {
  scope = "";
  sync_key = "";
  cursor = "";
  pages = 0;
  records_seen = 0;
  records_written = 0;
  participant_capture_status = "";
  records_skipped = 0;
}

-- 400 and 422, of canRetryWithoutParties
can_retry_without_parties : Fetched → Bool
can_retry_without_parties (http_error status) = nat_eq status 400 || nat_eq status 422
can_retry_without_parties _ = false

module _ {S : Type 0} (store : S → Command → Option String × S) where
  module _ (json : Decoder) (u : Unicode) (fingerprint : Config → String) where
    upsert_error : Option Config → String → SyncError
    upsert_error none e =
        if contains e "previously skipped by governance ingest"
        then rerun_with_governance e
        else store_error e
    upsert_error (some cfg) e = store_error e

    write : Option Config → String → Run S → Option SyncError × Run S
    write governance raw r =
        and_then (issue store (upsert_error governance) (upsert_call raw) r) (count_written store)

    -- What follows the decision on a payload.
    act : Config → String → Evaluated → Run S → Option SyncError × Run S
    act cfg raw (failed e) r = (some (ingest_error e), r)
    act cfg raw (decided d) r =
        let skipped =
          record_skipped d.call_id (fingerprint cfg) (join "," d.matched_lists) d.source_category in
        if d.skip
        then and_then (issue store store_error skipped r) (count_skipped store)
        else and_then (issue store store_error (clear_skipped d.call_id) r) (write (some cfg) raw)

    item : Option Config → String → Run S → Option SyncError × Run S
    item none raw r = write none raw r
    item (some cfg) raw r = act cfg raw (evaluate_call_payload json u raw (some cfg)) r

    pub sync_items : Option Config → List String → Run S → Option SyncError × Run S
    sync_items governance [] r = (none, r)
    sync_items governance (raw ∷ raws) r =
        and_then (item governance raw r) (sync_items governance raws)

    module _ (fetch : S → CallListParams → Fetched × S) (decode : String → Option CallsPage)
        (params : CallsParams) (base : String) where
      -- The second request without the parties, of the first page alone.
      retry : CallListParams → Run S → Fetched × S → Fetched × CallListParams × Run S
      retry request r (answer, w) =
          if request.expose_parties
            && nat_eq r.result.pages 0
            && nat_eq r.result.records_seen 0
            && can_retry_without_parties answer
          then (let lean = record request { expose_parties = false } in
              let (again, w') = fetch w lean in
              (
                again,
                lean,
                record r {
                  world = w';
                  result = record r.result { participant_capture_status = "omitted_fallback" };
                  request_context =
                      build_call_request_context base params.expose_parties true
                        params.expose_highlights;
                },
              ))
          else (answer, request, record r { world = w })

      pub page_items : CallsPage → Run S → Option SyncError × Run S
      page_items page r = sync_items params.governance page.items (record r {
        result = record r.result {
          pages = suc r.result.pages;
          records_seen = r.result.records_seen + length page.items;
        };
      })

      -- `params.MaxPages > 0 && result.Pages >= params.MaxPages`
      reached : ℤ → ℕ → Bool
      reached (pos n) pages = ltb 0 n && leb n pages
      reached (negsuc n) pages = false

      abbrev set_cursor : String → Run S → Run S
      set_cursor next r = record r { result = record r.result { cursor = next } }

      -- Behind the items of a page; `k` is the next iteration.
      advance :
          (List String → CallListParams → Run S → Option SyncError × Run S)
          → List String
          → CallListParams
          → CallsPage
          → Run S
          → Option SyncError × Run S
      advance k seen request page r =
          let next = trim_space page.cursor in
          if is_nil next
          then (none, r)
          else if reached params.max_pages r.result.pages
          then (none, set_cursor next r)
          else if has next seen
          then (some (cursor_repeated next), set_cursor next r)
          else k (add next seen) (record request { cursor = next }) (set_cursor next r)

      -- One iteration, behind the fetch.
      fetched_page :
          (List String → CallListParams → Run S → Option SyncError × Run S)
          → List String
          → Fetched × CallListParams × Run S
          → Option SyncError × Run S
      fetched_page k seen (unreachable, request, r) = (some fetch_error, r)
      fetched_page k seen (http_error status, request, r) = (some fetch_error, r)
      fetched_page k seen (body text, request, r) = elim (decode text) [
        | none ↦ (some bad_page, r)
        | some page ↦ and_then (page_items page r) (advance k seen request page)
      ]

      -- The loop over the pages, `fuel` iterations at most.
      pub pages_from : ℕ → List String → CallListParams → Run S → Option SyncError × Run S
      pages_from zero seen request r = (some out_of_fuel, r)
      pages_from (suc fuel) seen request r =
          fetched_page (pages_from fuel) seen (retry request r (fetch r.world request))

    -- The context of the run, with the fingerprint of the config that governs it.
    pub base_request_context : CallsParams → String
    base_request_context params = elim params.governance [
      | none ↦ build_request_context params.preset params.context
      | some cfg ↦
          append_request_context_part (build_request_context params.preset params.context)
            (cat "governance_config_sha256=" (fingerprint cfg))
    ]

    is_negative : ℤ → Bool
    is_negative (pos n) = false
    is_negative (negsuc n) = true

    started : CallsParams → S → Run S
    started params w =
        let context =
          build_call_request_context (base_request_context params) params.expose_parties false
            params.expose_highlights in
        record {
          world = w;
          commands = [];
          result = record {
            scope = "calls";
            sync_key = build_sync_key "calls" params.preset params.context params.from params.to;
            cursor = "";
            pages = 0;
            records_seen = 0;
            records_written = 0;
            participant_capture_status = if params.expose_parties then "requested" else "";
            records_skipped = 0;
          };
          request_context = context;
        }

    pub start_command : CallsParams → Run S → Command
    start_command params r =
        start_run "calls" r.result.sync_key (trim_space params.cursor) (trim_space params.from)
          (trim_space params.to) r.request_context

    -- SyncCalls with at most `fuel` pages.
    pub sync_calls :
        (S → CallListParams → Fetched × S)
        → (String → Option CallsPage)
        → CallsParams
        → ℕ
        → S
        → Option SyncError × Run S
    sync_calls fetch decode params fuel w =
        let r = started params w in
        let base = base_request_context params in
        if is_negative params.max_pages
        then (some negative_max_pages, record r { result = no_result })
        else and_then (issue store store_error (start_command params r) r) (λ r'. finish store (
            pages_from fetch decode params base fuel (first_seen (first_request params))
              (first_request params) r'))
