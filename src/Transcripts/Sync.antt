-- ===== src/Transcripts/Sync.antt =====
-- syncMissingWithBatch of internal/transcripts/sync.go. fmt's %d, the decoders,
-- filepath.Join and the config's fingerprint are parameters.
pub mod Governed
pub mod Counters
pub mod Complete
mod Tests
use gongcli_mcp.Prelude.{
  ℕ, suc, ◌+◌, ◌-◌, Char, code, String, Bool, true, false, Option, none, some, List, [], ◌∷◌, ◌++◌,
  map, length, ltb, nat_eq, not, ◌||◌, if◌then◌else◌,
}
use gongcli_mcp.Prelude.Int.{ℤ}
use gongcli_mcp.Store.{MissingTranscriptCall, Outcome, error, ok}
use gongcli_mcp.Text.{cat, is_nil, trim_space, join}
use gongcli_mcp.Text.Unicode.{Unicode}
use gongcli_mcp.Governance.Config.{Config}
use gongcli_mcp.Governance.Ingest.{
  Decoder, IngestDecision, IngestError, Evaluated, decided, failed, evaluate_call_payload,
}
use gongcli_mcp.Transcripts.Batches.{normalize_batch_size, normalize_sync_limit, transcript_batches}
use gongcli_mcp.Transcripts.Run.{
  SyncResult, TranscriptError, no_out_dir, not_decided, not_done, not_loaded, failures,
  not_finished, and_not_finished, Request, make_dir, start_run, skip_and_delete_call,
  get_transcripts, upsert_transcript, write_file, finish_run, World, Run, no_sync_result,
  count_stored, count_failed, count_request, count_skip, count_items, noted, ask,
}
use gongcli_mcp.Transcripts.Response.{
  TranscriptDecoder, TranscriptResponseItem, split_transcript_response,
}

-- syncSafeFilename
is_unsafe : Char → Bool
is_unsafe c =
    nat_eq (code c) b'/' || nat_eq (code c) b'\\' || nat_eq (code c) b':' || nat_eq (code c) b' '

safe_filename : String → String
safe_filename String.[] = ""
safe_filename (String.◌∷◌ c s) =
    cat (if is_unsafe c then "_" else String.◌∷◌ c "") (safe_filename s)

module _ {S : Type 0} (world : World S) where
  module _ (join_path : String → String → String) (tjson : TranscriptDecoder) where
    after_write : Option String × Run S → Run S
    after_write (some e, r) = count_failed 1 r
    after_write (none, r) = count_stored r

    after_upsert : String → TranscriptResponseItem → Option String × Run S → Run S
    after_upsert dir i (some e, r) = count_failed 1 r
    after_upsert dir i (none, r) =
        after_write
          (ask world (write_file (join_path dir (cat (safe_filename i.call_id) ".json")) i.body) r)

    store_items : String → List TranscriptResponseItem → Run S → Run S
    store_items dir [] r = r
    store_items dir (i ∷ is) r =
        store_items dir is (after_upsert dir i (ask world (upsert_transcript i.body) r))

    after_split : String → ℕ → Option (List TranscriptResponseItem) → Run S → Run S
    after_split dir batch none r = count_failed batch r
    after_split dir batch (some items) r =
        store_items dir items (count_items (length items) batch r)

    after_fetch : String → List String → Run S → Outcome String × S → Run S
    after_fetch dir ids r (answer, w) =
        let asked =
          count_request (record r { world = w; requests = get_transcripts ids ∷ r.requests }) in
        elim answer [
          | error e ↦ count_failed (length ids) asked
          | ok body ↦ after_split dir (length ids) (split_transcript_response tjson body) asked
        ]

    -- One batch, and all of them.
    sync_batch : String → List MissingTranscriptCall → Run S → Run S
    sync_batch dir batch r =
        let ids = map (λ c. c.call_id) batch in after_fetch dir ids r (world.transcript r.world ids)

    pub sync_batches : String → List (List MissingTranscriptCall) → Run S → Run S
    sync_batches dir [] r = r
    sync_batches dir (batch ∷ batches) r = sync_batches dir batches (sync_batch dir batch r)

    -- Behind the batches.
    pub checked : Run S → Option TranscriptError × Run S
    checked r =
        if ltb 0 r.result.failed_count
        then (some (failures r.result.failed_count), r)
        else (none, r)

  module _ (json : Decoder) (u : Unicode) (fingerprint : Config → String) (cfg : Config) where
    -- The end of filterGovernedTranscriptCandidates: its error, the calls that stay, and the run.
    abbrev Filtered : Type 0
    Filtered = Option TranscriptError × List MissingTranscriptCall × Run S

    after_skip :
        (List MissingTranscriptCall → Run S → Filtered)
        → List MissingTranscriptCall
        → Option String × Run S
        → Filtered
    after_skip k kept (some e, r) = (some (not_done e), [], r)
    after_skip k kept (none, r) = k kept (count_skip r)

    after_decision :
        (List MissingTranscriptCall → Run S → Filtered)
        → MissingTranscriptCall
        → List MissingTranscriptCall
        → Run S
        → Evaluated
        → Filtered
    after_decision k c kept r (failed e) = (some (not_decided e), [], r)
    after_decision k c kept r (decided d) =
        if not d.skip
        then k (kept ++ c ∷ []) r
        else after_skip k kept
            (ask world (skip_and_delete_call d (fingerprint cfg) (join "," d.matched_lists)) r)

    after_load :
        (List MissingTranscriptCall → Run S → Filtered)
        → MissingTranscriptCall
        → List MissingTranscriptCall
        → Run S
        → Outcome String × S
        → Filtered
    after_load k c kept r (error e, w) = (some (not_loaded e), [], record r { world = w })
    after_load k c kept r (ok raw, w) =
        after_decision k c kept (record r { world = w })
          (evaluate_call_payload json u raw (some cfg))

    filter_calls : List MissingTranscriptCall → List MissingTranscriptCall → Run S → Filtered
    filter_calls [] kept r = (none, kept, r)
    filter_calls (c ∷ cs) kept r =
        after_load (filter_calls cs) c kept r (world.call_raw_json r.world c.call_id)

  module _ (json : Decoder) (u : Unicode) (fingerprint : Config → String) where
    filter_governed :
        Option Config
        → List MissingTranscriptCall
        → Run S
        → Option TranscriptError × List MissingTranscriptCall × Run S
    filter_governed none missing r = (none, missing, r)
    filter_governed (some cfg) missing r = filter_calls json u fingerprint cfg missing [] r

    module _ (join_path : String → String → String) (tjson : TranscriptDecoder) (dir : String)
        (size : ℤ) where
      -- Behind the filter.
      after_filter :
          Option TranscriptError × List MissingTranscriptCall × Run S
          → Option TranscriptError × Run S
      after_filter (some e, kept, r) = (some e, r)
      after_filter (none, kept, r) =
          checked join_path tjson
            (sync_batches join_path tjson dir (transcript_batches kept size) r)

      after_missing :
          Option Config
          → Run S
          → Outcome (List MissingTranscriptCall) × S
          → Option TranscriptError × Run S
      after_missing cfg r (error e, w) = (some (not_done e), record r { world = w })
      after_missing cfg r (ok missing, w) = after_filter (
          filter_governed cfg missing
            (record r { world = w; result = record r.result { considered = length missing } }))

    -- transcriptRequestContext
    transcript_request_context : (ℕ → String) → ℕ → ℕ → Option Config → String
    transcript_request_context print limit batch_size none =
        cat "limit=" (cat (print limit) (cat ",batch_size=" (print batch_size)))
    transcript_request_context print limit batch_size (some cfg) = cat "limit=" (
        cat (print limit) (
          cat ",batch_size="
            (cat (print batch_size) (cat ",governance_config_sha256=" (fingerprint cfg)))))

  -- The error of the run, where finishing had none.
  with_error : TranscriptError → Option String × Run S → Option TranscriptError × Run S
  with_error e (none, r) = (some e, r)
  with_error e (some f, r) = (some (and_not_finished e f), r)

  without_error : Option String × Run S → Option TranscriptError × Run S
  without_error (none, r) = (none, r)
  without_error (some f, r) = (some (not_finished f), r)

  -- The deferred call.
  finish_sync : Option TranscriptError × Run S → Option TranscriptError × Run S
  finish_sync (none, r) =
      without_error (ask world (finish_run "success" r.result.considered r.result.stored none) r)
  finish_sync (some e, r) =
      with_error e (ask world (finish_run "error" r.result.considered r.result.stored (some e)) r)

  -- A call that ends the run where it fails.
  or_end :
      Option String × Run S
      → (Run S → Option TranscriptError × Run S)
      → Option TranscriptError × Run S
  or_end (some e, r) k = (some (not_done e), r)
  or_end (none, r) k = k r

  module _ (json : Decoder) (u : Unicode) (fingerprint : Config → String)
      (join_path : String → String → String) (tjson : TranscriptDecoder) (print : ℕ → String) where
    pub sync_missing_with_batch :
        String → ℤ → ℤ → Option Config → S → Option TranscriptError × Run S
    sync_missing_with_batch out_dir limit size cfg w =
        let dir = trim_space out_dir in
        let count = normalize_sync_limit limit in
        let batch = normalize_batch_size size in
        let r : Run S = record { world = w; requests = []; result = no_sync_result } in
        let context = transcript_request_context json u fingerprint print count batch cfg in
        if is_nil dir
        then (some no_out_dir, r)
        else or_end (ask world (make_dir dir) r) (λ r1.
          or_end
            (ask world (start_run "transcripts" "transcripts:missing" context)
              (record r1 { result = record r1.result { batch_size = batch } }))
            (λ r2. finish_sync (
              after_missing json u fingerprint join_path tjson dir size cfg r2
                (world.find_missing r2.world count))))
