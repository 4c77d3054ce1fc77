-- ===== src/Transcripts/Sync/Tests.antt =====
-- A governed sync of two calls, one of which mentions a listed customer.
use gongcli_mcp.Prelude.{
  ℕ, String, ◌==◌, ◌≡◌, refl, true, none, some, List, [], ◌∷◌, All, if◌then◌else◌,
}
use gongcli_mcp.Prelude.Assoc.{lookup}
use gongcli_mcp.Prelude.Int.{pos}
use gongcli_mcp.Store.{MissingTranscriptCall, ok}
use gongcli_mcp.Text.{join, trim_space}
use gongcli_mcp.Text.Ascii.{ascii}
use gongcli_mcp.Governance.Config.{Config}
use gongcli_mcp.Governance.Name.{name_fields}
use gongcli_mcp.Governance.Audit.{audit_candidates}
use gongcli_mcp.Governance.Ingest.{Decoder, evaluate_call_payload, call_id_from_raw}
use gongcli_mcp.Mcp.Json.{text, member, no_members, find_member}
use gongcli_mcp.Transcripts.Batches.{transcript_batches, normalize_batch_size, normalize_sync_limit}
use gongcli_mcp.Transcripts.Response.{TranscriptDecoder, split_transcript_response}
use gongcli_mcp.Transcripts.Run.{
  SyncResult, World, count_stored, count_failed, count_request, count_skip, count_items, noted, ask,
}
use gongcli_mcp.Transcripts.Sync.{
  after_write, after_upsert, store_items, after_split, after_fetch, sync_batch, sync_batches,
  checked, after_skip, after_decision, after_load, filter_calls, filter_governed, after_filter,
  after_missing, without_error, finish_sync, or_end, transcript_request_context, safe_filename,
  is_unsafe, sync_missing_with_batch,
}
use gongcli_mcp.Transcripts.Sync.Complete.{sync_missing_with_batch-IsComplete}
use gongcli_mcp.Transcripts.Sync.Counters.{IsComplete}
use gongcli_mcp.Transcripts.Sync.Governed.{Permits, sync_missing_with_batch-Permits}

abbrev acme : Config
acme = record {
  version = pos 1;
  lists =
      (
        "no_ai",
        record {
          description = "";
          action = "";
          customers = record { name = "Acme"; aliases = []; reason = ""; notes = "" } ∷ [];
        },
      )
      ∷ [];
}

abbrev json : Decoder
json = record { object = λ raw. some (("id", raw) ∷ []); text = λ raw. some raw }

abbrev tjson : TranscriptDecoder
tjson = record {
  valid = λ body. true;
  envelope = λ body. some (("callTranscripts", body) ∷ []);
  raw_items = λ raw. some (raw ∷ []);
  members = λ raw. some (member "callId" (text raw) no_members);
  normalize_item = λ raw. some raw;
}

abbrev missing : List MissingTranscriptCall
missing =
    record { call_id = "c1"; title = "Acme renewal"; started_at = "" }
    ∷ record { call_id = "c 2"; title = "Intro"; started_at = "" }
    ∷ []

-- A store that takes every request, and a client that answers.
abbrev world : World (Unit {0})
world = record {
  perform = λ w q. (none, tt);
  find_missing = λ w limit. (ok missing, tt);
  call_raw_json = λ w id. (ok (if id == "c1" then "{acme}" else "{intro}"), tt);
  transcript = λ w ids. (ok (join "," ids), tt);
}

abbrev fingerprint : Config → String
fingerprint cfg = "f00d"

abbrev print : ℕ → String
print n = "n"

abbrev join_path : String → String → String
join_path dir file = join "/" (dir ∷ file ∷ [])

abbrev counters : SyncResult
counters = record {
  considered = 2;
  downloaded = 1;
  stored = 1;
  failed_count = 0;
  requests = 1;
  batch_size = 10;
  skipped = 1;
}

sync_run :
    (sync_missing_with_batch world json ascii fingerprint join_path tjson print " out "
      (pos 0)
      (pos 10)
      (some acme)
      tt).1.result
    ≡ counters
unfolding sync_missing_with_batch normalize_sync_limit normalize_batch_size
    transcript_request_context trim_space or_end ask noted finish_sync after_missing filter_governed
    filter_calls after_load after_decision after_skip count_skip after_filter sync_batches
    sync_batch after_fetch after_split store_items after_upsert after_write count_stored
    count_failed count_request count_items checked transcript_batches split_transcript_response
    without_error evaluate_call_payload audit_candidates name_fields join safe_filename is_unsafe
    find_member lookup call_id_from_raw
sync_run = refl

sync_missing_with_batch-IsComplete_example : IsComplete (
    sync_missing_with_batch world json ascii fingerprint join_path tjson print " out "
      (pos 0)
      (pos 10)
      (some acme)
      tt)
sync_missing_with_batch-IsComplete_example =
    sync_missing_with_batch-IsComplete world json ascii fingerprint join_path tjson print " out "
      (pos 0) (pos 10) (some acme) tt

sync_missing_with_batch-Permits_example :
    All
      (Permits world ascii acme tt)
      (sync_missing_with_batch world json ascii fingerprint join_path tjson print " out "
        (pos 0)
        (pos 10)
        (some acme)
        tt).1.requests
sync_missing_with_batch-Permits_example =
    sync_missing_with_batch-Permits world json ascii fingerprint join_path tjson print " out "
      (pos 0) (pos 10) acme tt
