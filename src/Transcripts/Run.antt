-- ===== src/Transcripts/Run.antt =====
-- The state of syncMissingWithBatch of internal/transcripts/sync.go. The world `S` stands for the Gong
-- client, the store and the file system; a run keeps what it asked of them, the latest first.
use gongcli_mcp.Prelude.{ℕ, suc, ◌+◌, ◌-◌, String, Option, List, ◌∷◌}
use gongcli_mcp.Store.{MissingTranscriptCall, Outcome}
use gongcli_mcp.Governance.Ingest.{IngestDecision, IngestError}

pub record SyncResult : Type 0 where
  pub considered : ℕ
  pub downloaded : ℕ
  pub stored : ℕ
  pub failed_count : ℕ
  pub requests : ℕ
  pub batch_size : ℕ
  pub skipped : ℕ

pub data TranscriptError : Type 0 where
  no_out_dir : TranscriptError
  not_decided : IngestError → TranscriptError
  not_done not_loaded : String → TranscriptError
  failures : ℕ → TranscriptError
  not_finished : String → TranscriptError
  and_not_finished : TranscriptError → String → TranscriptError

-- What the run asks of the world and that is answered by an error alone.
pub data Request : Type 0 where
  make_dir : String → Request
  start_run : String → String → String → Request
  skip_and_delete_call : IngestDecision → String → String → Request
  get_transcripts : List String → Request
  upsert_transcript : String → Request
  write_file : String → String → Request
  finish_run : String → ℕ → ℕ → Option TranscriptError → Request

pub record World (S : Type 0) : Type 0 where
  pub perform : S → Request → Option String × S
  pub find_missing : S → ℕ → Outcome (List MissingTranscriptCall) × S
  pub call_raw_json : S → String → Outcome String × S
  pub transcript : S → List String → Outcome String × S

pub record Run (S : Type 0) : Type 0 where
  pub world : S
  pub requests : List Request
  pub result : SyncResult

abbrev pub no_sync_result : SyncResult
no_sync_result = record {
  considered = 0;
  downloaded = 0;
  stored = 0;
  failed_count = 0;
  requests = 0;
  batch_size = 0;
  skipped = 0;
}

module _ {S : Type 0} where
  unfoldable pub count_stored : Run S → Run S
  count_stored r = record r { result = record r.result { stored = suc r.result.stored } }

  unfoldable pub count_failed : ℕ → Run S → Run S
  count_failed n r = record r {
    result = record r.result { failed_count = r.result.failed_count + n };
  }

  unfoldable pub count_request : Run S → Run S
  count_request r = record r { result = record r.result { requests = suc r.result.requests } }

  unfoldable pub count_skip : Run S → Run S
  count_skip r = record r { result = record r.result { skipped = suc r.result.skipped } }

  -- Downloaded, with those that the response left out as failed.
  unfoldable pub count_items : ℕ → ℕ → Run S → Run S
  count_items items batch r =
      count_failed (batch - items)
        (record r { result = record r.result { downloaded = r.result.downloaded + items } })

  unfoldable pub noted : Request → Run S → Option String × S → Option String × Run S
  noted q r (e, w) = (e, record r { world = w; requests = q ∷ r.requests })

module _ {S : Type 0} (world : World S) where
  unfoldable pub ask : Request → Run S → Option String × Run S
  ask q r = noted q r (world.perform r.world q)
