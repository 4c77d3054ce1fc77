-- ===== src/Sync/Run.antt =====
-- The state of a run of internal/syncsvc and the commands that it gives its store.
use gongcli_mcp.Prelude.{ℕ, suc, String, Bool, Option, none, some, List, ◌∷◌}
use gongcli_mcp.Prelude.Int.{ℤ}
use gongcli_mcp.Governance.Config.{Config}
use gongcli_mcp.Governance.Ingest.{IngestError}

pub record CallsParams : Type 0 where
  pub from : String
  pub to : String
  pub cursor : String
  pub context : String
  pub preset : String
  pub max_pages : ℤ
  pub expose_parties : Bool
  pub expose_highlights : Bool
  pub governance : Option Config

pub record Result : Type 0 where
  pub scope : String
  pub sync_key : String
  pub cursor : String
  pub pages : ℕ
  pub records_seen : ℕ
  pub records_written : ℕ
  pub participant_capture_status : String
  pub records_skipped : ℕ

-- CallListParams
pub record CallListParams : Type 0 where
  pub from : String
  pub to : String
  pub cursor : String
  pub context : String
  pub expose_parties : Bool
  pub expose_highlights : Bool

-- callsPage: the raw calls and the cursor of the next page.
pub record CallsPage : Type 0 where
  pub items : List String
  pub cursor : String

-- The answer of the client: the body, or an error with the status of an HTTPError.
pub data Fetched : Type 0 where
  body : String → Fetched
  unreachable : Fetched
  http_error : ℕ → Fetched

pub data SyncError : Type 0 where
  negative_max_pages fetch_error bad_page out_of_fuel : SyncError
  ingest_error : IngestError → SyncError
  store_error rerun_with_governance cursor_repeated : String → SyncError
  finish_error : String → SyncError
  error_and_finish_error : SyncError → String → SyncError

-- What the run asks of the store.
pub data Command : Type 0 where
  start_run : String → String → String → String → String → String → Command
  finish_run : String → String → ℕ → ℕ → Option SyncError → String → Command
  record_skipped : String → String → String → String → Command
  clear_skipped : String → Command
  upsert_call : String → Command

pub record Run (S : Type 0) : Type 0 where
  pub world : S
  pub commands : List Command
  pub result : Result
  pub request_context : String

module _ {S : Type 0} where
  -- The early return on an error.
  unfoldable pub and_then :
      Option SyncError × Run S → (Run S → Option SyncError × Run S) → Option SyncError × Run S
  and_then (some e, r) k = (some e, r)
  and_then (none, r) k = k r

module _ {S : Type 0} where
  -- The error of the loop where finishing had none.
  unfoldable pub first_error : SyncError → Option SyncError × Run S → Option SyncError × Run S
  first_error e (none, r) = (some e, r)
  first_error e (some f, r) = (some f, r)

module _ {S : Type 0} (store : S → Command → Option String × S) where
  unfoldable pub answered :
      (String → SyncError) → Run S → Command → Option String × S → Option SyncError × Run S
  answered wrap r c (none, w) = (none, record r { world = w; commands = c ∷ r.commands })
  answered wrap r c (some e, w) = (some (wrap e), record r { world = w; commands = c ∷ r.commands })

  -- One command; an error of the store ends the run.
  unfoldable pub issue : (String → SyncError) → Command → Run S → Option SyncError × Run S
  issue wrap c r = answered wrap r c (store r.world c)

  -- The deferred call: the run is finished whatever the loop's result.
  unfoldable pub finish : Option SyncError × Run S → Option SyncError × Run S
  finish (none, r) =
      issue finish_error
        (finish_run "success" r.result.cursor r.result.records_seen r.result.records_written none
          r.request_context)
        r
  finish (some e, r) = first_error e (
      issue (error_and_finish_error e)
        (finish_run "error" r.result.cursor r.result.records_seen r.result.records_written (some e)
          r.request_context)
        r)

  unfoldable pub count_written : Run S → Option SyncError × Run S
  count_written r = (
    none,
    record r { result = record r.result { records_written = suc r.result.records_written } },
  )

  unfoldable pub count_skipped : Run S → Option SyncError × Run S
  count_skipped r = (
    none,
    record r { result = record r.result { records_skipped = suc r.result.records_skipped } },
  )
