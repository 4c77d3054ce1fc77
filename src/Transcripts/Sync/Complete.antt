-- ===== src/Transcripts/Sync/Complete.antt =====
-- A transcript sync without an error is complete.
use gongcli_mcp.Prelude.{
  ℕ, suc, ◌+◌, String, ◌≡◌, refl, Option, none, some, List, [], ◌∷◌, ◌++◌, length, length-append,
  arith, Bool-cases, inl, inr,
}
use gongcli_mcp.Prelude.Int.{ℤ}
use gongcli_mcp.Store.{MissingTranscriptCall, Outcome, error, ok}
use gongcli_mcp.Text.{is_nil, trim_space}
use gongcli_mcp.Text.Unicode.{Unicode}
use gongcli_mcp.Governance.Config.{Config}
use gongcli_mcp.Governance.Ingest.{Decoder, Evaluated, decided, failed}
use gongcli_mcp.Transcripts.Response.{TranscriptDecoder}
use gongcli_mcp.Transcripts.Run.{SyncResult, TranscriptError, World, Run, count_skip, noted, ask}
use gongcli_mcp.Transcripts.Sync.{
  after_skip, after_decision, after_load, filter_calls, filter_governed, after_filter,
  after_missing, with_error, without_error, finish_sync, or_end, sync_missing_with_batch,
}
use gongcli_mcp.Transcripts.Sync.Counters.{IsFresh, IsComplete, batches-IsComplete}

module _ {S : Type 0} (world : World S) (json : Decoder) (u : Unicode)
    (fingerprint : Config → String) where
  abbrev IsFiltered : Option TranscriptError × List MissingTranscriptCall × Run S → Type 0
  IsFiltered x = x.0 ≡ none → IsFresh (length x.1) x.2.result

  module _ (cfg : Config) where
    -- The rest of the filter, with `n` calls to come.
    module _ (n : ℕ)
        (k : List MissingTranscriptCall
          → Run S
          → Option TranscriptError × List MissingTranscriptCall × Run S)
        (later : (kept : List MissingTranscriptCall) (r : Run S)
          → IsFresh (length kept + n) r.result
          → IsFiltered (k kept r)) where
      after_skip-IsFiltered :
          (kept : List MissingTranscriptCall) (x : Option String × Run S)
          → IsFresh (length kept + suc n) x.1.result
          → IsFiltered (after_skip world json u fingerprint cfg k kept x)
      unfolding after_skip count_skip
      after_skip-IsFiltered kept (some e, r) f = λ h. cc
      after_skip-IsFiltered kept (none, r) f = later kept (count_skip r) (record {
        counted = omega (arith, f.counted);
        no_stored = f.no_stored;
        no_failed = f.no_failed;
        no_downloaded = f.no_downloaded;
      })

      after_decision-IsFiltered :
          (c : MissingTranscriptCall) (kept : List MissingTranscriptCall) (r : Run S)
          (e : Evaluated)
          → IsFresh (length kept + suc n) r.result
          → IsFiltered (after_decision world json u fingerprint cfg k c kept r e)
      unfolding after_decision ask noted
      after_decision-IsFiltered c kept r (failed e) f = λ h. cc
      after_decision-IsFiltered c kept r (decided d) f = elim (Bool-cases d.skip) [
        | inl skip ↦ rw (skip, after_decision) (after_skip-IsFiltered kept (ask world _ r) f)
        | inr keep ↦
            rw (keep, after_decision)
              (later (kept ++ c ∷ []) r (record {
                counted = omega (arith, f.counted, length-append kept (c ∷ []));
                no_stored = f.no_stored;
                no_failed = f.no_failed;
                no_downloaded = f.no_downloaded;
              }))
      ]

      after_load-IsFiltered :
          (c : MissingTranscriptCall) (kept : List MissingTranscriptCall) (r : Run S)
          (x : Outcome String × S)
          → IsFresh (length kept + suc n) r.result
          → IsFiltered (after_load world json u fingerprint cfg k c kept r x)
      unfolding after_load
      after_load-IsFiltered c kept r (error e, w) f = λ h. cc
      after_load-IsFiltered c kept r (ok raw, w) f =
          after_decision-IsFiltered c kept (record r { world = w }) _ f

    filter_calls-IsFiltered :
        (cs kept : List MissingTranscriptCall) (r : Run S)
        → IsFresh (length kept + length cs) r.result
        → IsFiltered (filter_calls world json u fingerprint cfg cs kept r)
    unfolding filter_calls
    filter_calls-IsFiltered [] kept r f = λ h. record {
      counted = omega (arith, f.counted);
      no_stored = f.no_stored;
      no_failed = f.no_failed;
      no_downloaded = f.no_downloaded;
    }
    filter_calls-IsFiltered (c ∷ cs) kept r f =
        after_load-IsFiltered (length cs) (filter_calls world json u fingerprint cfg cs)
          (filter_calls-IsFiltered cs) c kept r _ f

-- No counter has moved yet.
abbrev IsUntouched : SyncResult → Type 0
IsUntouched a = (a.skipped ≡ 0) × (a.stored ≡ 0) × (a.failed_count ≡ 0) × (a.downloaded ≡ 0)

module _ {S : Type 0} (world : World S) where
  or_end-IsComplete :
      (x : Option String × Run S) (k : Run S → Option TranscriptError × Run S)
      → IsUntouched x.1.result
      → ((r : Run S) → IsUntouched r.result → IsComplete (k r))
      → IsComplete (or_end world x k)
  unfolding or_end
  or_end-IsComplete (some e, r) k h f = λ e'. cc
  or_end-IsComplete (none, r) k h f = f r h

  without_error-IsComplete :
      (x : Option String × Run S) → IsComplete (none, x.1) → IsComplete (without_error world x)
  unfolding without_error
  without_error-IsComplete (none, r) f = f
  without_error-IsComplete (some e, r) f = λ h. cc

  with_error-IsComplete :
      (e : TranscriptError) (x : Option String × Run S) → IsComplete (with_error world e x)
  unfolding with_error
  with_error-IsComplete e (none, r) = λ h. cc
  with_error-IsComplete e (some f, r) = λ h. cc

  finish_sync-IsComplete :
      (x : Option TranscriptError × Run S) → IsComplete x → IsComplete (finish_sync world x)
  unfolding finish_sync ask noted
  finish_sync-IsComplete (none, r) f = without_error-IsComplete (ask world _ r) f
  finish_sync-IsComplete (some e, r) f = with_error-IsComplete e (ask world _ r)

module _ {S : Type 0} (world : World S) (json : Decoder) (u : Unicode)
    (fingerprint : Config → String) (join_path : String → String → String)
    (tjson : TranscriptDecoder) (dir : String) (size : ℤ) where
  after_filter-IsComplete :
      (x : Option TranscriptError × List MissingTranscriptCall × Run S)
      → (x.0 ≡ none → IsFresh (length x.1) x.2.result)
      → IsComplete (after_filter world json u fingerprint join_path tjson dir size x)
  unfolding after_filter
  after_filter-IsComplete (some e, kept, r) f = λ h. cc
  after_filter-IsComplete (none, kept, r) f =
      batches-IsComplete world join_path tjson dir kept size r (f refl)

  filter_governed-IsFresh :
      (cfg : Option Config) (missing : List MissingTranscriptCall) (r : Run S)
      → IsFresh (length missing) r.result
      → (filter_governed world json u fingerprint cfg missing r).0 ≡ none
      → IsFresh
          (length (filter_governed world json u fingerprint cfg missing r).1)
          (filter_governed world json u fingerprint cfg missing r).2.result
  unfolding filter_governed
  filter_governed-IsFresh none missing r f e = f
  filter_governed-IsFresh (some cfg) missing r f e =
      filter_calls-IsFiltered world json u fingerprint cfg missing [] r
        (record {
          counted = omega (arith, f.counted);
          no_stored = f.no_stored;
          no_failed = f.no_failed;
          no_downloaded = f.no_downloaded;
        })
        e

  after_missing-IsComplete :
      (cfg : Option Config) (r : Run S) (x : Outcome (List MissingTranscriptCall) × S)
      → IsUntouched r.result
      → IsComplete (after_missing world json u fingerprint join_path tjson dir size cfg r x)
  unfolding after_missing
  after_missing-IsComplete cfg r (error e, w) zeros = λ h. cc
  after_missing-IsComplete cfg r (ok missing, w) zeros = after_filter-IsComplete _ (
      filter_governed-IsFresh cfg missing _ (record {
        counted = omega (arith, zeros.0);
        no_stored = zeros.1;
        no_failed = zeros.2;
        no_downloaded = zeros.3;
      }))

-- A sync that ends without an error, with or without a governance config, had no failure, stored all
-- that it downloaded, and stored at least as many transcripts as the calls that it considered and
-- did not skip.
pub sync_missing_with_batch-IsComplete :
    {S : Type 0} (world : World S) (json : Decoder) (u : Unicode) (fingerprint : Config → String)
    (join_path : String → String → String) (tjson : TranscriptDecoder) (print : ℕ → String)
    (out_dir : String) (limit size : ℤ) (cfg : Option Config) (w : S)
    → IsComplete (
        sync_missing_with_batch world json u fingerprint join_path tjson print out_dir limit size
          cfg w)
unfolding sync_missing_with_batch ask noted
sync_missing_with_batch-IsComplete world json u fingerprint join_path tjson print out_dir limit size
      cfg w =
    elim (Bool-cases (is_nil (trim_space out_dir))) [
      | inl blank ↦ rw (blank, sync_missing_with_batch) (λ e. cc)
      | inr named ↦
          rw (named, sync_missing_with_batch)
            (or_end-IsComplete world (ask world _ _) _ (refl, refl, refl, refl)
              (λ r1 h1. or_end-IsComplete world (ask world _ _) _ h1 (λ r2 h2.
                finish_sync-IsComplete world _ (
                  after_missing-IsComplete world json u fingerprint join_path tjson
                    (trim_space out_dir) size cfg r2 _ h2))))
    ]
