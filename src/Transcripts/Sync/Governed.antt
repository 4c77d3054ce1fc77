-- ===== src/Transcripts/Sync/Governed.antt =====
-- Which transcripts a governed sync asks for.
use gongcli_mcp.Prelude.{
  ℕ, String, ◌≡◌, refl, subst, Option, none, some, List, [], ◌∷◌, ◌++◌, map, All, All-append,
  Bool-cases, inl, inr, ltb,
}
use gongcli_mcp.Prelude.Int.{ℤ}
use gongcli_mcp.Store.{MissingTranscriptCall, Outcome, error, ok}
use gongcli_mcp.Text.{is_nil, trim_space}
use gongcli_mcp.Text.Unicode.{Unicode}
use gongcli_mcp.Governance.Config.{Config}
use gongcli_mcp.Governance.Ingest.{Decoder, Evaluated, decided, failed, evaluate_call_payload}
use gongcli_mcp.Governance.Ingest.Decision.{IsFree, kept-IsFree}
use gongcli_mcp.Transcripts.Batches.Partition.{All-transcript_batches}
use gongcli_mcp.Transcripts.Response.{TranscriptDecoder, TranscriptResponseItem}
use gongcli_mcp.Transcripts.Run.{
  TranscriptError, Request, get_transcripts, World, Run, count_stored, count_failed, count_request,
  count_skip, count_items, noted, ask,
}
use gongcli_mcp.Transcripts.Sync.{
  after_write, after_upsert, store_items, after_split, after_fetch, sync_batch, sync_batches,
  checked, after_skip, after_decision, after_load, filter_calls, filter_governed, after_filter,
  after_missing, with_error, without_error, finish_sync, or_end, sync_missing_with_batch,
}

-- The states that requests to the world lead to.
pub data Reached {S : Type 0} (world : World S) (first : S) : S → Type 0 where
  at_first : Reached world first first
  performed :
      (w : S) (q : Request) → Reached world first w → Reached world first (world.perform w q).1
  searched :
      (w : S) (n : ℕ) → Reached world first w → Reached world first (world.find_missing w n).1
  loaded_call :
      (w : S) (id : String)
      → Reached world first w
      → Reached world first (world.call_raw_json w id).1

module _ {S : Type 0} (world : World S) (u : Unicode) (cfg : Config) (first : S) where
  -- In a state that the run reached, the store answered a payload of this call, and neither its raw
  -- text nor a string that it quotes mentions a listed name or alias.
  abbrev pub IsVouched : String → Type 0
  IsVouched id =
      (w : S) × (raw : String) × Reached world first w
      × ((world.call_raw_json w id).0 ≡ ok raw)
      × IsFree u (some cfg) raw

  abbrev pub Permits : Request → Type 0
  Permits (get_transcripts ids) = All IsVouched ids
  Permits _ = Unit

  abbrev CallIsVouched : MissingTranscriptCall → Type 0
  CallIsVouched c = IsVouched c.call_id

  ids-IsVouched :
      (cs : List MissingTranscriptCall)
      → All CallIsVouched cs
      → All IsVouched (map (λ c. c.call_id) cs)
  ids-IsVouched [] h = tt
  ids-IsVouched (c ∷ cs) h = (h.0, ids-IsVouched cs h.1)

  module _ (join_path : String → String → String) (tjson : TranscriptDecoder) (dir : String) where
    after_write-Permits :
        (x : Option String × Run S)
        → All Permits x.1.requests
        → All Permits (after_write world join_path tjson x).requests
    unfolding after_write count_stored count_failed
    after_write-Permits (none, r) h = h
    after_write-Permits (some e, r) h = h

    after_upsert-Permits :
        (i : TranscriptResponseItem) (x : Option String × Run S)
        → All Permits x.1.requests
        → All Permits (after_upsert world join_path tjson dir i x).requests
    unfolding after_upsert count_failed ask noted
    after_upsert-Permits i (none, r) h = after_write-Permits (ask world _ r) (tt, h)
    after_upsert-Permits i (some e, r) h = h

    store_items-Permits :
        (is : List TranscriptResponseItem) (r : Run S)
        → All Permits r.requests
        → All Permits (store_items world join_path tjson dir is r).requests
    unfolding store_items ask noted
    store_items-Permits [] r h = h
    store_items-Permits (i ∷ is) r h =
        store_items-Permits is _ (after_upsert-Permits i (ask world _ r) (tt, h))

    after_split-Permits :
        (n : ℕ) (items : Option (List TranscriptResponseItem)) (r : Run S)
        → All Permits r.requests
        → All Permits (after_split world join_path tjson dir n items r).requests
    unfolding after_split count_failed count_items
    after_split-Permits n none r h = h
    after_split-Permits n (some is) r h = store_items-Permits is _ h

    after_fetch-Permits :
        (ids : List String) (r : Run S) (x : Outcome String × S)
        → All IsVouched ids
        → All Permits r.requests
        → All Permits (after_fetch world join_path tjson dir ids r x).requests
    unfolding after_fetch count_request count_failed
    after_fetch-Permits ids r (error e, w) v h = (v, h)
    after_fetch-Permits ids r (ok body, w) v h = after_split-Permits _ _ _ (v, h)

    sync_batches-Permits :
        (bs : List (List MissingTranscriptCall)) (r : Run S)
        → All (All CallIsVouched) bs
        → All Permits r.requests
        → All Permits (sync_batches world join_path tjson dir bs r).requests
    unfolding sync_batches sync_batch
    sync_batches-Permits [] r v h = h
    sync_batches-Permits (b ∷ bs) r v h =
        sync_batches-Permits bs _ v.1 (after_fetch-Permits _ r _ (ids-IsVouched b v.0) h)

    checked-Permits :
        (r : Run S)
        → All Permits r.requests
        → All Permits (checked world join_path tjson r).1.requests
    unfolding checked
    checked-Permits r h = elim (Bool-cases (ltb 0 r.result.failed_count)) [
      | inl bad ↦ rw (bad, checked) h
      | inr good ↦ rw (good, checked) h
    ]

  module _ (json : Decoder) (fingerprint : Config → String) where
    -- The calls that the filter keeps, and what it asked for.
    abbrev Keeps : Option TranscriptError × List MissingTranscriptCall × Run S → Type 0
    Keeps x = All CallIsVouched x.1 × All Permits x.2.requests

    module _
        (k : List MissingTranscriptCall
          → Run S
          → Option TranscriptError × List MissingTranscriptCall × Run S)
        (later : (kept : List MissingTranscriptCall) (r : Run S)
          → Reached world first r.world
          → All CallIsVouched kept
          → All Permits r.requests
          → Keeps (k kept r)) where
      after_skip-Keeps :
          (kept : List MissingTranscriptCall) (x : Option String × Run S)
          → Reached world first x.1.world
          → All CallIsVouched kept
          → All Permits x.1.requests
          → Keeps (after_skip world json u fingerprint cfg k kept x)
      unfolding after_skip count_skip
      after_skip-Keeps kept (some e, r) reached v h = (tt, h)
      after_skip-Keeps kept (none, r) reached v h = later kept _ reached v h

      after_decision-Keeps :
          (c : MissingTranscriptCall) (kept : List MissingTranscriptCall) (w : S) (r : Run S)
          (raw : String) (e : Evaluated)
          → (world.call_raw_json w c.call_id).0 ≡ ok raw
          → evaluate_call_payload json u raw (some cfg) ≡ e
          → Reached world first w
          → Reached world first r.world
          → All CallIsVouched kept
          → All Permits r.requests
          → Keeps (after_decision world json u fingerprint cfg k c kept r e)
      unfolding after_decision ask noted
      after_decision-Keeps c kept w r raw (failed e) loaded same before reached v h = (tt, h)
      after_decision-Keeps c kept w r raw (decided d) loaded same before reached v h =
          elim (Bool-cases d.skip) [
            | inl skip ↦
                rw (skip, after_decision)
                  (after_skip-Keeps kept (ask world _ r) (performed r.world _ reached) v (tt, h))
            | inr keep ↦
                rw (keep, after_decision)
                  (later (kept ++ c ∷ []) r reached
                    (All-append CallIsVouched kept (c ∷ []) v
                      ((w, raw, before, loaded, kept-IsFree json u raw (some cfg) d same keep), tt))
                    h)
          ]

      after_load-Keeps :
          (c : MissingTranscriptCall) (kept : List MissingTranscriptCall) (w : S) (r : Run S)
          (x : Outcome String × S)
          → world.call_raw_json w c.call_id ≡ x
          → Reached world first w
          → All CallIsVouched kept
          → All Permits r.requests
          → Keeps (after_load world json u fingerprint cfg k c kept r x)
      unfolding after_load
      after_load-Keeps c kept w r (error e, w') loaded before v h = (tt, h)
      after_load-Keeps c kept w r (ok raw, w') loaded before v h =
          after_decision-Keeps c kept w (record r { world = w' }) raw _ (rw loaded refl) refl before
            (subst (λ y. Reached world first y.1) loaded (loaded_call w c.call_id before)) v h

    filter_calls-Keeps :
        (cs kept : List MissingTranscriptCall) (r : Run S)
        → Reached world first r.world
        → All CallIsVouched kept
        → All Permits r.requests
        → Keeps (filter_calls world json u fingerprint cfg cs kept r)
    unfolding filter_calls
    filter_calls-Keeps [] kept r reached v h = (v, h)
    filter_calls-Keeps (c ∷ cs) kept r reached v h =
        after_load-Keeps (filter_calls world json u fingerprint cfg cs) (filter_calls-Keeps cs) c
          kept r.world r _ refl reached v h

    module _ (join_path : String → String → String) (tjson : TranscriptDecoder) (dir : String)
        (size : ℤ) where
      after_filter-Permits :
          (x : Option TranscriptError × List MissingTranscriptCall × Run S)
          → Keeps x
          → All Permits
              (after_filter world json u fingerprint join_path tjson dir size x).1.requests
      unfolding after_filter
      after_filter-Permits (some e, kept, r) h = h.1
      after_filter-Permits (none, kept, r) h = checked-Permits join_path tjson dir _ (
          sync_batches-Permits join_path tjson dir _ r
            (All-transcript_batches CallIsVouched kept size h.0) h.1)

      after_missing-Permits :
          (r : Run S) (x : Outcome (List MissingTranscriptCall) × S)
          → Reached world first x.1
          → All Permits r.requests
          → All Permits
              (after_missing world json u fingerprint join_path tjson dir size
                (some cfg)
                r
                x).1.requests
      unfolding after_missing filter_governed
      after_missing-Permits r (error e, w) reached h = h
      after_missing-Permits r (ok missing, w) reached h =
          after_filter-Permits _ (filter_calls-Keeps missing [] _ reached tt h)

  or_end-Permits :
      (x : Option String × Run S) (k : Run S → Option TranscriptError × Run S)
      → Reached world first x.1.world
      → All Permits x.1.requests
      → ((r : Run S)
          → Reached world first r.world
          → All Permits r.requests
          → All Permits (k r).1.requests)
      → All Permits (or_end world x k).1.requests
  unfolding or_end
  or_end-Permits (some e, r) k reached h f = h
  or_end-Permits (none, r) k reached h f = f r reached h

  with_error-Permits :
      (e : TranscriptError) (x : Option String × Run S)
      → All Permits x.1.requests
      → All Permits (with_error world e x).1.requests
  unfolding with_error
  with_error-Permits e (none, r) h = h
  with_error-Permits e (some f, r) h = h

  without_error-Permits :
      (x : Option String × Run S)
      → All Permits x.1.requests
      → All Permits (without_error world x).1.requests
  unfolding without_error
  without_error-Permits (none, r) h = h
  without_error-Permits (some f, r) h = h

  finish_sync-Permits :
      (x : Option TranscriptError × Run S)
      → All Permits x.1.requests
      → All Permits (finish_sync world x).1.requests
  unfolding finish_sync ask noted
  finish_sync-Permits (none, r) h = without_error-Permits (ask world _ r) (tt, h)
  finish_sync-Permits (some e, r) h = with_error-Permits e (ask world _ r) (tt, h)

-- A sync with a governance config asks Gong for the transcript of a call only where the store, in a
-- state that the sync reached, answered a payload of that call whose raw JSON text, with its escapes
-- not decoded, mentions no listed name or alias, and which so has no string between quotes, with no
-- escape in it, that mentions one, whatever Gong and the store answer, and also when the sync ends in
-- an error.
pub sync_missing_with_batch-Permits :
    {S : Type 0} (world : World S) (json : Decoder) (u : Unicode) (fingerprint : Config → String)
    (join_path : String → String → String) (tjson : TranscriptDecoder) (print : ℕ → String)
    (out_dir : String) (limit size : ℤ) (cfg : Config) (w : S)
    → All
        (Permits world u cfg w)
        (sync_missing_with_batch world json u fingerprint join_path tjson print out_dir limit size
          (some cfg)
          w).1.requests
unfolding sync_missing_with_batch ask noted
sync_missing_with_batch-Permits world json u fingerprint join_path tjson print out_dir limit size
      cfg w =
    elim (Bool-cases (is_nil (trim_space out_dir))) [
      | inl blank ↦ rw (blank, sync_missing_with_batch, All) tt
      | inr named ↦
          rw (named, sync_missing_with_batch, All)
            (or_end-Permits world u cfg w (ask world _ _) _ (performed w _ at_first) (tt, tt)
              (λ r1 reached1 h1.
                or_end-Permits world u cfg w (ask world _ _) _ (performed r1.world _ reached1)
                  (tt, h1)
                  (λ r2 reached2 h2. finish_sync-Permits world u cfg w _ (
                    after_missing-Permits world u cfg w json fingerprint join_path tjson
                      (trim_space out_dir) size r2 _ (searched r2.world _ reached2) h2))))
    ]
