-- ===== src/Transcripts/Sync/Counters.antt =====
-- What the counters of a transcript sync say.
use gongcli_mcp.Prelude.{
  ℕ, ◌+◌, ◌≤◌, String, ◌≡◌, refl, sym, ap, subst, ◌∙◌, Option, none, some, List, [], ◌∷◌, map,
  length, length-append, ltb, arith, Bool-cases, inl, inr,
}
use gongcli_mcp.Prelude.Int.{ℤ}
use gongcli_mcp.Store.{MissingTranscriptCall, Outcome, error, ok}
use gongcli_mcp.Transcripts.Batches.{transcript_batches}
use gongcli_mcp.Transcripts.Batches.Partition.{concat, transcript_batches-IsBatch}
use gongcli_mcp.Transcripts.Response.{
  TranscriptDecoder, TranscriptResponseItem, split_transcript_response,
}
use gongcli_mcp.Transcripts.Run.{
  SyncResult, TranscriptError, Request, get_transcripts, World, Run, count_stored, count_failed,
  count_request, count_items, noted, ask,
}
use gongcli_mcp.Transcripts.Sync.{
  after_write, after_upsert, store_items, after_split, after_fetch, sync_batch, sync_batches,
  checked,
}

-- What a part of the run with `n` calls to fetch does to the counters.
record Progress (n : ℕ) (a b : SyncResult) : Type 0 where
  covered : a.stored + a.failed_count + n ≤ b.stored + b.failed_count
  accounted : b.downloaded + a.stored + a.failed_count ≤ a.downloaded + b.stored + b.failed_count
  fetched : b.stored + a.downloaded ≤ a.stored + b.downloaded
  same_considered : b.considered ≡ a.considered
  same_skipped : b.skipped ≡ a.skipped

Progress-join :
    (n m : ℕ) (a b c : SyncResult) → Progress n a b → Progress m b c → Progress (n + m) a c
Progress-join n m a b c p q = record {
  covered = omega (arith, p.covered, q.covered);
  accounted = omega (arith, p.accounted, q.accounted);
  fetched = omega (arith, p.fetched, q.fetched);
  same_considered = q.same_considered ∙ p.same_considered;
  same_skipped = q.same_skipped ∙ p.same_skipped;
}

-- What storing `n` items does.
record Stores (n : ℕ) (a b : SyncResult) : Type 0 where
  all : b.stored + b.failed_count ≡ a.stored + a.failed_count + n
  more : a.stored ≤ b.stored
  no_more : b.stored ≤ a.stored + n
  same_downloaded : b.downloaded ≡ a.downloaded
  same_considered : b.considered ≡ a.considered
  same_skipped : b.skipped ≡ a.skipped

-- Nothing is stored yet, and the calls considered are `n` and those that were skipped.
pub record IsFresh (n : ℕ) (a : SyncResult) : Type 0 where
  pub counted : a.considered ≡ n + a.skipped
  pub no_stored : a.stored ≡ 0
  pub no_failed : a.failed_count ≡ 0
  pub no_downloaded : a.downloaded ≡ 0

module _ {S : Type 0} where
  -- A run that has no error stored all that it downloaded, and that is as much as it considered and
  -- did not skip.
  abbrev pub IsComplete : Option TranscriptError × Run S → Type 0
  IsComplete x =
      x.0 ≡ none
      → (x.1.result.failed_count ≡ 0)
        × (x.1.result.stored ≡ x.1.result.downloaded)
        × (x.1.result.considered ≤ x.1.result.stored + x.1.result.skipped)

  count_failed-Stores : (r : Run S) → Stores 1 r.result (count_failed 1 r).result
  unfolding count_failed
  count_failed-Stores r = record {
    all = omega arith;
    more = omega arith;
    no_more = omega arith;
    same_downloaded = refl;
    same_considered = refl;
    same_skipped = refl;
  }

module _ {S : Type 0} (world : World S) where
  ask-result : (q : Request) (r : Run S) → (ask world q r).1.result ≡ r.result
  unfolding ask noted
  ask-result q r = refl

  module _ (join_path : String → String → String) (tjson : TranscriptDecoder) (dir : String) where
    after_write-Stores :
        (x : Option String × Run S)
        → Stores 1 x.1.result (after_write world join_path tjson x).result
    unfolding after_write count_stored count_failed
    after_write-Stores (none, r) = record {
      all = omega arith;
      more = omega arith;
      no_more = omega arith;
      same_downloaded = refl;
      same_considered = refl;
      same_skipped = refl;
    }
    after_write-Stores (some e, r) = count_failed-Stores r

    after_upsert-Stores :
        (i : TranscriptResponseItem) (x : Option String × Run S)
        → Stores 1 x.1.result (after_upsert world join_path tjson dir i x).result
    unfolding after_upsert count_failed ask noted
    after_upsert-Stores i (none, r) = after_write-Stores (ask world _ r)
    after_upsert-Stores i (some e, r) = count_failed-Stores r

    store_items-Stores :
        (is : List TranscriptResponseItem) (r : Run S)
        → Stores (length is) r.result (store_items world join_path tjson dir is r).result
    unfolding store_items ask noted
    store_items-Stores [] r = record {
      all = omega arith;
      more = omega arith;
      no_more = omega arith;
      same_downloaded = refl;
      same_considered = refl;
      same_skipped = refl;
    }
    store_items-Stores (i ∷ is) r =
        let p = after_upsert-Stores i (ask world _ r) in
        let q = store_items-Stores is (after_upsert world join_path tjson dir i (ask world _ r)) in
        record {
          all = omega (arith, p.all, q.all);
          more = omega (arith, p.more, q.more);
          no_more = omega (arith, p.no_more, q.no_more);
          same_downloaded = q.same_downloaded ∙ p.same_downloaded;
          same_considered = q.same_considered ∙ p.same_considered;
          same_skipped = q.same_skipped ∙ p.same_skipped;
        }

    after_split-Progress :
        (n : ℕ) (items : Option (List TranscriptResponseItem)) (r : Run S)
        → Progress n r.result (after_split world join_path tjson dir n items r).result
    unfolding after_split count_failed count_items
    after_split-Progress n none r = record {
      covered = omega arith;
      accounted = omega arith;
      fetched = omega arith;
      same_considered = refl;
      same_skipped = refl;
    }
    after_split-Progress n (some is) r =
        let p = store_items-Stores is (count_items (length is) n r) in
        record {
          covered = omega (arith, p.all);
          accounted = omega (arith, p.all, p.same_downloaded);
          fetched = omega (arith, p.no_more, p.same_downloaded);
          same_considered = p.same_considered;
          same_skipped = p.same_skipped;
        }

    after_fetch-Progress :
        (ids : List String) (r : Run S) (x : Outcome String × S)
        → Progress (length ids) r.result (after_fetch world join_path tjson dir ids r x).result
    unfolding after_fetch count_request count_failed
    after_fetch-Progress ids r (error e, w) = record {
      covered = omega arith;
      accounted = omega arith;
      fetched = omega arith;
      same_considered = refl;
      same_skipped = refl;
    }
    after_fetch-Progress ids r (ok body, w) =
        let p =
          after_split-Progress (length ids) (split_transcript_response tjson body)
            (count_request (record r { world = w; requests = get_transcripts ids ∷ r.requests })) in
        record {
          covered = p.covered;
          accounted = p.accounted;
          fetched = p.fetched;
          same_considered = p.same_considered;
          same_skipped = p.same_skipped;
        }

    length-ids :
        (batch : List MissingTranscriptCall) → length (map (λ c. c.call_id) batch) ≡ length batch
    length-ids [] = refl
    length-ids (c ∷ cs) = omega (arith, length-ids cs)

    sync_batch-Progress :
        (batch : List MissingTranscriptCall) (r : Run S)
        → Progress (length batch) r.result (sync_batch world join_path tjson dir batch r).result
    unfolding sync_batch
    sync_batch-Progress batch r =
        let ids = map (λ c. c.call_id) batch in
        subst (λ n. Progress n r.result (sync_batch world join_path tjson dir batch r).result)
          (length-ids batch) (after_fetch-Progress ids r (world.transcript r.world ids))

    total : List (List MissingTranscriptCall) → ℕ
    total [] = 0
    total (b ∷ bs) = length b + total bs

    length-concat : (bs : List (List MissingTranscriptCall)) → length (concat bs) ≡ total bs
    unfolding concat total
    length-concat [] = refl
    length-concat (b ∷ bs) = omega (arith, length-append b (concat bs), length-concat bs)

    sync_batches-Progress :
        (bs : List (List MissingTranscriptCall)) (r : Run S)
        → Progress (total bs) r.result (sync_batches world join_path tjson dir bs r).result
    unfolding sync_batches total
    sync_batches-Progress [] r = record {
      covered = omega arith;
      accounted = omega arith;
      fetched = omega arith;
      same_considered = refl;
      same_skipped = refl;
    }
    sync_batches-Progress (b ∷ bs) r =
        Progress-join (length b) (total bs) r.result _ _ (sync_batch-Progress b r)
          (sync_batches-Progress bs (sync_batch world join_path tjson dir b r))

    checked-IsComplete :
        (n : ℕ) (r r' : Run S)
        → Progress n r.result r'.result
        → IsFresh n r.result
        → IsComplete (checked world join_path tjson r')
    unfolding checked
    checked-IsComplete n r r' p f = elim (Bool-cases (ltb 0 r'.result.failed_count)) [
      | inl bad ↦ rw (bad, checked) (λ e. cc)
      | inr good ↦
          rw (good, checked)
            (λ e.
              let none_failed : r'.result.failed_count ≡ 0 = ground arith in
              (
                none_failed,
                omega (arith, p.accounted, p.fetched, f.no_stored, f.no_failed, f.no_downloaded),
                omega (
                  arith, p.covered, p.same_considered, p.same_skipped, f.counted, f.no_stored,
                  f.no_failed,
                ),
              ))
    ]

    -- Fetching the calls that are left.
    pub batches-IsComplete :
        (kept : List MissingTranscriptCall) (size : ℤ) (r : Run S)
        → IsFresh (length kept) r.result
        → IsComplete (
            checked world join_path tjson
              (sync_batches world join_path tjson dir (transcript_batches kept size) r))
    batches-IsComplete kept size r f =
        let bs = transcript_batches kept size in
        let same : total bs ≡ length kept =
          sym (length-concat bs) ∙ ap length (transcript_batches-IsBatch kept size).0 in
        checked-IsComplete (length kept) r (sync_batches world join_path tjson dir bs r)
          (subst (λ n. Progress n r.result (sync_batches world join_path tjson dir bs r).result)
            same (sync_batches-Progress bs r))
          f
