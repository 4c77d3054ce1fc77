-- ===== src/Sync/Calls/Fuel.antt =====
-- A run comes to an end.
use gongcli_mcp.Prelude.{
  ℕ, zero, suc, String, ◌≡◌, ◌≢◌, ◌<◌, length, true, false, Option, none, some, List, [], ◌∷◌,
  arith, Bool-cases, Option-cases, inl, inr,
}
use gongcli_mcp.Prelude.Sets.{has, add}
use gongcli_mcp.Text.{is_nil, trim_space}
use gongcli_mcp.Text.Unicode.{Unicode}
use gongcli_mcp.Governance.Config.{Config}
use gongcli_mcp.Governance.Ingest.{Decoder, Evaluated, decided, failed}
use gongcli_mcp.Sync.Run.{
  CallsParams, CallListParams, CallsPage, Fetched, body, unreachable, http_error, SyncError,
  store_error, Command, upsert_call, clear_skipped, Run, and_then, first_error, answered, issue,
  finish, count_written, count_skipped,
}
use gongcli_mcp.Sync.Calls.{
  upsert_error, write, act, item, sync_items, page_items, advance, fetched_page, pages_from,
  sync_calls, is_negative, first_request, first_seen,
}
use gongcli_mcp.Sync.Run.{out_of_fuel}
use gongcli_mcp.Sync.Calls.Cursors.{unseen, unseen-add_lt, unseen_le}

module _ {S : Type 0} where
  -- The loop did not run out of fuel.
  abbrev pub IsDone : Option SyncError × Run S → Type 0
  IsDone x = x.0 ≢ some out_of_fuel

  IsDone-and_then :
      (x : Option SyncError × Run S) (k : Run S → Option SyncError × Run S)
      → IsDone x
      → ((r : Run S) → IsDone (k r))
      → IsDone (and_then x k)
  unfolding and_then
  IsDone-and_then (some e, r) k h f = h
  IsDone-and_then (none, r) k h f = f r

  module _ (store : S → Command → Option String × S) where
    IsDone-answered :
        (wrap : String → SyncError) (r : Run S) (c : Command) (x : Option String × S)
        → ((e : String) → wrap e ≢ out_of_fuel)
        → IsDone (answered store wrap r c x)
    unfolding answered
    IsDone-answered wrap r c (none, w) f = λ h. cc
    IsDone-answered wrap r c (some e, w) f = λ h. f e (ground arith)

    IsDone-issue :
        (wrap : String → SyncError) (c : Command) (r : Run S)
        → ((e : String) → wrap e ≢ out_of_fuel)
        → IsDone (issue store wrap c r)
    unfolding issue
    IsDone-issue wrap c r f = IsDone-answered wrap r c (store r.world c) f

    IsDone-first_error :
        (e : SyncError) (x : Option SyncError × Run S)
        → e ≢ out_of_fuel
        → IsDone x
        → IsDone (first_error e x)
    unfolding first_error
    IsDone-first_error e (none, r) ne h = λ same. ne (ground arith)
    IsDone-first_error e (some f, r) ne h = h

    IsDone-finish : (x : Option SyncError × Run S) → IsDone x → IsDone (finish store x)
    unfolding finish
    IsDone-finish (none, r) h = IsDone-issue _ _ r (λ e same. cc)
    IsDone-finish (some e, r) h =
        IsDone-first_error e _ (λ same. h (rw same)) (IsDone-issue _ _ r (λ f same. cc))

    module _ (json : Decoder) (u : Unicode) (fingerprint : Config → String) where
      upsert_error-ne :
          (g : Option Config) (e : String) → upsert_error store json u fingerprint g e ≢ out_of_fuel
      unfolding upsert_error
      upsert_error-ne none e = λ h. ground arith
      upsert_error-ne (some cfg) e = λ h. cc

      IsDone-write :
          (g : Option Config) (raw : String) (r : Run S)
          → IsDone (write store json u fingerprint g raw r)
      unfolding write count_written
      IsDone-write g raw r =
          IsDone-and_then _ _ (IsDone-issue _ (upsert_call raw) r (upsert_error-ne g)) (λ r' h. cc)

      IsDone-act :
          (cfg : Config) (raw : String) (e : Evaluated) (r : Run S)
          → IsDone (act store json u fingerprint cfg raw e r)
      unfolding act count_skipped
      IsDone-act cfg raw (failed e) r = λ h. cc
      IsDone-act cfg raw (decided d) r = elim (Bool-cases d.skip) [
        | inl skip ↦
            rw (skip, act)
              (IsDone-and_then _ _ (IsDone-issue store_error _ r (λ e h. cc)) (λ r' h. cc))
        | inr keep ↦
            rw (keep, act)
              (IsDone-and_then _ _
                (IsDone-issue store_error (clear_skipped d.call_id) r (λ e h. cc))
                (IsDone-write (some cfg) raw))
      ]

      IsDone-sync_items :
          (g : Option Config) (raws : List String) (r : Run S)
          → IsDone (sync_items store json u fingerprint g raws r)
      unfolding sync_items item
      IsDone-sync_items g [] r = λ h. cc
      IsDone-sync_items none (raw ∷ raws) r =
          IsDone-and_then _ _ (IsDone-write none raw r) (IsDone-sync_items none raws)
      IsDone-sync_items (some cfg) (raw ∷ raws) r =
          IsDone-and_then _ _ (IsDone-act cfg raw _ r) (IsDone-sync_items (some cfg) raws)

      module _ (fetch : S → CallListParams → Fetched × S) (decode : String → Option CallsPage)
          (params : CallsParams) (base : String) (all : List String)
          (within : (text : String) (page : CallsPage)
            → decode text ≡ some page
            → is_nil (trim_space page.cursor) ≡ false
            → has (trim_space page.cursor) all ≡ true) where
        IsDone-page_items :
            (page : CallsPage) (r : Run S)
            → IsDone (page_items store json u fingerprint fetch decode params base page r)
        unfolding page_items
        IsDone-page_items page r = IsDone-sync_items params.governance page.items _

        module _ (k : List String → CallListParams → Run S → Option SyncError × Run S) (fuel : ℕ)
            (f : (seen : List String) (request : CallListParams) (r : Run S)
              → unseen all seen < fuel
              → IsDone (k seen request r)) where
          IsDone-advance :
              (seen : List String) (request : CallListParams) (page : CallsPage) (r : Run S)
              → unseen all seen < suc fuel
              → (is_nil (trim_space page.cursor) ≡ false → has (trim_space page.cursor) all ≡ true)
              → IsDone
                  (advance store json u fingerprint fetch decode params base k seen request page r)
          unfolding advance
          IsDone-advance seen request page r enough h =
              let next = trim_space page.cursor in
              let r' = record r { result = record r.result { cursor = next } } in
              λ same. ground (
                arith,
                unseen-add_lt next all seen,
                f (add next seen) (record request { cursor = next }) r',
              )

          IsDone-fetched_page :
              (seen : List String) (x : Fetched × CallListParams × Run S)
              → unseen all seen < suc fuel
              → IsDone (fetched_page store json u fingerprint fetch decode params base k seen x)
          unfolding fetched_page
          IsDone-fetched_page seen (unreachable, request, r) enough = λ h. cc
          IsDone-fetched_page seen (http_error status, request, r) enough = λ h. cc
          IsDone-fetched_page seen (body text, request, r) enough =
              elim (Option-cases (decode text)) [
                | inl bad ↦ rw (bad, fetched_page) (λ h. cc)
                | inr (page, good) ↦
                    rw (good, fetched_page)
                      (IsDone-and_then _ _ (IsDone-page_items page r)
                        (λ r'. IsDone-advance seen request page r' enough (within text page good)))
              ]

        IsDone-pages_from :
            (fuel : ℕ) (seen : List String) (request : CallListParams) (r : Run S)
            → unseen all seen < fuel
            → IsDone
                (pages_from store json u fingerprint fetch decode params base fuel seen request r)
        unfolding pages_from
        IsDone-pages_from zero seen request r enough = absurd (omega arith)
        IsDone-pages_from (suc fuel) seen request r enough =
            IsDone-fetched_page (pages_from store json u fingerprint fetch decode params base fuel)
              fuel (IsDone-pages_from fuel) seen _ enough

-- If the cursors of all pages that Gong can answer are in a list, one more iteration than the list
-- is long is enough fuel: whatever Gong and the store answer, the run ends by itself.
pub sync_calls-IsDone :
    {S : Type 0} (store : S → Command → Option String × S) (json : Decoder) (u : Unicode)
    (fingerprint : Config → String) (fetch : S → CallListParams → Fetched × S)
    (decode : String → Option CallsPage) (params : CallsParams) (fuel : ℕ) (w : S)
    (all : List String)
    → ((text : String) (page : CallsPage)
        → decode text ≡ some page
        → is_nil (trim_space page.cursor) ≡ false
        → has (trim_space page.cursor) all ≡ true)
    → length all < fuel
    → IsDone (sync_calls store json u fingerprint fetch decode params fuel w)
unfolding sync_calls
sync_calls-IsDone store json u fingerprint fetch decode params fuel w all within enough =
    elim (Bool-cases (is_negative store json u fingerprint params.max_pages)) [
      | inl negative ↦ rw negative (λ h. cc)
      | inr valid ↦ rw valid (
          IsDone-and_then _ _ (IsDone-issue store store_error _ _ (λ e h. cc)) (λ r.
            IsDone-finish store _ (
              IsDone-pages_from store json u fingerprint fetch decode params _ all within fuel _ _ r
                (omega (arith, unseen_le all (first_seen (first_request params)))))))
    ]
