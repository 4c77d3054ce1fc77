-- ===== src/Sync/Calls/Balance.antt =====
-- Every record that a run sees is written or skipped.
use gongcli_mcp.Prelude.{
  ℕ, zero, suc, String, ◌≡◌, ◌≤◌, ◌+◌, length, Option, none, some, List, arith, Bool-cases,
  Option-cases, inl, inr,
}
use gongcli_mcp.Prelude.Sets.{add}
use gongcli_mcp.Text.{trim_space}
use gongcli_mcp.Text.Unicode.{Unicode}
use gongcli_mcp.Governance.Config.{Config}
use gongcli_mcp.Governance.Ingest.{Decoder}
use gongcli_mcp.Sync.Run.{
  CallsParams, CallListParams, CallsPage, Fetched, body, unreachable, http_error, SyncError,
  store_error, Command, Run, and_then, first_error, finish,
}
use gongcli_mcp.Sync.Calls.{
  retry, page_items, advance, fetched_page, pages_from, started, sync_calls, is_negative,
  start_command,
}
use gongcli_mcp.Sync.Calls.Counters.{counted, Counts, Counts-issue, Counts-sync_items}

module _ {S : Type 0} where
  -- Every record that was seen is counted, unless an error came first.
  abbrev pub Settled : Option SyncError × Run S → Type 0
  Settled (none, r) = counted r ≡ r.result.records_seen
  Settled (some e, r) = counted r ≤ r.result.records_seen

  Settled-of_Counts :
      (d n seen : ℕ) (x : Option SyncError × Run S) → Counts d n seen x → seen ≡ n + d → Settled x
  Settled-of_Counts d n seen (none, r) h e = omega arith
  Settled-of_Counts d n seen (some f, r) h e = omega arith

  Settled-and_then :
      (x : Option SyncError × Run S) (k : Run S → Option SyncError × Run S)
      → Settled x
      → ((r : Run S) → counted r ≡ r.result.records_seen → Settled (k r))
      → Settled (and_then x k)
  unfolding and_then
  Settled-and_then (some e, r) k h f = h
  Settled-and_then (none, r) k h f = f r h

  module _ (store : S → Command → Option String × S) where
    Settled-first_error :
        (e : SyncError) (n seen : ℕ) (x : Option SyncError × Run S)
        → Counts 0 n seen x
        → n ≤ seen
        → Settled (first_error e x)
    unfolding first_error
    Settled-first_error e n seen (none, r) h le = omega arith
    Settled-first_error e n seen (some f, r) h le = omega arith

    Settled-finish : (x : Option SyncError × Run S) → Settled x → Settled (finish store x)
    unfolding finish
    Settled-finish (none, r) h =
        Settled-of_Counts 0 (counted r) r.result.records_seen _ (Counts-issue store _ _ r)
          (omega arith)
    Settled-finish (some e, r) h =
        Settled-first_error e (counted r) r.result.records_seen _ (Counts-issue store _ _ r) h

    module _ (json : Decoder) (u : Unicode) (fingerprint : Config → String)
        (fetch : S → CallListParams → Fetched × S) (decode : String → Option CallsPage)
        (params : CallsParams) (base : String) where
      Settled-page_items :
          (page : CallsPage) (r : Run S)
          → counted r ≡ r.result.records_seen
          → Settled (page_items store json u fingerprint fetch decode params base page r)
      unfolding page_items
      Settled-page_items page r h =
          Settled-of_Counts (length page.items) (counted r) _ _
            (Counts-sync_items store json u fingerprint params.governance page.items _)
            (omega arith)

      retry_counts :
          (request : CallListParams) (r : Run S) (x : Fetched × S)
          → let r' = (retry store json u fingerprint fetch decode params base request r x).2 in
            (counted r' ≡ counted r) × (r'.result.records_seen ≡ r.result.records_seen)
      unfolding retry
      retry_counts request r (answer, w) = ground arith

      module _ (k : List String → CallListParams → Run S → Option SyncError × Run S)
          (f : (seen : List String) (request : CallListParams) (r : Run S)
            → counted r ≡ r.result.records_seen
            → Settled (k seen request r)) where
        Settled-advance :
            (seen : List String) (request : CallListParams) (page : CallsPage) (r : Run S)
            → counted r ≡ r.result.records_seen
            → Settled
                (advance store json u fingerprint fetch decode params base k seen request page r)
        unfolding advance
        Settled-advance seen request page r h =
            let next = trim_space page.cursor in
            let r' = record r { result = record r.result { cursor = next } } in
            ground (arith, f (add next seen) (record request { cursor = next }) r' h)

        Settled-fetched_page :
            (seen : List String) (x : Fetched × CallListParams × Run S)
            → counted x.2 ≡ x.2.result.records_seen
            → Settled (fetched_page store json u fingerprint fetch decode params base k seen x)
        unfolding fetched_page
        Settled-fetched_page seen (unreachable, request, r) h = omega arith
        Settled-fetched_page seen (http_error status, request, r) h = omega arith
        Settled-fetched_page seen (body text, request, r) h = elim (Option-cases (decode text)) [
          | inl bad ↦ rw (bad, fetched_page) (omega arith)
          | inr (page, good) ↦
              rw (good, fetched_page)
                (Settled-and_then _ _ (Settled-page_items page r h)
                  (λ r' h'. Settled-advance seen request page r' h'))
        ]

      Settled-pages_from :
          (fuel : ℕ) (seen : List String) (request : CallListParams) (r : Run S)
          → counted r ≡ r.result.records_seen
          → Settled
              (pages_from store json u fingerprint fetch decode params base fuel seen request r)
      unfolding pages_from
      Settled-pages_from zero seen request r h = omega arith
      Settled-pages_from (suc fuel) seen request r h =
          let same = retry_counts request r (fetch r.world request) in
          Settled-fetched_page (pages_from store json u fingerprint fetch decode params base fuel)
            (Settled-pages_from fuel) seen _ (omega arith)

-- A run that ends without an error has written or skipped every record that it saw, each once; one
-- that ends in an error has written and skipped no more than it saw.
pub sync_calls-Settled :
    {S : Type 0} (store : S → Command → Option String × S) (json : Decoder) (u : Unicode)
    (fingerprint : Config → String) (fetch : S → CallListParams → Fetched × S)
    (decode : String → Option CallsPage) (params : CallsParams) (fuel : ℕ) (w : S)
    → Settled (sync_calls store json u fingerprint fetch decode params fuel w)
unfolding sync_calls started start_command
sync_calls-Settled store json u fingerprint fetch decode params fuel w =
    elim (Bool-cases (is_negative store json u fingerprint params.max_pages)) [
      | inl negative ↦ rw negative (omega arith)
      | inr valid ↦ rw valid (
          Settled-and_then _ _
            (Settled-of_Counts 0 0 0 _ (Counts-issue store store_error _ _) (omega arith))
            (λ r h.
              Settled-finish store _
                (Settled-pages_from store json u fingerprint fetch decode params _ fuel _ _ r h)))
    ]
