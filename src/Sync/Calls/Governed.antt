-- ===== src/Sync/Calls/Governed.antt =====
-- What a governed run writes.
use gongcli_mcp.Prelude.{
  ℕ, zero, suc, String, ◌≡◌, refl, Option, none, some, List, [], ◌∷◌, All, arith, Bool-cases,
  Option-cases, inl, inr,
}
use gongcli_mcp.Prelude.Sets.{add}
use gongcli_mcp.Text.{trim_space}
use gongcli_mcp.Text.Unicode.{Unicode}
use gongcli_mcp.Governance.Config.{Config}
use gongcli_mcp.Governance.Ingest.{Decoder, Evaluated, decided, failed, evaluate_call_payload}
use gongcli_mcp.Governance.Ingest.Decision.{IsFree, kept-IsFree}
use gongcli_mcp.Sync.Run.{
  CallsParams, CallListParams, CallsPage, Fetched, body, unreachable, http_error, SyncError,
  store_error, Command, upsert_call, clear_skipped, Run, and_then, first_error, answered, issue,
  finish, count_written, count_skipped,
}
use gongcli_mcp.Sync.Calls.{
  write, act, item, sync_items, retry, page_items, advance, fetched_page, pages_from, started,
  sync_calls, is_negative, start_command,
}

-- Neither the raw text of the call nor a string that it quotes mentions a listed name or alias.
abbrev pub Permitted : Unicode → Config → Command → Type 0
Permitted u cfg (upsert_call raw) = IsFree u (some cfg) raw
Permitted u cfg _ = Unit

module _ {S : Type 0} (u : Unicode) (cfg : Config) where
  abbrev Keeps : Option SyncError × Run S → Type 0
  Keeps x = All (Permitted u cfg) x.1.commands

  Keeps-and_then :
      (x : Option SyncError × Run S) (k : Run S → Option SyncError × Run S)
      → Keeps x
      → ((r : Run S) → All (Permitted u cfg) r.commands → Keeps (k r))
      → Keeps (and_then x k)
  unfolding and_then
  Keeps-and_then (some e, r) k h f = h
  Keeps-and_then (none, r) k h f = f r h

  Keeps-first_error :
      (e : SyncError) (x : Option SyncError × Run S) → Keeps x → Keeps (first_error e x)
  unfolding first_error
  Keeps-first_error e (none, r) h = h
  Keeps-first_error e (some f, r) h = h

  module _ (store : S → Command → Option String × S) where
    Keeps-answered :
        (wrap : String → SyncError) (r : Run S) (c : Command) (x : Option String × S)
        → Permitted u cfg c
        → All (Permitted u cfg) r.commands
        → Keeps (answered store wrap r c x)
    unfolding answered
    Keeps-answered wrap r c (none, w) p h = (p, h)
    Keeps-answered wrap r c (some e, w) p h = (p, h)

    Keeps-issue :
        (wrap : String → SyncError) (c : Command) (r : Run S)
        → Permitted u cfg c
        → All (Permitted u cfg) r.commands
        → Keeps (issue store wrap c r)
    unfolding issue
    Keeps-issue wrap c r p h = Keeps-answered wrap r c (store r.world c) p h

    Keeps-finish : (x : Option SyncError × Run S) → Keeps x → Keeps (finish store x)
    unfolding finish
    Keeps-finish (none, r) h = Keeps-issue _ _ r tt h
    Keeps-finish (some e, r) h = Keeps-first_error e _ (Keeps-issue _ _ r tt h)

    module _ (json : Decoder) (fingerprint : Config → String) where
      Keeps-write :
          (raw : String) (r : Run S)
          → IsFree u (some cfg) raw
          → All (Permitted u cfg) r.commands
          → Keeps (write store json u fingerprint (some cfg) raw r)
      unfolding write count_written
      Keeps-write raw r p h =
          Keeps-and_then (issue store _ (upsert_call raw) r) _
            (Keeps-issue _ (upsert_call raw) r p h) (λ r' h'. h')

      Keeps-act :
          (raw : String) (e : Evaluated) (r : Run S)
          → evaluate_call_payload json u raw (some cfg) ≡ e
          → All (Permitted u cfg) r.commands
          → Keeps (act store json u fingerprint cfg raw e r)
      unfolding act count_skipped
      Keeps-act raw (failed e) r same h = h
      Keeps-act raw (decided d) r same h = elim (Bool-cases d.skip) [
        | inl skip ↦
            rw (skip, act) (Keeps-and_then _ _ (Keeps-issue store_error _ r tt h) (λ r' h'. h'))
        | inr keep ↦
            rw (keep, act)
              (Keeps-and_then _ _ (Keeps-issue store_error (clear_skipped d.call_id) r tt h)
                (λ r' h'. Keeps-write raw r' (kept-IsFree json u raw (some cfg) d same keep) h'))
      ]

      Keeps-sync_items :
          (raws : List String) (r : Run S)
          → All (Permitted u cfg) r.commands
          → Keeps (sync_items store json u fingerprint (some cfg) raws r)
      unfolding sync_items item
      Keeps-sync_items [] r h = h
      Keeps-sync_items (raw ∷ raws) r h =
          Keeps-and_then _ _ (Keeps-act raw _ r refl h) (λ r' h'. Keeps-sync_items raws r' h')

      module _ (fetch : S → CallListParams → Fetched × S) (decode : String → Option CallsPage)
          (params : CallsParams) (base : String) (governed : params.governance ≡ some cfg) where
        Keeps-page_items :
            (page : CallsPage) (r : Run S)
            → All (Permitted u cfg) r.commands
            → Keeps (page_items store json u fingerprint fetch decode params base page r)
        unfolding page_items
        Keeps-page_items page r h = rw (governed, All) (Keeps-sync_items page.items _ h)

        retry_commands :
            (request : CallListParams) (r : Run S) (x : Fetched × S)
            → (retry store json u fingerprint fetch decode params base request r x).2.commands
              ≡ r.commands
        unfolding retry
        retry_commands request r (answer, w) = ground arith

        module _ (k : List String → CallListParams → Run S → Option SyncError × Run S)
            (f : (seen : List String) (request : CallListParams) (r : Run S)
              → All (Permitted u cfg) r.commands
              → Keeps (k seen request r)) where
          Keeps-advance :
              (seen : List String) (request : CallListParams) (page : CallsPage) (r : Run S)
              → All (Permitted u cfg) r.commands
              → Keeps
                  (advance store json u fingerprint fetch decode params base k seen request page r)
          unfolding advance
          Keeps-advance seen request page r h =
              let next = trim_space page.cursor in
              let r' = record r { result = record r.result { cursor = next } } in
              ground (arith, f (add next seen) (record request { cursor = next }) r' h)

          Keeps-fetched_page :
              (seen : List String) (x : Fetched × CallListParams × Run S)
              → All (Permitted u cfg) x.2.commands
              → Keeps (fetched_page store json u fingerprint fetch decode params base k seen x)
          unfolding fetched_page
          Keeps-fetched_page seen (unreachable, request, r) h = h
          Keeps-fetched_page seen (http_error status, request, r) h = h
          Keeps-fetched_page seen (body text, request, r) h = elim (Option-cases (decode text)) [
            | inl bad ↦ rw (bad, fetched_page) h
            | inr (page, good) ↦
                rw (good, fetched_page)
                  (Keeps-and_then _ _ (Keeps-page_items page r h)
                    (λ r' h'. Keeps-advance seen request page r' h'))
          ]

        Keeps-pages_from :
            (fuel : ℕ) (seen : List String) (request : CallListParams) (r : Run S)
            → All (Permitted u cfg) r.commands
            → Keeps
                (pages_from store json u fingerprint fetch decode params base fuel seen request r)
        unfolding pages_from
        Keeps-pages_from zero seen request r h = h
        Keeps-pages_from (suc fuel) seen request r h =
            Keeps-fetched_page (pages_from store json u fingerprint fetch decode params base fuel)
              (Keeps-pages_from fuel) seen _
              (rw (retry_commands request r (fetch r.world request)) h)

-- A run with a governance config gives the store no call to write whose raw JSON text, with its
-- escapes not decoded, mentions a listed name or alias, and so none with a string between quotes, with
-- no escape in it, that mentions one, whatever Gong and the store answer, and also when the run ends
-- in an error.
pub sync_calls-Permitted :
    {S : Type 0} (store : S → Command → Option String × S) (json : Decoder) (u : Unicode)
    (fingerprint : Config → String) (fetch : S → CallListParams → Fetched × S)
    (decode : String → Option CallsPage) (params : CallsParams) (fuel : ℕ) (w : S) (cfg : Config)
    → params.governance ≡ some cfg
    → All
        (Permitted u cfg)
        (sync_calls store json u fingerprint fetch decode params fuel w).1.commands
unfolding sync_calls started start_command
sync_calls-Permitted store json u fingerprint fetch decode params fuel w cfg governed =
    elim (Bool-cases (is_negative store json u fingerprint params.max_pages)) [
      | inl negative ↦ rw (negative, All) tt
      | inr valid ↦
          rw (valid, All)
            (Keeps-and_then u cfg _ _ (Keeps-issue u cfg store store_error _ _ tt tt) (λ r h.
              Keeps-finish u cfg store _ (
                Keeps-pages_from u cfg store json fingerprint fetch decode params _ governed fuel _
                  _ r h)))
    ]
