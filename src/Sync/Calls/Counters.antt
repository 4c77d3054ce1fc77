-- ===== src/Sync/Calls/Counters.antt =====
-- The counts of a run.
use gongcli_mcp.Prelude.{
  ℕ, suc, String, ◌≡◌, ◌≤◌, ◌+◌, subst, length, refl, Option, none, some, List, [], ◌∷◌, arith,
  Bool-cases, inl, inr,
}
use gongcli_mcp.Text.Unicode.{Unicode}
use gongcli_mcp.Governance.Config.{Config}
use gongcli_mcp.Governance.Ingest.{Decoder, Evaluated, decided, failed}
use gongcli_mcp.Sync.Run.{
  SyncError, store_error, Command, upsert_call, clear_skipped, Run, and_then, answered, issue,
  count_written, count_skipped,
}
use gongcli_mcp.Sync.Calls.{write, act, item, sync_items}

module _ {S : Type 0} where
  abbrev pub counted : Run S → ℕ
  counted r = r.result.records_written + r.result.records_skipped

  -- `d` more records are counted, or an error comes before, and `seen` have been seen.
  abbrev pub Counts : ℕ → ℕ → ℕ → Option SyncError × Run S → Type 0
  Counts d n seen (none, r) = (counted r ≡ n + d) × (r.result.records_seen ≡ seen)
  Counts d n seen (some e, r) = (counted r ≤ n + d) × (r.result.records_seen ≡ seen)

  Counts-assoc :
      (d d' n seen : ℕ) (x : Option SyncError × Run S)
      → Counts d' (n + d) seen x
      → Counts (d + d') n seen x
  Counts-assoc d d' n seen (none, r) (h, same) = (omega arith, same)
  Counts-assoc d d' n seen (some e, r) (h, same) = (omega arith, same)

  Counts-at :
      (d n seen : ℕ) (r : Run S) (x : Option SyncError × Run S)
      → Counts d (counted r) r.result.records_seen x
      → counted r ≡ n
      → r.result.records_seen ≡ seen
      → Counts d n seen x
  Counts-at d n seen r x h e same = rw (← e, ← same) h

  Counts-and_then :
      (d d' n seen : ℕ) (x : Option SyncError × Run S) (k : Run S → Option SyncError × Run S)
      → Counts d n seen x
      → ((r : Run S)
          → counted r ≡ n + d
          → r.result.records_seen ≡ seen
          → Counts d' (n + d) seen (k r))
      → Counts (d + d') n seen (and_then x k)
  unfolding and_then
  Counts-and_then d d' n seen (some e, r) k (h, same) f = (omega arith, same)
  Counts-and_then d d' n seen (none, r) k (h, same) f = Counts-assoc d d' n seen (k r) (f r h same)

  module _ (store : S → Command → Option String × S) where
    Counts-answered :
        (wrap : String → SyncError) (r : Run S) (c : Command) (x : Option String × S)
        → Counts 0 (counted r) r.result.records_seen (answered store wrap r c x)
    unfolding answered
    Counts-answered wrap r c (none, w) = (omega arith, refl)
    Counts-answered wrap r c (some e, w) = (omega arith, refl)

    pub Counts-issue :
        (wrap : String → SyncError) (c : Command) (r : Run S)
        → Counts 0 (counted r) r.result.records_seen (issue store wrap c r)
    unfolding issue
    Counts-issue wrap c r = Counts-answered wrap r c (store r.world c)

    module _ (json : Decoder) (u : Unicode) (fingerprint : Config → String) where
      Counts-write :
          (governance : Option Config) (raw : String) (r : Run S)
          → Counts 1
              (counted r)
              r.result.records_seen
              (write store json u fingerprint governance raw r)
      unfolding write count_written
      Counts-write governance raw r =
          Counts-and_then 0 1 (counted r) r.result.records_seen (issue store _ (upsert_call raw) r)
            _ (Counts-issue _ (upsert_call raw) r) (λ r' h same. ground arith)

      Counts-act :
          (cfg : Config) (raw : String) (e : Evaluated) (r : Run S)
          → Counts 1 (counted r) r.result.records_seen (act store json u fingerprint cfg raw e r)
      unfolding act count_skipped
      Counts-act cfg raw (failed e) r = (omega arith, refl)
      Counts-act cfg raw (decided d) r = elim (Bool-cases d.skip) [
        | inl skip ↦
            rw (skip, act)
              (Counts-and_then 0 1 (counted r) r.result.records_seen (issue store store_error _ r) _
                (Counts-issue store_error _ r) (λ r' h same. ground arith))
        | inr keep ↦
            rw (keep, act)
              (Counts-and_then 0 1 (counted r) r.result.records_seen
                (issue store store_error (clear_skipped d.call_id) r) _
                (Counts-issue store_error (clear_skipped d.call_id) r)
                (λ r' h same. Counts-at 1 _ _ r' _ (Counts-write (some cfg) raw r') h same))
      ]

      Counts-item :
          (governance : Option Config) (raw : String) (r : Run S)
          → Counts 1
              (counted r)
              r.result.records_seen
              (item store json u fingerprint governance raw r)
      unfolding item
      Counts-item none raw r = Counts-write none raw r
      Counts-item (some cfg) raw r = Counts-act cfg raw _ r

      pub Counts-sync_items :
          (governance : Option Config) (raws : List String) (r : Run S)
          → Counts
              (length raws)
              (counted r)
              r.result.records_seen
              (sync_items store json u fingerprint governance raws r)
      unfolding sync_items
      Counts-sync_items governance [] r = (omega arith, refl)
      Counts-sync_items governance (raw ∷ raws) r =
          let e : 1 + length raws ≡ suc (length raws) = omega arith in
          subst
            (λ d.
              Counts d (counted r) r.result.records_seen
                (sync_items store json u fingerprint governance (raw ∷ raws) r))
            e
            (Counts-and_then 1 (length raws) (counted r) r.result.records_seen
              (item store json u fingerprint governance raw r) _ (Counts-item governance raw r)
              (λ r' h same.
                Counts-at (length raws) _ _ r' _ (Counts-sync_items governance raws r') h same))
