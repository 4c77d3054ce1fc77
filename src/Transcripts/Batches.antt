-- ===== src/Transcripts/Batches.antt =====
-- normalizeBatchSize, normalizeLimit and transcriptBatches of internal/transcripts.
pub mod Partition
use gongcli_mcp.Prelude.{
  ℕ, zero, suc, List, [], ◌∷◌, length, take, drop, is_empty, ltb, nat_eq, if◌then◌else◌,
}
use gongcli_mcp.Prelude.Int.{ℤ, pos, negsuc}

-- normalizeBatchSize
unfoldable pub normalize_batch_size : ℤ → ℕ
normalize_batch_size (pos n) = if nat_eq n 0 then 100 else if ltb 100 n then 100 else n
normalize_batch_size (negsuc n) = 100

-- if limit <= 0 { limit = defaultSyncLimit }
unfoldable pub normalize_sync_limit : ℤ → ℕ
normalize_sync_limit (pos n) = if nat_eq n 0 then 100 else n
normalize_sync_limit (negsuc n) = 100

module _ {A : Type 0} where
  -- The loop over the starts of the batches, `fuel` of them at most: what is left of the slice is
  -- the list, and a batch is never empty.
  batches_from : ℕ → ℕ → List A → List (List A)
  batches_from zero size xs = []
  batches_from (suc fuel) size xs =
      let rest = batches_from fuel size (drop size xs) in
      if is_empty xs then [] else take size xs ∷ rest

  -- transcriptBatches; each turn takes one call or more, so the number of calls is fuel enough.
  unfoldable pub transcript_batches : List A → ℤ → List (List A)
  unfolding batches_from normalize_batch_size
  transcript_batches calls size = batches_from (length calls) (normalize_batch_size size) calls
