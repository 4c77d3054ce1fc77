-- ===== src/Transcripts/Batches/Partition.antt =====
-- The batches are a partition of the calls.
use gongcli_mcp.Prelude.{
  ℕ, zero, suc, ◌≤◌, ◌<◌, ◌≡◌, refl, ap, ◌∙◌, List, [], ◌∷◌, ◌++◌, All, length, take, drop,
  length-take, length-drop, take-append-drop, arith, All-take,
}
use gongcli_mcp.Prelude.Int.{ℤ, pos, negsuc}
use gongcli_mcp.Transcripts.Batches.{normalize_batch_size, batches_from, transcript_batches}

normalize_batch_size-bounds :
    (size : ℤ) → (0 < normalize_batch_size size) × (normalize_batch_size size ≤ 100)
unfolding normalize_batch_size
normalize_batch_size-bounds (pos n) = ground arith
normalize_batch_size-bounds (negsuc n) = ground arith

module _ {A : Type 0} where
  unfoldable pub concat : List (List A) → List A
  concat [] = []
  concat (xs ∷ xss) = xs ++ concat xss

  abbrev pub IsBatch : List A → Type 0
  IsBatch xs = (0 < length xs) × (length xs ≤ 100)

  concat-batches_from :
      (fuel size : ℕ) (xs : List A)
      → 0 < size
      → length xs ≤ fuel
      → concat (batches_from fuel size xs) ≡ xs
  unfolding batches_from concat
  concat-batches_from zero size [] h enough = refl
  concat-batches_from zero size (x ∷ xs) h enough = absurd (omega arith)
  concat-batches_from (suc fuel) size [] h enough = refl
  concat-batches_from (suc fuel) size (x ∷ xs) h enough =
      ap (λ ys. take size (x ∷ xs) ++ ys)
        (concat-batches_from fuel size (drop size (x ∷ xs)) h
          (omega (arith, length-drop size (x ∷ xs))))
      ∙ take-append-drop size (x ∷ xs)

  batches_from-IsBatch :
      (fuel size : ℕ) (xs : List A)
      → 0 < size
      → size ≤ 100
      → All IsBatch (batches_from fuel size xs)
  unfolding batches_from
  batches_from-IsBatch zero size xs h k = tt
  batches_from-IsBatch (suc fuel) size [] h k = tt
  batches_from-IsBatch (suc fuel) size (x ∷ xs) h k = (
    (omega (arith, length-take size (x ∷ xs)), omega (arith, length-take size (x ∷ xs))),
    batches_from-IsBatch fuel size (drop size (x ∷ xs)) h k,
  )

  -- Whatever size is asked for, the batches hold the calls in their order, each batch has a call and
  -- none has more than 100.
  pub transcript_batches-IsBatch :
      (calls : List A) (size : ℤ)
      → (concat (transcript_batches calls size) ≡ calls)
        × All IsBatch (transcript_batches calls size)
  unfolding transcript_batches
  transcript_batches-IsBatch calls size =
      let (positive, small) = normalize_batch_size-bounds size in
      (
        concat-batches_from (length calls) _ calls positive (omega arith),
        batches_from-IsBatch (length calls) _ calls positive small,
      )

module _ {A : Type 0} (P : A → Type 0) where
  All-drop : (n : ℕ) (xs : List A) → All P xs → All P (drop n xs)
  All-drop zero xs h = h
  All-drop (suc n) [] h = tt
  All-drop (suc n) (x ∷ xs) h = All-drop n xs h.1

  All-batches_from :
      (fuel size : ℕ) (xs : List A) → All P xs → All (All P) (batches_from fuel size xs)
  unfolding batches_from
  All-batches_from zero size xs h = tt
  All-batches_from (suc fuel) size [] h = tt
  All-batches_from (suc fuel) size (x ∷ xs) h = (
    All-take P size (x ∷ xs) h,
    All-batches_from fuel size (drop size (x ∷ xs)) (All-drop size (x ∷ xs) h),
  )

  -- What holds of every call holds of the calls of every batch.
  pub All-transcript_batches :
      (calls : List A) (size : ℤ) → All P calls → All (All P) (transcript_batches calls size)
  unfolding transcript_batches
  All-transcript_batches calls size h = All-batches_from (length calls) _ calls h
