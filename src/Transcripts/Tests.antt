-- ===== src/Transcripts/Tests.antt =====
-- Runs of the batches and the snippets.
use gongcli_mcp.Prelude.{◌≤◌, String, ◌≡◌, refl, List, [], ◌∷◌, All}
use gongcli_mcp.Prelude.Int.{pos}
use gongcli_mcp.Text.{rune_count}
use gongcli_mcp.Transcripts.Batches.{transcript_batches}
use gongcli_mcp.Transcripts.Batches.Partition.{concat, IsBatch, transcript_batches-IsBatch}
use gongcli_mcp.Transcripts.Snippet.{snippet_value, bounded_snippet}
use gongcli_mcp.Transcripts.Snippet.Bounded.{IsCutOf, bounded_snippet-IsCutOf}

abbrev five : List String
five = "a" ∷ "b" ∷ "c" ∷ "d" ∷ "e" ∷ []

batches_run :
    transcript_batches five (pos 2) ≡ ("a" ∷ "b" ∷ []) ∷ ("c" ∷ "d" ∷ []) ∷ ("e" ∷ []) ∷ []
unfolding transcript_batches
batches_run = refl

transcript_batches-IsBatch_example :
    (concat (transcript_batches five (pos 2)) ≡ five)
    × All IsBatch (transcript_batches five (pos 2))
transcript_batches-IsBatch_example = transcript_batches-IsBatch five (pos 2)

bounded_snippet-IsCutOf_example :
    (rune_count (bounded_snippet "  we  discussed " "") ≤ 240)
    × IsCutOf (snippet_value "  we  discussed " "") (bounded_snippet "  we  discussed " "")
bounded_snippet-IsCutOf_example = bounded_snippet-IsCutOf "  we  discussed " ""
