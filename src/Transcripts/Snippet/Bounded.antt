-- ===== src/Transcripts/Snippet/Bounded.antt =====
-- The length of a snippet.
use Prim.Native.String.{[], ◌∷◌}
use Prim.Native.Nat.{min}
use gongcli_mcp.Prelude.{
  ℕ, zero, suc, ◌+◌, ◌≤◌, ◌<◌, String, ◌≡◌, refl, ◌⊎◌, leb, arith, Bool-cases, inl, inr,
}
use gongcli_mcp.Text.{cat, rune_count, take_runes}
use gongcli_mcp.Transcripts.Snippet.{snippet_value, cut_value, bounded_snippet}

rune_count-cat : (s t : String) → rune_count (cat s t) ≡ rune_count s + rune_count t
unfolding rune_count
rune_count-cat [] t = omega arith
rune_count-cat (c ∷ s) t = omega (arith, rune_count-cat s t)

rune_count-take_runes : (n : ℕ) (s : String) → rune_count (take_runes n s) ≡ min n (rune_count s)
unfolding rune_count take_runes
rune_count-take_runes zero s = omega arith
rune_count-take_runes (suc n) [] = omega arith
rune_count-take_runes (suc n) (c ∷ s) = omega (arith, rune_count-take_runes n s)

abbrev pub dots : String
dots = "..."

-- The text itself, or its first 237 characters with three dots behind them.
abbrev pub IsCutOf : String → String → Type 0
IsCutOf value out =
    ((out ≡ value) × (rune_count value ≤ 240))
    ⊎ ((out ≡ cat (take_runes 237 value) dots) × (240 < rune_count value))

cut_value-IsCutOf : (value : String) → IsCutOf value (cut_value value)
unfolding cut_value rune_count
cut_value-IsCutOf [] = inl (refl, omega arith)
cut_value-IsCutOf (c ∷ s) = elim (Bool-cases (leb (rune_count (c ∷ s)) 240)) [
  | inl short ↦ rw (short, cut_value) (inl (refl, ground arith))
  | inr long ↦ rw (long, cut_value) (inr (refl, ground arith))
]

cut_count : (value out : String) → IsCutOf value out → rune_count out ≤ 240
unfolding rune_count
cut_count value out (inl (same, short)) = rw same short
cut_count value out (inr (same, long)) =
    rw same
      (omega (arith, rune_count-cat (take_runes 237 value) dots, rune_count-take_runes 237 value))

-- A snippet has at most 240 characters; it is the whole text where that is no longer, and otherwise
-- its first 237 characters with three dots behind them.
pub bounded_snippet-IsCutOf :
    (snippet fallback : String)
    → (rune_count (bounded_snippet snippet fallback) ≤ 240)
      × IsCutOf (snippet_value snippet fallback) (bounded_snippet snippet fallback)
unfolding bounded_snippet
bounded_snippet-IsCutOf snippet fallback =
    let value = snippet_value snippet fallback in
    let cut = cut_value-IsCutOf value in (cut_count value (cut_value value) cut, cut)
