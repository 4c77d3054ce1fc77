-- ===== src/Transcripts/Snippet.antt =====
-- boundedSnippet of internal/transcripts/service.go.
pub mod Bounded
use gongcli_mcp.Prelude.{String, leb, if◌then◌else◌}
use gongcli_mcp.Text.{cat, is_nil, trim_space, join, rune_count, take_runes}
use gongcli_mcp.Text.Split.{fields}

-- The snippet, or the fallback, with one space between its words.
pub snippet_value : String → String → String
unfolding trim_space fields join
snippet_value snippet fallback =
    let value = trim_space snippet in
    let other = trim_space fallback in
    let chosen = if is_nil value then other else value in join " " (fields chosen)

-- maxSnippetChars is 240, so that the branch for 3 or less is never taken.
cut_value : String → String
unfolding rune_count take_runes
cut_value value =
    if is_nil value
    then value
    else if leb (rune_count value) 240
    then value
    else cat (take_runes 237 value) "..."

pub bounded_snippet : String → String → String
unfolding cut_value
bounded_snippet snippet fallback = cut_value (snippet_value snippet fallback)
