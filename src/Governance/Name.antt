-- ===== src/Governance/Name.antt =====
-- NormalizeName of internal/governance/config.go.
pub mod Words
pub mod Quoted
use Prim.Native.String.{[], ◌∷◌}
use gongcli_mcp.Prelude.{Char, String, List, [], ◌∷◌, ◌++◌, if◌then◌else◌}
use gongcli_mcp.Text.{cat, is_nil, trim_space, join}
use gongcli_mcp.Text.Unicode.{Unicode, lower_text, alnum}

-- The closure `flush`, which appends the builder's text to `fields` unless it is empty.
flush : List String → String → List String
flush fields b = if is_nil b then fields else fields ++ b ∷ []

-- The loop over the runes, with `fields` and the builder `b`.
scan : Unicode → List String → String → String → List String
scan u fields b [] = flush fields b
scan u fields b (r ∷ rest) =
    let written = scan u fields (cat b (r ∷ "")) rest in
    let flushed = scan u (flush fields b) "" rest in if alnum u r then written else flushed

-- `fields` at the end of the loop.
unfoldable pub name_fields : Unicode → String → List String
unfolding scan flush trim_space lower_text alnum
name_fields u value = scan u [] "" (lower_text u (trim_space value))

unfoldable pub normalize_name : Unicode → String → String
normalize_name u value = join " " (name_fields u value)
