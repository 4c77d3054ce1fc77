-- ===== src/Governance/Match.antt =====
-- normalizedContainsTarget of internal/governance/config.go.
pub mod Runs
use gongcli_mcp.Prelude.{String, Bool, false, ◌||◌, if◌then◌else◌}
use gongcli_mcp.Text.{cat, is_nil, trim_space, contains}

-- The test on the two trimmed texts.
padded_contains : String → String → Bool
padded_contains candidate target =
    if is_nil candidate || is_nil target
    then false
    else contains (cat " " (cat candidate " ")) (cat " " (cat target " "))

unfoldable pub normalized_contains_target : String → String → Bool
unfolding padded_contains trim_space contains
normalized_contains_target candidate target =
    padded_contains (trim_space candidate) (trim_space target)
