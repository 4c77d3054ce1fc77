-- ===== src/Mcp/Policy/Tests.antt =====
-- Runs of parsing and merging switches.
use gongcli_mcp.Prelude.{◌==◌, ◌≡◌, refl, true, ◌||◌, some, any}
use gongcli_mcp.Text.Split.{split}
use gongcli_mcp.Text.Ascii.{ascii}
use gongcli_mcp.Mcp.Policy.{
  PolicySwitches, no_switches, broad_public_redacted_switches, key_of, is_enabled, set, set_at,
  parse_pieces, parse_policy_switches, merge_policy_switches,
}
use gongcli_mcp.Mcp.Policy.Flags.{
  parse_policy_switches-is_enabled, is_enabled-merge_policy_switches,
}

abbrev titled : PolicySwitches
titled = record no_switches { hide_call_titles = true; hide_raw_call_ids = true }

titled_run : parse_policy_switches ascii " Hide_Call_Titles,,hide_raw_call_ids" ≡ some titled
unfolding parse_policy_switches parse_pieces key_of set set_at split
titled_run = refl

parse_policy_switches-is_enabled_example :
    is_enabled ascii titled "HIDE_CALL_TITLES"
    ≡ any
        (λ piece. key_of ascii piece == key_of ascii "HIDE_CALL_TITLES")
        (split b',' " Hide_Call_Titles,,hide_raw_call_ids")
unfolding key_of
parse_policy_switches-is_enabled_example =
    parse_policy_switches-is_enabled ascii " Hide_Call_Titles,,hide_raw_call_ids" "HIDE_CALL_TITLES"
      titled refl titled_run

is_enabled-merge_policy_switches_example :
    is_enabled ascii
      (merge_policy_switches ascii titled broad_public_redacted_switches)
      "hide_raw_call_ids"
    ≡ (is_enabled ascii titled "hide_raw_call_ids"
        || is_enabled ascii broad_public_redacted_switches "hide_raw_call_ids")
is_enabled-merge_policy_switches_example =
    is_enabled-merge_policy_switches ascii titled broad_public_redacted_switches "hide_raw_call_ids"
