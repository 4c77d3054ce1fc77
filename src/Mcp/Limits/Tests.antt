-- ===== src/Mcp/Limits/Tests.antt =====
-- Runs of the limits.
use gongcli_mcp.Prelude.{◌≤◌, ◌<◌, String, ◌==◌, ◌≡◌, refl, Option, none, some, if◌then◌else◌}
use gongcli_mcp.Prelude.Int.{ℤ, pos, negsuc}
use gongcli_mcp.Text.{trim_space}
use gongcli_mcp.Mcp.Limits.{
  LimitPolicy, default_limit_policy, normalize, normalize_limit, normalized, limit_policy_from_env,
  override_all, override_from, with_override, set_limit, min_limit, search_limit,
  missing_transcript_limit, lifecycle_limit, business_analysis_limit,
}
use gongcli_mcp.Mcp.Limits.Bounds.{
  IsBounded, limit_policy_from_env-IsBounded, request_limits-InRange,
}

abbrev getenv : String → String
getenv key = if key == "GONGMCP_MAX_SEARCH_RESULTS" then " big " else ""

abbrev atoi : String → Option ℤ
atoi text = if text == "big" then some (pos 5000) else none

abbrev widest : LimitPolicy
widest = record default_limit_policy { search_results = pos 1000 }

widest_run : limit_policy_from_env atoi getenv ≡ some widest
unfolding limit_policy_from_env override_all override_from with_override set_limit min_limit
    normalized normalize normalize_limit trim_space
widest_run = refl

limit_policy_from_env-IsBounded_example : IsBounded widest × (normalize widest ≡ widest)
limit_policy_from_env-IsBounded_example =
    limit_policy_from_env-IsBounded atoi getenv widest widest_run

request_limits-InRange_example :
    ((0 < search_limit widest (negsuc 4)) × (search_limit widest (negsuc 4) ≤ 1000))
    × ((0 < missing_transcript_limit widest (negsuc 4))
        × (missing_transcript_limit widest (negsuc 4) ≤ 10000))
    × ((0 < lifecycle_limit widest (negsuc 4)) × (lifecycle_limit widest (negsuc 4) ≤ 1000))
    × ((0 < business_analysis_limit widest (negsuc 4))
        × (business_analysis_limit widest (negsuc 4) ≤ 1000))
request_limits-InRange_example = request_limits-InRange widest (negsuc 4)
