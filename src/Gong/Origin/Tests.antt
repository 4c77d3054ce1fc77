-- ===== src/Gong/Origin/Tests.antt =====
-- A path below the base URL.
use gongcli_mcp.Prelude.{String, ◌==◌, ◌≡◌, refl, Bool, Option, some, eq_refl}
use gongcli_mcp.Text.{has_prefix}
use gongcli_mcp.Text.Split.{trim_left_by, trim_right_by}
use gongcli_mcp.Text.Ascii.{ascii}
use gongcli_mcp.Gong.Origin.{Url, endpoint, relative_url, request_path, has_suffix, is_slash}
use gongcli_mcp.Gong.Origin.Same.{HasOrigin, endpoint-HasOrigin}

abbrev at_path : String → Url
at_path path = record {
  scheme = "https";
  hostname = "api.gong.io";
  port = "";
  path = path;
  raw_query = "";
  rest = "";
}

-- Every text is the path of a URL of the same host.
abbrev parse : String → Option Url
parse text = some (at_path text)

abbrev equal_fold : String → String → Bool
equal_fold a b = a == b

endpoint_run :
    endpoint ascii equal_fold parse (at_path "/v2/") "v2/calls" ≡ some (at_path "/v2/calls")
unfolding endpoint relative_url request_path has_suffix is_slash has_prefix trim_left_by
    trim_right_by
endpoint_run = refl

endpoint-HasOrigin_example : HasOrigin ascii equal_fold (at_path "/v2/calls") (at_path "/v2/")
endpoint-HasOrigin_example =
    endpoint-HasOrigin ascii equal_fold parse (at_path "/v2/") (at_path "/v2/calls") "v2/calls"
      eq_refl endpoint_run
