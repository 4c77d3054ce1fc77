-- ===== src/Gong/Origin.antt =====
-- Client.endpoint of internal/gong/client.go: the URL of a request. net/url and strings.EqualFold
-- are parameters; a URL is its parts.
pub mod Same
mod Tests
use gongcli_mcp.Prelude.{
  ℕ, Char, code, String, ◌==◌, Bool, true, false, not, ◌&&◌, ◌||◌, Option, none, some, nat_eq,
  if◌then◌else◌,
}
use gongcli_mcp.Text.{cat, is_nil, has_prefix}
use gongcli_mcp.Text.Split.{trim_left_by, trim_right_by, drop_chars}
use gongcli_mcp.Text.Unicode.{Unicode, lower_text}

-- `rest` is what the code does not read: the user and the fragment.
pub record Url : Type 0 where
  pub scheme : String
  pub hostname : String
  pub port : String
  pub path : String
  pub raw_query : String
  pub rest : String

is_slash : Char → Bool
is_slash c = nat_eq (code c) b'/'

-- strings.HasSuffix
has_suffix : String → String → Bool
has_suffix String.[] p = is_nil p
has_suffix (String.◌∷◌ c s) p = String.◌∷◌ c s == p || has_suffix s p

module _ (u : Unicode) where
  unfoldable pub origin_port : Url → String
  origin_port url =
      if not (is_nil url.port)
      then url.port
      else if lower_text u url.scheme == "http"
      then "80"
      else if lower_text u url.scheme == "https"
      then "443"
      else ""

  module _ (equal_fold : String → String → Bool) where
    unfoldable pub same_origin : Url → Url → Bool
    unfolding origin_port
    same_origin a b =
        equal_fold a.scheme b.scheme
        && equal_fold a.hostname b.hostname
        && origin_port a == origin_port b

    module _ (parse : String → Option Url) where
      absolute_url : Url → Option Url → Option Url
      absolute_url base none = none
      absolute_url base (some absolute) = if same_origin absolute base then some absolute else none

      -- The path behind the base path, whose /v2 is not repeated.
      request_path : String → String → String
      unfolding has_prefix
      request_path base_path path =
          if has_suffix base_path "/v2" && has_prefix path "/v2/" then drop_chars 3 path else path

      relative_url : Url → Option Url → Option Url
      unfolding trim_right_by is_slash
      relative_url base none = none
      relative_url base (some relative) =
          let base_path = trim_right_by is_slash base.path in
          some (record base {
            path = cat base_path (request_path base_path relative.path);
            raw_query = relative.raw_query;
          })

      -- Client.endpoint, before the URL is printed; `none` is its error.
      pub endpoint : Url → String → Option Url
      unfolding trim_left_by is_slash has_prefix
      endpoint base path =
          if has_prefix path "http://" || has_prefix path "https://"
          then absolute_url base (parse path)
          else relative_url base (parse (cat "/" (trim_left_by is_slash path)))
