-- ===== src/Gateway/Load/Tests.antt =====
-- A config that loads, and one that is refused since it names nobody.
use gongcli_mcp.Prelude.{
  String, ◌==◌, ◌≡◌, ◌⊎◌, refl, false, Option, none, some, List, [], ◌∷◌, if◌then◌else◌,
}
use gongcli_mcp.Prelude.Sets.{add}
use gongcli_mcp.Text.{is_nil, trim_space, has_prefix}
use gongcli_mcp.Text.Split.{fields_func, split, trim_right_by}
use gongcli_mcp.Text.Ascii.{ascii}
use gongcli_mcp.Text.Unicode.{lower_text}
use gongcli_mcp.Gateway.Config.{
  Config, auth_profile_cognito, auth_profile_direct_oidc, split_list, csv_set,
}
use gongcli_mcp.Gateway.Load.{
  UrlParts, https_parts, validate_https_url, is_absolute, Reader, loaded, failed, nobody_allowed,
  load_config, load_profile, load_with, check_settings, load_settings, load_dcr_scopes,
  single_group, load_required_groups, first_list, load_internal_token, env_bool, env_default,
  env_first, normalize_auth_profile, is_truth, url_text, is_slash,
}
use gongcli_mcp.Gateway.Load.Closed.{IsClosed, load_config-IsClosed}

abbrev value_in : List (String × String) → String → String
value_in [] key = ""
value_in ((k, v) ∷ vars) key = let rest = value_in vars key in if k == key then v else rest

abbrev common : List (String × String)
common =
    ("GATEWAY_INTERNAL_BEARER_TOKEN", " internal\n")
    ∷ ("OIDC_ISSUER_URL", "https://idp.example/")
    ∷ ("PUBLIC_BASE_URL", "https://gw.example")
    ∷ ("OIDC_CLIENT_ID", "client-1")
    ∷ ("OIDC_AUTH_PROFILE", "OIDC")
    ∷ []

abbrev parse_url : String → Option UrlParts
parse_url text = some (record {
  scheme = if has_prefix text "https://" then "https" else "http";
  host = "host.example";
})

abbrev reader : List (String × String) → Reader
reader vars = record {
  env = value_in vars;
  parse_url = parse_url;
  file = λ path. none;
  number = λ text. none;
}

abbrev by_email : Reader
by_email = reader (("OIDC_ALLOWED_EMAILS", "Ann@corp.example, ") ∷ common)

abbrev by_email_config : Config
by_email_config = record {
  internal_token = "internal";
  public_base_url = "https://gw.example";
  auth_profile = "direct-oidc";
  issuer = "https://idp.example";
  client_id = "client-1";
  required_scope = "gongmcp/read";
  required_group = "";
  required_groups = [];
  group_claim = "groups";
  allowed_subjects = [];
  allowed_emails = "ann@corp.example" ∷ [];
  allowed_origins = [];
  max_request_bytes = 8388608;
  max_bearer_bytes = 8192;
  dcr_enabled = false;
  dcr_allowed_redirect_uris = [];
  dcr_allowed_scopes = [];
  dcr_client_name_prefix = "gongmcp-dcr";
  dcr_client_cache_ttl = 600;
}

by_email_run : load_config ascii by_email ≡ loaded by_email_config
unfolding load_config load_profile load_with check_settings load_settings load_dcr_scopes
    validate_https_url https_parts is_absolute single_group load_required_groups first_list
    load_internal_token env_bool env_default env_first normalize_auth_profile is_truth url_text
    is_slash split_list csv_set add fields_func split trim_right_by trim_space lower_text has_prefix
by_email_run = refl

nobody_run : load_config ascii (reader common) ≡ failed nobody_allowed
unfolding load_config load_profile load_with check_settings load_settings load_dcr_scopes
    validate_https_url https_parts is_absolute single_group load_required_groups first_list
    load_internal_token env_bool env_default env_first normalize_auth_profile is_truth url_text
    is_slash split_list csv_set add fields_func split trim_right_by trim_space lower_text has_prefix
nobody_run = refl

load_config-IsClosed_example :
    IsClosed by_email by_email_config
    × (is_nil by_email_config.internal_token ≡ false)
    × ((by_email_config.auth_profile ≡ auth_profile_cognito)
        ⊎ (by_email_config.auth_profile ≡ auth_profile_direct_oidc))
load_config-IsClosed_example = load_config-IsClosed ascii by_email by_email_config by_email_run
