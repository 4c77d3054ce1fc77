-- ===== src/Gateway/Auth/Samples.antt =====
-- A gateway, a token and the access that it is granted, which the tests share.
use gongcli_mcp.Prelude.{String, ◌≡◌, refl, ◌==◌, false, Option, none, some, [], ◌∷◌, if◌then◌else◌}
use gongcli_mcp.Text.Ascii.{ascii}
use gongcli_mcp.Text.Unicode.{lower_text}
use gongcli_mcp.Gateway.Config.{Config}
use gongcli_mcp.Text.{trim_space, has_prefix}
use gongcli_mcp.Gateway.Claims.{
  Claims, end, scopes_from_claims, groups_from_claims, email_from_claims,
}
use gongcli_mcp.Gateway.Auth.{
  Principal, granted, issuer_matches, authorize_principal, static_verify, authenticate,
  bearer_token, verify_access_token, verify_claims, behind_profile, authorize_claims, principal_of,
  is_direct, validate_token_profile, validate_cognito_claims, cognito_audience,
}

abbrev pub gateway : Config
gateway = record {
  internal_token = "internal";
  public_base_url = "https://gw.example";
  auth_profile = "cognito";
  issuer = "https://idp.example/";
  client_id = "client-1";
  required_scope = "gongmcp/read";
  required_group = "";
  required_groups = [];
  group_claim = "cognito:groups";
  allowed_subjects = [];
  allowed_emails = "ann@corp.example" ∷ [];
  allowed_origins = [];
  max_request_bytes = 8388608;
  max_bearer_bytes = 8192;
  dcr_enabled = false;
  dcr_allowed_redirect_uris = [];
  dcr_allowed_scopes = [];
  dcr_client_name_prefix = "gongmcp-dcr";
  dcr_client_cache_ttl = 600;
}

abbrev pub ann : Claims
ann = record {
  issuer = "https://idp.example";
  subject = "s1";
  audience = [];
  client_id = "client-1";
  token_use = "access";
  scope = "openid gongmcp/read";
  email = "Ann@corp.example";
  groups = [];
  raw = end;
}

abbrev pub ann_principal : Principal
ann_principal = record {
  subject = "s1";
  email = "Ann@corp.example";
  groups = [];
  scopes = "openid" ∷ "gongmcp/read" ∷ [];
}

unfoldable pub parse_token : String → Option Claims
parse_token token = if token == "good" then some ann else none

pub granted_run :
    (authenticate (static_verify gateway) parse_token ascii gateway false " Bearer good " tt).0
    ≡ granted ann_principal
unfolding authenticate bearer_token verify_access_token verify_claims behind_profile
    authorize_claims principal_of is_direct validate_token_profile validate_cognito_claims
    cognito_audience static_verify issuer_matches authorize_principal parse_token scopes_from_claims
    groups_from_claims email_from_claims lower_text has_prefix trim_space
granted_run = refl
