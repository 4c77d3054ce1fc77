-- ===== src/Gateway/Registration/Samples.antt =====
-- A gateway with registration and a request that it accepts, which the tests share.
use gongcli_mcp.Prelude.{◌≡◌, refl, true, [], ◌∷◌}
use gongcli_mcp.Text.{trim_space, join}
use gongcli_mcp.Text.Split.{fields}
use gongcli_mcp.Gateway.Config.{Config}
use gongcli_mcp.Gateway.Registration.{
  RegistrationRequest, accepted, first_outside, auth_method_of, grant_types_of, response_types_of,
  scopes_of, normalized, validate_scopes, validate_metadata, validate_dcr_request,
}

abbrev pub registrar : Config
registrar = record {
  internal_token = "internal";
  public_base_url = "https://gw.example";
  auth_profile = "cognito";
  issuer = "https://idp.example";
  client_id = "client-1";
  required_scope = "gongmcp/read";
  required_group = "readers";
  required_groups = "readers" ∷ [];
  group_claim = "cognito:groups";
  allowed_subjects = [];
  allowed_emails = [];
  allowed_origins = [];
  max_request_bytes = 8388608;
  max_bearer_bytes = 8192;
  dcr_enabled = true;
  dcr_allowed_redirect_uris = "https://app.example/cb" ∷ "https://app.example/cb2" ∷ [];
  dcr_allowed_scopes = "openid" ∷ "gongmcp/read" ∷ [];
  dcr_client_name_prefix = "gongmcp-dcr";
  dcr_client_cache_ttl = 600;
}

abbrev pub asked : RegistrationRequest
asked = record {
  redirect_uris = "https://app.example/cb2" ∷ [];
  token_endpoint_auth_method = " ";
  grant_types = [];
  response_types = "code" ∷ [];
  client_name = "My App";
  scope = " gongmcp/read  openid";
}

abbrev pub registered : RegistrationRequest
registered = record {
  redirect_uris = "https://app.example/cb2" ∷ [];
  token_endpoint_auth_method = "none";
  grant_types = "authorization_code" ∷ [];
  response_types = "code" ∷ [];
  client_name = "My App";
  scope = "gongmcp/read openid";
}

pub asked_run : validate_dcr_request registrar asked ≡ accepted registered
unfolding validate_dcr_request validate_metadata validate_scopes normalized scopes_of
    response_types_of grant_types_of auth_method_of first_outside fields join trim_space
asked_run = refl
