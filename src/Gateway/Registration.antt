-- ===== src/Gateway/Registration.antt =====
-- Dynamic client registration: validateDCRRequest of internal/gateway/server.go.
pub mod Validation
pub mod Samples
mod Tests
use gongcli_mcp.Prelude.{
  String, Bool, true, false, not, ◌==◌, Option, none, some, List, [], ◌∷◌, is_empty, if◌then◌else◌,
}
use gongcli_mcp.Text.{is_nil, trim_space, join}
use gongcli_mcp.Text.Split.{fields}
use gongcli_mcp.Gateway.Config.{Config, contains}

-- DCRClientRegistrationRequest
pub record RegistrationRequest : Type 0 where
  pub redirect_uris : List String
  pub token_endpoint_auth_method : String
  pub grant_types : List String
  pub response_types : List String
  pub client_name : String
  pub scope : String

pub data RegistrationError : Type 0 where
  redirect_uris_missing auth_method_unsupported grant_unsupported response_type_unsupported :
      RegistrationError
  redirect_uri_not_allowed scope_not_allowed required_scope_missing : String → RegistrationError

pub data Validated : Type 0 where
  accepted : RegistrationRequest → Validated
  refused : RegistrationError → Validated

-- The loop that stops at the first value that is not allowed.
first_outside : List String → List String → Option String
first_outside allowed [] = none
first_outside allowed (v ∷ vs) = if contains allowed v then first_outside allowed vs else some v

-- The value where the request leaves the list empty.
abbrev or_default : List String → List String → List String
or_default [] fallback = fallback
or_default (v ∷ vs) fallback = v ∷ vs

-- `!(len(values) != 1 || values[0] != want)`
abbrev is_only : String → List String → Bool
is_only want (v ∷ []) = v == want
is_only want _ = false

auth_method_of : RegistrationRequest → String
auth_method_of req =
    let method = trim_space req.token_endpoint_auth_method in
    if is_nil method then "none" else method

module _ (cfg : Config) (req : RegistrationRequest) where
  grant_types_of : List String
  grant_types_of = or_default req.grant_types ("authorization_code" ∷ [])

  response_types_of : List String
  response_types_of = or_default req.response_types ("code" ∷ [])

  scopes_of : List String
  scopes_of = or_default (fields req.scope) cfg.dcr_allowed_scopes

  normalized : RegistrationRequest
  normalized = record {
    redirect_uris = req.redirect_uris;
    token_endpoint_auth_method = auth_method_of req;
    grant_types = grant_types_of;
    response_types = response_types_of;
    client_name = req.client_name;
    scope = join " " scopes_of;
  }

  validate_scopes : Validated
  validate_scopes = elim (first_outside cfg.dcr_allowed_scopes scopes_of) [
    | some scope ↦ refused (scope_not_allowed scope)
    | none ↦
        if contains scopes_of cfg.required_scope
        then accepted normalized
        else refused (required_scope_missing cfg.required_scope)
  ]

  -- The checks behind those of the redirect addresses.
  validate_metadata : Validated
  validate_metadata =
      if not (auth_method_of req == "none")
      then refused auth_method_unsupported
      else if not (is_only "authorization_code" grant_types_of)
      then refused grant_unsupported
      else if not (is_only "code" response_types_of)
      then refused response_type_unsupported
      else validate_scopes

  pub validate_dcr_request : Validated
  validate_dcr_request =
      if is_empty req.redirect_uris
      then refused redirect_uris_missing
      else (elim (first_outside cfg.dcr_allowed_redirect_uris req.redirect_uris) [
        | some uri ↦ refused (redirect_uri_not_allowed uri)
        | none ↦ validate_metadata
      ])
