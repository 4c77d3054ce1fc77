-- ===== src/Gateway/Registration/Validation.antt =====
-- What a registration request that is accepted looks like.
use gongcli_mcp.Prelude.{
  String, ◌≡◌, ◌≢◌, refl, true, false, eq_iff, none, List, [], ◌∷◌, All, is_empty, arith, inl, inr,
  ◌⊎◌,
}
use gongcli_mcp.Text.{join}
use gongcli_mcp.Text.Split.{fields}
use gongcli_mcp.Gateway.Config.{Config}
use gongcli_mcp.Gateway.Auth.Principals.{Member, has-Member, is_empty_iff}
use gongcli_mcp.Gateway.Registration.{
  RegistrationRequest, accepted, first_outside, is_only, or_default, auth_method_of, grant_types_of,
  response_types_of, scopes_of, normalized, validate_scopes, validate_metadata,
  validate_dcr_request,
}

-- Every value of the list is in `allowed`.
abbrev pub Within : List String → List String → Type 0
Within allowed values = All (λ v. Member v allowed) values

pub record Registrable (cfg : Config) (req out : RegistrationRequest) : Type 0 where
  pub redirect_uris : out.redirect_uris ≡ req.redirect_uris
  pub some_redirect_uri : out.redirect_uris ≢ []
  pub redirect_uris_within : Within cfg.dcr_allowed_redirect_uris out.redirect_uris
  pub auth_method : out.token_endpoint_auth_method ≡ "none"
  pub grant_types : out.grant_types ≡ "authorization_code" ∷ []
  pub response_types : out.response_types ≡ "code" ∷ []
  pub client_name : out.client_name ≡ req.client_name
  pub scopes : List String
  pub scope_text : out.scope ≡ join " " scopes
  pub scopes_asked : (scopes ≡ fields req.scope) ⊎ (scopes ≡ cfg.dcr_allowed_scopes)
  pub scopes_within : Within cfg.dcr_allowed_scopes scopes
  pub required_scope : Member cfg.required_scope scopes

first_outside_sound :
    (allowed values : List String) → first_outside allowed values ≡ none → Within allowed values
unfolding first_outside
first_outside_sound allowed [] h = tt
first_outside_sound allowed (v ∷ vs) h =
    ground (arith, has-Member v allowed, first_outside_sound allowed vs)

is_only_sound :
    (want : String) (values : List String) → is_only want values ≡ true → values ≡ want ∷ []
is_only_sound want [] h = absurd (ground arith)
is_only_sound want (v ∷ []) h = rw ((eq_iff v want).0 h)
is_only_sound want (v ∷ w ∷ vs) h = absurd (ground arith)

or_default-cases :
    (values fallback : List String)
    → (or_default values fallback ≡ values) ⊎ (or_default values fallback ≡ fallback)
or_default-cases [] fallback = inr refl
or_default-cases (v ∷ vs) fallback = inl refl

module _ (cfg : Config) (req out : RegistrationRequest) where
  validate_scopes_sound :
      validate_scopes cfg req ≡ accepted out
      → (out ≡ normalized cfg req)
        × Within cfg.dcr_allowed_scopes (scopes_of cfg req)
        × Member cfg.required_scope (scopes_of cfg req)
  unfolding validate_scopes
  validate_scopes_sound h = ground (
    arith,
    first_outside_sound cfg.dcr_allowed_scopes (scopes_of cfg req),
    has-Member cfg.required_scope (scopes_of cfg req),
  )

  validate_metadata_sound :
      validate_metadata cfg req ≡ accepted out
      → (auth_method_of req ≡ "none")
        × (grant_types_of cfg req ≡ "authorization_code" ∷ [])
        × (response_types_of cfg req ≡ "code" ∷ [])
        × (validate_scopes cfg req ≡ accepted out)
  unfolding validate_metadata
  validate_metadata_sound h = (
    ground (arith, eq_iff (auth_method_of req) "none"),
    is_only_sound _ _ (ground arith),
    is_only_sound _ _ (ground arith),
    ground arith,
  )

  validate_dcr_request_reach :
      validate_dcr_request cfg req ≡ accepted out
      → (is_empty req.redirect_uris ≡ false)
        × Within cfg.dcr_allowed_redirect_uris req.redirect_uris
        × (validate_metadata cfg req ≡ accepted out)
  unfolding validate_dcr_request
  validate_dcr_request_reach h =
      ground (arith, first_outside_sound cfg.dcr_allowed_redirect_uris req.redirect_uris)

-- A registration request that is accepted keeps its redirect addresses, at least one and all of
-- them allowed; it has no secret, the authorization code grant and the response type code alone;
-- its scopes are those it asked for or all that are allowed, lie within the allowed ones and
-- contain the required one.
pub validate_dcr_request-Registrable :
    (cfg : Config) (req out : RegistrationRequest)
    → validate_dcr_request cfg req ≡ accepted out
    → Registrable cfg req out
validate_dcr_request-Registrable cfg req out h =
    let (full, uris, checked) = validate_dcr_request_reach cfg req out h in
    let (method, grants, types, scoped) = validate_metadata_sound cfg req out checked in
    let (same, within, required) = validate_scopes_sound cfg req out scoped in
    rw same (
      unfold normalized in
      unfold scopes_of in
      record {
        redirect_uris = refl;
        some_redirect_uri = λ none_left. ground (arith, is_empty_iff req.redirect_uris);
        redirect_uris_within = uris;
        auth_method = method;
        grant_types = grants;
        response_types = types;
        client_name = refl;
        scopes = scopes_of cfg req;
        scope_text = refl;
        scopes_asked = or_default-cases (fields req.scope) cfg.dcr_allowed_scopes;
        scopes_within = within;
        required_scope = required;
      })
