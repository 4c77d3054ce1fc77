-- ===== src/Gateway/Auth.antt =====
-- Authorizer of internal/gateway/auth.go. The JWT library is a parameter, `parse_token`: the claims
-- of a token with a valid RS256 signature that has not expired, `none` for any other. So is the
-- client verifier, which has a state of its own: `none` means that the client is accepted.
pub mod Principals
mod Binding
pub mod Soundness
pub mod Samples
mod Tests
use Prim.Native.String.{len}
use gongcli_mcp.Prelude.{
  ℕ, zero, suc, String, Char, code, ◌==◌, Bool, true, false, not, ◌&&◌, ◌||◌, Option, none, some,
  List, [], ◌∷◌, any, is_empty, ltb, nat_eq, if◌then◌else◌,
}
use gongcli_mcp.Prelude.Sets.{has}
use gongcli_mcp.Text.{is_nil, trim_space, has_prefix}
use gongcli_mcp.Text.Split.{trim_right_by, drop_chars}
use gongcli_mcp.Text.Unicode.{Unicode, lower_text}
use gongcli_mcp.Gateway.Config.{
  Config, auth_profile_cognito, auth_profile_direct_oidc, resource_url, configured_required_groups,
  contains,
}
use gongcli_mcp.Gateway.Claims.{Claims, scopes_from_claims, groups_from_claims, email_from_claims}

pub record Principal : Type 0 where
  pub subject : String
  pub email : String
  pub groups : List String
  pub scopes : List String

pub data AuthError : Type 0 where
  missing_bearer empty_bearer bearer_too_large invalid_token issuer_mismatch cancelled : AuthError
  token_use_not_access client_mismatch audience_mismatch client_binding_missing : AuthError
  unsupported_profile scope_missing subject_not_allowed email_not_allowed group_missing : AuthError

pub data Access : Type 0 where
  granted : Principal → Access
  denied : AuthError → Access

-- maxAudienceClientIDChecks
abbrev max_audience_client_id_checks : ℕ
max_audience_client_id_checks = 8

abbrev is_slash : Char → Bool
is_slash c = nat_eq (code c) b'/'

-- strings.TrimRight(strings.TrimSpace(value), "/")
issuer_text : String → String
issuer_text value = trim_right_by is_slash (trim_space value)

unfoldable pub issuer_matches : String → String → Bool
unfolding issuer_text trim_right_by trim_space
issuer_matches got want = not (is_nil (issuer_text got)) && issuer_text got == issuer_text want

unfoldable pub has_any_required_group : List String → List String → Bool
has_any_required_group groups required = any (λ group. has group required) groups

group_check : List String → List String → Option AuthError
group_check groups required =
    if is_empty required
    then none
    else if has_any_required_group groups required
    then none
    else some group_missing

unfoldable pub authorize_principal :
    Unicode → Config → String → String → List String → Option AuthError
unfolding group_check has_any_required_group configured_required_groups
authorize_principal u cfg subject email groups =
    if not (is_empty cfg.allowed_subjects) && not (has (lower_text u subject) cfg.allowed_subjects)
    then some subject_not_allowed
    else if not (is_empty cfg.allowed_emails) && not (has (lower_text u email) cfg.allowed_emails)
    then some email_not_allowed
    else group_check groups (configured_required_groups cfg)

-- staticClientVerifier
unfoldable pub static_verify : Config → Unit {0} → String → Option AuthError × Unit {0}
static_verify cfg s client_id =
    (if client_id == cfg.client_id then none else some client_mismatch, tt)

module _ {S : Type 0} (verify : S → String → Option AuthError × S)
    (parse_token : String → Option Claims) (u : Unicode) (cfg : Config) where
  -- The loop of verifyAudienceClientID and of audienceClientIDAllowed, `n` more values at most.
  try_audience : ℕ → List String → S → Bool × S
  try_audience zero values s = (false, s)
  try_audience (suc n) [] s = (false, s)
  try_audience (suc n) (v ∷ vs) s =
      let (refused, s') = verify s v in
      elim refused [ none ↦ (true, s') | some e ↦ try_audience n vs s' ]

  -- The audience check of validateCognitoClaims, behind the client's.
  cognito_audience : Claims → Option AuthError × S → Option AuthError × S
  cognito_audience claims (some e, s) = (some e, s)
  cognito_audience claims (none, s) =
      if not (is_empty claims.audience) && not (contains claims.audience (resource_url cfg))
      then (some audience_mismatch, s)
      else (none, s)

  validate_cognito_claims : Claims → S → Option AuthError × S
  validate_cognito_claims claims s =
      if claims.token_use == "access"
      then cognito_audience claims (verify s claims.client_id)
      else (some token_use_not_access, s)

  binding_result : AuthError → Bool × S → Option AuthError × S
  binding_result e (true, s) = (none, s)
  binding_result e (false, s) = (some e, s)

  -- The client's own id where the token has one, else one of the audience.
  client_binding : Claims → S → Option AuthError × S
  client_binding claims s =
      if is_nil claims.client_id
      then binding_result client_binding_missing
          (try_audience max_audience_client_id_checks claims.audience s)
      else verify s claims.client_id

  direct_audience : Claims → Option AuthError × S → Option AuthError × S
  direct_audience claims (some e, s) = (some e, s)
  direct_audience claims (none, s) =
      if is_empty claims.audience || contains claims.audience (resource_url cfg)
      then (none, s)
      else binding_result audience_mismatch
          (try_audience max_audience_client_id_checks claims.audience s)

  validate_direct_oidc_claims : Claims → S → Option AuthError × S
  validate_direct_oidc_claims claims s =
      if not (is_nil claims.token_use) && not (claims.token_use == "access")
      then (some token_use_not_access, s)
      else direct_audience claims (client_binding claims s)

  pub validate_token_profile : Claims → S → Option AuthError × S
  validate_token_profile claims s =
      if is_nil cfg.auth_profile || cfg.auth_profile == auth_profile_cognito
      then validate_cognito_claims claims s
      else if cfg.auth_profile == auth_profile_direct_oidc
      then validate_direct_oidc_claims claims s
      else (some unsupported_profile, s)

  is_direct : Bool
  is_direct = cfg.auth_profile == auth_profile_direct_oidc

  pub principal_of : Claims → Principal
  principal_of claims = record {
    subject = claims.subject;
    email = email_from_claims claims is_direct;
    groups = groups_from_claims claims cfg.group_claim is_direct;
    scopes = scopes_from_claims claims is_direct;
  }

  -- The checks behind the profile's.
  authorize_claims : Claims → Access
  authorize_claims claims =
      let p = principal_of claims in
      if has cfg.required_scope p.scopes
      then (elim (authorize_principal u cfg p.subject p.email p.groups) [
        | none ↦ granted p
        | some e ↦ denied e
      ])
      else denied scope_missing

  behind_profile : Claims → Option AuthError × S → Access × S
  behind_profile claims (some e, s) = (denied e, s)
  behind_profile claims (none, s) = (authorize_claims claims, s)

  -- VerifyAccessToken on parsed claims; `done` says that the context is cancelled.
  verify_claims : Bool → Claims → S → Access × S
  verify_claims done claims s =
      if issuer_matches claims.issuer cfg.issuer
      then (if done
          then (denied cancelled, s)
          else behind_profile claims (validate_token_profile claims s))
      else (denied issuer_mismatch, s)

  pub verify_access_token : Bool → String → S → Access × S
  verify_access_token done raw_token s = elim (parse_token raw_token) [
    | none ↦ (denied invalid_token, s)
    | some claims ↦ verify_claims done claims s
  ]

  -- The token behind "bearer ": seven characters, which are ASCII since they lower to that word.
  bearer_token : String → String
  bearer_token auth = trim_space (drop_chars 7 auth)

  pub authenticate : Bool → String → S → Access × S
  authenticate done authorization s =
      let auth = trim_space authorization in
      if has_prefix (lower_text u auth) "bearer "
      then (if is_nil (bearer_token auth)
          then (denied empty_bearer, s)
          else if ltb 0 cfg.max_bearer_bytes && ltb cfg.max_bearer_bytes (len (bearer_token auth))
          then (denied bearer_too_large, s)
          else verify_access_token done (bearer_token auth) s)
      else (denied missing_bearer, s)
