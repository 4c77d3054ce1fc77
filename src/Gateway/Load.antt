-- ===== src/Gateway/Load.antt =====
-- LoadConfig of internal/gateway/config.go, for the settings that Config keeps. The environment is
-- a function, empty where a variable is not set; the parser of URLs, the token's file and the
-- scanner of numbers are parameters.
pub mod Closed
mod Tests
use gongcli_mcp.Prelude.{
  ℕ, ◌-◌, ◌*◌, ◌%◌, Char, code, String, ◌==◌, Bool, true, false, not, ◌&&◌, ◌||◌, Option, none,
  some, List, [], ◌∷◌, is_empty, any, leb, nat_eq, if◌then◌else◌,
}
use gongcli_mcp.Prelude.Int.{ℤ, pos, negsuc}
use gongcli_mcp.Text.{cat, is_nil, trim_space}
use gongcli_mcp.Text.Split.{trim_right_by}
use gongcli_mcp.Text.Unicode.{Unicode, lower_text}
use gongcli_mcp.Gateway.Config.{
  Config, auth_profile_cognito, auth_profile_direct_oidc, contains, split_list, csv_set,
}

-- What the code reads of a URL.
pub record UrlParts : Type 0 where
  pub scheme : String
  pub host : String

-- What LoadConfig reads besides the environment: url.Parse, the content of a file, and the number
-- that fmt.Sscanf finds.
pub record Reader : Type 0 where
  pub env : String → String
  pub parse_url : String → Option UrlParts
  pub file : String → Option String
  pub number : String → Option ℤ

pub data LoadError : Type 0 where
  upstream_invalid token_missing profile_unknown issuer_invalid base_url_invalid client_id_missing :
      LoadError
  jwks_url_invalid nobody_allowed domain_url_invalid user_pool_missing redirect_uris_invalid :
      LoadError
  required_scope_not_allowed identity_providers_missing name_prefix_missing minutes_out_of_range :
      LoadError

pub data Loaded : Type 0 where
  loaded : Config → Loaded
  failed : LoadError → Loaded

is_slash : Char → Bool
is_slash c = nat_eq (code c) b'/'

-- strings.TrimRight(strings.TrimSpace(value), "/")
url_text : String → String
unfolding trim_space trim_right_by
url_text value = trim_right_by is_slash (trim_space value)

https_parts : Option UrlParts → Bool
https_parts none = false
https_parts (some url) = url.scheme == "https" && not (is_nil url.host)

-- validateHTTPSURL; `true` stands for the nil error.
pub validate_https_url : Reader → String → Bool
unfolding https_parts
validate_https_url r raw = https_parts (r.parse_url raw)

-- The check of the upstream's URL.
is_absolute : Option UrlParts → Bool
is_absolute none = false
is_absolute (some url) = not (is_nil url.scheme) && not (is_nil url.host)

is_truth : String → Bool
is_truth value = contains ("1" ∷ "true" ∷ "t" ∷ "yes" ∷ "y" ∷ "on" ∷ []) value

pub normalize_auth_profile : Unicode → String → Option String
unfolding trim_space lower_text
normalize_auth_profile u value =
    let name = lower_text u (trim_space value) in
    if is_nil name || name == auth_profile_cognito
    then some auth_profile_cognito
    else if contains
        (auth_profile_direct_oidc ∷ "direct_oidc" ∷ "directoidc" ∷ "oidc" ∷ "jumpcloud" ∷ []) name
    then some auth_profile_direct_oidc
    else none

-- The conversion to int32.
to_int32 : ℤ → ℤ
to_int32 (pos n) =
    let low = n % 4294967296 in if leb 2147483648 low then negsuc (4294967295 - low) else pos low
to_int32 (negsuc n) =
    let low = n % 4294967296 in if leb 2147483648 low then pos (4294967295 - low) else negsuc low

-- `!(minutes < 5 || minutes > 1440)`
minutes_valid : ℤ → Bool
minutes_valid (pos n) = leb 5 n && leb n 1440
minutes_valid (negsuc n) = false

module _ (u : Unicode) (r : Reader) where
  env_first : List String → String
  env_first [] = ""
  env_first (key ∷ keys) =
      let rest = env_first keys in
      let value = trim_space (r.env key) in if is_nil value then rest else value

  env_default : List String → String → String
  env_default keys fallback = let value = env_first keys in if is_nil value then fallback else value

  env_bool : String → Bool
  env_bool key = is_truth (lower_text u (trim_space (r.env key)))

  number_or : ℤ → Option ℤ → ℤ
  number_or fallback none = fallback
  number_or fallback (some (pos n)) = if nat_eq n 0 then fallback else pos n
  number_or fallback (some (negsuc n)) = negsuc n

  env_int_default : String → ℤ → ℤ
  env_int_default key fallback =
      let value = trim_space (r.env key) in
      if is_nil value then fallback else number_or fallback (r.number value)

  load_internal_token : Option String
  load_internal_token =
      let raw = env_first ("GATEWAY_INTERNAL_BEARER_TOKEN" ∷ []) in
      let path =
        env_first ("GATEWAY_INTERNAL_BEARER_TOKEN_FILE" ∷ "INTERNAL_BEARER_TOKEN_FILE" ∷ []) in
      if is_nil raw
      then if is_nil path then none else (elim (r.file path) [
        | none ↦ none
        | some text ↦ if is_nil (trim_space text) then none else some (trim_space text)
      ])
      else some raw

  -- The first variable whose list is not empty.
  first_list : List String → List String
  first_list [] = []
  first_list (key ∷ keys) =
      let rest = first_list keys in
      let groups = split_list (r.env key) in if is_empty groups then rest else groups

  load_required_groups : List String
  load_required_groups =
      let groups = first_list (
        "OIDC_REQUIRED_GROUPS" ∷ "OIDC_ALLOWED_GROUPS" ∷ "COGNITO_REQUIRED_GROUPS"
        ∷ "COGNITO_ALLOWED_GROUPS" ∷ []) in
      let single = env_first ("OIDC_REQUIRED_GROUP" ∷ "COGNITO_REQUIRED_GROUP" ∷ []) in
      if is_empty groups then (if is_nil single then [] else single ∷ []) else groups

  single_group : List String → String
  single_group (group ∷ []) = group
  single_group _ = ""

  load_dcr_scopes : Bool → String → List String
  load_dcr_scopes enabled required =
      let scopes = split_list (r.env "COGNITO_DCR_ALLOWED_SCOPES") in
      if enabled && is_empty scopes then "openid" ∷ "email" ∷ required ∷ [] else scopes

  load_settings : String → String → Config
  load_settings token profile =
      let required =
        env_default ("OIDC_REQUIRED_SCOPE" ∷ "COGNITO_REQUIRED_SCOPE" ∷ []) "gongmcp/read" in
      let groups = load_required_groups in
      let enabled = env_bool "GATEWAY_DCR_ENABLED" in
      record {
        internal_token = token;
        public_base_url = url_text (r.env "PUBLIC_BASE_URL");
        auth_profile = profile;
        issuer = url_text (env_first ("OIDC_ISSUER_URL" ∷ "COGNITO_ISSUER_URL" ∷ []));
        client_id = env_first ("OIDC_CLIENT_ID" ∷ "COGNITO_CLIENT_ID" ∷ []);
        required_scope = required;
        required_group = single_group groups;
        required_groups = groups;
        group_claim =
            env_default ("OIDC_GROUP_CLAIM" ∷ "COGNITO_GROUP_CLAIM" ∷ [])
              (if profile == auth_profile_direct_oidc then "groups" else "cognito:groups");
        allowed_subjects =
            csv_set u (env_first ("OIDC_ALLOWED_SUBJECTS" ∷ "COGNITO_ALLOWED_SUBJECTS" ∷ []));
        allowed_emails =
            csv_set u (env_first ("OIDC_ALLOWED_EMAILS" ∷ "COGNITO_ALLOWED_EMAILS" ∷ []));
        allowed_origins = split_list (r.env "GATEWAY_ALLOWED_ORIGINS");
        max_request_bytes = 8388608;
        max_bearer_bytes = 8192;
        dcr_enabled = enabled;
        dcr_allowed_redirect_uris = split_list (r.env "COGNITO_DCR_ALLOWED_REDIRECT_URIS");
        dcr_allowed_scopes = load_dcr_scopes enabled required;
        dcr_client_name_prefix = env_default ("COGNITO_DCR_CLIENT_NAME_PREFIX" ∷ []) "gongmcp-dcr";
        dcr_client_cache_ttl = 600;
      }

  -- The checks of registration, where it is enabled.
  check_registration : Config → Option LoadError
  check_registration c =
      let domain = url_text (r.env "COGNITO_DOMAIN_URL") in
      let minutes = to_int32 (env_int_default "COGNITO_DCR_ACCESS_TOKEN_MINUTES" (pos 60)) in
      if is_nil domain || not (validate_https_url r domain)
      then some domain_url_invalid
      else if is_nil (trim_space (r.env "COGNITO_USER_POOL_ID"))
      then some user_pool_missing
      else if is_empty c.dcr_allowed_redirect_uris
          || any (λ uri. not (validate_https_url r uri)) c.dcr_allowed_redirect_uris
      then some redirect_uris_invalid
      else if not (contains c.dcr_allowed_scopes c.required_scope)
      then some required_scope_not_allowed
      else if is_empty (split_list (r.env "COGNITO_DCR_IDENTITY_PROVIDERS"))
      then some identity_providers_missing
      else if is_nil c.dcr_client_name_prefix
      then some name_prefix_missing
      else if minutes_valid minutes
      then none
      else some minutes_out_of_range

  -- The checks of every config, in the order of LoadConfig.
  check_settings : Config → Option LoadError
  check_settings c =
      let jwks =
        env_default ("OIDC_JWKS_URL" ∷ "COGNITO_JWKS_URL" ∷ [])
          (cat c.issuer "/.well-known/jwks.json") in
      if is_nil c.issuer || not (validate_https_url r c.issuer)
      then some issuer_invalid
      else if is_nil c.public_base_url || not (validate_https_url r c.public_base_url)
      then some base_url_invalid
      else if is_nil c.client_id
      then some client_id_missing
      else if not (validate_https_url r jwks)
      then some jwks_url_invalid
      else if is_empty c.required_groups && is_empty c.allowed_subjects && is_empty c.allowed_emails
      then some nobody_allowed
      else if c.dcr_enabled
      then check_registration c
      else none

  load_with : String → String → Loaded
  load_with token profile =
      let c = load_settings token profile in
      elim (check_settings c) [ none ↦ loaded c | some e ↦ failed e ]

  load_profile : String → Loaded
  load_profile token =
      let name =
        env_default ("OIDC_AUTH_PROFILE" ∷ "GATEWAY_AUTH_PROFILE" ∷ []) auth_profile_cognito in
      elim (normalize_auth_profile u name) [
        | none ↦ failed profile_unknown
        | some profile ↦ load_with token profile
      ]

  pub load_config : Loaded
  load_config =
      if is_absolute (r.parse_url (env_default ("GATEWAY_UPSTREAM_URL" ∷ []) "http://gongmcp:8080"))
      then (elim load_internal_token [
        | none ↦ failed token_missing
        | some token ↦ load_profile token
      ])
      else failed upstream_invalid
