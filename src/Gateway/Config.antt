-- ===== src/Gateway/Config.antt =====
-- The settings of internal/gateway/config.go that decide on requests, and its list helpers.
use gongcli_mcp.Prelude.{
  ℕ, Char, code, String, Bool, ◌||◌, List, [], ◌∷◌, map, is_empty, nat_eq, if◌then◌else◌,
}
use gongcli_mcp.Prelude.Sets.{has, add}
use gongcli_mcp.Text.{cat, is_nil, trim_space}
use gongcli_mcp.Text.Split.{fields_func, full_texts, split}
use gongcli_mcp.Text.Unicode.{Unicode, lower_text}

-- MaxBearerBytes is 0 where it is not positive, which turns the check off.
pub record Config : Type 0 where
  pub internal_token : String
  pub public_base_url : String
  pub auth_profile : String
  pub issuer : String
  pub client_id : String
  pub required_scope : String
  pub required_group : String
  pub required_groups : List String
  pub group_claim : String
  pub allowed_subjects : List String
  pub allowed_emails : List String
  pub allowed_origins : List String
  pub max_request_bytes : ℕ
  pub max_bearer_bytes : ℕ
  pub dcr_enabled : Bool
  pub dcr_allowed_redirect_uris : List String
  pub dcr_allowed_scopes : List String
  pub dcr_client_name_prefix : String
  pub dcr_client_cache_ttl : ℕ

abbrev pub auth_profile_cognito : String
auth_profile_cognito = "cognito"

abbrev pub auth_profile_direct_oidc : String
auth_profile_direct_oidc = "direct-oidc"

unfoldable pub resource_url : Config → String
resource_url c = cat c.public_base_url "/mcp"

unfoldable pub configured_required_groups : Config → List String
configured_required_groups c =
    if is_empty c.required_groups
    then (if is_nil c.required_group then [] else c.required_group ∷ [])
    else c.required_groups

-- The loops `contains`, `audienceContains` and `hasScope`.
abbrev pub contains : List String → String → Bool
contains values want = has want values

abbrev is_list_separator : Char → Bool
is_list_separator c = nat_eq (code c) b',' || nat_eq (code c) b';' || nat_eq (code c) b' '

unfoldable pub split_list : String → List String
unfolding fields_func trim_space
split_list value = full_texts (map trim_space (fields_func is_list_separator value))

add_lowered : Unicode → List String → List String → List String
add_lowered u [] out = out
add_lowered u (field ∷ rest) out =
    let trimmed = lower_text u (trim_space field) in
    add_lowered u rest (if is_nil trimmed then out else add trimmed out)

unfoldable pub csv_set : Unicode → String → List String
unfolding add_lowered split add
csv_set u value = add_lowered u (split b',' value) []
