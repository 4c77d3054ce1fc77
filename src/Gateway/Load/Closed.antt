-- ===== src/Gateway/Load/Closed.antt =====
-- What every config that is loaded guarantees.
use gongcli_mcp.Prelude.{
  String, ◌≡◌, ◌≢◌, ◌⊎◌, inl, inr, refl, true, false, not, ◌&&◌, none, some, List, [], ◌∷◌, All,
  any, is_empty, arith, Bool-cases, Option-cases, Option, eq_iff,
}
use gongcli_mcp.Text.{is_nil}
use gongcli_mcp.Text.Unicode.{Unicode}
use gongcli_mcp.Gateway.Config.{
  Config, auth_profile_cognito, auth_profile_direct_oidc, configured_required_groups,
}
use gongcli_mcp.Text.Trim.{is_nil_iff}
use gongcli_mcp.Gateway.Auth.Principals.{Member, has-Member, is_empty_iff}
use gongcli_mcp.Gateway.Load.{
  UrlParts, https_parts, validate_https_url, Reader, loaded, normalize_auth_profile, env_default,
  load_internal_token, load_settings, check_registration, check_settings, load_with, load_profile,
  load_config,
}

-- The text parses as a URL with the scheme https and a host.
abbrev pub IsHttps : Reader → String → Type 0
IsHttps r text =
    (url : UrlParts) × (r.parse_url text ≡ some url) × (url.scheme ≡ "https") × (url.host ≢ "")

-- Registration has addresses, all with https, and its scopes include the required one.
abbrev pub IsRegistrable : Reader → Config → Type 0
IsRegistrable r c =
    (c.dcr_allowed_redirect_uris ≢ [])
    × All (IsHttps r) c.dcr_allowed_redirect_uris
    × Member c.required_scope c.dcr_allowed_scopes

-- Somebody has to be named: a group, a subject or an email.
abbrev pub IsClosed : Reader → Config → Type 0
IsClosed r c =
    (is_nil c.issuer ≡ false)
    × IsHttps r c.issuer
    × IsHttps r c.public_base_url
    × (is_nil c.client_id ≡ false)
    × ((configured_required_groups c ≢ []) ⊎ (c.allowed_subjects ≢ []) ⊎ (c.allowed_emails ≢ []))
    × (c.dcr_enabled ≡ true → IsRegistrable r c)

https_parts-IsHttps :
    (r : Reader) (text : String) (o : Option UrlParts)
    → r.parse_url text ≡ o
    → https_parts o ≡ true
    → IsHttps r text
unfolding https_parts
https_parts-IsHttps r text none e h = cc
https_parts-IsHttps r text (some url) e h = (
  url,
  e,
  ground (arith, eq_iff url.scheme "https"),
  λ blank. ground (arith, is_nil_iff url.host),
)

validate_https_url-IsHttps :
    (r : Reader) (text : String) → validate_https_url r text ≡ true → IsHttps r text
unfolding validate_https_url
validate_https_url-IsHttps r text h = https_parts-IsHttps r text _ refl h

All-IsHttps :
    (r : Reader) (xs : List String)
    → any (λ x. not (validate_https_url r x)) xs ≡ false
    → All (IsHttps r) xs
All-IsHttps r [] h = tt
All-IsHttps r (x ∷ xs) h =
    (validate_https_url-IsHttps r x (ground arith), All-IsHttps r xs (ground arith))

configured-ne :
    (c : Config) → is_empty c.required_groups ≡ false → configured_required_groups c ≢ []
unfolding configured_required_groups
configured-ne c h e = ground (arith, is_empty_iff c.required_groups)

is_empty-ne : (xs : List String) → is_empty xs ≡ false → xs ≢ []
is_empty-ne xs h e = ground (arith, is_empty_iff xs)

somebody_named :
    (c : Config)
    → (is_empty c.required_groups && is_empty c.allowed_subjects && is_empty c.allowed_emails)
      ≡ false
    → (configured_required_groups c ≢ []) ⊎ (c.allowed_subjects ≢ []) ⊎ (c.allowed_emails ≢ [])
somebody_named c h = elim (Bool-cases (is_empty c.required_groups)) [
  | inr groups ↦ inl (configured-ne c groups)
  | inl no_groups ↦ elim (Bool-cases (is_empty c.allowed_subjects)) [
    | inr subjects ↦ inr (inl (is_empty-ne c.allowed_subjects subjects))
    | inl no_subjects ↦ inr (inr (is_empty-ne c.allowed_emails (ground arith)))
  ]
]

config_of_loaded : (c d : Config) → loaded c ≡ loaded d → c ≡ d
config_of_loaded c d e = cc

module _ (u : Unicode) (r : Reader) where
  check_registration_sound : (c : Config) → check_registration u r c ≡ none → IsRegistrable r c
  unfolding check_registration
  check_registration_sound c h = (
    λ e. ground (arith, is_empty_iff c.dcr_allowed_redirect_uris),
    All-IsHttps r c.dcr_allowed_redirect_uris (ground arith),
    ground (arith, has-Member c.required_scope c.dcr_allowed_scopes),
  )

  check_settings_sound : (c : Config) → check_settings u r c ≡ none → IsClosed r c
  unfolding check_settings
  check_settings_sound c h = (
    ground arith,
    validate_https_url-IsHttps r c.issuer (ground arith),
    validate_https_url-IsHttps r c.public_base_url (ground arith),
    ground arith,
    somebody_named c (ground arith),
    λ enabled. check_registration_sound c (ground arith),
  )

  normalize_auth_profile_sound :
      (name profile : String)
      → normalize_auth_profile u name ≡ some profile
      → (profile ≡ auth_profile_cognito) ⊎ (profile ≡ auth_profile_direct_oidc)
  unfolding normalize_auth_profile
  normalize_auth_profile_sound name profile h = ground arith

  load_internal_token_sound :
      (token : String) → load_internal_token u r ≡ some token → is_nil token ≡ false
  unfolding load_internal_token
  load_internal_token_sound token h = ground arith

  load_with_sound :
      (token profile : String) (c : Config)
      → load_with u r token profile ≡ loaded c
      → (load_settings u r token profile ≡ c)
        × (check_settings u r (load_settings u r token profile) ≡ none)
  unfolding load_with
  load_with_sound token profile c h =
      let s = load_settings u r token profile in
      elim (Option-cases (check_settings u r s)) [
        | inl fine ↦ (config_of_loaded s c (rw (fine, load_with) at h), fine)
        | inr (e, wrong) ↦ absurd (ground arith)
      ]

  load_config_reach :
      (c : Config)
      → load_config u r ≡ loaded c
      → (token : String) × (profile : String) × (is_nil token ≡ false)
        × ((profile ≡ auth_profile_cognito) ⊎ (profile ≡ auth_profile_direct_oidc))
        × (load_with u r token profile ≡ loaded c)
  unfolding load_config load_profile
  load_config_reach c h = elim (Option-cases (load_internal_token u r)) [
    | inl missing ↦ absurd (ground arith)
    | inr (token, has_token) ↦
        let name =
          env_default u r ("OIDC_AUTH_PROFILE" ∷ "GATEWAY_AUTH_PROFILE" ∷ [])
            auth_profile_cognito in
        elim (Option-cases (normalize_auth_profile u name)) [
          | inl unknown ↦ absurd (ground arith)
          | inr (profile, known) ↦ (
            token,
            profile,
            load_internal_token_sound token has_token,
            normalize_auth_profile_sound name profile known,
            ground arith,
          )
        ]
  ]

  settings_kept :
      (token profile : String)
      → ((load_settings u r token profile).internal_token ≡ token)
        × ((load_settings u r token profile).auth_profile ≡ profile)
  unfolding load_settings
  settings_kept token profile = (refl, refl)

-- A config that loads has a token for the upstream, one of the two profiles, an issuer and a base
-- address that parse as URLs with the scheme https and a host, and a client; it names somebody, by a
-- group, a subject or an email, who may pass. If registration is enabled, its redirect addresses are
-- not empty, all parse as such URLs, and its scopes include the required one.
pub load_config-IsClosed :
    (u : Unicode) (r : Reader) (c : Config)
    → load_config u r ≡ loaded c
    → IsClosed r c
      × (is_nil c.internal_token ≡ false)
      × ((c.auth_profile ≡ auth_profile_cognito) ⊎ (c.auth_profile ≡ auth_profile_direct_oidc))
load_config-IsClosed u r c h =
    let (token, profile, full, known, with_them) = load_config_reach u r c h in
    let (same, fine) = load_with_sound u r token profile c with_them in
    let (token_kept, profile_kept) = settings_kept u r token profile in
    rw (← same) (check_settings_sound u r _ fine, rw token_kept full, rw profile_kept known)
