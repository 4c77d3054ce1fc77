-- ===== src/Gateway/Auth/Binding.antt =====
-- How a token is bound to a client or an audience.
use gongcli_mcp.Prelude.{
  ℕ, zero, suc, String, ◌≡◌, ◌≢◌, refl, ap, ◌⊎◌, inl, inr, Bool, true, false, ◌==◌, ◌&&◌, ◌||◌, not,
  eq_iff, Option, none, some, List, [], ◌∷◌, Any, is_empty, take, arith, Option-cases, Bool-cases,
}
use gongcli_mcp.Text.{is_nil}
use gongcli_mcp.Text.Trim.{is_nil_iff}
use gongcli_mcp.Text.Unicode.{Unicode}
use gongcli_mcp.Gateway.Config.{
  Config, resource_url, contains, auth_profile_cognito, auth_profile_direct_oidc,
}
use gongcli_mcp.Gateway.Claims.{Claims}
use gongcli_mcp.Gateway.Auth.{
  AuthError, max_audience_client_id_checks, try_audience, cognito_audience, validate_cognito_claims,
  binding_result, client_binding, direct_audience, validate_direct_oidc_claims,
  validate_token_profile, client_binding_missing, audience_mismatch,
}
use gongcli_mcp.Gateway.Auth.Principals.{Member, has-Member, is_empty_iff}

module _ {S : Type 0} (verify : S → String → Option AuthError × S)
    (parse_token : String → Option Claims) (u : Unicode) (cfg : Config) where
  -- The verifier accepted the client, in some state.
  abbrev pub Verified : String → Type 0
  Verified id = (s : S) × ((verify s id).0 ≡ none)

  abbrev pub InAudience : Claims → Type 0
  InAudience claims = Any Verified (take max_audience_client_id_checks claims.audience)

  abbrev pub ForResource : Claims → Type 0
  ForResource claims = (claims.audience ≡ []) ⊎ Member (resource_url cfg) claims.audience

  pub record CognitoBound (claims : Claims) : Type 0 where
    pub use_access : claims.token_use ≡ "access"
    pub client : Verified claims.client_id
    pub audience : ForResource claims

  pub record DirectBound (claims : Claims) : Type 0 where
    pub use_access : (claims.token_use ≡ "") ⊎ (claims.token_use ≡ "access")
    pub client : ((claims.client_id ≢ "") × Verified claims.client_id) ⊎ InAudience claims
    pub audience : ForResource claims ⊎ InAudience claims

  abbrev pub Bound : Claims → Type 0
  Bound claims =
      (((cfg.auth_profile ≡ "") ⊎ (cfg.auth_profile ≡ auth_profile_cognito)) × CognitoBound claims)
      ⊎ ((cfg.auth_profile ≡ auth_profile_direct_oidc) × DirectBound claims)

  try_audience_sound :
      (n : ℕ) (values : List String) (s : S)
      → (try_audience verify parse_token u cfg n values s).0 ≡ true
      → Any Verified (take n values)
  unfolding try_audience
  try_audience_sound zero values s h = cc
  try_audience_sound (suc n) [] s h = cc
  try_audience_sound (suc n) (v ∷ vs) s h = elim (Option-cases (verify s v).0) [
    | inl accepted ↦ inl (s, accepted)
    | inr (e, refused) ↦
        inr (try_audience_sound n vs (verify s v).1 (rw (refused, try_audience) at h))
  ]

  cognito_audience_sound :
      (claims : Claims) (r : Option AuthError × S)
      → (cognito_audience verify parse_token u cfg claims r).0 ≡ none
      → (r.0 ≡ none) × ForResource claims
  unfolding cognito_audience
  cognito_audience_sound claims (some e, s) h = cc
  cognito_audience_sound claims (none, s) h = (
    refl,
    ground (arith, is_empty_iff claims.audience, has-Member (resource_url cfg) claims.audience),
  )

  cognito_sound :
      (claims : Claims) (s : S)
      → (validate_cognito_claims verify parse_token u cfg claims s).0 ≡ none
      → CognitoBound claims
  unfolding validate_cognito_claims
  cognito_sound claims s h = elim (Bool-cases (claims.token_use == "access")) [
    | inl access ↦
        let (accepted, resource) =
          cognito_audience_sound claims (verify s claims.client_id) (rw access at h) in
        record {
          use_access = (eq_iff claims.token_use "access").0 access;
          client = (s, accepted);
          audience = resource;
        }
    | inr other ↦ absurd (ground arith)
  ]

  binding_result_sound :
      (e : AuthError) (r : Bool × S)
      → (binding_result verify parse_token u cfg e r).0 ≡ none
      → r.0 ≡ true
  unfolding binding_result
  binding_result_sound e (true, s) h = refl
  binding_result_sound e (false, s) h = cc

  client_binding_sound :
      (claims : Claims) (s : S)
      → (client_binding verify parse_token u cfg claims s).0 ≡ none
      → ((claims.client_id ≢ "") × Verified claims.client_id) ⊎ InAudience claims
  unfolding client_binding
  client_binding_sound claims s h = elim (Bool-cases (is_nil claims.client_id)) [
    | inl blank ↦
        inr
          (try_audience_sound _ _ s (binding_result_sound client_binding_missing _ (rw blank at h)))
    | inr full ↦ inl ((λ e. cc (full, ap is_nil e)), (s, rw full at h))
  ]

  direct_audience_sound :
      (claims : Claims) (r : Option AuthError × S)
      → (direct_audience verify parse_token u cfg claims r).0 ≡ none
      → (r.0 ≡ none) × (ForResource claims ⊎ InAudience claims)
  unfolding direct_audience
  direct_audience_sound claims (some e, s) h = cc
  direct_audience_sound claims (none, s) h =
      let test = is_empty claims.audience || contains claims.audience (resource_url cfg) in
      (
        refl,
        elim (Bool-cases test) [
          | inl near ↦ inl (
              ground (
                arith,
                is_empty_iff claims.audience,
                has-Member (resource_url cfg) claims.audience,
              ))
          | inr far ↦
              inr
                (try_audience_sound _ _ s (binding_result_sound audience_mismatch _ (rw far at h)))
        ],
      )

  direct_sound :
      (claims : Claims) (s : S)
      → (validate_direct_oidc_claims verify parse_token u cfg claims s).0 ≡ none
      → DirectBound claims
  unfolding validate_direct_oidc_claims
  direct_sound claims s h =
      elim (Bool-cases (not (is_nil claims.token_use) && not (claims.token_use == "access"))) [
        | inl other ↦ absurd (ground arith)
        | inr fits ↦
            let (client, audience) =
              direct_audience_sound claims (client_binding verify parse_token u cfg claims s)
                (rw fits at h) in
            record {
              use_access =
                  ground (arith, is_nil_iff claims.token_use, eq_iff claims.token_use "access");
              client = client_binding_sound claims s client;
              audience = audience;
            }
      ]

  pub profile_sound :
      (claims : Claims) (s : S)
      → (validate_token_profile verify parse_token u cfg claims s).0 ≡ none
      → Bound claims
  unfolding validate_token_profile
  profile_sound claims s h = ground (
    arith,
    cognito_sound claims s,
    direct_sound claims s,
    eq_iff cfg.auth_profile auth_profile_cognito,
    eq_iff cfg.auth_profile auth_profile_direct_oidc,
    is_nil_iff cfg.auth_profile,
  )
