-- ===== src/Gateway/Auth/Soundness.antt =====
-- What a granted access proves about the token.
use Prim.Native.String.{len}
use gongcli_mcp.Prelude.{
  ltb, ◌≤◌, String, ◌≡◌, ◌≢◌, refl, ◌⊎◌, inl, inr, Bool, true, ◌&&◌, Option, none, some, arith,
  Option-cases, Bool-cases,
}
use gongcli_mcp.Prelude.Sets.{has}
use gongcli_mcp.Text.{is_nil, trim_space, has_prefix}
use gongcli_mcp.Text.Split.{drop_chars}
use gongcli_mcp.Text.Trim.{is_nil_iff}
use gongcli_mcp.Text.Unicode.{Unicode, lower_text}
use gongcli_mcp.Gateway.Config.{Config}
use gongcli_mcp.Gateway.Claims.{Claims}
use gongcli_mcp.Gateway.Auth.{
  Principal, AuthError, granted, issuer_matches, validate_token_profile, principal_of,
  authorize_claims, behind_profile, verify_claims, verify_access_token, bearer_token, authenticate,
  authorize_principal,
}
use gongcli_mcp.Gateway.Auth.Binding.{Bound, profile_sound}
use gongcli_mcp.Gateway.Auth.Principals.{Member, has-Member, MayPass, authorize_principal_iff}

module _ {S : Type 0} (verify : S → String → Option AuthError × S)
    (parse_token : String → Option Claims) (u : Unicode) (cfg : Config) where
  -- The authorization is the word bearer, in any case, a space and this token, up to the spaces
  -- around each; the token is not empty and within the limit, if there is one.
  pub record Bears (authorization token : String) : Type 0 where
    pub scheme : has_prefix (lower_text u (trim_space authorization)) "bearer " ≡ true
    pub rest : token ≡ trim_space (drop_chars 7 (trim_space authorization))
    pub full : token ≢ ""
    pub fits : (cfg.max_bearer_bytes ≡ 0) ⊎ (len token ≤ cfg.max_bearer_bytes)

  pub record Justified (authorization : String) (p : Principal) : Type 0 where
    pub token : String
    pub bears : Bears authorization token
    pub claims : Claims
    pub parsed : parse_token token ≡ some claims
    pub issuer : issuer_matches claims.issuer cfg.issuer ≡ true
    pub bound : Bound verify parse_token u cfg claims
    pub principal : p ≡ principal_of verify parse_token u cfg claims
    pub scope : Member cfg.required_scope p.scopes
    pub allowed : MayPass u cfg p.subject p.email p.groups

  -- The part of `Justified` behind the parsing.
  record Passed (claims : Claims) (p : Principal) : Type 0 where
    same : p ≡ principal_of verify parse_token u cfg claims
    scope : Member cfg.required_scope p.scopes
    allowed : MayPass u cfg p.subject p.email p.groups

  authorize_claims_sound :
      (claims : Claims) (p : Principal)
      → authorize_claims verify parse_token u cfg claims ≡ granted p
      → Passed claims p
  unfolding authorize_claims
  authorize_claims_sound claims p h =
      let q = principal_of verify parse_token u cfg claims in
      elim (Bool-cases (has cfg.required_scope q.scopes)) [
        | inr missing ↦ absurd (ground arith)
        | inl scoped ↦ elim (Option-cases (authorize_principal u cfg q.subject q.email q.groups)) [
          | inr (e, refused) ↦ absurd (ground arith)
          | inl free ↦
              let same : q ≡ p = ground arith in
              rw (← same) (record {
                same = refl;
                scope = (has-Member cfg.required_scope q.scopes).0 scoped;
                allowed = (authorize_principal_iff u cfg q.subject q.email q.groups).0 free;
              })
        ]
      ]

  behind_profile_sound :
      (claims : Claims) (r : Option AuthError × S) (p : Principal)
      → (behind_profile verify parse_token u cfg claims r).0 ≡ granted p
      → (r.0 ≡ none) × Passed claims p
  unfolding behind_profile
  behind_profile_sound claims (some e, s) p h = cc
  behind_profile_sound claims (none, s) p h = (refl, authorize_claims_sound claims p h)

  verify_claims_sound :
      (done : Bool) (authorization token : String) (claims : Claims) (s : S) (p : Principal)
      → Bears authorization token
      → parse_token token ≡ some claims
      → (verify_claims verify parse_token u cfg done claims s).0 ≡ granted p
      → Justified authorization p
  unfolding verify_claims
  verify_claims_sound done authorization token claims s p bears parsed h =
      elim (Bool-cases (issuer_matches claims.issuer cfg.issuer)) [
        | inr other ↦ absurd (ground arith)
        | inl matches ↦ elim (Bool-cases done) [
          | inl stopped ↦ absurd (ground arith)
          | inr live ↦
              let (profile, passed) =
                behind_profile_sound claims
                  (validate_token_profile verify parse_token u cfg claims s) p
                  (rw (matches, live) at h) in
              record {
                token = token;
                bears = bears;
                claims = claims;
                parsed = parsed;
                issuer = matches;
                bound = profile_sound verify parse_token u cfg claims s profile;
                principal = passed.same;
                scope = passed.scope;
                allowed = passed.allowed;
              }
        ]
      ]

  verify_access_token_sound :
      (done : Bool) (authorization token : String) (s : S) (p : Principal)
      → Bears authorization token
      → (verify_access_token verify parse_token u cfg done token s).0 ≡ granted p
      → Justified authorization p
  unfolding verify_access_token
  verify_access_token_sound done authorization token s p bears h =
      elim (Option-cases (parse_token token)) [
        | inl invalid ↦ absurd (ground arith)
        | inr (claims, parsed) ↦
            verify_claims_sound done authorization token claims s p bears parsed
              (rw (parsed, verify_access_token) at h)
      ]

-- Access is granted only for the token that the authorization bears behind the word bearer, not empty
-- and within the limit on its bytes; that token parses, its issuer is the configured one and its
-- client or audience is bound as the profile asks; the principal is the one of its claims, it has
-- the required scope, and it passes the allowlists and the group check.
pub authenticate-Justified :
    {S : Type 0} (verify : S → String → Option AuthError × S) (parse_token : String → Option Claims)
    (u : Unicode) (cfg : Config) (done : Bool) (authorization : String) (s : S) (p : Principal)
    → (authenticate verify parse_token u cfg done authorization s).0 ≡ granted p
    → Justified verify parse_token u cfg authorization p
unfolding authenticate bearer_token
authenticate-Justified verify parse_token u cfg done authorization s p h =
    let auth = trim_space authorization in
    let token = bearer_token verify parse_token u cfg auth in
    let large = ltb 0 cfg.max_bearer_bytes && ltb cfg.max_bearer_bytes (len token) in
    elim (Bool-cases (has_prefix (lower_text u auth) "bearer ")) [
      | inr other ↦ absurd (ground arith)
      | inl bearer ↦ elim (Bool-cases (is_nil token)) [
        | inl blank ↦ absurd (ground arith)
        | inr full ↦ elim (Bool-cases large) [
          | inl over ↦ absurd (ground arith)
          | inr fits ↦
              verify_access_token_sound verify parse_token u cfg done authorization token s p
                (record {
                  scheme = bearer;
                  rest = refl;
                  full = λ e. cc (full, (is_nil_iff token).1 e);
                  fits = ground arith;
                })
                (rw (bearer, full, fits) at h)
        ]
      ]
    ]
