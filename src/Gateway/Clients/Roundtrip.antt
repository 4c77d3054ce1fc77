-- ===== src/Gateway/Clients/Roundtrip.antt =====
-- A client that was registered is one that the store accepts.
use gongcli_mcp.Prelude.{
  ℕ, String, ◌≡◌, ◌≢◌, refl, sym, ap, ◌∙◌, subst, inl, inr, Bool, true, false, none, some, List, [],
  ◌∷◌, All, Any, arith,
}
use gongcli_mcp.Text.{cat, has_prefix}
use gongcli_mcp.Text.Trim.{IsSolid, cat_assoc}
use gongcli_mcp.Text.Split.{fields}
use gongcli_mcp.Text.Split.Fields.{fields-join, has_prefix-cat}
use gongcli_mcp.Text.Unicode.{Unicode}
use gongcli_mcp.Gateway.Config.{Config}
use gongcli_mcp.Gateway.Auth.Principals.{Member}
use gongcli_mcp.Gateway.Registration.{RegistrationRequest, accepted, validate_dcr_request}
use gongcli_mcp.Gateway.Registration.Validation.{Within, validate_dcr_request-Registrable}
use gongcli_mcp.Gateway.Clients.{
  AppClient, described, Verified, is_remembered, verify_described, verify_unless, verify_client_id,
  create_input, dcr_client_name,
}
use gongcli_mcp.Gateway.Clients.Cache.{IsQualified, check_client_iff}

dcr_client_name-prefix :
    (u : Unicode) (prefix unix suffix requested : String)
    → has_prefix (dcr_client_name u prefix unix suffix requested) (cat prefix "-") ≡ true
unfolding dcr_client_name
dcr_client_name-prefix u prefix unix suffix requested =
    ap (λ s. has_prefix s (cat prefix "-")) (sym (cat_assoc prefix "-" _))
    ∙ has_prefix-cat (cat prefix "-") _

IsSolid-of_Member :
    (v : String) (allowed : List String) → All IsSolid allowed → Member v allowed → IsSolid v
IsSolid-of_Member v [] h k = absurd k
IsSolid-of_Member v (a ∷ rest) (s, h) (inl e) = subst IsSolid e s
IsSolid-of_Member v (a ∷ rest) (s, h) (inr k) = IsSolid-of_Member v rest h k

All-IsSolid :
    (allowed values : List String)
    → All IsSolid allowed
    → Within allowed values
    → All IsSolid values
All-IsSolid allowed [] h k = tt
All-IsSolid allowed (v ∷ vs) h (m, k) =
    (IsSolid-of_Member v allowed h m, All-IsSolid allowed vs h k)

Any-Within :
    (allowed values : List String)
    → values ≢ []
    → Within allowed values
    → Any (λ v. Member v allowed) values
Any-Within allowed [] full k = absurd (full refl)
Any-Within allowed (v ∷ vs) full (m, k) = inl m

-- The client that is created for a valid request qualifies.
pub created-IsQualified :
    (u : Unicode) (cfg : Config) (req out : RegistrationRequest) (unix suffix : String)
    → All IsSolid cfg.dcr_allowed_scopes
    → validate_dcr_request cfg req ≡ accepted out
    → IsQualified cfg (
        create_input (dcr_client_name u cfg.dcr_client_name_prefix unix suffix out.client_name) out)
unfolding create_input
created-IsQualified u cfg req out unix suffix solid h =
    let r = validate_dcr_request-Registrable cfg req out h in
    let read : fields out.scope ≡ r.scopes =
      ap fields r.scope_text
      ∙ fields-join r.scopes (All-IsSolid cfg.dcr_allowed_scopes r.scopes solid r.scopes_within) in
    (
      dcr_client_name-prefix u cfg.dcr_client_name_prefix unix suffix out.client_name,
      refl,
      inl refl,
      subst (Member cfg.required_scope) (sym read) r.required_scope,
      Any-Within _ _ r.some_redirect_uri r.redirect_uris_within,
    )

verify_unless_of_IsQualified :
    (cfg : Config) (c : AppClient) (later : ℕ) (id : String) (r : Bool × Verified)
    → IsQualified cfg c
    → (verify_unless cfg (described (some c)) later id r).0 ≡ none
unfolding verify_unless verify_described
verify_unless_of_IsQualified cfg c later id (true, m) q = refl
verify_unless_of_IsQualified cfg c later id (false, m) q =
    rw ((check_client_iff cfg c).1 q, verify_described) refl

-- When registration is enabled and no allowed scope has a space in it, the client created for a
-- valid request, of whatever time and suffix, is accepted when Cognito describes it, whatever the
-- cache holds.
pub verify_client_id-registered :
    (u : Unicode) (cfg : Config) (req out : RegistrationRequest) (unix suffix : String)
    → cfg.dcr_enabled ≡ true
    → All IsSolid cfg.dcr_allowed_scopes
    → validate_dcr_request cfg req ≡ accepted out
    → (now later : ℕ) (id : String) (m : Verified)
    → (verify_client_id cfg now
        (described (
          some (
            create_input
              (dcr_client_name u cfg.dcr_client_name_prefix unix suffix out.client_name)
              out)))
        later
        id
        m).0
      ≡ none
unfolding verify_client_id
verify_client_id-registered u cfg req out unix suffix enabled solid h now later id m = ground (
  arith,
  verify_unless_of_IsQualified cfg _ later id (is_remembered now id m)
      (created-IsQualified u cfg req out unix suffix solid h),
)
