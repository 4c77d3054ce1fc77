-- ===== src/Gateway/Server/Admission.antt =====
-- What it takes to reach the upstream server.
use gongcli_mcp.Prelude.{String, ◌≡◌, ◌≢◌, refl, ◌⊎◌, Bool, true, false, eq_iff, Option, arith}
use gongcli_mcp.Prelude.Int.{exceeds}
use gongcli_mcp.Text.Trim.{is_nil_iff}
use gongcli_mcp.Text.Unicode.{Unicode}
use gongcli_mcp.Gateway.Config.{Config}
use gongcli_mcp.Gateway.Claims.{Claims}
use gongcli_mcp.Gateway.Auth.{Principal, AuthError, Access, granted, denied, authenticate}
use gongcli_mcp.Gateway.Auth.Principals.{Member, has-Member}
use gongcli_mcp.Gateway.Auth.Soundness.{Justified, authenticate-Justified}
use gongcli_mcp.Gateway.Server.{
  Headers, Request, forward, header_get, rewrite_headers, write_cors_headers, write_cors_preflight,
  origin_refused, answer, is_proxied_method, answered, mcp,
}

module _ {S : Type 0} (verify : S → String → Option AuthError × S)
    (parse_token : String → Option Claims) (u : Unicode) (cfg : Config) where
  pub record Admitted (r : Request) (upstream : Headers) : Type 0 where
    pub path : r.path ≡ "/mcp"
    pub method : (r.method ≡ "GET") ⊎ (r.method ≡ "POST") ⊎ (r.method ≡ "DELETE")
    pub length : exceeds r.content_length cfg.max_request_bytes ≡ false
    pub origin :
        (header_get "Origin" r.headers ≡ "")
        ⊎ Member (header_get "Origin" r.headers) cfg.allowed_origins
    pub principal : Principal
    pub justified :
        Justified verify parse_token u cfg (header_get "Authorization" r.headers) principal
    pub headers : upstream ≡ rewrite_headers cfg principal r

  origin_refused_sound :
      (r : Request)
      → origin_refused cfg r ≡ false
      → (header_get "Origin" r.headers ≡ "")
        ⊎ Member (header_get "Origin" r.headers) cfg.allowed_origins
  unfolding origin_refused write_cors_headers
  origin_refused_sound r h =
      let origin = header_get "Origin" r.headers in
      ground (arith, is_nil_iff origin, has-Member origin cfg.allowed_origins)

  answer_sound :
      (r : Request) (access : Access) (up cors : Headers)
      → answer cfg r access ≡ forward up cors
      → (p : Principal) × (access ≡ granted p) × (up ≡ rewrite_headers cfg p r)
  unfolding answer
  answer_sound r (denied e) up cors h = cc
  answer_sound r (granted p) up cors h = (p, refl, ground arith)

  preflight-ne-forward :
      (r : Request) (up cors : Headers) → write_cors_preflight cfg r ≢ forward up cors
  unfolding write_cors_preflight
  preflight-ne-forward r up cors e = ground arith

  reach_answer :
      (done : Bool) (r : Request) (s : S) (up cors : Headers)
      → (mcp verify parse_token u cfg done r s).0 ≡ forward up cors
      → (r.path ≡ "/mcp")
        × (is_proxied_method r.method ≡ true)
        × (exceeds r.content_length cfg.max_request_bytes ≡ false)
        × (origin_refused cfg r ≡ false)
        × ((answered verify parse_token u cfg done r s).0 ≡ forward up cors)
  unfolding mcp
  reach_answer done r s up cors h =
      let facts = preflight-ne-forward r up cors in
      (
        ground (arith, eq_iff r.path "/mcp", facts),
        ground (arith, facts),
        ground (arith, facts),
        ground (arith, facts),
        ground (arith, facts),
      )

-- A request is forwarded only on the path /mcp, with the method GET, POST or DELETE, a length
-- within the limit and an origin that is absent or allowed, and only for an access that the
-- authorizer justifies by the request's own Authorization value; the upstream request then has the
-- headers that are rewritten for that principal.
pub mcp-Admitted :
    {S : Type 0} (verify : S → String → Option AuthError × S) (parse_token : String → Option Claims)
    (u : Unicode) (cfg : Config) (done : Bool) (r : Request) (s : S) (up cors : Headers)
    → (mcp verify parse_token u cfg done r s).0 ≡ forward up cors
    → Admitted verify parse_token u cfg r up
unfolding answered
mcp-Admitted verify parse_token u cfg done r s up cors h =
    let (path, method, length, origin, answer_is) =
      reach_answer verify parse_token u cfg done r s up cors h in
    let auth = header_get "Authorization" r.headers in
    let (p, access, headers) =
      answer_sound verify parse_token u cfg r (authenticate verify parse_token u cfg done auth s).0
        up cors answer_is in
    record {
      path = path;
      method =
          ground (arith, eq_iff r.method "GET", eq_iff r.method "POST", eq_iff r.method "DELETE");
      length = length;
      origin = origin_refused_sound verify parse_token u cfg r origin;
      principal = p;
      justified = authenticate-Justified verify parse_token u cfg done auth s p access;
      headers = headers;
    }
