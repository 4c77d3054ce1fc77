-- ===== src/Gateway/Server.antt =====
-- The request handlers of internal/gateway/server.go. Header names are in the canonical form that
-- net/http gives them. The limit on the bytes of a body (MaxBytesReader) and what the proxy does
-- behind its Rewrite belong to net/http; its SetXForwarded is written out.
pub mod Admission
pub mod Isolation
mod Tests
use gongcli_mcp.Prelude.{
  ℕ, String, ◌==◌, Bool, true, false, not, ◌&&◌, ◌||◌, List, [], ◌∷◌, ◌++◌, is_empty, Option, none,
  some, if◌then◌else◌,
}
use gongcli_mcp.Prelude.Int.{ℤ, exceeds}
use gongcli_mcp.Prelude.Sets.{has}
use gongcli_mcp.Text.{cat, is_nil, join}
use gongcli_mcp.Text.Unicode.{Unicode}
use gongcli_mcp.Gateway.Config.{Config}
use gongcli_mcp.Gateway.Claims.{Claims}
use gongcli_mcp.Gateway.Auth.{Principal, AuthError, Access, granted, denied, authenticate}

abbrev pub Headers : Type 0
Headers = List (String × String)

-- `remote_ip` is the host of RemoteAddr, `none` where net.SplitHostPort refuses that; `host` is the
-- name that the client asked for, and `tls` says that the connection has TLS.
pub record Request : Type 0 where
  pub method : String
  pub path : String
  pub content_length : ℤ
  pub headers : Headers
  pub host : String
  pub remote_ip : Option String
  pub tls : Bool

-- A finished response, or the headers of the upstream request and those set on the response.
pub data Outcome : Type 0 where
  reply : ℕ → Headers → Outcome
  forward : Headers → Headers → Outcome

-- Header.Values
pub header_values : String → Headers → List String
header_values name [] = []
header_values name ((k, v) ∷ hs) =
    if k == name then v ∷ header_values name hs else header_values name hs

-- Header.Get
pub header_get : String → Headers → String
header_get name [] = ""
header_get name ((k, v) ∷ hs) = if k == name then v else header_get name hs

header_del : String → Headers → Headers
header_del name [] = []
header_del name ((k, v) ∷ hs) =
    if k == name then header_del name hs else (k, v) ∷ header_del name hs

-- Header.Set
header_set : String → String → Headers → Headers
header_set name value hs = (name, value) ∷ header_del name hs

tagged : String → List String → Headers
tagged name [] = []
tagged name (v ∷ vs) = (name, v) ∷ tagged name vs

copy_headers : List String → Headers → Headers
copy_headers [] hs = []
copy_headers (name ∷ names) hs = tagged name (header_values name hs) ++ copy_headers names hs

abbrev pub upstream_names : List String
upstream_names =
    "Accept" ∷ "Accept-Encoding" ∷ "Content-Type" ∷ "Mcp-Protocol-Version" ∷ "Mcp-Session-Id"
    ∷ "User-Agent" ∷ []

pub allowed_upstream_headers : Headers → Headers
allowed_upstream_headers hs = copy_headers upstream_names hs

pub principal_label : Principal → String
principal_label p =
    if is_nil p.email then (if is_nil p.subject then "unknown" else p.subject) else p.email

-- The address behind those that the outbound request already names.
forwarded_for : List String → String → String
forwarded_for prior ip = if is_empty prior then ip else cat (join ", " prior) (cat ", " ip)

set_forwarded_for : Option String → Headers → Headers
unfolding forwarded_for
set_forwarded_for none hs = header_del "X-Forwarded-For" hs
set_forwarded_for (some ip) hs =
    header_set "X-Forwarded-For" (forwarded_for (header_values "X-Forwarded-For" hs) ip) hs

-- ProxyRequest.SetXForwarded
set_x_forwarded : Request → Headers → Headers
set_x_forwarded r hs =
    header_set "X-Forwarded-Proto" (if r.tls then "https" else "http")
      (header_set "X-Forwarded-Host" r.host (set_forwarded_for r.remote_ip hs))

-- The headers that the code itself gives the upstream request.
own_headers : Config → Principal → Headers → Headers
own_headers cfg p hs =
    header_set "X-Gongctl-Principal" (principal_label p)
      (header_set "Authorization" (cat "Bearer " cfg.internal_token) (allowed_upstream_headers hs))

-- The headers that the rewrite of proxyMCP gives the upstream request.
pub rewrite_headers : Config → Principal → Request → Headers
unfolding set_x_forwarded set_forwarded_for own_headers
rewrite_headers cfg p r = set_x_forwarded r (own_headers cfg p r.headers)

-- The result of writeCORSHeaders, and the headers that it sets.
write_cors_headers : Config → Request → Bool × Headers
write_cors_headers cfg r =
    let origin = header_get "Origin" r.headers in
    if is_nil origin
    then (true, [])
    else if has origin cfg.allowed_origins
    then (true, ("Access-Control-Allow-Origin", origin) ∷ ("Vary", "Origin") ∷ [])
    else (false, [])

-- `!s.writeCORSHeaders(w, r) && r.Header.Get("Origin") != ""`
origin_refused : Config → Request → Bool
origin_refused cfg r =
    not (write_cors_headers cfg r).0 && not (is_nil (header_get "Origin" r.headers))

write_cors_preflight : Config → Request → Outcome
write_cors_preflight cfg r =
    if origin_refused cfg r
    then reply 403 []
    else reply 204 (
        (write_cors_headers cfg r).1
        ++ ("Access-Control-Allow-Methods", "GET, POST, DELETE, OPTIONS")
          ∷ (
            "Access-Control-Allow-Headers",
            "Authorization, Content-Type, MCP-Protocol-Version, Mcp-Session-Id",
          )
          ∷ ("Access-Control-Max-Age", "600")
          ∷ [])

www_authenticate_challenge : Config → String
www_authenticate_challenge cfg = cat "Bearer resource_metadata=\"" (
    cat cfg.public_base_url
      (cat "/.well-known/oauth-protected-resource/mcp\", scope=\"" (cat cfg.required_scope "\"")))

answer : Config → Request → Access → Outcome
answer cfg r (denied e) =
    reply 401
      ((write_cors_headers cfg r).1 ++ ("WWW-Authenticate", www_authenticate_challenge cfg) ∷ [])
answer cfg r (granted p) = forward (rewrite_headers cfg p r) (write_cors_headers cfg r).1

abbrev pub is_proxied_method : String → Bool
is_proxied_method method = method == "GET" || method == "POST" || method == "DELETE"

module _ {S : Type 0} (verify : S → String → Option AuthError × S)
    (parse_token : String → Option Claims) (u : Unicode) (cfg : Config) where
  answered : Bool → Request → S → Outcome × S
  answered done r s =
      let (access, s') =
        authenticate verify parse_token u cfg done (header_get "Authorization" r.headers) s in
      (answer cfg r access, s')

  -- Server.mcp; `done` says that the request's context is cancelled.
  pub mcp : Bool → Request → S → Outcome × S
  mcp done r s =
      if not (r.path == "/mcp")
      then (reply 404 [], s)
      else if r.method == "OPTIONS"
      then (write_cors_preflight cfg r, s)
      else if not (is_proxied_method r.method)
      then (reply 405 [], s)
      else if exceeds r.content_length cfg.max_request_bytes
      then (reply 413 [], s)
      else if origin_refused cfg r
      then (reply 403 [], s)
      else answered done r s
