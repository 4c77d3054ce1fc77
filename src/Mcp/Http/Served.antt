-- ===== src/Mcp/Http/Served.antt =====
-- What a request over HTTP can set off.
use gongcli_mcp.Prelude.{
  ℕ, ◌≤◌, ◌<◌, String, ◌==◌, ◌≡◌, ◌≢◌, refl, true, ◌⊎◌, Option, none, some, List, ltb, arith,
  Bool-cases, inl, inr, eq_iff,
}
use gongcli_mcp.Store.{Outcome, error, ok}
use gongcli_mcp.Mcp.Server.{Server}
use gongcli_mcp.Mcp.Requests.{Response, Tools, State, handle_payload}
use gongcli_mcp.Mcp.Http.{
  HttpRequest, HttpReply, max_frame_bytes, read_http_payload, encoded, write_response,
  serve_payload, serve_http,
}

module _ {S : Type 0} (s : Server) (tools : Tools S) (catalog : List String)
    (byte_length : String → ℕ) (marshal : Response → Option String) where
  -- The response has no text, or one above the limit.
  abbrev pub IsUnwritable : Response → Type 0
  IsUnwritable out =
      (marshal out ≡ none)
      ⊎ ((body : String) × (marshal out ≡ some body) × (max_frame_bytes < byte_length body))

  -- What is written for a response: nothing where there is none, its text if that is within the
  -- limit, and status 500 only where it has no text or one above the limit.
  abbrev pub IsWritten : Option Response → HttpReply → Type 0
  IsWritten resp reply =
      ((out : Response) × (reply.status ≡ 500) × (resp ≡ some out) × IsUnwritable out)
      ⊎ ((reply.status ≡ 202) × (resp ≡ none))
      ⊎ ((out : Response) × (reply.status ≡ 200)
          × (resp ≡ some out)
          × (marshal out ≡ some reply.content)
          × (byte_length reply.content ≤ max_frame_bytes))

  encoded-IsWritten :
      (out : Response) (body : Option String)
      → marshal out ≡ body
      → IsWritten (some out) (encoded s tools catalog byte_length marshal body)
  unfolding encoded
  encoded-IsWritten out none e = inl (out, refl, refl, inl e)
  encoded-IsWritten out (some body) e = elim (Bool-cases (ltb max_frame_bytes (byte_length body))) [
    | inl large ↦ rw (large, encoded) (inl (out, refl, refl, inr (body, e, ground arith)))
    | inr small ↦ rw (small, encoded) (inr (inr (out, refl, refl, e, ground arith)))
  ]

  write_response-IsWritten :
      (x : Option Response × State S)
      → IsWritten x.0 (write_response s tools catalog byte_length marshal x).0
        × ((write_response s tools catalog byte_length marshal x).1 ≡ x.1)
  unfolding write_response
  write_response-IsWritten (none, st) = (inr (inl (refl, refl)), refl)
  write_response-IsWritten (some out, st) = (encoded-IsWritten out (marshal out) refl, refl)

  -- Why a request is not handled, by the status of its reply.
  abbrev pub IsRefused : HttpRequest → ℕ → Type 0
  IsRefused r status =
      ((status ≡ 404) × (r.path ≢ "/mcp"))
      ⊎ ((status ≡ 405) × (r.method ≢ "POST"))
      ⊎ ((status ≡ 400) × ((e : String) × (r.body ≡ error e)))
      ⊎ ((status ≡ 413)
          × ((body : String) × (r.body ≡ ok body) × (max_frame_bytes < byte_length body)))

  -- The request was not handled: the state is as before, and the status tells why.
  abbrev pub Refuses : HttpRequest → State S → HttpReply × State S → Type 0
  Refuses r st x = IsRefused r x.0.status × (x.1 ≡ st)

  -- The payload of the request was handled: it is the body of a POST to /mcp and within the limit,
  -- and what is written is that of its response.
  pub record Handles (r : HttpRequest) (st : State S) (x : HttpReply × State S) : Type 0 where
    pub payload : String
    pub is_body : r.body ≡ ok payload
    pub small : byte_length payload ≤ max_frame_bytes
    pub path : r.path ≡ "/mcp"
    pub method : r.method ≡ "POST"
    pub same_state : x.1 ≡ (handle_payload s tools catalog payload st).1
    pub written : IsWritten (handle_payload s tools catalog payload st).0 x.0

  module _ (r : HttpRequest) (st : State S) (path : r.path ≡ "/mcp")
      (method : r.method ≡ "POST") where
    serve_payload-Handles :
        (body : Outcome String)
        → r.body ≡ body
        → Refuses r st (
            serve_payload s tools catalog byte_length marshal
              (read_http_payload s tools catalog byte_length marshal body)
              st)
          ⊎ Handles r st (
              serve_payload s tools catalog byte_length marshal
                (read_http_payload s tools catalog byte_length marshal body)
                st)
    unfolding serve_payload read_http_payload
    serve_payload-Handles (error e) same = inl (inr (inr (inl (refl, (e, same)))), refl)
    serve_payload-Handles (ok payload) same =
        elim (Bool-cases (ltb max_frame_bytes (byte_length payload))) [
          | inl large ↦
              rw (large, read_http_payload, serve_payload)
                (inl (inr (inr (inr (refl, (payload, same, ground arith)))), refl))
          | inr small ↦
              let x = write_response-IsWritten (handle_payload s tools catalog payload st) in
              rw (small, read_http_payload, serve_payload)
                (inr (record {
                  payload = payload;
                  is_body = same;
                  small = ground arith;
                  path = path;
                  method = method;
                  same_state = x.1;
                  written = x.0;
                }))
        ]

get_not_post : (method : String) → (method == "GET") ≡ true → method ≢ "POST"
get_not_post method get post = ground (arith, eq_iff method "GET", eq_iff "GET" "POST")

-- Every request over HTTP gets one reply. It leaves the state as it was, with status 404 for a path
-- that is not /mcp, 405 for a method that is not POST, 400 for a body that cannot be read and 413 for
-- one above the limit; or the body, within the limit, of a POST to /mcp was handled, and the reply is
-- 202 where there is no response, 200 with the text of the response where that is within the limit,
-- and 500 only where the response has no text or one above the limit.
pub serve_http-Handles :
    {S : Type 0} (s : Server) (tools : Tools S) (catalog : List String) (byte_length : String → ℕ)
    (marshal : Response → Option String) (r : HttpRequest) (st : State S)
    → Refuses s tools catalog byte_length marshal r st
        (serve_http s tools catalog byte_length marshal r st)
      ⊎ Handles s tools catalog byte_length marshal r st
          (serve_http s tools catalog byte_length marshal r st)
unfolding serve_http
serve_http-Handles s tools catalog byte_length marshal r st = elim (Bool-cases (r.path == "/mcp")) [
  | inr elsewhere ↦
      rw (elsewhere, serve_http)
        (inl (inl (refl, λ e. cc (elsewhere, (eq_iff r.path "/mcp").1 e)), refl))
  | inl path ↦ elim (Bool-cases (r.method == "GET")) [
    | inl get ↦ rw (path, get, serve_http) (inl (inr (inl (refl, get_not_post r.method get)), refl))
    | inr not_get ↦ elim (Bool-cases (r.method == "POST")) [
      | inr other ↦
          rw (path, not_get, other, serve_http)
            (inl (inr (inl (refl, λ e. cc (other, (eq_iff r.method "POST").1 e))), refl))
      | inl post ↦
          rw (path, not_get, post, serve_http)
            (serve_payload-Handles s tools catalog byte_length marshal r st
              ((eq_iff r.path "/mcp").0 path) ((eq_iff r.method "POST").0 post) r.body refl)
    ]
  ]
]
