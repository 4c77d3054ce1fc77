-- ===== src/Mcp/Http.antt =====
-- ServeHTTP of internal/mcp/server.go. net/http is data: a request with its body or the error of
-- reading it, and the status, the headers that the handler sets and the body. The length of a text in bytes and
-- json.Marshal are parameters; the deadline of the context is not modelled.
pub mod Served
mod Tests
use gongcli_mcp.Prelude.{
  ℕ, String, ◌==◌, Bool, true, false, not, Option, none, some, List, [], ◌∷◌, ltb, if◌then◌else◌,
}
use gongcli_mcp.Store.{Outcome, error, ok}
use gongcli_mcp.Mcp.Server.{Server}
use gongcli_mcp.Mcp.Requests.{Response, Tools, State, handle_payload}

pub record HttpRequest : Type 0 where
  pub path : String
  pub method : String
  pub body : Outcome String

pub record HttpReply : Type 0 where
  pub status : ℕ
  pub headers : List (String × String)
  pub content : String

-- maxFrameBytes
abbrev pub max_frame_bytes : ℕ
max_frame_bytes = 1048576

pub data Payload : Type 0 where
  unreadable too_large : Payload
  whole : String → Payload

module _ {S : Type 0} (s : Server) (tools : Tools S) (catalog : List String)
    (byte_length : String → ℕ) (marshal : Response → Option String) where
  -- readHTTPPayload
  read_http_payload : Outcome String → Payload
  read_http_payload (error e) = unreadable
  read_http_payload (ok body) =
      if ltb max_frame_bytes (byte_length body) then too_large else whole body

  abbrev reply : ℕ → List (String × String) → String → HttpReply
  reply status headers content = record { status = status; headers = headers; content = content }

  encoded : Option String → HttpReply
  encoded none = reply 500 [] "encode response"
  encoded (some body) =
      if ltb max_frame_bytes (byte_length body)
      then reply 500 [] "response frame exceeds maximum 1048576 bytes"
      else reply 200 (("Content-Type", "application/json") ∷ []) body

  -- Behind handlePayload.
  write_response : Option Response × State S → HttpReply × State S
  write_response (none, st) = (reply 202 [] "", st)
  write_response (some resp, st) = (encoded (marshal resp), st)

  serve_payload : Payload → State S → HttpReply × State S
  serve_payload unreadable st = (reply 400 [] "read request body", st)
  serve_payload too_large st = (reply 413 [] "request body exceeds maximum 1048576 bytes", st)
  serve_payload (whole payload) st = write_response (handle_payload s tools catalog payload st)

  pub serve_http : HttpRequest → State S → HttpReply × State S
  serve_http r st =
      if not (r.path == "/mcp")
      then (reply 404 [] "404 page not found", st)
      else if r.method == "GET"
      then (
        reply 405 (("Allow", "POST") ∷ []) "streaming GET is not implemented by this MCP server",
        st,
      )
      else if not (r.method == "POST")
      then (reply 405 (("Allow", "POST") ∷ []) "method not allowed", st)
      else serve_payload (read_http_payload r.body) st
