-- ===== src/Mcp/Requests/Answered.antt =====
-- Which requests get a response.
use gongcli_mcp.Prelude.{
  String, ◌==◌, ◌≡◌, refl, Bool, true, false, not, ◌&&◌, ◌||◌, Option, none, some, List, Bool-cases,
  inl, inr, if◌then◌else◌,
}
use gongcli_mcp.Text.{is_nil}
use gongcli_mcp.Mcp.Server.{Server}
use gongcli_mcp.Mcp.Requests.{
  Request, Answer, initialized, Response, Tools, State, handle_method, responded, handle, silenced,
  handle_request, handle_payload,
}

has_id : Option String → Bool
has_id none = false
has_id (some id) = true

-- The requests that are answered: those without a method, and those with an id but for the
-- notification of the protocol.
pub is_answered : Request → Bool
unfolding has_id
is_answered req =
    is_nil req.method || has_id req.id && not (req.method == "notifications/initialized")

-- The response of a request: one under its id where the test holds, and else none.
abbrev pub Answers : Request → Bool → Option Response → Type 0
Answers req b resp =
    (a : Answer) × (resp ≡ (if b then some (record { id = req.id; answer = a }) else none))

module _ {S : Type 0} (s : Server) (tools : Tools S) (catalog : List String) where
  responded-id :
      (id : Option String) (x : Answer × State S)
      → (a : Answer) × ((responded s tools id x).0 ≡ some (record { id = id; answer = a }))
  unfolding responded
  responded-id id (answer, st) = (answer, refl)

  silenced_of_none : (x : Option Response × State S) → (silenced s tools none x).0 ≡ none
  unfolding silenced
  silenced_of_none (resp, st) = refl

  silenced_answers :
      (id : Option String) (notification : Bool) (st : State S) (y : Answer × State S)
      → (a : Answer) × ((silenced s tools id
            (if notification then (none, st) else responded s tools id y)).0
          ≡ (if has_id id && not notification then some (record { id = id; answer = a }) else none))
  unfolding silenced has_id responded
  silenced_answers none notification st y = (
    initialized,
    silenced_of_none (if notification then (none, st) else responded s tools none y),
  )
  silenced_answers (some id) true st y = (initialized, refl)
  silenced_answers (some id) false st (a, st') = (a, refl)

  handle_request-Answers :
      (req : Request) (st : State S)
      → Answers req (is_answered req) (handle_request s tools catalog req st).0
  unfolding handle_request handle is_answered
  handle_request-Answers req st = elim (Bool-cases (is_nil req.method)) [
    | inl blank ↦ rw (blank, handle_request) (responded-id req.id _)
    | inr named ↦
        rw (named, handle_request)
          (silenced_answers req.id (req.method == "notifications/initialized") st
            (handle_method s tools catalog req st))
  ]

-- A request that parses is answered exactly if it has no method, or has an id and is not the
-- notification of the protocol; the one response then bears its id, whatever the tools do.
pub handle_payload-Answers :
    {S : Type 0} (s : Server) (tools : Tools S) (catalog : List String) (payload : String)
    (st : State S) (req : Request)
    → tools.decode_request payload ≡ some req
    → Answers req (is_answered req) (handle_payload s tools catalog payload st).0
unfolding handle_payload
handle_payload-Answers s tools catalog payload st req parsed =
    rw (parsed, handle_payload) (handle_request-Answers s tools catalog req st)
