-- ===== src/Mcp/Json.antt =====
-- Decoded JSON as internal/mcp/server.go reads it, and the helpers that read it: summarizeCall and
-- what it calls. A number is kept as the int64 that Go converts it to; strconv.ParseInt, with 0 for
-- its error, and json.Unmarshal into a map are parameters.
use gongcli_mcp.Prelude.{
  ℕ, suc, String, ◌==◌, Bool, Option, none, some, List, [], ◌∷◌, nat_eq, if◌then◌else◌,
}
use gongcli_mcp.Prelude.Int.{ℤ, pos, is_nat}
use gongcli_mcp.Text.{is_nil, trim_space}

mutual
  pub data Json : Type 0 where
    null : Json
    bool : Bool → Json
    number : ℤ → Json
    text : String → Json
    array : Items → Json
    object : Members → Json

  pub data Items : Type 0 where
    no_items : Items
    next_item : Json → Items → Items

  pub data Members : Type 0 where
    no_members : Members
    member : String → Json → Members → Members

unfoldable pub find_member : String → Members → Option Json
find_member key no_members = none
find_member key (member k v ms) = if k == key then some v else find_member key ms

-- The loop of firstJSONString, over the keys; `rest` is the text of the keys behind.
text_or : String → Option Json → String
text_or rest (some (text s)) = trim_space s
text_or rest _ = rest

unfoldable pub first_json_string : Members → List String → String
unfolding text_or find_member
first_json_string doc [] = ""
first_json_string doc (key ∷ keys) = text_or (first_json_string doc keys) (find_member key doc)

unfoldable pub int64_json_value : (String → ℤ) → Option Json → ℤ
int64_json_value parse_int (some (number n)) = n
int64_json_value parse_int (some (text s)) = parse_int (trim_space s)
int64_json_value parse_int _ = pos 0

items_length : Items → ℕ
items_length no_items = 0
items_length (next_item v vs) = suc (items_length vs)

unfoldable pub json_array_len : Option Json → ℕ
unfolding items_length
json_array_len (some (array vs)) = items_length vs
json_array_len _ = 0

-- payload["metaData"].(map[string]any), where a nil map reads as an empty one.
unfoldable pub members_of : Option Json → Members
members_of (some (object ms)) = ms
members_of _ = no_members

pub record SearchCallSummary : Type 0 where
  pub call_id : String
  pub title : String
  pub started_at : String
  pub duration_seconds : ℤ
  pub parties_count : ℕ

-- The value of the payload, and that of its metadata where the first is blank.
unfoldable pub first_of_both : Members → Members → List String → String
unfolding first_json_string
first_of_both payload meta keys =
    let value = first_json_string payload keys in
    if is_nil value then first_json_string meta keys else value

module _ (parse_int : String → ℤ) where
  summary_of : Members → SearchCallSummary
  summary_of payload =
      let meta = members_of (find_member "metaData" payload) in
      let duration = int64_json_value parse_int (find_member "duration" payload) in
      let parties = json_array_len (find_member "parties" payload) in
      record {
        call_id = first_of_both payload meta ("id" ∷ "callId" ∷ []);
        title = first_of_both payload meta ("title" ∷ []);
        started_at = first_of_both payload meta ("started" ∷ "startedAt" ∷ []);
        duration_seconds =
            if is_nat duration 0
            then int64_json_value parse_int (find_member "duration" meta)
            else duration;
        parties_count =
            if nat_eq parties 0 then json_array_len (find_member "parties" meta) else parties;
      }

  -- summarizeCall; `none` is an error of the decoder.
  unfoldable pub summarize_call : (String → Option Members) → String → Option SearchCallSummary
  unfolding summary_of find_member first_of_both int64_json_value json_array_len members_of
  summarize_call decode raw = elim (decode raw) [
    | none ↦ none
    | some payload ↦ some (summary_of payload)
  ]
