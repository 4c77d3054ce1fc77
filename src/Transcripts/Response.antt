-- ===== src/Transcripts/Response.antt =====
-- splitTranscriptResponse of internal/transcripts/sync.go with transcriptCallID. encoding/json is a
-- parameter: the decoders give `none` for an error.
use gongcli_mcp.Prelude.{
  String, Bool, not, Option, none, some, List, [], ◌∷◌, is_empty, if◌then◌else◌,
}
use gongcli_mcp.Prelude.Assoc.{lookup}
use gongcli_mcp.Text.{is_nil, trim_space}
use gongcli_mcp.Mcp.Json.{Json, Members, text, find_member}

pub record TranscriptDecoder : Type 0 where
  pub valid : String → Bool
  -- json.Unmarshal into map[string]json.RawMessage, []json.RawMessage and map[string]any
  pub envelope : String → Option (List (String × String))
  pub raw_items : String → Option (List String)
  pub members : String → Option Members
  -- normalizeTranscriptItem: a value decoded and printed again.
  pub normalize_item : String → Option String

pub record TranscriptResponseItem : Type 0 where
  pub call_id : String
  pub body : String

-- The text of a member that is a string and not blank.
solid_text : Option Json → Option String
unfolding trim_space
solid_text (some (text s)) = if is_nil (trim_space s) then none else some (trim_space s)
solid_text _ = none

first_text_of : List String → Members → Option String
first_text_of [] item = none
first_text_of (key ∷ keys) item = elim (solid_text (find_member key item)) [
  | none ↦ first_text_of keys item
  | some id ↦ some id
]

module _ (json : TranscriptDecoder) where
  unfoldable pub transcript_call_id : String → Option String
  unfolding first_text_of solid_text find_member
  transcript_call_id body = elim (json.members body) [
    | none ↦ none
    | some item ↦ first_text_of ("callId" ∷ "id" ∷ []) item
  ]

  -- One item of the list, in front of the others.
  split_item : String → Option (List TranscriptResponseItem) → Option (List TranscriptResponseItem)
  split_item raw rest = elim (json.normalize_item raw) [
    | none ↦ none
    | some body ↦ elim (transcript_call_id body) [
      | none ↦ none
      | some call_id ↦ elim rest [
        | none ↦ none
        | some items ↦ some (record { call_id = call_id; body = body } ∷ items)
      ]
    ]
  ]

  split_items : List String → Option (List TranscriptResponseItem)
  split_items [] = some []
  split_items (raw ∷ raws) = split_item raw (split_items raws)

  -- A response whose items stand under callTranscripts.
  split_wrapped : String → Option (List TranscriptResponseItem)
  split_wrapped wrapped = elim (json.raw_items wrapped) [
    | none ↦ none
    | some raws ↦ if is_empty raws then none else split_items raws
  ]

  -- A response that is one transcript.
  split_single : String → Option (List TranscriptResponseItem)
  split_single body = elim (transcript_call_id body) [
    | none ↦ none
    | some call_id ↦ some (record { call_id = call_id; body = body } ∷ [])
  ]

  split_envelope : String → List (String × String) → Option (List TranscriptResponseItem)
  split_envelope body envelope = elim (lookup "callTranscripts" envelope) [
    | none ↦ split_single body
    | some wrapped ↦ split_wrapped wrapped
  ]

  unfoldable pub split_transcript_response : String → Option (List TranscriptResponseItem)
  unfolding split_envelope split_single split_wrapped split_items split_item lookup
      transcript_call_id
  split_transcript_response body =
      if not (json.valid body)
      then none
      else elim (json.envelope body) [ none ↦ none | some envelope ↦ split_envelope body envelope ]
