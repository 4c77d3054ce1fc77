-- ===== src/Governance/Ingest.antt =====
-- internal/governance/ingest.go: whether a call's payload may be cached. The decoder of
-- encoding/json is a parameter: an object as its members' raw texts, and a raw text as a string.
pub mod Decision
use gongcli_mcp.Prelude.{
  String, ◌==◌, Bool, true, false, Option, none, some, List, [], ◌∷◌, nat_eq, if◌then◌else◌,
}
use gongcli_mcp.Prelude.Assoc.{lookup}
use gongcli_mcp.Prelude.Sets.{add, sort_strings}
use gongcli_mcp.Text.{is_nil, trim_space}
use gongcli_mcp.Text.Unicode.{Unicode}
use gongcli_mcp.Governance.Config.{Config}
use gongcli_mcp.Governance.Audit.{Candidate, Match, audit_candidates}

-- json.Unmarshal into map[string]json.RawMessage and into string; `none` is an error.
pub record Decoder : Type 0 where
  pub object : String → Option (List (String × String))
  pub text : String → Option String

pub record IngestDecision : Type 0 where
  pub call_id : String
  pub skip : Bool
  pub matched_lists : List String
  pub source_category : String

pub data IngestError : Type 0 where
  bad_json missing_id : IngestError

pub data Evaluated : Type 0 where
  decided : IngestDecision → Evaluated
  failed : IngestError → Evaluated

-- The value behind a key, trimmed, if it is a string that is not blank.
raw_string : Decoder → List (String × String) → String → String
raw_string json payload key = elim (lookup key payload) [
  | none ↦ ""
  | some value ↦ elim (json.text value) [ none ↦ "" | some id ↦ trim_space id ]
]

unfoldable pub first_raw_string : Decoder → List (String × String) → List String → String
unfolding raw_string lookup trim_space
first_raw_string json payload [] = ""
first_raw_string json payload (key ∷ keys) =
    let rest = first_raw_string json payload keys in
    let id = raw_string json payload key in if is_nil id then rest else id

abbrev id_keys : List String
id_keys = "id" ∷ "callId" ∷ "call_id" ∷ []

-- The id in the object `metaData`, empty where there is none.
meta_id : Decoder → List (String × String) → String
meta_id json payload = elim (lookup "metaData" payload) [
  | none ↦ ""
  | some value ↦ elim (json.object value) [
    | none ↦ ""
    | some meta ↦ first_raw_string json meta id_keys
  ]
]

pub data CallId : Type 0 where
  found : String → CallId
  no_id : IngestError → CallId

or_missing : String → CallId
or_missing id = if is_nil id then no_id missing_id else found id

unfoldable pub call_id_from_raw : Decoder → String → CallId
unfolding first_raw_string meta_id lookup or_missing
call_id_from_raw json raw = elim (json.object raw) [
  | none ↦ no_id bad_json
  | some payload ↦
      let id = first_raw_string json payload id_keys in
      if is_nil id then or_missing (meta_id json payload) else found id
]

abbrev keep : String → IngestDecision
keep id = record { call_id = id; skip = false; matched_lists = []; source_category = "" }

-- The lists of the matched entries, as a set.
match_lists : List Match → List String → List String
match_lists [] lists = lists
match_lists (m ∷ ms) lists = match_lists ms (add m.list lists)

-- EvaluateCallPayload once the call's id is known.
decide_call : Unicode → Option Config → String → String → IngestDecision
decide_call u cfg raw id =
    let audit =
      audit_candidates u (record { call_id = id; source = "call_payload"; value = raw } ∷ []) cfg in
    if nat_eq audit.suppressed_call_count 0 then keep id else record {
      call_id = id;
      skip = true;
      matched_lists = sort_strings (match_lists audit.matched_entries []);
      source_category = "call_payload";
    }

decide_on : Unicode → Config → String → CallId → Evaluated
decide_on u cfg raw (no_id e) = failed e
decide_on u cfg raw (found id) = decided (decide_call u (some cfg) raw id)

unfoldable pub evaluate_call_payload : Decoder → Unicode → String → Option Config → Evaluated
unfolding decide_on decide_call match_lists
evaluate_call_payload json u raw none = decided (keep "")
evaluate_call_payload json u raw (some cfg) = decide_on u cfg raw (call_id_from_raw json raw)
