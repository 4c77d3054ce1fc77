-- ===== src/Sync/Keys.antt =====
-- The keys and the contexts of a run: the string builders of internal/syncsvc/syncsvc.go.
use gongcli_mcp.Prelude.{String, Bool, List, [], ◌∷◌, ◌++◌, if◌then◌else◌}
use gongcli_mcp.Text.{cat, is_nil, trim_space, join}

-- The part `name=value` where the trimmed value is not blank.
named_part : String → String → List String
named_part name value =
    let trimmed = trim_space value in if is_nil trimmed then [] else cat name trimmed ∷ []

unfoldable pub build_sync_key : String → String → String → String → String → String
unfolding named_part join trim_space
build_sync_key scope preset context from to = join ":" (
    scope ∷ named_part "preset=" preset
    ++ named_part "context=" context
    ++ named_part "from=" from
    ++ named_part "to=" to)

unfoldable pub build_request_context : String → String → String
unfolding named_part join trim_space
build_request_context preset context =
    join "," (named_part "preset=" preset ++ named_part "context=" context)

unfoldable pub append_request_context_part : String → String → String
unfolding trim_space
append_request_context_part base part =
    let extra = trim_space part in
    let kept = trim_space base in
    if is_nil extra then kept else if is_nil kept then extra else cat kept (cat "," extra)

unfoldable pub build_call_request_context : String → Bool → Bool → Bool → String
unfolding named_part join trim_space
build_call_request_context base parties fallback highlights = join "," (
    named_part "" base
    ++ (if parties
        then "include_parties_requested=true"
          ∷ (if fallback
              then "include_parties_result=omitted_fallback"
              else "include_parties_result=request_sent")
          ∷ []
        else [])
    ++ (if highlights
        then "include_highlights_requested=true" ∷ "include_highlights_result=request_sent" ∷ []
        else []))
