-- ===== src/Governance/Tests.antt =====
-- Runs of the governance model on a small config.
use gongcli_mcp.Prelude.{String, ◌≡◌, refl, ◌≢◌, ◌↔◌, true, false, some, List, [], ◌∷◌, Any}
use gongcli_mcp.Prelude.Int.{pos}
use gongcli_mcp.Text.{join}
use gongcli_mcp.Text.Ascii.{ascii}
use gongcli_mcp.Governance.Name.{name_fields, normalize_name}
use gongcli_mcp.Governance.Name.Words.{normalize_name_idempotent}
use gongcli_mcp.Governance.Match.{normalized_contains_target}
use gongcli_mcp.Governance.Match.Runs.{HasRun, normalized_contains_target-HasRun}
use gongcli_mcp.Governance.Config.{Config}
use gongcli_mcp.Governance.Audit.{Candidate, audit_candidates}
use gongcli_mcp.Governance.Audit.Suppressed.{Mentions, ConfigNames, audit_suppressed_iff}
use gongcli_mcp.Governance.Guard.{match_value, new_blocklist_guard_from_config}
use gongcli_mcp.Governance.Guard.Agreement.{match_value_iff}
use gongcli_mcp.Governance.Ingest.{
  Decoder, IngestDecision, call_id_from_raw, evaluate_call_payload, decided,
}
use gongcli_mcp.Governance.Ingest.Decision.{Quotes, evaluate_skip-Mentions}

abbrev acme : Config
acme = record {
  version = pos 1;
  lists =
      (
        "no_ai",
        record {
          description = "";
          action = "";
          customers =
              record { name = "Acme, Inc."; aliases = "ACME Labs" ∷ []; reason = ""; notes = "" }
              ∷ [];
        },
      )
      ∷ [];
}

abbrev calls : List Candidate
calls =
    record { call_id = "c2"; source = "title"; value = "Sync with acme-labs!" }
    ∷ record { call_id = "c1"; source = "title"; value = "Intro: ACME inc" }
    ∷ record { call_id = "c3"; source = "title"; value = "Acmeinc" }
    ∷ []

-- A payload is one object whose "id" member is the string c9.
abbrev json : Decoder
json = record { object = λ raw. some (("id", raw) ∷ []); text = λ raw. some "c9" }

abbrev payload : String
payload = "{title: Acme Inc. renewal}"

normalized_example : normalize_name ascii "  Acme, Inc. " ≡ "acme inc"
unfolding normalize_name name_fields join
normalized_example = refl

suppressed_run : (audit_candidates ascii calls (some acme)).suppressed_call_ids ≡ "c1" ∷ "c2" ∷ []
unfolding audit_candidates name_fields join
suppressed_run = refl

guard_run :
    match_value ascii (some (new_blocklist_guard_from_config ascii (some acme))) payload ≡ true
unfolding match_value new_blocklist_guard_from_config normalize_name name_fields join
guard_run = refl

abbrev skipped : IngestDecision
skipped = record {
  call_id = "c9";
  skip = true;
  matched_lists = "no_ai" ∷ [];
  source_category = "call_payload";
}

payload_run : evaluate_call_payload json ascii payload (some acme) ≡ decided skipped
unfolding evaluate_call_payload call_id_from_raw audit_candidates name_fields join
payload_run = refl

normalize_name_idempotent_example :
    normalize_name ascii (normalize_name ascii "Acme, Inc.") ≡ normalize_name ascii "Acme, Inc."
normalize_name_idempotent_example = normalize_name_idempotent ascii "Acme, Inc."

normalized_contains_target-HasRun_example :
    (normalized_contains_target (normalize_name ascii payload) (normalize_name ascii "Acme, Inc.")
      ≡ true)
    ↔ ((name_fields ascii "Acme, Inc." ≢ [])
        × HasRun (name_fields ascii "Acme, Inc.") (name_fields ascii payload))
normalized_contains_target-HasRun_example =
    normalized_contains_target-HasRun ascii payload "Acme, Inc."

audit_suppressed_iff_example :
    Any (λ s. s ≡ "c1") (audit_candidates ascii calls (some acme)).suppressed_call_ids
    ↔ Any (λ c. (c.call_id ≡ "c1") × ConfigNames (Mentions ascii c.value) (some acme)) calls
audit_suppressed_iff_example = audit_suppressed_iff ascii (some acme) calls "c1"

match_value_iff_example :
    (match_value ascii (some (new_blocklist_guard_from_config ascii (some acme))) payload ≡ true)
    ↔ ConfigNames (Mentions ascii payload) (some acme)
match_value_iff_example = match_value_iff ascii (some acme) payload

evaluate_skip-Mentions_example :
    ((skipped.skip ≡ true) ↔ ConfigNames (Mentions ascii payload) (some acme))
    × ((value : String)
        → Quotes payload value
        → ConfigNames (Mentions ascii value) (some acme)
        → skipped.skip ≡ true)
evaluate_skip-Mentions_example =
    evaluate_skip-Mentions json ascii payload (some acme) skipped payload_run

-- The payload is the raw JSON text: the letter of an escape joins the word behind it.
escaped_run :
    evaluate_call_payload json ascii "{\"notes\":\"Hello\\nAcme Labs\"}" (some acme)
    ≡ decided (record { call_id = "c9"; skip = false; matched_lists = []; source_category = "" })
unfolding evaluate_call_payload call_id_from_raw audit_candidates name_fields join
escaped_run = refl
