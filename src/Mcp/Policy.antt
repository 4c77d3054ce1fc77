-- ===== src/Mcp/Policy.antt =====
-- internal/mcp/policy.go: the switches that hide fields of a tool's output.
pub mod Flags
mod Tests
use gongcli_mcp.Prelude.{
  String, ◌==◌, Bool, true, false, Option, none, some, List, [], ◌∷◌, any, if◌then◌else◌,
}
use gongcli_mcp.Prelude.Sets.{has, sort_strings}
use gongcli_mcp.Text.{is_nil, trim_space}
use gongcli_mcp.Text.Split.{split}
use gongcli_mcp.Text.Unicode.{Unicode, lower_text}

pub record PolicySwitches : Type 0 where
  pub hide_account_names : Bool
  pub hide_call_titles : Bool
  pub hide_raw_call_ids : Bool
  pub hide_speaker_ids : Bool
  pub hide_contact_names : Bool
  pub hide_contact_emails : Bool
  pub hide_opportunity_names : Bool
  pub hide_loss_reasons : Bool
  pub hide_crm_value_snippets : Bool

abbrev pub policy_switch_names : List String
policy_switch_names =
    "hide_account_names" ∷ "hide_call_titles" ∷ "hide_raw_call_ids" ∷ "hide_speaker_ids"
    ∷ "hide_contact_names" ∷ "hide_contact_emails" ∷ "hide_opportunity_names" ∷ "hide_loss_reasons"
    ∷ "hide_crm_value_snippets" ∷ []

abbrev pub no_switches : PolicySwitches
no_switches = record {
  hide_account_names = false;
  hide_call_titles = false;
  hide_raw_call_ids = false;
  hide_speaker_ids = false;
  hide_contact_names = false;
  hide_contact_emails = false;
  hide_opportunity_names = false;
  hide_loss_reasons = false;
  hide_crm_value_snippets = false;
}

-- BroadPublicRedactedDefaultPolicySwitches
abbrev pub broad_public_redacted_switches : PolicySwitches
broad_public_redacted_switches = record no_switches { hide_raw_call_ids = true }

-- strings.ToLower(strings.TrimSpace(name))
unfoldable pub key_of : Unicode → String → String
unfolding lower_text trim_space
key_of u name = lower_text u (trim_space name)

-- The switch of IsEnabled on the key of a name.
enabled_at : PolicySwitches → String → Bool
enabled_at p key =
    if key == "hide_account_names"
    then p.hide_account_names
    else if key == "hide_call_titles"
    then p.hide_call_titles
    else if key == "hide_raw_call_ids"
    then p.hide_raw_call_ids
    else if key == "hide_speaker_ids"
    then p.hide_speaker_ids
    else if key == "hide_contact_names"
    then p.hide_contact_names
    else if key == "hide_contact_emails"
    then p.hide_contact_emails
    else if key == "hide_opportunity_names"
    then p.hide_opportunity_names
    else if key == "hide_loss_reasons"
    then p.hide_loss_reasons
    else if key == "hide_crm_value_snippets"
    then p.hide_crm_value_snippets
    else false

-- The switch of set on the key of a name.
set_at : String → Bool → PolicySwitches → PolicySwitches
set_at key value p =
    if key == "hide_account_names"
    then record p { hide_account_names = value }
    else if key == "hide_call_titles"
    then record p { hide_call_titles = value }
    else if key == "hide_raw_call_ids"
    then record p { hide_raw_call_ids = value }
    else if key == "hide_speaker_ids"
    then record p { hide_speaker_ids = value }
    else if key == "hide_contact_names"
    then record p { hide_contact_names = value }
    else if key == "hide_contact_emails"
    then record p { hide_contact_emails = value }
    else if key == "hide_opportunity_names"
    then record p { hide_opportunity_names = value }
    else if key == "hide_loss_reasons"
    then record p { hide_loss_reasons = value }
    else if key == "hide_crm_value_snippets"
    then record p { hide_crm_value_snippets = value }
    else p

module _ (u : Unicode) where
  pub is_enabled : PolicySwitches → String → Bool
  is_enabled p name = enabled_at p (key_of u name)

  set : PolicySwitches → String → Bool → PolicySwitches
  set p name value = set_at (key_of u name) value p

  -- The loop of ParsePolicySwitches; `none` is an unknown name.
  parse_pieces : List String → PolicySwitches → Option PolicySwitches
  parse_pieces [] out = some out
  parse_pieces (piece ∷ pieces) out =
      let name = key_of u piece in
      let next = if is_nil name then out else set out name true in
      let rest = parse_pieces pieces next in
      if is_nil name then rest else if has name policy_switch_names then rest else none

  pub parse_policy_switches : String → Option PolicySwitches
  unfolding split
  parse_policy_switches raw = parse_pieces (split b',' raw) no_switches

  -- The loop of MergePolicySwitches.
  merge_names : List String → PolicySwitches → PolicySwitches → PolicySwitches
  merge_names [] b merged = merged
  merge_names (name ∷ names) b merged =
      merge_names names b (if is_enabled b name then set merged name true else merged)

  pub merge_policy_switches : PolicySwitches → PolicySwitches → PolicySwitches
  merge_policy_switches a b = merge_names policy_switch_names b a

  pub any_enabled : PolicySwitches → Bool
  any_enabled p = any (is_enabled p) policy_switch_names

  enabled_of : List String → PolicySwitches → List String
  enabled_of [] p = []
  enabled_of (name ∷ names) p =
      let rest = enabled_of names p in if is_enabled p name then name ∷ rest else rest

  pub enabled_names : PolicySwitches → List String
  unfolding sort_strings
  enabled_names p = sort_strings (enabled_of policy_switch_names p)
