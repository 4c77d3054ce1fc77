-- ===== src/Mcp/Participants.antt =====
-- internal/mcp/participant_policy.go: the domains of the seller's own participants, and the names of
-- the filter and the dimensions that tell them from others.
pub mod Distinct
pub mod Dimensions
mod Tests
use Prim.Native.String.{[], ◌∷◌}
use gongcli_mcp.Prelude.{
  code, String, Option, none, some, Bool, List, [], ◌∷◌, is_empty, nat_eq, if◌then◌else◌,
}
use gongcli_mcp.Prelude.Sets.{has, add}
use gongcli_mcp.Text.{is_nil, trim_space}
use gongcli_mcp.Text.Unicode.{Unicode, lower_text}

abbrev pub default_internal_participant_domain : String
default_internal_participant_domain = "internal.example"

-- strings.TrimPrefix(domain, "@")
unfoldable pub trim_at : String → String
trim_at [] = []
trim_at (c ∷ s) = if nat_eq (code c) 64 then s else c ∷ s

module _ (u : Unicode) where
  pub normalize_participant_email_domain : String → String
  normalize_participant_email_domain value = trim_at (lower_text u (trim_space value))

  -- The loop of normalizeInternalParticipantDomains. `seen` holds the same texts as `out` and is not
  -- kept apart.
  unfoldable pub collect_domains : List String → List String → List String
  collect_domains [] out = out
  collect_domains (raw ∷ raws) out =
      let domain = normalize_participant_email_domain raw in
      let next = if is_nil domain then out else add domain out in collect_domains raws next

  unfoldable pub normalize_internal_participant_domains : List String → List String
  normalize_internal_participant_domains domains =
      let out = collect_domains domains [] in
      if is_empty domains
      then default_internal_participant_domain ∷ []
      else if is_empty out
      then default_internal_participant_domain ∷ []
      else out

  unfoldable pub resolve_internal_participant_domains : List String → List String → List String
  resolve_internal_participant_domains server_domains arg_domains =
      if is_empty arg_domains
      then if is_empty server_domains
        then normalize_internal_participant_domains []
        else normalize_internal_participant_domains server_domains
      else normalize_internal_participant_domains arg_domains

  -- `none` is a value that the filter does not have.
  pub normalize_participant_affiliation_filter : String → Option String
  normalize_participant_affiliation_filter value =
      let key = lower_text u (trim_space value) in
      if has key ("" ∷ "any" ∷ [])
      then some ""
      else if has key ("external" ∷ "buyer" ∷ "customer" ∷ "prospect" ∷ "marketing" ∷ [])
      then some "external"
      else if has key ("internal" ∷ "seller" ∷ "rep" ∷ "coaching" ∷ [])
      then some "internal"
      else none

  unfoldable pub is_participant_policy_dimension : String → Bool
  is_participant_policy_dimension dimension = has (lower_text u (trim_space dimension)) (
      "participant_domain" ∷ "domain" ∷ "email_domain" ∷ "participant_email"
      ∷ "participant_affiliation" ∷ "participant_affiliation_class" ∷ [])

  unfoldable pub participant_policy_dimension_canonical : String → String
  participant_policy_dimension_canonical dimension =
      let key = lower_text u (trim_space dimension) in
      if has key ("domain" ∷ "email_domain" ∷ [])
      then "participant_domain"
      else if has key ("participant_affiliation_class" ∷ [])
      then "participant_affiliation"
      else key
