-- ===== src/Mcp/Participants/Tests.antt =====
-- Runs of the participant policy.
use gongcli_mcp.Prelude.{◌≡◌, refl, none, some, [], ◌∷◌}
use gongcli_mcp.Prelude.Sets.{has, add}
use gongcli_mcp.Text.{trim_space}
use gongcli_mcp.Text.Unicode.{lower_text}
use gongcli_mcp.Text.Ascii.{ascii}
use gongcli_mcp.Mcp.Participants.{
  trim_at, normalize_participant_email_domain, collect_domains,
  normalize_internal_participant_domains, resolve_internal_participant_domains,
  normalize_participant_affiliation_filter, is_participant_policy_dimension,
  participant_policy_dimension_canonical,
}
use gongcli_mcp.Mcp.Participants.Distinct.{
  IsDomainList, named_by, resolve_internal_participant_domains-IsDomainList,
  has-resolve_internal_participant_domains,
}
use gongcli_mcp.Mcp.Participants.Dimensions.{is_participant_policy_dimension-canonical}

repeated_run :
    resolve_internal_participant_domains ascii [] (" @Acme.com" ∷ "acme.com" ∷ "@" ∷ "b.io" ∷ [])
    ≡ "acme.com" ∷ "b.io" ∷ []
unfolding resolve_internal_participant_domains normalize_internal_participant_domains
    collect_domains normalize_participant_email_domain trim_at add lower_text trim_space
repeated_run = refl

seller_run : normalize_participant_affiliation_filter ascii " Seller " ≡ some "internal"
unfolding normalize_participant_affiliation_filter lower_text trim_space
seller_run = refl

unknown_run : normalize_participant_affiliation_filter ascii "partner" ≡ none
unfolding normalize_participant_affiliation_filter lower_text trim_space
unknown_run = refl

resolve_internal_participant_domains-IsDomainList_example :
    IsDomainList
      (resolve_internal_participant_domains ascii ("a.com" ∷ []) (" @Acme.com" ∷ "acme.com" ∷ []))
resolve_internal_participant_domains-IsDomainList_example =
    resolve_internal_participant_domains-IsDomainList ascii ("a.com" ∷ [])
      (" @Acme.com" ∷ "acme.com" ∷ [])

has-resolve_internal_participant_domains_example :
    has "acme.com"
      (resolve_internal_participant_domains ascii ("a.com" ∷ []) (" @Acme.com" ∷ "acme.com" ∷ []))
    ≡ named_by ascii "acme.com" (" @Acme.com" ∷ "acme.com" ∷ [])
has-resolve_internal_participant_domains_example =
    has-resolve_internal_participant_domains ascii "acme.com" ("a.com" ∷ [])
      (" @Acme.com" ∷ "acme.com" ∷ [])

is_participant_policy_dimension-canonical_example :
    is_participant_policy_dimension ascii " Email_Domain"
    ≡ has
        (participant_policy_dimension_canonical ascii " Email_Domain")
        ("participant_domain" ∷ "participant_email" ∷ "participant_affiliation" ∷ [])
is_participant_policy_dimension-canonical_example =
    is_participant_policy_dimension-canonical ascii " Email_Domain"
