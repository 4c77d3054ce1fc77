-- ===== src/Mcp/Participants/Dimensions.antt =====
-- The names of the dimensions that a participant policy applies to.
use gongcli_mcp.Prelude.{String, ◌≡◌, inl, inr, ◌∷◌, [], Bool-cases, arith, if◌then◌else◌}
use gongcli_mcp.Prelude.Sets.{has}
use gongcli_mcp.Text.{trim_space}
use gongcli_mcp.Text.Unicode.{Unicode, lower_text}
use gongcli_mcp.Mcp.Participants.{
  is_participant_policy_dimension, participant_policy_dimension_canonical,
}

module _ (key : String) where
  canonical_of_key :
      has key (
        "participant_domain" ∷ "domain" ∷ "email_domain" ∷ "participant_email"
        ∷ "participant_affiliation" ∷ "participant_affiliation_class" ∷ [])
      ≡ has
          (if has key ("domain" ∷ "email_domain" ∷ [])
            then "participant_domain"
            else if has key ("participant_affiliation_class" ∷ [])
            then "participant_affiliation"
            else key)
          ("participant_domain" ∷ "participant_email" ∷ "participant_affiliation" ∷ [])
  canonical_of_key = elim (Bool-cases (has key ("domain" ∷ "email_domain" ∷ []))) [
    | inl domain ↦ rw domain (ground (arith, domain))
    | inr other ↦ rw other (elim (Bool-cases (has key ("participant_affiliation_class" ∷ []))) [
      | inl class ↦ rw class (ground (arith, class))
      | inr kept ↦ rw kept (ground (arith, other, kept))
    ])
  ]

-- A dimension is one of a participant policy exactly if its canonical name is one of three.
pub is_participant_policy_dimension-canonical :
    (u : Unicode) (dimension : String)
    → is_participant_policy_dimension u dimension
      ≡ has
          (participant_policy_dimension_canonical u dimension)
          ("participant_domain" ∷ "participant_email" ∷ "participant_affiliation" ∷ [])
unfolding is_participant_policy_dimension participant_policy_dimension_canonical
is_participant_policy_dimension-canonical u dimension =
    canonical_of_key (lower_text u (trim_space dimension))
