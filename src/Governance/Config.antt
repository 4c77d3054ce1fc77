-- ===== src/Governance/Config.antt =====
-- Config, ParseYAML and Targets of internal/governance/config.go. A decoded YAML document is the
-- argument of `validate_config`; the decoder is not part of the program.
pub mod Restricted
pub mod Normal
use gongcli_mcp.Prelude.{
  ℕ, ◌+◌, String, ◌==◌, Bool, Option, none, some, List, [], ◌∷◌, ◌++◌, map, is_empty, if◌then◌else◌,
}
use gongcli_mcp.Prelude.Int.{ℤ, is_nat}
use gongcli_mcp.Prelude.Assoc.{lookup}
use gongcli_mcp.Prelude.Sets.{str_lt, sort_stable}
use gongcli_mcp.Text.{is_nil}
use gongcli_mcp.Text.Unicode.{Unicode}
use gongcli_mcp.Governance.Name.{normalize_name}

pub record Entry : Type 0 where
  pub name : String
  pub aliases : List String
  pub reason : String
  pub notes : String

pub record NameList : Type 0 where
  pub description : String
  pub action : String
  pub customers : List Entry

pub record Config : Type 0 where
  pub version : ℤ
  pub lists : List (String × NameList)

pub record Target : Type 0 where
  pub list : String
  pub name : String
  pub alias : String
  pub normalized : String

abbrev pub list_no_ai : String
list_no_ai = "no_ai"

abbrev pub list_notification_required : String
list_notification_required = "notification_required"

-- c.Lists[listName].Customers, empty for a missing list
unfoldable pub customers : Config → String → List Entry
unfolding lookup
customers cfg list_name = elim (lookup list_name cfg.lists) [
  | none ↦ []
  | some list ↦ list.customers
]

module _ (u : Unicode) where
  -- One append of `Targets`, skipped where the normalised text is empty.
  target_of : String → String → String → String → List Target
  target_of list name alias text =
      let normalized = normalize_name u text in
      if is_nil normalized
      then []
      else record { list = list; name = name; alias = alias; normalized = normalized } ∷ []

  alias_targets : String → String → List String → List Target
  alias_targets list name [] = []
  alias_targets list name (alias ∷ aliases) =
      target_of list name alias alias ++ alias_targets list name aliases

  list_targets : String → List Entry → List Target
  list_targets list [] = []
  list_targets list (e ∷ es) =
      target_of list e.name "" e.name
      ++ (alias_targets list e.name e.aliases ++ list_targets list es)

-- The comparison of `Targets`: by list, then name, then alias.
unfoldable pub target_less : Target → Target → Bool
target_less s t =
    if s.list == t.list
    then (if s.name == t.name then str_lt s.alias t.alias else str_lt s.name t.name)
    else str_lt s.list t.list

unfoldable pub targets : Unicode → Option Config → List Target
unfolding list_targets alias_targets target_of customers target_less sort_stable
targets u none = []
targets u (some cfg) = sort_stable target_less (
    list_targets u list_no_ai (customers cfg list_no_ai)
    ++ list_targets u list_notification_required (customers cfg list_notification_required))

pub data ConfigError : Type 0 where
  unsupported_version : ConfigError
  unknown_list : String → ConfigError
  name_required : String → ℕ → ConfigError
  no_targets : ConfigError

pub data Checked : Type 0 where
  valid : Config → Checked
  invalid : ConfigError → Checked

-- The first list with a name that is not one of the two.
unknown_name : List (String × NameList) → Option String
unknown_name [] = none
unknown_name ((name, _) ∷ lists) =
    if name == list_no_ai
    then unknown_name lists
    else if name == list_notification_required
    then unknown_name lists
    else some name

-- The place of the first customer, from `i`, whose name has no letter or digit.
blank_name : Unicode → ℕ → List Entry → Option ℕ
blank_name u i [] = none
blank_name u i (e ∷ es) =
    if is_nil (normalize_name u e.name) then some (i + 1) else blank_name u (i + 1) es

-- The loop over the two lists, in their order.
blank_in : Unicode → Config → List String → Option ConfigError
unfolding blank_name customers
blank_in u cfg [] = none
blank_in u cfg (list ∷ lists) = elim (blank_name u 0 (customers cfg list)) [
  | none ↦ blank_in u cfg lists
  | some place ↦ some (name_required list place)
]

-- ParseYAML behind the decoder.
unfoldable pub validate_config : Unicode → Config → Checked
unfolding unknown_name blank_in targets
validate_config u cfg =
    if is_nat cfg.version 1
    then (elim (unknown_name cfg.lists) [
      | some name ↦ invalid (unknown_list name)
      | none ↦ elim (blank_in u cfg (list_no_ai ∷ list_notification_required ∷ [])) [
        | some e ↦ invalid e
        | none ↦ if is_empty (targets u (some cfg)) then invalid no_targets else valid cfg
      ]
    ])
    else invalid unsupported_version
