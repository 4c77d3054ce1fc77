-- ===== src/Governance/Config/Normal.antt =====
-- Every target carries a normalised text that is not empty.
use gongcli_mcp.Prelude.{
  String, ◌≡◌, inl, inr, false, Option, none, some, List, [], ◌∷◌, ◌++◌, All, All-append,
  Bool-cases,
}
use gongcli_mcp.Prelude.Sets.{All-sort_stable}
use gongcli_mcp.Text.{is_nil, trim_space}
use gongcli_mcp.Text.Trim.{trim_space-join}
use gongcli_mcp.Text.Unicode.{Unicode}
use gongcli_mcp.Governance.Name.{name_fields, normalize_name}
use gongcli_mcp.Governance.Name.Words.{
  name_fields-IsWord, IsWord-IsSolid, normalize_name_idempotent,
}
use gongcli_mcp.Governance.Config.{
  Entry, Config, Target, list_no_ai, list_notification_required, customers, target_of,
  alias_targets, list_targets, target_less, targets,
}

module _ (u : Unicode) where
  trim_space-normalize_name : (s : String) → trim_space (normalize_name u s) ≡ normalize_name u s
  unfolding normalize_name
  trim_space-normalize_name s =
      trim_space-join " " _ (IsWord-IsSolid u (name_fields u s) (name_fields-IsWord u s))

  -- A text that is already normalised, and not empty.
  abbrev pub IsNormal : String → Type 0
  IsNormal n = (is_nil (trim_space n) ≡ false) × (normalize_name u n ≡ n)

  abbrev pub TargetIsNormal : Target → Type 0
  TargetIsNormal t = IsNormal t.normalized

  normalize_name-IsNormal :
      (s : String) → is_nil (normalize_name u s) ≡ false → IsNormal (normalize_name u s)
  normalize_name-IsNormal s h = (rw (trim_space-normalize_name s) h, normalize_name_idempotent u s)

  target_of-IsNormal :
      (list name alias text : String) → All TargetIsNormal (target_of u list name alias text)
  unfolding target_of
  target_of-IsNormal list name alias text = elim (Bool-cases (is_nil (normalize_name u text))) [
    | inl blank ↦ rw blank tt
    | inr full ↦ rw full (normalize_name-IsNormal text full, tt)
  ]

  alias_targets-IsNormal :
      (list name : String) (aliases : List String)
      → All TargetIsNormal (alias_targets u list name aliases)
  unfolding alias_targets
  alias_targets-IsNormal list name [] = tt
  alias_targets-IsNormal list name (a ∷ aliases) =
      All-append TargetIsNormal _ _ (target_of-IsNormal list name a a)
        (alias_targets-IsNormal list name aliases)

  list_targets-IsNormal :
      (list : String) (es : List Entry) → All TargetIsNormal (list_targets u list es)
  unfolding list_targets
  list_targets-IsNormal list [] = tt
  list_targets-IsNormal list (e ∷ es) =
      All-append TargetIsNormal _ _ (target_of-IsNormal list e.name "" e.name) (
        All-append TargetIsNormal _ _ (alias_targets-IsNormal list e.name e.aliases)
          (list_targets-IsNormal list es))

  pub targets-IsNormal : (cfg : Option Config) → All TargetIsNormal (targets u cfg)
  unfolding targets
  targets-IsNormal none = tt
  targets-IsNormal (some cfg) =
      let one = list_targets u list_no_ai (customers cfg list_no_ai) in
      let two =
        list_targets u list_notification_required (customers cfg list_notification_required) in
      All-sort_stable TargetIsNormal target_less (one ++ two)
        (All-append TargetIsNormal one two (list_targets-IsNormal _ _) (list_targets-IsNormal _ _))
