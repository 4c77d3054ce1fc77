-- ===== src/Governance/Config/Restricted.antt =====
-- Which values the lists restrict.
use gongcli_mcp.Prelude.{
  String, ◌≡◌, refl, sym, ap₂, ◌∙◌, if◌then◌else◌, Bool, false, ◌||◌, Option, none, some, List, [],
  ◌∷◌, ◌++◌, arith, any,
}
use gongcli_mcp.Prelude.Loops.{any-append}
use gongcli_mcp.Prelude.Sets.{any-sort_stable}
use gongcli_mcp.Text.{is_nil}
use gongcli_mcp.Text.Unicode.{Unicode}
use gongcli_mcp.Governance.Name.{normalize_name}
use gongcli_mcp.Governance.Config.{
  Entry, Config, Target, list_no_ai, list_notification_required, customers, target_of,
  alias_targets, list_targets, target_less, targets,
}

-- A test on texts that passes for the name or an alias of an entry, for an entry, for a config.
abbrev pub entry_any : (String → Bool) → Entry → Bool
entry_any q e = q e.name || any q e.aliases

abbrev pub config_any : (String → Bool) → Option Config → Bool
config_any q none = false
config_any q (some cfg) =
    any (entry_any q) (customers cfg list_no_ai)
    || any (entry_any q) (customers cfg list_notification_required)

module _ (u : Unicode) (q : String → Bool) (blank : q "" ≡ false) where
  abbrev on_target : Target → Bool
  on_target t = q t.normalized

  abbrev on_text : String → Bool
  on_text text = q (normalize_name u text)

  any-gate :
      (list name alias n : String)
      → any on_target (
          if is_nil n
          then []
          else record { list = list; name = name; alias = alias; normalized = n } ∷ [])
        ≡ q n
  any-gate list name alias String.[] = sym blank
  any-gate list name alias (String.◌∷◌ c n) = ground arith

  any-target_of :
      (list name alias text : String)
      → any on_target (target_of u list name alias text) ≡ on_text text
  unfolding target_of
  any-target_of list name alias text = any-gate list name alias (normalize_name u text)

  any-alias_targets :
      (list name : String) (aliases : List String)
      → any on_target (alias_targets u list name aliases) ≡ any on_text aliases
  unfolding alias_targets
  any-alias_targets list name [] = refl
  any-alias_targets list name (a ∷ more) = ground (
    arith,
    any-append on_target (target_of u list name a a) (alias_targets u list name more),
    any-target_of list name a a,
    any-alias_targets list name more,
  )

  any-list_targets :
      (list : String) (es : List Entry)
      → any on_target (list_targets u list es) ≡ any (entry_any on_text) es
  unfolding list_targets
  any-list_targets list [] = refl
  any-list_targets list (e ∷ es) = ground (
    arith,
    any-append on_target (target_of u list e.name "" e.name)
        (alias_targets u list e.name e.aliases ++ list_targets u list es),
    any-append on_target (alias_targets u list e.name e.aliases) (list_targets u list es),
    any-target_of list e.name "" e.name,
    any-alias_targets list e.name e.aliases,
    any-list_targets list es,
  )

  -- A test that fails on the empty text passes for a target exactly when it passes for the
  -- normalised name or alias of an entry of one of the two lists.
  pub any-targets : (cfg : Option Config) → any on_target (targets u cfg) ≡ config_any on_text cfg
  unfolding targets
  any-targets none = refl
  any-targets (some cfg) =
      let one = list_targets u list_no_ai (customers cfg list_no_ai) in
      let two =
        list_targets u list_notification_required (customers cfg list_notification_required) in
      any-sort_stable on_target target_less (one ++ two)
      ∙ any-append on_target one two
      ∙ ap₂ ◌||◌ (any-list_targets _ _) (any-list_targets _ _)
