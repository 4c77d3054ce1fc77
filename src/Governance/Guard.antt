-- ===== src/Governance/Guard.antt =====
-- internal/governance/blocklist.go: the guard over restricted names. A nil guard is `none`.
pub mod Agreement
use gongcli_mcp.Prelude.{
  ℕ, String, Bool, true, false, Option, none, some, List, [], ◌∷◌, any, length, is_empty,
  if◌then◌else◌,
}
use gongcli_mcp.Prelude.Sets.{add}
use gongcli_mcp.Text.{is_nil, trim_space}
use gongcli_mcp.Text.Unicode.{Unicode}
use gongcli_mcp.Governance.Name.{normalize_name}
use gongcli_mcp.Governance.Match.{normalized_contains_target}
use gongcli_mcp.Governance.Config.{Config, Target, targets}

pub record BlocklistGuard : Type 0 where
  pub terms : List String

-- The loop of NewBlocklistGuard. `seen` holds the same texts as `terms` and is not kept apart.
add_terms : Unicode → List String → List String → List String
add_terms u [] terms = terms
add_terms u (raw ∷ raws) terms =
    let normalized = normalize_name u raw in
    add_terms u raws (if is_nil normalized then terms else add normalized terms)

unfoldable pub new_blocklist_guard : Unicode → List String → BlocklistGuard
unfolding add_terms add
new_blocklist_guard u raws = record { terms = add_terms u raws [] }

-- The terms that NewBlocklistGuardFromConfig collects.
raw_terms : List Target → List String
raw_terms [] = []
raw_terms (t ∷ ts) =
    let rest = raw_terms ts in
    if is_nil (trim_space t.normalized)
    then (if is_nil (trim_space t.name) then rest else trim_space t.name ∷ rest)
    else t.normalized ∷ rest

-- A nil config has no targets, and the guard then has no terms.
unfoldable pub new_blocklist_guard_from_config : Unicode → Option Config → BlocklistGuard
unfolding raw_terms new_blocklist_guard targets
new_blocklist_guard_from_config u none = record { terms = [] }
new_blocklist_guard_from_config u (some cfg) =
    new_blocklist_guard u (raw_terms (targets u (some cfg)))

unfoldable pub empty : Option BlocklistGuard → Bool
empty none = true
empty (some g) = is_empty g.terms

unfoldable pub term_count : Option BlocklistGuard → ℕ
term_count none = 0
term_count (some g) = length g.terms

-- The test of MatchValue on the normalised value.
match_normalized : List String → String → Bool
match_normalized terms normalized =
    if is_nil normalized then false else any (normalized_contains_target normalized) terms

unfoldable pub match_value : Unicode → Option BlocklistGuard → String → Bool
unfolding match_normalized normalized_contains_target
match_value u none value = false
match_value u (some g) value =
    if is_empty g.terms then false else match_normalized g.terms (normalize_name u value)

unfoldable pub match_any : Unicode → Option BlocklistGuard → List String → Bool
unfolding match_value
match_any u g values = any (match_value u g) values
