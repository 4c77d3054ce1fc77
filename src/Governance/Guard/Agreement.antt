-- ===== src/Governance/Guard/Agreement.antt =====
-- The guard built from a config and the audit of that config restrict the same values.
use gongcli_mcp.Prelude.{
  String, ◌≡◌, refl, ◌∙◌, ◌↔◌, Bool, true, false, ◌||◌, Option, none, some, List, [], ◌∷◌, arith,
  any, All, is_empty, if◌then◌else◌, sym,
}
use gongcli_mcp.Prelude.Loops.{any-false}
use gongcli_mcp.Prelude.Sets.{add, any-add}
use gongcli_mcp.Text.{is_nil}
use gongcli_mcp.Text.Unicode.{Unicode}
use gongcli_mcp.Governance.Name.{normalize_name}
use gongcli_mcp.Governance.Match.{normalized_contains_target}
use gongcli_mcp.Governance.Match.Runs.{contains_target_blank, blank_contains_target}
use gongcli_mcp.Governance.Config.{Config, Target, targets}
use gongcli_mcp.Governance.Config.Normal.{TargetIsNormal, targets-IsNormal}
use gongcli_mcp.Governance.Config.Restricted.{any-targets, config_any}
use gongcli_mcp.Governance.Audit.Suppressed.{
  Mentions, ConfigNames, restricted, restricted-ConfigNames,
}
use gongcli_mcp.Governance.Guard.{
  add_terms, new_blocklist_guard, raw_terms, new_blocklist_guard_from_config, match_normalized,
  match_value,
}

module _ (u : Unicode) (q : String → Bool) (blank : q "" ≡ false) where
  any-add_normalized :
      (n : String) (terms : List String)
      → any q (if is_nil n then terms else add n terms) ≡ (any q terms || q n)
  any-add_normalized String.[] terms = ground arith
  any-add_normalized (String.◌∷◌ c n) terms = any-add q (String.◌∷◌ c n) terms

  any-add_terms :
      (raws terms : List String)
      → any q (add_terms u raws terms) ≡ (any q terms || any (λ raw. q (normalize_name u raw)) raws)
  unfolding add_terms
  any-add_terms [] terms = ground arith
  any-add_terms (raw ∷ raws) terms =
      any-add_terms raws _ ∙ ground (arith, any-add_normalized (normalize_name u raw) terms)

  any-raw_terms :
      (ts : List Target)
      → All (TargetIsNormal u) ts
      → any (λ raw. q (normalize_name u raw)) (raw_terms ts) ≡ any (λ t. q t.normalized) ts
  unfolding raw_terms
  any-raw_terms [] h = refl
  any-raw_terms (t ∷ ts) ((full, normal), h) = rw full (cc (normal, any-raw_terms ts h))

  -- A test passes for a term of the guard exactly when it passes for a name of the config.
  any-guard_terms :
      (cfg : Option Config)
      → any q (new_blocklist_guard_from_config u cfg).terms
        ≡ config_any (λ text. q (normalize_name u text)) cfg
  unfolding new_blocklist_guard_from_config new_blocklist_guard
  any-guard_terms none = refl
  any-guard_terms (some cfg) =
      any-add_terms (raw_terms (targets u (some cfg))) []
      ∙ any-raw_terms (targets u (some cfg)) (targets-IsNormal u (some cfg))
      ∙ any-targets u q blank (some cfg)

match_normalized_lem :
    (terms : List String) (n : String)
    → (if is_empty terms then false else match_normalized terms n)
      ≡ any (normalized_contains_target n) terms
unfolding match_normalized
match_normalized_lem [] n = refl
match_normalized_lem (t ∷ ts) String.[] =
    sym (any-false (normalized_contains_target "") (t ∷ ts) blank_contains_target)
match_normalized_lem (t ∷ ts) (String.◌∷◌ c n) = refl

match_value-restricted :
    (u : Unicode) (cfg : Option Config) (value : String)
    → match_value u (some (new_blocklist_guard_from_config u cfg)) value ≡ restricted u cfg value
unfolding match_value
match_value-restricted u cfg value =
    let n = normalize_name u value in
    match_normalized_lem (new_blocklist_guard_from_config u cfg).terms n
    ∙ any-guard_terms u (normalized_contains_target n) (contains_target_blank n) cfg

-- The guard built from a config matches a value exactly when the value mentions the name or an
-- alias of a listed customer.
pub match_value_iff :
    (u : Unicode) (cfg : Option Config) (value : String)
    → (match_value u (some (new_blocklist_guard_from_config u cfg)) value ≡ true)
      ↔ ConfigNames (Mentions u value) cfg
match_value_iff u cfg value = rw match_value-restricted (restricted-ConfigNames u cfg value)
