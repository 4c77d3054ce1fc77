-- ===== src/Governance/Audit/Suppressed.antt =====
-- The suppressed calls are those with a value that mentions a listed name.
use gongcli_mcp.Prelude.{
  refl, length, String, ◌≡◌, ◌≢◌, sym, ap, ◌∙◌, ◌↔◌, ◌⊎◌, Bool, true, ◌&&◌, ◌||◌, ◌==◌, eq_iff,
  Option, none, some, List, [], ◌∷◌, arith, any, Any, if◌then◌else◌,
}
use gongcli_mcp.Prelude.Loops.{any-false, any-Any}
use gongcli_mcp.Prelude.Sets.{any-add, any-sort_strings}
use gongcli_mcp.Text.{is_nil}
use gongcli_mcp.Text.Unicode.{Unicode}
use gongcli_mcp.Governance.Name.{name_fields, normalize_name}
use gongcli_mcp.Governance.Match.{normalized_contains_target}
use gongcli_mcp.Governance.Match.Runs.{
  HasRun, normalized_contains_target-HasRun, contains_target_blank, blank_contains_target,
}
use gongcli_mcp.Governance.Config.{
  Entry, Config, Target, list_no_ai, list_notification_required, customers, targets,
}
use gongcli_mcp.Governance.Config.Restricted.{entry_any, config_any, any-targets}
use gongcli_mcp.Governance.Audit.{
  Candidate, Hits, no_hits, hit_target, hit_targets, hit_candidate, hit_candidates,
  audit_candidates,
}

-- The text has a word, and its words stand in the value as neighbours.
abbrev pub Mentions : Unicode → String → String → Type 0
Mentions u value text =
    (name_fields u text ≢ []) × HasRun (name_fields u text) (name_fields u value)

-- The name or an alias of an entry of one of the two lists has the property.
abbrev pub EntryNames : (String → Type 0) → Entry → Type 0
EntryNames P e = P e.name ⊎ Any P e.aliases

abbrev pub ConfigNames : (String → Type 0) → Option Config → Type 0
ConfigNames P none = ⊥
ConfigNames P (some cfg) =
    Any (EntryNames P) (customers cfg list_no_ai)
    ⊎ Any (EntryNames P) (customers cfg list_notification_required)

abbrev pub mentions : Unicode → String → String → Bool
mentions u value text = normalized_contains_target (normalize_name u value) (normalize_name u text)

abbrev pub restricted : Unicode → Option Config → String → Bool
restricted u cfg value = config_any (mentions u value) cfg

module _ (q : String → Bool) (P : String → Type 0) (same : (s : String) → (q s ≡ true) ↔ P s) where
  entry_any-EntryNames : (e : Entry) → (entry_any q e ≡ true) ↔ EntryNames P e
  entry_any-EntryNames e = ground (arith, same e.name, any-Any q P same e.aliases)

  any-EntryNames : (es : List Entry) → (any (entry_any q) es ≡ true) ↔ Any (EntryNames P) es
  any-EntryNames es = any-Any (entry_any q) (EntryNames P) entry_any-EntryNames es

  pub config_any-ConfigNames : (cfg : Option Config) → (config_any q cfg ≡ true) ↔ ConfigNames P cfg
  config_any-ConfigNames none = (λ e. cc, λ h. absurd h)
  config_any-ConfigNames (some cfg) = ground (
    arith,
    any-EntryNames (customers cfg list_no_ai),
    any-EntryNames (customers cfg list_notification_required),
  )

module _ (p : String → Bool) where
  any-hit_target :
      (id n : String) (t : Target) (hits : Hits)
      → any p (hit_target id n t hits).suppressed
        ≡ (any p hits.suppressed || (normalized_contains_target n t.normalized && p id))
  unfolding hit_target
  any-hit_target id n t hits = ground (arith, any-add p id hits.suppressed)

  any-hit_targets :
      (id n : String) (ts : List Target) (hits : Hits)
      → any p (hit_targets id n ts hits).suppressed ≡ (
          any p hits.suppressed
          || (any (λ t. normalized_contains_target n t.normalized) ts && p id))
  unfolding hit_targets
  any-hit_targets id n [] hits = ground arith
  any-hit_targets id n (t ∷ ts) hits =
      any-hit_targets id n ts (hit_target id n t hits) ∙ ground (arith, any-hit_target id n t hits)

  any-hit_value :
      (u : Unicode) (cfg : Option Config) (id n : String) (hits : Hits)
      → any p (if is_nil n then hits else hit_targets id n (targets u cfg) hits).suppressed ≡ (
          any p hits.suppressed
          || (config_any (λ text. normalized_contains_target n (normalize_name u text)) cfg
              && p id))
  any-hit_value u cfg id String.[] hits = ground (
    arith,
    any-targets u (normalized_contains_target "") (contains_target_blank "") cfg,
    any-false (λ (t : Target). normalized_contains_target "" t.normalized) (targets u cfg)
        (λ t. blank_contains_target t.normalized),
  )
  any-hit_value u cfg id (String.◌∷◌ c n) hits =
      any-hit_targets id (String.◌∷◌ c n) (targets u cfg) hits
      ∙ ap (λ b. any p hits.suppressed || (b && p id))
          (any-targets u (normalized_contains_target (String.◌∷◌ c n)) (contains_target_blank _)
            cfg)

  any-hit_candidate :
      (u : Unicode) (cfg : Option Config) (c : Candidate) (hits : Hits)
      → any p (hit_candidate u (targets u cfg) c hits).suppressed
        ≡ (any p hits.suppressed || (restricted u cfg c.value && p c.call_id))
  unfolding hit_candidate
  any-hit_candidate u cfg c hits = any-hit_value u cfg c.call_id (normalize_name u c.value) hits

  any-hit_candidates :
      (u : Unicode) (cfg : Option Config) (cs : List Candidate) (hits : Hits)
      → any p (hit_candidates u (targets u cfg) cs hits).suppressed
        ≡ (any p hits.suppressed || any (λ c. restricted u cfg c.value && p c.call_id) cs)
  unfolding hit_candidates
  any-hit_candidates u cfg [] hits = ground arith
  any-hit_candidates u cfg (c ∷ cs) hits =
      any-hit_candidates u cfg cs (hit_candidate u (targets u cfg) c hits)
      ∙ ground (arith, any-hit_candidate u cfg c hits)

  pub any-suppressed_call_ids :
      (u : Unicode) (cfg : Option Config) (cs : List Candidate)
      → any p (audit_candidates u cs cfg).suppressed_call_ids
        ≡ any (λ c. restricted u cfg c.value && p c.call_id) cs
  unfolding audit_candidates
  any-suppressed_call_ids u cfg cs =
      any-sort_strings p (hit_candidates u (targets u cfg) cs no_hits).suppressed
      ∙ any-hit_candidates u cfg cs no_hits

pub suppressed_call_count-eq-length :
    (u : Unicode) (cfg : Option Config) (cs : List Candidate)
    → (audit_candidates u cs cfg).suppressed_call_count
      ≡ length (audit_candidates u cs cfg).suppressed_call_ids
unfolding audit_candidates
suppressed_call_count-eq-length u cfg cs = refl

both_iff :
    (id : String) (a : Bool) (P : Type 0) (s : String)
    → (a ≡ true) ↔ P
    → ((a && s == id) ≡ true) ↔ ((s ≡ id) × P)
both_iff id a P s h = ground (arith, eq_iff s id)

module _ (u : Unicode) (cfg : Option Config) where
  mentions-Mentions : (value text : String) → (mentions u value text ≡ true) ↔ Mentions u value text
  mentions-Mentions value text = normalized_contains_target-HasRun u value text

  -- A value is restricted exactly when a listed name or alias is mentioned in it.
  pub restricted-ConfigNames :
      (value : String) → (restricted u cfg value ≡ true) ↔ ConfigNames (Mentions u value) cfg
  restricted-ConfigNames value =
      config_any-ConfigNames (mentions u value) (Mentions u value) (mentions-Mentions value) cfg

  candidate_iff :
      (id : String) (c : Candidate)
      → ((restricted u cfg c.value && c.call_id == id) ≡ true)
        ↔ ((c.call_id ≡ id) × ConfigNames (Mentions u c.value) cfg)
  candidate_iff id c = both_iff id _ _ c.call_id (restricted-ConfigNames c.value)

-- A call is suppressed exactly when one of its values mentions the name or an alias of a listed
-- customer.
pub audit_suppressed_iff :
    (u : Unicode) (cfg : Option Config) (cs : List Candidate) (id : String)
    → Any (λ s. s ≡ id) (audit_candidates u cs cfg).suppressed_call_ids
      ↔ Any (λ c. (c.call_id ≡ id) × ConfigNames (Mentions u c.value) cfg) cs
audit_suppressed_iff u cfg cs id =
    let (to, from) =
      any-Any (λ c. restricted u cfg c.value && c.call_id == id)
        (λ c. (c.call_id ≡ id) × ConfigNames (Mentions u c.value) cfg) (candidate_iff u cfg id)
        cs in
    let (found, listed) =
      any-Any (λ s. s == id) (λ s. s ≡ id) (λ s. eq_iff s id)
        (audit_candidates u cs cfg).suppressed_call_ids in
    let same = any-suppressed_call_ids (λ s. s == id) u cfg cs in
    (λ h. to (sym same ∙ listed h), λ h. found (same ∙ from h))
