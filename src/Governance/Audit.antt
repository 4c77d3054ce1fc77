-- ===== src/Governance/Audit.antt =====
-- AuditCandidates of internal/governance/config.go: which calls the lists suppress.
pub mod Suppressed
use gongcli_mcp.Prelude.{
  ℕ, ◌+◌, String, ◌==◌, Bool, Option, none, some, List, [], ◌∷◌, ◌++◌, map, length, is_empty,
  if◌then◌else◌,
}
use gongcli_mcp.Prelude.Assoc.{lookup, put}
use gongcli_mcp.Prelude.Sets.{add, sort_strings}
use gongcli_mcp.Text.{cat, is_nil, trim_space}
use gongcli_mcp.Text.Unicode.{Unicode}
use gongcli_mcp.Governance.Name.{normalize_name}
use gongcli_mcp.Governance.Match.{normalized_contains_target}
use gongcli_mcp.Governance.Config.{Config, Target, targets}

pub record Candidate : Type 0 where
  pub call_id : String
  pub source : String
  pub value : String

pub record Match : Type 0 where
  pub list : String
  pub name : String
  pub alias : String
  pub normalized : String
  pub call_count : ℕ

pub record Audit : Type 0 where
  pub config_entries : ℕ
  pub config_aliases : ℕ
  pub candidate_values : ℕ
  pub matched_entries : List Match
  pub unmatched_entries : List Target
  pub suppressed_call_ids : List String
  pub suppressed_call_count : ℕ

-- The maps `callsByTarget` and `suppressed`.
pub record Hits : Type 0 where
  pub calls_by_target : List (String × List String)
  pub suppressed : List String

abbrev no_hits : Hits
no_hits = record { calls_by_target = []; suppressed = [] }

unfoldable pub target_key : Target → String
target_key t = cat t.list (cat "\0" (cat t.name (cat "\0" (cat t.alias (cat "\0" t.normalized)))))

-- callsByTarget[key], nil where it is missing
calls_of : Target → List (String × List String) → List String
calls_of t calls = elim (lookup (target_key t) calls) [ none ↦ [] | some ids ↦ ids ]

-- One round of the inner loop, for a candidate with the normalised value.
hit_target : String → String → Target → Hits → Hits
hit_target call_id normalized t hits =
    if normalized_contains_target normalized t.normalized
    then record {
      calls_by_target =
          put (target_key t) (add call_id (calls_of t hits.calls_by_target)) hits.calls_by_target;
      suppressed = add call_id hits.suppressed;
    }
    else hits

hit_targets : String → String → List Target → Hits → Hits
hit_targets call_id normalized [] hits = hits
hit_targets call_id normalized (t ∷ ts) hits =
    hit_targets call_id normalized ts (hit_target call_id normalized t hits)

-- One round of the outer loop.
hit_candidate : Unicode → List Target → Candidate → Hits → Hits
hit_candidate u ts c hits =
    let normalized = normalize_name u c.value in
    if is_nil normalized then hits else hit_targets c.call_id normalized ts hits

hit_candidates : Unicode → List Target → List Candidate → Hits → Hits
hit_candidates u ts [] hits = hits
hit_candidates u ts (c ∷ cs) hits = hit_candidates u ts cs (hit_candidate u ts c hits)

-- The keys of the map `entries`.
entry_keys : List Target → List String → List String
entry_keys [] keys = keys
entry_keys (t ∷ ts) keys = entry_keys ts (add (cat t.list (cat "\0" t.name)) keys)

count_aliases : List Target → ℕ
count_aliases [] = 0
count_aliases (t ∷ ts) =
    let rest = count_aliases ts in if is_nil (trim_space t.alias) then rest else rest + 1

matched : List (String × List String) → List Target → List Match
matched calls [] = []
matched calls (t ∷ ts) =
    let rest = matched calls ts in
    let ids = calls_of t calls in
    if is_empty ids
    then rest
    else record {
      list = t.list;
      name = t.name;
      alias = t.alias;
      normalized = t.normalized;
      call_count = length ids;
    }
      ∷ rest

unmatched : List (String × List String) → List Target → List Target
unmatched calls [] = []
unmatched calls (t ∷ ts) =
    let rest = unmatched calls ts in if is_empty (calls_of t calls) then t ∷ rest else rest

unfoldable pub audit_candidates : Unicode → List Candidate → Option Config → Audit
unfolding hit_candidates hit_candidate hit_targets hit_target calls_of target_key lookup put
    entry_keys count_aliases matched unmatched add sort_strings targets normalize_name
    normalized_contains_target
audit_candidates u candidates cfg =
    let ts = targets u cfg in
    let hits = hit_candidates u ts candidates no_hits in
    let ids = sort_strings hits.suppressed in
    record {
      config_entries = length (entry_keys ts []);
      config_aliases = count_aliases ts;
      candidate_values = length candidates;
      matched_entries = matched hits.calls_by_target ts;
      unmatched_entries = unmatched hits.calls_by_target ts;
      suppressed_call_ids = ids;
      suppressed_call_count = length ids;
    }
