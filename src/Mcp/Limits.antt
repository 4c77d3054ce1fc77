-- ===== src/Mcp/Limits.antt =====
-- internal/mcp/limits.go: how many rows a tool may ask the store for. strconv.Atoi is a parameter.
pub mod Bounds
mod Tests
use Prim.Native.Nat.{min}
use gongcli_mcp.Prelude.{
  ℕ, String, ◌==◌, Bool, true, false, Option, none, some, List, [], ◌∷◌, nat_eq, if◌then◌else◌,
}
use gongcli_mcp.Prelude.Int.{ℤ, pos, negsuc, is_nonpos}
use gongcli_mcp.Text.{is_nil, trim_space}

pub record LimitPolicy : Type 0 where
  pub search_results : ℤ
  pub crm_fields : ℤ
  pub late_stage_signals : ℤ
  pub missing_transcripts : ℤ
  pub opportunity_summaries : ℤ
  pub crm_matrix_cells : ℤ
  pub lifecycle_results : ℤ
  pub lifecycle_crm_fields : ℤ
  pub call_fact_groups : ℤ
  pub inventory_results : ℤ
  pub business_analysis_rows : ℤ

abbrev pub default_limit_policy : LimitPolicy
default_limit_policy = record {
  search_results = pos 100;
  crm_fields = pos 200;
  late_stage_signals = pos 100;
  missing_transcripts = pos 500;
  opportunity_summaries = pos 100;
  crm_matrix_cells = pos 200;
  lifecycle_results = pos 100;
  lifecycle_crm_fields = pos 200;
  call_fact_groups = pos 200;
  inventory_results = pos 200;
  business_analysis_rows = pos 100;
}

-- normalizeLimit, with a default and a maximum that are positive.
unfoldable pub normalize_limit : ℤ → ℕ → ℕ → ℤ
normalize_limit (pos n) fallback max = if nat_eq n 0 then pos fallback else pos (min n max)
normalize_limit (negsuc n) fallback max = pos fallback

-- capLimit, as the number of rows that it gives.
cap_limit : ℤ → ℕ → ℤ → ℕ
cap_limit value fallback (negsuc max) = 0
cap_limit (pos n) fallback (pos max) = if nat_eq n 0 then min fallback max else min n max
cap_limit (negsuc n) fallback (pos max) = min fallback max

-- LimitPolicy.Normalize
unfoldable pub normalize : LimitPolicy → LimitPolicy
unfolding normalize_limit
normalize p = record {
  search_results = normalize_limit p.search_results 100 1000;
  crm_fields = normalize_limit p.crm_fields 200 1000;
  late_stage_signals = normalize_limit p.late_stage_signals 100 500;
  missing_transcripts = normalize_limit p.missing_transcripts 500 10000;
  opportunity_summaries = normalize_limit p.opportunity_summaries 100 1000;
  crm_matrix_cells = normalize_limit p.crm_matrix_cells 200 1000;
  lifecycle_results = normalize_limit p.lifecycle_results 100 1000;
  lifecycle_crm_fields = normalize_limit p.lifecycle_crm_fields 200 1000;
  call_fact_groups = normalize_limit p.call_fact_groups 200 1000;
  inventory_results = normalize_limit p.inventory_results 200 1000;
  business_analysis_rows = normalize_limit p.business_analysis_rows 100 1000;
}

-- The built-in min against a positive maximum.
min_limit : ℤ → ℕ → ℤ
min_limit (pos n) max = pos (min n max)
min_limit (negsuc n) max = negsuc n

-- The switch of WithOverride.
set_limit : LimitPolicy → String → ℤ → Option LimitPolicy
set_limit p field value =
    if field == "search_results"
    then some (record p { search_results = min_limit value 1000 })
    else if field == "crm_fields"
    then some (record p { crm_fields = min_limit value 1000 })
    else if field == "late_stage_signals"
    then some (record p { late_stage_signals = min_limit value 500 })
    else if field == "missing_transcripts"
    then some (record p { missing_transcripts = min_limit value 10000 })
    else if field == "opportunity_summaries"
    then some (record p { opportunity_summaries = min_limit value 1000 })
    else if field == "crm_matrix_cells"
    then some (record p { crm_matrix_cells = min_limit value 1000 })
    else if field == "lifecycle_results"
    then some (record p { lifecycle_results = min_limit value 1000 })
    else if field == "lifecycle_crm_fields"
    then some (record p { lifecycle_crm_fields = min_limit value 1000 })
    else if field == "call_fact_groups"
    then some (record p { call_fact_groups = min_limit value 1000 })
    else if field == "inventory_results"
    then some (record p { inventory_results = min_limit value 1000 })
    else if field == "business_analysis_rows"
    then some (record p { business_analysis_rows = min_limit value 1000 })
    else none

normalized : Option LimitPolicy → Option LimitPolicy
normalized none = none
normalized (some p) = some (normalize p)

-- WithOverride; `none` is an error.
pub with_override : LimitPolicy → String → ℤ → Option LimitPolicy
with_override p field value = if is_nonpos value then none else normalized (set_limit p field value)

abbrev limit_env_specs : List (String × String)
limit_env_specs =
    ("GONGMCP_MAX_SEARCH_RESULTS", "search_results")
    ∷ ("GONGMCP_MAX_CRM_FIELDS", "crm_fields")
    ∷ ("GONGMCP_MAX_LATE_STAGE_SIGNALS", "late_stage_signals")
    ∷ ("GONGMCP_MAX_MISSING_TRANSCRIPTS", "missing_transcripts")
    ∷ ("GONGMCP_MAX_OPPORTUNITY_SUMMARIES", "opportunity_summaries")
    ∷ ("GONGMCP_MAX_CRM_MATRIX_CELLS", "crm_matrix_cells")
    ∷ ("GONGMCP_MAX_LIFECYCLE_RESULTS", "lifecycle_results")
    ∷ ("GONGMCP_MAX_LIFECYCLE_CRM_FIELDS", "lifecycle_crm_fields")
    ∷ ("GONGMCP_MAX_CALL_FACT_GROUPS", "call_fact_groups")
    ∷ ("GONGMCP_MAX_INVENTORY_RESULTS", "inventory_results")
    ∷ ("GONGMCP_MAX_BUSINESS_ANALYSIS_RESULTS", "business_analysis_rows")
    ∷ []

-- The value of a variable that is set; `none` is an error.
override_from : (String → Option ℤ) → String → String → LimitPolicy → Option LimitPolicy
override_from atoi raw field p =
    if is_nil raw
    then some p
    else (elim (atoi raw) [ none ↦ none | some value ↦ with_override p field value ])

-- The loop of LimitPolicyFromEnv over the variables that are left.
override_all :
    (String → Option ℤ)
    → (String → String)
    → List (String × String)
    → LimitPolicy
    → Option LimitPolicy
override_all atoi getenv [] p = some p
override_all atoi getenv ((env, field) ∷ specs) p =
    elim (override_from atoi (trim_space (getenv env)) field p) [
      | none ↦ none
      | some q ↦ override_all atoi getenv specs q
    ]

pub limit_policy_from_env : (String → Option ℤ) → (String → String) → Option LimitPolicy
limit_policy_from_env atoi getenv =
    normalized (override_all atoi getenv limit_env_specs default_limit_policy)

unfoldable pub search_limit : LimitPolicy → ℤ → ℕ
unfolding cap_limit
search_limit p value = cap_limit value 20 (normalize p).search_results

unfoldable pub missing_transcript_limit : LimitPolicy → ℤ → ℕ
unfolding cap_limit
missing_transcript_limit p value = cap_limit value 100 (normalize p).missing_transcripts

unfoldable pub lifecycle_limit : LimitPolicy → ℤ → ℕ
unfolding cap_limit
lifecycle_limit p value = cap_limit value 25 (normalize p).lifecycle_results

unfoldable pub business_analysis_limit : LimitPolicy → ℤ → ℕ
unfolding cap_limit
business_analysis_limit p value = cap_limit value 25 (normalize p).business_analysis_rows
