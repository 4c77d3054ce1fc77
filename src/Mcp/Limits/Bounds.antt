-- ===== src/Mcp/Limits/Bounds.antt =====
-- The ranges of the limits.
use gongcli_mcp.Prelude.{
  ℕ, ◌≤◌, ◌<◌, String, ◌≡◌, subst, Option, none, some, arith, Option-cases, inl, inr,
}
use gongcli_mcp.Prelude.Int.{ℤ, pos, negsuc}
use gongcli_mcp.Mcp.Limits.{
  LimitPolicy, default_limit_policy, normalize_limit, normalize, cap_limit, normalized,
  override_all, limit_env_specs, limit_policy_from_env, search_limit, missing_transcript_limit,
  lifecycle_limit, business_analysis_limit,
}

-- A positive number, at most `max`.
abbrev pub InRange : ℤ → ℕ → Type 0
InRange (pos n) max = (0 < n) × (n ≤ max)
InRange (negsuc n) max = ⊥

pub record IsBounded (p : LimitPolicy) : Type 0 where
  pub search_results : InRange p.search_results 1000
  pub crm_fields : InRange p.crm_fields 1000
  pub late_stage_signals : InRange p.late_stage_signals 500
  pub missing_transcripts : InRange p.missing_transcripts 10000
  pub opportunity_summaries : InRange p.opportunity_summaries 1000
  pub crm_matrix_cells : InRange p.crm_matrix_cells 1000
  pub lifecycle_results : InRange p.lifecycle_results 1000
  pub lifecycle_crm_fields : InRange p.lifecycle_crm_fields 1000
  pub call_fact_groups : InRange p.call_fact_groups 1000
  pub inventory_results : InRange p.inventory_results 1000
  pub business_analysis_rows : InRange p.business_analysis_rows 1000

normalize_limit-InRange :
    (value : ℤ) (fallback max : ℕ)
    → 0 < fallback
    → fallback ≤ max
    → InRange (normalize_limit value fallback max) max
unfolding normalize_limit
normalize_limit-InRange (pos n) fallback max h k = ground arith
normalize_limit-InRange (negsuc n) fallback max h k = (h, k)

normalize_limit_of_InRange :
    (value : ℤ) (fallback max : ℕ) → InRange value max → normalize_limit value fallback max ≡ value
unfolding normalize_limit
normalize_limit_of_InRange (pos n) fallback max h = ground arith
normalize_limit_of_InRange (negsuc n) fallback max h = absurd h

-- Whatever a policy says, the normalised one is positive and within the hard limits.
pub normalize-IsBounded : (p : LimitPolicy) → IsBounded (normalize p)
unfolding normalize
normalize-IsBounded p = record {
  search_results = normalize_limit-InRange p.search_results 100 1000 (omega arith) (omega arith);
  crm_fields = normalize_limit-InRange p.crm_fields 200 1000 (omega arith) (omega arith);
  late_stage_signals =
      normalize_limit-InRange p.late_stage_signals 100 500 (omega arith) (omega arith);
  missing_transcripts =
      normalize_limit-InRange p.missing_transcripts 500 10000 (omega arith) (omega arith);
  opportunity_summaries =
      normalize_limit-InRange p.opportunity_summaries 100 1000 (omega arith) (omega arith);
  crm_matrix_cells =
      normalize_limit-InRange p.crm_matrix_cells 200 1000 (omega arith) (omega arith);
  lifecycle_results =
      normalize_limit-InRange p.lifecycle_results 100 1000 (omega arith) (omega arith);
  lifecycle_crm_fields =
      normalize_limit-InRange p.lifecycle_crm_fields 200 1000 (omega arith) (omega arith);
  call_fact_groups =
      normalize_limit-InRange p.call_fact_groups 200 1000 (omega arith) (omega arith);
  inventory_results =
      normalize_limit-InRange p.inventory_results 200 1000 (omega arith) (omega arith);
  business_analysis_rows =
      normalize_limit-InRange p.business_analysis_rows 100 1000 (omega arith) (omega arith);
}

-- A policy within the limits is kept.
pub normalize_of_IsBounded : (p : LimitPolicy) → IsBounded p → normalize p ≡ p
unfolding normalize
normalize_of_IsBounded p b = rw (
  normalize_limit_of_InRange p.search_results 100 1000 b.search_results,
  normalize_limit_of_InRange p.crm_fields 200 1000 b.crm_fields,
  normalize_limit_of_InRange p.late_stage_signals 100 500 b.late_stage_signals,
  normalize_limit_of_InRange p.missing_transcripts 500 10000 b.missing_transcripts,
  normalize_limit_of_InRange p.opportunity_summaries 100 1000 b.opportunity_summaries,
  normalize_limit_of_InRange p.crm_matrix_cells 200 1000 b.crm_matrix_cells,
  normalize_limit_of_InRange p.lifecycle_results 100 1000 b.lifecycle_results,
  normalize_limit_of_InRange p.lifecycle_crm_fields 200 1000 b.lifecycle_crm_fields,
  normalize_limit_of_InRange p.call_fact_groups 200 1000 b.call_fact_groups,
  normalize_limit_of_InRange p.inventory_results 200 1000 b.inventory_results,
  normalize_limit_of_InRange p.business_analysis_rows 100 1000 b.business_analysis_rows,
)

normalized_of_none : (p : LimitPolicy) → normalized none ≡ some p → ⊥
unfolding normalized
normalized_of_none p h = cc

normalized_some : (q p : LimitPolicy) → normalized (some q) ≡ some p → normalize q ≡ p
unfolding normalized
normalized_some q p h = cc

-- A policy that the environment gives is positive, within the hard limits, and a fixed point of
-- Normalize, whatever the variables hold.
pub limit_policy_from_env-IsBounded :
    (atoi : String → Option ℤ) (getenv : String → String) (p : LimitPolicy)
    → limit_policy_from_env atoi getenv ≡ some p
    → IsBounded p × (normalize p ≡ p)
unfolding limit_policy_from_env
limit_policy_from_env-IsBounded atoi getenv p h =
    elim (Option-cases (override_all atoi getenv limit_env_specs default_limit_policy)) [
      | inl bad ↦ absurd (normalized_of_none p (rw bad at h))
      | inr (q, good) ↦
          let bounded =
            subst IsBounded (normalized_some q p (rw good at h)) (normalize-IsBounded q) in
          (bounded, normalize_of_IsBounded p bounded)
    ]

cap_limit-InRange :
    (value max : ℤ) (fallback hard : ℕ)
    → 0 < fallback
    → InRange max hard
    → (0 < cap_limit value fallback max) × (cap_limit value fallback max ≤ hard)
unfolding cap_limit
cap_limit-InRange value (negsuc max) fallback hard h r = absurd r
cap_limit-InRange (pos n) (pos max) fallback hard h r = ground arith
cap_limit-InRange (negsuc n) (pos max) fallback hard h r = ground arith

-- Whatever a request and a policy say, a tool asks for at least one row and for no more than the
-- hard limit.
pub request_limits-InRange :
    (p : LimitPolicy) (value : ℤ)
    → ((0 < search_limit p value) × (search_limit p value ≤ 1000))
      × ((0 < missing_transcript_limit p value) × (missing_transcript_limit p value ≤ 10000))
      × ((0 < lifecycle_limit p value) × (lifecycle_limit p value ≤ 1000))
      × ((0 < business_analysis_limit p value) × (business_analysis_limit p value ≤ 1000))
unfolding search_limit missing_transcript_limit lifecycle_limit business_analysis_limit
request_limits-InRange p value =
    let b = normalize-IsBounded p in
    (
      cap_limit-InRange value (normalize p).search_results 20 1000 (omega arith) b.search_results,
      cap_limit-InRange value (normalize p).missing_transcripts 100 10000 (omega arith)
          b.missing_transcripts,
      cap_limit-InRange value (normalize p).lifecycle_results 25 1000 (omega arith)
          b.lifecycle_results,
      cap_limit-InRange value (normalize p).business_analysis_rows 25 1000 (omega arith)
          b.business_analysis_rows,
    )
