-- ===== src/Mcp/Server/Restricted.antt =====
-- What the sets of a server hold.
use gongcli_mcp.Prelude.{
  String, ◌==◌, ◌≡◌, ◌∙◌, ◌↔◌, Bool, true, false, ◌||◌, List, [], ◌∷◌, any, Any, is_empty, arith,
  Bool-cases, inl, inr, if◌then◌else◌, eq_iff,
}
use gongcli_mcp.Prelude.Loops.{any-Any, iff_trans}
use gongcli_mcp.Prelude.Sets.{has, add, any-add}
use gongcli_mcp.Text.{is_nil, trim_space}
use gongcli_mcp.Text.Unicode.{Unicode}
use gongcli_mcp.Governance.Name.{normalize_name}
use gongcli_mcp.Mcp.Server.{
  Server, fill_set, with_suppressed_call_ids, with_restricted_account_query_terms,
  is_suppressed_call, restricted_account_query,
}

module _ (clean : String → String) (k : String) where
  -- A text that becomes `k`, and is not left out.
  abbrev gives : String → Bool
  gives raw = if is_nil (clean raw) then false else clean raw == k

  has-fill_set :
      (raws set : List String) → has k (fill_set clean raws set) ≡ (has k set || any gives raws)
  unfolding fill_set
  has-fill_set [] set = ground arith
  has-fill_set (raw ∷ raws) set = elim (Bool-cases (is_nil (clean raw))) [
    | inl blank ↦ rw (blank, fill_set) (has-fill_set raws set)
    | inr full ↦
        rw (full, fill_set)
          (has-fill_set raws (add (clean raw) set)
            ∙ ground (arith, any-add (λ s. s == k) (clean raw) set))
  ]

  abbrev pub Gives : String → Type 0
  Gives raw = (is_nil (clean raw) ≡ false) × (clean raw ≡ k)

  gives_iff : (raw : String) → (gives raw ≡ true) ↔ Gives raw
  gives_iff raw = ground (arith, eq_iff (clean raw) k)

  fill_set_iff : (raws : List String) → (has k (fill_set clean raws []) ≡ true) ↔ Any Gives raws
  fill_set_iff raws = rw (has-fill_set raws []) (any-Any gives Gives gives_iff raws)

  -- The same with the early return for an empty set.
  guarded_iff :
      (raws : List String)
      → ((if is_empty (fill_set clean raws []) then false else has k (fill_set clean raws []))
          ≡ true)
        ↔ Any Gives raws
  guarded_iff raws = iff_trans (guard_lem (fill_set clean raws [])) (fill_set_iff raws)
    where
      guard_lem :
          (set : List String)
          → ((if is_empty set then false else has k set) ≡ true) ↔ (has k set ≡ true)
      guard_lem [] = (λ e. e, λ e. e)
      guard_lem (s ∷ set) = (λ e. e, λ e. e)

-- A server that was given restricted terms refuses an account query exactly when the query has the
-- same normal form as one of the terms, and that form is not blank.
pub restricted_account_query_iff :
    (u : Unicode) (s : Server) (term : String) (terms : List String) (query : String)
    → (restricted_account_query u (with_restricted_account_query_terms u (term ∷ terms) s) query
        ≡ true)
      ↔ Any (Gives (normalize_name u) (normalize_name u query)) (term ∷ terms)
unfolding restricted_account_query with_restricted_account_query_terms
restricted_account_query_iff u s term terms query =
    guarded_iff (normalize_name u) (normalize_name u query) (term ∷ terms)

-- A server that was given calls to suppress suppresses exactly those, up to spaces around them.
pub is_suppressed_call_iff :
    (s : Server) (id : String) (ids : List String) (call_id : String)
    → (is_suppressed_call (with_suppressed_call_ids (id ∷ ids) s) call_id ≡ true)
      ↔ Any (Gives trim_space (trim_space call_id)) (id ∷ ids)
unfolding is_suppressed_call with_suppressed_call_ids
is_suppressed_call_iff s id ids call_id = guarded_iff trim_space (trim_space call_id) (id ∷ ids)
