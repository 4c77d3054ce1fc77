-- ===== src/Mcp/Calls/Detail/Cleared.antt =====
-- What get_call shows.
use gongcli_mcp.Prelude.{
  String, ◌≡◌, refl, ap, subst, Bool, true, false, not, ◌||◌, Option, none, some, List, [], ◌∷◌,
  any, All, arith, Bool-cases, inl, inr, if◌then◌else◌,
}
use gongcli_mcp.Text.{is_nil, trim_space}
use gongcli_mcp.Text.Unicode.{Unicode}
use gongcli_mcp.Governance.Config.{Config}
use gongcli_mcp.Governance.Audit.Suppressed.{Mentions, ConfigNames}
use gongcli_mcp.Governance.Guard.{empty, match_value, new_blocklist_guard_from_config}
use gongcli_mcp.Mcp.Server.{Server, is_suppressed_call}
use gongcli_mcp.Store.{Outcome, error, ok}
use gongcli_mcp.Mcp.Calls.Emitted.{unmatched-Unnamed}
use gongcli_mcp.Mcp.Calls.Detail.{
  CallDetailCrmObject, CallDetail, GetCallArgs, CallStore, blocklist_matches_call_detail,
  shown_detail, checked_detail, found_call, get_call,
}
use gongcli_mcp.Mcp.Calls.Detail.Minimal.{
  AllMinimal, by_reference, shown_detail-AllMinimal, shown_detail-title, shown_detail-call_id,
}

-- A detail that may be shown: it is made of a stored call that is not suppressed and whose title and
-- objects mention no listed name or alias; it has 20 objects at most, each without its name and with
-- 50 field names at most, and no call ID where the switch or a reference hides it.
pub record ClearedDetail (u : Unicode) (cfg : Option Config) (s : Server) (store : CallStore)
    (by_ref : Bool) (d : CallDetail) : Type 0 where
  pub id : String
  pub stored : CallDetail
  pub is_stored : store.get_call_detail id ≡ ok stored
  pub allowed : is_suppressed_call s id ≡ false
  pub unnamed : ConfigNames (Mentions u stored.title) cfg → ⊥
  pub objects_unnamed : All (λ o. ConfigNames (Mentions u o.object_name) cfg → ⊥) stored.crm_objects
  pub minimal : AllMinimal d.crm_objects
  pub title : d.title ≡ (if s.policy_switches.hide_call_titles then "" else stored.title)
  pub call_id :
      d.call_id ≡ (if s.policy_switches.hide_raw_call_ids || by_ref then "" else stored.call_id)

detail_of : CallDetail → Outcome CallDetail → CallDetail
detail_of a (ok c) = c
detail_of a (error text) = a

ok-detail : (a b : CallDetail) → ok a ≡ ok b → a ≡ b
unfolding detail_of
ok-detail a b e = ap (detail_of a) e

module _ (u : Unicode) (cfg : Option Config) (s : Server)
    (guarded : s.blocklist_guard ≡ some (new_blocklist_guard_from_config u cfg)) where
  objects-Unnamed :
      (os : List CallDetailCrmObject)
      → (if empty s.blocklist_guard
          then false
          else any (λ o. match_value u s.blocklist_guard o.object_name) os)
        ≡ false
      → All (λ o. ConfigNames (Mentions u o.object_name) cfg → ⊥) os
  objects-Unnamed [] clear = tt
  objects-Unnamed (o ∷ os) clear = (
    unmatched-Unnamed u cfg s.blocklist_guard o.object_name guarded (ground arith),
    objects-Unnamed os (ground arith),
  )

  shown_detail-Cleared :
      (store : CallStore) (id : String) (ref : Option String) (d : CallDetail)
      → store.get_call_detail id ≡ ok d
      → is_suppressed_call s id ≡ false
      → blocklist_matches_call_detail u s d ≡ false
      → ClearedDetail u cfg s store (by_reference ref) (shown_detail u s ref d)
  shown_detail-Cleared store id ref d is_stored allowed clear = record {
    id = id;
    stored = d;
    is_stored = is_stored;
    allowed = allowed;
    unnamed =
        unmatched-Unnamed u cfg s.blocklist_guard d.title guarded
          (unfold blocklist_matches_call_detail in ground arith);
    objects_unnamed =
        objects-Unnamed d.crm_objects (unfold blocklist_matches_call_detail in ground arith);
    minimal = shown_detail-AllMinimal u s d ref;
    title = shown_detail-title u s d ref;
    call_id = shown_detail-call_id u s d ref;
  }

  checked_detail-Cleared :
      (store : CallStore) (id : String) (ref : Option String) (d : CallDetail)
      → is_suppressed_call s id ≡ false
      → (answer : Outcome CallDetail) → store.get_call_detail id ≡ answer
      → checked_detail u s ref answer ≡ ok d
      → ClearedDetail u cfg s store (by_reference ref) d
  unfolding checked_detail
  checked_detail-Cleared store id ref d allowed (error text) same e = cc
  checked_detail-Cleared store id ref d allowed (ok stored) same e =
      elim (Bool-cases (blocklist_matches_call_detail u s stored)) [
        | inl hit ↦ let no = rw (hit, checked_detail) at e in cc
        | inr clear ↦
            subst (ClearedDetail u cfg s store (by_reference ref))
              (ok-detail _ d (rw (clear, checked_detail) at e))
              (shown_detail-Cleared store id ref stored same allowed clear)
      ]

  found_call-Cleared :
      (store : CallStore) (ref : Option String) (resolved : Outcome String) (d : CallDetail)
      → found_call u s store ref resolved ≡ ok d
      → ClearedDetail u cfg s store (by_reference ref) d
  unfolding found_call
  found_call-Cleared store ref (error text) d e = cc
  found_call-Cleared store ref (ok id) d e = elim (Bool-cases (is_suppressed_call s id)) [
    | inl hit ↦ let no = rw (hit, found_call) at e in cc
    | inr allowed ↦
        checked_detail-Cleared store id ref d allowed _ refl (rw (allowed, found_call) at e)
  ]

  -- The choice of getCall, on its two tests.
  chosen-Cleared :
      (store : CallStore) (id ref : String) (d : CallDetail) (both by_id : Bool)
      → (if both
          then error "provide either call_id or call_ref, not both"
          else if by_id
          then found_call u s store none (ok id)
          else found_call u s store (some ref) (store.resolve_call_id_by_ref ref))
        ≡ ok d
      → ClearedDetail u cfg s store (not by_id) d
  unfolding by_reference
  chosen-Cleared store id ref d true by_id e = cc
  chosen-Cleared store id ref d false true e = found_call-Cleared store none (ok id) d e
  chosen-Cleared store id ref d false false e = found_call-Cleared store (some ref) _ d e

-- The call that get_call shows may be shown, however it was asked for and whatever the store holds.
pub get_call-Cleared :
    (u : Unicode) (cfg : Option Config) (s : Server) (store : CallStore) (args : GetCallArgs)
    (d : CallDetail)
    → s.blocklist_guard ≡ some (new_blocklist_guard_from_config u cfg)
    → get_call u s store args ≡ ok d
    → ClearedDetail u cfg s store (not (is_nil (trim_space args.call_ref))) d
unfolding get_call
get_call-Cleared u cfg s store args d guarded e =
    chosen-Cleared u cfg s guarded store (trim_space args.call_id) (trim_space args.call_ref) d _
      (is_nil (trim_space args.call_ref)) e
