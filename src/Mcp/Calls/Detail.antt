-- ===== src/Mcp/Calls/Detail.antt =====
-- getCall of internal/mcp/server.go, with minimizeCallDetail, the tests and switches on a detail,
-- and NormalizeStableCallRef of internal/store/sqlite/store.go.
pub mod Minimal
pub mod Cleared
mod Tests
use gongcli_mcp.Prelude.{
  ℕ, Char, code, String, Bool, true, false, not, ◌&&◌, ◌||◌, Option, none, some, List, [], ◌∷◌, map,
  any, length, take, leb, ltb, nat_eq, if◌then◌else◌,
}
use gongcli_mcp.Prelude.Int.{ℤ}
use gongcli_mcp.Text.{is_nil, trim_space, has_prefix, rune_count}
use gongcli_mcp.Text.Split.{drop_chars}
use gongcli_mcp.Text.Unicode.{Unicode, lower_text}
use gongcli_mcp.Governance.Guard.{empty, match_value}
use gongcli_mcp.Mcp.Server.{Server, is_suppressed_call}
use gongcli_mcp.Store.{Outcome, error, ok}

pub record CallDetailCrmObject : Type 0 where
  pub object_type : String
  pub object_id : String
  pub object_name : String
  pub field_count : ℤ
  pub populated_field_count : ℤ
  pub field_names : List String
  pub field_names_truncated : Bool

pub record CallDetail : Type 0 where
  pub call_id : String
  pub call_ref : String
  pub title : String
  pub started_at : String
  pub duration_seconds : ℤ
  pub parties_count : ℤ
  pub crm_objects : List CallDetailCrmObject
  pub crm_objects_truncated : Bool

pub record GetCallArgs : Type 0 where
  pub call_id : String
  pub call_ref : String

-- What getCall uses of the store.
pub record CallStore : Type 0 where
  pub resolve_call_id_by_ref : String → Outcome String
  pub get_call_detail : String → Outcome CallDetail

-- The characters that hex.DecodeString takes, behind strings.ToLower.
is_hex : Char → Bool
is_hex c = leb b'0' (code c) && leb (code c) b'9' || leb b'a' (code c) && leb (code c) b'f'

all_hex : String → Bool
all_hex String.[] = true
all_hex (String.◌∷◌ c s) = is_hex c && all_hex s

-- `none` stands for the errors, which getCall drops. Twelve bytes that are hexadecimal are twelve
-- characters.
normalize_stable_call_ref : Unicode → String → Option String
unfolding lower_text trim_space has_prefix rune_count
normalize_stable_call_ref u ref =
    let low = lower_text u (trim_space ref) in
    let suffix = drop_chars 9 low in
    if has_prefix low "call_ref_" && nat_eq (rune_count suffix) 12 && all_hex suffix
    then some low
    else none

-- detail.CallRef, _ = NormalizeStableCallRef(callRef)
ref_or_blank : Option String → String
ref_or_blank none = ""
ref_or_blank (some ref) = ref

-- The loop body of minimizeCallDetail.
minimize_object : CallDetailCrmObject → CallDetailCrmObject
minimize_object o =
    let bare = record o { object_name = "" } in
    if ltb 50 (length o.field_names)
    then record bare { field_names = take 50 o.field_names; field_names_truncated = true }
    else bare

unfoldable pub minimize_call_detail : CallDetail → CallDetail
unfolding minimize_object
minimize_call_detail d =
    let kept =
      if ltb 20 (length d.crm_objects)
      then record d { crm_objects = take 20 d.crm_objects; crm_objects_truncated = true }
      else d in
    record kept { crm_objects = map minimize_object kept.crm_objects }

unfoldable pub blocklist_matches_call_detail : Unicode → Server → CallDetail → Bool
unfolding match_value
blocklist_matches_call_detail u s d =
    if empty s.blocklist_guard
    then false
    else match_value u s.blocklist_guard d.title
      || any (λ o. match_value u s.blocklist_guard o.object_name) d.crm_objects

clear_object_name : CallDetailCrmObject → CallDetailCrmObject
clear_object_name o = record o { object_name = "" }

unfoldable pub apply_policy_switches_to_call_detail : Server → CallDetail → CallDetail
unfolding clear_object_name
apply_policy_switches_to_call_detail s d =
    let p = s.policy_switches in
    let titled = if p.hide_call_titles then record d { title = "" } else d in
    let named = if p.hide_raw_call_ids then record titled { call_id = "" } else titled in
    if p.hide_account_names
    then record named { crm_objects = map clear_object_name named.crm_objects }
    else named

module _ (u : Unicode) (s : Server) where
  -- Behind the blocklist; `ref` is the reference that the call was found by, if any.
  pub shown_detail : Option String → CallDetail → CallDetail
  shown_detail none d = apply_policy_switches_to_call_detail s (minimize_call_detail d)
  shown_detail (some ref) d =
      apply_policy_switches_to_call_detail s (record (minimize_call_detail d) {
        call_ref = ref_or_blank (normalize_stable_call_ref u ref);
        call_id = "";
      })

  -- Behind the store's answer,
  checked_detail : Option String → Outcome CallDetail → Outcome CallDetail
  checked_detail ref (error e) = error e
  checked_detail ref (ok d) =
      if blocklist_matches_call_detail u s d
      then error "call not found"
      else ok (shown_detail ref d)

  -- and behind the choice of a call.
  found_call : CallStore → Option String → Outcome String → Outcome CallDetail
  found_call store ref (error e) = error "call not found"
  found_call store ref (ok call_id) =
      if is_suppressed_call s call_id
      then error "call not found"
      else checked_detail ref (store.get_call_detail call_id)

  pub get_call : CallStore → GetCallArgs → Outcome CallDetail
  get_call store args =
      let call_id = trim_space args.call_id in
      let call_ref = trim_space args.call_ref in
      if not (is_nil call_id) && not (is_nil call_ref)
      then error "provide either call_id or call_ref, not both"
      else if is_nil call_ref
      then found_call store none (ok call_id)
      else found_call store (some call_ref) (store.resolve_call_id_by_ref call_ref)
