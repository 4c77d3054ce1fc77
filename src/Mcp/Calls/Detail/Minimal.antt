-- ===== src/Mcp/Calls/Detail/Minimal.antt =====
-- What minimizeCallDetail and the switches leave of a detail.
use gongcli_mcp.Prelude.{
  ◌≤◌, String, ◌≡◌, refl, sym, subst, Bool, true, false, ◌||◌, Option, none, some, List, [], ◌∷◌,
  map, All, take, length, length-take, ltb, arith, Bool-cases, inl, inr, if◌then◌else◌,
}
use gongcli_mcp.Text.Unicode.{Unicode}
use gongcli_mcp.Mcp.Server.{Server}
use gongcli_mcp.Mcp.Calls.Detail.{
  CallDetailCrmObject, CallDetail, minimize_object, minimize_call_detail, clear_object_name,
  apply_policy_switches_to_call_detail, shown_detail,
}

-- An object without its name, and with 50 field names at most.
abbrev pub IsMinimal : CallDetailCrmObject → Type 0
IsMinimal o = (o.object_name ≡ "") × (length o.field_names ≤ 50)

minimize_object-IsMinimal : (o : CallDetailCrmObject) → IsMinimal (minimize_object o)
unfolding minimize_object
minimize_object-IsMinimal o = ground (arith, length-take 50 o.field_names)

map-minimize_object-IsMinimal :
    (os : List CallDetailCrmObject) → All IsMinimal (map minimize_object os)
map-minimize_object-IsMinimal [] = tt
map-minimize_object-IsMinimal (o ∷ os) =
    (minimize_object-IsMinimal o, map-minimize_object-IsMinimal os)

length-map :
    (f : CallDetailCrmObject → CallDetailCrmObject) (os : List CallDetailCrmObject)
    → length (map f os) ≡ length os
length-map f [] = refl
length-map f (o ∷ os) = omega (arith, length-map f os)

abbrev pub AllMinimal : List CallDetailCrmObject → Type 0
AllMinimal os = All IsMinimal os × (length os ≤ 20)

minimize_call_detail-AllMinimal : (d : CallDetail) → AllMinimal (minimize_call_detail d).crm_objects
unfolding minimize_call_detail
minimize_call_detail-AllMinimal d = elim (Bool-cases (ltb 20 (length d.crm_objects))) [
  | inl long ↦
      rw (long, All)
        (
          map-minimize_object-IsMinimal (take 20 d.crm_objects),
          rw length-map (omega (arith, length-take 20 d.crm_objects)),
        )
  | inr short ↦
      rw (short, All) (map-minimize_object-IsMinimal d.crm_objects, rw length-map (ground arith))
]

map-clear_object_name-IsMinimal :
    (os : List CallDetailCrmObject) → All IsMinimal os → All IsMinimal (map clear_object_name os)
unfolding clear_object_name
map-clear_object_name-IsMinimal [] h = tt
map-clear_object_name-IsMinimal (o ∷ os) h = ((refl, h.0.1), map-clear_object_name-IsMinimal os h.1)

module _ (s : Server) (d : CallDetail) where
  -- The switches, field by field.
  switched_title :
      (apply_policy_switches_to_call_detail s d).title
      ≡ (if s.policy_switches.hide_call_titles then "" else d.title)
  unfolding apply_policy_switches_to_call_detail
  switched_title = ground arith

  switched_call_id :
      (apply_policy_switches_to_call_detail s d).call_id
      ≡ (if s.policy_switches.hide_raw_call_ids then "" else d.call_id)
  unfolding apply_policy_switches_to_call_detail
  switched_call_id = ground arith

  switched_objects : (apply_policy_switches_to_call_detail s d).crm_objects ≡ (
      if s.policy_switches.hide_account_names
      then map clear_object_name d.crm_objects
      else d.crm_objects)
  unfolding apply_policy_switches_to_call_detail
  switched_objects = ground arith

  switches-AllMinimal :
      AllMinimal d.crm_objects → AllMinimal (apply_policy_switches_to_call_detail s d).crm_objects
  switches-AllMinimal h =
      subst AllMinimal (sym switched_objects)
        (elim (Bool-cases s.policy_switches.hide_account_names) [
          | inl hide ↦
              rw (hide, All) (map-clear_object_name-IsMinimal d.crm_objects h.0, rw length-map h.1)
          | inr keep ↦ rw (keep, All) h
        ])

minimize_call_detail-texts :
    (d : CallDetail)
    → ((minimize_call_detail d).title ≡ d.title) × ((minimize_call_detail d).call_id ≡ d.call_id)
unfolding minimize_call_detail
minimize_call_detail-texts d = ground arith

unfoldable pub by_reference : Option String → Bool
by_reference none = false
by_reference (some ref) = true

module _ (u : Unicode) (s : Server) (d : CallDetail) where
  pub shown_detail-AllMinimal :
      (ref : Option String) → AllMinimal (shown_detail u s ref d).crm_objects
  unfolding shown_detail
  shown_detail-AllMinimal none = switches-AllMinimal s _ (minimize_call_detail-AllMinimal d)
  shown_detail-AllMinimal (some ref) = switches-AllMinimal s _ (minimize_call_detail-AllMinimal d)

  pub shown_detail-title :
      (ref : Option String)
      → (shown_detail u s ref d).title
        ≡ (if s.policy_switches.hide_call_titles then "" else d.title)
  unfolding shown_detail
  shown_detail-title none = rw switched_title (cc ((minimize_call_detail-texts d).0))
  shown_detail-title (some ref) = rw switched_title (cc ((minimize_call_detail-texts d).0))

  pub shown_detail-call_id :
      (ref : Option String)
      → (shown_detail u s ref d).call_id
        ≡ (if s.policy_switches.hide_raw_call_ids || by_reference ref then "" else d.call_id)
  unfolding shown_detail by_reference
  shown_detail-call_id none = rw switched_call_id (ground (arith, minimize_call_detail-texts d))
  shown_detail-call_id (some ref) = rw switched_call_id (ground arith)
