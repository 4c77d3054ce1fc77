-- ===== src/Mcp/Policy/Flags.antt =====
-- What the switches of a policy say, as a table from names to flags, and what parsing and merging
-- make of it.
use gongcli_mcp.Prelude.{
  String, ◌==◌, ◌≡◌, refl, sym, ap, subst, ◌∙◌, Bool, true, false, ◌&&◌, ◌||◌, some, List, [], ◌∷◌,
  any, All, arith, Bool-cases, inl, inr, if◌then◌else◌, eq_iff,
}
use gongcli_mcp.Prelude.Sets.{has}
use gongcli_mcp.Text.{is_nil, trim_space}
use gongcli_mcp.Text.Split.{split}
use gongcli_mcp.Text.Unicode.{Unicode, lower_text}
use gongcli_mcp.Mcp.Policy.{
  PolicySwitches, policy_switch_names, no_switches, key_of, enabled_at, set_at, is_enabled, set,
  parse_pieces, parse_policy_switches, merge_names, merge_policy_switches,
}

flags : PolicySwitches → List (String × Bool)
flags p =
    ("hide_account_names", p.hide_account_names)
    ∷ ("hide_call_titles", p.hide_call_titles)
    ∷ ("hide_raw_call_ids", p.hide_raw_call_ids)
    ∷ ("hide_speaker_ids", p.hide_speaker_ids)
    ∷ ("hide_contact_names", p.hide_contact_names)
    ∷ ("hide_contact_emails", p.hide_contact_emails)
    ∷ ("hide_opportunity_names", p.hide_opportunity_names)
    ∷ ("hide_loss_reasons", p.hide_loss_reasons)
    ∷ ("hide_crm_value_snippets", p.hide_crm_value_snippets)
    ∷ []

flag_of : String → List (String × Bool) → Bool
flag_of key [] = false
flag_of key ((k, v) ∷ m) = if key == k then v else flag_of key m

raise : String → List (String × Bool) → List (String × Bool)
raise key [] = []
raise key ((k, v) ∷ m) = if key == k then (k, true) ∷ m else (k, v) ∷ raise key m

names_of : List (String × Bool) → List String
names_of [] = []
names_of ((k, v) ∷ m) = k ∷ names_of m

enabled_at-flags : (p : PolicySwitches) (key : String) → enabled_at p key ≡ flag_of key (flags p)
unfolding enabled_at flag_of flags
enabled_at-flags p key = refl

All_of_has :
    (P : String → Type 0) (k : String) (xs : List String) → All P xs → has k xs ≡ true → P k
All_of_has P k [] h e = cc
All_of_has P k (x ∷ xs) h e = elim (Bool-cases (x == k)) [
  | inl same ↦ subst P ((eq_iff x k).0 same) h.0
  | inr other ↦ All_of_has P k xs h.1 (rw other at e)
]

flags-set_at :
    (p : PolicySwitches) (key : String)
    → has key policy_switch_names ≡ true
    → flags (set_at key true p) ≡ raise key (flags p)
unfolding flags set_at raise
flags-set_at p key known =
    All_of_has (λ k. flags (set_at k true p) ≡ raise k (flags p)) key policy_switch_names
      (refl, (refl, (refl, (refl, (refl, (refl, (refl, (refl, (refl, tt))))))))) known

flag_of-raise :
    (key name : String) (m : List (String × Bool))
    → has key (names_of m) ≡ true
    → flag_of name (raise key m) ≡ (flag_of name m || key == name)
unfolding flag_of raise names_of
flag_of-raise key name [] h = cc
flag_of-raise key name ((k, v) ∷ m) h =
    ground
      (arith, eq_iff key k, eq_iff name k, eq_iff key name, eq_iff k key, flag_of-raise key name m)

flag_of-has :
    (key : String) (m : List (String × Bool)) → flag_of key m ≡ true → has key (names_of m) ≡ true
unfolding flag_of names_of
flag_of-has key [] e = cc
flag_of-has key ((k, v) ∷ m) e = ground (arith, eq_iff key k, eq_iff k key, flag_of-has key m)

-- Setting a switch sets that one and no other.
enabled_at-set_at :
    (p : PolicySwitches) (key name : String)
    → has key policy_switch_names ≡ true
    → enabled_at (set_at key true p) name ≡ (enabled_at p name || key == name)
unfolding names_of flags
enabled_at-set_at p key name known =
    enabled_at-flags (set_at key true p) name
    ∙ ap (flag_of name) (flags-set_at p key known)
    ∙ flag_of-raise key name (flags p) known
    ∙ ap (λ b. b || key == name) (sym (enabled_at-flags p name))

enabled_at-has :
    (p : PolicySwitches) (key : String)
    → enabled_at p key ≡ true
    → has key policy_switch_names ≡ true
unfolding flags names_of
enabled_at-has p key e = flag_of-has key (flags p) (sym (enabled_at-flags p key) ∙ e)

-- The names that a condition on them selects.
any-at :
    (f : String → Bool) (key : String) (names : List String)
    → any (λ name. f name && name == key) names ≡ (f key && has key names)
any-at f key [] = ground arith
any-at f key (name ∷ names) = elim (Bool-cases (name == key)) [
  | inl same ↦ ground (arith, ap f ((eq_iff name key).0 same), any-at f key names)
  | inr other ↦ ground (arith, any-at f key names)
]

nil_differs : (a b : String) → is_nil a ≡ true → is_nil b ≡ false → (a == b) ≡ false
nil_differs a b blank full = elim (Bool-cases (a == b)) [
  | inl same ↦ let e = ap is_nil ((eq_iff a b).0 same) in cc
  | inr other ↦ other
]

some-switches : (p q : PolicySwitches) → some p ≡ some q → p ≡ q
some-switches p q e = ground arith

no_switches-enabled_at : (key : String) → enabled_at no_switches key ≡ false
unfolding enabled_at
no_switches-enabled_at key = elim (Bool-cases (enabled_at no_switches key)) [
  | inl on ↦
      All_of_has (λ k. enabled_at no_switches k ≡ false) key policy_switch_names
        (refl, (refl, (refl, (refl, (refl, (refl, (refl, (refl, (refl, tt)))))))))
        (enabled_at-has no_switches key on)
  | inr off ↦ off
]

module _ (u : Unicode) where
  IsKnown : String → Type 0
  IsKnown name = (key_of u name ≡ name) × (has name policy_switch_names ≡ true)

  names-IsKnown : All IsKnown policy_switch_names
  unfolding IsKnown key_of trim_space lower_text
  names-IsKnown = (
    (refl, refl),
    (
      (refl, refl),
      (
        (refl, refl),
        (
          (refl, refl),
          ((refl, refl), ((refl, refl), ((refl, refl), ((refl, refl), ((refl, refl), tt))))),
        ),
      ),
    ),
  )

  merge_step :
      (b m : PolicySwitches) (name key : String)
      → IsKnown name
      → enabled_at (if is_enabled u b name then set u m name true else m) key
        ≡ (enabled_at m key || enabled_at b name && name == key)
  unfolding IsKnown is_enabled set
  merge_step b m name key (own, known) = elim (Bool-cases (enabled_at b name)) [
    | inl on ↦ rw (own, on) (enabled_at-set_at m name key known)
    | inr off ↦ rw (own, off) (ground arith)
  ]

  merge_names-enabled_at :
      (names : List String) (b m : PolicySwitches) (key : String)
      → All IsKnown names
      → enabled_at (merge_names u names b m) key
        ≡ (enabled_at m key || any (λ name. enabled_at b name && name == key) names)
  unfolding merge_names
  merge_names-enabled_at [] b m key h = ground arith
  merge_names-enabled_at (name ∷ names) b m key h =
      merge_names-enabled_at names b _ key h.1 ∙ ground (arith, merge_step b m name key h.0)

  and_has :
      (p : PolicySwitches) (key : String)
      → (enabled_at p key && has key policy_switch_names) ≡ enabled_at p key
  and_has p key = elim (Bool-cases (enabled_at p key)) [
    | inl on ↦ rw on (enabled_at-has p key on)
    | inr off ↦ rw off refl
  ]

  -- A name is enabled in merged switches exactly if it is in one of the two.
  pub is_enabled-merge_policy_switches :
      (a b : PolicySwitches) (name : String)
      → is_enabled u (merge_policy_switches u a b) name
        ≡ (is_enabled u a name || is_enabled u b name)
  unfolding is_enabled merge_policy_switches
  is_enabled-merge_policy_switches a b name =
      merge_names-enabled_at policy_switch_names b a (key_of u name) names-IsKnown
      ∙ ap (λ t. enabled_at a (key_of u name) || t)
          (any-at (enabled_at b) (key_of u name) policy_switch_names ∙ and_has b (key_of u name))

  has-IsKnown : (name : String) → has name policy_switch_names ≡ true → IsKnown name
  has-IsKnown name known = All_of_has IsKnown name policy_switch_names names-IsKnown known

  parse_pieces-enabled_at :
      (pieces : List String) (out p : PolicySwitches) (key : String)
      → is_nil key ≡ false
      → parse_pieces u pieces out ≡ some p
      → enabled_at p key ≡ (enabled_at out key || any (λ piece. key_of u piece == key) pieces)
  unfolding parse_pieces set IsKnown
  parse_pieces-enabled_at [] out p key full e =
      ap (λ q. enabled_at q key) (sym (some-switches out p e)) ∙ ground arith
  parse_pieces-enabled_at (piece ∷ pieces) out p key full e =
      elim (Bool-cases (is_nil (key_of u piece))) [
        | inl blank ↦
            rw (nil_differs (key_of u piece) key blank full)
              (parse_pieces-enabled_at pieces out p key full (rw (blank, parse_pieces) at e))
        | inr solid ↦ elim (Bool-cases (has (key_of u piece) policy_switch_names)) [
          | inl known ↦
              parse_pieces-enabled_at pieces _ p key full (rw (solid, known, parse_pieces) at e)
              ∙ rw ((has-IsKnown (key_of u piece) known).0)
                  (ground (arith, enabled_at-set_at out (key_of u piece) key known))
          | inr unknown ↦ let no = rw (solid, unknown, parse_pieces) at e in cc
        ]
      ]

  -- A list of names that parses enables exactly the names in it, up to case and the spaces around
  -- them; the name asked for is not blank.
  pub parse_policy_switches-is_enabled :
      (raw name : String) (p : PolicySwitches)
      → is_nil (key_of u name) ≡ false
      → parse_policy_switches u raw ≡ some p
      → is_enabled u p name ≡ any (λ piece. key_of u piece == key_of u name) (split b',' raw)
  unfolding parse_policy_switches is_enabled
  parse_policy_switches-is_enabled raw name p full e =
      parse_pieces-enabled_at (split b',' raw) no_switches p (key_of u name) full e
      ∙ rw (no_switches-enabled_at (key_of u name)) refl
