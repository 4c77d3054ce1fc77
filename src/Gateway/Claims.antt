-- ===== src/Gateway/Claims.antt =====
-- The claims of an access token, and how internal/gateway/auth.go reads lists out of them.
use gongcli_mcp.Prelude.{
  String, ◌==◌, Bool, true, false, ◌||◌, Option, none, some, List, [], ◌∷◌, ◌++◌, nat_eq, code,
  if◌then◌else◌,
}
use gongcli_mcp.Text.{is_nil, trim_space}
use gongcli_mcp.Text.Split.{split}
use gongcli_mcp.Gateway.Config.{split_list}

-- A decoded JSON value; `other` is a number, a Boolean or null.
mutual
  pub data Value : Type 0 where
    text : String → Value
    list : Values → Value
    object : Members → Value
    other : Value

  pub data Values : Type 0 where
    nil : Values
    cons : Value → Values → Values

  pub data Members : Type 0 where
    end : Members
    member : String → Value → Members → Members

pub record Claims : Type 0 where
  pub issuer : String
  pub subject : String
  pub audience : List String
  pub client_id : String
  pub token_use : String
  pub scope : String
  pub email : String
  pub groups : List String
  pub raw : Members

unfoldable pub member_of : String → Members → Option Value
member_of name end = none
member_of name (member k v ms) = if k == name then some v else member_of name ms

-- The strings of a list that are not blank, trimmed.
value_texts : Values → List String
value_texts nil = []
value_texts (cons (text s) vs) =
    let rest = value_texts vs in if is_nil (trim_space s) then rest else trim_space s ∷ rest
value_texts (cons _ vs) = value_texts vs

unfoldable pub claim_string_list : Option Value → List String
unfolding value_texts split_list
claim_string_list (some (text s)) = split_list s
claim_string_list (some (list vs)) = value_texts vs
claim_string_list _ = []

-- The walk down the parts of a dotted name.
walk : List String → Value → Option Value
walk [] current = some current
walk (part ∷ parts) (object ms) = elim (member_of part ms) [
  | none ↦ none
  | some next ↦ walk parts next
]
walk (part ∷ parts) _ = none

has_dot : String → Bool
has_dot String.[] = false
has_dot (String.◌∷◌ c s) = nat_eq (code c) b'.' || has_dot s

ext_member : String → Option Value → Option Value
ext_member name (some (object ms)) = member_of name ms
ext_member name _ = none

-- The lookup beyond a literal key.
nested_value : Members → String → Option Value
nested_value raw name =
    if has_dot name
    then walk (split b'.' name) (object raw)
    else ext_member name (member_of "ext" raw)

unfoldable pub claim_value : Members → String → Bool → Option Value
unfolding member_of walk has_dot ext_member nested_value split
claim_value raw name allow_nested = if is_nil name then none else (elim (member_of name raw) [
  | some value ↦ some value
  | none ↦ if allow_nested then nested_value raw name else none
])

unfoldable pub scopes_from_claims : Claims → Bool → List String
unfolding claim_string_list claim_value
scopes_from_claims claims include_scp =
    let scopes = split_list claims.scope in
    if include_scp then scopes ++ claim_string_list (claim_value claims.raw "scp" false) else scopes

unfoldable pub groups_from_claims : Claims → String → Bool → List String
unfolding claim_string_list claim_value
groups_from_claims claims group_claim allow_nested =
    if is_nil group_claim || group_claim == "cognito:groups"
    then claims.groups
    else claim_string_list (claim_value claims.raw group_claim allow_nested)

first_text : List String → String
first_text [] = ""
first_text (v ∷ vs) = v

unfoldable pub email_from_claims : Claims → Bool → String
unfolding claim_string_list claim_value first_text
email_from_claims claims allow_nested =
    if is_nil claims.email
    then (if allow_nested
        then first_text (claim_string_list (claim_value claims.raw "email" true))
        else "")
    else claims.email
