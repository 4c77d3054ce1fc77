-- ===== src/Gateway/Auth/Principals.antt =====
-- Who may pass: the allowlists and the required groups.
use gongcli_mcp.Prelude.{
  String, ◌≡◌, ◌↔◌, ◌⊎◌, true, ◌==◌, eq_iff, none, List, [], ◌∷◌, Any, is_empty, arith,
}
use gongcli_mcp.Prelude.Loops.{any-Any}
use gongcli_mcp.Prelude.Sets.{has}
use gongcli_mcp.Text.Unicode.{Unicode, lower_text}
use gongcli_mcp.Gateway.Config.{Config, configured_required_groups}
use gongcli_mcp.Gateway.Auth.{authorize_principal, group_check, has_any_required_group}

abbrev pub Member : String → List String → Type 0
Member k set = Any (λ s. s ≡ k) set

pub has-Member : (k : String) (set : List String) → (has k set ≡ true) ↔ Member k set
has-Member k set = any-Any (λ s. s == k) (λ s. s ≡ k) (λ s. eq_iff s k) set

-- An allowlist that is empty allows everybody.
abbrev pub Lists : List String → String → Type 0
Lists set k = (set ≡ []) ⊎ Member k set

abbrev pub Shares : List String → List String → Type 0
Shares groups required = Any (λ group. Member group required) groups

abbrev pub MayPass : Unicode → Config → String → String → List String → Type 0
MayPass u cfg subject email groups =
    Lists cfg.allowed_subjects (lower_text u subject)
    × Lists cfg.allowed_emails (lower_text u email)
    × ((configured_required_groups cfg ≡ []) ⊎ Shares groups (configured_required_groups cfg))

pub is_empty_iff : (xs : List String) → (is_empty xs ≡ true) ↔ (xs ≡ [])
is_empty_iff [] = ground arith
is_empty_iff (x ∷ xs) = ground arith

group_check_iff :
    (groups required : List String)
    → (group_check groups required ≡ none) ↔ ((required ≡ []) ⊎ Shares groups required)
unfolding group_check has_any_required_group
group_check_iff groups required = ground (
  arith,
  is_empty_iff required,
  any-Any (λ g. has g required) (λ g. Member g required) (λ g. has-Member g required) groups,
)

-- A principal passes exactly when the allowlist of subjects, if it is not empty, has the lowered
-- subject, that of emails the lowered email, and one of the groups is required, if any is.
pub authorize_principal_iff :
    (u : Unicode) (cfg : Config) (subject email : String) (groups : List String)
    → (authorize_principal u cfg subject email groups ≡ none) ↔ MayPass u cfg subject email groups
unfolding authorize_principal
authorize_principal_iff u cfg subject email groups = ground (
  arith,
  is_empty_iff cfg.allowed_subjects,
  is_empty_iff cfg.allowed_emails,
  has-Member (lower_text u subject) cfg.allowed_subjects,
  has-Member (lower_text u email) cfg.allowed_emails,
  group_check_iff groups (configured_required_groups cfg),
)
