-- ===== src/Gateway/Clients.antt =====
-- CognitoClientStore of internal/gateway/dcr.go: the clients that registration creates and the
-- cache of the ones that are verified. What AWS answers, the clock, and the texts of the time and
-- of the random suffix in a client's name come with each call. Times are in one unit, and the lock
-- makes every access of the cache atomic.
pub mod Cache
pub mod Acceptance
pub mod Roundtrip
mod Tests
use gongcli_mcp.Prelude.{
  ℕ, zero, suc, ◌+◌, Char, code, String, Bool, true, false, not, ◌&&◌, ◌||◌, ◌==◌, Option, none,
  some, List, [], ◌∷◌, is_empty, leb, ltb, nat_eq, if◌then◌else◌,
}
use gongcli_mcp.Prelude.Assoc.{lookup, put}
use gongcli_mcp.Prelude.Sets.{has}
use gongcli_mcp.Text.{cat, is_nil, trim_space, has_prefix, join}
use gongcli_mcp.Text.Split.{fields, trim_left_by, trim_right_by}
use gongcli_mcp.Text.Unicode.{Unicode, lower_text}
use gongcli_mcp.Gateway.Config.{Config, contains}
use gongcli_mcp.Gateway.Registration.{RegistrationRequest}

-- The app client at Cognito, in the fields that the store writes and reads. The flag is a pointer.
pub record AppClient : Type 0 where
  pub name : String
  pub callback_urls : List String
  pub flows_enabled : Option Bool
  pub flows : List String
  pub scopes : List String

-- The answer of DescribeUserPoolClient, without a client where the output has none.
pub data Description : Type 0 where
  describe_failed : Description
  described : Option AppClient → Description

-- The answer of CreateUserPoolClient, with the empty id where the output has none.
pub data Creation : Type 0 where
  create_failed : Creation
  created : String → Creation

pub data ClientError : Type 0 where
  client_mismatch describe_error no_client foreign_client flows_disabled no_code_flow : ClientError
  required_scope_missing no_callback_url : ClientError

-- The map `verified`, from a client's id to the time its entry expires.
abbrev pub Verified : Type 0
Verified = List (String × ℕ)

-- delete(m, k)
forget : String → Verified → Verified
forget k [] = []
forget k ((j, e) ∷ m) = let rest = forget k m in if j == k then rest else (j, e) ∷ rest

pub is_remembered : ℕ → String → Verified → Bool × Verified
unfolding lookup
is_remembered now id m = elim (lookup id m) [
  | none ↦ (false, m)
  | some expiry ↦ if ltb now expiry then (true, m) else (false, forget id m)
]

pub remember_verified : Config → ℕ → String → Verified → Verified
remember_verified cfg now id m = put id (now + cfg.dcr_client_cache_ttl) m

-- The values of the first list that are in the second.
intersect_strings : List String → List String → List String
intersect_strings [] b = []
intersect_strings (v ∷ a) b = let rest = intersect_strings a b in if has v b then v ∷ rest else rest

-- The checks of a client that Cognito describes.
pub check_client : Config → AppClient → Option ClientError
check_client cfg c =
    if not (has_prefix c.name (cat cfg.dcr_client_name_prefix "-"))
    then some foreign_client
    else (elim c.flows_enabled [
      | none ↦ some flows_disabled
      | some false ↦ some flows_disabled
      | some true ↦
          if not (contains c.flows "code")
          then some no_code_flow
          else if not (contains c.scopes cfg.required_scope)
          then some required_scope_missing
          else if is_empty (intersect_strings c.callback_urls cfg.dcr_allowed_redirect_uris)
          then some no_callback_url
          else none
    ])

-- A description is verified; `later` is the time at which the client is remembered.
verify_described : Config → Description → ℕ → String → Verified → Option ClientError × Verified
verify_described cfg describe_failed later id m = (some describe_error, m)
verify_described cfg (described none) later id m = (some no_client, m)
verify_described cfg (described (some c)) later id m = elim (check_client cfg c) [
  | some e ↦ (some e, m)
  | none ↦ (none, remember_verified cfg later id m)
]

-- The cache first, then Cognito.
verify_unless : Config → Description → ℕ → String → Bool × Verified → Option ClientError × Verified
verify_unless cfg answer later id (true, m) = (none, m)
verify_unless cfg answer later id (false, m) = verify_described cfg answer later id m

pub verify_client_id :
    Config → ℕ → Description → ℕ → String → Verified → Option ClientError × Verified
verify_client_id cfg now answer later id m =
    if id == cfg.client_id
    then (none, m)
    else if not cfg.dcr_enabled
    then (some client_mismatch, m)
    else verify_unless cfg answer later id (is_remembered now id m)

is_name_char : Char → Bool
is_name_char c =
    leb b'a' (code c) && leb (code c) b'z'
    || leb b'0' (code c) && leb (code c) b'9'
    || nat_eq (code c) b'-'
    || nat_eq (code c) b'_'

-- The loop of sanitizeClientName, `n` bytes at most; what it keeps is ASCII.
keep_name : ℕ → String → String
keep_name zero s = ""
keep_name (suc n) String.[] = ""
keep_name (suc n) (String.◌∷◌ c s) = elim (is_name_char c) [
  | true ↦ String.◌∷◌ c (keep_name n s)
  | false ↦ keep_name (suc n) s
]

is_edge : Char → Bool
is_edge c = nat_eq (code c) b'-' || nat_eq (code c) b'_'

pub sanitize_client_name : Unicode → String → String
unfolding trim_space lower_text trim_left_by trim_right_by
sanitize_client_name u value =
    trim_right_by is_edge (trim_left_by is_edge (keep_name 40 (lower_text u (trim_space value))))

-- The name with the text of the time and that of the random suffix.
pub dcr_client_name : Unicode → String → String → String → String → String
dcr_client_name u prefix unix suffix requested =
    let name = sanitize_client_name u requested in
    cat prefix
      (cat "-" (cat unix (cat "-" (cat suffix (if is_nil name then "" else cat "-" name)))))

-- The client that RegisterClient asks Cognito to create.
pub create_input : String → RegistrationRequest → AppClient
unfolding fields
create_input name req = record {
  name = name;
  callback_urls = req.redirect_uris;
  flows_enabled = some true;
  flows = "code" ∷ [];
  scopes = fields req.scope;
}

-- DCRClientRegistrationResponse
pub record RegistrationResponse : Type 0 where
  pub client_id : String
  pub client_id_issued_at : ℕ
  pub redirect_uris : List String
  pub token_endpoint_auth_method : String
  pub grant_types : List String
  pub response_types : List String
  pub client_name : String
  pub scope : String

-- Behind the answer of Cognito.
register_created :
    Config
    → String
    → Creation
    → ℕ
    → ℕ
    → RegistrationRequest
    → Verified
    → Option RegistrationResponse × Verified
register_created cfg name create_failed now later req m = (none, m)
register_created cfg name (created id) now later req m = if is_nil id then (none, m) else (
  some (record {
    client_id = id;
    client_id_issued_at = later;
    redirect_uris = req.redirect_uris;
    token_endpoint_auth_method = "none";
    grant_types = "authorization_code" ∷ [];
    response_types = "code" ∷ [];
    client_name = name;
    scope = join " " (fields req.scope);
  }),
  remember_verified cfg now id m,
)

-- RegisterClient with the text of the time, that of the suffix where the system has entropy,
-- Cognito's answer to an input, and the times of the cache's entry and of the response.
pub register_client :
    Unicode
    → Config
    → String
    → Option String
    → (AppClient → Creation)
    → ℕ
    → ℕ
    → RegistrationRequest
    → Verified
    → Option RegistrationResponse × Verified
register_client u cfg unix none create now later req m = (none, m)
register_client u cfg unix (some suffix) create now later req m =
    let name = dcr_client_name u cfg.dcr_client_name_prefix unix suffix req.client_name in
    register_created cfg name (create (create_input name req)) now later req m
