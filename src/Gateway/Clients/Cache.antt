-- ===== src/Gateway/Clients/Cache.antt =====
-- The clients in the cache, over any sequence of calls of the store.
mod Tests
use gongcli_mcp.Prelude.{
  ℕ, ◌+◌, ◌<◌, String, ◌≡◌, refl, ◌⊎◌, inl, inr, Bool, true, false, ◌==◌, eq_iff, Option, none,
  some, List, [], ◌∷◌, ◌↔◌, All, Any, is_empty, arith, Bool-cases, Option-cases, if◌then◌else◌,
}
use gongcli_mcp.Prelude.Assoc.{lookup, put}
use gongcli_mcp.Prelude.Sets.{has}
use gongcli_mcp.Text.{cat, has_prefix, is_nil}
use gongcli_mcp.Text.Unicode.{Unicode}
use gongcli_mcp.Gateway.Config.{Config}
use gongcli_mcp.Gateway.Auth.Principals.{Member, has-Member}
use gongcli_mcp.Gateway.Registration.{RegistrationRequest}
use gongcli_mcp.Gateway.Clients.{
  AppClient, Description, describe_failed, described, Creation, create_failed, created, ClientError,
  Verified, forget, is_remembered, remember_verified, intersect_strings, check_client,
  verify_described, verify_unless, verify_client_id, create_input, dcr_client_name,
  register_created, register_client,
}

-- A call with what the clock, the random source and AWS answer in it.
pub data Call : Type 0 where
  verify : ℕ → Description → ℕ → String → Call
  register : String → Option String → (AppClient → Creation) → ℕ → ℕ → RegistrationRequest → Call

-- The client is one of the gateway's, with the flow, the scope and an address that are allowed.
abbrev pub IsQualified : Config → AppClient → Type 0
IsQualified cfg c =
    (has_prefix c.name (cat cfg.dcr_client_name_prefix "-") ≡ true)
    × (c.flows_enabled ≡ some true)
    × Member "code" c.flows
    × Member cfg.required_scope c.scopes
    × Any (λ url. Member url cfg.dcr_allowed_redirect_uris) c.callback_urls

module _ {ℓ} {V : Type ℓ} (P : String × V → Type 0) where
  All-put : (k : String) (v : V) (m : List (String × V)) → P (k, v) → All P m → All P (put k v m)
  unfolding put
  All-put k v [] p h = (p, tt)
  All-put k v ((j, w) ∷ m) p (q, h) = ground (arith, All-put k v m p h)

  All-lookup :
      (k : String) (v : V) (m : List (String × V)) → lookup k m ≡ some v → All P m → P (k, v)
  unfolding lookup
  All-lookup k v [] e h = cc
  All-lookup k v ((j, w) ∷ m) e (q, h) = elim (Bool-cases (j == k)) [
    | inl same ↦ let w_is : w ≡ v = ground arith in rw (← (eq_iff j k).0 same, ← w_is) q
    | inr other ↦ All-lookup k v m (ground arith) h
  ]

All-forget : (P : String × ℕ → Type 0) (k : String) (m : Verified) → All P m → All P (forget k m)
unfolding forget
All-forget P k [] h = tt
All-forget P k ((j, w) ∷ m) (q, h) = ground (arith, All-forget P k m h)

All-map {ℓ} :
    {A : Type ℓ} (P Q : A → Type 0) → ((x : A) → P x → Q x) → (xs : List A) → All P xs → All Q xs
All-map P Q f [] h = tt
All-map P Q f (x ∷ xs) (p, h) = (f x p, All-map P Q f xs h)

intersect_strings_iff :
    (a b : List String) → (is_empty (intersect_strings a b) ≡ false) ↔ Any (λ v. Member v b) a
unfolding intersect_strings
intersect_strings_iff [] b = ground arith
intersect_strings_iff (v ∷ a) b = ground (arith, has-Member v b, intersect_strings_iff a b)

enabled_iff :
    (flag : Option Bool) (e : ClientError) (rest : Option ClientError)
    → ((elim flag [ none ↦ some e | some false ↦ some e | some true ↦ rest ]) ≡ none)
      ↔ ((flag ≡ some true) × (rest ≡ none))
enabled_iff none e rest = ground arith
enabled_iff (some false) e rest = ground arith
enabled_iff (some true) e rest = ground arith

-- The checks of a description pass exactly for a client that qualifies.
pub check_client_iff :
    (cfg : Config) (c : AppClient) → (check_client cfg c ≡ none) ↔ IsQualified cfg c
unfolding check_client
check_client_iff cfg c = ground (
  arith,
  has-Member "code" c.flows,
  has-Member cfg.required_scope c.scopes,
  intersect_strings_iff c.callback_urls cfg.dcr_allowed_redirect_uris,
)

-- The call vouches for the client at that time: Cognito describes it as one that qualifies, or
-- creates it.
abbrev pub Vouches : Unicode → Config → String → ℕ → Call → Type 0
Vouches u cfg id t (verify now answer later asked) =
    (asked ≡ id)
    × (t ≡ later)
    × ((c : AppClient) × (answer ≡ described (some c)) × IsQualified cfg c)
Vouches u cfg id t (register unix suffix create now later req) =
    (t ≡ now) × ((input : AppClient) × (create input ≡ created id))

module _ (u : Unicode) (cfg : Config) where
  step : Call → Verified → Verified
  step (verify now answer later id) m = (verify_client_id cfg now answer later id m).1
  step (register unix suffix create now later req) m =
      (register_client u cfg unix suffix create now later req m).1

  -- The cache after the calls, the latest first.
  pub cache_after : List Call → Verified
  unfolding step
  cache_after [] = []
  cache_after (call ∷ calls) = step call (cache_after calls)

  -- One of the calls vouched for the client, at a time from which its entry expires.
  abbrev pub Vouched : List Call → String × ℕ → Type 0
  Vouched calls (id, expiry) =
      Any (λ call. (t : ℕ) × Vouches u cfg id t call × (expiry ≡ t + cfg.dcr_client_cache_ttl))
        calls

  All-is_remembered :
      (P : String × ℕ → Type 0) (now : ℕ) (id : String) (m : Verified)
      → All P m
      → All P (is_remembered now id m).1
  unfolding is_remembered
  All-is_remembered P now id m h = ground (arith, All-forget P id m h)

  All-verify_described :
      (P : String × ℕ → Type 0) (answer : Description) (later : ℕ) (id : String) (m : Verified)
      → ((c : AppClient)
          → answer ≡ described (some c)
          → IsQualified cfg c
          → P (id, later + cfg.dcr_client_cache_ttl))
      → All P m
      → All P (verify_described cfg answer later id m).1
  unfolding verify_described remember_verified
  All-verify_described P describe_failed later id m f h = h
  All-verify_described P (described none) later id m f h = h
  All-verify_described P (described (some c)) later id m f h =
      elim (Option-cases (check_client cfg c)) [
        | inl ok ↦
            rw (ok, verify_described, remember_verified, All)
              (All-put P id _ m (f c refl ((check_client_iff cfg c).0 ok)) h)
        | inr (e, bad) ↦ rw (bad, verify_described, All) h
      ]

  module _ (P : String × ℕ → Type 0) (answer : Description) (later : ℕ) (id : String)
      (f : (c : AppClient)
        → answer ≡ described (some c)
        → IsQualified cfg c
        → P (id, later + cfg.dcr_client_cache_ttl)) where
    All-verify_unless :
        (r : Bool × Verified) → All P r.1 → All P (verify_unless cfg answer later id r).1
    unfolding verify_unless
    All-verify_unless (true, m) h = h
    All-verify_unless (false, m) h = All-verify_described P answer later id m f h

    All-verify_client_id :
        (now : ℕ) (m : Verified) → All P m → All P (verify_client_id cfg now answer later id m).1
    unfolding verify_client_id
    All-verify_client_id now m h =
        ground (arith, All-verify_unless (is_remembered now id m) (All-is_remembered P now id m h))

  All-register_created :
      (P : String × ℕ → Type 0) (name : String) (answer : Creation) (now later : ℕ)
      (req : RegistrationRequest) (m : Verified)
      → ((id : String) → answer ≡ created id → P (id, now + cfg.dcr_client_cache_ttl))
      → All P m
      → All P (register_created cfg name answer now later req m).1
  unfolding register_created remember_verified
  All-register_created P name create_failed now later req m f h = h
  All-register_created P name (created id) now later req m f h = elim (Bool-cases (is_nil id)) [
    | inl blank ↦ rw (blank, register_created, All) h
    | inr full ↦
        rw (full, register_created, remember_verified, All) (All-put P id _ m (f id refl) h)
  ]

  All-step :
      (P : String × ℕ → Type 0) (call : Call) (m : Verified)
      → ((id : String) (t : ℕ) → Vouches u cfg id t call → P (id, t + cfg.dcr_client_cache_ttl))
      → All P m
      → All P (step call m)
  unfolding step register_client
  All-step P (verify now answer later id) m f h =
      All-verify_client_id P answer later id (λ c e q. f id later (refl, refl, (c, e, q))) now m h
  All-step P (register unix none create now later req) m f h = h
  All-step P (register unix (some suffix) create now later req) m f h =
      All-register_created P _ (create _) now later req m (λ id e. f id now (refl, (_, e))) h

  -- Every entry of the cache goes back to a call that vouched for its client.
  pub cache_after-Vouched : (calls : List Call) → All (Vouched calls) (cache_after calls)
  unfolding cache_after
  cache_after-Vouched [] = tt
  cache_after-Vouched (call ∷ calls) =
      All-step (Vouched (call ∷ calls)) call (cache_after calls) (λ id t v. inl (t, v, refl))
        (All-map (Vouched calls) (Vouched (call ∷ calls)) (λ entry v. inr v) (cache_after calls)
          (cache_after-Vouched calls))

  pub remembered_sound :
      (P : String × ℕ → Type 0) (now : ℕ) (id : String) (m : Verified)
      → All P m
      → (is_remembered now id m).0 ≡ true
      → (expiry : ℕ) × P (id, expiry) × (now < expiry)
  unfolding is_remembered
  remembered_sound P now id m h e = elim (Option-cases (lookup id m)) [
    | inl absent ↦ absurd (ground arith)
    | inr (expiry, found) ↦ (expiry, All-lookup P id expiry m found h, ground arith)
  ]
