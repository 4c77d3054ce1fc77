-- ===== src/Gateway/Clients/Acceptance.antt =====
-- Which clients the store accepts.
use gongcli_mcp.Prelude.{
  ℕ, ◌+◌, ◌<◌, String, ◌≡◌, refl, ◌⊎◌, inl, inr, Bool, true, false, eq_iff, none, some, List, [],
  ◌∷◌, Any, arith,
}
use gongcli_mcp.Text.Unicode.{Unicode}
use gongcli_mcp.Gateway.Config.{Config}
use gongcli_mcp.Gateway.Clients.{
  AppClient, Description, describe_failed, described, Verified, is_remembered, verify_described,
  verify_unless, verify_client_id,
}
use gongcli_mcp.Gateway.Clients.Cache.{
  Call, IsQualified, Vouches, Vouched, check_client_iff, cache_after, cache_after-Vouched,
  remembered_sound,
}

Any-map {ℓ} :
    {A : Type ℓ} (P Q : A → Type 0) → ((x : A) → P x → Q x) → (xs : List A) → Any P xs → Any Q xs
Any-map P Q f [] h = absurd h
Any-map P Q f (x ∷ xs) (inl p) = inl (f x p)
Any-map P Q f (x ∷ xs) (inr h) = inr (Any-map P Q f xs h)

-- A call vouched for the client less than the cache's time to live ago.
abbrev pub Fresh : Unicode → Config → ℕ → String → List Call → Type 0
Fresh u cfg now id calls =
    Any (λ call. (t : ℕ) × Vouches u cfg id t call × (now < t + cfg.dcr_client_cache_ttl)) calls

-- Cognito describes a client that qualifies.
abbrev pub Describes : Config → Description → Type 0
Describes cfg answer = (c : AppClient) × (answer ≡ described (some c)) × IsQualified cfg c

verify_described_sound :
    (cfg : Config) (answer : Description) (later : ℕ) (id : String) (m : Verified)
    → (verify_described cfg answer later id m).0 ≡ none
    → Describes cfg answer
unfolding verify_described
verify_described_sound cfg describe_failed later id m h = cc
verify_described_sound cfg (described none) later id m h = cc
verify_described_sound cfg (described (some c)) later id m h =
    (c, refl, ground (arith, check_client_iff cfg c))

verify_unless_sound :
    (cfg : Config) (answer : Description) (later : ℕ) (id : String) (r : Bool × Verified)
    → (verify_unless cfg answer later id r).0 ≡ none
    → (r.0 ≡ true) ⊎ Describes cfg answer
unfolding verify_unless
verify_unless_sound cfg answer later id (true, m) h = inl refl
verify_unless_sound cfg answer later id (false, m) h =
    inr (verify_described_sound cfg answer later id m h)

verify_client_id_reach :
    (cfg : Config) (now : ℕ) (answer : Description) (later : ℕ) (id : String) (m : Verified)
    → (verify_client_id cfg now answer later id m).0 ≡ none
    → (id ≡ cfg.client_id)
      ⊎ ((cfg.dcr_enabled ≡ true)
          × ((verify_unless cfg answer later id (is_remembered now id m)).0 ≡ none))
unfolding verify_client_id
verify_client_id_reach cfg now answer later id m h = ground (arith, eq_iff id cfg.client_id)

remembered-Fresh :
    (u : Unicode) (cfg : Config) (now : ℕ) (id : String) (calls : List Call)
    → (is_remembered now id (cache_after u cfg calls)).0 ≡ true
    → Fresh u cfg now id calls
remembered-Fresh u cfg now id calls h =
    let (expiry, vouched, fresh) =
      remembered_sound u cfg (Vouched u cfg calls) now id (cache_after u cfg calls)
        (cache_after-Vouched u cfg calls) h in
    Any-map _ _ (λ call v. (v.0, v.1, rw (← v.2) fresh)) calls vouched

-- After any calls, the store accepts a client only if it is the configured one, or registration is
-- enabled and either Cognito describes it now as one that qualifies or, less than the cache's time
-- to live ago, a call saw Cognito describe it so or create it.
pub verify_client_id-Fresh :
    (u : Unicode) (cfg : Config) (calls : List Call) (now : ℕ) (answer : Description) (later : ℕ)
    (id : String)
    → (verify_client_id cfg now answer later id (cache_after u cfg calls)).0 ≡ none
    → (id ≡ cfg.client_id)
      ⊎ ((cfg.dcr_enabled ≡ true) × (Describes cfg answer ⊎ Fresh u cfg now id calls))
verify_client_id-Fresh u cfg calls now answer later id h =
    elim (verify_client_id_reach cfg now answer later id _ h) [
      | inl configured ↦ inl configured
      | inr (enabled, checked) ↦ elim (verify_unless_sound cfg answer later id _ checked) [
        | inl remembered ↦ inr (enabled, inr (remembered-Fresh u cfg now id calls remembered))
        | inr now_described ↦ inr (enabled, inl now_described)
      ]
    ]
