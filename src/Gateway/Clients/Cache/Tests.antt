-- ===== src/Gateway/Clients/Cache/Tests.antt =====
-- Runs of the cache.
use gongcli_mcp.Prelude.{◌≡◌, ◌⊎◌, refl, none, some, [], ◌∷◌, true, String, List}
use gongcli_mcp.Prelude.Assoc.{lookup, put}
use gongcli_mcp.Text.Ascii.{ascii}
use gongcli_mcp.Gateway.Registration.Samples.{registrar, registered}
use gongcli_mcp.Gateway.Clients.{
  describe_failed, created, verify_client_id, verify_unless, is_remembered, register_client,
  register_created, remember_verified,
}
use gongcli_mcp.Gateway.Clients.Cache.{Call, register, cache_after, step}
use gongcli_mcp.Gateway.Clients.Acceptance.{Fresh, Describes, verify_client_id-Fresh}

abbrev abc : String
abc = "abc"

-- One registration at time 5.
abbrev history : List Call
history = register "99" (some "a1b2") (λ input. created abc) 5 6 registered ∷ []

remembered_run :
    (verify_client_id registrar 600 describe_failed 601 abc (cache_after ascii registrar history)).0
    ≡ none
unfolding verify_client_id verify_unless is_remembered cache_after step register_client
    register_created remember_verified lookup put
remembered_run = refl

verify_client_id-Fresh_example :
    (abc ≡ registrar.client_id)
    ⊎ ((true ≡ true)
        × (Describes registrar describe_failed ⊎ Fresh ascii registrar 600 abc history))
verify_client_id-Fresh_example =
    verify_client_id-Fresh ascii registrar history 600 describe_failed 601 abc remembered_run
