-- ===== src/Gateway/Clients/Tests.antt =====
-- Runs of the client store.
use gongcli_mcp.Prelude.{◌≡◌, refl, none, some, []}
use gongcli_mcp.Text.{is_space, trim_space}
use gongcli_mcp.Prelude.{All, arith}
use gongcli_mcp.Text.Trim.{IsSolid}
use gongcli_mcp.Text.Unicode.{lower_text}
use gongcli_mcp.Text.Split.{trim_left_by, trim_right_by}
use gongcli_mcp.Text.Ascii.{ascii}
use gongcli_mcp.Gateway.Registration.Samples.{registrar, asked, registered, asked_run}
use gongcli_mcp.Gateway.Clients.{
  described, verify_client_id, create_input, dcr_client_name, keep_name, sanitize_client_name,
  is_name_char, is_edge,
}
use gongcli_mcp.Gateway.Clients.Roundtrip.{verify_client_id-registered}

sanitize_run : sanitize_client_name ascii " -My App_2!- " ≡ "myapp_2"
unfolding sanitize_client_name keep_name is_name_char is_edge lower_text trim_space trim_left_by
    trim_right_by
sanitize_run = refl

registrar_scopes-IsSolid : All IsSolid registrar.dcr_allowed_scopes
unfolding is_space
registrar_scopes-IsSolid = ground arith

verify_client_id-registered_example :
    (verify_client_id registrar 10
      (described
        (some (create_input (dcr_client_name ascii "gongmcp-dcr" "99" "a1b2" "My App") registered)))
      11
      "abc"
      []).0
    ≡ none
verify_client_id-registered_example =
    verify_client_id-registered ascii registrar asked registered "99" "a1b2" refl
      registrar_scopes-IsSolid asked_run 10 11 "abc" []
