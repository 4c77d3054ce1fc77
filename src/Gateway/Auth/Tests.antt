-- ===== src/Gateway/Auth/Tests.antt =====
-- Runs of the authorizer.
use gongcli_mcp.Prelude.{◌≡◌, ◌↔◌, false, none, []}
use gongcli_mcp.Text.Ascii.{ascii}
use gongcli_mcp.Gateway.Auth.{authorize_principal, static_verify}
use gongcli_mcp.Gateway.Auth.Samples.{gateway, ann_principal, parse_token, granted_run}
use gongcli_mcp.Gateway.Auth.Principals.{MayPass, authorize_principal_iff}
use gongcli_mcp.Gateway.Auth.Soundness.{Justified, authenticate-Justified}

authenticate-Justified_example :
    Justified (static_verify gateway) parse_token ascii gateway " Bearer good " ann_principal
authenticate-Justified_example =
    authenticate-Justified (static_verify gateway) parse_token ascii gateway false " Bearer good "
      tt ann_principal granted_run

authorize_principal_iff_example :
    (authorize_principal ascii gateway "s1" "Ann@corp.example" [] ≡ none)
    ↔ MayPass ascii gateway "s1" "Ann@corp.example" []
authorize_principal_iff_example = authorize_principal_iff ascii gateway "s1" "Ann@corp.example" []
