-- ===== src/Gateway/Server/Tests.antt =====
-- Runs of the handlers.
use gongcli_mcp.Prelude.{◌≡◌, String, false, some, [], ◌∷◌}
use gongcli_mcp.Prelude.Int.{pos}
use gongcli_mcp.Text.Ascii.{ascii}
use gongcli_mcp.Gateway.Auth.{static_verify}
use gongcli_mcp.Gateway.Auth.Samples.{gateway, parse_token, ann_principal, granted_run}
use gongcli_mcp.Gateway.Server.{
  Headers, Request, forward, header_values, header_get, header_del, header_set, tagged,
  copy_headers, allowed_upstream_headers, principal_label, rewrite_headers, write_cors_headers,
  origin_refused, answer, answered, mcp,
}
use gongcli_mcp.Gateway.Server.Isolation.{IsLabel, ip_values, rewrite_headers-isolated}
use gongcli_mcp.Gateway.Server.Admission.{Admitted, mcp-Admitted}

abbrev spoofed : Headers
spoofed =
    ("Authorization", " Bearer good ")
    ∷ ("X-Gongctl-Principal", "root")
    ∷ ("X-Forwarded-For", "10.0.0.1")
    ∷ ("Accept", "text/plain")
    ∷ []

abbrev post : Request
post = record {
  method = "POST";
  path = "/mcp";
  content_length = pos 12;
  headers = spoofed;
  host = "gw.example";
  remote_ip = some "192.0.2.7";
  tls = false;
}

abbrev rewritten : Headers
rewritten =
    ("X-Forwarded-Proto", "http")
    ∷ ("X-Forwarded-Host", "gw.example")
    ∷ ("X-Forwarded-For", "192.0.2.7")
    ∷ ("X-Gongctl-Principal", "Ann@corp.example")
    ∷ ("Authorization", "Bearer internal")
    ∷ ("Accept", "text/plain")
    ∷ []

forwarded_run :
    (mcp (static_verify gateway) parse_token ascii gateway false post tt).0 ≡ forward rewritten []
unfolding mcp answered answer origin_refused write_cors_headers rewrite_headers
    allowed_upstream_headers copy_headers tagged header_set header_del header_get header_values
    principal_label
forwarded_run = rw granted_run

mcp-Admitted_example : Admitted (static_verify gateway) parse_token ascii gateway post rewritten
mcp-Admitted_example =
    mcp-Admitted (static_verify gateway) parse_token ascii gateway false post tt rewritten []
      forwarded_run

rewrite_headers-isolated_example :
    (label : String) × IsLabel ann_principal label
    × (header_values "X-Forwarded-For" (rewrite_headers gateway ann_principal post)
        ≡ "192.0.2.7" ∷ [])
unfolding ip_values
rewrite_headers-isolated_example =
    rewrite_headers-isolated gateway ann_principal post "X-Forwarded-For"
