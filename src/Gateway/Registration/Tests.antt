-- ===== src/Gateway/Registration/Tests.antt =====
-- Runs of the registration checks.
use gongcli_mcp.Gateway.Registration.Samples.{registrar, asked, registered, asked_run}
use gongcli_mcp.Gateway.Registration.Validation.{Registrable, validate_dcr_request-Registrable}

validate_dcr_request-Registrable_example : Registrable registrar asked registered
validate_dcr_request-Registrable_example =
    validate_dcr_request-Registrable registrar asked registered asked_run
