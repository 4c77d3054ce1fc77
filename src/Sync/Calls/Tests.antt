-- ===== src/Sync/Calls/Tests.antt =====
-- A run over two pages, one of whose calls a config keeps out.
use gongcli_mcp.Prelude.{
  String, ◌==◌, ◌≡◌, refl, true, false, Option, none, some, [], ◌∷◌, All, if◌then◌else◌, arith,
  Bool-cases, inl, inr, subst,
}
use gongcli_mcp.Prelude.Int.{pos}
use gongcli_mcp.Prelude.Sets.{has}
use gongcli_mcp.Text.{is_nil, trim_space}
use gongcli_mcp.Text.Ascii.{ascii}
use gongcli_mcp.Governance.Config.{Config}
use gongcli_mcp.Governance.Ingest.{Decoder}
use gongcli_mcp.Sync.Run.{CallsParams, CallListParams, CallsPage, Fetched, body, Command}
use gongcli_mcp.Sync.Calls.{sync_calls}
use gongcli_mcp.Sync.Calls.Governed.{Permitted, sync_calls-Permitted}
use gongcli_mcp.Sync.Calls.Balance.{Settled, sync_calls-Settled}
use gongcli_mcp.Sync.Calls.Fuel.{IsDone, sync_calls-IsDone}

abbrev acme : Config
acme = record {
  version = pos 1;
  lists =
      (
        "no_ai",
        record {
          description = "";
          action = "";
          customers = record { name = "Acme"; aliases = []; reason = ""; notes = "" } ∷ [];
        },
      )
      ∷ [];
}

abbrev json : Decoder
json = record { object = λ raw. some (("id", raw) ∷ []); text = λ raw. some raw }

abbrev params : CallsParams
params = record {
  from = "2024-01-01";
  to = "2024-02-01";
  cursor = "";
  context = "";
  preset = "business";
  max_pages = pos 0;
  expose_parties = false;
  expose_highlights = false;
  governance = some acme;
}

-- A store that takes every command.
abbrev store : Unit {0} → Command → Option String × Unit {0}
store w c = (none, tt)

abbrev fetch : Unit {0} → CallListParams → Fetched × Unit {0}
fetch w request = (body (if is_nil request.cursor then "first" else "last"), tt)

abbrev first_page : CallsPage
first_page = record { items = "{acme renewal}" ∷ "{intro}" ∷ []; cursor = " c2 " }

abbrev last_page : CallsPage
last_page = record { items = "{demo}" ∷ []; cursor = "" }

abbrev decode : String → Option CallsPage
decode text = if text == "first" then some first_page else some last_page

fingerprint : Config → String
fingerprint cfg = "f00d"

sync_calls-Permitted_example :
    All
      (Permitted ascii acme)
      (sync_calls store json ascii fingerprint fetch decode params 5 tt).1.commands
sync_calls-Permitted_example =
    sync_calls-Permitted store json ascii fingerprint fetch decode params 5 tt acme refl

sync_calls-Settled_example :
    Settled (sync_calls store json ascii fingerprint fetch decode params 5 tt)
sync_calls-Settled_example =
    sync_calls-Settled store json ascii fingerprint fetch decode params 5 tt

page_of_some : (page other : CallsPage) → some page ≡ some other → page ≡ other
page_of_some page other e = ground arith

abbrev IsWithin : CallsPage → Type 0
IsWithin page =
    is_nil (trim_space page.cursor) ≡ false → has (trim_space page.cursor) ("c2" ∷ []) ≡ true

first_page-IsWithin : IsWithin first_page
unfolding trim_space
first_page-IsWithin h = refl

last_page-IsWithin : IsWithin last_page
unfolding trim_space
last_page-IsWithin h = cc

cursors-IsWithin : (text : String) (page : CallsPage) → decode text ≡ some page → IsWithin page
cursors-IsWithin text page e = elim (Bool-cases (text == "first")) [
  | inl first ↦ subst IsWithin (page_of_some first_page page (rw first at e)) first_page-IsWithin
  | inr last ↦ subst IsWithin (page_of_some last_page page (rw last at e)) last_page-IsWithin
]

sync_calls-IsDone_example :
    IsDone (sync_calls store json ascii fingerprint fetch decode params 5 tt)
sync_calls-IsDone_example =
    sync_calls-IsDone store json ascii fingerprint fetch decode params 5 tt ("c2" ∷ [])
      cursors-IsWithin (omega arith)
