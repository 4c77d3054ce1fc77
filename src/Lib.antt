-- ===== src/Lib.antt =====
-- gongctl and gongmcp: a governed local cache of Gong calls, a read-only MCP server over it, and an
-- OAuth gateway in front of that server.
--
-- The program's parts and how they meet. `gongctl` (cmd/gongctl, internal/cli) fetches records from
-- Gong's API (internal/gong) and writes them to a store (internal/store) in sync runs
-- (internal/syncsvc, internal/transcripts). Customers whose data must not be used stand in a
-- governance config (internal/governance); a run with a config decides on every call's payload
-- before the store sees it. `gongmcp` (internal/mcp) answers tools from the store. The gateway
-- (cmd/gongmcp-gateway, internal/gateway) authenticates each request with a bearer token,
-- registers clients, and forwards what it admits with headers of its own.
--
-- Files and the code that they model:
--   Prelude: Boolean tests on the native numbers, lists measured by them, Go's maps and sets as
--     association lists and lists, loops, stable sorting and signed integers.
--   Text: what the code uses of strings and unicode, over code points. The tables of the Go runtime
--     beyond ASCII are the parameter Unicode; Text/Ascii is an instance without any.
--   Governance: internal/governance. Name is NormalizeName, Match normalizedContainsTarget, Config
--     the types of config.go with Targets and the checks of ParseYAML, Audit is AuditCandidates,
--     Guard the BlocklistGuard of blocklist.go, and Ingest is EvaluateCallPayload of ingest.go.
--   Gateway: internal/gateway. Config has the settings and list helpers of config.go, Load is its
--     LoadConfig, Claims and Auth the authorizer of auth.go, Server the mcp handler of server.go,
--     Registration is validateDCRRequest of server.go, and Clients the CognitoClientStore of
--     dcr.go.
--   Sync: internal/syncsvc. Keys has the key and context builders, Run the state of a run and the
--     commands to its store, Calls is SyncCalls.
--   Gong: internal/gong/client.go. Client is the request loop of `do` with its retries, Origin its
--     endpoint. Ratelimit: the limiter of internal/ratelimit.
--   Store: the records of internal/store/sqlite/store.go that more than one part reads.
--   Mcp: internal/mcp. Limits is limits.go, Policy policy.go and Participants
--     participant_policy.go without its sums. Of server.go, Json has the readers of decoded JSON,
--     Server the settings that decide what is shown and their options, Calls the tools searchCalls
--     and missingTranscripts, Calls/Detail is getCall, and Requests goes from
--     handlePayload to executeTool, behind ServeHTTP in Http. Facade is the routing of facade.go.
--   Transcripts: internal/transcripts. Batches, Response, Run and Sync are syncMissingWithBatch of
--     sync.go with what it calls, Snippet is boundedSnippet of service.go.
-- A child module of one of these states what its name says of the parent's code; the modules Tests
-- and Samples run the definitions on small inputs.
--
-- State and effects. The client store's cache is passed through its calls. The world of a sync run,
-- which is the Gong client, the store and the file system behind their interfaces, is a type with
-- functions that answer each request and command; a run also keeps the list of what it asked, the
-- latest first. The authorizer takes the verifier of clients in the same way, and the MCP server the
-- code of its tools, of which it keeps the names that ran. The tools that are modelled themselves only
-- read the store, which is then a function from queries to answers. Errors are values.
--
-- Fuel. The loop over pages of SyncCalls takes fuel, since Gong decides how often it turns; it ends
-- by itself when a cursor comes back, so that a bound on the cursors is a bound on the fuel. The loop
-- over batches takes as much fuel as there are calls, and each batch has one at least. All other loops
-- are structural. A Go `int` that only counts is a natural number; one that a caller sets is signed.
--
-- What is not modelled. The JSON, YAML and JWT libraries, SHA-256, URL parsing, net/http and AWS
-- belong to other projects: they are parameters or data, and so is the fingerprint of a config,
-- which hashes its JSON. The SQL of the stores, the tools of internal/mcp beside the three named, its
-- cohort tokens and framing, the commands of internal/cli, and the files and processes around them
-- are left out; internal/profile, the one-by-one sync of internal/transcripts and the
-- other runs of internal/syncsvc are not modelled either.
pub mod Prelude
pub mod Text
pub mod Governance
pub mod Gateway
pub mod Sync
pub mod Gong
pub mod Store
pub mod Mcp
pub mod Transcripts
pub mod Ratelimit
