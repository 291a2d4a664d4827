-- ===== src/Lib.antt =====
-- Verification library of the agent gateway (src/openagent_control): the governed execution of tool
-- calls with the adapters behind its ports, the routes in front of it, the control plane, the signed
-- audit ledger, and the SDK by which agents call the gateway.
--
-- The program. A gateway stands between AI agents and the tools that they call. For each request
-- `GovernedExecutionService` (src/openagent_control/application/governed_execution.py) identifies the
-- agent, looks it up in the registry, verifies the user that a subject token names, asks the policy
-- engine, records a signed receipt and exports it, and only then, for `execute`, obtains a credential
-- and forwards the call to the upstream. The registry adapter answers the lookups, and operators change
-- it through the control plane. The ledger adapters link the receipts by their hashes and sign them, and
-- the receipt query walks that chain. An upstream may be a router in front of several servers. Requests
-- come in through the HTTP routes or the MCP server, from agents' own code by way of the SDK; operators
-- use the control plane, which shares the registry's and the ledger's tables with the gateway.
--
-- The files. Paths are those under src/openagent_control.
--   Prelude, Text, Dict, Json, Exec, Http, Access: texts, dicts in the order of insertion, JSON values, and
--     computations on a state that may raise. The errors of Exec are the classes of domain/errors.py,
--     and `uncaught` for Python's own. Http is what the adapters use of httpx, Access what a wrong shape
--     of a JSON value raises.
--   Models: the records of domain/models.py.
--   Governed: application/governed_execution.py. Service has its constructor's fields and the ports,
--     as functions on an environment; a World adds the trace of the calls of ports, newest first.
--     Subject is `_bind_subject` and the header lookups, Listing is `_filter_listing`, Flow is
--     `_authorize`, `authorize`, `_broker_credential` and `execute`, cut where the code has its blocks.
--     Stages says what a decision that returned went through, Keeps what calls of ports preserve, and
--     Lookup where a call's registration comes from; on them stand Permit, Effects, Gate, Binding,
--     Returns, Projection and Outcomes.
--   Ledger: Encoding is `json.dumps` with sorted keys, `bytes.hex` and `bytes.fromhex`, Documents is
--     `model_dump`, Chain is `record` of adapters/ledger/postgres.py and ed25519_chain.py, Query
--     and Search are adapters/ledger/postgres_query.py. Vault is vault_signer.py and Export is
--     adapters/audit_export/stdout.py. Hex, Verify, Intact and Writers are proofs.
--   Registry: adapters/registry. Cached is caching.py and Files file.py, with Freshness for its proofs;
--     the others are postgres.py over its two tables (adapters/db/tables.py). Grants is the
--     validation of grants in domain/models.py, Tables the rows and `_to_domain`, Directory the methods.
--     Reading, Rows, Changes and Audit are proofs; Revocation ties the registry to the gateway.
--   Routing: adapters/mcp_upstream. Transports is http.py and streamable_http.py, the others routing.py:
--     Merge is `_tools_of` and the loop of `_refresh`, Upstream the class; Answers, FirstWins, Table and
--     Refresh are proofs.
--   Fleet: control_plane/routes/fleet.py, over the registry's list and the receipt query.
--   Identity: Claims is adapters/claims.py and the reading of a bearer token, Discovery the constructors
--     of the OIDC adapters, Workload adapters/identity/header.py, jwt_svid.py and oidc_jwks.py, Subject
--     oidc_subject.py, Operator adapters/operator_identity. Trust, SameHuman, Delegation and Entitlement
--     are proofs; Delegation ties both OIDC adapters to the gateway.
--   Policy: Opa is adapters/policy/opa.py, and Consent ties it to the gateway.
--   Caching: adapters/token_exchange. Tokens is caching.py, with Lifetime, Keys and Freshness for its
--     proofs, and Exchanges rfc8693.py, entra_obo.py and stub.py.
--   Gateway: Routes is gateway/routes, Server gateway/mcp_server.py, Settings config.py, and Wiring
--     gateway/dependencies.py, where an adapter is named with the arguments of its constructor.
--   Control: Routes is control_plane/auth.py, routes/agents.py and routes/receipts.py, Wiring
--     control_plane/dependencies.py. Guard is about the routes of routes/agents.py and routes/receipts.py.
--   Diagnostics: Checks is diagnostics.py and Readiness the readyz of gateway/app.py; Named is its proofs.
--   Command: Commands is `cmd_init`, `cmd_migrate` and `cmd_doctor` of cli.py; Agreement compares the
--     last of them with Readiness.
--   Sdk: Client is sdk/client.py, Guard sdk/decorator.py and Tools sdk/langchain.py. Wire, Safety and
--     Refusal connect the client to the gateway's routes.
--   Where one module's theorems use another's operations they name them: Governed takes every port as
--     a field of Service, Revocation instantiates its lookup with the registry's.
--
-- Parameters of the model, since their code is not the repository's: SHA-256, Ed25519, base64 and the
-- signer; httpx, with what a request comes to and when a status raises; the token library, which gives a
-- token's claims, an InvalidTokenError or another exception; the MCP library's sessions and models;
-- `repr` of a value, `hmac.compare_digest` and Python's binding of arguments; pydantic's text of an
-- instant, its reading of a request id, of a truth value and of a record; what a database gives back for
-- a timestamp; Redis, YAML, the file system and the clock; and the ports with whatever state they have.
-- The hypotheses on them: the public key accepts the signer's signatures, and those are bytes
-- (`IsSound`); a timestamp column keeps the instant; a JSON truth value is read as itself (`ReadsBool`);
-- Redis serves only what a key was last set to, before its time is over, and no two texts have the same
-- SHA-256 (`Cached`);
-- a file's time of change names one state of it (`IsVersioned`); a client's posts reach the gateway's
-- route (`IsConnected`, `IsProxied`); and, in Outcomes, two ports raise only their own errors, in Returns
-- that three answer. Random identifiers come in as arguments.
--
-- Bounds and fuel. Python's integers have no bound, nor have these. The loops are recursion on lists and
-- texts; only the decimal digits of a number n are on fuel, n + 1, which is more than it has digits.
--
-- Not modelled: tracing spans; floats in JSON; letters outside ASCII in `lower` and blanks outside it in
-- `strip`; the interleaving of requests, which are handled one after the other, so that a lock or a
-- transaction is one step and a fan-out asks its upstreams in order. The upstreams of Routing answer
-- with any JSON, as HttpMCPUpstream may; the one of Governed with a dict, as its port declares. Nothing
-- is modelled of the frameworks' reading of requests into models and their rendering, of the SDK's other
-- client, which is the blocking one with awaits, of the command line's parser and the commands that
-- start a server, of the set-up of databases, migrations, tracing and logging, and of the examples.
pub mod Prelude
pub mod Text
pub mod Dict
pub mod Http
pub mod Access
pub mod Identity
pub mod Json
pub mod Exec
pub mod Models
pub mod Governed
pub mod Ledger
pub mod Registry
pub mod Routing
pub mod Fleet
pub mod Caching
pub mod Gateway
pub mod Sdk
pub mod Policy
pub mod Control
pub mod Diagnostics
pub mod Command
