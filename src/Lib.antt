-- ===== src/Lib.antt =====
-- h2hc_linker: a gateway that lets browser agents take part in Holochain networks without gossip.
--
-- A browser opens a WebSocket, proves by a signature that it holds an agent's key, and registers the
-- agent for a DNA. The gateway joins the agent to the DNA's space in the peer-to-peer network, routes
-- signals to the connection, asks the browser to sign, and serves HTTP requests that carry the
-- session's token. The parts and the files that model them:
--
--   Auth/Types.antt            src/auth/types.rs: capabilities, allowed agents, sessions
--   Auth/SessionStore.antt     src/auth/session_store.rs: the trait as a record of operations;
--                              SessionStore/Spec.antt is the abstract store (two partial functions)
--                              and SessionStore/Refine.antt what it is for a backend to refine it
--   Auth/Memory.antt           src/auth/memory_store.rs, every operation; Memory/Laws.antt, Race.antt
--   Auth/Sqlite.antt           src/auth/sqlite_store.rs, every operation as SQL statements on tables, any
--                              of which may fail; Sqlite/Tables, Laws, Writes, Errors,
--                              Refinement.antt
--   Auth/Store.antt            src/auth/store.rs (AuthStore) over any backend; Store/Revocation.antt
--                              for one call, Store/Reach.antt for histories of calls
--   Auth/Middleware.antt       src/auth/middleware.rs, with the layers of src/router.rs;
--                              Middleware/Guards.antt
--   Auth/Admin.antt            src/auth/admin.rs; Admin/Removal.antt
--   Proxy.antt                 src/agent_proxy.rs; Proxy/Routing.antt, Proxy/Signing.antt
--   Gateway.antt               src/gateway_kitsune.rs (GatewayKitsune); Gateway/Joined.antt,
--                              Left.antt, Shutdown.antt, Signals.antt, Publish.antt
--   Ws/Messages, State, Login, Registration, Connection.antt
--                              src/routes/websocket.rs: one function per message, and `cleanup` for
--                              what follows the loop of `handle_socket`; Ws/Guarded, Cases,
--                              Authenticated, Effects, Cleanup.antt
--   Ws/Socket.antt             src/routes/websocket.rs: the loop, as the turns that its `select!` finds;
--                              Socket/Ends.antt (its end), Silence.antt and Heard.antt (its timeouts)
--   OpStore.antt               src/temp_op_store.rs; OpStore/Retrieval.antt, OpStore/Window.antt
--   Publish.antt               src/routes/publish.rs; Publish/Outcome.antt, Publish/Held.antt
--   Query.antt, Exchange.antt  src/dht_query.rs: the queries, and the exchange with one peer;
--                              Query/Answers, Query/Peers, Exchange/Answered.antt
--   Notify.antt                src/gateway_kitsune.rs (ProxySpaceHandler): the notifications of peers;
--                              Notify/Delivered.antt (signals), Notify/Routed.antt (responses)
--   Preflight.antt             src/wire_preflight.rs and the preflight handlers of
--                              src/gateway_kitsune.rs; Preflight/Cache.antt, Preflight/Race.antt
--   Dht.antt                   src/routes/dht.rs: from the answers of peers (Dht/Wire.antt) to what the
--                              routes give, with Dht/Records.antt; Dht/Routes.antt the requests,
--                              Dht/Handlers.antt the handlers; Live, Links, Agreement, Refused.antt
--   NetworkApi.antt            src/routes/kitsune.rs; NetworkApi/Counts, Spaces, Arcs.antt
--   Config.antt                src/config.rs; Config/Read.antt
--   Router.antt                src/router.rs: both routers, from a request to its guards and handler;
--                              Router/Guarded.antt
--   Conductor.antt             src/conductor: the two connections; Conductor/Calls.antt
--   ZomeCall.antt              src/routes/zome_call.rs; ZomeCall/Calls.antt
--   TestSignal.antt            src/routes/test_signal.rs and src/routes/health.rs
--   ProxyAgent.antt            src/proxy_agent.rs
--   Service.antt               src/service.rs: what `LinkerService::new` puts together;
--                              Service/Started.antt, from the environment on
--   Registration.antt          src/registration.rs and RegistrationConfig of src/config.rs, with
--                              Registration/Url.antt and Canonical.antt; Rounds, Order, Sorted.antt
--   Identity.antt              src/identity.rs, over the files; Identity/Persistence.antt
--   Report.antt                src/linker_report.rs; Report/Totals.antt, Report/History.antt
--   Error.antt                 src/error.rs
--   Base.antt                  shared lemmas on tests, lists and maps
--   Tests.antt                 the theorems at concrete inputs
--
-- An operation takes the state and gives the new one. An `async` call runs as one step, except
-- where a file says what may happen in between: a signature request takes as an argument what other
-- tasks do while it waits, a query to a peer a list of what happens while it waits, and a
-- connection's history takes the shared state afresh at every message. Hash maps are association
-- lists with distinct keys. Hashes, connections, spaces and URLs are only compared, so they are
-- numbers. The loops of the code run over lists and need no bound, the loop of a connection over
-- the list of its turns; `trim_on` has the length of the text as fuel. The machine-width numbers
-- are the counter of the signature requests (`u64_mod`), the totals of the usage report (`u64`) and
-- the link type of a query (`as_u8`).
--
-- Outside the repository, and so arguments here: parsing, base64, hex and ed25519 (`Host`), kitsune2
-- (`Kitsune`), channels (`try_send`), random tokens and nonces, the clock, HTTP, MessagePack, JSON.
-- SQL runs in a library: a statement is the function on tables that it says. Logging has no
-- counterpart. Not modelled: binding and serving (`run` in src/service.rs), the wiring of the kitsune2
-- builder, the minimal handler of src/kitsune.rs, the command line (src/bin), CORS and body limits,
-- and the JSON text of the answers.
pub mod Base
pub mod Ids
pub mod Host
pub mod Kitsune
pub mod Auth
pub mod Ws
pub mod Proxy
pub mod Gateway
pub mod Error
pub mod OpStore
pub mod Query
pub mod Preflight
pub mod Registration
pub mod Report
pub mod NetworkApi
pub mod Notify
pub mod Exchange
pub mod Dht
pub mod Identity
pub mod Config
pub mod Router
pub mod Conductor
pub mod ZomeCall
pub mod TestSignal
pub mod ProxyAgent
pub mod Service
pub mod Publish
pub mod Tests
