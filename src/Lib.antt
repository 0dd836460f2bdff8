-- ===== src/Lib.antt =====
-- Leave: a host that serves a coding workspace to paired phones through a relay that cannot read it.
--
-- Parts and files. Prelude holds what the parts share: tests on numbers, lists, results, texts as
-- UTF-8 bytes, maps as association lists, and bit arithmetic.
--
-- - Policy (crates/leave-protocol/src/lib.rs): roles, capabilities, actions, `authorize`.
-- - Envelope (the same file, proto/leave.proto): `validate_envelope`, the relay's view of a frame.
-- - Tunnel and Base64 (crates/leave-protocol/src/tunnel.rs): `TunnelRequest::validate`, `action_for`,
--   `query_value`, and the base64 of bodies.
-- - Gate (crates/leave-crypto/src/lib.rs): the release gate.
-- - Crypto (crates/leave-crypto/src): Codec is codec.rs, Storage is provider.rs with the saved form of
--   session.rs, Vault is vault.rs, Pairing is pairing.rs, Session is session.rs with two functions of
--   identity.rs. Primitives and Sample hold the hashes as a parameter and a concrete instance.
-- - Relay (apps/relay/src): Routes is routes.rs; Http, Socket and Config are the handlers, the two
--   socket loops and `config_from_environment` of lib.rs.
-- - Host (apps/leave/src/relay_tunnel.rs): Registry is `DeviceRegistry` and `permitted`, Handle is
--   `handle` and `dispatch`, Revoke is `revoke`, Serve is `serve_route`.
-- - Store (crates/leave-core/src/event_store.rs, migrations/host.sql): `EventStore`.
-- - Files (crates/leave-core/src/guarded_fs.rs): `WorkspaceRoot` and `GuardedFileSystem`.
-- - Acp (apps/leave/src/acp.rs): Events is the state of the worker and `publish_event`, Sessions is
--   sessions and prompts, Permissions is requests and their answers, Loop is `AcpHandle::start` with
--   the command loop and the handlers of `run_worker`.
-- - LocalServer (apps/leave/src/local_server.rs): Errors, Access (who may call), Router (which
--   endpoint a request reaches), Hosts (its own names), Handlers, and Sockets (the loops of the WebSockets). Paging is about
--   a client that reads events page by page.
-- - Git with Process (apps/leave/src/git.rs): the operations, and Status is `parse_status`.
-- - Customization (apps/leave/src/customization.rs), with the skills of the project in Skills.
-- - Preview (apps/leave/src/preview.rs): the manager and the task that drives a browser.
-- - Transport (crates/leave-transport/src/lib.rs): `RelayClient`.
--
-- How they interact. A phone's frame passes the relay (Socket checks its Envelope and its rate, and
-- fans it out), reaches `serve_route` of the host, and is a pairing frame (Crypto.Pairing) or is
-- opened by the session (Crypto.Session). An opened message is a revocation (Host.Revoke) or a request
-- (Tunnel), which Host.Handle validates and holds against the registry by Policy before the workspace
-- sees it. What it sees then is the router of LocalServer, whose handlers call the worker of
-- Acp, the Store, Files, Git, Customization and Preview. LocalServer.Rights holds the router against
-- the policy of the tunnel, Acp.Laws the worker against the invariant of the store, and Transport the
-- host's frames against the relay's check.
--
-- State. Each operation takes the state and returns it changed. `Result` is Rust's, with `?` as the
-- bind of a `do` block; `none` stands for an error whose text nobody reads. Numbers are natural
-- numbers with the source's bounds written out. Loops are recursion on the list of messages, rows or
-- bytes, or on the declared count, so no bound on steps is chosen; printing a decimal `u32` has ten
-- steps, as many as it has digits.
--
-- What other crates do is a parameter: the hashes (`Primitives`), the cipher of the vault (`Cipher`),
-- openmls (`Mls`), serde_json and axum (`Service`), the file system (`Disk`), the parsers of addresses
-- and uuids. What a theorem assumes of them stands among its hypotheses or in the record's laws, and
-- the modules named Sample and Tests have instances. Random identifiers and keys, the time, and what
-- others do between two accesses to shared state are arguments: `Others` of Files is what other
-- programs do to the disk behind each access of a write, and `Stamp` of Acp says, beside the time and
-- the identifier of an event, which statements SQLite carries out and whether the connection takes a
-- response. A response that fails ends its task in front of the event; `answers` of the worker has
-- each response that was given to the connection.
--
-- A handler of the worker or of the server runs as one step, and an execution is a list of steps in any
-- order; what the agent, the clock, Git, `devin` and the browser contribute is in the step. What a
-- program does to the computer is the parameter `Program` of Process; the theorems on runs use an
-- instance that records the arguments it is given.
--
-- Not modelled: terminals, the handlers of the local server that only pass a call on, the start of
-- Chromium, the directory listing and the sorted listings of the store, and the command line, the
-- setup server, away mode, service installation, the WASM binding and the web application (I/O, glue,
-- or another language). Paths follow the rules of Unix.
pub mod Prelude
pub mod Policy
pub mod Envelope
pub mod Gate
pub mod Tunnel
pub mod Base64
pub mod Crypto
pub mod Relay
pub mod Host
pub mod Store
pub mod Files
pub mod Acp
pub mod Process
pub mod Git
pub mod Customization
pub mod LocalServer
pub mod Transport
pub mod Preview
