-- ===== src/Lib.antt =====
-- aethercore: the logic of the Go code of the agent kernel, its modules and gateways.
--
-- The program. A kernel runs tasks with a language model and tools (core), scans inputs and
-- outputs for prompt injections (core/security), keeps a hash-chained audit trail (core/audit),
-- remembers conversations and answers signed queries to a store of embeddings (core/memory,
-- memory), loads modules that answer tasks (sdk), ships one module, a cron-like scheduler
-- (modules/scheduler), knows the other nodes of its network (core/mesh_discovery.go and its
-- neighbours), lets users in by a token (core/auth.go), keeps certificates for its connections
-- (core/mtls.go), and is reached through a command line (cmd/aether) and gateways
-- (gateway/discord, gateway/telegram). The scheduler implements the module interface and hands each
-- due job to the kernel as a module task; the kernel writes audit events for what it does.
--
-- Which file models which part.
-- - Prelude and its children: shared names, Boolean tests, lists, Go maps as association lists
--   with the order of a walk, text as code points with Go's strings functions, the ints with
--   wrap-around, 64-bit words as sets of positions, results `(value, error)`, and goroutines that
--   wait for their turn (Turns).
-- - Audit: core/audit. Audit/Event has Event and Block, Audit/Chain the functions of chain.go
--   (calculateHash, NewChainManager, Append, VerifyChain, LogEvent). Audit/Chain/Verify and
--   Audit/Chain/Commitment hold the theorems. Audit/Appender has local_appender.go, with what the
--   files hold (Rotation) and what a failure of the disk does (Faults).
-- - Scheduler: modules/scheduler. Scheduler/Cron has the functions of cron.go, with its theorems
--   on the loops (Field), the parts (Parse), whole fields and expressions (Ranges) and NextAfter
--   (Next). Scheduler/Jobs has scheduler.go: the table (Table), ticks (Dispatch), and calls and
--   loops in any order as a step relation (Loops).
-- - Security: core/security. Security/Guard has the scanners and the guard that they make
--   together, with theorems on the longest word (Words) and on what the guard passes (Scan);
--   Security/Validator has the key ring and the validator of signed manifests.
-- - Engine: Engine/Tools has core/tool.go and the messages of core/llm/types.go; Engine/Task has
--   the run of one task in core/event_loop.go (executeEphemeral, dispatchTool, verifyToolOutput),
--   with what the model is shown (Clean) and how often it is asked (Calls). Engine/Pool has the
--   queues and workers of the same file, as a step relation over Submit, Start, Stop, workers and
--   readers, with what becomes of a task (Conserved) and of a Stop (Ending); a worker gives what
--   executeEphemeral of Engine/Task gives in some state of the world.
-- - Routers: core/llm: cost_router.go, latency_router.go, fallback_router.go, retry.go and
--   orchestrator.go, with the choice of a router (Choice) and the attempts of a retry (Retry).
-- - Discord: Discord/Frames has gateway/discord/websocket.go, with the round trip of a frame
--   (RoundTrip), messages in parts (Messages) and the end of the loop (Ending); Discord/Session has
--   gateway.go, with what reaches the handler and the waits (Receive); Discord/Router has router.go
--   and the run command of adapter.go; Discord/Client has client.go; Discord/Bot has bot.go and the
--   other commands of adapter.go, with the replies (Replies) and the way from the bytes of the
--   connection to them (Texts).
-- - Telegram: gateway/telegram. Telegram/Poller has poller.go, with which updates reach the handler
--   (Delivery); Telegram/Router has router.go and the run command of adapter.go; Telegram/Client has
--   client.go; Telegram/Bot has bot.go and the other commands, with the replies (Replies, Service).
--   Both adapters hand a goal to the modules of the registry of Sdk.
-- - Mesh: Mesh/Peers has core/mesh_discovery.go, with which nodes are known (Known); Mesh/Log has the
--   log of core/mesh_timeout.go (Purge); Mesh/Tasks has core/mesh_propagation.go and the deadlines
--   of tasks (Deadline).
-- - Auth: core/auth.go, with which tokens are accepted (Verify).
-- - Identity: core/mtls.go. Identity/Keys has the templates and a new pair of certificates,
--   Identity/Store the four files, Identity/Load LoadOrCreateIdentity; Identity/Files, Identity/Held
--   and Identity/RoundTrip say what the files hold and what a later call makes of them.
-- - Cli: cmd/aether. Cli/Commands has the choice of a command, Cli/Account login and deletion, with
--   whose token is kept (Session), Cli/Run a goal through Auth and Engine (Admission).
-- - Memory: Memory/Vectors has memory/vector_store.go, with the best entries (Best);
--   Memory/Signed has memory/signed_store.go, with what a signature covers (Digest) and which
--   requests are served (Exchange); Memory/Storage has core/memory/zestdb_adapter.go and types.go,
--   with the search (Search); Memory/Conversation has core/memory/engine.go (Window).
-- - Sdk: sdk/module.go, context.go, registry.go (Registry) and lifecycle.go (Lifecycle,
--   with StopModule in Stop and StopAll in StopAll);
--   Sdk/Scaffold has sdk/scaffold/scaffold.go: the names (Config, Names), Generate, what it writes
--   (Files, Check, Output) and what it leaves alone (Kept).
--
-- How state and operations correspond. A struct is a record; a method that changes its receiver
-- returns the new record beside its result; an error is an `Option` or the `err` of a result. A
-- call that holds a lock throughout is one step. A Go map is an association list in the order of
-- one walk, and what is proved holds for every order. A time is its nanoseconds since Go's zero
-- time, passed in where the code asks the clock. Text is a list of code points.
--
-- Parameters. SHA-256, JSON, hexadecimal text, PEM, PKIX, Ed25519 and the layout of times; the
-- search of a compiled pattern; the calendar of a location; the hooks of modules; the adapter of
-- the model, the tools, the sandbox and the providers, which act on a world of their own;
-- `sort.Slice` and the wait of a back-off; masking keys and the transport of a gateway;
-- certificates, ECDSA and X.509; the file system's errors; the flag package and text/template; the
-- HTTP transport of the gateways' clients; the arithmetic of float64; the lower case of a text; the
-- answers of the Telegram server and of the cloud that renews tokens; base64, RSA and the file of the token.
--
-- Bounds and fuel. The loop of a task runs on the ten iterations that the code allows, a retry on
-- its number of attempts. The loops that fill a cron bitset run on 128 rounds, which are enough
-- for every step, also one that wraps round (Scheduler/Cron/Field). NextAfter recurs on the 527040
-- iterations that the code allows. ReadText runs on one round more than the bytes of the
-- connection, as every frame takes bytes (Discord/Frames/Ending). Printing a number
-- takes one round more than the number.
--
-- Goroutines. The handlers of the gateways, StopAll, and the engine's workers run in any order. A
-- goroutine of a gateway or of StopAll is one step on the world that they share: what two of them do
-- to the modules or to the network in turns, within one call, is not modelled. The refresh that
-- Authenticate begins in the background has ended, or not, when the file of the token is looked at.
-- A frame of a connection is read into memory that there is; where there is none Go panics.
--
-- Not modelled, being input and output or another language: logging and telemetry, generated gRPC
-- code, what the commands print, the browser of a login, the TLS connections themselves, the
-- handshake of dialWS, the heartbeat of a session, and the Rust runtime.
pub mod Prelude
pub mod Audit
pub mod Scheduler
pub mod Sdk
pub mod Security
pub mod Engine
pub mod Routers
pub mod Discord
pub mod Memory
pub mod Mesh
pub mod Telegram
pub mod Auth
pub mod Identity
pub mod Cli
