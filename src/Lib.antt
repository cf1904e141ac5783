-- ===== src/Lib.antt =====
-- Ozy brokers the tools of many MCP servers: an index run lists the tools of the configured servers
-- into a catalog, findTool ranks the catalog, and callTool invokes one tool on one server. This
-- library models the parts that decide what is searched, called, cached, stored and shown.
--
-- The parts and how they meet:
-- * internal/schema/schema.go is Schema, on the JSON values of Json: `Validate` of callTool's
--   arguments.
-- * internal/contract is Contract: error kinds, structured errors, verdicts and call results. A
--   message is the template that the code formats, with its arguments; instructions are left out.
-- * internal/catalog is Catalog: the in-memory store of memory.go is Catalog/Memory, the durable one
--   of file.go is Catalog/File. A map is an association list whose order stands for Go's open
--   iteration order; the stores' locks make each operation atomic, so it is a function on the state.
--   Catalog/Memory/AsStore gives the in-memory store to the indexer.
-- * internal/config is Config: config.go's sections in Config, its defaults and validation in
--   Config/Rules, and redact.go's view in Config/Redact. Decoding stands before the model: a `Raw`
--   record has `none` for an omitted field. `resolveEnv` is Config/Env, and `Load` is Config/Load.
-- * internal/downstream/connector.go is Downstream: the result of a connection, and `scrub`.
--   Downstream/Connect is `Connect`, and `ConnectAll` with its goroutines as slots that take steps.
-- * internal/broker/cache.go is Broker/Cache, over a wrapped broker `Inner` that acts on a world.
--   internal/broker/live.go is Broker/Call (`CallTool`, with the connector, the sessions and the
--   clock as a `Backend`, and its outside contacts as a list), Broker/Reply (results and notices),
--   Broker/Find (`FindTool`, on the engine's ranking), Broker/Budget (`applyCallBudget`) and
--   Broker/Refs (`splitToolRef`); skeleton.go, the broker over the catalog, is Broker/Skeleton.
-- * internal/search is Search: engine.go's `Find` and fusion.go's `Decide`, with float64 as the
--   record `Scores` and the lexical ranking as an argument; lexical.go is Search/Tokens and
--   Search/Lexical, with the record `Bm25` for its arithmetic and constants.
-- * internal/index/index.go is Index: `indexSession` in Index, `reconcile` in Index/Reconcile, `Run`
--   and `flushEmbeddings` in Index/Run, over the records `Store`, `Sink` and `Codec`.
-- * internal/paths/paths.go is Paths. internal/installer is Installer: consent.go is
--   Installer/Consent, state.go and the runner of steps.go Installer/Machine, the steps themselves
--   Installer/Steps over a record `Host`, their list and install.go's `Run` Installer/Install, deps.go
--   and plan.go Installer/Deps and Installer/Plan, pathconfig.go's marked block Installer/PathBlock,
--   and uninstall.go Installer/Uninstall.
-- * internal/sidecar is Sidecar: client.go's `call`, `readLoop` and `Close` are Sidecar/Wire, as the steps
--   of concurrent callers and of the reader on one client; its operations on `call`, and semantic.go's
--   adapter, which the search engine asks, are Sidecar/Client.
-- * internal/daemon/daemon.go is Daemon: it provisions the sidecar once, wires it to the broker and to
--   the index runs, and shuts it down.
-- * internal/eval is Eval: discovery.go is Eval/Discovery, over the engine's answers, invocation.go is
--   Eval/Invocation, over a broker's answers, gate.go is Eval/Gate, and load.go with the types of
--   dataset.go is Eval/Dataset (the documents and their checks) and Eval/Corpus (`Load`).
-- * internal/bench/grader.go is Bench/Grader, `Grade` over a ground truth.
-- Common holds the tests, lists, texts (lists of bytes), maps, sorting and integers they share; a
-- module named Tests holds runs on concrete inputs.
--
-- Every loop of the code ranges over a finite list or map, so every function is total by structural
-- recursion and no fuel is needed; the reader's loop of the sidecar client is a step for each line.
-- Concurrent code is a step relation in which one critical section, or one access of an atomic value
-- or a channel, is one step, and a run is any sequence of steps; Sidecar/Wire says where it takes two
-- of them together. The installer's state file stands apart from the rest of its host. Times, sizes
-- and counts are natural numbers, and the settings that may be negative are integers. Go's int is 64
-- bits wide, which those sizes, times and counts do not reach, and neither does the counter of request
-- ids.
--
-- Parameters stand for what is not in this repository: SHA-256, encoding/json, `%q`, `%d`,
-- path/filepath, strings.ToValidUTF8, the file system's answers, the clock, the Go toolchain, the
-- sidecar's process, and the downstream servers, as the MCP SDK answers for them. strings.TrimSpace
-- and strings.ToLower are those of ASCII texts. The installer's `Host` also answers for the Python
-- environment of internal/sidecar.
--
-- Not modelled: the ergonomics, economy and reports of the evaluation harness, the Python environment
-- and process of the sidecar, the benchmarks but their grader, and the command line, the MCP adapter,
-- rendering and what the installer prints and logs, which run other programs or are glue.
pub mod Common
pub mod Json
pub mod Contract
pub mod Schema
pub mod Catalog
pub mod Config
pub mod Downstream
pub mod Broker
pub mod Search
pub mod Index
pub mod Sidecar
pub mod Daemon
pub mod Paths
pub mod Installer
pub mod Eval
pub mod Bench
