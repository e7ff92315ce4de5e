-- ===== src/Lib.antt =====
-- lspgraph explores the call graph of a repository through a language server. The crate
-- crates/lspgraph-core talks to the server and keeps the graph, and crates/lspgraph-tui is the
-- terminal interface over it.
--
-- The parts, from the wire to the screen:
--
-- - Codec (crates/lspgraph-core/src/transport/codec.rs): `encode` and the `Decoder` of
--   Content-Length frames. A `usize` has 64 bits and wraps as in a release build; the panic of a
--   slice is an outcome.
-- - Transport (crates/lspgraph-core/src/transport/mod.rs): the connection. `read_loop` decodes the
--   chunks that arrive, delivers responses to the requests that wait, answers the server's own
--   requests, and passes on notifications. Transport/Loop holds the loops. The inner loop runs on
--   fuel: one more than the bytes of the buffer, of which every message takes at least four. How each
--   write ends, by an error or not, is listed in the state, and a panic of the decoder ends the
--   reader's thread before its clean-up. Transport/Callers has the callers of `request` and the
--   reader's thread as steps in any order, and Transport/Awaited what comes of it. Transport/Link is
--   the connection as one caller sees it, with the turns in which the reader reads; Transport/Ordered
--   relates the two.
-- - Server (crates/lspgraph-core/src/server.rs): the process and the calls of the protocol, over a
--   record of the connection's operations. Server/Calls has the methods, Server/Linked puts the
--   connection of Transport/Link under them, and Server/Expanded the engine over them.
-- - Graph (crates/lspgraph-core/src/graph.rs): nodes, edges, their states, the removal of a file, and
--   the mirror that is serialized. The hash maps are association lists, of which only lookups are
--   observed; Graph/View has every change on the lookups alone.
-- - Symbols (crates/lspgraph-core/src/symbols.rs): which symbols are named callables,
--   in Symbols/Collect against a filter of the tree, and in Symbols/Workspace the results of a
--   search.
-- - Engine (crates/lspgraph-core/src/engine.rs): `seed`, `expand` and `invalidate_file` over a graph
--   and a record of the server's calls, in Engine/Session in any order. Engine/Seeded, Engine/Memo and
--   Engine/Forgets are about one each.
-- - Readiness, Config, Cache (the files of these names in crates/lspgraph-core/src). Readiness/Wait is
--   `wait_until_ready`; its polling runs on fuel, a round for each second of the timeout and one more.
--   The product in `even_stride` wraps at 2^64, as in a release build.
-- - Protocol and Worker (crates/lspgraph-tui/src/protocol.rs and worker.rs): the thread that owns the
--   engine, as a function from the requests it receives to the events it sends.
-- - App and Keys (crates/lspgraph-tui/src/app.rs and keys.rs): the state of the interface, what an
--   event or a key does to it, and the requests that follow. App/Events and App/Selection are parts
--   of app.rs; Keys/Session runs both kinds of input in any order.
-- - Ui (crates/lspgraph-tui/src/ui): the texts and the lists of each frame, and the box of an error.
-- - Program (crates/lspgraph-tui/src/main.rs): Program/Files lists the source files, on fuel for every
--   directory; Program/Servers finds servers.toml; Program/Startup is `run` up to the worker, over
--   Readiness and Server; Program/System is the session of the two threads and their channels, as
--   steps in any order, of which the loop in Program/Session takes one; Program/Quits is about its end. Program/Run is the whole of
--   `run` and `main`, from the command line to the end of the processes.
-- - Error (crates/lspgraph-core/src/error.rs), and Json, the values of the crate serde_json with the
--   accessors that the code calls.
-- - Base: what all share, with strings as lists of scalar values, bytes as numbers, maps, decimal
--   numbers and UTF-8. Tests has the theorems at concrete inputs.
--
-- Parameters of the model are the crates url, lsp_types, toml, serde_json's conversions, sha2 and dirs,
-- the Unicode tables, the spawning of processes and the clock. Fallible calls give a `Result`, and a
-- call that changes state gives the state behind it. Durations are nanoseconds. Sums of positions
-- in the views are taken on unbounded numbers.
--
-- Not modelled: the setting up of the terminal and the messages before it, the drawing and layout of
-- the crate ratatui, the poisoning of a lock, failures of a send on a channel, the overflow of an
-- instant behind the deadline, the tests, the fixtures and the example.
pub mod Base
pub mod Error
pub mod Graph
pub mod Codec
pub mod Symbols
pub mod Protocol
pub mod App
pub mod Keys
pub mod Json
pub mod Engine
pub mod Worker
pub mod Config
pub mod Readiness
pub mod Ui
pub mod Cache
pub mod Server
pub mod Transport
mod Tests
pub mod Program
