-- ===== src/Lib.antt =====
-- eryx runs Python in a WebAssembly sandbox. Guest code reaches the host through callbacks, a virtual
-- file system and network connections; this library models the parts of the host that keep state on
-- behalf of a sandbox, and the pool that hands sandboxes out.
--
-- Prelude holds the shared names: Boolean tests, results, lists over native numbers, the equality of
-- keys, and HashMap and HashSet as lists with their laws. The order in which the real tables iterate
-- is not modelled. Texts are lists of bytes.
--
-- Replay models crates/eryx/src/replay.rs with the errors of crates/eryx/src/callback.rs. A script
-- that stops in a callback is run again from the journal of its calls. Replay/Journal has the entries
-- and `CallbackOutcome`, Replay/Fnv the hash of the arguments, Replay/State `ReplayState` with
-- `decide`, `record_live`, `record_suspend` and `build_journal`, and Replay/Callback
-- `ReplayCallback::invoke` in its two halves: the decision, made when the callback is called, and what
-- is recorded when the real one ends. Replay/Schedule lets the halves of several calls come in any
-- order. JSON values are a type parameter, and the canonical text of the arguments is given with the
-- call. Sequence numbers are unbounded and the counter of replayed calls is 32 bits wide, as in the
-- source.
--
-- Pool models crates/eryx/src/pool.rs: Pool/State has the operations of `SandboxPool` and of the guard
-- `PooledSandbox`, Pool/System what clients can do with it as a step relation. The semaphore is the
-- number of its permits; how a wait for a permit ends, how long it took, what the builder makes and
-- the time are arguments. Sandbox has the fields of crates/eryx/src/sandbox.rs that a request sets,
-- with their setters and `clear_per_request_state`.
--
-- Vfs models `InMemoryStorage` of crates/eryx-vfs/src/storage.rs with the errors of
-- crates/eryx-vfs/src/error.rs: Vfs/Path has `normalize_path` and `parent_path`, Vfs/Storage the state
-- and the operations on files, Vfs/Storage/Directories `list`, `mkdir`, `rmdir` and `mkdir_sync`,
-- Vfs/Storage/Rename `rename`, and Vfs/Storage/Operation the calls of the trait that change a storage
-- as data, except `mkdir_sync`. The lock
-- makes each call atomic, so a call is a function of the state; a snapshot is the state itself.
-- Offsets and lengths are 64 bits wide and their sums wrap, as in a release build; where the slice
-- that follows is out of order the call panics, which is an outcome of its own. Memory does not run
-- out.
--
-- Vfs/Streams has the streams of crates/eryx-vfs/src/streams.rs on that storage, which is shared, so
-- that each call takes its state and returns it. Vfs/Descriptor has the descriptors of
-- crates/eryx-vfs/src/wasi_impl.rs. Vfs/Hybrid models crates/eryx-vfs/src/hybrid.rs, hybrid_host.rs
-- and hybrid_bindings.rs, where paths of the storage stand beside directories of the host:
-- Vfs/Hybrid/Restricted has `RestrictedDir`, Vfs/Hybrid/Host the calls on a descriptor,
-- Vfs/Hybrid/Paths those with a path below one, Vfs/Hybrid/Opening `open_at`, Vfs/Hybrid/RealStreams
-- the streams on files of the host, and Vfs/Hybrid/System the calls on handles. cap_std is an
-- interface over a state of the host, the table of wasmtime one with its errors as texts, and the hash
-- of a path an argument. Vfs/Host and Vfs/Host/Opening have the calls of crates/eryx-vfs/src/host.rs,
-- which knows the storage alone, on a descriptor; the two hosts share the types of their replies.
--
-- Net models crates/eryx/src/net.rs: Net/Config has `NetConfig`, its builders and the errors,
-- Net/Pattern the host patterns and `check_host_allowed`, Net/Connections the `ConnectionManager`,
-- Net/Requests and Net/Strings what is read off a request and the text functions of Rust that are
-- called, Net/Substitution the substitution of secrets in header lines, and Net/Http the parser on
-- writes with `tcp_write` and `tls_write`. Sockets are numbers, and what the network does, in a
-- lookup, a connect, a handshake, a read or a write, is a function of the timeout. `from_utf8_lossy`
-- and the parse of a length are arguments. The counters of the parser do not overflow. The order in
-- which secrets are substituted is that of their list.
--
-- Secrets has the placeholders, the policies and `scrub_placeholders` of crates/eryx/src/secrets.rs;
-- the hex digits of the random bytes are an argument. Handler models
-- crates/eryx/src/callback_handler.rs with the requests of crates/eryx/src/wasm.rs and the events of
-- crates/eryx/src/trace.rs: Handler the callback requests and their futures, Handler/Runs the loop of
-- `run_callback_handler` as a step relation, Handler/Drain the wait at its end, Handler/Output the collectors of output and of traces,
-- and Handler/Network `run_net_handler`, which serves the requests of a guest from the
-- `ConnectionManager` of Net. Callbacks, the text and the parser of JSON values, and the time that a
-- callback takes are arguments.
--
-- Server/Journal has the journals of crates/eryx-server/src/replay.rs, which carry the entries of
-- Replay between requests under a signature, and the choice in crates/eryx-server/src/service.rs of
-- the journal that a request replays. The encoding of an entry and the MAC are arguments; lengths that
-- are put in front are cut to their bytes, as in the source.
--
-- Scrubbing models `ScrubbingStorage` of crates/eryx-vfs/src/scrubbing.rs over the storage in memory.
-- Which bytes are UTF-8 is an argument. Of its calls only `write` and `write_at` are there, since the
-- others pass on to the inner storage.
--
-- The loop of `replace_bytes` has fuel, a round for each byte of the haystack and one more, which is
-- enough unless the needle is empty; a scrub that runs out is `none`. The digits of a 32-bit number
-- have fuel for ten. Every other loop runs over a list.
--
-- Not modelled: the TLS configuration of net.rs, which is of rustls; the scrub of bytes in
-- crates/eryx/src/secrets.rs, which the crate does not call; sessions, caches and packages, and the
-- rest of the server, which are components of their own; the WebAssembly executor, the runtime crates
-- and the language bindings, which drive other libraries.
pub mod Handler
pub mod Net
pub mod Pool
pub mod Prelude
pub mod Replay
pub mod Sandbox
pub mod Scrubbing
pub mod Secrets
pub mod Server
pub mod Vfs
