-- ===== src/Lib.antt =====
-- openworkers-runtime-nova runs a worker on the nova JavaScript engine. The host, in Rust, keeps
-- one engine per worker, evaluates a platform layer and the user's script in it, and then answers events: it
-- evaluates a dispatcher, runs the jobs that the engine queued, waits for binding answers and timers, and reads
-- what the guest handed back. This library models the host and proves what makes it correct.
--
-- The parts, and the files that model them:
--   Prelude      what the modules share: Boolean tests, lists, `Result`, `Outcome` (Rust that returns or
--                panics), texts as their UTF-8 bytes.
--   Value        what crosses between the guest and a native function.
--   Hex          src/crypto.rs: `from_hex` and `to_hex`.
--   Timers       src/worker.rs: `Timer`, `native_timer_start`, `native_timer_clear`, `next_timer`; Timers/Queue: the
--                priority queue that they stand for; Timers/Intervals: the beat of intervals.
--   Future       Rust futures, as functions of the instant of their first poll.
--   Bindings     src/bindings.rs: `answer` and what it calls.
--   Compression  src/compression.rs: the table of codecs and `native_compression`; Compression/Pushes: one push, by its
--                bytes and its writer; Compression/Streams: many streams
--                at once; Compression/RoundTrip: compression and back.
--   Host         src/worker.rs and src/bindings.rs: `HostSlots`, the hooks, and the native functions that use them.
--   Engine       the engine as a program of native calls, run against the host; Engine/Convert: the native functions with
--                the guest code that the conversions of their arguments run; Engine/Describe: `describe`.
--   Worker       src/worker.rs: `eval`, `drain_jobs`, `drain`, and in its modules how they end (Drain, Leftovers,
--                Termination, Deadline) and which timer fires (Firing); Worker/Lifetime: what `build` leaks, and `Drop`.
--   Exec         src/worker.rs: `dispatch`, `take_outcome`, `handle_fetch`, `handle_task`, `exec`, `abort`.
--   Url          src/url.rs: `apply` and the setters; Url/Components: `native_url`, `components`, and in Sets the calls that
--                a setter stands for.
--   Build        src/worker.rs: `surface`, `build`, `new`, `new_with_ops`; src/bindings.rs: `env_source`.
--   Session      the life of a worker: `build`, then `exec` and `abort` in any order.
--   Crypto       src/crypto.rs: `native_digest`, `native_hmac`, `native_aes_gcm` past the conversion of arguments;
--                Crypto/Natives: those conversions, and `native_random`; Crypto/Ecdsa: `native_ecdsa`.
--   Encoding     src/encoding.rs: `native_encoding`.
--   UrlPattern   src/url_pattern.rs: `native_url_pattern`.
--   Globals      src/worker.rs: `initialize_global_object`; Globals/Calls: what the guest's calls of the globals reach.
--   Conformance  examples/conformance.rs: `header_diff`, `body_diff`, `dispatch`, `run`, `main`.
--   Ssr          examples/ssr.rs; Ssr/Phases, Ssr/Timings and Ssr/Report: the other programs under examples.
--   Examples     concrete engines and crates for the tests.
--
-- How they fit: Exec calls Worker, which runs programs of Engine; those call the native functions of Host, which
-- keep their state in Timers, Compression and the queue of Bindings' answers. A Rust function that changes the worker
-- takes it and gives it back. Where a Rust function may panic, its model gives an `Outcome`; where it
-- awaits, a `Run`, which is also `hung` for a future that never ends.
--
-- The engine is a parameter: a script or a job is a program that takes time, queues jobs, calls native functions,
-- goes on from their replies, and ends with a new engine state and maybe an error. Guest code that the conversion of an
-- argument runs is part of the program, before the call of which Host has the rest. The crates nova_vm,
-- tokio, flate2, url, urlpattern, encoding_rs, serde_json, base64, p256, p384 and openworkers_core are parameters too
-- (Platform, Flate, UrlCrate, Getters, Quirks, Encodings, Serde, Core, Wire, Crypto, Curve, Objects). What a theorem
-- needs of one is among its hypotheses.
--
-- Instants and durations are counts of nanoseconds. The bounds of `Duration` and `Instant` are those of Linux. The
-- counters `timer_seq`, `dispatches` and `next` wrap around at their widths. `drain_jobs` has the bound of the source,
-- 10000 turns. The loop of `drain` has none in the source, so `drain` takes fuel, and is `starved` where
-- the fuel runs out before the loop ends. Worker/Termination is about how much is enough. The loop that draws a
-- key in `ecdsa_curve` has no bound either, and takes fuel in the same way.
--
-- Not modelled: `host_slots`, a cast, and the failure of an allocation in `buffer_of`; the JavaScript files of the
-- platform layer; of the programs under examples, the clock, the reading of the memory, the mean and
-- the printing; and the tests.
pub mod Prelude
pub mod Value
pub mod Hex
pub mod Timers
pub mod Future
pub mod Bindings
pub mod Compression
pub mod Host
pub mod Engine
pub mod Worker
pub mod Exec
pub mod Url
pub mod Examples
pub mod Build
pub mod Conformance
pub mod Crypto
pub mod Encoding
pub mod Globals
pub mod Session
pub mod Ssr
pub mod UrlPattern
