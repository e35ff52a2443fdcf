-- ===== src/Lib.antt =====
-- ServerGlass shows what a server does, over one SSH session and without an agent on the server. A
-- collector asks for files and commands; the transport compiles all requests of a refresh into one
-- shell script, sends it in one round trip and parses the framed reply; the collectors read the
-- responses; the rate engine turns counters into rates; the live store keeps a bounded window of
-- each series for the screens; the runtime connects, refreshes and reconnects. Two devices can hand
-- their servers and pinned host keys to each other, which the sync library merges.
--
-- Files and what they model, each function under its name in the source where it has one:
--   Model: crates/sg-model/src. Ids (ids.rs), Measure (unit.rs), Series (series.rs), Entity
--     (entity.rs), Request (request.rs), Caps (caps.rs), Sample (sample.rs), Source (source.rs).
--     The trait Source is a record of its methods; parse returns the sink that it was lent.
--   Transport: crates/sg-transport/src. Quote (quote.rs), with Quote/Shell, an independent reader of
--     shell words; Frame (frame.rs); Error (error.rs); Probe (probe.rs); HostKey (the decision on a
--     server's key in session.rs); Receive (a batch and its receive loop, in session.rs).
--   Core: crates/sg-core/src. Rate (rate.rs), Store (store.rs), Collector (collector.rs), Runtime
--     and Runtime/Steps (runtime.rs, and the states of event.rs).
--   Collect: crates/sg-collect/src. A file for each collector, under its name (DiskIo for diskio.rs),
--     and Builtin (lib.rs). What a collector's parse writes is a list of calls of its sink (Writes),
--     which performing the list carries out.
--   Ffi: crates/sg-ffi/src. View, Format, Tiles, Processes and Snapshot (view.rs, with build_snapshot
--     of lib.rs), State (the connection's state in view.rs), Plain and Assess (plain.rs), Spec (the
--     parameters of a connection, view.rs and crates/sg-transport/src/auth.rs), Registry (the targets
--     of lib.rs), Poll (poll_loop in lib.rs, as steps over the runtime). To the registry, a run of the
--     loop is known by the generation it was started with; what it publishes are steps that come in
--     any order with the calls of the application.
--   Sync: crates/sg-sync/src. Payload (payload.rs), Merge (merge.rs), Transfer (transfer.rs, with the
--     sealing of pairing.rs), Pairing (the handshake of pairing.rs). The key exchange, the key
--     derivation and the cipher are arguments.
--   Base: what these share: texts, maps, numbers, sorting, and lemmas about them.
--   Tests: the theorems at concrete inputs.
--
-- How state is modelled. A method that changes its object takes the object and returns the new one,
-- with its result. A loop is a recursive function over the list that the source iterates, with the
-- loop's variables as arguments; the arms of a match are functions by clauses. Texts are lists of
-- Unicode scalar values, and their byte length counts UTF-8. Maps and sets are association lists and
-- lists; no theorem depends on the order of a map's entries. f64 is any type with the operations of
-- Base/Float, an instance argument: no law of arithmetic is assumed; a decimal text is read to a
-- mantissa and an exponent, and Unicode's lower case is an argument. Machine integers are natural
-- numbers, with the wrap-around written out where the code can reach it (the FNV-1a hash, the sums of
-- the collectors, the generations of a target, the counts of processors and of attempts); saturating
-- operations are written as the source has them.
--
-- The network. A session's answers are given to the runtime as a record of functions (Network in
-- Core/Runtime), what a channel yields as a list of messages (Transport/Receive), and what the file
-- system and russh say of a key as a record (PinStore in Transport/HostKey). Nothing is assumed of
-- them, so that the theorems hold whatever a host answers, errors included. The clock is an argument.
--
-- Fuel. The decoder's loop (Transport/Frame, decode_loop) runs on fuel, one more than the length of
-- the stream: every round consumes a part of the stream, so the loop ends before the fuel does. The
-- runs of the loop without fuel are the data type Decodes of Transport/Frame/Fuel.
--
-- Not modelled: starting the SSH connection and its shell, authentication and the ciphers, which are
-- third-party code and calls of it; the text form of a pairing offer; the waits of the
-- FFI layer, its C interface and its bindings; the applications under apps; serialisation, Debug,
-- and most of Display.
pub mod Base
pub mod Collect
pub mod Model
pub mod Transport
pub mod Core
pub mod Ffi
pub mod Sync
pub mod Tests
