-- ===== src/Lib.antt =====
-- Signalweave relays messages between clients that share sessions and spaces. This library models
-- the components of its core crate and its wire protocol, and proves what makes them correct.
--
-- The program's parts and their files:
--   crates/woven-core/src/ids.rs: Ids
--   crates/woven-core/src/model.rs: Message (delivery classes, keys, messages), Space (frames,
--     positions, routing, the validation of a descriptor)
--   crates/woven-core/src/queue.rs: Queue (`OutboundQueue`, one per connection)
--   crates/woven-core/src/journal.rs: Journal (`JournalOutbox`, the durable messages)
--   crates/woven-core/src/auth.rs: Auth (grants and the development authenticator)
--   crates/woven-core/src/authority.rs: Authority (policies, `RelayOwned`, channels)
--   crates/woven-core/src/core.rs: RateLimit (`PublishRateLimit`, `ConnectionRateLimiter`) and Core
--     (`WovenCore`) with Access (the shared checks), Sessions (channels, sessions, admission, spaces),
--     Connections, Subscriptions, Routing (`routing_recipients`), Cascade (the loop of
--     `remove_entities_and_anchored_spaces`), Removal (what follows the loop), Departure
--     (`leave_session`, `transport_lost`, `advance_space_epoch`), Entities and Transitions
--     (spawning, positions, changes of space), Publishing and StateStore (the checks of a publish,
--     what it stores), Fanout (the queues of its recipients), Publish (`publish_at`)
--     and Snapshot (`snapshot`); Keys orders the keys of the maps
--   crates/woven-core/src/usage.rs: Usage (the counters of a session)
--   crates/woven-core/src/admission.rs: Admission (`AdmissionController`) with Control (its private
--     methods), Expiry (`expire_at`) and Methods (its public methods, and a step for each call)
--   crates/woven-protocol/src/model.rs: Protocol with Numeric (`numeric_enum!`), Kinds and Codes (the
--     enumerations), Payloads (the control messages), Model (`ControlPayload`, `Envelope`), Tables and
--     Wire (the tables of the schema)
--   crates/woven-protocol/src/codec.rs: Protocol with Limits and Checked (limits and lengths),
--     EncodeControl, DecodeControl and DecodeTables (one control message) and Codec (`encode`,
--     `decode`)
--   crates/woven-protocol/src/semantics.rs: Protocol with Scope, Contents and Semantics (`validate`)
-- Prelude holds the helpers: tests, lists, results, and sorted association lists for `BTreeMap`.
--
-- A function of the source keeps its name. A method that takes `&mut self` returns the new state,
-- with its result if it has one; a `Result` is the type of Prelude.Results, whose third constructor
-- is a panic. A `BTreeMap` is an association list in the order of its keys; `get` and `remove` search
-- the whole list.
--
-- Numbers: sums of `u32` and `u64` that the source does not guard wrap; `usize` is unbounded, as no
-- collection reaches its limit. An instant is a number of nanoseconds
-- on the monotonic clock, and the last one is that of an `i64` of seconds; a deadline that would come
-- after it is now, as in the source. `f64` is the parameter `Floats` of
-- Space. A loop of the source is structural recursion; `drain` runs on one more fuel than the queue
-- has messages, as each round takes one, and the cascade of removals on one more than there are spaces
-- and entities, as each round but the last removes another one.
--
-- An operation of the core is its checks, named check_*, and the change that follows when they pass
-- (`commit`). A second look-up of a key that a check has just found is the first.
--
-- A publish and the loss of a transport take the time as an argument, where the source reads the
-- clock. The removal takes the result of the cascade or, had it none, the entities it was given; the
-- fuel of the cascade is enough that it always has one.
--
-- The serialiser of tables, FlatBuffers, is a parameter: a writer and a verifying reader, with the
-- hypothesis `Serialises` that the reader reads back what the writer wrote. A string of the protocol is
-- text, whose length is the number of its bytes.
--
-- Not modelled: the accessors that only count in core.rs; the commands and channels of
-- worker.rs around the calls of the core; the windows and sinks of usage.rs; the transports, the clients, the
-- server and inference, which are asynchronous input and output around these components.
pub mod Admission
pub mod Auth
pub mod Authority
pub mod Core
pub mod Ids
pub mod Journal
pub mod Message
pub mod Prelude
pub mod Protocol
pub mod Queue
pub mod RateLimit
pub mod Space
pub mod Usage
