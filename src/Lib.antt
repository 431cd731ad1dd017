-- ===== src/Lib.antt =====
-- A model of the tail sampler: OpenTelemetry signals are received, logged ahead, buffered and looked
-- at by a decision engine; a decision that a node takes is told to all nodes, each of which exports
-- what it has of the trace and of its event window and rolls up the rest.
--
-- The parts, with the files that model them:
--   Signals       pkg/signals/signals.go: the sum of the three kinds of signals.
--   Config        internal/config/config.go: the records and DefaultConfig.
--   Decision      internal/decision/engine.go: check_error, check_latency and check_attribute are the
--                 three policies, evaluate_trace is EvaluateTrace, trigger_decision is
--                 triggerDecision. What is broadcast is the result. Children: Policies, Matching and
--                 Outcome (what is sampled), EventWindow and Named (what a decision names).
--   Groups        The maps from keys to elements of a slice that the rollup works with. A reference
--                 into the slice is a position.
--   Rollup        internal/rollup/rollup.go: the level and the keys. Rollup.MetricRollup and
--                 Rollup.LogRollup: rollup_metrics and rollup_logs, with a function for each of the
--                 source's. Counts (of log records), Points (data points) and Panics (of pdata's
--                 accessors) are about them. Kinds and Conflicts: gauges and sums of one name.
--   Codecs        The encodings, which are parameters: the marshalers of pdata, protobuf, gob.
--   Wal           internal/wal/manager.go: write, replay and truncate_before on an abstract log. Its
--                 laws are in Wal.Laws, with an instance in Wal.Memory. Wal.Contract: what the log is to
--                 a client.
--   GoMap         Go's maps with string keys.
--   Buffer        internal/buffer/buffer.go. Libraries: what is documented of bigcache and btree.
--                 State: the struct and the callback. Split and Store: Store. Query: the queries and
--                 removals. Coherence: the indices and the cache. Removal: what deletions leave.
--                 TraceData, Spans and Readable: the entries of traces. Locks: b.mu and the lock of the
--                 cache.
--   Processor     internal/processor/processor.go: process_decision, process_trigger, perform_rollup
--                 and handle_evicted_signal on a record with the buffer, the level of the rollup, the
--                 log of exports and the evicted signals.
--   Gossip        internal/gossip/messages.go; Gossip.Manager is internal/gossip/gossip.go:
--                 broadcast_decision, broadcast_trigger and notify_msg on the two bounded channels and
--                 the queue of messages. Gossip.Wire: the messages of api/proto/gossip.proto and the
--                 conversions.
--                 Gossip.Membership: the start, the join loop and the list of members.
--   Server        cmd/server/main.go: consume is Consume, monitor_load and truncate_wal are the ticks of
--                 the load monitor and of the truncation loop; load_config is the configuration that
--                 main starts with; StartUp: what main opens and closes.
--   Discovery     internal/discovery/discovery.go: the peers, from a resolver that is a parameter.
--   Receiver      internal/receiver/receiver.go: the three Export handlers, and the start.
--   Exporter      internal/exporter/exporter.go over one connection with three clients: where the log of
--                 exports goes.
--   Node          cmd/server/main.go with the loops of internal/processor/processor.go: all that main
--                 starts, as one state with a clock. step handles one event: a request, a message of
--                 another node, the head of one of the three channels, a tick of one of the loops.
--                 start is the start-up with its replay. Children: Log and Durability (the log),
--                 Runs and BufferUse (invariants), Recovery (the replay), Load (the load monitor),
--                 Sampling (from a batch to the export, on the deciding node and on its peers), Returns
--                 (what panics).
--   Hex, Pdata    encoding/hex, and the messages of go.opentelemetry.io/collector/pdata.
--   Tests         Concrete inputs on which the theorems are applied.
--
-- How the code is read. State is passed explicitly and a handler is a function. A result `none` is an
-- error or, in Rollup, Buffer.Store, Processor and Server.consume, a panic. A time is an integer,
-- nanoseconds from the Unix epoch; UnixNano and pdata's timestamps wrap around at 64 bits, Time.Sub
-- saturates. A handler of the buffer reads the clock once. The order in which a map is ranged over is a
-- parameter where the result depends on it. Loops are recursion on the list or, in Wal, on the number
-- of entries between the first and the last index, which is the number of rounds that the source's
-- loop makes.
--
-- The channel of evicted signals holds 1000 of them and those of the gossip 100, as in the source.
--
-- Goroutines are the events of Node, in any order, and a handler is one step there. That is a choice of
-- the model: Store reads an entry and writes it back without a mutex around both, so that two calls of
-- Store for one trace can interleave, which no step of Node shows. Two goroutines at the locks of the
-- buffer are in Buffer.Locks.
--
-- Where a theorem asks for room in the cache, room is counted in entries, of any size; bigcache limits
-- the bytes of its shards, so that entries are evicted earlier there.
--
-- Not modelled: the inside of gRPC and memberlist; telemetry; debug logging; the field SampleRate of a
-- policy, which nothing reads.
pub mod Base
pub mod Hex
pub mod Pdata
pub mod Signals
pub mod Config
pub mod Gossip
pub mod Decision
pub mod Groups
pub mod Rollup
pub mod Codecs
pub mod GoMap
pub mod Wal
pub mod Buffer
pub mod Processor
pub mod Server
pub mod Discovery
pub mod Receiver
pub mod Exporter
pub mod Node
pub mod Tests
