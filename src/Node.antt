-- ===== src/Node.antt =====
-- cmd/server/main.go and the loops of internal/processor/processor.go: a node, that is all that main
-- starts, and the events that its goroutines wait for. An event is handled as one step.
pub mod Log
pub mod Durability
pub mod Runs
pub mod BufferUse
pub mod Recovery
pub mod Sampling
pub mod Returns
pub mod Load
use otel_tail_sampler.Base.{
  ◌>>=◌, ℕ, zero, suc, Bool, true, false, Option, none, some, List, [], ◌∷◌, ◌++◌,
}
use otel_tail_sampler.Base.Int.{ℤ}
use otel_tail_sampler.Base.Text.{GoString}
use otel_tail_sampler.Pdata.{Pcommon, Float64, Traces, Metrics, Logs}
use otel_tail_sampler.Signals.{Signal}
use otel_tail_sampler.Config.{Config}
use otel_tail_sampler.Codecs.{Codecs}
use otel_tail_sampler.Gossip.{TriggerEvent}
use otel_tail_sampler.Gossip.Manager
use otel_tail_sampler.Gossip.Manager.{GossipCodec}
use otel_tail_sampler.Wal
use otel_tail_sampler.Wal.{WalStore}
use otel_tail_sampler.Rollup
use otel_tail_sampler.Buffer.Libraries.{Cache, BTree}
use otel_tail_sampler.Buffer.State
use otel_tail_sampler.Buffer.State.{Buffer, cache_clean}
use otel_tail_sampler.Buffer.Store.{RangeOrder, store}
use otel_tail_sampler.Buffer.Query.{get_trace_count}
use otel_tail_sampler.Processor
use otel_tail_sampler.Processor.{
  process_decision, process_trigger, perform_rollup, handle_evicted_signal,
}
use otel_tail_sampler.Receiver
use otel_tail_sampler.Server.{Server, consume, monitor_load, load_threshold, truncate_wal}

module _ {P : Pcommon} {F : Float64} (c : Codecs P F) (G : GossipCodec F) (W : WalStore c.Bytes)
    (C : Cache c.Bytes) (T : BTree) where
  -- `clock` is what time.Now returns.
  pub record Node : Type 0 where
    pub clock : ℤ
    pub wal : W.State
    pub gossip : Manager.Manager G
    pub processor : Processor.Processor c C T
    pub high_load_active : Bool

-- A request to one of the three gRPC services.
pub data Request (P : Pcommon) (F : Float64) : Type 0 where
  traces_request : Traces P → Request P F
  metrics_request : Metrics P F → Request P F
  logs_request : Logs P → Request P F

-- What a handler of Store is given by its environment: the orders in which it ranges over its maps,
-- and the identifier that it draws.
pub record Choices (P : Pcommon) : Type 0 where
  pub by_trace : RangeOrder (Traces P)
  pub by_log : RangeOrder (Logs P)
  pub uuid : GoString

module _ (P : Pcommon) {F : Float64} (G : GossipCodec F) where
  pub data Event : Type 0 where
    received : Choices P → Request P F → Event
    -- A message of another node.
    heard : G.Bytes → Event
    -- The heads of the three channels, each for its loop.
    decision_ready trigger_ready eviction_ready : Event
    -- The tickers of the three loops, and the clean-up of the cache.
    rollup_tick load_tick truncation_tick cleaning_tick : Event
    -- The clock shows another time.
    waited : ℤ → Event

module _ {F : Float64} (G : GossipCodec F) where
  -- The broadcast of a trigger, whose error is not looked at.
  abbrev pub announce : Manager.Manager G → Option (TriggerEvent F) → Manager.Manager G
  announce g none = g
  announce g (some t) = elim (Manager.broadcast_trigger G g t) [ none ↦ g | some g' ↦ g' ]

module _ {P : Pcommon} {F : Float64} (c : Codecs P F) (G : GossipCodec F) (W : WalStore c.Bytes)
    {C : Cache c.Bytes} {T : BTree} where
  abbrev pub server_of : Node c G W C T → Server c G W C T
  server_of n = record { wal = n.wal; buffer = n.processor.buffer; gossip = n.gossip }

  abbrev pub with_server : Node c G W C T → Server c G W C T → Node c G W C T
  with_server n s = record n {
    wal = s.wal;
    gossip = s.gossip;
    processor = record n.processor { buffer = s.buffer };
  }

  -- A round of decisionLoop: on an empty channel it waits.
  unfoldable pub decision_round : Node c G W C T → Option (Node c G W C T)
  unfolding process_decision
  decision_round n = elim n.gossip.decision_chan [
    | [] ↦ some n
    | d ∷ rest ↦ do
      p ← process_decision c n.clock n.processor d
      some (record n { processor = p; gossip = record n.gossip { decision_chan = rest } })
  ]

  -- A round of triggerLoop.
  unfoldable pub trigger_round : Node c G W C T → Node c G W C T
  unfolding process_trigger
  trigger_round n = elim n.gossip.trigger_chan [
    | [] ↦ n
    | t ∷ rest ↦ record n {
      processor = process_trigger c n.processor t;
      gossip = record n.gossip { trigger_chan = rest };
    }
  ]

  -- A round of evictionConsumerLoop.
  unfoldable pub eviction_round : Node c G W C T → Node c G W C T
  unfolding handle_evicted_signal
  eviction_round n = elim n.processor.buffer.evicted_chan [
    | [] ↦ n
    | sig ∷ rest ↦
        let b : Buffer c C T = record n.processor.buffer { evicted_chan = rest } in
        record n { processor = handle_evicted_signal c (record n.processor { buffer = b }) sig }
  ]

  -- A round of rollupLoop.
  unfoldable pub rollup_round : Node c G W C T → Option (Node c G W C T)
  unfolding perform_rollup
  rollup_round n = do p ← perform_rollup c n.clock n.processor; some (record n { processor = p })

  -- A round of the truncation loop.
  unfoldable pub truncation_round : Node c G W C T → Node c G W C T
  unfolding truncate_wal
  truncation_round n = record n { wal = truncate_wal c W n.clock n.wal }

module _ {P : Pcommon} {F : Float64} (c : Codecs P F) (G : GossipCodec F) (W : WalStore c.Bytes)
    {C : Cache c.Bytes} {T : BTree} (cfg : Config) where
  abbrev pub serve :
      ℤ → Choices P → Server c G W C T → Request P F → Option (Server c G W C T × Bool)
  serve now ch s (traces_request t) =
      Receiver.export_traces (consume c G W cfg.decision now ch.by_trace ch.by_log ch.uuid) now s t
  serve now ch s (metrics_request m) =
      Receiver.export_metrics (consume c G W cfg.decision now ch.by_trace ch.by_log ch.uuid) now s m
  serve now ch s (logs_request l) =
      Receiver.export_logs (consume c G W cfg.decision now ch.by_trace ch.by_log ch.uuid) now s l

  -- A request, with whether it is answered without an error; none is a panic.
  unfoldable pub receive : Node c G W C T → Choices P → Request P F → Option (Node c G W C T × Bool)
  unfolding Receiver.export_traces Receiver.export_metrics Receiver.export_logs consume
  receive n ch request = do
    (s, ok) ← serve n.clock ch (server_of c G W n) request
    some (with_server c G W n s, ok)

  -- A round of the load monitor.
  unfoldable pub load_round : Node c G W C T → Node c G W C T
  unfolding monitor_load get_trace_count
  load_round n =
      let count = get_trace_count c n.processor.buffer in
      let threshold = load_threshold F cfg.buffer.max_traces in
      let (active, trigger) = monitor_load F threshold n.high_load_active count n.clock in
      record n { high_load_active = active; gossip = announce G n.gossip trigger }

  unfoldable pub step : Node c G W C T → Event P G → Option (Node c G W C T)
  unfolding receive decision_round trigger_round eviction_round rollup_round load_round
      truncation_round
  step n (received ch request) = do (n', ok) ← receive n ch request; some n'
  step n (heard bytes) = some (record n { gossip = Manager.notify_msg G n.gossip bytes })
  step n decision_ready = decision_round c G W n
  step n trigger_ready = some (trigger_round c G W n)
  step n eviction_ready = some (eviction_round c G W n)
  step n rollup_tick = rollup_round c G W n
  step n load_tick = some (load_round n)
  step n truncation_tick = some (truncation_round c G W n)
  step n cleaning_tick = some (record n {
    processor = record n.processor { buffer = cache_clean c n.clock n.processor.buffer };
  })
  step n (waited t) = some (record n { clock = t })

module _ {P : Pcommon} {F : Float64} (c : Codecs P F) {C : Cache c.Bytes} {T : BTree} where
  -- The function that main gives to Replay, over the signals that are replayed: the time and the
  -- choices of each call of Store are given, and its error is not looked at.
  unfoldable pub store_all :
      (ℕ → ℤ × Choices P) → ℕ → Buffer c C T → List (Signal P F) → Option (Buffer c C T)
  unfolding store
  store_all env i b [] = some b
  store_all env i b (sig ∷ sigs) = do
    (b', ok) ← store c (env i).0 (env i).1.by_trace (env i).1.by_log (env i).1.uuid b sig
    store_all env (suc i) b' sigs

module _ {P : Pcommon} {F : Float64} (c : Codecs P F) (W : WalStore c.Bytes) where
  -- An error of Replay is only logged.
  abbrev pub replayed : W.State → List (Signal P F)
  replayed s = elim (Wal.replay c W s) [ none ↦ [] | some sigs ↦ sigs ]

module _ {P : Pcommon} {F : Float64} (c : Codecs P F) (G : GossipCodec F) (W : WalStore c.Bytes)
    (C : Cache c.Bytes) (T : BTree) (cfg : Config) where
  -- The state of the parts when the loops start.
  unfoldable pub initial : ℤ → W.State → Buffer c C T → Node c G W C T
  unfolding Manager.new Rollup.new Processor.new
  initial now s b = record {
    clock = now;
    wal = s;
    gossip = Manager.new G;
    processor = Processor.new c C T b (Rollup.new cfg.rollup);
    high_load_active = false;
  }

  -- main up to the loops, on an opened log and a new cache.
  unfoldable pub start : (ℕ → ℤ × Choices P) → ℤ → W.State → C.State → Option (Node c G W C T)
  unfolding store_all initial
  start env now s cache = do
    b ← store_all c env 0 (State.new c C T cache) (replayed c W s)
    some (initial now s b)
