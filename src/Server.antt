-- ===== src/Server.antt =====
-- cmd/server/main.go: what a received signal goes through, and the load monitor.
pub mod Durability
pub mod Settings
pub mod StartUp
use otel_tail_sampler.Base.{
  ℕ, ◌≡◌, Bool, true, false, not, ◌&&◌, Option, none, some, List, [], ◌∷◌, if◌then◌else◌,
}
use otel_tail_sampler.Base.Int.{ℤ, pos, ◌-ℤ◌}
use otel_tail_sampler.Base.Text.{GoString, codes}
use otel_tail_sampler.Pdata.{Pcommon, Float64, Traces, Logs}
use otel_tail_sampler.Signals.{Signal, trace, metric, log}
use otel_tail_sampler.Config.{DecisionConfig}
use otel_tail_sampler.Codecs.{Codecs}
use otel_tail_sampler.Gossip.{SamplingDecision, TriggerEvent}
use otel_tail_sampler.Gossip.Manager.{GossipCodec, Manager, broadcast_decision, broadcast_trigger}
use otel_tail_sampler.Decision.{evaluate_trace}
use otel_tail_sampler.Wal
use otel_tail_sampler.Wal.{WalStore}
use otel_tail_sampler.Buffer.Libraries.{Cache, BTree}
use otel_tail_sampler.Buffer.State.{Buffer}
use otel_tail_sampler.Buffer.Store.{RangeOrder, store}

module _ {P : Pcommon} {F : Float64} (c : Codecs P F) (G : GossipCodec F) (W : WalStore c.Bytes)
    (C : Cache c.Bytes) (T : BTree) where
  -- What mainConsumer reaches: the log, the buffer, and the manager that the engine broadcasts with.
  pub record Server : Type 0 where
    pub wal : W.State
    pub buffer : Buffer c C T
    pub gossip : Manager G

module _ {F : Float64} (G : GossipCodec F) where
  abbrev pub told : Manager G → Option SamplingDecision → Manager G
  told g none = g
  told g (some d) = elim (broadcast_decision G g d) [ none ↦ g | some g' ↦ g' ]

module _ {P : Pcommon} {F : Float64} (G : GossipCodec F) (cfg : DecisionConfig) (now : ℤ) where
  -- EvaluateTrace for a trace; an error of the broadcast is only logged.
  unfoldable pub decide : Manager G → Signal P F → Manager G
  decide g (trace s) = told G g (evaluate_trace P cfg now s.traces)
  decide g (metric s) = g
  decide g (log s) = g

module _ {P : Pcommon} {F : Float64} (c : Codecs P F) (G : GossipCodec F) (W : WalStore c.Bytes)
    {C : Cache c.Bytes} {T : BTree} (cfg : DecisionConfig) (now : ℤ) where
  abbrev pub kept :
      Server c G W C T → W.State → Buffer c C T × Bool → Signal P F → Server c G W C T × Bool
  kept s wal' (buffer', false) sig = (record s { wal = wal'; buffer = buffer' }, false)
  kept s wal' (buffer', true) sig =
      (record { wal = wal'; buffer = buffer'; gossip = decide G cfg now s.gossip sig }, true)

  -- Consume: none is a panic, and the Boolean is whether the error is nil.
  unfoldable pub consume :
      RangeOrder (Traces P)
      → RangeOrder (Logs P)
      → GoString
      → Server c G W C T
      → Signal P F
      → Option (Server c G W C T × Bool)
  unfolding store decide
  consume by_trace by_log uuid s sig = elim (Wal.write c W s.wal sig) [
    | none ↦ some (s, false)
    | some wal' ↦ elim (store c now by_trace by_log uuid s.buffer sig) [
      | none ↦ none
      | some stored ↦ some (kept s wal' stored sig)
    ]
  ]

-- Ten minutes in nanoseconds.
abbrev pub wal_retention : ℤ
wal_retention = pos 600000000000

module _ {P : Pcommon} {F : Float64} (c : Codecs P F) (W : WalStore c.Bytes) (now : ℤ) where
  -- A tick of the truncation loop; an error is only logged.
  unfoldable pub truncate_wal : W.State → W.State
  truncate_wal s = elim (Wal.truncate_before c W s (now -ℤ wal_retention)) [
    | none ↦ s
    | some s' ↦ s'
  ]

module _ (F : Float64) where
  -- float64(cfg.Buffer.MaxTraces) * 0.8
  abbrev pub load_threshold : ℤ → F.Double
  load_threshold max_traces = F.mul (F.of_int max_traces) F.four_fifths

  abbrev pub load_event : F.Double → ℤ → ℤ → TriggerEvent F
  load_event threshold count now = record {
    name = codes "high_load";
    value = F.of_int count;
    threshold = threshold;
    started_at = now;
  }

  -- `<=` is the negation of `>`, since neither number is a NaN.
  -- A tick of the load monitor: the new value of highLoadActive, and the trigger that is broadcast.
  unfoldable pub monitor_load : F.Double → Bool → ℤ → ℤ → Bool × Option (TriggerEvent F)
  monitor_load threshold active count now =
      let high = F.less threshold (F.of_int count) in
      if high && not active
      then (true, some (load_event threshold count now))
      else if not high && active
      then (false, some (load_event threshold count now))
      else (active, none)
