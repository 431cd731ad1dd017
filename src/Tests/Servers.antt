-- ===== src/Tests/Servers.antt =====
-- The theorems on the server, the gossip and the discovery at one signal, one message and two records.
use otel_tail_sampler.Base.{arith, All, ◌↔◌, ◌≡◌, refl, true, none, some, List, [], ◌∷◌, ◌++◌}
use otel_tail_sampler.Base.Int.{◌-ℤ◌, pos}
use otel_tail_sampler.Base.Text.{GoString, codes, less_str, format_int}
use otel_tail_sampler.Pdata.Simple.{simple, tenths}
use otel_tail_sampler.Signals.{Signal, metric}
use otel_tail_sampler.Config.{default_config}
use otel_tail_sampler.Codecs.Blobs.{Blob, blobs, blobs-IsFaithful}
use otel_tail_sampler.Codecs.{metric_record}
use otel_tail_sampler.Gossip.{SamplingDecision, TriggerEvent}
use otel_tail_sampler.Gossip.Manager
use otel_tail_sampler.Gossip.Manager.Delivery.{notify_msg-broadcast_decision}
use otel_tail_sampler.Gossip.Manager.Plain.{plain, plain-IsFaithful}
use otel_tail_sampler.Wal
use otel_tail_sampler.Wal.Memory.{empty, filled, memory, memory-IsLawful}
use otel_tail_sampler.Wal.Replay.{without_source}
use otel_tail_sampler.Buffer.Libraries.Lists.{cache, tree}
use otel_tail_sampler.Server.StartUp
use otel_tail_sampler.Server
use otel_tail_sampler.Server.Durability.{replay-consume, replay-truncate_wal}
use otel_tail_sampler.Wal.Truncate.{IsBefore}
use otel_tail_sampler.Discovery
use otel_tail_sampler.Discovery.Sorted.{IsKnown, IsSortOf, dns_peers-IsSortOf}
use otel_tail_sampler.Tests.Fixtures
use otel_tail_sampler.Tests.Buffers.{one_metric}

abbrev decision : SamplingDecision
decision = record {
  trace_id = codes "0a0102030405060708090a0b0c0d0eff";
  reason = codes "slow";
  decided_at = Fixtures.now;
  decided_by = codes "local";
  event_start = pos 1000000000;
  event_end = pos 3000000000;
}

abbrev trigger : TriggerEvent tenths
trigger = record {
  name = codes "high_load";
  value = pos 90;
  threshold = pos 80;
  started_at = Fixtures.now;
}

abbrev node : Manager.Manager (plain tenths)
node = record { broadcasts = []; decision_chan = []; trigger_chan = [] }

abbrev decided : Manager.Manager (plain tenths)
decided = record {
  broadcasts = Manager.decision_message (plain tenths) decision ∷ [];
  decision_chan = decision ∷ [];
  trigger_chan = [];
}

abbrev triggered : Manager.Manager (plain tenths)
triggered = record {
  broadcasts = Manager.trigger_message (plain tenths) trigger ∷ [];
  decision_chan = [];
  trigger_chan = trigger ∷ [];
}

notify_msg-broadcast_decision_example :
    (bytes : (plain tenths).Bytes) × (decided.broadcasts ≡ node.broadcasts ++ bytes ∷ [])
    × (decided.decision_chan ≡ Manager.offer node.decision_chan decision)
    × (decided.trigger_chan ≡ node.trigger_chan)
    × (Manager.notify_msg (plain tenths) triggered bytes
        ≡ record triggered { decision_chan = Manager.offer triggered.decision_chan decision })
unfolding Manager.broadcast_decision
notify_msg-broadcast_decision_example =
    notify_msg-broadcast_decision (plain tenths) (plain-IsFaithful tenths) node decided triggered
      decision (omega arith, omega arith) (omega arith, omega arith) (omega arith, omega arith) refl

abbrev fresh : Server.Server blobs (plain tenths) (memory Blob) (cache Blob 2) tree
fresh = record { wal = empty; buffer = Fixtures.empty_buffer; gossip = node }

abbrev consumed : Server.Server blobs (plain tenths) (memory Blob) (cache Blob 2) tree
consumed = record {
  wal = filled 0 (Blob.record_of metric_record (Blob.metrics Fixtures.metrics) (pos 2000000000)) [];
  buffer = one_metric;
  gossip = node;
}

replay-consume_example :
    (before : List (Signal simple tenths)) × (Wal.replay blobs (memory Blob) empty ≡ some before)
    × (Wal.replay blobs (memory Blob) consumed.wal
        ≡ some (before ++ without_source blobs (metric Fixtures.metric_signal) ∷ []))
unfolding Server.consume Wal.write Wal.received
replay-consume_example =
    replay-consume blobs blobs-IsFaithful (plain tenths) (memory Blob) (memory-IsLawful Blob)
      default_config.decision Fixtures.now (λ m. m) (λ m. m) Fixtures.uuid fresh consumed
      (metric Fixtures.metric_signal) refl

abbrev resolver : Discovery.Resolver
resolver = record {
  lookup_srv = λ name.
      some
        (record { target = codes "b."; port = 1 } ∷ record { target = codes "a"; port = 2 } ∷ []);
  lookup_host = λ name. none;
}

dns_peers-IsSortOf_example :
    (found : List GoString) × IsKnown resolver (codes "peers") found
    × IsSortOf found (codes "a:2" ∷ codes "b:1" ∷ [])
unfolding Discovery.dns_peers less_str format_int
dns_peers-IsSortOf_example =
    dns_peers-IsSortOf resolver (codes "peers") (codes "a:2" ∷ codes "b:1" ∷ []) refl

replay-truncate_wal_example :
    (dropped : List (Signal simple tenths)) × (kept : List (Signal simple tenths)) × (Wal.replay
        blobs
        (memory Blob)
        consumed.wal
      ≡ some (dropped ++ kept))
    × (Wal.replay blobs
          (memory Blob)
          (Server.truncate_wal blobs (memory Blob) (pos 700000000000) consumed.wal)
        ≡ some kept)
    × All (IsBefore blobs (pos 700000000000 -ℤ Server.wal_retention)) dropped
replay-truncate_wal_example =
    replay-truncate_wal blobs (memory Blob) (memory-IsLawful Blob) (pos 700000000000) consumed.wal

-- All parts can be opened.
abbrev closed : List StartUp.Part
closed =
    StartUp.receiver ∷ StartUp.gossip ∷ StartUp.buffer ∷ StartUp.exporter ∷ StartUp.wal
    ∷ StartUp.telemetry ∷ StartUp.context ∷ []

run_main_iff_example : (StartUp.run_main (λ p. true) ≡ StartUp.stopped closed) ↔ (
    All (λ (p : StartUp.Part). true ≡ true) (StartUp.needed (λ p. true))
    × (closed ≡ StartUp.in_order (λ p. true)))
run_main_iff_example = StartUp.run_main_iff (λ p. true) closed
