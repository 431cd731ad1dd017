-- ===== src/Tests/Nodes.antt =====
-- The theorems on the node at one that accepts a batch of metrics, truncates its log and is started
-- again.
use otel_tail_sampler.Base.{◌≡◌, refl, ℕ, true, false, some, List, [], ◌∷◌, arith}
use otel_tail_sampler.Base.Int.{ℤ, pos, ◌+ℤ◌, ◌-ℤ◌}
use otel_tail_sampler.Pdata.Simple.{simple, tenths}
use otel_tail_sampler.Signals.{Signal, metric}
use otel_tail_sampler.Config.{default_config}
use otel_tail_sampler.Codecs.{metric_record}
use otel_tail_sampler.Codecs.Blobs.{Blob, blobs, blobs-IsFaithful}
use otel_tail_sampler.Gossip.Manager.Plain.{plain}
use otel_tail_sampler.Wal
use otel_tail_sampler.Wal.Memory.{empty, filled, memory, memory-IsLawful}
use otel_tail_sampler.Wal.Contract
use otel_tail_sampler.Wal.Contract.{Call, Specs, Holds, run_calls, contents, run_calls_refines}
use otel_tail_sampler.Rollup.{level_fine}
use otel_tail_sampler.Buffer.Libraries.Lists.{cache, tree}
use otel_tail_sampler.Buffer.Store
use otel_tail_sampler.Receiver
use otel_tail_sampler.Server
use otel_tail_sampler.Node
use otel_tail_sampler.Node.Durability.{same, stepped, restarted, Later, replay-Later}
use otel_tail_sampler.Node.Log.{signal_of}
use otel_tail_sampler.Tests.Fixtures

abbrev calls : List (Call simple tenths)
calls =
    Contract.write (metric Fixtures.metric_signal)
    ∷ Contract.truncate (pos 1000000000)
    ∷ Contract.truncate (pos 9000000000)
    ∷ []

run_calls_refines_example :
    (Wal.replay blobs (memory Blob) empty
      ≡ some (contents blobs (memory Blob) (memory-IsLawful Blob) blobs-IsFaithful empty))
    × (Wal.replay blobs (memory Blob) (run_calls blobs (memory Blob) empty calls).0
        ≡ some (
            contents blobs
              (memory Blob)
              (memory-IsLawful Blob)
              blobs-IsFaithful
              (run_calls blobs (memory Blob) empty calls).0))
    × Specs blobs calls
        (run_calls blobs (memory Blob) empty calls).1
        (contents blobs (memory Blob) (memory-IsLawful Blob) blobs-IsFaithful empty)
        (contents blobs
          (memory Blob)
          (memory-IsLawful Blob)
          blobs-IsFaithful
          (run_calls blobs (memory Blob) empty calls).0)
run_calls_refines_example =
    run_calls_refines blobs (memory Blob) (memory-IsLawful Blob) blobs-IsFaithful empty calls

-- The write and the first truncation succeed; the second would leave an empty log.
replies_test : (run_calls blobs (memory Blob) empty calls).1 ≡ true ∷ true ∷ false ∷ []
unfolding run_calls Wal.write Wal.truncate_before Wal.received
replies_test = refl

abbrev pub OneNode : Type 0
OneNode = Node.Node blobs (plain tenths) (memory Blob) (cache Blob 2) tree

abbrev pub choices : Node.Choices simple
choices = record { by_trace = λ m. m; by_log = λ m. m; uuid = Fixtures.uuid }

abbrev pub env : ℕ → ℤ × Node.Choices simple
env i = (Fixtures.now, choices)

abbrev request : Node.Request simple tenths
request = Node.metrics_request Fixtures.metrics

abbrev pub idle : OneNode
idle = record {
  clock = Fixtures.now;
  wal = empty;
  gossip = record { broadcasts = []; decision_chan = []; trigger_chan = [] };
  processor = record {
    buffer = Fixtures.empty_buffer;
    rollup = record { cfg = default_config.rollup; current_level = level_fine };
    exported = [];
    evicted_metrics = [];
    evicted_logs = [];
  };
  high_load_active = false;
}

abbrev accepted : OneNode
accepted = record idle {
  wal = filled 0 (Blob.record_of metric_record (Blob.metrics Fixtures.metrics) Fixtures.now) [];
  processor = record idle.processor {
    buffer =
        (Store.store_metric blobs Fixtures.now Fixtures.uuid Fixtures.empty_buffer
          (record { metrics = Fixtures.metrics; ctx = Receiver.received_now Fixtures.now })).0;
  };
}

abbrev waiting : OneNode
waiting = record accepted { clock = pos 400000000000 }

-- The clock advances by five minutes, the truncation loop ticks, and the process is started again.
later : Later blobs (plain tenths) (memory Blob) default_config accepted waiting
unfolding Node.step Node.truncation_round Server.truncate_wal Wal.truncate_before ◌-ℤ◌ Node.start
    Wal.replay
later =
    restarted env (pos 400000000000) []
      (stepped Node.truncation_tick
        (stepped (Node.waited (pos 400000000000)) same (omega arith) refl) (omega arith) refl)
      (omega arith) refl

replay-Later_example :
    (sigs : List (Signal simple tenths)) × (Wal.replay blobs (memory Blob) waiting.wal ≡ some sigs)
    × Holds blobs (signal_of Fixtures.now request) sigs
unfolding Node.receive Wal.write Wal.received Store.store ◌+ℤ◌
replay-Later_example =
    replay-Later blobs (plain tenths) (memory Blob) default_config (memory-IsLawful Blob)
      blobs-IsFaithful idle accepted waiting choices request refl later (omega arith)
