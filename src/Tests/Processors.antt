-- ===== src/Tests/Processors.antt =====
-- The theorems on the processor at a buffer that holds a trace with its logs, and at one with a metric.
use otel_tail_sampler.Base.{◌≡◌, refl, some, [], ◌∷◌, ◌++◌}
use otel_tail_sampler.Base.Int.{pos}
use otel_tail_sampler.Base.Text.{codes, eqb}
use otel_tail_sampler.Hex.{encode_to_string, decode_string}
use otel_tail_sampler.Pdata.{Metrics}
use otel_tail_sampler.Pdata.Simple.{simple, tenths}
use otel_tail_sampler.Signals.{TraceSignal, LogSignal}
use otel_tail_sampler.Gossip.{SamplingDecision}
use otel_tail_sampler.Codecs.Blobs.{Blob, blobs}
use otel_tail_sampler.GoMap.{lookup, insert}
use otel_tail_sampler.Rollup.LogRollup.{rollup_logs}
use otel_tail_sampler.Rollup.MetricRollup.{rollup_metrics}
use otel_tail_sampler.Rollup.Panics.{a_gauge}
use otel_tail_sampler.Buffer.Libraries.Lists.{cache, tree, cache-IsCache, tree-IsBTree}
use otel_tail_sampler.Buffer.State.{Buffer, new, stamped, cache_set}
use otel_tail_sampler.Buffer.Query.{
  absent, get_trace, get_trace_logs, remove_trace, get_metrics_in_range, get_logs_in_range,
}
use otel_tail_sampler.Processor
use otel_tail_sampler.Processor.Repeats
use otel_tail_sampler.Processor.Rollups
use otel_tail_sampler.Processor.Exports.{
  metric_exports, log_exports, window_start, window_end, without_metrics, process_decision-exports,
}
use otel_tail_sampler.Tests.Fixtures
use otel_tail_sampler.Tests.Buffers.{trace_and_logs, trace_and_logs-IsCoherent}

abbrev with : Buffer blobs (cache Blob 2) tree → Processor.Processor blobs (cache Blob 2) tree
with b = record {
  buffer = b;
  rollup = Fixtures.medium;
  exported = [];
  evicted_metrics = [];
  evicted_logs = Fixtures.log_signal ∷ [];
}

abbrev decision : SamplingDecision
decision = record {
  trace_id = codes "0a0102030405060708090a0b0c0d0eff";
  reason = codes "sample-all";
  decided_at = Fixtures.now;
  decided_by = codes "local";
  event_start = pos 1000000000;
  event_end = pos 3000000000;
}

abbrev buffered : TraceSignal simple
buffered = record { traces = Fixtures.spans; ctx = stamped Fixtures.now }

process_decision-exports_example :
    (p' : Processor.Processor blobs (cache Blob 2) tree) × (Processor.process_decision blobs
        Fixtures.now
        (with trace_and_logs)
        decision
      ≡ some p')
    × (p'.exported
        ≡ []
          ++ (Processor.export_trace (Processor.add_processing_label Fixtures.spans)
              ∷ (metric_exports (
                    get_metrics_in_range blobs
                      (remove_trace blobs Fixtures.now trace_and_logs Fixtures.tid)
                      (window_start decision)
                      (window_end decision))
                  ++ log_exports (
                      get_logs_in_range blobs
                        (without_metrics blobs
                          (cache-IsCache Blob 2)
                          tree-IsBTree
                          Fixtures.now
                          (with trace_and_logs)
                          decision
                          Fixtures.tid
                          buffered)
                        (window_start decision)
                        (window_end decision)))))
    × (get_trace blobs p'.buffer Fixtures.tid ≡ absent)
    × (get_trace_logs blobs p'.buffer Fixtures.tid ≡ absent)
unfolding decode_string get_trace lookup cache_set new insert eqb encode_to_string
process_decision-exports_example =
    process_decision-exports blobs (cache-IsCache Blob 2) tree-IsBTree Fixtures.now
      (with trace_and_logs) decision Fixtures.tid buffered refl refl refl trace_and_logs-IsCoherent

abbrev evicted : Processor.Processor blobs (cache Blob 2) tree
evicted = record {
  buffer = Fixtures.empty_buffer;
  rollup = Fixtures.medium;
  exported = [];
  evicted_metrics = Fixtures.metric_signal ∷ [];
  evicted_logs = Fixtures.log_signal ∷ [];
}

perform_rollup-exports_example :
    (p' : Processor.Processor blobs (cache Blob 2) tree) × (rolled : Metrics simple tenths)
    × (Processor.perform_rollup blobs Fixtures.now evicted ≡ some p')
    × (rollup_metrics simple tenths Fixtures.medium (Rollups.all_metrics blobs Fixtures.now evicted)
        ≡ some rolled)
    × (p'.exported
        ≡ []
          ++ (Rollups.unless_empty
                (Rollups.all_metrics blobs Fixtures.now evicted)
                (Processor.export_metrics (Processor.add_processing_label rolled))
              ++ Rollups.unless_empty (Rollups.all_logs blobs Fixtures.now evicted) (
                  Processor.export_logs (
                    Processor.add_processing_label (
                      rollup_logs simple Fixtures.medium
                        (Rollups.all_logs blobs Fixtures.now evicted))))))
    × (p'.evicted_metrics ≡ [])
    × (p'.evicted_logs ≡ [])
unfolding new get_metrics_in_range
perform_rollup-exports_example =
    Rollups.perform_rollup-exports blobs Fixtures.now (λ name. a_gauge) evicted
      ((((refl, tt), tt), tt), tt)

-- The buffer of a node that has received a log record of the trace and none of its spans.
abbrev only_logs : Buffer blobs (cache Blob 2) tree
only_logs = record Fixtures.empty_buffer {
  cache =
      (
        encode_to_string Fixtures.tid,
        Blob.stored Fixtures.now Blob.nothing (Blob.logs Fixtures.records),
      )
      ∷ [];
}

abbrev its_logs : LogSignal simple
its_logs = record { logs = Fixtures.records; ctx = stamped Fixtures.now }

only_logs-HasOnlyLogs : Repeats.HasOnlyLogs blobs decision Fixtures.tid its_logs (with only_logs)
unfolding decode_string get_trace get_trace_logs lookup new get_metrics_in_range get_logs_in_range
    encode_to_string eqb
only_logs-HasOnlyLogs = record {
  reads = refl;
  long_enough = refl;
  no_trace = refl;
  its_logs = refl;
  no_metrics = refl;
  no_logs = refl;
}

deliveries-copies_example :
    Repeats.deliveries blobs (Fixtures.now ∷ pos 101000000000 ∷ []) (with only_logs) decision
    ≡ some (record (with only_logs) {
      exported = [] ++ Repeats.copies its_logs (Fixtures.now ∷ pos 101000000000 ∷ []);
    })
deliveries-copies_example =
    Repeats.deliveries-copies blobs decision Fixtures.tid its_logs
      (Fixtures.now ∷ pos 101000000000 ∷ []) (with only_logs) only_logs-HasOnlyLogs
