-- ===== src/Tests/Buffers.antt =====
-- The theorems on the buffer at buffers with one or two entries.
use otel_tail_sampler.Base.{Any, ◌++◌, ◌≡◌, refl, true, false, ◌&&◌, some, [], ◌∷◌, arith}
use otel_tail_sampler.Base.Int.{pos, wrap64, ◌+ℤ◌}
use otel_tail_sampler.Base.Text.{GoString, codes, eqb, format_int}
use otel_tail_sampler.Hex.{encode_to_string}
use otel_tail_sampler.Signals.{metric, trace, log}
use otel_tail_sampler.Codecs.{StoredTraceData}
use otel_tail_sampler.Pdata.Simple.{simple}
use otel_tail_sampler.Codecs.Blobs.{Blob, blobs, blobs-IsFaithful}
use otel_tail_sampler.GoMap.{lookup, insert}
use otel_tail_sampler.Buffer.Libraries.{TimeKey, contains, less}
use otel_tail_sampler.Buffer.Libraries.Lists.{cache, tree, cache-IsCache, tree-IsBTree}
use otel_tail_sampler.Buffer.State.{Buffer, new, stamped, cache_set}
use otel_tail_sampler.Decision.Policies.{spans}
use otel_tail_sampler.Buffer.Split.{append_to, split_traces}
use otel_tail_sampler.Buffer.Split.Parts.{spans_under, with_id, spans_under-split_traces}
use otel_tail_sampler.Buffer.Store.{store, store_metric, store_trace, time_key}
use otel_tail_sampler.Buffer.Query
use otel_tail_sampler.Buffer.Locks.{shard_locks}
use otel_tail_sampler.Buffer.Locks.Deadlock
use otel_tail_sampler.Buffer.Coherence.{IsCoherent}
use otel_tail_sampler.Buffer.Coherence.Index.{listed}
use otel_tail_sampler.Buffer.Coherence.Runs.{
  stored, IsReachable, at_start, after, IsReachable-IsCoherent,
}
use otel_tail_sampler.Buffer.Removal.{is_deleted, held}
use otel_tail_sampler.Buffer.Removal.Ranges
use otel_tail_sampler.Buffer.TimeData.{get_metrics-store_metric}
use otel_tail_sampler.Buffer.TraceData.{stored_before, get_trace-store_trace}
use otel_tail_sampler.Tests.Fixtures

abbrev pub one_metric : Buffer blobs (cache Blob 2) tree
one_metric =
    (store_metric blobs Fixtures.now Fixtures.uuid Fixtures.empty_buffer Fixtures.metric_signal).0

pub one_metric-IsReachable : IsReachable blobs (cache Blob 2) tree one_metric
unfolding store new lookup
one_metric-IsReachable = after (at_start []) (
    stored Fixtures.now (λ m. m) (λ m. m) Fixtures.uuid Fixtures.empty_buffer one_metric true
      (metric Fixtures.metric_signal) (refl, refl) refl)

IsReachable-IsCoherent_example : IsCoherent blobs tree-IsBTree one_metric
IsReachable-IsCoherent_example =
    IsReachable-IsCoherent blobs (cache-IsCache Blob 2) tree-IsBTree one_metric
      one_metric-IsReachable

pub one_metric-IsCoherent : IsCoherent blobs tree-IsBTree one_metric
one_metric-IsCoherent =
    IsReachable-IsCoherent blobs (cache-IsCache Blob 2) tree-IsBTree one_metric
      one_metric-IsReachable

empty_buffer-IsCoherent : IsCoherent blobs tree-IsBTree Fixtures.empty_buffer
empty_buffer-IsCoherent =
    IsReachable-IsCoherent blobs (cache-IsCache Blob 2) tree-IsBTree Fixtures.empty_buffer
      (at_start [])

abbrev metric_time : TimeKey
metric_time = record {
  timestamp = Fixtures.now;
  key = time_key (codes "m_") Fixtures.now Fixtures.uuid;
}

contains-in_range_example :
    contains metric_time (Query.in_range one_metric.metric_index (pos 0) Fixtures.now) ≡ (
      listed one_metric.metric_index.key_map metric_time
      && Ranges.within (pos 0) Fixtures.now metric_time.timestamp)
contains-in_range_example =
    Ranges.contains-in_range tree-IsBTree one_metric.metric_index (pos 0) Fixtures.now metric_time
      one_metric-IsCoherent.metrics.exact (omega arith, omega arith) (omega arith, omega arith)
      (omega arith)

-- That range does select the metric.
one_metric-in_range_test :
    contains metric_time (Query.in_range one_metric.metric_index (pos 0) Fixtures.now) ≡ true
unfolding Query.in_range store_metric time_key new less wrap64 ◌+ℤ◌ eqb format_int
one_metric-in_range_test = refl

get_metrics-remove_metrics_example :
    (Query.get_metrics_in_range blobs
        (Query.remove_metrics_in_range blobs Fixtures.now one_metric (pos 0) Fixtures.now)
        (pos 0)
        Fixtures.now
      ≡ [])
    × ((j : GoString)
        → is_deleted j (Query.range_keys one_metric.metric_index (pos 0) Fixtures.now) ≡ false
        → held blobs
            (cache-IsCache Blob 2)
            tree-IsBTree
            Fixtures.now
            (Query.remove_metrics_in_range blobs Fixtures.now one_metric (pos 0) Fixtures.now)
            j
          ≡ held blobs (cache-IsCache Blob 2) tree-IsBTree Fixtures.now one_metric j)
get_metrics-remove_metrics_example =
    Ranges.get_metrics-remove_metrics blobs (cache-IsCache Blob 2) tree-IsBTree Fixtures.now
      one_metric (pos 0) Fixtures.now one_metric-IsCoherent

abbrev spans_stored : StoredTraceData Blob
spans_stored =
    record (stored_before blobs blobs-IsFaithful (cache-IsCache Blob 2) tree-IsBTree Fixtures.now
      one_metric Fixtures.tid) { traces_data = Blob.traces Fixtures.spans }

get_trace-store_trace_example :
    (b' : Buffer blobs (cache Blob 2) tree) × (store_trace blobs Fixtures.now one_metric
        Fixtures.tid Fixtures.spans
      ≡ some b')
    × (Query.get_trace blobs b' Fixtures.tid
        ≡ Query.found (record { traces = Fixtures.spans; ctx = stamped Fixtures.now }))
    × (Query.get_trace_logs blobs b' Fixtures.tid
        ≡ Query.get_trace_logs blobs one_metric Fixtures.tid)
unfolding store_trace store_metric lookup encode_to_string new insert eqb wrap64
get_trace-store_trace_example =
    get_trace-store_trace blobs blobs-IsFaithful (cache-IsCache Blob 2) tree-IsBTree Fixtures.now
      one_metric Fixtures.tid []
      (record {
        resource = Fixtures.resource;
        scopes = record { scope = Fixtures.scope; items = Fixtures.span ∷ [] } ∷ [];
      })
      [] (Blob.traces Fixtures.spans) one_metric-IsCoherent refl refl refl

-- The spans of a trace and then its logs, in one entry.
abbrev trace_stored : Buffer blobs (cache Blob 2) tree
trace_stored =
    (cache_set blobs Fixtures.now Fixtures.empty_buffer (encode_to_string Fixtures.tid)
      (Blob.stored Fixtures.now (Blob.traces Fixtures.spans) Blob.nothing)).0

abbrev pub trace_and_logs : Buffer blobs (cache Blob 2) tree
trace_and_logs =
    (cache_set blobs Fixtures.now trace_stored (encode_to_string Fixtures.tid)
      (Blob.stored Fixtures.now (Blob.traces Fixtures.spans) (Blob.logs Fixtures.records))).0

pub trace_and_logs-IsCoherent : IsCoherent blobs tree-IsBTree trace_and_logs
unfolding store lookup new cache_set append_to insert wrap64 eqb encode_to_string
trace_and_logs-IsCoherent =
    IsReachable-IsCoherent blobs (cache-IsCache Blob 2) tree-IsBTree trace_and_logs (
      after
        (after (at_start []) (
          stored Fixtures.now (λ m. m) (λ m. m) Fixtures.uuid Fixtures.empty_buffer trace_stored
            true (trace Fixtures.trace_signal) (refl, refl) refl))
        (stored Fixtures.now (λ m. m) (λ m. m) Fixtures.uuid trace_stored trace_and_logs true
          (log Fixtures.log_signal) (refl, refl) refl))

spans_under-split_traces_example :
    spans_under Fixtures.tid (split_traces Fixtures.spans [])
    ≡ [] ++ with_id Fixtures.tid (spans simple Fixtures.spans)
unfolding lookup spans
spans_under-split_traces_example = spans_under-split_traces Fixtures.tid Fixtures.spans [] refl

get_metrics-store_metric_example :
    Any
      (λ x. x ≡ record { metrics = Fixtures.metrics; ctx = stamped (wrap64 Fixtures.now) })
      (Query.get_metrics_in_range blobs one_metric (pos 0) Fixtures.now)
unfolding new lookup wrap64
get_metrics-store_metric_example =
    get_metrics-store_metric blobs blobs-IsFaithful (cache-IsCache Blob 2) tree-IsBTree Fixtures.now
      Fixtures.uuid Fixtures.empty_buffer Fixtures.metric_signal (Blob.metrics Fixtures.metrics)
      (pos 0) Fixtures.now (empty_buffer-IsCoherent, (refl, refl)) refl refl
      (omega arith, omega arith) (omega arith, omega arith) (omega arith) refl

query_and_delete-IsDeadlock_example :
    (t : Deadlock.Threads) × Deadlock.Steps (Deadlock.query_and_delete shard_locks 2) t
    × Deadlock.IsDeadlock t
    × ((u : Deadlock.Threads) → Deadlock.Step t u → ⊥)
query_and_delete-IsDeadlock_example = Deadlock.query_and_delete-IsDeadlock shard_locks refl 1
