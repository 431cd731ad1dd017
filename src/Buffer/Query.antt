-- ===== src/Buffer/Query.antt =====
-- The queries of internal/buffer/buffer.go, and the operations that remove.
use otel_tail_sampler.Base.{◌>>=◌, ℕ, Option, none, some, List, [], ◌∷◌, map, if◌then◌else◌}
use otel_tail_sampler.Base.Int.{ℤ, pos, ◌+ℤ◌, wrap64}
use otel_tail_sampler.Base.Text.{GoString}
use otel_tail_sampler.Hex.{encode_to_string}
use otel_tail_sampler.Pdata.{Pcommon, Float64}
use otel_tail_sampler.Signals.{TraceSignal, MetricSignal, LogSignal}
use otel_tail_sampler.Codecs.{Codecs, StoredTraceData}
use otel_tail_sampler.GoMap.{keys}
use otel_tail_sampler.Buffer.Libraries.{Cache, BTree, TimeKey}
use otel_tail_sampler.Buffer.State.{Buffer, TimeIndex, stamped, cache_delete, delete_keys}

-- The result of a look-up with its flag; in `invalid` the flag is true and the message, which could not
-- be decoded, panics when it is read.
pub data Found (A : Type 0) : Type 0 where
  absent : Found A
  invalid : Found A
  found : A → Found A

module _ {T : BTree} where
  -- The items that AscendRange visits: both ends are converted to nanoseconds in an int64.
  unfoldable pub in_range : TimeIndex T → ℤ → ℤ → List TimeKey
  in_range x start end =
      T.ascend_range x.tree (record { timestamp = wrap64 start; key = [] })
        (record { timestamp = wrap64 (wrap64 end +ℤ pos 1); key = [] })

  abbrev pub range_keys : TimeIndex T → ℤ → ℤ → List GoString
  range_keys x start end = map (λ tk. tk.key) (in_range x start end)

module _ {P : Pcommon} {F : Float64} (c : Codecs P F) {C : Cache c.Bytes} {T : BTree} where
  unfoldable pub stored_at : Buffer c C T → List ℕ → Option (StoredTraceData c.Bytes)
  stored_at b trace_id = do entry ← C.get b.cache (encode_to_string trace_id); c.gob_decode entry

  unfoldable pub get_trace : Buffer c C T → List ℕ → Found (TraceSignal P)
  unfolding stored_at
  get_trace b trace_id = elim (stored_at b trace_id) [
    | none ↦ absent
    | some stored ↦
        if c.is_empty stored.traces_data
        then absent
        else elim (c.unmarshal_traces stored.traces_data) [
          | none ↦ invalid
          | some t ↦ found (record { traces = t; ctx = stamped stored.received_at })
        ]
  ]

  unfoldable pub get_trace_logs : Buffer c C T → List ℕ → Found (LogSignal P)
  unfolding stored_at
  get_trace_logs b trace_id = elim (stored_at b trace_id) [
    | none ↦ absent
    | some stored ↦
        if c.is_empty stored.logs_data then absent else elim (c.unmarshal_logs stored.logs_data) [
          | none ↦ invalid
          | some l ↦ found (record { logs = l; ctx = stamped stored.received_at })
        ]
  ]

  -- Every entry of the cache is counted, the metrics and the logs too.
  unfoldable pub get_trace_count : Buffer c C T → ℤ
  get_trace_count b = C.len b.cache

  unfoldable pub metrics_of : Buffer c C T → List TimeKey → List (MetricSignal P F)
  metrics_of b [] = []
  metrics_of b (tk ∷ tks) =
      let rest = metrics_of b tks in
      elim (C.get b.cache tk.key) [
        | none ↦ rest
        | some entry ↦ elim (c.unmarshal_metrics entry) [
          | none ↦ rest
          | some m ↦ record { metrics = m; ctx = stamped tk.timestamp } ∷ rest
        ]
      ]

  unfoldable pub logs_of : Buffer c C T → List TimeKey → List (LogSignal P)
  logs_of b [] = []
  logs_of b (tk ∷ tks) =
      let rest = logs_of b tks in
      elim (C.get b.cache tk.key) [
        | none ↦ rest
        | some entry ↦ elim (c.unmarshal_logs entry) [
          | none ↦ rest
          | some l ↦ record { logs = l; ctx = stamped tk.timestamp } ∷ rest
        ]
      ]

  unfoldable pub get_metrics_in_range : Buffer c C T → ℤ → ℤ → List (MetricSignal P F)
  unfolding in_range metrics_of
  get_metrics_in_range b start end = metrics_of b (in_range b.metric_index start end)

  unfoldable pub get_logs_in_range : Buffer c C T → ℤ → ℤ → List (LogSignal P)
  unfolding in_range logs_of
  get_logs_in_range b start end = logs_of b (in_range b.log_index start end)

module _ {P : Pcommon} {F : Float64} (c : Codecs P F) {C : Cache c.Bytes} {T : BTree}
    (now : ℤ) where
  unfoldable pub remove_trace : Buffer c C T → List ℕ → Buffer c C T
  unfolding cache_delete
  remove_trace b trace_id = cache_delete c now b (encode_to_string trace_id)

  unfoldable pub remove_metrics_in_range : Buffer c C T → ℤ → ℤ → Buffer c C T
  unfolding in_range delete_keys
  remove_metrics_in_range b start end = delete_keys c now b (range_keys b.metric_index start end)

  unfoldable pub remove_logs_in_range : Buffer c C T → ℤ → ℤ → Buffer c C T
  unfolding in_range delete_keys
  remove_logs_in_range b start end = delete_keys c now b (range_keys b.log_index start end)

  -- The keys of the map in the order of the association list; Go's order is not specified.
  unfoldable pub clear_metrics : Buffer c C T → Buffer c C T
  unfolding delete_keys
  clear_metrics b = delete_keys c now b (keys b.metric_index.key_map)

  unfoldable pub clear_logs : Buffer c C T → Buffer c C T
  unfolding delete_keys
  clear_logs b = delete_keys c now b (keys b.log_index.key_map)
