-- ===== src/Buffer/Store.antt =====
-- Store of internal/buffer/buffer.go and its three handlers. A handler reads the clock once here, and
-- `none` is the panic on data that cannot be decoded.
use mathlib.Core.Option
use otel_tail_sampler.Base.{
  ◌>>=◌, ℕ, Bool, true, false, Option, none, some, List, [], ◌∷◌, ◌++◌, if◌then◌else◌,
}
use otel_tail_sampler.Base.Int.{ℤ, wrap64}
use otel_tail_sampler.Base.Text.{GoString, codes, format_int}
use otel_tail_sampler.Hex.{encode_to_string}
use otel_tail_sampler.Pdata.{Pcommon, Float64, Traces, Logs}
use otel_tail_sampler.Signals.{Signal, trace, metric, log, TraceSignal, MetricSignal, LogSignal}
use otel_tail_sampler.Codecs.{Codecs, StoredTraceData}
use otel_tail_sampler.GoMap.{GoMap}
use otel_tail_sampler.Buffer.Libraries.{Cache, BTree}
use otel_tail_sampler.Buffer.State.{Buffer, index_key, cache_set}
use otel_tail_sampler.Buffer.Split.{split_traces, split_logs, SplitLogs}

-- The order in which `range` visits a map.
abbrev pub RangeOrder : Type 0 → Type 0
RangeOrder V = GoMap V → List (List ℕ × V)

abbrev pub bytes_or_nil : {B : Type 0} → B → Option B → B
bytes_or_nil nil none = nil
bytes_or_nil nil (some b) = b

-- fmt.Sprintf("m_%d_%s", ts, uuid), and the same with "l_".
unfoldable pub time_key : GoString → ℤ → GoString → GoString
time_key prefix ts uuid = prefix ++ (format_int ts ++ (codes "_" ++ uuid))

module _ {P : Pcommon} {F : Float64} (c : Codecs P F) where
  -- The record under a key: a new one if there is none, empty if it cannot be decoded.
  unfoldable pub stored_or_new : ℤ → Option c.Bytes → StoredTraceData c.Bytes
  stored_or_new now none = record {
    received_at = wrap64 now;
    traces_data = c.nil;
    logs_data = c.nil;
  }
  stored_or_new now (some entry) = elim (c.gob_decode entry) [
    | none ↦ record { received_at = ℤ.pos 0; traces_data = c.nil; logs_data = c.nil }
    | some stored ↦ stored
  ]

  unfoldable pub current_traces : StoredTraceData c.Bytes → Option (Traces P)
  current_traces stored =
      if c.is_empty stored.traces_data then some [] else c.unmarshal_traces stored.traces_data

  unfoldable pub current_logs : StoredTraceData c.Bytes → Option (Logs P)
  current_logs stored =
      if c.is_empty stored.logs_data then some [] else c.unmarshal_logs stored.logs_data

  unfoldable pub with_traces : StoredTraceData c.Bytes → Traces P → StoredTraceData c.Bytes
  with_traces stored t = record stored { traces_data = bytes_or_nil c.nil (c.marshal_traces t) }

  unfoldable pub with_logs : StoredTraceData c.Bytes → Logs P → StoredTraceData c.Bytes
  with_logs stored l = record stored { logs_data = bytes_or_nil c.nil (c.marshal_logs l) }

module _ {P : Pcommon} {F : Float64} (c : Codecs P F) {C : Cache c.Bytes} {T : BTree}
    (now : ℤ) where
  -- The body of the loop over traceMap.
  unfoldable pub store_trace : Buffer c C T → List ℕ → Traces P → Option (Buffer c C T)
  unfolding stored_or_new current_traces with_traces cache_set
  store_trace b tid new_traces =
      let key = encode_to_string tid in
      let stored = stored_or_new c now (C.get b.cache key) in
      elim (current_traces c stored) [
        | none ↦ none
        | some current ↦
            some
              (cache_set c now b key
                (c.gob_encode (with_traces c stored (current ++ new_traces)))).0
      ]

  unfoldable pub store_each_trace : Buffer c C T → List (List ℕ × Traces P) → Option (Buffer c C T)
  unfolding store_trace
  store_each_trace b [] = some b
  store_each_trace b ((tid, t) ∷ rest) = do b' ← store_trace b tid t; store_each_trace b' rest

  unfoldable pub store_traces :
      RangeOrder (Traces P) → Buffer c C T → TraceSignal P → Option (Buffer c C T)
  unfolding split_traces store_each_trace
  store_traces order b sig = store_each_trace b (order (split_traces sig.traces []))

  -- The body of the loop over traceLogs.
  unfoldable pub store_trace_logs : Buffer c C T → List ℕ → Logs P → Option (Buffer c C T)
  unfolding stored_or_new current_logs with_logs cache_set
  store_trace_logs b tid logs =
      let key = encode_to_string tid in
      let stored = stored_or_new c now (C.get b.cache key) in
      elim (current_logs c stored) [
        | none ↦ none
        | some current ↦
            some (cache_set c now b key (c.gob_encode (with_logs c stored (current ++ logs)))).0
      ]

  unfoldable pub store_each_log : Buffer c C T → List (List ℕ × Logs P) → Option (Buffer c C T)
  unfolding store_trace_logs
  store_each_log b [] = some b
  store_each_log b ((tid, l) ∷ rest) = do b' ← store_trace_logs b tid l; store_each_log b' rest

  unfoldable pub set_log : Buffer c C T → GoString → c.Bytes → Buffer c C T
  unfolding cache_set index_key
  set_log b key entry =
      let (b', ok) = cache_set c now b key entry in
      if ok then record b' { log_index = index_key b'.log_index key (wrap64 now) } else b'

  unfoldable pub set_metric : Buffer c C T → GoString → c.Bytes → Buffer c C T
  unfolding cache_set index_key
  set_metric b key entry =
      let (b', ok) = cache_set c now b key entry in
      if ok then record b' { metric_index = index_key b'.metric_index key (wrap64 now) } else b'

  unfoldable pub store_time_logs : GoString → Buffer c C T → Option (Logs P) → Buffer c C T
  unfolding time_key set_log
  store_time_logs uuid b none = b
  store_time_logs uuid b (some time_logs) = elim (c.marshal_logs time_logs) [
    | none ↦ b
    | some entry ↦ set_log b (time_key (codes "l_") (wrap64 now) uuid) entry
  ]

  unfoldable pub store_split_logs :
      RangeOrder (Logs P) → GoString → Buffer c C T → LogSignal P → Option (Buffer c C T)
  unfolding split_logs store_each_log store_time_logs
  store_split_logs order uuid b sig = do
    let m : SplitLogs P = split_logs sig.logs (record { trace_logs = []; time_logs = none })
    b' ← store_each_log b (order m.trace_logs)
    some (store_time_logs uuid b' m.time_logs)

  -- With whether the error is nil.
  unfoldable pub store_metric : GoString → Buffer c C T → MetricSignal P F → Buffer c C T × Bool
  unfolding time_key set_metric
  store_metric uuid b sig = elim (c.marshal_metrics sig.metrics) [
    | none ↦ (b, false)
    | some entry ↦ (set_metric b (time_key (codes "m_") (wrap64 now) uuid) entry, true)
  ]

  -- Store: none is a panic, and the Boolean is whether the error is nil.
  unfoldable pub store :
      RangeOrder (Traces P)
      → RangeOrder (Logs P)
      → GoString
      → Buffer c C T
      → Signal P F
      → Option (Buffer c C T × Bool)
  unfolding store_traces store_metric store_split_logs
  store by_trace by_log uuid b (trace s) = Option.map (λ b'. (b', true)) (store_traces by_trace b s)
  store by_trace by_log uuid b (metric s) = some (store_metric uuid b s)
  store by_trace by_log uuid b (log s) =
      Option.map (λ b'. (b', true)) (store_split_logs by_log uuid b s)
