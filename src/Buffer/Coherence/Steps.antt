-- ===== src/Buffer/Coherence/Steps.antt =====
-- The handlers of Store in internal/buffer/buffer.go, and the two indices.
use mathlib.Core.Path.{subst}
use mathlib.Core.Option.{some-injective}
use otel_tail_sampler.Base.{
  ◌≡◌, ◌≢◌, sym, ◌∙◌, ℕ, true, Option, none, some, List, [], ◌∷◌, inl, inr, Bool-cases,
  Option-cases,
}
use otel_tail_sampler.Base.Int.{ℤ, wrap64}
use otel_tail_sampler.Base.Text.{GoString, codes}
use otel_tail_sampler.Hex.{encode_to_string}
use otel_tail_sampler.Pdata.{Pcommon, Float64, Traces, Logs}
use otel_tail_sampler.Signals.{MetricSignal, LogSignal}
use otel_tail_sampler.Codecs.{Codecs}
use otel_tail_sampler.GoMap.{lookup}
use otel_tail_sampler.Buffer.Libraries.{Cache, IsCache, BTree, IsBTree}
use otel_tail_sampler.Buffer.State.{Buffer, cache_set, is_metric}
use otel_tail_sampler.Buffer.Split.{SplitLogs, split_logs}
use otel_tail_sampler.Buffer.Store
use otel_tail_sampler.Buffer.Coherence.{IsCoherent, is_only_log}
use otel_tail_sampler.Buffer.Coherence.Index.{missing-OfKind}
use otel_tail_sampler.Buffer.Coherence.Keys
use otel_tail_sampler.Buffer.Coherence.Keeps.{
  cache_set-IsCoherent, metric_missing-cache_set, log_missing-cache_set, get-cache_set,
  index_key-IsIndexOf,
}

some_not_none : {A : Type 0} {a : A} → some a ≢ none
some_not_none e = cc

module _ {P : Pcommon} {F : Float64} (c : Codecs P F) {C : Cache c.Bytes} {T : BTree}
    (now : ℤ) where
  -- The identifier that the handler is given is in no key yet.
  abbrev pub IsFresh : GoString → Buffer c C T → Type 0
  IsFresh uuid b =
      (lookup (Store.time_key (codes "m_") (wrap64 now) uuid) b.metric_index.key_map ≡ none)
      × (lookup (Store.time_key (codes "l_") (wrap64 now) uuid) b.log_index.key_map ≡ none)

module _ {P : Pcommon} {F : Float64} (c : Codecs P F) {C : Cache c.Bytes} (K : IsCache C)
    {T : BTree} (L : IsBTree T) (now : ℤ) where
  -- A write under the key of a trace, which no index holds.
  set_trace_key-IsCoherent :
      (b : Buffer c C T) (tid : List ℕ) (entry : c.Bytes)
      → IsCoherent c L b
      → IsCoherent c L (cache_set c now b (encode_to_string tid) entry).0
  set_trace_key-IsCoherent b tid entry i =
      let key = encode_to_string tid in
      cache_set-IsCoherent c K L now b key entry
        (missing-OfKind b.metric_index key i.metrics.of_kind (Keys.trace_key-not_metric tid))
        (missing-OfKind b.log_index key i.logs.of_kind (Keys.trace_key-not_log tid)) i

  set_metric-IsCoherent :
      (b : Buffer c C T) (key : GoString) (entry : c.Bytes)
      → is_metric key ≡ true
      → lookup key b.metric_index.key_map ≡ none
      → lookup key b.log_index.key_map ≡ none
      → IsCoherent c L b
      → IsCoherent c L (Store.set_metric c now b key entry)
  unfolding Store.set_metric cache_set
  set_metric-IsCoherent b key entry right fresh no_log i =
      let set = cache_set-IsCoherent c K L now b key entry fresh no_log i in
      let still = metric_missing-cache_set c K L now b key key entry i fresh in
      elim (Bool-cases (C.set b.cache key entry).ok) [
        | inl ok ↦
            let stored = get-cache_set c K L now b key entry i ok in
            rw (ok, Store.set_metric)
              (record {
                metrics =
                    index_key-IsIndexOf L _ _ key (wrap64 now) still right
                      (λ gone. some_not_none (sym stored ∙ gone)) set.metrics;
                logs = set.logs;
              })
        | inr failed ↦ rw (failed, Store.set_metric) set
      ]

  set_log-IsCoherent :
      (b : Buffer c C T) (key : GoString) (entry : c.Bytes)
      → is_only_log key ≡ true
      → lookup key b.metric_index.key_map ≡ none
      → lookup key b.log_index.key_map ≡ none
      → IsCoherent c L b
      → IsCoherent c L (Store.set_log c now b key entry)
  unfolding Store.set_log cache_set
  set_log-IsCoherent b key entry right no_metric fresh i =
      let set = cache_set-IsCoherent c K L now b key entry no_metric fresh i in
      let still = log_missing-cache_set c K L now b key key entry i fresh in
      elim (Bool-cases (C.set b.cache key entry).ok) [
        | inl ok ↦
            let stored = get-cache_set c K L now b key entry i ok in
            rw (ok, Store.set_log)
              (record {
                metrics = set.metrics;
                logs =
                    index_key-IsIndexOf L _ _ key (wrap64 now) still right
                      (λ gone. some_not_none (sym stored ∙ gone)) set.logs;
              })
        | inr failed ↦ rw (failed, Store.set_log) set
      ]

  -- Coherent, with an identifier that is fresh in both indices.
  abbrev pub IsReady : GoString → Buffer c C T → Type 0
  IsReady uuid b = IsCoherent c L b × IsFresh c now uuid b

  set_trace_key-IsReady :
      (uuid : GoString) (b : Buffer c C T) (tid : List ℕ) (entry : c.Bytes)
      → IsReady uuid b
      → IsReady uuid (cache_set c now b (encode_to_string tid) entry).0
  set_trace_key-IsReady uuid b tid entry (i, (no_metric, no_log)) =
      let key = encode_to_string tid in
      (
        set_trace_key-IsCoherent b tid entry i,
        (
          metric_missing-cache_set c K L now b key _ entry i no_metric,
          log_missing-cache_set c K L now b key _ entry i no_log,
        ),
      )

  store_trace-IsReady :
      (uuid : GoString) (b b' : Buffer c C T) (tid : List ℕ) (t : Traces P)
      → Store.store_trace c now b tid t ≡ some b'
      → IsReady uuid b
      → IsReady uuid b'
  unfolding Store.store_trace
  store_trace-IsReady uuid b b' tid t done i =
      let stored = Store.stored_or_new c now (C.get b.cache (encode_to_string tid)) in
      elim (Option-cases (Store.current_traces c stored)) [
        | inl panics ↦ let h = rw (panics, Store.store_trace) at done in cc
        | inr (current, reads) ↦
            let h = rw (reads, Store.store_trace) at done in
            subst (IsReady uuid) (some-injective _ _ h) (set_trace_key-IsReady uuid b tid _ i)
      ]

  store_trace_logs-IsReady :
      (uuid : GoString) (b b' : Buffer c C T) (tid : List ℕ) (l : Logs P)
      → Store.store_trace_logs c now b tid l ≡ some b'
      → IsReady uuid b
      → IsReady uuid b'
  unfolding Store.store_trace_logs
  store_trace_logs-IsReady uuid b b' tid l done i =
      let stored = Store.stored_or_new c now (C.get b.cache (encode_to_string tid)) in
      elim (Option-cases (Store.current_logs c stored)) [
        | inl panics ↦ let h = rw (panics, Store.store_trace_logs) at done in cc
        | inr (current, reads) ↦
            let h = rw (reads, Store.store_trace_logs) at done in
            subst (IsReady uuid) (some-injective _ _ h) (set_trace_key-IsReady uuid b tid _ i)
      ]

  pub store_each_trace-IsReady :
      (uuid : GoString) (b b' : Buffer c C T) (ts : List (List ℕ × Traces P))
      → Store.store_each_trace c now b ts ≡ some b'
      → IsReady uuid b
      → IsReady uuid b'
  unfolding Store.store_each_trace
  store_each_trace-IsReady uuid b b' [] done i = subst (IsReady uuid) (some-injective _ _ done) i
  store_each_trace-IsReady uuid b b' ((tid, t) ∷ rest) done i =
      elim (Option-cases (Store.store_trace c now b tid t)) [
        | inl panics ↦ let h = rw (panics, Store.store_each_trace) at done in cc
        | inr (b1, first) ↦
            let h = rw (first, Store.store_each_trace) at done in
            store_each_trace-IsReady uuid b1 b' rest h (store_trace-IsReady uuid b b1 tid t first i)
      ]

  store_each_log-IsReady :
      (uuid : GoString) (b b' : Buffer c C T) (ls : List (List ℕ × Logs P))
      → Store.store_each_log c now b ls ≡ some b'
      → IsReady uuid b
      → IsReady uuid b'
  unfolding Store.store_each_log
  store_each_log-IsReady uuid b b' [] done i = subst (IsReady uuid) (some-injective _ _ done) i
  store_each_log-IsReady uuid b b' ((tid, l) ∷ rest) done i =
      elim (Option-cases (Store.store_trace_logs c now b tid l)) [
        | inl panics ↦ let h = rw (panics, Store.store_each_log) at done in cc
        | inr (b1, first) ↦
            let h = rw (first, Store.store_each_log) at done in
            store_each_log-IsReady uuid b1 b' rest h
              (store_trace_logs-IsReady uuid b b1 tid l first i)
      ]

  store_time_logs-IsCoherent :
      (uuid : GoString) (b : Buffer c C T) (o : Option (Logs P))
      → IsReady uuid b
      → IsCoherent c L (Store.store_time_logs c now uuid b o)
  unfolding Store.store_time_logs
  store_time_logs-IsCoherent uuid b none i = i.0
  store_time_logs-IsCoherent uuid b (some l) (i, (no_metric, no_log)) =
      elim (Option-cases (c.marshal_logs l)) [
        | inl fails ↦ rw (fails, Store.store_time_logs) i
        | inr (entry, done) ↦
            let key = Store.time_key (codes "l_") (wrap64 now) uuid in
            rw (done, Store.store_time_logs)
              (set_log-IsCoherent b key entry (Keys.log_key-is_log (wrap64 now) uuid)
                (missing-OfKind b.metric_index key i.metrics.of_kind
                  (Keys.log_key-not_metric (wrap64 now) uuid))
                no_log i)
      ]

  pub store_metric-IsCoherent :
      (uuid : GoString) (b : Buffer c C T) (s : MetricSignal P F)
      → IsReady uuid b
      → IsCoherent c L (Store.store_metric c now uuid b s).0
  unfolding Store.store_metric
  store_metric-IsCoherent uuid b s (i, (no_metric, no_log)) =
      elim (Option-cases (c.marshal_metrics s.metrics)) [
        | inl fails ↦ rw (fails, Store.store_metric) i
        | inr (entry, done) ↦
            let key = Store.time_key (codes "m_") (wrap64 now) uuid in
            rw (done, Store.store_metric)
              (set_metric-IsCoherent b key entry (Keys.metric_key-is_metric (wrap64 now) uuid)
                no_metric
                (missing-OfKind b.log_index key i.logs.of_kind
                  (Keys.metric_key-not_log (wrap64 now) uuid))
                i)
      ]

  pub store_split_logs-IsCoherent :
      (order : Store.RangeOrder (Logs P)) (uuid : GoString) (b b' : Buffer c C T) (s : LogSignal P)
      → Store.store_split_logs c now order uuid b s ≡ some b'
      → IsReady uuid b
      → IsCoherent c L b'
  unfolding Store.store_split_logs
  store_split_logs-IsCoherent order uuid b b' s done i =
      let m : SplitLogs P = split_logs s.logs (record { trace_logs = []; time_logs = none }) in
      elim (Option-cases (Store.store_each_log c now b (order m.trace_logs))) [
        | inl panics ↦ let h = rw (panics, Store.store_split_logs) at done in cc
        | inr (b1, first) ↦
            let h = rw (first, Store.store_split_logs) at done in
            subst (IsCoherent c L) (some-injective _ _ h) (
              store_time_logs-IsCoherent uuid b1 m.time_logs
                (store_each_log-IsReady uuid b b1 (order m.trace_logs) first i))
      ]
