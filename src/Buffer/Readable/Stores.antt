-- ===== src/Buffer/Readable/Stores.antt =====
-- Store of internal/buffer/buffer.go on a buffer with readable entries, whatever the cache evicts or
-- refuses.
use mathlib.Core.Path.{subst}
use otel_tail_sampler.Base.{
  ◌≡◌, refl, sym, ℕ, Bool, true, Option, none, some, List, [], ◌∷◌, ◌++◌, inl, inr, Bool-cases,
}
use otel_tail_sampler.Base.Int.{ℤ, wrap64}
use otel_tail_sampler.Base.Text.{GoString, codes}
use otel_tail_sampler.Hex.{encode_to_string}
use otel_tail_sampler.Pdata.{Pcommon, Float64, Traces, Logs}
use otel_tail_sampler.Signals.{Signal, trace, metric, log, MetricSignal}
use otel_tail_sampler.Codecs.{Codecs, IsFaithful}
use otel_tail_sampler.Buffer.Libraries.{Cache, IsCache, BTree}
use otel_tail_sampler.Buffer.Libraries.Failures.{IsAtomic}
use otel_tail_sampler.Buffer.State.{Buffer, cache_set, is_metric}
use otel_tail_sampler.Buffer.Split.{SplitLogs, split_traces, split_logs}
use otel_tail_sampler.Buffer.Store
use otel_tail_sampler.Buffer.Coherence.{is_only_log}
use otel_tail_sampler.Buffer.Coherence.Keys
use otel_tail_sampler.Buffer.Spans.{IsTotal, AllReadable}
use otel_tail_sampler.Buffer.Spans.Entries.{
  with_traces-IsReadable, with_logs-IsReadable, stored_or_new-IsReadable,
}
use otel_tail_sampler.Buffer.Spans.Stores.{differs}
use otel_tail_sampler.Buffer.Readable.{
  cache-callbacks, write_record-AllReadable, write_other-AllReadable,
}

module _ {P : Pcommon} {F : Float64} (c : Codecs P F) (H : IsFaithful c) (A : IsTotal c)
    {C : Cache c.Bytes} (K : IsCache C) (Q : IsAtomic C) {T : BTree} (now : ℤ) where
  abbrev pub IsReadableBuffer : Buffer c C T → Type 0
  IsReadableBuffer b = AllReadable c C b.cache

  -- A handler does not panic and leaves readable entries.
  abbrev pub Returns : Option (Buffer c C T) → Type 0
  Returns o = (b' : Buffer c C T) × (o ≡ some b') × AllReadable c C b'.cache

  cache_set-cache :
      (b : Buffer c C T) (key : GoString) (entry : c.Bytes)
      → (cache_set c now b key entry).0.cache ≡ (C.set b.cache key entry).state
  unfolding cache_set
  cache_set-cache b key entry =
      cache-callbacks c now (record b { cache = (C.set b.cache key entry).state })
        (C.set b.cache key entry).removed

  store_trace-Returns :
      (b : Buffer c C T) (k : List ℕ) (t : Traces P)
      → IsReadableBuffer b
      → Returns (Store.store_trace c now b k t)
  unfolding Store.store_trace
  store_trace-Returns b k t readable =
      let key = encode_to_string k in
      let stored = Store.stored_or_new c now (C.get b.cache key) in
      let (r, has) = stored_or_new-IsReadable c H C now b.cache k readable in
      let (reads, r') = with_traces-IsReadable c H A stored (r.traces ++ t) r in
      let entry = c.gob_encode (Store.with_traces c stored (r.traces ++ t)) in
      (
        (cache_set c now b key entry).0,
        rw (r.traces_read, Store.store_trace) refl,
        subst (AllReadable c C) (sym (cache_set-cache b key entry))
            (write_record-AllReadable c H K Q b.cache k _ r' readable),
      )

  store_trace_logs-Returns :
      (b : Buffer c C T) (k : List ℕ) (l : Logs P)
      → IsReadableBuffer b
      → Returns (Store.store_trace_logs c now b k l)
  unfolding Store.store_trace_logs
  store_trace_logs-Returns b k l readable =
      let key = encode_to_string k in
      let stored = Store.stored_or_new c now (C.get b.cache key) in
      let (r, has) = stored_or_new-IsReadable c H C now b.cache k readable in
      let (reads, r') = with_logs-IsReadable c H A stored (r.logs ++ l) r in
      let entry = c.gob_encode (Store.with_logs c stored (r.logs ++ l)) in
      (
        (cache_set c now b key entry).0,
        rw (r.logs_read, Store.store_trace_logs) refl,
        subst (AllReadable c C) (sym (cache_set-cache b key entry))
            (write_record-AllReadable c H K Q b.cache k _ r' readable),
      )

  store_each_trace-Returns :
      (b : Buffer c C T) (l : List (List ℕ × Traces P))
      → IsReadableBuffer b
      → Returns (Store.store_each_trace c now b l)
  unfolding Store.store_each_trace
  store_each_trace-Returns b [] readable = (b, refl, readable)
  store_each_trace-Returns b ((k, t) ∷ l) readable =
      let (b1, done, readable1) = store_trace-Returns b k t readable in
      let (b2, rest, readable2) = store_each_trace-Returns b1 l readable1 in
      (b2, rw (done, Store.store_each_trace) rest, readable2)

  store_each_log-Returns :
      (b : Buffer c C T) (l : List (List ℕ × Logs P))
      → IsReadableBuffer b
      → Returns (Store.store_each_log c now b l)
  unfolding Store.store_each_log
  store_each_log-Returns b [] readable = (b, refl, readable)
  store_each_log-Returns b ((k, t) ∷ l) readable =
      let (b1, done, readable1) = store_trace_logs-Returns b k t readable in
      let (b2, rest, readable2) = store_each_log-Returns b1 l readable1 in
      (b2, rw (done, Store.store_each_log) rest, readable2)

  set_metric-IsReadableBuffer :
      (b : Buffer c C T) (key : GoString) (entry : c.Bytes)
      → is_metric key ≡ true
      → IsReadableBuffer b
      → IsReadableBuffer (Store.set_metric c now b key entry)
  unfolding Store.set_metric
  set_metric-IsReadableBuffer b key entry right readable =
      let written = subst (AllReadable c C) (sym (cache_set-cache b key entry)) (
        write_other-AllReadable c H K Q b.cache key entry
          (λ tid.
            differs is_metric key (encode_to_string tid) right (Keys.trace_key-not_metric tid))
          readable) in
      elim (Bool-cases (cache_set c now b key entry).1) [
        | inl ok ↦ rw (ok, Store.set_metric) written
        | inr failed ↦ rw (failed, Store.set_metric) written
      ]

  set_log-IsReadableBuffer :
      (b : Buffer c C T) (key : GoString) (entry : c.Bytes)
      → is_only_log key ≡ true
      → IsReadableBuffer b
      → IsReadableBuffer (Store.set_log c now b key entry)
  unfolding Store.set_log
  set_log-IsReadableBuffer b key entry right readable =
      let written = subst (AllReadable c C) (sym (cache_set-cache b key entry)) (
        write_other-AllReadable c H K Q b.cache key entry
          (λ tid. differs is_only_log key (encode_to_string tid) right (Keys.trace_key-not_log tid))
          readable) in
      elim (Bool-cases (cache_set c now b key entry).1) [
        | inl ok ↦ rw (ok, Store.set_log) written
        | inr failed ↦ rw (failed, Store.set_log) written
      ]

  store_time_logs-IsReadableBuffer :
      (uuid : GoString) (b : Buffer c C T) (o : Option (Logs P))
      → IsReadableBuffer b
      → IsReadableBuffer (Store.store_time_logs c now uuid b o)
  unfolding Store.store_time_logs
  store_time_logs-IsReadableBuffer uuid b none readable = readable
  store_time_logs-IsReadableBuffer uuid b (some l) readable =
      let (entry, e) = A.logs l in
      rw (e, Store.store_time_logs)
        (set_log-IsReadableBuffer b (Store.time_key (codes "l_") (wrap64 now) uuid) entry
          (Keys.log_key-is_log (wrap64 now) uuid) readable)

  store_metric-IsReadableBuffer :
      (uuid : GoString) (b : Buffer c C T) (s : MetricSignal P F)
      → IsReadableBuffer b
      → IsReadableBuffer (Store.store_metric c now uuid b s).0
  unfolding Store.store_metric
  store_metric-IsReadableBuffer uuid b s readable =
      let (entry, e) = A.metrics s.metrics in
      rw (e, Store.store_metric)
        (set_metric-IsReadableBuffer b (Store.time_key (codes "m_") (wrap64 now) uuid) entry
          (Keys.metric_key-is_metric (wrap64 now) uuid) readable)

  -- Store returns, with readable entries.
  pub store_returns :
      (by_trace : Store.RangeOrder (Traces P)) (by_log : Store.RangeOrder (Logs P))
      (uuid : GoString)
      → (b : Buffer c C T) (sig : Signal P F) → IsReadableBuffer b
      → (b' : Buffer c C T) × (ok : Bool) × (Store.store c now by_trace by_log uuid b sig
          ≡ some (b', ok))
        × IsReadableBuffer b'
  unfolding Store.store Store.store_traces Store.store_split_logs
  store_returns by_trace by_log uuid b (trace s) readable =
      let (b', done, readable') =
        store_each_trace-Returns b (by_trace (split_traces s.traces [])) readable in
      (b', true, rw (done, Store.store) refl, readable')
  store_returns by_trace by_log uuid b (metric s) readable =
      let (b', ok) = Store.store_metric c now uuid b s in
      (b', ok, refl, store_metric-IsReadableBuffer uuid b s readable)
  store_returns by_trace by_log uuid b (log s) readable =
      let m : SplitLogs P = split_logs s.logs (record { trace_logs = []; time_logs = none }) in
      let (b1, done, readable1) = store_each_log-Returns b (by_log m.trace_logs) readable in
      (
        Store.store_time_logs c now uuid b1 m.time_logs,
        true,
        rw (done, Store.store_split_logs, Store.store) refl,
        store_time_logs-IsReadableBuffer uuid b1 m.time_logs readable1,
      )
