-- ===== src/Buffer/Spans/Signals.antt =====
-- Store of internal/buffer/buffer.go for each kind of signal while the cache has room.
use mathlib.Core.Option.{some-injective}
use otel_tail_sampler.Base.{
  ◌≡◌, refl, ap, ◌∙◌, ℕ, suc, true, Option, none, some, List, [], ◌∷◌, append-nil, inl, inr,
  Option-cases,
}
use otel_tail_sampler.Base.Int.{ℤ, wrap64}
use otel_tail_sampler.Base.Text.{GoString, codes}
use otel_tail_sampler.Pdata.{Pcommon, Float64, Span, Traces, Logs}
use otel_tail_sampler.Signals.{Signal, trace, metric, log, TraceSignal, MetricSignal, LogSignal}
use otel_tail_sampler.Codecs.{Codecs, IsFaithful}
use otel_tail_sampler.GoMap.{GoMap, lookup}
use otel_tail_sampler.Decision.Policies.{spans}
use otel_tail_sampler.Buffer.Libraries.{Cache, IsCache, BTree}
use otel_tail_sampler.Buffer.Libraries.Room.{HasRoom}
use otel_tail_sampler.Buffer.State.{Buffer}
use otel_tail_sampler.Buffer.Split.{SplitLogs, split_logs, split_traces, part_of}
use otel_tail_sampler.Buffer.Split.Parts.{spans_under}
use otel_tail_sampler.Buffer.Split.Distinct.{split_traces-IsDistinct}
use otel_tail_sampler.Buffer.Store
use otel_tail_sampler.Buffer.Coherence.Keys
use otel_tail_sampler.Buffer.Spans.{IsTotal, AllReadable}
use otel_tail_sampler.Buffer.Spans.Adding.{Adds, nothing_added, Adds-nothing, Adds-same}
use otel_tail_sampler.Buffer.Spans.Stores.{
  values_of, IsRange, all_spans, more, Ends, chain_Ends, store_each_trace-Ends, store_each_log-Ends,
  set_metric-Ends, set_log-Ends,
}

module _ {P : Pcommon} {F : Float64} where
  -- What the loops that distribute a batch put under a trace ID.
  abbrev pub added_by : Signal P F → List ℕ → List (Span P)
  added_by (trace s) tid = spans_under tid (split_traces s.traces [])
  added_by (metric s) tid = []
  added_by (log s) tid = []

  -- Room for the writes of a signal and `n` others.
  abbrev pub needs : Store.RangeOrder (Traces P) → Store.RangeOrder (Logs P) → Signal P F → ℕ → ℕ
  needs by_trace by_log (trace s) n = more (by_trace (split_traces s.traces [])) n
  needs by_trace by_log (metric s) n = suc n
  needs by_trace by_log (log s) n =
      more (by_log (split_logs s.logs (record { trace_logs = []; time_logs = none })).trace_logs)
        (suc n)

module _ {P : Pcommon} where
  all_spans-range :
      (m : GoMap (Traces P)) (k : List ℕ)
      → all_spans (elim (lookup k m) [ none ↦ [] | some v ↦ v ∷ [] ]) ≡ spans_under k m
  unfolding all_spans spans
  all_spans-range m k = elim (Option-cases (lookup k m)) [
    | inl missing ↦ rw (missing, part_of) refl
    | inr (t, present) ↦ rw (present, part_of) (append-nil (spans P t))
  ]

module _ {P : Pcommon} {F : Float64} (c : Codecs P F) (H : IsFaithful c) (A : IsTotal c)
    {C : Cache c.Bytes} (K : IsCache C) (R : HasRoom C) {T : BTree} (now : ℤ) where
  store_traces-Ends :
      (order : Store.RangeOrder (Traces P))
      → IsRange order
      → (b : Buffer c C T) (n : ℕ) (s : TraceSignal P)
      → R.room b.cache (more (order (split_traces s.traces [])) n)
      → AllReadable c C b.cache
      → Ends c H A K R now b
          (Store.store_traces c now order b s)
          n
          (λ tid. spans_under tid (split_traces s.traces []))
  unfolding Store.store_traces
  store_traces-Ends order range b n s room readable =
      let m = split_traces s.traces [] in
      let (b', done, adds) = store_each_trace-Ends c H A K R now b n (order m) room readable in
      (
        b',
        done,
        Adds-same c R b.cache b'.cache n (λ tid. all_spans (values_of tid (order m)))
            (λ tid. spans_under tid m)
            (λ tid.
              ap all_spans (range m tid (split_traces-IsDistinct s.traces [] tt))
              ∙ all_spans-range m tid)
            adds,
      )

  store_time_logs-Ends :
      (uuid : GoString) (b : Buffer c C T) (n : ℕ) (o : Option (Logs P))
      → R.room b.cache (suc n)
      → AllReadable c C b.cache
      → Ends c H A K R now b (some (Store.store_time_logs c now uuid b o)) n nothing_added
  unfolding Store.store_time_logs
  store_time_logs-Ends uuid b n none room readable =
      (b, refl, Adds-nothing c R b.cache n (R.room-less b.cache n room) readable)
  store_time_logs-Ends uuid b n (some l) room readable =
      let (entry, e) = A.logs l in
      rw (e, Store.store_time_logs)
        (set_log-Ends c H A K R now b n (Store.time_key (codes "l_") (wrap64 now) uuid) entry
          (Keys.log_key-is_log (wrap64 now) uuid) room readable)

  store_split_logs-Ends :
      (order : Store.RangeOrder (Logs P)) (uuid : GoString) (b : Buffer c C T) (n : ℕ)
      (s : LogSignal P)
      → R.room b.cache (
          more
            (order (split_logs s.logs (record { trace_logs = []; time_logs = none })).trace_logs)
            (suc n))
      → AllReadable c C b.cache
      → Ends c H A K R now b (Store.store_split_logs c now order uuid b s) n nothing_added
  unfolding Store.store_split_logs
  store_split_logs-Ends order uuid b n s room readable =
      let m : SplitLogs P = split_logs s.logs (record { trace_logs = []; time_logs = none }) in
      chain_Ends c H A K R now b (Store.store_each_log c now b (order m.trace_logs))
        (λ b1. some (Store.store_time_logs c now uuid b1 m.time_logs)) (suc n) n nothing_added
        nothing_added
        (store_each_log-Ends c H A K R now b (suc n) (order m.trace_logs) room readable)
        (λ b1 room1 readable1. store_time_logs-Ends uuid b1 n m.time_logs room1 readable1)

  store_metric-Ends :
      (uuid : GoString) (b : Buffer c C T) (n : ℕ) (s : MetricSignal P F)
      → R.room b.cache (suc n)
      → AllReadable c C b.cache
      → (b' : Buffer c C T) × (Store.store_metric c now uuid b s ≡ (b', true))
        × Adds c R b.cache b'.cache n nothing_added
  unfolding Store.store_metric
  store_metric-Ends uuid b n s room readable =
      let (entry, e) = A.metrics s.metrics in
      let key = Store.time_key (codes "m_") (wrap64 now) uuid in
      let (b', done, adds) =
        set_metric-Ends c H A K R now b n key entry (Keys.metric_key-is_metric (wrap64 now) uuid)
          room readable in
      (b', rw (e, Store.store_metric) (ap (λ x. (x, true)) (some-injective _ _ done)), adds)

  -- Store does not panic and returns no error; it adds to each trace its spans of the signal.
  pub store-Adds :
      (by_trace : Store.RangeOrder (Traces P)) (by_log : Store.RangeOrder (Logs P))
      (uuid : GoString)
      → IsRange by_trace
      → (b : Buffer c C T) (n : ℕ) (sig : Signal P F) → R.room b.cache (needs by_trace by_log sig n)
      → AllReadable c C b.cache
      → (b' : Buffer c C T) × (Store.store c now by_trace by_log uuid b sig ≡ some (b', true))
        × Adds c R b.cache b'.cache n (added_by sig)
  unfolding Store.store
  store-Adds by_trace by_log uuid range b n (trace s) room readable =
      let (b', done, adds) = store_traces-Ends by_trace range b n s room readable in
      (b', rw (done, Store.store) refl, adds)
  store-Adds by_trace by_log uuid range b n (metric s) room readable =
      let (b', done, adds) = store_metric-Ends uuid b n s room readable in (b', ap some done, adds)
  store-Adds by_trace by_log uuid range b n (log s) room readable =
      let (b', done, adds) = store_split_logs-Ends by_log uuid b n s room readable in
      (b', rw (done, Store.store) refl, adds)
