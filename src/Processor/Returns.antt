-- ===== src/Processor/Returns.antt =====
-- processDecision of internal/processor/processor.go returns on a buffer with readable entries.
use otel_tail_sampler.Base.{
  ◌≡◌, ◌⊎◌, refl, ℕ, some, List, [], ◌∷◌, ◌++◌, inl, inr, Bool-cases, Option-cases,
}
use otel_tail_sampler.Base.Int.{ℤ, ◌-ℤ◌, ◌+ℤ◌}
use otel_tail_sampler.Hex.{encode_to_string, decode_string}
use otel_tail_sampler.Pdata.{Pcommon, Float64}
use otel_tail_sampler.Codecs.{Codecs}
use otel_tail_sampler.Gossip.{SamplingDecision}
use otel_tail_sampler.Buffer.Libraries.{Cache, IsCache, BTree}
use otel_tail_sampler.Buffer.State.{Buffer, stamped}
use otel_tail_sampler.Buffer.Store.{current_traces, current_logs}
use otel_tail_sampler.Buffer.Query.{
  Found, absent, found, get_trace, get_trace_logs, stored_at, remove_trace,
}
use otel_tail_sampler.Buffer.Spans.{AllReadable}
use otel_tail_sampler.Buffer.Readable.Runs.{cache_delete-AllReadable}
use otel_tail_sampler.Processor

-- A look-up whose message, if there is one, can be read.
abbrev IsValid : {A : Type 0} → Found A → Type 0
IsValid {A} o = (o ≡ absent) ⊎ ((a : A) × (o ≡ found a))

module _ {P : Pcommon} {F : Float64} (c : Codecs P F) {C : Cache c.Bytes} {T : BTree} where
  get_trace-IsValid :
      (b : Buffer c C T) (tid : List ℕ) → AllReadable c C b.cache → IsValid (get_trace c b tid)
  unfolding get_trace stored_at current_traces
  get_trace-IsValid b tid readable = elim (readable tid) [
    | inl missing ↦ inl (rw (missing, get_trace) refl)
    | inr (stored, present, r) ↦ elim (Bool-cases (c.is_empty stored.traces_data)) [
      | inl empty ↦ inl (rw (present, get_trace, empty) refl)
      | inr full ↦
          let reads : c.unmarshal_traces stored.traces_data ≡ some r.traces =
            rw (full, current_traces) at r.traces_read in
          inr (
            record { traces = r.traces; ctx = stamped stored.received_at },
            rw (present, get_trace, full, reads) refl,
          )
    ]
  ]

  get_trace_logs-IsValid :
      (b : Buffer c C T) (tid : List ℕ) → AllReadable c C b.cache → IsValid (get_trace_logs c b tid)
  unfolding get_trace_logs stored_at current_logs
  get_trace_logs-IsValid b tid readable = elim (readable tid) [
    | inl missing ↦ inl (rw (missing, get_trace_logs) refl)
    | inr (stored, present, r) ↦ elim (Bool-cases (c.is_empty stored.logs_data)) [
      | inl empty ↦ inl (rw (present, get_trace_logs, empty) refl)
      | inr full ↦
          let reads : c.unmarshal_logs stored.logs_data ≡ some r.logs =
            rw (full, current_logs) at r.logs_read in
          inr (
            record { logs = r.logs; ctx = stamped stored.received_at },
            rw (present, get_trace_logs, full, reads) refl,
          )
    ]
  ]

module _ {P : Pcommon} {F : Float64} (c : Codecs P F) {C : Cache c.Bytes} (K : IsCache C)
    {T : BTree} (now : ℤ) where
  sample_trace_returns :
      (p : Processor.Processor c C T) (tid : List ℕ)
      → AllReadable c C p.buffer.cache
      → (p' : Processor.Processor c C T) × (Processor.sample_trace c now p tid ≡ some p')
        × AllReadable c C p'.buffer.cache
  unfolding Processor.sample_trace Processor.export remove_trace
  sample_trace_returns p tid readable = elim (get_trace-IsValid c p.buffer tid readable) [
    | inl e ↦ (p, rw (e, Processor.sample_trace) refl, readable)
    | inr (t, e) ↦ (
      record p {
        exported =
            p.exported ++ Processor.export_trace (Processor.add_processing_label t.traces) ∷ [];
        buffer = remove_trace c now p.buffer tid;
      },
      rw (e, Processor.sample_trace) refl,
      cache_delete-AllReadable c K now p.buffer (encode_to_string tid) readable,
    )
  ]

  sample_trace_logs_returns :
      (p : Processor.Processor c C T) (tid : List ℕ)
      → AllReadable c C p.buffer.cache
      → (p' : Processor.Processor c C T) × (Processor.sample_trace_logs c now p tid ≡ some p')
  unfolding Processor.sample_trace_logs Processor.export
  sample_trace_logs_returns p tid readable = elim (get_trace_logs-IsValid c p.buffer tid readable) [
    | inl e ↦ (p, rw (e, Processor.sample_trace_logs) refl)
    | inr (l, e) ↦ (
      Processor.export c p (Processor.export_logs (Processor.add_processing_label l.logs)),
      rw (e, Processor.sample_trace_logs) refl,
    )
  ]

  sample_returns :
      (p : Processor.Processor c C T) (d : SamplingDecision) (tid : List ℕ)
      → AllReadable c C p.buffer.cache
      → (p' : Processor.Processor c C T) × (Processor.sample c now p d tid ≡ some p')
  unfolding Processor.sample
  sample_returns p d tid readable =
      let (p1, first, readable1) = sample_trace_returns p tid readable in
      let (p2, second) = sample_trace_logs_returns p1 tid readable1 in
      let start = d.event_start -ℤ Processor.five_seconds in
      let end = d.event_end +ℤ Processor.five_seconds in
      (
        Processor.sample_logs c now (Processor.sample_metrics c now p2 start end) start end,
        rw (first, Processor.sample, second) refl,
      )

  pub process_decision_returns :
      (p : Processor.Processor c C T) (d : SamplingDecision)
      → AllReadable c C p.buffer.cache
      → (p' : Processor.Processor c C T) × (Processor.process_decision c now p d ≡ some p')
  unfolding Processor.process_decision
  process_decision_returns p d readable = elim (Option-cases (decode_string d.trace_id)) [
    | inl e ↦ (p, rw (e, Processor.process_decision) refl)
    | inr (tid, e) ↦ elim (Bool-cases (Processor.is_trace_id tid)) [
      | inl right ↦
          let (p', done) = sample_returns p d tid readable in
          (p', rw (e, Processor.process_decision, right) done)
      | inr wrong ↦ (p, rw (e, Processor.process_decision, wrong) refl)
    ]
  ]
