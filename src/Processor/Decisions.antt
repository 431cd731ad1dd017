-- ===== src/Processor/Decisions.antt =====
-- What processDecision of internal/processor/processor.go exports and leaves behind.
use otel_tail_sampler.Base.{◌≡◌, refl, ap, ◌∙◌, ℕ, true, some, List, [], ◌∷◌, ◌⊎◌, inl, inr}
use otel_tail_sampler.Base.Int.{ℤ, ◌+ℤ◌, ◌-ℤ◌}
use otel_tail_sampler.Hex.{decode_string}
use otel_tail_sampler.Pdata.{Pcommon, Float64}
use otel_tail_sampler.Signals.{TraceSignal}
use otel_tail_sampler.Codecs.{Codecs}
use otel_tail_sampler.Gossip.{SamplingDecision}
use otel_tail_sampler.Buffer.Libraries.{Cache, IsCache, BTree, IsBTree}
use otel_tail_sampler.Buffer.Query.{
  found, get_trace, remove_trace, get_metrics_in_range, get_logs_in_range,
}
use otel_tail_sampler.Buffer.Coherence.{IsCoherent}
use otel_tail_sampler.Buffer.TraceData.{remove_trace-removes_logs}
use otel_tail_sampler.Buffer.Removal.Ranges.{get_metrics-remove_metrics, get_logs-remove_logs}
use otel_tail_sampler.Processor

pub List-cases : {A : Type 0} (l : List A) → (l ≡ []) ⊎ ((a : A) × (rest : List A) × (l ≡ a ∷ rest))
List-cases [] = inl refl
List-cases (a ∷ rest) = inr (a, rest, refl)

module _ {P : Pcommon} {F : Float64} (c : Codecs P F) {C : Cache c.Bytes} (K : IsCache C)
    {T : BTree} (L : IsBTree T) (now : ℤ) where
  -- The processor after a trace was exported and removed.
  abbrev pub sampled :
      Processor.Processor c C T → List ℕ → TraceSignal P → Processor.Processor c C T
  sampled p tid t =
      let p' =
        Processor.export c p (Processor.export_trace (Processor.add_processing_label t.traces)) in
      record p' { buffer = remove_trace c now p'.buffer tid }

  -- What the event window adds to a processor.
  abbrev pub with_window : Processor.Processor c C T → SamplingDecision → Processor.Processor c C T
  with_window p d =
      let start = d.event_start -ℤ Processor.five_seconds in
      let end = d.event_end +ℤ Processor.five_seconds in
      Processor.sample_logs c now (Processor.sample_metrics c now p start end) start end

  -- The second step finds nothing after the first has found the trace.
  pub process_decision-sampled :
      (p : Processor.Processor c C T) (d : SamplingDecision) (tid : List ℕ) (t : TraceSignal P)
      → decode_string d.trace_id ≡ some tid
      → Processor.is_trace_id tid ≡ true
      → get_trace c p.buffer tid ≡ found t
      → IsCoherent c L p.buffer
      → Processor.process_decision c now p d ≡ some (with_window (sampled p tid t) d)
  unfolding Processor.process_decision Processor.sample Processor.sample_trace
      Processor.sample_trace_logs Processor.export
  process_decision-sampled p d tid t reads right has i =
      let (no_trace, no_logs) = remove_trace-removes_logs c K L now p.buffer tid i in
      rw
        (
          reads, Processor.process_decision, right, Processor.sample, has, Processor.sample_trace,
          no_logs, Processor.sample_trace_logs,
        )
        refl

  sample_metrics_empty :
      (p : Processor.Processor c C T) (start end : ℤ)
      → get_metrics_in_range c p.buffer start end ≡ []
      → Processor.sample_metrics c now p start end ≡ p
  unfolding Processor.sample_metrics
  sample_metrics_empty p start end e = rw (e, Processor.sample_metrics) refl

  sample_logs_empty :
      (p : Processor.Processor c C T) (start end : ℤ)
      → get_logs_in_range c p.buffer start end ≡ []
      → Processor.sample_logs c now p start end ≡ p
  unfolding Processor.sample_logs
  sample_logs_empty p start end e = rw (e, Processor.sample_logs) refl

  -- Sampling the metrics of a window twice is the same as sampling them once: what was exported is no
  -- longer in the buffer.
  pub sample_metrics-sample_metrics :
      (p : Processor.Processor c C T) (start end : ℤ)
      → IsCoherent c L p.buffer
      → Processor.sample_metrics c now (Processor.sample_metrics c now p start end) start end
        ≡ Processor.sample_metrics c now p start end
  unfolding Processor.sample_metrics Processor.export
  sample_metrics-sample_metrics p start end i =
      sample_metrics_empty (Processor.sample_metrics c now p start end) start end
        (elim (List-cases (get_metrics_in_range c p.buffer start end)) [
          | inl e ↦
              ap (λ (q : Processor.Processor c C T). get_metrics_in_range c q.buffer start end)
                (sample_metrics_empty p start end e)
              ∙ e
          | inr (m, ms, e) ↦
              rw (e, Processor.sample_metrics)
                (get_metrics-remove_metrics c K L now p.buffer start end i).0
        ])

  -- Sampling the logs of a window twice is the same as sampling them once: what was exported is no
  -- longer in the buffer.
  pub sample_logs-sample_logs :
      (p : Processor.Processor c C T) (start end : ℤ)
      → IsCoherent c L p.buffer
      → Processor.sample_logs c now (Processor.sample_logs c now p start end) start end
        ≡ Processor.sample_logs c now p start end
  unfolding Processor.sample_logs Processor.export
  sample_logs-sample_logs p start end i =
      sample_logs_empty (Processor.sample_logs c now p start end) start end
        (elim (List-cases (get_logs_in_range c p.buffer start end)) [
          | inl e ↦
              ap (λ (q : Processor.Processor c C T). get_logs_in_range c q.buffer start end)
                (sample_logs_empty p start end e)
              ∙ e
          | inr (l, ls, e) ↦
              rw (e, Processor.sample_logs) (get_logs-remove_logs c K L now p.buffer start end i).0
        ])
