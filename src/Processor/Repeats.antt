-- ===== src/Processor/Repeats.antt =====
-- processDecision of internal/processor/processor.go for a decision that arrives several times, as a
-- gossip protocol delivers it, on a node that has only logs of the trace.
use otel_tail_sampler.Base.{
  ◌≡◌, refl, sym, ap, ◌∙◌, ◌>>=◌, ℕ, true, Option, some, List, [], ◌∷◌, ◌++◌, append-nil,
  append_assoc,
}
use otel_tail_sampler.Base.Int.{ℤ, ◌+ℤ◌, ◌-ℤ◌}
use otel_tail_sampler.Hex.{decode_string}
use otel_tail_sampler.Pdata.{Pcommon, Float64}
use otel_tail_sampler.Signals.{LogSignal}
use otel_tail_sampler.Codecs.{Codecs}
use otel_tail_sampler.Gossip.{SamplingDecision}
use otel_tail_sampler.Buffer.Libraries.{Cache, BTree}
use otel_tail_sampler.Buffer.Query.{
  absent, found, get_trace, get_trace_logs, get_metrics_in_range, get_logs_in_range,
}
use otel_tail_sampler.Processor

module _ {P : Pcommon} {F : Float64} where
  -- The exports of the logs, one for each time.
  abbrev pub copies : LogSignal P → List ℤ → List (Processor.Export P F)
  copies l [] = []
  copies l (now ∷ nows) =
      Processor.export_logs (Processor.add_processing_label l.logs) ∷ copies l nows

module _ {P : Pcommon} {F : Float64} (c : Codecs P F) {C : Cache c.Bytes} {T : BTree} where
  -- The same decision, processed at these times.
  unfoldable pub deliveries :
      List ℤ → Processor.Processor c C T → SamplingDecision → Option (Processor.Processor c C T)
  deliveries [] p d = some p
  deliveries (now ∷ nows) p d = do p' ← Processor.process_decision c now p d; deliveries nows p' d

  module _ (now : ℤ) (p : Processor.Processor c C T) (start end : ℤ) where
    empty_window :
        get_metrics_in_range c p.buffer start end ≡ []
        → get_logs_in_range c p.buffer start end ≡ []
        → Processor.sample_logs c now (Processor.sample_metrics c now p start end) start end ≡ p
    unfolding Processor.sample_metrics Processor.sample_logs
    empty_window no_metrics no_logs =
        let same : Processor.sample_metrics c now p start end ≡ p =
          rw (no_metrics, Processor.sample_metrics) refl in
        ap (λ q. Processor.sample_logs c now q start end) same
        ∙ rw (no_logs, Processor.sample_logs) refl

  module _ (d : SamplingDecision) (tid : List ℕ) (l : LogSignal P) where
    -- The buffer has logs of the trace, no spans of it, and nothing in the event window.
    pub record HasOnlyLogs (p : Processor.Processor c C T) : Type 0 where
      pub reads : decode_string d.trace_id ≡ some tid
      pub long_enough : Processor.is_trace_id tid ≡ true
      pub no_trace : get_trace c p.buffer tid ≡ absent
      pub its_logs : get_trace_logs c p.buffer tid ≡ found l
      pub no_metrics :
          get_metrics_in_range c p.buffer
            (d.event_start -ℤ Processor.five_seconds)
            (d.event_end +ℤ Processor.five_seconds)
          ≡ []
      pub no_logs :
          get_logs_in_range c p.buffer
            (d.event_start -ℤ Processor.five_seconds)
            (d.event_end +ℤ Processor.five_seconds)
          ≡ []

    process_decision-logs :
        (now : ℤ) (p : Processor.Processor c C T)
        → HasOnlyLogs p
        → Processor.process_decision c now p d
          ≡ some
              (Processor.export c p (Processor.export_logs (Processor.add_processing_label l.logs)))
    unfolding Processor.process_decision Processor.sample Processor.sample_trace
        Processor.sample_trace_logs Processor.export
    process_decision-logs now p h =
        rw
          (
            h.reads, Processor.process_decision, h.long_enough, Processor.sample, h.no_trace,
            Processor.sample_trace, h.its_logs, Processor.sample_trace_logs,
          )
          (ap some (
            empty_window now
              (Processor.export c p (Processor.export_logs (Processor.add_processing_label l.logs)))
              _ _ h.no_metrics h.no_logs))

    -- On a node that has logs of a trace, but no spans of it and nothing in the event window, a decision
    -- exports the logs and leaves them in the buffer, so that each further delivery of the decision
    -- exports them once more.
    pub deliveries-copies :
        (nows : List ℤ) (p : Processor.Processor c C T)
        → HasOnlyLogs p
        → deliveries nows p d ≡ some (record p { exported = p.exported ++ copies l nows })
    unfolding deliveries Processor.export
    deliveries-copies [] p h =
        ap (λ x. some (record p { exported = x })) (sym (append-nil p.exported))
    deliveries-copies (now ∷ nows) p h =
        let e = Processor.export_logs (Processor.add_processing_label l.logs) in
        rw (process_decision-logs now p h) (
          deliveries-copies nows (Processor.export c p e) (record {
            reads = h.reads;
            long_enough = h.long_enough;
            no_trace = h.no_trace;
            its_logs = h.its_logs;
            no_metrics = h.no_metrics;
            no_logs = h.no_logs;
          })
          ∙ ap (λ x. some (record p { exported = x }))
              (append_assoc p.exported (e ∷ []) (copies l nows)))
