-- ===== src/Processor/Exports.antt =====
-- The exports of processDecision in internal/processor/processor.go, one by one.
use otel_tail_sampler.Base.{
  ◌≡◌, refl, ap, sym, ◌∙◌, ℕ, true, none, some, List, ◌∷◌, ◌++◌, append-nil, append_assoc, inl, inr,
  Bool-cases,
}
use otel_tail_sampler.Base.Int.{ℤ, ◌+ℤ◌, ◌-ℤ◌}
use otel_tail_sampler.Base.Text.{GoString}
use otel_tail_sampler.Hex.{encode_to_string, decode_string}
use otel_tail_sampler.Pdata.{Pcommon, Float64}
use otel_tail_sampler.Signals.{TraceSignal, MetricSignal, LogSignal}
use otel_tail_sampler.Codecs.{Codecs}
use otel_tail_sampler.Gossip.{SamplingDecision}
use otel_tail_sampler.Buffer.Libraries.{Cache, IsCache, BTree, IsBTree}
use otel_tail_sampler.Buffer.State.{Buffer, delete_keys}
use otel_tail_sampler.Buffer.Query.{
  absent, found, get_trace, get_trace_logs, stored_at, remove_trace, range_keys,
  get_metrics_in_range, get_logs_in_range, remove_metrics_in_range, remove_logs_in_range,
}
use otel_tail_sampler.Buffer.Coherence.{IsCoherent}
use otel_tail_sampler.Buffer.Coherence.Keeps.{cache_delete-IsCoherent, delete_keys-IsCoherent}
use otel_tail_sampler.Buffer.Removal.{is_deleted, held-delete_keys, get-cache_delete}
use otel_tail_sampler.Processor
use otel_tail_sampler.Processor.Decisions.{List-cases, sampled, process_decision-sampled}
use otel_tail_sampler.Processor.Rollups.{unless_empty}

module _ {P : Pcommon} {F : Float64} where
  -- What is exported of the signals of a window: one message, or none.
  abbrev pub metric_exports : List (MetricSignal P F) → List (Processor.Export P F)
  metric_exports ms =
      unless_empty ms
        (Processor.export_metrics (Processor.add_processing_label (Processor.joined_metrics ms)))

  abbrev pub log_exports : List (LogSignal P) → List (Processor.Export P F)
  log_exports ls =
      unless_empty ls
        (Processor.export_logs (Processor.add_processing_label (Processor.joined_logs ls)))

-- Five seconds before and after the event.
abbrev pub window_start : SamplingDecision → ℤ
window_start d = d.event_start -ℤ Processor.five_seconds

abbrev pub window_end : SamplingDecision → ℤ
window_end d = d.event_end +ℤ Processor.five_seconds

module _ {P : Pcommon} {F : Float64} (c : Codecs P F) {C : Cache c.Bytes} (K : IsCache C)
    {T : BTree} (L : IsBTree T) (now : ℤ) where
  -- The buffer without the trace, and then without the metrics of the window.
  abbrev pub without_metrics :
      Processor.Processor c C T → SamplingDecision → List ℕ → TraceSignal P → Buffer c C T
  without_metrics p d tid t =
      (Processor.sample_metrics c now (sampled c K L now p tid t) (window_start d)
        (window_end d)).buffer

  -- Nothing under a key, in a coherent buffer.
  abbrev IsGone : Buffer c C T → GoString → Type 0
  IsGone b k = IsCoherent c L b × (C.get b.cache k ≡ none)

  delete_keys-IsGone :
      (b : Buffer c C T) (ks : List GoString) (k : GoString)
      → IsGone b k
      → IsGone (delete_keys c now b ks) k
  delete_keys-IsGone b ks k (i, gone) = (
    delete_keys-IsCoherent c K L now b ks i,
    ap (λ t. t.0) (held-delete_keys c K L now b ks k i)
        ∙ elim (Bool-cases (is_deleted k ks)) [ inl e ↦ rw e refl | inr e ↦ rw e gone ],
  )

  sample_metrics-exports :
      (p : Processor.Processor c C T) (start end : ℤ) (k : GoString)
      → IsGone p.buffer k
      → ((Processor.sample_metrics c now p start end).exported
          ≡ p.exported ++ metric_exports (get_metrics_in_range c p.buffer start end))
        × IsGone (Processor.sample_metrics c now p start end).buffer k
  unfolding Processor.sample_metrics Processor.export remove_metrics_in_range
  sample_metrics-exports p start end k gone =
      elim (List-cases (get_metrics_in_range c p.buffer start end)) [
        | inl e ↦ rw (e, Processor.sample_metrics) (sym (append-nil p.exported), gone)
        | inr (m, ms, e) ↦
            rw (e, Processor.sample_metrics)
              (
                refl,
                delete_keys-IsGone p.buffer (range_keys p.buffer.metric_index start end) k gone,
              )
      ]

  sample_logs-exports :
      (p : Processor.Processor c C T) (start end : ℤ) (k : GoString)
      → IsGone p.buffer k
      → ((Processor.sample_logs c now p start end).exported
          ≡ p.exported ++ log_exports (get_logs_in_range c p.buffer start end))
        × IsGone (Processor.sample_logs c now p start end).buffer k
  unfolding Processor.sample_logs Processor.export remove_logs_in_range
  sample_logs-exports p start end k gone =
      elim (List-cases (get_logs_in_range c p.buffer start end)) [
        | inl e ↦ rw (e, Processor.sample_logs) (sym (append-nil p.exported), gone)
        | inr (l, ls, e) ↦
            rw (e, Processor.sample_logs)
              (refl, delete_keys-IsGone p.buffer (range_keys p.buffer.log_index start end) k gone)
      ]

  -- For a decision on a trace that the buffer has, the exports are exactly: the trace, then in one
  -- message the metrics of the event window, if there are any, then in one message its logs, if there
  -- are any, all labelled. The logs of the trace are not exported, and neither they nor the trace are in
  -- the buffer afterwards.
  pub process_decision-exports :
      (p : Processor.Processor c C T) (d : SamplingDecision) (tid : List ℕ) (t : TraceSignal P)
      → decode_string d.trace_id ≡ some tid
      → Processor.is_trace_id tid ≡ true
      → get_trace c p.buffer tid ≡ found t
      → IsCoherent c L p.buffer
      → (p' : Processor.Processor c C T) × (Processor.process_decision c now p d ≡ some p')
        × (p'.exported
            ≡ p.exported
              ++ (Processor.export_trace (Processor.add_processing_label t.traces)
                  ∷ (metric_exports (
                        get_metrics_in_range c
                          (remove_trace c now p.buffer tid)
                          (window_start d)
                          (window_end d))
                      ++ log_exports (
                          get_logs_in_range c
                            (without_metrics p d tid t)
                            (window_start d)
                            (window_end d)))))
        × (get_trace c p'.buffer tid ≡ absent)
        × (get_trace_logs c p'.buffer tid ≡ absent)
  unfolding Processor.export get_trace get_trace_logs stored_at remove_trace
  process_decision-exports p d tid t reads right has i =
      let start = window_start d in
      let end = window_end d in
      let key = encode_to_string tid in
      let p0 = sampled c K L now p tid t in
      let p1 = Processor.sample_metrics c now p0 start end in
      let p' = Processor.sample_logs c now p1 start end in
      let (metrics, gone1) = sample_metrics-exports p0 start end key (
        cache_delete-IsCoherent c K L now p.buffer key i,
        get-cache_delete c K L now p.buffer key i,
      ) in
      let (logs, gone2) = sample_logs-exports p1 start end key gone1 in
      (
        p',
        process_decision-sampled c K L now p d tid t reads right has i,
        logs
            ∙ ap (λ es. es ++ log_exports (get_logs_in_range c p1.buffer start end)) metrics
            ∙ append_assoc p0.exported _ _
            ∙ append_assoc p.exported _ _,
        rw (gone2.1, get_trace) refl,
        rw (gone2.1, get_trace_logs) refl,
      )
