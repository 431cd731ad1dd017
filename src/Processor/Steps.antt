-- ===== src/Processor/Steps.antt =====
-- internal/processor/processor.go uses the buffer through its methods only: what each handler does to
-- it is a sequence of the buffer's steps.
use mathlib.Core.Path.{subst}
use mathlib.Core.Option.{some-injective}
use otel_tail_sampler.Base.{
  ◌≡◌, refl, ◌⊎◌, ℕ, some, List, [], ◌∷◌, ◌++◌, inl, inr, Bool-cases, Option-cases,
}
use otel_tail_sampler.Base.Int.{ℤ, ◌+ℤ◌, ◌-ℤ◌}
use otel_tail_sampler.Hex.{decode_string}
use otel_tail_sampler.Pdata.{Pcommon, Float64}
use otel_tail_sampler.Signals.{MetricSignal, LogSignal}
use otel_tail_sampler.Codecs.{Codecs}
use otel_tail_sampler.Gossip.{SamplingDecision}
use otel_tail_sampler.Rollup.MetricRollup.{rollup_metrics}
use otel_tail_sampler.Buffer.Libraries.{Cache, BTree}
use otel_tail_sampler.Buffer.State.{Buffer}
use otel_tail_sampler.Buffer.Query.{
  Found, absent, invalid, found, get_trace, get_trace_logs, get_metrics_in_range, get_logs_in_range,
}
use otel_tail_sampler.Buffer.Coherence.Runs.{
  Step, removed_trace, removed_metrics, removed_logs, Steps, here, then_step, Steps-Steps,
}
use otel_tail_sampler.Processor
use otel_tail_sampler.Processor.Decisions.{List-cases}

pub Found-cases :
    {A : Type 0} (f : Found A) → (f ≡ absent) ⊎ (f ≡ invalid) ⊎ ((a : A) × (f ≡ found a))
Found-cases absent = inl refl
Found-cases invalid = inr (inl refl)
Found-cases (found a) = inr (inr (a, refl))

module _ {P : Pcommon} {F : Float64} (c : Codecs P F) {C : Cache c.Bytes} {T : BTree} where
  -- From the buffer of one processor to that of another.
  abbrev pub BufferSteps : Processor.Processor c C T → Processor.Processor c C T → Type 0
  BufferSteps p p' = Steps c C T p.buffer p'.buffer

  one : {b b' : Buffer c C T} → Step c C T b b' → Steps c C T b b'
  one step = then_step here step

module _ {P : Pcommon} {F : Float64} (c : Codecs P F) {C : Cache c.Bytes} {T : BTree}
    (now : ℤ) where
  sample_trace-BufferSteps :
      (p p' : Processor.Processor c C T) (tid : List ℕ)
      → Processor.sample_trace c now p tid ≡ some p'
      → BufferSteps c p p'
  unfolding Processor.sample_trace Processor.export
  sample_trace-BufferSteps p p' tid h = elim (Found-cases (get_trace c p.buffer tid)) [
    | inl e ↦
        subst (BufferSteps c p) (some-injective _ _ (rw (e, Processor.sample_trace) at h)) here
    | inr (inl e) ↦ let e' = rw (e, Processor.sample_trace) at h in cc
    | inr (inr (t, e)) ↦
        subst (BufferSteps c p) (some-injective _ _ (rw (e, Processor.sample_trace) at h))
          (one c (removed_trace now p.buffer tid))
  ]

  sample_trace_logs-BufferSteps :
      (p p' : Processor.Processor c C T) (tid : List ℕ)
      → Processor.sample_trace_logs c now p tid ≡ some p'
      → BufferSteps c p p'
  unfolding Processor.sample_trace_logs Processor.export
  sample_trace_logs-BufferSteps p p' tid h = elim (Found-cases (get_trace_logs c p.buffer tid)) [
    | inl e ↦
        subst (BufferSteps c p) (some-injective _ _ (rw (e, Processor.sample_trace_logs) at h)) here
    | inr (inl e) ↦ let e' = rw (e, Processor.sample_trace_logs) at h in cc
    | inr (inr (l, e)) ↦
        subst (BufferSteps c p) (some-injective _ _ (rw (e, Processor.sample_trace_logs) at h)) here
  ]

  sample_metrics-BufferSteps :
      (p : Processor.Processor c C T) (start end : ℤ)
      → BufferSteps c p (Processor.sample_metrics c now p start end)
  unfolding Processor.sample_metrics Processor.export
  sample_metrics-BufferSteps p start end =
      elim (List-cases (get_metrics_in_range c p.buffer start end)) [
        | inl e ↦ rw (e, Processor.sample_metrics) here
        | inr (m, ms, e) ↦
            rw (e, Processor.sample_metrics) (one c (removed_metrics now p.buffer start end))
      ]

  sample_logs-BufferSteps :
      (p : Processor.Processor c C T) (start end : ℤ)
      → BufferSteps c p (Processor.sample_logs c now p start end)
  unfolding Processor.sample_logs Processor.export
  sample_logs-BufferSteps p start end = elim (List-cases (get_logs_in_range c p.buffer start end)) [
    | inl e ↦ rw (e, Processor.sample_logs) here
    | inr (l, ls, e) ↦ rw (e, Processor.sample_logs) (one c (removed_logs now p.buffer start end))
  ]

  sample-BufferSteps :
      (p p' : Processor.Processor c C T) (d : SamplingDecision) (tid : List ℕ)
      → Processor.sample c now p d tid ≡ some p'
      → BufferSteps c p p'
  unfolding Processor.sample
  sample-BufferSteps p p' d tid h = elim (Option-cases (Processor.sample_trace c now p tid)) [
    | inl e ↦ let e' = rw (e, Processor.sample) at h in cc
    | inr (p1, e1) ↦ elim (Option-cases (Processor.sample_trace_logs c now p1 tid)) [
      | inl e ↦ let e' = rw (e1, Processor.sample, e) at h in cc
      | inr (p2, e2) ↦
          let start = d.event_start -ℤ Processor.five_seconds in
          let end = d.event_end +ℤ Processor.five_seconds in
          let p3 = Processor.sample_metrics c now p2 start end in
          let last = some-injective _ _ (rw (e1, Processor.sample, e2) at h) in
          subst (BufferSteps c p) last (
            Steps-Steps c (sample_trace-BufferSteps p p1 tid e1) (
              Steps-Steps c (sample_trace_logs-BufferSteps p1 p2 tid e2) (
                Steps-Steps c (sample_metrics-BufferSteps p2 start end)
                  (sample_logs-BufferSteps p3 start end))))
    ]
  ]

  pub process_decision-BufferSteps :
      (p p' : Processor.Processor c C T) (d : SamplingDecision)
      → Processor.process_decision c now p d ≡ some p'
      → BufferSteps c p p'
  unfolding Processor.process_decision
  process_decision-BufferSteps p p' d h = elim (Option-cases (decode_string d.trace_id)) [
    | inl e ↦
        subst (BufferSteps c p) (some-injective _ _ (rw (e, Processor.process_decision) at h)) here
    | inr (tid, e) ↦ elim (Bool-cases (Processor.is_trace_id tid)) [
      | inl right ↦ sample-BufferSteps p p' d tid (rw (e, Processor.process_decision, right) at h)
      | inr wrong ↦
          subst (BufferSteps c p)
            (some-injective _ _ (rw (e, Processor.process_decision, wrong) at h)) here
    ]
  ]

  rollup_all_metrics-BufferSteps :
      (p p' : Processor.Processor c C T) (start end : ℤ) (ms : List (MetricSignal P F))
      → Processor.rollup_all_metrics c now p start end ms ≡ some p'
      → BufferSteps c p p'
  unfolding Processor.rollup_all_metrics Processor.export
  rollup_all_metrics-BufferSteps p p' start end [] h =
      subst (BufferSteps c p) (some-injective _ _ h) here
  rollup_all_metrics-BufferSteps p p' start end (m ∷ ms) h =
      elim (Option-cases (rollup_metrics P F p.rollup (m ∷ ms))) [
        | inl e ↦ let e' = rw e at h in cc
        | inr (rolled, e) ↦
            subst (BufferSteps c p) (some-injective _ _ (rw e at h))
              (one c (removed_metrics now p.buffer start end))
      ]

  rollup_all_logs-BufferSteps :
      (p : Processor.Processor c C T) (start end : ℤ) (ls : List (LogSignal P))
      → BufferSteps c p (Processor.rollup_all_logs c now p start end ls)
  unfolding Processor.rollup_all_logs Processor.export
  rollup_all_logs-BufferSteps p start end [] = here
  rollup_all_logs-BufferSteps p start end (l ∷ ls) = one c (removed_logs now p.buffer start end)

  pub perform_rollup-BufferSteps :
      (p p' : Processor.Processor c C T)
      → Processor.perform_rollup c now p ≡ some p'
      → BufferSteps c p p'
  unfolding Processor.perform_rollup
  perform_rollup-BufferSteps p p' h =
      let end = now -ℤ Processor.ten_seconds in
      let ms = get_metrics_in_range c p.buffer Processor.zero_time end ++ p.evicted_metrics in
      let ls = get_logs_in_range c p.buffer Processor.zero_time end ++ p.evicted_logs in
      let taken : Processor.Processor c C T = record p {
        evicted_metrics = [];
        evicted_logs = [];
      } in
      elim (Option-cases (Processor.rollup_all_metrics c now taken Processor.zero_time end ms)) [
        | inl e ↦ let e' = rw (e, Processor.perform_rollup) at h in cc
        | inr (p1, e) ↦
            subst (BufferSteps c p) (some-injective _ _ (rw (e, Processor.perform_rollup) at h)) (
              Steps-Steps c (rollup_all_metrics-BufferSteps taken p1 Processor.zero_time end ms e)
                (rollup_all_logs-BufferSteps p1 Processor.zero_time end ls))
      ]
