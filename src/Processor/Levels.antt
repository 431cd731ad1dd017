-- ===== src/Processor/Levels.antt =====
-- The level of the rollup in internal/processor/processor.go: the triggers set it, and nothing else does.
use mathlib.Core.Path.{subst}
use mathlib.Core.Option.{some-injective}
use otel_tail_sampler.Base.{
  ◌≡◌, refl, ◌∙◌, ℕ, some, List, [], ◌∷◌, ◌++◌, inl, inr, Bool-cases, Option-cases, if◌then◌else◌,
}
use otel_tail_sampler.Base.Int.{ℤ, ◌+ℤ◌, ◌-ℤ◌}
use otel_tail_sampler.Base.Text.{codes, eqb}
use otel_tail_sampler.Hex.{decode_string}
use otel_tail_sampler.Pdata.{Pcommon, Float64}
use otel_tail_sampler.Signals.{Signal, trace, metric, log, MetricSignal, LogSignal}
use otel_tail_sampler.Codecs.{Codecs}
use otel_tail_sampler.Gossip.{SamplingDecision, TriggerEvent}
use otel_tail_sampler.Rollup.{CardinalityLevel, level_coarse, level_fine, set_level}
use otel_tail_sampler.Rollup.MetricRollup.{rollup_metrics}
use otel_tail_sampler.Buffer.Libraries.{Cache, BTree}
use otel_tail_sampler.Buffer.Query.{
  get_trace, get_trace_logs, get_metrics_in_range, get_logs_in_range,
}
use otel_tail_sampler.Processor
use otel_tail_sampler.Processor.Decisions.{List-cases}
use otel_tail_sampler.Processor.Steps.{Found-cases}

module _ {F : Float64} where
  -- What a trigger makes of the level.
  abbrev pub level_by : TriggerEvent F → CardinalityLevel → CardinalityLevel
  level_by t level =
      if eqb t.name (codes "high_load")
      then if F.less t.threshold t.value then level_coarse else level_fine
      else level

module _ {P : Pcommon} {F : Float64} (c : Codecs P F) {C : Cache c.Bytes} {T : BTree} where
  pub process_trigger-level_by :
      (p : Processor.Processor c C T) (t : TriggerEvent F)
      → (Processor.process_trigger c p t).rollup.current_level ≡ level_by t p.rollup.current_level
  unfolding Processor.process_trigger set_level
  process_trigger-level_by p t = elim (Bool-cases (eqb t.name (codes "high_load"))) [
    | inl e ↦ elim (Bool-cases (F.less t.threshold t.value)) [
      | inl high ↦ rw (e, Processor.process_trigger, high) refl
      | inr low ↦ rw (e, Processor.process_trigger, low) refl
    ]
    | inr e ↦ rw (e, Processor.process_trigger) refl
  ]

  pub handle_evicted_signal-rollup :
      (p : Processor.Processor c C T) (sig : Signal P F)
      → (Processor.handle_evicted_signal c p sig).rollup ≡ p.rollup
  unfolding Processor.handle_evicted_signal
  handle_evicted_signal-rollup p (trace s) = refl
  handle_evicted_signal-rollup p (metric s) = refl
  handle_evicted_signal-rollup p (log s) = refl

  -- The level and the configuration of the rollup are as they were.
  abbrev KeepsRollup : Processor.Processor c C T → Processor.Processor c C T → Type 0
  KeepsRollup p p' = p'.rollup ≡ p.rollup

module _ {P : Pcommon} {F : Float64} (c : Codecs P F) {C : Cache c.Bytes} {T : BTree}
    (now : ℤ) where
  sample_trace-KeepsRollup :
      (p p' : Processor.Processor c C T) (tid : List ℕ)
      → Processor.sample_trace c now p tid ≡ some p'
      → KeepsRollup c p p'
  unfolding Processor.sample_trace Processor.export
  sample_trace-KeepsRollup p p' tid h = elim (Found-cases (get_trace c p.buffer tid)) [
    | inl e ↦
        subst (KeepsRollup c p) (some-injective _ _ (rw (e, Processor.sample_trace) at h)) refl
    | inr (inl e) ↦ let e' = rw (e, Processor.sample_trace) at h in cc
    | inr (inr (t, e)) ↦
        subst (KeepsRollup c p) (some-injective _ _ (rw (e, Processor.sample_trace) at h)) refl
  ]

  sample_trace_logs-KeepsRollup :
      (p p' : Processor.Processor c C T) (tid : List ℕ)
      → Processor.sample_trace_logs c now p tid ≡ some p'
      → KeepsRollup c p p'
  unfolding Processor.sample_trace_logs Processor.export
  sample_trace_logs-KeepsRollup p p' tid h = elim (Found-cases (get_trace_logs c p.buffer tid)) [
    | inl e ↦
        subst (KeepsRollup c p) (some-injective _ _ (rw (e, Processor.sample_trace_logs) at h)) refl
    | inr (inl e) ↦ let e' = rw (e, Processor.sample_trace_logs) at h in cc
    | inr (inr (t, e)) ↦
        subst (KeepsRollup c p) (some-injective _ _ (rw (e, Processor.sample_trace_logs) at h)) refl
  ]

  sample_metrics-KeepsRollup :
      (p : Processor.Processor c C T) (start end : ℤ)
      → KeepsRollup c p (Processor.sample_metrics c now p start end)
  unfolding Processor.sample_metrics Processor.export
  sample_metrics-KeepsRollup p start end =
      elim (List-cases (get_metrics_in_range c p.buffer start end)) [
        | inl e ↦ rw (e, Processor.sample_metrics) refl
        | inr (m, ms, e) ↦ rw (e, Processor.sample_metrics) refl
      ]

  sample_logs-KeepsRollup :
      (p : Processor.Processor c C T) (start end : ℤ)
      → KeepsRollup c p (Processor.sample_logs c now p start end)
  unfolding Processor.sample_logs Processor.export
  sample_logs-KeepsRollup p start end = elim (List-cases (get_logs_in_range c p.buffer start end)) [
    | inl e ↦ rw (e, Processor.sample_logs) refl
    | inr (l, ls, e) ↦ rw (e, Processor.sample_logs) refl
  ]

  sample-KeepsRollup :
      (p p' : Processor.Processor c C T) (d : SamplingDecision) (tid : List ℕ)
      → Processor.sample c now p d tid ≡ some p'
      → KeepsRollup c p p'
  unfolding Processor.sample
  sample-KeepsRollup p p' d tid h = elim (Option-cases (Processor.sample_trace c now p tid)) [
    | inl e ↦ let e' = rw (e, Processor.sample) at h in cc
    | inr (p1, e1) ↦ elim (Option-cases (Processor.sample_trace_logs c now p1 tid)) [
      | inl e ↦ let e' = rw (e1, Processor.sample, e) at h in cc
      | inr (p2, e2) ↦
          let start = d.event_start -ℤ Processor.five_seconds in
          let end = d.event_end +ℤ Processor.five_seconds in
          let p3 = Processor.sample_metrics c now p2 start end in
          subst (KeepsRollup c p) (some-injective _ _ (rw (e1, Processor.sample, e2) at h)) (
            sample_logs-KeepsRollup p3 start end
            ∙ sample_metrics-KeepsRollup p2 start end
            ∙ sample_trace_logs-KeepsRollup p1 p2 tid e2
            ∙ sample_trace-KeepsRollup p p1 tid e1)
    ]
  ]

  pub process_decision-rollup :
      (p p' : Processor.Processor c C T) (d : SamplingDecision)
      → Processor.process_decision c now p d ≡ some p'
      → p'.rollup ≡ p.rollup
  unfolding Processor.process_decision
  process_decision-rollup p p' d h = elim (Option-cases (decode_string d.trace_id)) [
    | inl e ↦
        subst (KeepsRollup c p) (some-injective _ _ (rw (e, Processor.process_decision) at h)) refl
    | inr (tid, e) ↦ elim (Bool-cases (Processor.is_trace_id tid)) [
      | inl right ↦ sample-KeepsRollup p p' d tid (rw (e, Processor.process_decision, right) at h)
      | inr wrong ↦
          subst (KeepsRollup c p)
            (some-injective _ _ (rw (e, Processor.process_decision, wrong) at h)) refl
    ]
  ]

  rollup_all_metrics-KeepsRollup :
      (p p' : Processor.Processor c C T) (start end : ℤ) (ms : List (MetricSignal P F))
      → Processor.rollup_all_metrics c now p start end ms ≡ some p'
      → KeepsRollup c p p'
  unfolding Processor.rollup_all_metrics Processor.export
  rollup_all_metrics-KeepsRollup p p' start end [] h =
      subst (KeepsRollup c p) (some-injective _ _ h) refl
  rollup_all_metrics-KeepsRollup p p' start end (m ∷ ms) h =
      elim (Option-cases (rollup_metrics P F p.rollup (m ∷ ms))) [
        | inl e ↦ let e' = rw e at h in cc
        | inr (rolled, e) ↦ subst (KeepsRollup c p) (some-injective _ _ (rw e at h)) refl
      ]

  rollup_all_logs-KeepsRollup :
      (p : Processor.Processor c C T) (start end : ℤ) (ls : List (LogSignal P))
      → KeepsRollup c p (Processor.rollup_all_logs c now p start end ls)
  unfolding Processor.rollup_all_logs Processor.export
  rollup_all_logs-KeepsRollup p start end [] = refl
  rollup_all_logs-KeepsRollup p start end (l ∷ ls) = refl

  pub perform_rollup-rollup :
      (p p' : Processor.Processor c C T)
      → Processor.perform_rollup c now p ≡ some p'
      → p'.rollup ≡ p.rollup
  unfolding Processor.perform_rollup
  perform_rollup-rollup p p' h =
      let end = now -ℤ Processor.ten_seconds in
      let ms = get_metrics_in_range c p.buffer Processor.zero_time end ++ p.evicted_metrics in
      let ls = get_logs_in_range c p.buffer Processor.zero_time end ++ p.evicted_logs in
      let taken : Processor.Processor c C T = record p {
        evicted_metrics = [];
        evicted_logs = [];
      } in
      elim (Option-cases (Processor.rollup_all_metrics c now taken Processor.zero_time end ms)) [
        | inl e ↦ let e' = rw (e, Processor.perform_rollup) at h in cc
        | inr (p1, e) ↦
            subst (KeepsRollup c p) (some-injective _ _ (rw (e, Processor.perform_rollup) at h)) (
              rollup_all_logs-KeepsRollup p1 Processor.zero_time end ls
              ∙ rollup_all_metrics-KeepsRollup taken p1 Processor.zero_time end ms e)
      ]
