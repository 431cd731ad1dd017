-- ===== src/Processor/Rollups.antt =====
-- What performRollup of internal/processor/processor.go exports and takes.
use otel_tail_sampler.Base.{
  ◌≡◌, refl, sym, ap, ◌∙◌, some, List, [], ◌∷◌, ◌++◌, All, append-nil, append_assoc,
}
use otel_tail_sampler.Base.Int.{ℤ, ◌-ℤ◌}
use otel_tail_sampler.Base.Text.{GoString}
use otel_tail_sampler.Pdata.{Pcommon, Float64, Metrics}
use otel_tail_sampler.Signals.{MetricSignal, LogSignal}
use otel_tail_sampler.Codecs.{Codecs}
use otel_tail_sampler.Rollup.LogRollup.{rollup_logs}
use otel_tail_sampler.Rollup.MetricRollup.{rollup_metrics}
use otel_tail_sampler.Rollup.Panics.{Kind, IsTypedResource, rollup_metrics-total}
use otel_tail_sampler.Buffer.Libraries.{Cache, BTree}
use otel_tail_sampler.Buffer.Query.{
  get_metrics_in_range, get_logs_in_range, remove_metrics_in_range,
}
use otel_tail_sampler.Processor

-- One value, or none for an empty list.
abbrev pub unless_empty : {A B : Type 0} → List A → B → List B
unless_empty [] b = []
unless_empty (a ∷ as') b = b ∷ []

module _ {P : Pcommon} {F : Float64} (c : Codecs P F) {C : Cache c.Bytes} {T : BTree}
    (now : ℤ) where
  -- All metrics and all logs that a rollup takes: of the buffer, until ten seconds ago, and evicted.
  abbrev pub all_metrics : Processor.Processor c C T → List (MetricSignal P F)
  all_metrics p =
      get_metrics_in_range c p.buffer Processor.zero_time (now -ℤ Processor.ten_seconds)
      ++ p.evicted_metrics

  abbrev pub all_logs : Processor.Processor c C T → List (LogSignal P)
  all_logs p =
      get_logs_in_range c p.buffer Processor.zero_time (now -ℤ Processor.ten_seconds)
      ++ p.evicted_logs

  -- What both halves leave of a processor: no evicted signals are added, and the level stays.
  abbrev kept : Processor.Processor c C T → List (MetricSignal P F) × List (LogSignal P)
  kept p = (p.evicted_metrics, p.evicted_logs)

  rollup_all_metrics-exports :
      (p : Processor.Processor c C T) (start end : ℤ) (ms : List (MetricSignal P F))
      (rolled : Metrics P F)
      → rollup_metrics P F p.rollup ms ≡ some rolled
      → (p' : Processor.Processor c C T) × (Processor.rollup_all_metrics c now p start end ms
          ≡ some p')
        × (p'.exported
            ≡ p.exported
              ++ unless_empty ms (Processor.export_metrics (Processor.add_processing_label rolled)))
        × (kept p' ≡ kept p)
        × (p'.rollup ≡ p.rollup)
  unfolding Processor.rollup_all_metrics Processor.export
  rollup_all_metrics-exports p start end [] rolled h =
      (p, refl, sym (append-nil p.exported), refl, refl)
  rollup_all_metrics-exports p start end (m ∷ ms) rolled h =
      let p' =
        Processor.export c p (Processor.export_metrics (Processor.add_processing_label rolled)) in
      (
        record p' { buffer = remove_metrics_in_range c now p'.buffer start end },
        rw h refl,
        refl,
        refl,
        refl,
      )

  rollup_all_logs-exports :
      (p : Processor.Processor c C T) (start end : ℤ) (ls : List (LogSignal P))
      → ((Processor.rollup_all_logs c now p start end ls).exported
          ≡ p.exported
            ++ unless_empty ls (
                Processor.export_logs (Processor.add_processing_label (rollup_logs P p.rollup ls))))
        × (kept (Processor.rollup_all_logs c now p start end ls) ≡ kept p)
  unfolding Processor.rollup_all_logs Processor.export
  rollup_all_logs-exports p start end [] = (sym (append-nil p.exported), refl)
  rollup_all_logs-exports p start end (l ∷ ls) = (refl, refl)

  -- When the metrics of each name are all of one type, a periodic rollup does not panic. It exports the
  -- rolled-up metrics if there are any, then the rolled-up logs if there are any, each of the buffer
  -- and of what was evicted, and takes what was evicted.
  pub perform_rollup-exports :
      (kind_of : GoString → Kind) (p : Processor.Processor c C T)
      → All (λ sig. All (IsTypedResource P F kind_of) sig.metrics) (all_metrics p)
      → (p' : Processor.Processor c C T) × (rolled : Metrics P F) × (Processor.perform_rollup c now
            p
          ≡ some p')
        × (rollup_metrics P F p.rollup (all_metrics p) ≡ some rolled)
        × (p'.exported
            ≡ p.exported
              ++ (unless_empty
                    (all_metrics p)
                    (Processor.export_metrics (Processor.add_processing_label rolled))
                  ++ unless_empty (all_logs p) (
                      Processor.export_logs
                        (Processor.add_processing_label (rollup_logs P p.rollup (all_logs p))))))
        × (p'.evicted_metrics ≡ [])
        × (p'.evicted_logs ≡ [])
  unfolding Processor.perform_rollup
  perform_rollup-exports kind_of p typed =
      let end = now -ℤ Processor.ten_seconds in
      let taken : Processor.Processor c C T = record p {
        evicted_metrics = [];
        evicted_logs = [];
      } in
      let (rolled, rolls) = rollup_metrics-total P F kind_of p.rollup (all_metrics p) typed in
      let (p1, done, metrics, kept1, level) =
        rollup_all_metrics-exports taken Processor.zero_time end (all_metrics p) rolled rolls in
      let (logs, kept2) = rollup_all_logs-exports p1 Processor.zero_time end (all_logs p) in
      (
        Processor.rollup_all_logs c now p1 Processor.zero_time end (all_logs p),
        rolled,
        rw (done, Processor.perform_rollup) refl,
        rolls,
        logs
            ∙ ap
                (λ r.
                  p1.exported
                  ++ unless_empty (all_logs p) (
                      Processor.export_logs
                        (Processor.add_processing_label (rollup_logs P r (all_logs p)))))
                level
            ∙ ap
                (λ es.
                  es
                  ++ unless_empty (all_logs p) (
                      Processor.export_logs
                        (Processor.add_processing_label (rollup_logs P p.rollup (all_logs p)))))
                metrics
            ∙ append_assoc p.exported _ _,
        ap (λ t. t.0) (kept2 ∙ kept1),
        ap (λ t. t.1) (kept2 ∙ kept1),
      )
