-- ===== src/Processor.antt =====
-- internal/processor/processor.go: decisions, triggers and the periodic rollup. The exporter is its
-- log of what was exported, since no caller acts on its errors; `none` is a panic.
pub mod Decisions
pub mod Exports
pub mod Rollups
pub mod Steps
pub mod Levels
pub mod Repeats
pub mod Returns
use otel_tail_sampler.Base.{
  ◌>>=◌, ◌==◌, ℕ, Bool, true, false, Option, none, some, List, [], ◌∷◌, ◌++◌, length, map,
  if◌then◌else◌,
}
use otel_tail_sampler.Base.Int.{ℤ, pos, negsuc, ◌+ℤ◌, ◌-ℤ◌}
use otel_tail_sampler.Base.Text.{GoString, codes, eqb}
use otel_tail_sampler.Hex.{decode_string}
use otel_tail_sampler.Pdata.{Pcommon, Float64, ResourceItems, Resource, Traces, Logs, Metrics}
use otel_tail_sampler.Signals.{Signal, trace, metric, log, TraceSignal, MetricSignal, LogSignal}
use otel_tail_sampler.Codecs.{Codecs}
use otel_tail_sampler.Gossip.{SamplingDecision, TriggerEvent}
use otel_tail_sampler.Rollup.{Rollup, set_level, level_coarse, level_fine}
use otel_tail_sampler.Rollup.LogRollup.{rollup_logs}
use otel_tail_sampler.Rollup.MetricRollup.{rollup_metrics}
use otel_tail_sampler.Buffer.Libraries.{Cache, BTree}
use otel_tail_sampler.Buffer.State.{Buffer}
use otel_tail_sampler.Buffer.Query.{
  Found, absent, invalid, found, get_trace, get_trace_logs, get_metrics_in_range, get_logs_in_range,
  remove_trace, remove_metrics_in_range, remove_logs_in_range,
}

-- A call of the exporter.
pub data Export (P : Pcommon) (F : Float64) : Type 0 where
  export_trace : Traces P → Export P F
  export_metrics : Metrics P F → Export P F
  export_logs : Logs P → Export P F

module _ {P : Pcommon} {F : Float64} (c : Codecs P F) (C : Cache c.Bytes) (T : BTree) where
  pub record Processor : Type 0 where
    pub buffer : Buffer c C T
    pub rollup : Rollup
    pub exported : List (Export P F)
    pub evicted_metrics : List (MetricSignal P F)
    pub evicted_logs : List (LogSignal P)

  -- New, with the exporter's log.
  unfoldable pub new : Buffer c C T → Rollup → Processor
  new b r = record {
    buffer = b;
    rollup = r;
    exported = [];
    evicted_metrics = [];
    evicted_logs = [];
  }

-- Seconds in nanoseconds.
abbrev pub five_seconds : ℤ
five_seconds = pos 5000000000

abbrev pub ten_seconds : ℤ
ten_seconds = pos 10000000000

-- time.Time{}, the first instant of the year 1.
abbrev pub zero_time : ℤ
zero_time = negsuc 62135596799999999999

-- len(b) != 16
abbrev pub is_trace_id : List ℕ → Bool
is_trace_id b = length b == 16

module _ {P : Pcommon} {A : Type 0} where
  -- addProcessingLabelToTraces, -ToMetrics and -ToLogs.
  unfoldable pub add_processing_label : List (ResourceItems P A) → List (ResourceItems P A)
  add_processing_label [] = []
  add_processing_label (r ∷ rs) =
      let attributes = P.put r.resource.attributes (codes "sampler.processed") (P.of_bool true) in
      record r { resource = record { attributes = attributes } } ∷ add_processing_label rs

module _ {P : Pcommon} where
  unfoldable pub joined_logs : List (LogSignal P) → Logs P
  joined_logs [] = []
  joined_logs (l ∷ ls) = l.logs ++ joined_logs ls

module _ {P : Pcommon} {F : Float64} where
  unfoldable pub joined_metrics : List (MetricSignal P F) → Metrics P F
  joined_metrics [] = []
  joined_metrics (m ∷ ms) = m.metrics ++ joined_metrics ms

module _ {P : Pcommon} {F : Float64} (c : Codecs P F) {C : Cache c.Bytes} {T : BTree} where
  unfoldable pub export : Processor c C T → Export P F → Processor c C T
  export p e = record p { exported = p.exported ++ e ∷ [] }

  unfoldable pub handle_evicted_signal : Processor c C T → Signal P F → Processor c C T
  handle_evicted_signal p (trace s) = p
  handle_evicted_signal p (metric s) = record p { evicted_metrics = p.evicted_metrics ++ s ∷ [] }
  handle_evicted_signal p (log s) = record p { evicted_logs = p.evicted_logs ++ s ∷ [] }

  unfoldable pub process_trigger : Processor c C T → TriggerEvent F → Processor c C T
  unfolding set_level
  process_trigger p t =
      if eqb t.name (codes "high_load")
      then if F.less t.threshold t.value
        then record p { rollup = set_level p.rollup level_coarse }
        else record p { rollup = set_level p.rollup level_fine }
      else p

module _ {P : Pcommon} {F : Float64} (c : Codecs P F) {C : Cache c.Bytes} {T : BTree}
    (now : ℤ) where
  -- 1. The trace.
  unfoldable pub sample_trace : Processor c C T → List ℕ → Option (Processor c C T)
  unfolding get_trace remove_trace export add_processing_label
  sample_trace p tid = elim (get_trace c p.buffer tid) [
    | absent ↦ some p
    | invalid ↦ none
    | found t ↦
        let p' = export c p (export_trace (add_processing_label t.traces)) in
        some (record p' { buffer = remove_trace c now p'.buffer tid })
  ]

  -- 2. Its logs.
  unfoldable pub sample_trace_logs : Processor c C T → List ℕ → Option (Processor c C T)
  unfolding get_trace_logs export add_processing_label
  sample_trace_logs p tid = elim (get_trace_logs c p.buffer tid) [
    | absent ↦ some p
    | invalid ↦ none
    | found l ↦ some (export c p (export_logs (add_processing_label l.logs)))
  ]

  -- 3. The metrics of the event window.
  unfoldable pub sample_metrics : Processor c C T → ℤ → ℤ → Processor c C T
  unfolding get_metrics_in_range joined_metrics export add_processing_label remove_metrics_in_range
  sample_metrics p start end = elim (get_metrics_in_range c p.buffer start end) [
    | [] ↦ p
    | m ∷ ms ↦
        let p' = export c p (export_metrics (add_processing_label (joined_metrics (m ∷ ms)))) in
        record p' { buffer = remove_metrics_in_range c now p'.buffer start end }
  ]

  -- And its logs.
  unfoldable pub sample_logs : Processor c C T → ℤ → ℤ → Processor c C T
  unfolding get_logs_in_range joined_logs export add_processing_label remove_logs_in_range
  sample_logs p start end = elim (get_logs_in_range c p.buffer start end) [
    | [] ↦ p
    | l ∷ ls ↦
        let p' = export c p (export_logs (add_processing_label (joined_logs (l ∷ ls)))) in
        record p' { buffer = remove_logs_in_range c now p'.buffer start end }
  ]

  unfoldable pub sample : Processor c C T → SamplingDecision → List ℕ → Option (Processor c C T)
  unfolding sample_trace sample_trace_logs sample_metrics sample_logs
  sample p d tid = do
    p1 ← sample_trace p tid
    p2 ← sample_trace_logs p1 tid
    let start = d.event_start -ℤ five_seconds
    let end = d.event_end +ℤ five_seconds
    some (sample_logs (sample_metrics p2 start end) start end)

  unfoldable pub process_decision : Processor c C T → SamplingDecision → Option (Processor c C T)
  unfolding decode_string sample
  process_decision p d = elim (decode_string d.trace_id) [
    | none ↦ some p
    | some b ↦ if is_trace_id b then sample p d b else some p
  ]

  -- 3. of performRollup.
  unfoldable pub rollup_all_metrics :
      Processor c C T → ℤ → ℤ → List (MetricSignal P F) → Option (Processor c C T)
  unfolding rollup_metrics export add_processing_label remove_metrics_in_range
  rollup_all_metrics p start end [] = some p
  rollup_all_metrics p start end (m ∷ ms) = do
    rolled ← rollup_metrics P F p.rollup (m ∷ ms)
    let p' = export c p (export_metrics (add_processing_label rolled))
    some (record p' { buffer = remove_metrics_in_range c now p'.buffer start end })

  -- 4. of performRollup.
  unfoldable pub rollup_all_logs : Processor c C T → ℤ → ℤ → List (LogSignal P) → Processor c C T
  unfolding rollup_logs export add_processing_label remove_logs_in_range
  rollup_all_logs p start end [] = p
  rollup_all_logs p start end (l ∷ ls) =
      let p' = export c p (export_logs (add_processing_label (rollup_logs P p.rollup (l ∷ ls)))) in
      record p' { buffer = remove_logs_in_range c now p'.buffer start end }

  unfoldable pub perform_rollup : Processor c C T → Option (Processor c C T)
  unfolding get_metrics_in_range get_logs_in_range rollup_all_metrics rollup_all_logs
  perform_rollup p = do
    let end = now -ℤ ten_seconds
    let all_metrics = get_metrics_in_range c p.buffer zero_time end ++ p.evicted_metrics
    let all_logs = get_logs_in_range c p.buffer zero_time end ++ p.evicted_logs
    let taken = record p { evicted_metrics = []; evicted_logs = [] }
    p' ← rollup_all_metrics taken zero_time end all_metrics
    some (rollup_all_logs p' zero_time end all_logs)
