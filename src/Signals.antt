-- ===== src/Signals.antt =====
-- pkg/signals/signals.go: the three kinds of signals.
use otel_tail_sampler.Base.Int.{ℤ}
use otel_tail_sampler.Base.Text.{GoString}
use otel_tail_sampler.Pdata.{Pcommon, Float64, Traces, Metrics, Logs}

pub data SignalType : Type 0 where
  type_trace type_metric type_log : SignalType

-- A `time.Time` is its distance from the Unix epoch in nanoseconds.
pub record Context : Type 0 where
  pub received_at : ℤ
  pub source_addr : GoString

pub record TraceSignal (P : Pcommon) : Type 0 where
  pub traces : Traces P
  pub ctx : Context

pub record MetricSignal (P : Pcommon) (F : Float64) : Type 0 where
  pub metrics : Metrics P F
  pub ctx : Context

pub record LogSignal (P : Pcommon) : Type 0 where
  pub logs : Logs P
  pub ctx : Context

-- The types that implement the interface Signal.
pub data Signal (P : Pcommon) (F : Float64) : Type 0 where
  trace : TraceSignal P → Signal P F
  metric : MetricSignal P F → Signal P F
  log : LogSignal P → Signal P F

module _ {P : Pcommon} {F : Float64} where
  unfoldable pub type : Signal P F → SignalType
  type (trace s) = type_trace
  type (metric s) = type_metric
  type (log s) = type_log

  unfoldable pub context : Signal P F → Context
  context (trace s) = s.ctx
  context (metric s) = s.ctx
  context (log s) = s.ctx
