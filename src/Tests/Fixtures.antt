-- ===== src/Tests/Fixtures.antt =====
-- A trace, a metric, a log record and an empty buffer, for the tests.
use otel_tail_sampler.Base.{ℕ, true, List, [], ◌∷◌}
use otel_tail_sampler.Base.Int.{ℤ, pos}
use otel_tail_sampler.Base.Text.{GoString, codes}
use otel_tail_sampler.Pdata.{
  Resource, Scope, ResourceItems, Span, error, NumberValue, NumberDataPoint, gauge, Traces, Logs,
  Metrics,
}
use otel_tail_sampler.Pdata.Simple.{simple, tenths, text}
use otel_tail_sampler.Signals.{Context, TraceSignal, MetricSignal, LogSignal}
use otel_tail_sampler.Codecs.Blobs.{Blob, blobs}
use otel_tail_sampler.Rollup.{Rollup, level_medium}
use otel_tail_sampler.Buffer.Libraries.Lists.{cache, tree}
use otel_tail_sampler.Buffer.State.{Buffer, new}

abbrev pub tid : List ℕ
tid = 10 ∷ 1 ∷ 2 ∷ 3 ∷ 4 ∷ 5 ∷ 6 ∷ 7 ∷ 8 ∷ 9 ∷ 10 ∷ 11 ∷ 12 ∷ 13 ∷ 14 ∷ 255 ∷ []

abbrev pub resource : Resource simple
resource = record { attributes = (codes "service.name", text (codes "shop")) ∷ [] }

abbrev pub scope : Scope simple
scope = record { name = codes "lib"; version = codes "1"; attributes = [] }

abbrev pub wrap : {A : Type 0} → List A → List (ResourceItems simple A)
wrap as' = record { resource = resource; scopes = record { scope = scope; items = as' } ∷ [] } ∷ []

abbrev pub span : Span simple
span = record {
  trace_id = tid;
  start_timestamp = 1000000000;
  end_timestamp = 3000000000;
  status = error;
  attributes = (codes "user", text (codes "eve")) ∷ [];
}

abbrev pub spans : Traces simple
spans = wrap (span ∷ [])

abbrev pub point : NumberDataPoint simple tenths
point = record {
  attributes = (codes "http.method", text (codes "GET")) ∷ [];
  value = NumberValue.int (pos 4);
}

abbrev pub metrics : Metrics simple tenths
metrics = wrap (
    record { name = codes "requests"; description = []; unit = []; content = gauge (point ∷ []) }
    ∷ [])

abbrev pub records : Logs simple
records = wrap (
    record { trace_id = tid; severity_number = pos 9; body = text (codes "hello"); attributes = [] }
    ∷ [])

abbrev pub ctx : Context
ctx = record { received_at = pos 2000000000; source_addr = codes "10.0.0.1" }

abbrev pub trace_signal : TraceSignal simple
trace_signal = record { traces = spans; ctx = ctx }

abbrev pub metric_signal : MetricSignal simple tenths
metric_signal = record { metrics = metrics; ctx = ctx }

abbrev pub log_signal : LogSignal simple
log_signal = record { logs = records; ctx = ctx }

-- The clock of the tests, a hundred seconds after the epoch.
abbrev pub now : ℤ
now = pos 100000000000

abbrev pub uuid : GoString
uuid = codes "u1"

abbrev pub empty_buffer : Buffer blobs (cache Blob 2) tree
empty_buffer = new blobs (cache Blob 2) tree []

abbrev pub medium : Rollup
medium = record { cfg = record { enabled = true }; current_level = level_medium }
