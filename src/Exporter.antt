-- ===== src/Exporter.antt =====
-- internal/exporter/exporter.go: the exporter to which the processor's exports go. The gRPC connection
-- and the three OTLP clients on it are parameters; an error is its text.
use otel_tail_sampler.Base.{Option, none, some, ◌++◌}
use otel_tail_sampler.Base.Text.{GoString, codes}
use otel_tail_sampler.Pdata.{Pcommon, Float64, Traces, Metrics, Logs}
use otel_tail_sampler.Config.{ExporterConfig}
use otel_tail_sampler.Processor.{Export, export_trace, export_metrics, export_logs}

-- The package functions. The three clients are made from one connection and hold nothing else: Export of
-- each takes the state of the connection, and leaves it as the next call finds it, whichever client makes
-- it, with an error if there is one.
pub record Grpc (P : Pcommon) (F : Float64) : Type 1 where
  pub Conn : Type 0
  pub new_client : GoString → Option Conn
  pub close : Conn → Conn
  pub trace_client : Conn → Traces P → Conn × Option GoString
  pub metric_client : Conn → Metrics P F → Conn × Option GoString
  pub log_client : Conn → Logs P → Conn × Option GoString

module _ {P : Pcommon} {F : Float64} (g : Grpc P F) where
  -- The clients share the connection, so that its state is that of all three.
  pub record OtlpExporter : Type 0 where
    pub cfg : ExporterConfig
    pub conn : g.Conn

  unfoldable pub new : ExporterConfig → Option OtlpExporter
  new cfg = elim (g.new_client cfg.endpoint) [
    | none ↦ none
    | some conn ↦ some (record { cfg = cfg; conn = conn })
  ]

  unfoldable pub stop : OtlpExporter → OtlpExporter
  stop e = record e { conn = g.close e.conn }

  -- fmt.Errorf with %w at the end.
  abbrev pub wrapped : GoString → Option GoString → Option GoString
  wrapped what none = none
  wrapped what (some err) = some (what ++ err)

  unfoldable pub send_trace : OtlpExporter → Traces P → OtlpExporter × Option GoString
  send_trace e t =
      let (conn, err) = g.trace_client e.conn t in
      (record e { conn = conn }, wrapped (codes "failed to export traces: ") err)

  unfoldable pub send_metrics : OtlpExporter → Metrics P F → OtlpExporter × Option GoString
  send_metrics e m =
      let (conn, err) = g.metric_client e.conn m in
      (record e { conn = conn }, wrapped (codes "failed to export metrics: ") err)

  unfoldable pub send_logs : OtlpExporter → Logs P → OtlpExporter × Option GoString
  send_logs e l =
      let (conn, err) = g.log_client e.conn l in
      (record e { conn = conn }, wrapped (codes "failed to export logs: ") err)

  -- A call that the processor makes.
  unfoldable pub send : OtlpExporter → Export P F → OtlpExporter × Option GoString
  unfolding send_trace send_metrics send_logs
  send e (export_trace t) = send_trace e t
  send e (export_metrics m) = send_metrics e m
  send e (export_logs l) = send_logs e l
