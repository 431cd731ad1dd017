-- ===== src/Receiver.antt =====
-- internal/receiver/receiver.go: the three Export handlers, and Start over what net.Listen gives. The
-- consumer is a parameter: its state after a signal, and whether it returned no error; the response
-- itself is always empty.
use otel_tail_sampler.Base.{Bool, Option, [], ◌∷◌, ◌++◌}
use otel_tail_sampler.Base.Int.{ℤ}
use otel_tail_sampler.Base.Text.{GoString, format_int}
use otel_tail_sampler.Config.{ReceiverConfig}
use otel_tail_sampler.Pdata.{Pcommon, Float64, Traces, Metrics, Logs}
use otel_tail_sampler.Signals.{Context, Signal, trace, metric, log}

abbrev pub received_now : ℤ → Context
received_now now = record { received_at = now; source_addr = [] }

module _ {P : Pcommon} {F : Float64} {S : Type 0} (consume : S → Signal P F → Option (S × Bool))
    (now : ℤ) where
  unfoldable pub export_traces : S → Traces P → Option (S × Bool)
  export_traces s traces = consume s (trace (record { traces = traces; ctx = received_now now }))

  unfoldable pub export_metrics : S → Metrics P F → Option (S × Bool)
  export_metrics s metrics =
      consume s (metric (record { metrics = metrics; ctx = received_now now }))

  unfoldable pub export_logs : S → Logs P → Option (S × Bool)
  export_logs s logs = consume s (log (record { logs = logs; ctx = received_now now }))

-- "%s:%d" of the host and the port.
unfoldable pub listen_address : ReceiverConfig → GoString
unfolding format_int
listen_address cfg = cfg.host ++ (b':' ∷ format_int cfg.grpc_port)

module _ {L : Type 0} (listen : GoString → Option L) where
  -- Start: the listener that is served, or an error.
  unfoldable pub start : ReceiverConfig → Option L
  unfolding listen_address
  start cfg = listen (listen_address cfg)
