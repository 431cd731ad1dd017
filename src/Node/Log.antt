-- ===== src/Node/Log.antt =====
-- A node of cmd/server/main.go and its write-ahead log: the log is a client's log, with a call for each
-- request and each tick of the truncation loop.
use mathlib.Core.Option.{some-injective}
use otel_tail_sampler.Base.{
  ◌≡◌, refl, sym, ap, ◌∙◌, Bool, true, false, some, List, [], ◌∷◌, inl, inr, Option-cases,
}
use otel_tail_sampler.Base.Int.{ℤ, ◌-ℤ◌}
use otel_tail_sampler.Base.Text.{GoString}
use otel_tail_sampler.Pdata.{Pcommon, Float64, Traces, Logs}
use otel_tail_sampler.Signals.{Signal, trace, metric, log}
use otel_tail_sampler.Config.{Config}
use otel_tail_sampler.Codecs.{Codecs}
use otel_tail_sampler.Gossip.Manager.{GossipCodec}
use otel_tail_sampler.Wal
use otel_tail_sampler.Wal.{WalStore, received}
use otel_tail_sampler.Wal.Contract
use otel_tail_sampler.Wal.Contract.{Call, Spares, Holds, run_call, run_calls, contents}
use otel_tail_sampler.Buffer.Libraries.{Cache, BTree}
use otel_tail_sampler.Buffer.Store.{RangeOrder, store}
use otel_tail_sampler.Processor
use otel_tail_sampler.Processor.Decisions.{List-cases}
use otel_tail_sampler.Receiver
use otel_tail_sampler.Receiver.{received_now}
use otel_tail_sampler.Server
use otel_tail_sampler.Server.{Server, consume}
use otel_tail_sampler.Node

module _ {P : Pcommon} {F : Float64} where
  -- The signal that a request at a time of the clock becomes.
  abbrev pub signal_of : ℤ → Node.Request P F → Signal P F
  signal_of now (Node.traces_request t) = trace (record { traces = t; ctx = received_now now })
  signal_of now (Node.metrics_request m) = metric (record { metrics = m; ctx = received_now now })
  signal_of now (Node.logs_request l) = log (record { logs = l; ctx = received_now now })

module _ {P : Pcommon} {F : Float64} (c : Codecs P F) (G : GossipCodec F) (W : WalStore c.Bytes)
    {C : Cache c.Bytes} {T : BTree} where
  abbrev pub wal_calls : Node.Node c G W C T → Node.Event P G → List (Call P F)
  wal_calls n (Node.received ch request) = Contract.write (signal_of n.clock request) ∷ []
  wal_calls n Node.truncation_tick = Contract.truncate (n.clock -ℤ Server.wal_retention) ∷ []
  wal_calls n (Node.heard bytes) = []
  wal_calls n Node.decision_ready = []
  wal_calls n Node.trigger_ready = []
  wal_calls n Node.eviction_ready = []
  wal_calls n Node.rollup_tick = []
  wal_calls n Node.load_tick = []
  wal_calls n Node.cleaning_tick = []
  wal_calls n (Node.waited t) = []

  -- The clock after an event.
  abbrev pub clock_after : Node.Node c G W C T → Node.Event P G → ℤ
  clock_after n (Node.waited t) = t
  clock_after n (Node.received ch request) = n.clock
  clock_after n Node.truncation_tick = n.clock
  clock_after n (Node.heard bytes) = n.clock
  clock_after n Node.decision_ready = n.clock
  clock_after n Node.trigger_ready = n.clock
  clock_after n Node.eviction_ready = n.clock
  clock_after n Node.rollup_tick = n.clock
  clock_after n Node.load_tick = n.clock
  clock_after n Node.cleaning_tick = n.clock

module _ {P : Pcommon} {F : Float64} (c : Codecs P F) (G : GossipCodec F) (W : WalStore c.Bytes)
    {C : Cache c.Bytes} {T : BTree} (cfg : Config) where
  wal-consume :
      (now : ℤ) (by_trace : RangeOrder (Traces P)) (by_log : RangeOrder (Logs P)) (uuid : GoString)
      → (s s' : Server c G W C T) (ok : Bool) (sig : Signal P F)
      → consume c G W cfg.decision now by_trace by_log uuid s sig ≡ some (s', ok)
      → s'.wal ≡ (run_call c W s.wal (Contract.write sig)).0
  unfolding consume run_call
  wal-consume now by_trace by_log uuid s s' ok sig h =
      elim (Option-cases (Wal.write c W s.wal sig)) [
        | inl e ↦
            rw (e, run_call) (ap (λ t. t.0.wal) (sym (some-injective _ _ (rw (e, consume) at h))))
        | inr (wal', e) ↦ elim (Option-cases (store c now by_trace by_log uuid s.buffer sig)) [
          | inl panics ↦ let e' = rw (e, consume, panics) at h in cc
          | inr ((b, true), done) ↦
              rw (e, run_call)
                (ap (λ t. t.0.wal) (sym (some-injective _ _ (rw (e, consume, done) at h))))
          | inr ((b, false), done) ↦
              rw (e, run_call)
                (ap (λ t. t.0.wal) (sym (some-injective _ _ (rw (e, consume, done) at h))))
        ]
      ]

  pub wal-serve :
      (now : ℤ) (ch : Node.Choices P) (s s' : Server c G W C T) (ok : Bool)
      (request : Node.Request P F)
      → Node.serve c G W cfg now ch s request ≡ some (s', ok)
      → s'.wal ≡ (run_call c W s.wal (Contract.write (signal_of now request))).0
  unfolding Receiver.export_traces Receiver.export_metrics Receiver.export_logs
  wal-serve now ch s s' ok (Node.traces_request t) h =
      wal-consume now ch.by_trace ch.by_log ch.uuid s s' ok _ h
  wal-serve now ch s s' ok (Node.metrics_request m) h =
      wal-consume now ch.by_trace ch.by_log ch.uuid s s' ok _ h
  wal-serve now ch s s' ok (Node.logs_request l) h =
      wal-consume now ch.by_trace ch.by_log ch.uuid s s' ok _ h

  -- The log and the clock of a node.
  abbrev timed_log : Node.Node c G W C T → W.State × ℤ
  timed_log n = (n.wal, n.clock)

  timed_log-receive :
      (n n' : Node.Node c G W C T) (ok : Bool) (ch : Node.Choices P) (request : Node.Request P F)
      → Node.receive c G W cfg n ch request ≡ some (n', ok)
      → timed_log n'
        ≡ ((run_call c W n.wal (Contract.write (signal_of n.clock request))).0, n.clock)
  unfolding Node.receive
  timed_log-receive n n' ok ch request h =
      elim (Option-cases (Node.serve c G W cfg n.clock ch (Node.server_of c G W n) request)) [
        | inl e ↦ let e' = rw (e, Node.receive) at h in cc
        | inr ((s, ok'), e) ↦
            sym (ap (λ t. timed_log t.0) (some-injective _ _ (rw (e, Node.receive) at h)))
            ∙ ap (λ w. (w, n.clock)) (wal-serve n.clock ch (Node.server_of c G W n) s ok' request e)
      ]

  timed_log-decision_round :
      (n n' : Node.Node c G W C T)
      → Node.decision_round c G W n ≡ some n'
      → timed_log n' ≡ timed_log n
  unfolding Node.decision_round
  timed_log-decision_round n n' h = elim (List-cases n.gossip.decision_chan) [
    | inl e ↦ ap timed_log (sym (some-injective _ _ (rw (e, Node.decision_round) at h)))
    | inr (d, rest, e) ↦ elim (Option-cases (Processor.process_decision c n.clock n.processor d)) [
      | inl panics ↦ let e' = rw (e, Node.decision_round, panics) at h in cc
      | inr (p, done) ↦
          ap timed_log (sym (some-injective _ _ (rw (e, Node.decision_round, done) at h)))
    ]
  ]

  timed_log-rollup_round :
      (n n' : Node.Node c G W C T)
      → Node.rollup_round c G W n ≡ some n'
      → timed_log n' ≡ timed_log n
  unfolding Node.rollup_round
  timed_log-rollup_round n n' h =
      elim (Option-cases (Processor.perform_rollup c n.clock n.processor)) [
        | inl panics ↦ let e' = rw (panics, Node.rollup_round) at h in cc
        | inr (p, done) ↦
            ap timed_log (sym (some-injective _ _ (rw (done, Node.rollup_round) at h)))
      ]

  timed_log-trigger_round :
      (n : Node.Node c G W C T) → timed_log (Node.trigger_round c G W n) ≡ timed_log n
  unfolding Node.trigger_round
  timed_log-trigger_round n = elim (List-cases n.gossip.trigger_chan) [
    | inl e ↦ rw (e, Node.trigger_round) refl
    | inr (t, rest, e) ↦ rw (e, Node.trigger_round) refl
  ]

  timed_log-eviction_round :
      (n : Node.Node c G W C T) → timed_log (Node.eviction_round c G W n) ≡ timed_log n
  unfolding Node.eviction_round
  timed_log-eviction_round n = elim (List-cases n.processor.buffer.evicted_chan) [
    | inl e ↦ rw (e, Node.eviction_round) refl
    | inr (sig, rest, e) ↦ rw (e, Node.eviction_round) refl
  ]

  timed_log-truncation_round :
      (n : Node.Node c G W C T)
      → timed_log (Node.truncation_round c G W n)
        ≡ ((run_call c W n.wal (Contract.truncate (n.clock -ℤ Server.wal_retention))).0, n.clock)
  unfolding Node.truncation_round Server.truncate_wal run_call
  timed_log-truncation_round n =
      elim (Option-cases (Wal.truncate_before c W n.wal (n.clock -ℤ Server.wal_retention))) [
        | inl e ↦ rw (e, Server.truncate_wal, run_call) refl
        | inr (s', e) ↦ rw (e, Server.truncate_wal, run_call) refl
      ]

  pub timed_log-step :
      (n n' : Node.Node c G W C T) (e : Node.Event P G)
      → Node.step c G W cfg n e ≡ some n'
      → timed_log n' ≡ ((run_calls c W n.wal (wal_calls c G W n e)).0, clock_after c G W n e)
  unfolding Node.step run_calls Node.load_round
  timed_log-step n n' (Node.received ch request) h =
      elim (Option-cases (Node.receive c G W cfg n ch request)) [
        | inl e ↦ let e' = rw (e, Node.step) at h in cc
        | inr ((n1, ok), e) ↦
            sym (ap timed_log (some-injective _ _ (rw (e, Node.step) at h)))
            ∙ timed_log-receive n n1 ok ch request e
      ]
  timed_log-step n n' (Node.heard bytes) h = ap timed_log (sym (some-injective _ _ h))
  timed_log-step n n' Node.decision_ready h = timed_log-decision_round n n' h
  timed_log-step n n' Node.trigger_ready h =
      ap timed_log (sym (some-injective _ _ h)) ∙ timed_log-trigger_round n
  timed_log-step n n' Node.eviction_ready h =
      ap timed_log (sym (some-injective _ _ h)) ∙ timed_log-eviction_round n
  timed_log-step n n' Node.rollup_tick h = timed_log-rollup_round n n' h
  timed_log-step n n' Node.load_tick h = ap timed_log (sym (some-injective _ _ h))
  timed_log-step n n' Node.truncation_tick h =
      ap timed_log (sym (some-injective _ _ h)) ∙ timed_log-truncation_round n
  timed_log-step n n' Node.cleaning_tick h = ap timed_log (sym (some-injective _ _ h))
  timed_log-step n n' (Node.waited t) h = ap timed_log (sym (some-injective _ _ h))
