-- ===== src/Node/Load/Unchanged.antt =====
-- The events of a node of cmd/server/main.go that leave the level of the rollup, the waiting triggers
-- and highLoadActive as they are.
use mathlib.Core.Path.{subst}
use mathlib.Core.Option.{some-injective}
use otel_tail_sampler.Base.{
  ◌≡◌, refl, ap, Bool, true, false, Option, none, some, inl, inr, Option-cases,
}
use otel_tail_sampler.Base.Int.{ℤ}
use otel_tail_sampler.Base.Text.{GoString}
use otel_tail_sampler.Pdata.{Pcommon, Float64, Traces, Logs}
use otel_tail_sampler.Signals.{Signal, trace, metric, log}
use otel_tail_sampler.Config.{Config, DecisionConfig}
use otel_tail_sampler.Codecs.{Codecs}
use otel_tail_sampler.Gossip.{SamplingDecision}
use otel_tail_sampler.Gossip.Manager
use otel_tail_sampler.Gossip.Manager.{GossipCodec, broadcast_decision}
use otel_tail_sampler.Decision.{evaluate_trace}
use otel_tail_sampler.Wal
use otel_tail_sampler.Wal.{WalStore}
use otel_tail_sampler.Buffer.Libraries.{Cache, BTree}
use otel_tail_sampler.Buffer.Store.{RangeOrder, store}
use otel_tail_sampler.Processor
use otel_tail_sampler.Processor.Decisions.{List-cases}
use otel_tail_sampler.Processor.Levels.{
  process_decision-rollup, perform_rollup-rollup, handle_evicted_signal-rollup,
}
use otel_tail_sampler.Receiver
use otel_tail_sampler.Server.{Server, consume, decide, told}
use otel_tail_sampler.Node

module _ {F : Float64} (G : GossipCodec F) where
  told-trigger_chan :
      (g : Manager.Manager G) (d : Option SamplingDecision)
      → (told G g d).trigger_chan ≡ g.trigger_chan
  unfolding broadcast_decision
  told-trigger_chan g none = refl
  told-trigger_chan g (some d) = elim (Option-cases (G.marshal (Manager.decision_message G d))) [
    | inl fails ↦ rw (fails, told, broadcast_decision) refl
    | inr (bytes, done) ↦ rw (done, told, broadcast_decision) refl
  ]

module _ {P : Pcommon} {F : Float64} (G : GossipCodec F) (cfg : DecisionConfig) (now : ℤ) where
  decide-trigger_chan :
      (g : Manager.Manager G) (sig : Signal P F)
      → (decide G cfg now g sig).trigger_chan ≡ g.trigger_chan
  unfolding decide
  decide-trigger_chan g (trace s) = told-trigger_chan G g (evaluate_trace P cfg now s.traces)
  decide-trigger_chan g (metric s) = refl
  decide-trigger_chan g (log s) = refl

module _ {P : Pcommon} {F : Float64} (c : Codecs P F) (G : GossipCodec F) (W : WalStore c.Bytes)
    {C : Cache c.Bytes} {T : BTree} (cfg : Config) where
  -- The triggers that wait are the same.
  abbrev KeepsTriggers : Server c G W C T → Server c G W C T → Type 0
  KeepsTriggers s s' = s'.gossip.trigger_chan ≡ s.gossip.trigger_chan

  consume-KeepsTriggers :
      (now : ℤ) (by_trace : RangeOrder (Traces P)) (by_log : RangeOrder (Logs P)) (uuid : GoString)
      → (s s' : Server c G W C T) (ok : Bool) (sig : Signal P F)
      → consume c G W cfg.decision now by_trace by_log uuid s sig ≡ some (s', ok)
      → KeepsTriggers s s'
  unfolding consume
  consume-KeepsTriggers now by_trace by_log uuid s s' ok sig h =
      elim (Option-cases (Wal.write c W s.wal sig)) [
        | inl e ↦
            subst (KeepsTriggers s) (ap (λ t. t.0) (some-injective _ _ (rw (e, consume) at h))) refl
        | inr (wal', e) ↦ elim (Option-cases (store c now by_trace by_log uuid s.buffer sig)) [
          | inl panics ↦ let e' = rw (e, consume, panics) at h in cc
          | inr ((b, true), done) ↦
              subst (KeepsTriggers s)
                (ap (λ t. t.0) (some-injective _ _ (rw (e, consume, done) at h)))
                (decide-trigger_chan G cfg.decision now s.gossip sig)
          | inr ((b, false), done) ↦
              subst (KeepsTriggers s)
                (ap (λ t. t.0) (some-injective _ _ (rw (e, consume, done) at h))) refl
        ]
      ]

  serve-KeepsTriggers :
      (now : ℤ) (ch : Node.Choices P) (s s' : Server c G W C T) (ok : Bool)
      (request : Node.Request P F)
      → Node.serve c G W cfg now ch s request ≡ some (s', ok)
      → KeepsTriggers s s'
  unfolding Receiver.export_traces Receiver.export_metrics Receiver.export_logs
  serve-KeepsTriggers now ch s s' ok (Node.traces_request t) h =
      consume-KeepsTriggers now ch.by_trace ch.by_log ch.uuid s s' ok _ h
  serve-KeepsTriggers now ch s s' ok (Node.metrics_request m) h =
      consume-KeepsTriggers now ch.by_trace ch.by_log ch.uuid s s' ok _ h
  serve-KeepsTriggers now ch s s' ok (Node.logs_request l) h =
      consume-KeepsTriggers now ch.by_trace ch.by_log ch.uuid s s' ok _ h

  -- What the load monitor and the triggers work on is the same.
  abbrev pub KeepsLoad : Node.Node c G W C T → Node.Node c G W C T → Type 0
  KeepsLoad n n' =
      (n'.high_load_active ≡ n.high_load_active)
      × (n'.gossip.trigger_chan ≡ n.gossip.trigger_chan)
      × (n'.processor.rollup ≡ n.processor.rollup)

  pub receive-KeepsLoad :
      (n n' : Node.Node c G W C T) (ok : Bool) (ch : Node.Choices P) (request : Node.Request P F)
      → Node.receive c G W cfg n ch request ≡ some (n', ok)
      → KeepsLoad n n'
  unfolding Node.receive
  receive-KeepsLoad n n' ok ch request h =
      elim (Option-cases (Node.serve c G W cfg n.clock ch (Node.server_of c G W n) request)) [
        | inl e ↦ let e' = rw (e, Node.receive) at h in cc
        | inr ((s, ok'), e) ↦
            subst (KeepsLoad n) (ap (λ t. t.0) (some-injective _ _ (rw (e, Node.receive) at h)))
              (refl, serve-KeepsTriggers n.clock ch (Node.server_of c G W n) s ok' request e, refl)
      ]

  pub decision_round-KeepsLoad :
      (n n' : Node.Node c G W C T) → Node.decision_round c G W n ≡ some n' → KeepsLoad n n'
  unfolding Node.decision_round
  decision_round-KeepsLoad n n' h = elim (List-cases n.gossip.decision_chan) [
    | inl e ↦
        subst (KeepsLoad n) (some-injective _ _ (rw (e, Node.decision_round) at h))
          (refl, refl, refl)
    | inr (d, rest, e) ↦ elim (Option-cases (Processor.process_decision c n.clock n.processor d)) [
      | inl panics ↦ let e' = rw (e, Node.decision_round, panics) at h in cc
      | inr (p, done) ↦
          subst (KeepsLoad n) (some-injective _ _ (rw (e, Node.decision_round, done) at h))
            (refl, refl, process_decision-rollup c n.clock n.processor p d done)
    ]
  ]

  pub rollup_round-KeepsLoad :
      (n n' : Node.Node c G W C T) → Node.rollup_round c G W n ≡ some n' → KeepsLoad n n'
  unfolding Node.rollup_round
  rollup_round-KeepsLoad n n' h =
      elim (Option-cases (Processor.perform_rollup c n.clock n.processor)) [
        | inl panics ↦ let e' = rw (panics, Node.rollup_round) at h in cc
        | inr (p, done) ↦
            subst (KeepsLoad n) (some-injective _ _ (rw (done, Node.rollup_round) at h))
              (refl, refl, perform_rollup-rollup c n.clock n.processor p done)
      ]

  pub eviction_round-KeepsLoad :
      (n : Node.Node c G W C T) → KeepsLoad n (Node.eviction_round c G W n)
  unfolding Node.eviction_round
  eviction_round-KeepsLoad n = elim (List-cases n.processor.buffer.evicted_chan) [
    | inl e ↦ rw (e, Node.eviction_round) (refl, refl, refl)
    | inr (sig, rest, e) ↦
        rw (e, Node.eviction_round) (refl, refl, handle_evicted_signal-rollup c _ sig)
  ]
