-- ===== src/Node/BufferUse.antt =====
-- A node of cmd/server/main.go reaches its buffer through the buffer's methods only.
use mathlib.Core.Path.{subst}
use mathlib.Core.Option.{some-injective}
use otel_tail_sampler.Base.{
  ◌≡◌, refl, sym, ap, ℕ, suc, Bool, true, false, some, List, [], ◌∷◌, inl, inr, Bool-cases,
  Option-cases,
}
use otel_tail_sampler.Base.Int.{ℤ}
use otel_tail_sampler.Base.Text.{GoString, codes, eqb}
use otel_tail_sampler.Pdata.{Pcommon, Float64, Traces, Logs}
use otel_tail_sampler.Signals.{Signal, trace, metric, log}
use otel_tail_sampler.Config.{Config}
use otel_tail_sampler.Codecs.{Codecs}
use otel_tail_sampler.Gossip.{TriggerEvent}
use otel_tail_sampler.Gossip.Manager.{GossipCodec}
use otel_tail_sampler.Wal
use otel_tail_sampler.Wal.{WalStore}
use otel_tail_sampler.Buffer.Libraries.{Cache, IsCache, BTree, IsBTree}
use otel_tail_sampler.Buffer.Coherence.{IsCoherent}
use otel_tail_sampler.Buffer.State
use otel_tail_sampler.Buffer.State.{Buffer}
use otel_tail_sampler.Buffer.Store.{RangeOrder, store}
use otel_tail_sampler.Buffer.Coherence.Steps.{IsFresh}
use otel_tail_sampler.Buffer.Coherence.Runs.{
  stored, cleaned, taken, Steps, here, then_step, Steps-Steps, IsReachable, at_start,
  Steps-IsReachable, IsReachable-IsCoherent,
}
use otel_tail_sampler.Processor
use otel_tail_sampler.Processor.Decisions.{List-cases}
use otel_tail_sampler.Processor.Steps.{process_decision-BufferSteps, perform_rollup-BufferSteps}
use otel_tail_sampler.Receiver
use otel_tail_sampler.Server.{Server, consume}
use otel_tail_sampler.Node
use otel_tail_sampler.Node.Runs.{IsFreshFor, AreFresh, IsRunning, started, stepped}

module _ {P : Pcommon} {F : Float64} (c : Codecs P F) {C : Cache c.Bytes} {T : BTree} where
  Steps-store_all :
      (env : ℕ → ℤ × Node.Choices P) (i : ℕ) (b b' : Buffer c C T) (sigs : List (Signal P F))
      → AreFresh c env i b sigs
      → Node.store_all c env i b sigs ≡ some b'
      → Steps c C T b b'
  unfolding Node.store_all
  Steps-store_all env i b b' [] fresh h = subst (Steps c C T b) (some-injective _ _ h) here
  Steps-store_all env i b b' (sig ∷ sigs) (fresh, later) h =
      let now = (env i).0 in
      let ch = (env i).1 in
      elim (Option-cases (store c now ch.by_trace ch.by_log ch.uuid b sig)) [
        | inl panics ↦ let e' = rw (panics, Node.store_all) at h in cc
        | inr ((b1, ok), done) ↦
            Steps-Steps c
              (then_step here (stored now ch.by_trace ch.by_log ch.uuid b b1 ok sig fresh done))
              (Steps-store_all env (suc i) b1 b' sigs (later b1 ok done)
                (rw (done, Node.store_all) at h))
      ]

  buffer-handle_evicted_signal :
      (p : Processor.Processor c C T) (sig : Signal P F)
      → (Processor.handle_evicted_signal c p sig).buffer ≡ p.buffer
  unfolding Processor.handle_evicted_signal
  buffer-handle_evicted_signal p (trace s) = refl
  buffer-handle_evicted_signal p (metric s) = refl
  buffer-handle_evicted_signal p (log s) = refl

  buffer-process_trigger :
      (p : Processor.Processor c C T) (t : TriggerEvent F)
      → (Processor.process_trigger c p t).buffer ≡ p.buffer
  unfolding Processor.process_trigger
  buffer-process_trigger p t = elim (Bool-cases (eqb t.name (codes "high_load"))) [
    | inl e ↦ elim (Bool-cases (F.less t.threshold t.value)) [
      | inl high ↦ rw (e, Processor.process_trigger, high) refl
      | inr low ↦ rw (e, Processor.process_trigger, low) refl
    ]
    | inr e ↦ rw (e, Processor.process_trigger) refl
  ]

module _ {P : Pcommon} {F : Float64} (c : Codecs P F) (G : GossipCodec F) (W : WalStore c.Bytes)
    {C : Cache c.Bytes} {T : BTree} (cfg : Config) where
  Steps-consume :
      (now : ℤ) (by_trace : RangeOrder (Traces P)) (by_log : RangeOrder (Logs P)) (uuid : GoString)
      → (s s' : Server c G W C T) (ok : Bool) (sig : Signal P F) → IsFresh c now uuid s.buffer
      → consume c G W cfg.decision now by_trace by_log uuid s sig ≡ some (s', ok)
      → Steps c C T s.buffer s'.buffer
  unfolding consume
  Steps-consume now by_trace by_log uuid s s' ok sig fresh h =
      elim (Option-cases (Wal.write c W s.wal sig)) [
        | inl e ↦
            subst (Steps c C T s.buffer)
              (ap (λ t. t.0.buffer) (some-injective _ _ (rw (e, consume) at h))) here
        | inr (wal', e) ↦ elim (Option-cases (store c now by_trace by_log uuid s.buffer sig)) [
          | inl panics ↦ let e' = rw (e, consume, panics) at h in cc
          | inr ((b, true), done) ↦
              subst (Steps c C T s.buffer)
                (ap (λ t. t.0.buffer) (some-injective _ _ (rw (e, consume, done) at h)))
                (then_step here (stored now by_trace by_log uuid s.buffer b true sig fresh done))
          | inr ((b, false), done) ↦
              subst (Steps c C T s.buffer)
                (ap (λ t. t.0.buffer) (some-injective _ _ (rw (e, consume, done) at h)))
                (then_step here (stored now by_trace by_log uuid s.buffer b false sig fresh done))
        ]
      ]

  Steps-serve :
      (now : ℤ) (ch : Node.Choices P) (s s' : Server c G W C T) (ok : Bool)
      (request : Node.Request P F)
      → IsFresh c now ch.uuid s.buffer
      → Node.serve c G W cfg now ch s request ≡ some (s', ok)
      → Steps c C T s.buffer s'.buffer
  unfolding Receiver.export_traces Receiver.export_metrics Receiver.export_logs
  Steps-serve now ch s s' ok (Node.traces_request t) fresh h =
      Steps-consume now ch.by_trace ch.by_log ch.uuid s s' ok _ fresh h
  Steps-serve now ch s s' ok (Node.metrics_request m) fresh h =
      Steps-consume now ch.by_trace ch.by_log ch.uuid s s' ok _ fresh h
  Steps-serve now ch s s' ok (Node.logs_request l) fresh h =
      Steps-consume now ch.by_trace ch.by_log ch.uuid s s' ok _ fresh h

  -- From the buffer of one node to that of another.
  abbrev NodeSteps : Node.Node c G W C T → Node.Node c G W C T → Type 0
  NodeSteps n n' = Steps c C T n.processor.buffer n'.processor.buffer

  receive-NodeSteps :
      (n n' : Node.Node c G W C T) (ok : Bool) (ch : Node.Choices P) (request : Node.Request P F)
      → IsFresh c n.clock ch.uuid n.processor.buffer
      → Node.receive c G W cfg n ch request ≡ some (n', ok)
      → NodeSteps n n'
  unfolding Node.receive
  receive-NodeSteps n n' ok ch request fresh h =
      elim (Option-cases (Node.serve c G W cfg n.clock ch (Node.server_of c G W n) request)) [
        | inl e ↦ let e' = rw (e, Node.receive) at h in cc
        | inr ((s, ok'), e) ↦
            subst (NodeSteps n) (ap (λ t. t.0) (some-injective _ _ (rw (e, Node.receive) at h)))
              (Steps-serve n.clock ch (Node.server_of c G W n) s ok' request fresh e)
      ]

  decision_round-NodeSteps :
      (n n' : Node.Node c G W C T) → Node.decision_round c G W n ≡ some n' → NodeSteps n n'
  unfolding Node.decision_round
  decision_round-NodeSteps n n' h = elim (List-cases n.gossip.decision_chan) [
    | inl e ↦ subst (NodeSteps n) (some-injective _ _ (rw (e, Node.decision_round) at h)) here
    | inr (d, rest, e) ↦ elim (Option-cases (Processor.process_decision c n.clock n.processor d)) [
      | inl panics ↦ let e' = rw (e, Node.decision_round, panics) at h in cc
      | inr (p, done) ↦
          subst (NodeSteps n) (some-injective _ _ (rw (e, Node.decision_round, done) at h))
            (process_decision-BufferSteps c n.clock n.processor p d done)
    ]
  ]

  rollup_round-NodeSteps :
      (n n' : Node.Node c G W C T) → Node.rollup_round c G W n ≡ some n' → NodeSteps n n'
  unfolding Node.rollup_round
  rollup_round-NodeSteps n n' h =
      elim (Option-cases (Processor.perform_rollup c n.clock n.processor)) [
        | inl panics ↦ let e' = rw (panics, Node.rollup_round) at h in cc
        | inr (p, done) ↦
            subst (NodeSteps n) (some-injective _ _ (rw (done, Node.rollup_round) at h))
              (perform_rollup-BufferSteps c n.clock n.processor p done)
      ]

  trigger_round-NodeSteps : (n : Node.Node c G W C T) → NodeSteps n (Node.trigger_round c G W n)
  unfolding Node.trigger_round
  trigger_round-NodeSteps n = elim (List-cases n.gossip.trigger_chan) [
    | inl e ↦ rw (e, Node.trigger_round) here
    | inr (t, rest, e) ↦ rw (e, Node.trigger_round, buffer-process_trigger c n.processor t) here
  ]

  eviction_round-NodeSteps : (n : Node.Node c G W C T) → NodeSteps n (Node.eviction_round c G W n)
  unfolding Node.eviction_round
  eviction_round-NodeSteps n = elim (List-cases n.processor.buffer.evicted_chan) [
    | inl e ↦ simp (e, Node.eviction_round) here
    | inr (sig, rest, e) ↦
        let b : Buffer c C T = record n.processor.buffer { evicted_chan = rest } in
        let p : Processor.Processor c C T = record n.processor { buffer = b } in
        simp (e, Node.eviction_round)
          (subst (Steps c C T n.processor.buffer) (sym (buffer-handle_evicted_signal c p sig))
            (then_step here (taken n.processor.buffer sig rest e)))
  ]

  pub step-NodeSteps :
      (n n' : Node.Node c G W C T) (e : Node.Event P G)
      → IsFreshFor c G W n e
      → Node.step c G W cfg n e ≡ some n'
      → NodeSteps n n'
  unfolding Node.step Node.load_round Node.truncation_round
  step-NodeSteps n n' (Node.received ch request) fresh h =
      elim (Option-cases (Node.receive c G W cfg n ch request)) [
        | inl e ↦ let e' = rw (e, Node.step) at h in cc
        | inr ((n1, ok), e) ↦
            subst (NodeSteps n) (some-injective _ _ (rw (e, Node.step) at h))
              (receive-NodeSteps n n1 ok ch request fresh e)
      ]
  step-NodeSteps n n' (Node.heard bytes) fresh h = subst (NodeSteps n) (some-injective _ _ h) here
  step-NodeSteps n n' Node.decision_ready fresh h = decision_round-NodeSteps n n' h
  step-NodeSteps n n' Node.trigger_ready fresh h =
      subst (NodeSteps n) (some-injective _ _ h) (trigger_round-NodeSteps n)
  step-NodeSteps n n' Node.eviction_ready fresh h =
      subst (NodeSteps n) (some-injective _ _ h) (eviction_round-NodeSteps n)
  step-NodeSteps n n' Node.rollup_tick fresh h = rollup_round-NodeSteps n n' h
  step-NodeSteps n n' Node.load_tick fresh h = subst (NodeSteps n) (some-injective _ _ h) here
  step-NodeSteps n n' Node.truncation_tick fresh h = subst (NodeSteps n) (some-injective _ _ h) here
  step-NodeSteps n n' Node.cleaning_tick fresh h =
      subst (NodeSteps n) (some-injective _ _ h)
        (then_step here (cleaned n.clock n.processor.buffer))
  step-NodeSteps n n' (Node.waited t) fresh h = subst (NodeSteps n) (some-injective _ _ h) here

  -- The buffer of a running node is one that the buffer's own methods reach from New.
  pub IsRunning-IsReachable :
      (n : Node.Node c G W C T) → IsRunning c G W C T cfg n → IsReachable c C T n.processor.buffer
  unfolding Node.start Processor.new
  IsRunning-IsReachable n (started env now s cache fresh h) =
      let b0 = State.new c C T cache in
      elim (Option-cases (Node.store_all c env 0 b0 (Node.replayed c W s))) [
        | inl panics ↦ let e' = rw (panics, Node.start) at h in cc
        | inr (b, done) ↦
            subst (λ (m : Node.Node c G W C T). IsReachable c C T m.processor.buffer)
              (some-injective _ _ (rw (done, Node.start) at h))
              (Steps-IsReachable c (at_start cache)
                (Steps-store_all c env 0 b0 b (Node.replayed c W s) fresh done))
      ]
  IsRunning-IsReachable n' (stepped {n = n} e before fresh h) =
      Steps-IsReachable c (IsRunning-IsReachable n before) (step-NodeSteps n n' e fresh h)

  pub IsRunning-IsCoherent :
      (K : IsCache C) (L : IsBTree T) (n : Node.Node c G W C T)
      → IsRunning c G W C T cfg n
      → IsCoherent c L n.processor.buffer
  IsRunning-IsCoherent K L n running =
      IsReachable-IsCoherent c K L n.processor.buffer (IsRunning-IsReachable n running)
