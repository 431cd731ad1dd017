-- ===== src/Node/Returns.antt =====
-- The events of a node of cmd/server/main.go are handled without a panic, but for the rollup: the
-- entries of its cache can be decoded, since it wrote them.
use mathlib.Core.Option.{some-injective}
use mathlib.Core.Path.{subst}
use otel_tail_sampler.Base.{
  ◌≡◌, ◌≢◌, refl, ℕ, suc, Bool, false, none, some, List, [], ◌∷◌, inl, inr, Option-cases,
}
use otel_tail_sampler.Base.Int.{ℤ}
use otel_tail_sampler.Base.Text.{GoString}
use otel_tail_sampler.Hex.{encode_to_string}
use otel_tail_sampler.Pdata.{Pcommon, Float64}
use otel_tail_sampler.Signals.{Signal}
use otel_tail_sampler.Config.{Config}
use otel_tail_sampler.Codecs.{Codecs, IsFaithful}
use otel_tail_sampler.Gossip.Manager.{GossipCodec}
use otel_tail_sampler.Wal
use otel_tail_sampler.Wal.{WalStore}
use otel_tail_sampler.Buffer.Libraries.{Cache, IsCache, BTree}
use otel_tail_sampler.Buffer.Libraries.Failures.{IsAtomic}
use otel_tail_sampler.Buffer.State
use otel_tail_sampler.Buffer.State.{Buffer}
use otel_tail_sampler.Buffer.Spans.{IsTotal, AllReadable}
use otel_tail_sampler.Buffer.Readable.Stores.{store_returns}
use otel_tail_sampler.Buffer.Readable.Runs.{Steps-AllReadable}
use otel_tail_sampler.Processor
use otel_tail_sampler.Processor.Decisions.{List-cases}
use otel_tail_sampler.Processor.Returns.{process_decision_returns}
use otel_tail_sampler.Receiver
use otel_tail_sampler.Server
use otel_tail_sampler.Server.{Server, consume}
use otel_tail_sampler.Node
use otel_tail_sampler.Node.Log.{signal_of}
use otel_tail_sampler.Node.Runs
use otel_tail_sampler.Node.Runs.{IsRunning, IsFreshFor, AreFresh}
use otel_tail_sampler.Node.BufferUse.{step-NodeSteps}

module _ {P : Pcommon} {F : Float64} (c : Codecs P F) (G : GossipCodec F) (W : WalStore c.Bytes)
    (C : Cache c.Bytes) (T : BTree) (cfg : Config) where
  -- A node that was started on any log and a cache with nothing in it, after any events.
  pub data IsLive : Node.Node c G W C T → Type 0 where
    opened :
        (env : ℕ → ℤ × Node.Choices P) (now : ℤ) (s : W.State) (cache : C.State)
        {n : Node.Node c G W C T}
        → ((k : GoString) → C.get cache k ≡ none)
        → AreFresh c env 0 (State.new c C T cache) (Node.replayed c W s)
        → Node.start c G W C T cfg env now s cache ≡ some n
        → IsLive n
    handled :
        {n n' : Node.Node c G W C T} (e : Node.Event P G)
        → IsLive n
        → IsFreshFor c G W n e
        → Node.step c G W cfg n e ≡ some n'
        → IsLive n'

  pub IsLive-IsRunning : (n : Node.Node c G W C T) → IsLive n → IsRunning c G W C T cfg n
  IsLive-IsRunning n (opened env now s cache nothing fresh h) = Runs.started env now s cache fresh h
  IsLive-IsRunning n' (handled {n = n} e live fresh h) =
      Runs.stepped e (IsLive-IsRunning n live) fresh h

module _ {P : Pcommon} {F : Float64} (c : Codecs P F) (H : IsFaithful c) (A : IsTotal c)
    (G : GossipCodec F) (W : WalStore c.Bytes) {C : Cache c.Bytes} (K : IsCache C) (Q : IsAtomic C)
    {T : BTree} (cfg : Config) where
  store_all_returns :
      (env : ℕ → ℤ × Node.Choices P) (i : ℕ) (b : Buffer c C T) (sigs : List (Signal P F))
      → AllReadable c C b.cache
      → (b' : Buffer c C T) × (Node.store_all c env i b sigs ≡ some b') × AllReadable c C b'.cache
  unfolding Node.store_all
  store_all_returns env i b [] readable = (b, refl, readable)
  store_all_returns env i b (sig ∷ sigs) readable =
      let (now, ch) = env i in
      let (b1, ok, done, readable1) =
        store_returns c H A K Q now ch.by_trace ch.by_log ch.uuid b sig readable in
      let (b2, rest, readable2) = store_all_returns env (suc i) b1 sigs readable1 in
      (b2, rw (done, Node.store_all) rest, readable2)

  start-AllReadable :
      (env : ℕ → ℤ × Node.Choices P) (now : ℤ) (s : W.State) (cache : C.State)
      (n : Node.Node c G W C T)
      → ((k : GoString) → C.get cache k ≡ none)
      → Node.start c G W C T cfg env now s cache ≡ some n
      → AllReadable c C n.processor.buffer.cache
  unfolding Node.start State.new Processor.new
  start-AllReadable env now s cache n nothing h =
      let b0 = State.new c C T cache in
      let (b, done, readable) =
        store_all_returns env 0 b0 (Node.replayed c W s)
          (λ tid. inl (nothing (encode_to_string tid))) in
      subst (λ (m : Node.Node c G W C T). AllReadable c C m.processor.buffer.cache)
        (some-injective _ _ (rw (done, Node.start) at h)) readable

  pub IsLive-AllReadable :
      (n : Node.Node c G W C T) → IsLive c G W C T cfg n → AllReadable c C n.processor.buffer.cache
  IsLive-AllReadable n (opened env now s cache nothing fresh h) =
      start-AllReadable env now s cache n nothing h
  IsLive-AllReadable n' (handled {n = n} e live fresh h) =
      Steps-AllReadable c H A K Q (step-NodeSteps c G W cfg n n' e fresh h)
        (IsLive-AllReadable n live)

  consume_returns :
      (now : ℤ) (ch : Node.Choices P) (s : Server c G W C T) (sig : Signal P F)
      → AllReadable c C s.buffer.cache
      → (s' : Server c G W C T) × (ok : Bool) × (consume c G W cfg.decision now ch.by_trace
            ch.by_log ch.uuid s sig
          ≡ some (s', ok))
  unfolding consume
  consume_returns now ch s sig readable = elim (Option-cases (Wal.write c W s.wal sig)) [
    | inl fails ↦ (s, false, rw (fails, consume) refl)
    | inr (wal', writes) ↦
        let (b, ok, done, readable') =
          store_returns c H A K Q now ch.by_trace ch.by_log ch.uuid s.buffer sig readable in
        let r = Server.kept c G W cfg.decision now s wal' (b, ok) sig in
        (r.0, r.1, rw (writes, consume, done) refl)
  ]

  serve_returns :
      (now : ℤ) (ch : Node.Choices P) (s : Server c G W C T) (request : Node.Request P F)
      → AllReadable c C s.buffer.cache
      → (s' : Server c G W C T) × (ok : Bool) × (Node.serve c G W cfg now ch s request
          ≡ some (s', ok))
  unfolding Receiver.export_traces Receiver.export_metrics Receiver.export_logs
  serve_returns now ch s (Node.traces_request t) readable =
      consume_returns now ch s (signal_of now (Node.traces_request t)) readable
  serve_returns now ch s (Node.metrics_request m) readable =
      consume_returns now ch s (signal_of now (Node.metrics_request m)) readable
  serve_returns now ch s (Node.logs_request l) readable =
      consume_returns now ch s (signal_of now (Node.logs_request l)) readable

  decision_round_returns :
      (n : Node.Node c G W C T)
      → AllReadable c C n.processor.buffer.cache
      → (n' : Node.Node c G W C T) × (Node.decision_round c G W n ≡ some n')
  unfolding Node.decision_round
  decision_round_returns n readable = elim (List-cases n.gossip.decision_chan) [
    | inl e ↦ (n, simp (e, Node.decision_round) refl)
    | inr (d, rest, e) ↦
        let (p, done) = process_decision_returns c K n.clock n.processor d readable in
        (
          record n { processor = p; gossip = record n.gossip { decision_chan = rest } },
          rw (e, Node.decision_round, done) refl,
        )
  ]

  -- No event but the rollup makes a node panic: in every state that a node reaches after a start on
  -- any log with a cache that holds nothing, every request, message of another node, head of a channel
  -- and tick of the other loops is handled, whatever the cache has evicted or refused.
  pub step_returns :
      (n : Node.Node c G W C T)
      → IsLive c G W C T cfg n
      → (e : Node.Event P G) → e ≢ Node.rollup_tick
      → (n' : Node.Node c G W C T) × (Node.step c G W cfg n e ≡ some n')
  unfolding Node.step Node.receive
  step_returns n live (Node.received ch request) other =
      let s = Node.server_of c G W n in
      let (s', ok, done) = serve_returns n.clock ch s request (IsLive-AllReadable n live) in
      (Node.with_server c G W n s', rw (done, Node.receive, Node.step) refl)
  step_returns n live Node.decision_ready other =
      decision_round_returns n (IsLive-AllReadable n live)
  step_returns n live Node.rollup_tick other = elim (other refl) [ ]
  step_returns n live (Node.heard bytes) other = (_, refl)
  step_returns n live Node.trigger_ready other = (_, refl)
  step_returns n live Node.eviction_ready other = (_, refl)
  step_returns n live Node.load_tick other = (_, refl)
  step_returns n live Node.truncation_tick other = (_, refl)
  step_returns n live Node.cleaning_tick other = (_, refl)
  step_returns n live (Node.waited t) other = (_, refl)
