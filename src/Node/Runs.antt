-- ===== src/Node/Runs.antt =====
-- The runs of a node of cmd/server/main.go.
use otel_tail_sampler.Base.{◌≡◌, ℕ, suc, Bool, some, List, [], ◌∷◌}
use otel_tail_sampler.Base.Int.{ℤ}
use otel_tail_sampler.Pdata.{Pcommon, Float64}
use otel_tail_sampler.Signals.{Signal}
use otel_tail_sampler.Config.{Config}
use otel_tail_sampler.Codecs.{Codecs}
use otel_tail_sampler.Gossip.Manager.{GossipCodec}
use otel_tail_sampler.Wal.{WalStore}
use otel_tail_sampler.Buffer.Libraries.{Cache, BTree}
use otel_tail_sampler.Buffer.State
use otel_tail_sampler.Buffer.State.{Buffer}
use otel_tail_sampler.Buffer.Store.{store}
use otel_tail_sampler.Buffer.Coherence.Steps.{IsFresh}
use otel_tail_sampler.Node

module _ {P : Pcommon} {F : Float64} (c : Codecs P F) (G : GossipCodec F) (W : WalStore c.Bytes)
    {C : Cache c.Bytes} {T : BTree} where
  -- The identifier that is drawn for a request is in no key yet.
  abbrev pub IsFreshFor : Node.Node c G W C T → Node.Event P G → Type 0
  IsFreshFor n (Node.received ch request) = IsFresh c n.clock ch.uuid n.processor.buffer
  IsFreshFor n e = Unit

module _ {P : Pcommon} {F : Float64} (c : Codecs P F) {C : Cache c.Bytes} {T : BTree} where
  -- So are those that are drawn while the log is replayed.
  abbrev pub AreFresh : (ℕ → ℤ × Node.Choices P) → ℕ → Buffer c C T → List (Signal P F) → Type 0
  AreFresh env i b [] = Unit
  AreFresh env i b (sig ∷ sigs) =
      IsFresh c (env i).0 (env i).1.uuid b
      × ((b' : Buffer c C T) (ok : Bool)
          → store c (env i).0 (env i).1.by_trace (env i).1.by_log (env i).1.uuid b sig
            ≡ some (b', ok)
          → AreFresh env (suc i) b' sigs)

module _ {P : Pcommon} {F : Float64} (c : Codecs P F) (G : GossipCodec F) (W : WalStore c.Bytes)
    (C : Cache c.Bytes) (T : BTree) (cfg : Config) where
  -- A node that was started on any log and any new cache, after any events.
  pub data IsRunning : Node.Node c G W C T → Type 0 where
    started :
        (env : ℕ → ℤ × Node.Choices P) (now : ℤ) (s : W.State) (cache : C.State)
        {n : Node.Node c G W C T}
        → AreFresh c env 0 (State.new c C T cache) (Node.replayed c W s)
        → Node.start c G W C T cfg env now s cache ≡ some n
        → IsRunning n
    stepped :
        {n n' : Node.Node c G W C T} (e : Node.Event P G)
        → IsRunning n
        → IsFreshFor c G W n e
        → Node.step c G W cfg n e ≡ some n'
        → IsRunning n'
