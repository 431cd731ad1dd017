-- ===== src/Node/Load.antt =====
-- The load monitor of cmd/server/main.go, its triggers on their way through the channel of
-- internal/gossip/gossip.go, and the level that triggerLoop of internal/processor/processor.go sets.
pub mod Unchanged
pub mod Alone
use otel_tail_sampler.Base.{
  ◌≡◌, ℕ, ◌<◌, Bool, true, false, some, length, if◌then◌else◌, List, [], ◌∷◌, ◌++◌,
}
use otel_tail_sampler.Base.Int.{ℤ}
use otel_tail_sampler.Base.Text.{codes}
use otel_tail_sampler.Pdata.{Pcommon, Float64}
use otel_tail_sampler.Config.{Config}
use otel_tail_sampler.Codecs.{Codecs}
use otel_tail_sampler.Gossip.{TriggerEvent}
use otel_tail_sampler.Gossip.Manager
use otel_tail_sampler.Gossip.Manager.{GossipCodec, chan_capacity}
use otel_tail_sampler.Wal.{WalStore}
use otel_tail_sampler.Buffer.Libraries.{Cache, BTree}
use otel_tail_sampler.Buffer.Query.{get_trace_count}
use otel_tail_sampler.Server.{load_threshold}
use otel_tail_sampler.Node

module _ {P : Pcommon} {F : Float64} (G : GossipCodec F) where
  -- All events but a message of another node and a tick of the load monitor.
  abbrev pub IsOther : Node.Event P G → Type 0
  IsOther (Node.heard bytes) = ⊥
  IsOther Node.load_tick = ⊥
  IsOther e = Unit

module _ {F : Float64} (G : GossipCodec F) where
  -- The triggers of the load monitor have an encoding.
  abbrev pub Encodes : Type 0
  Encodes =
      (t : TriggerEvent F)
      → t.name ≡ codes "high_load"
      → (bytes : G.Bytes) × (G.marshal (Manager.trigger_message G t) ≡ some bytes)

module _ {P : Pcommon} {F : Float64} (c : Codecs P F) (G : GossipCodec F) (W : WalStore c.Bytes)
    {C : Cache c.Bytes} {T : BTree} (cfg : Config) where
  -- Whether the buffer has more entries, which GetTraceCount counts, than the threshold of the load
  -- monitor.
  abbrev pub is_loaded : Node.Node c G W C T → Bool
  is_loaded n =
      F.less (load_threshold F cfg.buffer.max_traces)
        (F.of_int (get_trace_count c n.processor.buffer))

module _ {P : Pcommon} {F : Float64} (c : Codecs P F) (G : GossipCodec F) (W : WalStore c.Bytes)
    (C : Cache c.Bytes) (T : BTree) (cfg : Config) where
  -- The runs of a node that hears no trigger of another node and whose load monitor never finds the
  -- channel of triggers full, with what the monitor saw at its last tick: false before the first.
  pub data IsAlone : Node.Node c G W C T → Bool → Type 0 where
    started :
        (env : ℕ → ℤ × Node.Choices P) (now : ℤ) (s : W.State) (cache : C.State)
        {n : Node.Node c G W C T}
        → Node.start c G W C T cfg env now s cache ≡ some n
        → IsAlone n false
    ticked :
        {n n' : Node.Node c G W C T} {last : Bool}
        → IsAlone n last
        → length n.gossip.trigger_chan < chan_capacity
        → Node.step c G W cfg n Node.load_tick ≡ some n'
        → IsAlone n' (is_loaded c G W cfg n)
    heard_no_trigger :
        {n n' : Node.Node c G W C T} {last : Bool} (bytes : G.Bytes)
        → IsAlone n last
        → (Manager.notify_msg G n.gossip bytes).trigger_chan ≡ n.gossip.trigger_chan
        → Node.step c G W cfg n (Node.heard bytes) ≡ some n'
        → IsAlone n' last
    handled :
        {n n' : Node.Node c G W C T} {last : Bool} (e : Node.Event P G)
        → IsAlone n last
        → IsOther G e
        → Node.step c G W cfg n e ≡ some n'
        → IsAlone n' last
