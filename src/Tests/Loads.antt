-- ===== src/Tests/Loads.antt =====
-- The theorem on the load at a node with a threshold below one entry, which accepts a batch of spans.
use otel_tail_sampler.Base.{◌≡◌, refl, true, [], arith, if◌then◌else◌}
use otel_tail_sampler.Base.Int.{pos, wrap64, ◌*ℤ◌}
use otel_tail_sampler.Pdata.Simple.{tenths}
use otel_tail_sampler.Config.{Config, default_config}
use otel_tail_sampler.Codecs.Blobs.{Blob, blobs}
use otel_tail_sampler.Gossip.Manager
use otel_tail_sampler.Gossip.Manager.Plain.{plain}
use otel_tail_sampler.Rollup.{level_coarse, level_fine}
use otel_tail_sampler.GoMap.{lookup, insert}
use otel_tail_sampler.Wal
use otel_tail_sampler.Wal.Memory.{empty, memory}
use otel_tail_sampler.Decision
use otel_tail_sampler.Buffer.Libraries.Lists.{cache, tree}
use otel_tail_sampler.Buffer.Split.{append_to}
use otel_tail_sampler.Buffer.State
use otel_tail_sampler.Buffer.Store
use otel_tail_sampler.Node
use otel_tail_sampler.Node.Load
use otel_tail_sampler.Node.Load.{IsAlone}
use otel_tail_sampler.Node.Load.Alone.{IsAlone-current_level}
use otel_tail_sampler.Tests.Nodes
use otel_tail_sampler.Tests.Recoveries

abbrev small : Config
small = record default_config {
  decision = record { policies = [] };
  buffer = record default_config.buffer { max_traces = pos 1 };
}

abbrev announced : Nodes.OneNode
announced = Node.load_round blobs (plain tenths) (memory Blob) small Recoveries.accepted

abbrev taken : Nodes.OneNode
taken = Node.trigger_round blobs (plain tenths) (memory Blob) announced

taken-IsAlone : IsAlone blobs (plain tenths) (memory Blob) (cache Blob 2) tree small taken true
unfolding Node.step Node.receive Wal.write Wal.received Store.store lookup State.new Node.start
    Wal.replay append_to insert Decision.evaluate_trace wrap64 Node.load_round ◌*ℤ◌
taken-IsAlone =
    Load.handled Node.trigger_ready
      (Load.ticked
        (Load.handled (Node.received Nodes.choices Recoveries.request)
          (Load.started Nodes.env (Recoveries.accepted.clock) empty [] refl) tt refl)
        (omega arith) refl)
      tt refl

IsAlone-current_level_example :
    taken.processor.rollup.current_level ≡ (if true then level_coarse else level_fine)
unfolding Node.load_round Node.trigger_round Manager.broadcast_trigger ◌*ℤ◌
IsAlone-current_level_example =
    IsAlone-current_level blobs (plain tenths) (memory Blob) small taken true
      (λ t name. (Manager.trigger_message (plain tenths) t, refl)) taken-IsAlone refl
