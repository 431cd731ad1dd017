-- ===== src/Tests/Clusters.antt =====
-- The theorems on the way from a batch to the exported trace, at a node that decides on a batch with one
-- span, and at a peer that has a span of the trace.
use otel_tail_sampler.Base.{
  ◌≡◌, refl, ℕ, any, not, ltb, ltb→lt, true, false, some, List, [], ◌∷◌, ◌++◌, inl, inr, Bool-cases,
  All, arith,
}
use otel_tail_sampler.Base.Int.{pos, wrap64, saturate64, ◌*ℤ◌, ◌-ℤ◌}
use otel_tail_sampler.Base.Text.{codes, eqb}
use otel_tail_sampler.Hex.{encode_to_string}
use otel_tail_sampler.Hex.RoundTrip.{IsByte}
use otel_tail_sampler.Pdata.Simple.{simple, tenths}
use otel_tail_sampler.Config.{default_config}
use otel_tail_sampler.Codecs.Blobs.{Blob, blobs, blobs-IsFaithful}
use otel_tail_sampler.Gossip.{SamplingDecision}
use otel_tail_sampler.Gossip.Wire.{GossipMessage}
use otel_tail_sampler.Gossip.Manager
use otel_tail_sampler.Gossip.Manager.Plain.{stamps, plain, plain-IsFaithful}
use otel_tail_sampler.GoMap.{lookup, insert}
use otel_tail_sampler.Wal
use otel_tail_sampler.Wal.Memory.{empty, memory}
use otel_tail_sampler.Decision
use otel_tail_sampler.Decision.Policies.{spans}
use otel_tail_sampler.Buffer.Libraries.Lists.{cache, tree, cache-IsCache, tree-IsBTree}
use otel_tail_sampler.Buffer.Libraries.Room.{cache-HasRoom, room-cache}
use otel_tail_sampler.Buffer.Split.{split_traces, append_to}
use otel_tail_sampler.Buffer.Split.Parts.{with_id}
use otel_tail_sampler.Buffer.State
use otel_tail_sampler.Buffer.Store
use otel_tail_sampler.Buffer.Spans.{spans_at}
use otel_tail_sampler.Node
use otel_tail_sampler.Buffer.Libraries.Failures.{cache-IsAtomic}
use otel_tail_sampler.Node.Returns
use otel_tail_sampler.Node.Returns.{IsLive, step_returns}
use otel_tail_sampler.Node.Sampling.{Exports}
use otel_tail_sampler.Node.Sampling.Cluster.{receive-Exports, heard-Exports}
use otel_tail_sampler.Tests.Fixtures
use otel_tail_sampler.Tests.Nodes
use otel_tail_sampler.Tests.Recoveries
use otel_tail_sampler.Tests.Recoveries.{blobs-IsTotal, in_order-IsRange, quiet}

abbrev decision : SamplingDecision
decision = record {
  trace_id = encode_to_string Fixtures.tid;
  reason = codes "sample-all";
  decided_at = Fixtures.now;
  decided_by = codes "local";
  event_start = pos 1000000000;
  event_end = pos 3000000000;
}

abbrev message : GossipMessage stamps tenths
message = Manager.decision_message (plain tenths) decision

-- The node that accepted the batch and decided on it.
abbrev decided : Nodes.OneNode
decided = record Recoveries.accepted {
  gossip = record { broadcasts = message ∷ []; decision_chan = decision ∷ []; trigger_chan = [] };
}

bytes-IsByte : (bs : List ℕ) → any (λ b. not (ltb b 256)) bs ≡ false → All IsByte bs
bytes-IsByte [] h = tt
bytes-IsByte (b ∷ bs) h = elim (Bool-cases (ltb b 256)) [
  | inl e ↦ (ltb→lt b 256 e, bytes-IsByte bs (rw e at h))
  | inr e ↦ cc (rw e at h)
]

tid-bytes : All IsByte Fixtures.tid
tid-bytes = bytes-IsByte Fixtures.tid refl

decides :
    Decision.evaluate_trace simple default_config.decision Fixtures.now Fixtures.spans
    ≡ some decision
unfolding Decision.evaluate_trace default_config Decision.matches eqb Decision.check_latency wrap64
    ◌*ℤ◌ Decision.duration saturate64 ◌-ℤ◌ Decision.as_time Decision.trigger_decision
    Decision.scan_resources Decision.scan_scopes Decision.scan_spans Decision.widen encode_to_string
decides = refl

accepts :
    Node.receive blobs
      (plain tenths)
      (memory Blob)
      default_config
      Nodes.idle
      Nodes.choices
      Recoveries.request
    ≡ some (decided, true)
unfolding Node.receive Wal.write Wal.received Store.store lookup State.new append_to insert
    Manager.broadcast_decision Decision.evaluate_trace default_config Decision.matches eqb
    Decision.check_latency wrap64 ◌*ℤ◌ Decision.duration saturate64 ◌-ℤ◌ Decision.as_time
    Decision.trigger_decision Decision.scan_resources Decision.scan_scopes Decision.scan_spans
    Decision.widen encode_to_string
accepts = refl

idle-IsLive :
    IsLive blobs (plain tenths) (memory Blob) (cache Blob 2) tree default_config Nodes.idle
unfolding Node.start default_config Wal.replay lookup State.new
idle-IsLive = Returns.opened Nodes.env Fixtures.now empty [] (λ k. refl) tt refl

step_returns_example :
    (n' : Nodes.OneNode) × (Node.step blobs
        (plain tenths)
        (memory Blob)
        default_config
        Nodes.idle
        (Node.received Nodes.choices Recoveries.request)
      ≡ some n')
step_returns_example =
    step_returns blobs blobs-IsFaithful blobs-IsTotal (plain tenths) (memory Blob)
      (cache-IsCache Blob 2) (cache-IsAtomic Blob 2) default_config Nodes.idle idle-IsLive
      (Node.received Nodes.choices Recoveries.request) (λ e. cc)

receive-Exports_example :
    (decided.gossip.broadcasts ≡ message ∷ [])
    × Exports blobs
        (plain tenths)
        (memory Blob)
        (cache-IsCache Blob 2)
        tree-IsBTree
        default_config
        decided
        Fixtures.tid
        (spans_at blobs (cache Blob 2) [] Fixtures.tid
          ++ with_id Fixtures.tid (spans simple Fixtures.spans))
unfolding State.new split_traces append_to insert lookup
receive-Exports_example =
    receive-Exports blobs blobs-IsFaithful blobs-IsTotal (plain tenths) (memory Blob)
      (cache-IsCache Blob 2) (cache-IsAtomic Blob 2) (cache-HasRoom Blob 2) tree-IsBTree
      default_config Nodes.idle decided Nodes.choices Fixtures.spans decision message Fixtures.tid
      idle-IsLive (refl, refl) refl accepts decides refl refl tid-bytes refl in_order-IsRange
      (room-cache Blob 2 [] _ (omega arith))

accepted-IsLive :
    IsLive blobs (plain tenths) (memory Blob) (cache Blob 2) tree quiet Recoveries.accepted
unfolding Node.step Node.receive Wal.write Wal.received Store.store lookup State.new Node.start
    Wal.replay append_to insert Decision.evaluate_trace wrap64
accepted-IsLive =
    Returns.handled (Node.received Nodes.choices Recoveries.request)
      (Returns.opened Nodes.env Fixtures.now empty [] (λ k. refl) tt refl) (refl, refl) refl

heard-Exports_example :
    (peer1 : Nodes.OneNode) × (Node.step blobs
        (plain tenths)
        (memory Blob)
        quiet
        Recoveries.accepted
        (Node.heard message)
      ≡ some peer1)
    × Exports blobs
        (plain tenths)
        (memory Blob)
        (cache-IsCache Blob 2)
        tree-IsBTree
        quiet
        peer1
        Fixtures.tid
        (Fixtures.span ∷ [])
unfolding lookup eqb encode_to_string Store.current_traces spans
heard-Exports_example =
    heard-Exports blobs blobs-IsFaithful blobs-IsTotal (plain tenths) (memory Blob)
      (cache-IsCache Blob 2) (cache-IsAtomic Blob 2) tree-IsBTree quiet (plain-IsFaithful tenths)
      Recoveries.accepted decision message Fixtures.tid Fixtures.span [] accepted-IsLive refl refl
      refl tid-bytes refl refl
