-- ===== src/Node/Sampling/Cluster.antt =====
-- The node of cmd/server/main.go that decides on a batch of spans, and a peer that hears of the decision
-- by the message of internal/gossip/gossip.go.
use mathlib.Core.Path.{subst}
use otel_tail_sampler.Base.{
  ◌≡◌, ◌>>=◌, refl, ap, ◌∙◌, ℕ, true, some, List, [], ◌∷◌, ◌++◌, length, All,
}
use otel_tail_sampler.Hex.{encode_to_string}
use otel_tail_sampler.Hex.RoundTrip.{IsByte}
use otel_tail_sampler.Pdata.{Pcommon, Float64, Span, Traces}
use otel_tail_sampler.Config.{Config}
use otel_tail_sampler.Codecs.{Codecs, IsFaithful}
use otel_tail_sampler.Gossip.{SamplingDecision}
use otel_tail_sampler.Gossip.Wire.{decision_to_pb, decision_from_pb}
use otel_tail_sampler.Gossip.Manager
use otel_tail_sampler.Gossip.Manager.{GossipCodec}
use otel_tail_sampler.Decision.{evaluate_trace}
use otel_tail_sampler.Decision.Policies.{spans}
use otel_tail_sampler.GoMap.{lookup}
use otel_tail_sampler.Wal.{WalStore}
use otel_tail_sampler.Buffer.Libraries.{Cache, IsCache, BTree, IsBTree}
use otel_tail_sampler.Buffer.Split.Parts.{with_id}
use otel_tail_sampler.Buffer.Libraries.Room.{HasRoom}
use otel_tail_sampler.Buffer.Spans.Stores.{IsRange}
use otel_tail_sampler.Buffer.Spans.Signals.{needs}
use otel_tail_sampler.Node.Log.{signal_of}
use otel_tail_sampler.Buffer.Spans.{IsTotal, spans_at}
use otel_tail_sampler.Node
use otel_tail_sampler.Decision.Named.{evaluate_trace-with_id}
use otel_tail_sampler.Buffer.Split.Parts.{spans_under-split_traces}
use otel_tail_sampler.Node.BufferUse.{IsRunning-IsCoherent}
use otel_tail_sampler.Node.Runs.{IsFreshFor}
use otel_tail_sampler.Buffer.Libraries.Failures.{IsAtomic}
use otel_tail_sampler.Node.Returns.{IsLive, handled, IsLive-IsRunning, IsLive-AllReadable}
use otel_tail_sampler.Node.Sampling.{Exports, decision_round-Exports, receive-decides}

append-filled :
    {A : Type 0} (xs : List A) (a : A) (rest : List A)
    → (b : A) × (more_of : List A) × (xs ++ a ∷ rest ≡ b ∷ more_of)
append-filled [] a rest = (a, rest, refl)
append-filled (x ∷ xs) a rest = (x, xs ++ a ∷ rest, refl)

module _ {P : Pcommon} {F : Float64} (c : Codecs P F) (H : IsFaithful c) (A : IsTotal c)
    (G : GossipCodec F) (W : WalStore c.Bytes) {C : Cache c.Bytes} (K : IsCache C) (Q : IsAtomic C)
    (R : HasRoom C) {T : BTree} (L : IsBTree T) (cfg : Config) where
  -- A batch that the policies decide on is sampled with all that the buffer had of its trace: when a
  -- node with no decision waiting, which was started with an empty cache and has room for the batch
  -- now, accepts it, then the message of the decision is broadcast, and the next round of the decision
  -- loop exports the trace whose spans are those that were buffered, followed by those of the batch,
  -- and removes it.
  pub receive-Exports :
      (n n1 : Node.Node c G W C T) (ch : Node.Choices P) (t : Traces P) (d : SamplingDecision)
      (bytes : G.Bytes) (tid : List ℕ)
      → IsLive c G W C T cfg n
      → IsFreshFor c G W n (Node.received ch (Node.traces_request t))
      → n.gossip.decision_chan ≡ []
      → Node.receive c G W cfg n ch (Node.traces_request t) ≡ some (n1, true)
      → evaluate_trace P cfg.decision n.clock t ≡ some d
      → G.marshal (Manager.decision_message G d) ≡ some bytes
      → d.trace_id ≡ encode_to_string tid
      → All IsByte tid
      → length tid ≡ 16
      → IsRange ch.by_trace
      → R.room n.processor.buffer.cache
          (needs ch.by_trace ch.by_log (signal_of {F = F} n.clock (Node.traces_request t)) 0)
      → (n1.gossip.broadcasts ≡ n.gossip.broadcasts ++ bytes ∷ [])
        × Exports c G W K L cfg n1 tid
            (spans_at c C n.processor.buffer.cache tid ++ with_id tid (spans P t))
  unfolding Node.step Manager.offer spans lookup
  receive-Exports n n1 ch t d bytes tid live fresh idle accepted decides encodes names are_bytes
        long range room =
      let readable = IsLive-AllReadable c H A G W K Q cfg n live in
      let running = IsLive-IsRunning c G W C T cfg n1 (
        handled (Node.received ch (Node.traces_request t)) live fresh
          (ap (λ o. o >>= (λ r. some r.0)) accepted)) in
      let (sent, queued, adds) =
        receive-decides c H A G W K R cfg n n1 ch t d bytes accepted decides encodes range room
          readable in
      let (named, s, rest, has) =
        evaluate_trace-with_id cfg.decision n.clock t d tid decides names in
      let before = spans_at c C n.processor.buffer.cache tid in
      let total : spans_at c C n1.processor.buffer.cache tid ≡ before ++ with_id tid (spans P t) =
        adds.spans tid ∙ ap (λ x. before ++ x) (spans_under-split_traces tid t [] named) in
      let (s', rest', filled) = append-filled before s rest in
      (
        sent,
        subst (Exports c G W K L cfg n1 tid) total (
            decision_round-Exports c G W K L cfg n1 d [] tid s' rest' (queued ∙ rw idle refl) names
              are_bytes long (IsRunning-IsCoherent c G W cfg K L n1 running) adds.readable
              (total ∙ ap (λ x. before ++ x) has ∙ filled)),
      )

module _ {P : Pcommon} {F : Float64} (c : Codecs P F) (H : IsFaithful c) (A : IsTotal c)
    (G : GossipCodec F) (W : WalStore c.Bytes) {C : Cache c.Bytes} (K : IsCache C) (Q : IsAtomic C)
    {T : BTree} (L : IsBTree T) (cfg : Config) where
  -- A peer samples its own part of a trace that another node decided on: when a peer with no decision
  -- waiting, which was started with an empty cache, hears the message of a decision and has spans of
  -- the trace, then the next round of its decision loop exports the trace with exactly those spans and
  -- removes it.
  pub heard-Exports :
      Manager.IsFaithful G
      → (peer : Node.Node c G W C T) (d : SamplingDecision) (bytes : G.Bytes) (tid : List ℕ)
        (s : Span P) (rest : List (Span P))
      → IsLive c G W C T cfg peer
      → peer.gossip.decision_chan ≡ []
      → G.marshal (Manager.decision_message G d) ≡ some bytes
      → d.trace_id ≡ encode_to_string tid
      → All IsByte tid
      → length tid ≡ 16
      → spans_at c C peer.processor.buffer.cache tid ≡ s ∷ rest
      → (peer1 : Node.Node c G W C T) × (Node.step c G W cfg peer (Node.heard bytes) ≡ some peer1)
        × Exports c G W K L cfg peer1 tid (spans_at c C peer.processor.buffer.cache tid)
  unfolding Node.step Manager.notify_msg Manager.deliver Manager.offer decision_to_pb
      decision_from_pb
  heard-Exports GH peer d bytes tid s rest live idle encodes names are_bytes long has =
      let readable = IsLive-AllReadable c H A G W K Q cfg peer live in
      let running = IsLive-IsRunning c G W C T cfg peer live in
      let heard : SamplingDecision = decision_from_pb G.stamps (decision_to_pb G.stamps d) in
      let peer1 : Node.Node c G W C T = record peer {
        gossip = record peer.gossip { decision_chan = heard ∷ [] };
      } in
      (
        peer1,
        rw
            (
              GH.decision-is_empty (decision_to_pb G.stamps d) bytes encodes,
              Manager.notify_msg,
              GH.back (Manager.decision_message G d) bytes encodes,
              Manager.deliver,
              idle,
            )
            refl,
        decision_round-Exports c G W K L cfg peer1 heard [] tid s rest refl names are_bytes long
            (IsRunning-IsCoherent c G W cfg K L peer running) readable has,
      )
