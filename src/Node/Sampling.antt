-- ===== src/Node/Sampling.antt =====
-- From a batch of spans to the exported trace: Consume of cmd/server/main.go, the broadcast of
-- internal/gossip/gossip.go and decisionLoop of internal/processor/processor.go, on the node that
-- decides and on a peer that hears of the decision.
pub mod Cluster
use mathlib.Core.Option.{some-injective}
use mathlib.Core.Path.{subst}
use otel_tail_sampler.Base.{
  ◌≡◌, refl, sym, ap, ◌∙◌, ◌≢◌, ◌⊎◌, ℕ, ◌==◌, Bool, true, false, Option, none, some, List, [], ◌∷◌,
  ◌++◌, length, inl, inr, All, Bool-cases, Option-cases,
}
use otel_tail_sampler.Base.Int.{ℤ}
use otel_tail_sampler.Base.Text.{eqb, eqb_iff, eqb_refl}
use otel_tail_sampler.Hex.{encode_to_string, decode_string}
use otel_tail_sampler.Hex.RoundTrip.{
  IsByte, decode_string-encode_to_string, encode_to_string-injective,
}
use otel_tail_sampler.Pdata.{Pcommon, Float64, Span, Traces}
use otel_tail_sampler.Config.{Config, DecisionConfig}
use otel_tail_sampler.Codecs.{Codecs, IsFaithful}
use otel_tail_sampler.Gossip.{SamplingDecision}
use otel_tail_sampler.Gossip.Manager
use otel_tail_sampler.Gossip.Manager.{GossipCodec}
use otel_tail_sampler.Decision.{is_empty_id, evaluate_trace}
use otel_tail_sampler.Decision.Policies.{spans, scope_spans}
use otel_tail_sampler.Decision.EventWindow.{
  first_id, first_id_iff, trigger_decision_window, trigger_decision_iff,
}
use otel_tail_sampler.Decision.Outcome.{evaluate_trace_iff}
use otel_tail_sampler.Wal
use otel_tail_sampler.Wal.{WalStore}
use otel_tail_sampler.Buffer.Libraries.{Cache, IsCache, BTree, IsBTree}
use otel_tail_sampler.Buffer.State.{Buffer}
use otel_tail_sampler.Signals.{Signal, TraceSignal}
use otel_tail_sampler.Node.Recovery.{spans_found-get_trace}
use otel_tail_sampler.Buffer.Split.{no_id}
use otel_tail_sampler.Buffer.Split.Parts.{with_id}
use otel_tail_sampler.Buffer.Coherence.{IsCoherent}
use otel_tail_sampler.Buffer.Query.{
  Found, absent, invalid, found, get_trace, get_metrics_in_range, get_logs_in_range, remove_trace,
}
use otel_tail_sampler.Buffer.Libraries.Room.{HasRoom}
use otel_tail_sampler.Buffer.Spans.Adding.{Adds}
use otel_tail_sampler.Buffer.Spans.Stores.{IsRange}
use otel_tail_sampler.Buffer.Spans.Signals.{added_by, needs, store-Adds}
use otel_tail_sampler.Receiver
use otel_tail_sampler.Server
use otel_tail_sampler.Server.{consume}
use otel_tail_sampler.Node.Log.{signal_of}
use otel_tail_sampler.Buffer.Spans.{IsTotal, AllReadable, spans_found, spans_at}
use otel_tail_sampler.Processor
use otel_tail_sampler.Processor.Exports.{
  metric_exports, log_exports, window_start, window_end, without_metrics, process_decision-exports,
}
use otel_tail_sampler.Node

module _ {P : Pcommon} where
  pub spans-add_processing_label :
      (t : Traces P) → spans P (Processor.add_processing_label t) ≡ spans P t
  unfolding Processor.add_processing_label spans
  spans-add_processing_label [] = refl
  spans-add_processing_label (r ∷ t) =
      ap (λ l. scope_spans P r.scopes ++ l) (spans-add_processing_label t)

Found-cases : {A : Type 0} (o : Found A) → (o ≡ absent) ⊎ (o ≡ invalid) ⊎ ((a : A) × (o ≡ found a))
Found-cases absent = inl refl
Found-cases invalid = inr (inl refl)
Found-cases (found a) = inr (inr (a, refl))

module _ {P : Pcommon} {F : Float64} (c : Codecs P F) {C : Cache c.Bytes} {T : BTree} where
  -- Spans of a trace in the cache are a trace that GetTrace finds.
  found-get_trace :
      (b : Buffer c C T) (tid : List ℕ) (s : Span P) (rest : List (Span P))
      → AllReadable c C b.cache
      → spans_at c C b.cache tid ≡ s ∷ rest
      → (t : TraceSignal P) × (get_trace c b tid ≡ found t)
        × (spans P t.traces ≡ spans_at c C b.cache tid)
  found-get_trace b tid s rest readable has =
      let same = spans_found-get_trace c b tid readable in
      elim (Found-cases (get_trace c b tid)) [
        | inl e ↦ cc (has, ap spans_found (sym e) ∙ same)
        | inr (inl e) ↦ cc (has, ap spans_found (sym e) ∙ same)
        | inr (inr (t, e)) ↦ (t, e, ap spans_found (sym e) ∙ same)
      ]

module _ {P : Pcommon} {F : Float64} (c : Codecs P F) (G : GossipCodec F) (W : WalStore c.Bytes)
    {C : Cache c.Bytes} (K : IsCache C) {T : BTree} (L : IsBTree T) (cfg : Config) where
  -- After the next round of decisionLoop the trace with these spans is exported, and is no longer in
  -- the buffer.
  pub record Exports (n : Node.Node c G W C T) (tid : List ℕ) (found_spans : List (Span P))
      : Type 0 where
    pub after : Node.Node c G W C T
    pub traces : Traces P
    pub others : List (Processor.Export P F)
    pub round : Node.step c G W cfg n Node.decision_ready ≡ some after
    pub exports :
        after.processor.exported ≡ n.processor.exported ++ Processor.export_trace traces ∷ others
    pub all_spans : spans P traces ≡ found_spans
    pub removed : get_trace c after.processor.buffer tid ≡ absent

  pub decision_round-Exports :
      (n : Node.Node c G W C T) (d : SamplingDecision) (waiting : List SamplingDecision)
      (tid : List ℕ) (s : Span P) (rest : List (Span P))
      → n.gossip.decision_chan ≡ d ∷ waiting
      → d.trace_id ≡ encode_to_string tid
      → All IsByte tid
      → length tid ≡ 16
      → IsCoherent c L n.processor.buffer
      → AllReadable c C n.processor.buffer.cache
      → spans_at c C n.processor.buffer.cache tid ≡ s ∷ rest
      → Exports n tid (spans_at c C n.processor.buffer.cache tid)
  unfolding Node.step Node.decision_round
  decision_round-Exports n d waiting tid s rest heads names bytes long coherent readable has =
      let (t, is_found, same) = found-get_trace c n.processor.buffer tid s rest readable has in
      let (p, done, exported, gone, no_logs) =
        process_decision-exports c K L n.clock n.processor d tid t
          (ap decode_string names ∙ decode_string-encode_to_string tid bytes)
          (ap (λ k. k == 16) long) is_found coherent in
      record {
        after = record n { processor = p; gossip = record n.gossip { decision_chan = waiting } };
        traces = Processor.add_processing_label t.traces;
        others =
            metric_exports (
              get_metrics_in_range c (remove_trace c n.clock n.processor.buffer tid)
                (window_start d) (window_end d))
            ++ log_exports (
                get_logs_in_range c (without_metrics c K L n.clock n.processor d tid t)
                  (window_start d) (window_end d));
        round = rw (heads, Node.decision_round, done) refl;
        exports = exported;
        all_spans = spans-add_processing_label t.traces ∙ same;
        removed = gone;
      }

module _ {P : Pcommon} {F : Float64} (c : Codecs P F) (H : IsFaithful c) (A : IsTotal c)
    (G : GossipCodec F) (W : WalStore c.Bytes) {C : Cache c.Bytes} (K : IsCache C) (R : HasRoom C)
    {T : BTree} (cfg : Config) where
  pub receive-decides :
      (n n1 : Node.Node c G W C T) (ch : Node.Choices P) (t : Traces P) (d : SamplingDecision)
      (bytes : G.Bytes)
      → Node.receive c G W cfg n ch (Node.traces_request t) ≡ some (n1, true)
      → evaluate_trace P cfg.decision n.clock t ≡ some d
      → G.marshal (Manager.decision_message G d) ≡ some bytes
      → IsRange ch.by_trace
      → R.room n.processor.buffer.cache
          (needs ch.by_trace ch.by_log (signal_of {F = F} n.clock (Node.traces_request t)) 0)
      → AllReadable c C n.processor.buffer.cache
      → (n1.gossip.broadcasts ≡ n.gossip.broadcasts ++ bytes ∷ [])
        × (n1.gossip.decision_chan ≡ Manager.offer n.gossip.decision_chan d)
        × Adds c R n.processor.buffer.cache n1.processor.buffer.cache 0
            (added_by (signal_of {F = F} n.clock (Node.traces_request t)))
  unfolding Node.receive Receiver.export_traces consume Server.decide Manager.broadcast_decision
  receive-decides n n1 ch t d bytes accepted decides encodes range room readable =
      let sig = signal_of {F = F} n.clock (Node.traces_request t) in
      let (b', done, adds) =
        store-Adds c H A K R n.clock ch.by_trace ch.by_log ch.uuid range n.processor.buffer 0 sig
          room readable in
      elim (Option-cases (Wal.write c W n.wal sig)) [
        | inl fails ↦
            let e = some-injective _ _ (rw (fails, Node.receive, consume) at accepted) in cc
        | inr (wal', writes) ↦
            let e = some-injective _ _ (
              rw
                (
                  writes, Node.receive, consume, done, Server.decide, decides, Server.told,
                  Manager.broadcast_decision, encodes,
                )
                at accepted) in
            let same : Node.with_server c G W n (record {
              wal = wal';
              buffer = b';
              gossip = record n.gossip {
                broadcasts = n.gossip.broadcasts ++ bytes ∷ [];
                decision_chan = Manager.offer n.gossip.decision_chan d;
              };
            })
                ≡ n1 =
              ap (λ x. x.0) e in
            (
              ap (λ (x : Node.Node c G W C T). x.gossip.broadcasts) (sym same),
              ap (λ (x : Node.Node c G W C T). x.gossip.decision_chan) (sym same),
              subst
                  (λ (x : Node.Node c G W C T).
                    Adds c R n.processor.buffer.cache x.processor.buffer.cache 0 (added_by sig))
                  same adds,
            )
      ]
