-- ===== src/Tests/Recoveries.antt =====
-- The theorems on the replay at the start, at a log with one batch of spans.
use otel_tail_sampler.Base.{
  ◌≡◌, refl, sym, ap, ◌∙◌, ℕ, false, none, some, List, [], ◌∷◌, ◌++◌, inl, inr, Bool-cases, arith,
}
use otel_tail_sampler.Base.Int.{pos, ◌+ℤ◌, wrap64}
use otel_tail_sampler.Base.Text.{eqb, eqb_iff}
use otel_tail_sampler.Hex.{encode_to_string}
use otel_tail_sampler.Pdata.{Traces, Logs, Span}
use otel_tail_sampler.Pdata.Simple.{simple, tenths}
use otel_tail_sampler.Config.{Config, default_config}
use otel_tail_sampler.Codecs.{trace_record}
use otel_tail_sampler.Codecs.Blobs.{Blob, blobs, blobs-IsFaithful}
use otel_tail_sampler.Gossip.Manager.Plain.{plain}
use otel_tail_sampler.GoMap.{GoMap, lookup, insert}
use otel_tail_sampler.Wal
use otel_tail_sampler.Wal.Memory.{filled, Segment, memory, memory-IsLawful}
use otel_tail_sampler.Decision.Policies.{spans}
use otel_tail_sampler.Decision
use otel_tail_sampler.Buffer.Libraries.Lists.{cache, tree, cache-IsCache}
use otel_tail_sampler.Buffer.Libraries.Room.{cache-HasRoom, room-cache}
use otel_tail_sampler.Buffer.Split.{no_id, split_traces, append_to}
use otel_tail_sampler.Buffer.Split.Parts.{with_id}
use otel_tail_sampler.Buffer.Query.{get_trace}
use otel_tail_sampler.Buffer.State
use otel_tail_sampler.Buffer.Store
use otel_tail_sampler.Buffer.Spans.{IsTotal, spans_found}
use otel_tail_sampler.Buffer.Spans.Stores.{values_of, IsRange}
use otel_tail_sampler.Node
use otel_tail_sampler.Node.Durability.{same, stepped, Later}
use otel_tail_sampler.Node.Recovery.{spans_of, get_trace-start, get_trace-restart}
use otel_tail_sampler.Tests.Fixtures
use otel_tail_sampler.Tests.Nodes

pub blobs-IsTotal : IsTotal blobs
blobs-IsTotal = record {
  traces = total_traces;
  metrics = λ m. (Blob.metrics m, refl);
  logs = total_logs;
}
  where
    total_traces : (t : Traces simple) → (b : Blob) × (blobs.marshal_traces t ≡ some b)
    total_traces [] = (Blob.nothing, refl)
    total_traces (r ∷ t) = (Blob.traces (r ∷ t), refl)

    total_logs : (l : Logs simple) → (b : Blob) × (blobs.marshal_logs l ≡ some b)
    total_logs [] = (Blob.nothing, refl)
    total_logs (r ∷ l) = (Blob.logs (r ∷ l), refl)

values_of-missing : {V : Type 0} (m : GoMap V) (k : List ℕ) → lookup k m ≡ none → values_of k m ≡ []
unfolding lookup
values_of-missing [] k h = refl
values_of-missing ((j, v) ∷ m) k h = elim (Bool-cases (eqb j k)) [
  | inl same' ↦ let e = rw same' at h in cc
  | inr other ↦ rw other (values_of-missing m k (rw other at h))
]

pub in_order-IsRange : {V : Type 0} → IsRange {V = V} (λ m. m)
unfolding lookup
in_order-IsRange [] k distinct = refl
in_order-IsRange ((j, v) ∷ m) k (new, distinct) = elim (Bool-cases (eqb j k)) [
  | inl same' ↦ rw same' (
      ap (λ l. v ∷ l)
        (values_of-missing m k (ap (λ i. lookup i m) (sym ((eqb_iff j k).0 same')) ∙ new)))
  | inr other ↦ rw other (in_order-IsRange m k distinct)
]

abbrev pub quiet : Config
quiet = record default_config { decision = record { policies = [] } }

abbrev pub request : Node.Request simple tenths
request = Node.traces_request Fixtures.spans

abbrev pub logged : Segment Blob
logged = filled 0 (Blob.record_of trace_record (Blob.traces Fixtures.spans) Fixtures.now) []

abbrev pub accepted : Nodes.OneNode
accepted = record Nodes.idle {
  wal = logged;
  processor = record Nodes.idle.processor {
    buffer = record Fixtures.empty_buffer {
      cache =
          (
            encode_to_string Fixtures.tid,
            Blob.stored Fixtures.now (Blob.traces Fixtures.spans) Blob.nothing,
          )
          ∷ [];
    };
  };
}

abbrev waiting : Nodes.OneNode
waiting = record accepted { clock = pos 400000000000 }

get_trace-start_example :
    (n : Nodes.OneNode) × (Node.start blobs
        (plain tenths)
        (memory Blob)
        (cache Blob 2)
        tree
        quiet
        Nodes.env
        Fixtures.now
        logged
        []
      ≡ some n)
    × ((tid : List ℕ)
        → no_id tid ≡ false
        → spans_found (get_trace blobs n.processor.buffer tid)
          ≡ spans_of tid (Node.replayed blobs (memory Blob) logged))
unfolding Wal.replay split_traces append_to insert lookup
get_trace-start_example =
    get_trace-start blobs blobs-IsFaithful blobs-IsTotal (plain tenths) (memory Blob)
      (cache-IsCache Blob 2) (cache-HasRoom Blob 2) tree quiet Nodes.env Fixtures.now logged []
      (λ i. in_order-IsRange) (λ k. refl) (room-cache Blob 2 [] _ (omega arith))

later : Later blobs (plain tenths) (memory Blob) quiet accepted waiting
unfolding Node.step
later = stepped (Node.waited (pos 400000000000)) same (omega arith) refl

get_trace-restart_example :
    (n3 : Nodes.OneNode) × (before after : List (Span simple)) × (Node.start blobs
        (plain tenths)
        (memory Blob)
        (cache Blob 2)
        tree
        quiet
        Nodes.env
        (pos 400000000000)
        logged
        []
      ≡ some n3)
    × (spans_found (get_trace blobs n3.processor.buffer Fixtures.tid)
        ≡ before ++ (with_id Fixtures.tid (spans simple Fixtures.spans) ++ after))
unfolding Node.receive Wal.write Wal.received Store.store State.new lookup encode_to_string ◌+ℤ◌
    Decision.evaluate_trace append_to insert wrap64 Wal.replay
get_trace-restart_example =
    get_trace-restart blobs blobs-IsFaithful blobs-IsTotal (plain tenths) (memory Blob)
      (cache-IsCache Blob 2) (cache-HasRoom Blob 2) tree quiet (memory-IsLawful Blob) Nodes.idle
      accepted waiting Nodes.choices Fixtures.spans refl later (omega arith) Nodes.env
      (pos 400000000000) [] (λ i. in_order-IsRange) (λ k. refl)
      (room-cache Blob 2 [] _ (omega arith)) Fixtures.tid refl
