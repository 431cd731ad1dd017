-- ===== src/Buffer/Spans/Entries.antt =====
-- One entry of a trace of internal/buffer/buffer.go: its spans over a write of spans or of logs.
use otel_tail_sampler.Base.{
  ◌≡◌, refl, ℕ, true, some, List, [], ◌∷◌, inl, inr, Bool-cases, Option-cases,
}
use otel_tail_sampler.Base.Int.{ℤ}
use otel_tail_sampler.Hex.{encode_to_string}
use otel_tail_sampler.Pdata.{Pcommon, Float64, Traces, Logs}
use otel_tail_sampler.Codecs.{Codecs, IsFaithful, StoredTraceData}
use otel_tail_sampler.Decision.Policies.{spans}
use otel_tail_sampler.Buffer.Libraries.{Cache}
use otel_tail_sampler.Buffer.Store.{
  stored_or_new, current_traces, current_logs, with_traces, with_logs,
}
use otel_tail_sampler.Buffer.Spans.{IsTotal, IsReadable, AllReadable, spans_in, spans_at}

module _ {P : Pcommon} {F : Float64} (c : Codecs P F) (H : IsFaithful c) where
  -- What was encoded is read, if it is the last thing that was written.
  current_traces-written :
      (stored : StoredTraceData c.Bytes) (t : Traces P) (bytes : c.Bytes)
      → c.marshal_traces t ≡ some bytes
      → current_traces c (record stored { traces_data = bytes }) ≡ some t
  unfolding current_traces
  current_traces-written stored t bytes h = elim (Bool-cases (c.is_empty bytes)) [
    | inl empty ↦ rw (empty, current_traces) (none_left t h empty)
    | inr full ↦ rw (full, current_traces) (H.traces t bytes h)
  ]
    where
      none_left :
          (u : Traces P)
          → c.marshal_traces u ≡ some bytes
          → c.is_empty bytes ≡ true
          → some [] ≡ some u
      none_left [] e empty = refl
      none_left (r ∷ u) e empty = let full = H.traces-is_empty r u bytes e in cc

  current_logs-written :
      (stored : StoredTraceData c.Bytes) (l : Logs P) (bytes : c.Bytes)
      → c.marshal_logs l ≡ some bytes
      → current_logs c (record stored { logs_data = bytes }) ≡ some l
  unfolding current_logs
  current_logs-written stored l bytes h = elim (Bool-cases (c.is_empty bytes)) [
    | inl empty ↦ rw (empty, current_logs) (none_left l h empty)
    | inr full ↦ rw (full, current_logs) (H.logs l bytes h)
  ]
    where
      none_left :
          (u : Logs P) → c.marshal_logs u ≡ some bytes → c.is_empty bytes ≡ true → some [] ≡ some u
      none_left [] e empty = refl
      none_left (r ∷ u) e empty = let full = H.logs-is_empty r u bytes e in cc

  module _ (A : IsTotal c) where
    pub with_traces-IsReadable :
        (stored : StoredTraceData c.Bytes) (t : Traces P)
        → IsReadable c stored
        → (current_traces c (with_traces c stored t) ≡ some t)
          × IsReadable c (with_traces c stored t)
    unfolding with_traces current_logs
    with_traces-IsReadable stored t r =
        let (bytes, e) = A.traces t in
        let reads = current_traces-written stored t bytes e in
        rw e (
          reads,
          record { traces = t; logs = r.logs; traces_read = reads; logs_read = r.logs_read },
        )

    pub with_logs-IsReadable :
        (stored : StoredTraceData c.Bytes) (l : Logs P)
        → IsReadable c stored
        → (current_traces c (with_logs c stored l) ≡ current_traces c stored)
          × IsReadable c (with_logs c stored l)
    unfolding with_logs current_traces
    with_logs-IsReadable stored l r =
        let (bytes, e) = A.logs l in
        let reads = current_logs-written stored l bytes e in
        rw e (
          refl,
          record { traces = r.traces; logs = l; traces_read = r.traces_read; logs_read = reads },
        )

  module _ (C : Cache c.Bytes) (now : ℤ) where
    -- The record that a handler starts from has the spans of the entry, if there is one.
    pub stored_or_new-IsReadable :
        (s : C.State) (tid : List ℕ)
        → AllReadable c C s
        → IsReadable c (stored_or_new c now (C.get s (encode_to_string tid)))
          × (spans_in c (current_traces c (stored_or_new c now (C.get s (encode_to_string tid))))
              ≡ spans_at c C s tid)
    unfolding stored_or_new current_traces current_logs spans
    stored_or_new-IsReadable s tid readable = elim (readable tid) [
      | inl missing ↦
          rw (missing, stored_or_new)
            (
              record {
                traces = [];
                logs = [];
                traces_read = rw H.nil-is_empty refl;
                logs_read = rw H.nil-is_empty refl;
              },
              rw H.nil-is_empty refl,
            )
      | inr (stored, present, r) ↦ elim (Option-cases (C.get s (encode_to_string tid))) [
        | inl e ↦ let e' = rw e at present in cc
        | inr (entry, e) ↦
            let decoded : c.gob_decode entry ≡ some stored = rw e at present in
            rw (e, stored_or_new, decoded) (r, refl)
      ]
    ]
