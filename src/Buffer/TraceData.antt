-- ===== src/Buffer/TraceData.antt =====
-- internal/buffer/buffer.go: the entry of a trace.
use otel_tail_sampler.Base.{
  ◌≡◌, refl, sym, ap, ◌∙◌, ℕ, true, false, Option, none, some, List, [], ◌∷◌, ◌++◌, ◌>>=◌, inl, inr,
  Option-cases, if◌then◌else◌,
}
use otel_tail_sampler.Base.Int.{ℤ}
use otel_tail_sampler.Base.Text.{eqb_refl}
use otel_tail_sampler.Hex.{encode_to_string}
use otel_tail_sampler.Pdata.{Pcommon, Float64, Traces, ResourceItems, Span}
use otel_tail_sampler.Signals.{LogSignal}
use otel_tail_sampler.Codecs.{Codecs, IsFaithful, StoredTraceData}
use otel_tail_sampler.Buffer.Libraries.{Cache, IsCache, BTree, IsBTree}
use otel_tail_sampler.Buffer.State.{Buffer, stamped, cache_set}
use otel_tail_sampler.Buffer.Store.{stored_or_new, current_traces, with_traces, store_trace}
use otel_tail_sampler.Buffer.Query.{
  Found, absent, found, invalid, stored_at, get_trace, get_trace_logs, remove_trace,
}
use otel_tail_sampler.Buffer.Coherence.{IsCoherent}
use otel_tail_sampler.Buffer.Coherence.Keeps.{get-cache_set}
use otel_tail_sampler.Buffer.Removal.{held, nothing, held-cache_delete}

module _ {P : Pcommon} {F : Float64} (c : Codecs P F) (H : IsFaithful c) {C : Cache c.Bytes}
    (K : IsCache C) {T : BTree} (L : IsBTree T) (now : ℤ) where
  -- What was there for a trace before a write to its entry.
  abbrev pub stored_before : Buffer c C T → List ℕ → StoredTraceData c.Bytes
  stored_before b tid = stored_or_new c now (C.get b.cache (encode_to_string tid))

  stored_at-set :
      (b : Buffer c C T) (tid : List ℕ) (stored : StoredTraceData c.Bytes)
      → IsCoherent c L b
      → (C.set b.cache (encode_to_string tid) (c.gob_encode stored)).ok ≡ true
      → stored_at c (cache_set c now b (encode_to_string tid) (c.gob_encode stored)).0 tid
        ≡ some stored
  unfolding stored_at
  stored_at-set b tid stored i ok =
      rw (get-cache_set c K L now b (encode_to_string tid) (c.gob_encode stored) i ok)
        (H.stored stored)

  not_empty :
      (old : Traces P) (r : ResourceItems P (Span P)) (rs : Traces P) (bytes : c.Bytes)
      → c.marshal_traces (old ++ r ∷ rs) ≡ some bytes
      → c.is_empty bytes ≡ false
  not_empty [] r rs bytes h = H.traces-is_empty r rs bytes h
  not_empty (o ∷ os) r rs bytes h = H.traces-is_empty o (os ++ r ∷ rs) bytes h

  logs_in : Option (StoredTraceData c.Bytes) → Found (LogSignal P)
  logs_in none = absent
  logs_in (some stored) =
      if c.is_empty stored.logs_data then absent else elim (c.unmarshal_logs stored.logs_data) [
        | none ↦ invalid
        | some l ↦ found (record { logs = l; ctx = stamped stored.received_at })
      ]

  logs_in-stored_at :
      (b : Buffer c C T) (tid : List ℕ) → get_trace_logs c b tid ≡ logs_in (stored_at c b tid)
  unfolding get_trace_logs logs_in
  logs_in-stored_at b tid = elim (Option-cases (stored_at c b tid)) [
    | inl e ↦ rw (e, get_trace_logs) refl
    | inr (st, e) ↦ rw (e, get_trace_logs) refl
  ]

  -- New spans leave the logs of an entry, and an entry that cannot be read has none.
  logs_kept :
      (o : Option c.Bytes) (bytes : c.Bytes)
      → logs_in (some (record (stored_or_new c now o) { traces_data = bytes }))
        ≡ logs_in (o >>= c.gob_decode)
  unfolding logs_in stored_or_new
  logs_kept none bytes = rw H.nil-is_empty refl
  logs_kept (some entry) bytes = elim (Option-cases (c.gob_decode entry)) [
    | inl e ↦ rw (e, stored_or_new) (rw H.nil-is_empty refl)
    | inr (st, e) ↦
        let same : stored_or_new c now (some entry) ≡ st = rw (e, stored_or_new) refl in
        ap (λ (x : StoredTraceData c.Bytes). logs_in (some (record x { traces_data = bytes }))) same
        ∙ sym (ap logs_in e)
  ]

  -- Writing spans of a trace, when the entry can be read, the spans can be encoded and the cache takes
  -- the entry: GetTrace then returns the spans that were there followed by the new ones, with the time
  -- at which the entry was made, and GetTraceLogs returns what it returned before.
  pub get_trace-store_trace :
      (b : Buffer c C T) (tid : List ℕ) (old : Traces P) (r : ResourceItems P (Span P))
      (rs : Traces P) (bytes : c.Bytes)
      → IsCoherent c L b
      → current_traces c (stored_before b tid) ≡ some old
      → c.marshal_traces (old ++ r ∷ rs) ≡ some bytes
      → (C.set b.cache
          (encode_to_string tid)
          (c.gob_encode (record (stored_before b tid) { traces_data = bytes }))).ok
        ≡ true
      → (b' : Buffer c C T) × (store_trace c now b tid (r ∷ rs) ≡ some b')
        × (get_trace c b' tid
            ≡ found (record {
              traces = old ++ r ∷ rs;
              ctx = stamped (stored_before b tid).received_at;
            }))
        × (get_trace_logs c b' tid ≡ get_trace_logs c b tid)
  unfolding store_trace with_traces get_trace stored_at
  get_trace-store_trace b tid old r rs bytes i reads writes ok =
      let stored = record (stored_before b tid) { traces_data = bytes } in
      let b' = (cache_set c now b (encode_to_string tid) (c.gob_encode stored)).0 in
      let there = stored_at-set b tid stored i ok in
      let filled = not_empty old r rs bytes writes in
      let back = H.traces (old ++ r ∷ rs) bytes writes in
      (
        b',
        rw (reads, store_trace, writes) refl,
        rw (there, get_trace, filled, back) refl,
        logs_in-stored_at b' tid
            ∙ ap logs_in there
            ∙ logs_kept (C.get b.cache (encode_to_string tid)) bytes
            ∙ sym (logs_in-stored_at b tid),
      )

module _ {P : Pcommon} {F : Float64} (c : Codecs P F) {C : Cache c.Bytes} (K : IsCache C)
    {T : BTree} (L : IsBTree T) (now : ℤ) where
  -- Removing a trace from a coherent buffer removes its logs with it: neither GetTrace nor
  -- GetTraceLogs finds anything afterwards.
  pub remove_trace-removes_logs :
      (b : Buffer c C T) (tid : List ℕ)
      → IsCoherent c L b
      → (get_trace c (remove_trace c now b tid) tid ≡ absent)
        × (get_trace_logs c (remove_trace c now b tid) tid ≡ absent)
  unfolding remove_trace get_trace get_trace_logs stored_at
  remove_trace-removes_logs b tid i =
      let key = encode_to_string tid in
      let gone : C.get (remove_trace c now b tid).cache key ≡ none =
        ap (λ t. t.0) (held-cache_delete c K L now b key key i)
        ∙ ap (λ e. (if e then nothing c K L now else held c K L now b key).0) (eqb_refl key) in
      (rw (gone, get_trace) refl, rw (gone, get_trace_logs) refl)
