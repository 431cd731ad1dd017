-- ===== src/Buffer/Spans/Stores.antt =====
-- Store of internal/buffer/buffer.go while the cache has room: what it adds to each trace.
use otel_tail_sampler.Base.{
  ◌≡◌, refl, sym, ap, ◌∙◌, ◌>>=◌, ℕ, suc, Bool, true, false, Option, none, some, List, [], ◌∷◌,
  ◌++◌, append-nil, inl, inr, Bool-cases, if◌then◌else◌,
}
use otel_tail_sampler.Base.Int.{ℤ}
use otel_tail_sampler.Base.Text.{GoString, eqb, eqb_iff}
use otel_tail_sampler.Hex.{encode_to_string}
use otel_tail_sampler.Pdata.{Pcommon, Float64, Span, Traces, Logs}
use otel_tail_sampler.Codecs.{Codecs, IsFaithful, StoredTraceData}
use otel_tail_sampler.GoMap.{GoMap, lookup, IsDistinct}
use otel_tail_sampler.Decision.Policies.{spans}
use otel_tail_sampler.Buffer.Libraries.{Cache, IsCache, BTree}
use otel_tail_sampler.Buffer.Libraries.Room.{HasRoom}
use otel_tail_sampler.Buffer.State.{Buffer, callbacks, is_metric}
use otel_tail_sampler.Buffer.Split.Parts.{spans-append}
use otel_tail_sampler.Buffer.Store
use otel_tail_sampler.Buffer.Coherence.{is_only_log}
use otel_tail_sampler.Buffer.Coherence.Keys
use otel_tail_sampler.Buffer.Spans.{IsTotal, AllReadable, spans_in, spans_at, cache_set-room}
use otel_tail_sampler.Buffer.Spans.Entries.{
  with_traces-IsReadable, with_logs-IsReadable, stored_or_new-IsReadable,
}
use otel_tail_sampler.Buffer.Spans.Adding.{
  Adds, nothing_added, write_record-Adds, write_other-Adds, Adds-nothing, Adds-Adds, Adds-same,
}

module _ {V : Type 0} where
  -- The values that a list of entries has under a key.
  abbrev pub values_of : List ℕ → List (List ℕ × V) → List V
  values_of k [] = []
  values_of k ((j, v) ∷ l) = let rest = values_of k l in if eqb j k then v ∷ rest else rest

  -- Ranging over a map visits each entry once.
  abbrev pub IsRange : Store.RangeOrder V → Type 0
  IsRange order =
      (m : GoMap V) (k : List ℕ)
      → IsDistinct m
      → values_of k (order m) ≡ elim (lookup k m) [ none ↦ [] | some v ↦ v ∷ [] ]

module _ {P : Pcommon} where
  -- The spans of several batches, one after the other.
  unfoldable pub all_spans : List (Traces P) → List (Span P)
  all_spans [] = []
  all_spans (t ∷ ts) = spans P t ++ all_spans ts

-- Room for the entries of a list and `n` others.
abbrev pub more : {A : Type 0} → List A → ℕ → ℕ
more [] n = n
more (x ∷ l) n = suc (more l n)

-- Texts that a test tells apart.
pub differs :
    (test : GoString → Bool) (k j : GoString) → test k ≡ true → test j ≡ false → eqb k j ≡ false
differs test k j yes' no' = elim (Bool-cases (eqb k j)) [
  | inl same ↦ let e = ap test ((eqb_iff k j).0 same) in cc
  | inr other ↦ other
]

module _ {P : Pcommon} {F : Float64} (c : Codecs P F) (H : IsFaithful c) (A : IsTotal c)
    {C : Cache c.Bytes} (K : IsCache C) (R : HasRoom C) {T : BTree} (now : ℤ) where
  -- What a handler comes to: it does not panic, and adds these spans.
  abbrev pub Ends : Buffer c C T → Option (Buffer c C T) → ℕ → (List ℕ → List (Span P)) → Type 0
  Ends b o n added = (b' : Buffer c C T) × (o ≡ some b') × Adds c R b.cache b'.cache n added

  store_trace-Ends :
      (b : Buffer c C T) (n : ℕ) (k : List ℕ) (t : Traces P)
      → R.room b.cache (suc n)
      → AllReadable c C b.cache
      → Ends b (Store.store_trace c now b k t) n (λ tid. if eqb k tid then spans P t else [])
  unfolding Store.store_trace
  store_trace-Ends b n k t room readable =
      let key = encode_to_string k in
      let stored = Store.stored_or_new c now (C.get b.cache key) in
      let (r, has) = stored_or_new-IsReadable c H C now b.cache k readable in
      let (reads, r') = with_traces-IsReadable c H A stored (r.traces ++ t) r in
      let entry = c.gob_encode (Store.with_traces c stored (r.traces ++ t)) in
      let grown : spans_in c (current (Store.with_traces c stored (r.traces ++ t)))
          ≡ spans_at c C b.cache k ++ spans P t =
        ap (spans_in c) reads
        ∙ spans-append r.traces t
        ∙ ap (λ x. x ++ spans P t) (sym (ap (spans_in c) r.traces_read) ∙ has) in
      (
        record b { cache = (C.set b.cache key entry).state },
        rw (r.traces_read, Store.store_trace)
            (ap (λ x. some x.0) (cache_set-room c R now b n key entry room)),
        write_record-Adds c H K R b.cache n k _ (spans P t) room readable r' grown,
      )
    where
      current : StoredTraceData c.Bytes → Option (Traces P)
      current = Store.current_traces c

  store_trace_logs-Ends :
      (b : Buffer c C T) (n : ℕ) (k : List ℕ) (l : Logs P)
      → R.room b.cache (suc n)
      → AllReadable c C b.cache
      → Ends b (Store.store_trace_logs c now b k l) n (λ tid. if eqb k tid then [] else [])
  unfolding Store.store_trace_logs
  store_trace_logs-Ends b n k l room readable =
      let key = encode_to_string k in
      let stored = Store.stored_or_new c now (C.get b.cache key) in
      let (r, has) = stored_or_new-IsReadable c H C now b.cache k readable in
      let (reads, r') = with_logs-IsReadable c H A stored (r.logs ++ l) r in
      let entry = c.gob_encode (Store.with_logs c stored (r.logs ++ l)) in
      (
        record b { cache = (C.set b.cache key entry).state },
        rw (r.logs_read, Store.store_trace_logs)
            (ap (λ x. some x.0) (cache_set-room c R now b n key entry room)),
        write_record-Adds c H K R b.cache n k _ [] room readable r'
            (ap (spans_in c) reads ∙ has ∙ sym (append-nil (spans_at c C b.cache k))),
      )

  -- One handler after another.
  pub chain_Ends :
      (b : Buffer c C T) (o : Option (Buffer c C T)) (k : Buffer c C T → Option (Buffer c C T))
      (n m : ℕ) (f g : List ℕ → List (Span P))
      → Ends b o n f
      → ((b1 : Buffer c C T) → R.room b1.cache n → AllReadable c C b1.cache → Ends b1 (k b1) m g)
      → Ends b (o >>= k) m (λ tid. f tid ++ g tid)
  chain_Ends b o k n m f g (b1, done, first) next =
      let (b2, done2, second) = next b1 first.room first.readable in
      (
        b2,
        ap (λ x. x >>= k) done ∙ done2,
        Adds-Adds c R b.cache b1.cache b2.cache n m f g first second,
      )

  pub store_each_trace-Ends :
      (b : Buffer c C T) (n : ℕ) (l : List (List ℕ × Traces P))
      → R.room b.cache (more l n)
      → AllReadable c C b.cache
      → Ends b (Store.store_each_trace c now b l) n (λ tid. all_spans (values_of tid l))
  unfolding Store.store_each_trace all_spans
  store_each_trace-Ends b n [] room readable = (b, refl, Adds-nothing c R b.cache n room readable)
  store_each_trace-Ends b n ((k, t) ∷ l) room readable =
      let f = λ (tid : List ℕ). if eqb k tid then spans P t else [] in
      let g = λ (tid : List ℕ). all_spans (values_of tid l) in
      let (b2, done, adds) =
        chain_Ends b (Store.store_trace c now b k t) (λ b1. Store.store_each_trace c now b1 l)
          (more l n) n f g (store_trace-Ends b (more l n) k t room readable)
          (λ b1 room1 readable1. store_each_trace-Ends b1 n l room1 readable1) in
      (
        b2,
        done,
        Adds-same c R b.cache b2.cache n (λ tid. f tid ++ g tid)
            (λ tid. all_spans (values_of tid ((k, t) ∷ l)))
            (λ tid. elim (Bool-cases (eqb k tid)) [ inl e ↦ rw e refl | inr e ↦ rw e refl ]) adds,
      )

  pub store_each_log-Ends :
      (b : Buffer c C T) (n : ℕ) (l : List (List ℕ × Logs P))
      → R.room b.cache (more l n)
      → AllReadable c C b.cache
      → Ends b (Store.store_each_log c now b l) n nothing_added
  unfolding Store.store_each_log
  store_each_log-Ends b n [] room readable = (b, refl, Adds-nothing c R b.cache n room readable)
  store_each_log-Ends b n ((k, t) ∷ l) room readable =
      let f : List ℕ → List (Span P) = λ tid. if eqb k tid then [] else [] in
      let (b2, done, adds) =
        chain_Ends b (Store.store_trace_logs c now b k t) (λ b1. Store.store_each_log c now b1 l)
          (more l n) n f nothing_added (store_trace_logs-Ends b (more l n) k t room readable)
          (λ b1 room1 readable1. store_each_log-Ends b1 n l room1 readable1) in
      (
        b2,
        done,
        Adds-same c R b.cache b2.cache n (λ tid. f tid ++ []) nothing_added
            (λ tid. elim (Bool-cases (eqb k tid)) [ inl e ↦ rw e refl | inr e ↦ rw e refl ]) adds,
      )

  -- A write under a key by time, which is the key of no trace.
  pub set_metric-Ends :
      (b : Buffer c C T) (n : ℕ) (key : GoString) (entry : c.Bytes)
      → is_metric key ≡ true
      → R.room b.cache (suc n)
      → AllReadable c C b.cache
      → Ends b (some (Store.set_metric c now b key entry)) n nothing_added
  unfolding Store.set_metric callbacks
  set_metric-Ends b n key entry right room readable = (
    Store.set_metric c now b key entry,
    refl,
    rw (R.ok b.cache n key entry room, Store.set_metric, R.nothing_removed b.cache n key entry room)
        (write_other-Adds c H K R b.cache n key entry room readable (λ tid.
          differs is_metric key (encode_to_string tid) right (Keys.trace_key-not_metric tid))),
  )

  pub set_log-Ends :
      (b : Buffer c C T) (n : ℕ) (key : GoString) (entry : c.Bytes)
      → is_only_log key ≡ true
      → R.room b.cache (suc n)
      → AllReadable c C b.cache
      → Ends b (some (Store.set_log c now b key entry)) n nothing_added
  unfolding Store.set_log callbacks
  set_log-Ends b n key entry right room readable = (
    Store.set_log c now b key entry,
    refl,
    rw (R.ok b.cache n key entry room, Store.set_log, R.nothing_removed b.cache n key entry room)
        (write_other-Adds c H K R b.cache n key entry room readable (λ tid.
          differs is_only_log key (encode_to_string tid) right (Keys.trace_key-not_log tid))),
  )
