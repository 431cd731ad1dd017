-- ===== src/Node/Recovery.antt =====
-- The replay at the start of cmd/server/main.go: what the buffer holds after it.
use otel_tail_sampler.Base.{
  ◌≡◌, refl, sym, ap, ap₂, ◌∙◌, ℕ, suc, true, false, none, some, List, [], ◌∷◌, ◌++◌, append_assoc,
  inl, inr, Bool-cases,
}
use otel_tail_sampler.Base.Int.{ℤ, ◌+ℤ◌, ◌≤ℤ◌}
use otel_tail_sampler.Hex.{encode_to_string}
use otel_tail_sampler.Base.Text.{GoString}
use otel_tail_sampler.Pdata.{Pcommon, Float64, Span, Traces}
use otel_tail_sampler.Signals.{Signal, trace, metric, log}
use otel_tail_sampler.Config.{Config}
use otel_tail_sampler.Codecs.{Codecs, IsFaithful}
use otel_tail_sampler.Decision.Policies.{spans}
use otel_tail_sampler.GoMap.{lookup}
use otel_tail_sampler.Gossip.Manager.{GossipCodec}
use otel_tail_sampler.Wal.{WalStore}
use otel_tail_sampler.Wal.Laws.{IsLawful}
use otel_tail_sampler.Wal.Contract.{Holds}
use otel_tail_sampler.Buffer.Libraries.{Cache, IsCache, BTree}
use otel_tail_sampler.Buffer.Libraries.Room.{HasRoom}
use otel_tail_sampler.Buffer.State
use otel_tail_sampler.Buffer.State.{Buffer}
use otel_tail_sampler.Buffer.Split.{no_id}
use otel_tail_sampler.Buffer.Split.Parts.{with_id, spans_under-split_traces}
use otel_tail_sampler.Buffer.Query.{get_trace, stored_at}
use otel_tail_sampler.Buffer.Spans.{IsTotal, AllReadable, spans_found, spans_at}
use otel_tail_sampler.Buffer.Spans.Adding.{Adds, Adds-nothing, Adds-Adds}
use otel_tail_sampler.Buffer.Spans.Stores.{IsRange}
use otel_tail_sampler.Buffer.Spans.Signals.{added_by, needs, store-Adds}
use otel_tail_sampler.Buffer.Store.{current_traces}
use otel_tail_sampler.Processor
use otel_tail_sampler.Node
use otel_tail_sampler.Node.Durability.{Later, ten_minutes, replay-Later}
use otel_tail_sampler.Node.Log.{signal_of}

module _ {P : Pcommon} {F : Float64} where
  -- The spans that some signals have of a trace, in the order of the signals.
  unfoldable pub spans_of : List ℕ → List (Signal P F) → List (Span P)
  spans_of tid [] = []
  spans_of tid (trace s ∷ sigs) = with_id tid (spans P s.traces) ++ spans_of tid sigs
  spans_of tid (metric s ∷ sigs) = spans_of tid sigs
  spans_of tid (log s ∷ sigs) = spans_of tid sigs

  -- Room for all writes of some signals.
  abbrev pub needs_all : (ℕ → ℤ × Node.Choices P) → ℕ → List (Signal P F) → ℕ
  needs_all env i [] = 0
  needs_all env i (sig ∷ sigs) =
      needs (env i).1.by_trace (env i).1.by_log sig (needs_all env (suc i) sigs)

  abbrev all_added : List (Signal P F) → List ℕ → List (Span P)
  all_added [] tid = []
  all_added (sig ∷ sigs) tid = added_by sig tid ++ all_added sigs tid

  all_added-eq-spans_of :
      (sigs : List (Signal P F)) (tid : List ℕ)
      → no_id tid ≡ false
      → all_added sigs tid ≡ spans_of tid sigs
  unfolding spans_of spans lookup
  all_added-eq-spans_of [] tid named = refl
  all_added-eq-spans_of (trace s ∷ sigs) tid named =
      ap₂ ◌++◌ (spans_under-split_traces tid s.traces [] named)
        (all_added-eq-spans_of sigs tid named)
  all_added-eq-spans_of (metric s ∷ sigs) tid named = all_added-eq-spans_of sigs tid named
  all_added-eq-spans_of (log s ∷ sigs) tid named = all_added-eq-spans_of sigs tid named

module _ {P : Pcommon} {F : Float64} (c : Codecs P F) {C : Cache c.Bytes} {T : BTree} where
  pub spans_found-get_trace :
      (b : Buffer c C T) (tid : List ℕ)
      → AllReadable c C b.cache
      → spans_found (get_trace c b tid) ≡ spans_at c C b.cache tid
  unfolding get_trace stored_at current_traces spans
  spans_found-get_trace b tid readable = elim (readable tid) [
    | inl missing ↦ rw (missing, get_trace) refl
    | inr (stored, present, r) ↦ elim (Bool-cases (c.is_empty stored.traces_data)) [
      | inl empty ↦ rw (present, get_trace, empty, current_traces) refl
      | inr full ↦
          let reads : c.unmarshal_traces stored.traces_data ≡ some r.traces =
            rw (full, current_traces) at r.traces_read in
          rw (present, get_trace, full, current_traces, reads) refl
    ]
  ]

module _ {P : Pcommon} {F : Float64} (c : Codecs P F) (H : IsFaithful c) (A : IsTotal c)
    {C : Cache c.Bytes} (K : IsCache C) (R : HasRoom C) {T : BTree} (env : ℕ → ℤ × Node.Choices P)
    (ranges : (i : ℕ) → IsRange (env i).1.by_trace) where
  store_all-Adds :
      (i : ℕ) (b : Buffer c C T) (sigs : List (Signal P F))
      → R.room b.cache (needs_all env i sigs)
      → AllReadable c C b.cache
      → (b' : Buffer c C T) × (Node.store_all c env i b sigs ≡ some b')
        × Adds c R b.cache b'.cache 0 (all_added sigs)
  unfolding Node.store_all
  store_all-Adds i b [] room readable = (b, refl, Adds-nothing c R b.cache 0 room readable)
  store_all-Adds i b (sig ∷ sigs) room readable =
      let (now, ch) = env i in
      let n = needs_all env (suc i) sigs in
      let (b1, done, first) =
        store-Adds c H A K R now ch.by_trace ch.by_log ch.uuid (ranges i) b n sig room readable in
      let (b2, rest, second) = store_all-Adds (suc i) b1 sigs first.room first.readable in
      (
        b2,
        rw (done, Node.store_all) rest,
        Adds-Adds c R b.cache b1.cache b2.cache n 0 (added_by sig) (all_added sigs) first second,
      )

module _ {P : Pcommon} {F : Float64} (c : Codecs P F) (H : IsFaithful c) (A : IsTotal c)
    (G : GossipCodec F) (W : WalStore c.Bytes) {C : Cache c.Bytes} (K : IsCache C) (R : HasRoom C)
    (T : BTree) (cfg : Config) where
  -- With a new cache that has room for all that is replayed, and maps that are ranged over entry by
  -- entry, a start does not panic, and then GetTrace finds of each trace, whose ID is not all zeros,
  -- exactly the spans that the replayed signals have of it, in their order.
  pub get_trace-start :
      (env : ℕ → ℤ × Node.Choices P) (now : ℤ) (s : W.State) (cache : C.State)
      → ((i : ℕ) → IsRange (env i).1.by_trace)
      → ((k : GoString) → C.get cache k ≡ none)
      → R.room cache (needs_all env 0 (Node.replayed c W s))
      → (n : Node.Node c G W C T) × (Node.start c G W C T cfg env now s cache ≡ some n)
        × ((tid : List ℕ)
            → no_id tid ≡ false
            → spans_found (get_trace c n.processor.buffer tid) ≡ spans_of tid (Node.replayed c W s))
  unfolding Node.start Node.initial State.new Processor.new
  get_trace-start env now s cache ranges nothing room =
      let sigs = Node.replayed c W s in
      let b0 : Buffer c C T = State.new c C T cache in
      let (b, done, adds) =
        store_all-Adds c H A K R env ranges 0 b0 sigs room
          (λ tid. inl (nothing (encode_to_string tid))) in
      (
        Node.initial c G W C T cfg now s b,
        rw (done, Node.start) refl,
        λ tid named.
            spans_found-get_trace c b tid adds.readable
            ∙ adds.spans tid
            ∙ rw (nothing (encode_to_string tid)) (all_added-eq-spans_of sigs tid named),
      )

  -- The spans of a signal of the list.
  spans_of-Holds :
      (tid : List ℕ) (now : ℤ) (t : Traces P) (sigs : List (Signal P F))
      → Holds c (signal_of now (Node.traces_request t)) sigs
      → (before after : List (Span P)) × (spans_of tid sigs
          ≡ before ++ (with_id tid (spans P t) ++ after))
  unfolding spans_of
  spans_of-Holds tid now t [] h = elim h [ ]
  spans_of-Holds tid now t (sig ∷ sigs) (inl e) =
      ([], spans_of tid sigs, ap (λ x. spans_of tid (x ∷ sigs)) e)
  spans_of-Holds tid now t (trace s ∷ sigs) (inr h) =
      let (before, after, e) = spans_of-Holds tid now t sigs h in
      (
        with_id tid (spans P s.traces) ++ before,
        after,
        ap (λ x. with_id tid (spans P s.traces) ++ x) e
            ∙ sym (append_assoc (with_id tid (spans P s.traces)) before _),
      )
  spans_of-Holds tid now t (metric s ∷ sigs) (inr h) = spans_of-Holds tid now t sigs h
  spans_of-Holds tid now t (log s ∷ sigs) (inr h) = spans_of-Holds tid now t sigs h

  -- Spans that were accepted survive a crash: when a batch was answered without an error, and the
  -- process is started on the log at any later point within ten minutes, with a new cache that has room
  -- for all that is replayed, GetTrace finds all spans of the batch that belong to the trace, in their
  -- order and side by side.
  pub get_trace-restart :
      (L : IsLawful W)
      → (n n1 n2 : Node.Node c G W C T) (ch : Node.Choices P) (t : Traces P)
      → Node.receive c G W cfg n ch (Node.traces_request t) ≡ some (n1, true)
      → Later c G W cfg n1 n2
      → n2.clock ≤ℤ n.clock +ℤ ten_minutes
      → (env : ℕ → ℤ × Node.Choices P) (now : ℤ) (cache : C.State)
      → ((i : ℕ) → IsRange (env i).1.by_trace)
      → ((k : GoString) → C.get cache k ≡ none)
      → R.room cache (needs_all env 0 (Node.replayed c W n2.wal))
      → (tid : List ℕ) → no_id tid ≡ false
      → (n3 : Node.Node c G W C T) × (before after : List (Span P)) × (Node.start c G W C T cfg env
            now n2.wal cache
          ≡ some n3)
        × (spans_found (get_trace c n3.processor.buffer tid)
            ≡ before ++ (with_id tid (spans P t) ++ after))
  get_trace-restart L n n1 n2 ch t accepted later young env now cache ranges nothing room tid
        named =
      let (sigs, replays, there) =
        replay-Later c G W cfg L H n n1 n2 ch (Node.traces_request t) accepted later young in
      let same : Node.replayed c W n2.wal ≡ sigs = rw (replays, Node.replayed) refl in
      let (before, after, e) = spans_of-Holds tid n.clock t sigs there in
      let (n3, done, finds) = get_trace-start env now n2.wal cache ranges nothing room in
      (n3, before, after, done, finds tid named ∙ ap (spans_of tid) same ∙ e)
