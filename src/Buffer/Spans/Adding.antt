-- ===== src/Buffer/Spans/Adding.antt =====
-- The cache of internal/buffer/buffer.go while it has room: what writes add to the spans of each trace.
use mathlib.Core.Path.{subst}
use otel_tail_sampler.Base.{
  ◌≡◌, sym, ap, ◌∙◌, ◌>>=◌, ◌⊎◌, ℕ, suc, true, false, Option, none, some, List, [], ◌++◌,
  append-nil, append_assoc, inl, inr, Bool-cases, if◌then◌else◌,
}
use otel_tail_sampler.Base.Text.{GoString, eqb, eqb_iff}
use otel_tail_sampler.Hex.{encode_to_string}
use otel_tail_sampler.Pdata.{Pcommon, Float64, Span}
use otel_tail_sampler.Codecs.{Codecs, IsFaithful, StoredTraceData}
use otel_tail_sampler.Buffer.Libraries.{Cache, IsCache}
use otel_tail_sampler.Buffer.Libraries.Room.{HasRoom}
use otel_tail_sampler.Buffer.Store.{current_traces}
use otel_tail_sampler.Buffer.Spans.{
  IsReadable, AllReadable, record_at, spans_in, spans_stored, spans_at, get-set_other, get-set_same,
  eqb-encode_to_string,
}

module _ {P : Pcommon} where
  abbrev pub nothing_added : List ℕ → List (Span P)
  nothing_added tid = []

module _ {P : Pcommon} {F : Float64} (c : Codecs P F) {C : Cache c.Bytes} (R : HasRoom C) where
  -- From one state of the cache to another: it still has room for `n` entries, all entries of traces
  -- are readable, and each trace has got these spans behind those that it had.
  pub record Adds (s s' : C.State) (n : ℕ) (added : List ℕ → List (Span P)) : Type 0 where
    pub room : R.room s' n
    pub readable : AllReadable c C s'
    pub spans : (tid : List ℕ) → spans_at c C s' tid ≡ spans_at c C s tid ++ added tid

module _ {P : Pcommon} {F : Float64} (c : Codecs P F) (H : IsFaithful c) {C : Cache c.Bytes}
    (K : IsCache C) (R : HasRoom C) where
  -- A write of a readable record under the key of a trace.
  pub write_record-Adds :
      (s : C.State) (n : ℕ) (k : List ℕ) (stored : StoredTraceData c.Bytes) (x : List (Span P))
      → R.room s (suc n)
      → AllReadable c C s
      → IsReadable c stored
      → spans_in c (current_traces c stored) ≡ spans_at c C s k ++ x
      → Adds c R s
          (C.set s (encode_to_string k) (c.gob_encode stored)).state
          n
          (λ tid. if eqb k tid then x else [])
  write_record-Adds s n k stored x room readable r grown = record {
    room = R.room-set s n key entry room;
    readable = λ tid. elim (Bool-cases (eqb k tid)) [
      | inl same ↦ inr (stored, at_same tid same, r)
      | inr other ↦
          subst
            (λ (o : Option c.Bytes).
              (o ≡ none)
              ⊎ ((st : StoredTraceData c.Bytes) × ((o >>= c.gob_decode) ≡ some st)
                  × IsReadable c st))
            (sym (at_other tid other)) (readable tid)
    ];
    spans = λ tid. elim (Bool-cases (eqb k tid)) [
      | inl same ↦ rw same (
          ap (spans_stored c) (at_same tid same)
          ∙ grown
          ∙ ap (λ j. spans_at c C s j ++ x) ((eqb_iff k tid).0 same))
      | inr other ↦ rw other (
          ap (λ (o : Option c.Bytes). spans_stored c (o >>= c.gob_decode)) (at_other tid other)
          ∙ sym (append-nil (spans_at c C s tid)))
    ];
  }
    where
      key : GoString
      key = encode_to_string k

      entry : c.Bytes
      entry = c.gob_encode stored

      at_same :
          (tid : List ℕ)
          → eqb k tid ≡ true
          → record_at c C (C.set s (encode_to_string k) (c.gob_encode stored)).state tid
            ≡ some stored
      at_same tid same =
          ap (λ j. record_at c C (C.set s (encode_to_string k) (c.gob_encode stored)).state j)
            (sym ((eqb_iff k tid).0 same))
          ∙ rw (get-set_same K R s n (encode_to_string k) (c.gob_encode stored) room)
              (H.stored stored)

      at_other :
          (tid : List ℕ)
          → eqb k tid ≡ false
          → C.get (C.set s (encode_to_string k) (c.gob_encode stored)).state (encode_to_string tid)
            ≡ C.get s (encode_to_string tid)
      at_other tid other =
          get-set_other K R s n (encode_to_string k) (encode_to_string tid) (c.gob_encode stored)
            room (eqb-encode_to_string k tid other)

  -- A write under a key that is not that of a trace.
  pub write_other-Adds :
      (s : C.State) (n : ℕ) (key : GoString) (entry : c.Bytes)
      → R.room s (suc n)
      → AllReadable c C s
      → ((tid : List ℕ) → eqb key (encode_to_string tid) ≡ false)
      → Adds c R s (C.set s key entry).state n nothing_added
  write_other-Adds s n key entry room readable differs = record {
    room = R.room-set s n key entry room;
    readable = λ tid.
        subst
          (λ (o : Option c.Bytes).
            (o ≡ none)
            ⊎ ((st : StoredTraceData c.Bytes) × ((o >>= c.gob_decode) ≡ some st) × IsReadable c st))
          (sym (get-set_other K R s n key (encode_to_string tid) entry room (differs tid)))
          (readable tid);
    spans = λ tid.
        ap (λ (o : Option c.Bytes). spans_stored c (o >>= c.gob_decode))
          (get-set_other K R s n key (encode_to_string tid) entry room (differs tid))
        ∙ sym (append-nil (spans_at c C s tid));
  }

module _ {P : Pcommon} {F : Float64} (c : Codecs P F) {C : Cache c.Bytes} (R : HasRoom C) where
  pub Adds-nothing :
      (s : C.State) (n : ℕ) → R.room s n → AllReadable c C s → Adds c R s s n nothing_added
  Adds-nothing s n room readable = record {
    room = room;
    readable = readable;
    spans = λ tid. sym (append-nil (spans_at c C s tid));
  }

  pub Adds-Adds :
      (s s1 s2 : C.State) (n m : ℕ) (f g : List ℕ → List (Span P))
      → Adds c R s s1 n f
      → Adds c R s1 s2 m g
      → Adds c R s s2 m (λ tid. f tid ++ g tid)
  Adds-Adds s s1 s2 n m f g first second = record {
    room = second.room;
    readable = second.readable;
    spans = λ tid.
        second.spans tid
        ∙ ap (λ x. x ++ g tid) (first.spans tid)
        ∙ append_assoc (spans_at c C s tid) (f tid) (g tid);
  }

  pub Adds-same :
      (s s' : C.State) (n : ℕ) (f g : List ℕ → List (Span P))
      → ((tid : List ℕ) → f tid ≡ g tid)
      → Adds c R s s' n f
      → Adds c R s s' n g
  Adds-same s s' n f g same adds = record {
    room = adds.room;
    readable = adds.readable;
    spans = λ tid. adds.spans tid ∙ ap (λ x. spans_at c C s tid ++ x) (same tid);
  }
