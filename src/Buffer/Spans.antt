-- ===== src/Buffer/Spans.antt =====
-- internal/buffer/buffer.go as a map from trace IDs to spans: what GetTrace finds, over writes to the
-- cache.
pub mod Entries
pub mod Adding
pub mod Stores
pub mod Signals
use otel_tail_sampler.Base.{
  ◌≡◌, refl, sym, ap, ◌∙◌, ◌>>=◌, ◌⊎◌, ℕ, suc, Bool, true, false, Option, none, some, List, [], ◌∷◌,
  ◌++◌, inl, inr, Bool-cases, Option-cases, arith, if◌then◌else◌,
}
use otel_tail_sampler.Base.Int.{ℤ}
use otel_tail_sampler.Base.Text.{GoString, eqb, eqb_iff, eqb_refl}
use otel_tail_sampler.Hex.{encode_to_string}
use otel_tail_sampler.Hex.RoundTrip.{encode_to_string-injective}
use otel_tail_sampler.Pdata.{Pcommon, Float64, Span, Traces, Metrics, Logs}
use otel_tail_sampler.Signals.{TraceSignal}
use otel_tail_sampler.Codecs.{Codecs, IsFaithful, StoredTraceData}
use otel_tail_sampler.Decision.Policies.{spans}
use otel_tail_sampler.Buffer.Libraries.{Cache, IsCache, BTree, is_removed}
use otel_tail_sampler.Buffer.Libraries.Room.{HasRoom}
use otel_tail_sampler.Buffer.State.{Buffer, cache_set, callbacks, is_metric}
use otel_tail_sampler.Buffer.Store.{current_traces, current_logs}
use otel_tail_sampler.Buffer.Query.{Found, absent, invalid, found, get_trace, stored_at}
use otel_tail_sampler.Buffer.Coherence.Keys.{trace_key-not_metric}

module _ {P : Pcommon} where
  -- The spans of what GetTrace returns.
  abbrev pub spans_found : Found (TraceSignal P) → List (Span P)
  spans_found absent = []
  spans_found invalid = []
  spans_found (found t) = spans P t.traces

module _ {P : Pcommon} {F : Float64} (c : Codecs P F) where
  -- An encoding of the messages never fails.
  pub record IsTotal : Type 0 where
    pub traces : (t : Traces P) → (b : c.Bytes) × (c.marshal_traces t ≡ some b)
    pub metrics : (m : Metrics P F) → (b : c.Bytes) × (c.marshal_metrics m ≡ some b)
    pub logs : (l : Logs P) → (b : c.Bytes) × (c.marshal_logs l ≡ some b)

  -- A record of which both parts can be decoded, with its traces.
  pub record IsReadable (stored : StoredTraceData c.Bytes) : Type 0 where
    pub traces : Traces P
    pub logs : Logs P
    pub traces_read : current_traces c stored ≡ some traces
    pub logs_read : current_logs c stored ≡ some logs

  abbrev pub spans_in : Option (Traces P) → List (Span P)
  spans_in none = []
  spans_in (some t) = spans P t

  abbrev pub spans_stored : Option (StoredTraceData c.Bytes) → List (Span P)
  spans_stored none = []
  spans_stored (some stored) = spans_in (current_traces c stored)

  module _ (C : Cache c.Bytes) where
    abbrev pub record_at : C.State → List ℕ → Option (StoredTraceData c.Bytes)
    record_at s tid = C.get s (encode_to_string tid) >>= c.gob_decode

    -- Under the key of any trace there is nothing or a readable record.
    abbrev pub AllReadable : C.State → Type 0
    AllReadable s =
        (tid : List ℕ)
        → (C.get s (encode_to_string tid) ≡ none)
          ⊎ ((stored : StoredTraceData c.Bytes) × (record_at s tid ≡ some stored)
              × IsReadable stored)

    abbrev pub spans_at : C.State → List ℕ → List (Span P)
    spans_at s tid = spans_stored (record_at s tid)

module _ {P : Pcommon} {F : Float64} (c : Codecs P F) {C : Cache c.Bytes} (R : HasRoom C)
    {T : BTree} (now : ℤ) where
  -- A write while there is room.
  pub cache_set-room :
      (b : Buffer c C T) (n : ℕ) (key : GoString) (entry : c.Bytes)
      → R.room b.cache (suc n)
      → cache_set c now b key entry ≡ (record b { cache = (C.set b.cache key entry).state }, true)
  unfolding cache_set callbacks
  cache_set-room b n key entry room =
      rw (R.nothing_removed b.cache n key entry room, R.ok b.cache n key entry room) refl

module _ {B : Type 0} {C : Cache B} (K : IsCache C) (R : HasRoom C) where
  pub get-set_other :
      (s : C.State) (n : ℕ) (key j : GoString) (entry : B)
      → R.room s (suc n)
      → eqb key j ≡ false
      → C.get (C.set s key entry).state j ≡ C.get s j
  get-set_other s n key j entry room other =
      K.get-set s key j entry other ∙ rw (R.nothing_removed s n key entry room) refl

  pub get-set_same :
      (s : C.State) (n : ℕ) (key : GoString) (entry : B)
      → R.room s (suc n)
      → C.get (C.set s key entry).state key ≡ some entry
  get-set_same s n key entry room = K.get-set_self s key entry (R.ok s n key entry room)

-- The keys of two traces are the same for the same trace only.
pub eqb-encode_to_string :
    (tid other : List ℕ)
    → eqb tid other ≡ false
    → eqb (encode_to_string tid) (encode_to_string other) ≡ false
eqb-encode_to_string tid other h =
    elim (Bool-cases (eqb (encode_to_string tid) (encode_to_string other))) [
      | inl same ↦
          let e = encode_to_string-injective tid other ((eqb_iff _ _).0 same) in
          let h' : eqb tid other ≡ true = (eqb_iff tid other).1 e in cc
      | inr differs ↦ differs
    ]
