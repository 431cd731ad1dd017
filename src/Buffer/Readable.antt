-- ===== src/Buffer/Readable.antt =====
-- The entries of traces of internal/buffer/buffer.go stay readable, whatever is evicted, removed or
-- refused by the cache.
pub mod Stores
pub mod Runs
use mathlib.Core.Path.{subst}
use otel_tail_sampler.Base.{
  ◌≡◌, refl, sym, ap, ◌∙◌, ◌>>=◌, ◌⊎◌, ℕ, Bool, true, false, Option, none, some, List, [], ◌∷◌, inl,
  inr, Bool-cases, Option-cases, arith, if◌then◌else◌,
}
use otel_tail_sampler.Base.Int.{ℤ}
use otel_tail_sampler.Base.Text.{GoString, eqb, eqb_iff}
use otel_tail_sampler.Hex.{encode_to_string}
use otel_tail_sampler.Pdata.{Pcommon, Float64}
use otel_tail_sampler.Signals.{Signal}
use otel_tail_sampler.Codecs.{Codecs, IsFaithful, StoredTraceData}
use otel_tail_sampler.Buffer.Libraries.{Cache, IsCache, BTree, Removed, is_removed}
use otel_tail_sampler.Buffer.Libraries.Failures.{IsAtomic}
use otel_tail_sampler.Buffer.State.{
  Buffer, cleanup, send_evicted, evicted_signal, on_cache_eviction, callbacks, cache_set,
  cache_delete, cache_clean, delete_keys, is_metric, is_log, is_eviction,
}
use otel_tail_sampler.Buffer.Spans.{IsReadable, AllReadable, record_at, eqb-encode_to_string}

module _ {P : Pcommon} {F : Float64} (c : Codecs P F) {C : Cache c.Bytes} {T : BTree}
    (now : ℤ) where
  cache-send_evicted :
      (b : Buffer c C T) (o : Option (Signal P F)) → (send_evicted c now b o).cache ≡ b.cache
  unfolding send_evicted
  cache-send_evicted b none = refl
  cache-send_evicted b (some sig) = ground arith

  cache-cleanup : (b : Buffer c C T) (key : GoString) → (cleanup c now b key).cache ≡ b.cache
  unfolding cleanup
  cache-cleanup b key = ground arith

  -- The callback does not write to the cache.
  pub cache-on_cache_eviction :
      (b : Buffer c C T) (r : Removed c.Bytes) → (on_cache_eviction c now b r).cache ≡ b.cache
  unfolding on_cache_eviction
  cache-on_cache_eviction b r = elim (Bool-cases (is_eviction r.reason)) [
    | inl e ↦ rw e (
        cache-send_evicted (cleanup c now b r.key) (evicted_signal c now r.key r.entry)
        ∙ cache-cleanup b r.key)
    | inr e ↦ rw e (cache-cleanup b r.key)
  ]

  pub cache-callbacks :
      (b : Buffer c C T) (rs : List (Removed c.Bytes)) → (callbacks c now b rs).cache ≡ b.cache
  unfolding callbacks
  cache-callbacks b [] = refl
  cache-callbacks b (r ∷ rs) =
      cache-callbacks (on_cache_eviction c now b r) rs ∙ cache-on_cache_eviction b r

module _ {P : Pcommon} {F : Float64} (c : Codecs P F) (C : Cache c.Bytes) where
  -- What AllReadable says of one trace, of the entry that a look-up gives.
  abbrev pub IsReadableEntry : Option c.Bytes → Type 0
  IsReadableEntry o =
      (o ≡ none)
      ⊎ ((stored : StoredTraceData c.Bytes) × ((o >>= c.gob_decode) ≡ some stored)
          × IsReadable c stored)

  -- Under this key there is what was there, or nothing.
  abbrev pub IsSparedAt : C.State → C.State → GoString → Type 0
  IsSparedAt s s' key = (C.get s' key ≡ none) ⊎ (C.get s' key ≡ C.get s key)

  spared :
      (s s' : C.State) (tid : List ℕ)
      → IsSparedAt s s' (encode_to_string tid)
      → IsReadableEntry (C.get s (encode_to_string tid))
      → IsReadableEntry (C.get s' (encode_to_string tid))
  spared s s' tid (inl lost) r = inl lost
  spared s s' tid (inr kept) r = subst IsReadableEntry (sym kept) r

  pub spared_if :
      (s s' : C.State) (key : GoString) (b : Bool)
      → C.get s' key ≡ (if b then none else C.get s key)
      → IsSparedAt s s' key
  spared_if s s' key true e = inl e
  spared_if s s' key false e = inr e

  pub all_spared :
      (s s' : C.State)
      → ((key : GoString) → IsSparedAt s s' key)
      → AllReadable c C s
      → AllReadable c C s'
  all_spared s s' h readable tid = spared s s' tid (h (encode_to_string tid)) (readable tid)

module _ {P : Pcommon} {F : Float64} (c : Codecs P F) (H : IsFaithful c) {C : Cache c.Bytes}
    (K : IsCache C) (Q : IsAtomic C) where
  -- A write of a readable record, whether the cache takes it or not.
  pub write_record-AllReadable :
      (s : C.State) (k : List ℕ) (stored : StoredTraceData c.Bytes)
      → IsReadable c stored
      → AllReadable c C s
      → AllReadable c C (C.set s (encode_to_string k) (c.gob_encode stored)).state
  write_record-AllReadable s k stored r readable tid =
      let key = encode_to_string k in
      let entry = c.gob_encode stored in
      let s' = (C.set s key entry).state in
      elim (Bool-cases (eqb k tid)) [
        | inl same ↦
            let e = (eqb_iff k tid).0 same in
            subst (λ j. IsReadableEntry c C (C.get s' (encode_to_string j))) e
              (elim (Bool-cases (C.set s key entry).ok) [
                | inl ok ↦ inr (
                  stored,
                  ap (λ o. o >>= c.gob_decode) (K.get-set_self s key entry ok) ∙ H.stored stored,
                  r,
                )
                | inr failed ↦ spared c C s s' k (Q.get-set_failed s key entry failed) (readable k)
              ])
        | inr other ↦
            spared c C s s' tid
              (spared_if c C s s' (encode_to_string tid) _
                (K.get-set s key (encode_to_string tid) entry (eqb-encode_to_string k tid other)))
              (readable tid)
      ]

  -- A write under a key that is not that of a trace.
  pub write_other-AllReadable :
      (s : C.State) (key : GoString) (entry : c.Bytes)
      → ((tid : List ℕ) → eqb key (encode_to_string tid) ≡ false)
      → AllReadable c C s
      → AllReadable c C (C.set s key entry).state
  write_other-AllReadable s key entry differs readable tid =
      spared c C s (C.set s key entry).state tid
        (spared_if c C s (C.set s key entry).state (encode_to_string tid) _
          (K.get-set s key (encode_to_string tid) entry (differs tid)))
        (readable tid)
