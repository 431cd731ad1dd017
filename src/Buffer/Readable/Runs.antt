-- ===== src/Buffer/Readable/Runs.antt =====
-- The steps of the buffer of internal/buffer/buffer.go from one with readable entries.
use mathlib.Core.Option.{some-injective}
use mathlib.Core.Path.{subst}
use otel_tail_sampler.Base.{◌≡◌, refl, sym, ap, ◌∙◌, List, [], ◌∷◌, inl, inr, Option-cases}
use otel_tail_sampler.Base.Int.{ℤ}
use otel_tail_sampler.Base.Text.{GoString}
use otel_tail_sampler.Hex.{encode_to_string}
use otel_tail_sampler.Pdata.{Pcommon, Float64}
use otel_tail_sampler.Codecs.{Codecs, IsFaithful}
use otel_tail_sampler.GoMap.{keys}
use otel_tail_sampler.Buffer.Libraries.{Cache, IsCache, BTree, deleted}
use otel_tail_sampler.Buffer.Libraries.Failures.{IsAtomic}
use otel_tail_sampler.Buffer.State.{Buffer, cache_delete, cache_clean, delete_keys}
use otel_tail_sampler.Buffer.Query.{
  range_keys, remove_trace, remove_metrics_in_range, remove_logs_in_range, clear_metrics,
  clear_logs,
}
use otel_tail_sampler.Buffer.Coherence.Runs.{
  Step, stored, removed_trace, removed_metrics, removed_logs, cleared_metrics, cleared_logs,
  cleaned, taken, Steps, here, then_step,
}
use otel_tail_sampler.Buffer.Spans.{IsTotal, AllReadable}
use otel_tail_sampler.Buffer.Readable.{
  all_spared, spared_if, cache-callbacks, cache-on_cache_eviction,
}
use otel_tail_sampler.Buffer.Readable.Stores.{store_returns}

module _ {P : Pcommon} {F : Float64} (c : Codecs P F) {C : Cache c.Bytes} (K : IsCache C)
    {T : BTree} (now : ℤ) where
  cache-cache_delete :
      (b : Buffer c C T) (key : GoString)
      → (cache_delete c now b key).cache ≡ (C.delete b.cache key).0
  unfolding cache_delete
  cache-cache_delete b key = elim (Option-cases (C.delete b.cache key).1) [
    | inl e ↦ rw (e, cache_delete) refl
    | inr (entry, e) ↦
        rw (e, cache_delete)
          (cache-on_cache_eviction c now (record b { cache = (C.delete b.cache key).0 })
            (record { key = key; entry = entry; reason = deleted }))
  ]

  pub cache_delete-AllReadable :
      (b : Buffer c C T) (key : GoString)
      → AllReadable c C b.cache
      → AllReadable c C (cache_delete c now b key).cache
  cache_delete-AllReadable b key readable =
      subst (AllReadable c C) (sym (cache-cache_delete b key)) (
        all_spared c C b.cache (C.delete b.cache key).0
          (λ j. spared_if c C b.cache (C.delete b.cache key).0 j _ (K.get-delete b.cache key j))
          readable)

  pub delete_keys-AllReadable :
      (b : Buffer c C T) (ks : List GoString)
      → AllReadable c C b.cache
      → AllReadable c C (delete_keys c now b ks).cache
  unfolding delete_keys
  delete_keys-AllReadable b [] readable = readable
  delete_keys-AllReadable b (k ∷ ks) readable =
      delete_keys-AllReadable (cache_delete c now b k) ks (cache_delete-AllReadable b k readable)

  cache_clean-AllReadable :
      (b : Buffer c C T) → AllReadable c C b.cache → AllReadable c C (cache_clean c now b).cache
  unfolding cache_clean
  cache_clean-AllReadable b readable =
      let s' = (C.clean b.cache).0 in
      subst (AllReadable c C)
        (sym (cache-callbacks c now (record b { cache = s' }) (C.clean b.cache).1))
        (all_spared c C b.cache s' (λ j. spared_if c C b.cache s' j _ (K.get-clean b.cache j))
          readable)

module _ {P : Pcommon} {F : Float64} (c : Codecs P F) (H : IsFaithful c) (A : IsTotal c)
    {C : Cache c.Bytes} (K : IsCache C) (Q : IsAtomic C) {T : BTree} where
  Step-AllReadable :
      (b b' : Buffer c C T) → Step c C T b b' → AllReadable c C b.cache → AllReadable c C b'.cache
  unfolding remove_trace remove_metrics_in_range remove_logs_in_range clear_metrics clear_logs
  Step-AllReadable b b' (stored now by_trace by_log uuid _ _ ok sig fresh done) readable =
      let (b1, ok1, done1, readable1) =
        store_returns c H A K Q now by_trace by_log uuid b sig readable in
      subst (λ (x : Buffer c C T). AllReadable c C x.cache)
        (ap (λ t. t.0) (some-injective _ _ (sym done1 ∙ done))) readable1
  Step-AllReadable b _ (removed_trace now _ tid) readable =
      cache_delete-AllReadable c K now b (encode_to_string tid) readable
  Step-AllReadable b _ (removed_metrics now _ start end) readable =
      delete_keys-AllReadable c K now b (range_keys b.metric_index start end) readable
  Step-AllReadable b _ (removed_logs now _ start end) readable =
      delete_keys-AllReadable c K now b (range_keys b.log_index start end) readable
  Step-AllReadable b _ (cleared_metrics now _) readable =
      delete_keys-AllReadable c K now b (keys b.metric_index.key_map) readable
  Step-AllReadable b _ (cleared_logs now _) readable =
      delete_keys-AllReadable c K now b (keys b.log_index.key_map) readable
  Step-AllReadable b _ (cleaned now _) readable = cache_clean-AllReadable c K now b readable
  Step-AllReadable b _ (taken _ sig rest e) readable = readable

  -- Any number of steps keep the entries of traces readable.
  pub Steps-AllReadable :
      {b b' : Buffer c C T} → Steps c C T b b' → AllReadable c C b.cache → AllReadable c C b'.cache
  Steps-AllReadable here readable = readable
  Steps-AllReadable (then_step {b1 = b1} {b2 = b2} rest step) readable =
      Step-AllReadable b1 b2 step (Steps-AllReadable rest readable)
