-- ===== src/Buffer/Coherence/Callbacks.antt =====
-- The effect of the callback of internal/buffer/buffer.go on the cache and the indices.
use otel_tail_sampler.Base.{
  ◌≡◌, refl, sym, ap, ◌∙◌, false, Option, none, some, List, [], ◌∷◌, inl, inr, ltb, length,
  Bool-cases,
}
use mathlib.Core.Path.{subst, Path}
use otel_tail_sampler.Base.Int.{ℤ}
use otel_tail_sampler.Base.Text.{GoString}
use otel_tail_sampler.Pdata.{Pcommon, Float64}
use otel_tail_sampler.Signals.{Signal}
use otel_tail_sampler.Codecs.{Codecs}
use otel_tail_sampler.Buffer.Libraries.{Removed, Cache, BTree}
use otel_tail_sampler.Buffer.State.{
  Buffer, TimeIndex, forget, is_metric, is_log, is_eviction, evicted_capacity, cleanup,
  send_evicted, evicted_signal, on_cache_eviction, callbacks,
}
use otel_tail_sampler.Buffer.Coherence.{is_only_log}
use otel_tail_sampler.Buffer.Coherence.Index.{
  forget_all, forget_missing, missing-OfKind, OfKind, forget_all-OfKind,
}

module _ {P : Pcommon} {F : Float64} (c : Codecs P F) {C : Cache c.Bytes} {T : BTree} where
  -- All but the channel.
  abbrev pub frame : Buffer c C T → C.State × TimeIndex T × TimeIndex T
  frame b = (b.cache, b.metric_index, b.log_index)

module _ {P : Pcommon} {F : Float64} (c : Codecs P F) {C : Cache c.Bytes} {T : BTree}
    (now : ℤ) where
  send_evicted-frame :
      (b : Buffer c C T) (o : Option (Signal P F)) → frame c (send_evicted c now b o) ≡ frame c b
  unfolding send_evicted
  send_evicted-frame b none = refl
  send_evicted-frame b (some sig) =
      elim (Bool-cases (ltb (length b.evicted_chan) evicted_capacity)) [
        | inl e ↦ rw (e, send_evicted) refl
        | inr e ↦ rw (e, send_evicted) refl
      ]

  frame-on_cache_eviction :
      (b : Buffer c C T) (r : Removed c.Bytes)
      → frame c (on_cache_eviction c now b r) ≡ frame c (cleanup c now b r.key)
  unfolding on_cache_eviction
  frame-on_cache_eviction b r = elim (Bool-cases (is_eviction r.reason)) [
    | inl e ↦
        rw (e, on_cache_eviction)
          (send_evicted-frame (cleanup c now b r.key) (evicted_signal c now r.key r.entry))
    | inr e ↦ rw (e, on_cache_eviction) refl
  ]

  cache-cleanup : (b : Buffer c C T) (key : GoString) → (cleanup c now b key).cache ≡ b.cache
  unfolding cleanup
  cache-cleanup b key = elim (Bool-cases (is_metric key)) [
    | inl m ↦ rw (m, cleanup) refl
    | inr m ↦ elim (Bool-cases (is_log key)) [
      | inl l ↦ rw (m, cleanup, l) refl
      | inr l ↦ rw (m, cleanup, l) refl
    ]
  ]

  -- A key that the other index holds is left alone, since the kinds of keys are disjoint.
  metric_index-cleanup :
      (b : Buffer c C T) (key : GoString)
      → OfKind is_metric b.metric_index
      → (cleanup c now b key).metric_index ≡ forget b.metric_index key
  unfolding cleanup
  metric_index-cleanup b key of_kind = elim (Bool-cases (is_metric key)) [
    | inl e ↦ rw (e, cleanup) refl
    | inr e ↦
        let stays =
          forget_missing b.metric_index key (missing-OfKind b.metric_index key of_kind e) in
        elim (Bool-cases (is_log key)) [
          | inl l ↦ rw (e, cleanup, l) (sym stays)
          | inr l ↦ rw (e, cleanup, l) (sym stays)
        ]
  ]

  log_index-cleanup :
      (b : Buffer c C T) (key : GoString)
      → OfKind is_only_log b.log_index
      → (cleanup c now b key).log_index ≡ forget b.log_index key
  unfolding cleanup
  log_index-cleanup b key of_kind =
      let stays : is_only_log key ≡ false → forget b.log_index key ≡ b.log_index =
        λ other. forget_missing b.log_index key (missing-OfKind b.log_index key of_kind other) in
      elim (Bool-cases (is_metric key)) [
        | inl m ↦ rw (m, cleanup) (sym (stays (rw m refl)))
        | inr m ↦ elim (Bool-cases (is_log key)) [
          | inl l ↦ rw (m, cleanup, l) refl
          | inr l ↦ rw (m, cleanup, l) (sym (stays (rw (m, l) refl)))
        ]
      ]

  pub frame-callbacks :
      (b : Buffer c C T) (rs : List (Removed c.Bytes))
      → OfKind is_metric b.metric_index
      → OfKind is_only_log b.log_index
      → frame c (callbacks c now b rs)
        ≡ (b.cache, forget_all b.metric_index rs, forget_all b.log_index rs)
  unfolding callbacks forget_all
  frame-callbacks b [] metrics logs = refl
  frame-callbacks b (r ∷ rs) metrics logs =
      let b' = on_cache_eviction c now b r in
      let one = r ∷ [] in
      let step : frame c b' ≡ (b.cache, forget_all b.metric_index one, forget_all b.log_index one) =
        frame-on_cache_eviction b r
        ∙ tuple (cache-cleanup b r.key) (metric_index-cleanup b r.key metrics)
            (log_index-cleanup b r.key logs) in
      frame-callbacks b' rs
        (subst (OfKind is_metric) (sym (ap (λ t. t.1) step))
          (forget_all-OfKind b.metric_index one metrics))
        (subst (OfKind is_only_log) (sym (ap (λ t. t.2) step))
          (forget_all-OfKind b.log_index one logs))
      ∙ ap (λ t. (t.0, forget_all t.1 rs, forget_all t.2 rs)) step
    where
      tuple :
          {s s' : C.State} {m m' : TimeIndex T} {l l' : TimeIndex T}
          → s ≡ s'
          → m ≡ m'
          → l ≡ l'
          → Path (C.State × TimeIndex T × TimeIndex T) (s, m, l) (s', m', l')
      tuple p q r i = (p i, q i, r i)
