-- ===== src/Buffer/TimeData.antt =====
-- internal/buffer/buffer.go: the entry of a batch of metrics, and the ranges that find it.
use otel_tail_sampler.Base.{
  ◌≡◌, refl, ap, ◌∙◌, ◌-◌, true, some, List, [], ◌∷◌, Any, inl, inr, Bool-cases, Option-cases,
  arith,
}
use otel_tail_sampler.Base.Int.{ℤ, pos, ◌<ℤ◌, wrap64, IsInt64, i64_half}
use otel_tail_sampler.Base.Text.{GoString, codes, eqb_refl}
use otel_tail_sampler.Pdata.{Pcommon, Float64, Metrics}
use otel_tail_sampler.Signals.{MetricSignal}
use otel_tail_sampler.Codecs.{Codecs, IsFaithful}
use otel_tail_sampler.GoMap.{lookup, lookup-insert}
use otel_tail_sampler.Buffer.Libraries.{Cache, IsCache, BTree, IsBTree, TimeKey, same_key, contains}
use otel_tail_sampler.Buffer.Libraries.Lists.{same_key→≡}
use otel_tail_sampler.Buffer.State.{Buffer, index_key, cache_set, stamped}
use otel_tail_sampler.Buffer.Store
use otel_tail_sampler.Buffer.Query.{get_metrics_in_range, in_range, metrics_of}
use otel_tail_sampler.Buffer.Coherence.Index.{listed}
use otel_tail_sampler.Buffer.Coherence.Keeps.{get-cache_set}
use otel_tail_sampler.Buffer.Coherence.Steps.{IsReady, store_metric-IsCoherent}
use otel_tail_sampler.Buffer.Removal.Ranges.{within, contains-in_range}

module _ {P : Pcommon} {F : Float64} (c : Codecs P F) {C : Cache c.Bytes} {T : BTree} where
  -- A selected key with an entry that can be decoded.
  Any-metrics_of :
      (b : Buffer c C T) (tk : TimeKey) (l : List TimeKey) (entry : c.Bytes) (m : Metrics P F)
      → contains tk l ≡ true
      → C.get b.cache tk.key ≡ some entry
      → c.unmarshal_metrics entry ≡ some m
      → Any (λ s. s ≡ record { metrics = m; ctx = stamped tk.timestamp }) (metrics_of c b l)
  unfolding metrics_of
  Any-metrics_of b tk [] entry m selected stored reads = cc
  Any-metrics_of b tk (u ∷ l) entry m selected stored reads = elim (Bool-cases (same_key u tk)) [
    | inl same ↦
        let e = same_key→≡ u tk same in
        let there : C.get b.cache u.key ≡ some entry = ap (λ x. C.get b.cache x.key) e ∙ stored in
        rw (there, metrics_of, reads)
          (inl (ap (λ (x : TimeKey). record { metrics = m; ctx = stamped x.timestamp }) e))
    | inr other ↦
        let rest = Any-metrics_of b tk l entry m (rw other at selected) stored reads in
        elim (Option-cases (C.get b.cache u.key)) [
          | inl gone ↦ rw (gone, metrics_of) rest
          | inr (bytes, there) ↦ elim (Option-cases (c.unmarshal_metrics bytes)) [
            | inl fails ↦ rw (there, metrics_of, fails) rest
            | inr (m', reads') ↦ rw (there, metrics_of, reads') (inr rest)
          ]
        ]
  ]

module _ {P : Pcommon} {F : Float64} (c : Codecs P F) (H : IsFaithful c) {C : Cache c.Bytes}
    (K : IsCache C) {T : BTree} (L : IsBTree T) (now : ℤ) where
  -- Storing a batch of metrics in a coherent buffer, with a fresh identifier, when it can be encoded and
  -- the cache takes the entry: GetMetricsInRange then finds it, with its metrics as they were and the
  -- time at which it was stored, in every range that contains that time, whatever the time at which it
  -- was received. The ends of the range are times of an int64, the later one below the greatest.
  pub get_metrics-store_metric :
      (uuid : GoString) (b : Buffer c C T) (s : MetricSignal P F) (entry : c.Bytes) (start end : ℤ)
      → IsReady c K L now uuid b
      → c.marshal_metrics s.metrics ≡ some entry
      → (C.set b.cache (Store.time_key (codes "m_") (wrap64 now) uuid) entry).ok ≡ true
      → IsInt64 start
      → IsInt64 end
      → end <ℤ pos (i64_half - 1)
      → within start end (wrap64 now) ≡ true
      → Any
          (λ x. x ≡ record { metrics = s.metrics; ctx = stamped (wrap64 now) })
          (get_metrics_in_range c (Store.store_metric c now uuid b s).0 start end)
  unfolding get_metrics_in_range Store.store_metric Store.set_metric index_key in_range
  get_metrics-store_metric uuid b s entry start end ready writes ok hs he below_max inside =
      let key = Store.time_key (codes "m_") (wrap64 now) uuid in
      let tk : TimeKey = record { timestamp = wrap64 now; key = key } in
      let b' = (Store.store_metric c now uuid b s).0 in
      let b1 = (cache_set c now b key entry).0 in
      let after : b' ≡ record b1 { metric_index = index_key b1.metric_index key (wrap64 now) } =
        rw (writes, Store.store_metric, ok, Store.set_metric) refl in
      let present : lookup key b'.metric_index.key_map ≡ some (wrap64 now) =
        ap (λ (x : Buffer c C T). lookup key x.metric_index.key_map) after
        ∙ lookup-insert key key (wrap64 now) b1.metric_index.key_map
        ∙ rw (eqb_refl key) refl in
      let there : C.get b'.cache key ≡ some entry =
        ap (λ (x : Buffer c C T). C.get x.cache key) after
        ∙ get-cache_set c K L now b key entry ready.0 ok in
      let i' = store_metric-IsCoherent c K L now uuid b s ready in
      let selected : contains tk (in_range b'.metric_index start end) ≡ true =
        contains-in_range L b'.metric_index start end tk i'.metrics.exact hs he below_max
        ∙ rw (present, listed, inside) (ground arith) in
      Any-metrics_of c b' tk (in_range b'.metric_index start end) entry s.metrics selected there
        (H.metrics s.metrics entry writes)
