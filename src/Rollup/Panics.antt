-- ===== src/Rollup/Panics.antt =====
-- Panics of RollupMetrics of internal/rollup/rollup.go, and the types of metrics.
use otel_tail_sampler.Base.{
  ℕ, ◌≡◌, refl, ◌∙◌, ap, sym, Bool, some, List, [], ◌∷◌, All, Bool-cases, inl, inr, not, ◌||◌,
}
use otel_tail_sampler.Base.Text.{GoString}
use otel_tail_sampler.Pdata.{
  Pcommon, Float64, ScopeItems, ResourceItems, MetricData, gauge, sum, other, NumberDataPoint,
  Metric, Metrics,
}
use otel_tail_sampler.Signals.{MetricSignal}
use otel_tail_sampler.Groups.{Groups, find}
use otel_tail_sampler.Groups.Safety.{IsKeyed, merge?-safe, add_all?-safe}
use otel_tail_sampler.Rollup.{CardinalityLevel, Rollup, is_fine, scope_key, attr_key}
use otel_tail_sampler.Rollup.MetricRollup.{
  rollup_metric_data, dispatch, copy_first, blank_metric, set_content, rollup_sum, rollup_gauge,
  merge_metrics, merge_metrics_list, merge_scope_items, merge_scope_metrics, rollup_metrics_loop,
  rollup_metrics,
}

-- The types of metrics; all but sums and gauges are one to the rollup.
pub data Kind : Type 0 where
  a_gauge a_sum an_other : Kind

module _ {P : Pcommon} {F : Float64} where
  abbrev pub HasKind : Kind → MetricData P F → Type 0
  HasKind k MetricData.empty = Unit
  HasKind k (gauge points) = k ≡ a_gauge
  HasKind k (sum mono temp points) = k ≡ a_sum
  HasKind k (other content) = k ≡ an_other

-- Metrics of the kinds that their names have.
module _ (P : Pcommon) (F : Float64) (kinds : GoString → Kind) where
  abbrev pub IsTyped : Metric P F → Type 0
  IsTyped m = HasKind (kinds m.name) m.content

  abbrev pub IsTypedScope : ScopeItems P (Metric P F) → Type 0
  IsTypedScope sm = All IsTyped sm.items

  abbrev pub IsTypedResource : ResourceItems P (Metric P F) → Type 0
  IsTypedResource rm = All IsTypedScope rm.scopes

  module _ (level : CardinalityLevel) where
    rollup_sum-safe :
        (k : Kind) (c : MetricData P F) (mono : Bool) (temp : ℕ)
        (points : List (NumberDataPoint P F))
        → k ≡ a_sum
        → HasKind k c
        → (d : MetricData P F) × (rollup_sum P F level c mono temp points ≡ some d) × HasKind k d
    rollup_sum-safe k MetricData.empty mono temp points h j = (_, refl, h)
    rollup_sum-safe k (sum m t qs) mono temp points h j = (_, refl, h)
    rollup_sum-safe k (gauge qs) mono temp points h j = cc
    rollup_sum-safe k (other x) mono temp points h j = cc

    rollup_gauge-safe :
        (k : Kind) (c : MetricData P F) (points : List (NumberDataPoint P F))
        → k ≡ a_gauge
        → HasKind k c
        → (d : MetricData P F) × (rollup_gauge P F level c points ≡ some d) × HasKind k d
    rollup_gauge-safe k MetricData.empty points h j = (_, refl, h)
    rollup_gauge-safe k (gauge qs) points h j = (_, refl, h)
    rollup_gauge-safe k (sum m t qs) points h j = cc
    rollup_gauge-safe k (other x) points h j = cc

    copy_first-safe :
        (a s : Metric P F) (c : MetricData P F)
        → IsTyped s
        → IsTyped a
        → a.name ≡ s.name
        → IsTyped (copy_first P F a c s) × ((copy_first P F a c s).name ≡ a.name)
    copy_first-safe a s MetricData.empty hs ha n = (hs, sym n)
    copy_first-safe a s (gauge x) hs ha n = (ha, refl)
    copy_first-safe a s (sum x y z) hs ha n = (ha, refl)
    copy_first-safe a s (other x) hs ha n = (ha, refl)

    dispatch-safe :
        (a s : Metric P F) (d : MetricData P F)
        → HasKind (kinds s.name) d
        → IsTyped s
        → IsTyped a
        → a.name ≡ s.name
        → (b : Metric P F) × (dispatch P F level a s d ≡ some b) × IsTyped b × (b.name ≡ a.name)
    dispatch-safe a s (sum mono temp points) h hs ha n =
        let (c, e, k) =
          rollup_sum-safe (kinds a.name) a.content mono temp points (ap kinds n ∙ h) ha in
        (set_content P F a c, rw e refl, k, refl)
    dispatch-safe a s (gauge points) h hs ha n =
        let (c, e, k) = rollup_gauge-safe (kinds a.name) a.content points (ap kinds n ∙ h) ha in
        (set_content P F a c, rw e refl, k, refl)
    dispatch-safe a s (other x) h hs ha n =
        let (t, m) = copy_first-safe a s a.content hs ha n in
        (copy_first P F a a.content s, refl, t, m)
    dispatch-safe a s MetricData.empty h hs ha n =
        let (t, m) = copy_first-safe a s a.content hs ha n in
        (copy_first P F a a.content s, refl, t, m)

    merge_metrics_list-safe :
        (dest src : List (Metric P F))
        → All IsTyped src
        → All IsTyped dest
        → (l : List (Metric P F)) × (merge_metrics_list P F level dest src ≡ some l) × All IsTyped l
    unfolding merge_metrics_list
    merge_metrics_list-safe =
        merge?-safe (λ m. m.name) (λ s. s.name) (rollup_metric_data P F level)
          (λ s. rollup_metric_data P F level (blank_metric P F s) s) IsTyped IsTyped
          (λ a s hs ha n. dispatch-safe a s s.content hs hs ha n)
          (λ s hs. dispatch-safe (blank_metric P F s) s s.content hs hs tt refl)

    merge_scope_items-safe :
        (a s : ScopeItems P (Metric P F))
        → IsTypedScope s
        → IsTypedScope a
        → (b : ScopeItems P (Metric P F)) × (merge_scope_items P F level a s ≡ some b)
          × IsTypedScope b
          × (b.scope ≡ a.scope)
    merge_scope_items-safe a s hs ha =
        let (l, e, h) = merge_metrics_list-safe a.items s.items hs ha in
        (record { scope = a.scope; items = l }, rw e refl, h, refl)

    merge_scope_metrics-safe :
        (a s : ResourceItems P (Metric P F))
        → IsTypedResource s
        → IsTypedResource a
        → (b : ResourceItems P (Metric P F)) × (merge_scope_metrics P F level a s ≡ some b)
          × IsTypedResource b
          × (b.resource ≡ a.resource)
    unfolding merge_scope_metrics
    merge_scope_metrics-safe a s hs ha =
        let key : ScopeItems P (Metric P F) → GoString = λ sm. scope_key sm.scope in
        let (l, e, h) =
          merge?-safe key key (merge_scope_items P F level)
            (λ sm. merge_scope_items P F level (record { scope = sm.scope; items = [] }) sm)
            IsTypedScope IsTypedScope
            (λ b t ht hb _.
              let (c, f, k, n) = merge_scope_items-safe b t ht hb in (c, f, k, ap scope_key n))
            (λ t ht.
              let (c, f, k, n) =
                merge_scope_items-safe (record { scope = t.scope; items = [] }) t ht tt in
              (c, f, k, ap scope_key n))
            a.scopes s.scopes hs ha in
        (record { resource = a.resource; scopes = l }, rw e refl, h, refl)

    abbrev resource_key : ResourceItems P (Metric P F) → GoString
    resource_key rm = attr_key P rm.resource.attributes

    rollup_metrics_loop-safe :
        (g : Groups (ResourceItems P (Metric P F))) (sigs : List (MetricSignal P F))
        → All (λ sig. All IsTypedResource sig.metrics) sigs
        → IsKeyed resource_key g
        → All IsTypedResource g.slice
        → (g' : Groups (ResourceItems P (Metric P F))) × (rollup_metrics_loop P F level g sigs
            ≡ some g')
    unfolding rollup_metrics_loop
    rollup_metrics_loop-safe g [] _ ix js = (g, refl)
    rollup_metrics_loop-safe g (sig ∷ sigs) (h, hs) ix js =
        let (g', e, ix', js') =
          add_all?-safe resource_key resource_key (merge_scope_metrics P F level)
            (λ rm.
              merge_scope_metrics P F level (record { resource = rm.resource; scopes = [] }) rm)
            IsTypedResource IsTypedResource
            (λ b t ht hb _.
              let (c, f, k, n) = merge_scope_metrics-safe b t ht hb in
              (c, f, k, ap (λ r. attr_key P r.attributes) n))
            (λ t ht.
              let (c, f, k, n) =
                merge_scope_metrics-safe (record { resource = t.resource; scopes = [] }) t ht tt in
              (c, f, k, ap (λ r. attr_key P r.attributes) n))
            g sig.metrics h ix js in
        let (g'', e') = rollup_metrics_loop-safe g' sigs hs ix' js' in
        (g'', rw (e, rollup_metrics_loop) e')

  -- RollupMetrics returns if the metrics of each name are all of one type.
  pub rollup_metrics-total :
      (p : Rollup) (signals : List (MetricSignal P F))
      → All (λ sig. All IsTypedResource sig.metrics) signals
      → (out : Metrics P F) × (rollup_metrics P F p signals ≡ some out)
  unfolding rollup_metrics
  rollup_metrics-total p signals hs =
      elim (Bool-cases (is_fine p.current_level || not p.cfg.enabled)) [
        | inl e ↦ (merge_metrics P F signals [], rw e refl)
        | inr e ↦
            let (g, f) =
              rollup_metrics_loop-safe p.current_level (record { slice = []; index = [] }) signals
                hs (λ k i h. unfold find in cc) tt in
            (g.slice, rw e (rw f refl))
      ]
