-- ===== src/Rollup/Conflicts.antt =====
-- Gauges and sums of one name in RollupMetrics of internal/rollup/rollup.go.
use otel_tail_sampler.Base.{
  ◌≡◌, ◌≢◌, refl, false, not, ◌||◌, Option, none, some, List, [], ◌∷◌, ◌⊎◌, inl, inr, Option-cases,
}
use otel_tail_sampler.Base.Text.{GoString}
use otel_tail_sampler.Pdata.{Pcommon, Float64, ScopeItems, ResourceItems, Metric}
use otel_tail_sampler.Signals.{MetricSignal}
use otel_tail_sampler.Groups.{Groups, start, add?, add_all?, find}
use otel_tail_sampler.Groups.Slots.{
  HasSlot, InRange, start-InRange, add?-own_HasSlot, add?-InRange, add_all?-InRange,
}
use otel_tail_sampler.Groups.Failures.{Any, add_all?-bad, add_all?-slot_fails}
use otel_tail_sampler.Rollup.{CardinalityLevel, Rollup, is_fine, scope_key, attr_key}
use otel_tail_sampler.Rollup.MetricRollup.{
  rollup_metric_data, blank_metric, merge_metrics_list, merge_scope_items, merge_scope_metrics,
  rollup_metrics_loop, rollup_metrics,
}
use otel_tail_sampler.Rollup.Panics.{Kind}
use otel_tail_sampler.Rollup.Kinds.{
  number_kind, KindIs, dispatch-kind, dispatch-own_kind, dispatch-clash,
}

module _ {P : Pcommon} {F : Float64} where
  -- A gauge and a sum, in one order or the other, of the same name.
  abbrev pub IsClash : Metric P F → Metric P F → Type 0
  IsClash m s =
      (k : Kind) × (l : Kind) × (number_kind m.content ≡ some k)
      × (number_kind s.content ≡ some l)
      × (k ≢ l)
      × (s.name ≡ m.name)

  -- Two metrics of a list clash, whatever is between them.
  abbrev pub HasClash : List (Metric P F) → Type 0
  HasClash [] = ⊥
  HasClash (m ∷ ms) = Any (λ s. IsClash m s) ms ⊎ HasClash ms

  -- The scopes with two metrics that clash, and the resources with such a scope.
  abbrev pub ClashingScope : ScopeItems P (Metric P F) → Type 0
  ClashingScope sm = HasClash sm.items

  abbrev pub ClashingResource : ResourceItems P (Metric P F) → Type 0
  ClashingResource rm = Any ClashingScope rm.scopes

module _ (P : Pcommon) (F : Float64) (level : CardinalityLevel) where
  -- The metrics that clash with one of kind k.
  abbrev ClashesWith : Kind → Metric P F → Type 0
  ClashesWith k s = (l : Kind) × (number_kind s.content ≡ some l) × (k ≢ l)

  kind_of_clash :
      (m : Metric P F) (ms : List (Metric P F))
      → Any (λ s. IsClash m s) ms
      → (k : Kind) × KindIs k m × Any (λ s. ClashesWith k s × (s.name ≡ m.name)) ms
  kind_of_clash m [] clash = elim clash [ ]
  kind_of_clash m (s ∷ ms) (inl (k, l, h, i, n, e)) = (k, h, inl ((l, i, n), e))
  kind_of_clash m (s ∷ ms) (inr later) =
      let (k, h, rest) = kind_of_clash m ms later in (k, h, inr rest)

  merge_all-HasClash :
      (g : Groups (Metric P F)) (ms : List (Metric P F))
      → InRange g
      → HasClash ms
      → add_all?
          (λ src. src.name)
          (rollup_metric_data P F level)
          (λ src. rollup_metric_data P F level (blank_metric P F src) src)
          g
          ms
        ≡ none
  unfolding add_all? rollup_metric_data
  merge_all-HasClash g [] ranges clash = elim clash [ ]
  merge_all-HasClash g (m ∷ ms) ranges clash =
      let join = rollup_metric_data P F level in
      let fresh : Metric P F → Option (Metric P F) = λ src. join (blank_metric P F src) src in
      elim (Option-cases (add? (λ src. src.name) join fresh g m)) [
        | inl fails ↦ rw (fails, add_all?) refl
        | inr (g1, done) ↦
            rw (done, add_all?)
              (elim clash [
                | inl first ↦
                    let (k, is, rest) = kind_of_clash m ms first in
                    let slot : HasSlot (KindIs k) g1 m.name =
                      add?-own_HasSlot (λ (src : Metric P F). src.name) join fresh (KindIs k) g g1 m
                        (λ a b h. dispatch-own_kind P F level k a b m m.content is h)
                        (λ b h.
                          dispatch-own_kind P F level k (blank_metric P F m) b m m.content is h)
                        ranges done in
                    add_all?-slot_fails (λ src. src.name) join fresh (KindIs k) (ClashesWith k)
                      m.name
                      (λ a b src kind h. dispatch-kind P F level k a b src src.content kind h)
                      (λ a src bad kind.
                        dispatch-clash P F level k bad.0 a src src.content kind bad.1 bad.2)
                      g1 ms slot rest
                | inr later ↦
                    merge_all-HasClash g1 ms
                      (add?-InRange (λ src. src.name) join fresh g g1 m done ranges) later
              ])
      ]

  merge_metrics_list-HasClash :
      (dest src : List (Metric P F)) → HasClash src → merge_metrics_list P F level dest src ≡ none
  unfolding merge_metrics_list
  merge_metrics_list-HasClash dest src clash =
      let key : Metric P F → GoString = λ m. m.name in
      rw (merge_all-HasClash (start key dest) src (start-InRange key dest) clash) refl

  merge_scope_items-ClashingScope :
      (a sm : ScopeItems P (Metric P F))
      → ClashingScope sm
      → merge_scope_items P F level a sm ≡ none
  merge_scope_items-ClashingScope a sm clash =
      rw (merge_metrics_list-HasClash a.items sm.items clash) refl

  merge_scope_metrics-ClashingResource :
      (a rm : ResourceItems P (Metric P F))
      → ClashingResource rm
      → merge_scope_metrics P F level a rm ≡ none
  unfolding merge_scope_metrics
  merge_scope_metrics-ClashingResource a rm clash =
      let key : ScopeItems P (Metric P F) → GoString = λ sm. scope_key sm.scope in
      let fails =
        add_all?-bad key (merge_scope_items P F level)
          (λ sm. merge_scope_items P F level (record { scope = sm.scope; items = [] }) sm)
          ClashingScope merge_scope_items-ClashingScope
          (λ sm bad.
            merge_scope_items-ClashingScope (record { scope = sm.scope; items = [] }) sm bad)
          (start key a.scopes) rm.scopes (start-InRange key a.scopes) clash in
      rw fails refl

  rollup_metrics_loop-clash :
      (g : Groups (ResourceItems P (Metric P F))) (sigs : List (MetricSignal P F))
      → InRange g
      → Any (λ sig. Any ClashingResource sig.metrics) sigs
      → rollup_metrics_loop P F level g sigs ≡ none
  unfolding rollup_metrics_loop
  rollup_metrics_loop-clash g [] ranges clash = elim clash [ ]
  rollup_metrics_loop-clash g (sig ∷ sigs) ranges (inl clash) =
      let key : ResourceItems P (Metric P F) → GoString = λ rm. attr_key P rm.resource.attributes in
      let fails =
        add_all?-bad key (merge_scope_metrics P F level)
          (λ rm. merge_scope_metrics P F level (record { resource = rm.resource; scopes = [] }) rm)
          ClashingResource merge_scope_metrics-ClashingResource
          (λ rm bad.
            merge_scope_metrics-ClashingResource (record { resource = rm.resource; scopes = [] }) rm
              bad)
          g sig.metrics ranges clash in
      rw (fails, rollup_metrics_loop) refl
  rollup_metrics_loop-clash g (sig ∷ sigs) ranges (inr later) =
      let key : ResourceItems P (Metric P F) → GoString = λ rm. attr_key P rm.resource.attributes in
      let fresh : ResourceItems P (Metric P F) → Option (ResourceItems P (Metric P F)) =
        λ rm. merge_scope_metrics P F level (record { resource = rm.resource; scopes = [] }) rm in
      elim (Option-cases (add_all? key (merge_scope_metrics P F level) fresh g sig.metrics)) [
        | inl fails ↦ rw (fails, rollup_metrics_loop) refl
        | inr (g1, done) ↦
            rw (done, rollup_metrics_loop)
              (rollup_metrics_loop-clash g1 sigs
                (add_all?-InRange key (merge_scope_metrics P F level) fresh g g1 sig.metrics done
                  ranges)
                later)
      ]

module _ (P : Pcommon) (F : Float64) where
  -- RollupMetrics panics, where it merges at all, whenever some scope of some resource of some signal
  -- has a gauge and a sum of the same name, in either order and with any metrics in between.
  pub rollup_metrics-clash :
      (p : Rollup) (signals : List (MetricSignal P F))
      → (is_fine p.current_level || not p.cfg.enabled) ≡ false
      → Any (λ sig. Any ClashingResource sig.metrics) signals
      → rollup_metrics P F p signals ≡ none
  unfolding rollup_metrics find
  rollup_metrics-clash p signals merges clash =
      let fails =
        rollup_metrics_loop-clash P F p.current_level (record { slice = []; index = [] }) signals
          (λ k i h. cc) clash in
      rw (merges, rollup_metrics, fails) refl
