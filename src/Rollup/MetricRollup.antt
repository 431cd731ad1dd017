-- ===== src/Rollup/MetricRollup.antt =====
-- Metrics in internal/rollup/rollup.go. A `none` stands for a panic: the accessors Sum and Gauge of
-- pdata give an invalid value for a metric of another type, and its use panics.
use mathlib.Core.Option
use otel_tail_sampler.Base.{
  ℕ, Bool, not, ◌||◌, Option, none, some, List, [], ◌∷◌, ◌++◌, if◌then◌else◌,
}
use otel_tail_sampler.Base.Int.{ℤ, pos, ◌+ℤ◌, wrap64}
use otel_tail_sampler.Pdata.{
  Pcommon, Float64, ScopeItems, ResourceItems, NumberValue, int, double, NumberDataPoint,
  MetricData, gauge, sum, Metric, Metrics,
}
use otel_tail_sampler.Signals.{MetricSignal}
use otel_tail_sampler.Groups.{Groups, merge, add_all?, merge?}
use otel_tail_sampler.Rollup.{
  CardinalityLevel, Rollup, apply_filtered_attributes, attr_key, filter_attributes_key, is_fine,
  scope_key,
}

module _ (P : Pcommon) (F : Float64) where
  -- IntValue and DoubleValue: zero for a point of another type.
  abbrev pub int_value : NumberValue F → ℤ
  int_value (int z) = z
  int_value _ = pos 0

  abbrev pub double_value : NumberValue F → F.Double
  double_value (double d) = d
  double_value _ = F.zero

  unfoldable pub add_values : NumberValue F → NumberValue F → NumberValue F
  add_values existing (int z) = int (wrap64 (int_value existing +ℤ z))
  add_values existing src = double (F.add (double_value existing) (double_value src))

  unfoldable pub aggregate : NumberDataPoint P F → NumberDataPoint P F → NumberDataPoint P F
  aggregate existing src = record existing { value = add_values existing.value src.value }

  unfoldable pub new_point : CardinalityLevel → NumberDataPoint P F → NumberDataPoint P F
  new_point level src = record {
    attributes = apply_filtered_attributes P level P.empty src.attributes;
    value = src.value;
  }

  unfoldable pub rollup_data_points :
      CardinalityLevel
      → List (NumberDataPoint P F)
      → List (NumberDataPoint P F)
      → List (NumberDataPoint P F)
  unfolding merge
  rollup_data_points level =
      merge (λ dp. filter_attributes_key P level dp.attributes) aggregate (new_point level)
        (λ dp. attr_key P dp.attributes)

  -- The switch on the source's type, on the destination's data.
  abbrev pub rollup_sum :
      CardinalityLevel
      → MetricData P F
      → Bool
      → ℕ
      → List (NumberDataPoint P F)
      → Option (MetricData P F)
  rollup_sum level MetricData.empty mono temp src =
      some (sum mono temp (rollup_data_points level [] src))
  rollup_sum level (sum mono' temp' dest) mono temp src =
      some (sum mono' temp' (rollup_data_points level dest src))
  rollup_sum level _ mono temp src = none

  abbrev pub rollup_gauge :
      CardinalityLevel → MetricData P F → List (NumberDataPoint P F) → Option (MetricData P F)
  rollup_gauge level MetricData.empty src = some (gauge (rollup_data_points level [] src))
  rollup_gauge level (gauge dest) src = some (gauge (rollup_data_points level dest src))
  rollup_gauge level _ src = none

  abbrev pub set_content : Metric P F → MetricData P F → Metric P F
  set_content dest c = record dest { content = c }

  -- The branch of unsupported types: the first occurrence is copied whole.
  abbrev pub copy_first : Metric P F → MetricData P F → Metric P F → Metric P F
  copy_first dest MetricData.empty src = src
  copy_first dest _ src = dest

  abbrev pub dispatch :
      CardinalityLevel → Metric P F → Metric P F → MetricData P F → Option (Metric P F)
  dispatch level dest src (sum mono temp points) =
      Option.map (set_content dest) (rollup_sum level dest.content mono temp points)
  dispatch level dest src (gauge points) =
      Option.map (set_content dest) (rollup_gauge level dest.content points)
  dispatch level dest src _ = some (copy_first dest dest.content src)

  unfoldable pub rollup_metric_data :
      CardinalityLevel → Metric P F → Metric P F → Option (Metric P F)
  rollup_metric_data level dest src = dispatch level dest src src.content

  -- AppendEmpty with the name, the description and the unit of the source.
  abbrev pub blank_metric : Metric P F → Metric P F
  blank_metric src = record {
    name = src.name;
    description = src.description;
    unit = src.unit;
    content = MetricData.empty;
  }

  unfoldable pub merge_metrics_list :
      CardinalityLevel → List (Metric P F) → List (Metric P F) → Option (List (Metric P F))
  unfolding merge? rollup_metric_data
  merge_metrics_list level =
      merge? (λ src. src.name) (rollup_metric_data level)
        (λ src. rollup_metric_data level (blank_metric src) src) (λ m. m.name)

  abbrev pub merge_scope_items :
      CardinalityLevel
      → ScopeItems P (Metric P F)
      → ScopeItems P (Metric P F)
      → Option (ScopeItems P (Metric P F))
  merge_scope_items level dest src =
      Option.map (λ ms. record { scope = dest.scope; items = ms })
        (merge_metrics_list level dest.items src.items)

  unfoldable pub merge_scope_metrics :
      CardinalityLevel
      → ResourceItems P (Metric P F)
      → ResourceItems P (Metric P F)
      → Option (ResourceItems P (Metric P F))
  unfolding merge? merge_metrics_list scope_key
  merge_scope_metrics level dest src =
      Option.map (λ sms. record { resource = dest.resource; scopes = sms })
        (merge? (λ sm. scope_key sm.scope) (merge_scope_items level)
          (λ sm. merge_scope_items level (record { scope = sm.scope; items = [] }) sm)
          (λ sm. scope_key sm.scope) dest.scopes src.scopes)

  -- The loop over the signals, with one map for all of them.
  unfoldable pub rollup_metrics_loop :
      CardinalityLevel
      → Groups (ResourceItems P (Metric P F))
      → List (MetricSignal P F)
      → Option (Groups (ResourceItems P (Metric P F)))
  unfolding add_all? merge_scope_metrics attr_key
  rollup_metrics_loop level g [] = some g
  rollup_metrics_loop level g (sig ∷ sigs) =
      elim (add_all? (λ rm. attr_key P rm.resource.attributes) (merge_scope_metrics level)
        (λ rm. merge_scope_metrics level (record { resource = rm.resource; scopes = [] }) rm) g
        sig.metrics) [ none ↦ none | some g' ↦ rollup_metrics_loop level g' sigs ]

  unfoldable pub merge_metrics : List (MetricSignal P F) → Metrics P F → Metrics P F
  merge_metrics [] out = out
  merge_metrics (sig ∷ sigs) out = merge_metrics sigs (out ++ sig.metrics)

  unfoldable pub rollup_metrics : Rollup → List (MetricSignal P F) → Option (Metrics P F)
  unfolding rollup_metrics_loop merge_metrics
  rollup_metrics p signals =
      if is_fine p.current_level || not p.cfg.enabled
      then some (merge_metrics signals [])
      else Option.map (λ g. g.slice)
          (rollup_metrics_loop p.current_level (record { slice = []; index = [] }) signals)
