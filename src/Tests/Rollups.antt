-- ===== src/Tests/Rollups.antt =====
-- The theorems on the rollup at points, metrics and log records of a shop.
use otel_tail_sampler.Base.{
  ◌≡◌, ◌%◌, ◌+◌, refl, true, none, some, inl, inr, List, [], ◌∷◌, ◌++◌, All,
}
use otel_tail_sampler.Base.Int.{pos, u64_mod}
use otel_tail_sampler.Base.Text.{codes}
use otel_tail_sampler.Pdata.{
  ScopeItems, Metrics, Metric, MetricData, gauge, sum, NumberDataPoint, NumberValue,
}
use otel_tail_sampler.Pdata.Simple.{simple, tenths, simple-IsLawful, text}
use otel_tail_sampler.Signals.{MetricSignal, LogSignal}
use otel_tail_sampler.Groups.Totals.{total}
use otel_tail_sampler.Rollup
use otel_tail_sampler.Rollup.MetricRollup
use otel_tail_sampler.Rollup.LogRollup
use otel_tail_sampler.Rollup.Counts.{counts_of, record_number, rollup_logs-counts}
use otel_tail_sampler.Rollup.Points.{
  HasKeys, IsInt, low_bits, rollup_data_points-total, rollup_data_points-batches,
}
use otel_tail_sampler.Rollup.Panics.{a_gauge, a_sum, rollup_metrics-total}
use otel_tail_sampler.Rollup.Conflicts.{rollup_metrics-clash}
use otel_tail_sampler.Tests.Fixtures

abbrev logs : List (LogSignal simple)
logs = Fixtures.log_signal ∷ Fixtures.log_signal ∷ []

rollup_logs-counts_example :
    total (counts_of simple) (LogRollup.rollup_logs simple Fixtures.medium logs) % u64_mod
    ≡ total (λ sig. total (record_number simple) sig.logs) logs % u64_mod
rollup_logs-counts_example =
    rollup_logs-counts simple simple-IsLawful Fixtures.medium logs refl refl

abbrev other_point : NumberDataPoint simple tenths
other_point = record {
  attributes = (codes "user_id", text (codes "7")) ∷ [];
  value = NumberValue.int (pos 5);
}

keyed : All (HasKeys simple tenths) (Fixtures.point ∷ other_point ∷ [])
keyed = ((tt, tt), ((tt, tt), tt))

rollup_data_points-total_example :
    All (IsInt simple tenths) (
      MetricRollup.rollup_data_points simple tenths Rollup.level_medium []
        (Fixtures.point ∷ other_point ∷ []))
    × (total (low_bits simple tenths) (
            MetricRollup.rollup_data_points simple tenths Rollup.level_medium []
              (Fixtures.point ∷ other_point ∷ []))
          % u64_mod
        ≡ (total (low_bits simple tenths) []
            + total (low_bits simple tenths) (Fixtures.point ∷ other_point ∷ []))
          % u64_mod)
rollup_data_points-total_example =
    rollup_data_points-total simple tenths simple-IsLawful Rollup.level_medium []
      (Fixtures.point ∷ other_point ∷ []) keyed tt ((pos 4, refl), ((pos 5, refl), tt))

rollup_data_points-batches_example :
    MetricRollup.rollup_data_points simple tenths Rollup.level_coarse
      (MetricRollup.rollup_data_points simple tenths Rollup.level_coarse []
        (Fixtures.point ∷ other_point ∷ []))
      (Fixtures.point ∷ [])
    ≡ MetricRollup.rollup_data_points simple tenths Rollup.level_coarse []
        ((Fixtures.point ∷ other_point ∷ []) ++ Fixtures.point ∷ [])
rollup_data_points-batches_example =
    rollup_data_points-batches simple tenths simple-IsLawful Rollup.level_coarse []
      (Fixtures.point ∷ other_point ∷ []) (Fixtures.point ∷ []) keyed

rollup_metrics-total_example :
    (out : Metrics simple tenths) × (MetricRollup.rollup_metrics simple tenths Fixtures.medium
        (Fixtures.metric_signal ∷ [])
      ≡ some out)
rollup_metrics-total_example =
    rollup_metrics-total simple tenths (λ name. a_gauge) Fixtures.medium
      (Fixtures.metric_signal ∷ []) ((((refl, tt), tt), tt), tt)

abbrev requests : MetricData simple tenths → Metric simple tenths
requests d = record { name = codes "requests"; description = []; unit = []; content = d }

abbrev mixed : ScopeItems simple (Metric simple tenths)
mixed = record {
  scope = Fixtures.scope;
  items =
      requests (gauge (Fixtures.point ∷ []))
      ∷ requests (gauge [])
      ∷ requests (sum true 2 (Fixtures.point ∷ []))
      ∷ [];
}

abbrev mixed_signal : MetricSignal simple tenths
mixed_signal = record Fixtures.metric_signal {
  metrics = record { resource = record { attributes = [] }; scopes = mixed ∷ [] } ∷ [];
}

rollup_metrics-clash_example :
    MetricRollup.rollup_metrics simple tenths Fixtures.medium
      (Fixtures.metric_signal ∷ mixed_signal ∷ [])
    ≡ none
rollup_metrics-clash_example =
    rollup_metrics-clash simple tenths Fixtures.medium (Fixtures.metric_signal ∷ mixed_signal ∷ [])
      refl (inr (inl (inl (inl (inl (inr (inl (a_gauge, a_sum, refl, refl, (λ e. cc), refl))))))))
