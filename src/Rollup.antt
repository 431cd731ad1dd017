-- ===== src/Rollup.antt =====
-- internal/rollup/rollup.go: the level, and the keys by which metrics and logs are merged at it.
pub mod MetricRollup
pub mod LogRollup
pub mod Points
pub mod Counts
pub mod Panics
pub mod Kinds
pub mod Conflicts
use mathlib.Core.Option
use otel_tail_sampler.Base.{
  ℕ, ◌+◌, Bool, true, false, not, ◌&&◌, ◌||◌, Option, none, some, List, [], ◌∷◌, ◌++◌, length, take,
  ltb, if◌then◌else◌,
}
use otel_tail_sampler.Base.Int.{ℤ, pos, ◌+ℤ◌, wrap64}
use otel_tail_sampler.Base.Text.{GoString, codes, eqb, format_int}
use otel_tail_sampler.Config.{RollupConfig}
use otel_tail_sampler.Pdata.{
  Pcommon, Float64, Resource, Scope, ScopeItems, ResourceItems, LogRecord, NumberValue, int, double,
  NumberDataPoint, MetricData, gauge, sum, other, Metric, Logs, Metrics,
}
use otel_tail_sampler.Signals.{MetricSignal, LogSignal}
use otel_tail_sampler.Groups.{Groups, start, add_all, merge, add_all?, merge?}

pub data CardinalityLevel : Type 0 where
  level_fine level_medium level_coarse : CardinalityLevel

abbrev pub is_fine : CardinalityLevel → Bool
is_fine level_fine = true
is_fine _ = false

abbrev pub is_coarse : CardinalityLevel → Bool
is_coarse level_coarse = true
is_coarse _ = false

-- The struct Processor without its mutex.
pub record Rollup : Type 0 where
  pub cfg : RollupConfig
  pub current_level : CardinalityLevel

unfoldable pub new : RollupConfig → Rollup
new cfg = record { cfg = cfg; current_level = level_fine }

unfoldable pub set_level : Rollup → CardinalityLevel → Rollup
set_level p level = record p { current_level = level }

abbrev pub allowed : GoString → Bool
allowed k =
    eqb k (codes "http.method") || (eqb k (codes "http.status_code") || eqb k (codes "error"))

unfoldable pub scope_key : {P : Pcommon} → Scope P → GoString
scope_key is = is.name ++ is.version

module _ (P : Pcommon) where
  -- "%s=%s;"
  abbrev pub pair_text : GoString → P.Value → GoString
  pair_text k v = k ++ (b'=' ∷ (P.as_string v ++ (b';' ∷ [])))

  unfoldable pub text_of : List (GoString × P.Value) → GoString → GoString
  text_of [] res = res
  text_of ((k, v) ∷ l) res = text_of l (res ++ pair_text k v)

  unfoldable pub attr_key : P.Map → GoString
  unfolding text_of
  attr_key attrs = text_of (P.range attrs) []

  unfoldable pub filtered_text_of : List (GoString × P.Value) → GoString → GoString
  filtered_text_of [] res = res
  filtered_text_of ((k, v) ∷ l) res =
      filtered_text_of l (if allowed k then res ++ pair_text k v else res)

  unfoldable pub filter_attributes_key : CardinalityLevel → P.Map → GoString
  unfolding filtered_text_of
  filter_attributes_key level_coarse attrs = []
  filter_attributes_key level attrs = filtered_text_of (P.range attrs) []

  unfoldable pub copy_allowed : List (GoString × P.Value) → P.Map → P.Map
  copy_allowed [] dest = dest
  copy_allowed ((k, v) ∷ l) dest = copy_allowed l (if allowed k then P.put dest k v else dest)

  unfoldable pub apply_filtered_attributes : CardinalityLevel → P.Map → P.Map → P.Map
  unfolding copy_allowed
  apply_filtered_attributes level_coarse dest src = dest
  apply_filtered_attributes level dest src = copy_allowed (P.range src) dest
