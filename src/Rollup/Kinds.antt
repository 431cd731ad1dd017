-- ===== src/Rollup/Kinds.antt =====
-- Gauges and sums in rollupMetricData of internal/rollup/rollup.go: which of both a merge leaves.
use mathlib.Core.Option.{some-injective}
use mathlib.Core.Path.{subst}
use otel_tail_sampler.Base.{
  ℕ, ◌≡◌, ◌≢◌, refl, ◌∙◌, ap, sym, Bool, Option, none, some, List, inl, inr, Option-cases,
}
use otel_tail_sampler.Pdata.{
  Pcommon, Float64, MetricData, gauge, sum, other, NumberDataPoint, Metric,
}
use otel_tail_sampler.Rollup.{CardinalityLevel}
use otel_tail_sampler.Rollup.MetricRollup.{dispatch, copy_first, rollup_sum, rollup_gauge}
use otel_tail_sampler.Rollup.Panics.{Kind, a_gauge, a_sum}

module _ {P : Pcommon} {F : Float64} where
  -- Whether a metric is a gauge or a sum, and which.
  abbrev pub number_kind : MetricData P F → Option Kind
  number_kind MetricData.empty = none
  number_kind (gauge points) = some a_gauge
  number_kind (sum mono temp points) = some a_sum
  number_kind (other content) = none

  -- A metric of the kind.
  abbrev pub KindIs : Kind → Metric P F → Type 0
  KindIs k m = number_kind m.content ≡ some k

module _ (P : Pcommon) (F : Float64) (level : CardinalityLevel) where
  rollup_sum-kind :
      (k : Kind) (c d : MetricData P F) (mono : Bool) (temp : ℕ)
      (points : List (NumberDataPoint P F))
      → number_kind c ≡ some k
      → rollup_sum P F level c mono temp points ≡ some d
      → number_kind d ≡ some k
  rollup_sum-kind k MetricData.empty d mono temp points j h = cc
  rollup_sum-kind k (sum m t qs) d mono temp points j h =
      ap number_kind (sym (some-injective _ _ h)) ∙ j
  rollup_sum-kind k (gauge qs) d mono temp points j h = cc
  rollup_sum-kind k (other x) d mono temp points j h = cc

  rollup_gauge-kind :
      (k : Kind) (c d : MetricData P F) (points : List (NumberDataPoint P F))
      → number_kind c ≡ some k
      → rollup_gauge P F level c points ≡ some d
      → number_kind d ≡ some k
  rollup_gauge-kind k MetricData.empty d points j h = cc
  rollup_gauge-kind k (gauge qs) d points j h = ap number_kind (sym (some-injective _ _ h)) ∙ j
  rollup_gauge-kind k (sum m t qs) d points j h = cc
  rollup_gauge-kind k (other x) d points j h = cc

  rollup_sum-own_kind :
      (c d : MetricData P F) (mono : Bool) (temp : ℕ) (points : List (NumberDataPoint P F))
      → rollup_sum P F level c mono temp points ≡ some d
      → number_kind d ≡ some a_sum
  rollup_sum-own_kind MetricData.empty d mono temp points h =
      ap number_kind (sym (some-injective _ _ h))
  rollup_sum-own_kind (sum m t qs) d mono temp points h =
      ap number_kind (sym (some-injective _ _ h))
  rollup_sum-own_kind (gauge qs) d mono temp points h = cc
  rollup_sum-own_kind (other x) d mono temp points h = cc

  rollup_gauge-own_kind :
      (c d : MetricData P F) (points : List (NumberDataPoint P F))
      → rollup_gauge P F level c points ≡ some d
      → number_kind d ≡ some a_gauge
  rollup_gauge-own_kind MetricData.empty d points h = ap number_kind (sym (some-injective _ _ h))
  rollup_gauge-own_kind (gauge qs) d points h = ap number_kind (sym (some-injective _ _ h))
  rollup_gauge-own_kind (sum m t qs) d points h = cc
  rollup_gauge-own_kind (other x) d points h = cc

  rollup_sum-clash :
      (k : Kind) (c : MetricData P F) (mono : Bool) (temp : ℕ) (points : List (NumberDataPoint P F))
      → number_kind c ≡ some k
      → k ≢ a_sum
      → rollup_sum P F level c mono temp points ≡ none
  rollup_sum-clash k MetricData.empty mono temp points j h = cc
  rollup_sum-clash k (sum m t qs) mono temp points j h = elim (h (sym (some-injective _ _ j))) [ ]
  rollup_sum-clash k (gauge qs) mono temp points j h = refl
  rollup_sum-clash k (other x) mono temp points j h = refl

  rollup_gauge-clash :
      (k : Kind) (c : MetricData P F) (points : List (NumberDataPoint P F))
      → number_kind c ≡ some k
      → k ≢ a_gauge
      → rollup_gauge P F level c points ≡ none
  rollup_gauge-clash k MetricData.empty points j h = cc
  rollup_gauge-clash k (gauge qs) points j h = elim (h (sym (some-injective _ _ j))) [ ]
  rollup_gauge-clash k (sum m t qs) points j h = refl
  rollup_gauge-clash k (other x) points j h = refl

  copy_first-kept :
      (k : Kind) (a s : Metric P F) (c : MetricData P F)
      → number_kind c ≡ some k
      → copy_first P F a c s ≡ a
  copy_first-kept k a s MetricData.empty h = cc
  copy_first-kept k a s (gauge points) h = refl
  copy_first-kept k a s (sum mono temp points) h = refl
  copy_first-kept k a s (other x) h = refl

  pub dispatch-kind :
      (k : Kind) (a b s : Metric P F) (d : MetricData P F)
      → KindIs k a
      → dispatch P F level a s d ≡ some b
      → KindIs k b
  dispatch-kind k a b s (sum mono temp points) j h =
      elim (Option-cases (rollup_sum P F level a.content mono temp points)) [
        | inl fails ↦ let e = rw fails at h in cc
        | inr (c, done) ↦
            subst (KindIs k) (some-injective _ _ (rw done at h))
              (rollup_sum-kind k a.content c mono temp points j done)
      ]
  dispatch-kind k a b s (gauge points) j h =
      elim (Option-cases (rollup_gauge P F level a.content points)) [
        | inl fails ↦ let e = rw fails at h in cc
        | inr (c, done) ↦
            subst (KindIs k) (some-injective _ _ (rw done at h))
              (rollup_gauge-kind k a.content c points j done)
      ]
  dispatch-kind k a b s (other x) j h =
      subst (KindIs k) (sym (copy_first-kept k a s a.content j) ∙ some-injective _ _ h) j
  dispatch-kind k a b s MetricData.empty j h =
      subst (KindIs k) (sym (copy_first-kept k a s a.content j) ∙ some-injective _ _ h) j

  pub dispatch-own_kind :
      (k : Kind) (a b s : Metric P F) (d : MetricData P F)
      → number_kind d ≡ some k
      → dispatch P F level a s d ≡ some b
      → KindIs k b
  dispatch-own_kind k a b s (sum mono temp points) j h =
      elim (Option-cases (rollup_sum P F level a.content mono temp points)) [
        | inl fails ↦ let e = rw fails at h in cc
        | inr (c, done) ↦
            subst (KindIs k) (some-injective _ _ (rw done at h))
              (rollup_sum-own_kind a.content c mono temp points done ∙ j)
      ]
  dispatch-own_kind k a b s (gauge points) j h =
      elim (Option-cases (rollup_gauge P F level a.content points)) [
        | inl fails ↦ let e = rw fails at h in cc
        | inr (c, done) ↦
            subst (KindIs k) (some-injective _ _ (rw done at h))
              (rollup_gauge-own_kind a.content c points done ∙ j)
      ]
  dispatch-own_kind k a b s (other x) j h = cc
  dispatch-own_kind k a b s MetricData.empty j h = cc

  pub dispatch-clash :
      (k l : Kind) (a s : Metric P F) (d : MetricData P F)
      → KindIs k a
      → number_kind d ≡ some l
      → k ≢ l
      → dispatch P F level a s d ≡ none
  dispatch-clash k l a s (sum mono temp points) j i h =
      rw (rollup_sum-clash k a.content mono temp points j (λ e. h (e ∙ some-injective _ _ i))) refl
  dispatch-clash k l a s (gauge points) j i h =
      rw (rollup_gauge-clash k a.content points j (λ e. h (e ∙ some-injective _ _ i))) refl
  dispatch-clash k l a s (other x) j i h = cc
  dispatch-clash k l a s MetricData.empty j i h = cc
