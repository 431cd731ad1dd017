-- ===== src/Decision/Matching.antt =====
-- The switch on the type of a policy in EvaluateTrace of internal/decision/engine.go.
use otel_tail_sampler.Base.{◌≡◌, refl, sym, ◌∙◌, ◌↔◌, inl, inr, true, false, Any, All, Bool-cases}
use otel_tail_sampler.Base.Int.{pos, ◌*ℤ◌, ◌-ℤ◌, ◌<ℤ◌, IsInt64}
use otel_tail_sampler.Base.Text.{codes, eqb, eqb_iff}
use otel_tail_sampler.Config.{PolicyConfig}
use otel_tail_sampler.Pdata.{Pcommon, error, Traces}
use otel_tail_sampler.Decision.{check_error, check_latency, check_attribute, matches}
use otel_tail_sampler.Decision.Policies.{
  spans, HasValue, IsTimely, check_error_iff, check_latency_iff, check_attribute_iff,
}

module _ (P : Pcommon) (p : PolicyConfig) (t : Traces P) where
  -- What the policies look for.
  pub data IsMatch : Type 0 where
    by_error : p.kind ≡ codes "error" → Any (λ s. s.status ≡ error) (spans P t) → IsMatch
    by_latency :
        p.kind ≡ codes "latency"
        → Any
            (λ s.
              p.latency_threshold_ms *ℤ pos 1000000 <ℤ pos s.end_timestamp -ℤ pos s.start_timestamp)
            (spans P t)
        → IsMatch
    by_attribute :
        p.kind ≡ codes "attribute"
        → Any (HasValue P p.attribute_key p.attribute_value) (spans P t)
        → IsMatch

  matches-error : p.kind ≡ codes "error" → matches P p t ≡ check_error P t
  unfolding matches eqb
  matches-error h = rw h

  pub matches-latency :
      p.kind ≡ codes "latency" → matches P p t ≡ check_latency P t p.latency_threshold_ms
  unfolding matches eqb
  matches-latency h = rw h

  matches-attribute :
      p.kind ≡ codes "attribute"
      → matches P p t ≡ check_attribute P t p.attribute_key p.attribute_value
  unfolding matches eqb
  matches-attribute h = rw h

  matches_other :
      eqb p.kind (codes "error") ≡ false
      → eqb p.kind (codes "latency") ≡ false
      → eqb p.kind (codes "attribute") ≡ false
      → matches P p t ≡ false
  unfolding matches
  matches_other h k l = rw (h, k, l) refl

  -- A policy matches a trace exactly if it is of type "error" and some span has the status Error, or of
  -- type "latency" and some span takes longer than the threshold, or of type "attribute" and some span
  -- has the text under the key; for times before the year 2262 and a threshold whose nanoseconds are an
  -- `int64`.
  pub matches_iff :
      All (IsTimely P) (spans P t)
      → IsInt64 (p.latency_threshold_ms *ℤ pos 1000000)
      → (matches P p t ≡ true) ↔ IsMatch
  matches_iff timely fits =
      let failed = check_error_iff P t in
      let slow = check_latency_iff P t p.latency_threshold_ms timely fits in
      let valued = check_attribute_iff P t p.attribute_key p.attribute_value in
      (
        λ h. elim (Bool-cases (eqb p.kind (codes "error"))) [
          | inl e ↦
              let kind = (eqb_iff p.kind (codes "error")).0 e in
              by_error kind (failed.0 (sym (matches-error kind) ∙ h))
          | inr no_error ↦ elim (Bool-cases (eqb p.kind (codes "latency"))) [
            | inl e ↦
                let kind = (eqb_iff p.kind (codes "latency")).0 e in
                by_latency kind (slow.0 (sym (matches-latency kind) ∙ h))
            | inr no_latency ↦ elim (Bool-cases (eqb p.kind (codes "attribute"))) [
              | inl e ↦
                  let kind = (eqb_iff p.kind (codes "attribute")).0 e in
                  by_attribute kind (valued.0 (sym (matches-attribute kind) ∙ h))
              | inr no_attribute ↦ cc (h, matches_other no_error no_latency no_attribute)
            ]
          ]
        ],
        elim [
          | by_error kind a ↦ matches-error kind ∙ failed.1 a
          | by_latency kind a ↦ matches-latency kind ∙ slow.1 a
          | by_attribute kind a ↦ matches-attribute kind ∙ valued.1 a
        ],
      )
