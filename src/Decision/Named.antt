-- ===== src/Decision/Named.antt =====
-- The spans of the trace that a decision of internal/decision/engine.go names.
use otel_tail_sampler.Base.{
  ◌≡◌, refl, sym, ap, ◌∙◌, ◌≢◌, ℕ, false, some, List, [], ◌∷◌, inl, inr, Bool-cases,
}
use otel_tail_sampler.Base.Int.{ℤ}
use otel_tail_sampler.Base.Text.{eqb, eqb_iff, eqb_refl}
use otel_tail_sampler.Hex.{encode_to_string}
use otel_tail_sampler.Hex.RoundTrip.{encode_to_string-injective}
use otel_tail_sampler.Pdata.{Pcommon, Span, Traces}
use otel_tail_sampler.Config.{DecisionConfig}
use otel_tail_sampler.Gossip.{SamplingDecision}
use otel_tail_sampler.Decision.{is_empty_id, evaluate_trace}
use otel_tail_sampler.Decision.Policies.{spans}
use otel_tail_sampler.Decision.EventWindow.{
  first_id, first_id_iff, trigger_decision_window, trigger_decision_iff,
}
use otel_tail_sampler.Decision.Outcome.{evaluate_trace_iff}
use otel_tail_sampler.Buffer.Split.{no_id}
use otel_tail_sampler.Buffer.Split.Parts.{with_id}

module _ {P : Pcommon} where
  -- The trace that a decision names has spans in the batch that it was made on.
  first_id-with_id :
      (tid : List ℕ) (xs : List (Span P))
      → first_id P xs ≡ encode_to_string tid
      → first_id P xs ≢ []
      → (no_id tid ≡ false) × (s : Span P) × (rest : List (Span P)) × (with_id tid xs ≡ s ∷ rest)
  unfolding first_id with_id
  first_id-with_id tid [] e k = absurd (k refl)
  first_id-with_id tid (s ∷ xs) e k = elim (Bool-cases (is_empty_id s.trace_id)) [
    | inl empty ↦
        let (named, s', rest, has) = first_id-with_id tid xs (rw empty at e) (rw empty at k) in
        elim (Bool-cases (eqb s.trace_id tid)) [
          | inl same ↦ (named, s, with_id tid xs, rw (same, with_id) refl)
          | inr other ↦ (named, s', rest, rw (other, with_id) has)
        ]
    | inr full ↦
        let same : s.trace_id ≡ tid = encode_to_string-injective s.trace_id tid (rw full at e) in
        (
          ap is_empty_id (sym same) ∙ full,
          s,
          with_id tid xs,
          rw ((eqb_iff s.trace_id tid).1 same, with_id) refl,
        )
  ]

  -- The same for the decision of EvaluateTrace.
  pub evaluate_trace-with_id :
      (cfg : DecisionConfig) (now : ℤ) (t : Traces P) (d : SamplingDecision) (tid : List ℕ)
      → evaluate_trace P cfg now t ≡ some d
      → d.trace_id ≡ encode_to_string tid
      → (no_id tid ≡ false)
        × (s : Span P) × (rest : List (Span P)) × (with_id tid (spans P t) ≡ s ∷ rest)
  evaluate_trace-with_id cfg now t d tid decides names =
      let (p, first, triggers) = (evaluate_trace_iff P t cfg now d).0 decides in
      let (named, least, greatest) = trigger_decision_window P now t p.name d triggers in
      let some_id = (trigger_decision_iff P now t p.name).0 (λ e. cc) in
      first_id-with_id tid (spans P t) (sym named ∙ names)
        (λ e. cc (e, (first_id_iff P (spans P t)).1 some_id, eqb_refl []))
