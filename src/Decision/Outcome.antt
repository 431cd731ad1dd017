-- ===== src/Decision/Outcome.antt =====
-- What EvaluateTrace of internal/decision/engine.go decides over a list of policies, and what the
-- default configuration samples.
use otel_tail_sampler.Base.{
  ◌≤◌, ◌≡◌, refl, ◌↔◌, ◌≢◌, inl, inr, true, false, none, some, List, [], ◌∷◌, Any, All, arith,
  Bool-cases,
}
use otel_tail_sampler.Base.Int.{ℤ, pos, negsuc, ◌*ℤ◌, ◌-ℤ◌, ◌<ℤ◌}
use otel_tail_sampler.Config.{PolicyConfig, DecisionConfig, default_config, sample_all}
use otel_tail_sampler.Pdata.{Pcommon, Span, Traces}
use otel_tail_sampler.Gossip.{SamplingDecision}
use otel_tail_sampler.Decision.{matches, check_latency, trigger_decision, evaluate, evaluate_trace}
use otel_tail_sampler.Decision.Policies.{spans, IsTimely, check_latency_iff}
use otel_tail_sampler.Decision.Matching.{matches-latency}
use otel_tail_sampler.Decision.EventWindow.{HasId, trigger_decision_iff}

Any-map :
    {A : Type 0} (Q R : A → Type 0) → ((x : A) → Q x → R x) → (xs : List A) → Any Q xs → Any R xs
Any-map Q R f [] a = a
Any-map Q R f (x ∷ xs) (inl q) = inl (f x q)
Any-map Q R f (x ∷ xs) (inr a) = inr (Any-map Q R f xs a)

module _ (P : Pcommon) (t : Traces P) where
  -- The first policy of the list that matches the trace.
  pub data IsFirstMatch (p : PolicyConfig) : List PolicyConfig → Type 0 where
    here : {ps : List PolicyConfig} → matches P p t ≡ true → IsFirstMatch p (p ∷ ps)
    there :
        {q : PolicyConfig} {ps : List PolicyConfig}
        → matches P q t ≡ false
        → IsFirstMatch p ps
        → IsFirstMatch p (q ∷ ps)

  evaluate_sound :
      (now : ℤ) (ps : List PolicyConfig) (d : SamplingDecision)
      → evaluate P now ps t ≡ some d
      → (p : PolicyConfig) × IsFirstMatch p ps × (trigger_decision P now t p.name ≡ some d)
  unfolding evaluate
  evaluate_sound now [] d h = cc
  evaluate_sound now (p ∷ ps) d h = elim (Bool-cases (matches P p t)) [
    | inl e ↦ (p, here e, rw e at h)
    | inr e ↦ let (q, f, g) = evaluate_sound now ps d (rw e at h) in (q, there e f, g)
  ]

  evaluate_complete :
      (now : ℤ) (d : SamplingDecision) (p : PolicyConfig) {ps : List PolicyConfig}
      → IsFirstMatch p ps
      → trigger_decision P now t p.name ≡ some d
      → evaluate P now ps t ≡ some d
  unfolding evaluate
  evaluate_complete now d p (here e) g = rw e g
  evaluate_complete now d p (there e f) g = rw e (evaluate_complete now d p f g)

  -- The decision on a trace is the one that the first matching policy triggers, under its name.
  pub evaluate_trace_iff :
      (cfg : DecisionConfig) (now : ℤ) (d : SamplingDecision)
      → (evaluate_trace P cfg now t ≡ some d) ↔ (
          (p : PolicyConfig) × IsFirstMatch p cfg.policies
          × (trigger_decision P now t p.name ≡ some d))
  unfolding evaluate_trace
  evaluate_trace_iff cfg now d =
      (evaluate_sound now cfg.policies d, λ (p, f, g). evaluate_complete now d p f g)

  -- The default configuration samples every trace that has a trace ID and a span which does not end
  -- before it starts, if all times are before the year 2262.
  pub default_config_samples :
      (now : ℤ)
      → All (IsTimely P) (spans P t)
      → Any (HasId P) (spans P t)
      → Any (λ s. s.start_timestamp ≤ s.end_timestamp) (spans P t)
      → evaluate_trace P default_config.decision now t ≢ none
  unfolding evaluate_trace evaluate default_config
  default_config_samples now timely named forward =
      rw (matches-latency P sample_all t refl, slow)
        ((trigger_decision_iff P now t sample_all.name).1 named)
    where
      slow : check_latency P t (negsuc 0) ≡ true
      slow = (check_latency_iff P t (negsuc 0) timely (unfold ◌*ℤ◌ in omega arith)).1 (
          Any-map {A = Span P} (λ s. s.start_timestamp ≤ s.end_timestamp)
            (λ s. negsuc 0 *ℤ pos 1000000 <ℤ pos s.end_timestamp -ℤ pos s.start_timestamp)
            (λ s h. unfold ◌*ℤ◌ ◌-ℤ◌ in ground arith) (spans P t) forward)
