-- ===== src/Tests/Decisions.antt =====
-- The theorems on the policies at a trace of one failed span of two seconds.
use otel_tail_sampler.Base.{◌≡◌, ◌≢◌, ◌↔◌, inl, refl, true, none, some, Any, All, arith}
use otel_tail_sampler.Base.Int.{pos, ◌*ℤ◌, wrap64}
use otel_tail_sampler.Base.Text.{codes, eqb}
use otel_tail_sampler.Hex.{encode_to_string}
use otel_tail_sampler.Pdata.Simple.{simple}
use otel_tail_sampler.Config.{PolicyConfig, default_config}
use otel_tail_sampler.Gossip.{SamplingDecision}
use otel_tail_sampler.Decision.Matching.{IsMatch, matches_iff}
use otel_tail_sampler.Decision.{
  matches, as_time, trigger_decision, evaluate_trace, scan_resources, scan_scopes, scan_spans,
  widen,
}
use otel_tail_sampler.Decision.Policies.{spans, IsTimely}
use otel_tail_sampler.Decision.EventWindow
use otel_tail_sampler.Decision.Extremes
use otel_tail_sampler.Decision.Outcome.{IsFirstMatch, evaluate_trace_iff, default_config_samples}
use otel_tail_sampler.Tests.Fixtures

timely : All (IsTimely simple) (spans simple Fixtures.spans)
unfolding spans
timely = ((omega arith, omega arith), tt)

abbrev attribute : PolicyConfig
attribute = record {
  name = codes "eve";
  kind = codes "attribute";
  latency_threshold_ms = pos 1500;
  attribute_key = codes "user";
  attribute_value = codes "eve";
}

matches_iff_example :
    (matches simple attribute Fixtures.spans ≡ true) ↔ IsMatch simple attribute Fixtures.spans
matches_iff_example =
    matches_iff simple attribute Fixtures.spans timely (unfold ◌*ℤ◌ in (omega arith, omega arith))

abbrev decision : SamplingDecision
decision = record {
  trace_id = codes "0a0102030405060708090a0b0c0d0eff";
  reason = codes "sample-all";
  decided_at = Fixtures.now;
  decided_by = codes "local";
  event_start = pos 1000000000;
  event_end = pos 3000000000;
}

trigger_decision_window_example :
    (decision.trace_id ≡ EventWindow.first_id simple (spans simple Fixtures.spans))
    × Extremes.IsLeast decision.event_start
        (EventWindow.starts simple (spans simple Fixtures.spans))
    × Extremes.IsGreatest decision.event_end (EventWindow.ends simple (spans simple Fixtures.spans))
unfolding trigger_decision eqb scan_resources scan_scopes scan_spans widen encode_to_string as_time
    wrap64
trigger_decision_window_example =
    EventWindow.trigger_decision_window simple Fixtures.now Fixtures.spans (codes "sample-all")
      decision refl

trigger_decision_iff_example :
    (trigger_decision simple Fixtures.now Fixtures.spans (codes "slow") ≢ none)
    ↔ Any (EventWindow.HasId simple) (spans simple Fixtures.spans)
trigger_decision_iff_example =
    EventWindow.trigger_decision_iff simple Fixtures.now Fixtures.spans (codes "slow")

evaluate_trace_iff_example :
    (evaluate_trace simple default_config.decision Fixtures.now Fixtures.spans ≡ some decision) ↔ (
      (p : PolicyConfig) × IsFirstMatch simple Fixtures.spans p default_config.decision.policies
      × (trigger_decision simple Fixtures.now Fixtures.spans p.name ≡ some decision))
evaluate_trace_iff_example =
    evaluate_trace_iff simple Fixtures.spans default_config.decision Fixtures.now decision

default_config_samples_example :
    evaluate_trace simple default_config.decision Fixtures.now Fixtures.spans ≢ none
unfolding spans
default_config_samples_example =
    default_config_samples simple Fixtures.spans Fixtures.now timely (inl refl) (inl (omega arith))
