-- ===== src/Decision.antt =====
-- internal/decision/engine.go: the policies that decide on a trace, and the decision that is told to
-- the cluster. `broadcaster` is never nil in the program (cmd/server/main.go passes the gossip
-- manager); what it is given is the result, `none` where it is not called.
pub mod Policies
pub mod Extremes
pub mod EventWindow
pub mod Outcome
pub mod Named
pub mod Matching
use otel_tail_sampler.Base.{
  ℕ, ◌==◌, Bool, true, false, ◌&&◌, ◌||◌, not, Option, none, some, List, [], ◌∷◌, any,
  if◌then◌else◌,
}
use otel_tail_sampler.Base.Int.{ℤ, pos, negsuc, ◌-ℤ◌, ◌*ℤ◌, ltb_ℤ, eqb_ℤ, wrap64, saturate64}
use otel_tail_sampler.Base.Text.{GoString, codes, eqb}
use otel_tail_sampler.Hex.{encode_to_string}
use otel_tail_sampler.Config.{PolicyConfig, DecisionConfig}
use otel_tail_sampler.Pdata.{Pcommon, Span, StatusCode, error, ScopeItems, ResourceItems, Traces}
use otel_tail_sampler.Gossip.{SamplingDecision}

-- Timestamp.AsTime: the `uint64` is read as an `int64` of nanoseconds.
unfoldable pub as_time : ℕ → ℤ
as_time ts = wrap64 (pos ts)

-- The zero `time.Time`, the start of the year 1, as nanoseconds from the Unix epoch.
abbrev pub zero_time : ℤ
zero_time = negsuc 62135596799999999999

abbrev pub is_zero : ℤ → Bool
is_zero t = eqb_ℤ t zero_time

-- TraceID.IsEmpty: every byte is zero.
abbrev pub is_empty_id : List ℕ → Bool
is_empty_id id = not (any (λ b. not (b == 0)) id)

abbrev pub is_error : StatusCode → Bool
is_error error = true
is_error _ = false

-- Nanoseconds from the start of a span to its end.
unfoldable pub duration : {P : Pcommon} → Span P → ℤ
duration s = saturate64 (as_time s.end_timestamp -ℤ as_time s.start_timestamp)

-- The values that the scan of triggerDecision carries.
pub record Window : Type 0 where
  pub trace_id : GoString
  pub start : ℤ
  pub end : ℤ

abbrev pub no_window : Window
no_window = record { trace_id = []; start = zero_time; end = zero_time }

abbrev pub earliest : ℤ → ℤ → ℤ
earliest start t = if is_zero start || ltb_ℤ t start then t else start

abbrev pub latest : ℤ → ℤ → ℤ
latest end t = if is_zero end || ltb_ℤ end t then t else end

module _ (P : Pcommon) where
  -- The three loops over the spans of a trace, left at the first span that passes.
  abbrev pub any_span : (Span P → Bool) → Traces P → Bool
  any_span test = any (λ rs. any (λ ss. any test ss.items) rs.scopes)

  unfoldable pub check_error : Traces P → Bool
  check_error = any_span (λ s. is_error s.status)

  unfoldable pub check_latency : Traces P → ℤ → Bool
  check_latency t threshold =
      let threshold_ns = wrap64 (threshold *ℤ pos 1000000) in
      any_span (λ s. ltb_ℤ threshold_ns (duration s)) t

  abbrev pub has_value : GoString → Option P.Value → Bool
  has_value value none = false
  has_value value (some v) = eqb (P.str v) value

  unfoldable pub check_attribute : Traces P → GoString → GoString → Bool
  check_attribute t key value = any_span (λ s. has_value value (P.get s.attributes key)) t

  -- The switch on the policy's type.
  unfoldable pub matches : PolicyConfig → Traces P → Bool
  matches p t =
      if eqb p.kind (codes "error")
      then check_error t
      else if eqb p.kind (codes "latency")
      then check_latency t p.latency_threshold_ms
      else if eqb p.kind (codes "attribute")
      then check_attribute t p.attribute_key p.attribute_value
      else false

  -- One round of the innermost loop of triggerDecision.
  unfoldable pub widen : Window → Span P → Window
  widen w s = record {
    trace_id =
        if eqb w.trace_id [] && not (is_empty_id s.trace_id)
        then encode_to_string s.trace_id
        else w.trace_id;
    start = earliest w.start (as_time s.start_timestamp);
    end = latest w.end (as_time s.end_timestamp);
  }

  unfoldable pub scan_spans : Window → List (Span P) → Window
  scan_spans w [] = w
  scan_spans w (s ∷ spans) = scan_spans (widen w s) spans

  unfoldable pub scan_scopes : Window → List (ScopeItems P (Span P)) → Window
  scan_scopes w [] = w
  scan_scopes w (ss ∷ sss) = scan_scopes (scan_spans w ss.items) sss

  unfoldable pub scan_resources : Window → Traces P → Window
  scan_resources w [] = w
  scan_resources w (rs ∷ rss) = scan_resources (scan_scopes w rs.scopes) rss

  unfoldable pub trigger_decision : ℤ → Traces P → GoString → Option SamplingDecision
  trigger_decision now t reason =
      let w = scan_resources no_window t in
      if eqb w.trace_id []
      then none
      else some (record {
        trace_id = w.trace_id;
        reason = reason;
        decided_at = now;
        decided_by = codes "local";
        event_start = w.start;
        event_end = w.end;
      })

  -- The loop over the policies: the first that matches decides.
  unfoldable pub evaluate : ℤ → List PolicyConfig → Traces P → Option SamplingDecision
  evaluate now [] t = none
  evaluate now (p ∷ ps) t =
      let rest = evaluate now ps t in if matches p t then trigger_decision now t p.name else rest

  unfoldable pub evaluate_trace : DecisionConfig → ℤ → Traces P → Option SamplingDecision
  unfolding evaluate
  evaluate_trace cfg now t = evaluate now cfg.policies t
