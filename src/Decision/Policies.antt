-- ===== src/Decision/Policies.antt =====
-- What the checks of internal/decision/engine.go decide, as conditions on the spans of a trace.
use otel_tail_sampler.Base.{
  ◌<◌, ◌≡◌, refl, ◌↔◌, ◌⊎◌, inl, inr, Bool, true, false, ◌||◌, Option, none, some, List, [], ◌∷◌,
  ◌++◌, any, Any, All, arith,
}
use otel_tail_sampler.Base.Int.{
  ℤ, pos, ◌-ℤ◌, ◌*ℤ◌, ◌<ℤ◌, ltb_ℤ, IsInt64, wrap64_id, saturate64_id, i64_half,
}
use otel_tail_sampler.Base.Text.{GoString, eqb_iff}
use otel_tail_sampler.Pdata.{Pcommon, Span, StatusCode, error, ScopeItems, Traces}
use otel_tail_sampler.Decision.{
  as_time, duration, any_span, check_error, check_latency, check_attribute, has_value, is_error,
}

module _ {A : Type 0} where
  any-append : (p : A → Bool) (xs ys : List A) → any p (xs ++ ys) ≡ (any p xs || any p ys)
  any-append p [] ys = refl
  any-append p (x ∷ xs) ys = ground (arith, any-append p xs ys)

  -- A test that decides `Q` where `R` holds, over a list on which `R` holds.
  pub any_iff :
      (p : A → Bool) (Q R : A → Type 0)
      → ((x : A) → R x → (p x ≡ true) ↔ Q x)
      → (xs : List A) → All R xs
      → (any p xs ≡ true) ↔ Any Q xs
  any_iff p Q R h [] _ = (λ e. cc, λ e. absurd e)
  any_iff p Q R h (x ∷ xs) (r, rs) = step (p x) (any p xs) (h x r) (any_iff p Q R h xs rs)
    where
      step :
          (a b : Bool)
          → (a ≡ true) ↔ Q x
          → (b ≡ true) ↔ Any Q xs
          → ((a || b) ≡ true) ↔ (Q x ⊎ Any Q xs)
      step true b e f = (λ _. inl (e.0 refl), λ _. refl)
      step false b e f = (λ g. inr (f.0 g), elim [ inl q ↦ cc (e.1 q) | inr q ↦ f.1 q ])

  All-Unit : (xs : List A) → All (λ x. Unit {0}) xs
  All-Unit [] = tt
  All-Unit (x ∷ xs) = (tt, All-Unit xs)

module _ (P : Pcommon) where
  unfoldable pub scope_spans : List (ScopeItems P (Span P)) → List (Span P)
  scope_spans [] = []
  scope_spans (ss ∷ sss) = ss.items ++ scope_spans sss

  -- The spans of a trace in the order in which the loops meet them.
  unfoldable pub spans : Traces P → List (Span P)
  unfolding scope_spans
  spans [] = []
  spans (rs ∷ rss) = scope_spans rs.scopes ++ spans rss

  any-scope_spans :
      (test : Span P → Bool) (sss : List (ScopeItems P (Span P)))
      → any (λ ss. any test ss.items) sss ≡ any test (scope_spans sss)
  unfolding scope_spans
  any-scope_spans test [] = refl
  any-scope_spans test (ss ∷ sss) =
      rw (any-append test ss.items (scope_spans sss), any-scope_spans test sss)

  -- The three nested loops are one loop over all spans.
  pub any_span-eq-any :
      (test : Span P → Bool) (t : Traces P) → any_span P test t ≡ any test (spans t)
  unfolding spans
  any_span-eq-any test [] = refl
  any_span-eq-any test (rs ∷ rss) = rw (
    any-append test (scope_spans rs.scopes) (spans rss),
    any-scope_spans test rs.scopes,
    any_span-eq-any test rss,
  )

  any_span_iff :
      (test : Span P → Bool) (Q R : Span P → Type 0)
      → ((s : Span P) → R s → (test s ≡ true) ↔ Q s)
      → (t : Traces P) → All R (spans t)
      → (any_span P test t ≡ true) ↔ Any Q (spans t)
  any_span_iff test Q R h t rs = rw (any_span-eq-any test t) (any_iff test Q R h (spans t) rs)

  is_error_iff : (c : StatusCode) → (is_error c ≡ true) ↔ (c ≡ error)
  is_error_iff StatusCode.unset = (λ e. cc, λ e. cc)
  is_error_iff StatusCode.ok = (λ e. cc, λ e. cc)
  is_error_iff error = (λ e. refl, λ e. refl)

  -- The error check passes exactly for a trace with a span of status Error.
  pub check_error_iff :
      (t : Traces P) → (check_error P t ≡ true) ↔ Any (λ s. s.status ≡ error) (spans t)
  unfolding check_error
  check_error_iff t =
      any_span_iff _ _ (λ s. Unit {0}) (λ s _. is_error_iff s.status) t (All-Unit (spans t))

  abbrev pub HasValue : GoString → GoString → Span P → Type 0
  HasValue key value s = (v : P.Value) × (P.get s.attributes key ≡ some v) × (P.str v ≡ value)

  has_value_iff :
      (value : GoString) (o : Option P.Value)
      → (has_value P value o ≡ true) ↔ ((v : P.Value) × (o ≡ some v) × (P.str v ≡ value))
  has_value_iff value none = (λ e. cc, λ (v, e, _). cc)
  has_value_iff value (some w) =
      (λ e. (w, refl, (eqb_iff _ _).0 e), λ (v, e, s). ground (arith, eqb_iff (P.str w) value))

  -- The attribute check passes exactly for a trace with a span whose attribute has the text.
  pub check_attribute_iff :
      (t : Traces P) (key value : GoString)
      → (check_attribute P t key value ≡ true) ↔ Any (HasValue key value) (spans t)
  unfolding check_attribute
  check_attribute_iff t key value =
      any_span_iff _ _ (λ s. Unit {0}) (λ s _. has_value_iff value (P.get s.attributes key)) t
        (All-Unit (spans t))

  -- Times that an `int64` of nanoseconds holds: up to the year 2262.
  abbrev pub IsTimely : Span P → Type 0
  IsTimely s = (s.start_timestamp < i64_half) × (s.end_timestamp < i64_half)

  duration_lem :
      (s : Span P) → IsTimely s → duration s ≡ pos s.end_timestamp -ℤ pos s.start_timestamp
  unfolding duration as_time
  duration_lem s (hs, he) =
      rw
        (
          wrap64_id (pos s.end_timestamp) (omega arith),
          wrap64_id (pos s.start_timestamp) (omega arith),
        )
        (saturate64_id _ (unfold ◌-ℤ◌ in ground arith))

  ltb_ℤ_iff : (a b : ℤ) → (ltb_ℤ a b ≡ true) ↔ (a <ℤ b)
  ltb_ℤ_iff a b = ground arith

  -- The latency check passes exactly for a trace with a span that takes longer than the threshold,
  -- if the times are before 2262 and the threshold in nanoseconds is an `int64`.
  pub check_latency_iff :
      (t : Traces P) (threshold : ℤ)
      → All IsTimely (spans t)
      → IsInt64 (threshold *ℤ pos 1000000)
      → (check_latency P t threshold ≡ true)
        ↔ Any
            (λ s. threshold *ℤ pos 1000000 <ℤ pos s.end_timestamp -ℤ pos s.start_timestamp)
            (spans t)
  unfolding check_latency
  check_latency_iff t threshold timely fits =
      any_span_iff _ _ IsTimely
        (λ s h.
          rw (wrap64_id (threshold *ℤ pos 1000000) fits, duration_lem s h)
            (ltb_ℤ_iff (threshold *ℤ pos 1000000) (pos s.end_timestamp -ℤ pos s.start_timestamp)))
        t timely
