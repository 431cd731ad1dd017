-- ===== src/Decision/EventWindow.antt =====
-- The trace ID and the event window that triggerDecision of internal/decision/engine.go finds.
use otel_tail_sampler.Base.{
  ℕ, ◌≡◌, refl, ◌∙◌, ap, ◌↔◌, ◌≢◌, inl, inr, false, none, some, List, [], ◌∷◌, ◌++◌, map, Any, All,
  arith, if◌then◌else◌, Bool-cases, sym,
}
use mathlib.Core.Path.{subst}
use mathlib.Core.Option.{some-injective}
use otel_tail_sampler.Base.Int.{ℤ}
use otel_tail_sampler.Base.Text.{GoString, eqb, eqb_refl}
use otel_tail_sampler.Hex.{encode_to_string}
use otel_tail_sampler.Pdata.{Pcommon, Span, ScopeItems, Traces}
use otel_tail_sampler.Gossip.{SamplingDecision}
use otel_tail_sampler.Decision.{
  as_time, is_empty_id, Window, no_window, widen, scan_spans, scan_scopes, scan_resources,
  trigger_decision,
}
use otel_tail_sampler.Decision.Policies.{spans, scope_spans}
use otel_tail_sampler.Decision.Extremes.{
  IsLeast, IsGreatest, earliest_of, latest_of, IsSet64, as_time-IsSet64, earliest_of-IsLeast,
  latest_of-IsGreatest,
}

module _ (P : Pcommon) where
  scan_spans-append :
      (w : Window) (xs ys : List (Span P))
      → scan_spans P w (xs ++ ys) ≡ scan_spans P (scan_spans P w xs) ys
  unfolding scan_spans
  scan_spans-append w [] ys = refl
  scan_spans-append w (s ∷ xs) ys = scan_spans-append (widen P w s) xs ys

  scan_scopes-eq-scan_spans :
      (w : Window) (sss : List (ScopeItems P (Span P)))
      → scan_scopes P w sss ≡ scan_spans P w (scope_spans P sss)
  unfolding scan_scopes scope_spans scan_spans
  scan_scopes-eq-scan_spans w [] = refl
  scan_scopes-eq-scan_spans w (ss ∷ sss) =
      scan_scopes-eq-scan_spans (scan_spans P w ss.items) sss
      ∙ sym (scan_spans-append w ss.items (scope_spans P sss))

  -- The three loops of the scan are one loop over all spans.
  scan_resources-eq-scan_spans :
      (w : Window) (t : Traces P) → scan_resources P w t ≡ scan_spans P w (spans P t)
  unfolding scan_resources spans scan_spans
  scan_resources-eq-scan_spans w [] = refl
  scan_resources-eq-scan_spans w (rs ∷ rss) =
      scan_resources-eq-scan_spans (scan_scopes P w rs.scopes) rss
      ∙ ap (λ v. scan_spans P v (spans P rss)) (scan_scopes-eq-scan_spans w rs.scopes)
      ∙ sym (scan_spans-append w (scope_spans P rs.scopes) (spans P rss))

  abbrev pub starts : List (Span P) → List ℤ
  starts = map (λ s. as_time s.start_timestamp)

  abbrev pub ends : List (Span P) → List ℤ
  ends = map (λ s. as_time s.end_timestamp)

  start-scan_spans :
      (w : Window) (xs : List (Span P))
      → (scan_spans P w xs).start ≡ earliest_of w.start (starts xs)
  unfolding scan_spans widen earliest_of
  start-scan_spans w [] = refl
  start-scan_spans w (s ∷ xs) = start-scan_spans (widen P w s) xs

  end-scan_spans :
      (w : Window) (xs : List (Span P)) → (scan_spans P w xs).end ≡ latest_of w.end (ends xs)
  unfolding scan_spans widen latest_of
  end-scan_spans w [] = refl
  end-scan_spans w (s ∷ xs) = end-scan_spans (widen P w s) xs

  starts-IsSet64 : (xs : List (Span P)) → All IsSet64 (starts xs)
  starts-IsSet64 [] = tt
  starts-IsSet64 (s ∷ xs) = (as_time-IsSet64 s.start_timestamp, starts-IsSet64 xs)

  ends-IsSet64 : (xs : List (Span P)) → All IsSet64 (ends xs)
  ends-IsSet64 [] = tt
  ends-IsSet64 (s ∷ xs) = (as_time-IsSet64 s.end_timestamp, ends-IsSet64 xs)

  -- The text of the first span that has a trace ID, empty if none has.
  unfoldable pub first_id : List (Span P) → GoString
  first_id [] = []
  first_id (s ∷ xs) =
      let rest = first_id xs in if is_empty_id s.trace_id then rest else encode_to_string s.trace_id

  encode-ne-nil : (id : List ℕ) → is_empty_id id ≡ false → eqb (encode_to_string id) [] ≡ false
  unfolding encode_to_string eqb
  encode-ne-nil [] h = cc
  encode-ne-nil (b ∷ bs) h = refl

  scan_spans_named :
      (w : Window) (xs : List (Span P))
      → eqb w.trace_id [] ≡ false
      → (scan_spans P w xs).trace_id ≡ w.trace_id
  unfolding scan_spans widen
  scan_spans_named w [] h = refl
  scan_spans_named w (s ∷ xs) h = scan_spans_named (widen P w s) xs (rw h h) ∙ rw h

  trace_id-scan_spans :
      (w : Window) (xs : List (Span P))
      → w.trace_id ≡ []
      → (scan_spans P w xs).trace_id ≡ first_id xs
  unfolding scan_spans widen first_id eqb
  trace_id-scan_spans w [] h = h
  trace_id-scan_spans w (s ∷ xs) h = elim (Bool-cases (is_empty_id s.trace_id)) [
    | inl e ↦ trace_id-scan_spans (widen P w s) xs (ground arith) ∙ rw e
    | inr e ↦
        scan_spans_named (widen P w s) xs (ground (arith, encode-ne-nil s.trace_id e))
        ∙ ground arith
  ]

  window-IsLeast :
      (t : Traces P)
      → first_id (spans P t) ≢ []
      → IsLeast (scan_resources P no_window t).start (starts (spans P t))
        × IsGreatest (scan_resources P no_window t).end (ends (spans P t))
  unfolding earliest_of latest_of
  window-IsLeast t h = rw (scan_resources-eq-scan_spans no_window t) (go (spans P t) h)
    where
      go :
          (xs : List (Span P))
          → first_id xs ≢ []
          → IsLeast (scan_spans P no_window xs).start (starts xs)
            × IsGreatest (scan_spans P no_window xs).end (ends xs)
      go [] k = absurd (k (unfold first_id in refl))
      go (s ∷ xs) k = (
        subst (λ m. IsLeast m (starts (s ∷ xs))) (sym (start-scan_spans no_window (s ∷ xs)))
            (earliest_of-IsLeast (as_time s.start_timestamp) (starts xs)
              (as_time-IsSet64 s.start_timestamp) (starts-IsSet64 xs)),
        subst (λ m. IsGreatest m (ends (s ∷ xs))) (sym (end-scan_spans no_window (s ∷ xs)))
            (latest_of-IsGreatest (as_time s.end_timestamp) (ends xs)
              (as_time-IsSet64 s.end_timestamp) (ends-IsSet64 xs)),
      )

  pub trace_id-scan_resources :
      (t : Traces P) → (scan_resources P no_window t).trace_id ≡ first_id (spans P t)
  trace_id-scan_resources t =
      rw (scan_resources-eq-scan_spans no_window t) (trace_id-scan_spans no_window (spans P t) refl)

  -- A decision names the first span that has a trace ID, and its window reaches exactly from the
  -- least start to the greatest end of all spans.
  pub trigger_decision_window :
      (now : ℤ) (t : Traces P) (reason : GoString) (d : SamplingDecision)
      → trigger_decision P now t reason ≡ some d
      → (d.trace_id ≡ first_id (spans P t))
        × IsLeast d.event_start (starts (spans P t))
        × IsGreatest d.event_end (ends (spans P t))
  unfolding trigger_decision
  trigger_decision_window now t reason d h =
      elim (Bool-cases (eqb (scan_resources P no_window t).trace_id [])) [
        | inl e ↦ cc (rw e at h)
        | inr e ↦
            subst
              (λ x.
                (x.trace_id ≡ first_id (spans P t))
                × IsLeast x.event_start (starts (spans P t))
                × IsGreatest x.event_end (ends (spans P t)))
              (some-injective _ _ (rw e at h))
              (let w = window-IsLeast t (λ z. cc (e, trace_id-scan_resources t, z, eqb_refl [])) in
                (trace_id-scan_resources t, w.0, w.1))
      ]

  abbrev pub HasId : Span P → Type 0
  HasId s = is_empty_id s.trace_id ≡ false

  pub first_id_iff : (xs : List (Span P)) → (eqb (first_id xs) [] ≡ false) ↔ Any HasId xs
  unfolding first_id eqb
  first_id_iff [] = (λ e. cc, λ e. absurd e)
  first_id_iff (s ∷ xs) = elim (Bool-cases (is_empty_id s.trace_id)) [
    | inl e ↦
        rw e (λ h. inr ((first_id_iff xs).0 h), elim [ inl q ↦ cc | inr q ↦ (first_id_iff xs).1 q ])
    | inr e ↦ rw e (λ _. inl refl, λ _. encode-ne-nil s.trace_id e)
  ]

  -- A decision is made exactly if some span has a trace ID.
  pub trigger_decision_iff :
      (now : ℤ) (t : Traces P) (reason : GoString)
      → (trigger_decision P now t reason ≢ none) ↔ Any HasId (spans P t)
  unfolding trigger_decision
  trigger_decision_iff now t reason =
      rw (trace_id-scan_resources t) (elim (Bool-cases (eqb (first_id (spans P t)) [])) [
        | inl e ↦ rw e (λ k. absurd (k refl), λ a. cc (e, (first_id_iff (spans P t)).1 a))
        | inr e ↦ rw e (λ _. (first_id_iff (spans P t)).0 e, λ _ q. cc q)
      ])
