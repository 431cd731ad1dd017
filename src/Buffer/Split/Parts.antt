-- ===== src/Buffer/Split/Parts.antt =====
-- What the loops of storeTraces in internal/buffer/buffer.go put under each trace ID.
use otel_tail_sampler.Base.{
  ◌≡◌, refl, sym, ap, ◌∙◌, ℕ, false, none, some, List, [], ◌∷◌, ◌++◌, append-nil, append_assoc, inl,
  inr, Bool-cases, if◌then◌else◌,
}
use otel_tail_sampler.Base.Text.{eqb, eqb_iff}
use otel_tail_sampler.Pdata.{Pcommon, Resource, Scope, ScopeItems, ResourceItems, Span, Traces}
use otel_tail_sampler.GoMap.{GoMap, lookup-insert}
use otel_tail_sampler.Decision.Policies.{spans, scope_spans}
use otel_tail_sampler.Buffer.Split.{
  no_id, wrapped, part_of, append_to, split_spans, split_scope_spans, split_traces,
}

module _ {P : Pcommon} where
  -- The spans of a trace, in their order.
  unfoldable pub with_id : List ℕ → List (Span P) → List (Span P)
  with_id tid [] = []
  with_id tid (s ∷ l) = let rest = with_id tid l in if eqb s.trace_id tid then s ∷ rest else rest

  with_id-append :
      (tid : List ℕ) (l r : List (Span P)) → with_id tid (l ++ r) ≡ with_id tid l ++ with_id tid r
  unfolding with_id
  with_id-append tid [] r = refl
  with_id-append tid (s ∷ l) r = elim (Bool-cases (eqb s.trace_id tid)) [
    | inl e ↦ rw (e, with_id) (ap (◌∷◌ s) (with_id-append tid l r))
    | inr e ↦ rw (e, with_id) (with_id-append tid l r)
  ]

  pub spans-append : (t u : Traces P) → spans P (t ++ u) ≡ spans P t ++ spans P u
  unfolding spans
  spans-append [] u = refl
  spans-append (r ∷ t) u =
      ap (λ l. scope_spans P r.scopes ++ l) (spans-append t u)
      ∙ sym (append_assoc (scope_spans P r.scopes) (spans P t) (spans P u))

  -- The spans that a map has under a trace ID.
  abbrev pub spans_under : List ℕ → GoMap (Traces P) → List (Span P)
  spans_under tid m = spans P (part_of tid m)

  part_of-append_to :
      (tid k : List ℕ) (r : ResourceItems P (Span P)) (m : GoMap (Traces P))
      → part_of tid (append_to k r m) ≡ (if eqb k tid then part_of k m ++ r ∷ [] else part_of tid m)
  unfolding append_to
  part_of-append_to tid k r m =
      ap (λ o. elim o [ none ↦ [] | some t ↦ t ]) (lookup-insert k tid (part_of k m ++ r ∷ []) m)
      ∙ elim (Bool-cases (eqb k tid)) [ inl e ↦ rw e refl | inr e ↦ rw e refl ]

  spans_under-append_to :
      (tid : List ℕ) (rs : Resource P) (sc : Scope P) (s : Span P) (m : GoMap (Traces P))
      → spans_under tid (append_to s.trace_id (wrapped rs sc s) m)
        ≡ spans_under tid m ++ with_id tid (s ∷ [])
  unfolding spans scope_spans with_id
  spans_under-append_to tid rs sc s m =
      ap (spans P) (part_of-append_to tid s.trace_id (wrapped rs sc s) m)
      ∙ elim (Bool-cases (eqb s.trace_id tid)) [
        | inl same ↦ rw same (
            spans-append (part_of s.trace_id m) (wrapped rs sc s ∷ [])
            ∙ ap (λ k. spans P (part_of k m) ++ s ∷ []) ((eqb_iff s.trace_id tid).0 same))
        | inr other ↦ rw other (sym (append-nil (spans_under tid m)))
      ]

  -- One round of the innermost loop.
  spans_under-round :
      (tid : List ℕ) (rs : Resource P) (sc : Scope P) (s : Span P) (m : GoMap (Traces P))
      → no_id tid ≡ false
      → spans_under tid (if no_id s.trace_id then m else append_to s.trace_id (wrapped rs sc s) m)
        ≡ spans_under tid m ++ with_id tid (s ∷ [])
  unfolding with_id
  spans_under-round tid rs sc s m named = elim (Bool-cases (no_id s.trace_id)) [
    | inl none' ↦
        let other : eqb s.trace_id tid ≡ false = elim (Bool-cases (eqb s.trace_id tid)) [
          | inl same ↦ let e = ap no_id ((eqb_iff s.trace_id tid).0 same) in cc
          | inr other ↦ other
        ] in
        rw (none', other) (sym (append-nil (spans_under tid m)))
    | inr some' ↦ rw some' (spans_under-append_to tid rs sc s m)
  ]

  -- From a step and the rest of a loop.
  chain :
      (tid : List ℕ) (a b c : List (Span P)) (l r : List (Span P))
      → b ≡ a ++ with_id tid l
      → c ≡ b ++ with_id tid r
      → c ≡ a ++ with_id tid (l ++ r)
  chain tid a b c l r first second =
      second
      ∙ ap (λ x. x ++ with_id tid r) first
      ∙ append_assoc a (with_id tid l) (with_id tid r)
      ∙ ap (λ x. a ++ x) (sym (with_id-append tid l r))

  spans_under-split_spans :
      (tid : List ℕ) (rs : Resource P) (sc : Scope P) (l : List (Span P)) (m : GoMap (Traces P))
      → no_id tid ≡ false
      → spans_under tid (split_spans rs sc l m) ≡ spans_under tid m ++ with_id tid l
  unfolding split_spans with_id
  spans_under-split_spans tid rs sc [] m named = sym (append-nil (spans_under tid m))
  spans_under-split_spans tid rs sc (s ∷ l) m named =
      let m' = if no_id s.trace_id then m else append_to s.trace_id (wrapped rs sc s) m in
      chain tid (spans_under tid m) (spans_under tid m') _ (s ∷ []) l
        (spans_under-round tid rs sc s m named) (spans_under-split_spans tid rs sc l m' named)

  spans_under-split_scope_spans :
      (tid : List ℕ) (rs : Resource P) (l : List (ScopeItems P (Span P))) (m : GoMap (Traces P))
      → no_id tid ≡ false
      → spans_under tid (split_scope_spans rs l m)
        ≡ spans_under tid m ++ with_id tid (scope_spans P l)
  unfolding split_scope_spans scope_spans with_id
  spans_under-split_scope_spans tid rs [] m named = sym (append-nil (spans_under tid m))
  spans_under-split_scope_spans tid rs (ils ∷ l) m named =
      let m' = split_spans rs ils.scope ils.items m in
      chain tid (spans_under tid m) (spans_under tid m') _ ils.items (scope_spans P l)
        (spans_under-split_spans tid rs ils.scope ils.items m named)
        (spans_under-split_scope_spans tid rs l m' named)

  -- Splitting a batch puts under each trace ID, behind what was there, exactly the spans of the batch
  -- with that ID, in their order, when the ID is not all zeros.
  pub spans_under-split_traces :
      (tid : List ℕ) (t : Traces P) (m : GoMap (Traces P))
      → no_id tid ≡ false
      → spans_under tid (split_traces t m) ≡ spans_under tid m ++ with_id tid (spans P t)
  unfolding split_traces spans with_id
  spans_under-split_traces tid [] m named = sym (append-nil (spans_under tid m))
  spans_under-split_traces tid (rs ∷ t) m named =
      let m' = split_scope_spans rs.resource rs.scopes m in
      chain tid (spans_under tid m) (spans_under tid m') _ (scope_spans P rs.scopes) (spans P t)
        (spans_under-split_scope_spans tid rs.resource rs.scopes m named)
        (spans_under-split_traces tid t m' named)
