-- ===== src/Buffer/Split/Distinct.antt =====
-- The maps that the loops of storeTraces in internal/buffer/buffer.go fill have each key once.
use otel_tail_sampler.Base.{List, [], ◌∷◌, ◌++◌, inl, inr, Bool-cases}
use otel_tail_sampler.Pdata.{Pcommon, Resource, Scope, ScopeItems, Span, Traces}
use otel_tail_sampler.GoMap.{GoMap, IsDistinct, insert-IsDistinct}
use otel_tail_sampler.Buffer.Split.{
  no_id, wrapped, part_of, append_to, split_spans, split_scope_spans, split_traces,
}

module _ {P : Pcommon} where
  split_spans-IsDistinct :
      (rs : Resource P) (sc : Scope P) (l : List (Span P)) (m : GoMap (Traces P))
      → IsDistinct m
      → IsDistinct (split_spans rs sc l m)
  unfolding split_spans append_to
  split_spans-IsDistinct rs sc [] m h = h
  split_spans-IsDistinct rs sc (s ∷ l) m h = elim (Bool-cases (no_id s.trace_id)) [
    | inl skipped ↦ rw (skipped, split_spans) (split_spans-IsDistinct rs sc l m h)
    | inr named ↦
        let part = part_of s.trace_id m ++ wrapped rs sc s ∷ [] in
        rw (named, split_spans)
          (split_spans-IsDistinct rs sc l (append_to s.trace_id (wrapped rs sc s) m)
            (insert-IsDistinct s.trace_id part m h))
  ]

  split_scope_spans-IsDistinct :
      (rs : Resource P) (l : List (ScopeItems P (Span P))) (m : GoMap (Traces P))
      → IsDistinct m
      → IsDistinct (split_scope_spans rs l m)
  unfolding split_scope_spans
  split_scope_spans-IsDistinct rs [] m h = h
  split_scope_spans-IsDistinct rs (ils ∷ l) m h =
      split_scope_spans-IsDistinct rs l _ (split_spans-IsDistinct rs ils.scope ils.items m h)

  pub split_traces-IsDistinct :
      (t : Traces P) (m : GoMap (Traces P)) → IsDistinct m → IsDistinct (split_traces t m)
  unfolding split_traces
  split_traces-IsDistinct [] m h = h
  split_traces-IsDistinct (rs ∷ t) m h =
      split_traces-IsDistinct t _ (split_scope_spans-IsDistinct rs.resource rs.scopes m h)
