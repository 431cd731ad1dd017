-- ===== src/Buffer/Split.antt =====
-- The loops of storeTraces and storeSplitLogs in internal/buffer/buffer.go that distribute a batch by
-- trace ID.
pub mod Parts
pub mod Distinct
use otel_tail_sampler.Base.{
  ℕ, Bool, not, Option, none, some, List, [], ◌∷◌, ◌++◌, any, ◌==◌, if◌then◌else◌,
}
use otel_tail_sampler.Pdata.{
  Pcommon, Resource, Scope, ScopeItems, ResourceItems, Span, LogRecord, Traces, Logs,
}
use otel_tail_sampler.GoMap.{GoMap, lookup, insert}

-- pcommon.TraceID.IsEmpty
abbrev pub no_id : List ℕ → Bool
no_id tid = not (any (λ b. not (b == 0)) tid)

module _ {P : Pcommon} {A : Type 0} where
  -- A resource with one scope with one item.
  abbrev pub wrapped : Resource P → Scope P → A → ResourceItems P A
  wrapped rs sc a = record { resource = rs; scopes = record { scope = sc; items = a ∷ [] } ∷ [] }

  abbrev pub part_of : List ℕ → GoMap (List (ResourceItems P A)) → List (ResourceItems P A)
  part_of tid m = elim (lookup tid m) [ none ↦ [] | some t ↦ t ]

  unfoldable pub append_to :
      List ℕ
      → ResourceItems P A
      → GoMap (List (ResourceItems P A))
      → GoMap (List (ResourceItems P A))
  append_to tid r m = insert tid (part_of tid m ++ r ∷ []) m

module _ {P : Pcommon} where
  unfoldable pub split_spans :
      Resource P → Scope P → List (Span P) → GoMap (Traces P) → GoMap (Traces P)
  split_spans rs sc [] m = m
  split_spans rs sc (span ∷ spans) m =
      let m' = if no_id span.trace_id then m else append_to span.trace_id (wrapped rs sc span) m in
      split_spans rs sc spans m'

  unfoldable pub split_scope_spans :
      Resource P → List (ScopeItems P (Span P)) → GoMap (Traces P) → GoMap (Traces P)
  unfolding split_spans
  split_scope_spans rs [] m = m
  split_scope_spans rs (ils ∷ ilss) m =
      split_scope_spans rs ilss (split_spans rs ils.scope ils.items m)

  unfoldable pub split_traces : Traces P → GoMap (Traces P) → GoMap (Traces P)
  unfolding split_scope_spans
  split_traces [] m = m
  split_traces (rs ∷ rss) m = split_traces rss (split_scope_spans rs.resource rs.scopes m)

-- The maps of storeSplitLogs; without a record that has no trace ID, timeLogs is not initialized.
pub record SplitLogs (P : Pcommon) : Type 0 where
  pub trace_logs : GoMap (Logs P)
  pub time_logs : Option (Logs P)

module _ {P : Pcommon} where
  abbrev pub init_logs : Option (Logs P) → Logs P
  init_logs none = []
  init_logs (some l) = l

  unfoldable pub split_records :
      Resource P → Scope P → List (LogRecord P) → SplitLogs P → SplitLogs P
  split_records rs sc [] m = m
  split_records rs sc (lr ∷ logs) m =
      let m' : SplitLogs P =
        if not (no_id lr.trace_id)
        then record m { trace_logs = append_to lr.trace_id (wrapped rs sc lr) m.trace_logs }
        else record m { time_logs = some (init_logs m.time_logs ++ wrapped rs sc lr ∷ []) } in
      split_records rs sc logs m'

  unfoldable pub split_scope_logs :
      Resource P → List (ScopeItems P (LogRecord P)) → SplitLogs P → SplitLogs P
  unfolding split_records
  split_scope_logs rs [] m = m
  split_scope_logs rs (sl ∷ sls) m = split_scope_logs rs sls (split_records rs sl.scope sl.items m)

  unfoldable pub split_logs : Logs P → SplitLogs P → SplitLogs P
  unfolding split_scope_logs
  split_logs [] m = m
  split_logs (rl ∷ rls) m = split_logs rls (split_scope_logs rl.resource rl.scopes m)
