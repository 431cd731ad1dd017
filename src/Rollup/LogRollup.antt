-- ===== src/Rollup/LogRollup.antt =====
-- Log records in internal/rollup/rollup.go.
use otel_tail_sampler.Base.{
  not, ◌&&◌, ◌||◌, Option, none, some, List, [], ◌∷◌, ◌++◌, length, take, ltb, if◌then◌else◌,
}
use otel_tail_sampler.Base.Int.{ℤ, pos, ◌+ℤ◌, wrap64}
use otel_tail_sampler.Base.Text.{GoString, codes, format_int}
use otel_tail_sampler.Pdata.{Pcommon, ScopeItems, ResourceItems, LogRecord, Logs}
use otel_tail_sampler.Signals.{LogSignal}
use otel_tail_sampler.Groups.{Groups, add_all, merge}
use otel_tail_sampler.Rollup.{CardinalityLevel, Rollup, attr_key, is_coarse, is_fine, scope_key}

abbrev pub rollup_count : GoString
rollup_count = codes "rollup.count"

module _ (P : Pcommon) where
  unfoldable pub log_key : CardinalityLevel → LogRecord P → GoString
  log_key level lr =
      let body = P.as_string lr.body in
      format_int lr.severity_number
      ++ (b':'
          ∷ (if ltb 20 (length body) && is_coarse level then take 20 body ++ codes "..." else body))

  abbrev pub next_count : Option P.Value → ℤ
  next_count none = pos 1
  next_count (some v) = wrap64 (P.int v +ℤ pos 1)

  unfoldable pub count_again : LogRecord P → LogRecord P → LogRecord P
  count_again existing src = record existing {
    attributes =
        P.put existing.attributes rollup_count
          (P.of_int (next_count (P.get existing.attributes rollup_count)));
  }

  unfoldable pub new_record : CardinalityLevel → LogRecord P → LogRecord P
  new_record level src =
      let counted = P.put src.attributes rollup_count (P.of_int (pos 1)) in
      record src {
        attributes =
            if is_coarse level
            then P.remove (P.remove counted (codes "request_id")) (codes "user_id")
            else counted;
      }

  unfoldable pub rollup_log_records :
      CardinalityLevel → List (LogRecord P) → List (LogRecord P) → List (LogRecord P)
  unfolding merge
  rollup_log_records level = merge (log_key level) count_again (new_record level) (log_key level)

  abbrev pub merge_log_items :
      CardinalityLevel
      → ScopeItems P (LogRecord P)
      → ScopeItems P (LogRecord P)
      → ScopeItems P (LogRecord P)
  merge_log_items level dest src = record {
    scope = dest.scope;
    items = rollup_log_records level dest.items src.items;
  }

  unfoldable pub merge_scope_logs :
      CardinalityLevel
      → ResourceItems P (LogRecord P)
      → ResourceItems P (LogRecord P)
      → ResourceItems P (LogRecord P)
  unfolding merge rollup_log_records scope_key
  merge_scope_logs level dest src = record {
    resource = dest.resource;
    scopes =
        merge (λ sl. scope_key sl.scope) (merge_log_items level)
          (λ sl. merge_log_items level (record { scope = sl.scope; items = [] }) sl)
          (λ sl. scope_key sl.scope) dest.scopes src.scopes;
  }

  unfoldable pub rollup_logs_loop :
      CardinalityLevel
      → Groups (ResourceItems P (LogRecord P))
      → List (LogSignal P)
      → Groups (ResourceItems P (LogRecord P))
  unfolding merge merge_scope_logs attr_key
  rollup_logs_loop level g [] = g
  rollup_logs_loop level g (sig ∷ sigs) =
      rollup_logs_loop level
        (add_all (λ rl. attr_key P rl.resource.attributes) (merge_scope_logs level)
          (λ rl. merge_scope_logs level (record { resource = rl.resource; scopes = [] }) rl) g
          sig.logs)
        sigs

  unfoldable pub merge_logs : List (LogSignal P) → Logs P → Logs P
  merge_logs [] out = out
  merge_logs (sig ∷ sigs) out = merge_logs sigs (out ++ sig.logs)

  unfoldable pub rollup_logs : Rollup → List (LogSignal P) → Logs P
  unfolding rollup_logs_loop merge_logs
  rollup_logs p signals =
      if is_fine p.current_level || not p.cfg.enabled
      then merge_logs signals []
      else (rollup_logs_loop p.current_level (record { slice = []; index = [] }) signals).slice
