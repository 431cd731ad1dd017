-- ===== src/Buffer/Coherence/Runs.antt =====
-- The runs of the buffer of internal/buffer/buffer.go: a step is an exported operation that changes it
-- or the periodic cleaning of the cache.
use mathlib.Core.Path.{subst}
use mathlib.Core.Option.{some-injective}
use otel_tail_sampler.Base.{◌≡◌, refl, ap, ℕ, Bool, some, List, [], ◌∷◌, inl, inr, Option-cases}
use otel_tail_sampler.Base.Int.{ℤ}
use otel_tail_sampler.Base.Text.{GoString}
use otel_tail_sampler.Pdata.{Pcommon, Float64, Traces, Logs}
use otel_tail_sampler.Signals.{Signal, trace, metric, log}
use otel_tail_sampler.Codecs.{Codecs}
use otel_tail_sampler.GoMap.{keys, lookup}
use otel_tail_sampler.Buffer.Libraries.{Cache, IsCache, BTree, IsBTree}
use otel_tail_sampler.Buffer.State.{Buffer, new, cache_clean}
use otel_tail_sampler.Buffer.Split.{split_traces}
use otel_tail_sampler.Buffer.Store.{RangeOrder, store, store_traces, store_split_logs}
use otel_tail_sampler.Buffer.Query.{
  range_keys, remove_trace, remove_metrics_in_range, remove_logs_in_range, clear_metrics,
  clear_logs,
}
use otel_tail_sampler.Buffer.Coherence.{IsCoherent}
use otel_tail_sampler.Buffer.Coherence.Steps.{
  IsFresh, IsReady, store_each_trace-IsReady, store_metric-IsCoherent, store_split_logs-IsCoherent,
}
use otel_tail_sampler.Buffer.Coherence.Keeps.{
  cache_clean-IsCoherent, cache_delete-IsCoherent, delete_keys-IsCoherent,
}

module _ {P : Pcommon} {F : Float64} (c : Codecs P F) {C : Cache c.Bytes} (K : IsCache C)
    {T : BTree} (L : IsBTree T) (now : ℤ) where
  store-IsCoherent :
      (by_trace : RangeOrder (Traces P)) (by_log : RangeOrder (Logs P)) (uuid : GoString)
      → (b b' : Buffer c C T) (ok : Bool) (sig : Signal P F)
      → store c now by_trace by_log uuid b sig ≡ some (b', ok)
      → IsReady c K L now uuid b
      → IsCoherent c L b'
  unfolding store store_traces
  store-IsCoherent by_trace by_log uuid b b' ok (trace s) done i =
      elim (Option-cases (store_traces c now by_trace b s)) [
        | inl panics ↦ let h = rw (panics, store) at done in cc
        | inr (b1, first) ↦
            let h = rw (first, store) at done in
            subst (IsCoherent c L) (ap (λ t. t.0) (some-injective _ _ h))
              (store_each_trace-IsReady c K L now uuid b b1 (by_trace (split_traces s.traces []))
                first i).0
      ]
  store-IsCoherent by_trace by_log uuid b b' ok (metric s) done i =
      subst (IsCoherent c L) (ap (λ t. t.0) (some-injective _ _ done))
        (store_metric-IsCoherent c K L now uuid b s i)
  store-IsCoherent by_trace by_log uuid b b' ok (log s) done i =
      elim (Option-cases (store_split_logs c now by_log uuid b s)) [
        | inl panics ↦ let h = rw (panics, store) at done in cc
        | inr (b1, first) ↦
            let h = rw (first, store) at done in
            subst (IsCoherent c L) (ap (λ t. t.0) (some-injective _ _ h))
              (store_split_logs-IsCoherent c K L now by_log uuid b b1 s first i)
      ]

module _ {P : Pcommon} {F : Float64} (c : Codecs P F) (C : Cache c.Bytes) (T : BTree) where
  -- One step, at any time of the clock and with an identifier that no key has yet.
  pub data Step : Buffer c C T → Buffer c C T → Type 0 where
    stored :
        (now : ℤ) (by_trace : RangeOrder (Traces P)) (by_log : RangeOrder (Logs P))
        (uuid : GoString)
        → (b b' : Buffer c C T) (ok : Bool) (sig : Signal P F) → IsFresh c now uuid b
        → store c now by_trace by_log uuid b sig ≡ some (b', ok)
        → Step b b'
    removed_trace : (now : ℤ) (b : Buffer c C T) (tid : List ℕ) → Step b (remove_trace c now b tid)
    removed_metrics :
        (now : ℤ) (b : Buffer c C T) (start end : ℤ)
        → Step b (remove_metrics_in_range c now b start end)
    removed_logs :
        (now : ℤ) (b : Buffer c C T) (start end : ℤ)
        → Step b (remove_logs_in_range c now b start end)
    cleared_metrics : (now : ℤ) (b : Buffer c C T) → Step b (clear_metrics c now b)
    cleared_logs : (now : ℤ) (b : Buffer c C T) → Step b (clear_logs c now b)
    cleaned : (now : ℤ) (b : Buffer c C T) → Step b (cache_clean c now b)
    -- The receiver of the channel takes the oldest signal.
    taken :
        (b : Buffer c C T) (sig : Signal P F) (rest : List (Signal P F))
        → b.evicted_chan ≡ sig ∷ rest
        → Step b (record b { evicted_chan = rest })

  -- Any number of steps.
  pub data Steps (b : Buffer c C T) : Buffer c C T → Type 0 where
    here : Steps b b
    then_step : {b1 b2 : Buffer c C T} → Steps b b1 → Step b1 b2 → Steps b b2

  -- What New and any number of steps lead to.
  pub data IsReachable : Buffer c C T → Type 0 where
    at_start : (s : C.State) → IsReachable (new c C T s)
    after : {b b' : Buffer c C T} → IsReachable b → Step b b' → IsReachable b'

module _ {P : Pcommon} {F : Float64} (c : Codecs P F) {C : Cache c.Bytes} {T : BTree} where
  pub Steps-Steps :
      {b b1 b2 : Buffer c C T} → Steps c C T b b1 → Steps c C T b1 b2 → Steps c C T b b2
  Steps-Steps first here = first
  Steps-Steps first (then_step rest step) = then_step (Steps-Steps first rest) step

  pub Steps-IsReachable :
      {b b' : Buffer c C T} → IsReachable c C T b → Steps c C T b b' → IsReachable c C T b'
  Steps-IsReachable r here = r
  Steps-IsReachable r (then_step rest step) = after (Steps-IsReachable r rest) step

module _ {P : Pcommon} {F : Float64} (c : Codecs P F) {C : Cache c.Bytes} (K : IsCache C)
    {T : BTree} (L : IsBTree T) where
  new-IsCoherent : (s : C.State) → IsCoherent c L (new c C T s)
  unfolding new lookup
  new-IsCoherent s = record {
    metrics = record {
      exact = λ tk. L.has-empty tk;
      of_kind = λ k h. elim (h refl) [ ];
      cached = λ k h. elim (h refl) [ ];
    };
    logs = record {
      exact = λ tk. L.has-empty tk;
      of_kind = λ k h. elim (h refl) [ ];
      cached = λ k h. elim (h refl) [ ];
    };
  }

  Step-IsCoherent : (b b' : Buffer c C T) → Step c C T b b' → IsCoherent c L b → IsCoherent c L b'
  unfolding remove_trace remove_metrics_in_range remove_logs_in_range clear_metrics clear_logs
  Step-IsCoherent b b' (stored now by_trace by_log uuid _ _ ok sig fresh done) i =
      store-IsCoherent c K L now by_trace by_log uuid b b' ok sig done (i, fresh)
  Step-IsCoherent b _ (removed_trace now _ tid) i = cache_delete-IsCoherent c K L now b _ i
  Step-IsCoherent b _ (removed_metrics now _ start end) i =
      delete_keys-IsCoherent c K L now b (range_keys b.metric_index start end) i
  Step-IsCoherent b _ (removed_logs now _ start end) i =
      delete_keys-IsCoherent c K L now b (range_keys b.log_index start end) i
  Step-IsCoherent b _ (cleared_metrics now _) i =
      delete_keys-IsCoherent c K L now b (keys b.metric_index.key_map) i
  Step-IsCoherent b _ (cleared_logs now _) i =
      delete_keys-IsCoherent c K L now b (keys b.log_index.key_map) i
  Step-IsCoherent b _ (cleaned now _) i = cache_clean-IsCoherent c K L now b i
  Step-IsCoherent b _ (taken _ sig rest e) i = record { metrics = i.metrics; logs = i.logs }

  -- In every state that the buffer reaches from New, by storing signals with fresh identifiers, by
  -- removing traces, ranges or everything, and by the cleaning of the cache, the tree and the map of
  -- each index hold the same keys, each of the kind of its index, and the cache has an entry for each.
  pub IsReachable-IsCoherent : (b : Buffer c C T) → IsReachable c C T b → IsCoherent c L b
  IsReachable-IsCoherent _ (at_start s) = new-IsCoherent s
  IsReachable-IsCoherent b' (after {b = b} r step) =
      Step-IsCoherent b b' step (IsReachable-IsCoherent b r)
