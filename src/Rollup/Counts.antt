-- ===== src/Rollup/Counts.antt =====
-- What RollupLogs of internal/rollup/rollup.go counts.
use otel_tail_sampler.Base.{
  ℕ, ◌+◌, ◌%◌, ◌≡◌, refl, true, false, Option, none, some, List, [], ◌∷◌, All, length, arith,
  Bool-cases, inl, inr,
}
use otel_tail_sampler.Base.Int.{
  pos, u64_mod, residue64, residue64-wrap64, residue64-+ℤ, wrap64-IsInt64, ◌+ℤ◌,
}
use otel_tail_sampler.Base.Text.{GoString, eqb}
use otel_tail_sampler.Pdata.{Pcommon, IsLawful, ScopeItems, ResourceItems, LogRecord}
use otel_tail_sampler.Signals.{LogSignal}
use otel_tail_sampler.Groups.{Groups, add_all, index_from}
use otel_tail_sampler.Groups.Batches.{IsIndexed, add_all-IsIndexed}
use otel_tail_sampler.Groups.Totals.{total, total-merge, add_all-total}
use otel_tail_sampler.Rollup.{CardinalityLevel, Rollup, is_fine, is_coarse, scope_key, attr_key}
use otel_tail_sampler.Rollup.LogRollup.{
  rollup_count, log_key, next_count, count_again, new_record, rollup_log_records, merge_log_items,
  merge_scope_logs, rollup_logs_loop, rollup_logs,
}

All-Unit : {A : Type 0} (l : List A) → All (λ x. Unit {0}) l
All-Unit [] = tt
All-Unit (x ∷ l) = (tt, All-Unit l)

total-ones : {A : Type 0} (l : List A) → total (λ x. 1) l ≡ length l
unfolding total
total-ones [] = refl
total-ones (x ∷ l) = omega (arith, total-ones l)

module _ (P : Pcommon) where
  abbrev value_count : Option P.Value → ℕ
  value_count none = 0
  value_count (some v) = residue64 (P.int v)

  -- The low 64 bits of the attribute rollup.count.
  abbrev pub count_of : LogRecord P → ℕ
  count_of lr = value_count (P.get lr.attributes rollup_count)

  abbrev pub counts_of : ResourceItems P (LogRecord P) → ℕ
  counts_of rl = total (λ sl. total count_of sl.items) rl.scopes

  abbrev pub record_number : ResourceItems P (LogRecord P) → ℕ
  record_number rl = total (λ sl. length sl.items) rl.scopes

  abbrev IsCounted : LogRecord P → Type 0
  IsCounted lr = (v : P.Value) × (P.get lr.attributes rollup_count ≡ some v)

module _ (P : Pcommon) (L : IsLawful P) (level : CardinalityLevel) where
  get-count_again :
      (a s : LogRecord P)
      → P.get (count_again P a s).attributes rollup_count
        ≡ some (P.of_int (next_count P (P.get a.attributes rollup_count)))
  unfolding count_again eqb
  get-count_again a s = L.get-put a.attributes rollup_count rollup_count _

  get-new_record :
      (s : LogRecord P)
      → P.get (new_record P level s).attributes rollup_count ≡ some (P.of_int (pos 1))
  unfolding new_record eqb
  get-new_record s = elim (Bool-cases (is_coarse level)) [
    | inl e ↦ rw e (simp (L.get-remove, L.get-put))
    | inr e ↦ rw e (simp L.get-put)
  ]

  count_again-counts :
      (a s : LogRecord P)
      → Unit {0}
      → IsCounted P a
      → count_of P (count_again P a s) % u64_mod ≡ (count_of P a + 1) % u64_mod
  unfolding residue64
  count_again-counts a s _ (v, e) =
      rw (get-count_again a s, e)
        (rw
          (
            L.int-of_int _ (wrap64-IsInt64 (P.int v +ℤ pos 1)),
            residue64-wrap64 (P.int v +ℤ pos 1),
            residue64-+ℤ (P.int v) (pos 1),
          )
          (omega arith))

  new_record-counts :
      (s : LogRecord P) → Unit {0} → count_of P (new_record P level s) % u64_mod ≡ 1 % u64_mod
  unfolding residue64
  new_record-counts s _ = rw (get-new_record s) (rw (L.int-of_int (pos 1) (omega arith)) refl)

  log_key-count_again :
      (a s : LogRecord P) → log_key P level (count_again P a s) ≡ log_key P level a
  unfolding log_key count_again
  log_key-count_again a s = refl

  log_key-new_record :
      (s : LogRecord P) → log_key P level (new_record P level s) ≡ log_key P level s
  unfolding log_key new_record
  log_key-new_record s = refl

  -- Every record is counted once, in one scope,
  rollup_log_records-counts :
      (dest src : List (LogRecord P))
      → All (IsCounted P) dest
      → All (IsCounted P) (rollup_log_records P level dest src)
        × (total (count_of P) (rollup_log_records P level dest src) % u64_mod
            ≡ (total (count_of P) dest + length src) % u64_mod)
  unfolding rollup_log_records
  rollup_log_records-counts dest src counted = rw (← total-ones src) (
      total-merge (log_key P level) (log_key P level) (count_again P) (new_record P level)
        (λ s. Unit {0}) log_key-count_again (λ s _. log_key-new_record s) (count_of P) (λ s. 1)
        (IsCounted P) (λ a s _ _. (_, get-count_again a s)) (λ s _. (_, get-new_record s))
        count_again-counts new_record-counts dest src (All-Unit src) counted)

  abbrev IsCountedScope : ScopeItems P (LogRecord P) → Type 0
  IsCountedScope sl = All (IsCounted P) sl.items

  merge_log_items-counts :
      (a s : ScopeItems P (LogRecord P))
      → IsCountedScope a
      → IsCountedScope (merge_log_items P level a s)
        × (total (count_of P) (merge_log_items P level a s).items % u64_mod
            ≡ (total (count_of P) a.items + length s.items) % u64_mod)
  merge_log_items-counts a s j = rollup_log_records-counts a.items s.items j

  new_scope-counts :
      (s : ScopeItems P (LogRecord P))
      → total
            (count_of P)
            (merge_log_items P level (record { scope = s.scope; items = [] }) s).items
          % u64_mod
        ≡ length s.items % u64_mod
  unfolding total
  new_scope-counts s =
      omega (arith, (merge_log_items-counts (record { scope = s.scope; items = [] }) s tt).1)

  -- in one resource,
  merge_scope_logs-counts :
      (a s : ResourceItems P (LogRecord P))
      → All IsCountedScope a.scopes
      → All IsCountedScope (merge_scope_logs P level a s).scopes
        × (counts_of P (merge_scope_logs P level a s) % u64_mod
            ≡ (counts_of P a + record_number P s) % u64_mod)
  unfolding merge_scope_logs
  merge_scope_logs-counts a s j =
      total-merge (λ sl. scope_key sl.scope) (λ sl. scope_key sl.scope) (merge_log_items P level)
        (λ sl. merge_log_items P level (record { scope = sl.scope; items = [] }) sl) (λ _. Unit {0})
        (λ _ _. refl) (λ _ _. refl) (λ sl. total (count_of P) sl.items) (λ sl. length sl.items)
        IsCountedScope (λ b t _ k. (merge_log_items-counts b t k).0)
        (λ t _. (merge_log_items-counts (record { scope = t.scope; items = [] }) t tt).0)
        (λ b t _ k. (merge_log_items-counts b t k).1) (λ t _. new_scope-counts t) a.scopes s.scopes
        (All-Unit s.scopes) j

  new_resource-counts :
      (s : ResourceItems P (LogRecord P))
      → counts_of P (merge_scope_logs P level (record { resource = s.resource; scopes = [] }) s)
          % u64_mod
        ≡ record_number P s % u64_mod
  unfolding total
  new_resource-counts s =
      omega
        (arith, (merge_scope_logs-counts (record { resource = s.resource; scopes = [] }) s tt).1)

  abbrev resource_key : ResourceItems P (LogRecord P) → GoString
  resource_key rl = attr_key P rl.resource.attributes

  abbrev IsCountedResource : ResourceItems P (LogRecord P) → Type 0
  IsCountedResource rl = All IsCountedScope rl.scopes

  abbrev add_signal :
      Groups (ResourceItems P (LogRecord P)) → LogSignal P → Groups (ResourceItems P (LogRecord P))
  add_signal g sig =
      add_all resource_key (merge_scope_logs P level)
        (λ rl. merge_scope_logs P level (record { resource = rl.resource; scopes = [] }) rl) g
        sig.logs

  resource_key-merge_scope_logs :
      (a s : ResourceItems P (LogRecord P))
      → resource_key (merge_scope_logs P level a s) ≡ resource_key a
  unfolding merge_scope_logs
  resource_key-merge_scope_logs a s = refl

  -- in one signal,
  add_signal-counts :
      (g : Groups (ResourceItems P (LogRecord P))) (sig : LogSignal P)
      → IsIndexed resource_key g
      → All IsCountedResource g.slice
      → IsIndexed resource_key (add_signal g sig)
        × All IsCountedResource (add_signal g sig).slice
        × (total (counts_of P) (add_signal g sig).slice % u64_mod
            ≡ (total (counts_of P) g.slice + total (record_number P) sig.logs) % u64_mod)
  add_signal-counts g sig ix j =
      let new : ResourceItems P (LogRecord P) → ResourceItems P (LogRecord P) =
        λ rl. merge_scope_logs P level (record { resource = rl.resource; scopes = [] }) rl in
      let fresh_key : (s : ResourceItems P (LogRecord P)) → resource_key (new s) ≡ resource_key s =
        λ s. resource_key-merge_scope_logs (record { resource = s.resource; scopes = [] }) s in
      let (j', e) =
        add_all-total resource_key resource_key (merge_scope_logs P level) new (λ _. Unit {0})
          resource_key-merge_scope_logs (λ s _. fresh_key s) (counts_of P) (record_number P)
          IsCountedResource (λ b t _ k. (merge_scope_logs-counts b t k).0)
          (λ t _. (merge_scope_logs-counts (record { resource = t.resource; scopes = [] }) t tt).0)
          (λ b t _ k. (merge_scope_logs-counts b t k).1) (λ t _. new_resource-counts t) g sig.logs
          (All-Unit sig.logs) ix j in
      (
        add_all-IsIndexed resource_key resource_key (merge_scope_logs P level) new (λ _. Unit {0})
            resource_key-merge_scope_logs (λ s _. fresh_key s) g sig.logs (All-Unit sig.logs) ix,
        j',
        e,
      )

  rollup_logs_loop-counts :
      (g : Groups (ResourceItems P (LogRecord P))) (sigs : List (LogSignal P))
      → IsIndexed resource_key g
      → All IsCountedResource g.slice
      → total (counts_of P) (rollup_logs_loop P level g sigs).slice % u64_mod
        ≡ (total (counts_of P) g.slice + total (λ sig. total (record_number P) sig.logs) sigs)
          % u64_mod
  unfolding rollup_logs_loop total
  rollup_logs_loop-counts g [] ix j = omega arith
  rollup_logs_loop-counts g (sig ∷ sigs) ix j =
      let (ix', j', e) = add_signal-counts g sig ix j in
      let e' = rollup_logs_loop-counts (add_signal g sig) sigs ix' j' in omega arith

module _ (P : Pcommon) (L : IsLawful P) where
  -- While a rollup is on, the attributes rollup.count of the records that it returns add up to the
  -- number of records in the signals, modulo 2 ^ 64.
  pub rollup_logs-counts :
      (p : Rollup) (signals : List (LogSignal P))
      → is_fine p.current_level ≡ false
      → p.cfg.enabled ≡ true
      → total (counts_of P) (rollup_logs P p signals) % u64_mod
        ≡ total (λ sig. total (record_number P) sig.logs) signals % u64_mod
  unfolding rollup_logs total
  rollup_logs-counts p signals coarser enabled =
      rw (coarser, enabled)
        (omega (
          arith,
          rollup_logs_loop-counts P L p.current_level (record { slice = []; index = [] }) signals
              (λ k. unfold index_from in refl) tt,
        ))
