-- ===== src/Buffer/Removal/Ranges.antt =====
-- The ranges of internal/buffer/buffer.go: what a range selects and what a removal leaves of it.
use otel_tail_sampler.Base.{
  ◌≡◌, refl, sym, ap, ◌∙◌, ◌-◌, Bool, true, false, not, ◌&&◌, Option, none, some, List, [], ◌∷◌,
  inl, inr, map, Bool-cases, Option-cases, arith, if◌then◌else◌,
}
use otel_tail_sampler.Base.Int.{
  ℤ, pos, ◌+ℤ◌, ◌<ℤ◌, ltb_ℤ, eqb_ℤ, wrap64, wrap64_id, IsInt64, i64_half, +ℤ_parts,
}
use otel_tail_sampler.Base.Text.{GoString, eqb, eqb_refl, less_str}
use otel_tail_sampler.Pdata.{Pcommon, Float64}
use otel_tail_sampler.Codecs.{Codecs}
use otel_tail_sampler.GoMap.{lookup}
use otel_tail_sampler.Buffer.Libraries.{
  Cache, IsCache, BTree, IsBTree, TimeKey, less, same_key, contains,
}
use otel_tail_sampler.Buffer.State.{Buffer, TimeIndex, delete_keys}
use otel_tail_sampler.Buffer.Query.{
  in_range, range_keys, get_metrics_in_range, get_logs_in_range, metrics_of, logs_of,
  remove_metrics_in_range, remove_logs_in_range,
}
use otel_tail_sampler.Buffer.Coherence.{IsCoherent}
use otel_tail_sampler.Buffer.Coherence.Index.{IsExact, listed}
use otel_tail_sampler.Buffer.Coherence.Keeps.{delete_keys-IsCoherent}
use otel_tail_sampler.Buffer.Removal.{is_deleted, held, held-delete_keys}

-- A bound without a key is below all keys with its time.
less_bound :
    (tk : TimeKey) (t : ℤ) → less tk (record { timestamp = t; key = [] }) ≡ ltb_ℤ tk.timestamp t
unfolding less less_str
less_bound tk t = ground arith

-- Whether a time is in a closed interval.
abbrev pub within : ℤ → ℤ → ℤ → Bool
within start end t = not (ltb_ℤ t start) && not (ltb_ℤ end t)

bounds :
    (start end t : ℤ)
    → IsInt64 end
    → end <ℤ pos (i64_half - 1)
    → (not (ltb_ℤ t start) && ltb_ℤ t (wrap64 (end +ℤ pos 1))) ≡ within start end t
bounds start end t small below_max =
    rw (wrap64_id (end +ℤ pos 1) next) (ground (arith, +ℤ_parts end (pos 1)))
  where
    next : IsInt64 (end +ℤ pos 1)
    next = ground (arith, +ℤ_parts end (pos 1))

branch :
    {A B : Type 0} (t : Bool) (f : A → B) (x y : A)
    → f (if t then x else y) ≡ (if t then f x else f y)
branch true f x y = refl
branch false f x y = refl

module _ {T : BTree} (L : IsBTree T) where
  -- A range of two times that an int64 of nanoseconds holds, the later one below the greatest, selects
  -- exactly the keys of the index whose time is from the first to the second, both included.
  pub contains-in_range :
      (x : TimeIndex T) (start end : ℤ) (tk : TimeKey)
      → IsExact L x
      → IsInt64 start
      → IsInt64 end
      → end <ℤ pos (i64_half - 1)
      → contains tk (in_range x start end) ≡ (listed x.key_map tk && within start end tk.timestamp)
  unfolding in_range
  contains-in_range x start end tk exact hs he below_max =
      rw (wrap64_id start hs, in_range, wrap64_id end he)
        (L.contains-ascend_range x.tree _ _ tk
          ∙ rw (less_bound tk start, less_bound tk (wrap64 (end +ℤ pos 1)), exact tk)
              (ap (λ e. listed x.key_map tk && e) (bounds start end tk.timestamp he below_max)))

  -- What a range of an index selects has its key in the map.
  present-in_range :
      (x : TimeIndex T) (start end : ℤ) (tk : TimeKey)
      → IsExact L x
      → contains tk (in_range x start end) ≡ true
      → lookup tk.key x.key_map ≡ some tk.timestamp
  unfolding in_range
  present-in_range x start end tk exact selected =
      let has_it = rw (L.contains-ascend_range x.tree _ _ tk) at selected in
      let in_map : listed x.key_map tk ≡ true = sym (exact tk) ∙ left (L.has x.tree tk) _ has_it in
      elim (Option-cases (lookup tk.key x.key_map)) [
        | inl missing ↦ let h = rw (missing, listed) at in_map in cc
        | inr (ts, present) ↦
            let h : eqb_ℤ ts tk.timestamp ≡ true = rw (present, listed) at in_map in
            let same : ts ≡ tk.timestamp = ground arith in present ∙ ap some same
      ]
    where
      left : (a b : Bool) → (a && b) ≡ true → a ≡ true
      left a b h = ground arith

same_key_refl : (tk : TimeKey) → same_key tk tk ≡ true
same_key_refl tk = ground (arith, eqb_refl tk.key)

-- A list that contains nothing is empty.
nil_of_contains :
    (l : List TimeKey) → ((tk : TimeKey) → contains tk l ≡ true → false ≡ true) → l ≡ []
nil_of_contains [] h = refl
nil_of_contains (tk ∷ l) h = let e = h tk (rw (same_key_refl tk) refl) in cc

is_deleted-map :
    (tk : TimeKey) (l : List TimeKey)
    → contains tk l ≡ true
    → is_deleted tk.key (map (λ u. u.key) l) ≡ true
is_deleted-map tk [] h = h
is_deleted-map tk (u ∷ l) h = elim (Bool-cases (eqb u.key tk.key)) [
  | inl same ↦ rw same refl
  | inr other ↦ rw other (is_deleted-map tk l (ground arith))
]

module _ {T : BTree} (L : IsBTree T) where
  same-in_range :
      (x y : TimeIndex T) (start end : ℤ) (tk : TimeKey)
      → IsExact L x
      → IsExact L y
      → lookup tk.key x.key_map ≡ lookup tk.key y.key_map
      → contains tk (in_range x start end) ≡ contains tk (in_range y start end)
  unfolding in_range
  same-in_range x y start end tk exact_x exact_y same =
      let lo : TimeKey = record { timestamp = wrap64 start; key = [] } in
      let hi : TimeKey = record { timestamp = wrap64 (wrap64 end +ℤ pos 1); key = [] } in
      let has_same : L.has x.tree tk ≡ L.has y.tree tk =
        exact_x tk
        ∙ ap (λ o. elim o [ none ↦ false | some ts ↦ eqb_ℤ ts tk.timestamp ]) same
        ∙ sym (exact_y tk) in
      L.contains-ascend_range x.tree _ _ tk
      ∙ ap (λ h. h && (not (less tk lo) && less tk hi)) has_same
      ∙ sym (L.contains-ascend_range y.tree _ _ tk)

  -- An index that lost what a range selected, and nothing else, has nothing in that range.
  empty_range :
      (x y : TimeIndex T) (start end : ℤ)
      → IsExact L x
      → IsExact L y
      → ((j : GoString)
          → lookup j y.key_map
            ≡ (if is_deleted j (range_keys x start end) then none else lookup j x.key_map))
      → in_range y start end ≡ []
  empty_range x y start end exact_x exact_y left =
      nil_of_contains (in_range y start end) (λ tk selected.
        let there : lookup tk.key y.key_map ≡ some tk.timestamp =
          present-in_range L y start end tk exact_y selected in
        elim (Bool-cases (is_deleted tk.key (range_keys x start end))) [
          | inl gone ↦ let h : lookup tk.key y.key_map ≡ none = left tk.key ∙ rw gone refl in cc
          | inr kept ↦
              let same : lookup tk.key x.key_map ≡ lookup tk.key y.key_map =
                sym (left tk.key ∙ rw kept refl) in
              sym kept
              ∙ is_deleted-map tk (in_range x start end)
                  (same-in_range x y start end tk exact_x exact_y same ∙ selected)
        ])

module _ {P : Pcommon} {F : Float64} (c : Codecs P F) {C : Cache c.Bytes} (K : IsCache C)
    {T : BTree} (L : IsBTree T) (now : ℤ) where
  -- In a coherent buffer, after the metrics of a range were removed, the range has no metrics, and
  -- under every key that it did not select the cache and both indices hold what they held.
  pub get_metrics-remove_metrics :
      (b : Buffer c C T) (start end : ℤ)
      → IsCoherent c L b
      → (get_metrics_in_range c (remove_metrics_in_range c now b start end) start end ≡ [])
        × ((j : GoString)
            → is_deleted j (range_keys b.metric_index start end) ≡ false
            → held c K L now (remove_metrics_in_range c now b start end) j ≡ held c K L now b j)
  unfolding remove_metrics_in_range get_metrics_in_range metrics_of
  get_metrics-remove_metrics b start end i =
      let ks = range_keys b.metric_index start end in
      let b' = delete_keys c now b ks in
      let i' = delete_keys-IsCoherent c K L now b ks i in
      let left = λ (j : GoString). held-delete_keys c K L now b ks j i in
      (
        ap (metrics_of c b') (
            empty_range L b.metric_index b'.metric_index start end i.metrics.exact i'.metrics.exact
              (λ j.
                ap (λ t. t.1) (left j)
                ∙ branch (is_deleted j ks) (λ (t : Option c.Bytes × Option ℤ × Option ℤ). t.1)
                    (none, none, none) (held c K L now b j))),
        λ j kept. left j ∙ rw kept refl,
      )

  -- In a coherent buffer, after the logs of a range were removed, the range has no logs, and under
  -- every key that it did not select the cache and both indices hold what they held.
  pub get_logs-remove_logs :
      (b : Buffer c C T) (start end : ℤ)
      → IsCoherent c L b
      → (get_logs_in_range c (remove_logs_in_range c now b start end) start end ≡ [])
        × ((j : GoString)
            → is_deleted j (range_keys b.log_index start end) ≡ false
            → held c K L now (remove_logs_in_range c now b start end) j ≡ held c K L now b j)
  unfolding remove_logs_in_range get_logs_in_range logs_of
  get_logs-remove_logs b start end i =
      let ks = range_keys b.log_index start end in
      let b' = delete_keys c now b ks in
      let i' = delete_keys-IsCoherent c K L now b ks i in
      let left = λ (j : GoString). held-delete_keys c K L now b ks j i in
      (
        ap (logs_of c b') (
            empty_range L b.log_index b'.log_index start end i.logs.exact i'.logs.exact (λ j.
              ap (λ t. t.2) (left j)
              ∙ branch (is_deleted j ks) (λ (t : Option c.Bytes × Option ℤ × Option ℤ). t.2)
                  (none, none, none) (held c K L now b j))),
        λ j kept. left j ∙ rw kept refl,
      )
