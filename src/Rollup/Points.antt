-- ===== src/Rollup/Points.antt =====
-- The aggregation of data points in internal/rollup/rollup.go: keys and integer sums.
use otel_tail_sampler.Base.{
  ℕ, ◌+◌, ◌%◌, ◌≡◌, refl, ◌∙◌, ap, false, none, List, [], ◌∷◌, ◌++◌, All, arith, Bool-cases, inl,
  inr,
}
use otel_tail_sampler.Base.Int.{ℤ, u64_mod, residue64, residue64-wrap64, residue64-+ℤ, wrap64, ◌+ℤ◌}
use otel_tail_sampler.Base.Text.{GoString, eqb}
use otel_tail_sampler.Pdata.{Pcommon, Float64, IsLawful, int, NumberDataPoint}
use otel_tail_sampler.Groups.Batches.{merge-merge}
use otel_tail_sampler.Groups.Totals.{total, total-merge}
use otel_tail_sampler.Rollup.{
  CardinalityLevel, level_fine, level_medium, level_coarse, allowed, pair_text, text_of, attr_key,
  filtered_text_of, filter_attributes_key, copy_allowed, apply_filtered_attributes,
}
use otel_tail_sampler.Rollup.MetricRollup.{
  int_value, add_values, aggregate, new_point, rollup_data_points,
}

module _ (P : Pcommon) where
  abbrev pub IsFresh : GoString → List (GoString × P.Value) → Type 0
  IsFresh k l = All (λ e. eqb k e.0 ≡ false) l

  -- No key is listed twice, as OTLP demands of attributes.
  abbrev pub HasDistinctKeys : List (GoString × P.Value) → Type 0
  HasDistinctKeys [] = Unit
  HasDistinctKeys ((k, v) ∷ l) = IsFresh k l × HasDistinctKeys l

  abbrev Lacks : P.Map → List (GoString × P.Value) → Type 0
  Lacks m l = All (λ e. P.get m e.0 ≡ none) l

  text_of-append :
      (l : List (GoString × P.Value)) (k : GoString) (v : P.Value) (res : GoString)
      → text_of P (l ++ (k, v) ∷ []) res ≡ text_of P l res ++ pair_text P k v
  unfolding text_of
  text_of-append [] k v res = refl
  text_of-append ((j, w) ∷ l) k v res = text_of-append l k v (res ++ pair_text P j w)

module _ (P : Pcommon) (L : IsLawful P) where
  put-Lacks :
      (m : P.Map) (k : GoString) (v : P.Value) (l : List (GoString × P.Value))
      → IsFresh P k l
      → Lacks P m l
      → Lacks P (P.put m k v) l
  put-Lacks m k v [] h n = tt
  put-Lacks m k v ((j, w) ∷ l) (h, hs) (n, ns) =
      (rw (L.get-put m k j v, h) n, put-Lacks m k v l hs ns)

  empty-Lacks : (l : List (GoString × P.Value)) → Lacks P P.empty l
  empty-Lacks [] = tt
  empty-Lacks ((j, w) ∷ l) = (L.get-empty j, empty-Lacks l)

  text_of-copy_allowed :
      (l : List (GoString × P.Value)) (dest : P.Map)
      → HasDistinctKeys P l
      → Lacks P dest l
      → text_of P (P.range (copy_allowed P l dest)) []
        ≡ filtered_text_of P l (text_of P (P.range dest) [])
  unfolding copy_allowed filtered_text_of
  text_of-copy_allowed [] dest d n = refl
  text_of-copy_allowed ((k, v) ∷ l) dest (h, d) (n, ns) = elim (Bool-cases (allowed k)) [
    | inl e ↦ rw e (
        text_of-copy_allowed l (P.put dest k v) d (put-Lacks dest k v l h ns)
        ∙ ap (filtered_text_of P l) (
            ap (λ r. text_of P r []) (L.range-put dest k v n)
            ∙ text_of-append P (P.range dest) k v []))
    | inr e ↦ rw e (text_of-copy_allowed l dest d ns)
  ]

  -- A new point is found again under the key of the point that it was made of.
  pub attr_key-new_point :
      (F : Float64) (level : CardinalityLevel) (s : NumberDataPoint P F)
      → HasDistinctKeys P (P.range s.attributes)
      → attr_key P (new_point P F level s).attributes ≡ filter_attributes_key P level s.attributes
  unfolding attr_key new_point filter_attributes_key apply_filtered_attributes
  attr_key-new_point F level_coarse s d = rw L.range-empty refl
  attr_key-new_point F level_medium s d =
      text_of-copy_allowed (P.range s.attributes) P.empty d (empty-Lacks _) ∙ rw L.range-empty refl
  attr_key-new_point F level_fine s d =
      text_of-copy_allowed (P.range s.attributes) P.empty d (empty-Lacks _) ∙ rw L.range-empty refl

module _ (P : Pcommon) (F : Float64) where
  abbrev pub HasKeys : NumberDataPoint P F → Type 0
  HasKeys s = HasDistinctKeys P (P.range s.attributes)

  abbrev pub IsInt : NumberDataPoint P F → Type 0
  IsInt dp = (z : ℤ) × (dp.value ≡ int z)

  -- The low 64 bits of an integer point.
  abbrev pub low_bits : NumberDataPoint P F → ℕ
  low_bits dp = residue64 (int_value P F dp.value)

  attr_key-aggregate :
      (a s : NumberDataPoint P F)
      → attr_key P (aggregate P F a s).attributes ≡ attr_key P a.attributes
  unfolding aggregate
  attr_key-aggregate a s = refl

  aggregate-IsInt : (a s : NumberDataPoint P F) → IsInt s → IsInt (aggregate P F a s)
  unfolding aggregate add_values
  aggregate-IsInt a s (z, e) = (wrap64 (int_value P F a.value +ℤ z), rw (e, add_values) refl)

  aggregate-low_bits :
      (a s : NumberDataPoint P F)
      → IsInt s
      → low_bits (aggregate P F a s) % u64_mod ≡ (low_bits a + low_bits s) % u64_mod
  unfolding aggregate add_values
  aggregate-low_bits a s (z, e) =
      rw (e, add_values)
        (rw (residue64-wrap64 (int_value P F a.value +ℤ z), residue64-+ℤ (int_value P F a.value) z)
          (omega arith))

module _ (P : Pcommon) (F : Float64) (L : IsLawful P) (level : CardinalityLevel) where
  -- Rolling up integer points keeps their sum, modulo 2 ^ 64: no point is lost or counted twice.
  pub rollup_data_points-total :
      (dest src : List (NumberDataPoint P F))
      → All (HasKeys P F) src
      → All (IsInt P F) dest
      → All (IsInt P F) src
      → All (IsInt P F) (rollup_data_points P F level dest src)
        × (total (low_bits P F) (rollup_data_points P F level dest src) % u64_mod
            ≡ (total (low_bits P F) dest + total (low_bits P F) src) % u64_mod)
  unfolding rollup_data_points
  rollup_data_points-total dest src ks ds ss =
      total-merge (λ dp. attr_key P dp.attributes)
        (λ dp. filter_attributes_key P level dp.attributes) (aggregate P F) (new_point P F level)
        (λ s. HasKeys P F s × IsInt P F s) (attr_key-aggregate P F)
        (λ s r. attr_key-new_point P L F level s r.0) (low_bits P F) (low_bits P F) (IsInt P F)
        (λ a s r _. aggregate-IsInt P F a s r.1) (λ s r. unfold new_point in r.1)
        (λ a s r _. aggregate-low_bits P F a s r.1) (λ s r. unfold new_point in refl) dest src
        (both src ks ss) ds
    where
      both :
          (l : List (NumberDataPoint P F))
          → All (HasKeys P F) l
          → All (IsInt P F) l
          → All (λ s. HasKeys P F s × IsInt P F s) l
      both [] _ _ = tt
      both (x ∷ l) (h, hs) (k, ks') = ((h, k), both l hs ks')

  -- Rolling up points in two batches gives the points of one batch.
  pub rollup_data_points-batches :
      (dest xs ys : List (NumberDataPoint P F))
      → All (HasKeys P F) xs
      → rollup_data_points P F level (rollup_data_points P F level dest xs) ys
        ≡ rollup_data_points P F level dest (xs ++ ys)
  unfolding rollup_data_points
  rollup_data_points-batches dest xs ys ks =
      merge-merge (λ dp. attr_key P dp.attributes)
        (λ dp. filter_attributes_key P level dp.attributes) (aggregate P F) (new_point P F level)
        (HasKeys P F) (attr_key-aggregate P F) (λ s r. attr_key-new_point P L F level s r) dest xs
        ys ks
