-- ===== src/Buffer/Removal.antt =====
-- internal/buffer/buffer.go: which keys are left in the indices and in the cache after deletions.
pub mod Ranges
use otel_tail_sampler.Base.{
  ◌≡◌, ◌≢◌, refl, sym, ap, ◌∙◌, ℕ, Bool, true, false, ◌||◌, Option, none, some, List, [], ◌∷◌, inl,
  inr, any, Bool-cases, Option-cases, arith, if◌then◌else◌,
}
use otel_tail_sampler.Base.Int.{ℤ}
use otel_tail_sampler.Base.Text.{GoString, eqb, eqb_iff, eqb_refl}
use otel_tail_sampler.Pdata.{Pcommon, Float64}
use otel_tail_sampler.Codecs.{Codecs}
use otel_tail_sampler.GoMap.{lookup}
use otel_tail_sampler.Buffer.Libraries.{
  Removed, deleted, Cache, IsCache, BTree, IsBTree, is_removed,
}
use otel_tail_sampler.Buffer.State.{
  Buffer, TimeIndex, cache_delete, delete_keys, callbacks, is_metric,
}
use otel_tail_sampler.Buffer.Coherence.{IsCoherent, IsIndexOf, is_only_log}
use otel_tail_sampler.Buffer.Coherence.Index.{forget_all, lookup-forget_all}
use otel_tail_sampler.Buffer.Coherence.Callbacks.{frame, frame-callbacks}
use otel_tail_sampler.Buffer.Coherence.Keeps.{
  cache_delete-IsCoherent, delete_keys-IsCoherent, cache_delete-callbacks, cache_delete-missing,
}

abbrev pub is_deleted : GoString → List GoString → Bool
is_deleted j = any (λ k. eqb k j)

module _ {P : Pcommon} {F : Float64} (c : Codecs P F) {C : Cache c.Bytes} (K : IsCache C)
    {T : BTree} (L : IsBTree T) (now : ℤ) where
  -- What a buffer holds under a key: the entry, and the times in the two indices.
  abbrev pub held : Buffer c C T → GoString → Option c.Bytes × Option ℤ × Option ℤ
  held b j = (C.get b.cache j, lookup j b.metric_index.key_map, lookup j b.log_index.key_map)

  abbrev pub nothing : Option c.Bytes × Option ℤ × Option ℤ
  nothing = (none, none, none)

  -- Under a key that is not in the cache there is nothing.
  nothing-held :
      (b : Buffer c C T) (j : GoString)
      → IsCoherent c L b
      → C.get b.cache j ≡ none
      → held b j ≡ nothing
  nothing-held b j i missing =
      rw
        (
          missing,
          absent (lookup j b.metric_index.key_map) (i.metrics.cached j),
          absent (lookup j b.log_index.key_map) (i.logs.cached j),
        )
        refl
    where
      absent : (o : Option ℤ) → (o ≢ none → C.get b.cache j ≢ none) → o ≡ none
      absent none h = refl
      absent (some ts) h = elim (h (λ e. cc) missing) [ ]

  held-callbacks :
      (b : Buffer c C T) (s' : C.State) (rs : List (Removed c.Bytes)) (j : GoString)
      → IsCoherent c L b
      → held (callbacks c now (record b { cache = s' }) rs) j ≡ (
        C.get s' j,
        (if is_removed j rs then none else lookup j b.metric_index.key_map),
        (if is_removed j rs then none else lookup j b.log_index.key_map),
      )
  held-callbacks b s' rs j i =
      ap (λ t. (C.get t.0 j, lookup j t.1.key_map, lookup j t.2.key_map))
        (frame-callbacks c now (record b { cache = s' }) rs i.metrics.of_kind i.logs.of_kind)
      ∙ rw (lookup-forget_all b.metric_index rs j, lookup-forget_all b.log_index rs j) refl

  -- Deleting a key leaves nothing under it, and leaves all other keys alone.
  pub held-cache_delete :
      (b : Buffer c C T) (key j : GoString)
      → IsCoherent c L b
      → held (cache_delete c now b key) j ≡ (if eqb key j then nothing else held b j)
  held-cache_delete b key j i =
      let s' = (C.delete b.cache key).0 in
      elim (Option-cases (C.get b.cache key)) [
        | inl missing ↦
            ap (λ b'. held b' j) (cache_delete-missing c K L now b key missing)
            ∙ held-callbacks b s' [] j i
            ∙ rw (K.get-delete b.cache key j) (elim (Bool-cases (eqb key j)) [
              | inl same ↦ rw same (
                  ap (λ t. (none, t.1, t.2))
                    (nothing-held b j i
                      (ap (C.get b.cache) (sym ((eqb_iff key j).0 same)) ∙ missing)))
              | inr other ↦ rw other refl
            ])
        | inr (entry, present) ↦
            ap (λ b'. held b' j) (cache_delete-callbacks c K L now b key entry present)
            ∙ held-callbacks b s' (record { key = key; entry = entry; reason = deleted } ∷ []) j i
            ∙ rw (K.get-delete b.cache key j) (elim (Bool-cases (eqb key j)) [
              | inl same ↦ rw same refl
              | inr other ↦ rw other refl
            ])
      ]

  -- Deleting some keys leaves nothing under them, and leaves all other keys alone.
  pub held-delete_keys :
      (b : Buffer c C T) (ks : List GoString) (j : GoString)
      → IsCoherent c L b
      → held (delete_keys c now b ks) j ≡ (if is_deleted j ks then nothing else held b j)
  unfolding delete_keys
  held-delete_keys b [] j i = refl
  held-delete_keys b (k ∷ ks) j i =
      held-delete_keys (cache_delete c now b k) ks j (cache_delete-IsCoherent c K L now b k i)
      ∙ elim (Bool-cases (eqb k j)) [
        | inl same ↦
            let gone : held (cache_delete c now b k) j ≡ nothing =
              held-cache_delete b k j i ∙ rw same refl in
            rw (same, gone)
              (elim (Bool-cases (is_deleted j ks)) [ inl e ↦ rw e refl | inr e ↦ rw e refl ])
        | inr other ↦ rw (held-cache_delete b k j i, other) refl
      ]

  -- The entry of a key that was deleted.
  pub get-cache_delete :
      (b : Buffer c C T) (key : GoString)
      → IsCoherent c L b
      → C.get (cache_delete c now b key).cache key ≡ none
  get-cache_delete b key i =
      ap (λ t. t.0) (held-cache_delete b key key i)
      ∙ ap (λ e. (if e then nothing else held b key).0) (eqb_refl key)
