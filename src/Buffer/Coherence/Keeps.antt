-- ===== src/Buffer/Coherence/Keeps.antt =====
-- The accesses of internal/buffer/buffer.go to its cache, and the two indices.
use mathlib.Core.Path.{subst}
use otel_tail_sampler.Base.{
  ◌≡◌, ◌≢◌, refl, sym, ap, ◌∙◌, Bool, true, false, none, some, List, [], ◌∷◌, ◌⊎◌, inl, inr,
  Bool-cases, Option-cases, arith,
}
use otel_tail_sampler.Base.Int.{ℤ}
use otel_tail_sampler.Base.Text.{GoString, eqb, eqb_iff}
use otel_tail_sampler.Pdata.{Pcommon, Float64}
use otel_tail_sampler.Codecs.{Codecs}
use otel_tail_sampler.GoMap.{lookup, lookup-insert}
use otel_tail_sampler.Buffer.Libraries.{
  Removed, deleted, Cache, IsCache, BTree, IsBTree, is_removed,
}
use otel_tail_sampler.Buffer.State.{
  Buffer, TimeIndex, index_key, is_metric, callbacks, cache_set, cache_delete, cache_clean,
  delete_keys,
}
use otel_tail_sampler.Buffer.Coherence.{is_only_log, IsIndexOf, IsCoherent}
use otel_tail_sampler.Buffer.Coherence.Index.{
  forget_all, in-forget_all, forget_all-OfKind, forget_all-IsExact, index_key-IsExact,
  forget_all-missing,
}
use otel_tail_sampler.Buffer.Coherence.Callbacks.{frame, frame-callbacks}

module _ {T : BTree} (L : IsBTree T) {B : Type 0} {C : Cache B} where
  -- A step of the cache that loses only entries for which it makes the callback.
  pub forget_all-IsIndexOf :
      {kind : GoString → Bool} (s s' : C.State) (x : TimeIndex T) (rs : List (Removed B))
      → ((k : GoString)
          → lookup k x.key_map ≢ none
          → is_removed k rs ≡ false
          → C.get s k ≢ none
          → C.get s' k ≢ none)
      → IsIndexOf L C s kind x
      → IsIndexOf L C s' kind (forget_all x rs)
  forget_all-IsIndexOf s s' x rs loses i = record {
    exact = forget_all-IsExact L x rs i.exact;
    of_kind = forget_all-OfKind x rs i.of_kind;
    cached = λ k present.
        let (kept, was) = in-forget_all x rs k present in loses k was kept (i.cached k was);
  }

  pub index_key-IsIndexOf :
      {kind : GoString → Bool} (s : C.State) (x : TimeIndex T) (key : GoString) (ts : ℤ)
      → lookup key x.key_map ≡ none
      → kind key ≡ true
      → C.get s key ≢ none
      → IsIndexOf L C s kind x
      → IsIndexOf L C s kind (index_key x key ts)
  unfolding index_key
  index_key-IsIndexOf {kind = kind} s x key ts fresh right stored i = record {
    exact = index_key-IsExact L x key ts fresh i.exact;
    of_kind = λ k present. elim (Bool-cases (eqb key k)) [
      | inl same ↦ subst (λ j. kind j ≡ true) ((eqb_iff key k).0 same) right
      | inr other ↦
          i.of_kind k
            (λ missing. present (lookup-insert key k ts x.key_map ∙ rw (other, missing) refl))
    ];
    cached = λ k present. elim (Bool-cases (eqb key k)) [
      | inl same ↦ subst (λ j. C.get s j ≢ none) ((eqb_iff key k).0 same) stored
      | inr other ↦
          i.cached k
            (λ missing. present (lookup-insert key k ts x.key_map ∙ rw (other, missing) refl))
    ];
  }

module _ {P : Pcommon} {F : Float64} (c : Codecs P F) {C : Cache c.Bytes} (K : IsCache C)
    {T : BTree} (L : IsBTree T) (now : ℤ) where
  -- The callbacks after a step of the cache.
  pub callbacks-IsCoherent :
      (b : Buffer c C T) (s' : C.State) (rs : List (Removed c.Bytes))
      → ((k : GoString)
          → (lookup k b.metric_index.key_map ≢ none) ⊎ (lookup k b.log_index.key_map ≢ none)
          → is_removed k rs ≡ false
          → C.get b.cache k ≢ none
          → C.get s' k ≢ none)
      → IsCoherent c L b
      → IsCoherent c L (callbacks c now (record b { cache = s' }) rs)
  callbacks-IsCoherent b s' rs loses i =
      let after = record b { cache = s' } in
      let e = frame-callbacks c now after rs i.metrics.of_kind i.logs.of_kind in
      record {
        metrics =
            subst (λ t. IsIndexOf L C t.0 is_metric t.1) (sym e)
              (forget_all-IsIndexOf L b.cache s' b.metric_index rs (λ k p. loses k (inl p))
                i.metrics);
        logs =
            subst (λ t. IsIndexOf L C t.0 is_only_log t.2) (sym e)
              (forget_all-IsIndexOf L b.cache s' b.log_index rs (λ k p. loses k (inr p)) i.logs);
      }

  pub cache_set-IsCoherent :
      (b : Buffer c C T) (key : GoString) (entry : c.Bytes)
      → lookup key b.metric_index.key_map ≡ none
      → lookup key b.log_index.key_map ≡ none
      → IsCoherent c L b
      → IsCoherent c L (cache_set c now b key entry).0
  unfolding cache_set
  cache_set-IsCoherent b key entry no_metric no_log i =
      let r = C.set b.cache key entry in
      callbacks-IsCoherent b r.state r.removed
        (λ k indexed kept was. elim (Bool-cases (eqb key k)) [
          | inl same ↦
              let e = (eqb_iff key k).0 same in
              elim indexed [
                | inl p ↦
                    elim (p (ap (λ j. lookup j b.metric_index.key_map) (sym e) ∙ no_metric)) [ ]
                | inr p ↦ elim (p (ap (λ j. lookup j b.log_index.key_map) (sym e) ∙ no_log)) [ ]
              ]
          | inr other ↦
              λ gone. was (sym (K.get-set b.cache key k entry other ∙ rw kept refl) ∙ gone)
        ])
        i

  pub frame-cache_set :
      (b : Buffer c C T) (key : GoString) (entry : c.Bytes)
      → IsCoherent c L b
      → frame c (cache_set c now b key entry).0 ≡ (
        (C.set b.cache key entry).state,
        forget_all b.metric_index (C.set b.cache key entry).removed,
        forget_all b.log_index (C.set b.cache key entry).removed,
      )
  unfolding cache_set
  frame-cache_set b key entry i =
      let r = C.set b.cache key entry in
      frame-callbacks c now (record b { cache = r.state }) r.removed i.metrics.of_kind
        i.logs.of_kind

  pub get-cache_set :
      (b : Buffer c C T) (key : GoString) (entry : c.Bytes)
      → IsCoherent c L b
      → (C.set b.cache key entry).ok ≡ true
      → C.get (cache_set c now b key entry).0.cache key ≡ some entry
  get-cache_set b key entry i ok =
      ap (λ t. C.get t.0 key) (frame-cache_set b key entry i) ∙ K.get-set_self b.cache key entry ok

  -- A key that an index does not hold is not added by a write.
  pub metric_missing-cache_set :
      (b : Buffer c C T) (key j : GoString) (entry : c.Bytes)
      → IsCoherent c L b
      → lookup j b.metric_index.key_map ≡ none
      → lookup j (cache_set c now b key entry).0.metric_index.key_map ≡ none
  metric_missing-cache_set b key j entry i missing =
      ap (λ t. lookup j t.1.key_map) (frame-cache_set b key entry i)
      ∙ forget_all-missing b.metric_index (C.set b.cache key entry).removed j missing

  pub log_missing-cache_set :
      (b : Buffer c C T) (key j : GoString) (entry : c.Bytes)
      → IsCoherent c L b
      → lookup j b.log_index.key_map ≡ none
      → lookup j (cache_set c now b key entry).0.log_index.key_map ≡ none
  log_missing-cache_set b key j entry i missing =
      ap (λ t. lookup j t.2.key_map) (frame-cache_set b key entry i)
      ∙ forget_all-missing b.log_index (C.set b.cache key entry).removed j missing

  pub cache_clean-IsCoherent :
      (b : Buffer c C T) → IsCoherent c L b → IsCoherent c L (cache_clean c now b)
  unfolding cache_clean
  cache_clean-IsCoherent b i =
      callbacks-IsCoherent b (C.clean b.cache).0 (C.clean b.cache).1
        (λ k indexed kept was gone. was (sym (K.get-clean b.cache k ∙ rw kept refl) ∙ gone)) i

  pub cache_delete-callbacks :
      (b : Buffer c C T) (key : GoString) (entry : c.Bytes)
      → C.get b.cache key ≡ some entry
      → cache_delete c now b key
        ≡ callbacks c now
            (record b { cache = (C.delete b.cache key).0 })
            (record { key = key; entry = entry; reason = deleted } ∷ [])
  unfolding cache_delete callbacks
  cache_delete-callbacks b key entry present =
      rw (K.deleted_entry b.cache key ∙ present, cache_delete) refl

  pub cache_delete-missing :
      (b : Buffer c C T) (key : GoString)
      → C.get b.cache key ≡ none
      → cache_delete c now b key
        ≡ callbacks c now (record b { cache = (C.delete b.cache key).0 }) []
  unfolding cache_delete callbacks
  cache_delete-missing b key missing = rw (K.deleted_entry b.cache key ∙ missing, cache_delete) refl

  pub cache_delete-IsCoherent :
      (b : Buffer c C T) (key : GoString)
      → IsCoherent c L b
      → IsCoherent c L (cache_delete c now b key)
  cache_delete-IsCoherent b key i =
      let s' = (C.delete b.cache key).0 in
      elim (Option-cases (C.get b.cache key)) [
        | inl missing ↦ subst (IsCoherent c L) (sym (cache_delete-missing b key missing)) (
            callbacks-IsCoherent b s' []
              (λ k indexed kept was. elim (Bool-cases (eqb key k)) [
                | inl same ↦
                    elim (was (ap (C.get b.cache) (sym ((eqb_iff key k).0 same)) ∙ missing)) [ ]
                | inr other ↦ λ gone. was (sym (K.get-delete b.cache key k ∙ rw other refl) ∙ gone)
              ])
              i)
        | inr (entry, present) ↦
            subst (IsCoherent c L) (sym (cache_delete-callbacks b key entry present)) (
              callbacks-IsCoherent b s' (record { key = key; entry = entry; reason = deleted } ∷ [])
                (λ k indexed kept was gone.
                  let other : eqb key k ≡ false = ground arith in
                  was (sym (K.get-delete b.cache key k ∙ rw other refl) ∙ gone))
                i)
      ]

  pub delete_keys-IsCoherent :
      (b : Buffer c C T) (ks : List GoString)
      → IsCoherent c L b
      → IsCoherent c L (delete_keys c now b ks)
  unfolding delete_keys
  delete_keys-IsCoherent b [] i = i
  delete_keys-IsCoherent b (k ∷ ks) i =
      delete_keys-IsCoherent (cache_delete c now b k) ks (cache_delete-IsCoherent b k i)
