-- ===== src/Buffer/Libraries/Failures.antt =====
-- github.com/allegro/bigcache when Set returns an error.
use otel_tail_sampler.Base.{◌≡◌, ◌⊎◌, ℕ, false, none, [], ◌∷◌, ltb, length, Bool-cases, inl, inr}
use otel_tail_sampler.Base.Text.{GoString}
use otel_tail_sampler.Buffer.Libraries.{Cache}
use otel_tail_sampler.Buffer.Libraries.Lists.{cache, cache_set}
use otel_tail_sampler.GoMap.{GoMap}

-- An entry that is too long is not half written: what was there is kept or lost.
pub record IsAtomic {B : Type 0} (C : Cache B) : Type 0 where
  pub get-set_failed :
      (s : C.State) (k : GoString) (b : B)
      → (C.set s k b).ok ≡ false
      → (C.get (C.set s k b).state k ≡ none) ⊎ (C.get (C.set s k b).state k ≡ C.get s k)

-- The cache on lists never fails.
pub cache-IsAtomic : (B : Type 0) (capacity : ℕ) → IsAtomic (cache B capacity)
cache-IsAtomic B capacity = record { get-set_failed = λ s k b h. elim (takes s k b h) [ ] }
  where
    takes : (s : GoMap B) (k : GoString) (b : B) → (cache_set capacity s k b).ok ≡ false → ⊥
    takes [] k b h = cc
    takes (e ∷ s) k b h = elim (Bool-cases (ltb (length s) capacity)) [
      | inl room ↦ let e' = rw (room, cache_set) at h in cc
      | inr full ↦ let e' = rw (full, cache_set) at h in cc
    ]
