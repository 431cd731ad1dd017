-- ===== src/Buffer/Libraries/Room.antt =====
-- github.com/allegro/bigcache while it is not full: entries are taken and nothing is evicted for them.
use otel_tail_sampler.Base.{
  ◌≡◌, refl, ℕ, suc, ◌+◌, ◌≤◌, true, [], ◌∷◌, length, lt→ltb, Bool-cases, inl, inr, arith,
}
use otel_tail_sampler.Base.Text.{GoString, eqb}
use otel_tail_sampler.GoMap.{GoMap, insert}
use otel_tail_sampler.Buffer.Libraries.{Cache}
use otel_tail_sampler.Buffer.Libraries.Lists.{cache}

pub record HasRoom {B : Type 0} (C : Cache B) : Type 1 where
  -- A state that takes this many more entries, before the next clean-up.
  pub room : C.State → ℕ → Type 0
  pub room-less : (s : C.State) (n : ℕ) → room s (suc n) → room s n
  pub ok : (s : C.State) (n : ℕ) (k : GoString) (b : B) → room s (suc n) → (C.set s k b).ok ≡ true
  pub nothing_removed :
      (s : C.State) (n : ℕ) (k : GoString) (b : B) → room s (suc n) → (C.set s k b).removed ≡ []
  pub room-set :
      (s : C.State) (n : ℕ) (k : GoString) (b : B) → room s (suc n) → room (C.set s k b).state n

module _ {B : Type 0} where
  length-insert : (k : GoString) (b : B) (s : GoMap B) → length (insert k b s) ≤ suc (length s)
  unfolding insert
  length-insert k b [] = omega arith
  length-insert k b ((j, d) ∷ s) = elim (Bool-cases (eqb j k)) [
    | inl same ↦ rw (same, insert) (omega arith)
    | inr other ↦ rw (other, insert) (omega (arith, length-insert k b s))
  ]

-- The cache on lists has room until it is full.
pub cache-HasRoom : (B : Type 0) (capacity : ℕ) → HasRoom (cache B capacity)
cache-HasRoom B capacity = record {
  room = λ s n. length s + n ≤ capacity;
  room-less = λ s n h. omega arith;
  ok = takes;
  nothing_removed = keeps;
  room-set = smaller;
}
  where
    takes :
        (s : GoMap B) (n : ℕ) (k : GoString) (b : B)
        → length s + suc n ≤ capacity
        → ((cache B capacity).set s k b).ok ≡ true
    takes [] n k b h = refl
    takes (e ∷ s) n k b h = rw (lt→ltb (length s) capacity (omega arith)) refl

    keeps :
        (s : GoMap B) (n : ℕ) (k : GoString) (b : B)
        → length s + suc n ≤ capacity
        → ((cache B capacity).set s k b).removed ≡ []
    keeps [] n k b h = refl
    keeps (e ∷ s) n k b h = rw (lt→ltb (length s) capacity (omega arith)) refl

    smaller :
        (s : GoMap B) (n : ℕ) (k : GoString) (b : B)
        → length s + suc n ≤ capacity
        → length ((cache B capacity).set s k b).state + n ≤ capacity
    smaller [] n k b h = omega (arith, length-insert k b [])
    smaller (e ∷ s) n k b h =
        rw (lt→ltb (length s) capacity (omega arith)) (omega (arith, length-insert k b (e ∷ s)))

pub room-cache :
    (B : Type 0) (capacity : ℕ) (s : GoMap B) (n : ℕ)
    → length s + n ≤ capacity
    → (cache-HasRoom B capacity).room s n
unfolding cache-HasRoom
room-cache B capacity s n h = h
