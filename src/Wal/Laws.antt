-- ===== src/Wal/Laws.antt =====
-- What internal/wal/manager.go relies on: tidwall/wal keeps its entries in order under consecutive
-- indices from 1.
use otel_tail_sampler.Base.{
  ℕ, ◌+◌, ◌-◌, ◌<◌, ◌≡◌, none, some, List, [], ◌∷◌, ◌++◌, length, get_elem?, drop,
}
use otel_tail_sampler.Wal.{WalStore}

-- The entries of a log, and the index of the first: what the log says of itself and how its
-- operations change them where they succeed. FirstIndex and LastIndex of an empty log are 0.
pub record IsLawful {B : Type 0} (W : WalStore B) : Type 0 where
  pub entries : W.State → List B
  pub first : W.State → ℕ
  pub first_pos : (s : W.State) → 0 < first s
  pub first-empty : (s : W.State) → entries s ≡ [] → first s ≡ 1
  pub first_index-empty : (s : W.State) → entries s ≡ [] → W.first_index s ≡ some 0
  pub first_index-cons :
      (s : W.State) (b : B) (bs : List B) → entries s ≡ b ∷ bs → W.first_index s ≡ some (first s)
  pub last_index-eq : (s : W.State) → W.last_index s ≡ some (first s + length (entries s) - 1)
  pub read-eq : (s : W.State) (i : ℕ) → W.read s (first s + i) ≡ get_elem? (entries s) i
  pub read-zero : (s : W.State) → W.read s 0 ≡ none
  pub entries-write :
      (s s' : W.State) (b : B)
      → W.write s (first s + length (entries s)) b ≡ some s'
      → (entries s' ≡ entries s ++ b ∷ []) × (first s' ≡ first s)
  pub entries-truncate_front :
      (s s' : W.State) (n : ℕ)
      → W.truncate_front s (first s + n) ≡ some s'
      → entries s' ≡ drop n (entries s)
  -- An index behind the last entry is out of range.
  pub truncate_front-beyond :
      (s : W.State) → W.truncate_front s (first s + length (entries s)) ≡ none
