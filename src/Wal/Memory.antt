-- ===== src/Wal/Memory.antt =====
-- A log in memory that behaves as documented, for tests.
use otel_tail_sampler.Base.{
  ℕ, suc, ◌+◌, ◌-◌, ◌<◌, ◌≡◌, refl, false, Option, none, some, List, [], ◌∷◌, ◌++◌, length,
  get_elem?, drop, ltb, ◌==◌, if◌then◌else◌, arith,
}
use otel_tail_sampler.Wal.{WalStore}
use otel_tail_sampler.Wal.Laws.{IsLawful}

-- No entry, or some behind a number of entries that were truncated.
pub data Segment (B : Type 0) : Type 0 where
  empty : Segment B
  filled : ℕ → B → List B → Segment B

module _ {B : Type 0} where
  abbrev first : Segment B → ℕ
  first empty = 1
  first (filled before b bs) = suc before

  abbrev pub entries : Segment B → List B
  entries empty = []
  entries (filled before b bs) = b ∷ bs

  abbrev first_index : Segment B → Option ℕ
  first_index empty = some 0
  first_index (filled before b bs) = some (suc before)

  abbrev append : Segment B → B → Segment B
  append empty d = filled 0 d []
  append (filled before b bs) d = filled before b (bs ++ d ∷ [])

  abbrev from_index : ℕ → List B → Option (Segment B)
  from_index i [] = none
  from_index i (b ∷ bs) = some (filled (i - 1) b bs)

  abbrev read : Segment B → ℕ → Option B
  read s i = if ltb i (first s) then none else get_elem? (entries s) (i - first s)

  abbrev write : Segment B → ℕ → B → Option (Segment B)
  write s i b = if i == first s + length (entries s) then some (append s b) else none

  abbrev truncate_front : Segment B → ℕ → Option (Segment B)
  truncate_front s i =
      if ltb i (first s) then none else from_index i (drop (i - first s) (entries s))

abbrev pub memory : (B : Type 0) → WalStore B
memory B = record {
  State = Segment B;
  first_index = first_index;
  last_index = λ s. some (first s + length (entries s) - 1);
  read = read;
  write = write;
  truncate_front = truncate_front;
}

module _ {B : Type 0} where
  read-eq : (s : Segment B) (i : ℕ) → read s (first s + i) ≡ get_elem? (entries s) i
  read-eq s i =
      let low : ltb (first s + i) (first s) ≡ false = ground arith in
      let off : first s + i - first s ≡ i = omega arith in rw (low, off) refl

  entries-append :
      (s : Segment B) (b : B)
      → (entries (append s b) ≡ entries s ++ b ∷ []) × (first (append s b) ≡ first s)
  entries-append empty b = (refl, refl)
  entries-append (filled n c bs) b = (refl, refl)

  entries-write :
      (s s' : Segment B) (b : B)
      → write s (first s + length (entries s)) b ≡ some s'
      → (entries s' ≡ entries s ++ b ∷ []) × (first s' ≡ first s)
  entries-write s s' b h = ground (arith, entries-append s b)

  entries-from_index :
      (i : ℕ) (l : List B) (s : Segment B) → from_index i l ≡ some s → entries s ≡ l
  entries-from_index i [] s h = cc
  entries-from_index i (b ∷ bs) s h = ground arith

  entries-truncate_front :
      (s s' : Segment B) (n : ℕ)
      → truncate_front s (first s + n) ≡ some s'
      → entries s' ≡ drop n (entries s)
  entries-truncate_front s s' n h =
      let low : ltb (first s + n) (first s) ≡ false = ground arith in
      let off : first s + n - first s ≡ n = omega arith in
      entries-from_index (first s + n) (drop n (entries s)) s' (rw (low, off) at h)

  drop-length : (l : List B) → drop (length l) l ≡ []
  drop-length [] = refl
  drop-length (b ∷ l) = drop-length l

  truncate_front-beyond : (s : Segment B) → truncate_front s (first s + length (entries s)) ≡ none
  truncate_front-beyond s =
      let low : ltb (first s + length (entries s)) (first s) ≡ false = ground arith in
      let off : first s + length (entries s) - first s ≡ length (entries s) = omega arith in
      rw (low, off, drop-length (entries s)) refl

  first_pos : (s : Segment B) → 0 < first s
  first_pos empty = omega arith
  first_pos (filled n b bs) = omega arith

  first-empty : (s : Segment B) → entries s ≡ [] → first s ≡ 1
  first-empty empty h = refl
  first-empty (filled n b bs) h = cc

  first_index-empty : (s : Segment B) → entries s ≡ [] → first_index s ≡ some 0
  first_index-empty empty h = refl
  first_index-empty (filled n b bs) h = cc

  first_index-cons :
      (s : Segment B) (b : B) (bs : List B) → entries s ≡ b ∷ bs → first_index s ≡ some (first s)
  first_index-cons empty b bs h = cc
  first_index-cons (filled n c ds) b bs h = refl

  read-zero : (s : Segment B) → read s 0 ≡ none
  read-zero empty = refl
  read-zero (filled n b bs) = ground arith

pub memory-IsLawful : (B : Type 0) → IsLawful (memory B)
memory-IsLawful B = record {
  entries = entries;
  first = first;
  first_pos = first_pos;
  first-empty = first-empty;
  first_index-empty = first_index-empty;
  first_index-cons = first_index-cons;
  last_index-eq = λ s. refl;
  read-eq = read-eq;
  read-zero = read-zero;
  entries-write = entries-write;
  entries-truncate_front = entries-truncate_front;
  truncate_front-beyond = truncate_front-beyond;
}

pub entries-memory : (B : Type 0) (s : Segment B) → (memory-IsLawful B).entries s ≡ entries s
unfolding memory-IsLawful
entries-memory B s = refl
