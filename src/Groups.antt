-- ===== src/Groups.antt =====
-- The `map[string]T` of references into a slice, by which internal/rollup/rollup.go merges what has
-- the same key: a reference is a position, and the key that was stored last is found first.
pub mod Totals
pub mod Batches
pub mod Safety
pub mod Slots
pub mod Failures
use mathlib.Core.Option
use mathlib.Core.List.{foldl}
use otel_tail_sampler.Base.{
  ℕ, zero, suc, Option, none, some, List, [], ◌∷◌, ◌++◌, length, if◌then◌else◌,
}
use otel_tail_sampler.Base.Text.{GoString, eqb}

abbrev pub Index : Type 0
Index = List (GoString × ℕ)

unfoldable pub find : Index → GoString → Option ℕ
find [] k = none
find ((j, i) ∷ m) k = if eqb j k then some i else find m k

module _ {A : Type 0} where
  -- The loop that indexes what is in the slice already.
  unfoldable pub index_from : (A → GoString) → ℕ → List A → Index → Index
  index_from key_of i [] m = m
  index_from key_of i (a ∷ as') m = index_from key_of (suc i) as' ((key_of a, i) ∷ m)

  unfoldable pub update : List A → ℕ → (A → A) → List A
  update [] i f = []
  update (a ∷ as') zero f = f a ∷ as'
  update (a ∷ as') (suc i) f = a ∷ update as' i f

  -- The same where the change may panic.
  unfoldable pub update? : List A → ℕ → (A → Option A) → Option (List A)
  update? [] i f = some []
  update? (a ∷ as') zero f = Option.map (λ b. b ∷ as') (f a)
  update? (a ∷ as') (suc i) f = Option.map (λ bs. a ∷ bs) (update? as' i f)

pub record Groups (A : Type 0) : Type 0 where
  pub slice : List A
  pub index : Index

abbrev pub start : {A : Type 0} → (A → GoString) → List A → Groups A
start key_of dest = record { slice = dest; index = index_from key_of 0 dest [] }

module _ {A S : Type 0} (key : S → GoString) (join : A → S → A) (fresh : S → A) where
  -- One round: into the element of the key, or behind the slice.
  unfoldable pub add : Groups A → S → Groups A
  add g s = elim (find g.index (key s)) [
    | some i ↦ record g { slice = update g.slice i (λ a. join a s) }
    | none ↦ record { slice = g.slice ++ fresh s ∷ []; index = (key s, length g.slice) ∷ g.index }
  ]

  abbrev pub add_all : Groups A → List S → Groups A
  add_all = foldl add

  unfoldable pub merge : (A → GoString) → List A → List S → List A
  unfolding add
  merge key_of dest src = (add_all (start key_of dest) src).slice

-- The same where merging may panic, which is `none`.
module _ {A S : Type 0} (key : S → GoString) (join : A → S → Option A) (fresh : S → Option A) where
  unfoldable pub add? : Groups A → S → Option (Groups A)
  add? g s = elim (find g.index (key s)) [
    | some i ↦ Option.map (λ l. record g { slice = l }) (update? g.slice i (λ a. join a s))
    | none ↦
        Option.map
          (λ a. record { slice = g.slice ++ a ∷ []; index = (key s, length g.slice) ∷ g.index })
          (fresh s)
  ]

  unfoldable pub add_all? : Groups A → List S → Option (Groups A)
  add_all? g [] = some g
  add_all? g (s ∷ ss) = elim (add? g s) [ none ↦ none | some g' ↦ add_all? g' ss ]

  unfoldable pub merge? : (A → GoString) → List A → List S → Option (List A)
  unfolding add? add_all?
  merge? key_of dest src = Option.map (λ g. g.slice) (add_all? (start key_of dest) src)
