-- ===== src/GoMap.antt =====
-- Go's `map[string]V` as an association list: reading, writing and deleting a key. Where the source
-- ranges over a map, the order is a parameter there.
use mathlib.Core.List
use otel_tail_sampler.Base.{
  ◌≡◌, refl, ◌∙◌, false, Bool-cases, inl, inr, Option, none, some, List, [], ◌∷◌, arith,
  if◌then◌else◌,
}
use otel_tail_sampler.Base.Text.{GoString, eqb, eqb_iff}

abbrev pub GoMap : Type 0 → Type 0
GoMap V = List (GoString × V)

module _ {V : Type 0} where
  unfoldable pub lookup : GoString → GoMap V → Option V
  lookup k [] = none
  lookup k ((j, v) ∷ m) = if eqb j k then some v else lookup k m

  unfoldable pub insert : GoString → V → GoMap V → GoMap V
  insert k v [] = (k, v) ∷ []
  insert k v ((j, w) ∷ m) = if eqb j k then (j, v) ∷ m else (j, w) ∷ insert k v m

  unfoldable pub erase : GoString → GoMap V → GoMap V
  erase k [] = []
  erase k ((j, w) ∷ m) = let rest = erase k m in if eqb j k then rest else (j, w) ∷ rest

  abbrev pub keys : GoMap V → List GoString
  keys = List.map (λ e. e.0)

  pub lookup-insert :
      (k j : GoString) (v : V) (m : GoMap V)
      → lookup j (insert k v m) ≡ (if eqb k j then some v else lookup j m)
  unfolding lookup insert
  lookup-insert k j v [] = refl
  lookup-insert k j v ((i, w) ∷ m) =
      ground (arith, eqb_iff k j, eqb_iff i k, eqb_iff i j, lookup-insert k j v m)

  pub lookup-erase :
      (k j : GoString) (m : GoMap V) → lookup j (erase k m) ≡ (if eqb k j then none else lookup j m)
  unfolding lookup erase
  lookup-erase k j [] = ground arith
  lookup-erase k j ((i, w) ∷ m) =
      ground (arith, eqb_iff k j, eqb_iff i k, eqb_iff i j, lookup-erase k j m)

  -- No key stands twice in the association list.
  abbrev pub IsDistinct : GoMap V → Type 0
  IsDistinct [] = Unit
  IsDistinct ((j, w) ∷ m) = (lookup j m ≡ none) × IsDistinct m

  pub insert-IsDistinct :
      (k : GoString) (v : V) (m : GoMap V) → IsDistinct m → IsDistinct (insert k v m)
  unfolding insert lookup
  insert-IsDistinct k v [] h = (refl, tt)
  insert-IsDistinct k v ((j, w) ∷ m) (new, h) = elim (Bool-cases (eqb j k)) [
    | inl same ↦ rw (same, insert) (new, h)
    | inr other ↦
        let other' : eqb k j ≡ false = ground (arith, eqb_iff j k, eqb_iff k j) in
        rw (other, insert) (lookup-insert k j v m ∙ rw other' new, insert-IsDistinct k v m h)
  ]
