-- ===== src/Groups/Failures.antt =====
-- When merging panics: on an element that has no merge with anything, and on one that has none with
-- what an element before it left.
use mathlib.Core.Path.{subst}
use otel_tail_sampler.Base.{
  ◌≡◌, refl, sym, Option, none, some, List, [], ◌∷◌, Option-cases, inl, inr, ◌⊎◌,
}
use otel_tail_sampler.Base.Text.{GoString}
use otel_tail_sampler.Groups.{find, Groups, add?, add_all?}
use otel_tail_sampler.Groups.Slots.{InRange, HasSlot, update?-fails, add?-HasSlot, add?-InRange}

-- Some element of a list.
abbrev pub Any : {A : Type 0} → (A → Type 0) → List A → Type 0
Any P [] = ⊥
Any P (a ∷ l) = P a ⊎ Any P l

module _ {A S : Type 0} (key : S → GoString) (join : A → S → Option A) (fresh : S → Option A) where
  add?-slot_fails :
      (P : A → Type 0) (g : Groups A) (s : S)
      → ((a : A) → P a → join a s ≡ none)
      → HasSlot P g (key s)
      → add? key join fresh g s ≡ none
  unfolding add?
  add?-slot_fails P g s fails (i, a, at, is, p) =
      rw (at, add?, update?-fails (λ x. join x s) g.slice i a is (fails a p)) refl

  -- An element that has no merge makes all fail.
  pub add_all?-bad :
      (Bad : S → Type 0)
      → ((a : A) (s : S) → Bad s → join a s ≡ none)
      → ((s : S) → Bad s → fresh s ≡ none)
      → (g : Groups A) (ss : List S) → InRange g
      → Any Bad ss
      → add_all? key join fresh g ss ≡ none
  unfolding add_all? add?
  add_all?-bad Bad joins starts g [] ranges some_bad = elim some_bad [ ]
  add_all?-bad Bad joins starts g (s ∷ ss) ranges (inl bad) =
      elim (Option-cases (find g.index (key s))) [
        | inl new ↦ rw (new, add_all?, add?, starts s bad) refl
        | inr (i, old) ↦
            let (a, is) = ranges (key s) i old in
            let fails = update?-fails (λ x. join x s) g.slice i a is (joins a s bad) in
            rw (old, add_all?, add?, fails) refl
      ]
  add_all?-bad Bad joins starts g (s ∷ ss) ranges (inr later) =
      elim (Option-cases (add? key join fresh g s)) [
        | inl fails ↦ rw (fails, add_all?) refl
        | inr (g1, done) ↦
            rw (done, add_all?)
              (add_all?-bad Bad joins starts g1 ss (add?-InRange key join fresh g g1 s done ranges)
                later)
      ]

  -- So does one that has no merge with what is in its slot, whatever is merged in between.
  pub add_all?-slot_fails :
      (P : A → Type 0) (Bad : S → Type 0) (k : GoString)
      → ((a b : A) (s : S) → P a → join a s ≡ some b → P b)
      → ((a : A) (s : S) → Bad s → P a → join a s ≡ none)
      → (g : Groups A) (ss : List S) → HasSlot P g k
      → Any (λ s. Bad s × (key s ≡ k)) ss
      → add_all? key join fresh g ss ≡ none
  unfolding add_all?
  add_all?-slot_fails P Bad k keeps joins g [] slot some_bad = elim some_bad [ ]
  add_all?-slot_fails P Bad k keeps joins g (s ∷ ss) slot (inl (bad, same)) =
      let fails =
        add?-slot_fails P g s (λ a p. joins a s bad p) (subst (HasSlot P g) (sym same) slot) in
      rw (fails, add_all?) refl
  add_all?-slot_fails P Bad k keeps joins g (s ∷ ss) slot (inr later) =
      elim (Option-cases (add? key join fresh g s)) [
        | inl fails ↦ rw (fails, add_all?) refl
        | inr (g1, done) ↦
            rw (done, add_all?)
              (add_all?-slot_fails P Bad k keeps joins g1 ss
                (add?-HasSlot key join fresh P g g1 s k (λ a b. keeps a b s) done slot) later)
      ]
