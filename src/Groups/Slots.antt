-- ===== src/Groups/Slots.antt =====
-- The slots of internal/rollup/rollup.go: what a position in the map leads to, and what merging makes of
-- it.
use mathlib.Core.Option.{some-injective}
use mathlib.Core.Path.{subst}
use otel_tail_sampler.Base.{
  ℕ, zero, suc, ◌≡◌, refl, ◌∙◌, ap, sym, false, Option, none, some, List, [], ◌∷◌, ◌++◌, length,
  get_elem?, Option-cases, Bool-cases, inl, inr, ◌⊎◌,
}
use otel_tail_sampler.Base.Text.{GoString, eqb, eqb_iff, eqb_refl}
use otel_tail_sampler.Groups.{find, update?, Groups, start, add?, add_all?}
use otel_tail_sampler.Groups.Safety.{start-IsKeyed, get_elem?-append_length, get_elem?-append_left}

module _ {A : Type 0} where
  -- Each position in the index is one of the slice.
  abbrev pub InRange : Groups A → Type 0
  InRange g =
      (k : GoString) (i : ℕ) → find g.index k ≡ some i → (a : A) × (get_elem? g.slice i ≡ some a)

  pub start-InRange : (key_of : A → GoString) (dest : List A) → InRange (start key_of dest)
  start-InRange key_of dest k i h = let (a, e, _) = start-IsKeyed key_of dest k i h in (a, e)

  pub update?-fails :
      (f : A → Option A) (l : List A) (i : ℕ) (a : A)
      → get_elem? l i ≡ some a
      → f a ≡ none
      → update? l i f ≡ none
  unfolding update?
  update?-fails f [] i a e h = cc
  update?-fails f (b ∷ l) zero a e h =
      let h' : f b ≡ none = ap f (some-injective b a e) ∙ h in rw (h', update?) refl
  update?-fails f (b ∷ l) (suc i) a e h = rw (update?-fails f l i a e h, update?) refl

  update?-changes :
      (f : A → Option A) (l l' : List A) (i : ℕ) (a b : A)
      → update? l i f ≡ some l'
      → get_elem? l i ≡ some a
      → f a ≡ some b
      → get_elem? l' i ≡ some b
  unfolding update?
  update?-changes f [] l' i a b u e h = cc
  update?-changes f (x ∷ l) l' zero a b u e h =
      let h' : f x ≡ some b = ap f (some-injective x a e) ∙ h in
      let same : b ∷ l ≡ l' = some-injective _ _ (rw (h', update?) at u) in
      ap (λ m. get_elem? m 0) (sym same)
  update?-changes f (x ∷ l) l' (suc i) a b u e h = elim (Option-cases (update? l i f)) [
    | inl fails ↦ let e' = rw (fails, update?) at u in cc
    | inr (m, done) ↦
        let same : x ∷ m ≡ l' = some-injective _ _ (rw (done, update?) at u) in
        ap (λ q. get_elem? q (suc i)) (sym same) ∙ update?-changes f l m i a b done e h
  ]

  -- An element is as it was or has been changed.
  update?-elem :
      (f : A → Option A) (l l' : List A) (i j : ℕ) (a : A)
      → update? l j f ≡ some l'
      → get_elem? l i ≡ some a
      → (b : A) × (get_elem? l' i ≡ some b) × ((b ≡ a) ⊎ (f a ≡ some b))
  unfolding update?
  update?-elem f [] l' i j a u e = cc
  update?-elem f (x ∷ l) l' i zero a u e = elim (Option-cases (f x)) [
    | inl fails ↦ let e' = rw (fails, update?) at u in cc
    | inr (y, done) ↦
        let same : y ∷ l ≡ l' = some-injective _ _ (rw (done, update?) at u) in
        subst (λ m. (b : A) × (get_elem? m i ≡ some b) × ((b ≡ a) ⊎ (f a ≡ some b))) same
          (changed i e y done)
  ]
    where
      changed :
          (r : ℕ)
          → get_elem? (x ∷ l) r ≡ some a
          → (y : A) → f x ≡ some y
          → (b : A) × (get_elem? (y ∷ l) r ≡ some b) × ((b ≡ a) ⊎ (f a ≡ some b))
      changed zero at y done = (y, refl, inr (ap f (sym (some-injective x a at)) ∙ done))
      changed (suc r) at y done = (a, at, inl refl)
  update?-elem f (x ∷ l) l' i (suc j) a u e = elim (Option-cases (update? l j f)) [
    | inl fails ↦ let e' = rw (fails, update?) at u in cc
    | inr (m, done) ↦
        let same : x ∷ m ≡ l' = some-injective _ _ (rw (done, update?) at u) in
        subst (λ q. (b : A) × (get_elem? q i ≡ some b) × ((b ≡ a) ⊎ (f a ≡ some b))) same
          (kept i e m (λ r at. update?-elem f l m r j a done at))
  ]
    where
      kept :
          (r : ℕ)
          → get_elem? (x ∷ l) r ≡ some a
          → (m : List A)
          → ((q : ℕ)
              → get_elem? l q ≡ some a
              → (b : A) × (get_elem? m q ≡ some b) × ((b ≡ a) ⊎ (f a ≡ some b)))
          → (b : A) × (get_elem? (x ∷ m) r ≡ some b) × ((b ≡ a) ⊎ (f a ≡ some b))
      kept zero at m rest = (x, refl, inl (some-injective x a at))
      kept (suc r) at m rest = rest r at

module _ {A : Type 0} (P : A → Type 0) where
  -- The element of a key, with a property.
  abbrev pub HasSlot : Groups A → GoString → Type 0
  HasSlot g k = (i : ℕ) × (a : A) × (find g.index k ≡ some i) × (get_elem? g.slice i ≡ some a) × P a

module _ {A S : Type 0} (key : S → GoString) (join : A → S → Option A) (fresh : S → Option A) where
  -- Each slot stays one, with what is joined to it.
  pub add?-HasSlot :
      (P : A → Type 0) (g g' : Groups A) (s : S) (k : GoString)
      → ((a b : A) → P a → join a s ≡ some b → P b)
      → add? key join fresh g s ≡ some g'
      → HasSlot P g k
      → HasSlot P g' k
  unfolding add? find
  add?-HasSlot P g g' s k keeps h (i, a, at, is, p) = elim (Option-cases (find g.index (key s))) [
    | inl new ↦ elim (Option-cases (fresh s)) [
      | inl fails ↦ let e = rw (new, add?, fails) at h in cc
      | inr (b, done) ↦
          let other : eqb (key s) k ≡ false = elim (Bool-cases (eqb (key s) k)) [
            | inl same ↦
                let e : find g.index (key s) ≡ find g.index k =
                  ap (find g.index) ((eqb_iff (key s) k).0 same) in
                let absurd : none ≡ some i = sym new ∙ e ∙ at in cc
            | inr e ↦ e
          ] in
          subst (λ x. HasSlot P x k) (some-injective _ _ (rw (new, add?, done) at h))
            (i, a, rw (other, find) at, get_elem?-append_left g.slice (b ∷ []) i a is, p)
    ]
    | inr (j, old) ↦ elim (Option-cases (update? g.slice j (λ x. join x s))) [
      | inl fails ↦ let e = rw (old, add?, fails) at h in cc
      | inr (l, done) ↦
          let (b, is', became) = update?-elem (λ x. join x s) g.slice l i j a done is in
          let p' : P b = elim became [
            | inl same ↦ subst P (sym same) p
            | inr joined ↦ keeps a b p joined
          ] in
          subst (λ x. HasSlot P x k) (some-injective _ _ (rw (old, add?, done) at h))
            (i, b, at, is', p')
    ]
  ]

  -- What an element leaves in the slot of its key.
  pub add?-own_HasSlot :
      (P : A → Type 0) (g g' : Groups A) (s : S)
      → ((a b : A) → join a s ≡ some b → P b)
      → ((b : A) → fresh s ≡ some b → P b)
      → InRange g
      → add? key join fresh g s ≡ some g'
      → HasSlot P g' (key s)
  unfolding add? find
  add?-own_HasSlot P g g' s joins starts ranges h = elim (Option-cases (find g.index (key s))) [
    | inl new ↦ elim (Option-cases (fresh s)) [
      | inl fails ↦ let e = rw (new, add?, fails) at h in cc
      | inr (b, done) ↦
          subst (λ x. HasSlot P x (key s)) (some-injective _ _ (rw (new, add?, done) at h))
            (
              length g.slice,
              b,
              rw (eqb_refl (key s), find) refl,
              get_elem?-append_length g.slice b [],
              starts b done,
            )
    ]
    | inr (j, old) ↦ elim (Option-cases (update? g.slice j (λ x. join x s))) [
      | inl fails ↦ let e = rw (old, add?, fails) at h in cc
      | inr (l, done) ↦
          let (a, is) = ranges (key s) j old in
          elim (Option-cases (join a s)) [
            | inl fails ↦
                let absurd : none ≡ some l =
                  sym (update?-fails (λ x. join x s) g.slice j a is fails) ∙ done in
                cc
            | inr (b, joined) ↦
                subst (λ x. HasSlot P x (key s)) (some-injective _ _ (rw (old, add?, done) at h))
                  (
                    j,
                    b,
                    old,
                    update?-changes (λ x. join x s) g.slice l j a b done is joined,
                    joins a b joined,
                  )
          ]
    ]
  ]

  pub add?-InRange :
      (g g' : Groups A) (s : S) → add? key join fresh g s ≡ some g' → InRange g → InRange g'
  unfolding add? find
  add?-InRange g g' s h ranges = elim (Option-cases (find g.index (key s))) [
    | inl new ↦ elim (Option-cases (fresh s)) [
      | inl fails ↦ let e = rw (new, add?, fails) at h in cc
      | inr (b, done) ↦ subst InRange (some-injective _ _ (rw (new, add?, done) at h)) (appended b)
    ]
    | inr (j, old) ↦ elim (Option-cases (update? g.slice j (λ x. join x s))) [
      | inl fails ↦ let e = rw (old, add?, fails) at h in cc
      | inr (l, done) ↦ subst InRange (some-injective _ _ (rw (old, add?, done) at h)) (λ k i at.
          let (a, is) = ranges k i at in
          let (b, is', _) = update?-elem (λ x. join x s) g.slice l i j a done is in (b, is'))
    ]
  ]
    where
      appended :
          (b : A)
          → InRange
              (record { slice = g.slice ++ b ∷ []; index = (key s, length g.slice) ∷ g.index })
      appended b k i at = elim (Bool-cases (eqb (key s) k)) [
        | inl same ↦
            let last : length g.slice ≡ i = some-injective _ _ (rw (same, find) at at) in
            (
              b,
              subst (λ n. get_elem? (g.slice ++ b ∷ []) n ≡ some b) last
                  (get_elem?-append_length g.slice b []),
            )
        | inr other ↦
            let (a, is) = ranges k i (rw (other, find) at at) in
            (a, get_elem?-append_left g.slice (b ∷ []) i a is)
      ]

  pub add_all?-InRange :
      (g g' : Groups A) (ss : List S)
      → add_all? key join fresh g ss ≡ some g'
      → InRange g
      → InRange g'
  unfolding add_all?
  add_all?-InRange g g' [] h ranges = subst InRange (some-injective _ _ h) ranges
  add_all?-InRange g g' (s ∷ ss) h ranges = elim (Option-cases (add? key join fresh g s)) [
    | inl fails ↦ let e = rw (fails, add_all?) at h in cc
    | inr (g1, done) ↦
        add_all?-InRange g1 g' ss (rw (done, add_all?) at h) (add?-InRange g g1 s done ranges)
  ]
