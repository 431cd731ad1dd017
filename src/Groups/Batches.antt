-- ===== src/Groups/Batches.antt =====
-- The index that is kept while merging, and the one that a new loop over the slice builds.
use mathlib.Core.List.{foldl-append}
use otel_tail_sampler.Base.{
  ℕ, zero, suc, ◌+◌, ◌<◌, ◌≡◌, refl, ◌∙◌, ap, sym, some, List, [], ◌∷◌, ◌++◌, All, length, arith,
  Option-cases, inl, inr,
}
use otel_tail_sampler.Base.Text.{GoString}
use otel_tail_sampler.Groups.{Index, find, index_from, update, Groups, start, add, add_all, merge}

module _ {A : Type 0} (key_of : A → GoString) where
  abbrev pub index_of : List A → Index
  index_of l = index_from key_of 0 l []

  index_from-append :
      (i : ℕ) (l : List A) (a : A) (m : Index)
      → index_from key_of i (l ++ a ∷ []) m ≡ (key_of a, length l + i) ∷ index_from key_of i l m
  unfolding index_from
  index_from-append i [] a m = rw (zero_plus i)
    where
      zero_plus : (n : ℕ) → 0 + n ≡ n
      zero_plus n = omega arith
  index_from-append i (b ∷ l) a m =
      index_from-append (suc i) l a ((key_of b, i) ∷ m) ∙ rw (shift (length l) i)
    where
      shift : (n k : ℕ) → n + suc k ≡ suc n + k
      shift n k = omega arith

  index_from-update :
      (i j : ℕ) (l : List A) (f : A → A) (m : Index)
      → ((a : A) → key_of (f a) ≡ key_of a)
      → index_from key_of i (update l j f) m ≡ index_from key_of i l m
  unfolding index_from update
  index_from-update i j [] f m h = refl
  index_from-update i zero (a ∷ l) f m h = ap (λ x. index_from key_of (suc i) l ((x, i) ∷ m)) (h a)
  index_from-update i (suc j) (a ∷ l) f m h = index_from-update (suc i) j l f ((key_of a, i) ∷ m) h

  -- Every position that is found lies in the slice.
  find-index_from-lt :
      (i : ℕ) (l : List A) (m : Index) (k : GoString) (r : ℕ)
      → ((q : ℕ) → find m k ≡ some q → q < length l + i)
      → find (index_from key_of i l m) k ≡ some r
      → r < length l + i
  unfolding index_from find
  find-index_from-lt i [] m k r h e = h r e
  find-index_from-lt i (a ∷ l) m k r h e =
      omega (
        arith,
        find-index_from-lt (suc i) l ((key_of a, i) ∷ m) k r (λ q e'. ground (arith, h q)) e,
      )

  -- The index agrees with a fresh one.
  abbrev pub IsIndexed : Groups A → Type 0
  IsIndexed g = (k : GoString) → find g.index k ≡ find (index_of g.slice) k

  pub find-lt-length :
      (g : Groups A) (k : GoString) (i : ℕ)
      → IsIndexed g
      → find g.index k ≡ some i
      → i < length g.slice
  unfolding find
  find-lt-length g k i h e =
      omega (arith, find-index_from-lt 0 g.slice [] k i (λ q e'. cc) (sym (h k) ∙ e))

  module _ {S : Type 0} (key : S → GoString) (join : A → S → A) (fresh : S → A) (R : S → Type 0)
      (key-join : (a : A) (s : S) → key_of (join a s) ≡ key_of a)
      (key-fresh : (s : S) → R s → key_of (fresh s) ≡ key s) where
    pub add-IsIndexed :
        (g : Groups A) (s : S) → R s → IsIndexed g → IsIndexed (add key join fresh g s)
    unfolding add
    add-IsIndexed g s r h k = elim (Option-cases (find g.index (key s))) [
      | inl e ↦
          rw (e, add)
            (rw (index_from-append 0 g.slice (fresh s) [], key-fresh s r)
              (unfold find in ground (arith, h k)))
      | inr (i, e) ↦
          rw (e, add)
            (rw (index_from-update 0 i g.slice (λ a. join a s) [] (λ a. key-join a s)) (h k))
    ]

    pub add_all-IsIndexed :
        (g : Groups A) (ss : List S)
        → All R ss
        → IsIndexed g
        → IsIndexed (add_all key join fresh g ss)
    add_all-IsIndexed g [] _ h = h
    add_all-IsIndexed g (s ∷ ss) (r, rs) h =
        add_all-IsIndexed (add key join fresh g s) ss rs (add-IsIndexed g s r h)

    SameGroups : Groups A → Groups A → Type 0
    SameGroups g g' = (g.slice ≡ g'.slice) × ((k : GoString) → find g.index k ≡ find g'.index k)

    add-SameGroups :
        (g g' : Groups A) (s : S)
        → SameGroups g g'
        → SameGroups (add key join fresh g s) (add key join fresh g' s)
    unfolding SameGroups add find
    add-SameGroups g g' s (e, h) = elim (Option-cases (find g'.index (key s))) [
      | inl n ↦ (ground (arith, h (key s)), λ k. ground (arith, h (key s), h k))
      | inr (i, n) ↦ (ground (arith, h (key s)), λ k. ground (arith, h (key s), h k))
    ]

    add_all-SameGroups :
        (g g' : Groups A) (ss : List S)
        → SameGroups g g'
        → (add_all key join fresh g ss).slice ≡ (add_all key join fresh g' ss).slice
    unfolding SameGroups
    add_all-SameGroups g g' [] h = h.0
    add_all-SameGroups g g' (s ∷ ss) h =
        add_all-SameGroups (add key join fresh g s) (add key join fresh g' s) ss
          (add-SameGroups g g' s h)

    -- Merging in two batches, each of which builds the index anew, is merging all at once.
    pub merge-merge :
        (dest : List A) (xs ys : List S)
        → All R xs
        → merge key join fresh key_of (merge key join fresh key_of dest xs) ys
          ≡ merge key join fresh key_of dest (xs ++ ys)
    unfolding merge SameGroups
    merge-merge dest xs ys rs =
        let g = add_all key join fresh (start key_of dest) xs in
        add_all-SameGroups (start key_of g.slice) g ys
          (refl, λ k. sym (add_all-IsIndexed (start key_of dest) xs rs (λ k. refl) k))
        ∙ ap (λ (x : Groups A). x.slice)
            (sym (foldl-append (add key join fresh) (start key_of dest) xs ys))
