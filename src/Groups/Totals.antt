-- ===== src/Groups/Totals.antt =====
-- Totals modulo 2 ^ 64, the arithmetic of Go's integers, under merging.
use otel_tail_sampler.Base.{
  ℕ, zero, suc, ◌+◌, ◌%◌, ◌<◌, ◌≡◌, refl, List, [], ◌∷◌, ◌++◌, All, length, arith, Option-cases,
  inl, inr,
}
use otel_tail_sampler.Base.Int.{u64_mod}
use otel_tail_sampler.Base.Text.{GoString}
use otel_tail_sampler.Groups.{find, update, Groups, start, add, add_all, merge}
use otel_tail_sampler.Groups.Batches.{IsIndexed, find-lt-length, add-IsIndexed}

module _ {A : Type 0} where
  unfoldable pub total : (A → ℕ) → List A → ℕ
  total w [] = 0
  total w (a ∷ l) = w a + total w l

  pub total-append : (w : A → ℕ) (l m : List A) → total w (l ++ m) ≡ total w l + total w m
  unfolding total
  total-append w [] m = omega arith
  total-append w (a ∷ l) m = omega (arith, total-append w l m)

  pub All-append : (J : A → Type 0) (l m : List A) → All J l → All J m → All J (l ++ m)
  All-append J [] m h k = k
  All-append J (a ∷ l) m (h, hs) k = (h, All-append J l m hs k)

  All-update :
      (J : A → Type 0) (l : List A) (i : ℕ) (f : A → A)
      → ((a : A) → J a → J (f a))
      → All J l
      → All J (update l i f)
  unfolding update
  All-update J [] i f h k = k
  All-update J (a ∷ l) zero f h (k, ks) = (h a k, ks)
  All-update J (a ∷ l) (suc i) f h (k, ks) = (k, All-update J l i f h ks)

  total-update :
      (w : A → ℕ) (v : ℕ) (J : A → Type 0) (l : List A) (i : ℕ) (f : A → A)
      → ((a : A) → J a → w (f a) % u64_mod ≡ (w a + v) % u64_mod)
      → All J l
      → i < length l
      → total w (update l i f) % u64_mod ≡ (total w l + v) % u64_mod
  unfolding update total
  total-update w v J [] i f h k lt = absurd (omega arith)
  total-update w v J (a ∷ l) zero f h (k, ks) lt = omega (arith, h a k)
  total-update w v J (a ∷ l) (suc i) f h (k, ks) lt =
      omega (arith, total-update w v J l i f h ks (omega arith))

-- `w` weighs what is merged into, `v` what is merged; `J` holds of all that is merged into.
module _ {A S : Type 0} (key_of : A → GoString) (key : S → GoString) (join : A → S → A)
    (fresh : S → A) (R : S → Type 0) (key-join : (a : A) (s : S) → key_of (join a s) ≡ key_of a)
    (key-fresh : (s : S) → R s → key_of (fresh s) ≡ key s) (w : A → ℕ) (v : S → ℕ) (J : A → Type 0)
    (J-join : (a : A) (s : S) → R s → J a → J (join a s)) (J-fresh : (s : S) → R s → J (fresh s))
    (w-join : (a : A) (s : S) → R s → J a → w (join a s) % u64_mod ≡ (w a + v s) % u64_mod)
    (w-fresh : (s : S) → R s → w (fresh s) % u64_mod ≡ v s % u64_mod) where
  add-total :
      (g : Groups A) (s : S)
      → R s
      → IsIndexed key_of g
      → All J g.slice
      → All J (add key join fresh g s).slice
        × (total w (add key join fresh g s).slice % u64_mod ≡ (total w g.slice + v s) % u64_mod)
  unfolding add
  add-total g s r ix js = elim (Option-cases (find g.index (key s))) [
    | inl e ↦
        rw (e, add)
          (
            All-append J g.slice (fresh s ∷ []) js (J-fresh s r, tt),
            unfold total in omega (arith, total-append w g.slice (fresh s ∷ []), w-fresh s r),
          )
    | inr (i, e) ↦
        rw (e, add)
          (
            All-update J g.slice i (λ a. join a s) (λ a. J-join a s r) js,
            total-update w (v s) J g.slice i (λ a. join a s) (λ a. w-join a s r) js
                (find-lt-length key_of g (key s) i ix e),
          )
  ]

  -- The total after a number of rounds.
  pub add_all-total :
      (g : Groups A) (ss : List S)
      → All R ss
      → IsIndexed key_of g
      → All J g.slice
      → All J (add_all key join fresh g ss).slice
        × (total w (add_all key join fresh g ss).slice % u64_mod
            ≡ (total w g.slice + total v ss) % u64_mod)
  unfolding total
  add_all-total g [] _ ix js = (js, omega arith)
  add_all-total g (s ∷ ss) (r, rs) ix js =
      let (js', e) = add-total g s r ix js in
      let (js'', e') =
        add_all-total (add key join fresh g s) ss rs
          (add-IsIndexed key_of key join fresh R key-join key-fresh g s r ix) js' in
      (js'', omega arith)

  -- The total after a merge is the total before it and that of what was merged.
  pub total-merge :
      (dest : List A) (ss : List S)
      → All R ss
      → All J dest
      → All J (merge key join fresh key_of dest ss)
        × (total w (merge key join fresh key_of dest ss) % u64_mod
            ≡ (total w dest + total v ss) % u64_mod)
  unfolding merge
  total-merge dest ss rs js = add_all-total (start key_of dest) ss rs (λ k. refl) js
