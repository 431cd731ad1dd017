-- ===== src/Groups/Safety.antt =====
-- Merging where it may panic: each element is merged with what has its key.
use mathlib.Core.Option.{some-injective}
use mathlib.Core.Path.{subst}
use otel_tail_sampler.Base.{
  ℕ, zero, suc, ◌≡◌, refl, ◌∙◌, ap, sym, Option, some, List, [], ◌∷◌, ◌++◌, append_assoc, All,
  length, get_elem?, arith, Option-cases, Bool-cases, inl, inr,
}
use otel_tail_sampler.Base.Text.{GoString, eqb, eqb_iff}
use otel_tail_sampler.Groups.{
  Index, find, index_from, update?, Groups, start, add?, add_all?, merge?,
}
use otel_tail_sampler.Groups.Totals.{All-append}

module _ {A : Type 0} where
  pub get_elem?-append_length :
      (pre : List A) (a : A) (l : List A) → get_elem? (pre ++ a ∷ l) (length pre) ≡ some a
  get_elem?-append_length [] a l = refl
  get_elem?-append_length (b ∷ pre) a l = get_elem?-append_length pre a l

  pub get_elem?-append_left :
      (l m : List A) (i : ℕ) (a : A) → get_elem? l i ≡ some a → get_elem? (l ++ m) i ≡ some a
  get_elem?-append_left [] m i a h = cc
  get_elem?-append_left (b ∷ l) m zero a h = h
  get_elem?-append_left (b ∷ l) m (suc i) a h = get_elem?-append_left l m i a h

module _ {A : Type 0} (key_of : A → GoString) where
  -- The element at a position has a key.
  abbrev Holds : List A → ℕ → GoString → Type 0
  Holds l i k = (a : A) × (get_elem? l i ≡ some a) × (key_of a ≡ k)

  abbrev Points : List A → Index → Type 0
  Points l m = (k : GoString) (i : ℕ) → find m k ≡ some i → Holds l i k

  -- Each key of the index leads to an element with that key.
  abbrev pub IsKeyed : Groups A → Type 0
  IsKeyed g = Points g.slice g.index

  cons-Points :
      (l : List A) (m : Index) (a : A) (i : ℕ)
      → get_elem? l i ≡ some a
      → Points l m
      → Points l ((key_of a, i) ∷ m)
  unfolding find
  cons-Points l m a i e h k j f = elim (Bool-cases (eqb (key_of a) k)) [
    | inl t ↦ (a, ground arith, (eqb_iff (key_of a) k).0 t)
    | inr t ↦ h k j (ground arith)
  ]

  index_from-Points :
      (pre l : List A) (m : Index)
      → Points (pre ++ l) m
      → Points (pre ++ l) (index_from key_of (length pre) l m)
  unfolding index_from
  index_from-Points pre [] m h = h
  index_from-Points pre (a ∷ l) m h =
      subst (λ x. Points x (index_from key_of (suc (length pre)) l ((key_of a, length pre) ∷ m)))
        (append_assoc pre (a ∷ []) l)
        (subst
          (λ n. Points ((pre ++ a ∷ []) ++ l) (index_from key_of n l ((key_of a, length pre) ∷ m)))
          (length_snoc pre)
          (index_from-Points (pre ++ a ∷ []) l ((key_of a, length pre) ∷ m) (
            subst (λ x. Points x ((key_of a, length pre) ∷ m)) (sym (append_assoc pre (a ∷ []) l))
              (cons-Points (pre ++ a ∷ l) m a (length pre) (get_elem?-append_length pre a l) h))))
    where
      length_snoc : (xs : List A) → length (xs ++ a ∷ []) ≡ suc (length xs)
      length_snoc [] = refl
      length_snoc (x ∷ xs) = ap suc (length_snoc xs)

  pub start-IsKeyed : (dest : List A) → IsKeyed (start key_of dest)
  start-IsKeyed dest = index_from-Points [] dest [] (λ k i e. unfold find in cc)

  append-IsKeyed :
      (g : Groups A) (a : A)
      → IsKeyed g
      → Points (g.slice ++ a ∷ []) ((key_of a, length g.slice) ∷ g.index)
  append-IsKeyed g a h =
      cons-Points (g.slice ++ a ∷ []) g.index a (length g.slice)
        (get_elem?-append_length g.slice a [])
        (λ k i e. let (b, f, t) = h k i e in (b, get_elem?-append_left g.slice (a ∷ []) i b f, t))

  -- A change of the element at a position that keeps its key.
  update?-safe :
      (J : A → Type 0) (f : A → Option A) (l : List A) (i : ℕ) (a b : A)
      → get_elem? l i ≡ some a
      → f a ≡ some b
      → J b
      → key_of b ≡ key_of a
      → All J l
      → (l' : List A) × (update? l i f ≡ some l')
        × All J l'
        × ((r : ℕ) (q : GoString) → Holds l r q → Holds l' r q)
  unfolding update?
  update?-safe J f [] i a b e h j k js = cc
  update?-safe J f (c ∷ l) zero a b e h j k (_, js) =
      let h' : f c ≡ some b = ap f (some-injective c a e) ∙ h in
      (b ∷ l, rw (h', update?), (j, js), head)
    where
      head : (r : ℕ) (q : GoString) → Holds (c ∷ l) r q → Holds (b ∷ l) r q
      head zero q (x, u, v) = (b, refl, k ∙ ap key_of (some-injective a x (sym e ∙ u)) ∙ v)
      head (suc r) q x = x
  update?-safe J f (c ∷ l) (suc i) a b e h j k (jc, js) =
      let (l', u, js', p) = update?-safe J f l i a b e h j k js in
      (c ∷ l', rw (u, update?), (jc, js'), tail l' p)
    where
      tail :
          (l' : List A)
          → ((r : ℕ) (q : GoString) → Holds l r q → Holds l' r q)
          → (r : ℕ) (q : GoString) → Holds (c ∷ l) r q
          → Holds (c ∷ l') r q
      tail l' p zero q x = x
      tail l' p (suc r) q x = p r q x

module _ {A S : Type 0} (key_of : A → GoString) (key : S → GoString) (join : A → S → Option A)
    (fresh : S → Option A) (J : A → Type 0) (R : S → Type 0)
    (join-safe : (a : A) (s : S)
      → R s
      → J a
      → key_of a ≡ key s
      → (b : A) × (join a s ≡ some b) × J b × (key_of b ≡ key_of a))
    (fresh-safe : (s : S) → R s → (b : A) × (fresh s ≡ some b) × J b × (key_of b ≡ key s)) where
  add?-safe :
      (g : Groups A) (s : S)
      → R s
      → IsKeyed key_of g
      → All J g.slice
      → (g' : Groups A) × (add? key join fresh g s ≡ some g') × IsKeyed key_of g' × All J g'.slice
  unfolding add?
  add?-safe g s r ix js = elim (Option-cases (find g.index (key s))) [
    | inl e ↦
        let (b, f, j, k) = fresh-safe s r in
        (
          record { slice = g.slice ++ b ∷ []; index = (key s, length g.slice) ∷ g.index },
          rw (e, add?, f),
          subst (λ q. Points key_of (g.slice ++ b ∷ []) ((q, length g.slice) ∷ g.index)) k
              (append-IsKeyed key_of g b ix),
          All-append J g.slice (b ∷ []) js (j, tt),
        )
    | inr (i, e) ↦
        let (a, at, ka) = ix (key s) i e in
        let (b, f, j, k) = join-safe a s r (All-at g.slice i a at js) ka in
        let (l', u, js', p) = update?-safe key_of J (λ x. join x s) g.slice i a b at f j k js in
        (record { slice = l'; index = g.index }, rw (e, add?, u), λ q n h. p n q (ix q n h), js')
  ]
    where
      All-at : (l : List A) (i : ℕ) (a : A) → get_elem? l i ≡ some a → All J l → J a
      All-at [] i a h js' = cc
      All-at (x ∷ l) zero a h (j, js') = subst J (some-injective x a h) j
      All-at (x ∷ l) (suc i) a h (j, js') = All-at l i a h js'

  pub add_all?-safe :
      (g : Groups A) (ss : List S)
      → All R ss
      → IsKeyed key_of g
      → All J g.slice
      → (g' : Groups A) × (add_all? key join fresh g ss ≡ some g')
        × IsKeyed key_of g'
        × All J g'.slice
  unfolding add_all?
  add_all?-safe g [] _ ix js = (g, refl, ix, js)
  add_all?-safe g (s ∷ ss) (r, rs) ix js =
      let (g', e, ix', js') = add?-safe g s r ix js in
      let (g'', e', ix'', js'') = add_all?-safe g' ss rs ix' js' in
      (g'', rw (e, add_all?) e', ix'', js'')

  pub merge?-safe :
      (dest : List A) (ss : List S)
      → All R ss
      → All J dest
      → (l : List A) × (merge? key join fresh key_of dest ss ≡ some l) × All J l
  unfolding merge?
  merge?-safe dest ss rs js =
      let (g, e, _, js') = add_all?-safe (start key_of dest) ss rs (start-IsKeyed key_of dest) js in
      (g.slice, rw e, js')
