-- ===== src/Buffer/Coherence/Index.antt =====
-- A time index of internal/buffer/buffer.go: its tree and its map.
use otel_tail_sampler.Base.{
  ◌≡◌, ◌≢◌, refl, sym, ap, ◌∙◌, Bool, true, false, none, some, List, [], ◌∷◌, inl, inr, Bool-cases,
  Option-cases, arith, if◌then◌else◌,
}
use otel_tail_sampler.Base.Int.{ℤ, eqb_ℤ}
use otel_tail_sampler.Base.Text.{GoString, eqb, eqb_iff}
use otel_tail_sampler.GoMap.{GoMap, lookup, lookup-insert, lookup-erase}
use otel_tail_sampler.Buffer.Libraries.{Removed, TimeKey, BTree, IsBTree, is_removed}
use otel_tail_sampler.Buffer.State.{TimeIndex, index_key, forget}

-- Whether the map has this key with this time.
abbrev pub listed : GoMap ℤ → TimeKey → Bool
listed m tk = elim (lookup tk.key m) [ none ↦ false | some ts ↦ eqb_ℤ ts tk.timestamp ]

module _ {T : BTree} (L : IsBTree T) where
  abbrev pub IsExact : TimeIndex T → Type 0
  IsExact x = (tk : TimeKey) → L.has x.tree tk ≡ listed x.key_map tk

  pub index_key-IsExact :
      (x : TimeIndex T) (key : GoString) (ts : ℤ)
      → lookup key x.key_map ≡ none
      → IsExact x
      → IsExact (index_key x key ts)
  unfolding index_key
  index_key-IsExact x key ts fresh exact tk =
      let has = L.has-insert x.tree (record { timestamp = ts; key = key }) tk in
      let look = lookup-insert key tk.key ts x.key_map in
      let old = exact tk in
      elim (Bool-cases (eqb key tk.key)) [
        | inl same ↦
            let at_key : lookup tk.key x.key_map ≡ none =
              ap (λ k. lookup k x.key_map) (sym ((eqb_iff key tk.key).0 same)) ∙ fresh in
            rw (has, look, index_key, listed, same, old, at_key) (ground arith)
        | inr other ↦ rw (has, look, index_key, listed, other, old) (ground arith)
      ]

  pub forget-IsExact : (x : TimeIndex T) (key : GoString) → IsExact x → IsExact (forget x key)
  unfolding forget
  forget-IsExact x key exact = elim (Option-cases (lookup key x.key_map)) [
    | inl missing ↦ rw (missing, forget) exact
    | inr (ts, present) ↦
        rw (present, forget)
          (λ tk.
            let has = L.has-delete x.tree (record { timestamp = ts; key = key }) tk in
            let look = lookup-erase key tk.key x.key_map in
            let old = exact tk in
            elim (Bool-cases (eqb key tk.key)) [
              | inl same ↦
                  let at_key : lookup tk.key x.key_map ≡ some ts =
                    ap (λ k. lookup k x.key_map) (sym ((eqb_iff key tk.key).0 same)) ∙ present in
                  rw (has, look, listed, same, old, at_key) (ground arith)
              | inr other ↦ rw (has, look, listed, other, old) (ground arith)
            ])
  ]

module _ {T : BTree} where
  pub lookup-forget :
      (x : TimeIndex T) (key j : GoString)
      → lookup j (forget x key).key_map ≡ (if eqb key j then none else lookup j x.key_map)
  unfolding forget
  lookup-forget x key j = elim (Option-cases (lookup key x.key_map)) [
    | inl missing ↦
        rw (missing, forget)
          (elim (Bool-cases (eqb key j)) [
            | inl same ↦
                rw same (ap (λ k. lookup k x.key_map) (sym ((eqb_iff key j).0 same)) ∙ missing)
            | inr other ↦ rw other refl
          ])
    | inr (ts, present) ↦ rw (present, forget) (lookup-erase key j x.key_map)
  ]

  pub forget_missing :
      (x : TimeIndex T) (key : GoString) → lookup key x.key_map ≡ none → forget x key ≡ x
  unfolding forget
  forget_missing x key missing = rw (missing, forget) refl

  abbrev pub OfKind : (GoString → Bool) → TimeIndex T → Type 0
  OfKind kind x = (k : GoString) → lookup k x.key_map ≢ none → kind k ≡ true

  -- A key of another kind is not in an index.
  pub missing-OfKind :
      {kind : GoString → Bool} (x : TimeIndex T) (key : GoString)
      → OfKind kind x
      → kind key ≡ false
      → lookup key x.key_map ≡ none
  missing-OfKind x key of_kind other = elim (Option-cases (lookup key x.key_map)) [
    | inl missing ↦ missing
    | inr (ts, present) ↦ let kind_true = of_kind key (λ none'. cc) in cc
  ]

module _ {T : BTree} {B : Type 0} where
  -- The cleanups of several callbacks.
  unfoldable pub forget_all : TimeIndex T → List (Removed B) → TimeIndex T
  forget_all x [] = x
  forget_all x (r ∷ rs) = forget_all (forget x r.key) rs

  pub lookup-forget_all :
      (x : TimeIndex T) (rs : List (Removed B)) (j : GoString)
      → lookup j (forget_all x rs).key_map ≡ (if is_removed j rs then none else lookup j x.key_map)
  unfolding forget_all
  lookup-forget_all x [] j = refl
  lookup-forget_all x (r ∷ rs) j =
      rw (lookup-forget_all (forget x r.key) rs j, lookup-forget x r.key j)
        (elim (Bool-cases (eqb r.key j)) [ inl e ↦ rw e (ground arith) | inr e ↦ rw e refl ])

  pub forget_all-missing :
      (x : TimeIndex T) (rs : List (Removed B)) (j : GoString)
      → lookup j x.key_map ≡ none
      → lookup j (forget_all x rs).key_map ≡ none
  forget_all-missing x rs j missing =
      rw (lookup-forget_all x rs j, missing)
        (elim (Bool-cases (is_removed j rs)) [ inl e ↦ rw e refl | inr e ↦ rw e refl ])

  -- What is still in an index was there, and no callback was made for it.
  pub in-forget_all :
      (x : TimeIndex T) (rs : List (Removed B)) (j : GoString)
      → lookup j (forget_all x rs).key_map ≢ none
      → (is_removed j rs ≡ false) × (lookup j x.key_map ≢ none)
  in-forget_all x rs j still =
      let e = lookup-forget_all x rs j in
      elim (Bool-cases (is_removed j rs)) [
        | inl gone ↦ elim (still (e ∙ rw gone refl)) [ ]
        | inr kept ↦ (kept, λ missing. still (e ∙ rw kept missing))
      ]

  pub forget_all-OfKind :
      {kind : GoString → Bool} (x : TimeIndex T) (rs : List (Removed B))
      → OfKind kind x
      → OfKind kind (forget_all x rs)
  forget_all-OfKind x rs of_kind k present = of_kind k (in-forget_all x rs k present).1

  pub forget_all-IsExact :
      (L : IsBTree T) (x : TimeIndex T) (rs : List (Removed B))
      → IsExact L x
      → IsExact L (forget_all x rs)
  unfolding forget_all
  forget_all-IsExact L x [] exact = exact
  forget_all-IsExact L x (r ∷ rs) exact =
      forget_all-IsExact L (forget x r.key) rs (forget-IsExact L x r.key exact)
