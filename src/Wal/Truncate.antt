-- ===== src/Wal/Truncate.antt =====
-- What TruncateBefore of internal/wal/manager.go drops.
use mathlib.Core.Option.{some-injective}
use mathlib.Core.Path.{subst}
use otel_tail_sampler.Base.{
  ℕ, zero, suc, ◌+◌, ◌-◌, ◌<◌, ◌≡◌, ◌⊎◌, inl, inr, refl, ◌∙◌, ap, sym, Option, none, some, List, [],
  ◌∷◌, ◌++◌, All, take, drop, length, get_elem?, arith, Option-cases, Bool-cases, true, false, ltb,
  lt→ltb, if◌then◌else◌,
}
use otel_tail_sampler.Base.Int.{ℤ, ◌<ℤ◌, ltb_ℤ}
use otel_tail_sampler.Pdata.{Pcommon, Float64}
use otel_tail_sampler.Signals.{Signal}
use otel_tail_sampler.Wal.{
  WalStore, received, ◌>>=◌, decode, decode_record, replay, truncate_loop, truncate_before,
}
use otel_tail_sampler.Wal.Laws.{IsLawful}
use otel_tail_sampler.Wal.Replay.{decode_all, decode_all-append, replay-eq-decode_all}
use otel_tail_sampler.Codecs.{
  RecordType, trace_record, metric_record, log_record, WalRecord, Codecs,
}

take-append-drop : {A : Type 0} (n : ℕ) (l : List A) → take n l ++ drop n l ≡ l
take-append-drop zero l = refl
take-append-drop (suc n) [] = refl
take-append-drop (suc n) (x ∷ l) = ap (◌∷◌ x) (take-append-drop n l)

module _ {P : Pcommon} {F : Float64} (c : Codecs P F) (t : ℤ) where
  -- An entry that is no record, or a record from before `t`.
  abbrev IsStale : c.Bytes → Type 0
  IsStale b = (r : WalRecord c.Bytes) → c.unmarshal_record b ≡ some r → r.timestamp <ℤ t

  abbrev pub IsBefore : Signal P F → Type 0
  IsBefore sig = received sig <ℤ t

  received-decode_record :
      (k : RecordType) (p : c.Bytes) (u : ℤ) (sig : Signal P F)
      → decode_record c k p u ≡ some sig
      → received sig ≡ u
  unfolding received
  received-decode_record trace_record p u sig h = ground arith
  received-decode_record metric_record p u sig h = ground arith
  received-decode_record log_record p u sig h = ground arith
  received-decode_record RecordType.unknown p u sig h = cc

  decode-IsBefore :
      (b : c.Bytes) (sig : Signal P F) → IsStale b → decode c b ≡ some sig → IsBefore sig
  unfolding decode
  decode-IsBefore b sig h e = elim (Option-cases (c.unmarshal_record b)) [
    | inl n ↦ cc (rw n at e)
    | inr (r, n) ↦
        subst (λ x. x <ℤ t)
          (sym (received-decode_record r.kind r.payload r.timestamp sig (rw n at e))) (h r n)
  ]

  decode_all-IsBefore : (bs : List c.Bytes) → All IsStale bs → All IsBefore (decode_all c bs)
  unfolding decode_all
  decode_all-IsBefore [] h = tt
  decode_all-IsBefore (b ∷ bs) (h, hs) = elim (Option-cases (decode c b)) [
    | inl e ↦ rw (e, decode_all) (decode_all-IsBefore bs hs)
    | inr (sig, e) ↦ rw (e, decode_all) (decode-IsBefore b sig h e, decode_all-IsBefore bs hs)
  ]

  module _ (W : WalStore c.Bytes) (s : W.State) where
    abbrev Passed : ℕ → ℕ → List c.Bytes → ℕ → Type 0
    Passed i index bs result =
        (result ≡ index)
        ⊎ ((n : ℕ) × (result ≡ i + n) × (n < length bs) × All IsStale (take (suc n) bs))

    cons-Passed :
        (i index : ℕ) (b : c.Bytes) (bs : List c.Bytes) (result : ℕ)
        → IsStale b
        → Passed (suc i) index bs result
        → Passed i index (b ∷ bs) result
    cons-Passed i index b bs result h (inl e) = inl e
    cons-Passed i index b bs result h (inr (n, e, lt, hs)) =
        inr (suc n, omega arith, omega arith, (h, hs))

    start-Passed :
        (i index : ℕ) (b : c.Bytes) (bs : List c.Bytes) (result : ℕ)
        → IsStale b
        → Passed (suc i) i bs result
        → Passed i index (b ∷ bs) result
    start-Passed i index b bs result h (inl e) = inr (0, omega arith, omega arith, (h, tt))
    start-Passed i index b bs result h (inr (n, e, lt, hs)) =
        inr (suc n, omega arith, omega arith, (h, hs))

    ltb_ℤ→< : (a b : ℤ) → ltb_ℤ a b ≡ true → a <ℤ b
    ltb_ℤ→< a b h = ground arith

    module _ (n i index : ℕ) where
      truncate_loop-skip :
          (W.read s i >>= c.unmarshal_record) ≡ none
          → truncate_loop c W (suc n) i index s t ≡ truncate_loop c W n (suc i) index s t
      unfolding truncate_loop
      truncate_loop-skip h = ground arith

      pub truncate_loop-pass :
          (r : WalRecord c.Bytes)
          → (W.read s i >>= c.unmarshal_record) ≡ some r
          → ltb_ℤ r.timestamp t ≡ true
          → truncate_loop c W (suc n) i index s t ≡ truncate_loop c W n (suc i) i s t
      unfolding truncate_loop
      truncate_loop-pass r h e = rw (h, truncate_loop) (rw e refl)

      truncate_loop-stop :
          (r : WalRecord c.Bytes)
          → (W.read s i >>= c.unmarshal_record) ≡ some r
          → ltb_ℤ r.timestamp t ≡ false
          → truncate_loop c W (suc n) i index s t ≡ index
      unfolding truncate_loop
      truncate_loop-stop r h e = rw (h, truncate_loop) (rw e refl)

    -- The scan returns the index that it was given, or that of an entry behind stale ones only.
    truncate_loop-Passed :
        (i index : ℕ) (bs : List c.Bytes)
        → ((j : ℕ) → W.read s (i + j) ≡ get_elem? bs j)
        → Passed i index bs (truncate_loop c W (length bs) i index s t)
    unfolding truncate_loop
    truncate_loop-Passed i index [] h = inl refl
    truncate_loop-Passed i index (b ∷ bs) h =
        let at : W.read s i ≡ some b = ap (W.read s) (omega arith) ∙ h 0 in
        let reads : (j : ℕ) → W.read s (suc i + j) ≡ get_elem? bs j =
          λ j. ap (W.read s) (omega arith) ∙ h (suc j) in
        let entry : (W.read s i >>= c.unmarshal_record) ≡ c.unmarshal_record b =
          ap (λ o. o >>= c.unmarshal_record) at in
        elim (Option-cases (c.unmarshal_record b)) [
          | inl e ↦
              subst (Passed i index (b ∷ bs))
                (sym (truncate_loop-skip (length bs) i index (entry ∙ e)))
                (cons-Passed i index b bs _ (λ r f. cc (sym e ∙ f))
                  (truncate_loop-Passed (suc i) index bs reads))
          | inr (r, e) ↦ elim (Bool-cases (ltb_ℤ r.timestamp t)) [
            | inl old ↦
                subst (Passed i index (b ∷ bs))
                  (sym (truncate_loop-pass (length bs) i index r (entry ∙ e) old))
                  (start-Passed i index b bs _
                    (λ q f.
                      subst (λ x. x.timestamp <ℤ t) (some-injective r q (sym e ∙ f))
                        (ltb_ℤ→< r.timestamp t old))
                    (truncate_loop-Passed (suc i) i bs reads))
            | inr new ↦ inl (truncate_loop-stop (length bs) i index r (entry ∙ e) new)
          ]
        ]

  module _ (W : WalStore c.Bytes) (L : IsLawful W) where
    abbrev Kept : W.State → W.State → Type 0
    Kept s s' = (n : ℕ) × (L.entries s' ≡ drop n (L.entries s)) × All IsStale (take n (L.entries s))

    abbrev cut_at : W.State → ℕ → Option W.State
    cut_at s index = if ltb 0 index then W.truncate_front s (index + 1) else some s

    cut_at-Kept :
        (s s' : W.State) (index : ℕ)
        → Passed W s (L.first s) 0 (L.entries s) index
        → cut_at s index ≡ some s'
        → Kept s s'
    cut_at-Kept s s' index (inl e) h = (0, ap L.entries (sym (some-injective s s' (rw e at h))), tt)
    cut_at-Kept s s' index (inr (n, e, lt, hs)) h =
        let positive : ltb 0 index ≡ true = lt→ltb 0 index (omega (arith, L.first_pos s)) in
        let next : L.first s + suc n ≡ index + 1 = omega arith in
        (
          suc n,
          L.entries-truncate_front s s' (suc n) (ap (W.truncate_front s) next ∙ rw positive at h),
          hs,
        )

    -- What TruncateBefore leaves in place ends the list of entries, behind stale ones.
    entries-truncate_before : (s s' : W.State) → truncate_before c W s t ≡ some s' → Kept s s'
    unfolding truncate_before
    entries-truncate_before s s' h = go (L.entries s) refl
      where
        go : (bs : List c.Bytes) → L.entries s ≡ bs → Kept s s'
        go [] e =
            let h' : cut_at s (truncate_loop c W 1 0 0 s t) ≡ some s' =
              rw (L.first_index-empty s e, L.last_index-eq s, e, L.first-empty s e) at h in
            let none_read : truncate_loop c W 1 0 0 s t ≡ 0 =
              truncate_loop-skip W s 0 0 0 (ap (λ o. o >>= c.unmarshal_record) (L.read-zero s))
              ∙ unfold truncate_loop in refl in
            cut_at-Kept s s' (truncate_loop c W 1 0 0 s t) (inl none_read) h'
        go (b ∷ bs) e =
            let n : ℕ = length (L.entries s) in
            let rounds : L.first s + n - 1 + 1 - L.first s ≡ n = omega (arith, L.first_pos s) in
            let scanned : Passed W s (L.first s) 0 (L.entries s)
                (truncate_loop c W (length (L.entries s)) (L.first s) 0 s t) =
              truncate_loop-Passed W s (L.first s) 0 (L.entries s) (L.read-eq s) in
            cut_at-Kept s s' (truncate_loop c W (length (L.entries s)) (L.first s) 0 s t) scanned (
              subst (λ k. cut_at s (truncate_loop c W k (L.first s) 0 s t) ≡ some s') rounds
                (rw (L.first_index-cons s b bs e, L.last_index-eq s) at h))

    -- After a truncation at `t` a replay gives the end of what it gave before it, and every signal
    -- that is no longer given was received before `t`.
    pub replay-truncate_before :
        (s s' : W.State)
        → truncate_before c W s t ≡ some s'
        → (dropped kept : List (Signal P F)) × (replay c W s ≡ some (dropped ++ kept))
          × (replay c W s' ≡ some kept)
          × All IsBefore dropped
    replay-truncate_before s s' h =
        let (n, e, hs) = entries-truncate_before s s' h in
        (
          decode_all c (take n (L.entries s)),
          decode_all c (drop n (L.entries s)),
          replay-eq-decode_all c W L s
              ∙ ap (λ l. some (decode_all c l)) (sym (take-append-drop n (L.entries s)))
              ∙ ap some (decode_all-append c (take n (L.entries s)) (drop n (L.entries s))),
          replay-eq-decode_all c W L s' ∙ ap (λ l. some (decode_all c l)) e,
          decode_all-IsBefore (take n (L.entries s)) hs,
        )
