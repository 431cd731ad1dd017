-- ===== src/Wal/Stale.antt =====
-- TruncateBefore of internal/wal/manager.go on a log in which every entry is before the given time.
use otel_tail_sampler.Base.{
  ℕ, suc, ◌+◌, ◌-◌, ◌≡◌, ap, ◌∙◌, true, none, some, List, [], ◌∷◌, ◌>>=◌, All, length, get_elem?,
  ltb, lt→ltb, arith,
}
use otel_tail_sampler.Base.Int.{ℤ, ltb_ℤ}
use otel_tail_sampler.Pdata.{Pcommon, Float64}
use otel_tail_sampler.Codecs.{Codecs, WalRecord}
use otel_tail_sampler.Wal.{WalStore, truncate_loop, truncate_before}
use otel_tail_sampler.Wal.Laws.{IsLawful}
use otel_tail_sampler.Wal.Truncate.{truncate_loop-pass}

module _ {P : Pcommon} {F : Float64} (c : Codecs P F) (t : ℤ) where
  -- A record from before `t`.
  abbrev pub IsOld : c.Bytes → Type 0
  IsOld b = (r : WalRecord c.Bytes) × (c.unmarshal_record b ≡ some r) × (ltb_ℤ r.timestamp t ≡ true)

  module _ (W : WalStore c.Bytes) where
    -- The scan passes every entry and ends at the last.
    truncate_loop-old :
        (s : W.State) (i index : ℕ) (b : c.Bytes) (bs : List c.Bytes)
        → ((j : ℕ) → W.read s (i + j) ≡ get_elem? (b ∷ bs) j)
        → All IsOld (b ∷ bs)
        → truncate_loop c W (suc (length bs)) i index s t ≡ i + length bs
    unfolding truncate_loop
    truncate_loop-old s i index b [] reads ((r, e, old), hs) =
        let at : W.read s i ≡ some b = ap (W.read s) (omega arith) ∙ reads 0 in
        truncate_loop-pass c t W s 0 i index r (ap (λ o. o >>= c.unmarshal_record) at ∙ e) old
        ∙ omega arith
    truncate_loop-old s i index b (d ∷ bs) reads ((r, e, old), hs) =
        let at : W.read s i ≡ some b = ap (W.read s) (omega arith) ∙ reads 0 in
        truncate_loop-pass c t W s (suc (length bs)) i index r
          (ap (λ o. o >>= c.unmarshal_record) at ∙ e) old
        ∙ truncate_loop-old s (suc i) i d bs (λ j. ap (W.read s) (omega arith) ∙ reads (suc j)) hs
        ∙ omega arith

    -- If the log is not empty and all its entries are records from before the given time, then the
    -- truncation at that time fails, and so it removes nothing.
    pub truncate_before-IsOld :
        (L : IsLawful W) (s : W.State) (b : c.Bytes) (bs : List c.Bytes)
        → L.entries s ≡ b ∷ bs
        → All IsOld (b ∷ bs)
        → truncate_before c W s t ≡ none
    unfolding truncate_before
    truncate_before-IsOld L s b bs e old =
        let found : truncate_loop c W (suc (length bs)) (L.first s) 0 s t ≡ L.first s + length bs =
          truncate_loop-old s (L.first s) 0 b bs (λ j. L.read-eq s j ∙ ap (λ l. get_elem? l j) e)
            old in
        let rounds : L.first s + suc (length bs) - 1 + 1 - L.first s ≡ suc (length bs) =
          omega arith in
        let positive : ltb 0 (L.first s + length bs) ≡ true =
          lt→ltb 0 (L.first s + length bs) (omega (arith, L.first_pos s)) in
        let next : L.first s + length bs + 1 ≡ L.first s + length (L.entries s) =
          omega (arith, ap length e) in
        rw (L.first_index-cons s b bs e, L.last_index-eq s, e, rounds, found, positive)
          (ap (W.truncate_front s) next ∙ L.truncate_front-beyond s)
