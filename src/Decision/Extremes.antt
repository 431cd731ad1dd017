-- ===== src/Decision/Extremes.antt =====
-- The least and the greatest time of a list, as triggerDecision of internal/decision/engine.go scans
-- for them.
use otel_tail_sampler.Base.{ℕ, ◌≡◌, refl, ◌∙◌, ◌⊎◌, inl, inr, false, List, [], ◌∷◌, Any, All, arith}
use otel_tail_sampler.Base.Int.{ℤ, pos, negsuc, ◌≤ℤ◌, IsInt64, wrap64, wrap64-IsInt64}
use otel_tail_sampler.Decision.{as_time, is_zero, earliest, latest}

unfoldable pub earliest_of : ℤ → List ℤ → ℤ
earliest_of c [] = c
earliest_of c (t ∷ ts) = earliest_of (earliest c t) ts

unfoldable pub latest_of : ℤ → List ℤ → ℤ
latest_of c [] = c
latest_of c (t ∷ ts) = latest_of (latest c t) ts

-- No time of a span is the zero time.
abbrev pub IsSet64 : ℤ → Type 0
IsSet64 t = is_zero t ≡ false

pub as_time-IsSet64 : (ts : ℕ) → IsSet64 (as_time ts)
unfolding as_time
as_time-IsSet64 ts = go (wrap64 (pos ts)) (wrap64-IsInt64 (pos ts))
  where
    go : (z : ℤ) → IsInt64 z → IsSet64 z
    go (pos n) h = ground arith
    go (negsuc n) h = ground arith

abbrev IsEarliest : ℤ → ℤ → List ℤ → Type 0
IsEarliest m c ts = (m ≤ℤ c) × All (λ t. m ≤ℤ t) ts × ((m ≡ c) ⊎ Any (λ t. m ≡ t) ts)

All-weaken : (m c : ℤ) (ts : List ℤ) → m ≤ℤ c → All (λ t. c ≤ℤ t) ts → All (λ t. m ≤ℤ t) ts
All-weaken m c [] h _ = tt
All-weaken m c (t ∷ ts) h (a, bs) = (omega arith, All-weaken m c ts h bs)

earliest_lem :
    (c t : ℤ)
    → IsSet64 c
    → (earliest c t ≤ℤ c) × (earliest c t ≤ℤ t) × ((earliest c t ≡ c) ⊎ (earliest c t ≡ t))
earliest_lem c t h = ground arith

earliest-IsSet64 : (c t : ℤ) → IsSet64 c → IsSet64 t → IsSet64 (earliest c t)
earliest-IsSet64 c t h k = ground arith

latest_lem :
    (c t : ℤ)
    → IsSet64 c
    → (c ≤ℤ latest c t) × (t ≤ℤ latest c t) × ((latest c t ≡ c) ⊎ (latest c t ≡ t))
latest_lem c t h = ground arith

latest-IsSet64 : (c t : ℤ) → IsSet64 c → IsSet64 t → IsSet64 (latest c t)
latest-IsSet64 c t h k = ground arith

-- The least of a nonempty list of times that the scan meets, and the greatest.
abbrev pub IsLeast : ℤ → List ℤ → Type 0
IsLeast m ts = All (λ t. m ≤ℤ t) ts × Any (λ t. m ≡ t) ts

abbrev pub IsGreatest : ℤ → List ℤ → Type 0
IsGreatest m ts = All (λ t. t ≤ℤ m) ts × Any (λ t. m ≡ t) ts

pub earliest_of-IsLeast :
    (c : ℤ) (ts : List ℤ) → IsSet64 c → All IsSet64 ts → IsLeast (earliest_of c ts) (c ∷ ts)
unfolding earliest_of
earliest_of-IsLeast c [] h hs = ((omega arith, tt), inl refl)
earliest_of-IsLeast c (t ∷ ts) h (k, ks) =
    step (earliest_of-IsLeast (earliest c t) ts (earliest-IsSet64 c t h k) ks) (earliest_lem c t h)
  where
    m : ℤ
    m = earliest_of (earliest c t) ts

    step :
        IsLeast m (earliest c t ∷ ts)
        → (earliest c t ≤ℤ c) × (earliest c t ≤ℤ t) × ((earliest c t ≡ c) ⊎ (earliest c t ≡ t))
        → IsLeast m (c ∷ t ∷ ts)
    step ((a, rest), inr e) (p, q, _) = ((omega arith, (omega arith, rest)), inr (inr e))
    step ((a, rest), inl e) (p, q, inl r) = ((omega arith, (omega arith, rest)), inl (e ∙ r))
    step ((a, rest), inl e) (p, q, inr r) = ((omega arith, (omega arith, rest)), inr (inl (e ∙ r)))

pub latest_of-IsGreatest :
    (c : ℤ) (ts : List ℤ) → IsSet64 c → All IsSet64 ts → IsGreatest (latest_of c ts) (c ∷ ts)
unfolding latest_of
latest_of-IsGreatest c [] h hs = ((omega arith, tt), inl refl)
latest_of-IsGreatest c (t ∷ ts) h (k, ks) =
    step (latest_of-IsGreatest (latest c t) ts (latest-IsSet64 c t h k) ks) (latest_lem c t h)
  where
    m : ℤ
    m = latest_of (latest c t) ts

    step :
        IsGreatest m (latest c t ∷ ts)
        → (c ≤ℤ latest c t) × (t ≤ℤ latest c t) × ((latest c t ≡ c) ⊎ (latest c t ≡ t))
        → IsGreatest m (c ∷ t ∷ ts)
    step ((a, rest), inr e) (p, q, _) = ((omega arith, (omega arith, rest)), inr (inr e))
    step ((a, rest), inl e) (p, q, inl r) = ((omega arith, (omega arith, rest)), inl (e ∙ r))
    step ((a, rest), inl e) (p, q, inr r) = ((omega arith, (omega arith, rest)), inr (inl (e ∙ r)))
