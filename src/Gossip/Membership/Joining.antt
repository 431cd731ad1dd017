-- ===== src/Gossip/Membership/Joining.antt =====
-- What joinLoop of internal/gossip/gossip.go comes to.
use otel_tail_sampler.Base.{
  ◌≡◌, refl, ◌⊎◌, ℕ, zero, suc, ◌<◌, ◌≤◌, ◌*◌, ◌-◌, none, some, List, arith, if◌then◌else◌,
}
use otel_tail_sampler.Base.Int.{ℤ, pos, negsuc, ◌*ℤ◌, ltb_ℤ, pos_part, neg_part, wrap64_id}
use otel_tail_sampler.Base.Text.{GoString}
use otel_tail_sampler.Gossip.Membership.{Memberlist, join_ticker}

module _ (M : Memberlist) (peers : List GoString) where
  -- So many calls of Join with the same peers, one on what the other leaves.
  unfoldable pub joins : ℕ → M.State → M.State
  joins zero s = s
  joins (suc j) s = joins j (M.join s peers).0

  -- As many calls of Join as a list needs to have two members, but at most k.
  pub record JoinsUpTo (k : ℕ) (s after : M.State) : Type 0 where
    pub count : ℕ
    pub within : count ≤ k
    pub joined : after ≡ joins count s
    pub alone_before : (i : ℕ) → i < count → M.num_members (joins i s) ≤ 1
    pub ended : (count ≡ k) ⊎ (1 < M.num_members after)

times_pos : (n k : ℕ) → pos n *ℤ pos k ≡ pos (n * k)
unfolding ◌*ℤ◌
times_pos n k = ground arith

times_negsuc : (n k : ℕ) → 0 < k → negsuc n *ℤ pos k ≡ negsuc (suc n * k - 1)
unfolding ◌*ℤ◌
times_negsuc n k h = ground arith

-- For an interval whose nanoseconds an int64 holds, the loop gets a ticker with that period exactly if
-- the interval is positive, and panics otherwise: the period of five seconds, meant for an interval of
-- zero, is never used.
pub join_ticker_lem :
    (interval : ℤ)
    → pos_part interval ≤ 9223372036854
    → neg_part interval ≤ 9223372036854
    → join_ticker interval
      ≡ (if ltb_ℤ (pos 0) interval then some (interval *ℤ pos 1000000) else none)
unfolding join_ticker
join_ticker_lem (pos zero) low high =
    rw (times_pos 0 1000000, join_ticker, wrap64_id (pos (0 * 1000000)) (omega arith)) refl
join_ticker_lem (pos (suc n)) low high =
    rw (times_pos (suc n) 1000000, join_ticker, wrap64_id (pos (suc n * 1000000)) (omega arith))
      (ground arith)
join_ticker_lem (negsuc n) low high =
    rw
      (
        times_negsuc n 1000000 (omega arith),
        join_ticker,
        wrap64_id (negsuc (suc n * 1000000 - 1)) (omega arith),
      )
      (ground arith)
