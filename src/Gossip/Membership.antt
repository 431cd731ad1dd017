-- ===== src/Gossip/Membership.antt =====
-- The membership half of internal/gossip/gossip.go: Start, Stop, joinLoop, tryJoin, Members and what
-- memberlist asks of the manager. hashicorp/memberlist is a parameter.
pub mod Joining
use otel_tail_sampler.Base.{
  ◌>>=◌, ℕ, zero, suc, ◌≡◌, ◌<◌, Bool, false, Option, none, some, List, [], ◌∷◌, ◌++◌, leb,
  if◌then◌else◌,
}
use otel_tail_sampler.Base.Int.{ℤ, pos, ◌*ℤ◌, wrap64, ltb_ℤ}
use otel_tail_sampler.Base.Text.{GoString, codes, format_int}
use otel_tail_sampler.Config.{GossipConfig}
use otel_tail_sampler.Discovery.{Resolver, Discoverer, get_peers}

-- What the source calls of memberlist.
pub record Memberlist : Type 1 where
  pub State : Type 0
  pub Node : Type 0
  -- Create, with the address, the port and the name of the configuration.
  pub create : GoString → ℤ → GoString → Option State
  pub num_members : State → ℕ
  pub members : State → List Node
  -- Join, with the number of nodes that it reached, or an error.
  pub join : State → List GoString → State × Option ℕ
  pub leave : State → State
  pub shutdown : State → State

-- "%s-%d" of the host's name and the port.
unfoldable pub node_name : GoString → GossipConfig → GoString
unfolding format_int
node_name hostname cfg = hostname ++ (b'-' ∷ format_int cfg.port)

-- time.NewTicker: the period, or the panic on one that is not positive.
abbrev pub new_ticker : ℤ → Option ℤ
new_ticker d = if ltb_ℤ (pos 0) d then some d else none

-- The call of Reset behind it, for an interval of zero.
abbrev pub reset_period : ℤ → ℤ → ℤ
reset_period (pos zero) period = pos 5000000000
reset_period interval period = period

-- The ticker of joinLoop for an interval in milliseconds; none is a panic of its goroutine.
unfoldable pub join_ticker : ℤ → Option ℤ
join_ticker interval = do
  period ← new_ticker (wrap64 (interval *ℤ pos 1000000))
  some (reset_period interval period)

module _ (M : Memberlist) where
  -- Start: the list of members, or an error.
  unfoldable pub start : GoString → GossipConfig → Option M.State
  unfolding node_name
  start hostname cfg = M.create cfg.bind_addr cfg.port (node_name hostname cfg)

  -- Stop, on a list that Start may have made.
  unfoldable pub stop : Option M.State → Option M.State
  stop none = none
  stop (some s) = some (M.shutdown (M.leave s))

  -- Members
  unfoldable pub members : Option M.State → List M.Node
  members none = []
  members (some s) = M.members s

  module _ (resolver : Resolver) (discoverer : Discoverer) where
    -- tryJoin; errors are only logged.
    unfoldable pub try_join : M.State → M.State
    unfolding get_peers
    try_join s = elim (get_peers resolver discoverer) [
      | none ↦ s
      | some peers ↦ elim peers [ [] ↦ s | p ∷ ps ↦ (M.join s (p ∷ ps)).0 ]
    ]

    -- A tick of joinLoop.
    unfoldable pub join_round : M.State → M.State
    unfolding try_join
    join_round s = if leb (M.num_members s) 1 then try_join s else s

    -- Some ticks.
    unfoldable pub join_rounds : ℕ → M.State → M.State
    unfolding join_round
    join_rounds zero s = s
    join_rounds (suc k) s = join_rounds k (join_round s)
