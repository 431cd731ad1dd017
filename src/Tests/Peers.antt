-- ===== src/Tests/Peers.antt =====
-- The theorems on the membership at two nodes.
use otel_tail_sampler.Base.{◌≡◌, none, some, List, [], ◌∷◌, length, if◌then◌else◌, arith}
use otel_tail_sampler.Base.Int.{pos, ltb_ℤ, ◌*ℤ◌}
use otel_tail_sampler.Base.Text.{GoString, codes}
use otel_tail_sampler.Discovery.{Resolver}
use otel_tail_sampler.Gossip.Membership.{Memberlist, join_ticker}
use otel_tail_sampler.Gossip.Membership.Joining.{join_ticker_lem}

-- The members as a list of names; a join reaches every peer.
abbrev names : Memberlist
names = record {
  State = List GoString;
  Node = GoString;
  create = λ addr port name. some (name ∷ []);
  num_members = λ s. length s;
  members = λ s. s;
  join = λ s peers. (codes "self" ∷ peers, some (length peers));
  leave = λ s. s;
  shutdown = λ s. s;
}

abbrev resolver : Resolver
resolver = record { lookup_srv = λ name. none; lookup_host = λ name. none }

join_ticker_lem_example :
    join_ticker (pos 0) ≡ (if ltb_ℤ (pos 0) (pos 0) then some (pos 0 *ℤ pos 1000000) else none)
join_ticker_lem_example = join_ticker_lem (pos 0) (omega arith) (omega arith)
