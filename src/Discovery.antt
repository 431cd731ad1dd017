-- ===== src/Discovery.antt =====
-- internal/discovery/discovery.go: the addresses of the peers. The resolver is a parameter; `none` is
-- an error, of which its time-out is one.
pub mod Sorted
use otel_tail_sampler.Base.{
  ℕ, ◌==◌, Bool, Option, none, some, List, [], ◌∷◌, ◌++◌, map, if◌then◌else◌,
}
use otel_tail_sampler.Base.Int.{ℤ, pos}
use otel_tail_sampler.Base.Text.{GoString, codes, eqb, less_str, format_int}
use otel_tail_sampler.Config.{DiscoveryConfig}

-- net.SRV
pub record Srv : Type 0 where
  pub target : GoString
  pub port : ℕ

pub record Resolver : Type 0 where
  pub lookup_srv : GoString → Option (List Srv)
  pub lookup_host : GoString → Option (List GoString)

pub data Discoverer : Type 0 where
  static_discovery : List GoString → Discoverer
  dns_discovery : GoString → Discoverer

unfoldable pub new : DiscoveryConfig → Option Discoverer
new cfg =
    if eqb cfg.kind (codes "static")
    then some (static_discovery cfg.peers)
    else if eqb cfg.kind (codes "dns")
    then some (dns_discovery cfg.service_name)
    else none

-- sort.Strings
unfoldable pub insert_sorted : GoString → List GoString → List GoString
insert_sorted s [] = s ∷ []
insert_sorted s (t ∷ ts) =
    let rest = insert_sorted s ts in if less_str t s then t ∷ rest else s ∷ t ∷ ts

unfoldable pub sort_strings : List GoString → List GoString
unfolding insert_sorted
sort_strings [] = []
sort_strings (s ∷ ss) = insert_sorted s (sort_strings ss)

-- Without a dot at the end.
unfoldable pub trim_dot : GoString → GoString
trim_dot [] = []
trim_dot (b ∷ []) = if b == (b'.') then [] else b ∷ []
trim_dot (b ∷ d ∷ s) = b ∷ trim_dot (d ∷ s)

-- "%s:%d" of the target and the port.
unfoldable pub peer_of : Srv → GoString
unfolding trim_dot
peer_of srv = trim_dot srv.target ++ (b':' ∷ format_int (pos srv.port))

abbrev pub by_host : Option (List GoString) → Option (List GoString)
by_host none = none
by_host (some addrs) = some (sort_strings addrs)

-- The records of the service if there are some, and else its addresses.
unfoldable pub dns_peers : Resolver → GoString → Option (List GoString)
unfolding sort_strings peer_of
dns_peers resolver name = elim (resolver.lookup_srv name) [
  | none ↦ by_host (resolver.lookup_host name)
  | some srvs ↦ elim srvs [
    | [] ↦ by_host (resolver.lookup_host name)
    | srv ∷ more ↦ some (sort_strings (map peer_of (srv ∷ more)))
  ]
]

unfoldable pub get_peers : Resolver → Discoverer → Option (List GoString)
unfolding dns_peers
get_peers resolver (static_discovery peers) = some peers
get_peers resolver (dns_discovery name) = dns_peers resolver name
