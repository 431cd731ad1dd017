-- ===== src/Discovery/Sorted.antt =====
-- The order of the peers that internal/discovery/discovery.go returns.
use mathlib.Core.Option.{some-injective}
use mathlib.Core.Path.{subst}
use mathlib.Core.List.{Perm}
use mathlib.Core.List.Perm
use otel_tail_sampler.Base.{
  ◌≡◌, refl, true, false, none, some, List, [], ◌∷◌, map, ◌⊎◌, inl, inr, Option-cases, Bool-cases,
  arith,
}
use otel_tail_sampler.Base.Text.{GoString, less_str}
use otel_tail_sampler.Discovery.{
  Srv, Resolver, by_host, insert_sorted, sort_strings, dns_peers, peer_of,
}

less_str-asym : (s t : GoString) → less_str s t ≡ true → less_str t s ≡ false
unfolding less_str
less_str-asym s [] h = cc
less_str-asym [] (d ∷ t) h = refl
less_str-asym (b ∷ s) (d ∷ t) h = ground (arith, less_str-asym s t)

-- No string is below the one before it.
abbrev pub IsSorted : List GoString → Type 0
IsSorted [] = Unit
IsSorted (s ∷ []) = Unit
IsSorted (s ∷ t ∷ ts) = (less_str t s ≡ false) × IsSorted (t ∷ ts)

insert_sorted-IsSorted :
    (s : GoString) (l : List GoString) → IsSorted l → IsSorted (insert_sorted s l)
unfolding insert_sorted
insert_sorted-IsSorted s [] h = tt
insert_sorted-IsSorted s (t ∷ []) h = elim (Bool-cases (less_str t s)) [
  | inl e ↦ rw (e, insert_sorted) (less_str-asym t s e, tt)
  | inr e ↦ rw (e, insert_sorted) (e, tt)
]
insert_sorted-IsSorted s (t ∷ u ∷ l) (h, hs) = elim (Bool-cases (less_str t s)) [
  | inl e ↦
      let rest = insert_sorted-IsSorted s (u ∷ l) hs in
      elim (Bool-cases (less_str u s)) [
        | inl e' ↦ rw (e, insert_sorted, e') (h, rw (e', insert_sorted) at rest)
        | inr e' ↦ rw (e, insert_sorted, e') (less_str-asym t s e, (e', hs))
      ]
  | inr e ↦ rw (e, insert_sorted) (e, (h, hs))
]

sort_strings-IsSorted : (l : List GoString) → IsSorted (sort_strings l)
unfolding sort_strings
sort_strings-IsSorted [] = tt
sort_strings-IsSorted (s ∷ l) = insert_sorted-IsSorted s (sort_strings l) (sort_strings-IsSorted l)

insert_sorted-perm : (s : GoString) (l : List GoString) → Perm (insert_sorted s l) (s ∷ l)
unfolding insert_sorted
insert_sorted-perm s [] = Perm.rfl
insert_sorted-perm s (t ∷ l) = elim (Bool-cases (less_str t s)) [
  | inl e ↦
      rw (e, insert_sorted) (Perm.trans (Perm.cons t (insert_sorted-perm s l)) (Perm.swap s t l))
  | inr e ↦ rw (e, insert_sorted) Perm.rfl
]

sort_strings-perm : (l : List GoString) → Perm (sort_strings l) l
unfolding sort_strings
sort_strings-perm [] = Perm.rfl
sort_strings-perm (s ∷ l) =
    Perm.trans (insert_sorted-perm s (sort_strings l)) (Perm.cons s (sort_strings-perm l))

-- In ascending order, with the members of another list, each as often as there.
abbrev pub IsSortOf : List GoString → List GoString → Type 0
IsSortOf found peers = IsSorted peers × Perm peers found

-- The addresses that the resolver knows for a name: of its records if there are some, or else of its
-- host.
abbrev pub IsKnown : Resolver → GoString → List GoString → Type 0
IsKnown resolver name found =
    ((srv : Srv) × (more : List Srv) × (resolver.lookup_srv name ≡ some (srv ∷ more))
      × (found ≡ map peer_of (srv ∷ more)))
    ⊎ (((resolver.lookup_srv name ≡ none) ⊎ (resolver.lookup_srv name ≡ some []))
        × (resolver.lookup_host name ≡ some found))

sort_strings-IsSortOf : (l : List GoString) → IsSortOf l (sort_strings l)
sort_strings-IsSortOf l = (sort_strings-IsSorted l, sort_strings-perm l)

-- The peers that a look-up yields are a permutation, in ascending order, of the addresses of the
-- service's records, or of those of its host if the look-up of the records fails or finds none.
pub dns_peers-IsSortOf :
    (resolver : Resolver) (name : GoString) (peers : List GoString)
    → dns_peers resolver name ≡ some peers
    → (found : List GoString) × IsKnown resolver name found × IsSortOf found peers
unfolding dns_peers
dns_peers-IsSortOf resolver name peers h = elim (Option-cases (resolver.lookup_srv name)) [
  | inl e ↦ host (inl e) (rw (e, dns_peers) at h)
  | inr (srvs, e) ↦ records srvs e (rw (e, dns_peers) at h)
]
  where
    host :
        ((resolver.lookup_srv name ≡ none) ⊎ (resolver.lookup_srv name ≡ some []))
        → by_host (resolver.lookup_host name) ≡ some peers
        → (found : List GoString) × IsKnown resolver name found × IsSortOf found peers
    host without h' = elim (Option-cases (resolver.lookup_host name)) [
      | inl f ↦ let k = rw (f, by_host) at h' in cc
      | inr (addrs, f) ↦
          let k = some-injective _ _ (rw (f, by_host) at h') in
          (addrs, inr (without, f), subst (IsSortOf addrs) k (sort_strings-IsSortOf addrs))
    ]

    records :
        (srvs : List Srv)
        → resolver.lookup_srv name ≡ some srvs
        → (elim srvs [
          | [] ↦ by_host (resolver.lookup_host name)
          | srv ∷ more ↦ some (sort_strings (map peer_of (srv ∷ more)))
        ])
          ≡ some peers
        → (found : List GoString) × IsKnown resolver name found × IsSortOf found peers
    records [] e k = host (inr e) k
    records (srv ∷ more) e k = (
      map peer_of (srv ∷ more),
      inl (srv, more, e, refl),
      subst (IsSortOf (map peer_of (srv ∷ more))) (some-injective _ _ k)
          (sort_strings-IsSortOf (map peer_of (srv ∷ more))),
    )
