-- ===== src/Resolver/Cache.antt =====
-- The cache of a network, and what Reconcile of the resolver makes of the caches.
use mathlib.Core.Option.{some-injective}
use mathlib.Core.List.{Memᴰ}
use kube_overlay_operator.Base.{
  ℕ, String, Bool, true, false, ◌≡◌, ◌≢◌, refl, sym, subst, ap, ◌∙◌, Option, none, some, List, [],
  ◌∷◌, ◌||◌, ◌⊎◌, inl, inr, arith, nat_eq, nat_eq→eq, if◌then◌else◌, Bool-cases, Option-cases,
}
use kube_overlay_operator.Base.Lists.{contains}
use kube_overlay_operator.Base.Dict.{Dict, insert, get, lookup-insert}
use kube_overlay_operator.Api.{OverlayNetwork, OverlayNetworkIpAllocation}
use kube_overlay_operator.Net.Bytes.{Ip, to4}
use kube_overlay_operator.Net.Text.{NetText}
use kube_overlay_operator.Resolver.{
  ip2int, IpCache, lookup_ip, insert_ip, NetworkCache, parse_v4, cache_addresses, cache_allocations,
  allow_services, network_cache,
}

eq_of_guard : (b : Bool) (w v : Ip) → (if b then some w else none) ≡ some v → w ≡ v
eq_of_guard true w v e = some-injective w v e
eq_of_guard false w v e = cc

-- To4 gives four bytes, which have a number.
pub ip2int-to4 : (ip v4 : Ip) → to4 ip ≡ some v4 → ip2int v4 ≢ none
unfolding to4 ip2int
ip2int-to4 (a ∷ b ∷ c ∷ d ∷ []) v4 e = ground arith
ip2int-to4 (z0 ∷ z1 ∷ z2 ∷ z3 ∷ z4 ∷ z5 ∷ z6 ∷ z7 ∷ z8 ∷ z9 ∷ f0 ∷ f1 ∷ a ∷ b ∷ c ∷ d ∷ []) v4 e =
    subst (λ v. ip2int v ≢ none) (eq_of_guard _ (a ∷ b ∷ c ∷ d ∷ []) v4 e) (ground arith)
ip2int-to4 _ v4 e = cc

lookup_ip-insert_ip :
    (j k : ℕ) (ip : Ip) (m : IpCache)
    → lookup_ip j (insert_ip k ip m) ≡ (if nat_eq k j then some ip else lookup_ip j m)
lookup_ip-insert_ip j k ip [] = refl
lookup_ip-insert_ip j k ip ((i, old) ∷ m) = ground (arith, lookup_ip-insert_ip j k ip m)

module _ (net : NetText) where
  -- An allocation that maps the number k of a pod address to a tunnel address.
  pub record Maps (allocations : List OverlayNetworkIpAllocation) (k : ℕ) (target : Ip)
      : Type 0 where
    pub allocation : OverlayNetworkIpAllocation
    pub listed : Memᴰ allocation allocations
    pub pod_address : Ip
    pub pod_parses : parse_v4 net allocation.pod_ip ≡ some pod_address
    pub key : ip2int pod_address ≡ some k
    pub tunnel_parses : parse_v4 net allocation.ip ≡ some target

  Maps-cons :
      {allocations : List OverlayNetworkIpAllocation} {k : ℕ} {target : Ip}
      (al : OverlayNetworkIpAllocation)
      → Maps allocations k target
      → Maps (al ∷ allocations) k target
  Maps-cons al m = record {
    allocation = m.allocation;
    listed = Memᴰ.tail m.listed;
    pod_address = m.pod_address;
    pod_parses = m.pod_parses;
    key = m.key;
    tunnel_parses = m.tunnel_parses;
  }

  cache_addresses_cases :
      (pod tunnel : Option Ip) (m m' : IpCache) (k : ℕ) (target : Ip)
      → cache_addresses pod tunnel m ≡ some m'
      → lookup_ip k m' ≡ some target
      → (lookup_ip k m ≡ some target)
        ⊎ ((p : Ip) × (pod ≡ some p) × (ip2int p ≡ some k) × (tunnel ≡ some target))
  cache_addresses_cases (some p) (some t) m m' k target e h = elim (Option-cases (ip2int p)) [
    | inl panic ↦ absurd (ground (arith, panic))
    | inr (j, number) ↦
        let made : insert_ip j t m ≡ m' = ground (arith, number) in
        let found : (if nat_eq j k then some t else lookup_ip k m) ≡ some target =
          sym (lookup_ip-insert_ip k j t m) ∙ ap (lookup_ip k) made ∙ h in
        elim (Bool-cases (nat_eq j k)) [
          | inl same ↦ inr (p, refl, number ∙ ap some (nat_eq→eq j k same), rw same at found)
          | inr other ↦ inl (rw other at found)
        ]
  ]
  cache_addresses_cases (some p) none m m' k target e h = inl (ground arith)
  cache_addresses_cases none tunnel m m' k target e h = inl (ground arith)

  cache_allocations-Maps :
      (allocations : List OverlayNetworkIpAllocation) (m m' : IpCache) (k : ℕ) (target : Ip)
      → cache_allocations net allocations m ≡ some m'
      → lookup_ip k m' ≡ some target
      → (lookup_ip k m ≡ some target) ⊎ Maps allocations k target
  unfolding cache_allocations
  cache_allocations-Maps [] m m' k target e h = inl (ground arith)
  cache_allocations-Maps (al ∷ rest) m m' k target e h =
      elim (Option-cases (cache_addresses (parse_v4 net al.pod_ip) (parse_v4 net al.ip) m)) [
        | inl panic ↦ absurd (ground (arith, panic))
        | inr (m₁, step) ↦
            elim (cache_allocations-Maps rest m₁ m' k target (ground (arith, step)) h) [
              | inr later ↦ inr (Maps-cons al later)
              | inl early ↦
                  elim (cache_addresses_cases (parse_v4 net al.pod_ip) (parse_v4 net al.ip) m m₁ k
                    target step early) [
                      | inl before ↦ inl before
                      | inr (p, pod, key, tunnel) ↦ inr (record {
                        allocation = al;
                        listed = Memᴰ.head refl;
                        pod_address = p;
                        pod_parses = pod;
                        key = key;
                        tunnel_parses = tunnel;
                      })
                    ]
            ]
      ]

  services_iff :
      (svc : String) (names : List String) (m : Dict Bool)
      → get false svc (allow_services net names m) ≡ (contains names svc || get false svc m)
  unfolding allow_services
  services_iff svc [] m = refl
  services_iff svc (n ∷ names) m =
      ground (arith, services_iff svc names (insert n true m), lookup-insert svc n true m)

  -- The cache of a network allows just the services that it names, and maps a number only as one of
  -- its allocations does.
  pub network_cache_lem :
      (nw : OverlayNetwork) (nc : NetworkCache)
      → network_cache net nw ≡ some nc
      → ((svc : String) → get false svc nc.services ≡ contains nw.spec.service_names svc)
        × ((k : ℕ) (target : Ip)
            → lookup_ip k nc.ip_cache ≡ some target
            → Maps nw.status.allocations k target)
  unfolding network_cache
  network_cache_lem nw nc e = elim (Option-cases (cache_allocations net nw.status.allocations [])) [
    | inl panic ↦ absurd (ground (arith, panic))
    | inr (m, cached) ↦
        let made : NetworkCache = record {
          services = allow_services net nw.spec.service_names [];
          ip_cache = m;
        } in
        subst
          (λ c.
            ((svc : String) → get false svc c.services ≡ contains nw.spec.service_names svc)
            × ((k : ℕ) (target : Ip)
                → lookup_ip k c.ip_cache ≡ some target
                → Maps nw.status.allocations k target))
          (some-injective made nc (rw (cached, network_cache) at e))
          (
            λ svc. services_iff svc nw.spec.service_names [] ∙ ground arith,
            λ k target h.
                elim (cache_allocations-Maps nw.status.allocations [] m k target cached h) [
                  | inl empty ↦ cc
                  | inr mapped ↦ mapped
                ],
          )
  ]

  ip2int-parse_v4 : (s : String) (p : Ip) → parse_v4 net s ≡ some p → ip2int p ≢ none
  ip2int-parse_v4 s p e = elim (Option-cases (net.parse_ip s)) [
    | inl bad ↦ absurd (ground (arith, bad))
    | inr (ip, parsed) ↦ ip2int-to4 ip p (ground (arith, parsed))
  ]

  cache_addresses_total :
      (pod tunnel : Option Ip) (m : IpCache)
      → ((p : Ip) → pod ≡ some p → ip2int p ≢ none)
      → cache_addresses pod tunnel m ≢ none
  cache_addresses_total (some p) (some t) m numbers = ground (arith, numbers p refl)
  cache_addresses_total (some p) none m numbers = ground arith
  cache_addresses_total none tunnel m numbers = ground arith

  cache_allocations_total :
      (allocations : List OverlayNetworkIpAllocation) (m : IpCache)
      → cache_allocations net allocations m ≢ none
  unfolding cache_allocations
  cache_allocations_total [] m = ground arith
  cache_allocations_total (al ∷ rest) m =
      elim (Option-cases (cache_addresses (parse_v4 net al.pod_ip) (parse_v4 net al.ip) m)) [
        | inl panic ↦ absurd (
            cache_addresses_total (parse_v4 net al.pod_ip) (parse_v4 net al.ip) m
              (λ p e. ip2int-parse_v4 al.pod_ip p e) panic)
        | inr (m₁, step) ↦ λ e. cache_allocations_total rest m₁ (rw (step, cache_allocations) at e)
      ]

  -- The cache of a network is made without a panic, whatever its allocations are.
  pub network_cache_total : (nw : OverlayNetwork) → network_cache net nw ≢ none
  unfolding network_cache
  network_cache_total nw = ground (arith, cache_allocations_total nw.status.allocations [])
