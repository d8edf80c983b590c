-- ===== src/Iputil/Host.antt =====
-- The results of FirstFreeHost against a description of the address that it should return.
use kube_overlay_operator.Base.{
  ℕ, zero, suc, ◌<◌, ◌^◌, String, Bool, true, false, ◌≡◌, refl, sym, ap, subst, ◌∙◌, inl, inr,
  Bool-cases, Option, none, some, Option-cases, arith,
}
use kube_overlay_operator.Base.Lists.{length}
use kube_overlay_operator.Base.Dict.{Dict}
use kube_overlay_operator.Net.Bytes.{Ip, IpNet, contains_ip}
use kube_overlay_operator.Net.Text.{NetText, IsNetText}
use kube_overlay_operator.Iputil.{
  HostResult, host, failed, invalid_cidr, address_pool_exhausted, duplicate_ip_request, out_of_fuel,
  inc, is_allocated, search_from, pick_host, first_free_host,
}
use kube_overlay_operator.Iputil.Value.{length-inc, inc-IsBytes}
use kube_overlay_operator.Iputil.Search.{IsFirstFree, IsExhausted, Finds, search_from-Finds}
use kube_overlay_operator.Iputil.Fuel.{search_from-ne-cut}

module _ (net : NetText) (cidr : String) (allocated : Dict Bool) where
  -- The answer to a request: the address itself if it is free, and the duplicate error if not.
  pub data Requested (wanted : Ip) : HostResult → Type 0 where
    granted :
        is_allocated allocated (net.ip_string wanted) ≡ false
        → Requested wanted (host (net.ip_string wanted))
    refused :
        is_allocated allocated (net.ip_string wanted) ≡ true
        → Requested wanted (failed duplicate_ip_request)

  -- The answer without a request, from the address behind the one that the CIDR names: the first
  -- free address of the network, or the error that there is none.
  pub data Searched (ipnet : IpNet) (start : Ip) : HostResult → Type 0 where
    first_free :
        (ip : Ip)
        → IsFirstFree net ipnet allocated start ip
        → Searched ipnet start (host (net.ip_string ip))
    exhausted :
        IsExhausted net ipnet allocated start → Searched ipnet start (failed address_pool_exhausted)

  pub data Answer (request : Option Ip) (r : HostResult) : Type 0 where
    bad_cidr : net.parse_cidr cidr ≡ none → r ≡ failed invalid_cidr → Answer request r
    by_request : (wanted : Ip) → request ≡ some wanted → Requested wanted r → Answer request r
    by_search :
        (ip : Ip) (ipnet : IpNet)
        → net.parse_cidr cidr ≡ some (ip, ipnet)
        → request ≡ none
        → Searched ipnet (inc ip) r
        → Answer request r

  Searched-of_Finds :
      (ipnet : IpNet) (start : Ip) (r : HostResult)
      → (r ≡ failed out_of_fuel → ⊥)
      → Finds net ipnet allocated start r
      → Searched ipnet start r
  Searched-of_Finds ipnet start (host s) uncut (ip, e, f) =
      subst (λ t. Searched ipnet start (host t)) (sym e) (first_free ip f)
  Searched-of_Finds ipnet start (failed e) uncut (inl cut) = absurd (uncut (ap failed cut))
  Searched-of_Finds ipnet start (failed e) uncut (inr (over, x)) =
      subst (λ t. Searched ipnet start (failed t)) (sym over) (exhausted x)

  pick_host-Answer :
      IsNetText net
      → length allocated < 256 ^ 16
      → (ip : Ip) (ipnet : IpNet) (request : Option Ip) → net.parse_cidr cidr ≡ some (ip, ipnet)
      → Answer request (pick_host net ipnet allocated ip request)
  unfolding pick_host
  pick_host-Answer laws small ip ipnet (some wanted) e =
      by_request wanted refl (elim (Bool-cases (is_allocated allocated (net.ip_string wanted))) [
        | inl used ↦ rw used (refused used)
        | inr free ↦ rw free (granted free)
      ])
  pick_host-Answer laws small ip ipnet none e = by_search ip ipnet e refl (
      Searched-of_Finds ipnet (inc ip) _
        (search_from-ne-cut net laws ipnet allocated (suc (length allocated)) (inc ip)
          (length-inc ip ∙ laws.length-parse_cidr cidr ip ipnet e)
          (inc-IsBytes ip (laws.parse_cidr-IsBytes cidr ip ipnet e)) (omega arith) (omega arith))
        (search_from-Finds net ipnet allocated (suc (length allocated)) (inc ip)))

  -- For fewer than 2^128 allocated addresses FirstFreeHost returns, and with this answer: the error
  -- for a CIDR that does not parse; else a requested address if it is not allocated, or the error
  -- for a duplicate if it is; without a request the first address that is not allocated, in
  -- counting on from the one that the CIDR's text names, which is not given itself, as long as this
  -- stays in the network, or the error that it leaves the network before one.
  pub first_free_host-Answer :
      IsNetText net
      → length allocated < 256 ^ 16
      → (request : Option Ip) → Answer request (first_free_host net cidr allocated request)
  unfolding first_free_host
  first_free_host-Answer laws small request = elim (Option-cases (net.parse_cidr cidr)) [
    | inl bad ↦ bad_cidr bad (rw (bad, first_free_host))
    | inr ((ip, ipnet), e) ↦
        rw (e, first_free_host) (pick_host-Answer laws small ip ipnet request e)
  ]

module _ (net : NetText) (allocated : Dict Bool) where
  search_from-free :
      (fuel : ℕ) (ipnet : IpNet) (start : Ip) (s : String)
      → search_from net fuel ipnet allocated start ≡ host s
      → is_allocated allocated s ≡ false
  unfolding search_from
  search_from-free zero ipnet start s e = cc
  search_from-free (suc fuel) ipnet start s e =
      ground (arith, search_from-free fuel ipnet (inc start) s)

  pick_host-free :
      (ipnet : IpNet) (ip : Ip) (request : Option Ip) (s : String)
      → pick_host net ipnet allocated ip request ≡ host s
      → is_allocated allocated s ≡ false
  unfolding pick_host
  pick_host-free ipnet ip (some wanted) s e = ground arith
  pick_host-free ipnet ip none s e = search_from-free (suc (length allocated)) ipnet (inc ip) s e

  -- A host that is returned is not allocated.
  pub first_free_host-free :
      (cidr : String) (request : Option Ip) (s : String)
      → first_free_host net cidr allocated request ≡ host s
      → is_allocated allocated s ≡ false
  unfolding first_free_host
  first_free_host-free cidr request s e = elim (Option-cases (net.parse_cidr cidr)) [
    | inl bad ↦ absurd (ground (arith, bad))
    | inr ((ip, ipnet), p) ↦ pick_host-free ipnet ip request s (ground (arith, p))
  ]

module _ (net : NetText) (allocated : Dict Bool) (ip : Ip) (ipnet : IpNet) where
  search_from-inside :
      (fuel : ℕ) (start : Ip) (s : String)
      → search_from net fuel ipnet allocated start ≡ host s
      → (x : Ip) × (s ≡ net.ip_string x) × (contains_ip ipnet x ≡ true)
  search_from-inside fuel start s e =
      let (x, printed, first) =
        subst (Finds net ipnet allocated start) e
          (search_from-Finds net ipnet allocated fuel start) in
      (x, printed, first.inside)

  -- A host that the search returns is the text of an address of the network.
  pub first_free_host-inside :
      (cidr s : String)
      → net.parse_cidr cidr ≡ some (ip, ipnet)
      → first_free_host net cidr allocated none ≡ host s
      → (x : Ip) × (s ≡ net.ip_string x) × (contains_ip ipnet x ≡ true)
  unfolding first_free_host pick_host
  first_free_host-inside cidr s p e =
      search_from-inside (suc (length allocated)) (inc ip) s (rw (p, first_free_host) at e)

  -- A host that is returned for a requested address is its text.
  pub first_free_host-requested :
      (cidr s : String) (wanted : Ip)
      → net.parse_cidr cidr ≡ some (ip, ipnet)
      → first_free_host net cidr allocated (some wanted) ≡ host s
      → s ≡ net.ip_string wanted
  unfolding first_free_host pick_host
  first_free_host-requested cidr s wanted p e = ground (arith, p)
