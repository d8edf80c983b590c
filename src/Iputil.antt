-- ===== src/Iputil.antt =====
-- controllers/iputil/pickip.go.
pub mod Value
pub mod Search
pub mod Fuel
pub mod Host
use kube_overlay_operator.Base.{
  ℕ, zero, suc, String, Bool, true, false, ◌≡◌, Option, none, some, if◌then◌else◌, not, List, [],
  ◌∷◌, ◌+◌, ◌%◌, ltb,
}
use kube_overlay_operator.Base.Lists.{length}
use kube_overlay_operator.Base.Dict.{Dict, get}
use kube_overlay_operator.Net.Bytes.{Ip, IpNet, contains_ip}
use kube_overlay_operator.Net.Text.{NetText}
use mathlib.Core.List.{reverse}

-- The loop of `inc`: it goes over the bytes from the last one, and stops at one that is not 0
-- after the increment.
inc_loop : List ℕ → List ℕ
inc_loop [] = []
inc_loop (b ∷ bs) =
    let b' = (b + 1) % 256 in let rest = inc_loop bs in if ltb 0 b' then b' ∷ bs else b' ∷ rest

unfoldable pub inc : Ip → Ip
unfolding inc_loop
inc ip = reverse (inc_loop (reverse ip))

-- `out_of_fuel` is no error of the program: it marks a loop that the model has cut off.
pub data IpError : Type 0 where
  invalid_cidr address_pool_exhausted duplicate_ip_request out_of_fuel : IpError

-- The two results of FirstFreeHost.
pub data HostResult : Type 0 where
  host : String → HostResult
  failed : IpError → HostResult

-- `allocated[ip]`
abbrev pub is_allocated : Dict Bool → String → Bool
is_allocated allocated ip = get false ip allocated

module _ (net : NetText) where
  -- The loop of FirstFreeHost, from the address that it looks at.
  unfoldable pub search_from : ℕ → IpNet → Dict Bool → Ip → HostResult
  search_from zero ipnet allocated ip = failed out_of_fuel
  search_from (suc fuel) ipnet allocated ip =
      let rest = search_from fuel ipnet allocated (inc ip) in
      if contains_ip ipnet ip
      then (if is_allocated allocated (net.ip_string ip) then rest else host (net.ip_string ip))
      else failed address_pool_exhausted

  -- The search passes over allocated addresses only, so it looks at one more than there are.
  abbrev pub fuel_for : Dict Bool → ℕ
  fuel_for allocated = suc (length allocated)

  -- What follows the parse of the CIDR: the requested address, or the search for one.
  pick_host : IpNet → Dict Bool → Ip → Option Ip → HostResult
  unfolding search_from
  pick_host ipnet allocated ip (some wanted) =
      if not (is_allocated allocated (net.ip_string wanted))
      then host (net.ip_string wanted)
      else failed duplicate_ip_request
  pick_host ipnet allocated ip none = search_from (fuel_for allocated) ipnet allocated (inc ip)

  unfoldable pub first_free_host : String → Dict Bool → Option Ip → HostResult
  unfolding pick_host
  first_free_host cidr allocated request = elim (net.parse_cidr cidr) [
    | none ↦ failed invalid_cidr
    | some (ip, ipnet) ↦ pick_host ipnet allocated ip request
  ]
