-- ===== src/Cluster/Inside.antt =====
-- When all addresses of a network are of its allocatable network, and how statuses keep to that.
use kube_overlay_operator.Base.{
  String, Bool, true, ◌≡◌, refl, subst, some, List, [], ◌∷◌, ◌==◌, Option-cases, Bool-cases, inl,
  inr,
}
use mathlib.Core.List.{map-append}
use kube_overlay_operator.Base.Lists.{All, All-append}
use kube_overlay_operator.Base.Result.{ok, OnOk, >>=-eq-ok}
use kube_overlay_operator.Api.{
  OverlayNetwork, OverlayNetworkStatus, OverlayNetworkIpAllocation, Pod,
}
use kube_overlay_operator.External.Lo.{documented_lo, documented_lo-IsLo, find_index_from}
use kube_overlay_operator.Net.Bytes.{Ip, IpNet, contains_ip}
use kube_overlay_operator.Net.Text.{NetText}
use kube_overlay_operator.PodController.Allocation.{
  choose_ip, add_allocation, ensure_allocation, allocated_status, deallocated_status,
}
use kube_overlay_operator.PodController.WellFormed.{ips, rest_of}
use kube_overlay_operator.PodController.Ensure.{is_pod, map-set_found}
use kube_overlay_operator.PodController.Choice.{choose_ip-IsChosen}
use kube_overlay_operator.PodController.Allocate.{Allocations, allocated_status-eq-ok}
use kube_overlay_operator.Webhooks.Validator.Admission.{IsValidSpec}

module _ (net : NetText) where
  -- The text is that of an address in the network of the other text.
  pub record IsInside (cidr_text ip : String) : Type 0 where
    pub base : Ip
    pub cidr : IpNet
    pub parsed : net.parse_cidr cidr_text ≡ some (base, cidr)
    pub address : Ip
    pub printed : ip ≡ net.ip_string address
    pub inside : contains_ip cidr address ≡ true

  -- The specification is valid, and all allocated addresses are of the allocatable network.
  pub record IsContained (nw : OverlayNetwork) : Type 0 where
    pub valid : IsValidSpec net nw.spec
    pub inside : All (IsInside nw.spec.allocatable_cidr) (ips nw.status.allocations)

  module _ (nw : OverlayNetwork) (pod : Pod) where
    abbrev AreInside : Allocations → Type 0
    AreInside xs = All (IsInside nw.spec.allocatable_cidr) (ips xs)

    chosen-IsInside :
        (ip : String)
        → choose_ip documented_lo net nw pod ≡ ok ip
        → IsInside nw.spec.allocatable_cidr ip
    chosen-IsInside ip e =
        let chosen = choose_ip-IsChosen documented_lo-IsLo net nw pod ip e in
        record {
          base = chosen.base;
          cidr = chosen.cidr;
          parsed = chosen.parsed;
          address = chosen.address;
          printed = chosen.printed;
          inside = chosen.inside;
        }

    add_allocation-AreInside :
        (extra : List String) (p : OverlayNetworkIpAllocation × Allocations)
        → AreInside nw.status.allocations
        → add_allocation documented_lo net nw pod extra ≡ ok p
        → AreInside p.1
    unfolding add_allocation
    add_allocation-AreInside extra p h e =
        let (ip, chosen, made) = >>=-eq-ok (choose_ip documented_lo net nw pod) _ e in
        subst (OnOk (λ q. AreInside q.1)) made (
          rw map-append (
            All-append (IsInside nw.spec.allocatable_cidr) (ips nw.status.allocations) (ip ∷ []) h
              (chosen-IsInside ip chosen, tt)))

    ensure_allocation-AreInside :
        (extra : List String) (p : OverlayNetworkIpAllocation × Allocations)
        → AreInside nw.status.allocations
        → ensure_allocation documented_lo net nw pod extra ≡ ok p
        → AreInside p.1
    unfolding ensure_allocation
    ensure_allocation-AreInside extra p h e =
        elim (Option-cases (find_index_from 0 nw.status.allocations (is_pod pod.meta.name))) [
          | inl absent ↦ add_allocation-AreInside extra p h (rw (absent, ensure_allocation) at e)
          | inr ((x, i), found) ↦
              let y : OverlayNetworkIpAllocation = record x { extra_networks = extra } in
              subst (OnOk (λ q. AreInside q.1)) (rw (found, ensure_allocation) at e) (
                rw
                  ((map-set_found (is_pod pod.meta.name) (λ a. a.ip) nw.status.allocations x y i
                    found refl).1)
                  h)
        ]

    pub allocated_status-AreInside :
        (is_router : Bool) (extra_networks extra_routers : List String) (s : OverlayNetworkStatus)
        → AreInside nw.status.allocations
        → allocated_status documented_lo net nw pod is_router extra_networks extra_routers ≡ ok s
        → AreInside s.allocations
    allocated_status-AreInside is_router extra_networks extra_routers s h e =
        let (p, ensured, made) =
          allocated_status-eq-ok net nw pod is_router extra_networks extra_routers e in
        subst (OnOk (λ (t : OverlayNetworkStatus). AreInside t.allocations)) made
          (ensure_allocation-AreInside extra_networks p h ensured)

    rest_of-AreInside :
        (name : String) (xs : Allocations) → AreInside xs → AreInside (rest_of name xs)
    rest_of-AreInside name [] h = tt
    rest_of-AreInside name (x ∷ xs) h = elim (Bool-cases (x.pod_name == name)) [
      | inl same ↦ rw same (rest_of-AreInside name xs h.1)
      | inr other ↦ rw other (h.0, rest_of-AreInside name xs h.1)
    ]

    pub deallocated_status-AreInside :
        AreInside nw.status.allocations
        → AreInside (deallocated_status documented_lo net nw pod).allocations
    unfolding deallocated_status
    deallocated_status-AreInside = rest_of-AreInside pod.meta.name nw.status.allocations
