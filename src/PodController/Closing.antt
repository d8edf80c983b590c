-- ===== src/PodController/Closing.antt =====
-- allocateIP at a network that is being deleted.
use kube_overlay_operator.Base.{
  String, Bool, ◌≡◌, refl, some, List, map, arith, Option-cases, inl, inr,
}
use kube_overlay_operator.Base.Result.{ok, err, OnOk}
use kube_overlay_operator.Base.{subst}
use kube_overlay_operator.Api.{
  OverlayNetwork, OverlayNetworkStatus, OverlayNetworkIpAllocation, Pod,
}
use kube_overlay_operator.External.Lo.{Lo, IsLo, documented_lo, transport_lo, find_index_from}
use kube_overlay_operator.Net.Text.{NetText}
use kube_overlay_operator.PodController.Allocation.{
  network_deleting, choose_ip, add_allocation, ensure_allocation, allocated_status,
}
use kube_overlay_operator.PodController.WellFormed.{place}
use kube_overlay_operator.PodController.Ensure.{is_pod, map-set_found}
use kube_overlay_operator.PodController.Allocate.{Allocations, allocated_status-eq-ok}

-- The same pods with the same addresses in the same order.
abbrev pub SamePlaces : Allocations → Allocations → Type 0
SamePlaces before after = map place after ≡ map place before

module _ (net : NetText) (nw : OverlayNetwork) (pod : Pod) (time : String) where
  choose_ip-deleting :
      nw.meta.deletion_timestamp ≡ some time
      → choose_ip documented_lo net nw pod ≡ err network_deleting
  unfolding choose_ip
  choose_ip-deleting deleted = rw deleted refl

  add_allocation-deleting :
      (extra : List String)
      → nw.meta.deletion_timestamp ≡ some time
      → add_allocation documented_lo net nw pod extra ≡ err network_deleting
  unfolding add_allocation
  add_allocation-deleting extra deleted = rw (choose_ip-deleting deleted) refl

  ensure_allocation-deleting :
      (extra : List String) (p : OverlayNetworkIpAllocation × Allocations)
      → nw.meta.deletion_timestamp ≡ some time
      → ensure_allocation documented_lo net nw pod extra ≡ ok p
      → SamePlaces nw.status.allocations p.1
  unfolding ensure_allocation
  ensure_allocation-deleting extra p deleted e =
      elim (Option-cases (find_index_from 0 nw.status.allocations (is_pod pod.meta.name))) [
        | inl absent ↦ absurd (ground (arith, absent, add_allocation-deleting extra deleted))
        | inr ((x, i), found) ↦
            let y : OverlayNetworkIpAllocation = record x { extra_networks = extra } in
            subst (OnOk (λ q. SamePlaces nw.status.allocations q.1))
              (rw (found, ensure_allocation) at e)
              (map-set_found (is_pod pod.meta.name) place nw.status.allocations x y i found refl).1
      ]

  allocated_status-documented :
      (is_router : Bool) (extra_networks extra_routers : List String) (s : OverlayNetworkStatus)
      → nw.meta.deletion_timestamp ≡ some time
      → allocated_status documented_lo net nw pod is_router extra_networks extra_routers ≡ ok s
      → SamePlaces nw.status.allocations s.allocations
  allocated_status-documented is_router extra_networks extra_routers s deleted e =
      let (p, ensured, made) =
        allocated_status-eq-ok net nw pod is_router extra_networks extra_routers e in
      subst (OnOk (λ (t : OverlayNetworkStatus). SamePlaces nw.status.allocations t.allocations))
        made (ensure_allocation-deleting extra_networks p deleted ensured)

-- A network that is being deleted gets no new pod: if allocateIP succeeds there, the pods of its
-- allocations and their addresses are the same as before, in the same order.
pub allocated_status-SamePlaces :
    {lo : Lo} (laws : IsLo lo) (net : NetText) (nw : OverlayNetwork) (pod : Pod) (time : String)
    (is_router : Bool) (extra_networks extra_routers : List String) (s : OverlayNetworkStatus)
    → nw.meta.deletion_timestamp ≡ some time
    → allocated_status lo net nw pod is_router extra_networks extra_routers ≡ ok s
    → SamePlaces nw.status.allocations s.allocations
allocated_status-SamePlaces laws net nw pod time is_router extra_networks extra_routers s deleted =
    transport_lo laws
      (λ lo.
        allocated_status lo net nw pod is_router extra_networks extra_routers ≡ ok s
        → SamePlaces nw.status.allocations s.allocations)
      (allocated_status-documented net nw pod time is_router extra_networks extra_routers s deleted)
