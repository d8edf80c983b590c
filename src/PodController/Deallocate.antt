-- ===== src/PodController/Deallocate.antt =====
-- What deallocateIP leaves of a status.
use kube_overlay_operator.Base.{String, ◌≡◌, none, List, [], ◌∷◌, map, ◌==◌, if◌then◌else◌}
use kube_overlay_operator.Base.Lists.{All}
use kube_overlay_operator.Base.Dict.{Dict, lookup, map_entries}
use kube_overlay_operator.Api.{OverlayNetwork, OverlayNetworkIpAllocation, Pod}
use kube_overlay_operator.External.Lo.{Lo, IsLo, documented_lo, transport_lo}
use kube_overlay_operator.Net.Text.{NetText}
use kube_overlay_operator.PodController.Allocation.{deallocated_status}
use kube_overlay_operator.PodController.WellFormed.{
  IsWellFormed, AreRouters, rest_of, rest_of-Distinct, AreRouters-rest_of, place, lookup-rest_of,
}

All-optional_rest :
    (name : String) (as' : List OverlayNetworkIpAllocation)
    (m : Dict (List OverlayNetworkIpAllocation))
    → All (λ e. AreRouters as' e.1) m
    → All (λ e. AreRouters (rest_of name as') e.1) (map_entries (λ _ xs. rest_of name xs) m)
All-optional_rest name as' [] h = tt
All-optional_rest name as' ((k, xs) ∷ m) h =
    (AreRouters-rest_of name as' xs h.0, All-optional_rest name as' m h.1)

deallocated_status-documented :
    (net : NetText) (nw : OverlayNetwork) (pod : Pod)
    → IsWellFormed nw.status
    → IsWellFormed (deallocated_status documented_lo net nw pod)
unfolding deallocated_status
deallocated_status-documented net nw pod w = record {
  one_per_pod =
      rest_of-Distinct (λ a. a.pod_name) pod.meta.name nw.status.allocations w.one_per_pod;
  one_per_ip = rest_of-Distinct (λ a. a.ip) pod.meta.name nw.status.allocations w.one_per_ip;
  routers_known =
      AreRouters-rest_of pod.meta.name nw.status.allocations nw.status.routers w.routers_known;
  optional_known =
      All-optional_rest pod.meta.name nw.status.allocations nw.status.optional_routers
        w.optional_known;
}

-- Removing a pod from a network keeps its status well formed.
pub deallocated_status-IsWellFormed :
    {lo : Lo} (laws : IsLo lo) (net : NetText) (nw : OverlayNetwork) (pod : Pod)
    → IsWellFormed nw.status
    → IsWellFormed (deallocated_status lo net nw pod)
deallocated_status-IsWellFormed laws net nw pod w =
    transport_lo laws (λ lo. IsWellFormed (deallocated_status lo net nw pod))
      (deallocated_status-documented net nw pod w)

lookup-deallocated_documented :
    (net : NetText) (nw : OverlayNetwork) (pod : Pod) (j : String)
    → lookup j (map place (deallocated_status documented_lo net nw pod).allocations)
      ≡ (if pod.meta.name == j then none else lookup j (map place nw.status.allocations))
unfolding deallocated_status
lookup-deallocated_documented net nw pod j = lookup-rest_of pod.meta.name j nw.status.allocations

-- Removing a pod takes away its allocation, and no other.
pub deallocated_status-lookup :
    {lo : Lo}
    → IsLo lo
    → (net : NetText) (nw : OverlayNetwork) (pod : Pod) (j : String)
    → lookup j (map place (deallocated_status lo net nw pod).allocations)
      ≡ (if pod.meta.name == j then none else lookup j (map place nw.status.allocations))
deallocated_status-lookup laws net nw pod j =
    transport_lo laws
      (λ lo.
        lookup j (map place (deallocated_status lo net nw pod).allocations)
        ≡ (if pod.meta.name == j then none else lookup j (map place nw.status.allocations)))
      (lookup-deallocated_documented net nw pod j)
