-- ===== src/Tests/Pods.antt =====
-- The pod controller at a network with one allocation.
use kube_overlay_operator.Base.{
  has_prefix, split, trim_prefix, ◌&&◌, not, String, true, false, ◌≡◌, refl, none, some, [], ◌∷◌,
}
use kube_overlay_operator.Base.Strings.{string_dec}
use kube_overlay_operator.Base.Lists.{All, contains}
use kube_overlay_operator.Base.Result.{ok}
use kube_overlay_operator.Api.{
  OverlayNetwork, OverlayNetworkStatus, OverlayNetworkIpAllocation, Pod,
}
use kube_overlay_operator.External.Lo.{documented_lo, documented_lo-IsLo}
use kube_overlay_operator.External.Finalizers.{
  documented_finalizers, documented_finalizers-IsFinalizers,
}
use kube_overlay_operator.External.Client.{done}
use kube_overlay_operator.Net.Bytes.{contains_ip, to4}
use kube_overlay_operator.Iputil.{inc, first_free_host, search_from}
use kube_overlay_operator.PodController.Allocation.{
  fill_allocation_map, requested_ip, choose_ip, add_allocation, ensure_allocation,
  record_extra_routers, allocated_status, deallocated_status, allocate_ip, update_network_status,
}
use kube_overlay_operator.PodController.Choice.{IsChosen, choose_ip-IsChosen}
use kube_overlay_operator.PodController.Closing.{SamePlaces, allocated_status-SamePlaces}
use kube_overlay_operator.PodController.Undo.{AreAlike, deallocated_status-allocated_status}
use kube_overlay_operator.PodController.Allocate.{IsAllocated, allocated_status-IsAllocated}
use kube_overlay_operator.PodController.Reconcile.{
  reconcile_networks, reconcile_since, conclude, visit_all, visit, after_allocation, all_networks,
  unique_networks, router_networks, annotation_list, names_for,
}
use kube_overlay_operator.PodController.Wants.{is_wanted}
use kube_overlay_operator.PodController.Served.{IsServed}
use kube_overlay_operator.PodController.Done.{reconcile_networks-done}
use kube_overlay_operator.PodController.Deletion.{deletion_outcome, reconcile_networks-deleted}
use kube_overlay_operator.Tests.Text.{text}
use kube_overlay_operator.Tests.Objects.{
  address, old_allocation, lan, lan_since, lan_status, lan-IsWellFormed, pod_since, web_pod, server,
  in_order, in_order-IsMapToSlice,
}

abbrev old_pod : Pod
old_pod = pod_since "old" none

-- The allocation that the pod "web-0" gets.
abbrev new_allocation : OverlayNetworkIpAllocation
new_allocation = record {
  pod_name = "web-0";
  pod_ip = "192.168.0.7";
  ip = address 2;
  extra_networks = "db" ∷ [];
}

abbrev new_status : OverlayNetworkStatus
new_status = record {
  allocations = old_allocation ∷ new_allocation ∷ [];
  routers = old_allocation ∷ new_allocation ∷ [];
  optional_routers = ("vpn", new_allocation ∷ []) ∷ [];
}

new_status_lem :
    allocated_status documented_lo text lan web_pod true ("db" ∷ []) ("vpn" ∷ []) ≡ ok new_status
unfolding allocated_status ensure_allocation add_allocation choose_ip requested_ip
    fill_allocation_map record_extra_routers first_free_host search_from contains_ip to4 inc
    string_dec
new_status_lem = refl

allocated_status-IsAllocated_example : IsAllocated web_pod true lan_status new_status
allocated_status-IsAllocated_example =
    allocated_status-IsAllocated documented_lo-IsLo text lan web_pod true ("db" ∷ []) ("vpn" ∷ [])
      new_status lan-IsWellFormed new_status_lem

choose_ip_second : choose_ip documented_lo text lan web_pod ≡ ok (address 2)
unfolding choose_ip requested_ip fill_allocation_map first_free_host search_from contains_ip to4 inc
    string_dec
choose_ip_second = refl

choose_ip-IsChosen_example : IsChosen documented_lo text lan web_pod (address 2)
choose_ip-IsChosen_example =
    choose_ip-IsChosen documented_lo-IsLo text lan web_pod (address 2) choose_ip_second

abbrev closing_lan : OverlayNetwork
closing_lan = lan_since (some "2023-01-01T00:00:00Z")

-- The status in which the pod "old" is no router any more.
abbrev closing_status : OverlayNetworkStatus
closing_status = record { allocations = old_allocation ∷ []; routers = []; optional_routers = [] }

closing_status_lem :
    allocated_status documented_lo text closing_lan old_pod false [] [] ≡ ok closing_status
unfolding allocated_status ensure_allocation record_extra_routers string_dec
closing_status_lem = refl

allocated_status-SamePlaces_example :
    SamePlaces closing_lan.status.allocations closing_status.allocations
allocated_status-SamePlaces_example =
    allocated_status-SamePlaces documented_lo-IsLo text closing_lan old_pod "2023-01-01T00:00:00Z"
      false [] [] closing_status refl closing_status_lem

abbrev dying_pod : Pod
dying_pod = pod_since "old" (some "2023-01-01T00:00:00Z")

reconcile_networks-deleted_example :
    reconcile_networks documented_lo text server documented_finalizers in_order dying_pod
      (lan ∷ [])
      []
    ≡ deletion_outcome server dying_pod (lan ∷ [])
reconcile_networks-deleted_example =
    reconcile_networks-deleted text server dying_pod documented_lo documented_lo-IsLo
      documented_finalizers-IsFinalizers in_order in_order-IsMapToSlice (lan ∷ [])
      "2023-01-01T00:00:00Z" refl

deallocated_status-allocated_status_example :
    AreAlike
      (deallocated_status documented_lo text (record lan { status = new_status }) web_pod)
      (deallocated_status documented_lo text lan web_pod)
deallocated_status-allocated_status_example =
    deallocated_status-allocated_status documented_lo-IsLo text lan web_pod true ("db" ∷ [])
      ("vpn" ∷ []) new_status new_status_lem

web_pod-done :
    (reconcile_networks documented_lo text server documented_finalizers in_order web_pod
      (lan ∷ [])
      []).0
    ≡ done
unfolding reconcile_networks reconcile_since conclude visit_all visit after_allocation allocate_ip
    update_network_status all_networks unique_networks router_networks annotation_list names_for
    allocated_status ensure_allocation add_allocation choose_ip requested_ip fill_allocation_map
    record_extra_routers first_free_host search_from contains_ip to4 inc string_dec has_prefix split
    trim_prefix
web_pod-done = refl

reconcile_networks-done_example :
    All (IsServed documented_lo text server web_pod) (lan ∷ [])
    × ((k : String)
        → (is_wanted documented_lo text server web_pod k && not (contains ("lan" ∷ []) k)) ≡ false)
reconcile_networks-done_example =
    reconcile_networks-done documented_lo-IsLo text server documented_finalizers in_order
      in_order-IsMapToSlice web_pod (lan ∷ []) refl (lan-IsWellFormed, tt) web_pod-done
