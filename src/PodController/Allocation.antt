-- ===== src/PodController/Allocation.antt =====
-- allocateIP and deallocateIP of controllers/pod_controller.go, as changes of a network's status.
use kube_overlay_operator.Base.{
  String, ◌<>◌, Bool, true, false, not, Option, none, some, List, [], ◌∷◌, ◌++◌, ◌==◌, has_prefix,
  trim_prefix, split, if◌then◌else◌,
}
use kube_overlay_operator.Base.Lists.{set}
use kube_overlay_operator.Base.Dict.{Dict, lookup, insert, get, map_entries}
use kube_overlay_operator.Base.Result.{Result, ok, err, ◌>>=◌}
use kube_overlay_operator.Api.{
  OverlayNetwork, OverlayNetworkStatus, OverlayNetworkIpAllocation, Pod,
}
use kube_overlay_operator.External.Lo.{Lo}
use mathlib.Core.Option
use kube_overlay_operator.External.Client.{ApiError, is_not_found, Client, Log, send, update_status}
use kube_overlay_operator.Net.Bytes.{Ip, IpNet, contains_ip}
use kube_overlay_operator.Net.Text.{NetText}
use kube_overlay_operator.Iputil.{IpError, HostResult, host, failed, first_free_host}

abbrev pub pod_ip_annotation : String
pod_ip_annotation = "network.deinstapel.de/request-ip"

-- The errors of allocateIP.
pub data AllocationError : Type 0 where
  no_pod_ip network_deleting bad_network_cidr outside_cidr : AllocationError
  ip_error : IpError → AllocationError
  update_failed : ApiError → AllocationError

-- The loop that fills the map of the addresses in use.
unfoldable pub fill_allocation_map : Dict Bool → List OverlayNetworkIpAllocation → Dict Bool
fill_allocation_map m [] = m
fill_allocation_map m (alloc ∷ rest) = fill_allocation_map (insert alloc.ip true m) rest

module _ (lo : Lo) (net : NetText) where
  -- The address that the pod's annotation requests in the network; none also if it does not parse.
  unfoldable pub requested_ip : OverlayNetwork → Pod → Option Ip
  requested_ip nw pod = elim (lookup pod_ip_annotation pod.meta.annotations) [
    | none ↦ none
    | some request_ip ↦
        let nw_prefix = nw.meta.name <> "/" in
        elim (lo.filter (split request_ip b',') (λ i. has_prefix i nw_prefix)) [
          | [] ↦ none
          | request ∷ _ ↦ net.parse_ip (trim_prefix request nw_prefix)
        ]
  ]

  -- The requested address lies in the network, or none is requested.
  abbrev pub request_fits : IpNet → Option Ip → Bool
  request_fits cidr none = true
  request_fits cidr (some ip) = contains_ip cidr ip

  abbrev pub host_or_error : HostResult → Result AllocationError String
  host_or_error (host s) = ok s
  host_or_error (failed e) = err (ip_error e)

  -- The address for a pod that has none in the network.
  unfoldable pub choose_ip : OverlayNetwork → Pod → Result AllocationError String
  choose_ip nw pod = elim nw.meta.deletion_timestamp [
    | some _ ↦ err network_deleting
    | none ↦
        let allocated = fill_allocation_map [] nw.status.allocations in
        let request = requested_ip nw pod in
        elim (net.parse_cidr nw.spec.allocatable_cidr) [
          | none ↦ err bad_network_cidr
          | some (_, cidr) ↦
              if not (request_fits cidr request)
              then err outside_cidr
              else host_or_error (first_free_host net nw.spec.allocatable_cidr allocated request)
        ]
  ]

  -- The branch for a pod without an allocation: it is appended.
  unfoldable pub add_allocation :
      OverlayNetwork
      → Pod
      → List String
      → Result AllocationError (OverlayNetworkIpAllocation × List OverlayNetworkIpAllocation)
  add_allocation nw pod extra_networks = do
    ip ← choose_ip nw pod
    let allocation : OverlayNetworkIpAllocation = record {
      pod_name = pod.meta.name;
      pod_ip = pod.pod_ip;
      ip = ip;
      extra_networks = extra_networks;
    }
    ok (allocation, nw.status.allocations ++ allocation ∷ [])

  -- The pod's allocation, and the list of allocations with it.
  unfoldable pub ensure_allocation :
      OverlayNetwork
      → Pod
      → List String
      → Result AllocationError (OverlayNetworkIpAllocation × List OverlayNetworkIpAllocation)
  ensure_allocation nw pod extra_networks =
      let allocations = nw.status.allocations in
      elim (lo.find_index_of allocations (λ item. pod.meta.name == item.pod_name)) [
        | none ↦ add_allocation nw pod extra_networks
        | some (found, index) ↦
            let allocation = record found { extra_networks = extra_networks } in
            ok (allocation, set allocations index allocation)
      ]

  -- The loop that records the pod as an optional router.
  unfoldable pub record_extra_routers :
      OverlayNetworkIpAllocation
      → List String
      → Dict (List OverlayNetworkIpAllocation)
      → Dict (List OverlayNetworkIpAllocation)
  record_extra_routers allocation [] m = m
  record_extra_routers allocation (extra_router ∷ rest) m = record_extra_routers allocation rest (
      if lo.contains_by (get [] extra_router m) (λ a. a.pod_name == allocation.pod_name)
      then m
      else insert extra_router (get [] extra_router m ++ allocation ∷ []) m)

  -- The entries of other pods.
  abbrev pub others : Pod → List OverlayNetworkIpAllocation → List OverlayNetworkIpAllocation
  others pod xs = lo.filter xs (λ n. not (n.pod_name == pod.meta.name))

  -- The loop that removes the pod from the optional routers that it does not serve.
  abbrev pub drop_other_routers :
      Pod
      → List String
      → Dict (List OverlayNetworkIpAllocation)
      → Dict (List OverlayNetworkIpAllocation)
  drop_other_routers pod extra_routers =
      map_entries (λ name xs. if lo.contains extra_routers name then xs else others pod xs)

  abbrev pub record_router :
      Pod
      → Bool
      → OverlayNetworkIpAllocation
      → List OverlayNetworkIpAllocation
      → List OverlayNetworkIpAllocation
  record_router pod true allocation routers =
      if not (lo.contains_by routers (λ n. n.pod_name == pod.meta.name))
      then routers ++ allocation ∷ []
      else routers
  record_router pod false allocation routers = others pod routers

  -- The status with the pod's allocation, and the pod in the lists of routers where it belongs.
  abbrev pub status_with :
      OverlayNetwork
      → Pod
      → Bool
      → List String
      → OverlayNetworkIpAllocation × List OverlayNetworkIpAllocation
      → OverlayNetworkStatus
  status_with nw pod is_router extra_routers (allocation, allocations) = record {
    allocations = allocations;
    routers = record_router pod is_router allocation nw.status.routers;
    optional_routers =
        drop_other_routers pod extra_routers
          (record_extra_routers allocation extra_routers nw.status.optional_routers);
  }

  -- allocateIP up to the update: the new status of the network.
  unfoldable pub allocated_status :
      OverlayNetwork
      → Pod
      → Bool
      → List String
      → List String
      → Result AllocationError OverlayNetworkStatus
  allocated_status nw pod is_router extra_networks extra_routers =
      if pod.pod_ip == "" then err no_pod_ip else do
        entry ← ensure_allocation nw pod extra_networks
        ok (status_with nw pod is_router extra_routers entry)

  -- deallocateIP up to the update.
  unfoldable pub deallocated_status : OverlayNetwork → Pod → OverlayNetworkStatus
  deallocated_status nw pod = record {
    allocations = others pod nw.status.allocations;
    routers = others pod nw.status.routers;
    optional_routers = map_entries (λ _ xs. others pod xs) nw.status.optional_routers;
  }

-- Status().Update, where an error that the network is gone is none.
unfoldable pub update_network_status : Client → OverlayNetwork → Log → Option ApiError × Log
update_network_status c nw log =
    let (error, log') = send c (update_status nw) log in
    elim error [ none ↦ (none, log') | some e ↦ (if is_not_found e then none else some e, log') ]

-- What allocateIP and deallocateIP return, with the requests sent.
module _ (lo : Lo) (net : NetText) (c : Client) where
  unfoldable pub allocate_ip :
      OverlayNetwork → Pod → Bool → List String → List String → Log → Option AllocationError × Log
  allocate_ip nw pod is_router extra_networks extra_routers log =
      elim (allocated_status lo net nw pod is_router extra_networks extra_routers) [
        | err e ↦ (some e, log)
        | ok status ↦
            let (error, log') = update_network_status c (record nw { status = status }) log in
            (Option.map update_failed error, log')
      ]

  unfoldable pub deallocate_ip : OverlayNetwork → Pod → Log → Option AllocationError × Log
  deallocate_ip nw pod log =
      let nw' = record nw { status = deallocated_status lo net nw pod } in
      let (error, log') = update_network_status c nw' log in (Option.map update_failed error, log')
