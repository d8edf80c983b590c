-- ===== src/Tunneler/Reconcile/Ends.antt =====
-- The ends of the tunnels that a status asks for.
use kube_overlay_operator.Base.{
  ℕ, String, true, false, not, ◌&&◌, ◌||◌, ◌≡◌, refl, ap, Option, none, some, List, [], ◌∷◌, map,
  ◌==◌, if◌then◌else◌, arith,
}
use kube_overlay_operator.Base.Dict.{lookup}
use kube_overlay_operator.Base.Lists.{contains, find, All}
use kube_overlay_operator.Api.{OverlayNetworkIpAllocation, OverlayNetworkStatus}
use kube_overlay_operator.PodController.WellFormed.{pod_names, place, IsBacked, rest_of}
use kube_overlay_operator.Tunneler.{LinkInfo}
use kube_overlay_operator.Tunneler.Naming.{link_name}
use kube_overlay_operator.Tunneler.Reconcile.{link_info}

-- The address in the network and the pod address of a pod.
abbrev pub endpoint : OverlayNetworkStatus → String → Option (String × String)
endpoint s pod = lookup pod (map place s.allocations)

abbrev pub between_endpoints : Option (String × String) → Option (String × String) → Option LinkInfo
between_endpoints (some (ip, pod_ip)) (some (remote, remote_pod)) = some (record {
  remote_ip = remote_pod;
  local_ip = pod_ip;
  in_tunnel_local_ip = ip;
  in_tunnel_remote_ip = remote;
  processed = false;
})
between_endpoints _ _ = none

-- The link of one pod to another as the status says: there is one between a router and another pod.
abbrev pub expected_link : OverlayNetworkStatus → String → String → Option LinkInfo
expected_link s me pod =
    if not (me == pod) && (contains (pod_names s.routers) me || contains (pod_names s.routers) pod)
    then between_endpoints (endpoint s me) (endpoint s pod)
    else none

-- The entry of a pod.
abbrev pub entry : String → List OverlayNetworkIpAllocation → Option OverlayNetworkIpAllocation
entry pod xs = find (λ t. t.pod_name == pod) xs

-- No other pod of the list has the pod's link name.
abbrev pub HasOwnLink : (ℕ → String) → ℕ → String → List OverlayNetworkIpAllocation → Type 0
HasOwnLink encode id pod xs =
    All (λ item. link_name encode id item.pod_name ≡ link_name encode id pod → item.pod_name ≡ pod)
      xs

pub entry-endpoint :
    (pod : String) (xs : List OverlayNetworkIpAllocation) (a : OverlayNetworkIpAllocation)
    → entry pod xs ≡ some a
    → lookup pod (map place xs) ≡ some (a.ip, a.pod_ip)
entry-endpoint pod [] a h = ground arith
entry-endpoint pod (x ∷ xs) a h = ground (arith, entry-endpoint pod xs a)

pub entry-endpoint_none :
    (pod : String) (xs : List OverlayNetworkIpAllocation)
    → entry pod xs ≡ none
    → lookup pod (map place xs) ≡ none
entry-endpoint_none pod [] h = refl
entry-endpoint_none pod (x ∷ xs) h = ground (arith, entry-endpoint_none pod xs)

pub router-endpoint :
    (allocations : List OverlayNetworkIpAllocation) (pod : String)
    (xs : List OverlayNetworkIpAllocation) (a : OverlayNetworkIpAllocation)
    → All (IsBacked allocations) xs
    → entry pod xs ≡ some a
    → lookup pod (map place allocations) ≡ some (a.ip, a.pod_ip)
router-endpoint allocations pod [] a h e = ground arith
router-endpoint allocations pod (x ∷ xs) a (p, h) e =
    ground
      (arith, router-endpoint allocations pod xs a h, p, ap (λ n. lookup n (map place allocations)))

pub entry-contains :
    (pod : String) (xs : List OverlayNetworkIpAllocation) (a : OverlayNetworkIpAllocation)
    → entry pod xs ≡ some a
    → contains (pod_names xs) pod ≡ true
entry-contains pod [] a h = ground arith
entry-contains pod (x ∷ xs) a h = ground (arith, entry-contains pod xs a)

pub entry-contains_none :
    (pod : String) (xs : List OverlayNetworkIpAllocation)
    → entry pod xs ≡ none
    → contains (pod_names xs) pod ≡ false
entry-contains_none pod [] h = refl
entry-contains_none pod (x ∷ xs) h = ground (arith, entry-contains_none pod xs)

pub contains-entry_none :
    (pod : String) (xs : List OverlayNetworkIpAllocation)
    → contains (pod_names xs) pod ≡ false
    → entry pod xs ≡ none
contains-entry_none pod [] h = refl
contains-entry_none pod (x ∷ xs) h = ground (arith, contains-entry_none pod xs)

pub entry-rest_of :
    (me pod : String) (xs : List OverlayNetworkIpAllocation)
    → entry pod (rest_of me xs) ≡ (if me == pod then none else entry pod xs)
entry-rest_of me pod [] = ground arith
entry-rest_of me pod (x ∷ xs) = ground (arith, entry-rest_of me pod xs)

abbrev pub link_if_found :
    OverlayNetworkIpAllocation
    → Option OverlayNetworkIpAllocation
    → Option LinkInfo
    → Option LinkInfo
link_if_found own (some item) old = some (link_info own item)
link_if_found own none old = old

abbrev pub reversed : LinkInfo → LinkInfo
reversed info = record {
  remote_ip = info.local_ip;
  local_ip = info.remote_ip;
  in_tunnel_local_ip = info.in_tunnel_remote_ip;
  in_tunnel_remote_ip = info.in_tunnel_local_ip;
  processed = info.processed;
}

abbrev pub reversed_link : Option LinkInfo → Option LinkInfo
reversed_link none = none
reversed_link (some info) = some (reversed info)

pub between_endpoints-reversed :
    (a b : Option (String × String)) → between_endpoints a b ≡ reversed_link (between_endpoints b a)
between_endpoints-reversed (some p) (some q) = refl
between_endpoints-reversed (some p) none = refl
between_endpoints-reversed none (some q) = refl
between_endpoints-reversed none none = refl

pub expected_link-reversed :
    (s : OverlayNetworkStatus) (a b : String)
    → expected_link s a b ≡ reversed_link (expected_link s b a)
expected_link-reversed s a b =
    ground (arith, between_endpoints-reversed (endpoint s a) (endpoint s b))
