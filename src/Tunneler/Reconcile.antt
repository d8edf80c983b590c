-- ===== src/Tunneler/Reconcile.antt =====
-- Reconcile of tunneler/network_controller.go.
pub mod Targets
pub mod Ends
pub mod Peers
use kube_overlay_operator.Base.{
  ℕ, String, Bool, true, false, not, Option, none, some, List, [], ◌∷◌, ◌++◌, ◌==◌, if◌then◌else◌,
}
use kube_overlay_operator.Base.Dict.{Dict, lookup, insert}
use kube_overlay_operator.Base.Outcome.{pure, fail, ◌>>=◌, ◌>>◌}
use kube_overlay_operator.Base.Result.{ok, err}
use kube_overlay_operator.Api.{OverlayNetwork, OverlayNetworkIpAllocation}
use kube_overlay_operator.External.Client.{Client, is_not_found}
use kube_overlay_operator.External.Lo.{Lo}
use kube_overlay_operator.External.Netlink.{Netlink}
use kube_overlay_operator.Net.Text.{NetText}
use kube_overlay_operator.Tunneler.{
  TunnelReconciler, LinkInfo, RouteState, World, api_error, Action,
}
use kube_overlay_operator.Tunneler.Naming.{get_tunnel_id}
use kube_overlay_operator.Tunneler.Routes.{routes_of}
use kube_overlay_operator.Tunneler.Interfaces.{Orders, reconcile_tunnel_interfaces}

abbrev Allocation : Type 0
Allocation = OverlayNetworkIpAllocation

-- The link from a local allocation to another.
abbrev pub link_info : Allocation → Allocation → LinkInfo
link_info own item = record {
  remote_ip = item.pod_ip;
  local_ip = own.pod_ip;
  in_tunnel_local_ip = own.ip;
  in_tunnel_remote_ip = item.ip;
  processed = false;
}

module _ (encode : ℕ → String) where
  -- lo.SliceToMap with the callback of Reconcile, which names the link: it is called at each item,
  -- in order, and may register the network.
  unfoldable pub links_to :
      OverlayNetwork
      → Allocation
      → List Allocation
      → Dict LinkInfo
      → TunnelReconciler
      → Dict LinkInfo × TunnelReconciler
  links_to nw own [] m r = (m, r)
  links_to nw own (item ∷ items) m r =
      let (name, r') = get_tunnel_id encode nw.meta.name item.pod_name r in
      links_to nw own items (insert name (link_info own item) m) r'

module _ (lo : Lo) where
  abbrev pub entry_of : String → List Allocation → Option Allocation
  entry_of name xs = lo.find xs (λ t. t.pod_name == name)

  abbrev pub is_found : Option Allocation → Bool
  is_found none = false
  is_found (some a) = true

  -- The pod's own entry and the entries that it has links to: for a router all other allocations,
  -- for another member the routers.
  unfoldable pub peers : String → OverlayNetwork → Option (Allocation × List Allocation)
  peers me nw = elim (entry_of me nw.status.routers) [
    | some router ↦
        some (router, lo.filter nw.status.allocations (λ item. not (item.pod_name == me)))
    | none ↦ elim (entry_of me nw.status.allocations) [
      | some member ↦ some (member, nw.status.routers)
      | none ↦ none
    ]
  ]

  -- The body of lo.ForEach over the extra networks of the pod.
  unfoldable pub extra_routes_to : NetText → OverlayNetwork → String → List RouteState
  extra_routes_to net nw item = elim (lo.find nw.spec.optional_routes (λ e. e.name == item)) [
    | none ↦ []
    | some extra_net ↦ elim (lookup extra_net.name nw.status.optional_routers) [
      | none ↦ []
      | some valid_routers ↦ routes_of net extra_net.routable_cidrs valid_routers
    ]
  ]

  unfoldable pub extra_routes_for : NetText → OverlayNetwork → List String → List RouteState
  unfolding extra_routes_to
  extra_routes_for net nw [] = []
  extra_routes_for net nw (item ∷ items) =
      extra_routes_to net nw item ++ extra_routes_for net nw items

  -- The extra routes of a member, and none for another pod.
  unfoldable pub extra_routes : NetText → OverlayNetwork → Option Allocation → List RouteState
  unfolding extra_routes_for
  extra_routes net nw none = []
  extra_routes net nw (some member) = extra_routes_for net nw member.extra_networks

  unfoldable pub target_links :
      (ℕ → String)
      → OverlayNetwork
      → Option (Allocation × List Allocation)
      → TunnelReconciler
      → Dict LinkInfo × TunnelReconciler
  target_links encode nw none r = ([], r)
  target_links encode nw (some (own, others)) r = links_to encode nw own others [] r

module _ (lo : Lo) (net : NetText) (nl : Netlink) (orders : Orders) (encode : ℕ → String) where
  -- Reconcile behind the read of the network.
  unfoldable pub reconcile_network : OverlayNetwork → Action nl (Unit {0})
  reconcile_network nw w =
      let me = w.self.my_pod_name in
      let (target, self) = target_links lo encode nw (peers lo me nw) w.self in
      reconcile_tunnel_interfaces lo net nl orders nw target
        (is_found lo (entry_of lo me nw.status.routers))
        (extra_routes lo net nw (entry_of lo me nw.status.allocations))
        (record { self = self; kernel = w.kernel })

  unfoldable pub reconcile : Client → String → String → Action nl (Unit {0})
  reconcile c namespace name = elim (c.get_network [] namespace name) [
    | err e ↦ if is_not_found e then pure tt else fail (api_error e)
    | ok nw ↦ reconcile_network nw
  ]
