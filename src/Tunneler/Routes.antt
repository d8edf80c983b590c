-- ===== src/Tunneler/Routes.antt =====
-- reconcileRoutes and netEqual of tunneler/network_controller.go.
pub mod Keeping
pub mod Stale
pub mod Repeated
use kube_overlay_operator.Base.{
  ℕ, String, Bool, true, false, ◌&&◌, Option, none, some, List, [], ◌∷◌, ◌++◌, nat_eq,
  if◌then◌else◌,
}
use kube_overlay_operator.Base.Dict.{Dict}
use kube_overlay_operator.Base.Lists.{find}
use kube_overlay_operator.Base.Outcome.{pure, fail, panic, ◌>>=◌, ◌>>◌, for_each}
use kube_overlay_operator.Api.{OverlayNetwork, OverlayNetworkIpAllocation}
use kube_overlay_operator.External.Lo.{Lo}
use kube_overlay_operator.External.Netlink.{Netlink, Link, Route}
use kube_overlay_operator.Net.Bytes.{Ip, IpNet}
use kube_overlay_operator.Net.Masks.{nil_ip, ip_or_nil, ip_equal, mask_size, host_mask}
use kube_overlay_operator.Net.Text.{NetText}
use kube_overlay_operator.Tunneler.{
  LinkInfo, RouteState, World, TunnelError, invalid_cidr, Action, call, query,
}

-- netEqual at two networks that are not nil. The code compares the address of the first with itself.
unfoldable pub net_equal : IpNet → IpNet → Bool
net_equal n1 n2 =
    let (n1ones, n1bits) = mask_size n1.mask in
    let (n2ones, n2bits) = mask_size n2.mask in
    nat_eq n1ones n2ones && (nat_eq n1bits n2bits && ip_equal n1.ip n1.ip)

-- netEqual(route.Dst, n): none is the panic at a nil destination.
abbrev pub dst_equal : Option IpNet → IpNet → Option Bool
dst_equal none n = none
dst_equal (some dst) n = some (net_equal dst n)

module _ (net : NetText) where
  -- The loop over the routers of a network that is routed.
  unfoldable pub routes_via : IpNet → List OverlayNetworkIpAllocation → List RouteState
  routes_via cidr [] = []
  routes_via cidr (rt ∷ routers) = elim (net.parse_ip rt.ip) [
    | none ↦ routes_via cidr routers
    | some ip ↦ record { net = cidr; router = ip } ∷ routes_via cidr routers
  ]

  -- The loop over the networks that are routed; one that does not parse is passed over.
  unfoldable pub routes_of : List String → List OverlayNetworkIpAllocation → List RouteState
  unfolding routes_via
  routes_of [] routers = []
  routes_of (cidr ∷ cidrs) routers = elim (net.parse_cidr cidr) [
    | none ↦ routes_of cidrs routers
    | some (_, cidr_obj) ↦ routes_via cidr_obj routers ++ routes_of cidrs routers
  ]

module _ (lo : Lo) (net : NetText) (nl : Netlink) where
  -- The network that the link itself gives: the allocatable one for a member, and for a router the
  -- peer alone.
  abbrev pub own_net : Bool → IpNet → LinkInfo → IpNet
  own_net true alloc_net info = record {
    ip = ip_or_nil (net.parse_ip info.in_tunnel_remote_ip);
    mask = host_mask;
  }
  own_net false alloc_net info = alloc_net

  abbrev pub local_ip : LinkInfo → Ip
  local_ip info = ip_or_nil (net.parse_ip info.in_tunnel_local_ip)

  -- The route is the link's own; none is a panic.
  unfoldable pub is_own_route : IpNet → LinkInfo → Route → Option Bool
  is_own_route own info route =
      if nat_eq route.scope nl.scope_link
      then (elim (dst_equal route.dst own) [
        | none ↦ none
        | some same ↦ some (same && ip_equal route.src (local_ip info))
      ])
      else some false

  -- The first target that a route fulfils. The outer none is the panic of the first comparison with
  -- a nil destination.
  unfoldable pub matching_target : List RouteState → Route → Option (Option RouteState)
  matching_target [] route = some none
  matching_target (t ∷ ts) route = elim route.dst [
    | none ↦ none
    | some dst ↦ some (lo.find (t ∷ ts) (λ rt. ip_equal rt.router route.gw && net_equal dst rt.net))
  ]

  -- The body of the loop over the routes of a link, on `allocatableFound` and `processedCidrs`.
  unfoldable pub visit_route :
      IpNet
      → LinkInfo
      → List RouteState
      → Route
      → Bool × List RouteState
      → Action nl (Bool × List RouteState)
  visit_route own info targets route (found, processed) = elim (is_own_route own info route) [
    | none ↦ panic
    | some true ↦ pure (true, processed)
    | some false ↦ elim (matching_target targets route) [
      | none ↦ panic
      | some none ↦ do call nl (nl.route_del route); pure (found, processed)
      | some (some cidr) ↦ pure (found, processed ++ cidr ∷ [])
    ]
  ]

  unfoldable pub visit_routes :
      IpNet
      → LinkInfo
      → List RouteState
      → List Route
      → Bool × List RouteState
      → Action nl (Bool × List RouteState)
  visit_routes own info targets [] s = pure s
  visit_routes own info targets (route ∷ routes) s = do
    s' ← visit_route own info targets route s
    visit_routes own info targets routes s'

  -- The branch for a link whose own route was not found.
  unfoldable pub add_own_route : Bool → IpNet → Link → LinkInfo → Action nl (Unit {0})
  add_own_route true own link info = pure tt
  add_own_route false own link info = call nl (
      nl.route_add (record {
        link_index = link.index;
        scope = nl.scope_link;
        dst = some own;
        src = local_ip info;
        gw = nil_ip;
      }))

  abbrev pub is_processed : List RouteState → RouteState → Bool
  is_processed processed route =
      lo.contains_by processed (λ p. net_equal p.net route.net && ip_equal route.router p.router)

  -- The body of the loop over the target routes; the scope of the new route is its zero value.
  unfoldable pub add_if_missing :
      Link → LinkInfo → List RouteState → RouteState → Action nl (Unit {0})
  add_if_missing link info processed route =
      if is_processed processed route
      then pure tt
      else call nl (
          nl.route_add (record {
            link_index = link.index;
            scope = 0;
            dst = some route.net;
            src = local_ip info;
            gw = route.router;
          }))

  -- The target routes at a link: those so far, and for a member the routes of the network again.
  unfoldable pub link_targets : OverlayNetwork → Bool → List RouteState → List RouteState
  link_targets nw true targets = targets
  link_targets nw false targets = targets ++ routes_of net nw.spec.routable_cidrs nw.status.routers

  -- The loop's body behind the test of the CIDR.
  unfoldable pub sync_link :
      Bool → Link → LinkInfo → IpNet → List RouteState → List Route → Action nl (Unit {0})
  sync_link is_router link info alloc_net targets routes = do
    (found, processed) ←
        visit_routes (own_net is_router alloc_net info) info targets routes (false, [])
    add_own_route found (own_net is_router alloc_net info) link info
    for_each targets (add_if_missing link info processed)

  -- The body of the loop over the target state: it gives back the target routes, which the next
  -- link goes on with.
  unfoldable pub reconcile_link :
      OverlayNetwork → Bool → String × LinkInfo → List RouteState → Action nl (List RouteState)
  reconcile_link nw is_router (link_name, info) targets = do
    link ← query nl (nl.link_by_name link_name)
    routes ← query nl (nl.route_list link)
    elim (net.parse_cidr nw.spec.allocatable_cidr) [
      | none ↦ fail invalid_cidr
      | some (_, alloc_net) ↦ do
        let targets' = link_targets nw is_router targets
        sync_link is_router link info alloc_net targets' routes
        pure targets'
    ]

  unfoldable pub reconcile_routes :
      OverlayNetwork → Bool → Dict LinkInfo → List RouteState → Action nl (Unit {0})
  reconcile_routes nw is_router [] targets = pure tt
  reconcile_routes nw is_router (entry ∷ entries) targets = do
    targets' ← reconcile_link nw is_router entry targets
    reconcile_routes nw is_router entries targets'
