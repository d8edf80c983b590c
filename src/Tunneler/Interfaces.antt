-- ===== src/Tunneler/Interfaces.antt =====
-- reconcileTunnelInterfaces of tunneler/network_controller.go.
pub mod Synced
use kube_overlay_operator.Base.{ℕ, String, Bool, true, false, List, [], ◌∷◌}
use kube_overlay_operator.Base.Dict.{Dict}
use kube_overlay_operator.Base.Outcome.{returned, pure, ◌>>=◌, ◌>>◌}
use kube_overlay_operator.Api.{OverlayNetwork}
use kube_overlay_operator.External.Lo.{Lo}
use kube_overlay_operator.External.Netlink.{Netlink}
use kube_overlay_operator.Net.Text.{NetText}
use kube_overlay_operator.Tunneler.{LinkInfo, RouteState, World, Action, query}
use kube_overlay_operator.Tunneler.Naming.{get_network_id, link_prefix}
use kube_overlay_operator.Tunneler.Links.{reconcile_fou, visit_links, setup_missing}
use kube_overlay_operator.Tunneler.Routes.{reconcile_routes}

-- `len(targetState) > 0`
abbrev pub is_nonempty : Dict LinkInfo → Bool
is_nonempty [] = false
is_nonempty (e ∷ es) = true

-- The orders in which Go goes over the target state, which it chooses anew for each loop.
pub record Orders : Type 0 where
  pub setup_order : Dict LinkInfo → Dict LinkInfo
  pub route_order : Dict LinkInfo → Dict LinkInfo

module _ (lo : Lo) (net : NetText) (nl : Netlink) (orders : Orders) where
  abbrev pub network_id : String → Action nl ℕ
  network_id name w =
      let (id, self) = get_network_id name w.self in
      (returned id, record { self = self; kernel = w.kernel })

  unfoldable pub reconcile_tunnel_interfaces :
      OverlayNetwork → Dict LinkInfo → Bool → List RouteState → Action nl (Unit {0})
  reconcile_tunnel_interfaces nw target_state is_router extra_routes = do
    reconcile_fou lo net nl nw (is_nonempty target_state)
    links ← query nl nl.link_list
    local_net ← network_id nw.meta.name
    target ← visit_links lo net nl (link_prefix local_net) links target_state
    setup_missing lo net nl nw is_router (orders.setup_order target)
    reconcile_routes lo net nl nw is_router (orders.route_order target) extra_routes
