-- ===== src/Tests/TunnelRoutes.antt =====
-- Links and routes of a member.
use mathlib.Core.List.Memᴰ
use kube_overlay_operator.Base.{
  String, true, false, ◌&&◌, ◌≡◌, ◌≢◌, subst, refl, some, List, [], ◌∷◌, arith, has_prefix,
}
use kube_overlay_operator.Base.Strings.{string_dec}
use kube_overlay_operator.Base.Lists.{any, contains, All}
use kube_overlay_operator.Base.Dict.{Dict, keys}
use kube_overlay_operator.Base.Outcome.{Outcome, returned, continue, panicked}
use kube_overlay_operator.External.Lo.{documented_lo, documented_lo-IsLo}
use kube_overlay_operator.External.Netlink.{Netlink, Link, Route}
use kube_overlay_operator.External.Client.{Client}
use kube_overlay_operator.Base.Result.{ok, OnOk}
use kube_overlay_operator.Net.Bytes.{IpNet}
use kube_overlay_operator.Net.Masks.{ip_equal, mask_size}
use kube_overlay_operator.Tunneler.{LinkInfo, RouteState, TunnelError, World}
use kube_overlay_operator.Tunneler.Routes.{
  routes_of, routes_via, visit_routes, add_own_route, add_if_missing, link_targets, sync_link,
  reconcile_link, reconcile_routes,
}
use kube_overlay_operator.Tunneler.Routes.Stale.{looks_like, IsKept, IsDeleted, visit_route-kept}
use kube_overlay_operator.Tunneler.Routes.Repeated.{Fails, reconcile_routes-Fails}
use kube_overlay_operator.Tunneler.Naming.Ids.{fresh}
use kube_overlay_operator.Tunneler.Links.{visit_link, visit_links, setup_missing}
use kube_overlay_operator.Tunneler.Links.Present.{setup_missing-present}
use kube_overlay_operator.Tunneler.Links.Visit.{names}
use kube_overlay_operator.Tunneler.Reconcile.{link_info, reconcile}
use kube_overlay_operator.Tunneler.Calm.Routes.{HasDst, reconcile-ne-panicked}
use kube_overlay_operator.Tests.Text.{text, mapped}
use kube_overlay_operator.Tests.Objects.{old_allocation, server}
use kube_overlay_operator.Tests.Kernel.{link_of, kernel, kernel-IsNetlink, kernel-RefusesRepeats}
use kube_overlay_operator.Tests.Tunnels.{encode, as_listed, web_allocation, network, lan_net}

abbrev info : LinkInfo
info = link_info web_allocation old_allocation

-- A member's kernel with two new links.
abbrev two_links : World kernel
two_links = record {
  self = fresh "web-0";
  kernel = record { links = "oA_a" ∷ "oA_b" ∷ []; ports = []; routes = [] };
}

abbrev first_run : Outcome (TunnelError kernel) (List RouteState) × World kernel
first_run = reconcile_link documented_lo text kernel network false ("oA_a", info) [] two_links

first_run_lem :
    first_run ≡ (returned (routes_of text ("10.0.0.0/30" ∷ []) (old_allocation ∷ [])), first_run.1)
unfolding reconcile_link link_targets sync_link visit_routes add_own_route add_if_missing routes_of
    routes_via continue string_dec
first_run_lem = refl

reconcile_routes-Fails_example : Fails (
    reconcile_routes documented_lo text kernel network false
      (("oA_a", info) ∷ ("oA_b", info) ∷ [])
      []
      two_links)
unfolding reconcile_link link_targets sync_link visit_routes add_own_route add_if_missing routes_of
    routes_via continue string_dec
reconcile_routes-Fails_example =
    reconcile_routes-Fails documented_lo-IsLo text kernel-RefusesRepeats network ("oA_a", info)
      ("oA_b", info) [] [] (routes_of text ("10.0.0.0/30" ∷ []) (old_allocation ∷ []))
      (record {
        net = record { ip = 10 ∷ 0 ∷ 0 ∷ 0 ∷ []; mask = 255 ∷ 255 ∷ 255 ∷ 252 ∷ [] };
        router = mapped (10 ∷ 0 ∷ 0 ∷ 1 ∷ []);
      })
      (record { name = "oA_b"; index = 1 }) two_links first_run.1 (Memᴰ.head refl) first_run_lem
      refl refl

abbrev stale_net : IpNet
stale_net = record { ip = 10 ∷ 9 ∷ 9 ∷ 0 ∷ []; mask = 255 ∷ 255 ∷ 255 ∷ 252 ∷ [] }

-- A route to 10.9.9.0/30 by the router's address.
abbrev stale_route : Route
stale_route = record {
  link_index = 0;
  scope = 0;
  dst = some stale_net;
  src = [];
  gw = mapped (10 ∷ 0 ∷ 0 ∷ 1 ∷ []);
}

abbrev lan_targets : List RouteState
lan_targets = record { net = lan_net; router = mapped (10 ∷ 0 ∷ 0 ∷ 1 ∷ []) } ∷ []

visit_route-kept_example :
    (any (looks_like stale_route stale_net) lan_targets ≡ true
      → IsKept text lan_net info lan_targets stale_route stale_net false [] two_links documented_lo)
    × (any (looks_like stale_route stale_net) lan_targets ≡ false
        → IsDeleted text lan_net info lan_targets stale_route stale_net false [] two_links
            documented_lo)
visit_route-kept_example =
    visit_route-kept text lan_net info lan_targets stale_route stale_net false [] two_links
      documented_lo-IsLo refl refl

-- It looks like the route to 10.0.0.0/30.
looks_like_test : any (looks_like stale_route stale_net) lan_targets ≡ true
unfolding ip_equal mask_size
looks_like_test = refl

abbrev one_target : Dict LinkInfo
one_target = ("oA_a", info) ∷ []

abbrev one_done : Dict LinkInfo
one_done = ("oA_a", record info { processed = true }) ∷ []

has_prefix_test : has_prefix "oA_a" "oA_" ≡ true
unfolding has_prefix
has_prefix_test = refl

one_target-there :
    (x : String)
    → contains (keys one_target) x ≡ true
    → (contains (names (link_of two_links.kernel "oA_a" ∷ [])) x && has_prefix x "oA_") ≡ true
one_target-there x h = ground (arith, h, has_prefix_test)

visit_links_test :
    visit_links documented_lo text kernel "oA_"
      (link_of two_links.kernel "oA_a" ∷ [])
      one_target
      two_links
    ≡ (returned one_done, two_links)
unfolding visit_links visit_link continue string_dec has_prefix
visit_links_test = refl

setup_missing-present_example :
    setup_missing documented_lo text kernel network false one_done two_links
    ≡ (returned tt, two_links)
setup_missing-present_example =
    setup_missing-present documented_lo text kernel-IsNetlink network false "oA_"
      (link_of two_links.kernel "oA_a" ∷ []) one_target one_done two_links two_links (refl, tt)
      one_target-there visit_links_test

-- A kernel in which each link has the stale route.
abbrev listing : Netlink
listing = record kernel { route_list = λ l k. ok (stale_route ∷ []) }

abbrev start_listing : World listing
start_listing = record { self = fresh "web-0"; kernel = two_links.kernel }

-- A server that returns the network of the tests.
abbrev network_server : Client
network_server = record server { get_network = λ log ns name. ok network }

listing-HasDst :
    (link : Link) (k : listing.Kernel) (routes : List Route)
    → listing.route_list link k ≡ ok routes
    → All HasDst routes
listing-HasDst link k routes e = subst (OnOk (All HasDst)) e ((λ e. cc), tt)

reconcile-ne-panicked_example :
    (reconcile documented_lo text listing as_listed encode network_server "default" "lan"
      start_listing).0
    ≢ panicked
reconcile-ne-panicked_example =
    reconcile-ne-panicked documented_lo text listing listing-HasDst as_listed encode network_server
      "default" "lan" start_listing
