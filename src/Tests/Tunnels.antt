-- ===== src/Tests/Tunnels.antt =====
-- The tunnel controller at a network with one or two routers and a member.
use kube_overlay_operator.Base.{
  ℕ, String, true, false, not, ◌&&◌, ◌≡◌, ◌↔◌, refl, sym, ap, [], ◌∷◌, nat_eq, arith, has_prefix,
  ◌==◌, if◌then◌else◌,
}
use kube_overlay_operator.Base.Strings.{string_dec}
use kube_overlay_operator.Base.Int.{pos}
use kube_overlay_operator.Base.Outcome.{Post}
use kube_overlay_operator.Api.{OverlayNetwork, OverlayNetworkIpAllocation, OverlayNetworkStatus}
use kube_overlay_operator.External.Lo.{documented_lo, documented_lo-IsLo}
use kube_overlay_operator.Net.Bytes.{IpNet}
use kube_overlay_operator.PodController.WellFormed.{IsWellFormed}
use kube_overlay_operator.Tunneler.{World}
use kube_overlay_operator.Tunneler.Naming.{
  get_network_id, number_of, next_index, link_prefix, link_name, fnv64, fnv_from, bytes_of, rune,
}
use kube_overlay_operator.Tunneler.Naming.Ids.{after_requests, fresh, get_network_id-eq_iff}
use kube_overlay_operator.Tunneler.Naming.Isolation.{has_prefix-link_name}
use kube_overlay_operator.Tunneler.Links.{reconcile_fou}
use kube_overlay_operator.Tunneler.Links.Ports.{reconcile_fou-port}
use kube_overlay_operator.Tunneler.Links.Visit.{Isolated}
use kube_overlay_operator.Tunneler.Interfaces.{Orders}
use kube_overlay_operator.Tunneler.Interfaces.Synced.{IsOrders}
use kube_overlay_operator.Tunneler.Reconcile.{reconcile_network}
use kube_overlay_operator.Tunneler.Reconcile.Targets.{
  names_link, linked_pods, reconcile_network-IsSynced,
}
use kube_overlay_operator.Tunneler.Reconcile.Ends.{expected_link, reversed_link, HasOwnLink}
use kube_overlay_operator.Tunneler.Reconcile.Peers.{
  target_link, target_link-expected, target_link-reversed,
}
use kube_overlay_operator.Tunneler.Shutdown.{is_letter, shutdown}
use kube_overlay_operator.Tunneler.Shutdown.Removal.{shutdown-link_name}
use kube_overlay_operator.Tests.Text.{text}
use kube_overlay_operator.Tests.Objects.{address, old_allocation, lan}
use kube_overlay_operator.Tests.Kernel.{State, link_of, kernel, kernel-IsNetlink}

abbrev pub web_allocation : OverlayNetworkIpAllocation
web_allocation = record {
  pod_name = "web-0";
  pod_ip = "10.0.0.1";
  ip = address 2;
  extra_networks = [];
}

abbrev pub status : OverlayNetworkStatus
status = record {
  allocations = old_allocation ∷ web_allocation ∷ [];
  routers = old_allocation ∷ [];
  optional_routers = [];
}

abbrev pub network : OverlayNetwork
network = record lan { status = status }

-- Names that are as long as those of base58, one for the pod "old" and one for all others.
abbrev pub encode : ℕ → String
encode n = if nat_eq n (fnv64 (bytes_of "old")) then "oldoldold" else "webwebweb"

abbrev pub as_listed : Orders
as_listed = record { setup_order = λ m. m; route_order = λ m. m }

abbrev as_listed-IsOrders : IsOrders as_listed
as_listed-IsOrders = record { setup_lem = λ q m. refl; route_lem = λ q m. refl }

abbrev start : String → World kernel
start pod = record {
  self = fresh pod;
  kernel = record { links = "eth0" ∷ "oA_stale" ∷ []; ports = []; routes = [] };
}

reconcile_network-IsSynced_example :
    let id = (get_network_id "lan" (fresh "old")).0 in
    Post
      (λ _ w'.
        (x : String)
        → kernel-IsNetlink.has_link w'.kernel x ≡ (
            if has_prefix x (link_prefix id)
            then names_link encode id (linked_pods documented_lo "old" network) x
            else kernel-IsNetlink.has_link (start "old").kernel x))
      (Isolated kernel-IsNetlink (link_prefix id) (start "old"))
      (reconcile_network documented_lo text kernel as_listed encode network (start "old"))
reconcile_network-IsSynced_example =
    reconcile_network-IsSynced documented_lo text kernel-IsNetlink as_listed-IsOrders encode network
      (start "old")

status-IsWellFormed : IsWellFormed status
unfolding string_dec
status-IsWellFormed = record {
  one_per_pod = (refl, (refl, tt));
  one_per_ip = (refl, (refl, tt));
  routers_known = ((refl, tt), (refl, tt));
  optional_known = tt;
}

abbrev id_at : String → ℕ
id_at pod = (get_network_id "lan" (fresh pod)).0

-- The two pods have links of different names.
own_names : link_name encode 65 "web-0" ≡ link_name encode 65 "old" → false ≡ true
unfolding string_dec get_network_id number_of next_index link_name link_prefix rune fnv64 fnv_from
    native.Mathlib.Decide.dec_lt
own_names h = ap (λ s. s == link_name encode 65 "old") h

old-HasOwnLink : HasOwnLink encode (id_at "web-0") "old" status.allocations
unfolding get_network_id number_of next_index
old-HasOwnLink = (λ h. refl, (λ h. ground (arith, own_names h), tt))

web-HasOwnLink : HasOwnLink encode (id_at "old") "web-0" status.allocations
unfolding get_network_id number_of next_index
web-HasOwnLink = (λ h. ground (arith, own_names (sym h)), (λ h. refl, tt))

reconcile_fou-port_example :
    Post
      (λ _ w'. kernel-IsNetlink.has_fou w'.kernel (pos 5555) ≡ true)
      (λ _. Unit)
      (reconcile_fou documented_lo text kernel network true (start "old"))
reconcile_fou-port_example =
    reconcile_fou-port documented_lo-IsLo text kernel-IsNetlink network 5555 true (start "old")
      (omega arith) refl

-- A link of the 27th network, whose id is that of "[".
abbrev stray : State
stray = record { links = link_name encode 91 "old" ∷ []; ports = []; routes = [] }

shutdown-link_name_example :
    kernel-IsNetlink.has_link (shutdown kernel stray) (link_name encode 91 "old")
    ≡ (kernel-IsNetlink.has_link stray (link_name encode 91 "old") && not (is_letter 91))
unfolding fnv64 fnv_from
shutdown-link_name_example =
    shutdown-link_name kernel-IsNetlink (λ l k. refl) encode 91 "old" stray
      (link_of stray (link_name encode 91 "old") ∷ []) (omega arith) refl refl

has_prefix-link_name_example :
    (has_prefix (link_name encode 65 "old") (link_prefix 66) ≡ true) ↔ (◌≡◌ {A = ℕ} 65 66)
has_prefix-link_name_example = has_prefix-link_name encode 65 "old" 66 (omega arith) (omega arith)

get_network_id-eq_iff_example :
    let r = after_requests ("lan" ∷ "wan" ∷ []) (fresh "old") in
    let r' = after_requests ("dmz" ∷ []) (get_network_id "lan" r).1 in
    ((get_network_id "lan" r).0 ≡ (get_network_id "wan" r').0) ↔ (◌≡◌ {A = String} "lan" "wan")
get_network_id-eq_iff_example =
    get_network_id-eq_iff "old" ("lan" ∷ "wan" ∷ []) "lan" "wan" ("dmz" ∷ []) (omega arith)

-- The member "web-0" and the router "old" have the two ends of one link.
target_link-expected_example :
    target_link encode network (fresh "old") "old" "web-0" documented_lo
    ≡ expected_link status "old" "web-0"
target_link-expected_example =
    target_link-expected encode network (fresh "old") "old" "web-0" documented_lo-IsLo
      status-IsWellFormed web-HasOwnLink (web-HasOwnLink.0, tt)

target_link-reversed_example :
    target_link encode network (fresh "web-0") "web-0" "old" documented_lo
    ≡ reversed_link (target_link encode network (fresh "old") "old" "web-0" documented_lo)
target_link-reversed_example =
    target_link-reversed encode network (fresh "web-0") (fresh "old") "web-0" "old"
      documented_lo-IsLo status-IsWellFormed old-HasOwnLink (old-HasOwnLink.0, tt) web-HasOwnLink
      (web-HasOwnLink.0, tt)

abbrev pub lan_net : IpNet
lan_net = record { ip = 10 ∷ 0 ∷ 0 ∷ 0 ∷ []; mask = 255 ∷ 255 ∷ 255 ∷ 252 ∷ [] }
