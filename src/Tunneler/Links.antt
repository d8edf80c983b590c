-- ===== src/Tunneler/Links.antt =====
-- setupTunnelIface, reconcileFOU and the loops over links of tunneler/network_controller.go.
pub mod Visit
pub mod Setup
pub mod Ports
pub mod Present
use kube_overlay_operator.Base.{
  ℕ, ◌-◌, ◌%◌, String, Bool, true, false, not, Option, none, some, List, [], ◌∷◌, has_prefix,
  if◌then◌else◌,
}
use kube_overlay_operator.Base.Dict.{Dict, lookup, insert}
use kube_overlay_operator.Base.Int.{ℤ, pos, negsuc, int_eq}
use kube_overlay_operator.Base.Outcome.{pure, fail, ◌>>=◌, ◌>>◌, for_each}
use kube_overlay_operator.Api.{OverlayNetwork}
use kube_overlay_operator.External.Lo.{Lo}
use kube_overlay_operator.External.Netlink.{Netlink, Link, Iptun, Fou, Route}
use kube_overlay_operator.Net.Bytes.{IpNet}
use kube_overlay_operator.Net.Masks.{nil_ip, ip_or_nil, host_mask}
use kube_overlay_operator.Net.Text.{NetText}
use kube_overlay_operator.Tunneler.{LinkInfo, World, TunnelError, invalid_cidr, Action, call, query}

-- uint16(port)
abbrev pub port_u16 : ℤ → ℕ
port_u16 (pos n) = n % 65536
port_u16 (negsuc n) = 65535 - n % 65536

module _ (lo : Lo) (net : NetText) (nl : Netlink) where
  -- The tunnel of a link.
  abbrev pub tunnel : OverlayNetwork → String → LinkInfo → Iptun
  tunnel nw link_name info = record {
    encap_type = 1;
    encap_sport = port_u16 nw.spec.port;
    encap_dport = port_u16 nw.spec.port;
    encap_flags = 0;
    local_ip = ip_or_nil (net.parse_ip info.local_ip);
    remote_ip = ip_or_nil (net.parse_ip info.remote_ip);
    ttl = 200;
    name = link_name;
  }

  -- The route of a router to a pod.
  unfoldable pub add_peer_route : Link → LinkInfo → List ℕ → Bool → Action nl (Unit {0})
  add_peer_route link info mask false = pure tt
  add_peer_route link info mask true = call nl (
      nl.route_add (record {
        link_index = link.index;
        scope = nl.scope_link;
        dst = some (record { ip = ip_or_nil (net.parse_ip info.in_tunnel_remote_ip); mask = mask });
        src = ip_or_nil (net.parse_ip info.in_tunnel_local_ip);
        gw = nil_ip;
      }))

  -- The address, and the route of a router, of a link that is up.
  unfoldable pub configure : OverlayNetwork → Link → LinkInfo → Bool → Action nl (Unit {0})
  configure nw link info is_router = elim (net.parse_cidr nw.spec.allocatable_cidr) [
    | none ↦ fail invalid_cidr
    | some (_, cidr) ↦
        let mask = if is_router then host_mask else cidr.mask in
        do
          call nl (
              nl.addr_add link
                (record { ip = ip_or_nil (net.parse_ip info.in_tunnel_local_ip); mask = mask }))
          add_peer_route link info mask is_router
  ]

  unfoldable pub setup_tunnel_iface :
      OverlayNetwork → String → LinkInfo → Bool → Action nl (Unit {0})
  setup_tunnel_iface nw link_name info is_router = do
    call nl (nl.link_add (tunnel nw link_name info))
    link ← query nl (nl.link_by_name link_name)
    call nl (nl.link_set_up link)
    configure nw link info is_router

  unfoldable pub remove_fou : Option Fou → Bool → Action nl (Unit {0})
  remove_fou (some fou_link) false = call nl (nl.fou_del fou_link)
  remove_fou _ _ = pure tt

  unfoldable pub add_fou : OverlayNetwork → Option Fou → Bool → Action nl (Unit {0})
  add_fou nw none true = call nl (
      nl.fou_add (record {
        family = nl.family_v4;
        port = nw.spec.port;
        protocol = 4;
        encap_type = nl.fou_encap_direct;
      }))
  add_fou nw _ _ = pure tt

  unfoldable pub reconcile_fou : OverlayNetwork → Bool → Action nl (Unit {0})
  unfolding remove_fou add_fou
  reconcile_fou nw should_be_present = do
    fous ← query nl nl.fou_list
    let found = lo.find fous (λ f. int_eq f.port nw.spec.port)
    remove_fou found should_be_present
    add_fou nw found should_be_present

  -- The body of the loop over the links of the kernel, with the target state after it.
  unfoldable pub visit_link : String → Link → Dict LinkInfo → Action nl (Dict LinkInfo)
  visit_link prefix link target =
      if not (has_prefix link.name prefix) then pure target else elim (lookup link.name target) [
        | some info ↦ pure (insert link.name (record info { processed = true }) target)
        | none ↦ do call nl (nl.link_del link); pure target
      ]

  unfoldable pub visit_links : String → List Link → Dict LinkInfo → Action nl (Dict LinkInfo)
  unfolding visit_link
  visit_links prefix [] target = pure target
  visit_links prefix (link ∷ links) target = do
    target' ← visit_link prefix link target
    visit_links prefix links target'

  -- The body of the loop over the target state.
  unfoldable pub setup_if_missing : OverlayNetwork → Bool → String × LinkInfo → Action nl (Unit {0})
  setup_if_missing nw is_router (link_name, info) =
      if info.processed then pure tt else setup_tunnel_iface nw link_name info is_router

  unfoldable pub setup_missing : OverlayNetwork → Bool → Dict LinkInfo → Action nl (Unit {0})
  unfolding setup_if_missing
  setup_missing nw is_router target = for_each target (setup_if_missing nw is_router)
