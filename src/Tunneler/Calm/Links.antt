-- ===== src/Tunneler/Calm/Links.antt =====
-- The steps on ports and links never panic.
use kube_overlay_operator.Base.{
  ℕ, String, Bool, true, false, not, Option, none, some, List, [], ◌∷◌, has_prefix, Option-cases,
  Bool-cases, inl, inr,
}
use kube_overlay_operator.Base.Dict.{Dict, lookup}
use kube_overlay_operator.Api.{OverlayNetwork}
use kube_overlay_operator.External.Lo.{Lo}
use kube_overlay_operator.External.Netlink.{Netlink, Link, Fou}
use kube_overlay_operator.Net.Text.{NetText}
use kube_overlay_operator.Tunneler.{LinkInfo}
use kube_overlay_operator.Tunneler.Links.{
  add_peer_route, configure, remove_fou, add_fou, reconcile_fou, setup_tunnel_iface,
  setup_if_missing, visit_link, visit_links,
}
use kube_overlay_operator.Tunneler.Calm.{
  IsCalm, call-IsCalm, query-IsCalm, pure-IsCalm, fail-IsCalm, bind-IsCalm,
}

module _ (lo : Lo) (net : NetText) (nl : Netlink) where
  add_peer_route-IsCalm :
      (link : Link) (info : LinkInfo) (mask : List ℕ) (is_router : Bool)
      → IsCalm (add_peer_route lo net nl link info mask is_router)
  unfolding add_peer_route
  add_peer_route-IsCalm link info mask false = pure-IsCalm
  add_peer_route-IsCalm link info mask true = call-IsCalm _

  configure-IsCalm :
      (nw : OverlayNetwork) (link : Link) (info : LinkInfo) (is_router : Bool)
      → IsCalm (configure lo net nl nw link info is_router)
  unfolding configure
  configure-IsCalm nw link info is_router =
      elim (Option-cases (net.parse_cidr nw.spec.allocatable_cidr)) [
        | inl bad ↦ rw (bad, configure) fail-IsCalm
        | inr (p, parsed) ↦
            rw (parsed, configure)
              (bind-IsCalm (call-IsCalm _) (λ _. add_peer_route-IsCalm link info _ is_router))
      ]

  pub setup_if_missing-IsCalm :
      (nw : OverlayNetwork) (is_router : Bool) (entry : String × LinkInfo)
      → IsCalm (setup_if_missing lo net nl nw is_router entry)
  unfolding setup_if_missing setup_tunnel_iface configure add_peer_route
  setup_if_missing-IsCalm nw is_router (name, info) = elim (Bool-cases info.processed) [
    | inl e ↦ rw e pure-IsCalm
    | inr e ↦ rw e (
        bind-IsCalm (call-IsCalm _) (λ _.
          bind-IsCalm (query-IsCalm _)
            (λ link. bind-IsCalm (call-IsCalm _) (λ _. configure-IsCalm nw link info is_router))))
  ]

  remove_fou-IsCalm : (o : Option Fou) (b : Bool) → IsCalm (remove_fou lo net nl o b)
  unfolding remove_fou
  remove_fou-IsCalm (some fou) false = call-IsCalm _
  remove_fou-IsCalm (some fou) true = pure-IsCalm
  remove_fou-IsCalm none b = pure-IsCalm

  add_fou-IsCalm :
      (nw : OverlayNetwork) (o : Option Fou) (b : Bool) → IsCalm (add_fou lo net nl nw o b)
  unfolding add_fou
  add_fou-IsCalm nw none true = call-IsCalm _
  add_fou-IsCalm nw none false = pure-IsCalm
  add_fou-IsCalm nw (some fou) b = pure-IsCalm

  pub reconcile_fou-IsCalm :
      (nw : OverlayNetwork) (b : Bool) → IsCalm (reconcile_fou lo net nl nw b)
  unfolding reconcile_fou
  reconcile_fou-IsCalm nw b =
      bind-IsCalm (query-IsCalm nl.fou_list)
        (λ fous. bind-IsCalm (remove_fou-IsCalm _ b) (λ _. add_fou-IsCalm nw _ b))

  visit_link-IsCalm :
      (prefix : String) (link : Link) (target : Dict LinkInfo)
      → IsCalm (visit_link lo net nl prefix link target)
  unfolding visit_link
  visit_link-IsCalm prefix link target = elim (Bool-cases (not (has_prefix link.name prefix))) [
    | inl other ↦ rw (other, visit_link) pure-IsCalm
    | inr own ↦ elim (Option-cases (lookup link.name target)) [
      | inl stale ↦ rw (own, stale, visit_link) (bind-IsCalm (call-IsCalm _) (λ _. pure-IsCalm))
      | inr (info, known) ↦ rw (own, known, visit_link) pure-IsCalm
    ]
  ]

  pub visit_links-IsCalm :
      (prefix : String) (links : List Link) (target : Dict LinkInfo)
      → IsCalm (visit_links lo net nl prefix links target)
  unfolding visit_links
  visit_links-IsCalm prefix [] target = pure-IsCalm
  visit_links-IsCalm prefix (link ∷ links) target =
      bind-IsCalm (visit_link-IsCalm prefix link target)
        (λ target'. visit_links-IsCalm prefix links target')
