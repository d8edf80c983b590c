-- ===== src/Tunneler/Routes/Keeping.antt =====
-- The steps on ports, addresses and routes leave the links alone.
use kube_overlay_operator.Base.{
  ℕ, String, Bool, true, false, Option, none, some, List, [], ◌∷◌, Option-cases, Bool-cases, inl,
  inr,
}
use kube_overlay_operator.Base.Dict.{Dict}
use kube_overlay_operator.Api.{OverlayNetwork}
use kube_overlay_operator.External.Lo.{Lo}
use kube_overlay_operator.External.Netlink.{Netlink, IsNetlink, Link, Route, Fou}
use kube_overlay_operator.Net.Bytes.{IpNet}
use kube_overlay_operator.Net.Text.{NetText}
use kube_overlay_operator.Tunneler.{TunnelReconciler, LinkInfo, RouteState, Action}
use kube_overlay_operator.Tunneler.Keeps.{
  Keeps, call-Keeps, query-Keeps, pure-Keeps, fail-Keeps, panic-Keeps, bind-Keeps, for_each-Keeps,
}
use kube_overlay_operator.Tunneler.Links.{
  add_peer_route, configure, remove_fou, add_fou, reconcile_fou,
}
use kube_overlay_operator.Tunneler.Routes.{
  is_own_route, matching_target, visit_route, visit_routes, add_own_route, add_if_missing,
  sync_link, reconcile_link, reconcile_routes, is_processed,
}

module _ (lo : Lo) (net : NetText) {nl : Netlink} (laws : IsNetlink nl) (select : String → Bool)
    (self : TunnelReconciler) (f : String → Bool) where
  abbrev K : {A : Type 0} → Action nl A → Type 0
  K m = Keeps laws select self f m

  pub add_peer_route-Keeps :
      (link : Link) (info : LinkInfo) (mask : List ℕ) (is_router : Bool)
      → Keeps laws select self f (add_peer_route lo net nl link info mask is_router)
  unfolding add_peer_route
  add_peer_route-Keeps link info mask false = pure-Keeps _ _ _ _
  add_peer_route-Keeps link info mask true =
      call-Keeps _ _ _ _ _ (λ k x s. laws.route_add_lem _ k x)

  pub configure-Keeps :
      (nw : OverlayNetwork) (link : Link) (info : LinkInfo) (is_router : Bool)
      → Keeps laws select self f (configure lo net nl nw link info is_router)
  unfolding configure
  configure-Keeps nw link info is_router =
      elim (Option-cases (net.parse_cidr nw.spec.allocatable_cidr)) [
        | inl bad ↦ rw (bad, configure) (fail-Keeps _ _ _ _)
        | inr (p, parsed) ↦
            rw (parsed, configure)
              (bind-Keeps _ _ _ _ (call-Keeps _ _ _ _ _ (λ k x s. laws.addr_add_lem link _ k x))
                (λ _. add_peer_route-Keeps link info _ is_router))
      ]

  remove_fou-Keeps :
      (o : Option Fou) (b : Bool) → Keeps laws select self f (remove_fou lo net nl o b)
  unfolding remove_fou
  remove_fou-Keeps (some fou) false = call-Keeps _ _ _ _ _ (λ k x s. laws.fou_del_lem fou k x)
  remove_fou-Keeps (some fou) true = pure-Keeps _ _ _ _
  remove_fou-Keeps none b = pure-Keeps _ _ _ _

  add_fou-Keeps :
      (nw : OverlayNetwork) (o : Option Fou) (b : Bool)
      → Keeps laws select self f (add_fou lo net nl nw o b)
  unfolding add_fou
  add_fou-Keeps nw none true = call-Keeps _ _ _ _ _ (λ k x s. laws.fou_add_lem _ k x)
  add_fou-Keeps nw none false = pure-Keeps _ _ _ _
  add_fou-Keeps nw (some fou) b = pure-Keeps _ _ _ _

  pub reconcile_fou-Keeps :
      (nw : OverlayNetwork) (b : Bool) → Keeps laws select self f (reconcile_fou lo net nl nw b)
  unfolding reconcile_fou
  reconcile_fou-Keeps nw b =
      bind-Keeps _ _ _ _ (query-Keeps _ _ _ _ nl.fou_list)
        (λ fous. bind-Keeps _ _ _ _ (remove_fou-Keeps _ b) (λ _. add_fou-Keeps nw _ b))

  visit_route-Keeps :
      (own : IpNet) (info : LinkInfo) (targets : List RouteState) (route : Route)
      (s : Bool × List RouteState)
      → Keeps laws select self f (visit_route lo net nl own info targets route s)
  unfolding visit_route
  visit_route-Keeps own info targets route s =
      elim (Option-cases (is_own_route lo net nl own info route)) [
        | inl bad ↦ rw (bad, visit_route) (panic-Keeps _ _ _ _)
        | inr (true, e) ↦ rw (e, visit_route) (pure-Keeps _ _ _ _)
        | inr (false, e) ↦ elim (Option-cases (matching_target lo net nl targets route)) [
          | inl bad ↦ rw (e, bad, visit_route) (panic-Keeps _ _ _ _)
          | inr (none, e') ↦
              rw (e, e', visit_route)
                (bind-Keeps _ _ _ _ (call-Keeps _ _ _ _ _ (λ k x s. laws.route_del_lem route k x))
                  (λ _. pure-Keeps _ _ _ _))
          | inr (some cidr, e') ↦ rw (e, e', visit_route) (pure-Keeps _ _ _ _)
        ]
      ]

  visit_routes-Keeps :
      (own : IpNet) (info : LinkInfo) (targets : List RouteState) (routes : List Route)
      (s : Bool × List RouteState)
      → Keeps laws select self f (visit_routes lo net nl own info targets routes s)
  unfolding visit_routes
  visit_routes-Keeps own info targets [] s = pure-Keeps _ _ _ _
  visit_routes-Keeps own info targets (route ∷ routes) s =
      bind-Keeps _ _ _ _ (visit_route-Keeps own info targets route s)
        (λ s'. visit_routes-Keeps own info targets routes s')

  add_own_route-Keeps :
      (found : Bool) (own : IpNet) (link : Link) (info : LinkInfo)
      → Keeps laws select self f (add_own_route lo net nl found own link info)
  unfolding add_own_route
  add_own_route-Keeps true own link info = pure-Keeps _ _ _ _
  add_own_route-Keeps false own link info = call-Keeps _ _ _ _ _ (λ k x s. laws.route_add_lem _ k x)

  add_if_missing-Keeps :
      (link : Link) (info : LinkInfo) (processed : List RouteState) (route : RouteState)
      → Keeps laws select self f (add_if_missing lo net nl link info processed route)
  unfolding add_if_missing
  add_if_missing-Keeps link info processed route =
      elim (Bool-cases (is_processed lo net nl processed route)) [
        | inl e ↦ rw e (pure-Keeps _ _ _ _)
        | inr e ↦ rw e (call-Keeps _ _ _ _ _ (λ k x s. laws.route_add_lem _ k x))
      ]

  sync_link-Keeps :
      (is_router : Bool) (link : Link) (info : LinkInfo) (alloc_net : IpNet)
      (targets : List RouteState) (routes : List Route)
      → Keeps laws select self f (sync_link lo net nl is_router link info alloc_net targets routes)
  unfolding sync_link
  sync_link-Keeps is_router link info alloc_net targets routes =
      bind-Keeps _ _ _ _ (visit_routes-Keeps _ info targets routes _) (λ s.
        bind-Keeps _ _ _ _ (add_own_route-Keeps s.0 _ link info)
          (λ _. for_each-Keeps _ _ _ _ (add_if_missing-Keeps link info s.1) targets))

  reconcile_link-Keeps :
      (nw : OverlayNetwork) (is_router : Bool) (entry : String × LinkInfo)
      (targets : List RouteState)
      → Keeps laws select self f (reconcile_link lo net nl nw is_router entry targets)
  unfolding reconcile_link
  reconcile_link-Keeps nw is_router entry targets =
      bind-Keeps _ _ _ _ (query-Keeps _ _ _ _ (nl.link_by_name entry.0)) (λ link.
        bind-Keeps _ _ _ _ (query-Keeps _ _ _ _ (nl.route_list link)) (λ routes.
          elim (Option-cases (net.parse_cidr nw.spec.allocatable_cidr)) [
            | inl bad ↦ rw bad (fail-Keeps _ _ _ _)
            | inr (p, parsed) ↦ rw parsed (
                bind-Keeps _ _ _ _ (sync_link-Keeps is_router link entry.1 p.1 _ routes)
                  (λ _. pure-Keeps _ _ _ _))
          ]))

  pub reconcile_routes-Keeps :
      (nw : OverlayNetwork) (is_router : Bool) (entries : Dict LinkInfo) (targets : List RouteState)
      → Keeps laws select self f (reconcile_routes lo net nl nw is_router entries targets)
  unfolding reconcile_routes
  reconcile_routes-Keeps nw is_router [] targets = pure-Keeps _ _ _ _
  reconcile_routes-Keeps nw is_router (entry ∷ entries) targets =
      bind-Keeps _ _ _ _ (reconcile_link-Keeps nw is_router entry targets)
        (λ targets'. reconcile_routes-Keeps nw is_router entries targets')
