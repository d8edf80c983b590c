-- ===== src/Tunneler/Calm/Routes.antt =====
-- If all routes of the kernel have a destination, reconcileRoutes, and with it Reconcile of the tunnel
-- controller, does not panic.
use kube_overlay_operator.Base.{
  ℕ, String, Bool, true, false, ◌≡◌, ◌≢◌, none, some, List, [], ◌∷◌, nat_eq, Option-cases,
  Bool-cases, inl, inr,
}
use kube_overlay_operator.Base.Lists.{All}
use kube_overlay_operator.Base.Dict.{Dict}
use kube_overlay_operator.Base.Outcome.{panicked}
use kube_overlay_operator.Base.Result.{ok, Result-cases}
use kube_overlay_operator.Api.{OverlayNetwork}
use kube_overlay_operator.External.Client.{Client, is_not_found}
use kube_overlay_operator.External.Lo.{Lo}
use kube_overlay_operator.External.Netlink.{Netlink, Link, Route}
use kube_overlay_operator.Net.Bytes.{IpNet}
use kube_overlay_operator.Net.Text.{NetText}
use kube_overlay_operator.Tunneler.{LinkInfo, RouteState, World}
use kube_overlay_operator.Tunneler.Links.{setup_missing}
use kube_overlay_operator.Tunneler.Routes.{
  is_own_route, matching_target, visit_route, visit_routes, add_own_route, add_if_missing,
  sync_link, reconcile_link, reconcile_routes, is_processed,
}
use kube_overlay_operator.Tunneler.Interfaces.{Orders, network_id, reconcile_tunnel_interfaces}
use kube_overlay_operator.Tunneler.Reconcile.{reconcile_network, reconcile}
use kube_overlay_operator.Tunneler.Calm.Links.{
  setup_if_missing-IsCalm, reconcile_fou-IsCalm, visit_links-IsCalm,
}
use kube_overlay_operator.Tunneler.Calm.{
  IsCalm, call-IsCalm, query-IsCalm, pure-IsCalm, fail-IsCalm, bind-IsCalm, read-IsCalm,
  for_each-IsCalm, ne-panicked,
}

-- The route has a destination.
abbrev pub HasDst : Route → Type 0
HasDst route = route.dst ≢ none

module _ (lo : Lo) (net : NetText) (nl : Netlink) where
  matching_target-some :
      (targets : List RouteState) (route : Route)
      → HasDst route
      → matching_target lo net nl targets route ≢ none
  unfolding matching_target
  matching_target-some [] route has = λ e. cc
  matching_target-some (t ∷ ts) route has = elim (Option-cases route.dst) [
    | inl lacks ↦ absurd (has lacks)
    | inr (dst, e) ↦ rw e (λ e. cc)
  ]

  is_own_route-some :
      (own : IpNet) (info : LinkInfo) (route : Route)
      → HasDst route
      → is_own_route lo net nl own info route ≢ none
  unfolding is_own_route
  is_own_route-some own info route has = elim (Bool-cases (nat_eq route.scope nl.scope_link)) [
    | inr other ↦ rw other (λ e. cc)
    | inl local ↦ elim (Option-cases route.dst) [
      | inl lacks ↦ absurd (has lacks)
      | inr (dst, e) ↦ rw (local, e) (λ e. cc)
    ]
  ]

  visit_route-IsCalm :
      (own : IpNet) (info : LinkInfo) (targets : List RouteState) (route : Route)
      (s : Bool × List RouteState)
      → HasDst route
      → IsCalm (visit_route lo net nl own info targets route s)
  unfolding visit_route
  visit_route-IsCalm own info targets route s has =
      elim (Option-cases (is_own_route lo net nl own info route)) [
        | inl bad ↦ absurd (is_own_route-some own info route has bad)
        | inr (true, e) ↦ rw (e, visit_route) pure-IsCalm
        | inr (false, e) ↦ elim (Option-cases (matching_target lo net nl targets route)) [
          | inl bad ↦ absurd (matching_target-some targets route has bad)
          | inr (none, e') ↦
              rw (e, e', visit_route) (bind-IsCalm (call-IsCalm _) (λ _. pure-IsCalm))
          | inr (some cidr, e') ↦ rw (e, e', visit_route) pure-IsCalm
        ]
      ]

  visit_routes-IsCalm :
      (own : IpNet) (info : LinkInfo) (targets : List RouteState) (routes : List Route)
      (s : Bool × List RouteState)
      → All HasDst routes
      → IsCalm (visit_routes lo net nl own info targets routes s)
  unfolding visit_routes
  visit_routes-IsCalm own info targets [] s has = pure-IsCalm
  visit_routes-IsCalm own info targets (route ∷ routes) s has =
      bind-IsCalm (visit_route-IsCalm own info targets route s has.0)
        (λ s'. visit_routes-IsCalm own info targets routes s' has.1)

  add_own_route-IsCalm :
      (found : Bool) (own : IpNet) (link : Link) (info : LinkInfo)
      → IsCalm (add_own_route lo net nl found own link info)
  unfolding add_own_route
  add_own_route-IsCalm true own link info = pure-IsCalm
  add_own_route-IsCalm false own link info = call-IsCalm _

  add_if_missing-IsCalm :
      (link : Link) (info : LinkInfo) (processed : List RouteState) (route : RouteState)
      → IsCalm (add_if_missing lo net nl link info processed route)
  unfolding add_if_missing
  add_if_missing-IsCalm link info processed route =
      elim (Bool-cases (is_processed lo net nl processed route)) [
        | inl e ↦ rw e pure-IsCalm
        | inr e ↦ rw e (call-IsCalm _)
      ]

  sync_link-IsCalm :
      (is_router : Bool) (link : Link) (info : LinkInfo) (alloc_net : IpNet)
      (targets : List RouteState) (routes : List Route)
      → All HasDst routes
      → IsCalm (sync_link lo net nl is_router link info alloc_net targets routes)
  unfolding sync_link
  sync_link-IsCalm is_router link info alloc_net targets routes has =
      bind-IsCalm (visit_routes-IsCalm _ info targets routes _ has) (λ s.
        bind-IsCalm (add_own_route-IsCalm s.0 _ link info)
          (λ _. for_each-IsCalm (add_if_missing-IsCalm link info s.1) targets))

  network_id-IsCalm : (orders : Orders) (name : String) → IsCalm (network_id lo net nl orders name)
  network_id-IsCalm orders name = record { run = λ w. tt }

  module _
      (have : (link : Link) (k : nl.Kernel) (routes : List Route)
        → nl.route_list link k ≡ ok routes
        → All HasDst routes) where
    reconcile_link-IsCalm :
        (nw : OverlayNetwork) (is_router : Bool) (entry : String × LinkInfo)
        (targets : List RouteState)
        → IsCalm (reconcile_link lo net nl nw is_router entry targets)
    unfolding reconcile_link
    reconcile_link-IsCalm nw is_router entry targets =
        bind-IsCalm (query-IsCalm (nl.link_by_name entry.0)) (λ link.
          read-IsCalm (nl.route_list link) (λ k routes listed.
            elim (Option-cases (net.parse_cidr nw.spec.allocatable_cidr)) [
              | inl bad ↦ rw bad fail-IsCalm
              | inr (p, parsed) ↦ rw parsed (
                  bind-IsCalm
                    (sync_link-IsCalm is_router link entry.1 p.1 _ routes
                      (have link k routes listed))
                    (λ _. pure-IsCalm))
            ]))

    reconcile_routes-IsCalm :
        (nw : OverlayNetwork) (is_router : Bool) (entries : Dict LinkInfo)
        (targets : List RouteState)
        → IsCalm (reconcile_routes lo net nl nw is_router entries targets)
    unfolding reconcile_routes
    reconcile_routes-IsCalm nw is_router [] targets = pure-IsCalm
    reconcile_routes-IsCalm nw is_router (entry ∷ entries) targets =
        bind-IsCalm (reconcile_link-IsCalm nw is_router entry targets)
          (λ targets'. reconcile_routes-IsCalm nw is_router entries targets')

    reconcile_tunnel_interfaces-IsCalm :
        (orders : Orders) (nw : OverlayNetwork) (target : Dict LinkInfo) (is_router : Bool)
        (extra : List RouteState)
        → IsCalm (reconcile_tunnel_interfaces lo net nl orders nw target is_router extra)
    unfolding reconcile_tunnel_interfaces setup_missing
    reconcile_tunnel_interfaces-IsCalm orders nw target is_router extra =
        bind-IsCalm (reconcile_fou-IsCalm lo net nl nw _) (λ _.
          bind-IsCalm (query-IsCalm nl.link_list) (λ links.
            bind-IsCalm (network_id-IsCalm orders nw.meta.name) (λ id.
              bind-IsCalm (visit_links-IsCalm lo net nl _ links target) (λ target'.
                bind-IsCalm (for_each-IsCalm (setup_if_missing-IsCalm lo net nl nw is_router) _)
                  (λ _. reconcile_routes-IsCalm nw is_router _ extra)))))

    -- If all routes that the kernel lists have a destination, Reconcile of the tunnel controller
    -- does not panic, at any network, from any state of the kernel, and whatever call fails.
    pub reconcile-ne-panicked :
        (orders : Orders) (encode : ℕ → String) (c : Client) (namespace name : String)
        (w : World nl)
        → (reconcile lo net nl orders encode c namespace name w).0 ≢ panicked
    unfolding reconcile reconcile_network
    reconcile-ne-panicked orders encode c namespace name w =
        elim (Result-cases (c.get_network [] namespace name)) [
          | inr (e, lost) ↦
              rw (lost, reconcile)
                (elim (Bool-cases (is_not_found e)) [
                  | inl gone ↦ rw gone (λ e. cc)
                  | inr other ↦ rw other (λ e. cc)
                ])
          | inl (nw, read) ↦
              rw (read, reconcile)
                (ne-panicked _ ((reconcile_tunnel_interfaces-IsCalm orders nw _ _ _).run _))
        ]
