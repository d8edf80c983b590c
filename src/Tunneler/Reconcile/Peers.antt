-- ===== src/Tunneler/Reconcile/Peers.antt =====
-- The tunnels of the target state.
use kube_overlay_operator.Base.{
  ℕ, String, ◌≡◌, refl, ◌∙◌, ap, sym, Option, none, some, List, [], ◌∷◌, arith, Option-cases, inl,
  inr,
}
use kube_overlay_operator.Base.Dict.{Dict, lookup, insert, lookup-insert}
use kube_overlay_operator.Base.Strings.{string_dec}
use kube_overlay_operator.Base.Lists.{Distinct, All}
use kube_overlay_operator.Api.{OverlayNetwork, OverlayNetworkIpAllocation, OverlayNetworkStatus}
use kube_overlay_operator.External.Lo.{Lo, IsLo, documented_lo, transport_lo}
use kube_overlay_operator.PodController.WellFormed.{
  pod_names, IsBacked, IsWellFormed, rest_of, rest_of-Distinct,
}
use kube_overlay_operator.Tunneler.{TunnelReconciler, LinkInfo}
use kube_overlay_operator.Tunneler.Naming.{get_network_id, link_name, get_tunnel_id}
use kube_overlay_operator.Tunneler.Reconcile.{link_info, links_to, peers, target_links}
use kube_overlay_operator.Tunneler.Reconcile.Targets.{get_network_id_again}
use kube_overlay_operator.Tunneler.Reconcile.Ends.{
  expected_link, entry, HasOwnLink, entry-endpoint, entry-endpoint_none, router-endpoint,
  entry-contains, entry-contains_none, contains-entry_none, entry-rest_of, link_if_found,
  reversed_link, expected_link-reversed,
}

lookup-links_to :
    (encode : ℕ → String) (nw : OverlayNetwork) (own : OverlayNetworkIpAllocation) (id : ℕ)
    (pod : String) (items : List OverlayNetworkIpAllocation) (m : Dict LinkInfo)
    (r : TunnelReconciler)
    → (get_network_id nw.meta.name r).0 ≡ id
    → Distinct (pod_names items)
    → HasOwnLink encode id pod items
    → lookup (link_name encode id pod) (links_to encode nw own items m r).0
      ≡ link_if_found own (entry pod items) (lookup (link_name encode id pod) m)
unfolding links_to get_tunnel_id
lookup-links_to encode nw own id pod [] m r e d c = refl
lookup-links_to encode nw own id pod (item ∷ items) m r e (n, d) (o, c) =
    let name = link_name encode (get_network_id nw.meta.name r).0 item.pod_name in
    let info = link_info own item in
    let ih =
      lookup-links_to encode nw own id pod items (insert name info m)
        (get_network_id nw.meta.name r).1 (get_network_id_again nw.meta.name r ∙ e) d c in
    let at_name = lookup-insert (link_name encode id pod) name info m in
    let same_name = ap (λ i. link_name encode i item.pod_name) e in
    elim (string_dec item.pod_name pod) [
      | yes p ↦
          let key = ap (link_name encode id) p in
          ground (arith, ih, at_name, same_name, key, p, n, contains-entry_none pod items)
      | no q ↦ ground (arith, ih, at_name, same_name, o, q)
    ]

module _ (s : OverlayNetworkStatus) (me pod : String)
    (known : All (IsBacked s.allocations) s.routers) where
  router-expected :
      (router : OverlayNetworkIpAllocation)
      → entry me s.routers ≡ some router
      → link_if_found router (entry pod (rest_of me s.allocations)) none ≡ expected_link s me pod
  router-expected router e =
      let own = router-endpoint s.allocations me s.routers router known e in
      let is_router = entry-contains me s.routers router e in
      elim (Option-cases (entry pod s.allocations)) [
        | inl missing ↦ ground (
          arith,
          entry-rest_of me pod s.allocations,
          missing,
          own,
          is_router,
          entry-endpoint_none pod s.allocations missing,
        )
        | inr (item, found) ↦ ground (
          arith,
          entry-rest_of me pod s.allocations,
          found,
          own,
          is_router,
          entry-endpoint pod s.allocations item found,
        )
      ]

  no-expected :
      entry me s.routers ≡ none → entry me s.allocations ≡ none → none ≡ expected_link s me pod
  no-expected e e' = ground (arith, entry-endpoint_none me s.allocations e')

  member-expected :
      (own : OverlayNetworkIpAllocation)
      → entry me s.routers ≡ none
      → entry me s.allocations ≡ some own
      → link_if_found own (entry pod s.routers) none ≡ expected_link s me pod
  member-expected own e e' =
      let no_router = entry-contains_none me s.routers e in
      let here = entry-endpoint me s.allocations own e' in
      elim (Option-cases (entry pod s.routers)) [
        | inl missing ↦
            ground (arith, missing, no_router, here, entry-contains_none pod s.routers missing)
        | inr (item, found) ↦ ground (
          arith,
          found,
          no_router,
          here,
          entry-contains pod s.routers item found,
          router-endpoint s.allocations pod s.routers item known found,
        )
      ]

module _ (encode : ℕ → String) (nw : OverlayNetwork) (r : TunnelReconciler) (me pod : String) where
  abbrev id : ℕ
  id = (get_network_id nw.meta.name r).0

  -- The link to the pod in the target state.
  abbrev pub target_link : Lo → Option LinkInfo
  target_link lo = lookup (link_name encode id pod) (target_links lo encode nw (peers lo me nw) r).0

  rest_of-HasOwnLink :
      (xs : List OverlayNetworkIpAllocation)
      → HasOwnLink encode id pod xs
      → HasOwnLink encode id pod (rest_of me xs)
  rest_of-HasOwnLink [] h = tt
  rest_of-HasOwnLink (x ∷ xs) (p, h) = ground (arith, rest_of-HasOwnLink xs h, p)

  documented-expected :
      IsWellFormed nw.status
      → HasOwnLink encode id pod nw.status.allocations
      → HasOwnLink encode id pod nw.status.routers
      → target_link documented_lo ≡ expected_link nw.status me pod
  unfolding target_links peers
  documented-expected wf ha hr =
      let s = nw.status in
      elim (Option-cases (entry me s.routers)) [
        | inr (router, e) ↦
            rw (e, target_links, peers)
              (lookup-links_to encode nw router id pod (rest_of me s.allocations) [] r refl
                  (rest_of-Distinct (λ a. a.pod_name) me s.allocations wf.one_per_pod)
                  (rest_of-HasOwnLink s.allocations ha)
                ∙ router-expected s me pod wf.routers_known.0 router e)
        | inl e ↦ elim (Option-cases (entry me s.allocations)) [
          | inl e' ↦ rw (e, e', target_links, peers) (no-expected s me pod wf.routers_known.0 e e')
          | inr (own, e') ↦
              rw (e, e', target_links, peers)
                (lookup-links_to encode nw own id pod s.routers [] r refl wf.routers_known.1 hr
                  ∙ member-expected s me pod wf.routers_known.0 own e e')
        ]
      ]

-- In a network whose status is well formed, a pod's target state has the link to another as the
-- status says, if no other pod of the network has the link's name: there is one if one of the two is
-- a router and both have an allocation, and it joins their pod addresses and has their addresses at
-- its ends.
pub target_link-expected :
    (encode : ℕ → String) (nw : OverlayNetwork) (r : TunnelReconciler) (me pod : String) {lo : Lo}
    → IsLo lo
    → IsWellFormed nw.status
    → HasOwnLink encode (get_network_id nw.meta.name r).0 pod nw.status.allocations
    → HasOwnLink encode (get_network_id nw.meta.name r).0 pod nw.status.routers
    → target_link encode nw r me pod lo ≡ expected_link nw.status me pod
target_link-expected encode nw r me pod laws wf ha hr =
    transport_lo laws (λ lo. target_link encode nw r me pod lo ≡ expected_link nw.status me pod)
      (documented-expected encode nw r me pod wf ha hr)

-- If two pods read one network whose status is well formed, and no other pod of it has the name of
-- the link to either, the link to the second in the first's target state is the link to the first in
-- the second's with the ends swapped, and the one has none just if the other has none.
pub target_link-reversed :
    (encode : ℕ → String) (nw : OverlayNetwork) (r r' : TunnelReconciler) (a b : String) {lo : Lo}
    → IsLo lo
    → IsWellFormed nw.status
    → HasOwnLink encode (get_network_id nw.meta.name r).0 b nw.status.allocations
    → HasOwnLink encode (get_network_id nw.meta.name r).0 b nw.status.routers
    → HasOwnLink encode (get_network_id nw.meta.name r').0 a nw.status.allocations
    → HasOwnLink encode (get_network_id nw.meta.name r').0 a nw.status.routers
    → target_link encode nw r a b lo ≡ reversed_link (target_link encode nw r' b a lo)
target_link-reversed encode nw r r' a b laws wf hb hb' ha ha' =
    target_link-expected encode nw r a b laws wf hb hb'
    ∙ expected_link-reversed nw.status a b
    ∙ ap reversed_link (sym (target_link-expected encode nw r' b a laws wf ha ha'))
