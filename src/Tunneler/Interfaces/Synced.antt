-- ===== src/Tunneler/Interfaces/Synced.antt =====
-- The links after a reconciliation of a network.
use kube_overlay_operator.Base.{
  String, Bool, true, false, ◌≡◌, refl, ◌∙◌, List, [], ◌∷◌, has_prefix, if◌then◌else◌, arith,
}
use kube_overlay_operator.Base.Dict.{Dict, keys}
use kube_overlay_operator.Base.Lists.{any, contains, Distinct, All}
use kube_overlay_operator.Base.Outcome.{continue, ◌>>=◌, ◌>>◌, Post, continue-Post, Post-weaken}
use kube_overlay_operator.Base.Result.{Result, ok, err}
use kube_overlay_operator.Api.{OverlayNetwork}
use kube_overlay_operator.External.Lo.{Lo}
use kube_overlay_operator.External.Netlink.{Netlink, IsNetlink, Link}
use kube_overlay_operator.Net.Text.{NetText}
use kube_overlay_operator.Tunneler.{TunnelReconciler, LinkInfo, RouteState, World, or_fail, query}
use kube_overlay_operator.Tunneler.Naming.{get_network_id, link_prefix}
use kube_overlay_operator.Tunneler.Keeps.{every, Held}
use kube_overlay_operator.Tunneler.Links.{reconcile_fou, visit_links, setup_missing}
use kube_overlay_operator.Tunneler.Links.Visit.{
  is_pending, names, Isolated, Visited, visit_links-Visited, Visited-Isolated,
}
use kube_overlay_operator.Tunneler.Links.Setup.{Added, setup_missing-Added}
use kube_overlay_operator.Tunneler.Routes.{reconcile_routes}
use kube_overlay_operator.Tunneler.Routes.Keeping.{reconcile_fou-Keeps, reconcile_routes-Keeps}
use kube_overlay_operator.Tunneler.Interfaces.{Orders, is_nonempty, reconcile_tunnel_interfaces}

-- An order goes over the entries of the map, and over nothing else.
pub record IsOrders (orders : Orders) : Type 0 where
  pub setup_lem :
      (q : String × LinkInfo → Bool) (m : Dict LinkInfo) → any q (orders.setup_order m) ≡ any q m
  pub route_lem :
      (q : String × LinkInfo → Bool) (m : Dict LinkInfo) → any q (orders.route_order m) ≡ any q m

-- A target state as Reconcile makes it: each name once, with the network's prefix, and no entry is
-- processed.
pub record IsTarget (prefix : String) (target : Dict LinkInfo) : Type 0 where
  pub once : Distinct (keys target)
  pub prefixed : (x : String) → contains (keys target) x ≡ true → has_prefix x prefix ≡ true
  pub unprocessed : All (λ e. e.1.processed ≡ false) target

pending-keys :
    (x : String) (m : Dict LinkInfo)
    → All (λ e. e.1.processed ≡ false) m
    → any (is_pending x) m ≡ contains (keys m) x
pending-keys x [] h = refl
pending-keys x ((j, info) ∷ m) (p, h) = ground (arith, pending-keys x m h)

module _ {nl : Netlink} (laws : IsNetlink nl) (prefix : String) where
  -- The links with the prefix are the targets, and the others are as before.
  abbrev pub IsSynced : Dict LinkInfo → World nl → World nl → Type 0
  IsSynced target w w' =
      (x : String)
      → laws.has_link w'.kernel x
        ≡ (if has_prefix x prefix then contains (keys target) x else laws.has_link w.kernel x)

  link_list-names :
      (self : TunnelReconciler) (f : String → Bool) (w : World nl) (r : Result nl.Error (List Link))
      → nl.link_list w.kernel ≡ r
      → Held laws every self f w
      → Post
          (λ ls w'. Held laws every self f w' × ((x : String) → contains (names ls) x ≡ f x))
          (Held laws every self f)
          (or_fail nl r w)
  link_list-names self f w (ok ls) e h = (h, λ x. laws.link_list_lem w.kernel ls x e ∙ h.1 x refl)
  link_list-names self f w (err _) e h = h

  synced_lem :
      (target target1 order : Dict LinkInfo) (ls : List Link) (w w1 w2 w3 : World nl)
      → IsTarget prefix target
      → ((x : String) → laws.has_link w1.kernel x ≡ laws.has_link w.kernel x)
      → ((x : String) → contains (names ls) x ≡ laws.has_link w.kernel x)
      → Visited laws prefix ls target w1 target1 w2
      → ((x : String) → any (is_pending x) order ≡ any (is_pending x) target1)
      → Added laws prefix (λ x. any (is_pending x) order) w2 w3
      → IsSynced target w w3
  synced_lem target target1 order ls w w1 w2 w3 t same listed v o a x = ground (
    arith,
    same x,
    listed x,
    v.links x,
    v.pending x,
    o x,
    a x,
    pending-keys x target t.unprocessed,
    t.prefixed x,
  )

module _ (lo : Lo) (net : NetText) {nl : Netlink} (laws : IsNetlink nl) {orders : Orders}
    (visits : IsOrders orders) (prefix : String) (nw : OverlayNetwork) (target : Dict LinkInfo)
    (is_router : Bool) (extra_routes : List RouteState) (w : World nl)
    (t : IsTarget prefix target) where
  after_setup-IsSynced :
      (target1 : Dict LinkInfo) (w2 : World nl)
      → IsSynced laws prefix target w w2
      → Post
          (λ _. IsSynced laws prefix target w)
          (Isolated laws prefix w)
          (reconcile_routes lo net nl nw is_router (orders.route_order target1) extra_routes w2)
  after_setup-IsSynced target1 w2 s =
      Post-weaken _ _ _ _
        (reconcile_routes lo net nl nw is_router (orders.route_order target1) extra_routes w2)
        (λ _ w3 held x. held.1 x refl ∙ s x)
        (λ w3 held x q. held.1 x refl ∙ s x ∙ ground (arith, q))
        ((reconcile_routes-Keeps lo net laws every w2.self (laws.has_link w2.kernel) nw is_router
            (orders.route_order target1) extra_routes).run
          w2 (refl, λ x _. refl))

  pub setup_missing-IsSynced :
      (ls : List Link) (target1 : Dict LinkInfo) (w1 w2 : World nl)
      → ((x : String) → laws.has_link w1.kernel x ≡ laws.has_link w.kernel x)
      → ((x : String) → contains (names ls) x ≡ laws.has_link w.kernel x)
      → Visited laws prefix ls target w1 target1 w2
      → Post
          (λ _. IsSynced laws prefix target w)
          (Isolated laws prefix w)
          (setup_missing lo net nl nw is_router (orders.setup_order target1) w2)
  setup_missing-IsSynced ls target1 w1 w2 same listed v =
      Post-weaken _ _ _ _ (setup_missing lo net nl nw is_router (orders.setup_order target1) w2)
        (λ _ w3 a.
          synced_lem laws prefix target target1 (orders.setup_order target1) ls w w1 w2 w3 t same
            listed v (λ x. visits.setup_lem (is_pending x) target1) a)
        (λ w3 iso x q.
          iso x q ∙ Visited-Isolated laws prefix ls target target1 w1 w2 v x q ∙ same x)
        (setup_missing-Added lo net laws prefix nw is_router (orders.setup_order target1) w2 (λ x p.
          t.prefixed x (
            ground (
              arith,
              visits.setup_lem (is_pending x) target1,
              v.pending x,
              pending-keys x target t.unprocessed,
            ))))

  after_visit-IsSynced :
      (ls : List Link) (target1 : Dict LinkInfo) (w1 w2 : World nl)
      → ((x : String) → laws.has_link w1.kernel x ≡ laws.has_link w.kernel x)
      → ((x : String) → contains (names ls) x ≡ laws.has_link w.kernel x)
      → Visited laws prefix ls target w1 target1 w2
      → Post
          (λ _. IsSynced laws prefix target w)
          (Isolated laws prefix w)
          (((setup_missing lo net nl nw is_router (orders.setup_order target1))
              >> reconcile_routes lo net nl nw is_router (orders.route_order target1) extra_routes)
            w2)
  after_visit-IsSynced ls target1 w1 w2 same listed v =
      continue-Post (λ _. IsSynced laws prefix target w) (λ _. IsSynced laws prefix target w)
        (Isolated laws prefix w)
        (setup_missing lo net nl nw is_router (orders.setup_order target1) w2)
        (λ _. reconcile_routes lo net nl nw is_router (orders.route_order target1) extra_routes)
        (setup_missing-IsSynced ls target1 w1 w2 same listed v)
        (λ _ w3 s. after_setup-IsSynced target1 w3 s)

  after_list-IsSynced :
      (ls : List Link) (w1 : World nl)
      → ((x : String) → laws.has_link w1.kernel x ≡ laws.has_link w.kernel x)
      → ((x : String) → contains (names ls) x ≡ laws.has_link w.kernel x)
      → Post
          (λ _. IsSynced laws prefix target w)
          (Isolated laws prefix w)
          ((visit_links lo net nl prefix ls target >>= λ target1.
              setup_missing lo net nl nw is_router (orders.setup_order target1)
              >> reconcile_routes lo net nl nw is_router (orders.route_order target1) extra_routes)
            w1)
  after_list-IsSynced ls w1 same listed =
      continue-Post (Visited laws prefix ls target w1) (λ _. IsSynced laws prefix target w)
        (Isolated laws prefix w) (visit_links lo net nl prefix ls target w1) _
        (Post-weaken _ _ _ _ (visit_links lo net nl prefix ls target w1) (λ _ _ v. v)
          (λ w2 iso x q. iso x q ∙ same x)
          (visit_links-Visited lo net laws prefix ls target w1 t.once))
        (λ target1 w2 v. after_visit-IsSynced ls target1 w1 w2 same listed v)

module _ (lo : Lo) (net : NetText) {nl : Netlink} (laws : IsNetlink nl) {orders : Orders}
    (visits : IsOrders orders) where
  -- If the reconciliation of a network succeeds, the links with the network's prefix are those of
  -- the target state, which is one that Reconcile makes, and all other links are as they were. If it
  -- ends with an error or a panic, the links without the prefix are as they were.
  pub reconcile_tunnel_interfaces-IsSynced :
      (nw : OverlayNetwork) (target : Dict LinkInfo) (is_router : Bool)
      (extra_routes : List RouteState) (w : World nl)
      → IsTarget (link_prefix (get_network_id nw.meta.name w.self).0) target
      → Post
          (λ _. IsSynced laws (link_prefix (get_network_id nw.meta.name w.self).0) target w)
          (Isolated laws (link_prefix (get_network_id nw.meta.name w.self).0) w)
          (reconcile_tunnel_interfaces lo net nl orders nw target is_router extra_routes w)
  unfolding reconcile_tunnel_interfaces continue
  reconcile_tunnel_interfaces-IsSynced nw target is_router extra_routes w t =
      let id = (get_network_id nw.meta.name w.self).0 in
      let prefix = link_prefix id in
      let f = laws.has_link w.kernel in
      continue-Post (λ _. Held laws every w.self f) (λ _. IsSynced laws prefix target w)
        (Isolated laws prefix w) (reconcile_fou lo net nl nw (is_nonempty target) w) _
        (Post-weaken _ _ _ _ (reconcile_fou lo net nl nw (is_nonempty target) w) (λ _ _ h. h)
          (λ w1 held x q. held.1 x refl)
          ((reconcile_fou-Keeps lo net laws every w.self f nw (is_nonempty target)).run w
            (refl, λ x _. refl)))
        (λ _ w1 held.
          continue-Post
            (λ ls w2. Held laws every w.self f w2 × ((x : String) → contains (names ls) x ≡ f x))
            (λ _. IsSynced laws prefix target w) (Isolated laws prefix w) (query nl nl.link_list w1)
            _
            (Post-weaken _ _ _ _ (query nl nl.link_list w1) (λ _ _ h. h)
              (λ w2 held x q. held.1 x refl)
              (link_list-names laws prefix w.self f w1 (nl.link_list w1.kernel) refl held))
            (λ ls w2 h. rw h.0.0 (
              after_list-IsSynced lo net laws visits prefix nw target is_router extra_routes w t ls
                (record { self = (get_network_id nw.meta.name w.self).1; kernel = w2.kernel })
                (λ x. h.0.1 x refl) h.1)))
