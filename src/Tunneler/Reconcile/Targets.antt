-- ===== src/Tunneler/Reconcile/Targets.antt =====
-- The target state that Reconcile makes, and the links that it leads to.
use kube_overlay_operator.Base.{
  ℕ, String, Bool, true, false, ◌||◌, ◌≡◌, refl, ◌∙◌, ap, sym, subst, Option, none, some, List, [],
  ◌∷◌, ◌==◌, has_prefix, if◌then◌else◌, arith, Option-cases, inl, inr,
}
use kube_overlay_operator.Base.Dict.{Dict, lookup, insert, keys, lookup-insert}
use kube_overlay_operator.Base.Lists.{any, contains, Distinct, All}
use kube_overlay_operator.Base.Outcome.{Post, Post-weaken}
use kube_overlay_operator.Api.{OverlayNetwork, OverlayNetworkIpAllocation}
use kube_overlay_operator.External.Lo.{Lo}
use kube_overlay_operator.External.Netlink.{Netlink, IsNetlink}
use kube_overlay_operator.Net.Text.{NetText}
use kube_overlay_operator.Tunneler.{TunnelReconciler, LinkInfo, World}
use kube_overlay_operator.Tunneler.Naming.{
  next_index, number_of, get_network_id, link_prefix, link_name, get_tunnel_id,
}
use kube_overlay_operator.Tunneler.Naming.Isolation.{has_prefix-own}
use kube_overlay_operator.Tunneler.Links.Visit.{Isolated}
use kube_overlay_operator.Tunneler.Interfaces.{Orders, reconcile_tunnel_interfaces}
use kube_overlay_operator.Tunneler.Interfaces.Synced.{
  IsOrders, IsTarget, IsSynced, reconcile_tunnel_interfaces-IsSynced,
}
use kube_overlay_operator.Tunneler.Reconcile.{
  link_info, links_to, entry_of, is_found, peers, extra_routes, target_links, reconcile_network,
}

-- A network keeps its id.
pub get_network_id_again :
    (name : String) (r : TunnelReconciler)
    → (get_network_id name (get_network_id name r).1).0 ≡ (get_network_id name r).0
unfolding get_network_id number_of
get_network_id_again name r = elim (Option-cases (lookup name r.network_to_name)) [
  | inr (id, known) ↦ ground (arith, known)
  | inl new ↦
      ground (arith, new, lookup-insert name name (next_index r.network_index).0 r.network_to_name)
]

contains-insert :
    (k : String) (v : LinkInfo) (m : Dict LinkInfo) (x : String)
    → contains (keys (insert k v m)) x ≡ (contains (keys m) x || k == x)
contains-insert k v [] x = ground arith
contains-insert k v ((j, u) ∷ m) x = ground (arith, contains-insert k v m x)

insert-Distinct :
    (k : String) (v : LinkInfo) (m : Dict LinkInfo)
    → Distinct (keys m)
    → Distinct (keys (insert k v m))
insert-Distinct k v [] d = (refl, tt)
insert-Distinct k v ((j, u) ∷ m) (n, d) =
    ground (arith, contains-insert k v m j, insert-Distinct k v m d, n, d)

abbrev IsUnprocessed : Dict LinkInfo → Type 0
IsUnprocessed m = All (λ e. e.1.processed ≡ false) m

insert-IsUnprocessed :
    (k : String) (v : LinkInfo) (m : Dict LinkInfo)
    → v.processed ≡ false
    → IsUnprocessed m
    → IsUnprocessed (insert k v m)
insert-IsUnprocessed k v [] p d = (p, tt)
insert-IsUnprocessed k v ((j, u) ∷ m) p (n, d) =
    ground (arith, insert-IsUnprocessed k v m p d, n, d, p)

-- A name is the name of the link to one of the pods.
abbrev pub names_link : (ℕ → String) → ℕ → List OverlayNetworkIpAllocation → String → Bool
names_link encode id items x = any (λ item. link_name encode id item.pod_name == x) items

abbrev pub items_of :
    Option (OverlayNetworkIpAllocation × List OverlayNetworkIpAllocation)
    → List OverlayNetworkIpAllocation
items_of none = []
items_of (some (own, items)) = items

-- The allocations that a pod has links to.
abbrev pub linked_pods : Lo → String → OverlayNetwork → List OverlayNetworkIpAllocation
linked_pods lo me nw = items_of (peers lo me nw)

module _ (encode : ℕ → String) (nw : OverlayNetwork) (own : OverlayNetworkIpAllocation)
    (id : ℕ) where
  record IsLinked (items : List OverlayNetworkIpAllocation) (m : Dict LinkInfo)
      (r : Dict LinkInfo × TunnelReconciler) : Type 0 where
    pub same_id : (get_network_id nw.meta.name r.1).0 ≡ id
    pub linked :
        (x : String) → contains (keys r.0) x ≡ (contains (keys m) x || names_link encode id items x)
    pub once : Distinct (keys r.0)
    pub unprocessed : IsUnprocessed r.0

  links_to-IsLinked :
      (items : List OverlayNetworkIpAllocation) (m : Dict LinkInfo) (r : TunnelReconciler)
      → (get_network_id nw.meta.name r).0 ≡ id
      → Distinct (keys m)
      → IsUnprocessed m
      → IsLinked items m (links_to encode nw own items m r)
  unfolding links_to get_tunnel_id
  links_to-IsLinked [] m r e d u = record {
    same_id = e;
    linked = λ x. ground arith;
    once = d;
    unprocessed = u;
  }
  links_to-IsLinked (item ∷ items) m r e d u =
      let name = link_name encode (get_network_id nw.meta.name r).0 item.pod_name in
      let info = link_info own item in
      let rest =
        links_to-IsLinked items (insert name info m) (get_network_id nw.meta.name r).1
          (get_network_id_again nw.meta.name r ∙ e) (insert-Distinct name info m d)
          (insert-IsUnprocessed name info m refl u) in
      record {
        same_id = rest.same_id;
        linked = λ x. ground (
          arith,
          rest.linked x,
          contains-insert name info m x,
          ap (λ i. link_name encode i item.pod_name) e,
        );
        once = rest.once;
        unprocessed = rest.unprocessed;
      }

  names_link-prefixed :
      (items : List OverlayNetworkIpAllocation) (x : String)
      → names_link encode id items x ≡ true
      → has_prefix x (link_prefix id) ≡ true
  names_link-prefixed [] x h = ground arith
  names_link-prefixed (item ∷ items) x h =
      ground (arith, has_prefix-own encode id item.pod_name, names_link-prefixed items x)

module _ (lo : Lo) (encode : ℕ → String) where
  pub record IsLinkedTo (nw : OverlayNetwork) (id : ℕ) (items : List OverlayNetworkIpAllocation)
      (r : Dict LinkInfo × TunnelReconciler) : Type 0 where
    pub same_id : (get_network_id nw.meta.name r.1).0 ≡ id
    pub linked : (x : String) → contains (keys r.0) x ≡ names_link encode id items x
    pub target : IsTarget (link_prefix id) r.0

  pub target_links-IsLinkedTo :
      (o : Option (OverlayNetworkIpAllocation × List OverlayNetworkIpAllocation))
      (nw : OverlayNetwork) (r : TunnelReconciler)
      → IsLinkedTo nw (get_network_id nw.meta.name r).0 (items_of o) (target_links lo encode nw o r)
  unfolding target_links
  target_links-IsLinkedTo none nw r = record {
    same_id = refl;
    linked = λ x. refl;
    target = record { once = tt; prefixed = λ x h. ground arith; unprocessed = tt };
  }
  target_links-IsLinkedTo (some (own, items)) nw r =
      let id = (get_network_id nw.meta.name r).0 in
      let l = links_to-IsLinked encode nw own id items [] r refl tt tt in
      record {
        same_id = l.same_id;
        linked = l.linked;
        target = record {
          once = l.once;
          prefixed = λ x h. names_link-prefixed encode nw own id items x (sym (l.linked x) ∙ h);
          unprocessed = l.unprocessed;
        };
      }

module _ (lo : Lo) (net : NetText) {nl : Netlink} (laws : IsNetlink nl) {orders : Orders}
    (visits : IsOrders orders) (encode : ℕ → String) where
  -- If a reconciliation of a network succeeds, the links with the network's prefix are those to the
  -- pods that this pod has links to, and all other links are as they were. If it ends with an error
  -- or a panic, the links without the prefix are as they were.
  pub reconcile_network-IsSynced :
      (nw : OverlayNetwork) (w : World nl)
      → let id = (get_network_id nw.meta.name w.self).0 in
        Post
          (λ _ w'.
            (x : String)
            → laws.has_link w'.kernel x ≡ (
                if has_prefix x (link_prefix id)
                then names_link encode id (linked_pods lo w.self.my_pod_name nw) x
                else laws.has_link w.kernel x))
          (Isolated laws (link_prefix id) w)
          (reconcile_network lo net nl orders encode nw w)
  unfolding reconcile_network
  reconcile_network-IsSynced nw w =
      let me = w.self.my_pod_name in
      let r = target_links lo encode nw (peers lo me nw) w.self in
      let l = target_links-IsLinkedTo lo encode (peers lo me nw) nw w.self in
      let w1 : World nl = record { self = r.1; kernel = w.kernel } in
      let is_router = is_found lo (entry_of lo me nw.status.routers) in
      let extra = extra_routes lo net nw (entry_of lo me nw.status.allocations) in
      Post-weaken _ _ _ _ (reconcile_tunnel_interfaces lo net nl orders nw r.0 is_router extra w1)
        (λ _ w2 s x. ground (arith, s x, l.linked x)) (λ w2 iso. iso)
        (subst
          (λ id.
            IsTarget (link_prefix id) r.0
            → Post (λ _. IsSynced laws (link_prefix id) r.0 w1) (Isolated laws (link_prefix id) w1)
                (reconcile_tunnel_interfaces lo net nl orders nw r.0 is_router extra w1))
          l.same_id
          (reconcile_tunnel_interfaces-IsSynced lo net laws visits nw r.0 is_router extra w1)
          l.target)
