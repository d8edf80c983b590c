-- ===== src/Cluster/Progress.antt =====
-- What the next run of the pod controller reaches, whatever others have done before.
use mathlib.Core.List.{Memᴰ}
use mathlib.Core.Option
use kube_overlay_operator.Base.{
  String, Bool, true, false, ◌≡◌, ◌≢◌, refl, sym, ap, subst, ◌∙◌, Option, none, some, List, [], ◌∷◌,
  arith, ◌==◌, inl, inr, Option-cases,
}
use kube_overlay_operator.Base.Result.{ok, Result-cases}
use kube_overlay_operator.Api.{OverlayNetwork, OverlayNetworkStatus, Pod}
use kube_overlay_operator.External.Lo.{Lo, IsLo}
use kube_overlay_operator.External.Finalizers.{Finalizers, IsFinalizers}
use kube_overlay_operator.External.Client.{Client, Log, Write, update_status}
use kube_overlay_operator.Base.Dict.{Dict, has}
use kube_overlay_operator.External.Server.{Server, Snapshot, IsServer, stored, written}
use kube_overlay_operator.Net.Text.{NetText}
use kube_overlay_operator.PodController.Allocation.{
  choose_ip, add_allocation, ensure_allocation, allocated_status,
}
use kube_overlay_operator.PodController.Allocate.{allocated_status-IsAllocated}
use kube_overlay_operator.PodController.Wants.{is_wanted}
use kube_overlay_operator.PodController.Reconcile.{
  has_overlay_label, annotation_list, names_for, extra_route_annotation, extra_router_annotation,
  reconcile,
}
use kube_overlay_operator.PodController.Sending.{
  routers_since, visit-allocates, visit-removes, reconcile-sends,
}
use kube_overlay_operator.Cluster.{System, Sends, Step, Reach}
use kube_overlay_operator.Cluster.Atomic.{update-accepted}
use kube_overlay_operator.Cluster.Invariant.{IsTidy, Reach-IsTidy}
use kube_overlay_operator.Cluster.Always.{IfStored}
use kube_overlay_operator.Cluster.Registry.{book}
use kube_overlay_operator.PodController.Deallocate.{deallocated_status-lookup}

-- If there is an address for the pod, allocateIP comes to a status.
allocated_status-total :
    (lo : Lo) (net : NetText) (nw : OverlayNetwork) (pod : Pod) (is_router : Bool)
    (extra_networks extra_routers : List String) (ip : String)
    → (pod.pod_ip == "") ≡ false
    → choose_ip lo net nw pod ≡ ok ip
    → (s : OverlayNetworkStatus) × (allocated_status lo net nw pod is_router extra_networks
          extra_routers
        ≡ ok s)
unfolding allocated_status ensure_allocation add_allocation
allocated_status-total lo net nw pod is_router extra_networks extra_routers ip has_ip chosen =
    elim (Result-cases (allocated_status lo net nw pod is_router extra_networks extra_routers)) [
      | inl made ↦ made
      | inr (e, bad) ↦
          elim (Option-cases
            (lo.find_index_of nw.status.allocations (λ item. pod.meta.name == item.pod_name))) [
              | inl absent ↦ absurd (ground (arith, has_ip, absent, chosen, bad))
              | inr (found, there) ↦ absurd (ground (arith, has_ip, there, bad))
            ]
    ]

module _ {lo : Lo} (lo_laws : IsLo lo) (net : NetText) {fz : Finalizers} (fz_laws : IsFinalizers fz)
    (Admits : Option OverlayNetwork → OverlayNetwork → Type 0) {sv : Server} (laws : IsServer sv)
    (accepts : (st : sv.Store) (snap : Snapshot) (w : Write)
      → sv.read st ≡ some snap
      → (sv.update snap.version w st).0 ≡ none) where
  -- A step reads the snapshot, and a further one submits a write of the log at its version,
  -- which leads to a system with the property. The further step may take a pod out.
  pub record Submits (s : System sv) (snap : Snapshot) (log : Log) (removed : Option String)
      (P : System sv → Type 0) : Type 0 where
    pub write : Write
    pub sent : Memᴰ write log
    pub first_step : Step lo net fz Admits s none (record s { seen = snap ∷ s.seen })
    pub second_step :
        Step lo net fz Admits
          (record s { seen = snap ∷ s.seen })
          removed
          (record s { seen = snap ∷ s.seen; store = (sv.update snap.version write s.store).1 })
    pub reached :
        P (record s { seen = snap ∷ s.seen; store = (sv.update snap.version write s.store).1 })

  read_and_write :
      (s : System sv) (snap : Snapshot) (removed : Option String) (w : Write) (log : Log)
      (P : Option OverlayNetwork → Type 0)
      → sv.read s.store ≡ some snap
      → Memᴰ w log
      → Sends lo net fz snap.network removed w
      → P (written snap.network w)
      → Submits s snap log removed (λ t. P (stored sv t.store))
  read_and_write s snap removed w log P read sent sends holds = record {
    write = w;
    sent = sent;
    first_step = Step.observe snap read;
    second_step = Step.write snap removed w (Memᴰ.head refl) sends;
    reached =
        subst P (sym (update-accepted laws s.store snap w read (accepts s.store snap w read)))
          holds;
  }

  module _ {s : System sv} (reach : Reach lo net fz Admits s) (snap : Snapshot)
      (read : sv.read s.store ≡ some snap) (c : Client)
      (map_to_slice : Dict Bool → (String → Bool → Bool) → List Bool) (namespace name : String)
      (pod : Pod) (nws : List OverlayNetwork) (found : c.get_pod [] namespace name ≡ ok pod)
      (labelled : has_overlay_label pod ≡ true)
      (listed : c.list_networks [] pod.meta.namespace ≡ ok nws)
      (there : Memᴰ snap.network nws) where
    -- Whatever others have done: if Reconcile of the pod controller lists the network as it is
    -- stored, the pod has the label, a pod address and names the network, and there is an address
    -- for it, then one of the writes that this run sends, submitted at the version of the
    -- network, leads to a system in which the pod has an address in the network. The server accepts
    -- updates at the stored version.
    pub Reach-progress :
        (ip : String)
        → (pod.pod_ip == "") ≡ false
        → choose_ip lo net snap.network pod ≡ ok ip
        → is_wanted lo net c pod snap.network.meta.name ≡ true
        → Submits s snap
            (reconcile lo net c fz map_to_slice namespace name []).1
            none
            (λ t. book (stored sv t.store) pod.meta.name ≢ none)
    Reach-progress ip has_ip chosen wanted =
        let routers = routers_since lo net c pod pod.meta.deletion_timestamp in
        let is_router : Bool = has snap.network.meta.name routers in
        let names : String → List String =
          λ key. names_for lo net c snap.network (annotation_list lo net c pod key) in
        let (status, made) =
          allocated_status-total lo net snap.network pod is_router (names extra_route_annotation)
            (names extra_router_annotation) ip has_ip chosen in
        let tidy : IsTidy snap.network =
          subst (IfStored IsTidy) (ap (Option.map (λ (s : Snapshot). s.network)) read)
            (Reach-IsTidy lo_laws net fz_laws laws reach) in
        read_and_write s snap none (update_status (record (snap.network) { status = status })) _
          (λ o. book o pod.meta.name ≢ none) read
          (reconcile-sends lo net c pod _ fz map_to_slice namespace name snap.network nws found
            labelled listed (λ l. visit-allocates lo net c pod snap.network status l made wanted)
            there)
          (Sends.allocates pod is_router _ _ status made)
          (allocated_status-IsAllocated lo_laws net snap.network pod is_router _ _ status tidy
            made).has_place

    -- Whatever others have done: if Reconcile of the pod controller lists the network as it is
    -- stored, and the pod has the label and is being deleted or does not name the network, then one
    -- of the writes that this run sends, submitted at the version of the network, leads to a system
    -- in which the pod has no address in the network. The server accepts updates at the stored
    -- version.
    pub Reach-release :
        is_wanted lo net c pod snap.network.meta.name ≡ false
        → Submits s snap
            (reconcile lo net c fz map_to_slice namespace name []).1
            (some pod.meta.name)
            (λ t. book (stored sv t.store) pod.meta.name ≡ none)
    Reach-release unwanted =
        read_and_write s snap (some pod.meta.name) _ _ (λ o. book o pod.meta.name ≡ none) read
          (reconcile-sends lo net c pod _ fz map_to_slice namespace name snap.network nws found
            labelled listed (λ l. visit-removes lo net c pod snap.network _ l unwanted) there)
          (Sends.deallocates c pod unwanted)
          (deallocated_status-lookup lo_laws net snap.network pod pod.meta.name ∙ ground arith)
