-- ===== src/PodController/Reconcile.antt =====
-- Reconcile of controllers/pod_controller.go.
use kube_overlay_operator.Base.{
  String, ◌<>◌, Bool, true, false, not, Option, none, some, List, [], ◌∷◌, ◌++◌, ◌==◌, ◌&&◌, ◌||◌,
  has_prefix, trim_prefix, split, if◌then◌else◌,
}
use kube_overlay_operator.Base.Dict.{Dict, lookup, insert, get, has}
use kube_overlay_operator.Base.Result.{ok, err}
use kube_overlay_operator.Api.{OverlayNetwork, Pod}
use kube_overlay_operator.External.Lo.{Lo}
use kube_overlay_operator.External.Finalizers.{Finalizers}
use kube_overlay_operator.External.Client.{
  Client, Log, send, update_pod, ApiError, is_not_found, ReconcileResult, done, requeue, failure,
}
use kube_overlay_operator.Net.Text.{NetText}
use kube_overlay_operator.PodController.Allocation.{AllocationError, allocate_ip, deallocate_ip}

abbrev pub member_annotation : String
member_annotation = "network.deinstapel.de/member-of"

abbrev pub router_annotation : String
router_annotation = "network.deinstapel.de/router-for"

abbrev pub extra_router_annotation : String
extra_router_annotation = "network.deinstapel.de/extra-router"

abbrev pub extra_route_annotation : String
extra_route_annotation = "network.deinstapel.de/extra-routes"

abbrev pub pod_finalizer : String
pod_finalizer = "network.deinstapel.de/ipam"

abbrev pub overlay_label : String
overlay_label = "network.deinstapel.de/inject-sidecar"

-- The label says "true".
abbrev pub has_overlay_label : Pod → Bool
has_overlay_label pod = elim (lookup overlay_label pod.meta.labels) [
  | none ↦ false
  | some v ↦ v == "true"
]

-- What the loop over the networks updates: whether a network of the pod was served, whether there
-- was an error, and the requests.
pub record LoopState : Type 0 where
  pub unique_networks : Dict Bool
  pub has_errors : Bool
  pub log : Log

abbrev pub is_error : Option ApiError → Bool
is_error none = false
is_error (some e) = true

-- The branches on the error of allocateIP and of deallocateIP, for the network of a name.
unfoldable pub after_allocation : String → LoopState → Option AllocationError × Log → LoopState
after_allocation name s (some e, log) = record s { has_errors = true; log = log }
after_allocation name s (none, log) = record s {
  unique_networks = insert name true s.unique_networks;
  log = log;
}

unfoldable pub after_deallocation : LoopState → Option AllocationError × Log → LoopState
after_deallocation s (some e, log) = record s { has_errors = true; log = log }
after_deallocation s (none, log) = record s { log = log }

module _ (lo : Lo) (net : NetText) (c : Client) where
  -- The parts of an annotation between commas, without the empty ones.
  unfoldable pub annotation_list : Pod → String → List String
  annotation_list pod key =
      lo.filter (split (get "" key pod.meta.annotations) b',') (λ s. not (s == ""))

  -- The names behind "network/" in a list of such texts.
  unfoldable pub names_for : OverlayNetwork → List String → List String
  names_for nw entries =
      let prefix = nw.meta.name <> "/" in
      lo.map (lo.filter entries (λ s. has_prefix s prefix)) (λ s. trim_prefix s prefix)

  -- The networks that a pod names, as keys: of the map of all, and of the map of those it routes.
  unfoldable pub all_networks : Pod → List String
  all_networks pod =
      lo.uniq (annotation_list pod member_annotation ++ annotation_list pod router_annotation)

  unfoldable pub unique_networks : Pod → Dict Bool
  unique_networks pod = lo.slice_to_map (lo.uniq (all_networks pod)) (λ nw. (nw, false))

  unfoldable pub router_networks : Pod → Dict Bool
  router_networks pod =
      lo.slice_to_map (lo.uniq (annotation_list pod router_annotation)) (λ nw. (nw, false))

  -- The body of the loop over the networks.
  unfoldable pub visit : Pod → Dict Bool → OverlayNetwork → LoopState → LoopState
  visit pod routers nw s =
      let is_router = has nw.meta.name routers in
      if has nw.meta.name s.unique_networks
      then (let extra_routers = names_for nw (annotation_list pod extra_router_annotation) in
          let extra_routes = names_for nw (annotation_list pod extra_route_annotation) in
          after_allocation nw.meta.name s
            (allocate_ip lo net c nw pod is_router extra_routes extra_routers s.log))
      else after_deallocation s (deallocate_ip lo net c nw pod s.log)

  unfoldable pub visit_all : Pod → Dict Bool → List OverlayNetwork → LoopState → LoopState
  visit_all pod routers [] s = s
  visit_all pod routers (nw ∷ nws) s = visit_all pod routers nws (visit pod routers nw s)

  module _ (fz : Finalizers) (map_to_slice : Dict Bool → (String → Bool → Bool) → List Bool) where
    -- The finalizer of a deleted pod goes when all networks were updated.
    unfoldable pub finish_deletion : Pod → LoopState → LoopState
    finish_deletion pod s =
        let (finalizers, changed) = fz.remove_finalizer pod.meta.finalizers pod_finalizer in
        if not s.has_errors && changed
        then (let meta = record (pod.meta) { finalizers = finalizers } in
            let sent = send c (update_pod (record pod { meta = meta })) s.log in
            record s { has_errors = is_error sent.0; log = sent.1 })
        else s

    unfoldable pub conclude : LoopState → ReconcileResult × Log
    conclude s =
        if s.has_errors || lo.contains_bool (map_to_slice s.unique_networks (λ _ v. v)) false
        then (requeue, s.log)
        else (done, s.log)

    -- The deletion timestamp chooses: a deleted pod is taken out of all networks.
    unfoldable pub reconcile_since :
        Option String → Pod → List OverlayNetwork → Log → ReconcileResult × Log
    reconcile_since (some _) pod nws log = conclude (
        finish_deletion pod
          (visit_all pod [] nws (record { unique_networks = []; has_errors = false; log = log })))
    reconcile_since none pod nws log = conclude (
        visit_all pod (router_networks pod) nws
          (record { unique_networks = unique_networks pod; has_errors = false; log = log }))

    -- Reconcile behind the tests on the pod, with the networks of its namespace.
    unfoldable pub reconcile_networks : Pod → List OverlayNetwork → Log → ReconcileResult × Log
    reconcile_networks pod nws log = reconcile_since pod.meta.deletion_timestamp pod nws log

    -- Reconcile behind the test of the label.
    unfoldable pub reconcile_listed : Pod → Log → ReconcileResult × Log
    reconcile_listed pod log = elim (c.list_networks log pod.meta.namespace) [
      | err e ↦ (failure e, log)
      | ok nws ↦ reconcile_networks pod nws log
    ]

    unfoldable pub reconcile : String → String → Log → ReconcileResult × Log
    reconcile namespace name log = elim (c.get_pod log namespace name) [
      | err e ↦ if is_not_found e then (done, log) else (failure e, log)
      | ok pod ↦ if not (has_overlay_label pod) then (done, log) else reconcile_listed pod log
    ]
