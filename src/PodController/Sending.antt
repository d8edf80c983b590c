-- ===== src/PodController/Sending.antt =====
-- What a run of Reconcile of the pod controller is sure to send for a listed network.
use mathlib.Core.List.{Memᴰ}
use mathlib.Core.List.Memᴰ
use kube_overlay_operator.Base.{
  String, Bool, true, false, ◌≡◌, refl, sym, ap, subst, ◌∙◌, Option, none, some, List, [], ◌∷◌,
  ◌++◌, arith, not, ◌&&◌, Bool-cases, inl, inr,
}
use kube_overlay_operator.Base.Dict.{Dict, has}
use kube_overlay_operator.Base.Result.{ok, Result-cases}
use kube_overlay_operator.Api.{OverlayNetwork, OverlayNetworkStatus, Pod}
use kube_overlay_operator.External.Lo.{Lo}
use kube_overlay_operator.External.Finalizers.{Finalizers}
use kube_overlay_operator.External.Client.{Client, Log, Write, update_status}
use kube_overlay_operator.Net.Text.{NetText}
use kube_overlay_operator.PodController.Allocation.{
  allocated_status, deallocated_status, allocate_ip, deallocate_ip,
}
use kube_overlay_operator.PodController.Reconcile.{
  LoopState, has_overlay_label, router_networks, annotation_list, names_for, visit, visit_all,
  extra_router_annotation, extra_route_annotation, finish_deletion, conclude, reconcile_since,
  reconcile_networks, reconcile_listed, reconcile, pod_finalizer,
}
use kube_overlay_operator.PodController.Wants.{is_wanted, wants, Matches, visit-Matches}
use kube_overlay_operator.PodController.Writes.{
  update_network_status-log, after_allocation-log, after_deallocation-log,
}

-- The map of the networks that the pod routes, which a pod that is being deleted does not have.
abbrev pub routers_since : Lo → NetText → Client → Pod → Option String → Dict Bool
routers_since lo net c pod (some time) = []
routers_since lo net c pod none = router_networks lo net c pod

module _ (lo : Lo) (net : NetText) (c : Client) (pod : Pod) where
  -- A status that the loop computes for the pod in a network.
  abbrev pub Allocates : OverlayNetwork → OverlayNetworkStatus → Type 0
  Allocates nw s =
      let routers = routers_since lo net c pod pod.meta.deletion_timestamp in
      let names : String → List String =
        λ key. names_for lo net c nw (annotation_list lo net c pod key) in
      allocated_status lo net nw pod (has nw.meta.name routers) (names extra_route_annotation)
        (names extra_router_annotation)
      ≡ ok s

  snoc-last : (log : Log) (w : Write) → Memᴰ w (log ++ w ∷ [])
  snoc-last log w = Memᴰ.append_right log (Memᴰ.head refl)

  -- A visit of a wanted network sends the allocation.
  pub visit-allocates :
      (nw : OverlayNetwork) (status : OverlayNetworkStatus) (s : LoopState)
      → Allocates nw status
      → is_wanted lo net c pod nw.meta.name ≡ true
      → Matches lo net c pod s
      → Memᴰ
          (update_status (record nw { status = status }))
          (visit lo net c pod (routers_since lo net c pod pod.meta.deletion_timestamp) nw s).log
  unfolding visit allocate_ip
  visit-allocates nw status s made wanted m =
      rw (m nw.meta.name ∙ wanted, visit)
        (rw after_allocation-log
          (rw (made, allocate_ip) (rw update_network_status-log (snoc-last s.log _))))

  -- A visit of another network sends the removal.
  pub visit-removes :
      (nw : OverlayNetwork) (routers : Dict Bool) (s : LoopState)
      → is_wanted lo net c pod nw.meta.name ≡ false
      → Matches lo net c pod s
      → Memᴰ
          (update_status (record nw { status = deallocated_status lo net nw pod }))
          (visit lo net c pod routers nw s).log
  unfolding visit deallocate_ip
  visit-removes nw routers s unwanted m =
      rw (m nw.meta.name ∙ unwanted, visit)
        (rw after_deallocation-log (rw update_network_status-log (snoc-last s.log _)))

  module _ (w : Write) where
    -- No visit takes a write back.
    visit-keeps :
        (routers : Dict Bool) (nw : OverlayNetwork) (s : LoopState)
        → Memᴰ w s.log
        → Memᴰ w (visit lo net c pod routers nw s).log
    unfolding visit allocate_ip deallocate_ip
    visit-keeps routers nw s m = elim (Bool-cases (has nw.meta.name s.unique_networks)) [
      | inr unnamed ↦
          rw (unnamed, visit)
            (rw after_deallocation-log (rw update_network_status-log (Memᴰ.append_left _ m)))
      | inl named ↦
          rw (named, visit)
            (rw after_allocation-log
              (elim (Result-cases (
                allocated_status lo net nw pod (has nw.meta.name routers)
                  (names_for lo net c nw (annotation_list lo net c pod extra_route_annotation))
                  (names_for lo net c nw (annotation_list lo net c pod extra_router_annotation)))) [
                    | inr (e, bad) ↦ rw (bad, allocate_ip) m
                    | inl (status, good) ↦
                        rw (good, allocate_ip) (rw update_network_status-log (Memᴰ.append_left _ m))
                  ]))
    ]

    visit_all-keeps :
        (routers : Dict Bool) (nws : List OverlayNetwork) (s : LoopState)
        → Memᴰ w s.log
        → Memᴰ w (visit_all lo net c pod routers nws s).log
    unfolding visit_all
    visit_all-keeps routers [] s m = m
    visit_all-keeps routers (nw ∷ nws) s m =
        visit_all-keeps routers nws _ (visit-keeps routers nw s m)

    -- If the visit of a network sends it, the loop does.
    visit_all-sends :
        (routers : Dict Bool) (nw : OverlayNetwork)
        → ((s : LoopState) → Matches lo net c pod s → Memᴰ w (visit lo net c pod routers nw s).log)
        → (nws : List OverlayNetwork) (s : LoopState) → Memᴰ nw nws
        → Matches lo net c pod s
        → Memᴰ w (visit_all lo net c pod routers nws s).log
    unfolding visit_all
    visit_all-sends routers nw sends [] s there m = elim there [ ]
    visit_all-sends routers nw sends (nw' ∷ nws) s (Memᴰ.head same) m =
        visit_all-keeps routers nws _
          (subst (λ n. Memᴰ w (visit lo net c pod routers n s).log) same (sends s m))
    visit_all-sends routers nw sends (nw' ∷ nws) s (Memᴰ.tail there) m =
        visit_all-sends routers nw sends nws _ there (visit-Matches lo net c pod routers nw' s m)

    module _ (fz : Finalizers) (map_to_slice : Dict Bool → (String → Bool → Bool) → List Bool) where
      finish_deletion-keeps :
          (s : LoopState)
          → Memᴰ w s.log
          → Memᴰ w (finish_deletion lo net c fz map_to_slice pod s).log
      unfolding finish_deletion
      finish_deletion-keeps s m =
          elim (Bool-cases
            (not s.has_errors && (fz.remove_finalizer pod.meta.finalizers pod_finalizer).1)) [
              | inl sends ↦ rw (sends, finish_deletion) (Memᴰ.append_left _ m)
              | inr stays ↦ rw (stays, finish_deletion) m
            ]

      conclude-same : (s : LoopState) → (conclude lo net c fz map_to_slice s).1 ≡ s.log
      unfolding conclude
      conclude-same s = ground arith

      reconcile_since-sends :
          (time : Option String) (nw : OverlayNetwork) (nws : List OverlayNetwork) (log : Log)
          → pod.meta.deletion_timestamp ≡ time
          → ((s : LoopState)
              → Matches lo net c pod s
              → Memᴰ w (visit lo net c pod (routers_since lo net c pod time) nw s).log)
          → Memᴰ nw nws
          → Memᴰ w (reconcile_since lo net c fz map_to_slice time pod nws log).1
      unfolding reconcile_since
      reconcile_since-sends none nw nws log alive sends there = rw conclude-same (
          visit_all-sends _ nw sends nws _ there
            (λ k. ap (λ t. wants lo net c pod t k) (sym alive)))
      reconcile_since-sends (some time) nw nws log deleted sends there = rw conclude-same (
          finish_deletion-keeps _ (
            visit_all-sends [] nw sends nws _ there
              (λ k. ap (λ t. wants lo net c pod t k) (sym deleted))))

      -- If the visit of a listed network sends a write, Reconcile does.
      pub reconcile-sends :
          (namespace name : String) (nw : OverlayNetwork) (nws : List OverlayNetwork)
          → c.get_pod [] namespace name ≡ ok pod
          → has_overlay_label pod ≡ true
          → c.list_networks [] pod.meta.namespace ≡ ok nws
          → ((s : LoopState)
              → Matches lo net c pod s
              → Memᴰ w
                  (visit lo net c pod
                    (routers_since lo net c pod pod.meta.deletion_timestamp)
                    nw
                    s).log)
          → Memᴰ nw nws
          → Memᴰ w (reconcile lo net c fz map_to_slice namespace name []).1
      unfolding reconcile reconcile_listed reconcile_networks
      reconcile-sends namespace name nw nws read labelled listed sends there =
          rw (read, labelled, listed, reconcile, reconcile_listed)
            (reconcile_since-sends pod.meta.deletion_timestamp nw nws [] refl sends there)
