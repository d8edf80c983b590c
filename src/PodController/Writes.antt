-- ===== src/PodController/Writes.antt =====
-- What Reconcile of the pod controller sends to the API server.
use kube_overlay_operator.Base.{
  String, Bool, false, not, ◌≡◌, refl, sym, ap, ◌∙◌, Option, none, some, List, [], ◌∷◌, ◌++◌, arith,
  ◌&&◌, Bool-cases, inl, inr,
}
use kube_overlay_operator.Base.Lists.{All, All-append}
use kube_overlay_operator.Base.Dict.{Dict, has}
use kube_overlay_operator.Base.Result.{ok, Result-cases}
use kube_overlay_operator.Api.{OverlayNetwork, OverlayNetworkStatus, Pod}
use kube_overlay_operator.External.Lo.{Lo, IsLo}
use kube_overlay_operator.External.Finalizers.{Finalizers}
use kube_overlay_operator.External.Client.{
  Client, Log, Write, update_status, update_pod, is_not_found,
}
use kube_overlay_operator.Net.Text.{NetText}
use kube_overlay_operator.PodController.Allocation.{
  AllocationError, update_network_status, allocated_status, deallocated_status, allocate_ip,
  deallocate_ip,
}
use kube_overlay_operator.PodController.WellFormed.{IsWellFormed}
use kube_overlay_operator.PodController.Allocate.{allocated_status-IsAllocated}
use kube_overlay_operator.PodController.Deallocate.{deallocated_status-IsWellFormed}
use kube_overlay_operator.PodController.Reconcile.{
  LoopState, has_overlay_label, visit, visit_all, finish_deletion, conclude, reconcile_since,
  reconcile_networks, reconcile_listed, reconcile, after_allocation, after_deallocation,
  pod_finalizer,
}
use kube_overlay_operator.PodController.Wants.{is_wanted, wants, Matches, visit-Matches}

-- A log grows by a write that has the property of the others.
All-snoc : (P : Write → Type 0) (log : Log) (w : Write) → All P log → P w → All P (log ++ w ∷ [])
All-snoc P log w h k = All-append P log (w ∷ []) h (k, tt)

pub update_network_status-log :
    (c : Client) (nw : OverlayNetwork) (log : Log)
    → (update_network_status c nw log).1 ≡ log ++ update_status nw ∷ []
unfolding update_network_status
update_network_status-log c nw log = ground arith

pub after_allocation-log :
    (name : String) (s : LoopState) (r : Option AllocationError × Log)
    → (after_allocation name s r).log ≡ r.1
unfolding after_allocation
after_allocation-log name s (none, log) = refl
after_allocation-log name s (some e, log) = refl

pub after_deallocation-log :
    (s : LoopState) (r : Option AllocationError × Log) → (after_deallocation s r).log ≡ r.1
unfolding after_deallocation
after_deallocation-log s (none, log) = refl
after_deallocation-log s (some e, log) = refl

-- A property of the statuses that allocateIP and deallocateIP compute from networks with another
-- property, and of pods, is one of all that Reconcile sends at such networks.
module _ (lo : Lo) (net : NetText) (c : Client) (Q : OverlayNetwork → Type 0) (P : Write → Type 0)
    (allocates : (nw : OverlayNetwork) (pod : Pod) (is_router : Bool)
        (extra_networks extra_routers : List String) (s : OverlayNetworkStatus)
      → Q nw
      → allocated_status lo net nw pod is_router extra_networks extra_routers ≡ ok s
      → P (update_status (record nw { status = s })))
    (deallocates : (nw : OverlayNetwork) (pod : Pod)
      → Q nw
      → is_wanted lo net c pod nw.meta.name ≡ false
      → P (update_status (record nw { status = deallocated_status lo net nw pod })))
    (updates : (pod : Pod) → P (update_pod pod)) where
  allocate_ip-All :
      (nw : OverlayNetwork) (pod : Pod) (is_router : Bool)
      (extra_networks extra_routers : List String) (log : Log)
      → Q nw
      → All P log
      → All P (allocate_ip lo net c nw pod is_router extra_networks extra_routers log).1
  unfolding allocate_ip
  allocate_ip-All nw pod is_router extra_networks extra_routers log w h =
      elim (Result-cases (allocated_status lo net nw pod is_router extra_networks extra_routers)) [
        | inr (e, bad) ↦ rw (bad, allocate_ip) h
        | inl (s, good) ↦
            rw (good, allocate_ip)
              (rw (update_network_status-log c (record nw { status = s }) log) (
                All-snoc P log _ h
                  (allocates nw pod is_router extra_networks extra_routers s w good)))
      ]

  deallocate_ip-All :
      (nw : OverlayNetwork) (pod : Pod) (log : Log)
      → Q nw
      → is_wanted lo net c pod nw.meta.name ≡ false
      → All P log
      → All P (deallocate_ip lo net c nw pod log).1
  unfolding deallocate_ip
  deallocate_ip-All nw pod log w unwanted h =
      rw (update_network_status-log c _ log) (All-snoc P log _ h (deallocates nw pod w unwanted))

  visit-All :
      (pod : Pod) (routers : Dict Bool) (nw : OverlayNetwork) (s : LoopState)
      → Q nw
      → Matches lo net c pod s
      → All P s.log
      → All P (visit lo net c pod routers nw s).log
  unfolding visit
  visit-All pod routers nw s w m h = elim (Bool-cases (has nw.meta.name s.unique_networks)) [
    | inl named ↦
        rw (named, visit)
          (rw after_allocation-log
            (allocate_ip-All nw pod (has nw.meta.name routers) _ _ s.log w h))
    | inr unnamed ↦
        rw (unnamed, visit)
          (rw after_deallocation-log
            (deallocate_ip-All nw pod s.log w (sym (m nw.meta.name) ∙ unnamed) h))
  ]

  visit_all-All :
      (pod : Pod) (routers : Dict Bool) (nws : List OverlayNetwork) (s : LoopState)
      → All Q nws
      → Matches lo net c pod s
      → All P s.log
      → All P (visit_all lo net c pod routers nws s).log
  unfolding visit_all
  visit_all-All pod routers [] s w m h = h
  visit_all-All pod routers (nw ∷ nws) s w m h =
      visit_all-All pod routers nws (visit lo net c pod routers nw s) w.1
        (visit-Matches lo net c pod routers nw s m) (visit-All pod routers nw s w.0 m h)

  module _ (fz : Finalizers) (map_to_slice : Dict Bool → (String → Bool → Bool) → List Bool) where
    finish_deletion-All :
        (pod : Pod) (s : LoopState)
        → All P s.log
        → All P (finish_deletion lo net c fz map_to_slice pod s).log
    unfolding finish_deletion
    finish_deletion-All pod s h =
        elim (Bool-cases
          (not s.has_errors && (fz.remove_finalizer pod.meta.finalizers pod_finalizer).1)) [
            | inl sends ↦ rw (sends, finish_deletion) (All-snoc P s.log _ h (updates _))
            | inr stays ↦ rw (stays, finish_deletion) h
          ]

    conclude-log : (s : LoopState) → (conclude lo net c fz map_to_slice s).1 ≡ s.log
    unfolding conclude
    conclude-log s = ground arith

    reconcile_since-All :
        (time : Option String) (pod : Pod) (nws : List OverlayNetwork) (log : Log)
        → pod.meta.deletion_timestamp ≡ time
        → All Q nws
        → All P log
        → All P (reconcile_since lo net c fz map_to_slice time pod nws log).1
    unfolding reconcile_since
    reconcile_since-All none pod nws log alive w h =
        rw conclude-log
          (visit_all-All pod _ nws _ w (λ k. ap (λ t. wants lo net c pod t k) (sym alive)) h)
    reconcile_since-All (some time) pod nws log deleted w h = rw conclude-log (
        finish_deletion-All pod _
          (visit_all-All pod [] nws _ w (λ k. ap (λ t. wants lo net c pod t k) (sym deleted)) h))

    pub reconcile-All :
        ((log : Log) (namespace : String) (nws : List OverlayNetwork)
          → c.list_networks log namespace ≡ ok nws
          → All Q nws)
        → (namespace name : String) → All P (reconcile lo net c fz map_to_slice namespace name []).1
    unfolding reconcile reconcile_listed reconcile_networks
    reconcile-All served namespace name = elim (Result-cases (c.get_pod [] namespace name)) [
      | inr (e, lost) ↦
          rw (lost, reconcile)
            (elim (Bool-cases (is_not_found e)) [ inl gone ↦ rw gone tt | inr other ↦ rw other tt ])
      | inl (pod, read) ↦
          rw (read, reconcile)
            (elim (Bool-cases (not (has_overlay_label pod))) [
              | inl skipped ↦ rw skipped tt
              | inr labelled ↦ rw labelled (from_list pod)
            ])
    ]
      where
        from_list : (pod : Pod) → All P (reconcile_listed lo net c fz map_to_slice pod []).1
        from_list pod = elim (Result-cases (c.list_networks [] pod.meta.namespace)) [
          | inr (e, lost) ↦ rw (lost, reconcile_listed) tt
          | inl (nws, listed) ↦
              rw (listed, reconcile_listed)
                (reconcile_since-All pod.meta.deletion_timestamp pod nws [] refl
                  (served [] pod.meta.namespace nws listed) tt)
        ]

-- A write of a status writes a well-formed one.
abbrev pub IsSafe : Write → Type 0
IsSafe (update_status nw) = IsWellFormed nw.status
IsSafe _ = Unit

-- All writes are safe.
abbrev pub AreSafe : Log → Type 0
AreSafe log = All IsSafe log

module _ {lo : Lo} (laws : IsLo lo) (net : NetText) (c : Client) (fz : Finalizers)
    (map_to_slice : Dict Bool → (String → Bool → Bool) → List Bool) where
  -- If the API server lists networks with well-formed statuses only, Reconcile of the pod
  -- controller writes well-formed statuses only, whatever the server answers to the writes.
  pub reconcile-AreSafe :
      ((log : Log) (namespace : String) (nws : List OverlayNetwork)
        → c.list_networks log namespace ≡ ok nws
        → All (λ nw. IsWellFormed nw.status) nws)
      → (namespace name : String) → AreSafe (reconcile lo net c fz map_to_slice namespace name []).1
  reconcile-AreSafe =
      reconcile-All lo net c (λ nw. IsWellFormed nw.status) IsSafe
        (λ nw pod is_router extra_networks extra_routers s w good.
          (allocated_status-IsAllocated laws net nw pod is_router extra_networks extra_routers s w
            good).well_formed)
        (λ nw pod w unwanted. deallocated_status-IsWellFormed laws net nw pod w) (λ pod. tt) fz
        map_to_slice
