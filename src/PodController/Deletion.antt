-- ===== src/PodController/Deletion.antt =====
-- Reconcile of a pod that is being deleted.
use mathlib.Core.List.{Perm, append_assoc, append-nil}
use mathlib.Core.List.Perm
use kube_overlay_operator.Base.{
  String, Bool, true, false, not, ◌≡◌, refl, sym, ap, ◌∙◌, Option, none, some, List, [], ◌∷◌, ◌++◌,
  map, arith, ◌==◌, ◌||◌, if◌then◌else◌, Bool-cases, inl, inr,
}
use kube_overlay_operator.Base.Lists.{filter, contains}
use kube_overlay_operator.Base.Dict.{Dict, map_entries}
use kube_overlay_operator.Api.{OverlayNetwork, OverlayNetworkStatus, Pod}
use kube_overlay_operator.External.Lo.{Lo, IsLo, documented_lo, transport_lo}
use kube_overlay_operator.External.Finalizers.{
  Finalizers, IsFinalizers, transport_finalizers, documented_finalizers,
}
use kube_overlay_operator.External.Client.{
  Client, Log, Write, update_status, update_pod, ReconcileResult, done, requeue, ApiError,
  is_not_found,
}
use kube_overlay_operator.Net.Text.{NetText}
use kube_overlay_operator.PodController.Allocation.{
  update_network_status, deallocated_status, deallocate_ip,
}
use kube_overlay_operator.PodController.WellFormed.{rest_of}
use kube_overlay_operator.PodController.Reconcile.{
  LoopState, visit, visit_all, after_deallocation, finish_deletion, conclude, reconcile_since,
  reconcile_networks, pod_finalizer, is_error,
}

-- MapToSlice calls the function at every entry of the map, in some order.
abbrev pub IsMapToSlice : (Dict Bool → (String → Bool → Bool) → List Bool) → Type 0
IsMapToSlice map_to_slice =
    (m : Dict Bool) (f : String → Bool → Bool)
    → Perm (map_to_slice m f) (map (λ (e : String × Bool). f e.0 e.1) m)

-- An error other than that the object is gone.
abbrev pub is_refusal : Option ApiError → Bool
is_refusal none = false
is_refusal (some e) = not (is_not_found e)

-- Some of the writes is refused, if they are sent one after the other.
abbrev pub any_refused : Client → Log → List Write → Bool
any_refused c log [] = false
any_refused c log (w ∷ ws) = is_refusal (c.answer log w) || any_refused c (log ++ w ∷ []) ws

-- The status with the entries of the other pods only: of the allocations, of the routers, and of the
-- routers of each optional network.
abbrev pub taken_out : String → OverlayNetworkStatus → OverlayNetworkStatus
taken_out name s = record {
  allocations = rest_of name s.allocations;
  routers = rest_of name s.routers;
  optional_routers = map_entries (λ _ xs. rest_of name xs) s.optional_routers;
}

-- The writes that take the pod of a name out of networks.
abbrev pub removals : String → List OverlayNetwork → List Write
removals name = map (λ nw. update_status (record nw { status = taken_out name nw.status }))

taken_out_documented :
    (net : NetText) (nw : OverlayNetwork) (pod : Pod)
    → deallocated_status documented_lo net nw pod ≡ taken_out pod.meta.name nw.status
unfolding deallocated_status
taken_out_documented net nw pod = refl

taken_out_lem :
    {lo : Lo}
    → IsLo lo
    → (net : NetText) (nw : OverlayNetwork) (pod : Pod)
    → deallocated_status lo net nw pod ≡ taken_out pod.meta.name nw.status
taken_out_lem laws net nw pod =
    transport_lo laws (λ lo. deallocated_status lo net nw pod ≡ taken_out pod.meta.name nw.status)
      (taken_out_documented net nw pod)

module _ (lo : Lo) (net : NetText) (c : Client) (pod : Pod) where
  abbrev state : Bool → Log → LoopState
  state has_errors log = record { unique_networks = []; has_errors = has_errors; log = log }

  visit-deleted :
      IsLo lo
      → (nw : OverlayNetwork) (has_errors : Bool) (log : Log)
      → let w : Write = update_status (record nw { status = taken_out pod.meta.name nw.status }) in
        visit lo net c pod [] nw (state has_errors log)
        ≡ state (has_errors || is_refusal (c.answer log w)) (log ++ w ∷ [])
  unfolding visit after_deallocation deallocate_ip update_network_status
  visit-deleted laws nw has_errors log = rw (sym (taken_out_lem laws net nw pod)) (ground arith)

  visit_all-deleted :
      IsLo lo
      → (nws : List OverlayNetwork) (has_errors : Bool) (log : Log)
      → visit_all lo net c pod [] nws (state has_errors log)
        ≡ state
            (has_errors || any_refused c log (removals pod.meta.name nws))
            (log ++ removals pod.meta.name nws)
  unfolding visit_all
  visit_all-deleted laws [] has_errors log = rw append-nil (ground arith)
  visit_all-deleted laws (nw ∷ nws) has_errors log =
      rw (visit-deleted laws nw has_errors log)
        (visit_all-deleted laws nws _ _ ∙ rw append_assoc (ground arith))

  module _ (fz : Finalizers) (map_to_slice : Dict Bool → (String → Bool → Bool) → List Bool) where
    conclude-state :
        IsLo lo
        → IsMapToSlice map_to_slice
        → (has_errors : Bool) (log : Log)
        → conclude lo net c fz map_to_slice (state has_errors log)
          ≡ ((if has_errors then requeue else done), log)
    unfolding conclude
    conclude-state laws order has_errors log =
        let nothing = Perm.eq-nil (order [] (λ _ v. v)) in
        rw (nothing, laws.contains_bool_lem) (ground arith)

-- The pod without the finalizer of the operator.
abbrev pub released : Pod → Pod
released pod = record pod {
  meta = record (pod.meta) {
    finalizers = filter (λ g. not (g == pod_finalizer)) pod.meta.finalizers;
  };
}

-- The outcome for a deleted pod, from the answers of the server.
abbrev pub deletion_outcome : Client → Pod → List OverlayNetwork → ReconcileResult × Log
deletion_outcome c pod nws =
    let sent = removals pod.meta.name nws in
    if any_refused c [] sent
    then (requeue, sent)
    else if not (contains pod.meta.finalizers pod_finalizer)
    then (done, sent)
    else (
      (if is_error (c.answer sent (update_pod (released pod))) then requeue else done),
      sent ++ update_pod (released pod) ∷ [],
    )

module _ (net : NetText) (c : Client) (pod : Pod) (lo : Lo) where
  finish_deletion-state :
      (map_to_slice : Dict Bool → (String → Bool → Bool) → List Bool) (has_errors : Bool)
      (sent : Log)
      → finish_deletion lo net c documented_finalizers map_to_slice pod
          (state lo net c pod has_errors sent)
        ≡ (if has_errors || not (contains pod.meta.finalizers pod_finalizer)
            then state lo net c pod has_errors sent
            else state lo net c pod
                (is_error (c.answer sent (update_pod (released pod))))
                (sent ++ update_pod (released pod) ∷ []))
  unfolding finish_deletion
  finish_deletion-state map_to_slice true sent = refl
  finish_deletion-state map_to_slice false sent = ground arith

  deletion-documented :
      IsLo lo
      → (map_to_slice : Dict Bool → (String → Bool → Bool) → List Bool) → IsMapToSlice map_to_slice
      → (nws : List OverlayNetwork) (time : String)
      → reconcile_since lo net c documented_finalizers map_to_slice (some time) pod nws []
        ≡ deletion_outcome c pod nws
  unfolding reconcile_since
  deletion-documented laws map_to_slice order nws time =
      let sent = removals pod.meta.name nws in
      let concluded = conclude-state lo net c pod documented_finalizers map_to_slice laws order in
      rw (visit_all-deleted lo net c pod laws nws false [], finish_deletion-state)
        (elim (Bool-cases (any_refused c [] sent)) [
          | inl refused ↦ rw refused (concluded true sent)
          | inr accepted ↦
              rw accepted (elim (Bool-cases (contains pod.meta.finalizers pod_finalizer)) [
                | inl held ↦ rw held (concluded _ _)
                | inr free ↦ rw free (concluded false sent)
              ])
        ])

  -- For a deleted pod, Reconcile asks the server to write, for every listed network, its status with
  -- the entries of the other pods only: in the order of the list, and whatever the answers are. Only
  -- if no network refuses, where one that is gone does not count, is the operator's finalizer removed
  -- from a pod that has it. The pod is reconciled again if a network refuses or the update of the pod
  -- fails, and only then.
  pub reconcile_networks-deleted :
      {fz : Finalizers}
      → IsLo lo
      → IsFinalizers fz
      → (map_to_slice : Dict Bool → (String → Bool → Bool) → List Bool) → IsMapToSlice map_to_slice
      → (nws : List OverlayNetwork) (time : String) → pod.meta.deletion_timestamp ≡ some time
      → reconcile_networks lo net c fz map_to_slice pod nws [] ≡ deletion_outcome c pod nws
  unfolding reconcile_networks
  reconcile_networks-deleted laws fz_laws map_to_slice order nws time deleted =
      transport_finalizers fz_laws
        (λ fz. reconcile_networks lo net c fz map_to_slice pod nws [] ≡ deletion_outcome c pod nws)
        (ap (λ t. reconcile_since lo net c documented_finalizers map_to_slice t pod nws []) deleted
          ∙ deletion-documented laws map_to_slice order nws time)
