-- ===== src/PodController/Allocate.antt =====
-- What allocateIP makes of a status.
use kube_overlay_operator.Base.{
  String, Bool, true, false, ◌≡◌, ◌≢◌, refl, sym, subst, ◌∙◌, none, some, List, [], ◌∷◌, map, arith,
  ◌==◌, Bool-cases, inl, inr,
}
use mathlib.Core.List.{map-append}
use kube_overlay_operator.Base.Lists.{All, any, contains, contains-append}
use kube_overlay_operator.Base.Dict.{Dict, lookup, insert, get}
use kube_overlay_operator.Base.Result.{Result, ok, OnOk, >>=-eq-ok}
use kube_overlay_operator.Api.{
  OverlayNetwork, OverlayNetworkStatus, OverlayNetworkIpAllocation, Pod,
}
use kube_overlay_operator.External.Lo.{Lo, IsLo, documented_lo, transport_lo}
use kube_overlay_operator.Net.Text.{NetText}
use kube_overlay_operator.PodController.Allocation.{
  AllocationError, ensure_allocation, record_extra_routers, drop_other_routers, record_router,
  status_with, allocated_status,
}
use kube_overlay_operator.PodController.Ensure.{IsEnsured, ensure_allocation-IsEnsured}
use kube_overlay_operator.PodController.WellFormed.{
  IsWellFormed, AreRouters, AreRouters-mono, AreRouters-snoc, AreRouters-rest_of_same, IsBacked,
  contains-pod_names, rest_of, place, pod_names,
}

abbrev pub Allocations : Type 0
Allocations = List OverlayNetworkIpAllocation

module _ (allocations : Allocations) where
  abbrev AreOptional : Dict Allocations → Type 0
  AreOptional = All (λ e. AreRouters allocations e.1)

  AreRouters-get :
      (k : String) (m : Dict Allocations) → AreOptional m → AreRouters allocations (get [] k m)
  AreRouters-get k [] h = (tt, tt)
  AreRouters-get k ((j, xs) ∷ m) h = elim (Bool-cases (j == k)) [
    | inl same ↦ rw same h.0
    | inr other ↦ rw other (AreRouters-get k m h.1)
  ]

  AreOptional-insert :
      (k : String) (xs : Allocations) (m : Dict Allocations)
      → AreRouters allocations xs
      → AreOptional m
      → AreOptional (insert k xs m)
  AreOptional-insert k xs [] r h = (r, tt)
  AreOptional-insert k xs ((j, ys) ∷ m) r h = elim (Bool-cases (j == k)) [
    | inl same ↦ rw same (r, h.1)
    | inr other ↦ rw other (h.0, AreOptional-insert k xs m r h.1)
  ]

  record_extra_routers-AreOptional :
      (a : OverlayNetworkIpAllocation) (extra : List String) (m : Dict Allocations) (net : NetText)
      → IsBacked allocations a
      → AreOptional m
      → AreOptional (record_extra_routers documented_lo net a extra m)
  unfolding record_extra_routers
  record_extra_routers-AreOptional a [] m net b h = h
  record_extra_routers-AreOptional a (k ∷ extra) m net b h =
      record_extra_routers-AreOptional a extra _ net b
        (elim (Bool-cases (any (λ n. n.pod_name == a.pod_name) (get [] k m))) [
          | inl there ↦ rw there h
          | inr absent ↦ rw absent (
              AreOptional-insert k _ m
                (AreRouters-snoc allocations (get [] k m) a (AreRouters-get k m h) b
                  (sym (contains-pod_names a.pod_name (get [] k m)) ∙ absent))
                h)
        ])

  drop_other_routers-AreOptional :
      (pod : Pod) (extra : List String) (m : Dict Allocations) (net : NetText)
      → AreOptional m
      → AreOptional (drop_other_routers documented_lo net pod extra m)
  drop_other_routers-AreOptional pod extra [] net h = tt
  drop_other_routers-AreOptional pod extra ((k, xs) ∷ m) net h = (
    elim (Bool-cases (contains extra k)) [
      | inl serves ↦ rw serves h.0
      | inr drops ↦ rw drops (AreRouters-rest_of_same pod.meta.name allocations xs h.0)
    ],
    drop_other_routers-AreOptional pod extra m net h.1,
  )

  record_router-AreRouters :
      (pod : Pod) (is_router : Bool) (a : OverlayNetworkIpAllocation) (routers : Allocations)
      (net : NetText)
      → a.pod_name ≡ pod.meta.name
      → IsBacked allocations a
      → AreRouters allocations routers
      → AreRouters allocations (record_router documented_lo net pod is_router a routers)
  record_router-AreRouters pod true a routers net named b h =
      elim (Bool-cases (any (λ n. n.pod_name == pod.meta.name) routers)) [
        | inl there ↦ rw there h
        | inr absent ↦ rw absent (
            AreRouters-snoc allocations routers a h b
              (rw named (sym (contains-pod_names pod.meta.name routers) ∙ absent)))
      ]
  record_router-AreRouters pod false a routers net named b h =
      AreRouters-rest_of_same pod.meta.name allocations routers h

AreOptional-mono :
    (xs ys : Allocations) (m : Dict Allocations)
    → ((j : String) (v : String × String)
        → lookup j (map place xs) ≡ some v
        → lookup j (map place ys) ≡ some v)
    → AreOptional xs m
    → AreOptional ys m
AreOptional-mono xs ys [] grow h = tt
AreOptional-mono xs ys ((k, zs) ∷ m) grow h =
    (AreRouters-mono xs ys zs grow h.0, AreOptional-mono xs ys m grow h.1)

-- What allocateIP achieves for a pod: the status stays well formed, the pod has an allocation, the
-- allocations of other pods keep their addresses, and the pod is a router just if it should be.
pub record IsAllocated (pod : Pod) (is_router : Bool) (before after : OverlayNetworkStatus)
    : Type 0 where
  pub well_formed : IsWellFormed after
  pub has_place : lookup pod.meta.name (map place after.allocations) ≢ none
  pub kept :
      (j : String) (v : String × String)
      → lookup j (map place before.allocations) ≡ some v
      → lookup j (map place after.allocations) ≡ some v
  pub no_other :
      (j : String)
      → pod.meta.name ≢ j
      → lookup j (map place after.allocations) ≡ lookup j (map place before.allocations)
  pub routes : contains (pod_names after.routers) pod.meta.name ≡ is_router

contains-rest_of_self :
    (name : String) (xs : Allocations) → contains (pod_names (rest_of name xs)) name ≡ false
contains-rest_of_self name [] = refl
contains-rest_of_self name (x ∷ xs) = ground (arith, contains-rest_of_self name xs)

record_router-routes :
    (pod : Pod) (is_router : Bool) (a : OverlayNetworkIpAllocation) (routers : Allocations)
    (net : NetText)
    → a.pod_name ≡ pod.meta.name
    → contains (pod_names (record_router documented_lo net pod is_router a routers)) pod.meta.name
      ≡ is_router
record_router-routes pod false a routers net named = contains-rest_of_self pod.meta.name routers
record_router-routes pod true a routers net named =
    elim (Bool-cases (any (λ n. n.pod_name == pod.meta.name) routers)) [
      | inl there ↦ rw there (sym (contains-pod_names pod.meta.name routers) ∙ there)
      | inr absent ↦ rw absent (rw (map-append, contains-append) (ground (arith, named)))
    ]

status_with-IsAllocated :
    (net : NetText) (nw : OverlayNetwork) (pod : Pod) (is_router : Bool)
    (extra_routers : List String) (a : OverlayNetworkIpAllocation) (allocations : Allocations)
    → IsWellFormed nw.status
    → IsEnsured pod.meta.name nw.status.allocations a allocations
    → IsAllocated pod is_router nw.status
        (status_with documented_lo net nw pod is_router extra_routers (a, allocations))
status_with-IsAllocated net nw pod is_router extra_routers a allocations w en = record {
  well_formed = record {
    one_per_pod = en.one_per_pod w.one_per_pod;
    one_per_ip = en.one_per_ip w.one_per_ip;
    routers_known =
        record_router-AreRouters allocations pod is_router a nw.status.routers net en.named
          en.backed
          (AreRouters-mono nw.status.allocations allocations nw.status.routers en.grown
            w.routers_known);
    optional_known = drop_other_routers-AreOptional allocations pod extra_routers _ net (
        record_extra_routers-AreOptional allocations a extra_routers nw.status.optional_routers net
          en.backed
          (AreOptional-mono nw.status.allocations allocations nw.status.optional_routers en.grown
            w.optional_known));
  };
  has_place = λ e. cc (en.backed, en.named);
  kept = en.grown;
  no_other = en.unchanged;
  routes = record_router-routes pod is_router a nw.status.routers net en.named;
}

pub allocated_status-eq-ok :
    (net : NetText) (nw : OverlayNetwork) (pod : Pod) (is_router : Bool)
    (extra_networks extra_routers : List String) {s : OverlayNetworkStatus}
    → allocated_status documented_lo net nw pod is_router extra_networks extra_routers ≡ ok s
    → (p : OverlayNetworkIpAllocation × Allocations) × (ensure_allocation documented_lo net nw pod
          extra_networks
        ≡ ok p)
      × (◌≡◌ {A = Result AllocationError OverlayNetworkStatus}
          (ok (status_with documented_lo net nw pod is_router extra_routers p))
          (ok s))
unfolding allocated_status
allocated_status-eq-ok net nw pod is_router extra_networks extra_routers e =
    elim (Bool-cases (pod.pod_ip == "")) [
      | inl lacks ↦ absurd (ground (arith, lacks))
      | inr has_ip ↦
          >>=-eq-ok (ensure_allocation documented_lo net nw pod extra_networks) _
            (rw (has_ip, allocated_status) at e)
    ]

allocated_status-documented :
    (net : NetText) (nw : OverlayNetwork) (pod : Pod) (is_router : Bool)
    (extra_networks extra_routers : List String) {s : OverlayNetworkStatus}
    → IsWellFormed nw.status
    → allocated_status documented_lo net nw pod is_router extra_networks extra_routers ≡ ok s
    → IsAllocated pod is_router nw.status s
allocated_status-documented net nw pod is_router extra_networks extra_routers w e =
    let (p, ensured, made) =
      allocated_status-eq-ok net nw pod is_router extra_networks extra_routers e in
    subst (OnOk (IsAllocated pod is_router nw.status)) made (
      status_with-IsAllocated net nw pod is_router extra_routers p.0 p.1 w
        (ensure_allocation-IsEnsured net nw pod extra_networks p.0 p.1 ensured))

-- If allocateIP changes a well-formed status, the new one is well formed, holds an allocation of
-- the pod, has the same addresses for all other pods and for the pod if it had one, and names the
-- pod among the routers just if it is one.
pub allocated_status-IsAllocated :
    {lo : Lo} (laws : IsLo lo) (net : NetText) (nw : OverlayNetwork) (pod : Pod) (is_router : Bool)
    (extra_networks extra_routers : List String) (s : OverlayNetworkStatus)
    → IsWellFormed nw.status
    → allocated_status lo net nw pod is_router extra_networks extra_routers ≡ ok s
    → IsAllocated pod is_router nw.status s
allocated_status-IsAllocated laws net nw pod is_router extra_networks extra_routers s w =
    transport_lo laws
      (λ lo.
        allocated_status lo net nw pod is_router extra_networks extra_routers ≡ ok s
        → IsAllocated pod is_router nw.status s)
      (allocated_status-documented net nw pod is_router extra_networks extra_routers w)
