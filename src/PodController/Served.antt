-- ===== src/PodController/Served.antt =====
-- When a run of the pod controller has served a network.
use mathlib.Core.Option
use kube_overlay_operator.Base.{
  String, Bool, true, false, ◌≡◌, ◌≢◌, refl, sym, ◌∙◌, ◌⊎◌, inl, inr, Option, none, some, List, [],
  ◌∷◌, map, arith, ◌==◌, Bool-cases,
}
use kube_overlay_operator.Base.Lists.{All, contains}
use kube_overlay_operator.Base.Dict.{Dict, lookup, has, lookup-insert}
use kube_overlay_operator.Base.Result.{Result-cases}
use kube_overlay_operator.Api.{OverlayNetwork, OverlayNetworkStatus, Pod}
use kube_overlay_operator.External.Lo.{Lo, IsLo}
use kube_overlay_operator.External.Client.{Client, Log, ApiError, update_status}
use kube_overlay_operator.Net.Text.{NetText}
use kube_overlay_operator.PodController.Allocation.{
  AllocationError, update_failed, update_network_status, allocated_status, deallocated_status,
  allocate_ip, deallocate_ip,
}
use kube_overlay_operator.PodController.WellFormed.{IsWellFormed, place}
use kube_overlay_operator.PodController.Deallocate.{deallocated_status-lookup}
use kube_overlay_operator.PodController.Allocate.{allocated_status-IsAllocated}
use kube_overlay_operator.PodController.Reconcile.{
  LoopState, visit, visit_all, after_allocation, after_deallocation,
}
use kube_overlay_operator.PodController.Deletion.{is_refusal}
use kube_overlay_operator.PodController.Wants.{is_wanted, Matches, visit-Matches}

abbrev is_some : {A : Type 0} → Option A → Bool
is_some none = false
is_some (some a) = true

is_some_of_ne : {A : Type 0} (o : Option A) → o ≢ none → is_some o ≡ true
is_some_of_ne none h = absurd (h refl)
is_some_of_ne (some a) h = refl

map-none : (o : Option ApiError) → Option.map update_failed o ≡ none → o ≡ none
map-none none h = refl
map-none (some e) h = absurd (ground arith)

after_allocation-good :
    (name : String) (s : LoopState) (r : Option AllocationError × Log)
    → (after_allocation name s r).has_errors ≡ false
    → (s.has_errors ≡ false) × (r.0 ≡ none)
unfolding after_allocation
after_allocation-good name s (none, log) h = (h, refl)
after_allocation-good name s (some e, log) h = absurd (ground arith)

after_deallocation-good :
    (s : LoopState) (r : Option AllocationError × Log)
    → (after_deallocation s r).has_errors ≡ false
    → (s.has_errors ≡ false) × (r.0 ≡ none)
unfolding after_deallocation
after_deallocation-good s (none, log) h = (h, refl)
after_deallocation-good s (some e, log) h = absurd (ground arith)

after_allocation-marks :
    (name : String) (s : LoopState) (r : Option AllocationError × Log) (k : String)
    → lookup k (after_allocation name s r).unique_networks ≡ some true
    → (lookup k s.unique_networks ≡ some true) ⊎ ((name == k) ≡ true)
unfolding after_allocation
after_allocation-marks name s (none, log) k h = elim (Bool-cases (name == k)) [
  | inl same ↦ inr same
  | inr other ↦ inl (ground (arith, lookup-insert k name true s.unique_networks, other, h))
]
after_allocation-marks name s (some e, log) k h = inl h

after_deallocation-marks :
    (s : LoopState) (r : Option AllocationError × Log) (k : String)
    → lookup k (after_deallocation s r).unique_networks ≡ some true
    → lookup k s.unique_networks ≡ some true
unfolding after_deallocation
after_deallocation-marks s (none, log) k h = h
after_deallocation-marks s (some e, log) k h = h

update_network_status-good :
    (c : Client) (nw : OverlayNetwork) (log : Log)
    → (update_network_status c nw log).0 ≡ none
    → is_refusal (c.answer log (update_status nw)) ≡ false
unfolding update_network_status
update_network_status-good c nw log h = ground arith

module _ (lo : Lo) (net : NetText) (c : Client) (pod : Pod) where
  -- A status of the network was sent that the server took, unless the network is gone, and in it the
  -- pod has an address just if it wants the network.
  pub record IsServed (nw : OverlayNetwork) : Type 0 where
    pub log : Log
    pub status : OverlayNetworkStatus
    pub taken : is_refusal (c.answer log (update_status (record nw { status = status }))) ≡ false
    pub has_address :
        is_some (lookup pod.meta.name (map place status.allocations))
        ≡ is_wanted lo net c pod nw.meta.name

  module _ (laws : IsLo lo) where
    allocate_ip-IsServed :
        (nw : OverlayNetwork) (is_router : Bool) (extra_networks extra_routers : List String)
        (log : Log)
        → IsWellFormed nw.status
        → is_wanted lo net c pod nw.meta.name ≡ true
        → (allocate_ip lo net c nw pod is_router extra_networks extra_routers log).0 ≡ none
        → IsServed nw
    unfolding allocate_ip
    allocate_ip-IsServed nw is_router extra_networks extra_routers log w wanted h =
        elim (Result-cases
          (allocated_status lo net nw pod is_router extra_networks extra_routers)) [
            | inr (e, bad) ↦ absurd (ground (arith, bad))
            | inl (s, good) ↦ record {
              log = log;
              status = s;
              taken =
                  update_network_status-good c (record nw { status = s }) log
                    (map-none _ (rw (good, allocate_ip) at h));
              has_address =
                  is_some_of_ne _
                    (allocated_status-IsAllocated laws net nw pod is_router extra_networks
                      extra_routers s w good).has_place
                  ∙ sym wanted;
            }
          ]

    deallocate_ip-IsServed :
        (nw : OverlayNetwork) (log : Log)
        → is_wanted lo net c pod nw.meta.name ≡ false
        → (deallocate_ip lo net c nw pod log).0 ≡ none
        → IsServed nw
    unfolding deallocate_ip
    deallocate_ip-IsServed nw log unwanted h = record {
      log = log;
      status = deallocated_status lo net nw pod;
      taken = update_network_status-good c _ log (map-none (update_network_status c _ log).0 h);
      has_address =
          ground (arith, deallocated_status-lookup laws net nw pod pod.meta.name, unwanted);
    }

    visit-IsServed :
        (routers : Dict Bool) (nw : OverlayNetwork) (s : LoopState)
        → IsWellFormed nw.status
        → Matches lo net c pod s
        → (visit lo net c pod routers nw s).has_errors ≡ false
        → (s.has_errors ≡ false) × IsServed nw
    unfolding visit
    visit-IsServed routers nw s w m h = elim (Bool-cases (has nw.meta.name s.unique_networks)) [
      | inl named ↦
          let (before, good) = after_allocation-good nw.meta.name s _ (rw (named, visit) at h) in
          (before, allocate_ip-IsServed nw _ _ _ s.log w (sym (m nw.meta.name) ∙ named) good)
      | inr unnamed ↦
          let (before, good) = after_deallocation-good s _ (rw (unnamed, visit) at h) in
          (before, deallocate_ip-IsServed nw s.log (sym (m nw.meta.name) ∙ unnamed) good)
    ]

    pub visit_all-IsServed :
        (routers : Dict Bool) (nws : List OverlayNetwork) (s : LoopState)
        → All (λ nw. IsWellFormed nw.status) nws
        → Matches lo net c pod s
        → (visit_all lo net c pod routers nws s).has_errors ≡ false
        → (s.has_errors ≡ false) × All IsServed nws
    unfolding visit_all
    visit_all-IsServed routers [] s w m h = (h, tt)
    visit_all-IsServed routers (nw ∷ nws) s w m h =
        let next = visit lo net c pod routers nw s in
        let (before, rest) =
          visit_all-IsServed routers nws next w.1 (visit-Matches lo net c pod routers nw s m) h in
        let (start, served) = visit-IsServed routers nw s w.0 m before in (start, (served, rest))

  pub visit_all-Matches :
      (routers : Dict Bool) (nws : List OverlayNetwork) (s : LoopState)
      → Matches lo net c pod s
      → Matches lo net c pod (visit_all lo net c pod routers nws s)
  unfolding visit_all
  visit_all-Matches routers [] s m = m
  visit_all-Matches routers (nw ∷ nws) s m =
      visit_all-Matches routers nws (visit lo net c pod routers nw s)
        (visit-Matches lo net c pod routers nw s m)

  -- The networks that are marked as served in the map.
  visit-marks :
      (routers : Dict Bool) (nw : OverlayNetwork) (s : LoopState) (k : String)
      → lookup k (visit lo net c pod routers nw s).unique_networks ≡ some true
      → (lookup k s.unique_networks ≡ some true) ⊎ ((nw.meta.name == k) ≡ true)
  unfolding visit
  visit-marks routers nw s k h = elim (Bool-cases (has nw.meta.name s.unique_networks)) [
    | inl named ↦ after_allocation-marks nw.meta.name s _ k (rw (named, visit) at h)
    | inr unnamed ↦ inl (after_deallocation-marks s _ k (rw (unnamed, visit) at h))
  ]

  pub visit_all-marks :
      (routers : Dict Bool) (nws : List OverlayNetwork) (s : LoopState) (k : String)
      → lookup k (visit_all lo net c pod routers nws s).unique_networks ≡ some true
      → (lookup k s.unique_networks ≡ some true)
        ⊎ (contains (map (λ nw. nw.meta.name) nws) k ≡ true)
  unfolding visit_all
  visit_all-marks routers [] s k h = inl h
  visit_all-marks routers (nw ∷ nws) s k h =
      elim (visit_all-marks routers nws (visit lo net c pod routers nw s) k h) [
        | inr later ↦ inr (ground arith)
        | inl before ↦ elim (visit-marks routers nw s k before) [
          | inl start ↦ inl start
          | inr here ↦ inr (ground arith)
        ]
      ]
