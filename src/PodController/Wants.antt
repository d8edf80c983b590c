-- ===== src/PodController/Wants.antt =====
-- The networks that a pod wants, and the map of them that Reconcile keeps.
use kube_overlay_operator.Base.{
  String, Bool, true, false, ◌≡◌, refl, ◌∙◌, Option, none, some, [], ◌∷◌, arith, Bool-cases, inl,
  inr,
}
use kube_overlay_operator.Base.Dict.{Dict, has, insert}
use kube_overlay_operator.Api.{OverlayNetwork, Pod}
use kube_overlay_operator.External.Lo.{Lo}
use kube_overlay_operator.External.Client.{Client, Log}
use kube_overlay_operator.Net.Text.{NetText}
use kube_overlay_operator.PodController.Allocation.{AllocationError}
use kube_overlay_operator.PodController.Reconcile.{
  LoopState, unique_networks, visit, after_allocation, after_deallocation,
}

has-insert : (j k : String) (m : Dict Bool) → has k m ≡ true → has j (insert k true m) ≡ has j m
has-insert j k [] h = ground arith
has-insert j k ((i, v) ∷ m) h = ground (arith, has-insert j k m)

after_allocation-has :
    (name : String) (s : LoopState) (r : Option AllocationError × Log)
    → has name s.unique_networks ≡ true
    → (k : String) → has k (after_allocation name s r).unique_networks ≡ has k s.unique_networks
unfolding after_allocation
after_allocation-has name s (none, log) h k = has-insert k name s.unique_networks h
after_allocation-has name s (some e, log) h k = refl

after_deallocation-has :
    (s : LoopState) (r : Option AllocationError × Log) (k : String)
    → has k (after_deallocation s r).unique_networks ≡ has k s.unique_networks
unfolding after_deallocation
after_deallocation-has s (none, log) k = refl
after_deallocation-has s (some e, log) k = refl

-- The pod is not being deleted, and names the network.
abbrev pub wants : Lo → NetText → Client → Pod → Option String → String → Bool
wants lo net c pod (some time) name = false
wants lo net c pod none name = has name (unique_networks lo net c pod)

abbrev pub is_wanted : Lo → NetText → Client → Pod → String → Bool
is_wanted lo net c pod name = wants lo net c pod pod.meta.deletion_timestamp name

module _ (lo : Lo) (net : NetText) (c : Client) where
  -- The keys of the map are the networks that the pod wants.
  abbrev pub Matches : Pod → LoopState → Type 0
  Matches pod s = (k : String) → has k s.unique_networks ≡ is_wanted lo net c pod k

  pub visit-Matches :
      (pod : Pod) (routers : Dict Bool) (nw : OverlayNetwork) (s : LoopState)
      → Matches pod s
      → Matches pod (visit lo net c pod routers nw s)
  unfolding visit
  visit-Matches pod routers nw s m k = elim (Bool-cases (has nw.meta.name s.unique_networks)) [
    | inl named ↦ rw (named, visit) (after_allocation-has nw.meta.name s _ named k ∙ m k)
    | inr unnamed ↦ rw (unnamed, visit) (after_deallocation-has s _ k ∙ m k)
  ]
