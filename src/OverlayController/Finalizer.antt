-- ===== src/OverlayController/Finalizer.antt =====
-- The write that a network needs, and what Reconcile of overlaynetwork_controller.go sends.
use kube_overlay_operator.Base.{
  String, Bool, true, false, not, ◌≡◌, refl, ap, ◌∙◌, Option, none, some, List, [], ◌∷◌, ◌++◌,
  arith, if◌then◌else◌, ◌==◌, ◌&&◌, nat_eq, ◌⊎◌, inl, inr,
}
use kube_overlay_operator.Base.Lists.{contains, contains-append, filter, length}
use kube_overlay_operator.Base.Result.{ok}
use kube_overlay_operator.Api.{OverlayNetwork, OverlayNetworkIpAllocation}
use kube_overlay_operator.External.Finalizers.{
  Finalizers, IsFinalizers, documented_finalizers, transport_finalizers,
}
use kube_overlay_operator.External.Client.{
  Client, Log, Write, update_network, ReconcileResult, done, failure, is_not_found,
}
use kube_overlay_operator.OverlayController.{
  overlay_network_finalizer, with_finalizers, handle_deletion, protect, by_deletion, reconcile,
}

-- No address is allocated.
abbrev pub is_unused : List OverlayNetworkIpAllocation → Bool
is_unused [] = true
is_unused (a ∷ rest) = false

-- The write that a network needs: none, or one that adds or removes the finalizer.
abbrev pub needed_write : Option String → OverlayNetwork → Option Write
needed_write none nw =
    if contains nw.meta.finalizers overlay_network_finalizer
    then none
    else some
        (update_network (with_finalizers nw (nw.meta.finalizers ++ overlay_network_finalizer ∷ [])))
needed_write (some time) nw =
    if contains nw.meta.finalizers overlay_network_finalizer && is_unused nw.status.allocations
    then some (
        update_network (
          with_finalizers nw
            (filter (λ g. not (g == overlay_network_finalizer)) nw.meta.finalizers)))
    else none

-- The result after a write, or after none.
abbrev pub outcome : Client → Option Write → ReconcileResult × Log
outcome c none = (done, [])
outcome c (some w) = elim (c.answer [] w) [
  | none ↦ (done, w ∷ [])
  | some e ↦ if is_not_found e then (done, w ∷ []) else (failure e, w ∷ [])
]

is_unused_lem : (xs : List OverlayNetworkIpAllocation) → nat_eq (length xs) 0 ≡ is_unused xs
is_unused_lem [] = refl
is_unused_lem (x ∷ xs) = ground arith

by_deletion-documented :
    (c : Client) (nw : OverlayNetwork) (time : Option String)
    → by_deletion documented_finalizers c time nw [] ≡ outcome c (needed_write time nw)
unfolding by_deletion handle_deletion protect
by_deletion-documented c nw none = ground arith
by_deletion-documented c nw (some time) = ground (arith, is_unused_lem nw.status.allocations)

outcome-log : (c : Client) (w : Write) → (outcome c (some w)).1 ≡ w ∷ []
outcome-log c w = ground arith

outcome-eq : (c : Client) (n : Option Write) (w : Write) → (outcome c n).1 ≡ w ∷ [] → n ≡ some w
outcome-eq c none w e = absurd (ground (arith, e))
outcome-eq c (some n) w e = cc (e, outcome-log c n)

-- What by_deletion sends is the write that the network needs.
pub by_deletion-needed_write :
    {fz : Finalizers}
    → IsFinalizers fz
    → (c : Client) (nw : OverlayNetwork) (w : Write)
    → (by_deletion fz c nw.meta.deletion_timestamp nw []).1 ≡ w ∷ []
    → needed_write nw.meta.deletion_timestamp nw ≡ some w
by_deletion-needed_write laws c nw w =
    let time = nw.meta.deletion_timestamp in
    transport_finalizers laws
      (λ fz. (by_deletion fz c time nw []).1 ≡ w ∷ [] → needed_write time nw ≡ some w)
      (λ e. outcome-eq c (needed_write time nw) w (rw (by_deletion-documented c nw time) at e))

outcome-cases :
    (c : Client) (n : Option Write)
    → ((outcome c n).1 ≡ []) ⊎ ((w : Write) × ((outcome c n).1 ≡ w ∷ []))
outcome-cases c none = inl refl
outcome-cases c (some w) = inr (w, outcome-log c w)

-- One write is sent, or none.
pub by_deletion-cases :
    {fz : Finalizers}
    → IsFinalizers fz
    → (c : Client) (nw : OverlayNetwork) (time : Option String)
    → ((by_deletion fz c time nw []).1 ≡ [])
      ⊎ ((w : Write) × ((by_deletion fz c time nw []).1 ≡ w ∷ []))
by_deletion-cases laws c nw time =
    transport_finalizers laws
      (λ fz.
        ((by_deletion fz c time nw []).1 ≡ [])
        ⊎ ((w : Write) × ((by_deletion fz c time nw []).1 ≡ w ∷ [])))
      (rw by_deletion-documented (outcome-cases c (needed_write time nw)))

-- For a network that the server returns, Reconcile sends the one write that the network needs, or
-- none: a network that is not being deleted gets the finalizer if it lacks it, and one that is
-- being deleted loses it just if no address of it is allocated. The result is the server's error,
-- unless the network is gone.
pub reconcile-needed_write :
    {fz : Finalizers}
    → IsFinalizers fz
    → (c : Client) (namespace name : String) (nw : OverlayNetwork)
    → c.get_network [] namespace name ≡ ok nw
    → reconcile fz c namespace name [] ≡ outcome c (needed_write nw.meta.deletion_timestamp nw)
unfolding reconcile
reconcile-needed_write laws c namespace name nw found =
    rw (found, reconcile)
      (transport_finalizers laws
        (λ fz.
          by_deletion fz c nw.meta.deletion_timestamp nw []
          ≡ outcome c (needed_write nw.meta.deletion_timestamp nw))
        (by_deletion-documented c nw nw.meta.deletion_timestamp))

-- The same network as the server has it after the write.
abbrev pub after_write : OverlayNetwork → Option Write → OverlayNetwork
after_write nw none = nw
after_write nw (some (update_network nw')) = nw'
after_write nw (some _) = nw

contains-filter_self :
    (f : String) (fs : List String) → contains (filter (λ g. not (g == f)) fs) f ≡ false
contains-filter_self f [] = refl
contains-filter_self f (g ∷ gs) = ground (arith, contains-filter_self f gs)

-- A network that has got its needed write needs no further one.
needed_write-after_write :
    (nw : OverlayNetwork) (time : Option String)
    → needed_write time (after_write nw (needed_write time nw)) ≡ none
needed_write-after_write nw none =
    let fs = nw.meta.finalizers in
    ground (arith, contains-append fs (overlay_network_finalizer ∷ []) overlay_network_finalizer)
needed_write-after_write nw (some time) =
    ground (arith, contains-filter_self overlay_network_finalizer nw.meta.finalizers)

deletion_timestamp-after_write :
    (nw : OverlayNetwork) (time : Option String)
    → (after_write nw (needed_write time nw)).meta.deletion_timestamp ≡ nw.meta.deletion_timestamp
deletion_timestamp-after_write nw none = ground arith
deletion_timestamp-after_write nw (some time) = ground arith

-- One write settles a network: once the server returns it as the needed write leaves it, Reconcile
-- succeeds and sends nothing.
pub reconcile-settled :
    {fz : Finalizers}
    → IsFinalizers fz
    → (c : Client) (namespace name : String) (nw : OverlayNetwork)
    → c.get_network [] namespace name
      ≡ ok (after_write nw (needed_write nw.meta.deletion_timestamp nw))
    → reconcile fz c namespace name [] ≡ (done, [])
reconcile-settled laws c namespace name nw found =
    let time = nw.meta.deletion_timestamp in
    let nw' = after_write nw (needed_write time nw) in
    reconcile-needed_write laws c namespace name nw' found
    ∙ ap (λ t. outcome c (needed_write t nw')) (deletion_timestamp-after_write nw time)
    ∙ ap (outcome c) (needed_write-after_write nw time)
