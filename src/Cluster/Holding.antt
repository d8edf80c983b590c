-- ===== src/Cluster/Holding.antt =====
-- A pod keeps its address while the controllers and users are interleaved.
use kube_overlay_operator.Base.{
  String, true, false, ◌≡◌, refl, ◌∙◌, Option, none, some, List, [], ◌∷◌, map, arith, inl, inr,
}
use mathlib.Core.List.{Memᴰ}
use kube_overlay_operator.Base.Lists.{contains}
use kube_overlay_operator.Base.Dict.{lookup}
use kube_overlay_operator.Api.{OverlayNetwork, OverlayNetworkIpAllocation}
use kube_overlay_operator.External.Lo.{Lo, IsLo}
use kube_overlay_operator.External.Finalizers.{Finalizers, IsFinalizers}
use kube_overlay_operator.External.Client.{Write, update_network}
use kube_overlay_operator.External.Server.{
  Server, Snapshot, IsServer, stored, written, unless_finalized,
}
use kube_overlay_operator.Net.Text.{NetText}
use kube_overlay_operator.PodController.WellFormed.{place}
use kube_overlay_operator.PodController.Deallocate.{deallocated_status-lookup}
use kube_overlay_operator.PodController.Allocate.{allocated_status-IsAllocated}
use kube_overlay_operator.OverlayController.{overlay_network_finalizer}
use kube_overlay_operator.OverlayController.Finalizer.{
  is_unused, needed_write, by_deletion-needed_write,
}
use kube_overlay_operator.Cluster.{System, is_protected, spares, Sends, Step, Reach, Run}
use kube_overlay_operator.Cluster.Atomic.{All-member, update-cases, delete-cases, create-cases}
use kube_overlay_operator.Cluster.Invariant.{IsTidy, Step-IsTidy, Reach-IsTidySound}
use kube_overlay_operator.Cluster.Always.{IsSound}

-- The network has its finalizer, and the pod has the address and the pod address there.
pub record Holds (pod : String) (v : String × String) (nw : OverlayNetwork) : Type 0 where
  pub protected : is_protected nw ≡ true
  pub has : lookup pod (map place nw.status.allocations) ≡ some v

-- There is a network, and it has the property.
abbrev pub IsStored : (OverlayNetwork → Type 0) → Option OverlayNetwork → Type 0
IsStored P none = ⊥
IsStored P (some nw) = P nw

unless_finalized-IsStored :
    (P : OverlayNetwork → Type 0) (nw : OverlayNetwork) (time : Option String) (fs : List String)
    → contains fs overlay_network_finalizer ≡ true
    → P nw
    → IsStored P (unless_finalized nw time fs)
unless_finalized-IsStored P nw none fs e h = h
unless_finalized-IsStored P nw (some time) [] e h = absurd (ground arith)
unless_finalized-IsStored P nw (some time) (f ∷ fs) e h = h

is_unused-lookup :
    (pod : String) (v : String × String) (xs : List OverlayNetworkIpAllocation)
    → lookup pod (map place xs) ≡ some v
    → is_unused xs ≡ false
is_unused-lookup pod v [] e = absurd (ground arith)
is_unused-lookup pod v (x ∷ xs) e = refl

module _ (pod : String) (v : String × String) (nw : OverlayNetwork) (h : Holds pod v nw) where
  -- No write is needed that removes the finalizer.
  needed_write-Holds : (time : Option String) (w : Write) → needed_write time nw ≡ some w → ⊥
  needed_write-Holds none w e = ground (arith, h.protected)
  needed_write-Holds (some time) w e =
      ground (arith, h.protected, is_unused-lookup pod v nw.status.allocations h.has)

  module _ {lo : Lo} (lo_laws : IsLo lo) (net : NetText) {fz : Finalizers}
      (fz_laws : IsFinalizers fz) where
    Sends-Holds :
        {removed : Option String} {w : Write}
        → IsTidy nw
        → Sends lo net fz nw removed w
        → spares pod removed ≡ true
        → IsStored (Holds pod v) (written nw w)
    Sends-Holds tidy (Sends.allocates q is_router extra_networks extra_routers s made) spared =
        record {
          protected = h.protected;
          has =
              (allocated_status-IsAllocated lo_laws net nw q is_router extra_networks extra_routers
                  s tidy made).kept
                pod v h.has;
        }
    Sends-Holds tidy (Sends.deallocates c q unwanted) spared = record {
      protected = h.protected;
      has = ground (arith, deallocated_status-lookup lo_laws net nw q pod, h.has, spared);
    }
    Sends-Holds tidy (Sends.settles c w sent) spared = absurd (
        needed_write-Holds nw.meta.deletion_timestamp w
          (by_deletion-needed_write fz_laws c nw w sent))

module _ {sv : Server} (pod : String) (v : String × String) where
  -- The stored network holds the pod's address.
  abbrev pub IsHolding : System sv → Type 0
  IsHolding s = IsStored (Holds pod v) (stored sv s.store)

  module _ (laws : IsServer sv) where
    updated-Holds :
        (s : System sv) (snap : Snapshot) (w : Write)
        → Memᴰ snap s.seen
        → IsSound laws IsTidy s
        → IsHolding s
        → (Holds pod v snap.network → IsStored (Holds pod v) (written snap.network w))
        → IsStored (Holds pod v) (stored sv (sv.update snap.version w s.store).1)
    updated-Holds s snap w m sound h kept =
        elim (update-cases laws s.store snap w (All-member (laws.Had s.store) m sound.known)) [
          | inl same ↦ rw same h
          | inr (current, after) ↦ rw after (kept (rw current at h))
        ]

module _ {lo : Lo} (lo_laws : IsLo lo) (net : NetText) {fz : Finalizers} (fz_laws : IsFinalizers fz)
    {Admits : Option OverlayNetwork → OverlayNetwork → Type 0} {sv : Server} (laws : IsServer sv)
    (pod : String) (v : String × String) where
  Step-IsHolding :
      {s t : System sv} {removed : Option String}
      → IsSound laws IsTidy s
      → Step lo net fz Admits s removed t
      → spares pod removed ≡ true
      → IsHolding pod v s
      → IsHolding pod v t
  Step-IsHolding sound (Step.observe snap read) spared h = h
  Step-IsHolding {s} sound (Step.write snap removed w m sends) spared h =
      updated-Holds pod v laws s snap w m sound h (λ holds.
        Sends-Holds pod v snap.network holds lo_laws net fz_laws
          (All-member (λ snap. IsTidy snap.network) m sound.before) sends spared)
  Step-IsHolding {s} sound (Step.edit snap nw m same admitted) spared h =
      updated-Holds pod v laws s snap (update_network nw) m sound h (λ holds.
        unless_finalized-IsStored (Holds pod v) _ snap.network.meta.deletion_timestamp
          nw.meta.finalizers (same ∙ holds.protected)
          (record { protected = same ∙ holds.protected; has = holds.has }))
  Step-IsHolding {s} sound (Step.create nw admitted) spared h =
      elim (create-cases laws s.store nw) [
        | inl same ↦ rw same h
        | inr (absent, after) ↦ absurd (rw absent at h)
      ]
  Step-IsHolding {s} sound (Step.delete time) spared h = elim (delete-cases laws s.store time) [
    | inl same ↦ rw same h
    | inr (nw, before, after) ↦
        let holds : Holds pod v nw = rw before at h in
        rw after (
          unless_finalized-IsStored (Holds pod v) _ _ nw.meta.finalizers holds.protected
            (record { protected = holds.protected; has = holds.has }))
  ]

  Run-IsSound :
      {s t : System sv}
      → IsSound laws IsTidy s
      → Run lo net fz Admits pod s t
      → IsSound laws IsTidy t
  Run-IsSound sound Run.stop = sound
  Run-IsSound sound (Run.further run step spared) =
      Step-IsTidy lo_laws net fz_laws laws step (Run-IsSound sound run)

  sound_run-IsHolding :
      {s t : System sv}
      → IsSound laws IsTidy s
      → IsHolding pod v s
      → Run lo net fz Admits pod s t
      → IsHolding pod v t
  sound_run-IsHolding sound h Run.stop = h
  sound_run-IsHolding sound h (Run.further run step spared) =
      Step-IsHolding (Run-IsSound sound run) step spared (sound_run-IsHolding sound h run)

  -- Once a network with the finalizer holds an address of a pod, it stays so for as long as the pod
  -- controller does not take the pod out of it: however controllers and users are interleaved, and
  -- also when the network is deleted, it stays stored with its finalizer, and the pod keeps its
  -- address and its pod address in it.
  pub Run-IsHolding :
      {s t : System sv}
      → Reach lo net fz Admits s
      → IsHolding pod v s
      → Run lo net fz Admits pod s t
      → IsHolding pod v t
  Run-IsHolding reach = sound_run-IsHolding (Reach-IsTidySound lo_laws net fz_laws laws reach)
