-- ===== src/Cluster/Invariant.antt =====
-- What the stored status is, however the controllers and users are interleaved.
use kube_overlay_operator.Base.{String, ◌≡◌, Option, none, some, arith}
use kube_overlay_operator.Api.{OverlayNetwork}
use kube_overlay_operator.External.Lo.{Lo, IsLo}
use kube_overlay_operator.External.Finalizers.{Finalizers, IsFinalizers}
use kube_overlay_operator.External.Client.{Write, update_network}
use kube_overlay_operator.External.Server.{Server, IsServer, stored, written, empty_status}
use kube_overlay_operator.Net.Text.{NetText}
use kube_overlay_operator.PodController.WellFormed.{IsWellFormed}
use kube_overlay_operator.PodController.Allocate.{allocated_status-IsAllocated}
use kube_overlay_operator.PodController.Deallocate.{deallocated_status-IsWellFormed}
use kube_overlay_operator.PodController.Writes.{IsSafe}
use kube_overlay_operator.OverlayController.Finalizer.{needed_write, by_deletion-needed_write}
use kube_overlay_operator.Cluster.{System, Sends, Step, Reach}
use kube_overlay_operator.Cluster.Always.{
  IfStored, unless_finalized-IfStored, IsSound, AllKeep, Step-IsSound, Reach-IsSound,
}

-- The status of the network is well formed.
abbrev pub IsTidy : OverlayNetwork → Type 0
IsTidy nw = IsWellFormed nw.status

empty_status-IsWellFormed : IsWellFormed empty_status
empty_status-IsWellFormed = record {
  one_per_pod = tt;
  one_per_ip = tt;
  routers_known = (tt, tt);
  optional_known = tt;
}

written-IsTidy :
    (nw : OverlayNetwork) (w : Write) → IsTidy nw → IsSafe w → IfStored IsTidy (written nw w)
written-IsTidy nw (Write.update_status nw') h safe = safe
written-IsTidy nw (Write.update_network nw') h safe =
    unless_finalized-IfStored IsTidy _ nw.meta.deletion_timestamp nw'.meta.finalizers h
written-IsTidy nw (Write.update_pod pod) h safe = h
written-IsTidy nw (Write.create_service_account a) h safe = h
written-IsTidy nw (Write.create_secret s) h safe = h
written-IsTidy nw (Write.create_role_binding r) h safe = h

needed_write-IsSafe :
    (time : Option String) (nw : OverlayNetwork) (w : Write)
    → needed_write time nw ≡ some w
    → IsSafe w
needed_write-IsSafe none nw w e = ground arith
needed_write-IsSafe (some time) nw w e = ground arith

module _ {lo : Lo} (lo_laws : IsLo lo) (net : NetText) {fz : Finalizers}
    (fz_laws : IsFinalizers fz) where
  pub Sends-IsSafe :
      (nw : OverlayNetwork) {removed : Option String} {w : Write}
      → Sends lo net fz nw removed w
      → IsTidy nw
      → IsSafe w
  Sends-IsSafe nw (Sends.allocates pod is_router extra_networks extra_routers s made) h =
      (allocated_status-IsAllocated lo_laws net nw pod is_router extra_networks extra_routers s h
        made).well_formed
  Sends-IsSafe nw (Sends.deallocates c pod unwanted) h =
      deallocated_status-IsWellFormed lo_laws net nw pod h
  Sends-IsSafe nw (Sends.settles c w sent) h =
      needed_write-IsSafe nw.meta.deletion_timestamp nw w
        (by_deletion-needed_write fz_laws c nw w sent)

  module _ {Admits : Option OverlayNetwork → OverlayNetwork → Type 0} where
    AllKeep-IsTidy : AllKeep lo net fz Admits IsTidy
    AllKeep-IsTidy = record {
      sends = λ nw h sent. written-IsTidy nw _ h (Sends-IsSafe nw sent h);
      edits = λ old nw h admitted. written-IsTidy old (update_network nw) h tt;
      creates = λ nw admitted. empty_status-IsWellFormed;
      deletes = λ time nw h. unless_finalized-IfStored IsTidy _ _ nw.meta.finalizers h;
    }

    module _ {sv : Server} (laws : IsServer sv) where
      pub Step-IsTidy :
          {s t : System sv} {removed : Option String}
          → Step lo net fz Admits s removed t
          → IsSound laws IsTidy s
          → IsSound laws IsTidy t
      Step-IsTidy = Step-IsSound lo net fz Admits IsTidy AllKeep-IsTidy laws

      pub Reach-IsTidySound : {s : System sv} → Reach lo net fz Admits s → IsSound laws IsTidy s
      Reach-IsTidySound = Reach-IsSound lo net fz Admits IsTidy AllKeep-IsTidy laws

      -- However the controllers and users are interleaved, and however old the snapshots are that
      -- they work on, the status that the server stores is well formed: every pod has one
      -- allocation, every address one pod, and all routers have allocations.
      pub Reach-IsTidy :
          {s : System sv} → Reach lo net fz Admits s → IfStored IsTidy (stored sv s.store)
      Reach-IsTidy reach = (Reach-IsTidySound reach).now
