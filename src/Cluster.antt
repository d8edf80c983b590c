-- ===== src/Cluster.antt =====
-- The pod controller and the network controller at one network of the API server, interleaved with
-- each other and with users, in any order: each run works on a snapshot that was read before, and
-- that others may have overtaken.
pub mod Sent
pub mod Atomic
pub mod Always
pub mod Invariant
pub mod Holding
pub mod Registry
pub mod Progress
pub mod Inside
pub mod Admission
use kube_overlay_operator.Base.{
  String, Bool, true, false, not, ◌≡◌, Option, none, some, List, [], ◌∷◌, ◌==◌,
}
use mathlib.Core.List.{Memᴰ}
use kube_overlay_operator.Base.Lists.{contains}
use kube_overlay_operator.Base.Result.{ok}
use kube_overlay_operator.Api.{OverlayNetwork, OverlayNetworkStatus, Pod}
use kube_overlay_operator.External.Lo.{Lo}
use kube_overlay_operator.External.Finalizers.{Finalizers}
use kube_overlay_operator.External.Client.{Client, Write, update_status, update_network}
use kube_overlay_operator.External.Server.{Server, Snapshot}
use kube_overlay_operator.Net.Text.{NetText}
use kube_overlay_operator.PodController.Allocation.{allocated_status, deallocated_status}
use kube_overlay_operator.PodController.Wants.{is_wanted}
use kube_overlay_operator.OverlayController.{overlay_network_finalizer, by_deletion}

-- The network, and the snapshots of it that were read so far.
pub record System (sv : Server) : Type 0 where
  pub store : sv.Store
  pub seen : List Snapshot

-- The network has the finalizer of the network controller.
abbrev pub is_protected : OverlayNetwork → Bool
is_protected nw = contains nw.meta.finalizers overlay_network_finalizer

-- The pod is not the one that a step takes out of the network.
abbrev pub spares : String → Option String → Bool
spares pod none = true
spares pod (some removed) = not (removed == pod)

module _ (lo : Lo) (net : NetText) (fz : Finalizers) where
  -- The writes that the controllers may compute from a network, with the pod that they take out of
  -- it. They are more than the code sends: an allocation may be for any pod, with any arguments.
  pub data Sends (nw : OverlayNetwork) : Option String → Write → Type 0 where
    allocates :
        (pod : Pod) (is_router : Bool) (extra_networks extra_routers : List String)
        (s : OverlayNetworkStatus)
        → allocated_status lo net nw pod is_router extra_networks extra_routers ≡ ok s
        → Sends nw none (update_status (record nw { status = s }))
    deallocates :
        (c : Client) (pod : Pod)
        → is_wanted lo net c pod nw.meta.name ≡ false
        → Sends nw
            (some pod.meta.name)
            (update_status (record nw { status = deallocated_status lo net nw pod }))
    settles :
        (c : Client) (w : Write)
        → (by_deletion fz c nw.meta.deletion_timestamp nw []).1 ≡ w ∷ []
        → Sends nw none w

-- `Admits` says which creations and updates of users the API server lets in.
module _ (lo : Lo) (net : NetText) (fz : Finalizers)
    (Admits : Option OverlayNetwork → OverlayNetwork → Type 0) where
  -- A step, with the pod that it takes out of the network.
  pub data Step {sv : Server} (s : System sv) : Option String → System sv → Type 0 where
    -- A controller reads the network into its cache.
    observe :
        (snap : Snapshot)
        → sv.read s.store ≡ some snap
        → Step s none (record s { seen = snap ∷ s.seen })
    -- A controller sends what it computed from a snapshot, at the version of the snapshot.
    write :
        (snap : Snapshot) (removed : Option String) (w : Write)
        → Memᴰ snap s.seen
        → Sends lo net fz snap.network removed w
        → Step s removed (record s { store = (sv.update snap.version w s.store).1 })
    -- A user edits the network, and leaves the finalizer as it is.
    edit :
        (snap : Snapshot) (nw : OverlayNetwork)
        → Memᴰ snap s.seen
        → is_protected nw ≡ is_protected snap.network
        → Admits (some snap.network) nw
        → Step s none (record s { store = (sv.update snap.version (update_network nw) s.store).1 })
    create :
        (nw : OverlayNetwork)
        → Admits none nw
        → Step s none (record s { store = (sv.create nw s.store).1 })
    delete : (time : String) → Step s none (record s { store = (sv.delete time s.store).1 })

  -- The systems that come from one without the network.
  pub data Reach {sv : Server} : System sv → Type 0 where
    start : (st : sv.Store) → sv.read st ≡ none → Reach (record { store = st; seen = [] })
    later : {s t : System sv} {removed : Option String} → Reach s → Step s removed t → Reach t

  -- Steps that do not take the pod out of the network.
  pub data Run {sv : Server} (pod : String) (s : System sv) : System sv → Type 0 where
    stop : Run pod s s
    further :
        {t u : System sv} {removed : Option String}
        → Run pod s t
        → Step t removed u
        → spares pod removed ≡ true
        → Run pod s u
