-- ===== src/OverlayController.antt =====
-- controllers/overlaynetwork_controller.go
pub mod Finalizer
use kube_overlay_operator.Base.{
  String, Bool, true, false, not, Option, none, some, List, [], ◌∷◌, if◌then◌else◌, nat_eq,
}
use kube_overlay_operator.Base.Lists.{length}
use kube_overlay_operator.Base.Result.{ok, err}
use kube_overlay_operator.Api.{OverlayNetwork, ObjectMeta}
use kube_overlay_operator.External.Finalizers.{Finalizers}
use kube_overlay_operator.External.Client.{
  Client, Log, send, update_network, ApiError, is_not_found, ReconcileResult, done, failure,
}

abbrev pub overlay_network_finalizer : String
overlay_network_finalizer = "network.deinstapel.de/network-in-use"

abbrev pub with_finalizers : OverlayNetwork → List String → OverlayNetwork
with_finalizers nw finalizers = record nw { meta = record (nw.meta) { finalizers = finalizers } }

-- Update, where it is no error that the network is gone.
abbrev pub update_outcome : Option ApiError × Log → ReconcileResult × Log
update_outcome (none, log) = (done, log)
update_outcome (some e, log) = if is_not_found e then (done, log) else (failure e, log)

module _ (fz : Finalizers) (c : Client) where
  unfoldable pub handle_deletion : OverlayNetwork → Log → ReconcileResult × Log
  handle_deletion nw log =
      if not (fz.contains_finalizer nw.meta.finalizers overlay_network_finalizer)
      then (done, log)
      else if nat_eq (length nw.status.allocations) 0
      then (let (finalizers, changed) =
            fz.remove_finalizer nw.meta.finalizers overlay_network_finalizer in
          if changed
          then update_outcome (send c (update_network (with_finalizers nw finalizers)) log)
          else (done, log))
      else (done, log)

  -- The branch for a network that is not being deleted.
  unfoldable pub protect : OverlayNetwork → Log → ReconcileResult × Log
  protect nw log =
      let (finalizers, changed) = fz.add_finalizer nw.meta.finalizers overlay_network_finalizer in
      if changed
      then update_outcome (send c (update_network (with_finalizers nw finalizers)) log)
      else (done, log)

  unfoldable pub by_deletion : Option String → OverlayNetwork → Log → ReconcileResult × Log
  by_deletion (some time) nw log = handle_deletion nw log
  by_deletion none nw log = protect nw log

  unfoldable pub reconcile : String → String → Log → ReconcileResult × Log
  unfolding by_deletion
  reconcile namespace name log = elim (c.get_network log namespace name) [
    | err e ↦ if is_not_found e then (done, log) else (failure e, log)
    | ok nw ↦ by_deletion nw.meta.deletion_timestamp nw log
  ]
