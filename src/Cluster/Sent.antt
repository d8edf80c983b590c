-- ===== src/Cluster/Sent.antt =====
-- What the Reconcile functions of both controllers send are writes that a step may make.
use kube_overlay_operator.Base.{String, Option}
use kube_overlay_operator.Base.Dict.{Dict}
use kube_overlay_operator.Api.{OverlayNetwork, Pod}
use kube_overlay_operator.External.Lo.{Lo}
use kube_overlay_operator.External.Finalizers.{Finalizers, IsFinalizers}
use kube_overlay_operator.External.Client.{Client, Write, update_pod}
use kube_overlay_operator.Net.Text.{NetText}
use kube_overlay_operator.PodController.Reconcile as PodController
use kube_overlay_operator.Cluster.{Sends}

module _ (lo : Lo) (net : NetText) {fz : Finalizers} (laws : IsFinalizers fz) (c : Client)
    (Known : OverlayNetwork → Type 0) where
  -- The write was computed from a known network, or it is one of a pod.
  pub data IsSent : Write → Type 0 where
    of_pod : (pod : Pod) → IsSent (update_pod pod)
    of_network :
        (nw : OverlayNetwork) (removed : Option String) (w : Write)
        → Known nw
        → Sends lo net fz nw removed w
        → IsSent w
